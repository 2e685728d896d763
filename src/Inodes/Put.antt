-- ===== src/Inodes/Put.antt =====
-- `iput` gives a reference back.
use ztl_os.Base.{ℕ, ◌-◌, ◌<◌, ◌≡◌, ◌≢◌, Bool, true, false, ◌&&◌, Option, some, ◌==◌, update}
use ztl_os.Fs.{Fs, ndirect, maxfile}
use ztl_os.Fs.Blocks.{in_use}
use ztl_os.Fs.Mapped.{address}
use ztl_os.Inodes.{Slot, Cache}
use ztl_os.Inodes.Counted.{Counted, refs, inums}

-- the last reference to a file that no directory names
abbrev pub is_last : Slot → Bool
is_last s = (s.ref == 1) && s.valid && (s.ip.nlink == 0)

-- One reference less, all else being as before; or the file is gone from the disk.
pub data Puts (i : ℕ) (c : Cache) (f : ℕ → ℕ) : Option Cache → Type 0 where
  puts :
      {c' : Cache}
      → is_last (c.slot i) ≡ false
      → Counted (refs c') (inums c') (update f (inums c i) (f (inums c i) - 1))
      → c'.fs ≡ c.fs
      → ((j : ℕ) → j ≢ i → c'.slot j ≡ c.slot j)
      → Puts i c f (some c')
  removes :
      {c' : Cache}
      → is_last (c.slot i) ≡ true
      → Counted (refs c') (inums c') (update f (inums c i) (f (inums c i) - 1))
      → (c'.fs.dinodes (inums c i)).type ≡ 0
      → ((j : ℕ)
          → j < maxfile
          → address c.fs (c.slot i).ip j ≢ 0
          → in_use c'.fs (address c.fs (c.slot i).ip j) ≡ false)
      → ((b : ℕ)
          → ((j : ℕ)
              → j < maxfile
              → address c.fs (c.slot i).ip j ≢ 0
              → address c.fs (c.slot i).ip j ≢ b)
          → ((c.slot i).ip.addrs ndirect ≢ 0 → (c.slot i).ip.addrs ndirect ≢ b)
          → in_use c'.fs b ≡ in_use c.fs b)
      → ((j : ℕ) → j ≢ i → c'.slot j ≡ c.slot j)
      → ((c.slot i).ip.addrs ndirect ≢ 0 → in_use c'.fs ((c.slot i).ip.addrs ndirect) ≡ false)
      → ((n : ℕ) → n ≢ inums c i → c'.fs.dinodes n ≡ c.fs.dinodes n)
      → (c'.slot i).valid ≡ false
      → Puts i c f (some c')
