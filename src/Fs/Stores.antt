-- ===== src/Fs/Stores.antt =====
-- src/fs.c, the inode as it stands on the disk and as it stands in memory, field by field.
use ztl_os.Base.{ℕ, ◌≡◌}
use ztl_os.Fs.{Dinode, Inode}

-- The inode on the disk says what the inode in memory says.
pub record Stores (d : Dinode) (ip : Inode) : Type 0 where
  pub type_same : d.type ≡ ip.type
  pub major_same : d.major ≡ ip.major
  pub minor_same : d.minor ≡ ip.minor
  pub nlink_same : d.nlink ≡ ip.nlink
  pub size_same : d.size ≡ ip.size
  pub addrs_same : (j : ℕ) → d.addrs j ≡ ip.addrs j
