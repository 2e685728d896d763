-- ===== src/Log/Restart.antt =====
-- A power cut during recovery does no harm.
use native.Mathlib.Decide.{dec_le}
use ztl_os.Base.{ℕ, ◌+◌, ◌≤◌, ◌<◌, ◌≡◌, inl, inr, ◌∙◌, sym, ap, arith}
use ztl_os.Log.{Block}
use ztl_os.Log.Recovery.{
  not_start, recovered-slot, recovered-other, recovered-header_cleared, recovered-logged,
  recovered-header_kept, recovered-empty, recovered, Layout, Holds, IsHome,
}
use ztl_os.Log.Copies.{written_or_spared}

module _ (start size n : ℕ) (block : ℕ → ℕ) (lay : Layout start n block) where
  -- The power has no say once it lasts for all logged blocks.
  recovered_power :
      (d : ℕ → Block) (p q b : ℕ)
      → Holds start n block d
      → n ≤ p
      → n ≤ q
      → IsHome start n b
      → recovered start size p d b ≡ recovered start size q d b
  recovered_power d p q b h hp hq home = elim (written_or_spared block n 0 n b (omega arith)) [
    | inl (i, a, c, z) ↦ rw (← z) (
        recovered-logged start size n block lay d h p i hp c
        ∙ sym (recovered-logged start size n block lay d h q i hq c))
    | inr spared ↦
        recovered-other start size n block lay d h p b home spared
        ∙ sym (recovered-other start size n block lay d h q b home spared)
  ]

  -- What an interrupted recovery leaves holds the same log.
  recovered-Holds :
      (d : ℕ → Block) (cut : ℕ)
      → Holds start n block d
      → cut ≤ n
      → Holds start n block (recovered start size cut d)
  recovered-Holds d cut h few =
      let kept = recovered-header_kept start size n block lay d h cut few in
      record {
        number = ap (λ (w : Block). w 0) kept ∙ h.number;
        blocks = λ i a. ap (λ (w : Block). w (i + 1)) kept ∙ h.blocks i a;
      }

  recovered_again :
      (d : ℕ → Block) (cut p b : ℕ)
      → Holds start n block d
      → cut ≤ n
      → n ≤ p
      → IsHome start n b
      → recovered start size p (recovered start size cut d) b ≡ recovered start size p d b
  recovered_again d cut p b h few room home =
      let h' = recovered-Holds d cut h few in
      elim (written_or_spared block n 0 n b (omega arith)) [
        | inl (i, a, c, z) ↦ rw (← z) (
            recovered-logged start size n block lay _ h' p i room c
            ∙ recovered-slot start size n block lay d h cut i c
            ∙ sym (recovered-logged start size n block lay d h p i room c))
        | inr spared ↦
            recovered-other start size n block lay _ h' p b home spared
            ∙ recovered-other start size n block lay d h cut b home spared
            ∙ sym (recovered-other start size n block lay d h p b home spared)
      ]

-- A power cut during recovery, after any number of disk writes, does no harm: recovering from what
-- it left gives every home block the contents that an undisturbed recovery gives it.
pub recovery_restarts :
    (start size n cut p b : ℕ) (block : ℕ → ℕ) (d : ℕ → Block)
    → Layout start n block
    → Holds start n block d
    → n < p
    → IsHome start n b
    → recovered start size p (recovered start size cut d) b ≡ recovered start size p d b
recovery_restarts start size n cut p b block d lay h room home = elim (dec_le cut n) [
  | yes few ↦ recovered_again start size n block lay d cut p b h few (omega arith) home
  | no enough ↦
      recovered-empty start size p b _
        (recovered-header_cleared start size n block lay d h cut (omega arith))
        (λ e. not_start n e home)
      ∙ recovered_power start size n block lay d cut p b h (omega arith) (omega arith) home
]
