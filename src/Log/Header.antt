-- ===== src/Log/Header.antt =====
-- The header block: what `write_head` stores in it, `read_head` finds again.
use ztl_os.Base.{
  inr, ==_iff, inl, ◌==◌, Bool-cases, ℕ, zero, suc, ◌+◌, ◌≤◌, ◌<◌, ◌≡◌, refl, ◌∙◌, arith,
  update_self, update_ne,
}
use ztl_os.Log.{Block, LogHeader, load_blocks, store_blocks, header_words}

store_blocks-other :
    (k i e j : ℕ) (block : ℕ → ℕ) (words : Block)
    → i + k ≡ e
    → j < i + 1
    → store_blocks k i block words j ≡ words j
unfolding store_blocks
store_blocks-other zero i e j block words q h = refl
store_blocks-other (suc k) i e j block words q h =
    store_blocks-other k (i + 1) e j block _ (omega arith) (omega arith)
    ∙ update_ne words (i + 1) (block i) j (omega arith)

store_blocks-stored :
    (k i e j : ℕ) (block : ℕ → ℕ) (words : Block)
    → i + k ≡ e
    → i ≤ j
    → j < e
    → store_blocks k i block words (j + 1) ≡ block j
unfolding store_blocks
store_blocks-stored zero i e j block words q a h = absurd (omega arith)
store_blocks-stored (suc k) i e j block words q a h = elim (Bool-cases (i == j)) [
  | inl same ↦
      let here : i ≡ j = (==_iff i j).0 same in
      rw (← here) (
        store_blocks-other k (i + 1) e (i + 1) block _ (omega arith) (omega arith)
        ∙ update_self words (i + 1) (block i))
  | inr later ↦ store_blocks-stored k (i + 1) e j block _ (omega arith) (ground arith) h
]

load_blocks-other :
    (k i e j : ℕ) (words : Block) (block : ℕ → ℕ)
    → i + k ≡ e
    → j < i
    → load_blocks k i words block j ≡ block j
unfolding load_blocks
load_blocks-other zero i e j words block q h = refl
load_blocks-other (suc k) i e j words block q h =
    load_blocks-other k (i + 1) e j words _ (omega arith) (omega arith)
    ∙ update_ne block i (words (i + 1)) j (omega arith)

pub load_blocks-loaded :
    (k i e j : ℕ) (words : Block) (block : ℕ → ℕ)
    → i + k ≡ e
    → i ≤ j
    → j < e
    → load_blocks k i words block j ≡ words (j + 1)
unfolding load_blocks
load_blocks-loaded zero i e j words block q a h = absurd (omega arith)
load_blocks-loaded (suc k) i e j words block q a h = elim (Bool-cases (i == j)) [
  | inl same ↦
      let here : i ≡ j = (==_iff i j).0 same in
      rw (← here) (
        load_blocks-other k (i + 1) e i words _ (omega arith) (omega arith)
        ∙ update_self block i (words (i + 1)))
  | inr later ↦ load_blocks-loaded k (i + 1) e j words _ (omega arith) (ground arith) h
]

-- Word 0 of the header is the count, and the words behind it are the block numbers.
pub header_words-n : (h : LogHeader) (words : Block) → header_words h words 0 ≡ h.n
header_words-n h words =
    store_blocks-other h.n 0 h.n 0 h.block _ (omega arith) (omega arith) ∙ update_self words 0 h.n

pub header_words-block :
    (h : LogHeader) (words : Block) (j : ℕ) → j < h.n → header_words h words (j + 1) ≡ h.block j
header_words-block h words j a =
    store_blocks-stored h.n 0 h.n j h.block _ (omega arith) (omega arith) a

-- A header that is stored in a block and loaded again is the same: its count and its blocks.
pub load-store :
    (h : LogHeader) (words : Block) (before : ℕ → ℕ) (j : ℕ)
    → j < h.n
    → let stored = header_words h words in
      (stored 0 ≡ h.n) × (load_blocks (stored 0) 0 stored before j ≡ h.block j)
load-store h words before j a = (
  header_words-n h words,
  load_blocks-loaded (header_words h words 0) 0 h.n j (header_words h words) before
        (omega (arith, header_words-n h words)) (omega arith) a
      ∙ header_words-block h words j a,
)
