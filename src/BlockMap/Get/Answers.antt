-- ===== src/BlockMap/Get/Answers.antt =====
-- The answers of kr_get_blocks (inode.c).
use k_rack.Common.{ℕ, zero, suc, ◌+◌, ◌≤◌, ◌<◌, ◌≡◌, ◌≢◌, Bool, true, false, ltb, eio, eagain}
use k_rack.BlockMap.{Tree}
use k_rack.BlockMap.Position.{block_at}
use k_rack.BlockMap.Get.{File, Setting, Answer, mapped, hole, failed}
use k_rack.BlockMap.Get.Allocated.{AllocatedOk}

-- The trees in which the blocks are looked at.
abbrev pub moment : Setting → ℕ → Tree
moment w zero = w.seen
moment w (suc j) = w.meanwhile (suc j)

-- Blocks that are there, each in its tree, and nothing changes.
abbrev pub FoundOk :
    {S : Type 0} → Setting → File S → ℕ → ℕ → ℕ → (ℕ → Tree) → File S × Answer → Type 0
FoundOk w f iblock maxblocks boundary trees r =
    (count : ℕ) × (bno : ℕ) × (r ≡ (f, mapped count bno false (ltb boundary count)))
    × (0 < count)
    × (count ≤ maxblocks)
    × (bno ≢ 0)
    × ((j : ℕ) → j < count → block_at w.geometry (trees j) (iblock + j) ≡ bno + j)

-- The answers of kr_get_blocks.
pub data GetOk {S : Type 0} (used : S → ℕ → Bool) (Ok : S → Type 0) (w : Setting) (f : File S)
    (iblock maxblocks : ℕ) (create : Bool) (boundary : ℕ) (r : File S × Answer) : Type 0 where
  found :
      FoundOk w f iblock maxblocks boundary (moment w) r
      → GetOk used Ok w f iblock maxblocks create boundary r
  found_later :
      create ≡ true
      → FoundOk w f iblock maxblocks boundary (λ j. f.tree) r
      → GetOk used Ok w f iblock maxblocks create boundary r
  no_block :
      r ≡ (f, hole)
      → create ≡ false
      → block_at w.geometry w.seen iblock ≡ 0
      → GetOk used Ok w f iblock maxblocks create boundary r
  unreadable :
      r ≡ (f, failed eio)
      → (b : ℕ) → w.broken b ≡ true
      → GetOk used Ok w f iblock maxblocks create boundary r
  changed :
      r ≡ (f, failed eagain)
      → create ≡ false
      → (j : ℕ) → w.meanwhile j ≢ w.seen
      → GetOk used Ok w f iblock maxblocks create boundary r
  extended :
      create ≡ true
      → AllocatedOk used Ok w f iblock maxblocks boundary r
      → GetOk used Ok w f iblock maxblocks create boundary r
