-- ===== src/BlockMap/Truncate/Laws.antt =====
-- The pointers that kr_free_branches (inode.c) clears, and the blocks that it frees.
use k_rack.Common.{ℕ, Bool, List}
use k_rack.BlockMap.{Tree}
use k_rack.BlockMap.Write.Laws.{Distinct}
use k_rack.BlockMap.Truncate.{Call}
use k_rack.BlockMap.Truncate.Cleared.{freed, Cleared, Small, FreedOk, Unique}

module _ (broken : ℕ → Bool) where
  -- What a round needs of the walk below a block.
  abbrev Below : (Tree → ℕ → Tree × List Call) → Type 0
  Below below = (d : Tree) (nr : ℕ) → Small broken d → FreedOk broken d (below d nr)

  abbrev Once : Tree → Tree × List Call → Type 0
  Once d r = Unique broken d → Distinct (freed r.1)
