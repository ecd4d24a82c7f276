-- ===== src/BlockPath/Tests.antt =====
-- Runs of kr_block_to_path, and its laws at blocks of 4096 bytes.
use k_rack.Common.{ℕ, ◌+◌, ◌^◌, ◌≤◌, ◌≡◌, refl, [], ◌∷◌, arith, pos, negsuc}
use k_rack.BlockPath.{Geometry, block_to_path}
use k_rack.BlockPath.Laws.{
  IsPath, block_of, capacity, move_on, block_to_path-block_of, block_of-block_to_path,
  block_to_path-none, boundary-move_on,
}

abbrev page_geometry : Geometry
page_geometry = record { ptrs = 1024; ptrs_bits = 10 }

double_indirect :
    block_to_path page_geometry (pos 5000)
    ≡ record { offsets = 13 ∷ 3 ∷ 892 ∷ []; boundary = pos 131 }
unfolding block_to_path
double_indirect = refl

block_to_path-block_of_example :
    IsPath 1024 (block_to_path page_geometry (pos 5000)).offsets
    × (block_of 1024 (block_to_path page_geometry (pos 5000)).offsets ≡ 5000)
block_to_path-block_of_example =
    block_to_path-block_of page_geometry refl (omega arith) 5000 (omega arith)

block_of-block_to_path_example :
    (block_to_path page_geometry (pos (block_of 1024 (14 ∷ 1 ∷ 2 ∷ 3 ∷ [])))).offsets
    ≡ 14 ∷ 1 ∷ 2 ∷ 3 ∷ []
block_of-block_to_path_example =
    block_of-block_to_path page_geometry refl (omega arith) (14 ∷ 1 ∷ 2 ∷ 3 ∷ []) (omega arith)

block_to_path-none_example :
    (capacity 1024 ≤ 2 ^ 31 → (block_to_path page_geometry (pos (2 ^ 31))).offsets ≡ [])
    × ((block_to_path page_geometry (negsuc (2 ^ 31))).offsets ≡ [])
block_to_path-none_example = block_to_path-none page_geometry refl (omega arith) (2 ^ 31)

boundary-move_on_example :
    (n : ℕ) × ((block_to_path page_geometry (pos 5000)).boundary ≡ pos n)
    × ((k : ℕ)
        → k ≤ n
        → (block_to_path page_geometry (pos (5000 + k))).offsets
          ≡ move_on k (block_to_path page_geometry (pos 5000)).offsets)
boundary-move_on_example = boundary-move_on page_geometry refl (omega arith) 5000 (omega arith)
