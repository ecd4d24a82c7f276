-- ===== src/BlockMap/Alloc/Runs.antt =====
-- Runs of blocks and lists of different blocks, for kr_alloc_blocks (inode.c).
use k_rack.Common.{
  ℕ, zero, suc, ◌+◌, ◌-◌, ◌≤◌, ◌≡◌, refl, ap, ◌∙◌, true, false, ◌||◌, List, [], ◌∷◌, ◌++◌, arith,
  ==_iff, length,
}
use k_rack.BlockMap.Alloc.{run}
use k_rack.BlockMap.Write.Laws.{mem, Distinct, in_run}

pub mem-append : (x : ℕ) (xs ys : List ℕ) → mem x (xs ++ ys) ≡ (mem x xs || mem x ys)
unfolding mem
mem-append x [] ys = refl
mem-append x (y ∷ xs) ys = ground (arith, mem-append x xs ys)

pub mem-run : (x b n : ℕ) → mem x (run b n) ≡ in_run b n x
unfolding mem run
mem-run x b zero = ground arith
mem-run x b (suc n) = ground (arith, mem-run x (b + 1) n, ==_iff x b)

pub Distinct-run : (b n : ℕ) → Distinct (run b n)
unfolding run
Distinct-run b zero = tt
Distinct-run b (suc n) = (mem-run b (b + 1) n ∙ ground arith, Distinct-run (b + 1) n)

pub Distinct-append :
    (xs ys : List ℕ)
    → Distinct xs
    → Distinct ys
    → ((x : ℕ) → mem x xs ≡ true → mem x ys ≡ false)
    → Distinct (xs ++ ys)
unfolding mem
Distinct-append [] ys h h' apart = h'
Distinct-append (x ∷ xs) ys (nx, h) h' apart = (
  ground (arith, mem-append x xs ys, nx, apart x (ground (arith, ==_iff x x))),
  Distinct-append xs ys h h' (λ y m. apart y (ground (arith, m))),
)

pub length-run : (b n : ℕ) → length (run b n) ≡ n
unfolding run
length-run b zero = refl
length-run b (suc n) = ground (arith, length-run (b + 1) n)

pub run_split : (b n num : ℕ) → n ≤ num → run b num ≡ run b n ++ run (b + n) (num - n)
unfolding run
run_split b zero num l =
    ap (λ c. run c num) {x = b} {y = b + 0} (omega arith)
    ∙ ap (λ m. run (b + 0) m) {x = num} {y = num - 0} (omega arith)
run_split b (suc n) zero l = absurd (omega arith)
run_split b (suc n) (suc num) l =
    ap (λ r. b ∷ r)
      (run_split (b + 1) n num (omega arith)
        ∙ ap (λ c. run (b + 1) n ++ run c (num - n)) {x = b + 1 + n} {y = b + suc n} (omega arith)
        ∙ ap (λ m. run (b + 1) n ++ run (b + suc n) m) {x = num - n} {y = suc num - suc n}
            (omega arith))
