-- ===== src/Balloc/Reserve/Order.antt =====
-- Windows in order: none overlaps another, and a new one goes to its place.
use k_rack.Common.{ℕ, ◌+◌, ◌≤◌, ◌<◌, ◌≡◌, List, [], ◌∷◌, ◌++◌, arith}
use k_rack.Balloc.Reserve.{ReserveNode}

-- The windows of the list stand one behind the other, from a block on.
abbrev pub Ordered : (ℕ → ReserveNode) → ℕ → List ℕ → Type 0
Ordered at low [] = Unit {0}
Ordered at low (x ∷ xs) =
    (low ≤ (at x).rsv_start)
    × ((at x).rsv_start ≤ (at x).rsv_end)
    × Ordered at ((at x).rsv_end + 1) xs

-- Every window of the list ends before a block.
abbrev pub Below : (ℕ → ReserveNode) → ℕ → List ℕ → Type 0
Below at b [] = Unit {0}
Below at b (x ∷ xs) = ((at x).rsv_end < b) × Below at b xs

-- Every window of the list starts behind a block.
abbrev pub Above : (ℕ → ReserveNode) → ℕ → List ℕ → Type 0
Above at b [] = Unit {0}
Above at b (x ∷ xs) = (b < (at x).rsv_start) × Above at b xs

pub Ordered-lower :
    (at : ℕ → ReserveNode) (low low' : ℕ) (xs : List ℕ)
    → low' ≤ low
    → Ordered at low xs
    → Ordered at low' xs
Ordered-lower at low low' [] l o = tt
Ordered-lower at low low' (x ∷ xs) l (a, b, c) = (omega arith, b, c)

pub Ordered-Above :
    (at : ℕ → ReserveNode) (b low : ℕ) (xs : List ℕ) → b < low → Ordered at low xs → Above at b xs
Ordered-Above at b low [] l o = tt
Ordered-Above at b low (x ∷ xs) l (p, q, r) =
    (omega arith, Ordered-Above at b ((at x).rsv_end + 1) xs (omega arith) r)

-- What stands on both sides of a window.
pub Ordered-split :
    (at : ℕ → ReserveNode) (low : ℕ) (xs : List ℕ) (y : ℕ) (ys : List ℕ)
    → Ordered at low (xs ++ (y ∷ ys))
    → Ordered at low xs
      × Below at (at y).rsv_start xs
      × (low ≤ (at y).rsv_start)
      × ((at y).rsv_start ≤ (at y).rsv_end)
      × Ordered at ((at y).rsv_end + 1) ys
Ordered-split at low [] y ys (a, b, c) = (tt, tt, a, b, c)
Ordered-split at low (x ∷ xs) y ys (a, b, c) =
    let (o, l, m, p, q) = Ordered-split at ((at x).rsv_end + 1) xs y ys c in
    ((a, b, o), (omega arith, l), omega arith, p, q)

pub Ordered-join :
    (at : ℕ → ReserveNode) (low : ℕ) (xs : List ℕ) (y : ℕ) (ys : List ℕ)
    → Ordered at low xs
    → Below at (at y).rsv_start xs
    → low ≤ (at y).rsv_start
    → (at y).rsv_start ≤ (at y).rsv_end
    → Ordered at ((at y).rsv_end + 1) ys
    → Ordered at low (xs ++ (y ∷ ys))
Ordered-join at low [] y ys o l m p q = (m, p, q)
Ordered-join at low (x ∷ xs) y ys (a, b, c) (l, ls) m p q =
    (a, b, Ordered-join at ((at x).rsv_end + 1) xs y ys c ls (omega arith) p q)

pub Below-append :
    (at : ℕ → ReserveNode) (b : ℕ) (xs ys : List ℕ)
    → Below at b xs
    → Below at b ys
    → Below at b (xs ++ ys)
Below-append at b [] ys p q = q
Below-append at b (x ∷ xs) ys (p, ps) q = (p, Below-append at b xs ys ps q)

pub Above-append :
    (at : ℕ → ReserveNode) (b : ℕ) (xs ys : List ℕ)
    → Above at b xs
    → Above at b ys
    → Above at b (xs ++ ys)
Above-append at b [] ys p q = q
Above-append at b (x ∷ xs) ys (p, ps) q = (p, Above-append at b xs ys ps q)

pub Below-weaken :
    (at : ℕ → ReserveNode) (b c : ℕ) (xs : List ℕ) → b ≤ c → Below at b xs → Below at c xs
Below-weaken at b c [] l p = tt
Below-weaken at b c (x ∷ xs) l (p, ps) = (omega arith, Below-weaken at b c xs l ps)

pub Above-weaken :
    (at : ℕ → ReserveNode) (b c : ℕ) (xs : List ℕ) → c ≤ b → Above at b xs → Above at c xs
Above-weaken at b c [] l p = tt
Above-weaken at b c (x ∷ xs) l (p, ps) = (omega arith, Above-weaken at b c xs l ps)

-- Between the windows before and behind a run of blocks there is room for it.
pub Ordered-between :
    (at : ℕ → ReserveNode) (low start end my : ℕ) (xs ys : List ℕ)
    → (at my).rsv_start ≡ start
    → (at my).rsv_end ≡ end
    → Ordered at low (xs ++ ys)
    → low ≤ start
    → start ≤ end
    → Below at start xs
    → Above at end ys
    → Ordered at low (xs ++ (my ∷ ys))
Ordered-between at low start end my [] [] s e o l m b a = (omega arith, omega arith, tt)
Ordered-between at low start end my [] (y ∷ ys) s e (p, q, r) l m b (a, rest) =
    (omega arith, omega arith, (omega arith, q, r))
Ordered-between at low start end my (x ∷ xs) ys s e (p, q, r) l m (b, bs) a =
    (p, q, Ordered-between at ((at x).rsv_end + 1) start end my xs ys s e r (omega arith) m bs a)
