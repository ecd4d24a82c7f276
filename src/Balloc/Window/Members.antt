-- ===== src/Balloc/Window/Members.antt =====
-- Membership of a window in the sequence of windows.
use k_rack.Common.{
  ℕ, ◌+◌, ◌≤◌, ◌≡◌, refl, sym, ap, inl, inr, Bool, true, false, ◌||◌, List, [], ◌∷◌, ◌++◌, arith,
  ◌==◌, if◌then◌else◌, ==_iff, Bool-cases,
}
use k_rack.Balloc.Reserve.{ReserveNode}
use k_rack.Balloc.Reserve.Order.{Ordered, Below, Above, Ordered-Above, Ordered-split, Ordered-lower}
use k_rack.Balloc.Reserve.Place.{Clear}

abbrev pub elem : ℕ → List ℕ → Bool
elem x [] = false
elem x (y ∷ ys) = x == y || elem x ys

pub elem-append : (x : ℕ) (xs ys : List ℕ) → elem x (xs ++ ys) ≡ (elem x xs || elem x ys)
elem-append x [] ys = refl
elem-append x (y ∷ xs) ys = ground (arith, elem-append x xs ys)

pub elem_split :
    (x : ℕ) (whole : List ℕ)
    → elem x whole ≡ true
    → (xs : List ℕ) × (ys : List ℕ) × (whole ≡ xs ++ (x ∷ ys))
elem_split x [] e = absurd (cc)
elem_split x (y ∷ ys) e = elim (Bool-cases (x == y)) [
  | inl here ↦ ([], ys, ap (λ z. z ∷ ys) (sym ((==_iff x y).0 here)))
  | inr later ↦
      let (heads, rest, f) = elem_split x ys (ground arith) in (y ∷ heads, rest, ap (λ l. y ∷ l) f)
]

-- The windows with another node at `my`.
abbrev pub put : (ℕ → ReserveNode) → ℕ → ReserveNode → ℕ → ReserveNode
put at my n k = if k == my then n else at k

module _ (at : ℕ → ReserveNode) (my : ℕ) (n : ReserveNode) where
  pub put-Ordered :
      (low : ℕ) (xs : List ℕ)
      → elem my xs ≡ false
      → Ordered at low xs
      → Ordered (put at my n) low xs
  put-Ordered low [] e o = tt
  put-Ordered low (x ∷ xs) e (p, q, r) =
      let other : put at my n x ≡ at x = ground (arith, ==_iff my x, ==_iff x my) in
      rw other (p, q, put-Ordered ((at x).rsv_end + 1) xs (ground arith) r)

  pub put-Clear :
      (s e : ℕ) (xs : List ℕ) → elem my xs ≡ false → Clear at s e xs → Clear (put at my n) s e xs
  put-Clear s e [] f c = tt
  put-Clear s e (x ∷ xs) f (c, cs) =
      let other : put at my n x ≡ at x = ground (arith, ==_iff my x, ==_iff x my) in
      (rw other c, put-Clear s e xs (ground arith) cs)

  pub put-Below :
      (b : ℕ) (xs : List ℕ) → elem my xs ≡ false → Below at b xs → Below (put at my n) b xs
  put-Below b [] f c = tt
  put-Below b (x ∷ xs) f (c, cs) =
      let other : put at my n x ≡ at x = ground (arith, ==_iff my x, ==_iff x my) in
      (rw other c, put-Below b xs (ground arith) cs)

  pub put-Above :
      (b : ℕ) (xs : List ℕ) → elem my xs ≡ false → Above at b xs → Above (put at my n) b xs
  put-Above b [] f c = tt
  put-Above b (x ∷ xs) f (c, cs) =
      let other : put at my n x ≡ at x = ground (arith, ==_iff my x, ==_iff x my) in
      (rw other c, put-Above b xs (ground arith) cs)

module _ (at : ℕ → ReserveNode) where
  pub Below-elem : (b x : ℕ) (xs : List ℕ) → Below at b xs → b ≤ (at x).rsv_end → elem x xs ≡ false
  Below-elem b x [] p l = refl
  Below-elem b x (y ∷ xs) (p, ps) l =
      ground (arith, ==_iff x y, ap (λ k. (at k).rsv_end) {x = x} {y = y}, Below-elem b x xs ps l)

  pub Above-elem :
      (b x : ℕ) (xs : List ℕ) → Above at b xs → (at x).rsv_start ≤ b → elem x xs ≡ false
  Above-elem b x [] p l = refl
  Above-elem b x (y ∷ xs) (p, ps) l =
      ground (arith, ==_iff x y, ap (λ k. (at k).rsv_start) {x = x} {y = y}, Above-elem b x xs ps l)

  pub Ordered-elem :
      (low x : ℕ) (xs ys : List ℕ)
      → Ordered at low (xs ++ (x ∷ ys))
      → (elem x xs ≡ false) × (elem x ys ≡ false)
  Ordered-elem low x xs ys o =
      let (_, below, _, m, or) = Ordered-split at low xs x ys o in
      (
        Below-elem (at x).rsv_start x xs below m,
        Above-elem (at x).rsv_end x ys
            (Ordered-Above at (at x).rsv_end ((at x).rsv_end + 1) ys (omega arith) or) m,
      )

  pub Ordered-drop :
      (low x : ℕ) (xs ys : List ℕ) → Ordered at low (xs ++ (x ∷ ys)) → Ordered at low (xs ++ ys)
  Ordered-drop low x [] ys (p, q, r) = Ordered-lower at ((at x).rsv_end + 1) low ys (omega arith) r
  Ordered-drop low x (y ∷ xs) ys (p, q, r) = (p, q, Ordered-drop ((at y).rsv_end + 1) x xs ys r)

  pub Clear-join :
      (s e : ℕ) (xs ys : List ℕ) → Clear at s e xs → Clear at s e ys → Clear at s e (xs ++ ys)
  Clear-join s e [] ys c d = d
  Clear-join s e (x ∷ xs) ys (c, cs) d = (c, Clear-join s e xs ys cs d)

  pub Below-Clear : (s e : ℕ) (xs : List ℕ) → Below at s xs → Clear at s e xs
  Below-Clear s e [] b = tt
  Below-Clear s e (x ∷ xs) (b, bs) = (inl b, Below-Clear s e xs bs)

  pub Above-Clear : (s e : ℕ) (xs : List ℕ) → Above at e xs → Clear at s e xs
  Above-Clear s e [] b = tt
  Above-Clear s e (x ∷ xs) (b, bs) = (inr b, Above-Clear s e xs bs)
