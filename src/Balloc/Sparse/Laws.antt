-- ===== src/Balloc/Sparse/Laws.antt =====
-- The groups with a copy of the super block are the powers of 3, 5 and 7.
use k_rack.Common.{
  ◌%◌, int_lt, int_lt_lem, ℕ, zero, suc, ◌+◌, ◌*◌, ◌^◌, ◌≤◌, ◌<◌, ◌≡◌, refl, sym, ◌∙◌, ◌↔◌, ◌⊎◌,
  inl, inr, Bool, true, false, not, ◌&&◌, ◌||◌, arith, ltb, ◌==◌, if◌then◌else◌, ltb→lt, lt→ltb,
}
use native.Mathlib.Nat.{mod-eq_of_lt, pow-suc, pow-zero}
use k_rack.Balloc.Sparse.{root_from, test_root, group_sparse, bg_has_super}

-- A power of `b` times `num`.
abbrev Power : ℕ → ℕ → ℕ → Type 0
Power a b num = (k : ℕ) × (a ≡ num * b ^ k)

step_up : (a b num : ℕ) → Power a b (num * b) → Power a b num
step_up a b num (k, e) = (suc k, e ∙ sym (times k))
  where
    times : (k : ℕ) → num * b ^ suc k ≡ num * b * b ^ k
    times k = grind (arith, pow-suc)

step_down : (a b num : ℕ) → num < a → Power a b num → Power a b (num * b)
step_down a b num l (zero, e) = absurd (grind (arith, e, pow-zero))
step_down a b num l (suc k, e) = (k, e ∙ times k)
  where
    times : (k : ℕ) → num * b ^ suc k ≡ num * b * b ^ k
    times k = grind (arith, pow-suc)

pow_pos : (b k : ℕ) → 0 < b → 0 < b ^ k
pow_pos b zero l = grind (arith, pow-zero)
pow_pos b (suc k) l = grind (arith, pow-suc, pow_pos b k)

at_last : (a b num : ℕ) → 0 < b → a ≤ num → Power a b num → num ≡ a
at_last a b num p l (k, e) = bound (b ^ k) (pow_pos b k p) e
  where
    bound : (y : ℕ) → 0 < y → a ≡ num * y → num ≡ a
    bound y q f = grind arith

at_once : (a b num : ℕ) → num ≡ a → Power a b num
at_once a b num e = (0, grind (arith, pow-zero))

last_step : (a b num : ℕ) → 0 < b → a ≤ num → ((num == a) ≡ true) ↔ Power a b num
last_step a b num p l = (λ e. at_once a b num (ground arith), λ r. yes_eq (at_last a b num p l r))
  where
    yes_eq : num ≡ a → (num == a) ≡ true
    yes_eq e = ground arith

scaled_lt : (a b num bound : ℕ) → num < a → a * b < bound → num * b < bound
scaled_lt a b num bound l r = le_lt (grind arith) r
  where
    le_lt : num * b ≤ a * b → a * b < bound → num * b < bound
    le_lt h k = omega arith

scaled_pos : (b num : ℕ) → 1 < b → 0 < num → 0 < num * b
scaled_pos b num p q = grind arith

scaled_fuel : (a b num fuel : ℕ) → 1 < b → 0 < num → a ≤ suc fuel + num → a ≤ fuel + num * b
scaled_fuel a b num fuel p q l = grind arith

-- As long as `a * b` is an `int`, no product of the loop wraps.
root_from-Power :
    (fuel a b num : ℕ)
    → 1 < b
    → 0 < num
    → a ≤ fuel + num
    → num < 2 ^ 31
    → a * b < 2 ^ 31
    → (root_from fuel a b num ≡ true) ↔ Power a b num
unfolding root_from
root_from-Power zero a b num p q l m r = last_step a b num (omega arith) (omega arith)
root_from-Power (suc fuel) a b num p q l m r = rw (int_lt_lem num a m (below_product a b p r)) (
    go (ltb num a) (ltb→lt num a) (lt→ltb num a) (λ k.
      let n : num * b < 2 ^ 31 = scaled_lt a b num (2 ^ 31) k r in
      let exact : num * b % 2 ^ 32 ≡ num * b = mod-eq_of_lt (omega arith) in
      rw exact (
        root_from-Power fuel a b (num * b) p (scaled_pos b num p q) (scaled_fuel a b num fuel p q l)
          n r)))
  where
    below_product : (a b : ℕ) → 1 < b → a * b < 2 ^ 31 → a < 2 ^ 31
    below_product a b p r = grind arith

    go :
        (t : Bool)
        → (t ≡ true → num < a)
        → (num < a → t ≡ true)
        → (num < a → (root_from fuel a b (num * b % 2 ^ 32) ≡ true) ↔ Power a b (num * b))
        → ((if t then root_from fuel a b (num * b % 2 ^ 32) else num == a) ≡ true) ↔ Power a b num
    go true f g h =
        let l' = f refl in
        let (there, back) = h l' in
        (λ e. step_up a b num (there e), λ r. back (step_down a b num l' r))
    go false f g h = last_step a b num (omega arith) (ground (arith, g))

abbrev has_super : Bool → Bool → Bool → Bool → Bool → Bool
has_super s z x y w = if s && not (if z then true else (x || (y || w))) then false else true

one_holds :
    {Z X Y W : Type 0} (s z x y w : Bool)
    → (z ≡ true) ↔ Z
    → (x ≡ true) ↔ X
    → (y ≡ true) ↔ Y
    → (w ≡ true) ↔ W
    → (has_super s z x y w ≡ true) ↔ ((s ≡ false) ⊎ (Z ⊎ (X ⊎ (Y ⊎ W))))
one_holds {Z = Z} {X = X} {Y = Y} {W = W} s z x y w (zt, zf) (xt, xf) (yt, yf) (wt, wf) =
    (forth s z x y w zt xt yt wt, back)
  where
    forth :
        (s z x y w : Bool)
        → (z ≡ true → Z)
        → (x ≡ true → X)
        → (y ≡ true → Y)
        → (w ≡ true → W)
        → has_super s z x y w ≡ true
        → (s ≡ false) ⊎ (Z ⊎ (X ⊎ (Y ⊎ W)))
    forth false z x y w f g h k e = inl refl
    forth true true x y w f g h k e = inr (inl (f refl))
    forth true false true y w f g h k e = inr (inr (inl (g refl)))
    forth true false false true w f g h k e = inr (inr (inr (inl (h refl))))
    forth true false false false true f g h k e = inr (inr (inr (inr (k refl))))
    forth true false false false false f g h k e = absurd (cc e)

    back : (s ≡ false) ⊎ (Z ⊎ (X ⊎ (Y ⊎ W))) → has_super s z x y w ≡ true
    back (inl e) = ground (arith, e)
    back (inr (inl p)) = ground (arith, zf p)
    back (inr (inr (inl p))) = ground (arith, xf p)
    back (inr (inr (inr (inl p)))) = ground (arith, yf p)
    back (inr (inr (inr (inr p)))) = ground (arith, wf p)

-- Without the feature every group has a copy of the super block. With it, of the group numbers
-- whose product with 7 is an `int`, those that have one are 0 and 1 and the powers of 3, 5 and 7.
pub bg_has_super-powers :
    (sparse_super : Bool) (group : ℕ)
    → group * 7 < 2 ^ 31
    → (bg_has_super sparse_super group ≡ true) ↔ (
        (sparse_super ≡ false)
        ⊎ ((group ≤ 1)
            ⊎ (((k : ℕ) × (group ≡ 3 * 3 ^ k))
                ⊎ (((k : ℕ) × (group ≡ 5 * 5 ^ k)) ⊎ ((k : ℕ) × (group ≡ 7 * 7 ^ k))))))
unfolding bg_has_super group_sparse test_root
bg_has_super-powers sparse_super group small =
    one_holds sparse_super (not (int_lt 1 group)) (root_from group group 3 3)
      (root_from group group 5 5) (root_from group group 7 7) (at_most_1 group small)
      (root_from-Power group group 3 3 (omega arith) (omega arith) (omega arith) (omega arith)
        (omega arith))
      (root_from-Power group group 5 5 (omega arith) (omega arith) (omega arith) (omega arith)
        (omega arith))
      (root_from-Power group group 7 7 (omega arith) (omega arith) (omega arith) (omega arith)
        small)
  where
    at_most_1 : (g : ℕ) → g * 7 < 2 ^ 31 → (not (int_lt 1 g) ≡ true) ↔ (g ≤ 1)
    at_most_1 g h =
        rw (int_lt_lem 1 g (omega arith) (omega arith))
          (λ e. ground (arith, e, lt→ltb 1 g), λ r. ground (arith, ltb→lt 1 g))
