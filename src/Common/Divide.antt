-- ===== src/Common/Divide.antt =====
-- Quotients and remainders by a variable.
use Prim.Native.Nat.{ℕ, suc, ◌+◌, ◌-◌, ◌*◌, ◌/◌, ◌%◌, ◌<◌}
use mathlib.Core.Path.{◌≡◌, ap, ◌∙◌}
use native.Mathlib.Omega.{arith}
use native.Mathlib.Decide.{dec_lt}
use native.Mathlib.Nat.{
  div-add-mod', mod-lt, add-mul-mod_self_left, mod-eq_of_lt, add-mul-div_left, div-eq_of_lt,
}

pub rem : (p x c : ℕ) → c < p → (x * p + c) % p ≡ c
rem p x c h = ap (λ n. n % p) (omega arith) ∙ (add-mul-mod_self_left c p x ∙ mod-eq_of_lt h)

pub quot : (p x c : ℕ) → c < p → (x * p + c) / p ≡ x
quot p x c h =
    ap (λ n. n / p) (omega arith)
    ∙ (add-mul-div_left c x (omega arith) ∙ omega (arith, div-eq_of_lt h))

-- From any start, fewer than `n` steps round `n` places lead to each place.
pub reach_place : (a n g : ℕ) → g < n → (k : ℕ) × (k < n) × ((a + k) % n ≡ g)
reach_place a n g h = elim (dec_lt g (a % n)) [
  | yes p ↦ (
    g + n - a % n,
    omega arith,
    ap (λ m. m % n) (omega (arith, div-add-mod' a n, mod-lt a {m = n} (omega arith)))
        ∙ rem n (suc (a / n)) g h,
  )
  | no p ↦ (
    g - a % n,
    omega arith,
    ap (λ m. m % n) (omega (arith, div-add-mod' a n)) ∙ rem n (a / n) g h,
  )
]
