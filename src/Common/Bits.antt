-- ===== src/Common/Bits.antt =====
-- A bitmap block as a function from bit numbers, and the count of the bits set below a bound.
use Prim.Native.Nat.{ℕ, zero, suc, ◌+◌, ◌≤◌, ◌<◌}
use mathlib.Core.Path.{◌≡◌, refl}
use mathlib.Core.Bool.{Bool, true, false}
use native.Mathlib.Omega.{arith}
use k_rack.Common.Tests.{◌==◌, if◌then◌else◌}

abbrev pub Bitmap : Type 0
Bitmap = ℕ → Bool

-- `set_bit`, or `clear_bit` at `false`.
abbrev pub write_bit : Bitmap → ℕ → Bool → Bitmap
write_bit b i v k = if k == i then v else b k

unfoldable pub count_set : Bitmap → ℕ → ℕ
count_set b zero = 0
count_set b (suc n) = (if b n then 1 else 0) + count_set b n

pub count_set-le : (b : Bitmap) (n : ℕ) → count_set b n ≤ n
unfolding count_set
count_set-le b zero = omega arith
count_set-le b (suc n) = ground (arith, count_set-le b n)

count_set-outside :
    (b : Bitmap) (i n : ℕ) (v : Bool) → n ≤ i → count_set (write_bit b i v) n ≡ count_set b n
unfolding count_set
count_set-outside b i zero v h = refl
count_set-outside b i (suc n) v h = ground (arith, count_set-outside b i n v)

pub count_set-set :
    (b : Bitmap) (i n : ℕ)
    → i < n
    → b i ≡ false
    → count_set (write_bit b i true) n ≡ count_set b n + 1
unfolding count_set
count_set-set b i zero h e = absurd (omega arith)
count_set-set b i (suc n) h e = ground (arith, count_set-set b i n, count_set-outside b i n true)

pub count_set-clear :
    (b : Bitmap) (i n : ℕ)
    → i < n
    → b i ≡ true
    → count_set (write_bit b i false) n + 1 ≡ count_set b n
unfolding count_set
count_set-clear b i zero h e = absurd (omega arith)
count_set-clear b i (suc n) h e =
    ground (arith, count_set-clear b i n, count_set-outside b i n false)

-- What the kernel documents of `find_next_zero_bit`: the first clear bit from `start` on and below
-- `size`, or `size` or more if there is none.
pub record FindsZero (next_zero : Bitmap → ℕ → ℕ → ℕ) : Type 0 where
  pub clear :
      (b : Bitmap) (size start : ℕ)
      → next_zero b size start < size
      → b (next_zero b size start) ≡ false
  pub from_start :
      (b : Bitmap) (size start : ℕ) → next_zero b size start < size → start ≤ next_zero b size start
  pub first :
      (b : Bitmap) (size start k : ℕ)
      → start ≤ k
      → k < size
      → k < next_zero b size start
      → b k ≡ true

pub count_set-ext : (b c : Bitmap) (n : ℕ) → ((k : ℕ) → b k ≡ c k) → count_set b n ≡ count_set c n
unfolding count_set
count_set-ext b c zero e = refl
count_set-ext b c (suc n) e = ground (arith, e n, count_set-ext b c n e)
