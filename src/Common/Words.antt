-- ===== src/Common/Words.antt =====
-- Machine words: `unsigned` subtraction, a flag cleared from a word, and the order and sum with an
-- `int`.
use Prim.Native.Nat.{ℕ, ◌+◌, ◌-◌, ◌%◌, ◌^◌, ◌≤◌, ◌<◌, bit_and}
use mathlib.Core.Path.{◌≡◌}
use mathlib.Core.Bool.{Bool, false}
use native.Mathlib.Omega.{arith}
use k_rack.Common.Tests.{ltb, leb, if◌then◌else◌}

-- `a - b` on 32-bit unsigned words.
abbrev pub sub32 : ℕ → ℕ → ℕ
sub32 a b = (a % 2 ^ 32 + 2 ^ 32 - b % 2 ^ 32) % 2 ^ 32

pub sub32_lem : (a b : ℕ) → b ≤ a → a < 2 ^ 32 → sub32 a b ≡ a - b
sub32_lem a b h k = omega arith

-- `w &= ~f`
abbrev pub clear_flag : ℕ → ℕ → ℕ
clear_flag w f = w - bit_and w f

-- A sum and an order of a number with an `int` made from `n`, in 64-bit unsigned arithmetic: the
-- sign is extended. A sum with an `int` that is not negative is taken to be exact.
unfoldable pub is_negative : ℕ → Bool
is_negative n = leb (2 ^ 31) (n % 2 ^ 32)

unfoldable pub add_int : ℕ → ℕ → ℕ
unfolding is_negative
add_int a n = if is_negative n then (a + n % 2 ^ 32 + 2 ^ 64 - 2 ^ 32) % 2 ^ 64 else a + n % 2 ^ 32

unfoldable pub int_le : ℕ → ℕ → Bool
unfolding is_negative
int_le n a = leb (if is_negative n then n % 2 ^ 32 + 2 ^ 64 - 2 ^ 32 else n % 2 ^ 32) a

pub is_negative_lem : (n : ℕ) → n < 2 ^ 31 → is_negative n ≡ false
unfolding is_negative
is_negative_lem n h = ground arith

pub add_int_lem : (a n : ℕ) → n < 2 ^ 31 → add_int a n ≡ a + n
unfolding add_int is_negative
add_int_lem a n h = ground arith

pub int_le_lem : (n a : ℕ) → n < 2 ^ 31 → int_le n a ≡ leb n a
unfolding int_le is_negative
int_le_lem n a h = ground arith

-- `x > y` on `int` values.
unfoldable pub int_lt : ℕ → ℕ → Bool
int_lt x y = ltb ((x + 2 ^ 31) % 2 ^ 32) ((y + 2 ^ 31) % 2 ^ 32)

pub int_lt_lem : (x y : ℕ) → x < 2 ^ 31 → y < 2 ^ 31 → int_lt x y ≡ ltb x y
unfolding int_lt
int_lt_lem x y h k = ground arith
