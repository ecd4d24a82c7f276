-- ===== src/Tests/Kernel.antt =====
-- Concrete versions of the kernel's bit search and byte search, which the theorems take as
-- parameters.
use k_rack.Common.{
  ℕ, zero, suc, ◌+◌, ◌-◌, ◌*◌, ◌≤◌, ◌<◌, ◌≡◌, ap, ◌∙◌, inl, inr, Bool, true, false, not, ◌&&◌,
  arith, if◌then◌else◌, Bool-cases, Bitmap, FindsZero,
}
use native.Mathlib.Decide.{ℕ_discrete}
use k_rack.Balloc.Search.Laws.{ScansBytes}

unfoldable pub first_clear : ℕ → Bitmap → ℕ → ℕ
first_clear zero b k = k
first_clear (suc n) b k = let rest = first_clear n b (k + 1) in if b k then rest else k

unfoldable pub next_zero : Bitmap → ℕ → ℕ → ℕ
next_zero b size start = first_clear (size - start) b start

first_clear-clear :
    (n : ℕ) (b : Bitmap) (k : ℕ) → first_clear n b k < k + n → b (first_clear n b k) ≡ false
unfolding first_clear
first_clear-clear zero b k l = absurd (omega arith)
first_clear-clear (suc n) b k l = elim (Bool-cases (b k)) [
  | inl set_ ↦ ground (arith, first_clear-clear n b (k + 1))
  | inr clear ↦ ground arith
]

first_clear-ge : (n : ℕ) (b : Bitmap) (k : ℕ) → k ≤ first_clear n b k
unfolding first_clear
first_clear-ge zero b k = omega arith
first_clear-ge (suc n) b k = ground (arith, first_clear-ge n b (k + 1))

first_clear-first : (n : ℕ) (b : Bitmap) (k j : ℕ) → k ≤ j → j < first_clear n b k → b j ≡ true
unfolding first_clear
first_clear-first zero b k j l h = absurd (omega arith)
first_clear-first (suc n) b k j l h = elim (ℕ_discrete j k) [
  | yes here ↦ ground (arith, ap b here)
  | no later ↦ ground (arith, first_clear-first n b (k + 1) j)
]

pub next_zero-FindsZero : FindsZero next_zero
unfolding next_zero
next_zero-FindsZero = record {
  clear = λ b size start l. first_clear-clear (size - start) b start (near b size start l);
  from_start = λ b size start l. first_clear-ge (size - start) b start;
  first = λ b size start k p q r. first_clear-first (size - start) b start k p r;
}
  where
    near :
        (b : Bitmap) (size start : ℕ)
        → first_clear (size - start) b start < size
        → first_clear (size - start) b start < start + (size - start)
    near b size start l = omega (arith, first_clear-ge (size - start) b start)

unfoldable pub byte_clear : ℕ → Bitmap → ℕ → Bool
byte_clear zero b bit = true
byte_clear (suc n) b bit = not (b bit) && byte_clear n b (bit + 1)

byte_clear-bit :
    (n : ℕ) (b : Bitmap) (bit k : ℕ) → byte_clear n b bit ≡ true → k < n → b (bit + k) ≡ false
unfolding byte_clear
byte_clear-bit zero b bit k e l = absurd (omega arith)
byte_clear-bit (suc n) b bit zero e l =
    ap b (omega arith) ∙ not_true (b bit) (byte_clear n b (bit + 1)) e
  where
    not_true : (s t : Bool) → (not s && t) ≡ true → s ≡ false
    not_true s t f = ground (arith, f)
byte_clear-bit (suc n) b bit (suc k) e l =
    ap b (omega arith)
    ∙ byte_clear-bit n b (bit + 1) k (second (b bit) (byte_clear n b (bit + 1)) e) (omega arith)
  where
    second : (s t : Bool) → (not s && t) ≡ true → t ≡ true
    second s t f = ground (arith, f)

unfoldable pub first_byte : ℕ → Bitmap → ℕ → ℕ
first_byte zero b k = k
first_byte (suc n) b k =
    let rest = first_byte n b (k + 1) in if byte_clear 8 b (k * 8) then k else rest

first_byte-zero :
    (n : ℕ) (b : Bitmap) (k j : ℕ)
    → first_byte n b k < k + n
    → j < 8
    → b (first_byte n b k * 8 + j) ≡ false
unfolding first_byte
first_byte-zero zero b k j l h = absurd (omega arith)
first_byte-zero (suc n) b k j l h = elim (Bool-cases (byte_clear 8 b (k * 8))) [
  | inl clear ↦ ground (arith, byte_clear-bit 8 b (k * 8) j)
  | inr other ↦ ground (arith, first_byte-zero n b (k + 1) j)
]

unfoldable pub memscan : Bitmap → ℕ → ℕ → ℕ
memscan b first count = first_byte count b first

pub memscan-ScansBytes : ScansBytes memscan
unfolding memscan
memscan-ScansBytes = record {
  zero_byte = λ b first count k l h. first_byte-zero count b first k l h;
}
