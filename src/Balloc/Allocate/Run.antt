-- ===== src/Balloc/Allocate/Run.antt =====
-- A run of clear bits claimed: the loops of kr_try_to_allocate (balloc.c).
use k_rack.Common.{
  ℕ, zero, suc, ◌+◌, ◌-◌, ◌≤◌, ◌<◌, ◌≡◌, refl, inl, inr, Bool, true, false, not, ◌&&◌, some, arith,
  ltb, leb, if◌then◌else◌, ltb→lt, lt→ltb, leb→le, le→leb, Bool-cases, Bitmap, write_bit,
}
use k_rack.Balloc.Allocate.{step_back, claim_from, claim_run}

-- The bits from `at` on, `num` of them, were clear in `b` and are set in `b'`, which is `b`
-- elsewhere.
pub record Claims (b b' : Bitmap) (at num : ℕ) : Type 0 where
  pub were_clear : (k : ℕ) → at ≤ k → k < at + num → b k ≡ false
  pub now_set : (k : ℕ) → b' k ≡ (if leb at k && ltb k (at + num) then true else b k)

pub step_back-clear :
    (steps : ℕ) (b : Bitmap) (start goal : ℕ)
    → b goal ≡ false
    → start ≤ goal
    → (b (step_back steps b start goal) ≡ false) × (step_back steps b start goal ≤ goal)
unfolding step_back
step_back-clear zero b start goal z l = (z, omega arith)
step_back-clear (suc steps) b start goal z l =
    elim (Bool-cases (ltb start goal && not (b (goal - 1)))) [
      | inr stop ↦ (ground arith, ground arith)
      | inl back ↦
          let (y, m) =
            step_back-clear steps b start (goal - 1) (ground arith)
              (ground (arith, ltb→lt start goal)) in
          (ground arith, ground arith)
    ]

pub claim_from-clear :
    (fuel : ℕ) (b : Bitmap) (end goal at : ℕ)
    → claim_from fuel b end goal ≡ some at
    → goal < end
    → (b at ≡ false) × (at < end)
unfolding claim_from
claim_from-clear zero b end goal at e l = absurd (cc)
claim_from-clear (suc fuel) b end goal at e l =
    ground (arith, claim_from-clear fuel b end (goal + 1) at, le→leb end (goal + 1))

-- A run from `goal` on that claims at most `more` blocks.
abbrev pub Ran : ℕ × Bitmap → ℕ → Bitmap → ℕ → ℕ → ℕ → Type 0
Ran (num', b') more b end goal num =
    (n : ℕ) × (num' ≡ num + n) × (n ≤ more) × (goal + n ≤ end) × Claims b b' goal n

pub stops :
    (more : ℕ) (b : Bitmap) (end goal num : ℕ) → goal ≤ end → Ran (num, b) more b end goal num
stops more b end goal num l = (
  0,
  omega arith,
  omega arith,
  omega arith,
  record {
    were_clear = λ k p q. absurd (omega arith);
    now_set = λ k. ground (arith, leb→le goal k, ltb→lt k (goal + 0));
  },
)

pub goes_on :
    (r : ℕ × Bitmap) (more : ℕ) (b : Bitmap) (end goal num : ℕ)
    → b goal ≡ false
    → Ran r more (write_bit b goal true) end (goal + 1) (num + 1)
    → Ran r (suc more) b end goal num
goes_on (num', b') more b end goal num z (n, e, l, h, c) = (
  n + 1,
  omega arith,
  omega arith,
  omega arith,
  record {
    were_clear = λ k p q. ground (arith, c.were_clear k);
    now_set = λ k. ground (
      arith,
      c.now_set k,
      leb→le goal k,
      ltb→lt k (goal + (n + 1)),
      leb→le (goal + 1) k,
      ltb→lt k (goal + 1 + n),
      le→leb goal k,
      lt→ltb k (goal + (n + 1)),
      le→leb (goal + 1) k,
      lt→ltb k (goal + 1 + n),
    );
  },
)

pub claim_run-Ran :
    (more : ℕ) (b : Bitmap) (end goal num : ℕ)
    → goal ≤ end
    → Ran (claim_run more b end goal num) more b end goal num
unfolding claim_run
claim_run-Ran zero b end goal num l = stops zero b end goal num l
claim_run-Ran (suc more) b end goal num l = go (ltb goal end && not (b goal)) (λ t.
    goes_on (claim_run more (write_bit b goal true) end (goal + 1) (num + 1)) more b end goal num
      (ground arith)
      (claim_run-Ran more (write_bit b goal true) end (goal + 1) (num + 1)
        (ground (arith, ltb→lt goal end))))
  where
    go :
        (t : Bool)
        → (t ≡ true
            → Ran
                (claim_run more (write_bit b goal true) end (goal + 1) (num + 1))
                (suc more)
                b
                end
                goal
                num)
        → Ran
            (if t
              then claim_run more (write_bit b goal true) end (goal + 1) (num + 1)
              else (num, b))
            (suc more)
            b
            end
            goal
            num
    go true h = h refl
    go false h = stops (suc more) b end goal num l
