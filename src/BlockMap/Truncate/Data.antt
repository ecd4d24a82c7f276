-- ===== src/BlockMap/Truncate/Data.antt =====
-- The pointers that kr_free_data (inode.c) clears, and the blocks that it frees.
use k_rack.Common.{
  ℕ, zero, suc, ◌+◌, ◌-◌, ◌%◌, ◌^◌, ◌≤◌, ◌<◌, ◌≡◌, refl, sym, ap, subst, ◌≢◌, inl, inr, Bool, false,
  ◌&&◌, ◌||◌, Option, List, [], ◌∷◌, arith, ltb, leb, ◌==◌, if◌then◌else◌, le→leb, ==_iff,
  Bool-cases,
}
use native.Mathlib.Decide.{ℕ_discrete}
use k_rack.BlockMap.{Tree, read}
use k_rack.BlockMap.Alloc.{run}
use k_rack.BlockMap.Alloc.Runs.{mem-append, mem-run}
use k_rack.BlockMap.Write.{write}
use k_rack.BlockMap.Write.Laws.{mem, in_run, same, same_self, read-write}
use k_rack.BlockMap.Truncate.{Call, pending, data_from, free_data}
use k_rack.BlockMap.Truncate.Cleared.{
  freed, Cleared, Cleared-refl, Cleared-trans, Cleared-write, Small, Cleared-Small, FreedOk,
}

pub next_word :
    (nr b c : ℕ)
    → nr < 2 ^ 32
    → b < 2 ^ 32
    → c < 2 ^ 32
    → b ≡ (nr + 2 ^ 64 - c) % 2 ^ 64
    → b + c ≡ nr
next_word nr b c l m k e = omega arith

module _ (broken : ℕ → Bool) where
  -- With a run in hand, it is freed too.
  abbrev pub RunOk : Tree → ℕ → ℕ → Tree × List Call → Type 0
  RunOk d b c r =
      (got : ℕ → Bool) × Cleared broken d got r.0
      × ((x : ℕ) → mem x (freed r.1) ≡ (in_run b c x || got x))

  pending-RunOk : (d : Tree) (b c : ℕ) → RunOk d b c (d, pending b c)
  unfolding freed mem
  pending-RunOk d b c = (
    λ x. false,
    Cleared-refl broken d,
    λ x. elim (Bool-cases (ltb 0 c)) [
      | inl t ↦ ground (arith, t, mem-append x (run b c) [], mem-run x b c)
      | inr f ↦ ground (arith, f)
    ],
  )

  -- A block is put to the run, or a new run begins with it.
  cleared-RunOk :
      (d : Tree) (bh : Option ℕ) (o b c b' c' : ℕ) (before : ℕ → Bool) (r r' : Tree × List Call)
      → read d bh o ≢ 0
      → r'.0 ≡ r.0
      → ((x : ℕ) → mem x (freed r'.1) ≡ (before x || mem x (freed r.1)))
      → ((x : ℕ) → (before x || in_run b' c' x) ≡ (in_run b c x || (x == read d bh o)))
      → RunOk (write d bh o 0) b' c' r
      → RunOk d b c r'
  cleared-RunOk d bh o b c b' c' before r r' n same more runs (got, cl, has) = (
    (λ x. (x == read d bh o) || got x),
    subst (λ t. Cleared broken d (λ x. (x == read d bh o) || got x) t) (sym same)
        (Cleared-trans broken d (write d bh o 0) r.0 (λ x. x == read d bh o) got
          (λ x. (x == read d bh o) || got x)
          (Cleared-write broken d bh o (λ x. x == read d bh o) n (λ x. (==_iff x (read d bh o)).0)
            (inl ((==_iff (read d bh o) (read d bh o)).1 refl)))
          cl (λ x. refl)),
    λ x. ground (arith, more x, runs x, has x),
  )

  one_more :
      (b c nr x : ℕ) → b + c ≡ nr → (false || in_run b (c + 1) x) ≡ (in_run b c x || (x == nr))
  one_more b c nr x e = ground (arith, ==_iff x nr)

  pub call_first :
      (b c : ℕ) (cs : List Call) (x : ℕ)
      → mem x (freed (record { block = b; count = c } ∷ cs)) ≡ (in_run b c x || mem x (freed cs))
  unfolding freed
  call_first b c cs x = ground (arith, mem-append x (run b c) (freed cs), mem-run x b c)

  pub data_from-RunOk :
      (n : ℕ) (d : Tree) (bh : Option ℕ) (o b c : ℕ)
      → Small broken d
      → b < 2 ^ 32
      → c + n < 2 ^ 32
      → RunOk d b c (data_from d bh n o b c)
  unfolding data_from
  data_from-RunOk zero d bh o b c small l m = pending-RunOk d b c
  data_from-RunOk (suc n) d bh o b c small l m =
      let nr = read d bh o in
      elim (ℕ_discrete nr 0) [
        | yes z ↦
            subst (RunOk d b c) (ground (arith, z))
              (data_from-RunOk n d bh (o + 1) b c small l (omega (arith, m)))
        | no nz ↦
            let less : Small broken (write d bh o 0) =
              Cleared-Small broken d (write d bh o 0) (λ x. x == nr)
                (Cleared-write broken d bh o (λ x. x == nr) nz (λ x. (==_iff x nr).0)
                  (inl ((==_iff nr nr).1 refl)))
                small in
            let started =
              data_from-RunOk n (write d bh o 0) bh (o + 1) nr 1 less (small bh o)
                (omega (arith, m)) in
            elim (ℕ_discrete c 0) [
              | yes z ↦
                  let r = data_from (write d bh o 0) bh n (o + 1) nr 1 in
                  subst (RunOk d b c) (ground (arith, nz, z, ==_iff nr 0)) (
                    cleared-RunOk d bh o b c nr 1 (λ x. false) r r nz refl (λ x. refl)
                      (λ x. ground (arith, z, ==_iff x nr)) started)
              | no some_c ↦ elim (ℕ_discrete b ((nr + 2 ^ 64 - c) % 2 ^ 64)) [
                | yes e ↦
                    let r = data_from (write d bh o 0) bh n (o + 1) b (c + 1) in
                    let at : b + c ≡ nr = next_word nr b c (small bh o) l (omega (arith, m)) e in
                    subst (RunOk d b c)
                      (ground (
                        arith,
                        nz,
                        some_c,
                        e,
                        ==_iff nr 0,
                        ==_iff c 0,
                        ==_iff b ((nr + 2 ^ 64 - c) % 2 ^ 64),
                      ))
                      (cleared-RunOk d bh o b c b (c + 1) (λ x. false) r r nz refl (λ x. refl)
                        (λ x. one_more b c nr x at)
                        (data_from-RunOk n (write d bh o 0) bh (o + 1) b (c + 1) less l
                          (omega (arith, m))))
                | no ne ↦
                    let r = data_from (write d bh o 0) bh n (o + 1) nr 1 in
                    let r' : Tree × List Call = (r.0, record { block = b; count = c } ∷ r.1) in
                    subst (RunOk d b c)
                      (ground (
                        arith,
                        nz,
                        some_c,
                        ne,
                        ==_iff nr 0,
                        ==_iff c 0,
                        ==_iff b ((nr + 2 ^ 64 - c) % 2 ^ 64),
                      ))
                      (cleared-RunOk d bh o b c nr 1 (in_run b c) r r' nz refl
                        (λ x. call_first b c r.1 x) (λ x. ground (arith, ==_iff x nr)) started)
              ]
            ]
      ]

  pub free_data-FreedOk :
      (d : Tree) (bh : Option ℕ) (n o : ℕ)
      → Small broken d
      → n < 2 ^ 32
      → FreedOk broken d (free_data d bh n o)
  unfolding free_data
  free_data-FreedOk d bh n o small l =
      let (got, c, has) = data_from-RunOk n d bh o 0 0 small (omega arith) (omega arith) in
      Cleared-trans broken d (data_from d bh n o 0 0).0 (data_from d bh n o 0 0).0 got (λ x. false)
        (λ x. mem x (freed (data_from d bh n o 0 0).1)) c
        (Cleared-refl broken (data_from d bh n o 0 0).0) (λ x. ground (arith, has x))

  -- The pointers of the array.
  abbrev pub Zeros : Option ℕ → ℕ → ℕ → Tree → Type 0
  Zeros bh n o d = (j : ℕ) → o ≤ j → j < o + n → read d bh j ≡ 0

  data_from-Zeros :
      (n : ℕ) (d : Tree) (bh : Option ℕ) (o b c j : ℕ)
      → read (data_from d bh n o b c).0 bh j ≡ (if leb o j && ltb j (o + n) then 0 else read d bh j)
  unfolding data_from
  data_from-Zeros zero d bh o b c j = ground arith
  data_from-Zeros (suc n) d bh o b c j = ground (
    arith,
    data_from-Zeros n d bh (o + 1) b c j,
    data_from-Zeros n (write d bh o 0) bh (o + 1) b (c + 1) j,
    data_from-Zeros n (write d bh o 0) bh (o + 1) (read d bh o) 1 j,
    read-write d bh o 0 bh j,
    same_self bh,
    ==_iff j o,
    ap (read d bh) {x = j} {y = o},
  )

  pub free_data-Zeros : (d : Tree) (bh : Option ℕ) (n o : ℕ) → Zeros bh n o (free_data d bh n o).0
  unfolding free_data
  free_data-Zeros d bh n o j h k = ground (arith, data_from-Zeros n d bh o 0 0 j, le→leb o j)
