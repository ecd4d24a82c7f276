-- ===== src/BlockMap/Truncate/Once.antt =====
-- kr_free_data (inode.c) frees no block twice if no two pointers lead to one block.
use k_rack.Common.{
  ℕ, zero, suc, ◌+◌, ◌-◌, ◌%◌, ◌^◌, ◌<◌, ◌≡◌, refl, sym, ap, subst, ◌∙◌, ◌≢◌, inl, inr, Bool, true,
  ◌||◌, Option, List, [], ◌∷◌, arith, ltb, ◌==◌, ==_iff, Bool-cases,
}
use native.Mathlib.Decide.{ℕ_discrete}
use k_rack.BlockMap.{Tree, read}
use k_rack.BlockMap.Alloc.{run}
use k_rack.BlockMap.Alloc.Runs.{mem-run, Distinct-run, Distinct-append}
use k_rack.BlockMap.Write.{write}
use k_rack.BlockMap.Write.Laws.{mem, Distinct, in_run, same_self, read-write}
use k_rack.BlockMap.Truncate.{Call, pending, data_from, free_data}
use k_rack.BlockMap.Truncate.Cleared.{
  freed, Cleared, Cleared-write, Small, Cleared-Small, Unique, Cleared-read, Cleared-Unique,
}
use k_rack.BlockMap.Truncate.Data.{next_word, data_from-RunOk}

module _ (broken : ℕ → Bool) where
  -- No pointer leads to a block of the run in hand.
  abbrev Outside : Tree → ℕ → ℕ → Type 0
  Outside d b c =
      (x : ℕ) → in_run b c x ≡ true → (x ≢ 0) × ((bh : Option ℕ) (o : ℕ) → read d bh o ≢ x)

  pending-Distinct : (b c : ℕ) → Distinct (freed (pending b c))
  unfolding freed mem
  pending-Distinct b c = elim (Bool-cases (ltb 0 c)) [
    | inl t ↦ rw t (Distinct-append (run b c) [] (Distinct-run b c) tt (λ y m. refl))
    | inr f ↦ rw f tt
  ]

  started-Distinct :
      (d : Tree) (b c nr : ℕ) (calls : List Call) (got : ℕ → Bool) (d' d'' : Tree)
      → Outside d b c
      → ((x : ℕ) → in_run b c x ≡ true → x ≢ nr)
      → ((x : ℕ) → mem x (freed calls) ≡ (in_run nr 1 x || got x))
      → Cleared broken d' got d''
      → ((x : ℕ) (e : Option ℕ) (j : ℕ) → x ≢ 0 → read d' e j ≡ x → read d e j ≡ x)
      → Distinct (freed calls)
      → Distinct (freed (record { block = b; count = c } ∷ calls))
  unfolding freed
  started-Distinct d b c nr calls got d' d'' out ne has cl back once =
      Distinct-append (run b c) (freed calls) (Distinct-run b c) once (λ y m.
        elim (Bool-cases (mem y (freed calls))) [
          | inl again ↦
              let t : in_run b c y ≡ true = sym (mem-run y b c) ∙ m in
              elim (Bool-cases (got y)) [
                | inl g ↦
                    let (n, bh, o, r, _) = cl.were y g in
                    absurd ((out y t).1 bh o (back y bh o n r))
                | inr g ↦ absurd (ne y t (ground (arith, has y, again, g)))
              ]
          | inr no_more ↦ no_more
        ])

  -- After the pointer to `nr` is cleared, no pointer leads to it or to the run in hand.
  cleared-Outside :
      (d : Tree) (bh : Option ℕ) (o b c : ℕ)
      → Unique broken d
      → read d bh o ≢ 0
      → Outside d b c
      → Outside (write d bh o 0) b c × Outside (write d bh o 0) (read d bh o) 1
  cleared-Outside d bh o b c u nz out = (
    λ x t. (
      (out x t).0,
      λ e j r. (out x t).1 e j (Cleared-read broken d d' got e j x cl (out x t).0 r),
    ),
    λ x t.
        let at : x ≡ nr = ground arith in
        (
          λ z. nz (sym at ∙ z),
          λ e j r.
              let r' : read d e j ≡ nr = Cleared-read broken d d' got e j nr cl nz (r ∙ at) in
              let (p, q) = u bh o e j nz (sym r') in
              nz (
                sym (r ∙ at)
                ∙ (ap (λ k. read d' k j) (sym p) ∙ ap (read d' bh) {x = j} {y = o} (sym q))
                ∙ gone),
        ),
  )
    where
      nr : ℕ
      nr = read d bh o

      d' : Tree
      d' = write d bh o 0

      got : ℕ → Bool
      got x = x == nr

      cl : Cleared broken d got d'
      cl = Cleared-write broken d bh o got nz (λ x. (==_iff x nr).0) (inl ((==_iff nr nr).1 refl))

      gone : read d' bh o ≡ 0
      gone = ground (arith, read-write d bh o 0 bh o, same_self bh, ==_iff o o)

  -- The run and the block behind it.
  more-Outside :
      (d : Tree) (b c nr : ℕ) → b + c ≡ nr → Outside d b c → Outside d nr 1 → Outside d b (c + 1)
  more-Outside d b c nr e out out' x t = elim (Bool-cases (in_run b c x)) [
    | inl here ↦ out x here
    | inr last ↦ out' x (ground (arith, t, last))
  ]

  pub data_from-Distinct :
      (n : ℕ) (d : Tree) (bh : Option ℕ) (o b c : ℕ)
      → Small broken d
      → b < 2 ^ 32
      → c + n < 2 ^ 32
      → Unique broken d
      → Outside d b c
      → Distinct (freed (data_from d bh n o b c).1)
  unfolding data_from
  data_from-Distinct zero d bh o b c small l m u out = pending-Distinct b c
  data_from-Distinct (suc n) d bh o b c small l m u out =
      let nr = read d bh o in
      let whole = data_from d bh (suc n) o b c in
      let Once = λ (r : Tree × List Call). Distinct (freed r.1) in
      elim (ℕ_discrete nr 0) [
        | yes z ↦
            subst Once {x = data_from d bh n (o + 1) b c} {y = whole} (ground (arith, z))
              (data_from-Distinct n d bh (o + 1) b c small l (omega (arith, m)) u out)
        | no nz ↦
            let d' = write d bh o 0 in
            let cl =
              Cleared-write broken d bh o (λ x. x == nr) nz (λ x. (==_iff x nr).0)
                (inl ((==_iff nr nr).1 refl)) in
            let small' = Cleared-Small broken d d' (λ x. x == nr) cl small in
            let u' = Cleared-Unique broken d d' (λ x. x == nr) cl u in
            let (out', one) = cleared-Outside d bh o b c u nz out in
            let r = data_from d' bh n (o + 1) nr 1 in
            let started =
              data_from-Distinct n d' bh (o + 1) nr 1 small' (small bh o) (omega (arith, m)) u'
                one in
            elim (ℕ_discrete c 0) [
              | yes z ↦ subst Once {x = r} {y = whole} (ground (arith, nz, z, ==_iff nr 0)) started
              | no some_c ↦ elim (ℕ_discrete b ((nr + 2 ^ 64 - c) % 2 ^ 64)) [
                | yes e ↦
                    let at : b + c ≡ nr = next_word nr b c (small bh o) l (omega (arith, m)) e in
                    subst Once {x = data_from d' bh n (o + 1) b (c + 1)} {y = whole}
                      (ground (
                        arith,
                        nz,
                        some_c,
                        e,
                        ==_iff nr 0,
                        ==_iff c 0,
                        ==_iff b ((nr + 2 ^ 64 - c) % 2 ^ 64),
                      ))
                      (data_from-Distinct n d' bh (o + 1) b (c + 1) small' l (omega (arith, m)) u'
                        (more-Outside d' b c nr at out' one))
                | no ne ↦
                    let (got, cl', has) =
                      data_from-RunOk broken n d' bh (o + 1) nr 1 small' (small bh o)
                        (omega (arith, m)) in
                    subst Once {x = (r.0, record { block = b; count = c } ∷ r.1)} {y = whole}
                      (ground (
                        arith,
                        nz,
                        some_c,
                        ne,
                        ==_iff nr 0,
                        ==_iff c 0,
                        ==_iff b ((nr + 2 ^ 64 - c) % 2 ^ 64),
                      ))
                      (started-Distinct d b c nr r.1 got d' r.0 out
                        (λ x t e. (out x t).1 bh o (sym e)) has cl'
                        (λ x e j k q. Cleared-read broken d d' (λ y. y == nr) e j x cl k q) started)
              ]
            ]
      ]

  pub free_data-Distinct :
      (d : Tree) (bh : Option ℕ) (n o : ℕ)
      → Small broken d
      → n < 2 ^ 32
      → Unique broken d
      → Distinct (freed (free_data d bh n o).1)
  unfolding free_data
  free_data-Distinct d bh n o small l u =
      data_from-Distinct n d bh o 0 0 small (omega arith) (omega arith) u
        (λ x t. absurd (ground (arith, t)))
