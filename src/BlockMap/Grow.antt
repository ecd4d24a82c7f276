-- ===== src/BlockMap/Grow.antt =====
-- A file's tree with a new branch (inode.c, kr_alloc_branch and kr_splice_branch): the pointers
-- that were there stay, and the new ones lead to the new blocks.
use k_rack.Common.{
  ℕ, ◌+◌, ◌-◌, ◌<◌, ◌≡◌, refl, sym, ap, subst, ◌∙◌, ◌≢◌, ◌⊎◌, inl, inr, true, false, ◌&&◌, Option,
  none, some, List, [], ◌∷◌, arith, if◌then◌else◌, ltb→lt, leb→le, ==_iff, Bool-cases, length,
}
use k_rack.BlockMap.{Tree, read}
use k_rack.BlockMap.Follow.{key, rev_onto, holder, Held, key-read}
use k_rack.BlockMap.Lead.{
  ahead, is_new, OnNew, run_new, new_hole, new_single, under_new, at_new, arrives,
}
use native.Mathlib.Decide.{ℕ_discrete}
use k_rack.BlockMap.Write.{write_run, first_of}
use k_rack.BlockMap.Write.Laws.{
  mem, Distinct, span, in_run, same, same-eq, same_self, read-write_run, Chain, Chain-ext, inside,
  Keeps,
}

pub key-Held : (d : Tree) (o : ℕ) (p : List ℕ) → key d (o ∷ p) ≢ 0 → Held d p
unfolding key
key-Held d o [] nz = tt
key-Held d o (y ∷ r) nz = λ e. nz (ground (arith, e))

-- A branch of new blocks that is linked but not spliced, for the missing pointer at `x ∷ q`.
pub record Growth (Valid : List ℕ → Type 0) (d linked : Tree) (inds : List ℕ) (first num : ℕ)
    (os : List ℕ) (x : ℕ) (q : List ℕ) : Type 0 where
  pub up : (o : ℕ) (p : List ℕ) → Valid (o ∷ p) → Valid p
  pub valid : Valid (x ∷ q)
  pub fresh : (p : List ℕ) → Valid p → key d p ≢ 0 → is_new inds first num (key d p) ≡ false
  pub held : Held d q
  pub chain : Chain linked num inds first os
  pub keeps : Keeps d linked inds
  pub as_long : length inds ≡ length os
  pub holes : (i : ℕ) → i < span inds num → read d (holder d q) (x + i) ≡ 0
  pub single : (p p' : List ℕ) → Valid p → Valid p' → key d p ≢ 0 → key d p ≡ key d p' → p ≡ p'
  pub leaf : (i o : ℕ) → i < num → Valid (o ∷ ahead i (rev_onto os (x ∷ q))) → ⊥
  pub some_num : 0 < num
  pub some_first : 0 < first
  pub some_inds : mem 0 inds ≡ false
  pub distinct : Distinct inds
  pub apart : (y : ℕ) → mem y inds ≡ true → in_run first num y ≡ false

module _ (Valid : List ℕ → Type 0) (d linked : Tree) (inds : List ℕ) (first num : ℕ) (os : List ℕ)
    (x : ℕ) (q : List ℕ) (g : Growth Valid d linked inds first num os x q) where
  abbrev pub grown : Tree
  grown = write_run linked (holder d q) x (first_of inds first) (span inds num)

  pub read-grown :
      (c : Option ℕ) (j : ℕ)
      → inside c inds ≡ false
      → read grown c j ≡ (
          if same c (holder d q) && in_run x (span inds num) j
          then first_of inds first + (j - x)
          else read d c j)
  read-grown c j out = ground (
    arith,
    read-write_run linked (holder d q) x (first_of inds first) (span inds num) c j,
    g.keeps c j out,
  )

  pub holder_old : (p : List ℕ) → Valid p → Held d p → inside (holder d p) inds ≡ false
  holder_old [] v h = refl
  holder_old (y ∷ r) v h = ground (arith, g.fresh (y ∷ r) v h)

  holder_kept :
      (p : List ℕ)
      → Held d p
      → (key d p ≢ 0 → key grown p ≡ key d p)
      → (holder grown p ≡ holder d p) × Held grown p
  holder_kept [] h e = (refl, tt)
  holder_kept (y ∷ r) h e = (ap (λ k. some k) (e h), λ z. h (sym (e h) ∙ z))

  pub key-grown :
      (o : ℕ) (p : List ℕ)
      → Valid p
      → Held d p
      → (key d p ≢ 0 → key grown p ≡ key d p)
      → key grown (o ∷ p) ≡ (
          if same (holder d p) (holder d q) && in_run x (span inds num) o
          then first_of inds first + (o - x)
          else key d (o ∷ p))
  key-grown o p v h e =
      let (hold, h') = holder_kept p h e in
      key-read grown o p h'
      ∙ ap (λ c. read grown c o) hold
      ∙ subst
          (λ k. read grown (holder d p) o ≡ (
            if same (holder d p) (holder d q) && in_run x (span inds num) o
            then first_of inds first + (o - x)
            else k))
          (sym (key-read d o p h)) (read-grown (holder d p) o (holder_old p v h))

  -- What was mapped stays.
  pub kept : (p : List ℕ) → Valid p → key d p ≢ 0 → key grown p ≡ key d p
  unfolding key
  kept [] v nz = refl
  kept (o ∷ p) v nz =
      let h = key-Held d o p nz in
      let e = key-grown o p (g.up o p v) h (kept p (g.up o p v)) in
      elim (Bool-cases (same (holder d p) (holder d q) && in_run x (span inds num) o)) [
        | inr f ↦ ground (arith, e, f)
        | inl t ↦ absurd (
            nz (
              key-read d o p h
              ∙ ap (λ c. read d c o) (same-eq (holder d p) (holder d q) (ground (arith, t)))
              ∙ ap (λ j. read d (holder d q) j) {x = o} {y = x + (o - x)}
                  (ground (arith, t, leb→le x o))
              ∙ g.holes (o - x) (ground (arith, t, leb→le x o, ltb→lt o (x + span inds num)))))
      ]

  grown-Chain : Chain grown num inds first os
  grown-Chain = Chain-ext linked grown num inds first os g.chain (λ c j m.
      read-write_run linked (holder d q) x (first_of inds first) (span inds num) (some c) j
      ∙ ground (arith, apart_from_top c m))
    where
      apart_from_top : (c : ℕ) → mem c inds ≡ true → same (some c) (holder d q) ≡ false
      apart_from_top c m = elim (Bool-cases (same (some c) (holder d q))) [
        | inr f ↦ f
        | inl t ↦ absurd (
            cc (
              m,
              ap (λ b. inside b inds) (same-eq (some c) (holder d q) t),
              holder_old q (g.up x q g.valid) g.held,
            ))
      ]

  -- The missing pointer and, with no indirect blocks, those that follow it.
  top_led : (i : ℕ) → i < span inds num → key grown (ahead i (x ∷ q)) ≡ first_of inds first + i
  top_led i l =
      let v = g.up x q g.valid in
      ground (arith, key-grown (x + i) q v g.held (kept q v), same_self (holder d q), l)

  same-holder :
      (p r : List ℕ) → Valid p → Valid r → Held d p → same (holder d p) (holder d r) ≡ true → p ≡ r
  same-holder [] [] v v' h e = refl
  same-holder [] (y ∷ r) v v' h e = absurd (cc e)
  same-holder (y ∷ p) [] v v' h e = absurd (cc e)
  same-holder (y ∷ p) (z ∷ r) v v' h e =
      g.single (y ∷ p) (z ∷ r) v v' h (ground (arith, e, ==_iff (key d (y ∷ p)) (key d (z ∷ r))))

  abbrev pub IsNew : List ℕ → Type 0
  IsNew p = OnNew inds num os (x ∷ q) p

  pub was_hole : (p : List ℕ) → IsNew p → key d p ≡ 0
  was_hole p h =
      new_hole d num inds os x q p
        (top_hole 0 (ground (arith, g.some_num))
          (ap (λ n. key d (n ∷ q)) {x = x} {y = x + 0} (omega arith)))
        (λ e i l. top_hole i (subst (λ bs. i < span bs num) (sym e) l) refl) h
    where
      top_hole : (i : ℕ) {k : ℕ} → i < span inds num → k ≡ key d ((x + i) ∷ q) → k ≡ 0
      top_hole i l e = e ∙ key-read d (x + i) q g.held ∙ g.holes i l

  -- Below a position whose block is there.
  below_old :
      (o : ℕ) (p : List ℕ)
      → Valid p
      → Held d p
      → IsNew (o ∷ p) ⊎ (key grown (o ∷ p) ≡ key d (o ∷ p))
  below_old o p v h =
      let e = key-grown o p v h (kept p v) in
      elim (Bool-cases (same (holder d p) (holder d q) && in_run x (span inds num) o)) [
        | inr f ↦ inr (ground (arith, e, f))
        | inl t ↦ inl (
            subst (λ s. IsNew (o ∷ s))
              (sym (same-holder p q v (g.up x q g.valid) h (ground (arith, t))))
              (run_new num inds os x q o g.as_long (ground (arith, t))))
      ]

  -- Every other position has what it had.
  pub others : (p : List ℕ) → Valid p → IsNew p ⊎ (key grown p ≡ key d p)
  unfolding key
  others [] v = inr refl
  others (o ∷ []) v = below_old o [] (g.up o [] v) tt
  others (o ∷ y ∷ r) v = elim (others (y ∷ r) (g.up o (y ∷ r) v)) [
    | inl n ↦
        elim (under_new grown num inds first os x q o (y ∷ r) grown-Chain top_led g.some_inds
          g.as_long (λ i l e. g.leaf i o l (subst (λ s. Valid (o ∷ s)) e v)) n) [
            | inl n' ↦ inl n'
            | inr z ↦ inr (z ∙ ground (arith, was_hole (y ∷ r) n))
          ]
    | inr e ↦ elim (ℕ_discrete (key d (y ∷ r)) 0) [
      | yes z ↦ inr (ground (arith, z, e))
      | no nz ↦ below_old o (y ∷ r) (g.up o (y ∷ r) v) nz
    ]
  ]

  -- The data blocks stand at the end of the path.
  pub data_led : (i : ℕ) → i < num → key grown (ahead i (rev_onto os (x ∷ q))) ≡ first + i
  data_led = arrives grown num inds first os x q grown-Chain top_led g.some_inds g.as_long

  -- What is mapped is what was mapped or a new block.
  pub old_or_new :
      (p : List ℕ)
      → Valid p
      → (key grown p ≡ key d p) ⊎ (is_new inds first num (key grown p) ≡ true)
  old_or_new p v = elim (others p v) [
    | inl n ↦ inr (at_new grown num inds first os x q p grown-Chain top_led g.some_inds n)
    | inr e ↦ inl e
  ]

  -- No two positions lead to one block.
  pub grown_single :
      (p p' : List ℕ) → Valid p → Valid p' → key grown p ≢ 0 → key grown p ≡ key grown p' → p ≡ p'
  grown_single p p' v v' nz e = elim (others p v) [
    | inl n ↦ elim (others p' v') [
      | inl n' ↦
          new_single grown num inds first os x q p p' grown-Chain top_led g.some_inds g.distinct
            g.apart n n' e
      | inr f ↦ absurd (clash p p' v' n f nz e)
    ]
    | inr f ↦ elim (others p' v') [
      | inl n' ↦ absurd (clash p' p v n' f (λ z. nz (e ∙ z)) (sym e))
      | inr f' ↦ g.single p p' v v' (λ z. nz (f ∙ z)) (sym f ∙ e ∙ f')
    ]
  ]
    where
      clash :
          (s s' : List ℕ)
          → Valid s'
          → IsNew s
          → key grown s' ≡ key d s'
          → key grown s ≢ 0
          → key grown s ≡ key grown s'
          → ⊥
      clash s s' w n f nz e =
          let new = at_new grown num inds first os x q s grown-Chain top_led g.some_inds n in
          let k = e ∙ f in
          cc (new, ap (λ b. is_new inds first num b) k, g.fresh s' w (λ z. nz (k ∙ z)))

  -- A branch that is linked and not spliced is not seen.
  pub linked_same : (p : List ℕ) → Valid p → key linked p ≡ key d p
  unfolding key
  linked_same [] v = refl
  linked_same (o ∷ []) v = g.keeps none o refl
  linked_same (o ∷ y ∷ r) v =
      let e = linked_same (y ∷ r) (g.up o (y ∷ r) v) in
      elim (ℕ_discrete (key d (y ∷ r)) 0) [
        | yes z ↦ ground (arith, z, e)
        | no nz ↦ ground (
          arith,
          e,
          nz,
          g.keeps (some (key d (y ∷ r))) o (ground (arith, g.fresh (y ∷ r) (g.up o (y ∷ r) v) nz)),
        )
      ]
