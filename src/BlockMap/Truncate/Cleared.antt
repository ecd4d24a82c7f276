-- ===== src/BlockMap/Truncate/Cleared.antt =====
-- Trees in which pointers became 0, and the blocks that are freed for them (inode.c).
use k_rack.Common.{
  ℕ, ◌^◌, ◌<◌, ◌≡◌, refl, sym, ap, subst, ◌∙◌, ◌≢◌, ◌⊎◌, inl, inr, Bool, true, false, ◌&&◌, ◌||◌,
  Option, List, [], ◌∷◌, ◌++◌, arith, ◌==◌, ==_iff, Bool-cases,
}
use mathlib.Core.List.{append_assoc}
use native.Mathlib.Decide.{ℕ_discrete}
use k_rack.BlockMap.{Tree, read}
use k_rack.BlockMap.Alloc.{run}
use k_rack.BlockMap.Alloc.Runs.{mem-append}
use k_rack.BlockMap.Write.{write}
use k_rack.BlockMap.Write.Laws.{mem, same, same-eq, same_self, read-write}
use k_rack.BlockMap.Truncate.{Call}

-- The blocks of the calls, one by one.
unfoldable pub freed : List Call → List ℕ
freed [] = []
freed (c ∷ cs) = run c.block c.count ++ freed cs

pub freed-append : (xs ys : List Call) → freed (xs ++ ys) ≡ freed xs ++ freed ys
unfolding freed
freed-append [] ys = refl
freed-append (c ∷ xs) ys =
    ap (λ l. run c.block c.count ++ l) (freed-append xs ys)
    ∙ sym (append_assoc (run c.block c.count) (freed xs) (freed ys))

pub mem-freed_append :
    (x : ℕ) (xs ys : List Call) → mem x (freed (xs ++ ys)) ≡ (mem x (freed xs) || mem x (freed ys))
unfolding freed mem
mem-freed_append x [] ys = refl
mem-freed_append x (c ∷ xs) ys = ground (
  arith,
  mem-append x (run c.block c.count) (freed (xs ++ ys)),
  mem-append x (run c.block c.count) (freed xs),
  mem-freed_append x xs ys,
)

-- From `d` to `d'` some pointers became 0, and `got` are the blocks of these that could be read.
pub record Cleared (broken : ℕ → Bool) (d : Tree) (got : ℕ → Bool) (d' : Tree) : Type 0 where
  pub kept : (bh : Option ℕ) (o : ℕ) → (read d' bh o ≡ read d bh o) ⊎ (read d' bh o ≡ 0)
  pub were :
      (x : ℕ)
      → got x ≡ true
      → (x ≢ 0) × (bh : Option ℕ) × (o : ℕ) × (read d bh o ≡ x) × (read d' bh o ≡ 0)
  pub all :
      (bh : Option ℕ) (o : ℕ)
      → read d bh o ≢ 0
      → read d' bh o ≡ 0
      → (got (read d bh o) ≡ true) ⊎ (broken (read d bh o) ≡ true)

module _ (broken : ℕ → Bool) where
  pub Cleared-refl : (d : Tree) → Cleared broken d (λ x. false) d
  Cleared-refl d = record {
    kept = λ bh o. inl refl;
    were = λ x e. absurd (cc e);
    all = λ bh o n e. absurd (n e);
  }

  pub Cleared-trans :
      (d d' d'' : Tree) (f g h : ℕ → Bool)
      → Cleared broken d f d'
      → Cleared broken d' g d''
      → ((x : ℕ) → h x ≡ (f x || g x))
      → Cleared broken d h d''
  Cleared-trans d d' d'' f g h c c' e = record {
    kept = λ bh o. ground (arith, c.kept bh o, c'.kept bh o);
    were = λ x t. elim (Bool-cases (f x)) [
      | inl here ↦
          let (n, bh, o, r, z) = c.were x here in (n, bh, o, r, ground (arith, c'.kept bh o, z))
      | inr other ↦
          let (n, bh, o, r, z) = c'.were x (ground (arith, e x, t, other)) in
          (n, bh, o, ground (arith, c.kept bh o, r, n), z)
    ];
    all = λ bh o n z. elim (ℕ_discrete (read d' bh o) 0) [
      | yes y ↦ ground (arith, c.all bh o n y, e (read d bh o))
      | no y ↦
          let at : read d' bh o ≡ read d bh o = ground (arith, c.kept bh o, y) in
          either (f (read d bh o)) (g (read d bh o)) (h (read d bh o)) (broken (read d bh o))
            (subst (λ v. (g v ≡ true) ⊎ (broken v ≡ true)) at (c'.all bh o y z)) (e (read d bh o))
    ];
  }
    where
      either : (a b c v : Bool) → (b ≡ true) ⊎ (v ≡ true) → c ≡ (a || b) → (c ≡ true) ⊎ (v ≡ true)
      either a b c v (inl t) q = inl (ground (arith, t, q))
      either a b c v (inr t) q = inr t

  -- A pointer is cleared.
  pub Cleared-write :
      (d : Tree) (bh : Option ℕ) (o : ℕ) (got : ℕ → Bool)
      → read d bh o ≢ 0
      → ((x : ℕ) → got x ≡ true → x ≡ read d bh o)
      → (got (read d bh o) ≡ true) ⊎ (broken (read d bh o) ≡ true)
      → Cleared broken d got (write d bh o 0)
  Cleared-write d bh o got n only here = record {
    kept = λ c j. elim (Bool-cases (same c bh && j == o)) [
      | inl t ↦ inr (ground (arith, read-write d bh o 0 c j, t))
      | inr f ↦ inl (ground (arith, read-write d bh o 0 c j, f))
    ];
    were = λ x t. (
      λ z. n (sym (only x t) ∙ z),
      bh,
      o,
      sym (only x t),
      ground (arith, read-write d bh o 0 bh o, same_self bh, ==_iff o o),
    );
    all = λ c j m z. elim (Bool-cases (same c bh && j == o)) [
      | inl t ↦
          let at : read d bh o ≡ read d c j =
            ap (λ b. read d b o) (sym (same-eq c bh (ground (arith, t))))
            ∙ ap (read d c) {x = o} {y = j} (ground (arith, t, ==_iff j o)) in
          subst (λ v. (got v ≡ true) ⊎ (broken v ≡ true)) at here
      | inr f ↦ absurd (m (ground (arith, read-write d bh o 0 c j, f, z)))
    ];
  }

  abbrev pub Small : Tree → Type 0
  Small d = (bh : Option ℕ) (o : ℕ) → read d bh o < 2 ^ 32

  pub Cleared-Small : (d d' : Tree) (got : ℕ → Bool) → Cleared broken d got d' → Small d → Small d'
  Cleared-Small d d' got c small bh o = ground (arith, c.kept bh o, small bh o)

  -- The blocks that are freed are those cleared.
  abbrev pub FreedOk : Tree → Tree × List Call → Type 0
  FreedOk d r = Cleared broken d (λ x. mem x (freed r.1)) r.0

  -- No two pointers lead to one block.
  abbrev pub Unique : Tree → Type 0
  Unique d =
      (bh : Option ℕ) (o : ℕ) (bh' : Option ℕ) (o' : ℕ)
      → read d bh o ≢ 0
      → read d bh o ≡ read d bh' o'
      → (bh ≡ bh') × (o ≡ o')

  pub Cleared-read :
      (d d' : Tree) (got : ℕ → Bool) (bh : Option ℕ) (o x : ℕ)
      → Cleared broken d got d'
      → x ≢ 0
      → read d' bh o ≡ x
      → read d bh o ≡ x
  Cleared-read d d' got bh o x c n e = ground (arith, c.kept bh o, n, e)

  pub Cleared-Unique :
      (d d' : Tree) (got : ℕ → Bool) → Cleared broken d got d' → Unique d → Unique d'
  Cleared-Unique d d' got c u bh o bh' o' n e =
      let x = read d' bh o in
      let at : read d bh o ≡ x = Cleared-read d d' got bh o x c n refl in
      let at' : read d bh' o' ≡ x = Cleared-read d d' got bh' o' x c n (sym e) in
      u bh o bh' o' (λ z. n (sym at ∙ z)) (at ∙ sym at')

  -- A block is not freed twice.
  pub Cleared-apart :
      (d d' d'' : Tree) (f g : ℕ → Bool) (x : ℕ)
      → Unique d
      → Cleared broken d f d'
      → Cleared broken d' g d''
      → f x ≡ true
      → g x ≡ false
  Cleared-apart d d' d'' f g x u c c' t = elim (Bool-cases (g x)) [
    | inl again ↦
        let (n, bh, o, r, z) = c.were x t in
        let (_, bh', o', r', _) = c'.were x again in
        let at' = Cleared-read d d' f bh' o' x c n r' in
        let (p, q) = u bh o bh' o' (λ e. n (sym r ∙ e)) (r ∙ sym at') in
        let back : read d' bh o ≡ read d' bh' o' =
          ap (λ b. read d' b o) p ∙ ap (read d' bh') {x = o} {y = o'} q in
        absurd (n (sym r' ∙ sym back ∙ z))
    | inr once ↦ once
  ]
