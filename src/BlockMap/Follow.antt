-- ===== src/BlockMap/Follow.antt =====
-- kr_get_branch (inode.c) against the pointers of the tree. A position is a list of offsets, the
-- last one first.
use k_rack.Common.{
  ℕ, suc, ◌+◌, ◌≡◌, refl, sym, ap, ◌∙◌, ◌≢◌, ◌⊎◌, inl, inr, Bool, true, Option, none, some, List,
  [], ◌∷◌, arith, ◌==◌, if◌then◌else◌, ==_iff, Bool-cases, length, drop, eio,
}
use k_rack.BlockMap.{
  Tree, read, Indirect, add_chain, verify_chain, Branch, whole, partial, branch_from, get_branch,
}

-- The pointer at a position, or 0 if it or a pointer above it is 0.
unfoldable pub key : Tree → List ℕ → ℕ
key d [] = 0
key d (o ∷ []) = d.i_data o
key d (o ∷ x ∷ q) = let b = key d (x ∷ q) in if b == 0 then 0 else d.block b o

-- The first list turned round, before the second.
abbrev pub rev_onto : List ℕ → List ℕ → List ℕ
rev_onto [] ys = ys
rev_onto (x ∷ xs) ys = rev_onto xs (x ∷ ys)

-- The block that holds the pointers below a position.
abbrev pub holder : Tree → List ℕ → Option ℕ
holder d [] = none
holder d (x ∷ q) = some (key d (x ∷ q))

-- A position whose block is there.
abbrev pub Held : Tree → List ℕ → Type 0
Held d [] = Unit {0}
Held d (x ∷ q) = key d (x ∷ q) ≢ 0

pub key-read : (d : Tree) (o : ℕ) (q : List ℕ) → Held d q → key d (o ∷ q) ≡ read d (holder d q) o
unfolding key
key-read d o [] h = refl
key-read d o (x ∷ q) h = ground (arith, h)

pub key-hole :
    (d : Tree) (os : List ℕ) (x : ℕ) (q : List ℕ)
    → key d (x ∷ q) ≡ 0
    → key d (rev_onto os (x ∷ q)) ≡ 0
unfolding key
key-hole d [] x q e = e
key-hole d (o ∷ os) x q e = key-hole d os o (x ∷ q) (ground (arith, e))

-- A chain of triples that was read from the top down to a position.
abbrev pub OnPath : Tree → List Indirect → List ℕ → Type 0
OnPath d [] [] = Unit {0}
OnPath d [] (o ∷ q) = ⊥
OnPath d (c ∷ cs) [] = ⊥
OnPath d (c ∷ cs) (o ∷ q) = (c ≡ add_chain d (holder d q) o) × Held d q × OnPath d cs q

pub verify_chain-OnPath :
    (d : Tree) (cs : List Indirect) (q : List ℕ) → OnPath d cs q → verify_chain d cs ≡ true
unfolding verify_chain
verify_chain-OnPath d [] q h = refl
verify_chain-OnPath d (c ∷ cs) [] h = absurd h
verify_chain-OnPath d (c ∷ cs) (o ∷ q) (e, _, h) =
    let same : c.key ≡ read d c.bh c.p =
      ap (λ (x : Indirect). x.key) e ∙ sym (ap (λ (x : Indirect). read d x.bh x.p) e) in
    ground (arith, same, ==_iff c.key (read d c.bh c.p), verify_chain-OnPath d cs q h)

-- What kr_get_branch comes to, for the rest `os` of the offsets below a position.
abbrev pub Followed : Tree → (ℕ → Bool) → List ℕ → List ℕ → Branch → Type 0
Followed d broken os q r =
    ((above : List Indirect) × (p : Indirect) × (r ≡ whole above p)
      × OnPath d (p ∷ above) (rev_onto os q)
      × (p.key ≢ 0))
    ⊎ ((above : List Indirect) × (p : Indirect) × (x : ℕ) × (q' : List ℕ) × (rest : List ℕ) × (r
          ≡ partial above p 0)
        × OnPath d (p ∷ above) (x ∷ q')
        × (p.key ≡ 0)
        × (rev_onto os q ≡ rev_onto rest (x ∷ q'))
        × ((n : ℕ) × (rest ≡ drop n os) × (length (x ∷ q') ≡ length q + n)))
    ⊎ ((above : List Indirect) × (p : Indirect) × (q' : List ℕ) × (rest : List ℕ) × (r
          ≡ partial above p eio)
        × OnPath d (p ∷ above) q'
        × (rev_onto os q ≡ rev_onto rest q')
        × (p.key ≢ 0)
        × (broken p.key ≡ true))

widen :
    (d : Tree) (broken : ℕ → Bool) (o : ℕ) (os : List ℕ) (x : ℕ) (q : List ℕ) (r : Branch)
    → Followed d broken os (o ∷ x ∷ q) r
    → Followed d broken (o ∷ os) (x ∷ q) r
widen d broken o os x q r (inl h) = inl h
widen d broken o os x q r (inr (inr h)) = inr (inr h)
widen d broken o os x q r (inr (inl (above, p, y, q', rest, e, on, z, pe, (n, de, le)))) =
    inr (inl (above, p, y, q', rest, e, on, z, pe, (suc n, de, omega (arith, le))))

-- The loop of kr_get_branch below a pointer that is not 0.
pub branch_from-Followed :
    (d : Tree) (broken : ℕ → Bool) (os : List ℕ) (x : ℕ) (q : List ℕ) (above : List Indirect)
    (p : Indirect)
    → OnPath d (p ∷ above) (x ∷ q)
    → p.key ≢ 0
    → Followed d broken os (x ∷ q) (branch_from d broken above p os)
unfolding branch_from
branch_from-Followed d broken [] x q above p h nz = inl (above, p, refl, h, nz)
branch_from-Followed d broken (o ∷ os) x q above p (e, hq, hc) nz =
    let at : p.key ≡ key d (x ∷ q) = ap (λ (i : Indirect). i.key) e ∙ sym (key-read d x q hq) in
    let held : key d (x ∷ q) ≢ 0 = ground (arith, at, nz) in
    let low : OnPath d (add_chain d (some p.key) o ∷ p ∷ above) (o ∷ x ∷ q) =
      (ap (λ (k : ℕ). add_chain d (some k) o) at, held, (e, hq, hc)) in
    elim (Bool-cases (broken p.key)) [
      | inl t ↦ rw t (inr (inr (above, p, x ∷ q, o ∷ os, refl, (e, hq, hc), refl, nz, t)))
      | inr t ↦
          rw (t, verify_chain-OnPath d (p ∷ above) (x ∷ q) (e, hq, hc))
            (elim (Bool-cases ((add_chain d (some p.key) o).key == 0)) [
              | inl z ↦ rw z (
                  inr (
                    inl (
                      p ∷ above,
                      add_chain d (some p.key) o,
                      o,
                      x ∷ q,
                      os,
                      refl,
                      low,
                      ground (arith, z, ==_iff (add_chain d (some p.key) o).key 0),
                      refl,
                      (1, refl, omega arith),
                    )))
              | inr z ↦ rw z (
                  widen d broken o os x q
                    (branch_from d broken (p ∷ above) (add_chain d (some p.key) o) os)
                    (branch_from-Followed d broken os o (x ∷ q) (p ∷ above)
                      (add_chain d (some p.key) o) low
                      (ground (arith, z, ==_iff (add_chain d (some p.key) o).key 0))))
            ])
    ]

-- On a tree that does not change meanwhile, whatever blocks cannot be read, kr_get_branch gives one
-- of three answers. The chain is whole: its triples are those of the path's positions, and the last
-- pointer is not 0. Or the chain ends, without an error, at the first position of the path whose
-- pointer is 0, and its triples are those of the positions to there. Or it ends with EIO at a block
-- of the path that cannot be read. It is never EAGAIN.
pub get_branch-Followed :
    (d : Tree) (broken : ℕ → Bool) (o : ℕ) (os : List ℕ)
    → Followed d broken (o ∷ os) [] (get_branch d broken o os)
unfolding get_branch key
get_branch-Followed d broken o os =
    let p = add_chain d none o in
    elim (Bool-cases (p.key == 0)) [
      | inl z ↦ rw z (
          inr (
            inl (
              [],
              p,
              o,
              [],
              os,
              refl,
              (refl, tt, tt),
              ground (arith, z, ==_iff p.key 0),
              refl,
              (1, refl, refl),
            )))
      | inr z ↦ rw z (
          from_top (
            branch_from-Followed d broken os o [] [] p (refl, tt, tt)
              (ground (arith, z, ==_iff p.key 0))))
    ]
  where
    from_top : {r : Branch} → Followed d broken os (o ∷ []) r → Followed d broken (o ∷ os) [] r
    from_top (inl h) = inl h
    from_top (inr (inr h)) = inr (inr h)
    from_top (inr (inl (above, p, y, q', rest, e, on, z, pe, (n, de, le)))) =
        inr (inl (above, p, y, q', rest, e, on, z, pe, (suc n, de, omega (arith, le))))
