-- ===== src/BlockMap/Get/Lookup.antt =====
-- What kr_get_blocks (inode.c) finds: a chain that is read again in a tree that has changed, the
-- blocks that follow one another, and the end of a chain with a missing pointer.
use k_rack.Common.{
  ℕ, zero, suc, ◌+◌, ◌-◌, ◌≤◌, ◌<◌, ◌≡◌, refl, sym, ap, subst, ◌∙◌, ◌≢◌, ◌⊎◌, inl, inr, Bool, true,
  false, none, some, List, [], ◌∷◌, arith, ◌==◌, ==_iff, Bool-cases, length, drop, eio,
}
use native.Mathlib.Decide.{ℕ_discrete}
use k_rack.BlockMap.{Tree, read, Indirect, add_chain, verify_chain, whole, partial, get_branch}
use k_rack.BlockMap.Follow.{key, rev_onto, holder, Held, key-read, OnPath, get_branch-Followed}
use k_rack.BlockMap.Lead.{ahead}
use k_rack.BlockMap.Get.{map_more}

-- The last triple has the pointer of its position.
pub OnPath-key :
    (d : Tree) (c : Indirect) (cs : List Indirect) (o : ℕ) (q : List ℕ)
    → OnPath d (c ∷ cs) (o ∷ q)
    → c.key ≡ key d (o ∷ q)
OnPath-key d c cs o q (e, h, hs) = ap (λ (i : Indirect). i.key) e ∙ sym (key-read d o q h)

pub OnPath-length :
    (d : Tree) (cs : List Indirect) (q : List ℕ) → OnPath d cs q → length cs ≡ length q
OnPath-length d [] [] h = refl
OnPath-length d [] (o ∷ q) h = absurd h
OnPath-length d (c ∷ cs) [] h = absurd h
OnPath-length d (c ∷ cs) (o ∷ q) (e, h, hs) = ap suc (OnPath-length d cs q hs)

-- verify_chain: the chain is one of the tree as it is now.
pub recheck :
    (d0 d : Tree) (cs : List Indirect) (q : List ℕ)
    → OnPath d0 cs q
    → verify_chain d cs ≡ true
    → OnPath d cs q
unfolding verify_chain
recheck d0 d [] [] h v = tt
recheck d0 d [] (o ∷ q) h v = absurd h
recheck d0 d (c ∷ cs) [] h v = absurd h
recheck d0 d (c ∷ cs) (o ∷ q) (e, h, hs) v =
    let ih = recheck d0 d cs q hs (ground (arith, v)) in
    let (held, same) = moved cs q h hs ih in
    let k : read d0 (holder d0 q) o ≡ read d (holder d0 q) o =
      sym (ap (λ (i : Indirect). i.key) e)
      ∙ ground (arith, v, ==_iff c.key (read d c.bh c.p))
      ∙ ap (λ (i : Indirect). read d i.bh i.p) e in
    (
      e
          ∙ ap (λ n. record { bh = holder d0 q; p = o; key = n }) k
          ∙ ap (λ b. add_chain d b o) (sym same),
      held,
      ih,
    )
  where
    moved :
        (cs : List Indirect) (q : List ℕ)
        → Held d0 q
        → OnPath d0 cs q
        → OnPath d cs q
        → Held d q × (holder d q ≡ holder d0 q)
    moved [] [] h hs ih = (tt, refl)
    moved [] (y ∷ r) h hs ih = absurd hs
    moved (c ∷ cs) [] h hs ih = absurd hs
    moved (c ∷ cs) (y ∷ r) h hs ih =
        let same : key d (y ∷ r) ≡ key d0 (y ∷ r) =
          sym (OnPath-key d c cs y r ih) ∙ OnPath-key d0 c cs y r hs in
        ((λ z. h (sym same ∙ z)), ap (λ n. some n) same)

-- Each block that is mapped stood behind the one before when it was looked at.
pub map_more-read :
    (d0 : Tree) (trees : ℕ → Tree) (above : List Indirect) (p : Indirect) (x : ℕ) (q : List ℕ)
    (count n m : ℕ)
    → OnPath d0 (p ∷ above) (x ∷ q)
    → map_more trees above p count n ≡ some m
    → (count ≤ m)
      × (m ≤ count + n)
      × ((j : ℕ) → count ≤ j → j < m → key (trees j) (ahead j (x ∷ q)) ≡ p.key + j)
unfolding map_more
map_more-read d0 trees above p x q count zero m h e =
    let s : count ≡ m = some-inj e in
    (omega (arith, s), omega (arith, s), λ j l k. absurd (omega (arith, s, l, k)))
  where
    some-inj : {a b : ℕ} → some a ≡ some b → a ≡ b
    some-inj {a} {b} e = cc e
map_more-read d0 trees above p x q count (suc n) m h e =
    elim (Bool-cases (verify_chain (trees count) (p ∷ above))) [
      | inr f ↦ absurd (ground (arith, e, f))
      | inl v ↦ elim (Bool-cases (read (trees count) p.bh (p.p + count) == p.key + count)) [
        | inr f ↦
            let s : count ≡ m = ground (arith, e, v, f) in
            (omega (arith, s), omega (arith, s), λ j l k. absurd (omega (arith, s, l, k)))
        | inl t ↦
            let (le, most, rest) =
              map_more-read d0 trees above p x q (count + 1) n m h (ground (arith, e, v, t)) in
            (
              omega (arith, le),
              omega (arith, most),
              λ j l k. elim (ℕ_discrete j count) [
                | no ne ↦ rest j (omega (arith, ne, l)) k
                | yes same ↦
                    let (pe, held, hs) = recheck d0 (trees count) (p ∷ above) (x ∷ q) h v in
                    subst (λ i. key (trees i) (ahead i (x ∷ q)) ≡ p.key + i) (sym same)
                      (key-read (trees count) (x + count) q held
                        ∙ sym (ap (λ (i : Indirect). read (trees count) i.bh (i.p + count)) pe)
                        ∙ ground (
                          arith,
                          t,
                          ==_iff (read (trees count) p.bh (p.p + count)) (p.key + count),
                        ))
              ],
            )
      ]
    ]

-- EAGAIN: the chain is no longer in the tree.
pub map_more-none :
    (trees : ℕ → Tree) (above : List Indirect) (p : Indirect) (count n : ℕ)
    → map_more trees above p count n ≡ none
    → (j : ℕ) × (verify_chain (trees j) (p ∷ above) ≡ false)
unfolding map_more
map_more-none trees above p count zero e = absurd (cc e)
map_more-none trees above p count (suc n) e =
    elim (Bool-cases (verify_chain (trees count) (p ∷ above))) [
      | inr f ↦ (count, f)
      | inl v ↦ elim (Bool-cases (read (trees count) p.bh (p.p + count) == p.key + count)) [
        | inr f ↦ absurd (ground (arith, e, v, f))
        | inl t ↦ map_more-none trees above p (count + 1) n (ground (arith, e, v, t))
      ]
    ]

-- A chain that ends at a missing pointer, and the offsets `rest` that follow it.
pub record Missing (d : Tree) (os : List ℕ) (above : List Indirect) (p : Indirect) : Type 0 where
  pub x : ℕ
  pub q : List ℕ
  pub rest : List ℕ
  pub on_path : OnPath d (p ∷ above) (x ∷ q)
  pub empty : p.key ≡ 0
  pub at : rev_onto os [] ≡ rev_onto rest (x ∷ q)
  pub rest_is : drop (length above + 1) os ≡ rest
  pub length_rest : length os - length above - 1 ≡ length rest

-- It is still there if the chain is verified.
pub Missing-again :
    (d0 d : Tree) (os : List ℕ) (above : List Indirect) (p : Indirect)
    → Missing d0 os above p
    → verify_chain d (p ∷ above) ≡ true
    → Missing d os above p
Missing-again d0 d os above p m v = record {
  x = m.x;
  q = m.q;
  rest = m.rest;
  on_path = recheck d0 d (p ∷ above) (m.x ∷ m.q) m.on_path v;
  empty = m.empty;
  at = m.at;
  rest_is = m.rest_is;
  length_rest = m.length_rest;
}

length-rev_onto : (xs ys : List ℕ) → length (rev_onto xs ys) ≡ length xs + length ys
length-rev_onto [] ys = omega arith
length-rev_onto (x ∷ xs) ys = length-rev_onto xs (x ∷ ys) ∙ omega arith

-- The answer of kr_get_branch, as a chain that is whole, one with a missing pointer, or one that
-- cannot be read.
pub Branch-Missing :
    (d : Tree) (broken : ℕ → Bool) (o : ℕ) (os : List ℕ)
    → ((above : List Indirect) × (p : Indirect) × (x : ℕ) × (q : List ℕ) × (get_branch d broken o os
          ≡ whole above p)
        × OnPath d (p ∷ above) (x ∷ q)
        × (rev_onto (o ∷ os) [] ≡ x ∷ q)
        × (p.key ≢ 0))
      ⊎ ((above : List Indirect) × (p : Indirect) × (get_branch d broken o os ≡ partial above p 0)
          × Missing d (o ∷ os) above p)
      ⊎ ((above : List Indirect) × (p : Indirect) × (get_branch d broken o os ≡ partial above p eio)
          × (broken p.key ≡ true))
Branch-Missing d broken o os = elim (get_branch-Followed d broken o os) [
  | inl (above, p, e, on, nz) ↦ inl (whole_end above p (rev_onto (o ∷ os) []) refl e on nz)
  | inr h ↦ elim h [
    | inr (above, p, q, rest, e, on, at, nz, b) ↦ inr (inr (above, p, e, b))
    | inl (above, p, x, q, rest, e, on, z, at, (n, de, le)) ↦
        let la = OnPath-length d (p ∷ above) (x ∷ q) on in
        let lr = ap (λ l. length l) at in
        inr (
          inl (
            above,
            p,
            e,
            record {
              x = x;
              q = q;
              rest = rest;
              on_path = on;
              empty = z;
              at = at;
              rest_is =
                  ap (λ m. drop m (o ∷ os)) {x = length above + 1} {y = n} (omega (arith, la, le))
                  ∙ sym de;
              length_rest =
                  omega (arith, la, lr, length-rev_onto (o ∷ os) [], length-rev_onto rest (x ∷ q));
            },
          ))
  ]
]
  where
    whole_end :
        (above : List Indirect) (p : Indirect) (full : List ℕ)
        → rev_onto (o ∷ os) [] ≡ full
        → get_branch d broken o os ≡ whole above p
        → OnPath d (p ∷ above) full
        → p.key ≢ 0
        → (above' : List Indirect) × (p' : Indirect) × (x : ℕ) × (q : List ℕ) × (get_branch d broken
              o os
            ≡ whole above' p')
          × OnPath d (p' ∷ above') (x ∷ q)
          × (rev_onto (o ∷ os) [] ≡ x ∷ q)
          × (p'.key ≢ 0)
    whole_end above p [] at e on nz = absurd on
    whole_end above p (x ∷ q) at e on nz = (above, p, x, q, e, on, at, nz)
