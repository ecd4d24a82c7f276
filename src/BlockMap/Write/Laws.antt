-- ===== src/BlockMap/Write/Laws.antt =====
-- What the pointers are after the writes of kr_alloc_branch and kr_splice_branch (inode.c).
use k_rack.Common.{
  ℕ, zero, suc, ◌+◌, ◌-◌, ◌<◌, ◌≡◌, refl, ap, subst, ◌∙◌, Bool, true, false, ◌&&◌, ◌||◌, Option,
  none, some, List, [], ◌∷◌, arith, ltb, leb, ◌==◌, if◌then◌else◌, ==_iff, length,
}
use k_rack.BlockMap.{Tree, read}
use k_rack.BlockMap.Write.{write, write_run, wipe, first_of, link_chain, splice}

unfoldable pub mem : ℕ → List ℕ → Bool
mem x [] = false
mem x (y ∷ ys) = x == y || mem x ys

abbrev pub Distinct : List ℕ → Type 0
Distinct [] = Unit {0}
Distinct (x ∷ xs) = (mem x xs ≡ false) × Distinct xs

-- A number of a run.
abbrev pub in_run : ℕ → ℕ → ℕ → Bool
in_run b n x = leb b x && ltb x (b + n)

-- Whether two pointers stand in one block.
abbrev pub same : Option ℕ → Option ℕ → Bool
same none none = true
same none (some b) = false
same (some a) none = false
same (some a) (some b) = a == b

pub same-eq : (a b : Option ℕ) → same a b ≡ true → a ≡ b
same-eq none none e = refl
same-eq none (some b) e = absurd (cc e)
same-eq (some a) none e = absurd (cc e)
same-eq (some a) (some b) e = ground (arith, e, ==_iff a b)

pub same_self : (a : Option ℕ) → same a a ≡ true
same_self none = refl
same_self (some a) = ground (arith, ==_iff a a)

pub read-write :
    (d : Tree) (bh : Option ℕ) (o v : ℕ) (c : Option ℕ) (j : ℕ)
    → read (write d bh o v) c j ≡ (if same c bh && j == o then v else read d c j)
unfolding write
read-write d none o v none j = refl
read-write d none o v (some c) j = refl
read-write d (some b) o v none j = refl
read-write d (some b) o v (some c) j = refl

pub read-write_run :
    (d : Tree) (bh : Option ℕ) (o v n : ℕ) (c : Option ℕ) (j : ℕ)
    → read (write_run d bh o v n) c j
      ≡ (if same c bh && in_run o n j then v + (j - o) else read d c j)
unfolding write_run
read-write_run d bh o v zero c j = ground arith
read-write_run d bh o v (suc n) c j = ground (
  arith,
  read-write_run (write d bh o v) bh (o + 1) (v + 1) n c j,
  read-write d bh o v c j,
  ==_iff j o,
)

pub splice-write_run :
    (d : Tree) (bh : Option ℕ) (o v k n : ℕ)
    → 0 < n
    → splice d bh o v k n ≡ write_run d bh o v (if k == 0 then n else 1)
unfolding splice write_run
splice-write_run d bh o v k zero h = absurd (omega arith)
splice-write_run d bh o v zero (suc zero) h = refl
splice-write_run d bh o v zero (suc (suc n)) h = ground arith
splice-write_run d bh o v (suc k) (suc n) h = ground arith

pub read-wipe :
    (d : Tree) (b : ℕ) (c : Option ℕ) (j : ℕ)
    → read (wipe d b) c j ≡ (if same c (some b) then 0 else read d c j)
unfolding wipe
read-wipe d b none j = refl
read-wipe d b (some c) j = refl

-- How many pointers of the block above a chain lead to new blocks.
abbrev pub span : List ℕ → ℕ → ℕ
span bs num = if length bs == 0 then num else 1

-- The chain of new blocks: each has the pointer to the next and no other, and the last those to the
-- data.
abbrev pub Chain : Tree → ℕ → List ℕ → ℕ → List ℕ → Type 0
Chain d num [] first os = Unit {0}
Chain d num (b ∷ bs) first [] = ⊥
Chain d num (b ∷ bs) first (o ∷ os) =
    ((j : ℕ)
      → read d (some b) j ≡ (if in_run o (span bs num) j then first_of bs first + (j - o) else 0))
    × Chain d num bs first os

-- Whether a pointer stands in one of the blocks.
abbrev pub inside : Option ℕ → List ℕ → Bool
inside none bs = false
inside (some b) bs = mem b bs

-- The pointers outside the blocks are kept.
abbrev pub Keeps : Tree → Tree → List ℕ → Type 0
Keeps d d' bs = (c : Option ℕ) (j : ℕ) → inside c bs ≡ false → read d' c j ≡ read d c j

pub inside_cons :
    (c : Option ℕ) (b : ℕ) (bs : List ℕ) → inside c (b ∷ bs) ≡ (same c (some b) || inside c bs)
unfolding mem
inside_cons none b bs = refl
inside_cons (some c) b bs = refl

-- The last block, with its run of pointers.
last_block :
    (d : Tree) (b o first n : ℕ) (c : Option ℕ) (j : ℕ)
    → read (write_run (write (wipe d b) (some b) o first) (some b) (o + 1) (first + 1) n) c j ≡ (
        if same c (some b) then (if in_run o (suc n) j then first + (j - o) else 0) else read d c j)
last_block d b o first n c j = ground (
  arith,
  read-write_run (write (wipe d b) (some b) o first) (some b) (o + 1) (first + 1) n c j,
  read-write (wipe d b) (some b) o first c j,
  read-wipe d b c j,
  ==_iff j o,
)

next_block :
    (d : Tree) (b o v : ℕ) (c : Option ℕ) (j : ℕ)
    → read (write (wipe d b) (some b) o v) c j
      ≡ (if same c (some b) then (if j == o then v else 0) else read d c j)
next_block d b o v c j = ground (arith, read-write (wipe d b) (some b) o v c j, read-wipe d b c j)

pub Chain-ext :
    (d d' : Tree) (num : ℕ) (bs : List ℕ) (first : ℕ) (os : List ℕ)
    → Chain d num bs first os
    → ((c j : ℕ) → mem c bs ≡ true → read d' (some c) j ≡ read d (some c) j)
    → Chain d' num bs first os
unfolding mem
Chain-ext d d' num [] first os h e = tt
Chain-ext d d' num (b ∷ bs) first [] h e = absurd h
Chain-ext d d' num (b ∷ bs) first (o ∷ os) (h, hs) e = (
  λ j. e b j (ground (arith, ==_iff b b)) ∙ h j,
  Chain-ext d d' num bs first os hs (λ x j m. e x j (ground (arith, m))),
)

-- The chain is there, or there was no memory; nothing else is written.
pub link_chain-Chain :
    (d : Tree) (no_memory : ℕ → Bool) (num : ℕ) (bs : List ℕ) (first : ℕ) (os : List ℕ) (d' : Tree)
    → 0 < num
    → Distinct bs
    → link_chain d no_memory num bs first os ≡ some d'
    → Chain d' num bs first os × Keeps d d' bs
unfolding link_chain
link_chain-Chain d no_memory num [] first os d' some_num h e =
    let p : d' ≡ d = cc e in (tt, λ c j _. ap (λ t. read t c j) p)
link_chain-Chain d no_memory num (b ∷ []) first [] d' some_num h e = absurd (cc e)
link_chain-Chain d no_memory num (b ∷ c ∷ bs) first [] d' some_num h e = absurd (cc e)
link_chain-Chain d no_memory num (b ∷ []) first (o ∷ os) d' some_num h e =
    let t = write_run (write (wipe d b) (some b) o first) (some b) (o + 1) (first + 1) (num - 1) in
    let p : d' ≡ t = ground (arith, e) in
    let n : suc (num - 1) ≡ num = omega (arith, some_num) in
    (
      (
        λ j.
            subst (λ m. read d' (some b) j ≡ (if in_run o m j then first + (j - o) else 0)) n
              (ap (λ x. read x (some b) j) p
                ∙ ground (arith, last_block d b o first (num - 1) (some b) j, same_self (some b))),
        tt,
      ),
      λ c j out.
          ap (λ x. read x c j) p
          ∙ ground (arith, last_block d b o first (num - 1) c j, inside_cons c b [], out),
    )
link_chain-Chain d no_memory num (b ∷ c ∷ bs) first (o ∷ os) d' some_num (nb, h) e =
    let t = write (wipe d b) (some b) o c in
    let on : link_chain t no_memory num (c ∷ bs) first os ≡ some d' = ground (arith, e) in
    let (chain, keeps) = link_chain-Chain t no_memory num (c ∷ bs) first os d' some_num h on in
    (
      (
        λ j.
            keeps (some b) j nb
            ∙ ground (arith, next_block d b o c (some b) j, same_self (some b), ==_iff j o),
        chain,
      ),
      λ x j out.
          keeps x j (ground (arith, out, inside_cons x b (c ∷ bs)))
          ∙ ground (arith, next_block d b o c x j, inside_cons x b (c ∷ bs), out),
    )
