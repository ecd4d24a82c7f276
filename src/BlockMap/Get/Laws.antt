-- ===== src/BlockMap/Get/Laws.antt =====
-- kr_get_blocks (inode.c): what it finds and what it adds.
use k_rack.Common.{
  ℕ, ◌+◌, ◌-◌, ◌^◌, ◌≤◌, ◌<◌, min, ◌≡◌, refl, sym, ap, subst, ◌∙◌, ◌≢◌, inl, inr, Bool, true, false,
  none, List, [], ◌∷◌, arith, ltb, Bool-cases, Option-cases, length, eagain, pos, pos_part,
}
use k_rack.BlockPath.{Geometry, ndir_blocks, block_to_path}
use k_rack.BlockPath.Laws.{IsPath, capacity, block_to_path-block_of}
use k_rack.BlockMap.{Indirect, Branch, whole, partial, get_branch, verify_chain}
use k_rack.BlockMap.Follow.{key, rev_onto, OnPath, key-hole, verify_chain-OnPath}
use k_rack.BlockMap.Alloc.{AllocOps}
use k_rack.BlockMap.Alloc.Laws.{AllocLaws}
use k_rack.BlockMap.Position.{block_at, TreeOk, position-ahead}
use k_rack.BlockMap.Get.{
  File, Setting, Answer, mapped, hole, failed, map_more, got_it, allocate, read_again, after_lookup,
  get_blocks,
}
use k_rack.BlockMap.Get.Allocated.{AllocatedOk}
use k_rack.BlockMap.Get.Lookup.{OnPath-key, map_more-none, Missing, Missing-again, Branch-Missing}
use k_rack.BlockMap.Get.Extend.{Asked, allocate-AllocatedOk}
use k_rack.BlockMap.Get.Answers.{GetOk, found, found_later, no_block, unreadable, changed, extended}
use k_rack.BlockMap.Get.Found.{at_end, looked_up}

module _ {S : Type 0} (ops : AllocOps S) (used : S → ℕ → Bool) (Ok Sound Fresh : S → Type 0)
    (bound : ℕ) (laws : AllocLaws S ops used Ok Sound Fresh bound) (w : Setting) (f : File S)
    (iblock maxblocks boundary : ℕ) (o : ℕ) (os : List ℕ)
    (a : Asked used Ok Fresh w f bound iblock maxblocks boundary o os) where
  -- Under the mutex every block can be read.
  read_again-GetOk :
      (create : Bool)
      → create ≡ true
      → ((b : ℕ) → w.broken_again b ≡ false)
      → GetOk used Ok w f iblock maxblocks create boundary
          (read_again ops w f iblock maxblocks boundary o os)
  unfolding read_again got_it
  read_again-GetOk create c readable = elim (Branch-Missing f.tree w.broken_again o os) [
    | inl (above, p, x, q, e, on, at, nz) ↦
        let ends : (f, mapped 1 p.key false (ltb boundary 1))
            ≡ read_again ops w f iblock maxblocks boundary o os =
          ground (arith, e) in
        let first = λ (j : ℕ) (l : j < 1).
          ap (λ n. block_at w.geometry f.tree n) {x = iblock + j} {y = iblock} (omega (arith, l))
          ∙ at_end ops used Ok Sound Fresh bound laws w f iblock maxblocks boundary o os a f.tree x
              q at
          ∙ sym (OnPath-key f.tree p above x q on)
          ∙ omega (arith, l) in
        found_later c (1, p.key, sym ends, omega arith, omega (arith, a.some_blocks), nz, first)
    | inr (inl (above, p, e, m)) ↦
        let ends : allocate ops w f iblock maxblocks boundary (o ∷ os) above p
            ≡ read_again ops w f iblock maxblocks boundary o os =
          ground (arith, e) in
        extended c (
          subst Allocated ends (
            allocate-AllocatedOk ops used Ok Sound Fresh bound laws w f iblock maxblocks boundary o
              os a above p m))
    | inr (inr (above, p, e, b)) ↦ absurd (cc (b, readable p.key))
  ]
    where
      Allocated : File S × Answer → Type 0
      Allocated = AllocatedOk used Ok w f iblock maxblocks boundary

  -- The first reading found the whole chain.
  after_whole :
      (create : Bool) (above : List Indirect) (p : Indirect) (x : ℕ) (q : List ℕ)
      → ((b : ℕ) → w.broken_again b ≡ false)
      → OnPath w.seen (p ∷ above) (x ∷ q)
      → rev_onto (o ∷ os) [] ≡ x ∷ q
      → p.key ≢ 0
      → GetOk used Ok w f iblock maxblocks create boundary
          (after_lookup ops w f iblock maxblocks create boundary o os (whole above p))
  unfolding after_lookup got_it
  after_whole create above p x q readable on at nz =
      elim (Option-cases (map_more w.meanwhile above p 1 n)) [
        | inr (count, me) ↦
            let ends : (f, mapped count p.key false (ltb boundary count)) ≡ answer =
              ground (arith, me) in
            subst Good ends (
              found (
                looked_up ops used Ok Sound Fresh bound laws w f iblock maxblocks boundary o os a
                  above p x q count on at nz me))
        | inl me ↦ elim (Bool-cases create) [
          | inl c ↦
              let ends : read_again ops w f iblock maxblocks boundary o os ≡ answer =
                ground (arith, me, c) in
              subst Good ends (read_again-GetOk create c readable)
          | inr c ↦
              let (j, v) = map_more-none w.meanwhile above p 1 n me in
              let there = verify_chain-OnPath w.seen (p ∷ above) (x ∷ q) on in
              let ends : answer ≡ (f, failed eagain) = ground (arith, me, c) in
              changed ends c j (λ same. cc (ap (λ t. verify_chain t (p ∷ above)) same, v, there))
        ]
      ]
    where
      n : ℕ
      n = min (maxblocks - 1) boundary

      answer : File S × Answer
      answer = after_lookup ops w f iblock maxblocks create boundary o os (whole above p)

      Good : File S × Answer → Type 0
      Good = GetOk used Ok w f iblock maxblocks create boundary

  -- The first reading found a missing pointer.
  after_missing :
      (create : Bool) (above : List Indirect) (p : Indirect)
      → ((b : ℕ) → w.broken_again b ≡ false)
      → Missing w.seen (o ∷ os) above p
      → GetOk used Ok w f iblock maxblocks create boundary
          (after_lookup ops w f iblock maxblocks create boundary o os (partial above p 0))
  unfolding after_lookup
  after_missing create above p readable m = elim (Bool-cases create) [
    | inr c ↦
        let ends : answer ≡ (f, hole) = ground (arith, c) in
        let empty = sym (OnPath-key w.seen p above m.x m.q m.on_path) ∙ m.empty in
        no_block ends c (
          ap (λ s. key w.seen s) (ap (λ l. rev_onto l []) a.route ∙ m.at)
          ∙ key-hole w.seen m.rest m.x m.q empty)
    | inl c ↦ elim (Bool-cases (verify_chain f.tree (p ∷ above))) [
      | inr v ↦
          let ends : read_again ops w f iblock maxblocks boundary o os ≡ answer =
            ground (arith, c, v) in
          subst Good ends (read_again-GetOk create c readable)
      | inl v ↦
          let ends : allocate ops w f iblock maxblocks boundary (o ∷ os) above p ≡ answer =
            ground (arith, c, v) in
          extended c (
            subst (AllocatedOk used Ok w f iblock maxblocks boundary) ends (
              allocate-AllocatedOk ops used Ok Sound Fresh bound laws w f iblock maxblocks boundary
                o os a above p (Missing-again w.seen f.tree (o ∷ os) above p m v)))
    ]
  ]
    where
      answer : File S × Answer
      answer = after_lookup ops w f iblock maxblocks create boundary o os (partial above p 0)

      Good : File S × Answer → Type 0
      Good = GetOk used Ok w f iblock maxblocks create boundary

  after_lookup-GetOk :
      (create : Bool)
      → ((b : ℕ) → w.broken_again b ≡ false)
      → GetOk used Ok w f iblock maxblocks create boundary (
          after_lookup ops w f iblock maxblocks create boundary o os
            (get_branch w.seen w.broken o os))
  unfolding after_lookup
  after_lookup-GetOk create readable = elim (Branch-Missing w.seen w.broken o os) [
    | inl (above, p, x, q, e, on, at, nz) ↦
        subst Good (sym e) (after_whole create above p x q readable on at nz)
    | inr (inl (above, p, e, m)) ↦ subst Good (sym e) (after_missing create above p readable m)
    | inr (inr (above, p, e, b)) ↦ subst Good (sym e) (unreadable (ground arith) p.key b)
  ]
    where
      Good : Branch → Type 0
      Good b =
          GetOk used Ok w f iblock maxblocks create boundary
            (after_lookup ops w f iblock maxblocks create boundary o os b)

short : (ptrs : ℕ) (os : List ℕ) → IsPath ptrs os → length os ≤ 4
short ptrs [] h = absurd h
short ptrs (a ∷ []) h = omega arith
short ptrs (a ∷ b ∷ []) h = omega arith
short ptrs (a ∷ b ∷ c ∷ []) h = omega arith
short ptrs (a ∷ b ∷ c ∷ d ∷ []) h = omega arith
short ptrs (a ∷ b ∷ c ∷ d ∷ e ∷ r) h = absurd h

-- How many blocks stand behind a block in its leaf.
abbrev pub boundary_of : Geometry → ℕ → ℕ
boundary_of g i = pos_part (block_to_path g (pos i)).boundary

-- Over an allocator that keeps its promises (AllocLaws), with a power of two of at least 12
-- pointers in a block, a block of the file within the capacity of the tree, a count from 1 that is
-- below its bound by more than 4, the allocator's state in order and, if the file has no
-- `i_block_alloc_info`, ready for one, a tree whose pointers are to different blocks in use, and no
-- block that the second reading cannot read: kr_get_blocks ends, meets no BUG, and one of these
-- holds. (1) It finds at least one and at most as many blocks as asked for: each stood behind the
-- one before in the tree as it was when it was looked at, before the mutex is held or, with
-- `create`, under it. (2) Without `create`, the block was a hole. (3) A block could not be read at
-- the first reading: EIO. (4) Without `create`, the tree changed in the meantime: EAGAIN. In all
-- these nothing changes. (5) With `create`, there is an error, and every block of the file is where
-- it was. (6) With `create`, it maps at least one and at most as many blocks as asked for, in one
-- leaf: they were holes, and they lead to blocks that follow one another, that were not in use and
-- are not 0; every other block of the file is where it was. In (5) and (6) blocks in use stay so,
-- and the pointers of the tree are again to different blocks in use; in (6) the allocator's state
-- is in order.
pub get_blocks-GetOk :
    {S : Type 0} (ops : AllocOps S) (used : S → ℕ → Bool) (Ok Sound Fresh : S → Type 0) (bound : ℕ)
    (laws : AllocLaws S ops used Ok Sound Fresh bound) (w : Setting) (f : File S)
    (iblock maxblocks : ℕ) (create : Bool)
    → w.geometry.ptrs ≡ 2 ^ w.geometry.ptrs_bits
    → ndir_blocks ≤ w.geometry.ptrs
    → iblock < capacity w.geometry.ptrs
    → 0 < maxblocks
    → maxblocks + 4 < bound
    → Ok f.space
    → (f.info ≡ none → Fresh f.space)
    → TreeOk w.geometry.ptrs (used f.space) f.tree
    → ((b : ℕ) → w.broken_again b ≡ false)
    → GetOk used Ok w f iblock maxblocks create
        (boundary_of w.geometry iblock)
        (get_blocks ops w f iblock maxblocks create)
unfolding get_blocks
get_blocks-GetOk {S} ops used Ok Sound Fresh bound laws w f iblock maxblocks create power big
      in_file some_blocks small ok fresh tree_ok readable =
    go (block_to_path w.geometry (pos iblock)).offsets refl
      (block_to_path-block_of w.geometry power big iblock in_file).0
  where
    go :
        (path : List ℕ)
        → (block_to_path w.geometry (pos iblock)).offsets ≡ path
        → IsPath w.geometry.ptrs (block_to_path w.geometry (pos iblock)).offsets
        → GetOk used Ok w f iblock maxblocks create
            (boundary_of w.geometry iblock)
            (get_blocks ops w f iblock maxblocks create)
    go [] e path = absurd (subst (λ l. IsPath w.geometry.ptrs l) e path)
    go (o ∷ os) e path =
        let (n, be, on) = position-ahead w.geometry power big iblock in_file in
        let to : (block_to_path w.geometry (pos iblock)).boundary
            ≡ pos (boundary_of w.geometry iblock) =
          be ∙ sym (ap (λ z. pos (pos_part z)) be) in
        let len : length (o ∷ os) ≤ 4 =
          short w.geometry.ptrs (o ∷ os) (subst (λ l. IsPath w.geometry.ptrs l) e path) in
        let ends : after_lookup ops w f iblock maxblocks create (boundary_of w.geometry iblock) o os
              (get_branch w.seen w.broken o os)
            ≡ get_blocks ops w f iblock maxblocks create =
          ground (arith, e) in
        subst (GetOk used Ok w f iblock maxblocks create (boundary_of w.geometry iblock)) ends (
          after_lookup-GetOk ops used Ok Sound Fresh bound laws w f iblock maxblocks
            (boundary_of w.geometry iblock) o os
            (record {
              power = power;
              big = big;
              in_file = in_file;
              to_boundary = to;
              ok = ok;
              fresh = fresh;
              tree_ok = tree_ok;
              some_blocks = some_blocks;
              route = e;
              small = omega (arith, small, len);
            })
            create readable)
