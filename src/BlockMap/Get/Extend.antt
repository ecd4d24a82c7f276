-- ===== src/BlockMap/Get/Extend.antt =====
-- kr_get_blocks (inode.c) from the allocation on.
use k_rack.Common.{
  ℕ, ◌+◌, ◌-◌, ◌^◌, ◌≤◌, ◌<◌, ◌≡◌, refl, sym, ap, subst, ◌∙◌, inl, inr, Bool, true, false, ◌&&◌,
  Option, none, some, List, [], ◌∷◌, ◌++◌, arith, if◌then◌else◌, Option-cases, length, pos,
}
use k_rack.BlockPath.{ndir_blocks, block_to_path}
use k_rack.BlockPath.Laws.{capacity}
use k_rack.BlockMap.{Indirect}
use k_rack.BlockMap.Follow.{rev_onto}
use k_rack.BlockMap.Alloc.{AllocOps, AllocInfo, run, blks_to_allocate, find_goal}
use k_rack.BlockMap.Alloc.Laws.{AllocLaws, Taken, alloc_blocks-NewBranchOk}
use k_rack.BlockMap.Position.{TreeOk}
use k_rack.BlockMap.Get.{File, Setting, failed, attach, extend, allocate}
use k_rack.BlockMap.Get.Attach.{Ready, attach-AllocatedOk}
use k_rack.BlockMap.Get.Allocated.{AllocatedOk, unseen}
use k_rack.BlockMap.Get.Lookup.{Missing}
use k_rack.BlockMap.Get.Holes.{blks_bounds, missing_holes}

-- What is known of a request.
pub record Asked {S : Type 0} (used : S → ℕ → Bool) (Ok Fresh : S → Type 0) (w : Setting)
    (f : File S) (bound iblock maxblocks boundary : ℕ) (o : ℕ) (os : List ℕ) : Type 0 where
  pub power : w.geometry.ptrs ≡ 2 ^ w.geometry.ptrs_bits
  pub big : ndir_blocks ≤ w.geometry.ptrs
  pub in_file : iblock < capacity w.geometry.ptrs
  pub to_boundary : (block_to_path w.geometry (pos iblock)).boundary ≡ pos boundary
  pub ok : Ok f.space
  pub fresh : f.info ≡ none → Fresh f.space
  pub tree_ok : TreeOk w.geometry.ptrs (used f.space) f.tree
  pub some_blocks : 0 < maxblocks
  pub route : (block_to_path w.geometry (pos iblock)).offsets ≡ o ∷ os
  pub small : maxblocks + length os < bound

module _ {S : Type 0} (ops : AllocOps S) (used : S → ℕ → Bool) (Ok Sound Fresh : S → Type 0)
    (bound : ℕ) (laws : AllocLaws S ops used Ok Sound Fresh bound) (w : Setting) (f : File S)
    (iblock maxblocks boundary : ℕ) (o : ℕ) (os : List ℕ)
    (a : Asked used Ok Fresh w f bound iblock maxblocks boundary o os) where
  taken_since :
      (s s' : S) (blocks : List ℕ)
      → ((y : ℕ) → used s y ≡ used f.space y)
      → Taken (used s) (used s') blocks
      → Taken (used f.space) (used s') blocks
  taken_since s s' blocks same t = record {
    distinct = t.distinct;
    some_blocks = t.some_blocks;
    were_free = λ y m. sym (same y) ∙ t.were_free y m;
    now_used = λ y. ground (arith, t.now_used y, same y);
  }

  -- The new blocks are there, or there was an error.
  extend-AllocatedOk :
      (s : S) (info : Option AllocInfo) (above : List Indirect) (p : Indirect)
      → Ok s
      → ((y : ℕ) → used s y ≡ used f.space y)
      → Missing f.tree (o ∷ os) above p
      → AllocatedOk used Ok w f iblock maxblocks boundary
          (extend ops w f s info iblock maxblocks boundary (o ∷ os) above p)
  unfolding extend
  extend-AllocatedOk s info above p oks same m =
      let has : Bool = elim info [ none ↦ false | some i ↦ true ] in
      let goal = find_goal f.tree w.place info iblock p in
      let k = length (o ∷ os) - length above - 1 in
      let blks = blks_to_allocate f.tree p k maxblocks boundary in
      let (some_blks, at_most, fits) = blks_bounds f.tree p k maxblocks boundary a.some_blocks in
      elim (alloc_blocks-NewBranchOk ops used Ok Sound Fresh bound laws s has goal k blks oks
        some_blks (omega (arith, at_most, a.small))) [
          | inl (s', err, e, nz, stays) ↦
              let left : File S = record { tree = f.tree; info = info; space = s' } in
              let ends : (left, failed err)
                  ≡ extend ops w f s info iblock maxblocks boundary (o ∷ os) above p =
                ground (arith, e) in
              subst (AllocatedOk used Ok w f iblock maxblocks boundary) ends (
                unseen used Ok w f iblock maxblocks boundary a.tree_ok left err (λ y v. refl)
                  (λ y u. stays y (same y ∙ u)))
          | inr (s', inds, first, num, e, ok', len, taken, some_num, le) ↦
              let (pe, held, hs) = m.on_path in
              let ready : Ready used Ok w f s' iblock maxblocks boundary inds first num m.rest m.x
                  m.q =
                record {
                  power = a.power;
                  big = a.big;
                  in_file = a.in_file;
                  tree_ok = a.tree_ok;
                  at = ap (λ l. rev_onto l []) a.route ∙ m.at;
                  to_boundary = a.to_boundary;
                  held = held;
                  ok = ok';
                  taken = taken_since s s' (inds ++ run first num) same taken;
                  as_long = len ∙ m.length_rest;
                  holes = λ i l.
                      missing_holes f.tree p m.x m.q k maxblocks boundary inds num i pe m.empty
                        (len) le l;
                  some_num = some_num;
                  at_most = omega (arith, le, at_most);
                  fits = omega (arith, le, fits);
                } in
              let ends : attach ops w f s' info iblock p m.rest boundary inds first num
                  ≡ extend ops w f s info iblock maxblocks boundary (o ∷ os) above p =
                ground (arith, e, m.rest_is) in
              subst (AllocatedOk used Ok w f iblock maxblocks boundary) ends (
                attach-AllocatedOk ops used Ok Sound Fresh bound laws w f s' iblock maxblocks
                  boundary inds first num m.rest m.x m.q ready info p pe)
        ]

  -- Also when `i_block_alloc_info` is made first.
  pub allocate-AllocatedOk :
      (above : List Indirect) (p : Indirect)
      → Missing f.tree (o ∷ os) above p
      → AllocatedOk used Ok w f iblock maxblocks boundary
          (allocate ops w f iblock maxblocks boundary (o ∷ os) above p)
  unfolding allocate
  allocate-AllocatedOk above p m =
      go (w.regular && (elim f.info as (λ _. Bool) [ none ↦ true | some i ↦ false ]) && w.kmalloc)
        (λ e. no_info (ground (arith, e)))
    where
      no_info : (elim f.info as (λ _. Bool) [ none ↦ true | some i ↦ false ]) ≡ true → f.info ≡ none
      no_info e = elim (Option-cases f.info) [
        | inl n ↦ n
        | inr (i, s) ↦ absurd (ground (arith, e, s))
      ]

      go :
          (t : Bool)
          → (t ≡ true → f.info ≡ none)
          → AllocatedOk used Ok w f iblock maxblocks boundary (
              extend ops w f
                (if t then ops.init f.space else f.space)
                (if t
                  then some (record { last_alloc_logical_block = 0; last_alloc_physical_block = 0 })
                  else f.info)
                iblock
                maxblocks
                boundary
                (o ∷ os)
                above
                p)
      go true n =
          extend-AllocatedOk (ops.init f.space)
            (some (record { last_alloc_logical_block = 0; last_alloc_physical_block = 0 })) above p
            (laws.inits f.space a.ok (a.fresh (n refl))) (laws.inits_used f.space) m
      go false n = extend-AllocatedOk f.space f.info above p a.ok (λ y. refl) m
