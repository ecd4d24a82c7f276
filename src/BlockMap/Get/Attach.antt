-- ===== src/BlockMap/Get/Attach.antt =====
-- New blocks for a file (inode.c): kr_alloc_branch and kr_splice_branch as kr_get_blocks calls
-- them.
use k_rack.Common.{
  ℕ, ◌+◌, ◌-◌, ◌%◌, ◌^◌, ◌≤◌, ◌<◌, ◌≡◌, refl, sym, ap, subst, ◌∙◌, ◌≢◌, inl, inr, Bool, true, false,
  not, ◌||◌, Option, none, some, List, ◌∷◌, ◌++◌, arith, ltb, if◌then◌else◌, ltb→lt, lt→ltb, leb→le,
  le→leb, Bool-cases, Option-cases, length, enomem, pos, pos_part,
}
use k_rack.BlockPath.{Geometry, ndir_blocks, block_to_path}
use k_rack.BlockPath.Laws.{capacity}
use k_rack.BlockMap.{Tree, read, Indirect, add_chain}
use k_rack.BlockMap.Follow.{key, rev_onto, holder, Held}
use k_rack.BlockMap.Alloc.{AllocOps, AllocInfo, run, free_each}
use k_rack.BlockMap.Alloc.Laws.{AllocLaws, Taken, free_each-keeps, free_each-Sound}
use k_rack.BlockMap.Alloc.Runs.{mem-append, mem-run}
use k_rack.BlockMap.Write.{link_chain, first_of, splice}
use k_rack.BlockMap.Write.Laws.{mem, in_run, span, splice-write_run, link_chain-Chain}
use k_rack.BlockMap.Lead.{ahead, is_new, OnNew, end_new, new_place}
use k_rack.BlockMap.Position.{
  Valid, position, block_at, TreeOk, Valid-up, position-ahead, position-inj, position-Valid,
  above-Valid, position_end,
}
use k_rack.BlockMap.Grow.{
  Growth, grown, old_or_new, grown_single, data_led, others, was_hole, linked_same,
}
use k_rack.BlockMap.Get.{File, Setting, Answer, mapped, failed, got_it, attach}
use k_rack.BlockMap.Get.Allocated.{Distinct-split, AllocatedOk, unseen}

-- What is known when the blocks are there, and the missing pointer is that at `x ∷ q`.
pub record Ready {S : Type 0} (used : S → ℕ → Bool) (Ok : S → Type 0) (w : Setting) (f : File S)
    (s : S) (iblock maxblocks boundary : ℕ) (inds : List ℕ) (first num : ℕ) (os : List ℕ) (x : ℕ)
    (q : List ℕ) : Type 0 where
  pub power : w.geometry.ptrs ≡ 2 ^ w.geometry.ptrs_bits
  pub big : ndir_blocks ≤ w.geometry.ptrs
  pub in_file : iblock < capacity w.geometry.ptrs
  pub tree_ok : TreeOk w.geometry.ptrs (used f.space) f.tree
  pub at : position w.geometry iblock ≡ rev_onto os (x ∷ q)
  pub to_boundary : (block_to_path w.geometry (pos iblock)).boundary ≡ pos boundary
  pub held : Held f.tree q
  pub ok : Ok s
  pub taken : Taken (used f.space) (used s) (inds ++ run first num)
  pub as_long : length inds ≡ length os
  pub holes : (i : ℕ) → i < span inds num → read f.tree (holder f.tree q) (x + i) ≡ 0
  pub some_num : 0 < num
  pub at_most : num ≤ maxblocks
  pub fits : num ≤ boundary + 1

module _ {S : Type 0} (ops : AllocOps S) (used : S → ℕ → Bool) (Ok Sound Fresh : S → Type 0)
    (bound : ℕ) (laws : AllocLaws S ops used Ok Sound Fresh bound) (w : Setting) (f : File S)
    (s : S) (iblock maxblocks boundary : ℕ) (inds : List ℕ) (first num : ℕ) (os : List ℕ) (x : ℕ)
    (q : List ℕ) (r : Ready used Ok w f s iblock maxblocks boundary inds first num os x q) where
  abbrev g : Geometry
  g = w.geometry

  abbrev V : List ℕ → Type 0
  V = Valid g.ptrs

  -- The position of each of the blocks.
  path_ahead :
      (i : ℕ)
      → i < num
      → (iblock + i < capacity g.ptrs) × (position g (iblock + i) ≡ ahead i (rev_onto os (x ∷ q)))
  path_ahead i l =
      let (n, e, on) = position-ahead g r.power r.big iblock r.in_file in
      let same : n ≡ boundary = pos-inj (sym e ∙ r.to_boundary) in
      let (inside, at) = on i (omega (arith, same, r.fits, l)) in
      (inside, at ∙ ap (λ p. ahead i p) r.at)
    where
      pos-inj : {a b : ℕ} → pos a ≡ pos b → a ≡ b
      pos-inj {a} {b} e = ap pos_part e

  taken_new : (y : ℕ) → is_new inds first num y ≡ true → used f.space y ≡ false
  taken_new y n =
      r.taken.were_free y
        (ground (arith, n, mem-append y inds (run first num), mem-run y first num))

  in_use_old : (p : List ℕ) → V p → key f.tree p ≢ 0 → is_new inds first num (key f.tree p) ≡ false
  in_use_old p v nz = ground (arith, taken_new (key f.tree p), r.tree_ok.in_use p v nz)

  used_after : (y : ℕ) → used s y ≡ (is_new inds first num y || used f.space y)
  used_after y =
      ground (arith, r.taken.now_used y, mem-append y inds (run first num), mem-run y first num)

  growth :
      (linked : Tree)
      → link_chain f.tree w.no_memory num inds first os ≡ some linked
      → Growth V f.tree linked inds first num os x q
  growth linked e =
      let (ds, apart) = Distinct-split inds (run first num) r.taken.distinct in
      let (chain, keeps) =
        link_chain-Chain f.tree w.no_memory num inds first os linked r.some_num ds e in
      let no_0 : (mem 0 inds ≡ false) × (in_run first num 0 ≡ false) =
        ground
          (arith, r.taken.some_blocks, mem-append 0 inds (run first num), mem-run 0 first num) in
      record {
        up = Valid-up g.ptrs;
        valid = above-Valid g r.power r.big iblock r.in_file os (x ∷ q) r.at;
        fresh = in_use_old;
        single = r.tree_ok.single;
        leaf = λ i o l v.
            position_end g r.power r.big (iblock + i) (path_ahead i l).0 o
              (subst (λ p. V (o ∷ p)) (sym (path_ahead i l).1) v);
        held = r.held;
        chain = chain;
        keeps = keeps;
        as_long = r.as_long;
        holes = r.holes;
        some_num = r.some_num;
        some_first = ground (arith, no_0, r.some_num);
        some_inds = no_0.0;
        distinct = ds;
        apart = λ y m. sym (mem-run y first num) ∙ apart y m;
      }

  not_new :
      (k : ℕ)
      → k < capacity g.ptrs
      → in_run iblock num k ≡ false
      → OnNew inds num os (x ∷ q) (position g k)
      → ⊥
  not_new k l out h = elim (new_place num inds os (x ∷ q) (position g k) r.as_long h) [
    | inl (i, less, e) ↦
        let (inside, at) = path_ahead i less in
        let same : k ≡ iblock + i =
          position-inj g r.power r.big k (iblock + i) l inside (e ∙ sym at) in
        ground (arith, same, out, less, lt→ltb k (iblock + num), le→leb iblock k)
    | inr (o, os', e) ↦
        position_end g r.power r.big k l o
          (above-Valid g r.power r.big iblock r.in_file os' (o ∷ position g k) (r.at ∙ e))
  ]

  -- The file's blocks in the grown tree.
  grown_map :
      (linked : Tree) (e : Growth V f.tree linked inds first num os x q) (k : ℕ)
      → k < capacity g.ptrs
      → key (grown V f.tree linked inds first num os x q e) (position g k)
        ≡ (if in_run iblock num k then first + (k - iblock) else block_at g f.tree k)
  grown_map linked e k l = elim (Bool-cases (in_run iblock num k)) [
    | inl t ↦
        let i : ℕ = k - iblock in
        let less : i < num =
          ground (arith, t, ltb→lt k (iblock + num), leb→le iblock k, r.some_num) in
        let back : iblock + i ≡ k = ground (arith, t, leb→le iblock k) in
        ap (λ p. key (grown V f.tree linked inds first num os x q e) p)
          (ap (λ n. position g n) (sym back) ∙ (path_ahead i less).1)
        ∙ data_led V f.tree linked inds first num os x q e i less
        ∙ ground (arith, t)
    | inr t ↦
        elim (others V f.tree linked inds first num os x q e (position g k)
          (position-Valid g r.power r.big k l)) [
            | inr same ↦ same ∙ ground (arith, t)
            | inl new ↦ absurd (not_new k l t new)
          ]
  ]

  stays_used : (y : ℕ) → used f.space y ≡ true → used s y ≡ true
  stays_used y u = ground (arith, used_after y, u)

  -- The blocks are there.
  spliced :
      (linked : Tree) (info : Option AllocInfo)
      → (e : Growth V f.tree linked inds first num os x q)
      → AllocatedOk used Ok w f iblock maxblocks boundary (
        record { tree = grown V f.tree linked inds first num os x q e; info = info; space = s },
        mapped num first (not w.dax) (ltb boundary num),
      )
  spliced linked info e = (
    record {
      in_use = λ p v nz. elim (old_or_new V f.tree linked inds first num os x q e p v) [
        | inl same ↦
            subst (λ k. used s k ≡ true) (sym same)
              (stays_used (key f.tree p) (r.tree_ok.in_use p v (λ z. nz (same ∙ z))))
        | inr n ↦
            ground (arith, used_after (key (grown V f.tree linked inds first num os x q e) p), n)
      ];
      single = grown_single V f.tree linked inds first num os x q e;
    },
    stays_used,
    inr (
      num,
      first,
      refl,
      r.some_num,
      r.at_most,
      r.fits,
      r.ok,
      grown_map linked e,
      were_holes e,
      λ y t. (taken_new y (ground (arith, t)), λ z. no_zero y t z),
    ),
  )
    where
      no_zero : (y : ℕ) → in_run first num y ≡ true → y ≢ 0
      no_zero y t z =
          ground (
            arith,
            t,
            z,
            r.taken.some_blocks,
            mem-append 0 inds (run first num),
            mem-run 0 first num,
          )

      were_holes :
          (e : Growth V f.tree linked inds first num os x q) (k : ℕ)
          → in_run iblock num k ≡ true
          → (k < capacity w.geometry.ptrs) × (block_at w.geometry f.tree k ≡ 0)
      were_holes e k t =
          let i : ℕ = k - iblock in
          let less : i < num =
            ground (arith, t, ltb→lt k (iblock + num), leb→le iblock k, r.some_num) in
          let back : iblock + i ≡ k = ground (arith, t, leb→le iblock k) in
          let (inside, at) = path_ahead i less in
          (
            subst (λ n. n < capacity g.ptrs) back inside,
            ap (λ p. key f.tree p) (ap (λ n. position g n) (sym back) ∙ at)
                ∙ was_hole V f.tree linked inds first num os x q e (ahead i (rev_onto os (x ∷ q)))
                    (end_new num inds os (x ∷ q) i r.as_long less),
          )

  pub attach-AllocatedOk :
      (info : Option AllocInfo) (p : Indirect)
      → p ≡ add_chain f.tree (holder f.tree q) x
      → AllocatedOk used Ok w f iblock maxblocks boundary
          (attach ops w f s info iblock p os boundary inds first num)
  unfolding attach got_it
  attach-AllocatedOk info p pe =
      elim (Option-cases (link_chain f.tree w.no_memory num inds first os)) [
        | inl e ↦
            let lost : File S = record {
              tree = f.tree;
              info = info;
              space = ops.free (free_each ops s inds) first num;
            } in
            let same : (lost, failed enomem)
                ≡ attach ops w f s info iblock p os boundary inds first num =
              ground (arith, e) in
            subst Good same (
              unseen used Ok w f iblock maxblocks boundary r.tree_ok lost enomem (λ y v. refl)
                (λ y u. freed y u))
        | inr (linked, e) ↦ elim (Option-cases (if w.dax then w.zeroout first num else none)) [
          | inr (err, z) ↦
              let left : File S = record { tree = linked; info = info; space = s } in
              let same : (left, failed err)
                  ≡ attach ops w f s info iblock p os boundary inds first num =
                ground (arith, e, z) in
              subst Good same (
                unseen used Ok w f iblock maxblocks boundary r.tree_ok left err
                  (linked_same V f.tree linked inds first num os x q (growth linked e)) stays_used)
          | inl z ↦
              let gr = growth linked e in
              let info' : Option AllocInfo = elim info [
                | none ↦ none
                | some i ↦ some (record {
                  last_alloc_logical_block = (iblock + num - 1) % 2 ^ 32;
                  last_alloc_physical_block = first + num - 1;
                })
              ] in
              let t : splice linked p.bh p.p (first_of inds first) (length inds) num
                  ≡ grown V f.tree linked inds first num os x q gr =
                ap
                  (λ (c : Indirect). splice linked c.bh c.p (first_of inds first) (length inds) num)
                  pe
                ∙ splice-write_run linked (holder f.tree q) x (first_of inds first) (length inds)
                    num r.some_num in
              let done : File S = record {
                tree = grown V f.tree linked inds first num os x q gr;
                info = info';
                space = s;
              } in
              let same : (done, mapped num first (not w.dax) (ltb boundary num))
                  ≡ attach ops w f s info iblock p os boundary inds first num =
                ground (arith, e, z, t) in
              subst Good same (spliced linked info' gr)
        ]
      ]
    where
      Good : File S × Answer → Type 0
      Good = AllocatedOk used Ok w f iblock maxblocks boundary

      freed :
          (y : ℕ)
          → used f.space y ≡ true
          → used (ops.free (free_each ops s inds) first num) y ≡ true
      freed y u =
          let old : is_new inds first num y ≡ false = ground (arith, taken_new y, u) in
          laws.frees (free_each ops s inds) first num y
            (free_each-Sound ops used Ok Sound Fresh bound laws s inds (laws.sound s r.ok))
            (ground (arith, old))
          ∙ free_each-keeps ops used Ok Sound Fresh bound laws s inds y (laws.sound s r.ok)
              (ground (arith, old))
          ∙ stays_used y u
