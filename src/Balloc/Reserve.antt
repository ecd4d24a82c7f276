-- ===== src/Balloc/Reserve.antt =====
-- The reservation windows of the mounted file system (balloc.c): the tree of windows, and its
-- search, insertion and removal. The tree holds pointers to the windows, which stand in `node`; a
-- window that is extended or moved in place stays where it is in the tree.
pub mod Order
pub mod Place
pub mod Search
pub mod Gap
use k_rack.Common.{
  add_int, ℕ, zero, suc, ◌+◌, ◌-◌, ◌*◌, ◌/◌, ◌%◌, ◌^◌, ◌≤◌, ◌<◌, min, bit_and, ◌≡◌, refl, sym, ap,
  subst, ◌∙◌, ◌≢◌, ◌↔◌, ◌⊎◌, inl, inr, Bool, true, false, not, ◌&&◌, ◌||◌, Option, none, some, List,
  [], ◌∷◌, ◌++◌, arith, ltb, leb, ◌==◌, if◌then◌else◌, ltb→lt, lt→ltb, leb→le, le→leb, ==_iff,
  Bool-cases, Option-cases, length, get_elem?, get_or, set, take, drop, length-append, length-set,
  get_elem?-set_self, get_elem?-set_ne, sub32, sub32_lem, clear_flag, eperm, enoent, eio, eagain,
  enomem, eacces, efault, ebusy, eexist, einval, enotty, enospc, enametoolong, enotempty, ℤ, pos,
  negsuc, sub_ℕ, pos_part, neg_part, ◌+ℤ◌, Bitmap, write_bit, count_set, count_set-le,
  count_set-set, count_set-clear, count_set-ext, FindsZero, rem, quot, reach_place,
}
use mathlib.Core.Option
use k_rack.Super.{SbInfo, group_first_block_no}

-- `struct kr_reserve_window_node`
pub record ReserveNode : Type 0 where
  pub rsv_start : ℕ
  pub rsv_end : ℕ
  pub rsv_goal_size : ℕ
  pub rsv_alloc_hit : ℕ

-- A red-black tree, without the colours.
pub data Tree : Type 0 where
  leaf : Tree
  node : Tree → ℕ → Tree → Tree

abbrev pub inorder : Tree → List ℕ
inorder leaf = []
inorder (node l x r) = inorder l ++ (x ∷ inorder r)

-- The kernel's `rb_insert_color`, `rb_erase`, `rb_next` and `rb_prev`.
pub record RbTree : Type 0 where
  pub insert_color : Tree → ℕ → Tree
  pub erase : Tree → ℕ → Tree
  pub next : Tree → ℕ → Option ℕ
  pub prev : Tree → ℕ → Option ℕ

pub record Windows : Type 0 where
  pub tree : Tree
  pub at : ℕ → ReserveNode

-- KR_RESERVE_WINDOW_NOT_ALLOCATED
abbrev pub not_allocated : ℕ
not_allocated = 0

abbrev pub max_reserve_blocks : ℕ
max_reserve_blocks = 1027

abbrev pub default_reserve_blocks : ℕ
default_reserve_blocks = 8

abbrev pub rsv_is_empty : ReserveNode → Bool
rsv_is_empty n = n.rsv_end == not_allocated

abbrev pub put_node : Windows → ℕ → ReserveNode → Windows
put_node w my n = record w { at = λ k. if k == my then n else w.at k }

-- kr_init_block_alloc_info: `my` becomes the file's window if there is memory for it; `reservation`
-- is the mount option.
unfoldable pub init_block_alloc_info : Bool → Bool → Windows → ℕ → Windows × Option ℕ
init_block_alloc_info has_memory reservation w my =
    let fresh : ReserveNode = record {
      rsv_start = not_allocated;
      rsv_end = not_allocated;
      rsv_goal_size = if reservation then default_reserve_blocks else 0;
      rsv_alloc_hit = 0;
    } in
    if has_memory then (put_node w my fresh, some my) else (w, none)

unfoldable pub goal_in_my_reservation : ReserveNode → Option ℕ → ℕ → SbInfo → Bool
goal_in_my_reservation rsv grp_goal group sb =
    let group_first_block = group_first_block_no sb group in
    let group_last_block = group_first_block + sb.s_blocks_per_group - 1 in
    if ltb group_last_block rsv.rsv_start || ltb rsv.rsv_end group_first_block
    then false
    else elim grp_goal [
      | none ↦ true
      | some g ↦
          not (ltb (g + group_first_block) rsv.rsv_start || ltb rsv.rsv_end (g + group_first_block))
    ]

-- The walk down the tree; `last` is the node above.
unfoldable pub walk : (ℕ → ReserveNode) → ℕ → Tree → ℕ → ℕ
walk at goal leaf last = last
walk at goal (node l x r) last =
    if ltb goal (at x).rsv_start
    then walk at goal l x
    else if ltb (at x).rsv_end goal
    then walk at goal r x
    else x

-- The place of a new window below the leaves; `none` is BUG.
unfoldable pub link : (ℕ → ReserveNode) → ℕ → ℕ → Tree → Option Tree
link at start my leaf = some (node leaf my leaf)
link at start my (node l x r) =
    let left = link at start my l in
    let right = link at start my r in
    if ltb start (at x).rsv_start
    then Option.map (λ t. node t x r) left
    else if ltb (at x).rsv_end start
    then Option.map (λ t. node l x t) right
    else none

module _ (rb : RbTree) where
  -- `none` is NULL; so is the entry before the first one.
  unfoldable pub search_in : (ℕ → ReserveNode) → Tree → ℕ → Option ℕ
  search_in at leaf goal = none
  search_in at (node l x r) goal =
      let rsv = walk at goal (node l x r) x in
      if ltb goal (at rsv).rsv_start then rb.prev (node l x r) rsv else some rsv

  abbrev pub search_reserve_window : Windows → ℕ → Option ℕ
  search_reserve_window w goal = search_in w.at w.tree goal

  unfoldable pub rsv_window_add : Windows → ℕ → Option Windows
  rsv_window_add w my = elim (link w.at (w.at my).rsv_start my w.tree) [
    | none ↦ none
    | some t ↦ some (record w { tree = rb.insert_color t my })
  ]

  unfoldable pub rsv_window_remove : Windows → ℕ → Windows
  rsv_window_remove w my =
      let cleared = record (w.at my) {
        rsv_start = not_allocated;
        rsv_end = not_allocated;
        rsv_alloc_hit = 0;
      } in
      record (put_node w my cleared) { tree = rb.erase w.tree my }

  -- kr_discard_reservation, for an inode that has a window.
  unfoldable pub discard_reservation : Windows → ℕ → Windows
  discard_reservation w my = if rsv_is_empty (w.at my) then w else rsv_window_remove w my

  -- The loop over the windows from `rsv` on: the one to append to, and the first block behind it.
  -- The goal size is read into an `int`.
  unfoldable pub find_gap : ℕ → Windows → ℕ → ℕ → ℕ → ℕ → Option (ℕ × ℕ)
  find_gap zero w size last_block rsv cur = none
  find_gap (suc fuel) w size last_block rsv cur =
      let behind = (w.at rsv).rsv_end + 1 in
      let cur' = if leb cur (w.at rsv).rsv_end then behind else cur in
      if ltb last_block cur' then none else elim (rb.next w.tree rsv) [
        | none ↦ some (rsv, cur')
        | some next ↦ elim (leb (add_int cur' size) (w.at next).rsv_start) [
          | true ↦ some (rsv, cur')
          | false ↦ find_gap fuel w size last_block next cur'
        ]
      ]
