-- ===== src/Balloc/New.antt =====
-- kr_new_blocks (balloc.c): blocks for a file, from the goal's group or else from the others. The
-- quota calls of the code leave nothing here, but `dquot_alloc_block` may refuse.
pub mod Try
pub mod Group
pub mod Round
pub mod Once
pub mod Search
pub mod Take
pub mod Fs
pub mod Laws
pub mod Outcome
pub mod Back
use k_rack.Common.{
  ℕ, zero, suc, ◌+◌, ◌-◌, ◌*◌, ◌/◌, ◌%◌, ◌^◌, ◌≤◌, ◌<◌, min, bit_and, ◌≡◌, refl, sym, ap, subst,
  ◌∙◌, ◌≢◌, ◌↔◌, ◌⊎◌, inl, inr, Bool, true, false, not, ◌&&◌, ◌||◌, Option, none, some, List, [],
  ◌∷◌, ◌++◌, arith, ltb, leb, ◌==◌, if◌then◌else◌, ltb→lt, lt→ltb, leb→le, le→leb, ==_iff,
  Bool-cases, Option-cases, length, get_elem?, get_or, set, take, drop, length-append, length-set,
  get_elem?-set_self, get_elem?-set_ne, sub32, sub32_lem, clear_flag, eperm, enoent, eio, eagain,
  enomem, eacces, efault, ebusy, eexist, einval, enotty, enospc, enametoolong, enotempty, ℤ, pos,
  negsuc, sub_ℕ, pos_part, neg_part, ◌+ℤ◌, Bitmap, write_bit, count_set, count_set-le,
  count_set-set, count_set-clear, count_set-ext, FindsZero, rem, quot, reach_place,
}
use k_rack.Super.{
  GroupDesc, SbInfo, get_group_desc, put_group_desc, put_bitmap, group_first_block_no, sub16,
}
use k_rack.Ialloc.Orlov.{read_positive}
use k_rack.Balloc.Free.{read_block_bitmap, in_system_zone}
use k_rack.Balloc.Reserve.{RbTree, Windows, rsv_is_empty}
use k_rack.Balloc.New.Try.{
  Tried, failed, claimed, bug as no_window_bug, spent as no_more_rounds, try_to_allocate_with_rsv,
}

-- What the kernel says of the caller: `capable`, `uid_eq`, `gid_eq` and `in_group_p`.
pub record Caller : Type 0 where
  pub capable : Bool
  pub resuid : Bool
  pub root_gid : Bool
  pub in_group : Bool

unfoldable pub has_free_blocks : SbInfo → Caller → Bool
has_free_blocks sb who =
    if ltb (read_positive sb.s_freeblocks_counter) (sb.s_r_blocks_count + 1)
      && (not who.capable && (not who.resuid && (who.root_gid || not who.in_group)))
    then false
    else true

-- A search for blocks: `missed` has the count that is left in `num`.
pub data Attempt : Type 0 where
  missed : Windows → ℕ → Attempt
  took : SbInfo → Windows → ℕ → GroupDesc → ℕ → ℕ → Attempt
  io_error : Windows → Attempt
  bug spent : Attempt

-- `allocated` has the first block and how many there are; `error` has the error number, and blocks
-- that were marked in vain stay marked.
pub data NewBlocks : Type 0 where
  allocated : SbInfo → Windows → ℕ → ℕ → NewBlocks
  error : SbInfo → Windows → ℕ → NewBlocks
  bug spent : NewBlocks

-- group_adjust_blocks with a negative count.
unfoldable pub take_blocks : SbInfo → ℕ → GroupDesc → ℕ → SbInfo
take_blocks sb group desc num =
    put_group_desc sb group
      (record desc { bg_free_blocks_count = sub16 desc.bg_free_blocks_count num })

-- A group with few free blocks turns the reservation off.
abbrev pub keep_window : Windows → Option ℕ → ℕ → ℕ → Option ℕ
keep_window w none windowsz free = none
keep_window w (some my) windowsz free =
    if ltb free windowsz && (ltb 0 free && rsv_is_empty (w.at my)) then none else some my

abbrev pub is_reserved : Option ℕ → Bool
is_reserved none = false
is_reserved (some _) = true

abbrev pub next_group : SbInfo → ℕ → ℕ
next_group sb group = if leb sb.s_groups_count (group + 1) then 0 else group + 1

-- The blocks are counted, unless they lie behind the last block.
unfoldable pub finish : SbInfo → Windows → ℕ → GroupDesc → ℕ → ℕ → NewBlocks
finish sb w group desc ret_block num =
    if leb sb.s_blocks_count (ret_block + num - 1)
    then error sb w enospc
    else let sb' = take_blocks sb group desc num in
      allocated (record sb' { s_freeblocks_counter = sb'.s_freeblocks_counter +ℤ sub_ℕ 0 num }) w
        ret_block num

module _ (rb : RbTree) (next_zero scan : Bitmap → ℕ → ℕ → ℕ) where
  unfoldable pub attempt : SbInfo → Windows → Option ℕ → ℕ → GroupDesc → Option ℕ → ℕ → Attempt
  attempt sb w my group desc grp_goal num = elim (read_block_bitmap sb group) [
    | none ↦ io_error w
    | some b ↦ elim (try_to_allocate_with_rsv rb next_zero scan sb group b grp_goal w my num) [
      | no_window_bug ↦ bug
      | no_more_rounds ↦ spent
      | failed w' num' ↦ missed w' num'
      | claimed at num' b' w' ↦ took (put_bitmap sb desc.bg_block_bitmap b') w' group desc at num'
    ]
  ]

  -- The loop over the groups behind `group`, with `n` of them to go.
  unfoldable pub search_rest : ℕ → SbInfo → Windows → Option ℕ → ℕ → ℕ → ℕ → Attempt
  search_rest zero sb w my windowsz group num = missed w num
  search_rest (suc n) sb w my windowsz group num =
      let group' = next_group sb group in
      let skipped = search_rest n sb w my windowsz group' num in
      elim (get_group_desc sb group') [
        | none ↦ io_error w
        | some desc ↦
            let free = desc.bg_free_blocks_count in
            elim (free == 0 || (is_reserved my && leb free (windowsz / 2))) [
              | true ↦ skipped
              | false ↦ elim (attempt sb w my group' desc none num) [
                | missed w' num' ↦ search_rest n sb w' my windowsz group' num'
                | took sb' w' g d at num' ↦ took sb' w' g d at num'
                | io_error w' ↦ io_error w'
                | bug ↦ bug
                | spent ↦ spent
              ]
            ]
      ]

  -- From the goal's group on, through all groups.
  unfoldable pub search_all : SbInfo → Windows → Option ℕ → ℕ → ℕ → GroupDesc → ℕ → ℕ → Attempt
  search_all sb w my windowsz group desc goal num =
      let target = (goal - sb.s_first_data_block) % sb.s_blocks_per_group in
      let rest =
        λ (w' : Windows) (num' : ℕ). search_rest sb.s_groups_count sb w' my windowsz group num' in
      elim (ltb 0 desc.bg_free_blocks_count) [
        | false ↦ rest w num
        | true ↦ elim (attempt sb w my group desc (some target) num) [
          | missed w' num' ↦ rest w' num'
          | took sb' w' g d at num' ↦ took sb' w' g d at num'
          | io_error w' ↦ io_error w'
          | bug ↦ bug
          | spent ↦ spent
        ]
      ]

  -- `retry_alloc`
  unfoldable pub retry_alloc : ℕ → SbInfo → Windows → Option ℕ → ℕ → ℕ → ℕ → ℕ → ℕ → NewBlocks
  retry_alloc zero sb w my windowsz goal_group group goal num = spent
  retry_alloc (suc fuel) sb w my windowsz goal_group group goal num =
      elim (get_group_desc sb group) [
        | none ↦ error sb w eio
        | some desc ↦
            let my' = keep_window w my windowsz desc.bg_free_blocks_count in
            elim (search_all sb w my' windowsz group desc goal num) [
              | bug ↦ bug
              | spent ↦ spent
              | io_error w' ↦ error sb w' eio
              | missed w' num' ↦ elim (is_reserved my') [
                | true ↦ retry_alloc fuel sb w' none 0 goal_group goal_group goal num'
                | false ↦ error sb w' enospc
              ]
              | took sb' w' group' desc' at num' ↦
                  let ret_block = at + group_first_block_no sb group' in
                  elim (in_system_zone sb desc' ret_block num') [
                    | true ↦ retry_alloc fuel sb' w' my' windowsz goal_group group' goal num'
                    | false ↦ finish sb' w' group' desc' ret_block num'
                  ]
            ]
      ]

  -- `block_info` is the file's window, `quota` an error of `dquot_alloc_block`; the window's size
  -- has 16 bits in `windowsz`.
  unfoldable pub new_blocks : SbInfo → Windows → Caller → Option ℕ → Option ℕ → ℕ → ℕ → NewBlocks
  new_blocks sb w who quota block_info goal count =
      let windowsz : ℕ = elim block_info [
        | none ↦ 0
        | some my ↦ (w.at my).rsv_goal_size % 2 ^ 16
      ] in
      let my = if ltb 0 windowsz then block_info else none in
      let first = sb.s_first_data_block in
      let goal' = if ltb goal first || leb sb.s_blocks_count goal then first else goal in
      let group = (goal' - first) / sb.s_blocks_per_group in
      let found =
        retry_alloc (sb.s_groups_count * sb.s_blocks_per_group + 2) sb w my windowsz group group
          goal' count in
      elim quota [
        | some err ↦ error sb w err
        | none ↦ if has_free_blocks sb who then found else error sb w enospc
      ]

  unfoldable pub new_block : SbInfo → Windows → Caller → Option ℕ → Option ℕ → ℕ → NewBlocks
  new_block sb w who quota block_info goal = new_blocks sb w who quota block_info goal 1
