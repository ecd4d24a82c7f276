-- ===== src/Dir/Check.antt =====
-- kr_check_page (dir.c): the walk over a page that accepts or refuses its layout. The chunk size is
-- a power of two, so `x & (chunk - 1)` is `x % chunk`, and the bits above it are `x / chunk`.
pub mod Chain
use k_rack.Common.{
  ℕ, zero, suc, ◌+◌, ◌-◌, ◌*◌, ◌/◌, ◌%◌, ◌^◌, ◌≤◌, ◌<◌, min, bit_and, ◌≡◌, refl, sym, ap, subst,
  ◌∙◌, ◌≢◌, ◌↔◌, ◌⊎◌, inl, inr, Bool, true, false, not, ◌&&◌, ◌||◌, Option, none, some, List, [],
  ◌∷◌, ◌++◌, arith, ltb, leb, ◌==◌, if◌then◌else◌, ltb→lt, lt→ltb, leb→le, le→leb, ==_iff,
  Bool-cases, Option-cases, length, get_elem?, get_or, set, take, drop, length-append, length-set,
  get_elem?-set_self, get_elem?-set_ne, sub32, sub32_lem, clear_flag,
}
use k_rack.Dir.Entry.{Dirent, Page, page_size, dir_rec_len}

-- The end of the function that is reached; `no_fuel` is no answer of the code.
pub data Verdict : Type 0 where
  valid bad_size short align bad_name_len span bad_inumber bad_end no_fuel : Verdict

pub record Layout : Type 0 where
  pub chunk_size : ℕ
  pub max_inumber : ℕ

-- The five tests on one entry, in their order.
unfoldable pub check_entry : Layout → Dirent → ℕ → Verdict
check_entry l de offs =
    if ltb de.rec_len (dir_rec_len 1)
    then short
    else if not (de.rec_len % 4 == 0)
    then align
    else if ltb de.rec_len (dir_rec_len de.name_len)
    then bad_name_len
    else if not ((offs + de.rec_len - 1) / l.chunk_size == offs / l.chunk_size)
    then span
    else if ltb l.max_inumber de.inode
    then bad_inumber
    else valid

-- The loop from `offs`.
unfoldable pub check_from : ℕ → Layout → Page → ℕ → ℕ → Verdict
check_from zero l p limit offs = no_fuel
check_from (suc fuel) l p limit offs = elim (leb offs (sub32 limit (dir_rec_len 1))) [
  | true ↦ elim (check_entry l (p offs) offs) [
    | valid ↦ check_from fuel l p limit (offs + (p offs).rec_len)
    | v ↦ v
  ]
  | false ↦ if offs == limit then valid else bad_end
]

-- Where the directory ends in this page, up to there.
unfoldable pub page_limit : ℕ → ℕ → ℕ
page_limit i_size index = if i_size / page_size == index then i_size % page_size else page_size

unfoldable pub check_page : Layout → ℕ → ℕ → Page → Verdict
check_page l i_size index p =
    let limit = page_limit i_size index in
    let walk = check_from (page_size + 1) l p limit 0 in
    if i_size / page_size == index && not (limit % l.chunk_size == 0)
    then bad_size
    else if limit == 0
    then valid
    else walk
