-- ===== src/Dir/Search.antt =====
-- Looking a name up: kr_find_entry, kr_inode_by_name, kr_dotdot (dir.c).
pub mod View
use k_rack.Common.{
  ℕ, zero, suc, ◌+◌, ◌-◌, ◌*◌, ◌/◌, ◌%◌, ◌^◌, ◌≤◌, ◌<◌, min, bit_and, ◌≡◌, refl, sym, ap, subst,
  ◌∙◌, ◌≢◌, ◌↔◌, ◌⊎◌, inl, inr, Bool, true, false, not, ◌&&◌, ◌||◌, Option, none, some, List, [],
  ◌∷◌, ◌++◌, arith, ltb, leb, ◌==◌, if◌then◌else◌, ltb→lt, lt→ltb, leb→le, le→leb, ==_iff,
  Bool-cases, Option-cases, length, get_elem?, get_or, set, take, drop, length-append, length-set,
  get_elem?-set_self, get_elem?-set_ne, sub32, sub32_lem, clear_flag,
}
use mathlib.Core.Option
use k_rack.Dir.Entry.{Dirent, Qstr, Page, page_size, dir_rec_len, match_name, last_byte}
use k_rack.Dir.Inode.{Super, Inode, get_page}

-- How the walk over one page ends; `spent` is no answer of the code.
pub data Scan : Type 0 where
  hit : ℕ → Scan
  miss zero_length spent : Scan

-- The inner loop of kr_find_entry; `bound` is the last offset at which the name could stand.
unfoldable pub search_from : ℕ → Qstr → Page → ℕ → ℕ → Scan
search_from zero q p bound o = spent
search_from (suc fuel) q p bound o = elim (leb o bound) [
  | true ↦ elim ((p o).rec_len == 0) [
    | true ↦ zero_length
    | false ↦ elim (match_name q (p o)) [
      | true ↦ hit o
      | false ↦ search_from fuel q p bound (o + (p o).rec_len)
    ]
  ]
  | false ↦ miss
]

unfoldable pub search_page : Qstr → Page → ℕ → Scan
search_page q p last = search_from (page_size + 1) q p (sub32 last (dir_rec_len q.len)) 0

abbrev pub next_page : ℕ → ℕ → ℕ
next_page npages n = if leb npages (n + 1) then 0 else n + 1

-- The outer loop, which goes round the pages from the one of the last hit. The answer is the page
-- and the offset in it.
unfoldable pub find_pages : ℕ → Super → Qstr → ℕ → ℕ → ℕ → Inode → Inode × Option (ℕ × ℕ)
find_pages zero sb q npages start n d = (d, none)
find_pages (suc fuel) sb q npages start n d =
    let (d', page) = get_page sb d n in
    let n' = next_page npages n in
    let rest =
      if ltb (d.i_blocks / 8) n'
      then (d', none)
      else if n' == start
      then (d', none)
      else find_pages fuel sb q npages start n' d' in
    elim page [
      | none ↦ rest
      | some p ↦ elim (search_page q p (last_byte d.i_size n)) [
        | hit o ↦ (record d' { i_dir_start_lookup = n }, some (n, o))
        | zero_length ↦ (d', none)
        | miss ↦ rest
        | spent ↦ rest
      ]
    ]

unfoldable pub find_entry : Super → Inode → Qstr → Inode × Option (ℕ × ℕ)
find_entry sb d q =
    let npages = sb.dir_pages d.i_size in
    let start = if leb npages d.i_dir_start_lookup then 0 else d.i_dir_start_lookup in
    if npages == 0 then (d, none) else find_pages npages sb q npages start start d

-- The entry that a result of `find_entry` points to.
unfoldable pub entry_at : Inode → ℕ → ℕ → Option Dirent
entry_at d n o = Option.map (λ s. s.contents o) (d.pages n)

unfoldable pub inode_by_name : Super → Inode → Qstr → Inode × ℕ
inode_by_name sb d q =
    let (d', found) = find_entry sb d q in
    elim found [
      | none ↦ (d', 0)
      | some (n, o) ↦ elim (entry_at d' n o) [ none ↦ (d', 0) | some de ↦ (d', de.inode) ]
    ]

-- The second record of the first page.
unfoldable pub dotdot : Super → Inode → Inode × Option ℕ
dotdot sb d =
    let (d', page) = get_page sb d 0 in
    elim page [ none ↦ (d', none) | some p ↦ (d', some (0 + (p 0).rec_len)) ]
