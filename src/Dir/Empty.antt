-- ===== src/Dir/Empty.antt =====
-- The first chunk of a new directory and the test for an empty one: kr_make_empty, kr_empty_dir
-- (dir.c).
pub mod Laws
use k_rack.Common.{
  ℕ, zero, suc, ◌+◌, ◌-◌, ◌*◌, ◌/◌, ◌%◌, ◌^◌, ◌≤◌, ◌<◌, min, bit_and, ◌≡◌, refl, sym, ap, subst,
  ◌∙◌, ◌≢◌, ◌↔◌, ◌⊎◌, inl, inr, Bool, true, false, not, ◌&&◌, ◌||◌, Option, none, some, List, [],
  ◌∷◌, ◌++◌, arith, ltb, leb, ◌==◌, if◌then◌else◌, ltb→lt, lt→ltb, leb→le, le→leb, ==_iff,
  Bool-cases, Option-cases, length, get_elem?, get_or, set, take, drop, length-append, length-set,
  get_elem?-set_self, get_elem?-set_ne, sub32, sub32_lem, clear_flag, eperm, enoent, eio, eagain,
  enomem, eacces, efault, ebusy, eexist, einval, enotty, enospc, enametoolong, enotempty,
}
use k_rack.Dir.Entry.{Dirent, Page, page_size, dir_rec_len, store, set_de_type, last_byte}
use k_rack.Dir.Inode.{Super, Inode, get_page}
use k_rack.Dir.Insert.{Env, commit_chunk, put_contents}

abbrev pub dot : ℕ
dot = b'.'

abbrev pub zero_dirent : Dirent
zero_dirent = record { inode = 0; rec_len = 0; name_len = 0; file_type = 0; name = [] }

-- `memset(kaddr, 0, chunk_size)`
abbrev pub memset : Page → ℕ → Page
memset p n k = if ltb k n then zero_dirent else p k

-- The entries "." and "..".
unfoldable pub dot_entries : Super → ℕ → ℕ → ℕ → Page → Page
unfolding set_de_type
dot_entries sb ino mode parent p =
    let self : Dirent = record {
      inode = ino;
      rec_len = dir_rec_len 1;
      name_len = 1;
      file_type = 0;
      name = dot ∷ 0 ∷ 0 ∷ 0 ∷ [];
    } in
    let up : Dirent = record {
      inode = parent;
      rec_len = sb.chunk_size - dir_rec_len 1;
      name_len = 2;
      file_type = 0;
      name = dot ∷ dot ∷ 0 ∷ 0 ∷ [];
    } in
    store (store (memset p sb.chunk_size) 0 (set_de_type sb.has_filetype mode self)) (dir_rec_len 1)
      (set_de_type sb.has_filetype mode up)

-- `page` is what `grab_cache_page` gives.
unfoldable pub make_empty : Super → Env → Inode → ℕ → Option Page → Inode × ℕ
unfolding commit_chunk
make_empty sb env d parent none = (d, enomem)
make_empty sb env d parent (some p) =
    let written = put_contents d 0 (dot_entries sb d.i_ino d.i_mode parent p) in
    let committed = commit_chunk env written 0 sb.chunk_size in
    if env.prepare_err == 0 then committed else (d, env.prepare_err)

-- A free entry, "." of this directory, or "..".
unfoldable pub is_dot_entry : ℕ → Dirent → Bool
is_dot_entry ino de =
    if de.inode == 0
    then true
    else if not (get_or de.name 0 0 == dot)
    then false
    else if ltb 2 de.name_len
    then false
    else if ltb de.name_len 2
    then de.inode == ino
    else get_or de.name 1 0 == dot

-- The loop over one page; `none` means that the fuel ran out.
unfoldable pub empty_from : ℕ → ℕ → Page → ℕ → ℕ → Option Bool
empty_from zero ino p bound o = none
empty_from (suc fuel) ino p bound o = elim (leb o bound) [
  | true ↦ elim ((p o).rec_len == 0) [
    | true ↦ some false
    | false ↦ elim (is_dot_entry ino (p o)) [
      | true ↦ empty_from fuel ino p bound (o + (p o).rec_len)
      | false ↦ some false
    ]
  ]
  | false ↦ some true
]

unfoldable pub empty_page : ℕ → Page → ℕ → Option Bool
empty_page ino p last = empty_from (page_size + 1) ino p (sub32 last (dir_rec_len 1)) 0

-- The pages from `n` on, `count` of them; a page that cannot be read is passed over.
unfoldable pub empty_pages : ℕ → Super → ℕ → Inode → Inode × Bool
empty_pages zero sb n d = (d, true)
empty_pages (suc count) sb n d =
    let (d', page) = get_page sb d n in
    let rest = empty_pages count sb (n + 1) d' in
    elim page [
      | none ↦ rest
      | some p ↦ elim (empty_page d.i_ino p (last_byte d.i_size n)) [
        | none ↦ (d', false)
        | some found ↦ if found then rest else (d', false)
      ]
    ]

unfoldable pub empty_dir : Super → Inode → Inode × Bool
empty_dir sb d = empty_pages (sb.dir_pages d.i_size) sb 0 d
