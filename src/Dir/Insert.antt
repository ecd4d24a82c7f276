-- ===== src/Dir/Insert.antt =====
-- Entering a name: kr_add_link, kr_commit_chunk (dir.c).
pub mod Room
pub mod View
pub mod Enter
pub mod Laws
use k_rack.Common.{
  ℕ, zero, suc, ◌+◌, ◌-◌, ◌*◌, ◌/◌, ◌%◌, ◌^◌, ◌≤◌, ◌<◌, min, bit_and, ◌≡◌, refl, sym, ap, subst,
  ◌∙◌, ◌≢◌, ◌↔◌, ◌⊎◌, inl, inr, Bool, true, false, not, ◌&&◌, ◌||◌, Option, none, some, List, [],
  ◌∷◌, ◌++◌, arith, ltb, leb, ◌==◌, if◌then◌else◌, ltb→lt, lt→ltb, leb→le, le→leb, ==_iff,
  Bool-cases, Option-cases, length, get_elem?, get_or, set, take, drop, length-append, length-set,
  get_elem?-set_self, get_elem?-set_ne, sub32, sub32_lem, clear_flag, eperm, enoent, eio, eagain,
  enomem, eacces, efault, ebusy, eexist, einval, enotty, enospc, enametoolong, enotempty,
}
use k_rack.Dir.Entry.{
  Dirent, Qstr, Page, page_size, dir_rec_len, match_name, last_byte, store, set_de_type,
}
use k_rack.Dir.Inode.{Super, Slot, Inode, get_page, put_slot}
use Room.{Place, got, exists_already, zero_length, full, spent, Child, place_from, open_end, fill}

-- What the kernel answers while an entry is written: the errors of `__block_write_begin`, of
-- `write_one_page` and of `sync_inode_metadata`, IS_DIRSYNC, and the time.
pub record Env : Type 0 where
  pub prepare_err : ℕ
  pub write_err : ℕ
  pub sync_err : ℕ
  pub dirsync : Bool
  pub now : ℕ

abbrev pub btree_fl : ℕ
btree_fl = 0x1000

unfoldable pub commit_chunk : Env → Inode → ℕ → ℕ → Inode × ℕ
commit_chunk env d pos len = (
  record d {
    i_version = d.i_version + 1;
    i_size = if ltb d.i_size (pos + len) then pos + len else d.i_size;
  },
  if env.dirsync then (if env.write_err == 0 then env.sync_err else env.write_err) else 0,
)

-- The page `n` of the directory with new contents.
abbrev pub put_contents : Inode → ℕ → Page → Inode
put_contents d n p = elim (d.pages n) [
  | none ↦ d
  | some s ↦ put_slot d n (record s { contents = p })
]

-- The end of a change: the times, and the flag of an indexed directory.
unfoldable pub touch : Env → Inode → Inode
touch env d = record d {
  i_mtime = env.now;
  i_ctime = env.now;
  i_flags = clear_flag d.i_flags btree_fl;
}

-- `got_it`
unfoldable pub write_entry :
    Super → Env → Inode → Qstr → Child → ℕ → Page → ℕ → ℕ → ℕ → Bool → Inode × ℕ
unfolding commit_chunk touch
write_entry sb env d q child n p o name_len rec_len at_end =
    let p0 = open_end p o rec_len at_end in
    let written = put_contents d n (fill sb.has_filetype q child p0 o name_len rec_len) in
    let (d', err) = commit_chunk env written (n * page_size + o) rec_len in
    if env.prepare_err == 0 then (touch env d', err) else (put_contents d n p0, env.prepare_err)

unfoldable pub add_pages : ℕ → Super → Env → Qstr → Child → ℕ → Inode → Inode × ℕ
add_pages zero sb env q child n d = (d, einval)
add_pages (suc fuel) sb env q child n d =
    let (d', page) = get_page sb d n in
    let rest = add_pages fuel sb env q child (n + 1) d' in
    elim page [
      | none ↦ (d', eio)
      | some p ↦ elim (place_from (page_size + 1) q p sb.chunk_size (last_byte d.i_size n) 0) [
        | got o name_len rec_len at_end ↦
            write_entry sb env d' q child n p o name_len rec_len at_end
        | exists_already ↦ (d', eexist)
        | zero_length ↦ (d', eio)
        | full ↦ rest
        | spent ↦ rest
      ]
    ]

unfoldable pub add_link : Super → Env → Inode → Qstr → Child → Inode × ℕ
add_link sb env d q child = add_pages (sb.dir_pages d.i_size + 1) sb env q child 0 d
