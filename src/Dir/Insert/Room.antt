-- ===== src/Dir/Insert/Room.antt =====
-- The part of kr_add_link (dir.c) that works within one page: the search for room, and the write.
use k_rack.Common.{
  ℕ, zero, suc, ◌+◌, ◌-◌, Bool, true, false, ◌&&◌, ◌||◌, List, ◌++◌, leb, ◌==◌, if◌then◌else◌, take,
  drop,
}
use k_rack.Dir.Entry.{Dirent, Qstr, Page, page_size, dir_rec_len, match_name, store, set_de_type}

-- How the walk over one page ends; `spent` is no answer of the code.
pub data Place : Type 0 where
  got : ℕ → ℕ → ℕ → Bool → Place
  exists_already zero_length full spent : Place

-- The inode that the new entry names: i_ino and i_mode.
pub record Child : Type 0 where
  pub i_ino : ℕ
  pub i_mode : ℕ

-- The tests on an entry that is neither at the end nor of length zero: it has the name, or it has
-- room for one more entry.
unfoldable pub has_room : Qstr → Dirent → Bool
has_room q de =
    de.inode == 0 && leb (dir_rec_len q.len) de.rec_len
    || leb (dir_rec_len de.name_len + dir_rec_len q.len) de.rec_len

unfoldable pub place_from : ℕ → Qstr → Page → ℕ → ℕ → ℕ → Place
unfolding has_room
place_from zero q p chunk dir_end o = spent
place_from (suc fuel) q p chunk dir_end o = elim (leb (o + dir_rec_len q.len) page_size) [
  | true ↦ elim (o == dir_end) [
    | true ↦ got o 0 chunk true
    | false ↦ elim ((p o).rec_len == 0) [
      | true ↦ zero_length
      | false ↦ elim (match_name q (p o)) [
        | true ↦ exists_already
        | false ↦ elim (has_room q (p o)) [
          | true ↦ got o (dir_rec_len (p o).name_len) (p o).rec_len false
          | false ↦ place_from fuel q p chunk dir_end (o + (p o).rec_len)
        ]
      ]
    ]
  ]
  | false ↦ full
]

-- At the directory's end a free record of one chunk is put first.
unfoldable pub open_end : Page → ℕ → ℕ → Bool → Page
open_end p o rec_len at_end =
    if at_end then store p o (record (p o) { rec_len = rec_len; inode = 0 }) else p

-- `memcpy(dst, src, n)`
abbrev pub memcpy : List ℕ → List ℕ → ℕ → List ℕ
memcpy dst src n = take n src ++ drop n dst

-- The new entry, in a record that is already as long as it shall be.
unfoldable pub named : Bool → Qstr → Child → Dirent → Dirent
named has_filetype q child de =
    set_de_type has_filetype child.i_mode
      (record de { name_len = q.len; name = memcpy de.name q.name q.len; inode = child.i_ino })

-- A live entry keeps its record up to the end of its name, and the new one takes the rest.
unfoldable pub fill : Bool → Qstr → Child → Page → ℕ → ℕ → ℕ → Page
unfolding named
fill has_filetype q child p o name_len rec_len =
    let split = o + name_len in
    if (p o).inode == 0
    then store p o (named has_filetype q child (p o))
    else store (store p o (record (p o) { rec_len = name_len })) split
        (named has_filetype q child (record (p split) { rec_len = rec_len - name_len }))
