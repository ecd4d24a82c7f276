-- ===== src/Dir/Entry.antt =====
-- Directory entries (kr.h, dir.c): the record, its minimal length, the name test and the file
-- type. A page is a map from an offset to the entry whose header starts there; the records of a
-- page never overlap, since `rec_len` has room for the name, so a write to one entry leaves the
-- others. PAGE_SIZE is 4096, so `rec_len` goes to and from disk unchanged.
use k_rack.Common.{
  ℕ, ◌+◌, ◌*◌, ◌/◌, ◌%◌, ◌≡◌, refl, Bool, true, false, not, ◌&&◌, List, [], ◌∷◌, arith, ltb, ◌==◌,
  if◌then◌else◌, take, sub32,
}

-- `struct kr_dir_entry_2`
pub record Dirent : Type 0 where
  pub inode : ℕ
  pub rec_len : ℕ
  pub name_len : ℕ
  pub file_type : ℕ
  pub name : List ℕ

-- `struct qstr`
pub record Qstr : Type 0 where
  pub name : List ℕ
  pub len : ℕ

abbrev pub Page : Type 0
Page = ℕ → Dirent

-- A store through an entry pointer.
abbrev pub store : Page → ℕ → Dirent → Page
store p o de k = if k == o then de else p k

abbrev pub page_size : ℕ
page_size = 4096

-- KR_DIR_REC_LEN: the room for a header and `n` bytes of name, a multiple of 4.
abbrev pub dir_rec_len : ℕ → ℕ
dir_rec_len n = (n + 8 + 3) / 4 * 4

-- `memcmp(a, b, n) == 0` on lists of `n` bytes
abbrev pub bytes_eq : List ℕ → List ℕ → Bool
bytes_eq [] [] = true
bytes_eq [] (y ∷ ys) = false
bytes_eq (x ∷ xs) [] = false
bytes_eq (x ∷ xs) (y ∷ ys) = x == y && bytes_eq xs ys

pub bytes_eq_refl : (xs : List ℕ) → bytes_eq xs xs ≡ true
bytes_eq_refl [] = refl
bytes_eq_refl (x ∷ xs) = ground (arith, bytes_eq_refl xs)

unfoldable pub match_name : Qstr → Dirent → Bool
match_name q de =
    if not (q.len == de.name_len)
    then false
    else if de.inode == 0
    then false
    else bytes_eq (take q.len q.name) (take q.len de.name)

-- The offset behind the last valid byte of page `n`, in `unsigned` arithmetic.
unfoldable pub last_byte : ℕ → ℕ → ℕ
last_byte i_size n =
    let last = sub32 i_size (n * page_size) in if ltb page_size last then page_size else last

-- kr_type_by_mode: the file type of the entry, by the format bits of the mode.
unfoldable pub type_by_mode : ℕ → ℕ
type_by_mode fmt =
    if fmt == 8
    then 1
    else if fmt == 4
    then 2
    else if fmt == 2
    then 3
    else if fmt == 6
    then 4
    else if fmt == 1
    then 5
    else if fmt == 12
    then 6
    else if fmt == 10
    then 7
    else 0

-- kr_set_de_type
unfoldable pub set_de_type : Bool → ℕ → Dirent → Dirent
set_de_type has_filetype mode de = record de {
  file_type = if has_filetype then type_by_mode (mode / 4096 % 16) else 0;
}
