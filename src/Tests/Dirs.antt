-- ===== src/Tests/Dirs.antt =====
-- A directory of one chunk, with ".", ".." and a file "ab", and the theorems on directories applied
-- to it.
use k_rack.Common.{
  Bool, ℕ, ◌+◌, ◌/◌, ◌≡◌, refl, ◌≢◌, ◌↔◌, true, false, Option, none, some, List, [], ◌∷◌, arith,
  ◌==◌, if◌then◌else◌,
}
use k_rack.Dir.Entry.{Dirent, Qstr, Page, page_size, match_name}
use k_rack.Dir.Check.{Layout, valid, page_limit, check_page}
use k_rack.Dir.Check.Chain.{IsEntry, Tiles, EndsAtChunk, check_page-Tiles}
use k_rack.Dir.Inode.{Super}
use k_rack.Dir.Search.{spent, zero_length, search_page}
use k_rack.Dir.Search.View.{find_in, answer, search_page-find_in}
use k_rack.Dir.Insert.Room.{Place, got, exists_already, Child, has_room, place_from, open_end, fill}
use k_rack.Dir.Insert.View.{same_name, AllNamed, Fits}
use k_rack.Dir.Insert.Laws.{insert-search, place-total}
use k_rack.Dir.Remove.{at, prev_from, chunk_start, unlink}
use k_rack.Dir.Remove.Laws.{Removed, delete-removes}
use k_rack.Dir.Empty.{empty_page}
use k_rack.Dir.Empty.Laws.{AllDots, empty_page-AllDots, Fresh, dot_entries-Fresh}

abbrev l : Layout
l = record { chunk_size = 1024; max_inumber = 100 }

abbrev dot_entry : Dirent
dot_entry = record { inode = 11; rec_len = 12; name_len = 1; file_type = 2; name = 46 ∷ [] }

abbrev dotdot_entry : Dirent
dotdot_entry = record { inode = 2; rec_len = 12; name_len = 2; file_type = 2; name = 46 ∷ 46 ∷ [] }

abbrev file_entry : Dirent
file_entry = record { inode = 12; rec_len = 1000; name_len = 2; file_type = 1; name = 97 ∷ 98 ∷ [] }

abbrev page : Page
page k = if k == 0 then dot_entry else if k == 12 then dotdot_entry else file_entry

abbrev entries : List Dirent
entries = dot_entry ∷ dotdot_entry ∷ file_entry ∷ []

dot-IsEntry : IsEntry l dot_entry 0
dot-IsEntry = record {
  long = omega arith;
  aligned = refl;
  room = omega arith;
  within = refl;
  inumber = omega arith;
}

dotdot-IsEntry : IsEntry l dotdot_entry 12
dotdot-IsEntry = record {
  long = omega arith;
  aligned = refl;
  room = omega arith;
  within = refl;
  inumber = omega arith;
}

file-IsEntry : IsEntry l file_entry 24
file-IsEntry = record {
  long = omega arith;
  aligned = refl;
  room = omega arith;
  within = refl;
  inumber = omega arith;
}

tiles : Tiles l page 1024 0 entries
tiles = (refl, dot-IsEntry, (refl, dotdot-IsEntry, (refl, file-IsEntry, refl)))

-- The name "c".
abbrev new_name : Qstr
new_name = record { name = 99 ∷ []; len = 1 }

abbrev child : Child
child = record { i_ino = 13; i_mode = 0x81a4 }

entries-AllNamed : AllNamed entries
entries-AllNamed = (λ _. omega arith, (λ _. omega arith, (λ _. omega arith, tt)))

new_name-Fits : Fits l new_name 1024
new_name-Fits = record {
  long = omega arith;
  aligned = refl;
  room = omega arith;
  whole = refl;
  nonempty = omega arith;
}

-- The new entry takes what the file's record has to spare.
place : place_from (page_size + 1) new_name page 1024 1024 0 ≡ got 24 12 1000 false
unfolding place_from match_name has_room
place = refl

check_page-Tiles_example :
    (check_page l 1024 0 page ≡ valid)
    ↔ (EndsAtChunk l 1024 0 × ((ds : List Dirent) × Tiles l page (page_limit 1024 0) 0 ds))
check_page-Tiles_example = check_page-Tiles l 1024 0 page (omega arith)

search_page-find_in_example :
    (answer page (search_page new_name page 1024) ≡ find_in new_name entries)
    × (search_page new_name page 1024 ≢ spent)
    × (search_page new_name page 1024 ≢ zero_length)
search_page-find_in_example =
    search_page-find_in l new_name page 1024 entries (omega arith) (omega arith) tiles

insert-search_example :
    let p' = fill true new_name child page 24 12 1000 in
    ((ds' : List Dirent) × Tiles l p' 1024 0 ds')
    × (answer p' (search_page new_name p' 1024) ≡ (
        if same_name new_name new_name
        then some 13
        else answer page (search_page new_name page 1024)))
unfolding open_end
insert-search_example =
    insert-search l true new_name new_name child page 1024 entries 24 12 1000 false (omega arith)
      (omega arith) (omega arith) new_name-Fits entries-AllNamed tiles place (omega arith)
      (omega arith)

place-total_example :
    (place_from (page_size + 1) new_name page 1024 1024 0 ≢ Place.spent)
    × (place_from (page_size + 1) new_name page 1024 1024 0 ≢ Place.zero_length)
    × (place_from (page_size + 1) new_name page 1024 1024 0 ≡ exists_already
        → find_in new_name entries ≢ none)
place-total_example = place-total l new_name page 1024 entries (omega arith) tiles

delete-removes_example :
    (pde : Option ℕ) × (prev_from (page_size + 1) page 12 (chunk_start 1024 12) none ≡ at pde)
    × Removed l page 1024 (dot_entry ∷ []) (file_entry ∷ []) (unlink page 12 pde)
delete-removes_example =
    delete-removes l page 1024 12 (dot_entry ∷ []) (file_entry ∷ []) (omega arith) (omega arith)
      (refl, dot-IsEntry, refl) dotdot-IsEntry (refl, file-IsEntry, refl)

empty_page-AllDots_example :
    (b : Bool) × (empty_page 11 page 1024 ≡ some b) × ((b ≡ true) ↔ AllDots 11 entries)
empty_page-AllDots_example =
    empty_page-AllDots l 11 page 1024 entries (omega arith) (omega arith) tiles entries-AllNamed

abbrev mounted : Super
mounted = record {
  chunk_size = 1024;
  inodes_count = 100;
  has_filetype = true;
  dir_pages = λ size. (size + 4095) / 4096;
}

dot_entries-Fresh_example : (ds : List Dirent) × Fresh mounted 11 0x41ed 2 page ds
dot_entries-Fresh_example =
    dot_entries-Fresh mounted 11 0x41ed 2 page (omega arith) refl (omega arith) (omega arith)
      (omega arith) (omega arith)
