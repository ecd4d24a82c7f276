-- ===== src/Dir/Search/View.antt =====
-- The abstract view of a page: the list of its entries, and the search as a search of that list.
use k_rack.Common.{
  ℕ, zero, suc, ◌+◌, ◌-◌, ◌≤◌, ◌<◌, ◌≡◌, refl, ◌≢◌, true, Option, none, some, List, [], ◌∷◌, arith,
  if◌then◌else◌, sub32, sub32_lem,
}
use k_rack.Dir.Entry.{Dirent, Qstr, Page, page_size, dir_rec_len, match_name}
use k_rack.Dir.Check.{Layout}
use k_rack.Dir.Check.Chain.{Tiles, Tiles-le}
use k_rack.Dir.Search.{Scan, hit, miss, zero_length, spent, search_from, search_page}

-- The inode of the first entry that has the name.
abbrev pub find_in : Qstr → List Dirent → Option ℕ
find_in q [] = none
find_in q (de ∷ ds) = if match_name q de then some de.inode else find_in q ds

-- What a search answers: the inode of the entry that it stops at.
abbrev pub answer : Page → Scan → Option ℕ
answer p (hit k) = some (p k).inode
answer p miss = none
answer p zero_length = none
answer p spent = none

match_name-len : (q : Qstr) (de : Dirent) → match_name q de ≡ true → q.len ≡ de.name_len
unfolding match_name
match_name-len q de h = ground arith

module _ (l : Layout) (q : Qstr) (p : Page) (limit : ℕ) where
  -- An entry past the bound is too short for the name.
  past_bound :
      (bound o : ℕ) (ds : List Dirent)
      → bound ≡ limit - dir_rec_len q.len
      → Tiles l p limit o ds
      → bound < o
      → find_in q ds ≡ none
  past_bound bound o [] b t h = refl
  past_bound bound o (de ∷ ds) b (e, i, t) h = ground (
    arith,
    match_name-len q de,
    Tiles-le l p limit (o + de.rec_len) ds t,
    past_bound bound (o + de.rec_len) ds b t (omega arith),
  )

  pub search_from-find_in :
      (fuel bound o : ℕ) (ds : List Dirent)
      → bound ≡ limit - dir_rec_len q.len
      → dir_rec_len q.len ≤ limit
      → limit < fuel + o
      → Tiles l p limit o ds
      → (answer p (search_from fuel q p bound o) ≡ find_in q ds)
        × (search_from fuel q p bound o ≢ spent)
        × (search_from fuel q p bound o ≢ zero_length)
  unfolding search_from
  search_from-find_in zero bound o ds b fits h t = absurd (omega (arith, Tiles-le l p limit o ds t))
  search_from-find_in (suc fuel) bound o [] b fits h t = ground arith
  search_from-find_in (suc fuel) bound o (de ∷ ds) b fits h (e, i, t) = ground (
    arith,
    match_name-len q de,
    past_bound bound o (de ∷ ds) b (e, i, t),
    Tiles-le l p limit (o + de.rec_len) ds t,
    search_from-find_in fuel bound (o + de.rec_len) ds b fits (omega arith) t,
  )

-- On a page that `kr_check_page` accepts and that is no shorter than an entry with the name, the
-- search loop ends, meets no record of length zero,
-- and answers with the first entry of the page that has the name, if there is one.
pub search_page-find_in :
    (l : Layout) (q : Qstr) (p : Page) (last : ℕ) (ds : List Dirent)
    → last ≤ page_size
    → dir_rec_len q.len ≤ last
    → Tiles l p last 0 ds
    → (answer p (search_page q p last) ≡ find_in q ds)
      × (search_page q p last ≢ spent)
      × (search_page q p last ≢ zero_length)
unfolding search_page
search_page-find_in l q p last ds small fits t =
    search_from-find_in l q p last (page_size + 1) (sub32 last (dir_rec_len q.len)) 0 ds
      (sub32_lem last (dir_rec_len q.len) fits (omega arith)) fits (omega arith) t
