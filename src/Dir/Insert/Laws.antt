-- ===== src/Dir/Insert/Laws.antt =====
-- What kr_add_link (dir.c) does to the names of a page.
use k_rack.Common.{
  ℕ, zero, suc, ◌+◌, ◌≤◌, ◌<◌, ◌≡◌, ◌≢◌, Bool, none, some, List, [], ◌∷◌, arith, if◌then◌else◌,
  length,
}
use k_rack.Dir.Entry.{Dirent, Qstr, Page, page_size, dir_rec_len}
use k_rack.Dir.Check.{Layout}
use k_rack.Dir.Check.Chain.{Tiles, Tiles-le}
use k_rack.Dir.Search.{search_page}
use k_rack.Dir.Search.View.{find_in, answer, search_page-find_in}
use k_rack.Dir.Insert.Room.{
  got, exists_already, zero_length, spent, Child, place_from, open_end, fill,
}
use k_rack.Dir.Insert.View.{same_name, AllNamed, Fits}
use k_rack.Dir.Insert.Enter.{enter}

-- On a page that `kr_check_page` accepts and whose live entries have names, with whole chunks that
-- have room for the name entered, where `kr_add_link` has found a place that ends within the page:
-- it puts an entry for a known inode there so that the page is still accepted, up to the new end if
-- the entry opened a chunk, and a search for any name that fits in the page finds the new inode if
-- it is the name entered, and what it found before if it is another.
pub insert-search :
    (l : Layout) (ft : Bool) (q r : Qstr) (child : Child) (p : Page) (limit : ℕ) (ds : List Dirent)
    (k nl rl : ℕ) (b : Bool)
    → child.i_ino ≢ 0
    → child.i_ino ≤ l.max_inumber
    → q.len ≤ length q.name
    → Fits l q limit
    → AllNamed ds
    → Tiles l p limit 0 ds
    → place_from (page_size + 1) q p l.chunk_size limit 0 ≡ got k nl rl b
    → (if b then limit + rl else limit) ≤ page_size
    → dir_rec_len r.len ≤ limit
    → let p' = fill ft q child (open_end p k rl b) k nl rl in
      let limit' = if b then limit + rl else limit in
      ((ds' : List Dirent) × Tiles l p' limit' 0 ds')
      × (answer p' (search_page r p' limit')
          ≡ (if same_name q r then some child.i_ino else answer p (search_page r p limit)))
insert-search l ft q r child p limit ds k nl rl b live known long f n t h small fits =
    let (ds', t', law) =
      enter l ft q child live known long p (page_size + 1) limit 0 ds k nl rl b f n t h in
    let p' = fill ft q child (open_end p k rl b) k nl rl in
    (
      (ds', t'),
      ground (
        arith,
        law r,
        search_page-find_in l r p limit ds (ground arith) fits t,
        search_page-find_in l r p' (if b then limit + rl else limit) ds' small (ground arith) t',
      ),
    )

place_from-ends :
    (l : Layout) (q : Qstr) (p : Page) (limit fuel o : ℕ) (ds : List Dirent)
    → limit < fuel + o
    → Tiles l p limit o ds
    → (place_from fuel q p l.chunk_size limit o ≢ spent)
      × (place_from fuel q p l.chunk_size limit o ≢ zero_length)
      × (place_from fuel q p l.chunk_size limit o ≡ exists_already → find_in q ds ≢ none)
unfolding place_from
place_from-ends l q p limit zero o ds h t = absurd (omega (arith, Tiles-le l p limit o ds t))
place_from-ends l q p limit (suc fuel) o [] h t = ground arith
place_from-ends l q p limit (suc fuel) o (de ∷ ds) h (e, i, t) = ground (
  arith,
  Tiles-le l p limit (o + de.rec_len) ds t,
  place_from-ends l q p limit fuel (o + de.rec_len) ds (omega arith) t,
)

-- On a page that `kr_check_page` accepts, the search of `kr_add_link` for room comes to an end and
-- meets no record of length zero, and it gives EEXIST only if the page has the name already.
pub place-total :
    (l : Layout) (q : Qstr) (p : Page) (limit : ℕ) (ds : List Dirent)
    → limit ≤ page_size
    → Tiles l p limit 0 ds
    → (place_from (page_size + 1) q p l.chunk_size limit 0 ≢ spent)
      × (place_from (page_size + 1) q p l.chunk_size limit 0 ≢ zero_length)
      × (place_from (page_size + 1) q p l.chunk_size limit 0 ≡ exists_already → find_in q ds ≢ none)
place-total l q p limit ds h t = place_from-ends l q p limit (page_size + 1) 0 ds (omega arith) t
