-- ===== src/Dir/Check/Chain.antt =====
-- What the page check accepts: the records tile the page.
use k_rack.Common.{
  ℕ, zero, suc, ◌+◌, ◌-◌, ◌/◌, ◌%◌, ◌^◌, ◌≤◌, ◌<◌, ◌≡◌, refl, sym, ◌∙◌, ◌≢◌, ◌↔◌, ◌⊎◌, inl, inr,
  true, List, [], ◌∷◌, arith, leb, ◌==◌, if◌then◌else◌, Bool-cases, sub32, sub32_lem,
}
use native.Mathlib.Nat.{mod-eq_of_lt}
use native.Mathlib.Decide.{dec_lt}
use k_rack.Dir.Entry.{Dirent, Page, page_size, dir_rec_len}
use k_rack.Dir.Check.{
  Verdict, valid, no_fuel, bad_size, Layout, check_entry, check_from, page_limit, check_page,
}

-- A record that may stand at an offset.
pub record IsEntry (l : Layout) (de : Dirent) (offs : ℕ) : Type 0 where
  pub long : 12 ≤ de.rec_len
  pub aligned : de.rec_len % 4 ≡ 0
  pub room : dir_rec_len de.name_len ≤ de.rec_len
  pub within : (offs + de.rec_len - 1) / l.chunk_size ≡ offs / l.chunk_size
  pub inumber : de.inode ≤ l.max_inumber

-- The entries of the list stand one behind the other from an offset on, and end at `limit`.
abbrev pub Tiles : Layout → Page → ℕ → ℕ → List Dirent → Type 0
Tiles l p limit o [] = o ≡ limit
Tiles l p limit o (de ∷ ds) = (p o ≡ de) × IsEntry l de o × Tiles l p limit (o + de.rec_len) ds

pub check_entry-IsEntry :
    (l : Layout) (de : Dirent) (o : ℕ) → (check_entry l de o ≡ valid) ↔ IsEntry l de o
unfolding check_entry
check_entry-IsEntry l de o = ground arith

pub Tiles-le :
    (l : Layout) (p : Page) (limit o : ℕ) (ds : List Dirent) → Tiles l p limit o ds → o ≤ limit
Tiles-le l p limit o [] t = omega arith
Tiles-le l p limit o (de ∷ ds) (e, i, t) = omega (arith, Tiles-le l p limit (o + de.rec_len) ds t)

module _ (l : Layout) (p : Page) (limit : ℕ) (big : 12 ≤ limit) (small : limit < 2 ^ 32) where
  go_on :
      (fuel o : ℕ)
      → check_from (suc fuel) l p limit o ≡ valid
      → leb o (sub32 limit 12) ≡ true
      → (check_entry l (p o) o ≡ valid) × (check_from fuel l p limit (o + (p o).rec_len) ≡ valid)
  unfolding check_from
  go_on fuel o h e = ground arith

  -- A fuel above the bytes left is never used up.
  pub enough_fuel :
      (fuel o : ℕ) → 0 < fuel → limit < fuel + o → check_from fuel l p limit o ≢ no_fuel
  unfolding check_from check_entry
  enough_fuel zero o f h e = absurd (omega arith)
  enough_fuel (suc fuel) o f h e =
      ground (arith, sub32_lem limit 12, enough_fuel fuel (o + (p o).rec_len))

  pub sound :
      (fuel o : ℕ) → check_from fuel l p limit o ≡ valid → (ds : List Dirent) × Tiles l p limit o ds
  unfolding check_from
  sound zero o h = absurd (ground arith)
  sound (suc fuel) o h = elim (Bool-cases (leb o (sub32 limit 12))) [
    | inl e ↦
        let (ok, rest) = go_on fuel o h e in
        let (ds, t) = sound fuel (o + (p o).rec_len) rest in
        (p o ∷ ds, (refl, (check_entry-IsEntry l (p o) o).0 ok, t))
    | inr e ↦ ([], ground arith)
  ]

  pub complete :
      (fuel o : ℕ) (ds : List Dirent)
      → limit < fuel + o
      → Tiles l p limit o ds
      → check_from fuel l p limit o ≡ valid
  unfolding check_from
  complete zero o ds h t = absurd (omega (arith, Tiles-le l p limit o ds t))
  complete (suc fuel) o [] h t = ground (arith, sub32_lem limit 12)
  complete (suc fuel) o (de ∷ ds) h (e, i, t) = ground (
    arith,
    sub32_lem limit 12,
    Tiles-le l p limit (o + de.rec_len) ds t,
    check_entry-IsEntry l de o,
    complete fuel (o + de.rec_len) ds (omega arith) t,
  )

-- The directory's last page ends at a chunk's end.
abbrev pub EndsAtChunk : Layout → ℕ → ℕ → Type 0
EndsAtChunk l i_size index = i_size / page_size ≡ index → i_size % page_size % l.chunk_size ≡ 0

multiple_cases : (m c : ℕ) → 12 ≤ c → m % c ≡ 0 → (m ≡ 0) ⊎ (12 ≤ m)
multiple_cases m c h e = elim (dec_lt m 12) [
  | yes lt ↦ inl (sym (mod-eq_of_lt (omega arith)) ∙ e)
  | no ge ↦ inr (omega arith)
]

limit_cases :
    (l : Layout) (i_size index : ℕ)
    → 12 ≤ l.chunk_size
    → EndsAtChunk l i_size index
    → (page_limit i_size index ≡ 0)
      ⊎ ((12 ≤ page_limit i_size index) × (page_limit i_size index ≤ page_size))
unfolding page_limit
limit_cases l i_size index h e = ground (arith, multiple_cases (i_size % page_size) l.chunk_size h)

walk : Layout → Page → ℕ → Verdict
walk l p limit = if limit == 0 then valid else check_from (page_size + 1) l p limit 0

check_page-walk :
    (l : Layout) (i_size index : ℕ) (p : Page)
    → EndsAtChunk l i_size index
    → check_page l i_size index p ≡ walk l p (page_limit i_size index)
unfolding check_page page_limit walk
check_page-walk l i_size index p e = ground arith

check_page-EndsAtChunk :
    (l : Layout) (i_size index : ℕ) (p : Page)
    → check_page l i_size index p ≢ bad_size
    → EndsAtChunk l i_size index
unfolding check_page page_limit
check_page-EndsAtChunk l i_size index p h e = ground arith

walk-Tiles :
    (l : Layout) (p : Page) (limit : ℕ)
    → (limit ≡ 0) ⊎ ((12 ≤ limit) × (limit ≤ page_size))
    → (walk l p limit ≡ valid) ↔ ((ds : List Dirent) × Tiles l p limit 0 ds)
unfolding walk
walk-Tiles l p limit (inl e) = (λ h. ([], omega arith), λ (ds, t). ground arith)
walk-Tiles l p limit (inr (big, small)) = (
  λ h. sound l p limit big (omega arith) (page_size + 1) 0 (ground arith),
  λ (ds, t).
      ground (arith, complete l p limit big (omega arith) (page_size + 1) 0 ds (omega arith) t),
)

walk-total :
    (l : Layout) (p : Page) (limit : ℕ)
    → (limit ≡ 0) ⊎ ((12 ≤ limit) × (limit ≤ page_size))
    → walk l p limit ≢ no_fuel
unfolding walk
walk-total l p limit (inl e) h = ground arith
walk-total l p limit (inr (big, small)) h =
    ground
      (arith, enough_fuel l p limit big (omega arith) (page_size + 1) 0 (omega arith) (omega arith))

-- With chunks of at least 12 bytes, `kr_check_page` accepts a page exactly when the directory ends
-- at a chunk's end and well-formed records tile the page from its start to the directory's end.
pub check_page-Tiles :
    (l : Layout) (i_size index : ℕ) (p : Page)
    → 12 ≤ l.chunk_size
    → (check_page l i_size index p ≡ valid) ↔ (
        EndsAtChunk l i_size index
        × ((ds : List Dirent) × Tiles l p (page_limit i_size index) 0 ds))
check_page-Tiles l i_size index p h = (
  λ e.
      let a = check_page-EndsAtChunk l i_size index p (λ bad. cc) in
      (
        a,
        (walk-Tiles l p (page_limit i_size index) (limit_cases l i_size index h a)).0
            (sym (check_page-walk l i_size index p a) ∙ e),
      ),
  λ (a, c).
      check_page-walk l i_size index p a
      ∙ (walk-Tiles l p (page_limit i_size index) (limit_cases l i_size index h a)).1 c,
)

-- With chunks of at least 12 bytes, `kr_check_page` comes to an end on every page: the fuel of one
-- round for each byte is enough.
pub check_page-total :
    (l : Layout) (i_size index : ℕ) (p : Page)
    → 12 ≤ l.chunk_size
    → check_page l i_size index p ≢ no_fuel
check_page-total l i_size index p h e =
    let a = check_page-EndsAtChunk l i_size index p (λ bad. cc) in
    walk-total l p (page_limit i_size index) (limit_cases l i_size index h a)
      (sym (check_page-walk l i_size index p a) ∙ e)
