-- ===== src/Dir/Empty/Laws.antt =====
-- Which pages hold an empty directory (dir.c).
use k_rack.Common.{
  ℕ, zero, suc, ◌+◌, ◌-◌, ◌%◌, ◌≤◌, ◌<◌, ◌≡◌, refl, sym, ap, ◌∙◌, ◌≢◌, ◌↔◌, ◌⊎◌, inl, inr, Bool,
  true, ◌&&◌, some, List, [], ◌∷◌, arith, ltb, ◌==◌, ==_iff, Bool-cases, get_or, take, sub32_lem,
}
use native.Mathlib.Nat.{div-eq_of_lt}
use k_rack.Dir.Entry.{Dirent, Qstr, Page, page_size, match_name, set_de_type}
use k_rack.Dir.Inode.{Super, layout}
use k_rack.Dir.Check.{Layout}
use k_rack.Dir.Insert.View.{AllNamed}
use k_rack.Dir.Check.Chain.{Tiles, Tiles-le}
use k_rack.Dir.Search.View.{find_in}
use k_rack.Dir.Empty.{dot, is_dot_entry, empty_from, empty_page, dot_entries}

abbrev pub all_dots : ℕ → List Dirent → Bool
all_dots ino [] = true
all_dots ino (de ∷ ds) = is_dot_entry ino de && all_dots ino ds

empty_from-all_dots :
    (l : Layout) (ino : ℕ) (p : Page) (limit fuel o : ℕ) (ds : List Dirent)
    → 12 ≤ limit
    → limit < fuel + o
    → Tiles l p limit o ds
    → empty_from fuel ino p (limit - 12) o ≡ some (all_dots ino ds)
unfolding empty_from
empty_from-all_dots l ino p limit zero o ds b h t =
    absurd (omega (arith, Tiles-le l p limit o ds t))
empty_from-all_dots l ino p limit (suc fuel) o [] b h t = ground arith
empty_from-all_dots l ino p limit (suc fuel) o (de ∷ ds) b h (e, i, t) = ground (
  arith,
  Tiles-le l p limit (o + de.rec_len) ds t,
  empty_from-all_dots l ino p limit fuel (o + de.rec_len) ds b (omega arith) t,
)

-- A free entry, "." of this directory, or "..", by the bytes of the name.
abbrev pub Dots : ℕ → Dirent → Type 0
Dots ino de =
    (de.inode ≡ 0)
    ⊎ (((de.name_len ≡ 1) × (take 1 de.name ≡ dot ∷ []) × (de.inode ≡ ino))
        ⊎ ((de.name_len ≡ 2) × (take 2 de.name ≡ dot ∷ dot ∷ [])))

abbrev pub AllDots : ℕ → List Dirent → Type 0
AllDots ino [] = Unit {0}
AllDots ino (de ∷ ds) = Dots ino de × AllDots ino ds

-- The bytes that the code looks at are those of the name.
take_1 : (n : List ℕ) → (get_or n 0 0 ≡ dot) ↔ (take 1 n ≡ dot ∷ [])
take_1 [] = (λ e. absurd (omega arith), λ e. absurd (cc e))
take_1 (x ∷ n) = (λ e. ap (λ y. y ∷ []) e, λ e. cc e)

take_2 : (n : List ℕ) → ((get_or n 0 0 ≡ dot) × (get_or n 1 0 ≡ dot)) ↔ (take 2 n ≡ dot ∷ dot ∷ [])
take_2 [] = (λ e. absurd (omega arith), λ e. absurd (cc e))
take_2 (x ∷ []) = (λ e. absurd (omega arith), λ e. absurd (cc e))
take_2 (x ∷ y ∷ n) = (λ (e, f). cc (e, f), λ e. (cc e, cc e))

is_dot_entry-Dots :
    (ino : ℕ) (de : Dirent)
    → (de.inode ≢ 0 → 0 < de.name_len)
    → (is_dot_entry ino de ≡ true) ↔ Dots ino de
unfolding is_dot_entry
is_dot_entry-Dots ino de named = (there, back)
  where
    there : is_dot_entry ino de ≡ true → Dots ino de
    there e = elim (Bool-cases (de.inode == 0)) [
      | inl free ↦ inl ((==_iff de.inode 0).0 free)
      | inr live ↦ elim (Bool-cases (ltb de.name_len 2)) [
        | inl short ↦ inr (
            inl (
              ground (arith, named, live, short),
              (take_1 de.name).0 (ground (arith, e, live)),
              ground (arith, e, live, short),
            ))
        | inr long ↦ inr (
            inr (
              ground (arith, e, live, long),
              (take_2 de.name).0 (ground (arith, e, live), ground (arith, e, live, long)),
            ))
      ]
    ]

    back : Dots ino de → is_dot_entry ino de ≡ true
    back (inl free) = ground (arith, free)
    back (inr (inl (len, name, here))) = ground (arith, len, here, (take_1 de.name).1 name)
    back (inr (inr (len, name))) =
        let (first, second) = (take_2 de.name).1 name in ground (arith, len, first, second)

all_dots-AllDots :
    (ino : ℕ) (ds : List Dirent) → AllNamed ds → (all_dots ino ds ≡ true) ↔ AllDots ino ds
all_dots-AllDots ino [] h = (λ e. tt, λ d. refl)
all_dots-AllDots ino (de ∷ ds) (n, h) =
    let (f, g) = is_dot_entry-Dots ino de n in
    let (f', g') = all_dots-AllDots ino ds h in
    (λ e. (f (ground (arith, e)), f' (ground (arith, e))), λ (d, r). ground (arith, g d, g' r))

-- On a page with an entry that `kr_check_page` accepts, each live entry of which has a name, the
-- loop of `kr_empty_dir` comes to an end, and finds the page empty exactly if every live entry of
-- it is named "." and has the inode number of this directory, or is named "..".
pub empty_page-AllDots :
    (l : Layout) (ino : ℕ) (p : Page) (last : ℕ) (ds : List Dirent)
    → 12 ≤ last
    → last ≤ page_size
    → Tiles l p last 0 ds
    → AllNamed ds
    → (b : Bool) × (empty_page ino p last ≡ some b) × ((b ≡ true) ↔ AllDots ino ds)
unfolding empty_page
empty_page-AllDots l ino p last ds big small t named = (
  all_dots ino ds,
  rw (sub32_lem last 12 big (omega arith))
      (empty_from-all_dots l ino p last (page_size + 1) 0 ds big (omega arith) t),
  all_dots-AllDots ino ds named,
)

abbrev dot_name : Qstr
dot_name = record { name = dot ∷ []; len = 1 }

abbrev dotdot_name : Qstr
dotdot_name = record { name = dot ∷ dot ∷ []; len = 2 }

abbrev pub Fresh : Super → ℕ → ℕ → ℕ → Page → List Dirent → Type 0
Fresh sb ino mode parent p ds =
    Tiles (layout sb) (dot_entries sb ino mode parent p) sb.chunk_size 0 ds
    × (find_in dot_name ds ≡ some ino)
    × (find_in dotdot_name ds ≡ some parent)
    × (all_dots ino ds ≡ true)

-- With a chunk size that is a multiple of 4 and has room for two entries, and the two inode numbers
-- in range, the first chunk that `kr_make_empty` writes is accepted by `kr_check_page`, holds "."
-- for the directory and ".." for its parent, and is empty.
pub dot_entries-Fresh :
    (sb : Super) (ino mode parent : ℕ) (p : Page)
    → 24 ≤ sb.chunk_size
    → sb.chunk_size % 4 ≡ 0
    → ino ≢ 0
    → parent ≢ 0
    → ino ≤ sb.inodes_count
    → parent ≤ sb.inodes_count
    → (ds : List Dirent) × Fresh sb ino mode parent p ds
unfolding dot_entries match_name is_dot_entry set_de_type
dot_entries-Fresh sb ino mode parent p big a z z' k k' = (
  p' 0 ∷ p' 12 ∷ [],
  (
    (
      refl,
      record {
        long = omega arith;
        aligned = omega arith;
        room = omega arith;
        within = div-eq_of_lt (omega arith) ∙ sym (div-eq_of_lt (omega arith));
        inumber = k;
      },
      (
        refl,
        record {
          long = omega arith;
          aligned = omega arith;
          room = omega arith;
          within = div-eq_of_lt (omega arith) ∙ sym (div-eq_of_lt (omega arith));
          inumber = k';
        },
        omega arith,
      ),
    ),
    ground arith,
    ground arith,
    ground arith,
  ),
)
  where
    p' : Page
    p' = dot_entries sb ino mode parent p
