-- ===== src/Dir/Remove/View.antt =====
-- Walks over parts of a page's list of entries, and stores that such a part does not see.
use k_rack.Common.{
  ℕ, zero, suc, ◌+◌, ◌-◌, ◌*◌, ◌/◌, ◌%◌, ◌≤◌, ◌<◌, ◌≡◌, refl, sym, ap, subst, ◌∙◌, ◌⊎◌, inl, inr,
  Option, none, some, List, [], ◌∷◌, ◌++◌, arith, if◌then◌else◌,
}
use k_rack.Dir.Entry.{Dirent, Qstr, Page, store, match_name}
use k_rack.Dir.Check.{Layout}
use k_rack.Dir.Check.Chain.{IsEntry, Tiles, Tiles-le}
use k_rack.Dir.Search.View.{find_in}
use k_rack.Dir.Remove.{at, prev_from}
use native.Mathlib.Nat.{div-add-mod', le-div_iff_mul-le}
use mathlib.Core.Path.{ap₂}
use native.Mathlib.Decide.{dec_lt, ℕ_discrete}

-- A store behind the end of a part is not seen in it.
pub store_behind-Tiles :
    (l : Layout) (p : Page) (limit o k : ℕ) (x : Dirent) (ds : List Dirent)
    → limit ≤ k
    → Tiles l p limit o ds
    → Tiles l (store p k x) limit o ds
store_behind-Tiles l p limit o k x [] h t = t
store_behind-Tiles l p limit o k x (de ∷ ds) h (e, i, t) =
    let le = Tiles-le l p limit (o + de.rec_len) ds t in
    (ground (arith, i.long), i, store_behind-Tiles l p limit (o + de.rec_len) k x ds h t)

pub Tiles-append :
    (l : Layout) (p : Page) (limit m o : ℕ) (ds es : List Dirent)
    → Tiles l p m o ds
    → Tiles l p limit m es
    → Tiles l p limit o (ds ++ es)
Tiles-append l p limit m o [] es t u = subst (λ x. Tiles l p limit x es) (sym t) u
Tiles-append l p limit m o (de ∷ ds) es (e, i, t) u =
    (e, i, Tiles-append l p limit m (o + de.rec_len) ds es t u)

-- A record that stays in its chunk ends before the next one starts.
stays_below : (k a b c : ℕ) → 0 < k → c % k ≡ 0 → a < c → b / k ≡ a / k → b < c
stays_below k a b c h m lt e = elim (dec_lt b c) [
  | yes p ↦ p
  | no p ↦
      let whole : c / k * k ≡ c = omega (arith, div-add-mod' c k) in
      let below : c / k ≤ b / k = (le-div_iff_mul-le h).1 (omega arith) in
      absurd (omega (arith, (le-div_iff_mul-le {x = c / k} {y = a} h).0 (omega arith)))
]

-- The part of a row of entries up to a chunk's first byte, and the part from there.
pub split_at_chunk :
    (l : Layout) (p : Page) (o a c : ℕ) (ds : List Dirent)
    → 0 < l.chunk_size
    → c % l.chunk_size ≡ 0
    → a ≤ c
    → c ≤ o
    → Tiles l p o a ds
    → (b1 b2 : List Dirent) × (ds ≡ b1 ++ b2) × Tiles l p c a b1 × Tiles l p o c b2
split_at_chunk l p o a c [] ch m le le' t = ([], [], refl, omega arith, omega arith)
split_at_chunk l p o a c (de ∷ ds) ch m le le' (e, i, t) = elim (ℕ_discrete a c) [
  | yes same ↦ ([], de ∷ ds, refl, same, subst (λ x. Tiles l p o x (de ∷ ds)) same (e, i, t))
  | no other ↦
      let lt : a + de.rec_len - 1 < c =
        stays_below l.chunk_size a (a + de.rec_len - 1) c ch m (omega arith) i.within in
      let (b1, b2, q, u, v) =
        split_at_chunk l p o (a + de.rec_len) c ds ch m (omega (arith, i.long)) le' t in
      (de ∷ b1, b2, ap (λ r. de ∷ r) q, (e, i, u), v)
]

pub find_in-append :
    (r : Qstr) (ds es fs : List Dirent)
    → find_in r es ≡ find_in r fs
    → find_in r (ds ++ es) ≡ find_in r (ds ++ fs)
find_in-append r [] es fs h = h
find_in-append r (de ∷ ds) es fs h =
    ap (λ x. if match_name r de then some de.inode else x) (find_in-append r ds es fs h)

-- The entry before the end of a part, if the part has one.
abbrev pub Last : Layout → Page → ℕ → ℕ → List Dirent → Option ℕ → Type 0
Last l p o c ds none = ds ≡ []
Last l p o c ds (some k) =
    (b : List Dirent) × (ds ≡ b ++ (p k ∷ []))
    × Tiles l p k c b
    × IsEntry l (p k) k
    × (k + (p k).rec_len ≡ o)
    × (c ≤ k)

pub prev_from-Last :
    (l : Layout) (p : Page) (o fuel a : ℕ) (ds : List Dirent) (pde : Option ℕ)
    → o < fuel + a
    → Tiles l p o a ds
    → (prev_from fuel p o a pde ≡ at pde) × (ds ≡ [])
      ⊎ ((k : ℕ) × (prev_from fuel p o a pde ≡ at (some k)) × Last l p o a ds (some k))
unfolding prev_from
prev_from-Last l p o zero a ds pde h t = absurd (omega (arith, Tiles-le l p o a ds t))
prev_from-Last l p o (suc fuel) a [] pde h t = inl (ground arith, refl)
prev_from-Last l p o (suc fuel) a (de ∷ ds) pde h (e, i, t) =
    let le = Tiles-le l p o (a + de.rec_len) ds t in
    elim (prev_from-Last l p o fuel (a + de.rec_len) ds (some a) (omega (arith, i.long)) t) [
      | inl (r, q) ↦ inr (
        a,
        ground (arith, i.long),
        (
          [],
          ap₂ (λ x xs. x ∷ xs) (sym e) q,
          refl,
          subst (λ x. IsEntry l x a) (sym e) i,
          ap (λ (x : Dirent). a + x.rec_len) e ∙ subst (Tiles l p o (a + de.rec_len)) q t,
          omega arith,
        ),
      )
      | inr (k, r, (b, q, u, ie, z, le')) ↦
          inr
            (k, ground (arith, i.long), (de ∷ b, ap (λ x. de ∷ x) q, (e, i, u), ie, z, omega arith))
    ]
