-- ===== src/Dir/Insert/View.antt =====
-- Entering a name, seen on the list of a page's entries: names, records and chunks.
use k_rack.Common.{
  ℕ, zero, suc, ◌+◌, ◌-◌, ◌/◌, ◌%◌, ◌≤◌, ◌<◌, ◌≡◌, refl, ap, ◌≢◌, inl, inr, Bool, true, false, ◌&&◌,
  some, List, [], ◌∷◌, ◌++◌, arith, ◌==◌, if◌then◌else◌, Bool-cases, length, take, drop,
}
use k_rack.Dir.Entry.{Dirent, Qstr, Page, dir_rec_len, match_name, store, set_de_type, bytes_eq}
use k_rack.Dir.Check.{Layout}
use k_rack.Dir.Check.Chain.{Tiles}
use k_rack.Dir.Search.View.{find_in}
use k_rack.Dir.Insert.Room.{Child, named}
use native.Mathlib.Nat.{
  le-div_iff_mul-le, div-mul-le_self, le_trans, div-add-mod, add-mul, div-eq_of_lt-le,
}

-- A store below an offset is not seen from there on.
pub store-Tiles :
    (l : Layout) (p : Page) (limit o k : ℕ) (x : Dirent) (ds : List Dirent)
    → k < o
    → Tiles l p limit o ds
    → Tiles l (store p k x) limit o ds
store-Tiles l p limit o k x [] h t = t
store-Tiles l p limit o k x (de ∷ ds) h (e, i, t) =
    (ground arith, i, store-Tiles l p limit (o + de.rec_len) k x ds (omega arith) t)

-- Two names of one directory are the same.
abbrev pub same_name : Qstr → Qstr → Bool
same_name q r = r.len == q.len && bytes_eq (take r.len r.name) (take q.len q.name)

pub bytes_eq_sound : (xs ys : List ℕ) → bytes_eq xs ys ≡ true → xs ≡ ys
bytes_eq_sound [] [] h = refl
bytes_eq_sound [] (y ∷ ys) h = cc
bytes_eq_sound (x ∷ xs) [] h = cc
bytes_eq_sound (x ∷ xs) (y ∷ ys) h = ground (arith, bytes_eq_sound xs ys)

pub take-memcpy :
    (n : ℕ) (src ys : List ℕ) → n ≤ length src → take n (take n src ++ ys) ≡ take n src
take-memcpy zero src ys h = refl
take-memcpy (suc n) [] ys h = absurd (omega arith)
take-memcpy (suc n) (x ∷ src) ys h = ap (λ r. x ∷ r) (take-memcpy n src ys (omega arith))

pub match_name-same :
    (q r : Qstr) (de : Dirent) → same_name q r ≡ true → match_name r de ≡ match_name q de
unfolding match_name
match_name-same q r de h = ground (arith, bytes_eq_sound (take r.len r.name) (take q.len q.name))

pub match_name-named :
    (ft : Bool) (q r : Qstr) (child : Child) (de : Dirent)
    → child.i_ino ≢ 0
    → q.len ≤ length q.name
    → match_name r (named ft q child de) ≡ same_name q r
unfolding match_name named set_de_type
match_name-named ft q r child de h k = elim (Bool-cases (r.len == q.len)) [
  | inl e ↦ ground (arith, take-memcpy q.len q.name (drop q.len de.name) k)
  | inr e ↦ ground arith
]

pub div_mono : (k a b : ℕ) → 0 < k → a ≤ b → a / k ≤ b / k
div_mono k a b h p = (le-div_iff_mul-le h).1 (le_trans (div-mul-le_self a k) p)

pub div-squeeze : (k a b c : ℕ) → 0 < k → a ≤ b → b ≤ c → c / k ≡ a / k → b / k ≡ a / k
div-squeeze k a b c h p q e = omega (arith, div_mono k a b h p, div_mono k b c h q)

pub chunk_end : (m k : ℕ) → 0 < k → m % k ≡ 0 → (m + k - 1) / k ≡ m / k
chunk_end m k h e =
    div-eq_of_lt-le {k = m / k} k (omega (arith, div-mul-le_self m k))
      (omega (arith, div-add-mod m k, add-mul (m / k) 1 k))

pub inode-named :
    (ft : Bool) (q : Qstr) (child : Child) (x : Dirent) → (named ft q child x).inode ≡ child.i_ino
unfolding named set_de_type
inode-named ft q child x = refl

pub match_name-free : (r : Qstr) (de : Dirent) → de.inode ≡ 0 → match_name r de ≡ false
unfolding match_name
match_name-free r de e = ground arith

pub match_name-resize :
    (r : Qstr) (de : Dirent) (n : ℕ) → match_name r (record de { rec_len = n }) ≡ match_name r de
unfolding match_name
match_name-resize r de n = refl

-- The directory before and after `q` is entered for inode `ino`.
abbrev pub Enters : Qstr → ℕ → List Dirent → List Dirent → Type 0
Enters q ino ds ds' =
    (r : Qstr) → find_in r ds' ≡ (if same_name q r then some ino else find_in r ds)

-- Live entries have a name of at least one byte.
abbrev pub AllNamed : List Dirent → Type 0
AllNamed [] = Unit {0}
AllNamed (de ∷ ds) = (de.inode ≢ 0 → 0 < de.name_len) × AllNamed ds

-- What an insertion needs of the chunk size, of the name and of the directory's end.
pub record Fits (l : Layout) (q : Qstr) (limit : ℕ) : Type 0 where
  pub long : 12 ≤ l.chunk_size
  pub aligned : l.chunk_size % 4 ≡ 0
  pub room : dir_rec_len q.len ≤ l.chunk_size
  pub whole : limit % l.chunk_size ≡ 0
  pub nonempty : 0 < q.len
