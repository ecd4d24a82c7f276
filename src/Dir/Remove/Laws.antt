-- ===== src/Dir/Remove/Laws.antt =====
-- What kr_delete_entry (dir.c) does to the names of a page.
use k_rack.Common.{
  ℕ, ◌+◌, ◌-◌, ◌/◌, ◌≤◌, ◌<◌, ◌≡◌, refl, sym, ap, ◌∙◌, inl, inr, Option, none, some, List, [], ◌∷◌,
  ◌++◌, arith,
}
use k_rack.Dir.Entry.{Dirent, Qstr, Page, page_size, store}
use k_rack.Dir.Check.{Layout}
use k_rack.Dir.Check.Chain.{IsEntry, Tiles, Tiles-le}
use k_rack.Dir.Search.View.{find_in}
use k_rack.Dir.Insert.View.{store-Tiles, div-squeeze, match_name-resize, match_name-free}
use k_rack.Dir.Remove.{at, prev_from, chunk_start, unlink}
use k_rack.Dir.Remove.View.{
  store_behind-Tiles, Tiles-append, split_at_chunk, find_in-append, prev_from-Last,
}
use native.Mathlib.Nat.{div-mul-le_self, mul-div_cancel, mul-mod_left}
use mathlib.Core.List.{append_assoc}

-- The page after the entry at `o` is taken out from between two parts.
abbrev pub Removed : Layout → Page → ℕ → List Dirent → List Dirent → Page → Type 0
Removed l p limit before after p' =
    (ds' : List Dirent) × Tiles l p' limit 0 ds'
    × ((r : Qstr) → find_in r ds' ≡ find_in r (before ++ after))

module _ (l : Layout) (p : Page) (limit o : ℕ) (before after : List Dirent) (i : IsEntry l (p o) o)
    (rest : Tiles l p limit (o + (p o).rec_len) after) where
  -- The first entry of its chunk stays as a free record.
  remove_first : Tiles l p o 0 before → Removed l p limit before after (unlink p o none)
  unfolding unlink
  remove_first t = (
    before ++ (free ∷ after),
    Tiles-append l (store p o free) limit o 0 before (free ∷ after)
        (store_behind-Tiles l p o 0 o free before (omega arith) t)
        (
          ground arith,
          record {
            long = i.long;
            aligned = i.aligned;
            room = i.room;
            within = i.within;
            inumber = omega arith;
          },
          store-Tiles l p limit (o + (p o).rec_len) o free after (omega (arith, i.long)) rest,
        ),
    λ r. find_in-append r before (free ∷ after) after (ground (arith, match_name-free r free refl)),
  )
    where
      free : Dirent
      free = record (p o) { inode = 0 }

  -- Any other entry is merged into the one before it.
  remove_merged :
      (k : ℕ) (b : List Dirent)
      → before ≡ b ++ (p k ∷ [])
      → Tiles l p k 0 b
      → IsEntry l (p k) k
      → k + (p k).rec_len ≡ o
      → k / l.chunk_size ≡ o / l.chunk_size
      → Removed l p limit before after (unlink p o (some k))
  unfolding unlink
  remove_merged k b q t ik e same = (
    b ++ (merged ∷ after),
    Tiles-append l p' limit k 0 b (merged ∷ after)
        (store_behind-Tiles l p1 k 0 o _ b (omega arith)
          (store_behind-Tiles l p k 0 k merged b (omega arith) t))
        (
          ground (arith, ik.long),
          record {
            long = omega (arith, i.long);
            aligned = omega (arith, i.aligned, ik.aligned);
            room = omega (arith, ik.room);
            within = rw end_of (i.within ∙ sym same);
            inumber = ik.inumber;
          },
          rw end_of (
              store-Tiles l p1 limit (o + (p o).rec_len) o _ after (omega (arith, i.long)) (
                store-Tiles l p limit (o + (p o).rec_len) k merged after (omega (arith, i.long))
                  rest)),
        ),
    λ r.
        rw (q, append_assoc)
          (find_in-append r b (merged ∷ after) (p k ∷ after)
            (ground (arith, match_name-resize r (p k) merged.rec_len))),
  )
    where
      merged : Dirent
      merged = record (p k) { rec_len = o + (p o).rec_len - k }

      p1 : Page
      p1 = store p k merged

      p' : Page
      p' = store p1 o (record (p1 o) { inode = 0 })

      end_of : k + (o + (p o).rec_len - k) ≡ o + (p o).rec_len
      end_of = omega (arith, ik.long)

start_div : (k o : ℕ) → 0 < k → chunk_start k o / k ≡ o / k
start_div k o h = mul-div_cancel (o / k) h

-- On a page that `kr_check_page` accepts, with chunks of at least one byte, the walk of
-- `kr_delete_entry` from the chunk's start to an entry of the page ends at that entry, and after
-- the removal the page is still accepted up to the same end; a search finds there what it finds
-- among the other entries, in their order.
pub delete-removes :
    (l : Layout) (p : Page) (limit o : ℕ) (before after : List Dirent)
    → 0 < l.chunk_size
    → limit ≤ page_size
    → Tiles l p o 0 before
    → IsEntry l (p o) o
    → Tiles l p limit (o + (p o).rec_len) after
    → (pde : Option ℕ) × (prev_from (page_size + 1) p o (chunk_start l.chunk_size o) none ≡ at pde)
      × Removed l p limit before after (unlink p o pde)
delete-removes l p limit o before after ch small t i rest =
    let o-le = Tiles-le l p limit (o + (p o).rec_len) after rest in
    let c = chunk_start l.chunk_size o in
    let (b1, b2, q, u, v) =
      split_at_chunk l p o 0 c before ch (mul-mod_left (o / l.chunk_size) l.chunk_size)
        (omega arith) (div-mul-le_self o l.chunk_size) t in
    elim (prev_from-Last l p o (page_size + 1) c b2 none (omega (arith, i.long)) v) [
      | inl (r, e) ↦ (none, r, remove_first l p limit o before after i rest t)
      | inr (k, r, (b, q', w, ik, e, le)) ↦ (
        some k,
        r,
        remove_merged l p limit o before after i rest k (b1 ++ b)
            (q ∙ ap (λ x. b1 ++ x) q' ∙ sym (append_assoc b1 b (p k ∷ [])))
            (Tiles-append l p k c 0 b1 b u w) ik e
            (div-squeeze l.chunk_size c k o ch le (omega (arith, ik.long))
                (sym (start_div l.chunk_size o ch))
              ∙ start_div l.chunk_size o ch),
      )
    ]
