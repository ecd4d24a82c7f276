-- ===== src/Balloc/Search/Laws.antt =====
-- The search for a usable block finds one exactly if there is one.
use k_rack.Common.{
  ℕ, ◌+◌, ◌-◌, ◌*◌, ◌/◌, ◌≤◌, ◌<◌, ◌≡◌, ap, ◌∙◌, ◌⊎◌, inl, inr, true, false, ◌&&◌, none, some,
  arith, ltb, leb, if◌then◌else◌, ltb→lt, leb→le, le→leb, Bool-cases, Bitmap, FindsZero,
}
use k_rack.Balloc.Search.{bitmap_search_next_usable_block, search_bytes, find_next_usable_block}

-- What the kernel documents of `memscan` for a zero byte: the byte it stops at below the end is
-- zero.
pub record ScansBytes (scan : Bitmap → ℕ → ℕ → ℕ) : Type 0 where
  pub zero_byte :
      (b : Bitmap) (first count k : ℕ)
      → scan b first count < first + count
      → k < 8
      → b (scan b first count * 8 + k) ≡ false

pub search_next :
    (next_zero : Bitmap → ℕ → ℕ → ℕ)
    → FindsZero next_zero
    → (start : ℕ) (b : Bitmap) (maxblocks : ℕ)
    → ((r : ℕ) × (bitmap_search_next_usable_block next_zero start b maxblocks ≡ some r)
        × (start ≤ r)
        × (r < maxblocks)
        × (b r ≡ false))
      ⊎ ((bitmap_search_next_usable_block next_zero start b maxblocks ≡ none)
          × ((k : ℕ) → start ≤ k → k < maxblocks → b k ≡ true))
unfolding bitmap_search_next_usable_block
search_next next_zero finds start b maxblocks =
    let next = next_zero b maxblocks start in
    elim (Bool-cases (leb maxblocks next)) [
      | inl out ↦ inr (
        ground arith,
        λ k p q. finds.first b maxblocks start k p q (ground (arith, leb→le maxblocks next)),
      )
      | inr found ↦
          let below : next < maxblocks = ground (arith, le→leb maxblocks next) in
          inl (
            next,
            ground arith,
            finds.from_start b maxblocks start below,
            below,
            finds.clear b maxblocks start below,
          )
    ]

search_bytes-usable :
    (next_zero scan : Bitmap → ℕ → ℕ → ℕ)
    → FindsZero next_zero
    → ScansBytes scan
    → (here : ℕ) (b : Bitmap) (maxblocks : ℕ)
    → ((r : ℕ) × (search_bytes next_zero scan here b maxblocks ≡ some r)
        × (here ≤ r)
        × (r < maxblocks)
        × (b r ≡ false))
      ⊎ ((search_bytes next_zero scan here b maxblocks ≡ none)
          × ((k : ℕ) → here ≤ k → k < maxblocks → b k ≡ true))
unfolding search_bytes
search_bytes-usable next_zero scan finds scans here b maxblocks =
    let byte = scan b (here / 8) ((maxblocks + 7) / 8 - here / 8) in
    elim (Bool-cases (ltb (byte * 8) maxblocks && leb here (byte * 8))) [
      | inl found ↦
          let low : here ≤ byte * 8 = ground (arith, leb→le here (byte * 8)) in
          let high : byte * 8 < maxblocks = ground (arith, ltb→lt (byte * 8) maxblocks) in
          inl (
            byte * 8,
            ground arith,
            low,
            high,
            ap b (omega arith)
                ∙ scans.zero_byte b (here / 8) ((maxblocks + 7) / 8 - here / 8) 0 (omega arith)
                    (omega arith),
          )
      | inr out ↦ elim (search_next next_zero finds here b maxblocks) [
        | inl (r, e, low, high, z) ↦ inl (r, ground (arith, e), low, high, z)
        | inr (e, rest) ↦ inr (ground (arith, e), rest)
      ]
    ]

-- With a working bit search and byte search, the search ends with a clear bit between `start` and
-- `maxblocks` if there is one, and else with none.
pub find_next_usable_block-usable :
    (next_zero scan : Bitmap → ℕ → ℕ → ℕ)
    → FindsZero next_zero
    → ScansBytes scan
    → (start : ℕ) (b : Bitmap) (maxblocks : ℕ)
    → ((r : ℕ) × (find_next_usable_block next_zero scan start b maxblocks ≡ some r)
        × (start ≤ r)
        × (r < maxblocks)
        × (b r ≡ false))
      ⊎ ((find_next_usable_block next_zero scan start b maxblocks ≡ none)
          × ((k : ℕ) → start ≤ k → k < maxblocks → b k ≡ true))
unfolding find_next_usable_block
find_next_usable_block-usable next_zero scan finds scans start b maxblocks =
    let rounded = (start + 63) / 64 * 64 in
    let end_goal = if ltb maxblocks rounded then maxblocks else rounded in
    let here = next_zero b end_goal start in
    elim (Bool-cases (ltb 0 start && ltb here end_goal)) [
      | inl near ↦ inl (
        here,
        ground arith,
        finds.from_start b end_goal start (ground (arith, ltb→lt here end_goal)),
        ground (arith, ltb→lt here end_goal, ltb→lt maxblocks rounded),
        finds.clear b end_goal start (ground (arith, ltb→lt here end_goal)),
      )
      | inr far ↦ elim (search_bytes-usable next_zero scan finds scans start b maxblocks) [
        | inl (r, e, low, high, z) ↦ inl (r, ground (arith, e), low, high, z)
        | inr (e, rest) ↦ inr (ground (arith, e), rest)
      ]
    ]
