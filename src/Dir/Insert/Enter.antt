-- ===== src/Dir/Insert/Enter.antt =====
-- The write of kr_add_link keeps the records of a page in a row and adds one name to them.
use k_rack.Common.{
  ℕ, zero, suc, ◌+◌, ◌-◌, ◌/◌, ◌%◌, ◌≤◌, ◌<◌, ◌≡◌, refl, sym, subst, ◌∙◌, ◌≢◌, ◌⊎◌, inl, inr, Bool,
  true, false, List, [], ◌∷◌, arith, if◌then◌else◌, length,
}
use k_rack.Dir.Entry.{Dirent, Qstr, Page, dir_rec_len, match_name, set_de_type}
use k_rack.Dir.Check.{Layout}
use k_rack.Dir.Check.Chain.{IsEntry, Tiles, Tiles-le}
use k_rack.Dir.Insert.Room.{got, Child, place_from, has_room, open_end, named, fill}
use native.Mathlib.Decide.{ℕ_discrete}
use k_rack.Dir.Insert.View.{
  match_name-same, match_name-named, div-squeeze, chunk_end, inode-named, match_name-free,
  match_name-resize, Enters, AllNamed, Fits,
}

module _ (l : Layout) (ft : Bool) (q : Qstr) (child : Child) where
  step :
      (de : Dirent) (ds ds' : List Dirent)
      → match_name q de ≡ false
      → Enters q child.i_ino ds ds'
      → Enters q child.i_ino (de ∷ ds) (de ∷ ds')
  step de ds ds' h e r = ground (arith, e r, match_name-same q r de)

  module _ (named_child : child.i_ino ≢ 0) (known : child.i_ino ≤ l.max_inumber)
      (long : q.len ≤ length q.name) (p : Page) where
    -- The new entry in place of a free one.
    reuse_Enters :
        (o : ℕ) (ds : List Dirent)
        → (p o).inode ≡ 0
        → Enters q child.i_ino (p o ∷ ds) (named ft q child (p o) ∷ ds)
    reuse_Enters o ds e r = ground (
      arith,
      inode-named ft q child (p o),
      match_name-named ft q r child (p o),
      match_name-free r (p o),
    )

    split_Enters :
        (de x : Dirent) (rec_len : ℕ) (ds : List Dirent)
        → match_name q de ≡ false
        → Enters q child.i_ino (de ∷ ds) (record de { rec_len = rec_len } ∷ named ft q child x ∷ ds)
    split_Enters de x rec_len ds e r = ground (
      arith,
      inode-named ft q child x,
      match_name-named ft q r child x,
      match_name-same q r de,
      match_name-resize r de rec_len,
    )

    place_from-le :
        (fuel chunk dir_end o k nl rl : ℕ) (b : Bool)
        → place_from fuel q p chunk dir_end o ≡ got k nl rl b
        → o ≤ k
    unfolding place_from
    place_from-le zero chunk dir_end o k nl rl b h = absurd (cc)
    place_from-le (suc fuel) chunk dir_end o k nl rl b h =
        ground (arith, place_from-le fuel chunk dir_end (o + (p o).rec_len) k nl rl b)

    -- What a write at `k` leaves alone.
    abbrev pub written : ℕ → ℕ → ℕ → Bool → Page
    written k nl rl b = fill ft q child (open_end p k rl b) k nl rl

    written_before : (o k nl rl : ℕ) (b : Bool) → o < k → written k nl rl b o ≡ p o
    unfolding fill open_end
    written_before o k nl rl b h = ground arith

    written_behind :
        (limit o k nl rl : ℕ) (b : Bool) (ds : List Dirent)
        → k + nl < o
        → k < o
        → Tiles l p limit o ds
        → Tiles l (written k nl rl b) limit o ds
    unfolding fill open_end
    written_behind limit o k nl rl b [] h h' t = t
    written_behind limit o k nl rl b (de ∷ ds) h h' (e, i, t) = (
      ground arith,
      i,
      written_behind limit (o + de.rec_len) k nl rl b ds (omega arith) (omega arith) t,
    )

    free_behind :
        (limit o k nl rl : ℕ) (b : Bool) (ds : List Dirent)
        → (open_end p k rl b k).inode ≡ 0
        → k < o
        → Tiles l p limit o ds
        → Tiles l (written k nl rl b) limit o ds
    unfolding fill open_end
    free_behind limit o k nl rl b [] z h t = t
    free_behind limit o k nl rl b (de ∷ ds) z h (e, i, t) =
        (ground arith, i, free_behind limit (o + de.rec_len) k nl rl b ds z (omega arith) t)

    -- What a write at `k` does to the entries from `o` on, and where they end.
    abbrev pub Entered : ℕ → ℕ → ℕ → Bool → ℕ → ℕ → List Dirent → Type 0
    Entered k nl rl b limit o ds =
        (ds' : List Dirent) × Tiles l (written k nl rl b) limit o ds' × Enters q child.i_ino ds ds'

    named-IsEntry :
        (o : ℕ) (x : Dirent)
        → 12 ≤ x.rec_len
        → x.rec_len % 4 ≡ 0
        → dir_rec_len q.len ≤ x.rec_len
        → (o + x.rec_len - 1) / l.chunk_size ≡ o / l.chunk_size
        → IsEntry l (named ft q child x) o
    unfolding named set_de_type
    named-IsEntry o x a b c d = ground arith

    rec_len-named : (x : Dirent) → (named ft q child x).rec_len ≡ x.rec_len
    unfolding named set_de_type
    rec_len-named x = refl

    reuse :
        (limit o nl rl : ℕ) (ds : List Dirent)
        → (p o).inode ≡ 0
        → IsEntry l (p o) o
        → dir_rec_len q.len ≤ (p o).rec_len
        → Tiles l p limit (o + (p o).rec_len) ds
        → Entered o nl rl false limit o (p o ∷ ds)
    unfolding fill open_end
    reuse limit o nl rl ds z i fits t = (
      named ft q child (p o) ∷ ds,
      (
        ground arith,
        named-IsEntry o (p o) i.long i.aligned fits i.within,
        rw rec_len-named (free_behind limit (o + (p o).rec_len) o nl rl false ds z (omega arith) t),
      ),
      reuse_Enters o ds z,
    )

    at_end :
        (o rl : ℕ)
        → o % l.chunk_size ≡ 0
        → rl ≡ l.chunk_size
        → l.chunk_size % 4 ≡ 0
        → 12 ≤ l.chunk_size
        → dir_rec_len q.len ≤ l.chunk_size
        → Entered o 0 rl true (o + rl) o []
    unfolding fill open_end
    at_end o rl m e a big fits = (
      named ft q child (record (p o) { rec_len = rl; inode = 0 }) ∷ [],
      (
        ground arith,
        named-IsEntry o (record (p o) { rec_len = rl; inode = 0 }) (omega arith) (rw e a)
            (omega arith) (rw e (chunk_end o l.chunk_size (omega arith) m)),
        rw rec_len-named,
      ),
      λ r. ground (
        arith,
        inode-named ft q child (record (p o) { rec_len = rl; inode = 0 }),
        match_name-named ft q r child (record (p o) { rec_len = rl; inode = 0 }),
      ),
    )

    split :
        (limit o : ℕ) (ds : List Dirent)
        → 0 < l.chunk_size
        → (p o).inode ≢ 0
        → IsEntry l (p o) o
        → match_name q (p o) ≡ false
        → dir_rec_len (p o).name_len + dir_rec_len q.len ≤ (p o).rec_len
        → 0 < q.len
        → 0 < (p o).name_len
        → Tiles l p limit (o + (p o).rec_len) ds
        → Entered o (dir_rec_len (p o).name_len) (p o).rec_len false limit o (p o ∷ ds)
    unfolding fill open_end
    split limit o ds ch z i m fits qpos npos t = (
      record (p o) { rec_len = nl } ∷ named ft q child x ∷ ds,
      (
        ground arith,
        record {
          long = omega arith;
          aligned = omega arith;
          room = omega arith;
          within =
              div-squeeze l.chunk_size o (o + nl - 1) (o + (p o).rec_len - 1) ch (omega arith)
                (omega arith) i.within;
          inumber = i.inumber;
        },
        (
          ground arith,
          named-IsEntry (o + nl) x (omega arith) (omega (arith, i.aligned)) (omega arith)
              (tail_within),
          rw (rec_len-named x, end)
              (written_behind limit (o + (p o).rec_len) o nl (p o).rec_len false ds (omega arith)
                (omega arith) t),
        ),
      ),
      split_Enters (p o) x nl ds m,
    )
      where
        nl : ℕ
        nl = dir_rec_len (p o).name_len

        x : Dirent
        x = record (p (o + nl)) { rec_len = (p o).rec_len - nl }

        end : o + nl + ((p o).rec_len - nl) ≡ o + (p o).rec_len
        end = omega arith

        tail_within : (o + nl + ((p o).rec_len - nl) - 1) / l.chunk_size ≡ (o + nl) / l.chunk_size
        tail_within = rw end (
            i.within
            ∙ sym (
                div-squeeze l.chunk_size o (o + nl) (o + (p o).rec_len - 1) ch (omega arith)
                  (omega arith) i.within))

    got_at_end :
        (fuel limit k nl rl : ℕ) (b : Bool)
        → place_from fuel q p l.chunk_size limit limit ≡ got k nl rl b
        → (k ≡ limit) × (nl ≡ 0) × (rl ≡ l.chunk_size) × (b ≡ true)
    unfolding place_from
    got_at_end zero limit k nl rl b h = absurd (cc)
    got_at_end (suc fuel) limit k nl rl b h = ground arith

    got_here :
        (fuel limit o k nl rl : ℕ) (b : Bool)
        → o ≢ limit
        → place_from (suc fuel) q p l.chunk_size limit o ≡ got k nl rl b
        → (match_name q (p o) ≡ false)
          × (((has_room q (p o) ≡ true)
                × (k ≡ o)
                × (nl ≡ dir_rec_len (p o).name_len)
                × (rl ≡ (p o).rec_len)
                × (b ≡ false))
              ⊎ (place_from fuel q p l.chunk_size limit (o + (p o).rec_len) ≡ got k nl rl b))
    unfolding place_from
    got_here fuel limit o k nl rl b ne h = ground arith

    enter_here :
        (limit o : ℕ) (ds : List Dirent)
        → Fits l q limit
        → IsEntry l (p o) o
        → ((p o).inode ≢ 0 → 0 < (p o).name_len)
        → match_name q (p o) ≡ false
        → has_room q (p o) ≡ true
        → Tiles l p limit (o + (p o).rec_len) ds
        → Entered o (dir_rec_len (p o).name_len) (p o).rec_len false limit o (p o ∷ ds)
    unfolding has_room
    enter_here limit o ds f i n m r t = elim (ℕ_discrete (p o).inode 0) [
      | yes z ↦ reuse limit o (dir_rec_len (p o).name_len) (p o).rec_len ds z i (ground arith) t
      | no z ↦ split limit o ds (omega (arith, f.long)) z i m (ground arith) f.nonempty (n z) t
    ]

    abbrev pub end_of : ℕ → ℕ → Bool → ℕ
    end_of limit rl b = if b then limit + rl else limit

    enter_link :
        (fuel limit o : ℕ) (ds : List Dirent) (k nl rl : ℕ) (b : Bool)
        → Fits l q limit
        → ((p o).inode ≢ 0 → 0 < (p o).name_len)
        → IsEntry l (p o) o
        → Tiles l p limit (o + (p o).rec_len) ds
        → place_from (suc fuel) q p l.chunk_size limit o ≡ got k nl rl b
        → (place_from fuel q p l.chunk_size limit (o + (p o).rec_len) ≡ got k nl rl b
            → Entered k nl rl b (end_of limit rl b) (o + (p o).rec_len) ds)
        → Entered k nl rl b (end_of limit rl b) o (p o ∷ ds)
    enter_link fuel limit o ds k nl rl b f n i t h rest =
        let o<limit = Tiles-le l p limit (o + (p o).rec_len) ds t in
        let (m, cases) = got_here fuel limit o k nl rl b (omega (arith, i.long)) h in
        elim cases [
          | inl (r, ek, enl, erl, eb) ↦ rw (ek, enl, erl, eb) (enter_here limit o ds f i n m r t)
          | inr h' ↦
              let (ds', t', law) = rest h' in
              let k-le = place_from-le fuel l.chunk_size limit (o + (p o).rec_len) k nl rl b h' in
              (
                p o ∷ ds',
                (written_before o k nl rl b (omega (arith, i.long)), i, t'),
                step (p o) ds ds' m law,
              )
        ]

    pub enter :
        (fuel limit o : ℕ) (ds : List Dirent) (k nl rl : ℕ) (b : Bool)
        → Fits l q limit
        → AllNamed ds
        → Tiles l p limit o ds
        → place_from fuel q p l.chunk_size limit o ≡ got k nl rl b
        → Entered k nl rl b (end_of limit rl b) o ds
    unfolding place_from
    enter zero limit o ds k nl rl b f n t h = absurd (cc)
    enter (suc fuel) limit o [] k nl rl b f n t h =
        let (ek, enl, erl, eb) =
          got_at_end (suc fuel) limit k nl rl b
            (subst (λ x. place_from (suc fuel) q p l.chunk_size limit x ≡ got k nl rl b) t h) in
        subst (λ x. Entered k nl rl b (end_of limit rl b) x []) (sym t)
          (rw (ek, enl, eb) (at_end limit rl f.whole erl f.aligned f.long f.room))
    enter (suc fuel) limit o (de ∷ ds) k nl rl b f n (e, i, t) h =
        subst (λ x. Entered k nl rl b (end_of limit rl b) o (x ∷ ds)) e
          (enter_link fuel limit o ds k nl rl b f
            (subst (λ (x : Dirent). x.inode ≢ 0 → 0 < x.name_len) (sym e) n.0)
            (subst (λ x. IsEntry l x o) (sym e) i) t' h
            (λ h'. enter fuel limit (o + (p o).rec_len) ds k nl rl b f n.1 t' h'))
      where
        t' : Tiles l p limit (o + (p o).rec_len) ds
        t' = subst (λ (x : Dirent). Tiles l p limit (o + x.rec_len) ds) (sym e) t
