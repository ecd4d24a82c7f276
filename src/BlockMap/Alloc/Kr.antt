-- ===== src/BlockMap/Alloc/Kr.antt =====
-- kr_new_blocks and kr_free_blocks (balloc.c) keep what kr_alloc_blocks (inode.c) relies on.
use k_rack.Common.{
  ℕ, ◌+◌, ◌^◌, ◌≤◌, ◌<◌, ◌≡◌, refl, ap, ◌∙◌, ◌≢◌, inl, inr, Bool, true, false, not, ◌||◌, Option,
  none, some, arith, ltb, if◌then◌else◌, ltb→lt, lt→ltb, leb→le, ==_iff, Bool-cases, enospc, Bitmap,
  FindsZero,
}
use native.Mathlib.Decide.{ℕ_discrete}
use k_rack.Super.{SbInfo}
use k_rack.Super.Counts.{Consistent, data_blocks}
use k_rack.Balloc.Search.Laws.{ScansBytes}
use k_rack.Balloc.Free.{free_blocks}
use k_rack.Balloc.Free.Laws.{free_blocks-Consistent}
use k_rack.Balloc.Free.Used.{block_used}
use k_rack.Balloc.Free.Frame.{free_blocks-frame}
use k_rack.Balloc.Reserve.{RbTree, Windows, inorder, rsv_is_empty, init_block_alloc_info}
use k_rack.Balloc.Reserve.Search.{RbLaws}
use k_rack.Balloc.Window.Ok.{WindowsOk}
use k_rack.Balloc.Window.Members.{elem, put-Ordered}
use k_rack.Balloc.New.{NewBlocks, allocated, error, bug, spent, Caller, new_blocks}
use k_rack.Balloc.New.Group.{window_if}
use k_rack.Balloc.New.Laws.{Given}
use k_rack.Balloc.New.Fs.{FsOk}
use k_rack.Balloc.New.Outcome.{new_blocks-NewOk}
use k_rack.BlockMap.Alloc.{NewRun, given, refused, crashed, AllocOps}
use k_rack.BlockMap.Alloc.Laws.{GivenRun, NewRunOk, AllocLaws}
use k_rack.BlockMap.Write.Laws.{in_run}

-- The super block in memory and the windows.
pub record Space : Type 0 where
  pub sb : SbInfo
  pub windows : Windows

-- The answer as kr_alloc_blocks sees it.
abbrev pub answer : NewBlocks → NewRun Space
answer (allocated sb w block num) = given (record { sb = sb; windows = w }) block num
answer (error sb w err) = refused (record { sb = sb; windows = w }) err
answer bug = crashed
answer spent = crashed

-- A block counts as in use if it lies before the first group or its bitmap cannot be read.
abbrev bit_or_true : Option Bool → Bool
bit_or_true none = true
bit_or_true (some u) = u

abbrev pub used : Space → ℕ → Bool
used s x = if ltb x s.sb.s_first_data_block then true else bit_or_true (block_used s.sb x)

-- The file's window is `me`, and `head` that of no file.
abbrev pub kr_ops :
    RbTree → ℕ → (Bitmap → ℕ → ℕ → ℕ) → (Bitmap → ℕ → ℕ → ℕ) → Caller → Bool → AllocOps Space
kr_ops rb me next_zero scan who reservation = record {
  new = λ s has goal count.
      answer (new_blocks rb next_zero scan s.sb s.windows who none (window_if me has) goal count);
  free = λ s block num. record { sb = free_blocks s.sb block num; windows = s.windows };
  init =
      λ s. record { sb = s.sb; windows = (init_block_alloc_info true reservation s.windows me).0 };
}

abbrev pub InOrder : ℕ → Space → Type 0
InOrder head s = FsOk s.sb × WindowsOk head s.windows × (used s 0 ≡ true)

abbrev pub Counted : Space → Type 0
Counted s = Consistent data_blocks s.sb

abbrev pub NoWindow : ℕ → Space → Type 0
NoWindow me s = rsv_is_empty (s.windows.at me) ≡ true

module _ (rb : RbTree) (rb_laws : RbLaws rb) (head me : ℕ) (other : me ≢ head)
    (next_zero scan : Bitmap → ℕ → ℕ → ℕ) (finds : FindsZero next_zero) (scans : ScansBytes scan)
    (who : Caller) (reservation : Bool) where
  given_run :
      (s s' : Space) (block num count : ℕ)
      → used s 0 ≡ true
      → Given s.sb s'.sb block num
      → num ≤ count
      → GivenRun (used s) (used s') block num count
  given_run s s' block num count zero_used g le = record {
    some_block = elim (ℕ_discrete block 0) [
      | no n ↦ omega (arith, n)
      | yes e ↦ absurd (cc (zero_used, free_before 0 (ground (arith, e, g.some_blocks))))
    ];
    some_num = g.some_blocks;
    at_most = le;
    were_free = λ x h. free_before x h;
    now_used = after;
  }
    where
      free_before : (x : ℕ) → in_run block num x ≡ true → used s x ≡ false
      free_before x h = ground (
        arith,
        h,
        leb→le block x,
        ltb→lt x (block + num),
        g.from_first,
        g.were_free x,
        ltb→lt x s.sb.s_first_data_block,
      )

      after : (x : ℕ) → used s' x ≡ (in_run block num x || used s x)
      after x = elim (Bool-cases (ltb x s.sb.s_first_data_block)) [
        | inl t ↦ ground (arith, t, g.same_first)
        | inr f ↦
            let low : s.sb.s_first_data_block ≤ x =
              ground (arith, f, lt→ltb x s.sb.s_first_data_block) in
            ground (arith, f, g.same_first, g.now_used x low)
      ]

  news_ok :
      (s : Space) (has : Bool) (goal count : ℕ)
      → InOrder head s
      → 0 < count
      → count < 2 ^ 31
      → NewRunOk used
          (InOrder head)
          s
          count
          ((kr_ops rb me next_zero scan who reservation).new s has goal count)
  news_ok s has goal count (fs, ws, z) l small =
      elim (new_blocks-NewOk rb rb_laws head me other next_zero scan finds scans s.sb fs s.windows
        who has goal count ws l small) [
          | inl (refusal, e) ↦ inl (s, enospc, ap answer e, omega arith, (fs, ws, z), λ x. refl)
          | inr h ↦ elim h [
            | inl (w', e, (kept, _), _) ↦ inl (
              record { sb = s.sb; windows = w' },
              enospc,
              ap answer e,
              omega arith,
              (fs, kept, z),
              λ x. refl,
            )
            | inr (sb', w', block, num, e, (kept, _), g, le) ↦
                let s' : Space = record { sb = sb'; windows = w' } in
                let r = given_run s s' block num count z g le in
                inr (
                  s',
                  block,
                  num,
                  ap answer e,
                  (g.in_order, kept, ground (arith, r.now_used 0, z)),
                  r,
                )
          ]
        ]

  fresh_ok :
      (s : Space)
      → InOrder head s
      → NoWindow me s
      → InOrder head ((kr_ops rb me next_zero scan who reservation).init s)
  unfolding init_block_alloc_info
  fresh_ok s (fs, ws, z) empty = (
    fs,
    record {
      ordered = put-Ordered s.windows.at me _ 0 (inorder s.windows.tree) gone ws.ordered;
      members = λ k ne. ground (arith, gone, ws.members k ne, ==_iff k me);
      head_in = ws.head_in;
      head_start = ground (arith, ws.head_start, ==_iff head me, other);
      head_end = ground (arith, ws.head_end, ==_iff head me, other);
      sizes = λ k. ground (arith, ws.sizes k, ==_iff k me);
    },
    z,
  )
    where
      gone : elem me (inorder s.windows.tree) ≡ false
      gone = ws.members me other ∙ ap not empty

  -- With a working tree, bit search and byte search and no quota that refuses, kr_new_blocks,
  -- kr_free_blocks and kr_init_block_alloc_info keep what kr_get_blocks relies on. On a file system
  -- and windows that are in order, with block 0 in use and a count from 1 to below 2^31,
  -- kr_new_blocks gives a run of at least one and at most as many blocks as asked for, or an error
  -- with which the use of no block changes; the run was free and does not start at 0, exactly it
  -- and what was in use before are in use, and the file system and the windows are in order again.
  -- With counts that agree with the bitmaps, kr_free_blocks keeps the use of the blocks outside the
  -- run, and the counts still agree. A new window for a file that has none keeps the order and the
  -- use of every block.
  pub kr_laws :
      AllocLaws Space
        (kr_ops rb me next_zero scan who reservation)
        used
        (InOrder head)
        Counted
        (NoWindow me)
        (2 ^ 31)
  kr_laws = record {
    narrow = omega arith;
    news = news_ok;
    sound = λ s h. h.0.counts;
    frees_Sound = λ s block num h. free_blocks-Consistent s.sb block num h;
    frees = kept;
    inits = fresh_ok;
    inits_used = λ s x. refl;
  }
    where
      kept :
          (s : Space) (block num x : ℕ)
          → Counted s
          → in_run block num x ≡ false
          → used ((kr_ops rb me next_zero scan who reservation).free s block num) x ≡ used s x
      kept s block num x h out =
          let (first, frame) = free_blocks-frame s.sb block num x h in
          elim (Bool-cases (ltb x s.sb.s_first_data_block)) [
            | inl t ↦ ground (arith, t, first)
            | inr f ↦
                let low : s.sb.s_first_data_block ≤ x =
                  ground (arith, f, lt→ltb x s.sb.s_first_data_block) in
                ground (arith, f, first, frame low out)
          ]
