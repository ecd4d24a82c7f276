-- ===== src/Dir/Remove.antt =====
-- Removing a name and pointing one elsewhere: kr_delete_entry, kr_set_link (dir.c).
pub mod View
pub mod Laws
use k_rack.Common.{
  ℕ, zero, suc, ◌+◌, ◌-◌, ◌*◌, ◌/◌, ◌%◌, ◌^◌, ◌≤◌, ◌<◌, min, bit_and, ◌≡◌, refl, sym, ap, subst,
  ◌∙◌, ◌≢◌, ◌↔◌, ◌⊎◌, inl, inr, Bool, true, false, not, ◌&&◌, ◌||◌, Option, none, some, List, [],
  ◌∷◌, ◌++◌, arith, ltb, leb, ◌==◌, if◌then◌else◌, ltb→lt, lt→ltb, leb→le, le→leb, ==_iff,
  Bool-cases, Option-cases, length, get_elem?, get_or, set, take, drop, length-append, length-set,
  get_elem?-set_self, get_elem?-set_ne, sub32, sub32_lem, clear_flag, eperm, enoent, eio, eagain,
  enomem, eacces, efault, ebusy, eexist, einval, enotty, enospc, enametoolong, enotempty,
}
use k_rack.Dir.Entry.{Dirent, Page, page_size, store, set_de_type}
use k_rack.Dir.Inode.{Super, Inode}
use k_rack.Dir.Insert.Room.{Child}
use k_rack.Dir.Insert.{Env, commit_chunk, touch, put_contents, btree_fl}

-- How the walk to the entry ends: the record before it, if it is not the first of its chunk.
-- `spent` is no answer of the code.
pub data Prev : Type 0 where
  at : Option ℕ → Prev
  zero_length spent : Prev

unfoldable pub prev_from : ℕ → Page → ℕ → ℕ → Option ℕ → Prev
prev_from zero p o de pde = spent
prev_from (suc fuel) p o de pde = elim (ltb de o) [
  | true ↦ elim ((p de).rec_len == 0) [
    | true ↦ zero_length
    | false ↦ prev_from fuel p o (de + (p de).rec_len) (some de)
  ]
  | false ↦ at pde
]

-- The first byte of the chunk that holds an offset.
abbrev pub chunk_start : ℕ → ℕ → ℕ
chunk_start chunk o = o / chunk * chunk

-- The record before takes the entry's bytes; the entry's inode is cleared in any case.
unfoldable pub unlink : Page → ℕ → Option ℕ → Page
unlink p o none = store p o (record (p o) { inode = 0 })
unlink p o (some k) =
    let merged = store p k (record (p k) { rec_len = o + (p o).rec_len - k }) in
    store merged o (record (merged o) { inode = 0 })

-- `none`: the kernel's BUG_ON stops the machine.
unfoldable pub delete_entry : Super → Env → Inode → ℕ → Page → ℕ → Option (Inode × ℕ)
unfolding commit_chunk touch
delete_entry sb env d n p o =
    let from = chunk_start sb.chunk_size o in
    elim (prev_from (page_size + 1) p o from none) [
      | zero_length ↦ some (d, eio)
      | spent ↦ some (d, eio)
      | at pde ↦
          let from' : ℕ = elim pde [ none ↦ from | some k ↦ k ] in
          let (d', err) =
            commit_chunk env (put_contents d n (unlink p o pde)) (n * page_size + from')
              (o + (p o).rec_len - from') in
          if env.prepare_err == 0 then some (touch env d', err) else none
    ]

-- The entry at `o` of page `n` is made to point to another inode; `none` is BUG_ON.
unfoldable pub set_link : Super → Env → Inode → ℕ → Page → ℕ → Child → Bool → Option Inode
unfolding commit_chunk
set_link sb env d n p o child update_times =
    let de = set_de_type sb.has_filetype child.i_mode (record (p o) { inode = child.i_ino }) in
    let d' =
      (commit_chunk env (put_contents d n (store p o de)) (n * page_size + o) (p o).rec_len).0 in
    let d'' = record d' { i_flags = clear_flag d'.i_flags btree_fl } in
    if env.prepare_err == 0
    then some (if update_times then record d'' { i_mtime = env.now; i_ctime = env.now } else d'')
    else none
