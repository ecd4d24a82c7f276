-- ===== src/Ialloc/Freed.antt =====
-- The state behind kr_free_inode (ialloc.c).
use k_rack.Common.{
  ℕ, ◌-◌, ◌/◌, ◌%◌, ◌≤◌, ◌<◌, ◌≡◌, refl, ◌⊎◌, inl, inr, Bool, true, false, ◌||◌, some, arith, ltb,
  if◌then◌else◌, ltb→lt, lt→ltb, Bool-cases, Option-cases, negsuc, ◌+ℤ◌, Bitmap, write_bit,
  count_set, count_set-clear,
}
use k_rack.Super.{GroupDesc, SbInfo, get_group_desc, put_group_desc, put_bitmap, sub16, add16}
use k_rack.Super.Laws.{get-put}
use k_rack.Ialloc.Alloc.{read_inode_bitmap}
use k_rack.Ialloc.Free.{release_inode, clear_inode_bit, free_inode}
use k_rack.Super.Counts.{inodes, Consistent, Rewrites, Rewrites-Consistent, GroupOk-count, one_more}
use k_rack.Ialloc.Uses.{in_use}

abbrev pub released_desc : GroupDesc → Bool → GroupDesc
released_desc desc dir = record desc {
  bg_free_inodes_count = add16 desc.bg_free_inodes_count 1;
  bg_used_dirs_count = if dir then sub16 desc.bg_used_dirs_count 1 else desc.bg_used_dirs_count;
}

abbrev pub released : SbInfo → ℕ → GroupDesc → Bool → SbInfo
released sb group desc dir = record (put_group_desc sb group (released_desc desc dir)) {
  s_dirs_counter = if dir then sb.s_dirs_counter +ℤ negsuc 0 else sb.s_dirs_counter;
}

-- The state behind a successful `free_inode`.
abbrev pub freed : SbInfo → ℕ → GroupDesc → Bitmap → ℕ → Bool → SbInfo
freed sb group desc b bit dir =
    released (put_bitmap sb desc.bg_inode_bitmap (write_bit b bit false)) group desc dir

pub release_inode-at :
    (sb : SbInfo) (group : ℕ) (desc : GroupDesc) (dir : Bool)
    → get_group_desc sb group ≡ some desc
    → release_inode sb group dir ≡ released sb group desc dir
unfolding release_inode
release_inode-at sb group desc dir e = rw (release_inode, e) refl

pub freed-eq :
    (sb : SbInfo) (group : ℕ) (desc : GroupDesc) (b : Bitmap) (bit : ℕ) (dir : Bool)
    → get_group_desc sb group ≡ some desc
    → release_inode (put_bitmap sb desc.bg_inode_bitmap (write_bit b bit false)) group dir
      ≡ freed sb group desc b bit dir
unfolding get_group_desc
freed-eq sb group desc b bit dir e =
    release_inode-at (put_bitmap sb desc.bg_inode_bitmap (write_bit b bit false)) group desc dir e

pub freed-Rewrites :
    (sb : SbInfo) (group : ℕ) (desc : GroupDesc) (b : Bitmap) (bit : ℕ) (dir : Bool)
    → Consistent inodes sb
    → get_group_desc sb group ≡ some desc
    → Rewrites inodes sb
        (freed sb group desc b bit dir)
        group
        (released_desc desc dir)
        (write_bit b bit false)
unfolding get_group_desc put_group_desc
freed-Rewrites sb group desc b bit dir c e = record {
  groups_count = refl;
  per_group = refl;
  per_block = refl;
  bits = refl;
  descs = λ h. get-put sb group h (released_desc desc dir) desc c.power c.some_desc e;
  maps = λ k. refl;
}

pub freed-Consistent :
    (sb : SbInfo) (group : ℕ) (desc : GroupDesc) (b : Bitmap) (bit : ℕ) (dir : Bool)
    → Consistent inodes sb
    → get_group_desc sb group ≡ some desc
    → sb.bitmaps desc.bg_inode_bitmap ≡ some b
    → bit < sb.s_inodes_per_group
    → b bit ≡ true
    → Consistent inodes (freed sb group desc b bit dir)
freed-Consistent sb group desc b bit dir c q m l z =
    Rewrites-Consistent inodes sb (freed sb group desc b bit dir) group desc
      (released_desc desc dir) (write_bit b bit false) c q refl
      (one_more sb.s_inodes_per_group desc.bg_free_inodes_count (count_set b sb.s_inodes_per_group)
        (count_set (write_bit b bit false) sb.s_inodes_per_group) c.small
        (GroupOk-count inodes sb group desc b c q m)
        (count_set-clear b bit sb.s_inodes_per_group l z))
      (freed-Rewrites sb group desc b bit dir c q)

abbrev pub group_of : SbInfo → ℕ → ℕ
group_of sb ino = (ino - 1) / sb.s_inodes_per_group

abbrev pub bit_of : SbInfo → ℕ → ℕ
bit_of sb ino = (ino - 1) % sb.s_inodes_per_group

-- An inode that `free_inode` gives back.
abbrev pub Releasable : SbInfo → ℕ → Type 0
Releasable sb ino = (sb.s_first_ino ≤ ino) × (ino ≤ sb.s_inodes_count) × (in_use sb ino ≡ some true)

abbrev pub Freed : SbInfo → ℕ → Bool → Type 0
Freed sb ino dir =
    (desc : GroupDesc) × (b : Bitmap) × (sb.s_first_ino ≤ ino)
    × (ino ≤ sb.s_inodes_count)
    × (get_group_desc sb (group_of sb ino) ≡ some desc)
    × (sb.bitmaps desc.bg_inode_bitmap ≡ some b)
    × (b (bit_of sb ino) ≡ true)
    × (free_inode sb ino dir ≡ freed sb (group_of sb ino) desc b (bit_of sb ino) dir)

-- Either `free_inode` does nothing, or it clears a bit that was set.
pub free_inode-cases :
    (sb : SbInfo) (ino : ℕ) (dir : Bool)
    → ((free_inode sb ino dir ≡ sb) × (¬ Releasable sb ino)) ⊎ Freed sb ino dir
unfolding free_inode clear_inode_bit in_use read_inode_bitmap
free_inode-cases sb ino dir =
    elim (Bool-cases (ltb ino sb.s_first_ino || ltb sb.s_inodes_count ino)) [
      | inl r ↦ inl (
        ground arith,
        λ (p, q, u). ground (arith, ltb→lt ino sb.s_first_ino, ltb→lt sb.s_inodes_count ino),
      )
      | inr r ↦ elim (Option-cases (get_group_desc sb (group_of sb ino))) [
        | inl q ↦ inl (ground arith, λ (_, _, u). ground arith)
        | inr (desc, q) ↦ elim (Option-cases (sb.bitmaps desc.bg_inode_bitmap)) [
          | inl m ↦ inl (ground arith, λ (_, _, u). ground arith)
          | inr (b, m) ↦ elim (Bool-cases (b (bit_of sb ino))) [
            | inr z ↦ inl (ground arith, λ (_, _, u). ground arith)
            | inl z ↦ inr (
              desc,
              b,
              ground (arith, lt→ltb ino sb.s_first_ino),
              ground (arith, lt→ltb sb.s_inodes_count ino),
              q,
              m,
              z,
              ground (arith, freed-eq sb (group_of sb ino) desc b (bit_of sb ino) dir q),
            )
          ]
        ]
      ]
    ]
