-- ===== src/Ialloc/Free.antt =====
-- kr_free_inode, kr_release_inode (ialloc.c): an inode given back. The quota calls of the code
-- leave nothing here.
use k_rack.Common.{
  ℕ, ◌-◌, ◌/◌, ◌%◌, Bool, false, not, ◌||◌, none, some, ltb, if◌then◌else◌, negsuc, ◌+ℤ◌, Bitmap,
  write_bit,
}
use k_rack.Super.{SbInfo, get_group_desc, put_group_desc, put_bitmap, add16, sub16}
use k_rack.Ialloc.Alloc.{read_inode_bitmap}

unfoldable pub release_inode : SbInfo → ℕ → Bool → SbInfo
release_inode sb group dir = elim (get_group_desc sb group) [
  | none ↦ sb
  | some desc ↦
      let desc' = record desc {
        bg_free_inodes_count = add16 desc.bg_free_inodes_count 1;
        bg_used_dirs_count =
            if dir then sub16 desc.bg_used_dirs_count 1 else desc.bg_used_dirs_count;
      } in
      record (put_group_desc sb group desc') {
        s_dirs_counter = if dir then sb.s_dirs_counter +ℤ negsuc 0 else sb.s_dirs_counter;
      }
]

-- The bit of inode `ino` in its group's bitmap, which stands in block `block`.
unfoldable pub clear_inode_bit : SbInfo → ℕ → ℕ → Bitmap → ℕ → Bool → SbInfo
clear_inode_bit sb group block b bit dir =
    if not (b bit)
    then sb
    else release_inode (put_bitmap sb block (write_bit b bit false)) group dir

unfoldable pub free_inode : SbInfo → ℕ → Bool → SbInfo
free_inode sb ino dir =
    let group = (ino - 1) / sb.s_inodes_per_group in
    let bit = (ino - 1) % sb.s_inodes_per_group in
    if ltb ino sb.s_first_ino || ltb sb.s_inodes_count ino
    then sb
    else elim (get_group_desc sb group) [
      | none ↦ sb
      | some desc ↦ elim (read_inode_bitmap sb group) [
        | none ↦ sb
        | some b ↦ clear_inode_bit sb group desc.bg_inode_bitmap b bit dir
      ]
    ]
