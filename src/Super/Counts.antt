-- ===== src/Super/Counts.antt =====
-- The free counts of the group descriptors against the bitmaps, for inodes (ialloc.c) and for
-- blocks (balloc.c).
use k_rack.Common.{
  ℕ, ◌+◌, ◌^◌, ◌≤◌, ◌<◌, ◌≡◌, refl, sym, ap, ◌∙◌, some, arith, ◌==◌, if◌then◌else◌, Bitmap,
  count_set,
}
use native.Mathlib.Decide.{ℕ_discrete}
use k_rack.Super.{GroupDesc, SbInfo, get_group_desc, sub16, add16}

-- What is counted: the block of its bitmap, the count of what is free, and the bits of a bitmap.
pub record Kind : Type 0 where
  pub block_of : GroupDesc → ℕ
  pub free_of : GroupDesc → ℕ
  pub size : SbInfo → ℕ

abbrev pub inodes : Kind
inodes = record {
  block_of = λ desc. desc.bg_inode_bitmap;
  free_of = λ desc. desc.bg_free_inodes_count;
  size = λ sb. sb.s_inodes_per_group;
}

abbrev pub data_blocks : Kind
data_blocks = record {
  block_of = λ desc. desc.bg_block_bitmap;
  free_of = λ desc. desc.bg_free_blocks_count;
  size = λ sb. sb.s_blocks_per_group;
}

pub get_group_desc-lt :
    (sb : SbInfo) (group : ℕ) (desc : GroupDesc)
    → get_group_desc sb group ≡ some desc
    → group < sb.s_groups_count
unfolding get_group_desc
get_group_desc-lt sb group desc e = ground arith

some-same : {A : Type 0} {x y : A} → some x ≡ some y → x ≡ y
some-same e = cc (e)

module _ (kind : Kind) where
  -- A group's count of what is free is the number of clear bits of its bitmap.
  abbrev pub GroupOk : SbInfo → ℕ → Type 0
  GroupOk sb g =
      (desc : GroupDesc) × (b : Bitmap) × (get_group_desc sb g ≡ some desc)
      × (sb.bitmaps (kind.block_of desc) ≡ some b)
      × ((kind.free_of desc) + count_set b (kind.size sb) ≡ (kind.size sb))

  -- Each group's count is right, and no two groups share a bitmap.
  pub record Consistent (sb : SbInfo) : Type 0 where
    pub power : sb.s_desc_per_block ≡ 2 ^ sb.s_desc_per_block_bits
    pub some_desc : 0 < sb.s_desc_per_block
    pub some_bits : 0 < (kind.size sb)
    pub small : (kind.size sb) < 2 ^ 16
    pub groups : (g : ℕ) → g < sb.s_groups_count → GroupOk sb g
    pub apart :
        (g h : ℕ) (desc other : GroupDesc)
        → get_group_desc sb g ≡ some desc
        → get_group_desc sb h ≡ some other
        → (kind.block_of desc) ≡ (kind.block_of other)
        → g ≡ h

  -- One group's descriptor and bitmap are written, and nothing else that the counts depend on.
  pub record Rewrites (sb sb' : SbInfo) (g : ℕ) (desc : GroupDesc) (b : Bitmap) : Type 0 where
    pub groups_count : sb'.s_groups_count ≡ sb.s_groups_count
    pub per_group : (kind.size sb') ≡ (kind.size sb)
    pub per_block : sb'.s_desc_per_block ≡ sb.s_desc_per_block
    pub bits : sb'.s_desc_per_block_bits ≡ sb.s_desc_per_block_bits
    pub descs : (h : ℕ) → get_group_desc sb' h ≡ (if h == g then some desc else get_group_desc sb h)
    pub maps :
        (n : ℕ) → sb'.bitmaps n ≡ (if n == (kind.block_of desc) then some b else sb.bitmaps n)

  pub Rewrites-Consistent :
      (sb sb' : SbInfo) (g : ℕ) (old desc : GroupDesc) (b : Bitmap)
      → Consistent sb
      → get_group_desc sb g ≡ some old
      → (kind.block_of desc) ≡ (kind.block_of old)
      → (kind.free_of desc) + count_set b (kind.size sb) ≡ (kind.size sb)
      → Rewrites sb sb' g desc b
      → Consistent sb'
  Rewrites-Consistent sb sb' g old desc b c e same count w = record {
    power = rw (w.per_block, w.bits) c.power;
    some_desc = rw w.per_block c.some_desc;
    some_bits = rw w.per_group c.some_bits;
    small = rw w.per_group c.small;
    groups = λ h l. elim (ℕ_discrete h g) [
      | yes here ↦ (
        desc,
        b,
        ground (arith, w.descs h),
        ground (arith, w.maps (kind.block_of desc)),
        rw w.per_group count,
      )
      | no other ↦
          let (d, b', q, m, n) = c.groups h (omega (arith, w.groups_count)) in
          (
            d,
            b',
            ground (arith, w.descs h),
            ground (arith, w.maps (kind.block_of d), c.apart h g d old q e),
            rw w.per_group n,
          )
    ];
    apart = λ h i d d' p q r.
        let (d0, p0, r0) = before h d p in
        let (d1, p1, r1) = before i d' q in c.apart h i d0 d1 p0 p1 (r0 ∙ (r ∙ sym r1));
  }
    where
      before :
          (h : ℕ) (d : GroupDesc)
          → get_group_desc sb' h ≡ some d
          → (d0 : GroupDesc) × (get_group_desc sb h ≡ some d0)
            × ((kind.block_of d0) ≡ (kind.block_of d))
      before h d p = elim (ℕ_discrete h g) [
        | yes here ↦ (old, ap (get_group_desc sb) here ∙ e, ground (arith, w.descs h))
        | no other ↦ (d, ground (arith, w.descs h), refl)
      ]

  pub GroupOk-count :
      (sb : SbInfo) (group : ℕ) (desc : GroupDesc) (b : Bitmap)
      → Consistent sb
      → get_group_desc sb group ≡ some desc
      → sb.bitmaps (kind.block_of desc) ≡ some b
      → (kind.free_of desc) + count_set b (kind.size sb) ≡ (kind.size sb)
  GroupOk-count sb group desc b c q m =
      let (d, b', q', m', n) = c.groups group (get_group_desc-lt sb group desc q) in
      let same : d ≡ desc = some-same (sym q' ∙ q) in
      let block = ap (λ (x : GroupDesc). sb.bitmaps (kind.block_of x)) same in
      let map : b' ≡ b = some-same (sym m' ∙ (block ∙ m)) in
      omega (
        arith,
        n,
        ap (λ (x : GroupDesc). (kind.free_of x)) same,
        ap (λ (y : Bitmap). count_set y (kind.size sb)) map,
      )

pub one_less :
    (n free used used' : ℕ)
    → n < 2 ^ 16
    → free + used ≡ n
    → used' ≡ used + 1
    → used' ≤ n
    → sub16 free 1 + used' ≡ n
one_less n free used used' h e p l = omega arith

pub one_more :
    (n free used used' : ℕ)
    → n < 2 ^ 16
    → free + used ≡ n
    → used' + 1 ≡ used
    → add16 free 1 + used' ≡ n
one_more n free used used' h e p = omega arith
