-- ===== src/Zones/Partition.antt =====
-- The three zones lie one behind the other, so that a page belongs to one zone.
use native.Mathlib.Nat.{mod-eq_of_lt}
use fdu_os.Common.{
  ℕ, ◌+◌, ◌-◌, ◌^◌, ◌%◌, ◌≤◌, ◌<◌, ◌≡◌, ◌⊎◌, refl, true, false, List, ◌∷◌, ◌++◌, All, inl, inr,
  Bool-cases, ltb, leb, if◌then◌else◌, arith,
}
use fdu_os.Common.Words.{add64, sub64}
use fdu_os.Common.Outcome.{done}
use fdu_os.Util.{rounddown, min2}
use fdu_os.Util.Alignment.{is_aligned_iff}
use fdu_os.Util.Rounding.{rounddown_greatest}
use fdu_os.Zones.{MemoryRegion, Zone, Zones, query_zones, set_zones, arch_init_pmm_zone, in_zone}
use fdu_os.Zones.Tops.{
  tops_ordered, IsLargestEnd, IsLastBoundary, IsCutAt, has_kernel, AllFit, kernel_top, largest_end,
  largest_reached,
}

-- The zones are pages, one zone behind the other from 0 to the top, the first one of 16 MB.
pub record ArePartition (zs : Zones) (top max : ℕ) : Type 0 where
  pub dma_first : zs.dma.base ≡ 0
  pub dma_size : zs.dma.size ≡ 2 ^ 24
  pub normal_next : zs.normal.base ≡ zs.dma.base + zs.dma.size
  pub highmem_next : zs.highmem.base ≡ zs.normal.base + zs.normal.size
  pub end : zs.highmem.base + zs.highmem.size ≡ max
  pub normal_end : zs.highmem.base ≡ top
  pub whole_pages : (zs.normal.size % 2 ^ 12 ≡ 0) × (zs.highmem.size % 2 ^ 12 ≡ 0)

min2_le : (a b : ℕ) → min2 a b ≤ a
unfolding min2
min2_le a b = ground arith

abbrev pub zones_at : ℕ → ℕ → Zones
zones_at n m = record {
  dma = record { base = 0; size = 2 ^ 24 };
  normal = record { base = 2 ^ 24; size = sub64 n (2 ^ 24) };
  highmem = record { base = n; size = sub64 m n };
}

module _ (room top max : ℕ) (le : top ≤ max) (max_small : max < 2 ^ 64)
    (enough : 2 ^ 24 ≤ rounddown (min2 top room) (2 ^ 12)) where
  set_zones-ArePartition :
      (zs : Zones) × (set_zones room (top, max) ≡ done zs)
      × ArePartition zs (rounddown (min2 top room) (2 ^ 12)) (rounddown max (2 ^ 12))
  unfolding set_zones
  set_zones-ArePartition =
      let n = rounddown (min2 top room) (2 ^ 12) in
      let m = rounddown max (2 ^ 12) in
      let (n_pages, n_le, n_near) = rounddown_greatest (min2 top room) (2 ^ 12) (omega arith) in
      let (m_pages, m_le, m_near) = rounddown_greatest max (2 ^ 12) (omega arith) in
      let n_aligned = (is_aligned_iff 52 12 n).1 n_pages in
      let m_aligned = (is_aligned_iff 52 12 m).1 m_pages in
      let small : min2 top room ≤ top = min2_le top room in
      let ordered : n ≤ m = omega arith in
      let in_order : leb n m ≡ true = ground arith in
      let n_size : sub64 n (2 ^ 24) ≡ n - 2 ^ 24 = omega arith in
      let m_size : sub64 m n ≡ m - n = omega arith in
      (
        zones_at n m,
        rw (n_aligned, m_aligned, in_order) refl,
        record {
          dma_first = refl;
          dma_size = refl;
          normal_next = omega arith;
          highmem_next = omega arith;
          end = omega arith;
          normal_end = refl;
          whole_pages = (omega arith, omega arith);
        },
      )

abbrev pub holds_one : Zone → ℕ → ℕ
holds_one z page = if in_zone z page then 1 else 0

-- In zones one behind the other, each address below the top lies in exactly one.
in_one_zone :
    {zs : Zones} {top max : ℕ} (page : ℕ)
    → ArePartition zs top max
    → max < 2 ^ 64
    → page < max
    → holds_one zs.dma page + holds_one zs.normal page + holds_one zs.highmem page ≡ 1
unfolding in_zone
in_one_zone {zs} page p small lt =
    let d : add64 zs.dma.base zs.dma.size ≡ zs.dma.base + zs.dma.size =
      mod-eq_of_lt (omega (arith, p.normal_next, p.highmem_next, p.end)) in
    let n : add64 zs.normal.base zs.normal.size ≡ zs.normal.base + zs.normal.size =
      mod-eq_of_lt (omega (arith, p.highmem_next, p.end)) in
    let h : add64 zs.highmem.base zs.highmem.size ≡ zs.highmem.base + zs.highmem.size =
      mod-eq_of_lt (omega (arith, p.end)) in
    rw (d, n, h) (ground (arith, p.dma_first, p.normal_next, p.highmem_next, p.end))

-- What `arch_init_pmm_zone` makes of the memory map, where `kernel` is the region of the kernel
pub record AreSet (room : ℕ) (kernel : MemoryRegion) (rs : List MemoryRegion) (zs : Zones)
    : Type 0 where
  pub max : ℕ
  pub largest : IsLargestEnd rs max
  pub normal_top : ℕ
  pub cut : IsCutAt normal_top (kernel.base + kernel.size) room
  pub top : ℕ
  pub last : IsLastBoundary top max
  pub partition : ArePartition zs normal_top top
  pub in_one :
      (page : ℕ)
      → page < top
      → holds_one zs.dma page + holds_one zs.normal page + holds_one zs.highmem page ≡ 1

min2-either : (a b : ℕ) → (min2 a b ≤ b) × ((min2 a b ≡ a) ⊎ (min2 a b ≡ b))
unfolding min2
min2-either a b = (
  ground arith,
  elim (Bool-cases (ltb a b)) [ inl first ↦ ground arith | inr second ↦ ground arith ],
)

cut_lem : (a b : ℕ) → IsCutAt (rounddown (min2 a b) (2 ^ 12)) a b
cut_lem a b =
    let (whole, le, near) = rounddown_greatest (min2 a b) (2 ^ 12) (omega arith) in
    let (le_b, either) = min2-either a b in
    let le_a = min2_le a b in
    record {
      whole = whole;
      not_above = (omega arith, omega arith);
      near = elim either [ inl e ↦ inl (omega arith) | inr e ↦ inr (omega arith) ];
    }

-- For a memory map whose regions end below 2^64, where `kernel` is the last region of usable
-- memory that holds the kernel, and where this region and the kernel's room reach at least 16 MB:
-- no assertion of `arch_init_pmm_zone` fails. The zones are whole pages, one behind the other from
-- 0 to the last page boundary up to the largest end of a region; the first ends at 16 MB and the
-- second at the last boundary up to both the end of `kernel` and the kernel's room; and each
-- address below the top lies in exactly one of them.
pub arch_init_pmm_zone_lem :
    (room kernel_start kernel_end : ℕ) (before : List MemoryRegion) (kernel : MemoryRegion)
    (after : List MemoryRegion)
    → AllFit (before ++ (kernel ∷ after))
    → has_kernel kernel_start kernel_end kernel ≡ true
    → All (λ r. has_kernel kernel_start kernel_end r ≡ false) after
    → 2 ^ 24 ≤ kernel.base + kernel.size
    → 2 ^ 24 ≤ room
    → (zs : Zones) × (arch_init_pmm_zone room kernel_start kernel_end (before ++ (kernel ∷ after))
        ≡ done zs)
      × AreSet room kernel (before ++ (kernel ∷ after)) zs
unfolding arch_init_pmm_zone
arch_init_pmm_zone_lem room ks ke before kernel after fit here others reaches has_room =
    let rs = before ++ (kernel ∷ after) in
    let tops = query_zones ks ke rs (0, 0) in
    let is_top : tops.0 ≡ kernel.base + kernel.size =
      kernel_top ks ke before kernel after (0, 0) fit here others in
    let (le, small) = tops_ordered ks ke rs (0, 0) (omega arith) (omega arith) in
    let (below, reached, positive) = largest_end ks ke rs 0 0 fit in
    let cut = cut_lem tops.0 room in
    let enough : 2 ^ 24 ≤ rounddown (min2 tops.0 room) (2 ^ 12) = elim cut.near [
      | inl near ↦ omega (arith, cut.whole)
      | inr near ↦ omega (arith, cut.whole)
    ] in
    let (zs, e, p) = set_zones-ArePartition room tops.0 tops.1 le small enough in
    let (whole, m_le, near) = rounddown_greatest tops.1 (2 ^ 12) (omega arith) in
    (
      zs,
      e,
      record {
        max = tops.1;
        largest = record { none_above = below; reached = largest_reached rs tops.1 reached below };
        normal_top = rounddown (min2 tops.0 room) (2 ^ 12);
        cut = rw (← is_top) cut;
        top = rounddown tops.1 (2 ^ 12);
        last = record { whole = whole; not_above = m_le; near = near };
        partition = p;
        in_one = λ page lt. in_one_zone page p (omega arith) lt;
      },
    )
