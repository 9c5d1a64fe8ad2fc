-- ===== src/Zones/Tops.antt =====
-- The two tops that the loop over the memory map finds.
use fdu_os.Common.{
  ℕ, ◌+◌, ◌^◌, ◌%◌, ◌≤◌, ◌<◌, ◌≡◌, ◌⊎◌, refl, ◌∙◌, Bool, true, false, ◌&&◌, List, [], ◌∷◌, ◌++◌,
  All, inl, inr, Bool-cases, ltb, leb, ◌==◌, if◌then◌else◌, arith,
}
use fdu_os.Common.Words.{add64}
use fdu_os.Util.{max2}
use fdu_os.Zones.{MemoryRegion, query_zones}

-- What the loop leaves: neither top is above the largest end, so `normal_top` is not above
-- `max_physmem`, and both fit the type.
pub tops_ordered :
    (ks ke : ℕ) (rs : List MemoryRegion) (tops : ℕ × ℕ)
    → tops.0 ≤ tops.1
    → tops.1 < 2 ^ 64
    → ((query_zones ks ke rs tops).0 ≤ (query_zones ks ke rs tops).1)
      × ((query_zones ks ke rs tops).1 < 2 ^ 64)
unfolding query_zones max2
tops_ordered ks ke [] tops le lt = (le, lt)
tops_ordered ks ke (r ∷ rs) tops le lt = tops_ordered ks ke rs _ (ground arith) (ground arith)

-- The address is the largest end of a region, and 0 without one.
abbrev pub IsReached : List MemoryRegion → ℕ → Type 0
IsReached [] max = max ≡ 0
IsReached (r ∷ rs) max = (r.base + r.size ≡ max) ⊎ IsReached rs max

pub record IsLargestEnd (rs : List MemoryRegion) (max : ℕ) : Type 0 where
  pub none_above : All (λ r. r.base + r.size ≤ max) rs
  pub reached : IsReached rs max

-- The boundary of a page that is the last one up to the address
pub record IsLastBoundary (boundary x : ℕ) : Type 0 where
  pub whole : boundary % 4096 ≡ 0
  pub not_above : boundary ≤ x
  pub near : x < boundary + 4096

-- The last boundary of a page up to both addresses
pub record IsCutAt (boundary x y : ℕ) : Type 0 where
  pub whole : boundary % 4096 ≡ 0
  pub not_above : (boundary ≤ x) × (boundary ≤ y)
  pub near : (x < boundary + 4096) ⊎ (y < boundary + 4096)

-- The region is usable memory and holds the kernel.
abbrev pub has_kernel : ℕ → ℕ → MemoryRegion → Bool
has_kernel kernel_start kernel_end r =
    (r.type_code == 1) && leb r.base kernel_start && leb kernel_end (r.base + r.size)

-- The ends of the regions fit the type.
abbrev pub AllFit : List MemoryRegion → Type 0
AllFit rs = All (λ r. r.base + r.size < 2 ^ 64) rs

module _ (ks ke : ℕ) where
  kernel_top_after :
      (rs : List MemoryRegion) (tops : ℕ × ℕ)
      → AllFit rs
      → All (λ r. has_kernel ks ke r ≡ false) rs
      → (query_zones ks ke rs tops).0 ≡ tops.0
  unfolding query_zones
  kernel_top_after [] tops fit others = refl
  kernel_top_after (r ∷ rs) tops (f, fit) (o, others) =
      let exact : add64 r.base r.size ≡ r.base + r.size = omega arith in
      kernel_top_after rs _ fit others ∙ rw (exact, o) refl

  pub kernel_top :
      (before : List MemoryRegion) (r : MemoryRegion) (after : List MemoryRegion) (tops : ℕ × ℕ)
      → AllFit (before ++ (r ∷ after))
      → has_kernel ks ke r ≡ true
      → All (λ x. has_kernel ks ke x ≡ false) after
      → (query_zones ks ke (before ++ (r ∷ after)) tops).0 ≡ r.base + r.size
  unfolding query_zones
  kernel_top [] r after tops (f, fit) here others =
      let exact : add64 r.base r.size ≡ r.base + r.size = omega arith in
      kernel_top_after after _ fit others ∙ rw (exact, here) refl
  kernel_top (x ∷ before) r after tops (f, fit) here others =
      kernel_top before r after _ fit here others

  pub largest_end :
      (rs : List MemoryRegion) (top max : ℕ)
      → AllFit rs
      → All (λ r. r.base + r.size ≤ (query_zones ks ke rs (top, max)).1) rs
        × ((query_zones ks ke rs (top, max)).1 ≡ max
            ⊎ IsReached rs (query_zones ks ke rs (top, max)).1)
        × (max ≤ (query_zones ks ke rs (top, max)).1)
  unfolding query_zones max2
  largest_end [] top max fit = (tt, inl refl, omega arith)
  largest_end (r ∷ rs) top max (f, fit) =
      let exact : add64 r.base r.size ≡ r.base + r.size = omega arith in
      let (below, reached, le) =
        largest_end rs
          (if (r.type_code == 1) && leb r.base ks && leb ke (add64 r.base r.size)
            then add64 r.base r.size
            else top)
          (max2 max (add64 r.base r.size)) fit in
      (
        (ground arith, below),
        elim reached [
          | inl same ↦ elim (Bool-cases (ltb max (r.base + r.size))) [
            | inl larger ↦ inr (inl (ground arith))
            | inr kept ↦ ground arith
          ]
          | inr rest ↦ inr (inr rest)
        ],
        ground arith,
      )

-- A largest end of 0 is that of a region, too.
pub largest_reached :
    (rs : List MemoryRegion) (max : ℕ)
    → (max ≡ 0) ⊎ IsReached rs max
    → All (λ r. r.base + r.size ≤ max) rs
    → IsReached rs max
largest_reached [] max (inl e) below = e
largest_reached (r ∷ rs) max (inl e) (le, below) = inl (omega arith)
largest_reached rs max (inr reached) below = reached
