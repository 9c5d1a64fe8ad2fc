-- ===== src/Zones/Pages.antt =====
-- The pages of the regions of usable memory, and how often each is listed.
use fdu_os.Common.{
  ℕ, zero, suc, ◌+◌, ◌-◌, ◌*◌, ◌/◌, ◌%◌, ◌^◌, ◌≤◌, ◌<◌, ◌≡◌, Bool, ◌&&◌, not, List, [], ◌∷◌, ◌++◌,
  All, ltb, leb, ◌==◌, Bool-cases, inl, inr, if◌then◌else◌, arith,
}
use fdu_os.Common.Words.{add64}
use fdu_os.Util.{roundup, rounddown}
use fdu_os.Util.Rounding.{roundup_least, rounddown_greatest}
use fdu_os.Buddy.Tiles.{count}
use fdu_os.Zones.{MemoryRegion}

pub count-append : (p : ℕ) (xs ys : List ℕ) → count p (xs ++ ys) ≡ count p xs + count p ys
unfolding count
count-append p [] ys = omega arith
count-append p (x ∷ xs) ys = omega (arith, count-append p xs ys)

module _ (kstart kend : ℕ) where
  abbrev pub in_kernel : ℕ → Bool
  in_kernel page = leb kstart page && ltb page kend

  -- The `n` pages from `page` on that are not the kernel's.
  abbrev pub pages_from : ℕ → ℕ → List ℕ
  pages_from zero page = []
  pages_from (suc n) page =
      if in_kernel page then pages_from n (page + 4096) else page ∷ pages_from n (page + 4096)

  pub count-pages_from :
      (p n page : ℕ)
      → page % 4096 ≡ 0
      → count p (pages_from n page) ≡ (
          if not (in_kernel p) && (p % 4096 == 0) && leb page p && ltb p (page + 4096 * n)
          then 1
          else 0)
  unfolding count
  count-pages_from p zero page whole = ground arith
  count-pages_from p (suc n) page whole =
      let rest = count-pages_from p n (page + 4096) (omega arith) in
      elim (Bool-cases (in_kernel page)) [
        | inl k ↦ rw k (elim (Bool-cases (page == p)) [
          | inl same ↦ ground (arith, rest)
          | inr other ↦ ground (arith, rest)
        ])
        | inr u ↦ rw u (elim (Bool-cases (page == p)) [
          | inl same ↦ ground (arith, rest)
          | inr other ↦ ground (arith, rest)
        ])
      ]

-- What holds of every address that is on the list holds of all of them.
pub All-counted : (P : ℕ → Type 0) (ps : List ℕ) → ((p : ℕ) → 0 < count p ps → P p) → All P ps
unfolding count
All-counted P [] h = tt
All-counted P (p ∷ ps) h =
    (h p (ground arith), All-counted P ps (λ q listed. h q (ground (arith, listed))))

-- The regions of usable memory that hold a page.
abbrev pub holding : ℕ → List MemoryRegion → ℕ
holding p [] = 0
holding p (r ∷ rs) =
    (if (r.type_code == 1) && leb r.base p && leb (p + 4096) (r.base + r.size) then 1 else 0)
    + holding p rs

-- The ends of the region are below 2^64 when rounded, and the fuel is enough for its pages.
abbrev pub IsInRange : ℕ → MemoryRegion → Type 0
IsInRange fuel r = (r.base + r.size + 2 * 4096 ≤ 2 ^ 64) × (r.size < 4096 * fuel)

pub below_top :
    (top p : ℕ) (rs : List MemoryRegion)
    → top % 4096 ≡ 0
    → All (λ r. r.base + r.size < top + 4096) rs
    → p % 4096 ≡ 0
    → 0 < holding p rs
    → p < top
below_top top p [] whole ends page held = absurd (omega arith)
below_top top p (r ∷ rs) whole (e, ends) page held =
    elim (Bool-cases ((r.type_code == 1) && leb r.base p && leb (p + 4096) (r.base + r.size))) [
      | inl here ↦ ground arith
      | inr elsewhere ↦ below_top top p rs whole ends page (ground (arith, elsewhere))
    ]

module _ (kstart kend : ℕ) where
  -- The pages of a region.
  unfoldable pub region_pages : MemoryRegion → List ℕ
  region_pages r =
      pages_from kstart kend
        ((rounddown (add64 r.base r.size) 4096 - roundup 64 r.base 4096) / 4096)
        (roundup 64 r.base 4096)

  pub count-region_pages :
      (p fuel : ℕ) (r : MemoryRegion)
      → IsInRange fuel r
      → count p (region_pages r) ≡ (
          if not (in_kernel kstart kend p)
            && (p % 4096 == 0)
            && leb r.base p
            && leb (p + 4096) (r.base + r.size)
          then 1
          else 0)
  unfolding region_pages
  count-region_pages p fuel r (fits, enough) =
      let sum : add64 r.base r.size ≡ r.base + r.size = omega arith in
      let (a, b, c) = roundup_least 64 r.base 4096 (omega arith) (omega arith) in
      let (d, e, f) = rounddown_greatest (r.base + r.size) 4096 (omega arith) in
      rw
        (
          sum,
          count-pages_from kstart kend p
              ((rounddown (r.base + r.size) 4096 - roundup 64 r.base 4096) / 4096)
              (roundup 64 r.base 4096) a,
        )
        (ground arith)
