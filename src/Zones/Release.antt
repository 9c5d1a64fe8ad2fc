-- ===== src/Zones/Release.antt =====
-- `arch_init_free_pmm_zone`: which pages are given to the allocators.
use native.Mathlib.Nat.{mod-eq_of_lt}
use fdu_os.Common.{
  ℕ, zero, suc, ◌+◌, ◌-◌, ◌*◌, ◌%◌, ◌^◌, ◌≤◌, ◌<◌, ◌≡◌, refl, ◌∙◌, sym, ap, true, false, ◌&&◌, not,
  some, List, [], ◌∷◌, ◌++◌, All, ltb, leb, ◌==◌, Bool-cases, inl, inr, if◌then◌else◌, arith,
}
use fdu_os.Common.Words.{add64}
use fdu_os.Common.Outcome.{Outcome, done, panic, undefined, ◌>>=◌}
use fdu_os.Util.{roundup, rounddown}
use fdu_os.Util.Rounding.{roundup_least, rounddown_greatest}
use fdu_os.Buddy.Tiles.{count}
use fdu_os.Zones.{
  MemoryRegion, Zones, Allocators, and_then, in_zone, try_free_page, try_free_zones, is_kernel,
  free_loop, arch_init_free_pmm_zone,
}
use fdu_os.Zones.Partition.{ArePartition}
use fdu_os.Zones.Pages.{
  count-append, in_kernel, pages_from, All-counted, holding, below_top, IsInRange, region_pages,
  count-region_pages,
}

module _ {A : Type 0} (free : ℕ → A → Outcome A) (zs : Zones) where
  -- The pages, given one after the other to all zones
  abbrev try_each : List ℕ → Allocators A → Outcome (Allocators A)
  try_each [] s = done s
  try_each (p ∷ ps) s = try_free_zones free zs p s >>= try_each ps

  -- A page goes to the allocator of the zone that it is in, and the others stay.
  abbrev pub free_in_zone : ℕ → Allocators A → Outcome (Allocators A)
  free_in_zone p s =
      let to_dma =
        free p s.dma >>= λ a. done (record { dma = a; normal = s.normal; highmem = s.highmem }) in
      let to_normal =
        free p s.normal >>= λ a. done (record { dma = s.dma; normal = a; highmem = s.highmem }) in
      let to_highmem =
        free p s.highmem >>= λ a. done (record { dma = s.dma; normal = s.normal; highmem = a }) in
      if ltb p zs.normal.base
      then to_dma
      else if ltb p zs.highmem.base
      then to_normal
      else to_highmem

  -- The pages, each given to its zone
  abbrev pub free_each : List ℕ → Allocators A → Outcome (Allocators A)
  free_each [] s = done s
  free_each (p ∷ ps) s = free_in_zone p s >>= free_each ps

  module _ {normal_top top : ℕ} (zones : ArePartition zs normal_top top)
      (small : top < 2 ^ 64) where
    in_dma : (p : ℕ) → p < top → in_zone zs.dma p ≡ ltb p zs.normal.base
    unfolding in_zone
    in_dma p lt =
        let e : add64 zs.dma.base zs.dma.size ≡ zs.normal.base =
          mod-eq_of_lt (omega (arith, zones.normal_next, zones.highmem_next, zones.end))
          ∙ omega (arith, zones.normal_next) in
        rw e (ground (arith, zones.dma_first))

    in_normal :
        (p : ℕ) → p < top → in_zone zs.normal p ≡ (leb zs.normal.base p && ltb p zs.highmem.base)
    unfolding in_zone
    in_normal p lt =
        let e : add64 zs.normal.base zs.normal.size ≡ zs.highmem.base =
          mod-eq_of_lt (omega (arith, zones.highmem_next, zones.end))
          ∙ omega (arith, zones.highmem_next) in
        rw e refl

    in_highmem : (p : ℕ) → p < top → in_zone zs.highmem p ≡ leb zs.highmem.base p
    unfolding in_zone
    in_highmem p lt =
        let e : add64 zs.highmem.base zs.highmem.size ≡ top =
          mod-eq_of_lt (omega (arith, zones.end)) ∙ zones.end in
        rw e (ground arith)

    try_free_zones-same :
        (p : ℕ) (s : Allocators A) → p < top → try_free_zones free zs p s ≡ free_in_zone p s
    unfolding try_free_zones try_free_page
    try_free_zones-same p s lt =
        let order : zs.normal.base ≤ zs.highmem.base = omega (arith, zones.highmem_next) in
        elim (Bool-cases (ltb p zs.normal.base)) [
          | inl first ↦
              let not_next : (leb zs.normal.base p && ltb p zs.highmem.base) ≡ false =
                ground arith in
              let not_last : leb zs.highmem.base p ≡ false = ground arith in
              rw (in_dma p lt, in_normal p lt, in_highmem p lt, first, not_next, not_last) refl
          | inr later ↦ elim (Bool-cases (ltb p zs.highmem.base)) [
            | inl next ↦
                let is_next : leb zs.normal.base p ≡ true = ground arith in
                let not_last : leb zs.highmem.base p ≡ false = ground arith in
                rw (in_dma p lt, in_normal p lt, in_highmem p lt, later, is_next, next, not_last)
                  refl
            | inr last ↦
                let is_next : leb zs.normal.base p ≡ true = ground arith in
                let is_last : leb zs.highmem.base p ≡ true = ground arith in
                rw (in_dma p lt, in_normal p lt, in_highmem p lt, later, is_next, last, is_last)
                  refl
          ]
        ]

    try_each-same :
        (ps : List ℕ) (s : Allocators A) → All (λ p. p < top) ps → try_each ps s ≡ free_each ps s
    try_each-same [] s below = refl
    try_each-same (p ∷ ps) s (lt, below) =
        ap (λ o. o >>= try_each ps) (try_free_zones-same p s lt)
        ∙ ap (λ k. free_in_zone p s >>= k) (λ i x. try_each-same ps x below i)

  and_then-bind :
      (o : Outcome (Allocators A)) (k : Allocators A → Outcome (Allocators A))
      → and_then (some o) (λ s. some (k s)) ≡ some (o >>= k)
  and_then-bind (done s) k = refl
  and_then-bind panic k = refl
  and_then-bind undefined k = refl

  bind_assoc :
      (o : Outcome (Allocators A)) (j k : Allocators A → Outcome (Allocators A))
      → ((o >>= j) >>= k) ≡ (o >>= λ s. (j s >>= k))
  bind_assoc (done s) j k = refl
  bind_assoc panic j k = refl
  bind_assoc undefined j k = refl

  try_each-append :
      (ps qs : List ℕ) (s : Allocators A) → try_each (ps ++ qs) s ≡ (try_each ps s >>= try_each qs)
  try_each-append [] qs s = refl
  try_each-append (p ∷ ps) qs s =
      ap (λ k. try_free_zones free zs p s >>= k) (λ i x. try_each-append ps qs x i)
      ∙ sym (bind_assoc (try_free_zones free zs p s) (try_each ps) (try_each qs))

  module _ (kstart kend : ℕ) where
    free_loop_lem :
        (fuel n page ed : ℕ) (s : Allocators A)
        → ed - page ≡ 4096 * n
        → n < fuel
        → ed + 4096 ≤ 2 ^ 64
        → free_loop free kstart kend zs fuel page ed s
          ≡ some (try_each (pages_from kstart kend n page) s)
    unfolding free_loop
    free_loop_lem zero n page ed s e lt fits = absurd (omega arith)
    free_loop_lem (suc fuel) zero page ed s e lt fits =
        let over : ltb page ed ≡ false = ground (arith, e) in rw over refl
    free_loop_lem (suc fuel) (suc n) page ed s e lt fits =
        let more : ltb page ed ≡ true = ground (arith, e) in
        let next : add64 page 4096 ≡ page + 4096 = omega arith in
        elim (Bool-cases (is_kernel free kstart kend zs page)) [
          | inl k ↦
              rw (more, k, next)
                (free_loop_lem fuel n (page + 4096) ed s (omega arith) (omega arith) fits)
          | inr u ↦
              rw (more, u, next)
                (ap (and_then (some (try_free_zones free zs page s))) (λ i t.
                    free_loop_lem fuel n (page + 4096) ed t (omega arith) (omega arith) fits i)
                  ∙ and_then-bind (try_free_zones free zs page s)
                      (try_each (pages_from kstart kend n (page + 4096))))
        ]

    region_lem :
        (fuel : ℕ) (r : MemoryRegion) (s : Allocators A)
        → IsInRange fuel r
        → free_loop free kstart kend zs fuel
            (roundup 64 r.base 4096)
            (rounddown (add64 r.base r.size) 4096)
            s
          ≡ some (try_each (region_pages kstart kend r) s)
    unfolding region_pages
    region_lem fuel r s (fits, enough) =
        let sum : add64 r.base r.size ≡ r.base + r.size = omega arith in
        let (a, b, c) = roundup_least 64 r.base 4096 (omega arith) (omega arith) in
        let (d, e, f) = rounddown_greatest (r.base + r.size) 4096 (omega arith) in
        rw sum (free_loop_lem fuel _ _ _ s (omega arith) (omega arith) (omega arith))

    -- The pages of all regions.
    usable_pages : List MemoryRegion → List ℕ
    usable_pages [] = []
    usable_pages (r ∷ rs) =
        if r.type_code == 1 then region_pages kstart kend r ++ usable_pages rs else usable_pages rs

    count-usable_pages :
        (p fuel : ℕ) (rs : List MemoryRegion)
        → All (IsInRange fuel) rs
        → count p (usable_pages rs)
          ≡ (if not (in_kernel kstart kend p) && (p % 4096 == 0) then holding p rs else 0)
    unfolding count usable_pages
    count-usable_pages p fuel [] h = ground arith
    count-usable_pages p fuel (r ∷ rs) (h, hs) =
        let rest = count-usable_pages p fuel rs hs in
        elim (Bool-cases (r.type_code == 1)) [
          | inl t ↦ rw t (
              ground (
                arith,
                count-append p (region_pages kstart kend r) (usable_pages rs),
                count-region_pages kstart kend p fuel r h,
                rest,
              ))
          | inr n ↦ rw n (ground (arith, rest))
        ]

    gives :
        (fuel : ℕ) (rs : List MemoryRegion) (s : Allocators A)
        → All (IsInRange fuel) rs
        → arch_init_free_pmm_zone free kstart kend zs fuel rs s
          ≡ some (try_each (usable_pages rs) s)
    unfolding arch_init_free_pmm_zone usable_pages
    gives fuel [] s h = refl
    gives fuel (r ∷ rs) s (h, hs) = elim (Bool-cases (r.type_code == 1)) [
      | inl t ↦
          rw (arch_init_free_pmm_zone, t)
            (ap (λ o. and_then o (arch_init_free_pmm_zone free kstart kend zs fuel rs))
                (region_lem fuel r s h)
              ∙ ap (and_then (some (try_each (region_pages kstart kend r) s)))
                  (λ i x. gives fuel rs x hs i)
              ∙ and_then-bind (try_each (region_pages kstart kend r) s) (try_each (usable_pages rs))
              ∙ ap some (sym (try_each-append (region_pages kstart kend r) (usable_pages rs) s)))
      | inr n ↦ rw (arch_init_free_pmm_zone, n) (gives fuel rs s hs)
    ]

    -- For three zones one behind the other up to `top`, below 2^64, and a memory map whose regions
    -- end two pages below 2^64 or earlier and hold no whole page from `top` on, with fuel above the
    -- number of pages of the largest region: `arch_init_free_pmm_zone` gives a list of pages, one
    -- after the other, each to the allocator of the one zone that it is in, and stops where a `free`
    -- fails. An address is on the list if it is that of a page outside the kernel, as often as
    -- there are usable regions that hold the whole page, and else not at all.
    pub arch_init_free_pmm_zone_lem :
        {normal_top top : ℕ} (fuel : ℕ) (rs : List MemoryRegion) (s : Allocators A)
        → ArePartition zs normal_top top
        → top < 2 ^ 64
        → top % 4096 ≡ 0
        → All (IsInRange fuel) rs
        → All (λ r. r.base + r.size < top + 4096) rs
        → (ps : List ℕ) × (arch_init_free_pmm_zone free kstart kend zs fuel rs s
            ≡ some (free_each ps s))
          × ((p : ℕ)
              → count p ps
                ≡ (if not (in_kernel kstart kend p) && (p % 4096 == 0) then holding p rs else 0))
    arch_init_free_pmm_zone_lem {normal_top = normal_top} {top = top} fuel rs s zones small whole h
          ends =
        let counted : (p : ℕ)
            → count p (usable_pages rs)
              ≡ (if not (in_kernel kstart kend p) && (p % 4096 == 0) then holding p rs else 0) =
          λ p. count-usable_pages p fuel rs h in
        let below : All (λ p. p < top) (usable_pages rs) =
          All-counted (λ p. p < top) (usable_pages rs)
            (λ p listed.
              below_top top p rs whole ends (ground (arith, counted p, listed))
                (ground (arith, counted p, listed))) in
        (
          usable_pages rs,
          gives fuel rs s h ∙ ap some (try_each-same zones small (usable_pages rs) s below),
          counted,
        )
