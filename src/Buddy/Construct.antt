-- ===== src/Buddy/Construct.antt =====
-- The constructor leaves an allocator at rest in which every page is a block in use of its own.
use fdu_os.Common.{
  ℕ, zero, suc, ◌+◌, ◌^◌, ◌≤◌, ◌<◌, ◌≡◌, refl, true, List, [], ◌∷◌, some, leb, leb→le, Bool-cases,
  inl, inr, arith,
}
use fdu_os.Common.Outcome.{done}
use fdu_os.Buddy.{Buddy, max_order_from, initial_page, ctor}
use fdu_os.Buddy.Tiles.{Tile, used, hits, Covers, free_here, count, total, free_size, waste}
use fdu_os.Buddy.Holes.{IsValid}

-- The largest order whose block fits the pages.
pub record IsLargestOrder (page_count m : ℕ) : Type 0 where
  pub fits : 0 < page_count → 2 ^ m ≤ page_count
  pub largest : page_count < 2 ^ (m + 1)

max_order_from_lem :
    (fuel m page_count : ℕ)
    → (0 < page_count → 2 ^ m ≤ page_count)
    → page_count < 2 ^ (m + fuel + 1)
    → (r : ℕ) × (max_order_from (suc fuel) m page_count ≡ some r)
      × IsLargestOrder page_count r
      × (r ≤ m + fuel)
unfolding max_order_from
max_order_from_lem zero m pc h lt =
    let e : m + 0 + 1 ≡ m + 1 = omega arith in
    let small : pc < 2 ^ (m + 1) = rw (← e) lt in
    (m, ground arith, record { fits = h; largest = small }, omega arith)
max_order_from_lem (suc fuel) m pc h lt = elim (Bool-cases (leb (2 ^ (m + 1)) pc)) [
  | inl more ↦
      let e : m + suc fuel + 1 ≡ m + 1 + fuel + 1 = omega arith in
      let (r, found, is, le) =
        max_order_from_lem fuel (m + 1) pc (λ pos. leb→le (2 ^ (m + 1)) pc more) (rw (← e) lt) in
      (r, rw more found, is, omega arith)
  | inr stop ↦ (m, rw stop, record { fits = h; largest = ground arith }, omega arith)
]

-- `n` pages, each a block of its own.
abbrev pub single_pages : ℕ → List Tile
single_pages zero = []
single_pages (suc n) = used 0 1 ∷ single_pages n

module _ (m : ℕ) where
  single_pages-Covers : (n i e : ℕ) → i + n ≡ e → Covers (λ j. initial_page) m i (single_pages n) e
  single_pages-Covers zero i e h = omega arith
  single_pages-Covers (suc n) i e h = (
    record {
      aligned = omega arith;
      order_le = omega arith;
      page_order = refl;
      page_use = refl;
      asked = (refl, omega arith);
    },
    single_pages-Covers n (i + 1) e (omega arith),
  )

none_free : (o j n i : ℕ) → hits (free_here o j) i (single_pages n) ≡ 0
none_free o j zero i = refl
none_free o j (suc n) i = omega (arith, none_free o j n (i + 1))

nothing_free : (n : ℕ) → total free_size (single_pages n) ≡ 0
nothing_free zero = refl
nothing_free (suc n) = omega (arith, nothing_free n)

nothing_wasted : (n : ℕ) → total waste (single_pages n) ≡ 0
nothing_wasted zero = refl
nothing_wasted (suc n) = omega (arith, nothing_wasted n)

-- For fewer than 2^31 pages and memory for the page descriptors, the constructor succeeds with
-- the largest order that fits the pages, and leaves an allocator at rest in which each page is a
-- block in use of its own, so none is free.
pub ctor-IsValid :
    (base page_size page_count : ℕ)
    → 0 < page_size
    → page_count < 2 ^ 31
    → (b : Buddy) × (ctor true base page_size page_count ≡ done b)
      × IsValid b (single_pages page_count)
      × IsLargestOrder page_count b.max_order
      × (b.page_count ≡ page_count)
unfolding ctor count
ctor-IsValid base page_size page_count pos small =
    let (m, found, is, le) = max_order_from_lem 30 0 page_count (λ p. omega arith) small in
    (
      record {
        pages = λ i. initial_page;
        list = λ k. [];
        max_order = m;
        base = base;
        page_size = page_size;
        page_count = page_count;
        free_page_count = 0;
        waste_page_count = 0;
      },
      rw (found, ctor),
      record {
        cover = single_pages-Covers m page_count 0 page_count (omega arith);
        listed = λ o j. omega (arith, none_free o j page_count 0);
        free_count = omega (arith, nothing_free page_count);
        waste_count = omega (arith, nothing_wasted page_count);
        order_small = omega arith;
        count_small = small;
        size_pos = pos;
      },
      is,
      refl,
    )
