-- ===== src/Bridge/OverBuddy.antt =====
-- The bridge over a buddy allocator with pages of 4 KB keeps the promises of a `virt_pvbridge`.
use native.Mathlib.Nat.{one-le-pow}
use fdu_os.Common.{
  ℕ, ◌+◌, ◌*◌, ◌%◌, ◌^◌, ◌≤◌, ◌<◌, ◌≡◌, ◌≢◌, refl, sym, ap, ◌∙◌, false, List, inl, inr, ◌==◌, ltb,
  if◌then◌else◌, arith, Bool-cases, ltb→lt, set, ==→eq,
}
use fdu_os.Common.Words.{word, add64, sub32}
use fdu_os.Common.Outcome.{Outcome, done, ◌>>=◌}
use fdu_os.Util.{div_round_up}
use fdu_os.Util.Rounding.{div_round_up-eq}
use fdu_os.Buddy
use fdu_os.Buddy.{Buddy, no_address, aligned_malloc}
use fdu_os.Buddy.Tiles.{Tile, hits, used_here}
use fdu_os.Buddy.Holes.{IsValid}
use fdu_os.Buddy.Take.{Granted}
use fdu_os.Buddy.Malloc.{pages_for}
use fdu_os.Buddy.Free.{Freed, free_lem}
use fdu_os.Buddy.RoundTrip.{address_exact}
use fdu_os.Buddy.Aligned.{
  MallocsAligned, granted_aligned, refused_aligned, requested, aligned_malloc_lem,
}
use fdu_os.Buddy.Disjoint.{same, below, above, used_Separate, used_once}
use fdu_os.Bridge.{buddy_pmalloc, bridge_aligned_malloc, bridge_free, koffset_pvbridge}
use fdu_os.Bridge.Pieces.{AreApart, Gives, nothing, piece, PieceLaws}

-- `n` bytes from `x` on are those of a block in use.
pub record UsedPiece (koffset base page_count : ℕ) (ts : List Tile) (x n : ℕ) : Type 0 where
  pub order : ℕ
  pub pages : ℕ
  pub index : ℕ
  pub in_use : 0 < hits (used_here order pages index) 0 ts
  pub covers : n ≤ 4096 * pages
  pub enough : pages ≤ 2 ^ order
  pub inside : index + 2 ^ order ≤ page_count
  pub starts : x ≡ base + 4096 * index + koffset

-- The allocator is at rest, over pages of 4 KB that stay below 2^32 when shifted by `koffset`, and
-- each piece is a block in use.
pub record BuddyHolds (koffset : ℕ) (b : Buddy) (h : ℕ → ℕ) : Type 0 where
  pub blocks : List Tile
  pub valid : IsValid b blocks
  pub page : b.page_size ≡ 4096
  pub boundary : b.base % 4096 ≡ 0
  pub fits : b.base + 4096 * b.page_count + koffset ≤ 2 ^ 32
  pub used : (x : ℕ) → 0 < h x → UsedPiece koffset b.base b.page_count blocks x (h x)

module _ (koffset : ℕ) (positive : 0 < koffset) (whole : koffset % 4096 ≡ 0) where
  piece_end :
      {base page_count : ℕ} {ts : List Tile} {x n : ℕ}
      → (u : UsedPiece koffset base page_count ts x n)
      → x + n ≤ base + 4096 * (u.index + 2 ^ u.order) + koffset
  piece_end u = omega (arith, u.covers, u.enough, u.starts)

  bounded_lem :
      (b : Buddy) (h : ℕ → ℕ) (x : ℕ)
      → BuddyHolds koffset b h
      → 0 < h x
      → (0 < x) × (x + h x ≤ 2 ^ 32)
  bounded_lem b h x r p =
      let u = r.used x p in (omega (arith, u.starts), omega (arith, piece_end u, u.inside, r.fits))

  apart_lem :
      (b : Buddy) (h : ℕ → ℕ) (x y : ℕ)
      → BuddyHolds koffset b h
      → 0 < h x
      → 0 < h y
      → x ≢ y
      → AreApart x (h x) y (h y)
  apart_lem b h x y r p q ne =
      let u = r.used x p in
      let w = r.used y q in
      elim (used_Separate u.order u.pages u.index w.order w.pages w.index 0 r.blocks u.in_use
        w.in_use) [
          | same eo ec ej ↦ absurd (ne (omega (arith, u.starts, w.starts)))
          | below le ↦ inl (omega (arith, piece_end u, w.starts))
          | above le ↦ inr (omega (arith, piece_end w, u.starts))
        ]

  -- The other pieces are in use after `free` too.
  module _ {b b' : Buddy} {ts : List Tile} {o c i : ℕ} (f : Freed b b' ts o c i) where
    piece-Freed :
        {y n : ℕ}
        → (w : UsedPiece koffset b.base b.page_count ts y n) → w.index ≢ i
        → UsedPiece koffset b'.base b'.page_count f.blocks y n
    piece-Freed w ne = record {
      order = w.order;
      pages = w.pages;
      index = w.index;
      in_use = ground (arith, f.less w.order w.pages w.index, w.in_use, ne);
      covers = w.covers;
      enough = w.enough;
      inside = rw f.same_page_count w.inside;
      starts = rw f.same_base w.starts;
    }

    holds-Freed :
        {h : ℕ → ℕ} (x : ℕ)
        → (r : BuddyHolds koffset b h) → r.blocks ≡ ts
        → x ≡ b.base + 4096 * i + koffset
        → BuddyHolds koffset b' (set h x 0)
    holds-Freed {h} x r e at = record {
      blocks = f.blocks;
      valid = f.valid;
      page = f.same_page_size ∙ r.page;
      boundary = rw f.same_base r.boundary;
      fits = rw (f.same_base, f.same_page_count) r.fits;
      used = λ y. λ q. elim (Bool-cases (x == y)) [
        | inl here ↦ absurd (ground arith)
        | inr other ↦
            let w = r.used y (ground arith) in
            rw other (piece-Freed (rw e at w) (ground (arith, w.starts)))
      ];
    }

  bridge_free-step :
      {b' : Buddy} (b : Buddy) (x a : ℕ)
      → (x == 0) ≡ false
      → sub32 x koffset ≡ a
      → Buddy.free a b ≡ done b'
      → bridge_free koffset buddy_pmalloc x b ≡ done b'
  unfolding bridge_free
  bridge_free-step b x a nonzero back e = rw (nonzero, back) e

  bridge_free_lem :
      (b : Buddy) (h : ℕ → ℕ) (x : ℕ)
      → BuddyHolds koffset b h
      → 0 < h x
      → (b' : Buddy) × (bridge_free koffset buddy_pmalloc x b ≡ done b')
        × BuddyHolds koffset b' (set h x 0)
  bridge_free_lem b h x r p =
      let u = r.used x p in
      let nonzero : (x == 0) ≡ false = ground (arith, u.starts) in
      let back : sub32 x koffset ≡ b.base + 4096 * u.index =
        omega (arith, u.starts, u.inside, r.fits, one-le-pow u.order 2) in
      let (b', e, f) =
        free_lem u.order u.pages u.index r.valid (rw r.page r.boundary)
          (rw r.page (omega (arith, r.fits))) u.in_use in
      (
        b',
        bridge_free-step b x (b.base + 4096 * u.index) nonzero back
            (ap (λ z. Buddy.free (b.base + z * u.index) b) (sym r.page) ∙ e),
        holds-Freed f x r refl u.starts,
      )

  -- The bridge's result from that of the allocator.
  abbrev bridged_result : ℕ × Buddy → Outcome (ℕ × Buddy)
  bridged_result (pa, s') =
      if pa == no_address then done (0, s') else done (word (add64 pa koffset), s')

  module _ {b b' : Buddy} {h : ℕ → ℕ} {cnt a : ℕ} (size : ℕ) (r : BuddyHolds koffset b h)
      (g : Granted b b' r.blocks cnt a) (whole_address : a % 2 ^ 12 ≡ 0) (some_bytes : 0 < size)
      (covers : size ≤ 4096 * cnt) where
    address : a ≡ b.base + 4096 * g.index
    address =
        let lt : g.index < b.page_count = omega (arith, one-le-pow g.order 2, g.inside) in
        rw r.page at (
          g.address_of
          ∙ address_exact b g.index lt (rw r.page (omega (arith, r.fits)))
              (rw r.page (omega (arith, r.fits))) r.valid.size_pos)

    address_end : a + 4096 * 2 ^ g.order + koffset ≤ 2 ^ 32
    address_end = omega (arith, address, g.inside, r.fits)

    kept_piece :
        {y n : ℕ}
        → UsedPiece koffset b.base b.page_count r.blocks y n
        → UsedPiece koffset b'.base b'.page_count g.blocks y n
    kept_piece w = record {
      order = w.order;
      pages = w.pages;
      index = w.index;
      in_use = omega (arith, g.more w.order w.pages w.index, w.in_use);
      covers = w.covers;
      enough = w.enough;
      inside = rw g.same_page_count w.inside;
      starts = rw g.same_base w.starts;
    }

    new_piece : UsedPiece koffset b'.base b'.page_count g.blocks (a + koffset) size
    new_piece = record {
      order = g.order;
      pages = cnt;
      index = g.index;
      in_use = ground (arith, g.more g.order cnt g.index);
      covers = covers;
      enough = g.least.enough;
      inside = rw g.same_page_count g.inside;
      starts = rw g.same_base (omega (arith, address));
    }

    -- No piece started at the new address: its block would have been in use twice.
    not_twice : {n : ℕ} → UsedPiece koffset b.base b.page_count r.blocks (a + koffset) n → n ≡ 0
    not_twice w =
        let e : w.index ≡ g.index = omega (arith, w.starts, address) in
        let old : 0 < hits (used_here w.order w.pages w.index) 0 g.blocks =
          omega (arith, g.more w.order w.pages w.index, w.in_use) in
        let new : 0 < hits (used_here g.order cnt g.index) 0 g.blocks =
          ground (arith, g.more g.order cnt g.index) in
        elim (used_Separate w.order w.pages w.index g.order cnt g.index 0 g.blocks old new) [
          | same eo ec ej ↦ absurd (
              ground (
                arith,
                g.more g.order cnt g.index,
                used_once g.order cnt g.index 0 g.blocks,
                rw (eo, ec, ej) at w.in_use,
              ))
          | below le ↦ absurd (omega (arith, one-le-pow w.order 2))
          | above le ↦ absurd (omega (arith, one-le-pow g.order 2))
        ]

    fresh : h (a + koffset) ≡ 0
    fresh = elim (Bool-cases (ltb 0 (h (a + koffset)))) [
      | inr free ↦ ground arith
      | inl held ↦ not_twice (r.used (a + koffset) (ltb→lt 0 (h (a + koffset)) held))
    ]

    holds-Granted : BuddyHolds koffset b' (set h (a + koffset) size)
    holds-Granted = record {
      blocks = g.blocks;
      valid = g.valid;
      page = g.same_page_size ∙ r.page;
      boundary = rw g.same_base r.boundary;
      fits = rw (g.same_base, g.same_page_count) r.fits;
      used = λ y. λ q. elim (Bool-cases (a + koffset == y)) [
        | inl here ↦ rw (here, ← ==→eq (a + koffset) y here) new_piece
        | inr other ↦ rw other (kept_piece (r.used y (ground arith)))
      ];
    }

    given : Gives (BuddyHolds koffset) h size (bridged_result (a, b'))
    given =
        let there : (a == no_address) ≡ false = ground (arith, address_end) in
        let pointer : word (add64 a koffset) ≡ a + koffset =
          omega (arith, address_end, one-le-pow g.order 2) in
        rw (there, pointer) (piece (omega (arith, whole_address)) fresh holds-Granted)

  MallocsAligned-Gives :
      {b : Buddy} {h : ℕ → ℕ} {cnt : ℕ} {m : Outcome (ℕ × Buddy)} (size : ℕ)
      → (r : BuddyHolds koffset b h) → 0 < size
      → size ≤ 4096 * cnt
      → MallocsAligned b r.blocks cnt (2 ^ 12) m
      → Gives (BuddyHolds koffset) h size (m >>= bridged_result)
  MallocsAligned-Gives size r p c (granted_aligned g e) = given size r g e p c
  MallocsAligned-Gives size r p c (refused_aligned n) = nothing r

  enough_pages :
      (b : Buddy) (size : ℕ)
      → b.page_size ≡ 4096
      → size < 2 ^ 32
      → (size ≤ 4096 * pages_for b (requested size (2 ^ 12)))
        × (div_round_up 64 (requested size (2 ^ 12)) b.page_size ≤ 2 ^ 31)
        × (requested size (2 ^ 12) + b.page_size ≤ 2 ^ 64)
  enough_pages b size e small =
      let bytes = requested size (2 ^ 12) in
      let le : size ≤ bytes = ground arith in
      let room : bytes ≤ 2 ^ 32 = ground arith in
      let q = div_round_up-eq 64 bytes 4096 (omega arith) (omega arith) in
      rw (e, q) (omega arith, omega arith, omega arith)

  bridge_aligned_malloc_lem :
      (b : Buddy) (h : ℕ → ℕ) (size : ℕ)
      → BuddyHolds koffset b h
      → 0 < size
      → size < 2 ^ 32
      → Gives
          (BuddyHolds koffset)
          h
          size
          (bridge_aligned_malloc koffset buddy_pmalloc size (2 ^ 12) b)
  unfolding bridge_aligned_malloc
  bridge_aligned_malloc_lem b h size r p small =
      let (c, d, m) = enough_pages b size r.page small in
      MallocsAligned-Gives size r p c (
        aligned_malloc_lem r.valid 12 12 size r.page (omega arith) r.boundary
          (rw r.page (omega (arith, r.fits))) (rw r.page (omega (arith, r.fits))) m d)

  pub buddy_PieceLaws : PieceLaws (koffset_pvbridge koffset buddy_pmalloc) (BuddyHolds koffset)
  buddy_PieceLaws = record {
    bounded = bounded_lem;
    apart = apart_lem;
    gives = bridge_aligned_malloc_lem;
    takes = bridge_free_lem;
  }
