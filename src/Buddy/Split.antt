-- ===== src/Buddy/Split.antt =====
-- The loop of `malloc` that splits a block: the upper halves become free blocks.
use native.Mathlib.Nat.{one-le-pow, pow-suc}
use fdu_os.Common.{ℕ, zero, suc, ◌+◌, ◌%◌, ◌^◌, ◌<◌, ◌≡◌, refl, ◌∙◌, false, List, ◌∷◌, arith}
use fdu_os.Buddy.{BuddyPage, Buddy, put_page, get_high_index, split_once, split_loop, list_add}
use fdu_os.Buddy.Shifts.{get_high_index-first, aligned-le, aligned-add}
use fdu_os.Buddy.Tiles.{Tile, free, hits, Covers-le, used_here, count, total, free_size, waste}
use fdu_os.Buddy.Holes.{Hole, Covers-put_page, Before-put_page}

module _ {b : Buddy} {l r : List Tile} {i k : ℕ} (h : Hole b l i (suc k) r) where
  aligned_half : i % 2 ^ k ≡ 0
  aligned_half = aligned-le k (suc k) i (omega arith) h.aligned

  high_lem : get_high_index i k ≡ i + 2 ^ k
  high_lem = get_high_index-first k i aligned_half h.aligned

  high_inside : i + 2 ^ k < b.page_count
  high_inside = omega (
    arith,
    pow-suc 2 k,
    one-le-pow k 2,
    Covers-le b.pages b.max_order (i + 2 ^ suc k) r b.page_count h.after,
  )

  upper : BuddyPage
  upper = record (b.pages (i + 2 ^ k)) { in_use = false; order = k }

  -- The guard of the loop always passes, and this is what it does.
  split_once-eq :
      split_once i k b
      ≡ list_add (i + 2 ^ k) k (record b { pages = put_page b.pages (i + 2 ^ k) upper })
  unfolding split_once upper
  split_once-eq = rw high_lem (ground (arith, high_inside))

  halves_add : i + 2 ^ k + 2 ^ k ≡ i + 2 ^ suc k
  halves_add = omega (arith, pow-suc 2 k)

  split_once-Hole : Hole (split_once i k b) l i k (free k ∷ r)
  unfolding list_add count upper
  split_once-Hole = rw split_once-eq (record {
    before = Before-put_page b.pages b.max_order (i + 2 ^ k) upper i l (omega arith) h.before;
    after = (
      record {
        aligned = aligned-add k i aligned_half;
        order_le = omega (arith, h.order_le);
        page_order = ground arith;
        page_use = ground arith;
        asked = tt;
      },
      rw halves_add (
          Covers-put_page b.pages b.max_order (i + 2 ^ k) upper (i + 2 ^ suc k) r b.page_count
            (omega (arith, halves_add, one-le-pow k 2)) h.after),
    );
    aligned = aligned_half;
    order_le = omega (arith, h.order_le);
    listed = λ o j. rw halves_add (ground (arith, h.listed o j));
  })

-- The free blocks that splitting a block of order `target + rounds` down to `target` leaves
-- behind the block, in front of the blocks `r`.
abbrev pub split_tiles : ℕ → ℕ → List Tile → List Tile
split_tiles zero target r = r
split_tiles (suc rounds) target r = split_tiles rounds target (free (target + rounds) ∷ r)

pub total-split_tiles :
    (rounds target : ℕ) (r : List Tile)
    → total free_size (split_tiles rounds target r) + 2 ^ target
      ≡ total free_size r + 2 ^ (target + rounds)
total-split_tiles zero target r = let e : target + 0 ≡ target = omega arith in rw e
total-split_tiles (suc rounds) target r =
    let e : target + suc rounds ≡ suc (target + rounds) = omega arith in
    rw e (
      omega (
        arith,
        pow-suc 2 (target + rounds),
        total-split_tiles rounds target (free (target + rounds) ∷ r),
      ))

pub waste-split_tiles :
    (rounds target : ℕ) (r : List Tile) → total waste (split_tiles rounds target r) ≡ total waste r
waste-split_tiles zero target r = refl
waste-split_tiles (suc rounds) target r =
    waste-split_tiles rounds target (free (target + rounds) ∷ r) ∙ omega arith

-- Splitting moves no block that is in use.
pub used-split_tiles :
    (o d j i rounds target : ℕ) (r : List Tile)
    → hits (used_here o d j) (i + 2 ^ target) (split_tiles rounds target r)
      ≡ hits (used_here o d j) (i + 2 ^ (target + rounds)) r
used-split_tiles o d j i zero target r = let e : target + 0 ≡ target = omega arith in rw e
used-split_tiles o d j i (suc rounds) target r =
    let e : i + 2 ^ (target + suc rounds) ≡ i + 2 ^ (target + rounds) + 2 ^ (target + rounds) =
      add_halves in
    rw e (omega (arith, used-split_tiles o d j i rounds target (free (target + rounds) ∷ r)))
  where
    add_halves : i + 2 ^ (target + suc rounds) ≡ i + 2 ^ (target + rounds) + 2 ^ (target + rounds)
    add_halves =
        let e : target + suc rounds ≡ suc (target + rounds) = omega arith in
        rw e (omega (arith, pow-suc 2 (target + rounds)))

pub split_loop-Hole :
    (rounds target : ℕ) (b : Buddy) (l : List Tile) (i : ℕ) (r : List Tile)
    → Hole b l i (target + rounds) r
    → Hole (split_loop rounds target i b) l i target (split_tiles rounds target r)
unfolding split_loop
split_loop-Hole zero target b l i r h = let e : target + 0 ≡ target = omega arith in rw e at h
split_loop-Hole (suc rounds) target b l i r h =
    let e : target + suc rounds ≡ suc (target + rounds) = omega arith in
    split_loop-Hole rounds target (split_once i (target + rounds) b) l i
      (free (target + rounds) ∷ r) (split_once-Hole (rw e at h))

-- What the loop leaves as it is.
pub record Kept (b b' : Buddy) (i : ℕ) : Type 0 where
  pub page : b'.pages i ≡ b.pages i
  pub max_order : b'.max_order ≡ b.max_order
  pub base : b'.base ≡ b.base
  pub page_size : b'.page_size ≡ b.page_size
  pub page_count : b'.page_count ≡ b.page_count
  pub free_page_count : b'.free_page_count ≡ b.free_page_count
  pub waste_page_count : b'.waste_page_count ≡ b.waste_page_count

split_once-Kept :
    {b : Buddy} {l r : List Tile} {i k : ℕ} (h : Hole b l i (suc k) r) → Kept b (split_once i k b) i
unfolding list_add
split_once-Kept {k = k} h = rw (split_once-eq h) (record {
  page = ground (arith, one-le-pow k 2);
  max_order = refl;
  base = refl;
  page_size = refl;
  page_count = refl;
  free_page_count = refl;
  waste_page_count = refl;
})

Kept-trans : {a b c : Buddy} {i : ℕ} → Kept a b i → Kept b c i → Kept a c i
Kept-trans p q = record {
  page = q.page ∙ p.page;
  max_order = q.max_order ∙ p.max_order;
  base = q.base ∙ p.base;
  page_size = q.page_size ∙ p.page_size;
  page_count = q.page_count ∙ p.page_count;
  free_page_count = q.free_page_count ∙ p.free_page_count;
  waste_page_count = q.waste_page_count ∙ p.waste_page_count;
}

pub split_loop-Kept :
    (rounds target : ℕ) (b : Buddy) (l : List Tile) (i : ℕ) (r : List Tile)
    → Hole b l i (target + rounds) r
    → Kept b (split_loop rounds target i b) i
unfolding split_loop
split_loop-Kept zero target b l i r h = record {
  page = refl;
  max_order = refl;
  base = refl;
  page_size = refl;
  page_count = refl;
  free_page_count = refl;
  waste_page_count = refl;
}
split_loop-Kept (suc rounds) target b l i r h =
    let e : target + suc rounds ≡ suc (target + rounds) = omega arith in
    let h' : Hole b l i (suc (target + rounds)) r = rw e at h in
    Kept-trans (split_once-Kept h') (
      split_loop-Kept rounds target (split_once i (target + rounds) b) l i
        (free (target + rounds) ∷ r) (split_once-Hole h'))
