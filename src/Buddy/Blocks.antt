-- ===== src/Buddy/Blocks.antt =====
-- Finding a block of an allocator at rest, and the sums over its blocks.
use fdu_os.Common.{ℕ, ◌+◌, ◌-◌, ◌^◌, ◌≤◌, ◌<◌, ◌≡◌, Bool, true, List, [], ◌∷◌, arith}
use fdu_os.Buddy.{BuddyPage, Buddy}
use fdu_os.Buddy.Tiles.{
  Tile, free, used, size, Holds, hits, Covers, Before, free_here, used_here, count, total,
  free_size, waste, rev_append,
}
use fdu_os.Buddy.Holes.{IsValid, Found, find}

-- Free and wasted pages together are pages of the cover.
pub total-le :
    (pages : ℕ → BuddyPage) (m i : ℕ) (ts : List Tile) (e : ℕ)
    → Covers pages m i ts e
    → i + total free_size ts + total waste ts ≤ e
total-le pages m i [] e h = omega arith
total-le pages m i (free o ∷ ts) e h = omega (arith, total-le pages m (i + 2 ^ o) ts e h.1)
total-le pages m i (used o c ∷ ts) e h = omega (arith, total-le pages m (i + 2 ^ o) ts e h.1)

pub total_before-le :
    (pages : ℕ → BuddyPage) (m i : ℕ) (l : List Tile) → Before pages m i l → total free_size l ≤ i
total_before-le pages m i [] h = omega arith
total_before-le pages m i (free o ∷ l) h =
    omega (arith, h.0, total_before-le pages m (i - 2 ^ o) l h.2)
total_before-le pages m i (used o c ∷ l) h =
    omega (arith, h.0, total_before-le pages m (i - 2 ^ o) l h.2)

-- The block `t` at page `i`, with the blocks around it.
pub record BlockAt (b : Buddy) (ts : List Tile) (t : Tile) (i : ℕ) : Type 0 where
  pub left : List Tile
  pub right : List Tile
  pub before : Before b.pages b.max_order i left
  pub holds : Holds b.pages b.max_order i t
  pub after : Covers b.pages b.max_order (i + size t) right b.page_count
  pub same : rev_append left (t ∷ right) ≡ ts

module _ {b : Buddy} {ts : List Tile} (f : ℕ → Tile → Bool) (t : Tile) (i : ℕ)
    (only : (j : ℕ) (s : Tile) → f j s ≡ true → (j ≡ i) × (s ≡ t)) where
  -- A test that only this block passes finds it.
  only_hit : Found b.pages b.max_order f ts b.page_count → BlockAt b ts t i
  only_hit g =
      let (ei, et) = only g.start g.tile g.passes in
      rw (← ei, ← et)
        (record {
          left = g.left;
          right = g.right;
          before = g.before;
          holds = g.holds;
          after = g.after;
          same = g.same;
        })

  block_at : IsValid b ts → 0 < hits f 0 ts → BlockAt b ts t i
  block_at v h = only_hit (find b.pages b.max_order f ts b.page_count v.cover h)

only_free : (k i j : ℕ) (s : Tile) → free_here k i j s ≡ true → (j ≡ i) × (s ≡ free k)
only_free k i j (free o) h = ground arith
only_free k i j (used o c) h = cc

only_used : (k c i j : ℕ) (s : Tile) → used_here k c i j s ≡ true → (j ≡ i) × (s ≡ used k c)
only_used k c i j (free o) h = cc
only_used k c i j (used o d) h = ground arith

-- Every index on a list is a free block of that order.
pub free_block :
    {b : Buddy} {ts : List Tile} (k i : ℕ)
    → IsValid b ts
    → 0 < count i (b.list k)
    → BlockAt b ts (free k) i
free_block k i v h =
    block_at (free_here k i) (free k) i (only_free k i) v (omega (arith, v.listed k i))

pub used_block :
    {b : Buddy} {ts : List Tile} (k c i : ℕ)
    → IsValid b ts
    → 0 < hits (used_here k c i) 0 ts
    → BlockAt b ts (used k c) i
used_block k c i v h = block_at (used_here k c i) (used k c) i (only_used k c i) v h
