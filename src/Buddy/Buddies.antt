-- ===== src/Buddy/Buddies.antt =====
-- The buddy of the block being freed: it is the first page of a block, of the same order or a
-- smaller one, so the fields that `free` reads there describe a block.
use native.Mathlib.Nat.{one-le-pow, pow-suc}
use fdu_os.Common.{
  ℕ, suc, ◌+◌, ◌-◌, ◌%◌, ◌^◌, ◌≤◌, ◌<◌, ◌≡◌, ◌⊎◌, refl, List, [], ◌∷◌, ◌==◌, ltb, Bool-cases, inl,
  inr, arith,
}
use fdu_os.Buddy.{BuddyPage}
use fdu_os.Buddy.Shifts.{aligned-le, aligned-add, aligned_gap}
use fdu_os.Buddy.Tiles.{Tile, size, order_of, Holds, Before}

-- A block starts at page `x`: it is the last one before page `y`, or it ends before that.
pub record Starts (pages : ℕ → BuddyPage) (max_order x y : ℕ) (l : List Tile) : Type 0 where
  pub tile : Tile
  pub holds : Holds pages max_order x tile
  pub place :
      ((rest : List Tile) × (l ≡ tile ∷ rest) × Before pages max_order x rest × (x + size tile ≡ y))
      ⊎ (x + size tile < y)

module _ (pages : ℕ → BuddyPage) (max_order k x : ℕ) (pair : x % 2 ^ suc k ≡ 0) where
  module _ (t : Tile) (y : ℕ) (lt : x < y) (le : y ≤ x + 2 ^ k) (fits : size t ≤ y)
      (h : Holds pages max_order (y - size t) t) where
    -- The end of a block is as well aligned as its start.
    end_aligned : y % size t ≡ 0
    end_aligned =
        let back : y - size t + size t ≡ y = omega arith in
        rw back at (aligned-add (order_of t) (y - size t) h.aligned)

    order_small : order_of t ≤ k
    order_small = elim (Bool-cases (ltb k (order_of t))) [
      | inl large ↦ absurd (
          omega (
            arith,
            pow-suc 2 k,
            one-le-pow k 2,
            aligned_gap (suc k) x y pair
                (aligned-le (suc k) (order_of t) y (ground arith) end_aligned) lt,
          ))
      | inr small ↦ ground arith
    ]

    -- The block does not begin before `x`.
    start_le : x + size t ≤ y
    start_le =
        aligned_gap (order_of t) x y
          (aligned-le (order_of t) (suc k) x (omega (arith, order_small)) pair) end_aligned lt

  pub starts :
      (l : List Tile) (y : ℕ)
      → x < y
      → y ≤ x + 2 ^ k
      → Before pages max_order y l
      → Starts pages max_order x y l
  starts [] y lt le b = absurd (omega arith)
  starts (t ∷ l) y lt le b = elim (Bool-cases (x == y - size t)) [
    | inl same ↦
        let e : y - size t ≡ x = ground arith in
        record { tile = t; holds = rw e at b.1; place = inl (l, refl, rw e at b.2, omega arith) }
    | inr other ↦
        let room : x + size t ≤ y = start_le t y lt le b.0 b.1 in
        let s = starts l (y - size t) (ground arith) (omega arith) b.2 in
        record { tile = s.tile; holds = s.holds; place = inr (before_end s.place room) }
  ]
    where
      before_end :
          {l' : List Tile} {s : Tile}
          → ((rest : List Tile) × (l' ≡ s ∷ rest)
              × Before pages max_order x rest
              × (x + size s ≡ y - size t))
            ⊎ (x + size s < y - size t)
          → x + size t ≤ y
          → x + size s < y
      before_end (inl (rest, e, b', q)) room = omega (arith, one-le-pow (order_of t) 2)
      before_end (inr lt') room = omega arith
