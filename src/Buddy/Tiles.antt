-- ===== src/Buddy/Tiles.antt =====
-- What the fields of the allocator stand for: its pages are covered by blocks, in address order.
-- A block is free, or in use for the pages asked for; only its first page describes it.
use native.Mathlib.Nat.{one-le-pow}
use fdu_os.Common.{
  ℕ, ◌+◌, ◌-◌, ◌%◌, ◌^◌, ◌≤◌, ◌<◌, ◌≡◌, refl, Bool, true, false, ◌&&◌, List, [], ◌∷◌, ◌==◌,
  if◌then◌else◌, arith,
}
use fdu_os.Buddy.{BuddyPage, erase}

pub data Tile : Type 0 where
  free : ℕ → Tile
  used : ℕ → ℕ → Tile

abbrev pub order_of : Tile → ℕ
order_of (free o) = o
order_of (used o c) = o

abbrev pub size : Tile → ℕ
size t = 2 ^ order_of t

abbrev pub is_used : Tile → Bool
is_used (free o) = false
is_used (used o c) = true

-- The pages of a block that its owner did not ask for.
abbrev pub waste : Tile → ℕ
waste (free o) = 0
waste (used o c) = 2 ^ o - c

abbrev pub free_size : Tile → ℕ
free_size (free o) = 2 ^ o
free_size (used o c) = 0

abbrev pub Asked : BuddyPage → Tile → Type 0
Asked p (free o) = Unit
Asked p (used o c) = (p.cur_page_count ≡ c) × (c ≤ 2 ^ o)

-- The first page of a block describes it.
pub record Holds (pages : ℕ → BuddyPage) (max_order i : ℕ) (t : Tile) : Type 0 where
  pub aligned : i % size t ≡ 0
  pub order_le : order_of t ≤ max_order
  pub page_order : (pages i).order ≡ order_of t
  pub page_use : (pages i).in_use ≡ is_used t
  pub asked : Asked (pages i) t

abbrev pub total : (Tile → ℕ) → List Tile → ℕ
total f [] = 0
total f (t ∷ ts) = f t + total f ts

-- How many of the blocks from page `i` on, or before page `i`, nearest first, pass a test.
abbrev pub hits : (ℕ → Tile → Bool) → ℕ → List Tile → ℕ
hits f i [] = 0
hits f i (t ∷ ts) = (if f i t then 1 else 0) + hits f (i + size t) ts

abbrev pub hits_before : (ℕ → Tile → Bool) → ℕ → List Tile → ℕ
hits_before f i [] = 0
hits_before f i (t ∷ ts) = (if f (i - size t) t then 1 else 0) + hits_before f (i - size t) ts

abbrev pub free_here : ℕ → ℕ → ℕ → Tile → Bool
free_here o j i (free k) = (k == o) && (i == j)
free_here o j i (used k c) = false

abbrev pub used_here : ℕ → ℕ → ℕ → ℕ → Tile → Bool
used_here o c j i (free k) = false
used_here o c j i (used k d) = (k == o) && (d == c) && (i == j)

abbrev pub rev_append : List Tile → List Tile → List Tile
rev_append [] ts = ts
rev_append (t ∷ l) ts = rev_append l (t ∷ ts)

unfoldable pub count : ℕ → List ℕ → ℕ
count j [] = 0
count j (i ∷ is) = (if i == j then 1 else 0) + count j is

pub count-cons_self : (i : ℕ) (is : List ℕ) → 0 < count i (i ∷ is)
unfolding count
count-cons_self i is = ground arith

pub count-erase :
    (i j : ℕ) (is : List ℕ) → count j (erase i is) ≡ (if i == j then count j is - 1 else count j is)
unfolding count erase
count-erase i j [] = ground arith
count-erase i j (k ∷ is) = ground (arith, count-erase i j is)

module _ (pages : ℕ → BuddyPage) (max_order : ℕ) where
  -- The blocks cover the pages from `i` to `e`.
  abbrev pub Covers : ℕ → List Tile → ℕ → Type 0
  Covers i [] e = i ≡ e
  Covers i (t ∷ ts) e = Holds pages max_order i t × Covers (i + size t) ts e

  -- The blocks cover the pages from 0 to `i`; the list begins with the last of them.
  abbrev pub Before : ℕ → List Tile → Type 0
  Before i [] = i ≡ 0
  Before i (t ∷ l) = (size t ≤ i) × Holds pages max_order (i - size t) t × Before (i - size t) l

  pub Covers-le : (i : ℕ) (ts : List Tile) (e : ℕ) → Covers i ts e → i ≤ e
  Covers-le i [] e h = omega arith
  Covers-le i (t ∷ ts) e h = omega (arith, Covers-le (i + size t) ts e h.1)

  -- Going back over the blocks before `i` leaves a cover of all the pages.
  pub Covers-rev_append :
      (l : List Tile) (i : ℕ) (ts : List Tile) (e : ℕ)
      → Before i l
      → Covers i ts e
      → Covers 0 (rev_append l ts) e
  Covers-rev_append [] i ts e b h = rw b at h
  Covers-rev_append (t ∷ l) i ts e b h =
      let back : i - size t + size t ≡ i = omega arith in
      Covers-rev_append l (i - size t) (t ∷ ts) e b.2 (b.1, rw back h)

  pub hits-rev_append :
      (f : ℕ → Tile → Bool) (l : List Tile) (i : ℕ) (ts : List Tile)
      → Before i l
      → hits f 0 (rev_append l ts) ≡ hits_before f i l + hits f i ts
  hits-rev_append f [] i ts b = rw b (omega arith)
  hits-rev_append f (t ∷ l) i ts b =
      let back : i - size t + size t ≡ i = omega arith in
      omega (arith, rw back at (hits-rev_append f l (i - size t) (t ∷ ts) b.2))

pub total-rev_append :
    (f : Tile → ℕ) (l ts : List Tile) → total f (rev_append l ts) ≡ total f l + total f ts
total-rev_append f [] ts = omega arith
total-rev_append f (t ∷ l) ts = omega (arith, total-rev_append f l (t ∷ ts))

-- No block starts where the blocks do not reach.
pub hits_below : (o j i : ℕ) (ts : List Tile) → j < i → hits (free_here o j) i ts ≡ 0
hits_below o j i [] h = refl
hits_below o j i (free k ∷ ts) h = ground (arith, hits_below o j (i + 2 ^ k) ts)
hits_below o j i (used k c ∷ ts) h = omega (arith, hits_below o j (i + 2 ^ k) ts)

pub hits_before_above :
    (pages : ℕ → BuddyPage) (max_order o j i : ℕ) (l : List Tile)
    → i ≤ j
    → Before pages max_order i l
    → hits_before (free_here o j) i l ≡ 0
hits_before_above pages m o j i [] h b = refl
hits_before_above pages m o j i (free k ∷ l) h b =
    ground (arith, one-le-pow k 2, b.0, hits_before_above pages m o j (i - 2 ^ k) l, b.2)
hits_before_above pages m o j i (used k c ∷ l) h b =
    omega (arith, hits_before_above pages m o j (i - 2 ^ k) l (omega arith) b.2)
