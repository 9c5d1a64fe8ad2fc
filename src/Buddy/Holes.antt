-- ===== src/Buddy/Holes.antt =====
-- Taking one block out of the cover, and what a write to a page inside the gap leaves alone.
use native.Mathlib.Nat.{one-le-pow}
use mathlib.Core.Path.{subst}
use fdu_os.Common.{
  ℕ, ◌+◌, ◌-◌, ◌%◌, ◌^◌, ◌≤◌, ◌<◌, ◌≡◌, ◌≢◌, refl, sym, ◌∙◌, ap, Bool, true, List, [], ◌∷◌,
  Bool-cases, inl, inr, arith,
}
use fdu_os.Buddy.{BuddyPage, Buddy, put_page}
use fdu_os.Buddy.Tiles.{
  Tile, size, order_of, Asked, Holds, hits, hits_before, rev_append, Covers, Before, free_here,
  count, total, waste, free_size,
}

-- The blocks around the first one that passes a test.
pub record Found (pages : ℕ → BuddyPage) (max_order : ℕ) (f : ℕ → Tile → Bool) (ts : List Tile)
    (e : ℕ) : Type 0 where
  pub left : List Tile
  pub start : ℕ
  pub tile : Tile
  pub right : List Tile
  pub before : Before pages max_order start left
  pub holds : Holds pages max_order start tile
  pub passes : f start tile ≡ true
  pub after : Covers pages max_order (start + size tile) right e
  pub same : rev_append left (tile ∷ right) ≡ ts

module _ (pages : ℕ → BuddyPage) (max_order : ℕ) (f : ℕ → Tile → Bool) where
  find_from :
      (ts : List Tile) (l : List Tile) (i e : ℕ)
      → Before pages max_order i l
      → Covers pages max_order i ts e
      → 0 < hits f i ts
      → Found pages max_order f (rev_append l ts) e
  find_from [] l i e b c h = absurd (omega arith)
  find_from (t ∷ ts) l i e b c h = elim (Bool-cases (f i t)) [
    | inl hit ↦ record {
      left = l;
      start = i;
      tile = t;
      right = ts;
      before = b;
      holds = c.0;
      passes = hit;
      after = c.1;
      same = refl;
    }
    | inr miss ↦
        let back : i + size t - size t ≡ i = omega arith in
        find_from ts (t ∷ l) (i + size t) e (omega arith, rw back c.0, rw back b) c.1 (ground arith)
  ]

  pub find :
      (ts : List Tile) (e : ℕ)
      → Covers pages max_order 0 ts e
      → 0 < hits f 0 ts
      → Found pages max_order f ts e
  find ts e c h = find_from ts [] 0 e refl c h

module _ (pages : ℕ → BuddyPage) (max_order x : ℕ) (p : BuddyPage) where
  Holds-put_page :
      (i : ℕ) (t : Tile)
      → x ≢ i
      → Holds pages max_order i t
      → Holds (put_page pages x p) max_order i t
  Holds-put_page i t ne h =
      let e : put_page pages x p i ≡ pages i = ground arith in
      record {
        aligned = h.aligned;
        order_le = h.order_le;
        page_order = ap (λ q. q.order) e ∙ h.page_order;
        page_use = ap (λ q. q.in_use) e ∙ h.page_use;
        asked = subst (λ q. Asked q t) (sym e) h.asked;
      }

  -- A write below the blocks.
  pub Covers-put_page :
      (i : ℕ) (ts : List Tile) (e : ℕ)
      → x < i
      → Covers pages max_order i ts e
      → Covers (put_page pages x p) max_order i ts e
  Covers-put_page i [] e lt h = h
  Covers-put_page i (t ∷ ts) e lt h =
      (Holds-put_page i t (omega arith) h.0, Covers-put_page (i + size t) ts e (omega arith) h.1)

  -- A write above the blocks.
  pub Before-put_page :
      (i : ℕ) (l : List Tile)
      → i ≤ x
      → Before pages max_order i l
      → Before (put_page pages x p) max_order i l
  Before-put_page i [] le h = h
  Before-put_page i (t ∷ l) le h = (
    h.0,
    Holds-put_page (i - size t) t (omega (arith, one-le-pow (order_of t) 2)) h.1,
    Before-put_page (i - size t) l (omega arith) h.2,
  )

-- An allocator with a gap: the blocks before and after the `2 ^ k` pages from `i` on, and the free
-- lists, which hold the free blocks among them.
pub record Hole (b : Buddy) (l : List Tile) (i k : ℕ) (r : List Tile) : Type 0 where
  pub before : Before b.pages b.max_order i l
  pub after : Covers b.pages b.max_order (i + 2 ^ k) r b.page_count
  pub aligned : i % 2 ^ k ≡ 0
  pub order_le : k ≤ b.max_order
  pub listed :
      (o j : ℕ)
      → count j (b.list o) ≡ hits_before (free_here o j) i l + hits (free_here o j) (i + 2 ^ k) r

-- What an allocator is when it is at rest, over the blocks `ts`.
pub record IsValid (b : Buddy) (ts : List Tile) : Type 0 where
  pub cover : Covers b.pages b.max_order 0 ts b.page_count
  pub listed : (o j : ℕ) → count j (b.list o) ≡ hits (free_here o j) 0 ts
  pub free_count : b.free_page_count ≡ total free_size ts
  pub waste_count : b.waste_page_count ≡ total waste ts
  pub order_small : b.max_order < 31
  pub count_small : b.page_count < 2 ^ 31
  pub size_pos : 0 < b.page_size
