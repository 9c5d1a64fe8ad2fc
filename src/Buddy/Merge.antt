-- ===== src/Buddy/Merge.antt =====
-- The loop of `free` that merges the freed block with its buddy while the buddy is a free block of
-- the same order.
use native.Mathlib.Nat.{one-le-pow, pow-suc}
use native.Mathlib.Decide.{ℕ_discrete}
use fdu_os.Common.{
  ℕ, zero, suc, ◌+◌, ◌-◌, ◌%◌, ◌^◌, ◌≤◌, ◌<◌, ◌≡◌, ◌≢◌, ◌⊎◌, refl, sym, ◌∙◌, ap, true, false, List,
  [], ◌∷◌, ◌==◌, leb, Bool-cases, inl, inr, ==→eq, arith,
}
use fdu_os.Buddy.{Buddy, merge_loop, list_del, get_buddy, get_low_index}
use fdu_os.Buddy.Shifts.{
  get_buddy-first, get_buddy-second, get_low_index_lem, le_of_second, aligned_pair, rest-second,
}
use fdu_os.Buddy.Tiles.{
  Tile, free, used, size, order_of, Holds, hits, hits_before, Covers, Before, Covers-le, used_here,
  count-erase, total, free_size, waste, hits_below, hits_before_above,
}
use fdu_os.Buddy.Holes.{Hole}
use fdu_os.Buddy.Buddies.{Starts, starts}

-- The gap grows over the free block behind it.
module _ {b : Buddy} {l : List Tile} {i k : ℕ} {r : List Tile} (h : Hole b l i k r)
    (first : i % 2 ^ suc k ≡ 0) (room : k < b.max_order) where
  halves_add : i + 2 ^ k + 2 ^ k ≡ i + 2 ^ suc k
  halves_add = omega (arith, pow-suc 2 k)

  grow_right : (r' : List Tile) → r ≡ free k ∷ r' → Hole (list_del (i + 2 ^ k) b) l i (suc k) r'
  unfolding list_del
  grow_right r' e =
      let c : Covers b.pages b.max_order (i + 2 ^ k) (free k ∷ r') b.page_count = rw e at h.after in
      record {
        before = h.before;
        after = rw halves_add at c.1;
        aligned = first;
        order_le = room;
        listed = λ o j. ground (
          arith,
          halves_add,
          one-le-pow k 2,
          count-erase (i + 2 ^ k) j (b.list o),
          rw e at (h.listed o j),
          hits_below o j (i + 2 ^ k + 2 ^ k) r',
          hits_before_above b.pages b.max_order o j i l,
          h.before,
        );
      }

  -- A free block of order `k` starts right behind the gap.
  behind :
      (rs : List Tile)
      → Covers b.pages b.max_order (i + 2 ^ k) rs b.page_count
      → i + 2 ^ k < b.page_count
      → (b.pages (i + 2 ^ k)).in_use ≡ false
      → (b.pages (i + 2 ^ k)).order ≡ k
      → (r' : List Tile) × (rs ≡ free k ∷ r')
  behind [] c lt u p = absurd (omega arith)
  behind (free o ∷ rs) c lt u p = let e : o ≡ k = sym c.0.page_order ∙ p in (rs, rw e)
  behind (used o d ∷ rs) c lt u p = let clash : true ≡ false = sym c.0.page_use ∙ u in cc

-- The gap grows over the free block before it.
module _ {b : Buddy} {l : List Tile} {i k : ℕ} {r : List Tile} (h : Hole b l i k r)
    (second : i % 2 ^ suc k ≢ 0) (room : k < b.max_order) where
  back : i - 2 ^ k + 2 ^ k ≡ i
  back = omega (arith, le_of_second k i h.aligned second)

  back_pair : i - 2 ^ k + 2 ^ suc k ≡ i + 2 ^ k
  back_pair = omega (arith, pow-suc 2 k, back)

  grow_left :
      (l' : List Tile) → l ≡ free k ∷ l' → Hole (list_del (i - 2 ^ k) b) l' (i - 2 ^ k) (suc k) r
  unfolding list_del
  grow_left l' e =
      let c : Before b.pages b.max_order i (free k ∷ l') = rw e at h.before in
      record {
        before = c.2;
        after = rw back_pair h.after;
        aligned = aligned_pair k i h.aligned second;
        order_le = room;
        listed = λ o j. ground (
          arith,
          back_pair,
          one-le-pow k 2,
          count-erase (i - 2 ^ k) j (b.list o),
          rw e at (h.listed o j),
          hits_below o j (i + 2 ^ k) r,
          hits_before_above b.pages b.max_order o j (i - 2 ^ k) l',
          c.2,
        );
      }

  -- A free block of order `k` ends right before the gap.
  ahead :
      (b.pages (i - 2 ^ k)).in_use ≡ false
      → (b.pages (i - 2 ^ k)).order ≡ k
      → (l' : List Tile) × (l ≡ free k ∷ l')
  ahead u p = go s.tile s.holds s.place
    where
      s : Starts b.pages b.max_order (i - 2 ^ k) i l
      s =
          starts b.pages b.max_order k (i - 2 ^ k) (aligned_pair k i h.aligned second) l i
            (omega (arith, back, one-le-pow k 2)) (omega (arith, back)) h.before

      go :
          (t : Tile)
          → Holds b.pages b.max_order (i - 2 ^ k) t
          → ((rest : List Tile) × (l ≡ t ∷ rest)
              × Before b.pages b.max_order (i - 2 ^ k) rest
              × (i - 2 ^ k + size t ≡ i))
            ⊎ (i - 2 ^ k + size t < i)
          → (l' : List Tile) × (l ≡ free k ∷ l')
      go (free o) g (inl (rest, e, b', q)) =
          let same : o ≡ k = sym g.page_order ∙ p in (rest, e ∙ ap (λ x. free x ∷ rest) same)
      go (used o d) g (inl (rest, e, b', q)) = let clash : true ≡ false = sym g.page_use ∙ u in cc
      go t g (inr lt) =
          let same : 2 ^ order_of t ≡ 2 ^ k = ap (λ x. 2 ^ x) (sym g.page_order ∙ p) in
          absurd (omega (arith, back))

-- Where the loop stops: the lists are all that it has changed, and the gap has grown over free
-- blocks only.
pub record Merged (b : Buddy) (l : List Tile) (i k : ℕ) (r : List Tile) (result : ℕ × ℕ × Buddy)
    : Type 0 where
  pub left : List Tile
  pub right : List Tile
  pub start : ℕ
  pub order : ℕ
  pub list : ℕ → List ℕ
  pub same : result ≡ (start, order, record b { list = list })
  pub hole : Hole (record b { list = list }) left start order right
  pub frees :
      total free_size left + total free_size right + 2 ^ order
      ≡ total free_size l + total free_size r + 2 ^ k
  pub wastes : total waste left + total waste right ≡ total waste l + total waste r
  pub useds :
      (o d j : ℕ)
      → hits_before (used_here o d j) start left + hits (used_here o d j) (start + 2 ^ order) right
        ≡ hits_before (used_here o d j) i l + hits (used_here o d j) (i + 2 ^ k) r

stopped :
    {b : Buddy} {l : List Tile} {i k : ℕ} {r : List Tile}
    → Hole b l i k r
    → Merged b l i k r (i, k, b)
stopped {b} {l} {i} {k} {r} h = record {
  left = l;
  right = r;
  start = i;
  order = k;
  list = b.list;
  same = refl;
  hole = h;
  frees = refl;
  wastes = refl;
  useds = λ o d j. refl;
}

after_right :
    {b : Buddy} {l : List Tile} {i k : ℕ} {r r' : List Tile} {result : ℕ × ℕ × Buddy} (x : ℕ)
    → r ≡ free k ∷ r'
    → Merged (list_del x b) l i (suc k) r' result
    → Merged b l i k r result
unfolding list_del
after_right {i} {k} x e m = record {
  left = m.left;
  right = m.right;
  start = m.start;
  order = m.order;
  list = m.list;
  same = m.same;
  hole = m.hole;
  frees = rw e (omega (arith, m.frees, pow-suc 2 k));
  wastes = rw e (omega (arith, m.wastes));
  useds = λ o d j.
      let q : i + 2 ^ k + 2 ^ k ≡ i + 2 ^ suc k = omega (arith, pow-suc 2 k) in
      rw (e, q) (omega (arith, m.useds o d j));
}

after_left :
    {b : Buddy} {l l' : List Tile} {i k : ℕ} {r : List Tile} {result : ℕ × ℕ × Buddy} (x : ℕ)
    → 2 ^ k ≤ i
    → l ≡ free k ∷ l'
    → Merged (list_del x b) l' (i - 2 ^ k) (suc k) r result
    → Merged b l i k r result
unfolding list_del
after_left {i} {k} x le e m = record {
  left = m.left;
  right = m.right;
  start = m.start;
  order = m.order;
  list = m.list;
  same = m.same;
  hole = m.hole;
  frees = rw e (omega (arith, m.frees, pow-suc 2 k));
  wastes = rw e (omega (arith, m.wastes));
  useds = λ o d j.
      let q : i - 2 ^ k + 2 ^ suc k ≡ i + 2 ^ k = omega (arith, pow-suc 2 k) in
      rw e (omega (arith, rw q at (m.useds o d j)));
}

abbrev merged : ℕ → ℕ → ℕ → Buddy → ℕ × ℕ × Buddy
merged rounds i k b = merge_loop rounds (get_low_index i k) (k + 1) (list_del (get_buddy i k) b)

-- A round that merges with the buddy behind, and one that merges with the buddy before; `next` is
-- what the rounds left do.
module _ {b : Buddy} {l : List Tile} {i k : ℕ} {r : List Tile} (rounds : ℕ) (h : Hole b l i k r)
    (room : k < b.max_order) (order_small : b.max_order < 31) (count_small : b.page_count < 2 ^ 31)
    (inside : get_buddy i k < b.page_count) (u : (b.pages (get_buddy i k)).in_use ≡ false)
    (p : (b.pages (get_buddy i k)).order ≡ k)
    (next : (b' : Buddy) (l' : List Tile) (i' : ℕ) (r' : List Tile)
      → b'.max_order ≡ b.max_order
      → b'.page_count ≡ b.page_count
      → Hole b' l' i' (suc k) r'
      → Merged b' l' i' (suc k) r' (merge_loop rounds i' (suc k) b')) where
  index_small : i < 2 ^ 32
  index_small =
      omega (arith, count_small, Covers-le b.pages b.max_order (i + 2 ^ k) r b.page_count h.after)

  low_lem : get_low_index i k ≡ i - i % 2 ^ suc k
  low_lem = get_low_index_lem k i h.aligned (omega arith) index_small

  merged_right : i % 2 ^ suc k ≡ 0 → Merged b l i k r (merged rounds i k b)
  unfolding list_del
  merged_right first =
      let buddy : get_buddy i k ≡ i + 2 ^ k = get_buddy-first k i h.aligned first in
      let low : get_low_index i k ≡ i = omega (arith, low_lem) in
      let up : k + 1 ≡ suc k = omega arith in
      let (r', e) =
        behind h first room r h.after (rw (← buddy) inside) (rw (← buddy) u) (rw (← buddy) p) in
      rw (buddy, low, up)
        (after_right (i + 2 ^ k) e
          (next (list_del (i + 2 ^ k) b) l i r' refl refl (grow_right h first room r' e)))

  merged_left : i % 2 ^ suc k ≢ 0 → Merged b l i k r (merged rounds i k b)
  unfolding list_del
  merged_left second =
      let buddy : get_buddy i k ≡ i - 2 ^ k = get_buddy-second k i h.aligned second in
      let low : get_low_index i k ≡ i - 2 ^ k =
        omega (arith, low_lem, rest-second k i h.aligned second) in
      let up : k + 1 ≡ suc k = omega arith in
      let (l', e) = ahead h second room (rw (← buddy) u) (rw (← buddy) p) in
      rw (buddy, low, up)
        (after_left (i - 2 ^ k) (le_of_second k i h.aligned second) e
          (next (list_del (i - 2 ^ k) b) l' (i - 2 ^ k) r refl refl (grow_left h second room l' e)))

  merged-Merged : Merged b l i k r (merged rounds i k b)
  merged-Merged = elim (ℕ_discrete (i % 2 ^ suc k) 0) [
    | yes first ↦ merged_right first
    | no second ↦ merged_left second
  ]

pub merge_loop-Merged :
    (rounds : ℕ) (b : Buddy) (l : List Tile) (i k : ℕ) (r : List Tile)
    → k + rounds ≡ b.max_order
    → b.max_order < 31
    → b.page_count < 2 ^ 31
    → Hole b l i k r
    → Merged b l i k r (merge_loop rounds i k b)
unfolding merge_loop
merge_loop-Merged zero b l i k r e o c h = stopped h
merge_loop-Merged (suc rounds) b l i k r e o c h =
    elim (Bool-cases (leb b.page_count (get_buddy i k))) [
      | inl outside ↦ rw outside (stopped h)
      | inr inside ↦ elim (Bool-cases (b.pages (get_buddy i k)).in_use) [
        | inl busy ↦ rw (inside, busy) (stopped h)
        | inr idle ↦ elim (Bool-cases ((b.pages (get_buddy i k)).order == k)) [
          | inr other ↦ rw (inside, idle, other) (stopped h)
          | inl same ↦
              rw (inside, idle, same)
                (merged-Merged rounds h (omega arith) o c (ground arith) idle (==→eq _ k same)
                  (λ b' l' i' r' em ec h'.
                    merge_loop-Merged rounds b' l' i' (suc k) r' (omega arith) (omega arith)
                      (omega arith) h'))
        ]
      ]
    ]
