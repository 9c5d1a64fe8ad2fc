-- ===== src/Buddy/Take.antt =====
-- The block that `malloc` has found: taken off its list, split, and marked as in use.
use native.Mathlib.Nat.{one-le-pow, pow-le-pow_right}
use fdu_os.Common.{
  ℕ, ◌+◌, ◌-◌, ◌%◌, ◌^◌, ◌≤◌, ◌≡◌, refl, sym, ◌∙◌, ap, true, false, List, ◌∷◌, leb, if◌then◌else◌,
  arith,
}
use fdu_os.Common.Words.{add64, mul32}
use fdu_os.Common.Outcome.{done}
use fdu_os.Buddy.{Buddy, list_del, mark_block, split_loop, take_block, erase}
use fdu_os.Buddy.Tiles.{
  Tile, free, used, Holds, hits, hits_before, Covers-le, free_here, used_here, count, total,
  free_size, waste, rev_append, Covers-rev_append, hits-rev_append, total-rev_append, count-erase,
  hits_below, hits_before_above,
}
use fdu_os.Buddy.Holes.{Hole, IsValid, Covers-put_page, Before-put_page}
use fdu_os.Buddy.Split.{
  split_tiles, used-split_tiles, total-split_tiles, waste-split_tiles, split_loop-Hole,
  split_loop-Kept, Kept,
}
use fdu_os.Buddy.Blocks.{BlockAt, total-le}
use fdu_os.Buddy.Search.{IsLeastOrder}

module _ {b : Buddy} {ts : List Tile} {k i : ℕ} (v : IsValid b ts)
    (f : BlockAt b ts (free k) i) where
  open f use {left, right}

  -- What the lists hold, around the block.
  listed_around :
      (o j : ℕ)
      → count j (b.list o)
        ≡ hits_before (free_here o j) i left + hits (free_here o j) i (free k ∷ right)
  listed_around o j =
      v.listed o j
      ∙ ap (hits (free_here o j) 0) (sym f.same)
      ∙ hits-rev_append b.pages b.max_order (free_here o j) left i (free k ∷ right) f.before

  -- Taken off its list, the block is on none.
  listed_without :
      (o j : ℕ)
      → count j (erase i (b.list o))
        ≡ hits_before (free_here o j) i left + hits (free_here o j) (i + 2 ^ k) right
  listed_without o j = ground (
    arith,
    count-erase i j (b.list o),
    listed_around o j,
    one-le-pow k 2,
    hits_below o j (i + 2 ^ k) right,
    hits_before_above b.pages b.max_order o j i left,
    f.before,
  )

  module _ (size cnt target : ℕ) where
    marked-Hole : Hole (list_del i (mark_block size cnt target i b)) left i k right
    unfolding list_del mark_block
    marked-Hole = record {
      before = Before-put_page b.pages b.max_order i _ i left (omega arith) f.before;
      after =
          Covers-put_page b.pages b.max_order i _ (i + 2 ^ k) right b.page_count
            (omega (arith, one-le-pow k 2)) f.after;
      aligned = f.holds.aligned;
      order_le = f.holds.order_le;
      listed = listed_without;
    }

-- One block more is in use: block `i`, of order `k`, for `c` pages.
abbrev pub OneMoreUsed : List Tile → List Tile → ℕ → ℕ → ℕ → Type 0
OneMoreUsed ts ts' k c i =
    (o d j : ℕ)
    → hits (used_here o d j) 0 ts'
      ≡ hits (used_here o d j) 0 ts + (if used_here o d j i (used k c) then 1 else 0)

-- A block was handed out: `index` is its first page.
pub record Granted (b b' : Buddy) (ts : List Tile) (cnt address : ℕ) : Type 0 where
  pub order : ℕ
  pub index : ℕ
  pub blocks : List Tile
  pub valid : IsValid b' blocks
  pub least : IsLeastOrder cnt order
  pub more : OneMoreUsed ts blocks order cnt index
  pub aligned : index % 2 ^ order ≡ 0
  pub inside : index + 2 ^ order ≤ b.page_count
  pub address_of : address ≡ add64 b.base (mul32 b.page_size index)
  pub free_pages : b'.free_page_count + 2 ^ order ≡ b.free_page_count
  pub same_base : b'.base ≡ b.base
  pub same_page_size : b'.page_size ≡ b.page_size
  pub same_page_count : b'.page_count ≡ b.page_count

module _ {b : Buddy} {ts : List Tile} {i : ℕ} (target rounds : ℕ) (v : IsValid b ts)
    (f : BlockAt b ts (free (target + rounds)) i) (size cnt : ℕ)
    (least : IsLeastOrder cnt target) where
  open f use {left, right}

  abbrev pub marked : Buddy
  marked = list_del i (mark_block size cnt target i b)

  abbrev pub after_split : Buddy
  after_split = split_loop rounds target i marked

  abbrev tiles_after : List Tile
  tiles_after = rev_append left (used target cnt ∷ split_tiles rounds target right)

  split_Hole : Hole after_split left i target (split_tiles rounds target right)
  split_Hole = split_loop-Hole rounds target marked left i right (marked-Hole v f size cnt target)

  split_Kept : Kept marked after_split i
  split_Kept = split_loop-Kept rounds target marked left i right (marked-Hole v f size cnt target)

  used_Holds : Holds after_split.pages after_split.max_order i (used target cnt)
  unfolding list_del mark_block
  used_Holds =
      let e : marked.pages i ≡ record (b.pages i) {
        byte_size = size;
        order = target;
        in_use = true;
        cur_page_count = cnt;
      } =
        ground arith in
      record {
        aligned = split_Hole.aligned;
        order_le = split_Hole.order_le;
        page_order = rw (split_Kept.page, e);
        page_use = rw (split_Kept.page, e);
        asked = (rw (split_Kept.page, e), least.enough);
      }

  totals_before :
      (b.free_page_count ≡ total free_size left + 2 ^ (target + rounds) + total free_size right)
      × (b.waste_page_count ≡ total waste left + total waste right)
      × (b.free_page_count + b.waste_page_count ≤ b.page_count)
  totals_before =
      let free_sum : b.free_page_count
          ≡ total free_size left + (2 ^ (target + rounds) + total free_size right) =
        v.free_count
        ∙ ap (total free_size) (sym f.same)
        ∙ total-rev_append free_size left (free (target + rounds) ∷ right) in
      let waste_sum : b.waste_page_count ≡ total waste left + (0 + total waste right) =
        v.waste_count
        ∙ ap (total waste) (sym f.same)
        ∙ total-rev_append waste left (free (target + rounds) ∷ right) in
      let both : 0 + total free_size ts + total waste ts ≤ b.page_count =
        total-le b.pages b.max_order 0 ts b.page_count v.cover in
      (omega arith, omega arith, omega (arith, v.free_count, v.waste_count))

  target_le : 2 ^ target ≤ 2 ^ (target + rounds)
  target_le = pow-le-pow_right {n = 2} (omega arith) (omega arith)

  after_split-IsValid : IsValid after_split tiles_after
  unfolding list_del mark_block
  after_split-IsValid = record {
    cover =
        Covers-rev_append after_split.pages after_split.max_order left i _ after_split.page_count
          split_Hole.before (used_Holds, split_Hole.after);
    listed = λ o j.
        split_Hole.listed o j
        ∙ omega (
          arith,
          hits-rev_append after_split.pages after_split.max_order (free_here o j) left i
              (used target cnt ∷ split_tiles rounds target right) split_Hole.before,
        );
    free_count = omega (
      arith,
      split_Kept.free_page_count,
      totals_before,
      target_le,
      v.count_small,
      total-rev_append free_size left (used target cnt ∷ split_tiles rounds target right),
      total-split_tiles rounds target right,
    );
    waste_count = omega (
      arith,
      split_Kept.waste_page_count,
      totals_before,
      target_le,
      v.count_small,
      least.enough,
      total-rev_append waste left (used target cnt ∷ split_tiles rounds target right),
      waste-split_tiles rounds target right,
    );
    order_small = omega (arith, v.order_small, split_Kept.max_order);
    count_small = omega (arith, v.count_small, split_Kept.page_count);
    size_pos = omega (arith, v.size_pos, split_Kept.page_size);
  }

  free_pages_after : after_split.free_page_count + 2 ^ target ≡ b.free_page_count
  unfolding list_del mark_block
  free_pages_after =
      omega (arith, split_Kept.free_page_count, totals_before, target_le, v.count_small)

  base_after : after_split.base ≡ b.base
  unfolding list_del mark_block
  base_after = split_Kept.base

  page_size_after : after_split.page_size ≡ b.page_size
  unfolding list_del mark_block
  page_size_after = split_Kept.page_size

  page_count_after : after_split.page_count ≡ b.page_count
  unfolding list_del mark_block
  page_count_after = split_Kept.page_count

  one_more_used : OneMoreUsed ts tiles_after target cnt i
  one_more_used o d j = omega (
    arith,
    hits-rev_append after_split.pages after_split.max_order (used_here o d j) left i
        (used target cnt ∷ split_tiles rounds target right) split_Hole.before,
    used-split_tiles o d j i rounds target right,
    hits-rev_append b.pages b.max_order (used_here o d j) left i (free (target + rounds) ∷ right)
        f.before,
    ap (hits (used_here o d j) 0) f.same,
  )

  taken_inside : i + 2 ^ target ≤ b.page_count
  taken_inside = omega (
    arith,
    target_le,
    Covers-le b.pages b.max_order (i + 2 ^ (target + rounds)) right b.page_count f.after,
  )

  pub taken : Granted b after_split ts cnt (add64 b.base (mul32 b.page_size i))
  taken = record {
    order = target;
    index = i;
    blocks = tiles_after;
    valid = after_split-IsValid;
    least = least;
    more = one_more_used;
    aligned = split_Hole.aligned;
    inside = taken_inside;
    address_of = refl;
    free_pages = free_pages_after;
    same_base = base_after;
    same_page_size = page_size_after;
    same_page_count = page_count_after;
  }

  -- With a free block of order `target + rounds` in hand, no assertion fails.
  pub take_block-taken :
      take_block size cnt target (target + rounds) i b
      ≡ done (add64 b.base (mul32 b.page_size i), after_split)
  unfolding take_block
  take_block-taken =
      let free_now : (b.pages i).in_use ≡ false = f.holds.page_use in
      let counted : leb cnt b.free_page_count ≡ true =
        ground (arith, least.enough, target_le, totals_before) in
      let e : target + rounds - target ≡ rounds = omega arith in rw (free_now, counted, e)
