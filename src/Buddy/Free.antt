-- ===== src/Buddy/Free.antt =====
-- `free` on an allocator at rest: the block is off the blocks in use, and the free block that it
-- becomes part of is on its list.
use native.Mathlib.Nat.{one-le-pow, add-mul-mod_self_left, mul-div_cancel_left, mul-le-mul_left}
use Prim.Native.Nat.{bit_and}
use fdu_os.Common.{
  ℕ, ◌+◌, ◌-◌, ◌*◌, ◌%◌, ◌^◌, ◌≤◌, ◌<◌, ◌≡◌, refl, sym, ◌∙◌, ap, true, List, ◌∷◌, leb, ltb, arith,
  ==_refl,
}
use fdu_os.Common.Bits.Powers.{bit_and_mask}
use fdu_os.Common.Words.{sub64}
use fdu_os.Common.Outcome.{done}
use fdu_os.Util.{rounddown}
use fdu_os.Util.Rounding.{rounddown_self}
use fdu_os.Buddy.{Buddy, merge_loop, give_block, list_add, page_index, count_freed, free}
use fdu_os.Buddy.Tiles
use fdu_os.Buddy.Tiles.{
  Tile, used, size, Holds, hits, hits_before, Covers, Before, Covers-le, free_here, used_here,
  count, total, free_size, waste, rev_append, Covers-rev_append, hits-rev_append, total-rev_append,
}
use fdu_os.Buddy.Holes.{Hole, IsValid, Covers-put_page, Before-put_page}
use fdu_os.Buddy.Blocks.{BlockAt, used_block, total-le, total_before-le}
use fdu_os.Buddy.Take.{OneMoreUsed}
use fdu_os.Buddy.Merge.{Merged, merge_loop-Merged}

-- Block `i`, of order `o`, in use for `c` pages in `ts`, is in use no longer.
pub record Freed (b b' : Buddy) (ts : List Tile) (o c i : ℕ) : Type 0 where
  pub blocks : List Tile
  pub valid : IsValid b' blocks
  pub less : OneMoreUsed blocks ts o c i
  pub free_pages : b'.free_page_count ≡ b.free_page_count + 2 ^ o
  pub same_base : b'.base ≡ b.base
  pub same_page_size : b'.page_size ≡ b.page_size
  pub same_page_count : b'.page_count ≡ b.page_count

module _ {b : Buddy} {ts : List Tile} {o c i : ℕ} (v : IsValid b ts)
    (f : BlockAt b ts (used o c) i) where
  open f use {left, right}

  abbrev counted : Buddy
  counted = count_freed i b

  counted-Hole : Hole counted left i o right
  unfolding count_freed
  counted-Hole = record {
    before = f.before;
    after = f.after;
    aligned = f.holds.aligned;
    order_le = f.holds.order_le;
    listed = λ j k.
        v.listed j k
        ∙ ap (hits (free_here j k) 0) (sym f.same)
        ∙ hits-rev_append b.pages b.max_order (free_here j k) left i (used o c ∷ right) f.before
        ∙ omega arith;
  }

  abbrev after_merge : ℕ × ℕ × Buddy
  after_merge = merge_loop (b.max_order - o) i o counted

  merge_Merged : Merged counted left i o right after_merge
  unfolding count_freed
  merge_Merged =
      merge_loop-Merged (b.max_order - o) counted left i o right (omega (arith, f.holds.order_le))
        v.order_small v.count_small counted-Hole

  open merge_Merged use {start, order, list}

  abbrev before_give : Buddy
  before_give = record counted { list = list }

  abbrev freed : Buddy
  freed = give_block (start, order, before_give)

  abbrev tiles_after : List Tile
  tiles_after = rev_append (merge_Merged.left) (Tiles.free order ∷ merge_Merged.right)

  sums :
      (b.free_page_count ≡ total free_size left + total free_size right)
      × (b.waste_page_count ≡ total waste left + (2 ^ o - c) + total waste right)
      × (b.free_page_count + 2 ^ o ≤ b.page_count)
      × (2 ^ o - c ≤ b.waste_page_count)
      × (b.waste_page_count ≤ b.page_count)
  sums =
      let free_sum : b.free_page_count ≡ total free_size left + (0 + total free_size right) =
        v.free_count
        ∙ ap (total free_size) (sym f.same)
        ∙ total-rev_append free_size left (used o c ∷ right) in
      let waste_sum : b.waste_page_count ≡ total waste left + ((2 ^ o - c) + total waste right) =
        v.waste_count
        ∙ ap (total waste) (sym f.same)
        ∙ total-rev_append waste left (used o c ∷ right) in
      let low : total free_size left ≤ i = total_before-le b.pages b.max_order i left f.before in
      let high : i + 2 ^ o + total free_size right + total waste right ≤ b.page_count =
        total-le b.pages b.max_order (i + 2 ^ o) right b.page_count f.after in
      let all : 0 + total free_size ts + total waste ts ≤ b.page_count =
        total-le b.pages b.max_order 0 ts b.page_count v.cover in
      (omega arith, omega arith, omega arith, omega arith, omega (arith, v.waste_count))

  given_Holds : Holds freed.pages freed.max_order start (Tiles.free order)
  unfolding give_block list_add count_freed
  given_Holds = record {
    aligned = merge_Merged.hole.aligned;
    order_le = merge_Merged.hole.order_le;
    page_order = ground arith;
    page_use = ground arith;
    asked = tt;
  }

  left_before : Before freed.pages freed.max_order start merge_Merged.left
  unfolding give_block list_add count_freed
  left_before =
      Before-put_page b.pages b.max_order start _ start merge_Merged.left (omega arith)
        merge_Merged.hole.before

  right_after :
      Covers freed.pages freed.max_order (start + 2 ^ order) merge_Merged.right b.page_count
  unfolding give_block list_add count_freed
  right_after =
      Covers-put_page b.pages b.max_order start _ (start + 2 ^ order) merge_Merged.right
        b.page_count (omega (arith, one-le-pow order 2)) merge_Merged.hole.after

  size_of_page : 2 ^ (b.pages i).order ≡ 2 ^ o
  size_of_page = ap (λ x. 2 ^ x) f.holds.page_order

  freed_counts :
      (freed.free_page_count ≡ b.free_page_count + 2 ^ o)
      × (freed.waste_page_count + (2 ^ o - c) ≡ b.waste_page_count)
  unfolding give_block list_add count_freed
  freed_counts = (
    omega (arith, sums, size_of_page, v.count_small),
    omega (arith, sums, size_of_page, v.count_small, f.holds.asked),
  )

  freed-IsValid : IsValid freed tiles_after
  unfolding give_block list_add count_freed count
  freed-IsValid = record {
    cover =
        Covers-rev_append freed.pages freed.max_order merge_Merged.left start
          (Tiles.free order ∷ merge_Merged.right) b.page_count left_before
          (given_Holds, right_after);
    listed = λ j k. ground (
      arith,
      hits-rev_append freed.pages freed.max_order (free_here j k) merge_Merged.left start
          (Tiles.free order ∷ merge_Merged.right) left_before,
      merge_Merged.hole.listed j k,
    );
    free_count = omega (
      arith,
      freed_counts,
      sums,
      merge_Merged.frees,
      total-rev_append free_size merge_Merged.left (Tiles.free order ∷ merge_Merged.right),
    );
    waste_count = omega (
      arith,
      freed_counts,
      sums,
      merge_Merged.wastes,
      total-rev_append waste merge_Merged.left (Tiles.free order ∷ merge_Merged.right),
    );
    order_small = v.order_small;
    count_small = v.count_small;
    size_pos = v.size_pos;
  }

  same_zone :
      (freed.base ≡ b.base) × (freed.page_size ≡ b.page_size) × (freed.page_count ≡ b.page_count)
  unfolding give_block list_add count_freed
  same_zone = (refl, refl, refl)

  one_less_used : OneMoreUsed tiles_after ts o c i
  one_less_used j d k = omega (
    arith,
    hits-rev_append freed.pages freed.max_order (used_here j d k) merge_Merged.left start
        (Tiles.free order ∷ merge_Merged.right) left_before,
    merge_Merged.useds j d k,
    hits-rev_append b.pages b.max_order (used_here j d k) left i (used o c ∷ right) f.before,
    ap (hits (used_here j d k) 0) f.same,
  )

  block_inside : i < b.page_count
  block_inside =
      omega (
        arith,
        one-le-pow o 2,
        Covers-le b.pages b.max_order (i + 2 ^ o) right b.page_count f.after,
      )

  counted_le : leb counted.free_page_count b.page_count ≡ true
  unfolding count_freed
  counted_le = ground (arith, sums, size_of_page, v.count_small)

  -- No assertion of `free` fails on the address of the block.
  free-done :
      (ptr : ℕ) → rounddown ptr b.page_size ≡ ptr → page_index b ptr ≡ i → free ptr b ≡ done freed
  unfolding free
  free-done ptr whole index =
      let inside : ltb i b.page_count ≡ true = ground (arith, block_inside) in
      let aligned : bit_and i (2 ^ o - 1) ≡ 0 = bit_and_mask o i ∙ f.holds.aligned in
      let counts : leb counted.free_page_count b.page_count ≡ true = counted_le in
      rw (
        index,
        whole,
        f.holds.page_order,
        inside,
        aligned,
        f.holds.page_use,
        counts,
        merge_Merged.same,
        ==_refl ptr,
      )

-- The first page of a zone's block is found again from the block's address.
pub page_index-address :
    (b : Buddy) (i : ℕ)
    → 0 < b.page_size
    → b.page_count < 2 ^ 31
    → b.base + b.page_size * b.page_count < 2 ^ 64
    → i ≤ b.page_count
    → page_index b (b.base + b.page_size * i) ≡ i
unfolding page_index
page_index-address b i pos small fits le =
    let lt : b.base + b.page_size * i < 2 ^ 64 = omega (arith, mul-le-mul_left b.page_size le) in
    let e : sub64 (b.base + b.page_size * i) b.base ≡ b.page_size * i = omega arith in
    rw (e, mul-div_cancel_left i pos) (omega arith)

-- On an allocator at rest, over a zone that starts at a page boundary and ends below 2^64, `free`
-- of the address of a block in use ends without a failed assertion and without undefined
-- behaviour, and leaves an allocator at rest in which that block and no other is in use no longer
-- and its pages are counted as free.
pub free_lem :
    {b : Buddy} {ts : List Tile} (o c i : ℕ)
    → IsValid b ts
    → b.base % b.page_size ≡ 0
    → b.base + b.page_size * b.page_count < 2 ^ 64
    → 0 < hits (used_here o c i) 0 ts
    → (b' : Buddy) × (free (b.base + b.page_size * i) b ≡ done b') × Freed b b' ts o c i
free_lem {b} {ts} o c i v boundary fits there =
    let f = used_block o c i v there in
    let whole : rounddown (b.base + b.page_size * i) b.page_size ≡ b.base + b.page_size * i =
      rounddown_self (b.base + b.page_size * i) b.page_size
        (add-mul-mod_self_left b.base b.page_size i ∙ boundary) in
    let index : page_index b (b.base + b.page_size * i) ≡ i =
      page_index-address b i v.size_pos v.count_small fits (omega (arith, block_inside v f)) in
    (
      freed v f,
      free-done v f (b.base + b.page_size * i) whole index,
      record {
        blocks = tiles_after v f;
        valid = freed-IsValid v f;
        less = one_less_used v f;
        free_pages = (freed_counts v f).0;
        same_base = (same_zone v f).0;
        same_page_size = (same_zone v f).1;
        same_page_count = (same_zone v f).2;
      },
    )
