-- ===== src/Buddy/Reject.antt =====
-- The addresses that `free` does not take.
use native.Mathlib.Nat.{one-le-pow, add-mul-mod_self_left, mod-le}
use Prim.Native.Nat.{bit_and}
use fdu_os.Common.{
  ℕ, ◌+◌, ◌-◌, ◌*◌, ◌%◌, ◌^◌, ◌≤◌, ◌<◌, ◌≡◌, ◌≢◌, refl, ◌∙◌, true, false, List, ◌==◌, ltb, arith,
  ==_refl,
}
use fdu_os.Common.Bits.Powers.{bit_and_mask}
use fdu_os.Common.Outcome.{panic, undefined}
use fdu_os.Util.{rounddown}
use fdu_os.Util.Rounding.{rounddown_self}
use fdu_os.Buddy.{Buddy, page_index, free}
use fdu_os.Buddy.Tiles.{Tile, count, Covers-le}
use fdu_os.Buddy.Holes.{IsValid}
use fdu_os.Buddy.Free.{page_index-address}
use fdu_os.Buddy.Blocks.{free_block}

-- `free` fails an assertion on an address that is not a multiple of the page size.
pub free_unaligned : (ptr : ℕ) (b : Buddy) → ptr % b.page_size ≢ 0 → free ptr b ≡ panic
unfolding free rounddown
free_unaligned ptr b h =
    let e : (ptr - ptr % b.page_size == ptr) ≡ false = ground (arith, mod-le ptr b.page_size) in
    rw e refl

-- `free` reads a page descriptor outside the array, before it checks the index, on the address of
-- a page beyond the zone.
pub free_outside :
    (ptr : ℕ) (b : Buddy)
    → ptr % b.page_size ≡ 0
    → b.page_count ≤ page_index b ptr
    → free ptr b ≡ undefined
unfolding free
free_outside ptr b h out =
    let far : ltb (page_index b ptr) b.page_count ≡ false = ground arith in
    rw (rounddown_self ptr b.page_size h, ==_refl ptr, far) refl

-- A block that is on a free list is not freed again: on an allocator at rest, `free` of its
-- address fails an assertion.
pub free_twice :
    {b : Buddy} {ts : List Tile} (k i : ℕ)
    → IsValid b ts
    → b.base % b.page_size ≡ 0
    → b.base + b.page_size * b.page_count < 2 ^ 64
    → 0 < count i (b.list k)
    → free (b.base + b.page_size * i) b ≡ panic
unfolding free
free_twice {b} {ts} k i v boundary fits listed =
    let f = free_block k i v listed in
    let lt : i < b.page_count = omega (
      arith,
      one-le-pow k 2,
      Covers-le b.pages b.max_order (i + 2 ^ k) f.right b.page_count f.after,
    ) in
    let whole : rounddown (b.base + b.page_size * i) b.page_size ≡ b.base + b.page_size * i =
      rounddown_self (b.base + b.page_size * i) b.page_size
        (add-mul-mod_self_left b.base b.page_size i ∙ boundary) in
    let index : page_index b (b.base + b.page_size * i) ≡ i =
      page_index-address b i v.size_pos v.count_small fits (omega arith) in
    let inside : ltb i b.page_count ≡ true = ground arith in
    let aligned : bit_and i (2 ^ k - 1) ≡ 0 = bit_and_mask k i ∙ f.holds.aligned in
    rw
      (
        whole,
        index,
        f.holds.page_order,
        inside,
        aligned,
        f.holds.page_use,
        ==_refl (b.base + b.page_size * i),
      )
      refl
