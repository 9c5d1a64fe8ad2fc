-- ===== src/Buddy.antt =====
-- kern/mm/pmm/buddy.c and its types in include/aim/pmm.h: the buddy allocator of physical pages.
-- `pages[i]` is a function of the index, and an access at `page_count` or beyond is `undefined`.
-- The list head `list[order]` is the list of the page indices that it links, first to last:
-- `list_add` puts an index in front, `list_del` takes an index off the list that links it.
pub mod Shifts
pub mod Tiles
pub mod Holes
pub mod Split
pub mod Search
pub mod Blocks
pub mod Take
pub mod Malloc
pub mod Buddies
pub mod Merge
pub mod Free
pub mod Construct
pub mod RoundTrip
pub mod Aligned
pub mod Disjoint
pub mod Reject
pub mod Sample
mod Examples
use Prim.Native.Nat.{bit_and, bit_or, bit_xor}
use fdu_os.Common.{
  ℕ, zero, suc, ◌+◌, ◌-◌, ◌*◌, ◌/◌, ◌%◌, ◌^◌, Bool, true, false, ◌||◌, not, Option, none, some,
  List, [], ◌∷◌, ltb, leb, ◌==◌, if◌then◌else◌,
}
use fdu_os.Common.Words.{word, add32, sub32, mul32, add64, sub64}
use fdu_os.Common.Outcome.{Outcome, done, panic, undefined, ◌>>=◌, ◌>>◌, assert, defined}
use fdu_os.Util.{div_round_up, rounddown, is_pow_of_2, is_aligned}

-- `struct buddy_page`; its `node` is modelled by the lists
pub record BuddyPage : Type 0 where
  pub byte_size : ℕ
  pub order : ℕ
  pub in_use : Bool
  pub cur_page_count : ℕ

-- `struct buddy_pmalloc`
pub record Buddy : Type 0 where
  pub pages : ℕ → BuddyPage
  pub list : ℕ → List ℕ
  pub max_order : ℕ
  pub base : ℕ
  pub page_size : ℕ
  pub page_count : ℕ
  pub free_page_count : ℕ
  pub waste_page_count : ℕ

-- `get_buddy`, `get_low_index` and `get_high_index`, on a `size_t`
unfoldable pub get_buddy : ℕ → ℕ → ℕ
get_buddy index order = bit_xor index (2 ^ order)

unfoldable pub get_low_index : ℕ → ℕ → ℕ
get_low_index index order = bit_and index (2 ^ 32 - 1 - 2 ^ order)

unfoldable pub get_high_index : ℕ → ℕ → ℕ
get_high_index index order = bit_or index (2 ^ order)

-- The value that `malloc` returns when there is no memory: `(addr_t) -1`.
abbrev pub no_address : ℕ
no_address = 2 ^ 64 - 1

-- `pages[i] = p`
abbrev pub put_page : (ℕ → BuddyPage) → ℕ → BuddyPage → ℕ → BuddyPage
put_page pages i p j = if i == j then p else pages j

abbrev pub put_list : (ℕ → List ℕ) → ℕ → List ℕ → ℕ → List ℕ
put_list list order xs k = if order == k then xs else list k

unfoldable pub erase : ℕ → List ℕ → List ℕ
erase i [] = []
erase i (j ∷ js) = if i == j then js else j ∷ erase i js

-- `list_add(&pages[i].node, &list[order])`
unfoldable pub list_add : ℕ → ℕ → Buddy → Buddy
list_add i order b = record b { list = put_list b.list order (i ∷ b.list order) }

-- `list_del(&pages[i].node)`
unfoldable pub list_del : ℕ → Buddy → Buddy
unfolding erase
list_del i b = record b { list = λ k. erase i (b.list k) }

-- `for (t = 0; (1 << t) < cnt; t++);` from `t` on; `none` once the shift reaches the width
unfoldable pub target_order : ℕ → ℕ → ℕ → Option ℕ
target_order zero t cnt = none
target_order (suc fuel) t cnt =
    let rest = target_order fuel (t + 1) cnt in if ltb (2 ^ t) cnt then rest else some t

-- The first order from `order` on, among `rounds` many, with a block to give, and that block.
unfoldable pub find_block : (ℕ → List ℕ) → ℕ → ℕ → Option (ℕ × ℕ)
find_block list zero order = none
find_block list (suc rounds) order = elim (list order) [
  | [] ↦ find_block list rounds (order + 1)
  | i ∷ _ ↦ some (order, i)
]

-- The body of the loop that splits: the upper half of the block at `index` becomes a free block.
unfoldable pub split_once : ℕ → ℕ → Buddy → Buddy
unfolding get_high_index list_add
split_once index order b =
    let high = get_high_index index order in
    if ltb high b.page_count
    then list_add high order (record b {
      pages = put_page b.pages high (record (b.pages high) { in_use = false; order = order });
    })
    else b

-- `while (order > target_order) { order--; ... }` with `rounds` the difference
unfoldable pub split_loop : ℕ → ℕ → ℕ → Buddy → Buddy
unfolding split_once
split_loop zero target index b = b
split_loop (suc rounds) target index b =
    split_loop rounds target index (split_once index (target + rounds) b)

-- The marks that `malloc` sets on the block that it has found, and the counters.
unfoldable pub mark_block : ℕ → ℕ → ℕ → ℕ → Buddy → Buddy
mark_block size cnt target index b = record b {
  pages = put_page b.pages index (record (b.pages index) {
    byte_size = size;
    order = target;
    in_use = true;
    cur_page_count = cnt;
  });
  waste_page_count = add32 b.waste_page_count (sub32 (2 ^ target) cnt);
  free_page_count = sub32 b.free_page_count (2 ^ target);
}

-- What `malloc` does once it has found the block at `index`, of the given order.
unfoldable pub take_block : ℕ → ℕ → ℕ → ℕ → ℕ → Buddy → Outcome (ℕ × Buddy)
unfolding list_del split_loop mark_block
take_block size cnt target order index b =
    assert (not (b.pages index).in_use)
    >> assert (leb cnt b.free_page_count)
    >> done (
      add64 b.base (mul32 b.page_size index),
      split_loop (order - target) target index
          (list_del index (mark_block size cnt target index b)),
    )

-- `buddy_pmalloc__malloc`
unfoldable pub malloc : ℕ → Buddy → Outcome (ℕ × Buddy)
unfolding target_order find_block take_block
malloc size b =
    let cnt = word (div_round_up 64 size b.page_size) in
    elim (target_order 32 0 cnt) [
      | none ↦ undefined
      | some target ↦ elim (find_block b.list (b.max_order + 1 - target) target) [
        | none ↦ done (no_address, b)
        | some (order, index) ↦ take_block size cnt target order index b
      ]
    ]

-- `buddy_pmalloc__aligned_malloc`
unfoldable pub aligned_malloc : ℕ → ℕ → Buddy → Outcome (ℕ × Buddy)
unfolding malloc
aligned_malloc size align b =
    if not (is_pow_of_2 align) || not (is_aligned 64 b.base align)
    then panic
    else if ltb size align
    then malloc align b
    else malloc size b

-- The loop of `free` that merges with the buddy: `rounds` is `max_order - order`. It returns where
-- it stops, and the allocator with the merged buddies off their lists.
unfoldable pub merge_loop : ℕ → ℕ → ℕ → Buddy → ℕ × ℕ × Buddy
unfolding get_buddy get_low_index list_del
merge_loop zero index order b = (index, order, b)
merge_loop (suc rounds) index order b =
    let buddy = get_buddy index order in
    let merged = merge_loop rounds (get_low_index index order) (order + 1) (list_del buddy b) in
    if leb b.page_count buddy
    then (index, order, b)
    else if (b.pages buddy).in_use
    then (index, order, b)
    else if not ((b.pages buddy).order == order)
    then (index, order, b)
    else merged

-- What `free` does after the loop: the merged block becomes a free block.
unfoldable pub give_block : ℕ × ℕ × Buddy → Buddy
unfolding list_add
give_block (index, order, b) = list_add index order (record b {
  pages = put_page b.pages index (record (b.pages index) { in_use = false; order = order });
})

-- `(ptr - M(base)) / M(page_size)` as a `size_t`
unfoldable pub page_index : Buddy → ℕ → ℕ
page_index b ptr = word (sub64 ptr b.base / b.page_size)

-- The counters that `free` sets for the block at `index`.
unfoldable pub count_freed : ℕ → Buddy → Buddy
count_freed index b = record b {
  free_page_count = add32 b.free_page_count (2 ^ (b.pages index).order);
  waste_page_count =
      sub32 b.waste_page_count (sub32 (2 ^ (b.pages index).order) (b.pages index).cur_page_count);
}

-- `buddy_pmalloc__free`. The page is read before its index is checked.
pub free : ℕ → Buddy → Outcome Buddy
free ptr b =
    let index = page_index b ptr in
    let order = (b.pages index).order in
    let counted = count_freed index b in
    assert (rounddown ptr b.page_size == ptr)
    >> defined (ltb index b.page_count)
    >> assert (bit_and index (2 ^ order - 1) == 0)
    >> assert (ltb index b.page_count)
    >> assert (b.pages index).in_use
    >> assert (leb counted.free_page_count b.page_count)
    >> done (give_block (merge_loop (b.max_order - order) index order counted))

-- `buddy_pmalloc__get_size`
pub get_size : ℕ → Buddy → Outcome ℕ
unfolding page_index
get_size ptr b =
    defined (ltb (page_index b ptr) b.page_count) >> done (b.pages (page_index b ptr)).byte_size

-- `buddy_pmalloc__get_free_bytes`
pub get_free_bytes : Buddy → ℕ
get_free_bytes b = mul32 b.free_page_count b.page_size

-- `for (m = 0; (1 << (m + 1)) <= page_count; m++);` from `m` on
unfoldable pub max_order_from : ℕ → ℕ → ℕ → Option ℕ
max_order_from zero m page_count = none
max_order_from (suc fuel) m page_count =
    let rest = max_order_from fuel (m + 1) page_count in
    if leb (2 ^ (m + 1)) page_count then rest else some m

-- A page as the constructor leaves it: in use, by itself.
abbrev pub initial_page : BuddyPage
initial_page = record { byte_size = 0; order = 0; in_use = true; cur_page_count = 1 }

-- `buddy_pmalloc__ctor`; `allocated` says whether `valloc` gave memory for `pages`.
pub ctor : Bool → ℕ → ℕ → ℕ → Outcome Buddy
ctor allocated base page_size page_count = elim (max_order_from 31 0 page_count) [
  | none ↦ undefined
  | some max_order ↦
      assert allocated
      >> done (record {
        pages = λ i. initial_page;
        list = λ k. [];
        max_order = max_order;
        base = base;
        page_size = page_size;
        page_count = page_count;
        free_page_count = 0;
        waste_page_count = 0;
      })
]
