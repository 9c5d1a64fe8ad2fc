-- ===== src/Buddy/Malloc.antt =====
-- `malloc` and `aligned_malloc` on an allocator at rest: they hand out one block, of the least
-- order that is large enough, or there is no such block and nothing changes.
use fdu_os.Common.{
  ℕ, ◌+◌, ◌-◌, ◌^◌, ◌≤◌, ◌<◌, ◌≡◌, refl, sym, ◌∙◌, ap, List, [], ◌∷◌, Option, ltb, ltb→lt,
  Bool-cases, inl, inr, arith, some, none,
}
use fdu_os.Common.Words.{word}
use fdu_os.Common.Outcome.{Outcome, done}
use fdu_os.Util.{div_round_up}
use fdu_os.Buddy.{BuddyPage, Buddy, take_block, malloc, no_address}
use fdu_os.Buddy.Tiles.{Tile, free, used, size, hits, Covers, free_here, count, count-cons_self}
use fdu_os.Buddy.Holes.{IsValid}
use fdu_os.Buddy.Search.{IsLeastOrder, target_order_lem, Finds, nothing, block, find_block_lem}
use fdu_os.Buddy.Blocks.{free_block}
use fdu_os.Buddy.Take.{Granted, taken, take_block-taken}

-- The pages that a request for `size` bytes takes.
abbrev pub pages_for : Buddy → ℕ → ℕ
pages_for b size = word (div_round_up 64 size b.page_size)

-- No block of an order that is large enough is free.
pub record Refused (ts : List Tile) (cnt : ℕ) : Type 0 where
  pub order : ℕ
  pub least : IsLeastOrder cnt order
  pub none_free : (o j : ℕ) → order ≤ o → hits (free_here o j) 0 ts ≡ 0

pub data Mallocs (b : Buddy) (ts : List Tile) (cnt : ℕ) : Outcome (ℕ × Buddy) → Type 0 where
  granted : {a : ℕ} {b' : Buddy} → Granted b b' ts cnt a → Mallocs b ts cnt (done (a, b'))
  refused : Refused ts cnt → Mallocs b ts cnt (done (no_address, b))

-- No block has an order above `max_order`.
no_larger :
    (pages : ℕ → BuddyPage) (m o j i : ℕ) (ts : List Tile) (e : ℕ)
    → m < o
    → Covers pages m i ts e
    → hits (free_here o j) i ts ≡ 0
no_larger pages m o j i [] e lt c = refl
no_larger pages m o j i (free k ∷ ts) e lt c =
    ground (arith, c.0.order_le, no_larger pages m o j (i + 2 ^ k) ts e lt c.1)
no_larger pages m o j i (used k d ∷ ts) e lt c =
    omega (arith, no_larger pages m o j (i + 2 ^ k) ts e lt c.1)

-- What the search finds is a block to hand out.
found-Mallocs :
    {b : Buddy} {ts : List Tile} (bytes cnt target k i : ℕ) (rest : List ℕ)
    → IsValid b ts
    → IsLeastOrder cnt target
    → target ≤ k
    → b.list k ≡ i ∷ rest
    → Mallocs b ts cnt (take_block bytes cnt target k i b)
found-Mallocs {b} {ts} bytes cnt target k i rest v least le e =
    let same : target + (k - target) ≡ k = omega arith in
    let listed : 0 < count i (b.list (target + (k - target))) =
      rw (same, e) (count-cons_self i rest) in
    let f = free_block (target + (k - target)) i v listed in
    rw (← same) (
      rw (take_block-taken target (k - target) v f bytes cnt least)
        (granted (taken target (k - target) v f bytes cnt least)))

-- With every list from `target` up to `max_order` empty, no block of these orders is free.
nothing-Refused :
    {b : Buddy} {ts : List Tile} (cnt target : ℕ)
    → IsValid b ts
    → IsLeastOrder cnt target
    → ((k : ℕ) → target ≤ k → k < target + (b.max_order + 1 - target) → b.list k ≡ [])
    → Refused ts cnt
unfolding count
nothing-Refused {b} {ts} cnt target v least empty = record {
  order = target;
  least = least;
  none_free = λ o j le. elim (Bool-cases (ltb b.max_order o)) [
    | inl large ↦
        no_larger b.pages b.max_order o j 0 ts b.page_count (ltb→lt b.max_order o large) v.cover
    | inr small ↦
        let e : b.list o ≡ [] = empty o le (ground arith) in sym (v.listed o j) ∙ ap (count j) e
  ];
}

module _ {b : Buddy} {ts : List Tile} (bytes : ℕ) (v : IsValid b ts)
    (small : pages_for b bytes ≤ 2 ^ 31) where
  searched-Mallocs :
      (target : ℕ) {r : Option (ℕ × ℕ)}
      → IsLeastOrder (pages_for b bytes) target
      → Finds b.list (b.max_order + 1 - target) target r
      → Mallocs b ts (pages_for b bytes) (elim r [
        | none ↦ done (no_address, b)
        | some (order, index) ↦ take_block bytes (pages_for b bytes) target order index b
      ])
  searched-Mallocs target least (nothing h) =
      refused (nothing-Refused (pages_for b bytes) target v least h)
  searched-Mallocs target least (block {k} {i} rest le lt e) =
      found-Mallocs bytes (pages_for b bytes) target k i rest v least le e

  -- On an allocator at rest, a request for at most 2^31 pages ends without a failed assertion and
  -- without undefined behaviour. Either it returns a block that was free, of the least order that
  -- holds the pages, leaves the allocator at rest with that block and no other more in use, and
  -- counts its pages off the free ones; or no block of that order or a larger one is free, and it
  -- returns -1 and changes nothing.
  pub malloc_lem : Mallocs b ts (pages_for b bytes) (malloc bytes b)
  unfolding malloc
  malloc_lem =
      let (target, found, least, le) = target_order_lem (pages_for b bytes) small in
      rw (found, malloc)
        (searched-Mallocs target least (find_block_lem b.list (b.max_order + 1 - target) target))
