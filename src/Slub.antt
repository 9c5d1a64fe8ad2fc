-- ===== src/Slub.antt =====
-- kern/mm/vmm/slub.c and its types in include/aim/vmm.h: the allocator of small objects, over any
-- `virt_pvbridge`. A block of 4 KB begins with a `struct slub_header`; the headers are functions
-- of the block's address, and a list is that of the addresses that it links, first to last. A
-- pointer is a number of 32 bits, and NULL is 0.
pub mod Slots
pub mod State
pub mod Calls
pub mod Large
pub mod Refill
pub mod Take
pub mod Malloc
pub mod Free
pub mod Runs
mod Examples
use fdu_os.Common.{
  ℕ, zero, suc, ◌+◌, ◌-◌, ◌*◌, ◌/◌, ◌^◌, Bool, true, false, not, Option, none, some, List, [], ◌∷◌,
  ltb, leb, ◌==◌, if◌then◌else◌, set,
}
use fdu_os.Common.Words.{add32, mul32}
use fdu_os.Common.Outcome.{Outcome, done, panic, undefined, ◌>>=◌, ◌>>◌, assert}
use fdu_os.Util.{is_aligned, align_above, align_below}
use fdu_os.Buddy.{erase}
use fdu_os.Bridge.{PvBridge}

-- `SLUB_BLOCK_SIZE`, `MIN_SLUB_LEVEL`, `MAX_SLUB_LEVEL`, `SLUB_TOTAL_LEVELS`
abbrev pub slub_block_size : ℕ
slub_block_size = 4096

abbrev pub min_slub_level : ℕ
min_slub_level = 4

abbrev pub max_slub_level : ℕ
max_slub_level = 10

abbrev pub slub_total_levels : ℕ
slub_total_levels = 7

-- `sizeof(struct slub_header)`: two heads of lists and an `int`
abbrev pub header_size : ℕ
header_size = 20

-- `CALC_MAXSOLTS(level)` and `SOLTS_OFFSET(level)`
unfoldable pub calc_maxsolts : ℕ → ℕ
calc_maxsolts level = (slub_block_size - header_size) / 2 ^ level

unfoldable pub solts_offset : ℕ → ℕ
unfolding align_above
solts_offset level = align_above 32 header_size (2 ^ level)

-- `struct slub_vmalloc` with the bridge's state, and the fields `level_idx` and `free_list` of the
-- headers
pub record Slub (State : Type 0) : Type 0 where
  pub level_idx : ℕ → ℕ
  pub free_list : ℕ → List ℕ
  pub slub_avail : ℕ → List ℕ
  pub slub_full : ℕ → List ℕ
  pub bridge : State

-- `list_empty(head)`
abbrev pub list_empty : List ℕ → Bool
list_empty [] = true
list_empty (x ∷ xs) = false

-- The list after `rounds` rounds of the loop of `alloc_slub`.
unfoldable pub add_solts : ℕ → ℕ → ℕ → List ℕ
add_solts zero base size = []
add_solts (suc i) base size = add32 base (mul32 size i) ∷ add_solts i base size

-- `while ((1ULL << level) < size) level++;` from `level` on; `none` once the shift reaches the width
unfoldable pub level_for : ℕ → ℕ → ℕ → Option ℕ
level_for zero level size = none
level_for (suc fuel) level size =
    let rest = level_for fuel (level + 1) size in if ltb (2 ^ level) size then rest else some level

module _ {State : Type 0} where
  -- `slub_is_full`
  abbrev pub slub_is_full : ℕ → Slub State → Bool
  slub_is_full slub s = list_empty (s.free_list slub)

  -- `list_del(&slub->node)`, and `list_add` to one of the lists
  unfoldable pub list_del : ℕ → Slub State → Slub State
  list_del slub s = record s {
    slub_avail = λ i. erase slub (s.slub_avail i);
    slub_full = λ i. erase slub (s.slub_full i);
  }

  unfoldable pub add_avail : ℕ → ℕ → Slub State → Slub State
  add_avail slub i s = record s { slub_avail = set s.slub_avail i (slub ∷ s.slub_avail i) }

  unfoldable pub add_full : ℕ → ℕ → Slub State → Slub State
  add_full slub i s = record s { slub_full = set s.slub_full i (slub ∷ s.slub_full i) }

  -- What `alloc_slub` makes of the memory of a block.
  unfoldable pub init_slub : ℕ → ℕ → Slub State → Slub State
  unfolding add_solts calc_maxsolts solts_offset
  init_slub level slub s = record s {
    level_idx = set s.level_idx slub (level - min_slub_level);
    free_list =
        set s.free_list slub
          (add_solts (calc_maxsolts level) (add32 slub (solts_offset level)) (2 ^ level));
  }

  -- `malloc_from_slub`
  unfoldable pub malloc_from_slub : ℕ → Slub State → Outcome (ℕ × Slub State)
  malloc_from_slub slub s = elim (s.free_list slub) [
    | [] ↦ panic
    | solt ∷ rest ↦ done (solt, record s { free_list = set s.free_list slub rest })
  ]

  -- The end of `malloc`: an object of the first block; `list_first_entry` of an empty list is no
  -- block.
  unfoldable pub malloc_first : ℕ → Slub State → Outcome (ℕ × Slub State)
  unfolding malloc_from_slub list_del add_full
  malloc_first i s = elim (s.slub_avail i) [
    | [] ↦ undefined
    | slub ∷ others ↦ malloc_from_slub slub s >>= λ (ret, s').
        if slub_is_full slub s'
        then done (ret, add_full slub i (list_del slub s'))
        else done (ret, s')
  ]

  -- `free` of a pointer that is not aligned to a block.
  unfoldable pub free_solt : ℕ → Slub State → Slub State
  unfolding list_del add_avail align_below
  free_solt solt s =
      let slub = align_below 32 solt slub_block_size in
      let s' : Slub State = record s {
        free_list = set s.free_list slub (solt ∷ s.free_list slub);
      } in
      if slub_is_full slub s then add_avail slub (s.level_idx slub) (list_del slub s') else s'

  -- `slub_vmalloc__size`
  unfoldable pub size : ℕ → Slub State → Outcome ℕ
  size obj s = panic

  -- `slub_vmalloc__ctor` on a structure and memory of any contents
  unfoldable pub ctor : State → Slub State → Slub State
  ctor bridge s = record s {
    slub_avail = λ i. if ltb i slub_total_levels then [] else s.slub_avail i;
    slub_full = λ i. if ltb i slub_total_levels then [] else s.slub_full i;
    bridge = bridge;
  }

  module _ (pvbridge : PvBridge State) where
    -- `alloc_slub`
    unfoldable pub alloc_slub : ℕ → Slub State → Outcome (ℕ × Slub State)
    unfolding init_slub
    alloc_slub level s =
        assert (leb min_slub_level level)
        >> assert (leb level max_slub_level)
        >> (pvbridge.aligned_malloc slub_block_size slub_block_size s.bridge >>= λ (slub, bridge).
            if slub == 0
            then done (0, record s { bridge = bridge })
            else done (slub, init_slub level slub (record s { bridge = bridge })))

    -- The branch of `malloc` for an object that fits a block.
    unfoldable pub malloc_small : ℕ → Slub State → Outcome (ℕ × Slub State)
    unfolding alloc_slub add_avail malloc_first
    malloc_small level s =
        let i = level - min_slub_level in
        if list_empty (s.slub_avail i)
        then (alloc_slub level s >>= λ (new_slub, s').
            if new_slub == 0 then done (0, s') else malloc_first i (add_avail new_slub i s'))
        else malloc_first i s

    -- `slub_vmalloc__malloc`
    unfoldable pub malloc : ℕ → Slub State → Outcome (ℕ × Slub State)
    unfolding level_for malloc_small
    malloc size s = elim (level_for 60 min_slub_level size) [
      | none ↦ undefined
      | some level ↦
          if ltb max_slub_level level
          then (pvbridge.aligned_malloc size slub_block_size s.bridge >>= λ (ptr, bridge).
              done (ptr, record s { bridge = bridge }))
          else malloc_small level s
    ]

    -- `slub_vmalloc__free`
    unfoldable pub free : ℕ → Slub State → Outcome (Slub State)
    unfolding is_aligned free_solt
    free ptr s =
        if is_aligned 32 ptr slub_block_size
        then (pvbridge.free ptr s.bridge >>= λ bridge. done (record s { bridge = bridge }))
        else done (free_solt ptr s)
