-- ===== src/Slub/Examples.antt =====
-- The theorems on the allocator of small objects, over the bridge and the sample zone.
use fdu_os.Common.{ℕ, ◌+◌, ◌-◌, ◌^◌, ◌<◌, ◌≤◌, ◌≡◌, refl, [], set, arith}
use fdu_os.Common.Outcome.{done}
use fdu_os.Util.{div_round_up, is_aligned, is_pow_of_2, align_above}
use fdu_os.Buddy
use fdu_os.Buddy.{
  Buddy, erase, target_order, find_block, take_block, list_add, list_del, get_high_index,
  split_loop, split_once, mark_block,
}
use fdu_os.Buddy.Sample.{zone, blocks, zone-IsValid}
use fdu_os.Bridge.{PvBridge, koffset_pvbridge, buddy_pmalloc, bridge_aligned_malloc}
use fdu_os.Bridge.Pieces.{AreApart, PieceLaws}
use fdu_os.Bridge.OverBuddy.{BuddyHolds, buddy_PieceLaws}
use fdu_os.Slub.{
  Slub, ctor, malloc, free, level_for, malloc_small, alloc_slub, init_slub, add_solts,
  calc_maxsolts, solts_offset, add_avail, malloc_first, malloc_from_slub,
}
use fdu_os.Slub.Runs.{
  Reached, constructed, malloc_step, malloc_state, Reached-AreApart, Reached-done, no_blocks,
  ctor-IsSound,
}
use fdu_os.Slub.Calls.{Mallocs, Frees}
use fdu_os.Slub.Malloc.{malloc-Mallocs}
use fdu_os.Slub.Free.{free-Frees}

-- The kernel's offset: 2 GB.
abbrev pvbridge : PvBridge Buddy
pvbridge = koffset_pvbridge (2 ^ 31) buddy_pmalloc

abbrev unused : Slub Buddy
unused = record {
  level_idx = λ b. 0;
  free_list = λ b. [];
  slub_avail = λ i. [];
  slub_full = λ i. [];
  bridge = zone;
}

abbrev fresh : Slub Buddy
fresh = ctor zone unused

zone_holds : BuddyHolds (2 ^ 31) zone (λ p. 0)
zone_holds = record {
  blocks = blocks;
  valid = zone-IsValid;
  page = refl;
  boundary = refl;
  fits = omega arith;
  used = λ x. λ h. absurd (omega arith);
}

zone_laws : PieceLaws pvbridge (BuddyHolds (2 ^ 31))
zone_laws = buddy_PieceLaws (2 ^ 31) (omega arith) refl

-- An object of 1000 bytes: the last of the three slots of the first free page.
abbrev first_object : ℕ
first_object = 2 ^ 31 + 2 ^ 20 + 4096 + 1024 + 2048

first_malloc :
    malloc pvbridge 1000 fresh
    ≡ done (first_object, malloc_state fresh (malloc pvbridge 1000 fresh))
unfolding malloc ctor level_for malloc_small alloc_slub init_slub add_solts calc_maxsolts
    solts_offset add_avail malloc_first malloc_from_slub bridge_aligned_malloc Buddy.aligned_malloc
    Buddy.malloc target_order find_block take_block erase list_add Buddy.list_del get_high_index
    split_loop split_once mark_block div_round_up is_aligned is_pow_of_2 align_above
first_malloc = refl

-- Two objects in a row.
abbrev one : Slub Buddy
one = malloc_state fresh (malloc pvbridge 1000 fresh)

abbrev two : Slub Buddy
two = malloc_state one (malloc pvbridge 600 one)

abbrev second_object : ℕ
second_object = first_object - 1024

second_malloc : malloc pvbridge 600 one ≡ done (second_object, two)
unfolding malloc ctor level_for malloc_small alloc_slub init_slub add_solts calc_maxsolts
    solts_offset add_avail malloc_first malloc_from_slub bridge_aligned_malloc Buddy.aligned_malloc
    Buddy.malloc target_order find_block take_block erase list_add Buddy.list_del get_high_index
    split_loop split_once mark_block div_round_up is_aligned is_pow_of_2 align_above
second_malloc = refl

abbrev asked : ℕ → ℕ
asked = set (set (λ x. 0) first_object 1000) second_object 600

two_Reached : Reached pvbridge zone two asked
two_Reached =
    malloc_step 600 second_object
      (malloc_step 1000 first_object (constructed unused) (omega arith) first_malloc (omega arith))
      (omega arith) second_malloc (omega arith)

Reached-AreApart_example :
    AreApart first_object 1000 second_object 600
    × (0 < first_object)
    × (0 < second_object)
    × (first_object + 1000 ≤ 2 ^ 32)
    × (second_object + 600 ≤ 2 ^ 32)
Reached-AreApart_example =
    Reached-AreApart zone_laws first_object second_object zone_holds two_Reached (omega arith)
      (omega arith) (omega arith)

Reached-done_example :
    ((a : ℕ × Slub Buddy) × (malloc pvbridge 5000 two ≡ done a))
    × ((s' : Slub Buddy) × (free pvbridge first_object two ≡ done s'))
Reached-done_example =
    Reached-done zone_laws 5000 first_object zone_holds two_Reached (omega arith) (omega arith)

malloc-Mallocs_example :
    Mallocs (BuddyHolds (2 ^ 31)) fresh (no_blocks (λ x. 0)) 1000 (malloc pvbridge 1000 fresh)
malloc-Mallocs_example =
    malloc-Mallocs zone_laws 1000
      (ctor-IsSound zone_laws unused zone_holds (λ x. λ h. absurd (omega arith))) (omega arith)

-- The page that is in use, as a piece of its own.
abbrev page : ℕ
page = 2 ^ 31 + 2 ^ 20

page_holds : BuddyHolds (2 ^ 31) zone (set (λ x. 0) page 4096)
page_holds = record {
  blocks = blocks;
  valid = zone-IsValid;
  page = refl;
  boundary = refl;
  fits = omega arith;
  used = λ x. λ h. record {
    order = 0;
    pages = 1;
    index = 0;
    in_use = omega arith;
    covers = ground arith;
    enough = omega arith;
    inside = omega arith;
    starts = ground arith;
  };
}

free-Frees_example :
    Frees
      (BuddyHolds (2 ^ 31))
      fresh
      (no_blocks (set (λ x. 0) page 4096))
      page
      (free pvbridge page fresh)
free-Frees_example =
    free-Frees zone_laws (ctor-IsSound zone_laws unused page_holds (λ x. λ h. ground arith)) page
      (omega arith)
