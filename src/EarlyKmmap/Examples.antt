-- ===== src/EarlyKmmap/Examples.antt =====
-- The theorems on the queue at the mappings that the kernel starts with.
use fdu_os.Common.{ℕ, ◌+◌, ◌-◌, ◌%◌, ◌^◌, ◌≡◌, refl, Bool, Option, [], ◌∷◌, ◌==◌, arith}
use fdu_os.Common.Outcome.{done}
use fdu_os.Util.{overlap}
use fdu_os.Util.Intervals.{Within}
use fdu_os.EarlyKmmap.{
  EarlyMapping, EarlyMappings, Bases, memory, other, ok, overlaps_any, early_mapping_clear,
  early_mapping_add, early_mapping_add_memory, early_mapping_add_kmmap,
}
use fdu_os.EarlyKmmap.Accept.{IsSound, Adds, early_mapping_add_lem, sound_separate}
use fdu_os.EarlyKmmap.Regions.{IsPacked, AddsMemory, early_mapping_add_memory_lem}
use fdu_os.EarlyKmmap.Dynamic.{AddsKmmap, early_mapping_add_kmmap_lem}
use fdu_os.EarlyKmmap.Reach.{Reached, cleared, memory_step, own_step, Reached-IsPacked}

abbrev whole_pages : EarlyMapping → Bool
whole_pages m = m.size % 2 ^ 21 == 0

abbrev bases : Bases
bases = record { kern_base = 2 ^ 31; kmmap_base = 2 ^ 31 + 2 ^ 30; reserved_base = 2 ^ 32 - 2 ^ 25 }

abbrev low : EarlyMapping
low = record { paddr = 0; vaddr = 0; size = 2 ^ 22; kind = other }

abbrev high : EarlyMapping
high = record { paddr = 0; vaddr = 2 ^ 31; size = 2 ^ 22; kind = memory }

abbrev start : EarlyMappings
start = record { queue = []; mem_top = 2 ^ 31; kmmap_top = 2 ^ 31 + 2 ^ 30 }

abbrev with_low : EarlyMappings
with_low = record start { queue = low ∷ [] }

abbrev with_both : EarlyMappings
with_both = record start { queue = low ∷ high ∷ []; mem_top = 2 ^ 31 + 2 ^ 22 }

with_both-IsSound : IsSound whole_pages with_both
unfolding overlap
with_both-IsSound = record {
  bounded = omega arith;
  all_valid = (refl, (refl, tt));
  apart = ((refl, tt), (tt, tt));
}

early_mapping_add_lem_example :
    Adds whole_pages low with_both (early_mapping_add whole_pages low with_both)
early_mapping_add_lem_example = early_mapping_add_lem with_both-IsSound low

sound_separate_example : ¬ Within 4096 (2 ^ 31) (2 ^ 22)
sound_separate_example =
    sound_separate 0 1 low high with_both-IsSound (omega arith) refl refl (omega arith, omega arith)
      (omega arith, omega arith) (omega arith) 4096 (omega arith, omega arith)

reached_low : Reached bases whole_pages with_low
unfolding early_mapping_add overlaps_any early_mapping_clear
reached_low = own_step low ok refl refl (cleared start) refl

reached_both : Reached bases whole_pages with_both
unfolding early_mapping_add_memory overlap
reached_both = memory_step 0 (2 ^ 22) (2 ^ 22) reached_low refl

Reached-IsPacked_example : IsPacked bases whole_pages with_both
Reached-IsPacked_example = Reached-IsPacked (omega arith) (omega arith) (omega arith) reached_both

early_mapping_add_memory_lem_example :
    (r : ℕ) × (s' : EarlyMappings) × (early_mapping_add_memory bases whole_pages 0 (2 ^ 30) with_low
      ≡ done (r, s'))
    × AddsMemory
        (Reached-IsPacked (omega arith) (omega arith) (omega arith) reached_low)
        (omega arith)
        (2 ^ 30)
        r
        s'
early_mapping_add_memory_lem_example =
    early_mapping_add_memory_lem
      (Reached-IsPacked (omega arith) (omega arith) (omega arith) reached_low) (omega arith) 0
      (2 ^ 30) (omega arith)

early_mapping_add_kmmap_lem_example :
    (r : Option ℕ) × (s' : EarlyMappings) × (early_mapping_add_kmmap bases whole_pages
        (2 ^ 24)
        (2 ^ 21)
        with_low
      ≡ done (r, s'))
    × AddsKmmap bases whole_pages with_low (2 ^ 21) r s'
early_mapping_add_kmmap_lem_example =
    early_mapping_add_kmmap_lem
      (Reached-IsPacked (omega arith) (omega arith) (omega arith) reached_low) (omega arith)
      (2 ^ 24) (2 ^ 21)
