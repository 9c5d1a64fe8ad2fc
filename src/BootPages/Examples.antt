-- ===== src/BootPages/Examples.antt =====
-- The theorems on the boot page tables at one mapping of 4 MB from 2 GB on.
use fdu_os.Common.{ℕ, ◌+◌, ◌^◌, ◌<◌, ◌≡◌, refl, none, [], ◌∷◌, arith}
use fdu_os.Common.Outcome.{done}
use fdu_os.EarlyKmmap.{EarlyMapping, EarlyMappings, memory}
use fdu_os.EarlyKmmap.Accept.{IsSound}
use fdu_os.BootPages.{
  PageTables, big_page_off, early_mapping_valid, page_index_early_map, page_index_init,
}
use fdu_os.BootPages.Entries.{translate}
use fdu_os.BootPages.Loop.{Maps, Fits, page_index_early_map-Maps}
use fdu_os.BootPages.Init.{resolve, page_index_init_lem}

abbrev kernel : EarlyMapping
kernel = record { paddr = 2 ^ 22; vaddr = 2 ^ 31; size = 2 ^ 22; kind = memory }

abbrev kernel_only : EarlyMappings
kernel_only = record { queue = kernel ∷ []; mem_top = 2 ^ 31 + 2 ^ 22; kmmap_top = 2 ^ 31 + 2 ^ 30 }

abbrev no_pages : PageTables
no_pages i j = 0

kernel-Fits : Fits kernel
kernel-Fits = record {
  paddr_aligned = refl;
  vaddr_aligned = refl;
  size_aligned = refl;
  vaddr_end = omega arith;
  size_small = omega arith;
  vaddr_small = omega arith;
  paddr_end = omega arith;
}

page_index_early_map-Maps_example :
    (t' : PageTables) × (page_index_early_map kernel no_pages ≡ done t')
    × Maps (2 ^ 31) (2 ^ 22) (2 ^ 22) no_pages t'
page_index_early_map-Maps_example = page_index_early_map-Maps kernel no_pages kernel-Fits

kernel_only-IsSound : IsSound early_mapping_valid kernel_only
unfolding early_mapping_valid big_page_off
kernel_only-IsSound = record { bounded = omega arith; all_valid = (refl, tt); apart = (tt, tt) }

page_index_init_lem_example :
    (t' : PageTables) × (page_index_init kernel_only no_pages ≡ done t')
    × ((a : ℕ) → a < 2 ^ 32 → translate t' a ≡ resolve (kernel ∷ []) none a)
page_index_init_lem_example = page_index_init_lem kernel_only no_pages kernel_only-IsSound (
  record {
    vaddr_end = omega arith;
    size_small = omega arith;
    vaddr_small = omega arith;
    paddr_end = omega arith;
  },
  tt,
)
