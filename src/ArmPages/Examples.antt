-- ===== src/ArmPages/Examples.antt =====
-- The mapping of the devices of the Raspberry Pi 2.
use fdu_os.Common.{◌≡◌, arith}
use fdu_os.Common.Outcome.{done}
use fdu_os.EarlyKmmap.{EarlyMapping, device}
use fdu_os.BootPages.{PageTables}
use fdu_os.BootPages.Loop.{MapsBy}
use fdu_os.ArmPages.{page_index_early_map}
use fdu_os.ArmPages.Entries.{block_target, for_device}
use fdu_os.ArmPages.Maps.{page_index_early_map-MapsBy}

abbrev devices : EarlyMapping
devices = record { paddr = 1056964608; vaddr = 4043309056; size = 16777216; kind = device }

abbrev no_entries : PageTables
no_entries i j = 0

page_index_early_map-MapsBy_example :
    (t' : PageTables) × (page_index_early_map devices no_entries ≡ done t')
    × MapsBy block_target 4043309056 1056964608 16777216 no_entries t'
page_index_early_map-MapsBy_example =
    page_index_early_map-MapsBy devices no_entries
      (record {
        paddr_aligned = omega arith;
        vaddr_aligned = omega arith;
        size_aligned = omega arith;
        vaddr_end = omega arith;
        size_small = omega arith;
        vaddr_small = omega arith;
        paddr_end = omega arith;
      })
      for_device
