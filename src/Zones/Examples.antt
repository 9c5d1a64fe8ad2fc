-- ===== src/Zones/Examples.antt =====
-- The theorem on the zones at a machine with 64 MB.
use fdu_os.Common.{
  some, not, ◌&&◌, ◌%◌, ◌==◌, if◌then◌else◌, ℕ, ◌-◌, ◌^◌, ◌≡◌, refl, List, [], ◌∷◌, arith,
}
use fdu_os.Common.Outcome.{Outcome, done}
use fdu_os.Buddy.Tiles.{count}
use fdu_os.Zones.{MemoryRegion, Zones, arch_init_pmm_zone, Allocators, arch_init_free_pmm_zone}
use fdu_os.Zones.Pages.{in_kernel, holding}
use fdu_os.Zones.Release.{free_each, arch_init_free_pmm_zone_lem}
use fdu_os.Zones.Partition.{ArePartition, AreSet, arch_init_pmm_zone_lem}

abbrev lower : MemoryRegion
lower = record { base = 0; size = 654336; type_code = 1 }

abbrev upper : MemoryRegion
upper = record { base = 2 ^ 20; size = 2 ^ 26 - 2 ^ 20; type_code = 1 }

abbrev regions : List MemoryRegion
regions = lower ∷ upper ∷ []

arch_init_pmm_zone_lem_example :
    (zs : Zones) × (arch_init_pmm_zone (2 ^ 30) (2 ^ 20) (2 ^ 21) regions ≡ done zs)
    × AreSet (2 ^ 30) upper regions zs
arch_init_pmm_zone_lem_example =
    arch_init_pmm_zone_lem (2 ^ 30) (2 ^ 20) (2 ^ 21) (lower ∷ []) upper []
      (omega arith, (omega arith, tt)) refl tt (omega arith) (omega arith)

-- An allocator that notes what is given to it.
abbrev note : ℕ → List ℕ → Outcome (List ℕ)
note page pages = done (page ∷ pages)

abbrev zones : Zones
zones = record {
  dma = record { base = 0; size = 2 ^ 24 };
  normal = record { base = 2 ^ 24; size = 2 ^ 26 - 2 ^ 24 };
  highmem = record { base = 2 ^ 26; size = 0 };
}

in_order : ArePartition zones (2 ^ 26) (2 ^ 26)
in_order = record {
  dma_first = refl;
  dma_size = refl;
  normal_next = refl;
  highmem_next = refl;
  end = refl;
  normal_end = refl;
  whole_pages = (refl, refl);
}

abbrev nothing_noted : Allocators (List ℕ)
nothing_noted = record { dma = []; normal = []; highmem = [] }

arch_init_free_pmm_zone_lem_example :
    (ps : List ℕ) × (arch_init_free_pmm_zone note
        (2 ^ 20)
        (2 ^ 21)
        zones
        16384
        regions
        nothing_noted
      ≡ some (free_each note zones ps nothing_noted))
    × ((p : ℕ)
        → count p ps ≡ (
            if not (in_kernel (2 ^ 20) (2 ^ 21) p) && (p % 4096 == 0)
            then holding p regions
            else 0))
arch_init_free_pmm_zone_lem_example =
    arch_init_free_pmm_zone_lem note zones (2 ^ 20) (2 ^ 21) 16384 regions nothing_noted in_order
      (omega arith) (omega arith) ((omega arith, omega arith), ((omega arith, omega arith), tt))
      (omega arith, (omega arith, tt))
