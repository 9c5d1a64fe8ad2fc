-- ===== src/Zones.antt =====
-- `arch_init_pmm_zone`, `try_free_page` and `arch_init_free_pmm_zone` of kern/arch/i386/arch_mmu.c:
-- the zones of physical memory. The addresses of the kernel's first and last byte, which the linker sets, are parameters.
pub mod Tops
pub mod Partition
pub mod Pages
pub mod Release
mod Examples
use fdu_os.Common.{
  ℕ, zero, suc, ◌+◌, ◌^◌, Bool, true, false, ◌&&◌, Option, none, some, List, [], ◌∷◌, ltb, leb,
  ◌==◌, if◌then◌else◌,
}
use fdu_os.Common.Words.{add64, sub64}
use fdu_os.Common.Outcome.{Outcome, done, panic, undefined, ◌>>=◌, ◌>>◌, assert}
use fdu_os.Util.{roundup, rounddown, is_aligned, min2, max2}

-- `struct machine_memory_map`
pub record MemoryRegion : Type 0 where
  pub base : ℕ
  pub size : ℕ
  pub type_code : ℕ

-- `struct zone`, without its allocator and its page size, which is 4 KB for each
pub record Zone : Type 0 where
  pub base : ℕ
  pub size : ℕ

-- `pmm_zone`
pub record Zones : Type 0 where
  pub dma : Zone
  pub normal : Zone
  pub highmem : Zone

-- The loop over the memory map, with `normal_top` and `max_physmem`.
unfoldable pub query_zones : ℕ → ℕ → List MemoryRegion → ℕ × ℕ → ℕ × ℕ
query_zones kern_start kern_end [] tops = tops
query_zones kern_start kern_end (r ∷ rs) (normal_top, max_physmem) =
    let top = add64 r.base r.size in
    query_zones kern_start kern_end rs (
      if (r.type_code == 1) && leb r.base kern_start && leb kern_end top then top else normal_top,
      max2 max_physmem top,
    )

-- The zones for the two tops: the rest of `arch_init_pmm_zone`, where `kernel_room` is
-- `KTOP - KOFFSET`.
unfoldable pub set_zones : ℕ → ℕ × ℕ → Outcome Zones
set_zones kernel_room (top, max) =
    let normal_top = rounddown (min2 top kernel_room) (2 ^ 12) in
    let max_physmem = rounddown max (2 ^ 12) in
    assert (is_aligned 64 normal_top (2 ^ 12))
    >> assert (is_aligned 64 max_physmem (2 ^ 12))
    >> assert (leb normal_top max_physmem)
    >> done (record {
      dma = record { base = 0; size = 2 ^ 24 };
      normal = record { base = 2 ^ 24; size = sub64 normal_top (2 ^ 24) };
      highmem = record { base = normal_top; size = sub64 max_physmem normal_top };
    })

-- `arch_init_pmm_zone`
pub arch_init_pmm_zone : ℕ → ℕ → ℕ → List MemoryRegion → Outcome Zones
unfolding query_zones set_zones
arch_init_pmm_zone kernel_room kern_start kern_end regions =
    set_zones kernel_room (query_zones kern_start kern_end regions (0, 0))

-- The test of `try_free_page`
unfoldable pub in_zone : Zone → ℕ → Bool
in_zone z page = leb z.base page && ltb page (add64 z.base z.size)

-- The allocators of the zones, of any class of allocators.
pub record Allocators (A : Type 0) : Type 0 where
  pub dma : A
  pub normal : A
  pub highmem : A

-- The result of a loop that runs on fuel, `none` when the fuel is used up, and what comes after it.
abbrev pub and_then :
    {A : Type 0} → Option (Outcome A) → (A → Option (Outcome A)) → Option (Outcome A)
and_then none k = none
and_then (some (done a)) k = k a
and_then (some panic) k = some panic
and_then (some undefined) k = some undefined

module _ {A : Type 0} (free : ℕ → A → Outcome A) where
  -- `try_free_page`
  unfoldable pub try_free_page : Zone → ℕ → A → Outcome A
  unfolding in_zone
  try_free_page z page a = if in_zone z page then free page a else done a

  -- The loop over the zones
  unfoldable pub try_free_zones : Zones → ℕ → Allocators A → Outcome (Allocators A)
  unfolding try_free_page
  try_free_zones zs page s = try_free_page zs.dma page s.dma >>= λ dma.
      (try_free_page zs.normal page s.normal >>= λ normal.
      (try_free_page zs.highmem page s.highmem >>= λ highmem.
      done (record { dma = dma; normal = normal; highmem = highmem })))

  module _ (kstart kend : ℕ) (zs : Zones) where
    -- `kstart <= page && page < kend`
    abbrev pub is_kernel : ℕ → Bool
    is_kernel page = leb kstart page && ltb page kend

    -- `for (addr_t page = st; page < ed; page += PAGE_SIZE)`
    unfoldable pub free_loop : ℕ → ℕ → ℕ → Allocators A → Option (Outcome (Allocators A))
    unfolding try_free_zones
    free_loop zero page ed s = none
    free_loop (suc fuel) page ed s =
        let turn =
          and_then (some (if is_kernel page then done s else try_free_zones zs page s))
            (free_loop fuel (add64 page 4096) ed) in
        if ltb page ed then turn else some (done s)

    -- `arch_init_free_pmm_zone` on the regions of the memory map
    unfoldable pub arch_init_free_pmm_zone :
        ℕ → List MemoryRegion → Allocators A → Option (Outcome (Allocators A))
    unfolding free_loop roundup rounddown
    arch_init_free_pmm_zone fuel [] s = some (done s)
    arch_init_free_pmm_zone fuel (r ∷ rs) s =
        let st = roundup 64 r.base 4096 in
        let ed = rounddown (add64 r.base r.size) 4096 in
        if r.type_code == 1
        then and_then (free_loop fuel st ed s) (arch_init_free_pmm_zone fuel rs)
        else arch_init_free_pmm_zone fuel rs s
