-- ===== src/ArmPages/Maps.antt =====
-- The mapping of one region in the page tables of ARMv7-A.
use native.Mathlib.Nat.{mod-eq_of_lt}
use mathlib.Core.Path.{subst}
use fdu_os.Common.{ℕ, ◌+◌, ◌*◌, ◌/◌, ◌%◌, ◌^◌, ◌≤◌, ◌<◌, ◌≡◌, refl, sym, ap, ◌∙◌, some, arith}
use fdu_os.Common.Bits.Powers.{bit_and_mask}
use fdu_os.Common.Words.{add64, word}
use fdu_os.Common.Outcome.{done}
use fdu_os.EarlyKmmap.{MappingType, EarlyMapping}
use fdu_os.BootPages.{PageTables, big_page_off, map_loop}
use fdu_os.BootPages.Loop.{MapsBy, map_loop-MapsBy}
use fdu_os.ArmPages.{mkpgmid_big, attributes, early_map_on, page_index_early_map}
use fdu_os.ArmPages.Entries.{
  block_target, IsKnown, for_memory, for_device, for_framebuffer, block_target-mkpgmid_big,
}

-- A mapping that is aligned, with ends that fit the addresses; a physical address has 40 bits.
pub record FitsArm (m : EarlyMapping) : Type 0 where
  pub paddr_aligned : m.paddr % 2 ^ 21 ≡ 0
  pub vaddr_aligned : m.vaddr % 2 ^ 21 ≡ 0
  pub size_aligned : m.size % 2 ^ 21 ≡ 0
  pub vaddr_end : m.vaddr + m.size ≤ 2 ^ 32
  pub size_small : m.size < 2 ^ 32
  pub vaddr_small : m.vaddr < 2 ^ 32
  pub paddr_end : m.paddr + m.size ≤ 2 ^ 40

module _ (m : EarlyMapping) (t : PageTables) (f : FitsArm m) {attr : ℕ × ℕ}
    (known : IsKnown m.kind attr) where
  attributes_known : (kind : MappingType) (x : ℕ × ℕ) → IsKnown kind x → attributes kind ≡ done x
  attributes_known kind x for_memory = refl
  attributes_known kind x for_device = refl
  attributes_known kind x for_framebuffer = refl

  early_map_on-done :
      (fuel : ℕ) (t' : PageTables)
      → map_loop (mkpgmid_big attr) fuel m.paddr m.vaddr (m.paddr + m.size) t ≡ some t'
      → early_map_on fuel m t ≡ done t'
  unfolding early_map_on big_page_off
  early_map_on-done fuel t' e =
      let v : word m.vaddr ≡ m.vaddr = mod-eq_of_lt f.vaddr_small in
      let end : add64 m.paddr m.size ≡ m.paddr + m.size =
        mod-eq_of_lt (omega (arith, f.paddr_end)) in
      rw
        (
          bit_and_mask 21 m.paddr,
          v,
          bit_and_mask 21 m.vaddr,
          bit_and_mask 21 m.size,
          f.paddr_aligned,
          f.vaddr_aligned,
          f.size_aligned,
          attributes_known m.kind attr known,
          end,
          e,
        )
        refl

  mapped_by :
      (fuel n : ℕ)
      → n < fuel
      → n * 2 ^ 21 ≡ m.size
      → (t' : PageTables) × (early_map_on fuel m t ≡ done t')
        × MapsBy block_target m.vaddr m.paddr m.size t t'
  mapped_by fuel n lt whole =
      let (t', e, maps) =
        map_loop-MapsBy block_target (mkpgmid_big attr) (2 ^ 40) (omega arith)
          (block_target-mkpgmid_big m.kind attr known) fuel n m.paddr m.vaddr t lt f.paddr_aligned
          f.vaddr_aligned (omega (arith, f.vaddr_end)) (omega (arith, f.paddr_end)) in
      (
        t',
        early_map_on-done fuel t' (
            ap (λ x. map_loop (mkpgmid_big attr) fuel m.paddr m.vaddr (m.paddr + x) t) (sym whole)
            ∙ e),
        subst (λ x. MapsBy block_target m.vaddr m.paddr x t t') whole maps,
      )

  -- For a mapping of memory, of a device or of a framebuffer, whose addresses and size are
  -- multiples of 2 MB and fit the page tables of ARMv7-A: `page_index_early_map` fails no
  -- assertion, its loop ends, and afterwards the processor finds the mapping's physical address
  -- for each of its virtual addresses, and for every other virtual address what it found before.
  pub page_index_early_map-MapsBy :
      (t' : PageTables) × (page_index_early_map m t ≡ done t')
      × MapsBy block_target m.vaddr m.paddr m.size t t'
  unfolding page_index_early_map
  page_index_early_map-MapsBy =
      mapped_by 2048 (m.size / 2 ^ 21) (omega (arith, f.size_small)) (omega (arith, f.size_aligned))
