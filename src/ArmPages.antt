-- ===== src/ArmPages.antt =====
-- kern/arch/armv7a/arch_mmu.c with the macros of include/arch/armv7a/arch-mmu.h: the page tables of
-- ARMv7-A that the kernel boots with, in the long-descriptor format. The macros of the indices and
-- the loop over the big pages are those of i386 (BootPages), for other entries.
pub mod Entries
pub mod Maps
mod Examples
use Prim.Native.Nat.{bit_or}
use fdu_os.Common.{ℕ, ◌*◌, ◌^◌, Bool, ◌&&◌, ◌==◌, none, some}
use fdu_os.Common.Words.{word, add64}
use fdu_os.Common.Outcome.{Outcome, done, panic, undefined, ◌>>=◌, ◌>>◌, assert}
use fdu_os.EarlyKmmap.{MappingType, memory, device, framebuffer, EarlyMapping}
use fdu_os.BootPages.{PageTables, big_page_off, map_loop}

-- `early_mapping_valid`
unfoldable pub early_mapping_valid : EarlyMapping → Bool
unfolding big_page_off
early_mapping_valid m =
    (big_page_off m.paddr == 0) && (big_page_off (word m.vaddr) == 0) && (big_page_off m.size == 0)

-- `MKS1LA(nG, AF, SH, AP, NS, AttrIndx)`
abbrev pub mks1la : ℕ → ℕ → ℕ → ℕ → ℕ → ℕ → ℕ
mks1la ng af sh ap ns attr =
    bit_or
      (bit_or (bit_or (bit_or (bit_or (ng * 2 ^ 11) (af * 2 ^ 10)) (sh * 2 ^ 8)) (ap * 2 ^ 6))
        (ns * 2 ^ 5))
      (attr * 2 ^ 2)

-- `MKS1UA(SoftUse, XN, PXN, ContHint)`
abbrev pub mks1ua : ℕ → ℕ → ℕ → ℕ → ℕ
mks1ua soft_use xn pxn cont_hint =
    bit_or (bit_or (bit_or (soft_use * 2 ^ 55) (xn * 2 ^ 54)) (pxn * 2 ^ 53)) (cont_hint * 2 ^ 52)

-- `MKPGMID_BIG(pa, SH, AttrIndx)`
unfoldable pub mkpgmid_big : ℕ × ℕ → ℕ → ℕ
mkpgmid_big (sh, attr) pa = bit_or (bit_or (bit_or pa 1) (mks1ua 0 0 0 0)) (mks1la 0 1 sh 0 0 attr)

-- The `switch` on the type of the mapping: `SH` and `AttrIndx`
abbrev pub attributes : MappingType → Outcome (ℕ × ℕ)
attributes memory = done (3, 0)
attributes device = done (2, 1)
attributes framebuffer = done (2, 2)
attributes kind = panic

-- The body of `page_index_early_map`, on fuel for its loop.
unfoldable pub early_map_on : ℕ → EarlyMapping → PageTables → Outcome PageTables
unfolding big_page_off map_loop mkpgmid_big
early_map_on fuel m t =
    assert (big_page_off m.paddr == 0)
    >> assert (big_page_off (word m.vaddr) == 0)
    >> assert (big_page_off m.size == 0)
    >> (attributes m.kind >>= λ attr.
        elim (map_loop (mkpgmid_big attr) fuel m.paddr (word m.vaddr) (add64 m.paddr m.size) t) [
          | none ↦ undefined
          | some t' ↦ done t'
        ])

-- `page_index_early_map`. A `size_t` is less than 2048 big pages, so that the last test fits too.
unfoldable pub page_index_early_map : EarlyMapping → PageTables → Outcome PageTables
unfolding early_map_on
page_index_early_map m t = early_map_on 2048 m t

-- `page_index_clear`: no entry is present.
unfoldable pub page_index_clear : PageTables → PageTables
page_index_clear t i j = 0
