-- ===== src/BootPages.antt =====
-- kern/arch/i386/arch_mmu.c with the macros of include/aim/mmu.h and include/arch/i386/arch-mmu.h,
-- and `page_index_init` of kern/mm/mmu.c: the page tables that the kernel boots with.
-- `page_index_clear` points the four entries of the first level at four fixed tables and nothing
-- changes them afterwards, so the state is the entries of those tables, by first and second index.
pub mod Entries
pub mod Loop
pub mod Init
mod Examples
use Prim.Native.Nat.{bit_and, bit_or}
use fdu_os.Common.{
  ℕ, zero, suc, ◌+◌, ◌-◌, ◌*◌, ◌/◌, ◌%◌, ◌^◌, Bool, true, false, ◌&&◌, Option, none, some, List, [],
  ◌∷◌, get_elem?, ltb, ◌==◌, if◌then◌else◌,
}
use fdu_os.Common.Words.{word, add64}
use fdu_os.Common.Outcome.{Outcome, done, panic, undefined, ◌>>=◌, ◌>>◌, assert}
use fdu_os.EarlyKmmap.{EarlyMapping, EarlyMappings, early_mapping_next}

-- `__boot_page_mid_all`
abbrev pub PageTables : Type 0
PageTables = ℕ → ℕ → ℕ

-- `BIGPAGE_SIZE`
abbrev pub big_page_size : ℕ
big_page_size = 2 ^ 21

-- `BIGPAGE_OFF`
unfoldable pub big_page_off : ℕ → ℕ
big_page_off x = bit_and x (big_page_size - 1)

-- `PGINDEX_FN` and `PGMID_FN`
unfoldable pub pgindex_fn : ℕ → ℕ
pgindex_fn x = bit_and (x / 2 ^ 30) (2 ^ 2 - 1)

unfoldable pub pgmid_fn : ℕ → ℕ
pgmid_fn x = bit_and (x / 2 ^ 21) (2 ^ 9 - 1)

-- `MKPGMID_BIG(pa) | PGMID_RW`
unfoldable pub big_entry : ℕ → ℕ
big_entry pa = bit_or (bit_or (bit_or pa (2 ^ 0)) (2 ^ 7)) (2 ^ 1)

-- `pgmid[PGMID_FN(va)] = e` in the table that entry `PGINDEX_FN(va)` of the first level points at
abbrev pub put_entry : ℕ → ℕ → PageTables → PageTables
put_entry va e t i j = if (pgindex_fn va == i) && (pgmid_fn va == j) then e else t i j

-- `early_mapping_valid`
unfoldable pub early_mapping_valid : EarlyMapping → Bool
unfolding big_page_off
early_mapping_valid m =
    (big_page_off m.paddr == 0) && (big_page_off (word m.vaddr) == 0) && (big_page_off m.size == 0)

-- The loop of `page_index_early_map`, for any entry of a physical address; `none` when the fuel
-- runs out.
unfoldable pub map_loop : (ℕ → ℕ) → ℕ → ℕ → ℕ → ℕ → PageTables → Option PageTables
unfolding pgindex_fn pgmid_fn
map_loop entry zero pa va end_pa t = none
map_loop entry (suc fuel) pa va end_pa t =
    let rest =
      map_loop entry fuel (add64 pa big_page_size) (add64 va big_page_size) end_pa
        (put_entry va (entry pa) t) in
    if ltb pa end_pa then rest else some t

-- The body of `page_index_early_map`, on fuel for its loop.
unfoldable pub early_map_on : ℕ → EarlyMapping → PageTables → Outcome PageTables
unfolding big_page_off map_loop big_entry
early_map_on fuel m t =
    assert (big_page_off m.paddr == 0)
    >> assert (big_page_off (word m.vaddr) == 0)
    >> assert (big_page_off m.size == 0)
    >> elim (map_loop big_entry fuel m.paddr (word m.vaddr) (add64 m.paddr m.size) t) [
      | none ↦ undefined
      | some t' ↦ done t'
    ]

-- `page_index_early_map`. A `size_t` is less than 2048 big pages, so that the last test fits too.
unfoldable pub page_index_early_map : EarlyMapping → PageTables → Outcome PageTables
unfolding early_map_on
page_index_early_map m t = early_map_on 2048 m t

-- `page_index_clear`: no entry is present.
unfoldable pub page_index_clear : PageTables → PageTables
page_index_clear t i j = 0

-- The loop of `page_index_init`, from an iterator on; `undefined` when the fuel runs out.
unfoldable pub init_loop : ℕ → Option ℕ → EarlyMappings → PageTables → Outcome PageTables
unfolding page_index_early_map early_mapping_next
init_loop zero mapping s t = undefined
init_loop (suc fuel) mapping s t = elim mapping [
  | none ↦ done t
  | some i ↦ elim (get_elem? s.queue i) [
    | none ↦ undefined
    | some m ↦ page_index_early_map m t >>= init_loop fuel (early_mapping_next (some i) s) s
  ]
]

-- `page_index_init`
pub page_index_init : EarlyMappings → PageTables → Outcome PageTables
unfolding init_loop page_index_clear early_mapping_next
page_index_init s t = init_loop 11 (early_mapping_next none s) s (page_index_clear t)
