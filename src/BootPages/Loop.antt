-- ===== src/BootPages/Loop.antt =====
-- The loop that maps one region: every address of the region is mapped, and no other changes.
use native.Mathlib.Nat.{mod-eq_of_lt}
use mathlib.Core.Path.{subst}
use fdu_os.Common.{
  ℕ, zero, suc, ◌+◌, ◌-◌, ◌*◌, ◌/◌, ◌%◌, ◌^◌, ◌≤◌, ◌<◌, ◌≡◌, refl, sym, ◌∙◌, true, false, ◌&&◌,
  Option, some, leb, ltb, ◌==◌, if◌then◌else◌, ==→eq, ◌≢◌, ap, Bool-cases, inl, inr, arith,
}
use fdu_os.Common.Bits.Powers.{bit_and_mask}
use fdu_os.Common.Words.{add64, word}
use fdu_os.Common.Outcome.{done}
use fdu_os.BootPages.{
  PageTables, big_page_off, big_entry, put_entry, map_loop, early_map_on, page_index_early_map,
}
use fdu_os.EarlyKmmap.{EarlyMapping}
use fdu_os.BootPages.Entries.{
  translate_by, entry_target, translate-put_entry, entry_target-big_entry,
}

-- The `len` addresses from `va` on are mapped to those from `pa` on, the others as in `t`.
abbrev pub MapsBy : (ℕ → ℕ → Option ℕ) → ℕ → ℕ → ℕ → PageTables → PageTables → Type 0
MapsBy target va pa len t t' =
    (a : ℕ)
    → a < 2 ^ 32
    → translate_by target t' a
      ≡ (if leb va a && ltb a (va + len) then some (pa + (a - va)) else translate_by target t a)

abbrev pub Maps : ℕ → ℕ → ℕ → PageTables → PageTables → Type 0
Maps = MapsBy entry_target

-- For entries that the processor reads as their pages of 2 MB, below a limit
module _ (target : ℕ → ℕ → Option ℕ) (entry : ℕ → ℕ) (limit : ℕ) (small : limit ≤ 2 ^ 63)
    (reads : (pa a : ℕ)
      → pa % 2 ^ 21 ≡ 0
      → pa < limit
      → target (entry pa) a ≡ some (pa + a % 2 ^ 21)) where
  map_loop_step :
      (pa va n : ℕ) (t t' : PageTables)
      → pa % 2 ^ 21 ≡ 0
      → va % 2 ^ 21 ≡ 0
      → va + suc n * 2 ^ 21 ≤ 2 ^ 32
      → pa + suc n * 2 ^ 21 ≤ limit
      → MapsBy target (va + 2 ^ 21) (pa + 2 ^ 21) (n * 2 ^ 21) (put_entry va (entry pa) t) t'
      → MapsBy target va pa (suc n * 2 ^ 21) t t'
  map_loop_step pa va n t t' hp hv vfit pfit more a lt =
      let here = translate-put_entry target va (entry pa) a t (omega arith) lt in
      let target = reads pa a hp (omega arith) in
      elim (Bool-cases (va / 2 ^ 21 == a / 2 ^ 21)) [
        | inl same ↦
            let page : va / 2 ^ 21 ≡ a / 2 ^ 21 = ==→eq (va / 2 ^ 21) (a / 2 ^ 21) same in
            let offset : a % 2 ^ 21 ≡ a - va = omega arith in
            let inside : (leb va a && ltb a (va + suc n * 2 ^ 21)) ≡ true = ground arith in
            let not_later : (leb (va + 2 ^ 21) a && ltb a (va + 2 ^ 21 + n * 2 ^ 21)) ≡ false =
              ground arith in
            let target_here = target ∙ ap (λ x. some (pa + x)) offset in
            rw inside (rw not_later at (more a lt) ∙ rw same at here ∙ target_here)
        | inr apart ↦
            let page : va / 2 ^ 21 ≢ a / 2 ^ 21 = ground arith in
            let same_test : (leb (va + 2 ^ 21) a && ltb a (va + 2 ^ 21 + n * 2 ^ 21))
                ≡ (leb va a && ltb a (va + suc n * 2 ^ 21)) =
              ground arith in
            elim (Bool-cases (leb va a && ltb a (va + suc n * 2 ^ 21))) [
              | inl inside ↦
                  let le : va + 2 ^ 21 ≤ a = ground arith in
                  let e : pa + 2 ^ 21 + (a - (va + 2 ^ 21)) ≡ pa + (a - va) = omega arith in
                  rw inside (rw (same_test ∙ inside) at (more a lt) ∙ ap some e)
              | inr outside ↦
                  rw outside (rw (same_test ∙ outside) at (more a lt) ∙ rw apart at here)
            ]
      ]

  map_loop-next :
      (fuel n pa va : ℕ) (t t' : PageTables)
      → va + suc n * 2 ^ 21 ≤ 2 ^ 32
      → pa + suc n * 2 ^ 21 ≤ limit
      → map_loop entry fuel
          (pa + 2 ^ 21)
          (va + 2 ^ 21)
          (pa + 2 ^ 21 + n * 2 ^ 21)
          (put_entry va (entry pa) t)
        ≡ some t'
      → map_loop entry (suc fuel) pa va (pa + suc n * 2 ^ 21) t ≡ some t'
  unfolding map_loop
  map_loop-next fuel n pa va t t' vfit pfit h =
      let go : ltb pa (pa + suc n * 2 ^ 21) ≡ true = ground arith in
      let next_pa : add64 pa (2 ^ 21) ≡ pa + 2 ^ 21 = mod-eq_of_lt (omega arith) in
      let next_va : add64 va (2 ^ 21) ≡ va + 2 ^ 21 = mod-eq_of_lt (omega arith) in
      let end : pa + suc n * 2 ^ 21 ≡ pa + 2 ^ 21 + n * 2 ^ 21 = omega arith in
      rw (go, next_pa, next_va, end) h

  pub map_loop-MapsBy :
      (fuel n pa va : ℕ) (t : PageTables)
      → n < fuel
      → pa % 2 ^ 21 ≡ 0
      → va % 2 ^ 21 ≡ 0
      → va + n * 2 ^ 21 ≤ 2 ^ 32
      → pa + n * 2 ^ 21 ≤ limit
      → (t' : PageTables) × (map_loop entry fuel pa va (pa + n * 2 ^ 21) t ≡ some t')
        × MapsBy target va pa (n * 2 ^ 21) t t'
  unfolding map_loop
  map_loop-MapsBy zero n pa va t lt hp hv vfit pfit = absurd (omega arith)
  map_loop-MapsBy (suc fuel) zero pa va t lt hp hv vfit pfit =
      let stop : ltb pa (pa + 0 * 2 ^ 21) ≡ false = ground arith in
      (t, rw stop refl, λ a small. none_here a)
    where
      none_here :
          (a : ℕ)
          → translate_by target t a ≡ (
              if leb va a && ltb a (va + 0 * 2 ^ 21)
              then some (pa + (a - va))
              else translate_by target t a)
      none_here a =
          let e : (leb va a && ltb a (va + 0 * 2 ^ 21)) ≡ false = ground arith in rw e refl
  map_loop-MapsBy (suc fuel) (suc n) pa va t lt hp hv vfit pfit =
      let (t', e, m) =
        map_loop-MapsBy fuel n (pa + 2 ^ 21) (va + 2 ^ 21) (put_entry va (entry pa) t) (omega arith)
          (omega arith) (omega arith) (omega arith) (omega arith) in
      (
        t',
        map_loop-next fuel n pa va t t' vfit pfit e,
        map_loop_step pa va n t t' hp hv vfit pfit m,
      )

-- What a mapping of the queue is for `page_index_early_map`: aligned, with ends that fit.
pub record Fits (m : EarlyMapping) : Type 0 where
  pub paddr_aligned : m.paddr % 2 ^ 21 ≡ 0
  pub vaddr_aligned : m.vaddr % 2 ^ 21 ≡ 0
  pub size_aligned : m.size % 2 ^ 21 ≡ 0
  pub vaddr_end : m.vaddr + m.size ≤ 2 ^ 32
  pub size_small : m.size < 2 ^ 32
  pub vaddr_small : m.vaddr < 2 ^ 32
  pub paddr_end : m.paddr + m.size ≤ 2 ^ 52

module _ (m : EarlyMapping) (t : PageTables) (f : Fits m) where
  early_map_on-done :
      (fuel : ℕ) (t' : PageTables)
      → map_loop big_entry fuel m.paddr m.vaddr (m.paddr + m.size) t ≡ some t'
      → early_map_on fuel m t ≡ done t'
  unfolding early_map_on big_page_off
  early_map_on-done fuel t' e =
      let v : word m.vaddr ≡ m.vaddr = mod-eq_of_lt f.vaddr_small in
      let end : add64 m.paddr m.size ≡ m.paddr + m.size =
        mod-eq_of_lt (omega (arith, f.paddr_end)) in
      rw
        (
          bit_and_mask 21 m.paddr,
          v,
          bit_and_mask 21 m.vaddr,
          bit_and_mask 21 m.size,
          f.paddr_aligned,
          f.vaddr_aligned,
          f.size_aligned,
          end,
          e,
        )
        refl

  mapped_by :
      (fuel n : ℕ)
      → n < fuel
      → n * 2 ^ 21 ≡ m.size
      → (t' : PageTables) × (early_map_on fuel m t ≡ done t') × Maps m.vaddr m.paddr m.size t t'
  mapped_by fuel n lt whole =
      let (t', e, maps) =
        map_loop-MapsBy entry_target big_entry (2 ^ 52) (omega arith) entry_target-big_entry fuel n
          m.paddr m.vaddr t lt f.paddr_aligned f.vaddr_aligned (omega (arith, f.vaddr_end))
          (omega (arith, f.paddr_end)) in
      (
        t',
        early_map_on-done fuel t'
            (ap (λ x. map_loop big_entry fuel m.paddr m.vaddr (m.paddr + x) t) (sym whole) ∙ e),
        subst (λ x. Maps m.vaddr m.paddr x t t') whole maps,
      )

  -- For a mapping whose addresses and size are multiples of 2 MB and fit the page tables,
  -- `page_index_early_map` fails no assertion, its loop ends, and afterwards the processor finds
  -- the mapping's physical address for each of its virtual addresses, and for every other virtual
  -- address what it found before.
  pub page_index_early_map-Maps :
      (t' : PageTables) × (page_index_early_map m t ≡ done t') × Maps m.vaddr m.paddr m.size t t'
  unfolding page_index_early_map
  page_index_early_map-Maps =
      mapped_by 2048 (m.size / 2 ^ 21) (omega (arith, f.size_small)) (omega (arith, f.size_aligned))
