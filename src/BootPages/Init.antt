-- ===== src/BootPages/Init.antt =====
-- `page_index_init`: the boot page tables translate as the queue of early mappings says.
use fdu_os.Common.{
  ℕ, zero, suc, ◌+◌, ◌-◌, ◌^◌, ◌≤◌, ◌<◌, ◌≡◌, refl, ap, ◌∙◌, true, false, ◌&&◌, Option, none, some,
  List, [], ◌∷◌, length, get_elem?, All, leb, ltb, if◌then◌else◌, arith,
}
use native.Mathlib.Nat.{mod-eq_of_lt}
use fdu_os.Common.Bits.Powers.{bit_and_mask}
use fdu_os.Common.Words.{word}
use fdu_os.Common.Outcome.{done}
use fdu_os.EarlyKmmap.{EarlyMapping, EarlyMappings, early_mapping_next}
use fdu_os.EarlyKmmap.Accept.{IsSound}
use fdu_os.BootPages.{
  PageTables, big_page_off, early_mapping_valid, page_index_early_map, page_index_clear, init_loop,
  page_index_init,
}
use fdu_os.BootPages.Entries.{translate}
use fdu_os.BootPages.Loop.{Fits, page_index_early_map-Maps}

-- Where the mappings send an address: the last one that holds it decides.
abbrev pub resolve : List EarlyMapping → Option ℕ → ℕ → Option ℕ
resolve [] found a = found
resolve (m ∷ ms) found a =
    resolve ms
      (if leb m.vaddr a && ltb a (m.vaddr + m.size) then some (m.paddr + (a - m.vaddr)) else found)
      a

-- The ends of a mapping fit the addresses.
pub record InRange (m : EarlyMapping) : Type 0 where
  pub vaddr_end : m.vaddr + m.size ≤ 2 ^ 32
  pub size_small : m.size < 2 ^ 32
  pub vaddr_small : m.vaddr < 2 ^ 32
  pub paddr_end : m.paddr + m.size ≤ 2 ^ 52

valid-Fits : (m : EarlyMapping) → early_mapping_valid m ≡ true → InRange m → Fits m
unfolding early_mapping_valid big_page_off
valid-Fits m h r =
    let v : word m.vaddr ≡ m.vaddr = mod-eq_of_lt r.vaddr_small in
    let tests =
      rw (bit_and_mask 21 m.paddr, v, bit_and_mask 21 m.vaddr, bit_and_mask 21 m.size) at h in
    record {
      paddr_aligned = ground arith;
      vaddr_aligned = ground arith;
      size_aligned = ground arith;
      vaddr_end = r.vaddr_end;
      size_small = r.size_small;
      vaddr_small = r.vaddr_small;
      paddr_end = r.paddr_end;
    }

All-Fits :
    (ms : List EarlyMapping)
    → All (λ m. early_mapping_valid m ≡ true) ms
    → All InRange ms
    → All Fits ms
All-Fits [] h r = tt
All-Fits (m ∷ ms) h r = (valid-Fits m h.0 r.0, All-Fits ms h.1 r.1)

module _ (s : EarlyMappings) where
  -- The iterator at index `i`.
  abbrev at_index : ℕ → Option ℕ
  at_index i = if leb (length s.queue) i then none else some i

  record IsRest (i : ℕ) (rest : List EarlyMapping) : Type 0 where
    whole : length s.queue ≡ i + length rest
    entries : (k : ℕ) → get_elem? s.queue (i + k) ≡ get_elem? rest k

  init_loop-next :
      (fuel i : ℕ) (m : EarlyMapping) (t t1 t' : PageTables)
      → leb (length s.queue) i ≡ false
      → get_elem? s.queue i ≡ some m
      → page_index_early_map m t ≡ done t1
      → init_loop fuel (at_index (i + 1)) s t1 ≡ done t'
      → init_loop (suc fuel) (at_index i) s t ≡ done t'
  unfolding init_loop early_mapping_next
  init_loop-next fuel i m t t1 t' go here mapped rest = rw (go, init_loop, here, mapped) rest

  init_from :
      (rest : List EarlyMapping) (fuel i : ℕ) (t : PageTables)
      → length rest < fuel
      → All Fits rest
      → IsRest i rest
      → (t' : PageTables) × (init_loop fuel (at_index i) s t ≡ done t')
        × ((a : ℕ) → a < 2 ^ 32 → translate t' a ≡ resolve rest (translate t a) a)
  unfolding init_loop early_mapping_next
  init_from rest zero i t lt f r = absurd (omega arith)
  init_from [] (suc fuel) i t lt f r =
      let stop : leb (length s.queue) i ≡ true = ground (arith, r.whole) in
      (t, rw stop refl, λ a small. refl)
  init_from (m ∷ ms) (suc fuel) i t lt f r =
      let go : leb (length s.queue) i ≡ false = ground (arith, r.whole) in
      let e : i + 0 ≡ i = omega arith in
      let here : get_elem? s.queue i ≡ some m = rw e at (r.entries 0) in
      let (t1, mapped, maps) = page_index_early_map-Maps m t f.0 in
      let later : IsRest (i + 1) ms = record {
        whole = omega (arith, r.whole);
        entries = λ k. let e : i + 1 + k ≡ i + suc k = omega arith in rw e (r.entries (suc k));
      } in
      let (t', rest_mapped, resolves) = init_from ms fuel (i + 1) t1 (omega arith) f.1 later in
      (
        t',
        init_loop-next fuel i m t t1 t' go here mapped rest_mapped,
        λ a small. resolves a small ∙ ap (λ x. resolve ms x a) (maps a small),
      )

  nothing_mapped : (t : PageTables) (a : ℕ) → translate (page_index_clear t) a ≡ none
  unfolding page_index_clear
  nothing_mapped t a = refl

  init_on :
      (fuel : ℕ) (t : PageTables)
      → length s.queue < fuel
      → All Fits s.queue
      → (t' : PageTables) × (init_loop fuel (early_mapping_next none s) s (page_index_clear t)
          ≡ done t')
        × ((a : ℕ) → a < 2 ^ 32 → translate t' a ≡ resolve s.queue none a)
  unfolding early_mapping_next page_index_clear
  init_on fuel t lt f =
      init_from s.queue fuel 0 (page_index_clear t) lt f (record {
        whole = omega arith;
        entries = λ k. let e : 0 + k ≡ k = omega arith in rw e refl;
      })

  -- On a sound queue of mappings that pass the i386 test `early_mapping_valid` and whose ends fit
  -- the addresses, `page_index_init` fails no assertion and its loops end. Afterwards the
  -- processor finds for every virtual address what the last mapping that holds it says, and no
  -- page for an address in none of them.
  pub page_index_init_lem :
      (t : PageTables)
      → IsSound early_mapping_valid s
      → All InRange s.queue
      → (t' : PageTables) × (page_index_init s t ≡ done t')
        × ((a : ℕ) → a < 2 ^ 32 → translate t' a ≡ resolve s.queue none a)
  unfolding page_index_init
  page_index_init_lem t h r =
      init_on 11 t (omega (arith, h.bounded)) (All-Fits s.queue h.all_valid r)
