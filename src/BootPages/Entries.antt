-- ===== src/BootPages/Entries.antt =====
-- One entry of the boot page tables, and what the processor reads from it.
use fdu_os.Common.{
  ℕ, ◌+◌, ◌*◌, ◌/◌, ◌%◌, ◌^◌, ◌<◌, ◌≡◌, refl, ◌&&◌, Option, none, some, ◌==◌, if◌then◌else◌,
  Bool-cases, inl, inr, arith,
}
use fdu_os.Common.Bits.Powers.{bit_or_new, bit_and_mask}
use fdu_os.BootPages.{PageTables, pgindex_fn, pgmid_fn, big_entry, put_entry}

-- With its lowest bit set, an entry with the page-size bit maps a page of 2 MB: its bits 21 to 51
-- are the physical page, and the offset is that of the address.
abbrev pub entry_target : ℕ → ℕ → Option ℕ
entry_target e a =
    if (e % 2 == 1) && (e / 2 ^ 7 % 2 == 1)
    then some (e % 2 ^ 52 / 2 ^ 21 * 2 ^ 21 + a % 2 ^ 21)
    else none

-- What the processor finds for a virtual address below 2^32, by what it reads from an entry.
abbrev pub translate_by : (ℕ → ℕ → Option ℕ) → PageTables → ℕ → Option ℕ
translate_by target t a = target (t (a / 2 ^ 30) (a / 2 ^ 21 % 2 ^ 9)) a

abbrev pub translate : PageTables → ℕ → Option ℕ
translate = translate_by entry_target

pub big_entry-eq : (pa : ℕ) → pa % 2 ^ 21 ≡ 0 → big_entry pa ≡ pa + 131
unfolding big_entry
big_entry-eq pa h =
    let q = pa / 2 ^ 21 in
    let e : pa ≡ q * 2 ^ 21 = omega arith in
    ground (
      arith,
      bit_or_new 0 (q * 2 ^ 20) 0 (omega arith),
      bit_or_new 7 (q * 2 ^ 13) 1 (omega arith),
      bit_or_new 1 (q * 2 ^ 19 + 32) 1 (omega arith),
    )

-- The pages of 2 MB of two addresses are told apart by the two indices.
same_entry :
    (va a : ℕ)
    → va < 2 ^ 32
    → a < 2 ^ 32
    → ((pgindex_fn va == a / 2 ^ 30) && (pgmid_fn va == a / 2 ^ 21 % 2 ^ 9))
      ≡ (va / 2 ^ 21 == a / 2 ^ 21)
unfolding pgindex_fn pgmid_fn
same_entry va a hv ha =
    rw (bit_and_mask 2 (va / 2 ^ 30), bit_and_mask 9 (va / 2 ^ 21)) (ground arith)

pub translate-put_entry :
    (target : ℕ → ℕ → Option ℕ) (va e a : ℕ) (t : PageTables)
    → va < 2 ^ 32
    → a < 2 ^ 32
    → translate_by target (put_entry va e t) a
      ≡ (if va / 2 ^ 21 == a / 2 ^ 21 then target e a else translate_by target t a)
translate-put_entry target va e a t hv ha =
    rw (← same_entry va a hv ha)
      (elim (Bool-cases ((pgindex_fn va == a / 2 ^ 30) && (pgmid_fn va == a / 2 ^ 21 % 2 ^ 9))) [
        | inl h ↦ rw h refl
        | inr h ↦ rw h refl
      ])

pub entry_target-big_entry :
    (pa a : ℕ)
    → pa % 2 ^ 21 ≡ 0
    → pa < 2 ^ 52
    → entry_target (big_entry pa) a ≡ some (pa + a % 2 ^ 21)
entry_target-big_entry pa a h lt =
    let e : (pa + 131) % 2 ^ 52 / 2 ^ 21 * 2 ^ 21 ≡ pa = omega arith in
    let p : (pa + 131) % 2 ≡ 1 = omega arith in
    let s : (pa + 131) / 2 ^ 7 % 2 ≡ 1 = omega arith in rw (big_entry-eq pa h, p, s, e) refl
