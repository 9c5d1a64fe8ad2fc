-- ===== src/Bridge/RoundTrip.antt =====
-- Memory from the bridge over a buddy allocator, and its return.
use native.Mathlib.Nat.{one-le-pow, mul-le-mul_left}
use fdu_os.Common.{
  ℕ, suc, ◌+◌, ◌*◌, ◌%◌, ◌^◌, ◌≤◌, ◌<◌, ◌≡◌, ◌≢◌, false, List, ◌==◌, if◌then◌else◌, arith,
}
use fdu_os.Common.Words.{word, add64, sub32}
use fdu_os.Common.Outcome.{Outcome, done, ◌>>=◌}
use fdu_os.Buddy.{Buddy, no_address}
use fdu_os.Buddy.Tiles.{Tile}
use fdu_os.Buddy.Holes.{IsValid}
use fdu_os.Buddy.Take.{Granted}
use fdu_os.Buddy.Malloc.{pages_for, Refused, Mallocs, granted, refused, malloc_lem}
use fdu_os.Buddy.RoundTrip.{Restored, granted_Restored, address_exact}
use fdu_os.Bridge.{buddy_pmalloc, use_page_malloc, use_page_free, bridge_free}

-- How `malloc` and then `free` through the bridge end.
pub data BridgeFrees (koffset : ℕ) (b : Buddy) (ts : List Tile) (cnt : ℕ)
    : Outcome (ℕ × Buddy) → Type 0 where
  returned :
      {ptr : ℕ} {b' b'' : Buddy}
      → ptr ≢ 0
      → use_page_free koffset buddy_pmalloc ptr b' ≡ done b''
      → Restored b b'' ts
      → BridgeFrees koffset b ts cnt (done (ptr, b'))
  null : Refused ts cnt → BridgeFrees koffset b ts cnt (done (0, b))

module _ {b : Buddy} {ts : List Tile} (koffset : ℕ) (v : IsValid b ts)
    (boundary : b.base % b.page_size ≡ 0) (positive : 0 < koffset)
    (fits : b.base + b.page_size * b.page_count + koffset ≤ 2 ^ 32) where
  -- The bridge's result from that of the allocator.
  abbrev bridged_result : ℕ × Buddy → Outcome (ℕ × Buddy)
  bridged_result (pa, s') =
      if pa == no_address then done (0, s') else done (word (add64 pa koffset), s')

  module _ {b' : Buddy} {cnt a : ℕ} (g : Granted b b' ts cnt a) where
    below_end : a < b.base + b.page_size * b.page_count
    below_end =
        let lt : g.index < b.page_count = omega (arith, one-le-pow g.order 2, g.inside) in
        let below : b.page_size * suc g.index ≤ b.page_size * b.page_count =
          mul-le-mul_left b.page_size lt in
        omega (
          arith,
          g.address_of,
          v.size_pos,
          address_exact b g.index lt (omega arith) (omega arith) v.size_pos,
          below,
        )

    pointer : word (add64 a koffset) ≡ a + koffset
    pointer = omega (arith, below_end)

    back_again : sub32 (a + koffset) koffset ≡ a
    back_again = omega (arith, below_end)

    bridged : BridgeFrees koffset b ts cnt (bridged_result (a, b'))
    unfolding use_page_free bridge_free
    bridged =
        let (b'', e, r) = granted_Restored v boundary (omega arith) (omega arith) g in
        let there : (a == no_address) ≡ false = ground (arith, below_end) in
        let nonzero : (a + koffset == 0) ≡ false = ground arith in
        rw (there, pointer)
          (returned (omega arith) (rw (use_page_free, bridge_free, nonzero, back_again) e) r)

  Mallocs-BridgeFrees :
      {cnt : ℕ} {r : Outcome (ℕ × Buddy)}
      → Mallocs b ts cnt r
      → BridgeFrees koffset b ts cnt (r >>= bridged_result)
  Mallocs-BridgeFrees (granted g) = bridged g
  Mallocs-BridgeFrees (refused r) = null r

  -- Over a buddy allocator at rest whose zone starts at a page boundary and stays below 2^32 when
  -- shifted by the positive `koffset`: the bridge's `malloc` of at most 2^31 pages returns NULL and
  -- changes nothing, when no block that is large enough is free, or a pointer that is not NULL and whose `free` through the bridge ends without
  -- a failed assertion in an allocator at rest with the same blocks in use and the same number of
  -- free pages as before.
  pub use_page_malloc-free :
      (bytes : ℕ)
      → pages_for b bytes ≤ 2 ^ 31
      → BridgeFrees koffset b ts (pages_for b bytes) (use_page_malloc koffset buddy_pmalloc bytes b)
  unfolding use_page_malloc
  use_page_malloc-free bytes enough = Mallocs-BridgeFrees (malloc_lem bytes v enough)
