-- ===== src/Kmalloc/Release.antt =====
-- `kmalloc` and `kfree` on the page allocator: the front end, the adapter, the bridge and the buddy
-- allocator together.
use fdu_os.Common.{
  ℕ, ◌+◌, ◌*◌, ◌%◌, ◌^◌, ◌≤◌, ◌<◌, ◌≡◌, ◌≢◌, refl, ◌∙◌, true, false, ◌&&◌, ltb, leb, ◌==◌,
  if◌then◌else◌, Bool-cases, inl, inr, List, arith,
}
use fdu_os.Common.Outcome.{Outcome, done, panic, undefined, ◌>>=◌}
use fdu_os.Memory.{Memory, memset}
use fdu_os.Memory.Copies.{memset_lem}
use fdu_os.Buddy.{Buddy}
use fdu_os.Buddy.Tiles.{Tile}
use fdu_os.Buddy.Holes.{IsValid}
use fdu_os.Buddy.Malloc.{pages_for, Refused}
use fdu_os.Buddy.RoundTrip.{Restored}
use fdu_os.Bridge.{buddy_pmalloc}
use fdu_os.Bridge.RoundTrip.{BridgeFrees, returned, null, use_page_malloc-free}
use fdu_os.Kmalloc.{fill, is_zero, SimpleAllocator, vmm_adapter, use_page_vmalloc, kmalloc, kfree}

-- The installed allocator
abbrev pub paged : ℕ → SimpleAllocator Buddy
paged koffset = vmm_adapter (use_page_vmalloc koffset buddy_pmalloc)

-- An object of `size` bytes at `ptr`, filled with zeros if they are asked for
abbrev pub object_bytes : ℕ → ℕ → ℕ → Memory → Memory
object_bytes flags ptr size m a =
    if is_zero flags && (leb ptr a && ltb a (ptr + size)) then 0 else m a

-- How `kmalloc` ends, and what `kfree` then does. At most half a page is allowed, and NULL is for a
-- request that no free block is large enough for.
pub data KmallocFrees (koffset size flags : ℕ) (b : Buddy) (ts : List Tile) (m : Memory)
    : Outcome (ℕ × Buddy × Memory) → Type 0 where
  object :
      {ptr : ℕ} {b' b'' : Buddy} {m' : Memory}
      → size ≤ 2048
      → ptr ≢ 0
      → ((a : ℕ) → m' a ≡ object_bytes flags ptr size m a)
      → kfree (paged koffset) ptr b' ≡ done b''
      → Restored b b'' ts
      → KmallocFrees koffset size flags b ts m (done (ptr, b', m'))
  no_object :
      size ≤ 2048
      → Refused ts (pages_for b size)
      → is_zero flags ≡ false
      → KmallocFrees koffset size flags b ts m (done (0, b, m))
  null_filled :
      size ≤ 2048
      → Refused ts (pages_for b size)
      → is_zero flags ≡ true
      → KmallocFrees koffset size flags b ts m undefined
  too_large : 2048 < size → KmallocFrees koffset size flags b ts m panic

module _ (koffset size flags : ℕ) (m : Memory) (some_byte : 0 < size) where
  -- `kmalloc` from the result of the allocator on
  abbrev finish : ℕ × Buddy → Outcome (ℕ × Buddy × Memory)
  finish (result, s') =
      if is_zero flags
      then (fill result 0 size m >>= λ m'. done (result, s', m'))
      else done (result, s', m)

  object_zeroed :
      (ptr a : ℕ) → is_zero flags ≡ true → memset ptr 0 size m a ≡ object_bytes flags ptr size m a
  object_zeroed ptr a e = memset_lem ptr 0 size m a ∙ rw e refl

  BridgeFrees-KmallocFrees :
      {b : Buddy} {ts : List Tile} {r : Outcome (ℕ × Buddy)}
      → size ≤ 2048
      → BridgeFrees koffset b ts (pages_for b size) r
      → KmallocFrees koffset size flags b ts m (r >>= finish)
  unfolding fill kfree
  BridgeFrees-KmallocFrees half (returned {ptr = ptr} nonzero e restored) =
      let there : (ptr == 0) ≡ false = ground arith in
      elim (Bool-cases (is_zero flags)) [
        | inl zeroed ↦
            rw (zeroed, there)
              (object half nonzero (λ a. object_zeroed ptr a zeroed) (rw (kfree, there) e) restored)
        | inr plain ↦
            rw plain (object half nonzero (λ a. rw plain refl) (rw (kfree, there) e) restored)
      ]
  BridgeFrees-KmallocFrees half (null r) =
      let bytes : ltb 0 size ≡ true = ground arith in
      elim (Bool-cases (is_zero flags)) [
        | inl zeroed ↦ rw (zeroed, bytes) (null_filled half r zeroed)
        | inr plain ↦ rw plain (no_object half r plain)
      ]

  -- Over a buddy allocator at rest whose zone starts at a page boundary and stays below 2^32 when
  -- shifted by the positive `koffset`, and for a size above 0: `kmalloc` panics if the size is
  -- above 2048, and only then. Otherwise it returns an object, which is zeroed if GFP_ZERO is set, without a change
  -- to another byte, and whose `kfree` leaves an allocator at rest with the same blocks in use and
  -- as many free pages as before; or, if no free block
  -- is large enough, NULL and an unchanged allocator, where with GFP_ZERO the behaviour is
  -- undefined.
  pub kmalloc-kfree :
      {b : Buddy} {ts : List Tile}
      → IsValid b ts
      → b.base % b.page_size ≡ 0
      → 0 < koffset
      → b.base + b.page_size * b.page_count + koffset ≤ 2 ^ 32
      → pages_for b size ≤ 2 ^ 31
      → KmallocFrees koffset size flags b ts m (kmalloc (paged koffset) size flags b m)
  unfolding kmalloc
  kmalloc-kfree {b = b} v boundary positive fits enough =
      let found = use_page_malloc-free koffset v boundary positive fits size enough in
      elim (Bool-cases (ltb 2048 size)) [
        | inl over ↦ rw over (too_large (ground arith))
        | inr small ↦ rw small (BridgeFrees-KmallocFrees (ground arith) found)
      ]
