-- ===== src/Pages.antt =====
-- kern/mm/pmm/pmm.c and the page functions of include/aim/pmm.h: the kernel's front end of page
-- allocation, on an allocator that is installed with `set_page_allocator`. A result 0 is `true`
-- and `EOF` is `false`; a NULL argument is `none`. The loop of `pmemset` runs on fuel; `none` says
-- that the fuel is used up. `koffset` is the distance of `pa2kva`, and a page has 4096 bytes.
pub mod Fill
mod Examples
use Prim.Native.Nat.{bit_and}
use fdu_os.Common.{
  ℕ, zero, suc, ◌+◌, ◌-◌, ◌*◌, ◌/◌, ◌%◌, ◌^◌, Bool, true, false, not, ltb, ◌==◌, if◌then◌else◌,
  Option, none, some,
}
use fdu_os.Common.Words.{word, add64, sub64}
use fdu_os.Common.Outcome.{Outcome, done, panic, undefined, ◌>>=◌}
use fdu_os.Util.{align_above}
use fdu_os.Memory.{Memory, memset}
use fdu_os.Buddy.{no_address}
use fdu_os.Bridge.{PageAllocator}

-- `struct pages`
pub record Pages : Type 0 where
  pub paddr : ℕ
  pub size : ℕ
  pub flags : ℕ

-- `struct page_allocator`
pub record Allocator (State : Type 0) : Type 0 where
  pub alloc : Pages → State → Outcome (Bool × Pages × State)
  pub free : Pages → State → Outcome State
  pub get_free : State → ℕ

-- `pmemset`
unfoldable pub pmemset : ℕ → ℕ → ℕ → ℕ → ℕ → Memory → Option Memory
pmemset koffset zero paddr c size m = none
pmemset koffset (suc fuel) paddr c size m =
    let rest =
      pmemset koffset fuel (add64 paddr 4096) c (sub64 size 4096)
        (memset (word (paddr + koffset)) c 4096 m) in
    if size == 0 then some m else rest

module _ {State : Type 0} where
  -- `__alloc`, `__free` and `__get_free`
  abbrev pub dummy : Allocator State
  dummy = record {
    alloc = λ pages s. done (false, pages, s);
    free = λ pages s. done s;
    get_free = λ s. 0;
  }

  -- `set_page_allocator`
  unfoldable pub set_page_allocator : Allocator State → Allocator State → Allocator State
  set_page_allocator allocator current = allocator

  -- `alloc__adapter`
  unfoldable pub adapter_alloc :
      PageAllocator State → Pages → State → Outcome (Bool × Pages × State)
  adapter_alloc zone pages s = zone.malloc pages.size s >>= λ (pa, s').
      if pa == no_address
      then done (false, pages, s')
      else done (true, record { paddr = pa; size = pages.size; flags = pages.flags }, s')

  -- `free__adapter`
  unfoldable pub adapter_free : PageAllocator State → Pages → State → Outcome State
  adapter_free zone pages s = zone.get_size pages.paddr s >>= λ cur_size.
      if cur_size == pages.size then zone.free pages.paddr s else panic

  -- The allocator that `install_pmm_adapter` installs
  unfoldable pub pmm_adapter : PageAllocator State → Allocator State
  unfolding adapter_alloc adapter_free
  pmm_adapter zone = record {
    alloc = adapter_alloc zone;
    free = adapter_free zone;
    get_free = λ s. zone.get_free_bytes s;
  }

  module _ (koffset fuel : ℕ) (current : Allocator State) where
    -- `alloc_pages`: with GFP_ZERO the pages are cleared whatever the result is.
    unfoldable pub alloc_pages :
        Option Pages → State → Memory → Option (Outcome (Bool × Option Pages × State × Memory))
    unfolding pmemset
    alloc_pages none s m = some (done (false, none, s, m))
    alloc_pages (some pages) s m = elim (current.alloc pages s) [
      | panic ↦ some panic
      | undefined ↦ some undefined
      | done (result, p, s') ↦
          if bit_and p.flags 2 == 0
          then some (done (result, some p, s', m))
          else elim (pmemset koffset fuel p.paddr 0 p.size m) [
            | none ↦ none
            | some m' ↦ some (done (result, some p, s', m'))
          ]
    ]

    -- `free_pages`
    unfoldable pub free_pages : Pages → State → Memory → Option (Outcome (State × Memory))
    unfolding pmemset
    free_pages pages s m =
        let filled =
          if bit_and pages.flags 1 == 0
          then pmemset koffset fuel pages.paddr 32 pages.size m
          else some m in
        elim filled [ none ↦ none | some m' ↦ some (current.free pages s >>= λ s'. done (s', m')) ]

    -- The part of the padding that is freed if the test holds
    unfoldable pub free_padding : Bool → Pages → State → Memory → Option (Outcome (State × Memory))
    unfolding free_pages
    free_padding needed padding s m = if needed then free_pages padding s m else some (done (s, m))

    -- `alloc_aligned_pages`, from the allocated `buf` on
    unfoldable pub trim_padding :
        Pages → Pages → ℕ → State → Memory → Option (Outcome (Bool × Pages × State × Memory))
    unfolding free_padding
    trim_padding pages buf align s m =
        let paddr = align_above 64 buf.paddr align in
        let page_end = add64 paddr pages.size in
        let buf_end = add64 buf.paddr buf.size in
        let front : Pages = record {
          paddr = buf.paddr;
          size = sub64 paddr buf.paddr;
          flags = buf.flags;
        } in
        let back : Pages = record {
          paddr = page_end;
          size = sub64 (sub64 buf_end paddr) pages.size;
          flags = buf.flags;
        } in
        elim (free_padding (ltb buf.paddr paddr) front s m) [
          | none ↦ none
          | some panic ↦ some panic
          | some undefined ↦ some undefined
          | some (done (s1, m1)) ↦ elim (free_padding (ltb page_end buf_end) back s1 m1) [
            | none ↦ none
            | some r ↦ some (
                r >>= λ (s2, m2).
                done
                  (true, record { paddr = paddr; size = pages.size; flags = pages.flags }, s2, m2))
          ]
        ]

    -- `alloc_aligned_pages`
    unfoldable pub alloc_aligned_pages :
        Pages → ℕ → State → Memory → Option (Outcome (Bool × Pages × State × Memory))
    unfolding alloc_pages trim_padding
    alloc_aligned_pages pages align s m =
        let buf : Pages = record {
          paddr = pages.paddr;
          size = add64 pages.size (sub64 align 4096);
          flags = pages.flags;
        } in
        elim (alloc_pages (some buf) s m) [
          | none ↦ none
          | some panic ↦ some panic
          | some undefined ↦ some undefined
          | some (done (true, some p, s', m')) ↦ trim_padding pages p align s' m'
          | some (done (_, _, s', m')) ↦ some (done (false, pages, s', m'))
        ]

    -- `get_free_memory`
    unfoldable pub get_free_memory : State → ℕ
    get_free_memory s = current.get_free s

    -- `pgalloc`; the address before the call is not set
    unfoldable pub pgalloc : ℕ → State → Memory → Option (Outcome (ℕ × State × Memory))
    unfolding alloc_pages
    pgalloc unset s m =
        elim (alloc_pages (some (record { paddr = unset; size = 4096; flags = 0 })) s m) [
          | none ↦ none
          | some panic ↦ some panic
          | some undefined ↦ some undefined
          | some (done (true, some p, s', m')) ↦ some (done (p.paddr, s', m'))
          | some (done (_, _, s', m')) ↦ some (done (no_address, s', m'))
        ]

    -- `pgfree`
    unfoldable pub pgfree : ℕ → State → Memory → Option (Outcome (State × Memory))
    unfolding free_pages
    pgfree paddr s m = free_pages (record { paddr = paddr; size = 4096; flags = 0 }) s m
