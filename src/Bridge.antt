-- ===== src/Bridge.antt =====
-- kern/mm/vmm/pvbridge.c and kern/mm/vmm/use_page.c: virtual memory from physical pages, for any
-- page allocator of the class `virt_pmalloc`; the buddy allocator is one. A pointer is a number,
-- and NULL is 0.
pub mod RoundTrip
pub mod Pieces
pub mod OverBuddy
use fdu_os.Common.{ℕ, ◌+◌, ◌%◌, ◌^◌, Bool, true, false, ◌==◌, if◌then◌else◌}
use fdu_os.Common.Words.{word, add64, sub32}
use fdu_os.Common.Outcome.{Outcome, done, panic, ◌>>=◌}
use fdu_os.Buddy
use fdu_os.Buddy.{Buddy, no_address, get_size, get_free_bytes}

-- `struct virt_pmalloc__vtbl`
pub record PageAllocator (State : Type 0) : Type 0 where
  pub malloc : ℕ → State → Outcome (ℕ × State)
  pub aligned_malloc : ℕ → ℕ → State → Outcome (ℕ × State)
  pub free : ℕ → State → Outcome State
  pub get_size : ℕ → State → Outcome ℕ
  pub get_free_bytes : State → ℕ

-- The functions that `buddy_pmalloc__ctor` installs.
abbrev pub buddy_pmalloc : PageAllocator Buddy
buddy_pmalloc = record {
  malloc = Buddy.malloc;
  aligned_malloc = Buddy.aligned_malloc;
  free = Buddy.free;
  get_size = get_size;
  get_free_bytes = get_free_bytes;
}

module _ {State : Type 0} (koffset : ℕ) (palloc : PageAllocator State) where
  -- `koffset_pvbridge__malloc`
  unfoldable pub bridge_malloc : ℕ → State → Outcome (ℕ × State)
  bridge_malloc size s = palloc.malloc size s >>= λ (pa, s').
      if pa == no_address then done (0, s') else done (word (add64 pa koffset), s')

  -- `koffset_pvbridge__aligned_malloc`
  unfoldable pub bridge_aligned_malloc : ℕ → ℕ → State → Outcome (ℕ × State)
  bridge_aligned_malloc size align s = palloc.aligned_malloc size align s >>= λ (pa, s').
      if pa == no_address then done (0, s') else done (word (add64 pa koffset), s')

  -- `koffset_pvbridge__free`
  unfoldable pub bridge_free : ℕ → State → Outcome State
  bridge_free ptr s = if ptr == 0 then done s else palloc.free (sub32 ptr koffset) s

  -- `use_page_vmalloc__malloc`, `use_page_vmalloc__free` and `use_page_vmalloc__size`
  unfoldable pub use_page_malloc : ℕ → State → Outcome (ℕ × State)
  unfolding bridge_malloc
  use_page_malloc size s = bridge_malloc size s

  unfoldable pub use_page_free : ℕ → State → Outcome State
  unfolding bridge_free
  use_page_free ptr s = bridge_free ptr s

  unfoldable pub use_page_size : ℕ → State → Outcome ℕ
  use_page_size obj s = panic

-- The functions of `struct virt_pvbridge`
pub record PvBridge (State : Type 0) : Type 0 where
  pub malloc : ℕ → State → Outcome (ℕ × State)
  pub aligned_malloc : ℕ → ℕ → State → Outcome (ℕ × State)
  pub free : ℕ → State → Outcome State

-- The functions that `koffset_pvbridge__ctor` installs.
abbrev pub koffset_pvbridge : {State : Type 0} → ℕ → PageAllocator State → PvBridge State
koffset_pvbridge koffset palloc = record {
  malloc = bridge_malloc koffset palloc;
  aligned_malloc = bridge_aligned_malloc koffset palloc;
  free = bridge_free koffset palloc;
}
