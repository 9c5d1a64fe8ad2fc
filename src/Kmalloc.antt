-- ===== src/Kmalloc.antt =====
-- kern/mm/vmm/vmm.c and kcalloc of include/aim/vmm.h: the kernel's front end of memory allocation,
-- on an allocator that is installed with `set_simple_allocator` or `set_caching_allocator`. The
-- state of the allocator and the bytes of the objects are kept apart; pointers are numbers, NULL
-- is 0, `EOF` is -1 as `false`, and a NULL argument is `none`.
pub mod Release
mod Examples
use Prim.Native.Nat.{bit_and}
use fdu_os.Common.{
  ℕ, ◌+◌, ◌*◌, ◌^◌, Bool, true, false, ◌&&◌, not, ltb, ◌==◌, if◌then◌else◌, Option, none, some,
}
use fdu_os.Common.Words.{mul32}
use fdu_os.Common.Outcome.{Outcome, done, panic, undefined, ◌>>=◌}
use fdu_os.Memory.{Memory, memset}
use fdu_os.Bridge.{PageAllocator, use_page_malloc, use_page_free, use_page_size}

-- `memset(p, c, n)`; a write through NULL is undefined.
unfoldable pub fill : ℕ → ℕ → ℕ → Memory → Outcome Memory
fill p c n m = if (p == 0) && ltb 0 n then undefined else done (memset p c n m)

-- `flags & GFP_ZERO` and `flags & GFP_UNSAFE`
abbrev pub is_zero : ℕ → Bool
is_zero flags = not (bit_and flags 2 == 0)

abbrev pub is_unsafe : ℕ → Bool
is_unsafe flags = not (bit_and flags 1 == 0)

-- `struct simple_allocator`
pub record SimpleAllocator (State : Type 0) : Type 0 where
  pub alloc : ℕ → ℕ → State → Outcome (ℕ × State)
  pub free : ℕ → State → Outcome State
  pub size : ℕ → State → Outcome ℕ

-- The functions of `struct virt_vmalloc`
pub record Vmalloc (State : Type 0) : Type 0 where
  pub malloc : ℕ → State → Outcome (ℕ × State)
  pub free : ℕ → State → Outcome State
  pub size : ℕ → State → Outcome ℕ

-- `struct allocator_cache`, the fields that are used here, and `struct caching_allocator`
pub record Cache : Type 0 where
  pub size : ℕ
  pub flags : ℕ

pub record CachingAllocator (State : Type 0) : Type 0 where
  pub create : Cache → State → Outcome (Bool × State)
  pub destroy : Cache → State → Outcome (Bool × State)
  pub alloc : Cache → State → Outcome (ℕ × State)
  pub free : Cache → ℕ → State → Outcome (Bool × State)
  pub trim : Cache → State → Outcome State

module _ {State : Type 0} where
  -- `__simple_alloc`, `__simple_free` and `__simple_size`
  abbrev pub simple_dummy : SimpleAllocator State
  simple_dummy = record {
    alloc = λ size flags s. done (0, s);
    free = λ obj s. done s;
    size = λ obj s. done 0;
  }

  -- `__caching_create` and the others
  abbrev pub caching_dummy : CachingAllocator State
  caching_dummy = record {
    create = λ cache s. done (false, s);
    destroy = λ cache s. done (false, s);
    alloc = λ cache s. done (0, s);
    free = λ cache obj s. done (false, s);
    trim = λ cache s. done s;
  }

  -- `set_simple_allocator` and `set_caching_allocator`
  unfoldable pub set_simple_allocator :
      Option (SimpleAllocator State) → SimpleAllocator State → SimpleAllocator State
  set_simple_allocator none current = current
  set_simple_allocator (some allocator) current = allocator

  unfoldable pub set_caching_allocator :
      Option (CachingAllocator State) → CachingAllocator State → CachingAllocator State
  set_caching_allocator none current = current
  set_caching_allocator (some allocator) current = allocator

  -- `get_simple_allocator`: what is copied to the argument
  unfoldable pub get_simple_allocator :
      Option (SimpleAllocator State) → SimpleAllocator State → Option (SimpleAllocator State)
  get_simple_allocator none current = none
  get_simple_allocator (some allocator) current = some current

  -- `alloc__adapter`, `free__adapter` and `size__adapter`
  abbrev pub vmm_adapter : Vmalloc State → SimpleAllocator State
  vmm_adapter g_vmalloc = record {
    alloc = λ size flags s. g_vmalloc.malloc size s;
    free = λ obj s. g_vmalloc.free obj s;
    size = λ obj s. g_vmalloc.size obj s;
  }

  -- The functions that `use_page_vmalloc__ctor` installs, on a bridge over `palloc`
  abbrev pub use_page_vmalloc : ℕ → PageAllocator State → Vmalloc State
  use_page_vmalloc koffset palloc = record {
    malloc = λ size s. use_page_malloc koffset palloc size s;
    free = λ obj s. use_page_free koffset palloc obj s;
    size = λ obj s. use_page_size koffset palloc obj s;
  }

  module _ (current : SimpleAllocator State) where
    -- `kmalloc`
    unfoldable pub kmalloc : ℕ → ℕ → State → Memory → Outcome (ℕ × State × Memory)
    unfolding fill
    kmalloc size flags s m =
        if ltb 2048 size
        then panic
        else current.alloc size flags s >>= λ (result, s').
            if is_zero flags
            then (fill result 0 size m >>= λ m'. done (result, s', m'))
            else done (result, s', m)

    -- `kcalloc`
    unfoldable pub kcalloc : ℕ → ℕ → ℕ → State → Memory → Outcome (ℕ × State × Memory)
    unfolding kmalloc fill
    kcalloc nmemb size flags s m = kmalloc (mul32 nmemb size) flags s m >>= λ (result, s', m').
        fill result 0 (mul32 nmemb size) m' >>= λ m''. done (result, s', m'')

    -- `kfree` and `ksize`
    unfoldable pub kfree : ℕ → State → Outcome State
    kfree obj s = if obj == 0 then done s else current.free obj s

    unfoldable pub ksize : ℕ → State → Outcome ℕ
    ksize obj s = if obj == 0 then done 0 else current.size obj s

  module _ (current : CachingAllocator State) where
    -- `cache_create`, `cache_destroy`, `cache_alloc`, `cache_free` and `cache_trim`
    unfoldable pub cache_create : Option Cache → State → Outcome (Bool × State)
    cache_create none s = done (false, s)
    cache_create (some cache) s = current.create cache s

    unfoldable pub cache_destroy : Option Cache → State → Outcome (Bool × State)
    cache_destroy none s = done (false, s)
    cache_destroy (some cache) s = current.destroy cache s

    unfoldable pub cache_alloc : Option Cache → State → Memory → Outcome (ℕ × State × Memory)
    unfolding fill
    cache_alloc none s m = done (0, s, m)
    cache_alloc (some cache) s m = current.alloc cache s >>= λ (retval, s').
        if is_zero cache.flags
        then (fill retval 0 cache.size m >>= λ m'. done (retval, s', m'))
        else done (retval, s', m)

    unfoldable pub cache_free : Option Cache → ℕ → State → Memory → Outcome (Bool × State × Memory)
    unfolding fill
    cache_free none obj s m = done (false, s, m)
    cache_free (some cache) obj s m =
        let junk = if is_unsafe cache.flags then done m else fill obj 32 cache.size m in
        junk >>= λ m'. current.free cache obj s >>= λ (retval, s'). done (retval, s', m')

    unfoldable pub cache_trim : Option Cache → State → Outcome State
    cache_trim none s = done s
    cache_trim (some cache) s = current.trim cache s
