-- ===== src/Bootstrap.antt =====
-- kern/mm/vmm/bootstrap.c: the allocator of the time before the page allocator. It hands out the
-- memory from `base` to `limit` once, from page boundaries on, and takes nothing back. Pointers
-- are numbers below 2^32, and NULL is 0; a page has 4096 bytes.
pub mod Regions
mod Examples
use fdu_os.Common.{ℕ, ◌+◌, ◌%◌, ◌^◌, ltb, if◌then◌else◌}
use fdu_os.Common.Words.{add32, sub32}
use fdu_os.Util.{roundup}
use fdu_os.Memory.{Memory, memset}

-- `struct bootstrap_vmalloc`, its data
pub record Bootstrap : Type 0 where
  pub base : ℕ
  pub limit : ℕ
  pub cur : ℕ

-- `bootstrap_vmalloc__malloc`
unfoldable pub malloc : ℕ → Bootstrap → Memory → ℕ × Bootstrap × Memory
malloc size s m =
    let ret : ℕ = roundup 32 s.cur 4096 in
    if ltb s.limit (add32 ret size)
    then (0, record { base = s.base; limit = s.limit; cur = ret }, m)
    else (
      ret,
      record { base = s.base; limit = s.limit; cur = add32 ret size },
      memset ret 205 size m,
    )

-- `bootstrap_vmalloc__free`
unfoldable pub free : ℕ → Bootstrap → Bootstrap
free ptr s = s

-- `bootstrap_vmalloc__area`
unfoldable pub area : Bootstrap → ℕ
area s = sub32 s.cur s.base

-- `bootstrap_vmalloc__ctor`
unfoldable pub ctor : ℕ → ℕ → Bootstrap
ctor base max_size = record { base = base; limit = add32 base max_size; cur = base }
