-- ===== src/Memory.antt =====
-- lib/libc/memcpy.c, memmove.c and memset.c. Memory is a function from addresses to bytes; the
-- regions that a call names lie inside the address space, so that no pointer wraps. A `word` has
-- four bytes.
pub mod Copies
mod Examples
use Prim.Native.Nat.{bit_and, bit_or, bit_xor}
use fdu_os.Common.{
  ℕ, zero, suc, ◌+◌, ◌-◌, ◌*◌, ◌/◌, ◌%◌, ◌^◌, Bool, true, false, ◌&&◌, ◌||◌, not, ltb, leb, ◌==◌,
  if◌then◌else◌,
}

abbrev pub Memory : Type 0
Memory = ℕ → ℕ

-- `*d = c`
abbrev pub store : ℕ → ℕ → Memory → Memory
store d c m a = if d == a then c else m a

-- `*(word *)d = *(word *)s`
abbrev pub store_word : ℕ → ℕ → Memory → Memory
store_word d s m a = if leb d a && ltb a (d + 4) then m (s + (a - d)) else m a

-- `n` times `*d++ = *s++`
unfoldable pub copy_up : ℕ → ℕ → ℕ → Memory → Memory
copy_up zero d s m = m
copy_up (suc n) d s m = copy_up n (d + 1) (s + 1) (store d (m s) m)

-- `n` times `*--d = *--s`
unfoldable pub copy_down : ℕ → ℕ → ℕ → Memory → Memory
copy_down zero d s m = m
copy_down (suc n) d s m = copy_down n (d - 1) (s - 1) (store (d - 1) (m (s - 1)) m)

-- `t` times `*(word *)d = *(word *)s; s += wsize; d += wsize`
unfoldable pub copy_words : ℕ → ℕ → ℕ → Memory → Memory
copy_words zero d s m = m
copy_words (suc t) d s m = copy_words t (d + 4) (s + 4) (store_word d s m)

-- The bytes that `memcpy` copies before the words.
unfoldable pub head_bytes : ℕ → ℕ → ℕ → ℕ
head_bytes dst src length =
    if bit_and (bit_or src dst) 3 == 0
    then 0
    else if not (bit_and (bit_xor src dst) 3 == 0) || ltb length 4
    then length
    else 4 - bit_and src 3

-- `memcpy`
pub memcpy : ℕ → ℕ → ℕ → Memory → Memory
unfolding copy_up copy_words head_bytes
memcpy dst src length m =
    let t = head_bytes dst src length in
    let rest = length - t in
    let words = rest / 4 in
    if (length == 0) || (dst == src)
    then m
    else copy_up (bit_and rest 3) (dst + t + 4 * words) (src + t + 4 * words)
        (copy_words words (dst + t) (src + t) (copy_up t dst src m))

-- `memmove`
pub memmove : ℕ → ℕ → ℕ → Memory → Memory
unfolding copy_up copy_down
memmove dest src n m =
    if ltb dest src
    then copy_up n dest src m
    else if ltb src dest
    then copy_down n (dest + n) (src + n) m
    else m

-- The loop of `memset`
unfoldable pub set_up : ℕ → ℕ → ℕ → Memory → Memory
set_up zero d c m = m
set_up (suc n) d c m = set_up n (d + 1) c (store d (c % 2 ^ 8) m)

-- `memset`
pub memset : ℕ → ℕ → ℕ → Memory → Memory
unfolding set_up
memset dst c n m = if n == 0 then m else set_up n dst c m
