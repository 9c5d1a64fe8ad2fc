-- ===== src/Strings.antt =====
-- lib/libc/memcmp.c, strlen.c, strcmp.c and strlcpy.c. A memory region is the list of the bytes in it, and an
-- access behind its end is `undefined`; a string is a region that holds a terminating 0.
pub mod Compared
pub mod Bounded
mod Examples
use fdu_os.Common.{ℕ, zero, suc, ◌+◌, Bool, true, false, List, [], ◌∷◌, ltb, ◌==◌, if◌then◌else◌}
use fdu_os.Common.Outcome.{Outcome, done, undefined, ◌>>=◌}
use fdu_os.Util.{min2}
use fdu_os.Memory.{Memory, store}

-- What `memcmp` and `strcmp` return: -1, 0 or 1.
pub data Sign : Type 0 where
  minus : Sign
  same : Sign
  plus : Sign

-- `memcmp`
unfoldable pub memcmp : List ℕ → List ℕ → ℕ → Outcome Sign
memcmp s1 s2 zero = done same
memcmp [] s2 (suc n) = undefined
memcmp (x ∷ xs) [] (suc n) = undefined
memcmp (x ∷ xs) (y ∷ ys) (suc n) =
    let rest = memcmp xs ys n in if x == y then rest else if ltb x y then done minus else done plus

-- `strlen`, with `r` bytes counted so far
unfoldable pub strlen_from : ℕ → List ℕ → Outcome ℕ
strlen_from r [] = undefined
strlen_from r (x ∷ xs) = let rest = strlen_from (r + 1) xs in if x == 0 then done r else rest

unfoldable pub strlen : List ℕ → Outcome ℕ
unfolding strlen_from
strlen s = strlen_from 0 s

-- `strcmp`
pub strcmp : List ℕ → List ℕ → Outcome Sign
unfolding strlen memcmp min2
strcmp s1 s2 = strlen s1 >>= λ l1. strlen s2 >>= λ l2. memcmp s1 s2 (min2 l1 l2 + 1)

-- The loop of `strlcpy`, and the terminator behind what it copied.
unfoldable pub copy_text : ℕ → ℕ → List ℕ → Memory → Outcome Memory
copy_text zero dst src m = done (store dst 0 m)
copy_text (suc dsize) dst [] m = undefined
copy_text (suc dsize) dst (x ∷ xs) m =
    let rest = copy_text dsize (dst + 1) xs (store dst x m) in
    if x == 0 then done (store dst 0 m) else rest

-- `strlcpy`, from a source that does not overlap the destination
pub strlcpy : ℕ → List ℕ → ℕ → Memory → Outcome (ℕ × Memory)
unfolding strlen copy_text
strlcpy dst src dsize m = strlen src >>= λ ret.
    if dsize == 0 then done (ret, m) else copy_text dsize dst src m >>= λ m'. done (ret, m')
