-- ===== src/Util.antt =====
-- The arithmetic macros of include/util.h, on operands of a `w`-bit unsigned type (`size_t` is
-- `w = 32`, `addr_t` and `lsize_t` are `w = 64`), with the wrap-around of that type.
pub mod Rounding
pub mod Alignment
pub mod Intervals
use Prim.Native.Nat.{bit_and, bit_or}
use fdu_os.Common.{ℕ, ◌+◌, ◌-◌, ◌*◌, ◌/◌, ◌%◌, ◌^◌, Bool, ◌&&◌, ◌||◌, ltb, ◌==◌, if◌then◌else◌}

-- `DIV_ROUND_UP(n, d)`
unfoldable pub div_round_up : ℕ → ℕ → ℕ → ℕ
div_round_up w n d = (n + d + 2 ^ w - 1) % 2 ^ w / d

-- `ROUNDUP(x, d)`
unfoldable pub roundup : ℕ → ℕ → ℕ → ℕ
unfolding div_round_up
roundup w x d = (div_round_up w x d * d) % 2 ^ w

-- `ROUNDDOWN(x, d)`; the difference cannot wrap
unfoldable pub rounddown : ℕ → ℕ → ℕ
rounddown x d = x - x % d

-- `x - 1` in the type
abbrev pub before : ℕ → ℕ → ℕ
before w x = (x + 2 ^ w - 1) % 2 ^ w

-- `IS_POW_OF_2(x)`
unfoldable pub is_pow_of_2 : ℕ → Bool
is_pow_of_2 x = ltb 0 x && (bit_and x (x - 1) == 0)

-- `IS_ALIGNED(x, a)`
unfoldable pub is_aligned : ℕ → ℕ → ℕ → Bool
is_aligned w x a = bit_and x (before w a) == 0

-- `ALIGN_ABOVE(x, a)`
unfoldable pub align_above : ℕ → ℕ → ℕ → ℕ
align_above w x a = (bit_or (before w x) (before w a) + 1) % 2 ^ w

-- `ALIGN_BELOW(x, a)`
unfoldable pub align_below : ℕ → ℕ → ℕ → ℕ
align_below w x a = bit_and x (2 ^ w - 1 - before w a)

-- `OVERLAP(st1, len1, st2, len2)`
unfoldable pub overlap : ℕ → ℕ → ℕ → ℕ → ℕ → Bool
overlap w st1 len1 st2 len2 =
    (ltb st2 st1 && ltb st1 ((st2 + len2) % 2 ^ w))
    || (ltb st1 st2 && ltb st2 ((st1 + len1) % 2 ^ w))

-- `min2(a, b)` and `max2(a, b)`
unfoldable pub min2 : ℕ → ℕ → ℕ
min2 a b = if ltb a b then a else b

unfoldable pub max2 : ℕ → ℕ → ℕ
max2 a b = if ltb b a then a else b
