-- ===== src/Common/Words.antt =====
-- The widths of C's unsigned types on the 32-bit targets (i386, armv7a): include/sys/types.h.
use Prim.Native.Nat.{ℕ, ◌+◌, ◌-◌, ◌*◌, ◌%◌, ◌^◌, ◌<◌, ◌≤◌}
use mathlib.Core.Path.{◌≡◌, ◌∙◌}
use native.Mathlib.Omega.{arith}
use native.Mathlib.Nat.{add-mod_right, mod-eq_of_lt}

-- `size_t`, `unsigned long`, `uint32_t` and pointers
abbrev pub word : ℕ → ℕ
word x = x % 2 ^ 32

-- `addr_t`, `lsize_t`, `uint64_t`
abbrev pub long_word : ℕ → ℕ
long_word x = x % 2 ^ 64

-- `unsigned char`
abbrev pub byte : ℕ → ℕ
byte x = x % 2 ^ 8

abbrev pub add32 : ℕ → ℕ → ℕ
add32 a b = (a + b) % 2 ^ 32

-- The difference of two words, which wraps below 0.
abbrev pub sub32 : ℕ → ℕ → ℕ
sub32 a b = (a + 2 ^ 32 - b % 2 ^ 32) % 2 ^ 32

abbrev pub mul32 : ℕ → ℕ → ℕ
mul32 a b = (a * b) % 2 ^ 32

abbrev pub add64 : ℕ → ℕ → ℕ
add64 a b = (a + b) % 2 ^ 64

abbrev pub sub64 : ℕ → ℕ → ℕ
sub64 a b = (a + 2 ^ 64 - b % 2 ^ 64) % 2 ^ 64

-- The predecessor as a wrapping difference.
pub mod-before : (m x : ℕ) → 0 < x → x ≤ m → (x + m - 1) % m ≡ x - 1
mod-before m x pos le =
    let e : x + m - 1 ≡ x - 1 + m = omega arith in
    rw e (add-mod_right (x - 1) m ∙ mod-eq_of_lt (omega arith))
