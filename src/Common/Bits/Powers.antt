-- ===== src/Common/Bits/Powers.antt =====
-- Shifted operands, single bits and masks: what `x ^ (1 << k)`, `x | (1 << k)`, `x & ~(1 << k)` and
-- `x & ((1 << k) - 1)` are as arithmetic.
use Prim.Native.Nat.{
  ℕ, zero, suc, ◌+◌, ◌-◌, ◌*◌, ◌/◌, ◌%◌, ◌^◌, ◌≤◌, ◌<◌, bit_and, bit_or, bit_xor, differ,
}
use mathlib.Core.Path.{◌≡◌, refl, ap, ◌∙◌}
use native.Mathlib.Omega.{arith}
use native.Mathlib.Nat.{pow-suc, one-le-pow, div-add-mod, mod-lt, div-lt_iff_lt-mul}
use fdu_os.Common.Bits.Step.{bit_and_step, bit_or_step, bit_xor_step}

mul-pow-suc : (a k : ℕ) → a * 2 ^ suc k ≡ 2 * (a * 2 ^ k)
mul-pow-suc a k = omega (arith, ap (λ (t : ℕ). a * t) (pow-suc 2 k))

module _ (k a b : ℕ) where
  -- One digit of a number shifted by `suc k` is 0, and the rest is the number shifted by `k`.
  xor_shift_step : bit_xor (a * 2 ^ suc k) (b * 2 ^ suc k) ≡ 2 * bit_xor (a * 2 ^ k) (b * 2 ^ k)
  xor_shift_step =
      ground
        (arith, mul-pow-suc a k, mul-pow-suc b k, bit_xor_step (2 * (a * 2 ^ k)) (2 * (b * 2 ^ k)))

pub bit_xor_shifted : (k a b : ℕ) → bit_xor (a * 2 ^ k) (b * 2 ^ k) ≡ bit_xor a b * 2 ^ k
bit_xor_shifted zero a b = ground arith
bit_xor_shifted (suc k) a b =
    omega (arith, mul-pow-suc (bit_xor a b) k, xor_shift_step k a b, bit_xor_shifted k a b)

pub bit_or_shifted : (k a b : ℕ) → bit_or (a * 2 ^ k) (b * 2 ^ k) ≡ bit_or a b * 2 ^ k
bit_or_shifted zero a b = ground arith
bit_or_shifted (suc k) a b = ground (
  arith,
  mul-pow-suc a k,
  mul-pow-suc b k,
  mul-pow-suc (bit_or a b) k,
  bit_or_step (2 * (a * 2 ^ k)) (2 * (b * 2 ^ k)),
  bit_or_shifted k a b,
)

-- Digits of the second operand below the shift meet only zeros.
pub bit_and_shifted :
    (k a b r : ℕ) → r < 2 ^ k → bit_and (a * 2 ^ k) (b * 2 ^ k + r) ≡ bit_and a b * 2 ^ k
bit_and_shifted zero a b r h = ground arith
bit_and_shifted (suc k) a b r h = ground (
  arith,
  pow-suc 2 k,
  mul-pow-suc a k,
  mul-pow-suc b k,
  mul-pow-suc (bit_and a b) k,
  bit_and_step (2 * (a * 2 ^ k)) (2 * (b * 2 ^ k) + r),
  bit_and_shifted k a b (r / 2) (omega (arith, pow-suc 2 k)),
)

bit_and-zero_below : (n a : ℕ) → a ≤ n → bit_and a 0 ≡ 0
bit_and-zero_below n zero h = refl
bit_and-zero_below zero (suc a) h = absurd (omega arith)
bit_and-zero_below (suc n) (suc a) h =
    omega (arith, bit_and_step (suc a) 0, bit_and-zero_below n (suc a / 2) (omega arith))

bit_and_low : (k q r : ℕ) → r < 2 ^ k → bit_and (q * 2 ^ k + r) (2 ^ k - 1) ≡ r
bit_and_low zero q r h = ground (arith, bit_and-zero_below q q)
bit_and_low (suc k) q r h = ground (
  arith,
  pow-suc 2 k,
  mul-pow-suc q k,
  one-le-pow k 2,
  bit_and_step (2 * (q * 2 ^ k) + r) (2 ^ suc k - 1),
  bit_and_low k q (r / 2) (omega (arith, pow-suc 2 k)),
)

-- `x & ((1 << k) - 1)`
pub bit_and_mask : (k x : ℕ) → bit_and x (2 ^ k - 1) ≡ x % 2 ^ k
bit_and_mask k x = ground (
  arith,
  one-le-pow k 2,
  div-add-mod x (2 ^ k),
  bit_and_low k (x / 2 ^ k) (x % 2 ^ k) (mod-lt x (one-le-pow k 2 (omega arith))),
)

differ-zero : (x : ℕ) → differ x 0 ≡ x
differ-zero zero = refl
differ-zero (suc x) = refl

bit_xor-zero_below : (n a : ℕ) → a ≤ n → bit_xor a 0 ≡ a
bit_xor-zero_below n zero h = refl
bit_xor-zero_below zero (suc a) h = absurd (omega arith)
bit_xor-zero_below (suc n) (suc a) h = ground (
  arith,
  bit_xor_step (suc a) 0,
  differ-zero (suc a % 2),
  bit_xor-zero_below n (suc a / 2) (omega arith),
)

bit_or-zero_below : (n a : ℕ) → a ≤ n → bit_or a 0 ≡ a
bit_or-zero_below n zero h = refl
bit_or-zero_below zero (suc a) h = absurd (omega arith)
bit_or-zero_below (suc n) (suc a) h =
    ground (arith, bit_or_step (suc a) 0, bit_or-zero_below n (suc a / 2) (omega arith))

module _ (k q : ℕ) where
  -- `x ^ (1 << k)` at a multiple of `1 << k`: the even one of a pair goes to the odd one, and back.
  pub flip_even : bit_xor (2 * q * 2 ^ k) (2 ^ k) ≡ (2 * q + 1) * 2 ^ k
  flip_even =
      ground (arith, bit_xor_shifted k (2 * q) 1, bit_xor_step (2 * q) 1, bit_xor-zero_below q q)

  pub flip_odd : bit_xor ((2 * q + 1) * 2 ^ k) (2 ^ k) ≡ 2 * q * 2 ^ k
  flip_odd =
      ground
        (arith, bit_xor_shifted k (2 * q + 1) 1, bit_xor_step (2 * q + 1) 1, bit_xor-zero_below q q)

  -- `x | (1 << k)` at the even one of a pair.
  pub set_even : bit_or (2 * q * 2 ^ k) (2 ^ k) ≡ (2 * q + 1) * 2 ^ k
  set_even =
      ground (arith, bit_or_shifted k (2 * q) 1, bit_or_step (2 * q) 1, bit_or-zero_below q q)

pub pow-add : (m n : ℕ) → 2 ^ (m + n) ≡ 2 ^ m * 2 ^ n
pow-add zero n = ground arith
pow-add (suc m) n =
    let e : suc m + n ≡ suc (m + n) = omega arith in
    rw e (omega (arith, pow-suc 2 (m + n), pow-add m n, ap (λ (t : ℕ). t * 2 ^ n) (pow-suc 2 m)))

-- `x & ~(1 << k)` in `k + v + 1` bits, at either one of a pair, is the even one.
module _ (k v q : ℕ) (small : q < 2 ^ v) where
  clear_small : (d : ℕ) → d < 2 → bit_and (2 * q + d) (2 ^ suc v - 2) ≡ 2 * q
  clear_small d h = ground (
    arith,
    pow-suc 2 v,
    one-le-pow v 2,
    bit_and_step (2 * q + d) (2 ^ suc v - 2),
    bit_and_low v 0 q small,
  )

  two_le : 2 ^ suc v ≡ (2 ^ suc v - 2) + 2
  two_le = omega (arith, pow-suc 2 v, one-le-pow v 2)

  mask_split : 2 ^ (k + suc v) - 1 - 2 ^ k ≡ (2 ^ suc v - 2) * 2 ^ k + (2 ^ k - 1)
  mask_split = omega (arith, pow-add k (suc v), ap (λ (t : ℕ). t * 2 ^ k) two_le, one-le-pow k 2)

  pub clear_bit :
      (d : ℕ) → d < 2 → bit_and ((2 * q + d) * 2 ^ k) (2 ^ (k + suc v) - 1 - 2 ^ k) ≡ 2 * q * 2 ^ k
  clear_bit d h = rw mask_split (
      bit_and_shifted k (2 * q + d) (2 ^ suc v - 2) (2 ^ k - 1) (omega (arith, one-le-pow k 2))
      ∙ ap (λ t. t * 2 ^ k) (clear_small d h))

-- A multiple of `1 << k` keeps, of the second operand, what stands above the low `k` digits.
bit_and_high : (k q r m : ℕ) → r < 2 ^ k → bit_and (q * 2 ^ k + r) (m * 2 ^ k) ≡ bit_and q m * 2 ^ k
bit_and_high zero q r m h = ground arith
bit_and_high (suc k) q r m h = ground (
  arith,
  pow-suc 2 k,
  mul-pow-suc q k,
  mul-pow-suc m k,
  mul-pow-suc (bit_and q m) k,
  bit_and_step (2 * (q * 2 ^ k) + r) (2 * (m * 2 ^ k)),
  bit_and_high k q (r / 2) m (omega (arith, pow-suc 2 k)),
)

bit_or_low : (k q r : ℕ) → r < 2 ^ k → bit_or (q * 2 ^ k + r) (2 ^ k - 1) ≡ q * 2 ^ k + (2 ^ k - 1)
bit_or_low zero q r h = ground (arith, bit_or-zero_below q q)
bit_or_low (suc k) q r h = ground (
  arith,
  pow-suc 2 k,
  mul-pow-suc q k,
  one-le-pow k 2,
  bit_or_step (2 * (q * 2 ^ k) + r) (2 ^ suc k - 1),
  bit_or_low k q (r / 2) (omega (arith, pow-suc 2 k)),
)

-- `x | ((1 << k) - 1)`
pub bit_or_mask : (k x : ℕ) → bit_or x (2 ^ k - 1) ≡ x - x % 2 ^ k + (2 ^ k - 1)
bit_or_mask k x = ground (
  arith,
  one-le-pow k 2,
  div-add-mod x (2 ^ k),
  bit_or_low k (x / 2 ^ k) (x % 2 ^ k) (mod-lt x (one-le-pow k 2 (omega arith))),
)

module _ (v k : ℕ) where
  high_mask : 2 ^ (v + k) - 1 - (2 ^ k - 1) ≡ (2 ^ v - 1) * 2 ^ k
  high_mask =
      let e : 2 ^ v ≡ (2 ^ v - 1) + 1 = omega (arith, one-le-pow v 2) in
      omega (arith, pow-add v k, one-le-pow k 2, ap (λ (t : ℕ). t * 2 ^ k) e)

  high_parts :
      (q r : ℕ)
      → q < 2 ^ v
      → r < 2 ^ k
      → bit_and (q * 2 ^ k + r) (2 ^ (v + k) - 1 - (2 ^ k - 1)) ≡ q * 2 ^ k
  high_parts q r p h =
      ground (arith, high_mask, bit_and_high k q r (2 ^ v - 1) h, bit_and_low v 0 q p)

  -- `x & ~((1 << k) - 1)` in `v + k` bits
  pub bit_and_high_mask :
      (x : ℕ) → x < 2 ^ (v + k) → bit_and x (2 ^ (v + k) - 1 - (2 ^ k - 1)) ≡ x - x % 2 ^ k
  bit_and_high_mask x h = ground (
    arith,
    one-le-pow k 2,
    div-add-mod x (2 ^ k),
    (div-lt_iff_lt-mul {k = 2 ^ k} {x = x} {y = 2 ^ v} (one-le-pow k 2 (omega arith))).1,
    pow-add v k,
    high_parts (x / 2 ^ k) (x % 2 ^ k),
    mod-lt x (one-le-pow k 2 (omega arith)),
  )

bit_and-self_below : (n a : ℕ) → a ≤ n → bit_and a a ≡ a
bit_and-self_below n zero h = refl
bit_and-self_below zero (suc a) h = absurd (omega arith)
bit_and-self_below (suc n) (suc a) h =
    omega (arith, bit_and_step (suc a) (suc a), bit_and-self_below n (suc a / 2) (omega arith))

-- `x & x`
pub bit_and_self : (a : ℕ) → bit_and a a ≡ a
bit_and_self a = bit_and-self_below a a (omega arith)

-- `x | (1 << k)` where the digit is 0, and those above it are arbitrary.
pub bit_or_new :
    (k q r : ℕ) → r < 2 ^ k → bit_or (q * 2 ^ suc k + r) (2 ^ k) ≡ q * 2 ^ suc k + r + 2 ^ k
bit_or_new zero q r h = ground (arith, bit_or_step (q * 2) 1, bit_or-zero_below q q)
bit_or_new (suc k) q r h = ground (
  arith,
  pow-suc 2 k,
  pow-suc 2 (suc k),
  mul-pow-suc q (suc k),
  bit_or_step (q * 2 ^ suc (suc k) + r) (2 ^ suc k),
  bit_or_new k q (r / 2) (omega (arith, pow-suc 2 k)),
)

-- `x | c` where the digits of `x` under those of `c` are 0
pub bit_or_under : (k q c : ℕ) → c < 2 ^ k → bit_or (q * 2 ^ k) c ≡ q * 2 ^ k + c
bit_or_under zero q c h = ground (arith, bit_or-zero_below q q)
bit_or_under (suc k) q c h = ground (
  arith,
  pow-suc 2 k,
  mul-pow-suc q k,
  bit_or_step (2 * (q * 2 ^ k)) c,
  bit_or_under k q (c / 2) (omega (arith, pow-suc 2 k)),
)

bit_or_comm_below : (n a b : ℕ) → a ≤ n → b ≤ n → bit_or a b ≡ bit_or b a
bit_or_comm_below zero a b p q =
    let e : a ≡ 0 = omega arith in let e' : b ≡ 0 = omega arith in rw (e, e') refl
bit_or_comm_below (suc n) a b p q = omega (
  arith,
  bit_or_step a b,
  bit_or_step b a,
  bit_or_comm_below n (a / 2) (b / 2) (omega arith) (omega arith),
)

pub bit_or_comm : (a b : ℕ) → bit_or a b ≡ bit_or b a
bit_or_comm a b = bit_or_comm_below (a + b) a b (omega arith) (omega arith)
