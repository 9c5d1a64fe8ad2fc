-- ===== src/Common/Bits/Xor.antt =====
-- Exclusive or: a commutative and associative operation that acts digit by digit.
use Prim.Native.Nat.{ℕ, zero, suc, ◌+◌, ◌*◌, ◌/◌, ◌%◌, ◌^◌, ◌<◌, bit_xor, bit_xor-bitwise, differ}
use mathlib.Core.Path.{◌≡◌, refl, ap, ◌∙◌, sym}
use native.Mathlib.Omega.{arith}
use native.Mathlib.Nat.{pow-suc, mul_comm, div-div-eq-div-mul}
use fdu_os.Common.Bits.Step.{bit_xor_step}

differ_sum : (p q : ℕ) → p < 2 → q < 2 → differ p q ≡ (p + q) % 2
differ_sum zero zero lp lq = refl
differ_sum zero (suc zero) lp lq = refl
differ_sum zero (suc (suc q)) lp lq = absurd (omega arith)
differ_sum (suc zero) zero lp lq = refl
differ_sum (suc zero) (suc zero) lp lq = refl
differ_sum (suc zero) (suc (suc q)) lp lq = absurd (omega arith)
differ_sum (suc (suc p)) q lp lq = absurd (omega arith)

differ_digits : (x y : ℕ) → differ (x % 2) (y % 2) ≡ (x + y) % 2
differ_digits x y = differ_sum (x % 2) (y % 2) (omega arith) (omega arith) ∙ omega arith

pub bit_xor-mod : (a b : ℕ) → bit_xor a b % 2 ≡ (a + b) % 2
bit_xor-mod a b = omega (arith, bit_xor_step a b, differ_digits a b)

pub bit_xor-half : (a b : ℕ) → bit_xor a b / 2 ≡ bit_xor (a / 2) (b / 2)
bit_xor-half a b = omega (arith, bit_xor_step a b, differ_digits a b)

-- Two numbers with the same last digit and the same half are one.
by_digits : (x y : ℕ) → x % 2 ≡ y % 2 → x / 2 ≡ y / 2 → x ≡ y
by_digits x y e e' = omega arith

pub xor_zero : (n a : ℕ) → a < 2 ^ n → bit_xor a 0 ≡ a
xor_zero zero a lt = let e : a ≡ 0 = omega arith in rw e refl
xor_zero (suc n) a lt =
    by_digits (bit_xor a 0) a (omega (arith, bit_xor-mod a 0))
      (bit_xor-half a 0 ∙ xor_zero n (a / 2) (omega (arith, pow-suc 2 n)))

pub xor_assoc :
    (n a b c : ℕ)
    → a < 2 ^ n
    → b < 2 ^ n
    → c < 2 ^ n
    → bit_xor (bit_xor a b) c ≡ bit_xor a (bit_xor b c)
xor_assoc zero a b c la lb lc =
    let ea : a ≡ 0 = omega arith in
    let eb : b ≡ 0 = omega arith in let ec : c ≡ 0 = omega arith in rw (ea, eb, ec) refl
xor_assoc (suc n) a b c la lb lc =
    by_digits (bit_xor (bit_xor a b) c) (bit_xor a (bit_xor b c))
      (omega (
        arith,
        bit_xor-mod (bit_xor a b) c,
        bit_xor-mod a b,
        bit_xor-mod a (bit_xor b c),
        bit_xor-mod b c,
      ))
      (bit_xor-half (bit_xor a b) c
        ∙ ap (λ x. bit_xor x (c / 2)) (bit_xor-half a b)
        ∙ xor_assoc n (a / 2) (b / 2) (c / 2) (omega (arith, pow-suc 2 n))
            (omega (arith, pow-suc 2 n)) (omega (arith, pow-suc 2 n))
        ∙ ap (bit_xor (a / 2)) (sym (bit_xor-half b c))
        ∙ sym (bit_xor-half a (bit_xor b c)))

pub xor_comm : (n a b : ℕ) → a < 2 ^ n → b < 2 ^ n → bit_xor a b ≡ bit_xor b a
xor_comm zero a b la lb =
    let ea : a ≡ 0 = omega arith in let eb : b ≡ 0 = omega arith in rw (ea, eb) refl
xor_comm (suc n) a b la lb =
    by_digits (bit_xor a b) (bit_xor b a) (omega (arith, bit_xor-mod a b, bit_xor-mod b a)) (
      bit_xor-half a b
      ∙ xor_comm n (a / 2) (b / 2) (omega (arith, pow-suc 2 n)) (omega (arith, pow-suc 2 n))
      ∙ sym (bit_xor-half b a))

pub xor-below : (n a b : ℕ) → a < 2 ^ n → b < 2 ^ n → bit_xor a b < 2 ^ n
xor-below zero a b la lb =
    let ea : a ≡ 0 = omega arith in let eb : b ≡ 0 = omega arith in rw (ea, eb) (omega arith)
xor-below (suc n) a b la lb =
    let half : bit_xor a b / 2 < 2 ^ n =
      rw (bit_xor-half a b)
        (xor-below n (a / 2) (b / 2) (omega (arith, pow-suc 2 n)) (omega (arith, pow-suc 2 n))) in
    omega (arith, half, pow-suc 2 n)

div_one : (x : ℕ) → x / 2 ^ 0 ≡ x
div_one x = omega arith

next_quotient : (k x : ℕ) → x / 2 ^ suc k ≡ x / 2 / 2 ^ k
next_quotient k x =
    ap (λ t. x / t) (pow-suc 2 k ∙ mul_comm (2 ^ k) 2) ∙ sym (div-div-eq-div-mul x 2 (2 ^ k))

-- The quotients by a power of two
pub xor-div : (k a b : ℕ) → bit_xor a b / 2 ^ k ≡ bit_xor (a / 2 ^ k) (b / 2 ^ k)
xor-div zero a b = rw (div_one (bit_xor a b), div_one a, div_one b) refl
xor-div (suc k) a b =
    next_quotient k (bit_xor a b)
    ∙ ap (λ x. x / 2 ^ k) (bit_xor-half a b)
    ∙ xor-div k (a / 2) (b / 2)
    ∙ rw (next_quotient k a, next_quotient k b) refl

zero_xor : (h : ℕ) → bit_xor 0 h ≡ h
zero_xor h = bit_xor-bitwise 0 h

-- The digits below and above a place
pub xor_parts : (k l h : ℕ) → l < 2 ^ k → bit_xor l (h * 2 ^ k) ≡ l + h * 2 ^ k
xor_parts zero l h lt = let e : l ≡ 0 = omega arith in rw e (zero_xor (h * 2 ^ 0) ∙ omega arith)
xor_parts (suc k) l h lt =
    let high : h * 2 ^ suc k ≡ h * 2 ^ k * 2 = omega (arith, ap (λ t. h * t) (pow-suc 2 k)) in
    let low : l / 2 < 2 ^ k = omega (arith, pow-suc 2 k) in
    let half : h * 2 ^ k * 2 / 2 ≡ h * 2 ^ k = omega arith in
    rw high (
      by_digits (bit_xor l (h * 2 ^ k * 2)) (l + h * 2 ^ k * 2)
        (omega (arith, bit_xor-mod l (h * 2 ^ k * 2)))
        (bit_xor-half l (h * 2 ^ k * 2)
          ∙ ap (bit_xor (l / 2)) half
          ∙ xor_parts k (l / 2) h low
          ∙ omega arith))
