-- ===== src/Util/Alignment.antt =====
-- The mask macros of include/util.h at powers of two: they agree with the division macros, as the
-- comment above them says.
use Prim.Native.Nat.{bit_and}
use native.Mathlib.Nat.{
  mod-eq_of_lt, one-le-pow, pow-le-pow_right, pow-suc, add-mod_right, div-add-mod, mod_self,
}
use fdu_os.Common.{
  ℕ, zero, suc, ◌+◌, ◌-◌, ◌/◌, ◌%◌, ◌^◌, ◌≤◌, ◌<◌, ◌≡◌, ◌↔◌, true, sym, ◌∙◌, arith, ◌==◌,
  Bool-cases, inl, inr, ==→eq,
}
use fdu_os.Common.Bits.Step.{bit_and_step}
use fdu_os.Common.Bits.Powers.{bit_and_self, bit_and_mask, bit_or_mask, bit_and_high_mask}
use fdu_os.Common.Words.{mod-before}
use fdu_os.Util.{roundup, rounddown, before, is_aligned, align_above, align_below, is_pow_of_2}
use fdu_os.Util.Rounding.{roundup-eq}

module _ (v k : ℕ) where
  pow_le : 2 ^ k ≤ 2 ^ (v + k)
  pow_le = pow-le-pow_right {n = 2} (omega arith) (omega arith)

  before_pow : before (v + k) (2 ^ k) ≡ 2 ^ k - 1
  before_pow = mod-before (2 ^ (v + k)) (2 ^ k) (one-le-pow k 2 (omega arith)) pow_le

  -- In `v + k` bits, IS_ALIGNED(x, 1 << k) holds exactly when `1 << k` divides `x`.
  pub is_aligned_iff : (x : ℕ) → (is_aligned (v + k) x (2 ^ k) ≡ true) ↔ (x % 2 ^ k ≡ 0)
  unfolding is_aligned
  is_aligned_iff x = rw (before_pow, bit_and_mask k x) (ground arith)

  -- In `v + k` bits, ALIGN_BELOW(x, 1 << k) is ROUNDDOWN(x, 1 << k).
  pub align_below-rounddown :
      (x : ℕ) → x < 2 ^ (v + k) → align_below (v + k) x (2 ^ k) ≡ rounddown x (2 ^ k)
  unfolding align_below rounddown
  align_below-rounddown x h = rw before_pow (bit_and_high_mask v k x h)

  pos : 0 < 2 ^ k
  pos = one-le-pow k 2 (omega arith)

  -- Both macros in terms of `y = x - 1`.
  align_above-suc :
      (y : ℕ)
      → suc y + 2 ^ k ≤ 2 ^ (v + k)
      → align_above (v + k) (suc y) (2 ^ k) ≡ y - y % 2 ^ k + 2 ^ k
  unfolding align_above
  align_above-suc y h =
      let e : before (v + k) (suc y) ≡ y =
        mod-before (2 ^ (v + k)) (suc y) (omega arith) (omega arith) ∙ omega arith in
      rw (e, before_pow, bit_or_mask k y)
        (mod-eq_of_lt (omega (arith, pos, div-add-mod y (2 ^ k)))
          ∙ omega (arith, pos, div-add-mod y (2 ^ k)))

  roundup-suc :
      (y : ℕ)
      → suc y + 2 ^ k ≤ 2 ^ (v + k)
      → roundup (v + k) (suc y) (2 ^ k) ≡ y - y % 2 ^ k + 2 ^ k
  roundup-suc y h =
      let e : suc y + 2 ^ k - 1 ≡ y + 2 ^ k = omega arith in
      roundup-eq (v + k) (suc y) (2 ^ k) pos h
      ∙ rw e (
          omega (
            arith,
            div-add-mod (y + 2 ^ k) (2 ^ k),
            add-mod_right y (2 ^ k),
            div-add-mod y (2 ^ k),
          ))

  -- In `v + k` bits, ALIGN_ABOVE(x, 1 << k) is ROUNDUP(x, 1 << k) where `x + (1 << k)` fits the
  -- type, for `x` above 0.
  pub align_above-roundup :
      (x : ℕ)
      → 0 < x
      → x + 2 ^ k ≤ 2 ^ (v + k)
      → align_above (v + k) x (2 ^ k) ≡ roundup (v + k) x (2 ^ k)
  align_above-roundup zero p h = absurd (omega arith)
  align_above-roundup (suc y) p h = align_above-suc y h ∙ sym (roundup-suc y h)

module _ (x : ℕ) (p : 0 < x) (h : bit_and x (x - 1) ≡ 0) where
  -- An odd number with no digit in common with its predecessor is 1.
  odd_is_one : x % 2 ≡ 1 → x ≡ 1
  odd_is_one odd =
      let e : (x - 1) / 2 ≡ x / 2 = omega arith in
      omega (arith, rw e at (bit_and_step x (x - 1)), bit_and_self (x / 2))

  even_step : x % 2 ≡ 0 → bit_and (x / 2) (x / 2 - 1) ≡ 0
  even_step even =
      let e : (x - 1) / 2 ≡ x / 2 - 1 = omega arith in
      omega (arith, rw e at (bit_and_step x (x - 1)))

pow_of_2_below : (n x : ℕ) → x ≤ n → 0 < x → bit_and x (x - 1) ≡ 0 → (k : ℕ) × (x ≡ 2 ^ k)
pow_of_2_below zero x le p h = absurd (omega arith)
pow_of_2_below (suc n) x le p h = elim (Bool-cases (x % 2 == 1)) [
  | inl odd ↦ (0, odd_is_one x p h (==→eq _ 1 odd))
  | inr even ↦
      let e : x % 2 ≡ 0 = ground arith in
      let (k, q) = pow_of_2_below n (x / 2) (omega arith) (omega arith) (even_step x p h e) in
      (suc k, omega (arith, pow-suc 2 k))
]

-- IS_POW_OF_2(x) holds exactly when `x` is a power of two.
pub is_pow_of_2_iff : (x : ℕ) → (is_pow_of_2 x ≡ true) ↔ ((k : ℕ) × (x ≡ 2 ^ k))
unfolding is_pow_of_2
is_pow_of_2_iff x = (λ h. pow_of_2_below x x (omega arith) (ground arith) (ground arith), back)
  where
    back : (k : ℕ) × (x ≡ 2 ^ k) → is_pow_of_2 x ≡ true
    back (k, e) = rw e (ground (arith, bit_and_mask k (2 ^ k), one-le-pow k 2, mod_self (2 ^ k)))
