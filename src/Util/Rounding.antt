-- ===== src/Util/Rounding.antt =====
-- ROUNDUP and ROUNDDOWN of include/util.h, at any divisor.
use native.Mathlib.Nat.{mod-eq_of_lt, div-add-mod, mod-lt, mul-mod_left}
use fdu_os.Common.{ℕ, ◌+◌, ◌-◌, ◌*◌, ◌/◌, ◌%◌, ◌^◌, ◌≤◌, ◌<◌, ◌≡◌, ap, arith}
use fdu_os.Common.Words.{mod-before}
use fdu_os.Util.{div_round_up, roundup, rounddown}

module _ (w x d : ℕ) (pos : 0 < d) (room : x + d ≤ 2 ^ w) where
  pub div_round_up-eq : div_round_up w x d ≡ (x + d - 1) / d
  unfolding div_round_up
  div_round_up-eq = ap (λ t. t / d) (mod-before (2 ^ w) (x + d) (omega arith) room)

  -- The quotient times `d` lies in the `d` values from `x` on.
  pub quotient_range : (x ≤ d * ((x + d - 1) / d)) × (d * ((x + d - 1) / d) < x + d)
  quotient_range = omega (arith, div-add-mod (x + d - 1) d, mod-lt (x + d - 1) pos)

  pub roundup-eq : roundup w x d ≡ (x + d - 1) / d * d
  unfolding roundup
  roundup-eq = rw div_round_up-eq (mod-eq_of_lt (omega (arith, quotient_range)))

  -- For `d` above 0, if `x + d` fits the type, ROUNDUP(x, d) is a multiple of `d`, is at least `x`, and is less
  -- than `x + d`: the least multiple of `d` from `x` on.
  pub roundup_least : (roundup w x d % d ≡ 0) × (x ≤ roundup w x d) × (roundup w x d < x + d)
  roundup_least = rw roundup-eq (
    mul-mod_left ((x + d - 1) / d) d,
    omega (arith, quotient_range),
    omega (arith, quotient_range),
  )

-- For `d` above 0, ROUNDDOWN(x, d) is a multiple of `d`, is at most `x`, and is more than `x - d`:
-- the greatest multiple of `d` up to `x`.
pub rounddown_greatest :
    (x d : ℕ) → 0 < d → (rounddown x d % d ≡ 0) × (rounddown x d ≤ x) × (x < rounddown x d + d)
unfolding rounddown
rounddown_greatest x d pos =
    let e : x - x % d ≡ x / d * d = omega (arith, div-add-mod x d) in
    (rw e (mul-mod_left (x / d) d), omega arith, omega (arith, mod-lt x pos))

-- What is a multiple already stays as it is.
pub rounddown_self : (x d : ℕ) → x % d ≡ 0 → rounddown x d ≡ x
unfolding rounddown
rounddown_self x d h = omega arith
