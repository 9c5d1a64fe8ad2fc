-- ===== src/Util/Intervals.antt =====
-- OVERLAP of include/util.h against what it stands for: two intervals with a point in common.
use native.Mathlib.Nat.{mod-eq_of_lt}
use fdu_os.Common.{ℕ, ◌+◌, ◌^◌, ◌≤◌, ◌<◌, ◌≡◌, ◌≢◌, ◌↔◌, true, arith}
use fdu_os.Util.{overlap, max2}

-- `a` lies in the `len` values from `st` on.
abbrev pub Within : ℕ → ℕ → ℕ → Type 0
Within a st len = (st ≤ a) × (a < st + len)

module _ (w st1 len1 st2 len2 : ℕ) (p1 : 0 < len1) (p2 : 0 < len2) (h1 : st1 + len1 < 2 ^ w)
    (h2 : st2 + len2 < 2 ^ w) where
  -- The later start is the point in common.
  overlap_sound :
      overlap w st1 len1 st2 len2 ≡ true
      → (st1 ≢ st2) × Within (max2 st1 st2) st1 len1 × Within (max2 st1 st2) st2 len2
  unfolding overlap max2
  overlap_sound = ground (arith, mod-eq_of_lt h1, mod-eq_of_lt h2)

  overlap_complete :
      (a : ℕ)
      → st1 ≢ st2
      → Within a st1 len1
      → Within a st2 len2
      → overlap w st1 len1 st2 len2 ≡ true
  unfolding overlap
  overlap_complete a = ground (arith, mod-eq_of_lt h1, mod-eq_of_lt h2)

  -- For two intervals that are not empty and do not run past the end of the type, OVERLAP holds
  -- exactly when they share a point and start at different points.
  pub overlap_iff :
      (overlap w st1 len1 st2 len2 ≡ true)
      ↔ ((st1 ≢ st2) × ((a : ℕ) × Within a st1 len1 × Within a st2 len2))
  overlap_iff = (
    λ h. ((overlap_sound h).0, (max2 st1 st2, (overlap_sound h).1, (overlap_sound h).2)),
    λ c. overlap_complete (c.1.0) c.0 c.1.1 c.1.2,
  )
