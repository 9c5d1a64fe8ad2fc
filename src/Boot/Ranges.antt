-- ===== src/Boot/Ranges.antt =====
-- Ranges of addresses in memory, and what is outside them: the first address and the number of them.
use fdu_os.Common.{ℕ, ◌+◌, ◌≤◌, ◌<◌, ◌⊎◌, inl, inr, List, [], ◌∷◌, All, arith}

-- The address is none of the `n` from `lo` on; and no address of one range is in the other.
abbrev pub IsOutside : ℕ → ℕ → ℕ → Type 0
IsOutside a lo n = (a < lo) ⊎ (lo + n ≤ a)

abbrev pub AreApart : ℕ → ℕ → ℕ → ℕ → Type 0
AreApart a n b k = (a + n ≤ b) ⊎ (b + k ≤ a)

-- The address, or the `n` from `buf` on, are in none of the ranges; and the ranges are apart.
abbrev pub IsFree : List (ℕ × ℕ) → ℕ → Type 0
IsFree rs a = All (λ r. IsOutside a r.0 r.1) rs

abbrev pub IsClear : List (ℕ × ℕ) → ℕ → ℕ → Type 0
IsClear rs buf n = All (λ r. AreApart buf n r.0 r.1) rs

abbrev pub AllClear : List (ℕ × ℕ) → Type 0
AllClear [] = Unit
AllClear (r ∷ rs) = IsClear rs r.0 r.1 × AllClear rs

pub IsClear-at :
    (rs : List (ℕ × ℕ)) (buf n a : ℕ) → buf ≤ a → a < buf + n → IsClear rs buf n → IsFree rs a
IsClear-at [] buf n a le lt h = tt
IsClear-at (r ∷ rs) buf n a le lt (off, h) = (
  elim off [ inl b ↦ inl (omega arith) | inr b ↦ inr (omega arith) ],
  IsClear-at rs buf n a le lt h,
)

pub IsClear-part :
    (rs : List (ℕ × ℕ)) (buf n b k : ℕ)
    → buf ≤ b
    → b + k ≤ buf + n
    → IsClear rs buf n
    → IsClear rs b k
IsClear-part [] buf n b k le lt h = tt
IsClear-part (r ∷ rs) buf n b k le lt (off, h) = (
  elim off [ inl x ↦ inl (omega arith) | inr x ↦ inr (omega arith) ],
  IsClear-part rs buf n b k le lt h,
)

-- The `k`-th of the second range is not in the first.
pub other_side : (a n b c k : ℕ) → AreApart a n b c → k < c → IsOutside (b + k) a n
other_side a n b c k (inl below) lt = inr (omega arith)
other_side a n b c k (inr above) lt = inl (omega arith)
