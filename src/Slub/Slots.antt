-- ===== src/Slub/Slots.antt =====
-- The slots of a block: they lie behind its header, within it, and apart from each other.
use native.Mathlib.Nat.{one-le-pow, mul-le-mul_left}
use fdu_os.Common.{
  ℕ, zero, suc, ◌+◌, ◌-◌, ◌*◌, ◌^◌, ◌≤◌, ◌<◌, ◌≡◌, refl, ◌≢◌, inl, inr, List, some, ltb, ltb→le,
  le→ltb, ltb→lt, ap, false, arith, Bool-cases, ◌==◌,
}
use fdu_os.Common.Words.{add32, mul32}
use fdu_os.Util.{align_above}
use fdu_os.Buddy.Tiles.{count}
use fdu_os.Bridge.Pieces.{AreApart}
use fdu_os.Slub.{add_solts, calc_maxsolts, solts_offset, level_for, list_empty}

module _ (base size : ℕ) (positive : 0 < size) where
  solt-exact :
      (i n : ℕ) → i < n → base + size * n ≤ 2 ^ 32 → add32 base (mul32 size i) ≡ base + size * i
  solt-exact i n lt fits = let le : size * suc i ≤ size * n = mul-le-mul_left size lt in omega arith

  pub solt_index :
      (n p : ℕ)
      → base + size * n ≤ 2 ^ 32
      → 0 < count p (add_solts n base size)
      → (i : ℕ) × (i < n) × (p ≡ base + size * i)
  unfolding count add_solts
  solt_index zero p fits h = absurd (omega arith)
  solt_index (suc n) p fits h =
      let e : add32 base (mul32 size n) ≡ base + size * n =
        solt-exact n (suc n) (omega arith) fits in
      elim (Bool-cases (add32 base (mul32 size n) == p)) [
        | inl here ↦ (n, omega arith, ground (arith, e))
        | inr other ↦
            let (i, lt, at) = solt_index n p (omega arith) (ground arith) in (i, omega arith, at)
      ]

  pub solts_once : (n p : ℕ) → base + size * n ≤ 2 ^ 32 → count p (add_solts n base size) ≤ 1
  unfolding count add_solts
  solts_once zero p fits = omega arith
  solts_once (suc n) p fits =
      let e : add32 base (mul32 size n) ≡ base + size * n =
        solt-exact n (suc n) (omega arith) fits in
      elim (Bool-cases (ltb 0 (count p (add_solts n base size)))) [
        | inr gone ↦ ground arith
        | inl there ↦
            let (i, lt, at) = solt_index n p (omega arith) (ground arith) in
            let le : size * suc i ≤ size * n = mul-le-mul_left size lt in
            ground (arith, e, solts_once n p)
      ]

pos-suc : (n : ℕ) → 0 < n → (m : ℕ) × (n ≡ suc m)
pos-suc n h = (n - 1, omega arith)

-- The slots of a level fit the block behind its header, and there is one.
pub record Fits (level : ℕ) : Type 0 where
  pub behind_header : 20 ≤ solts_offset level
  pub within : solts_offset level + 2 ^ level * calc_maxsolts level ≤ 4096
  pub some_solt : 0 < calc_maxsolts level

-- A property of the seven indices of levels.
below_seven : (P : ℕ → Type 0) → P 0 → P 1 → P 2 → P 3 → P 4 → P 5 → P 6 → (i : ℕ) → i < 7 → P i
below_seven P a b c d e f g zero h = a
below_seven P a b c d e f g (suc zero) h = b
below_seven P a b c d e f g (suc (suc zero)) h = c
below_seven P a b c d e f g (suc (suc (suc zero))) h = d
below_seven P a b c d e f g (suc (suc (suc (suc zero)))) h = e
below_seven P a b c d e f g (suc (suc (suc (suc (suc zero))))) h = f
below_seven P a b c d e f g (suc (suc (suc (suc (suc (suc zero)))))) h = g
below_seven P a b c d e f g (suc (suc (suc (suc (suc (suc (suc i))))))) h = absurd (omega arith)

pub level_Fits : (i : ℕ) → i < 7 → Fits (i + 4)
unfolding solts_offset calc_maxsolts align_above
level_Fits =
    below_seven (λ i. Fits (i + 4))
      (record { behind_header = omega arith; within = omega arith; some_solt = omega arith })
      (record { behind_header = omega arith; within = omega arith; some_solt = omega arith })
      (record { behind_header = omega arith; within = omega arith; some_solt = omega arith })
      (record { behind_header = omega arith; within = omega arith; some_solt = omega arith })
      (record { behind_header = omega arith; within = omega arith; some_solt = omega arith })
      (record { behind_header = omega arith; within = omega arith; some_solt = omega arith })
      (record { behind_header = omega arith; within = omega arith; some_solt = omega arith })

-- The loop of `malloc` ends at the first level from the given one on whose objects are large enough.
pub level_for_lem :
    (fuel level size : ℕ)
    → size ≤ 2 ^ (level + fuel)
    → (l : ℕ) × (level_for (suc fuel) level size ≡ some l)
      × (size ≤ 2 ^ l)
      × (level ≤ l)
      × (level < l → 0 < size)
unfolding level_for
level_for_lem zero level size fits =
    let same : level + 0 ≡ level = omega arith in
    let e : ltb (2 ^ level) size ≡ false = le→ltb (2 ^ level) size (rw same at fits) in
    (level, rw e refl, rw same at fits, omega arith, λ more. absurd (omega arith))
level_for_lem (suc fuel) level size fits = elim (Bool-cases (ltb (2 ^ level) size)) [
  | inr large ↦ (
    level,
    rw large refl,
    ltb→le (2 ^ level) size large,
    omega arith,
    λ more. absurd (omega arith),
  )
  | inl short ↦
      let next : level + suc fuel ≡ level + 1 + fuel = omega arith in
      let (l, e, le, from, _) = level_for_lem fuel (level + 1) size (rw next at fits) in
      (l, rw short e, le, omega (arith, from), λ more. omega (arith, ltb→lt (2 ^ level) size short))
]

-- The slots of the block at `b` of a given index of levels.
abbrev pub solts_of : ℕ → ℕ → List ℕ
solts_of i b = add_solts (calc_maxsolts (i + 4)) (add32 b (solts_offset (i + 4))) (2 ^ (i + 4))

module _ (i b : ℕ) (lt : i < 7) (fits : b + 4096 ≤ 2 ^ 32) where
  size_pos : 0 < 2 ^ (i + 4)
  size_pos = one-le-pow (i + 4) 2 (omega arith)

  level_room : solts_offset (i + 4) < 4096
  level_room =
      let f = level_Fits i lt in
      omega (arith, f.within, size_pos, mul-le-mul_left (2 ^ (i + 4)) f.some_solt)

  base_exact : add32 b (solts_offset (i + 4)) ≡ b + solts_offset (i + 4)
  base_exact = omega (arith, level_room)

  room : add32 b (solts_offset (i + 4)) + 2 ^ (i + 4) * calc_maxsolts (i + 4) ≤ 2 ^ 32
  room = omega (arith, base_exact, (level_Fits i lt).within)

  at_index :
      (p : ℕ)
      → 0 < count p (solts_of i b)
      → (j : ℕ) × (j < calc_maxsolts (i + 4)) × (p ≡ b + solts_offset (i + 4) + 2 ^ (i + 4) * j)
  at_index p h =
      let (j, le, e) =
        solt_index (add32 b (solts_offset (i + 4))) (2 ^ (i + 4)) size_pos (calc_maxsolts (i + 4)) p
          room h in
      (j, le, omega (arith, e, base_exact))

  pub solt_once : (p : ℕ) → count p (solts_of i b) ≤ 1
  solt_once p =
      solts_once (add32 b (solts_offset (i + 4))) (2 ^ (i + 4)) size_pos (calc_maxsolts (i + 4)) p
        room

  -- A slot lies behind the header and ends within the block.
  pub solt_within :
      (p : ℕ) → 0 < count p (solts_of i b) → (b + 20 ≤ p) × (p + 2 ^ (i + 4) ≤ b + 4096)
  solt_within p h =
      let (j, less, e) = at_index p h in
      let le : 2 ^ (i + 4) * suc j ≤ 2 ^ (i + 4) * calc_maxsolts (i + 4) =
        mul-le-mul_left (2 ^ (i + 4)) less in
      let f = level_Fits i lt in (omega (arith, f.behind_header), omega (arith, f.within))

  pub solts_apart :
      (p q : ℕ)
      → 0 < count p (solts_of i b)
      → 0 < count q (solts_of i b)
      → p ≢ q
      → AreApart p (2 ^ (i + 4)) q (2 ^ (i + 4))
  solts_apart p q hp hq ne =
      let (j, _, e) = at_index p hp in
      let (k, _, f) = at_index q hq in
      elim (Bool-cases (ltb j k)) [
        | inl less ↦
            let le : 2 ^ (i + 4) * suc j ≤ 2 ^ (i + 4) * k =
              mul-le-mul_left (2 ^ (i + 4)) (ltb→lt j k less) in
            inl (omega arith)
        | inr more ↦ elim (Bool-cases (ltb k j)) [
          | inl less ↦
              let le : 2 ^ (i + 4) * suc k ≤ 2 ^ (i + 4) * j =
                mul-le-mul_left (2 ^ (i + 4)) (ltb→lt k j less) in
              inr (omega arith)
          | inr not_less ↦
              let same : j ≡ k = ground arith in
              absurd (ne (omega (arith, ap (λ z. 2 ^ (i + 4) * z) same)))
        ]
      ]

  pub solts_not_empty : list_empty (solts_of i b) ≡ false
  unfolding add_solts
  solts_not_empty =
      let (n, e) = pos-suc (calc_maxsolts (i + 4)) (level_Fits i lt).some_solt in rw e refl
