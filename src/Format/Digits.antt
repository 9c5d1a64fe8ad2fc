-- ===== src/Format/Digits.antt =====
-- The digits of a number: they stand for it, the buffer `buf[25]` holds them, and what is printed
-- can be read back.
use native.Mathlib.Nat.{div-add-mod, mod-lt, mul-le-mul_right, pow-suc}
use fdu_os.Common.{
  ℕ, zero, suc, ◌+◌, ◌-◌, ◌*◌, ◌/◌, ◌%◌, ◌^◌, ◌≤◌, ◌<◌, ◌≡◌, ◌⊎◌, refl, false, ◌==◌, leb,
  if◌then◌else◌, Bool-cases, inl, inr, List, [], ◌∷◌, length, All, arith,
}
use fdu_os.Format.{digit, digits_loop, digits_of}

-- The digit that a character stands for, and the number that digits stand for, the last digit
-- first.
abbrev pub char_value : ℕ → ℕ
char_value c = if leb c 57 then c - 48 else c - 87

abbrev pub value : ℕ → List ℕ → ℕ
value base [] = 0
value base (c ∷ cs) = char_value c + base * value base cs

-- The list is one to 22 bytes that stand for the number.
abbrev pub IsNumeral : ℕ → ℕ → List ℕ → Type 0
IsNumeral base uval ds =
    (value base ds ≡ uval) × All (λ c. c < 2 ^ 8) ds × (1 ≤ length ds) × (length ds ≤ 22)

-- The number that the `n` characters from `i` on stand for, after `acc`.
abbrev pub parse : ℕ → ℕ → (ℕ → ℕ) → ℕ → ℕ → ℕ
parse base acc text i zero = acc
parse base acc text i (suc n) = parse base (acc * base + char_value (text i)) text (i + 1) n

-- A character `0` to `9` or `a` to `f` that is a digit in the base
pub record IsDigit (base c : ℕ) : Type 0 where
  pub range : ((48 ≤ c) × (c ≤ 57)) ⊎ ((97 ≤ c) × (c ≤ 102))
  pub small : char_value c < base

-- The element of the buffer, and its last one
abbrev pub element : List ℕ → ℕ → ℕ
element [] i = 0
element (c ∷ cs) zero = c
element (c ∷ cs) (suc i) = element cs i

abbrev pub last_of : List ℕ → ℕ
last_of [] = 0
last_of (c ∷ []) = c
last_of (c ∷ d ∷ ds) = last_of (d ∷ ds)

pub element-last_of : (ds : List ℕ) → element ds (length ds - 1) ≡ last_of ds
element-last_of [] = refl
element-last_of (c ∷ []) = refl
element-last_of (c ∷ d ∷ ds) =
    let e : length (c ∷ d ∷ ds) - 1 ≡ suc (length (d ∷ ds) - 1) = omega arith in
    rw e (element-last_of (d ∷ ds))

last_of-cons : (c : ℕ) (ds : List ℕ) → 48 < last_of ds → 48 < last_of (c ∷ ds)
last_of-cons c [] h = absurd (omega arith)
last_of-cons c (d ∷ ds) h = h

pub All-element :
    (P : ℕ → Type 0) (ds : List ℕ) (i : ℕ) → All P ds → i < length ds → P (element ds i)
All-element P [] i h lt = absurd (omega arith)
All-element P (c ∷ cs) zero h lt = h.0
All-element P (c ∷ cs) (suc i) h lt = All-element P cs i h.1 (omega arith)

digit-IsDigit : (base x : ℕ) → x < base → base ≤ 16 → IsDigit base (digit x)
unfolding digit
digit-IsDigit base x lt sixteen = elim (Bool-cases (leb x 9)) [
  | inl small ↦ rw small (record { range = inl (omega arith, ground arith); small = ground arith })
  | inr large ↦ rw large (record { range = inr (ground arith, omega arith); small = ground arith })
]

digit-value : (x : ℕ) → x < 16 → (char_value (digit x) ≡ x) × (digit x < 2 ^ 8)
unfolding digit
digit-value x lt = elim (Bool-cases (leb x 9)) [
  | inl small ↦ rw small (ground arith, ground arith)
  | inr large ↦ rw large (ground arith, ground arith)
]

module _ (base : ℕ) (two : 8 ≤ base) (sixteen : base ≤ 16) where
  smaller : (uval k : ℕ) → uval < 8 * k → uval / base < k
  smaller uval k lt =
      let more : 8 * (uval / base) ≤ base * (uval / base) = mul-le-mul_right (uval / base) two in
      omega (arith, div-add-mod uval base, more)

  remainder : (uval : ℕ) → uval % base < 16
  remainder uval = let pos : 0 < base = omega arith in omega (arith, mod-lt uval pos)

  value-digits_loop :
      (fuel uval : ℕ) → uval < 8 ^ fuel → value base (digits_loop fuel base uval) ≡ uval
  unfolding digits_loop
  value-digits_loop zero uval lt = omega arith
  value-digits_loop (suc fuel) uval lt =
      let rest =
        value-digits_loop fuel (uval / base)
          (smaller uval (8 ^ fuel) (omega (arith, pow-suc 8 fuel))) in
      let (same, small) = digit-value (uval % base) (remainder uval) in
      elim (Bool-cases (uval == 0)) [
        | inl e ↦ rw e (ground arith)
        | inr ne ↦ rw (ne, same, rest) (omega (arith, div-add-mod uval base))
      ]

  digits_loop-length : (fuel uval k : ℕ) → uval < 8 ^ k → length (digits_loop fuel base uval) ≤ k
  unfolding digits_loop
  digits_loop-length zero uval k lt = omega arith
  digits_loop-length (suc fuel) uval zero lt = let e : uval ≡ 0 = omega arith in rw e (omega arith)
  digits_loop-length (suc fuel) uval (suc k) lt =
      let fewer =
        digits_loop-length fuel (uval / base) k
          (smaller uval (8 ^ k) (omega (arith, pow-suc 8 k))) in
      elim (Bool-cases (uval == 0)) [
        | inl e ↦ rw e (omega arith)
        | inr ne ↦ rw ne (omega (arith, fewer))
      ]

  digits_loop_bytes : (fuel uval : ℕ) → All (λ c. c < 2 ^ 8) (digits_loop fuel base uval)
  unfolding digits_loop
  digits_loop_bytes zero uval = tt
  digits_loop_bytes (suc fuel) uval = elim (Bool-cases (uval == 0)) [
    | inl e ↦ rw e tt
    | inr ne ↦
        let (same, small) = digit-value (uval % base) (remainder uval) in
        rw ne (small, digits_loop_bytes fuel (uval / base))
  ]

  digits_loop-IsDigit : (fuel uval : ℕ) → All (IsDigit base) (digits_loop fuel base uval)
  unfolding digits_loop
  digits_loop-IsDigit zero uval = tt
  digits_loop-IsDigit (suc fuel) uval =
      let positive : 0 < base = omega arith in
      elim (Bool-cases (uval == 0)) [
        | inl e ↦ rw e tt
        | inr ne ↦ rw ne (
          digit-IsDigit base (uval % base) (mod-lt uval positive) sixteen,
          digits_loop-IsDigit fuel (uval / base),
        )
      ]

  digits_loop-zero : (fuel : ℕ) → digits_loop fuel base 0 ≡ []
  unfolding digits_loop
  digits_loop-zero zero = refl
  digits_loop-zero (suc fuel) = refl

  digit_positive : (x : ℕ) → 0 < x → 48 < digit x
  unfolding digit
  digit_positive x positive = ground arith

  -- The first digit that is printed is not 0.
  last_of-digits_loop :
      (fuel uval : ℕ) → uval < 8 ^ fuel → 0 < uval → 48 < last_of (digits_loop fuel base uval)
  unfolding digits_loop
  last_of-digits_loop zero uval lt positive = absurd (omega arith)
  last_of-digits_loop (suc fuel) uval lt positive =
      let ne : (uval == 0) ≡ false = ground arith in
      let split = div-add-mod uval base in
      elim (Bool-cases (uval / base == 0)) [
        | inl one ↦
            let e : uval / base ≡ 0 = ground arith in
            let z : base * (uval / base) ≡ 0 = rw e (omega arith) in
            rw (ne, e, digits_loop-zero fuel)
              (digit_positive (uval % base) (omega (arith, split, z)))
        | inr more ↦ rw ne (
            last_of-cons (digit (uval % base)) (digits_loop fuel base (uval / base)) (
              last_of-digits_loop fuel (uval / base)
                (smaller uval (8 ^ fuel) (omega (arith, pow-suc 8 fuel))) (ground arith)))
      ]

  module _ (uval : ℕ) (lt : uval < 2 ^ 64) where
    IsDigit-pick :
        (ds : List ℕ)
        → All (IsDigit base) ds
        → (0 < uval → 48 < last_of ds)
        → All (IsDigit base) (if uval == 0 then 48 ∷ [] else ds)
          × ((length (if uval == 0 then 48 ∷ [] else ds) ≡ 1)
              ⊎ (48 < last_of (if uval == 0 then 48 ∷ [] else ds)))
    IsDigit-pick ds digits first = elim (Bool-cases (uval == 0)) [
      | inl e ↦
          let zero_digit : IsDigit base 48 = record {
            range = inl (omega arith, omega arith);
            small = omega arith;
          } in
          rw e ((zero_digit, tt), inl refl)
      | inr ne ↦ rw ne (digits, inr (first (ground arith)))
    ]

    -- The characters are digits, and the first one is not 0 where there are more than one.
    pub digits_of-IsDigit :
        All (IsDigit base) (digits_of base uval)
        × ((length (digits_of base uval) ≡ 1) ⊎ (48 < last_of (digits_of base uval)))
    unfolding digits_of
    digits_of-IsDigit =
        IsDigit-pick (digits_loop 64 base uval) (digits_loop-IsDigit 64 uval)
          (last_of-digits_loop 64 uval (omega arith))

    nonempty : (ds : List ℕ) → 0 < value base ds → 1 ≤ length ds
    nonempty [] some_value = absurd (omega arith)
    nonempty (c ∷ cs) some_value = omega arith

    digits_pick :
        (ds : List ℕ)
        → value base ds ≡ uval
        → All (λ c. c < 2 ^ 8) ds
        → length ds ≤ 22
        → IsNumeral base uval (if uval == 0 then 48 ∷ [] else ds)
    digits_pick ds same bytes short = elim (Bool-cases (uval == 0)) [
      | inl e ↦
          let z : uval ≡ 0 = ground arith in
          rw e (omega (arith, z), (omega arith, tt), omega arith, omega arith)
      | inr ne ↦ rw ne (same, bytes, nonempty ds (ground (arith, same)), short)
    ]

    -- For a base from 8 to 16 and a number below 2^64: the characters in `buf`, the last digit
    -- first, stand for the number in this base, each is a byte, and there are 1 to 22 of them.
    pub digits_of_lem : IsNumeral base uval (digits_of base uval)
    unfolding digits_of
    digits_of_lem =
        digits_pick (digits_loop 64 base uval) (value-digits_loop 64 uval (omega arith))
          (digits_loop_bytes 64 uval) (digits_loop-length 64 uval 22 (omega arith))
