-- ===== src/Buddy/Shifts.antt =====
-- The index macros of buddy.c on a block aligned to its size, as arithmetic: the blocks of order
-- `k` come in pairs, and the two blocks of a pair are each other's buddies.
use native.Mathlib.Nat.{
  pow-suc, mul-mod_left, mul-add-mod_self_right, mod-eq_of_lt, div-add-mod, one-le-pow,
  add-mod_right, mod-eq-sub-mod, mod-mod_of_dvd, zero-mod, dvd-mul_right, mul-le-mul_right,
}
use Prim.Native.Nat.{◌∣◌, bit_and}
use native.Mathlib.Decide.{dec_lt}
use fdu_os.Common.{
  ℕ, suc, refl, sym, ◌+◌, ◌-◌, ◌*◌, ◌/◌, ◌%◌, ◌^◌, ◌≤◌, ◌<◌, ◌≡◌, ◌≢◌, ◌∙◌, ap, arith, Bool-cases,
  ◌==◌, inl, inr,
}
use fdu_os.Common.Bits.Powers.{flip_even, flip_odd, set_even, clear_bit, pow-add}
use fdu_os.Buddy.{get_buddy, get_low_index, get_high_index}

-- The `q`-th pair of blocks of order `k`: the block in it is the first at `d = 0`, the second at
-- `d = 1`.
pub record Half (k i q d : ℕ) : Type 0 where
  pub which : d < 2
  pub place : i ≡ (2 * q + d) * 2 ^ k
  pub rest : i % 2 ^ suc k ≡ d * 2 ^ k

module _ (k q : ℕ) where
  double : q * 2 ^ suc k ≡ 2 * q * 2 ^ k
  double = omega (arith, ap (λ (t : ℕ). q * t) (pow-suc 2 k))

  Half-first : (i : ℕ) → i ≡ 2 * q * 2 ^ k → Half k i q 0
  Half-first i e = record {
    which = omega arith;
    place = omega arith;
    rest = rw (e, ← double) (mul-mod_left q (2 ^ suc k) ∙ omega arith);
  }

  Half-second : (i : ℕ) → i ≡ (2 * q + 1) * 2 ^ k → Half k i q 1
  Half-second i e =
      let split : (2 * q + 1) * 2 ^ k ≡ q * 2 ^ suc k + 2 ^ k = omega (arith, double) in
      record {
        which = omega arith;
        place = e;
        rest =
            rw (e, split)
              (mul-add-mod_self_right q (2 ^ suc k) (2 ^ k)
                ∙ mod-eq_of_lt (omega (arith, pow-suc 2 k, one-le-pow k 2))
                ∙ omega arith);
      }

pub halves : (k i : ℕ) → i % 2 ^ k ≡ 0 → (q : ℕ) × (d : ℕ) × Half k i q d
halves k i h =
    let a : ℕ = i / 2 ^ k in
    let e : i ≡ a * 2 ^ k = omega (arith, div-add-mod i (2 ^ k)) in
    elim (Bool-cases (a % 2 == 0)) [
      | inl even ↦
          let f : a ≡ 2 * (a / 2) = ground arith in
          (a / 2, 0, Half-first k (a / 2) i (e ∙ ap (λ t. t * 2 ^ k) f))
      | inr odd ↦
          let f : a ≡ 2 * (a / 2) + 1 = ground arith in
          (a / 2, 1, Half-second k (a / 2) i (e ∙ ap (λ t. t * 2 ^ k) f))
    ]

-- What the macros give at the first block of a pair, and at the second.
module _ (k i : ℕ) (aligned : i % 2 ^ k ≡ 0) where
  module _ (first : i % 2 ^ suc k ≡ 0) where
    first_place : (q : ℕ) × (i ≡ 2 * q * 2 ^ k)
    first_place =
        let (q, d, h) = halves k i aligned in
        let none_left : d ≡ 0 = ground (arith, one-le-pow k 2, h.which, h.rest, first) in
        (q, rw none_left at h.place ∙ ap (λ t. t * 2 ^ k) (omega arith))

    pub get_buddy-first : get_buddy i k ≡ i + 2 ^ k
    unfolding get_buddy
    get_buddy-first = let (q, e) = first_place in rw e (flip_even k q ∙ omega arith)

    pub get_high_index-first : get_high_index i k ≡ i + 2 ^ k
    unfolding get_high_index
    get_high_index-first = let (q, e) = first_place in rw e (set_even k q ∙ omega arith)

  module _ (second : i % 2 ^ suc k ≢ 0) where
    second_place : (q : ℕ) × (i ≡ (2 * q + 1) * 2 ^ k)
    second_place =
        let (q, d, h) = halves k i aligned in
        let not_zero : d ≢ 0 = λ z. second (rw z at h.rest ∙ omega arith) in
        let not_first : d ≡ 1 = omega (arith, h.which) in (q, rw not_first at h.place)

    pub le_of_second : 2 ^ k ≤ i
    le_of_second = let (q, e) = second_place in omega arith

    pub rest-second : i % 2 ^ suc k ≡ 2 ^ k
    rest-second = let (q, e) = second_place in (Half-second k q i e).rest ∙ omega arith

    pub get_buddy-second : get_buddy i k ≡ i - 2 ^ k
    unfolding get_buddy
    get_buddy-second = let (q, e) = second_place in rw e (flip_odd k q ∙ omega arith)

    -- The first block of the pair is aligned to the pair's size.
    pub aligned_pair : (i - 2 ^ k) % 2 ^ suc k ≡ 0
    aligned_pair =
        let (q, e) = second_place in
        let f : i - 2 ^ k ≡ 2 * q * 2 ^ k = omega arith in
        rw f ((Half-first k q (2 * q * 2 ^ k) refl).rest ∙ omega arith)

-- Within 32 bits, clearing the bit gives the first block of the pair.
module _ (k v i : ℕ) (aligned : i % 2 ^ k ≡ 0) (small : i < 2 ^ (k + suc v)) where
  quotient_small : (q : ℕ) → 2 * q * 2 ^ k ≤ i → q < 2 ^ v
  quotient_small q le = elim (dec_lt q (2 ^ v)) [
    | yes h ↦ h
    | no h ↦
        let p : 2 ^ v ≤ q = omega arith in
        absurd (
          omega (
            arith,
            pow-add k (suc v),
            ap (λ (t : ℕ). 2 ^ k * t) (pow-suc 2 v),
            mul-le-mul_right (2 ^ k) p,
          ))
  ]

  clear_pair : bit_and i (2 ^ (k + suc v) - 1 - 2 ^ k) ≡ i - i % 2 ^ suc k
  clear_pair =
      let (q, d, h) = halves k i aligned in
      ground (
        arith,
        h.which,
        h.place,
        h.rest,
        clear_bit k v q (quotient_small q (omega (arith, h.place))) d,
      )

pub get_low_index_lem :
    (k i : ℕ) → i % 2 ^ k ≡ 0 → k < 32 → i < 2 ^ 32 → get_low_index i k ≡ i - i % 2 ^ suc k
unfolding get_low_index
get_low_index_lem k i aligned bits small =
    let e : k + suc (31 - k) ≡ 32 = omega arith in
    rw e at (clear_pair k (31 - k) i aligned (rw e small))

-- A multiple of a larger power of two is one of a smaller.
pub aligned-le : (k m i : ℕ) → k ≤ m → i % 2 ^ m ≡ 0 → i % 2 ^ k ≡ 0
aligned-le k m i le h =
    let e : m ≡ k + (m - k) = omega arith in
    let d : 2 ^ k ∣ 2 ^ m = rw e (rw pow-add (dvd-mul_right (2 ^ k) (2 ^ (m - k)))) in
    sym (mod-mod_of_dvd (2 ^ k) i d) ∙ ap (λ t. t % 2 ^ k) h ∙ zero-mod (2 ^ k)

pub aligned-add : (k i : ℕ) → i % 2 ^ k ≡ 0 → (i + 2 ^ k) % 2 ^ k ≡ 0
aligned-add k i h = add-mod_right i (2 ^ k) ∙ h

pub aligned-sub : (k i : ℕ) → 2 ^ k ≤ i → i % 2 ^ k ≡ 0 → (i - 2 ^ k) % 2 ^ k ≡ 0
aligned-sub k i le h = sym (mod-eq-sub-mod le) ∙ h

-- Two different multiples are at least the power apart.
pub aligned_gap : (k i j : ℕ) → i % 2 ^ k ≡ 0 → j % 2 ^ k ≡ 0 → i < j → i + 2 ^ k ≤ j
aligned_gap k i j hi hj lt = grind (arith, div-add-mod i (2 ^ k), div-add-mod j (2 ^ k))
