-- ===== src/BootPrint/Numbers.antt =====
-- What `write_uint` writes can be read back.
use native.Mathlib.Nat.{div-add-mod, mod-lt, mul-le-mul_left, pow-suc, pow-zero}
use fdu_os.Common.{
  ℕ, zero, suc, ◌+◌, ◌-◌, ◌*◌, ◌/◌, ◌%◌, ◌^◌, ◌≤◌, ◌<◌, ◌≡◌, ◌⊎◌, inl, inr, refl, ap, ◌∙◌, ltb,
  ◌==◌, Bool-cases, ==→eq, true, false, if◌then◌else◌, List, [], ◌∷◌, ◌++◌, length, arith,
}
use fdu_os.BootPrint.{digits, element, write_digits, dict, write_buf, write_uint}

-- The digit that a character stands for, and the number that characters stand for, after `acc`.
abbrev pub char_value : ℕ → ℕ
char_value c = if ltb c 58 then c - 48 else c - 87

abbrev pub read : ℕ → ℕ → List ℕ → ℕ
read r acc [] = acc
read r acc (c ∷ cs) = read r (acc * r + char_value c) cs

read-append :
    (r acc : ℕ) (xs : List ℕ) (c : ℕ)
    → read r acc (xs ++ (c ∷ [])) ≡ read r acc xs * r + char_value c
read-append r acc [] c = refl
read-append r acc (x ∷ xs) c = read-append r (acc * r + char_value x) xs c

char_value-dict : (d : ℕ) → d < 16 → char_value (dict d) ≡ d
unfolding dict
char_value-dict d lt = ground arith

abbrev tail : List ℕ → List ℕ
tail [] = []
tail (d ∷ ds) = ds

element-tail : (buf : List ℕ) (p : ℕ) → element buf (suc p) ≡ element (tail buf) p
element-tail [] p = refl
element-tail (d ∷ ds) p = refl

-- The last digit that is written is the first of the array.
write_digits_last :
    (p : ℕ) (buf : List ℕ)
    → write_digits (suc p) buf ≡ write_digits p (tail buf) ++ (dict (element buf 0) ∷ [])
unfolding write_digits
write_digits_last zero buf = refl
write_digits_last (suc p) buf =
    rw (element-tail buf p) (ap (λ xs. dict (element (tail buf) p) ∷ xs) (write_digits_last p buf))

write_digits-length : (p : ℕ) (buf : List ℕ) → length (write_digits p buf) ≡ p
unfolding write_digits
write_digits-length zero buf = refl
write_digits-length (suc p) buf = omega (arith, write_digits-length p buf)

module _ (r : ℕ) (two : 2 ≤ r) (sixteen : r ≤ 16) where
  read_zeros : (p : ℕ) → read r 0 (write_digits p []) ≡ 0
  unfolding write_digits dict
  read_zeros zero = refl
  read_zeros (suc p) =
      let e : 0 * r + 0 ≡ 0 = omega arith in ap (λ x. read r x (write_digits p [])) e ∙ read_zeros p

  smaller : (u k : ℕ) → u < r * k → u / r < k
  smaller u k lt = elim (Bool-cases (ltb (u / r) k)) [
    | inl less ↦ ground arith
    | inr more ↦
        let le : k ≤ u / r = ground arith in
        absurd (omega (arith, div-add-mod u r, mul-le-mul_left r le))
  ]

  -- The digits of a number, written in at least as many places.
  read-write_digits :
      (p room u : ℕ) → u < r ^ p → p ≤ room → read r 0 (write_digits p (digits room r u)) ≡ u
  unfolding write_digits digits
  read-write_digits zero room u lt le = omega (arith, pow-zero r)
  read-write_digits (suc p) zero u lt le = absurd (omega arith)
  read-write_digits (suc p) (suc room) u lt le =
      let small = mod-lt u {m = r} (omega arith) in
      let fewer : u / r < r ^ p = smaller u (r ^ p) (omega (arith, pow-suc r p)) in
      let last : char_value (dict (u % r)) ≡ u % r = char_value-dict (u % r) (omega arith) in
      rw (write_digits_last p (digits (suc room) r u)) (
        read-append r 0 (write_digits p (tail (digits (suc room) r u))) _
        ∙ rw last (elim (Bool-cases (u / r == 0)) [
          | inl done ↦
              let rz : r * (u / r) ≡ 0 = ap (λ x. r * x) (==→eq (u / r) 0 done) ∙ omega arith in
              let zr : read r 0 (write_digits p []) * r ≡ 0 =
                ap (λ x. x * r) (read_zeros p) ∙ omega arith in
              rw done (omega (arith, zr, rz, div-add-mod u r))
          | inr more ↦ rw more (
              omega (
                arith,
                ap (λ x. x * r) (read-write_digits p room (u / r) fewer (omega arith)),
                div-add-mod u r,
              ))
        ]))

  digits-length :
      (room u : ℕ)
      → u < r ^ room
      → (u < r ^ length (digits room r u)) × (length (digits room r u) ≤ room)
  unfolding digits
  digits-length zero u lt = (lt, omega arith)
  digits-length (suc room) u lt =
      let small = mod-lt u {m = r} (omega arith) in
      let fewer : u / r < r ^ room = smaller u (r ^ room) (omega (arith, pow-suc r room)) in
      elim (Bool-cases (u / r == 0)) [
        | inl none ↦
            let rz : r * (u / r) ≡ 0 = ap (λ x. r * x) (==→eq (u / r) 0 none) ∙ omega arith in
            let pow_one : r ^ 1 ≡ r = omega (arith, rw (pow-zero r) at (pow-suc r 0)) in
            rw none (omega (arith, rz, pow_one, small, div-add-mod u r), omega arith)
        | inr more ↦
            let (lt', le) = digits-length room (u / r) fewer in
            rw more (
              omega (
                arith,
                pow-suc r (length (digits room r (u / r))),
                mul-le-mul_left r lt',
                div-add-mod u r,
              ),
              omega arith,
            )
      ]

-- There are no more digits than the size of the number asks for.
digits-short :
    (r : ℕ) → 2 ≤ r → r ≤ 16 → (room k u : ℕ) → u < r ^ suc k → length (digits room r u) ≤ suc k
unfolding digits
digits-short r two sixteen zero k u lt = omega arith
digits-short r two sixteen (suc room) zero u lt =
    let fewer : u / r < r ^ 0 = smaller r two sixteen u (r ^ 0) (omega (arith, pow-suc r 0)) in
    let none : (u / r == 0) ≡ true = ground (arith, fewer, pow-zero r) in rw none (omega arith)
digits-short r two sixteen (suc room) (suc k) u lt =
    let fewer : u / r < r ^ suc k =
      smaller r two sixteen u (r ^ suc k) (omega (arith, pow-suc r (suc k))) in
    elim (Bool-cases (u / r == 0)) [
      | inl none ↦ rw none (omega arith)
      | inr more ↦ rw more (omega (arith, digits-short r two sixteen room k (u / r) fewer))
    ]

digits-nonempty : (r room u : ℕ) → 0 < room → 1 ≤ length (digits room r u)
unfolding digits
digits-nonempty r zero u pos = absurd (omega arith)
digits-nonempty r (suc room) u pos = omega arith

-- The rest of `write_uint`, for an array of any size that the digits fit.
write_buf_lem :
    (u r room : ℕ)
    → (r ≡ 10) ⊎ (r ≡ 16)
    → u < 2 ^ 32
    → u < r ^ room
    → 8 ≤ room
    → (read r 0 (write_buf r (digits room r u)).1 ≡ u)
      × (length (write_buf r (digits room r u)).1
          ≡ (if r == 16 then 8 else (write_buf r (digits room r u)).0))
      × (1 ≤ (write_buf r (digits room r u)).0)
      × ((write_buf r (digits room r u)).0 ≤ length (write_buf r (digits room r u)).1)
unfolding write_buf
write_buf_lem u r room (inl ten) lt fits le =
    let other : (r == 16) ≡ false = ground arith in
    let (below, short) = digits-length r (omega arith) (omega arith) room u fits in
    rw other (
      read-write_digits r (omega arith) (omega arith) (length (digits room r u)) room u below short,
      write_digits-length (length (digits room r u)) (digits room r u),
      digits-nonempty r room u (omega arith),
      omega (arith, write_digits-length (length (digits room r u)) (digits room r u)),
    )
write_buf_lem u r room (inr sixteen) lt fits le =
    let same : (r == 16) ≡ true = ground arith in
    let (below, short) = digits-length r (omega arith) (omega arith) room u fits in
    let eight : u < r ^ 8 = rw sixteen lt in
    rw same (
      read-write_digits r (omega arith) (omega arith) 8 room u eight le,
      write_digits-length 8 (digits room r u),
      digits-nonempty r room u (omega arith),
      omega (
        arith,
        write_digits-length 8 (digits room r u),
        digits-short r (omega arith) (omega arith) room 7 u eight,
      ),
    )

-- For 10 and 16 and a word: the characters that `write_uint` writes stand for the number in this
-- base; in base 16 they are eight, however many the count says, and in base 10 as many as the
-- count says. The count is at least
-- one, and at most the number of characters.
pub write_uint_lem :
    (u r : ℕ)
    → (r ≡ 10) ⊎ (r ≡ 16)
    → u < 2 ^ 32
    → (read r 0 (write_uint u r).1 ≡ u)
      × (length (write_uint u r).1 ≡ (if r == 16 then 8 else (write_uint u r).0))
      × (1 ≤ (write_uint u r).0)
      × ((write_uint u r).0 ≤ length (write_uint u r).1)
unfolding write_uint
write_uint_lem u r base lt =
    write_buf_lem u r 20 base lt
      (elim base [ inl ten ↦ rw ten (omega arith) | inr sixteen ↦ rw sixteen (omega arith) ])
      (omega arith)
