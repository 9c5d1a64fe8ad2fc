-- ===== src/Format/Printing.antt =====
-- The digits of a number as they are printed into a buffer with room for them.
use native.Mathlib.Nat.{mod-eq_of_lt}
use fdu_os.Common.{
  ℕ, zero, suc, ◌+◌, ◌-◌, ◌*◌, ◌%◌, ◌^◌, ◌≤◌, ◌<◌, ◌≡◌, refl, sym, ap, ◌∙◌, false, ◌==◌, Bool-cases,
  inl, inr, List, [], ◌∷◌, length, drop, get_elem?, some, All, arith,
}
use fdu_os.Format.{set_ch, print_digits, Output, Printed, going, put}
use fdu_os.Format.Digits.{char_value, value, parse, element}

get_elem?-value :
    (base : ℕ) (buf : List ℕ) (n : ℕ)
    → n < length buf
    → All (λ c. c < 2 ^ 8) buf
    → (c : ℕ) × (get_elem? buf n ≡ some c)
      × (c < 2 ^ 8)
      × (value base (drop n buf) ≡ char_value c + base * value base (drop (suc n) buf))
      × (element buf n ≡ c)
get_elem?-value base [] n lt bytes = absurd (omega arith)
get_elem?-value base (c ∷ cs) zero lt (small, bytes) = (c, refl, small, refl, refl)
get_elem?-value base (c ∷ cs) (suc n) lt (small, bytes) =
    get_elem?-value base cs n (omega arith) bytes

-- What is printed into a buffer with room for it.
pub record Shown (size base : ℕ) (buf : List ℕ) (n acc result : ℕ) (o : Output) (r : Printed)
    : Type 0 where
  pub after : Output
  pub goes_on : r ≡ going after
  pub pos_after : after.pos ≡ o.pos + n
  pub before : (a : ℕ) → a < o.pos → after.text a ≡ o.text a
  pub readable : parse base acc after.text o.pos n ≡ result
  pub elements : (j : ℕ) → j < n → after.text (o.pos + j) ≡ element buf (n - 1 - j)

module _ (size base : ℕ) (buf : List ℕ) (bytes : All (λ c. c < 2 ^ 8) buf) where
  pub print_digits-Shown :
      (n : ℕ) (o : Output)
      → n ≤ length buf
      → o.pos + n < size
      → Shown size base buf n
          (value base (drop n buf))
          (value base buf)
          o
          (print_digits size n buf o)
  unfolding print_digits set_ch
  print_digits-Shown zero o le room = record {
    after = o;
    goes_on = refl;
    pos_after = omega arith;
    before = λ a lt. refl;
    readable = refl;
    elements = λ j lt. absurd (omega arith);
  }
  print_digits-Shown (suc n) o le room =
      let (c, here, small, split, at) = get_elem?-value base buf n (omega arith) bytes in
      let o1 : Output = record { text = put o.pos (c % 2 ^ 8) o.text; pos = o.pos + 1 } in
      let rest = print_digits-Shown n o1 (omega arith) (omega arith) in
      let more : (o.pos + 1 == size) ≡ false = ground arith in
      let kept : (a : ℕ) → a < o.pos → o1.text a ≡ o.text a = λ a lt. ground arith in
      let same : o1.text o.pos ≡ c = ground (arith, mod-eq_of_lt small) in
      let shown : rest.after.text o.pos ≡ c = rest.before o.pos (omega arith) ∙ same in
      let step : value base (drop (suc n) buf) * base + char_value (rest.after.text o.pos)
          ≡ value base (drop n buf) =
        rw shown (omega (arith, split)) in
      record {
        after = rest.after;
        goes_on = rw (print_digits, here, more) rest.goes_on;
        pos_after = omega (arith, rest.pos_after);
        before = λ a lt. rest.before a (omega arith) ∙ kept a lt;
        readable = ap (λ v. parse base v rest.after.text (o.pos + 1) n) step ∙ rest.readable;
        elements = λ j lt. elim (Bool-cases (j == 0)) [
          | inl first ↦
              let z : o.pos + j ≡ o.pos = ground arith in
              let i : suc n - 1 - j ≡ n = ground arith in rw (z, i) (shown ∙ sym at)
          | inr later ↦
              let z : o.pos + j ≡ o.pos + 1 + (j - 1) = ground arith in
              let i : suc n - 1 - j ≡ n - 1 - (j - 1) = ground arith in
              rw (z, i) (rest.elements (j - 1) (ground arith))
        ];
      }
