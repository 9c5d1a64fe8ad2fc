-- ===== src/Format/Numbers.antt =====
-- What `%u`, `%o` and `%x` print can be read back.
use fdu_os.Common.{
  ℕ, zero, suc, ◌+◌, ◌-◌, ◌*◌, ◌%◌, ◌^◌, ◌≤◌, ◌<◌, ◌≡◌, ◌⊎◌, inl, inr, refl, ap, ◌∙◌, false, ◌==◌,
  List, [], ◌∷◌, length, drop, arith,
}
use fdu_os.Common.Outcome.{done}
use fdu_os.Format.{
  number, Output, put, set_ch, digits_of, print_uint, bits_of, classify, unsigned, format,
  vsnprintf,
}
use fdu_os.Format.Digits.{
  parse, char_value, digits_of_lem, IsDigit, element, last_of, element-last_of, All-element,
  digits_of-IsDigit,
}
use fdu_os.Format.Printing.{Shown, print_digits-Shown}

drop-length : (ds : List ℕ) → drop (length ds) ds ≡ []
drop-length [] = refl
drop-length (d ∷ ds) = drop-length ds

parse-same :
    (base acc : ℕ) (t t' : ℕ → ℕ) (i n : ℕ)
    → ((a : ℕ) → a < i + n → t a ≡ t' a)
    → parse base acc t i n ≡ parse base acc t' i n
parse-same base acc t t' i zero h = refl
parse-same base acc t t' i (suc n) h =
    ap (λ x. parse base (acc * base + char_value x) t (i + 1) n) (h i (omega arith))
    ∙ parse-same base (acc * base + char_value (t' i)) t t' (i + 1) n (λ a lt. h a (omega arith))

not_full : (size p : ℕ) → p + 1 < size → (p + 1 == size) ≡ false
not_full size p lt = ground arith

put_before : (p i : ℕ) (text : ℕ → ℕ) → i < p → put p 0 text i ≡ text i
put_before p i text lt = ground arith

-- The NUL at the end leaves what is before it.
ended :
    (base : ℕ) (o : Output) (uval : ℕ)
    → parse base 0 o.text 0 o.pos ≡ uval
    → (parse base 0 (put o.pos 0 o.text) 0 (o.pos + 1 - 1) ≡ uval)
      × (put o.pos 0 o.text (o.pos + 1 - 1) ≡ 0)
ended base o uval same =
    let back : o.pos + 1 - 1 ≡ o.pos = omega arith in
    let unchanged : (a : ℕ) → a < 0 + o.pos → put o.pos 0 o.text a ≡ o.text a =
      λ a lt. ground arith in
    rw back (parse-same base 0 (put o.pos 0 o.text) o.text 0 o.pos unchanged ∙ same, ground arith)

-- The first `n` characters are the number in the base, and a NUL follows.
pub record IsNumber (base v n : ℕ) (text : ℕ → ℕ) : Type 0 where
  pub some_character : 1 ≤ n
  pub digits : (i : ℕ) → i < n → IsDigit base (text i)
  pub no_zeros : (n ≡ 1) ⊎ (48 < text 0)
  pub value : parse base 0 text 0 n ≡ v
  pub nul : text n ≡ 0

module _ (size base : ℕ) (two : 8 ≤ base) (sixteen : base ≤ 16) where
  print_uint-Shown :
      (uval : ℕ) (o : Output)
      → uval < 2 ^ 64
      → o.pos + 22 < size
      → Shown size base
          (digits_of base uval)
          (length (digits_of base uval))
          0
          uval
          o
          (print_uint size 0 0 base uval o)
  unfolding print_uint
  print_uint-Shown uval o lt room =
      let (same, bytes, some_digit, short) = digits_of_lem base two sixteen uval lt in
      let shown =
        print_digits-Shown size base (digits_of base uval) bytes (length (digits_of base uval)) o
          (omega arith) (omega arith) in
      rw (drop-length (digits_of base uval), same) at shown

  directive_lem :
      (c v : ℕ) (str : ℕ → ℕ)
      → classify false c ≡ unsigned base
      → 23 < size
      → (n : ℕ) × (text : ℕ → ℕ) × (vsnprintf size (37 ∷ c ∷ []) (number v ∷ []) str
          ≡ done (n, text))
        × IsNumber base (v % 2 ^ 32) n text
  unfolding vsnprintf format bits_of set_ch
  directive_lem c v str which room =
      let shown =
        print_uint-Shown (v % 2 ^ 32) (record { text = str; pos = 0 }) (omega arith)
          (omega arith) in
      let after = shown.after in
      let ds = digits_of base (v % 2 ^ 32) in
      let count : after.pos ≡ length ds = omega (arith, shown.pos_after) in
      let (same, bytes, some_digit, short) =
        digits_of_lem base two sixteen (v % 2 ^ 32) (omega arith) in
      let (digits, zeros) = digits_of-IsDigit base two sixteen (v % 2 ^ 32) (omega arith) in
      let more = not_full size after.pos (omega (arith, count, short, room)) in
      let (reads, nul) = ended base after (v % 2 ^ 32) (rw count shown.readable) in
      let text : ℕ → ℕ = put after.pos 0 after.text in
      let at : (i : ℕ) → i < length ds → text i ≡ element ds (length ds - 1 - i) = λ i lt.
        put_before after.pos i after.text (omega (arith, count))
        ∙ ap after.text (omega arith)
        ∙ shown.elements i (omega arith) in
      let first : text 0 ≡ last_of ds =
        at 0 (omega (arith, some_digit)) ∙ ap (element ds) (omega arith) ∙ element-last_of ds in
      let back : after.pos + 1 - 1 ≡ length ds = omega (arith, count) in
      (
        after.pos + 1 - 1,
        text,
        rw (vsnprintf, format, which, bits_of, shown.goes_on, more) refl,
        record {
          some_character = rw back some_digit;
          digits = λ i lt. rw (at i (omega (arith, back, lt))) (
              All-element (IsDigit base) ds (length ds - 1 - i) digits (omega (arith, some_digit)));
          no_zeros = elim zeros [ inl one ↦ inl (back ∙ one) | inr large ↦ inr (rw first large) ];
          value = reads;
          nul = nul;
        },
      )

-- `%o`, `%u` and `%x`, with the base that they ask for
pub data Conversion : ℕ → ℕ → Type 0 where
  octal : Conversion 111 8
  decimal : Conversion 117 10
  hexadecimal : Conversion 120 16

-- For `%o` (octal), `%u` (decimal) or `%x` (hexadecimal) on a buffer of more than 23 bytes:
-- `vsnprintf` returns a length of at least 1, and as many characters from the front of the buffer
-- on are digits of the base, `0` to `9` and `a` to `f`, that stand for the argument as an
-- `unsigned int`, without a 0 in front of another digit; a NUL follows them.
pub vsnprintf_unsigned :
    {c base : ℕ} (size v : ℕ) (str : ℕ → ℕ)
    → Conversion c base
    → 23 < size
    → (n : ℕ) × (text : ℕ → ℕ) × (vsnprintf size (37 ∷ c ∷ []) (number v ∷ []) str ≡ done (n, text))
      × IsNumber base (v % 2 ^ 32) n text
unfolding classify
vsnprintf_unsigned size v str octal room =
    directive_lem size 8 (omega arith) (omega arith) 111 v str refl room
vsnprintf_unsigned size v str decimal room =
    directive_lem size 10 (omega arith) (omega arith) 117 v str refl room
vsnprintf_unsigned size v str hexadecimal room =
    directive_lem size 16 (omega arith) (omega arith) 120 v str refl room
