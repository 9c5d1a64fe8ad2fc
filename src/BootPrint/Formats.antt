-- ===== src/BootPrint/Formats.antt =====
-- `bprintf` on formats with the arguments that they ask for.
use fdu_os.Common.{
  ℕ, ◌-◌, ◌^◌, ◌≤◌, ◌<◌, ◌≡◌, ◌≢◌, ◌⊎◌, inl, inr, refl, ap, ◌∙◌, false, ltb, ◌==◌, Bool-cases, List,
  [], ◌∷◌, length, length-append, arith,
}
use fdu_os.Common.Words.{word}
use fdu_os.Common.Outcome.{Outcome, done, ◌>>=◌}
use fdu_os.BootPrint.{
  Written, also, Argument, number, string, Directive, text, signed, unsigned, char, percent, other,
  classify, directive, write_string, write_char, write_int, write_uint, bprintf,
}
use fdu_os.BootPrint.Numbers.{write_uint_lem}

-- A directive finds an argument of its kind, and the smallest `int` is not printed.
pub data Takes : Directive → List Argument → List Argument → Type 0 where
  takes_text : (s : List ℕ) (args : List Argument) → Takes text (string s ∷ args) args
  takes_signed :
      (d : ℕ) (args : List Argument) → word d ≢ 2 ^ 31 → Takes signed (number d ∷ args) args
  takes_unsigned :
      (r u : ℕ) (args : List Argument)
      → (r ≡ 10) ⊎ (r ≡ 16)
      → Takes (unsigned r) (number u ∷ args) args
  takes_char : (c : ℕ) (args : List Argument) → Takes char (number c ∷ args) args
  takes_percent : (args : List Argument) → Takes percent args args
  takes_other : (args : List Argument) → Takes other args args

-- Every directive of the format finds its argument, and the format does not end in a `%`.
pub data Matches : List ℕ → List Argument → Type 0 where
  ended : (args : List Argument) → Matches [] args
  plain :
      (ch : ℕ) (fmt : List ℕ) (args : List Argument)
      → (ch == 37) ≡ false
      → Matches fmt args
      → Matches (ch ∷ fmt) args
  asked :
      (c : ℕ) (fmt : List ℕ) (args left : List Argument)
      → Takes (classify c) args left
      → Matches fmt left
      → Matches (37 ∷ c ∷ fmt) args

-- The call returns, and the count is at most the number of characters written.
abbrev pub Counts : Outcome Written → Type 0
Counts r = (w : Written) × (r ≡ done w) × (w.0 ≤ length w.1)

write_string_lem : (s : List ℕ) → (write_string s).0 ≤ length (write_string s).1
unfolding write_string write_char
write_string_lem [] = omega arith
write_string_lem (c ∷ s) = omega (arith, write_string_lem s)

write_int_lem : (d : ℕ) → d < 2 ^ 32 → d ≢ 2 ^ 31 → Counts (write_int d 10)
unfolding write_int write_char
write_int_lem d lt ne = elim (Bool-cases (ltb d (2 ^ 31))) [
  | inl pos ↦ rw pos (write_uint d 10, refl, (write_uint_lem d 10 (inl refl) lt).3)
  | inr neg ↦
      let other : (d == 2 ^ 31) ≡ false = ground arith in
      rw (neg, other)
        (_, refl, omega (arith, (write_uint_lem (2 ^ 32 - d) 10 (inl refl) (ground arith)).3))
]

directive_lem :
    (d : Directive) (args left : List Argument)
    → Takes d args left
    → (w : Written) × (directive d args ≡ done (w, left)) × (w.0 ≤ length w.1)
unfolding directive write_char
directive_lem d args left (takes_text s l) = (write_string s, refl, write_string_lem s)
directive_lem d args left (takes_signed n l ne) =
    let (w, e, le) = write_int_lem (word n) (omega arith) ne in
    (w, ap (λ o. o >>= λ x. done (x, l)) e, le)
directive_lem d args left (takes_unsigned r u l base) =
    (write_uint (word u) r, refl, (write_uint_lem (word u) r base (omega arith)).3)
directive_lem d args left (takes_char c l) = (write_char c, refl, omega arith)
directive_lem d args left (takes_percent l) = (write_char 37, refl, omega arith)
directive_lem d args left (takes_other l) = ((0, []), refl, omega arith)

also-counts :
    (v w : Written) → v.0 ≤ length v.1 → w.0 ≤ length w.1 → (also v w).0 ≤ length (also v w).1
also-counts (n, t) (m, u) h k = omega (arith, length-append t u)

-- For a format whose directives find arguments of their kinds, without the smallest `int` among
-- those printed as signed, and that does not end in a `%`: `bprintf` returns, and the count that
-- it returns is at most the number of characters that it has written.
pub bprintf-Counts :
    (fmt : List ℕ) (args : List Argument) → Matches fmt args → Counts (bprintf fmt args)
unfolding bprintf write_char
bprintf-Counts fmt args (ended l) = ((0, []), refl, omega arith)
bprintf-Counts fmt args (plain ch [] l ne m) = rw ne (write_char ch, refl, omega arith)
bprintf-Counts fmt args (plain ch (c ∷ rest) l ne m) =
    let (w, e, le) = bprintf-Counts (c ∷ rest) l m in
    rw ne (
      also (write_char ch) w,
      ap (λ o. o >>= λ x. done (also (write_char ch) x)) e,
      also-counts (write_char ch) w (omega arith) le,
    )
bprintf-Counts fmt args (asked c rest l left t m) =
    let (v, d, lv) = directive_lem (classify c) l left t in
    let (w, e, lw) = bprintf-Counts rest left m in
    (
      also v w,
      ap (λ o. o >>= λ (x, k). (bprintf rest k >>= λ y. done (also x y))) d
          ∙ ap (λ o. o >>= λ y. done (also v y)) e,
      also-counts v w lv lw,
    )
