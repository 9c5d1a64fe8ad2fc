-- ===== src/Format.antt =====
-- lib/libc/snprintf.c: formatted output into a buffer. The format is the list of its characters
-- without the NUL that ends it, an argument is a number in the width that the caller passed it or
-- a string without its NUL, and NULL for a string is `none`. The buffer is a function of the
-- index. An argument of another kind, one that is missing, a character read behind the end of the
-- format, and signed overflow are undefined. The position, an `ssize_t`, is unbounded here: a buffer
-- of 2 GB or more is not modelled.
pub mod Allowed
pub mod Safe
pub mod Bounds
pub mod Digits
pub mod Printing
pub mod Numbers
mod Examples
use Prim.Native.Nat.{bit_and, bit_or}
use fdu_os.Common.{
  ℕ, zero, suc, ◌+◌, ◌-◌, ◌*◌, ◌/◌, ◌%◌, ◌^◌, Bool, true, false, ◌&&◌, not, ltb, leb, ◌==◌,
  if◌then◌else◌, Option, none, some, List, [], ◌∷◌, ◌++◌, length, get_elem?,
}
use fdu_os.Common.Outcome.{Outcome, done, undefined}

pub data Argument : Type 0 where
  number : ℕ → Argument
  string : Option (List ℕ) → Argument

-- `str`, as far as it is written, and `pos`
pub record Output : Type 0 where
  pub text : ℕ → ℕ
  pub pos : ℕ

-- Output goes on, or the buffer is full and `vsnprintf` has returned `size`, or the behaviour is undefined.
pub data Printed : Type 0 where
  going : Output → Printed
  full : Output → Printed
  stuck : Printed

infixl 5 ◌>>=◌
abbrev pub ◌>>=◌ : Printed → (Output → Printed) → Printed
going o >>= k = k o
full o >>= k = full o
stuck >>= k = stuck

-- `str[i] = ch`
abbrev pub put : ℕ → ℕ → (ℕ → ℕ) → ℕ → ℕ
put i ch text a = if i == a then ch else text a

module _ (size : ℕ) where
  -- `set_ch(ch)`
  unfoldable pub set_ch : ℕ → Output → Printed
  set_ch ch o =
      let text = put o.pos (ch % 2 ^ 8) o.text in
      let next = o.pos + 1 in
      if next == size
      then full (record { text = put (size - 1) 0 text; pos = next })
      else going (record { text = text; pos = next })

  -- `while ((--buf_pos) >= 0) set_ch(buf[buf_pos]);`
  unfoldable pub print_digits : ℕ → List ℕ → Output → Printed
  unfolding set_ch
  print_digits zero buf o = going o
  print_digits (suc n) buf o = elim (get_elem? buf n) [
    | none ↦ stuck
    | some ch ↦ set_ch ch o >>= print_digits n buf
  ]

  -- `while ((--width) >= 0)`: a fill character from `buf_pos` on, below it the digits
  unfoldable pub print_padded : ℕ → ℕ → List ℕ → Output → Printed
  unfolding set_ch
  print_padded zero fill buf o = going o
  print_padded (suc width) fill buf o = elim (get_elem? buf width) [
    | none ↦ set_ch fill o >>= print_padded width fill buf
    | some ch ↦ set_ch ch o >>= print_padded width fill buf
  ]

  -- `for (len = 0; *s != '\0'; ++s, ++len) set_ch(*s);`
  unfoldable pub print_string : List ℕ → Output → Printed
  unfolding set_ch
  print_string [] o = going o
  print_string (ch ∷ s) o = set_ch ch o >>= print_string s

  -- `for (; len < width; ++len) set_ch(' ');`
  unfoldable pub print_spaces : ℕ → Output → Printed
  unfolding set_ch
  print_spaces zero o = going o
  print_spaces (suc n) o = set_ch 32 o >>= print_spaces n

-- `digits(x)`
unfoldable pub digit : ℕ → ℕ
digit x = if leb x 9 then 48 + x else 97 + x - 10

-- `while (uval > 0) { buf[buf_pos++] = digits(uval % base); uval /= base; }`
unfoldable pub digits_loop : ℕ → ℕ → ℕ → List ℕ
unfolding digit
digits_loop zero base uval = []
digits_loop (suc fuel) base uval =
    let rest = digits_loop fuel base (uval / base) in
    if uval == 0 then [] else digit (uval % base) ∷ rest

-- The digits of `uval` in `buf`, the last one first; 64 turns are enough for 64 bits.
unfoldable pub digits_of : ℕ → ℕ → List ℕ
unfolding digits_loop
digits_of base uval = if uval == 0 then 48 ∷ [] else digits_loop 64 base uval

-- `flag`, `width` and `longflag`
pub record Spec : Type 0 where
  pub flag : ℕ
  pub width : ℕ
  pub longs : ℕ

-- What `%` and the characters after it ask for.
pub data Directive : Type 0 where
  long_mark : Directive
  signed : Directive
  unsigned : ℕ → Directive
  pointer : Directive
  char : Directive
  text : Directive
  percent : Directive
  zero_pad : Directive
  width_digit : ℕ → Directive
  other : Directive

-- The `switch` on a character; in the loop of the width, a `0` is a digit.
unfoldable pub classify : Bool → ℕ → Directive
classify in_width c =
    if in_width && (leb 48 c && leb c 57)
    then width_digit (c - 48)
    else if c == 108
    then long_mark
    else if c == 100
    then signed
    else if c == 111
    then unsigned 8
    else if c == 120
    then unsigned 16
    else if c == 112
    then pointer
    else if c == 117
    then unsigned 10
    else if c == 99
    then char
    else if c == 115
    then text
    else if c == 37
    then percent
    else if c == 48
    then zero_pad
    else if leb 49 c && leb c 57
    then width_digit (c - 48)
    else other

-- The bits of `int` and `long` or of `long long`
unfoldable pub bits_of : ℕ → ℕ
bits_of longs = if leb longs 1 then 32 else 64

-- From `print_uint` on
unfoldable pub print_uint : ℕ → ℕ → ℕ → ℕ → ℕ → Output → Printed
unfolding set_ch digits_of print_digits print_padded
print_uint size flag width base uval o =
    let buf = digits_of base uval in
    let negative = not (bit_and flag 256 == 0) in
    let signed_o = if negative then set_ch size 45 o else going o in
    if width == 0
    then signed_o >>= print_digits size (length buf) buf
    else if not (bit_or flag 2 == 0)
    then signed_o >>= print_padded size width 48 buf
    else print_padded size width 32 (if negative then buf ++ (45 ∷ []) else buf) o

-- `%d`, with `val` in two's complement; `-val` overflows at the least `long long`
unfoldable pub print_int : ℕ → Spec → ℕ → Output → Printed
unfolding print_uint bits_of
print_int size sp arg o =
    let bits = bits_of sp.longs in
    let val = arg % 2 ^ bits in
    if ltb val (2 ^ (bits - 1))
    then print_uint size sp.flag sp.width 10 val o
    else if val == 2 ^ 63
    then stuck
    else print_uint size (bit_or sp.flag 256) sp.width 10 (2 ^ bits - val) o

-- `%s`, with the text for NULL
unfoldable pub print_text : ℕ → ℕ → Option (List ℕ) → Output → Printed
unfolding print_string print_spaces
print_text size width arg o =
    let s : List ℕ = elim arg [ none ↦ 40 ∷ 110 ∷ 117 ∷ 108 ∷ 108 ∷ 41 ∷ [] | some s ↦ s ] in
    print_string size s o >>= print_spaces size (width - length s)

-- Where in the format the loop is: outside a directive, in one, or in the digits of its width.
pub data Place : Type 0 where
  outside : Place
  directive : Bool → Place

-- The width and the flags after a directive
abbrev pub reset_spec : ℕ → Spec
reset_spec longs = record { flag = 0; width = 0; longs = longs }

module _ (size : ℕ) where
  -- The main loop of `vsnprintf`
  unfoldable pub format : List ℕ → Place → Spec → List Argument → Output → Printed
  unfolding set_ch print_uint print_int print_text classify bits_of
  format [] outside sp args o =
      set_ch size 0 o >>= λ o'. going (record { text = o'.text; pos = o'.pos - 1 })
  format [] (directive in_width) sp args o = stuck
  format (c ∷ fmt) outside sp args o = elim (c == 37) [
    | true ↦ format fmt (directive false) sp args o
    | false ↦ set_ch size c o >>= format fmt outside sp args
  ]
  format (c ∷ fmt) (directive in_width) sp args o = elim (classify in_width c) [
    | long_mark ↦
        format fmt (directive false)
          (record { flag = sp.flag; width = sp.width; longs = sp.longs + 1 }) args o
    | signed ↦ elim args [
      | (number v ∷ rest) ↦ print_int size sp v o >>= format fmt outside (reset_spec 0) rest
      | _ ↦ stuck
    ]
    | unsigned base ↦ elim args [
      | (number v ∷ rest) ↦
          print_uint size sp.flag sp.width base (v % 2 ^ bits_of sp.longs) o
          >>= format fmt outside (reset_spec 0) rest
      | _ ↦ stuck
    ]
    | pointer ↦ elim args [
      | (number v ∷ rest) ↦
          print_uint size (bit_or sp.flag 2) 8 16 (v % 2 ^ 32) o
          >>= format fmt outside (reset_spec 0) rest
      | _ ↦ stuck
    ]
    | char ↦ elim args [
      | (number v ∷ rest) ↦ set_ch size v o >>= format fmt outside (reset_spec sp.longs) rest
      | _ ↦ stuck
    ]
    | text ↦ elim args [
      | (string s ∷ rest) ↦
          print_text size sp.width s o >>= format fmt outside (reset_spec sp.longs) rest
      | _ ↦ stuck
    ]
    | percent ↦ set_ch size 37 o >>= format fmt outside (reset_spec sp.longs) args
    | zero_pad ↦
        format fmt (directive false)
          (record { flag = bit_or sp.flag 2; width = sp.width; longs = sp.longs }) args o
    | width_digit d ↦ elim (ltb (sp.width * 10 + d) (2 ^ 31)) [
      | true ↦
          format fmt (directive true)
            (record { flag = sp.flag; width = sp.width * 10 + d; longs = sp.longs }) args o
      | false ↦ stuck
    ]
    | other ↦ set_ch size 37 o >>= λ o'. set_ch size c o' >>= format fmt outside sp args
  ]

-- `vsnprintf`: the result and the buffer
unfoldable pub vsnprintf : ℕ → List ℕ → List Argument → (ℕ → ℕ) → Outcome (ℕ × (ℕ → ℕ))
unfolding format
vsnprintf size fmt args str =
    elim (format size fmt outside (reset_spec 0) args (record { text = str; pos = 0 })) [
      | going o ↦ done (o.pos, o.text)
      | full o ↦ done (size, o.text)
      | stuck ↦ undefined
    ]
