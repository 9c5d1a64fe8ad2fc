-- ===== src/BootPrint.antt =====
-- boot/bio.c: the formatted output of the boot loader. A string is the list of its characters
-- without the NUL, and what is written is the list of the characters given to `bputc`. An argument
-- of another kind, one that is missing, a NULL string, a character read behind the end of the
-- format, and signed overflow are undefined.
pub mod Numbers
pub mod Formats
mod Examples
use fdu_os.Common.{
  ℕ, zero, suc, ◌+◌, ◌-◌, ◌/◌, ◌%◌, ◌^◌, ltb, leb, ◌==◌, if◌then◌else◌, Option, none, some, List,
  [], ◌∷◌, ◌++◌, length,
}
use fdu_os.Common.Words.{word, byte}
use fdu_os.Common.Outcome.{Outcome, done, undefined, ◌>>=◌}

-- The count that a function returns, and what it writes.
abbrev pub Written : Type 0
Written = ℕ × List ℕ

-- One after the other: `cnt += ...`
abbrev pub also : Written → Written → Written
also (n, text) (m, more) = (n + m, text ++ more)

-- `bputs`
unfoldable pub bputs : List ℕ → List ℕ
bputs [] = 10 ∷ []
bputs (ch ∷ str) = ch ∷ bputs str

-- `write_char` and `write_string`
unfoldable pub write_char : ℕ → Written
write_char c = (1, byte c ∷ [])

unfoldable pub write_string : List ℕ → Written
unfolding write_char
write_string [] = (0, [])
write_string (c ∷ s) = also (write_char c) (write_string s)

-- `dict[d]`
unfoldable pub dict : ℕ → ℕ
dict d = if ltb d 10 then 48 + d else 87 + d

-- `do { buf[p++] = u % r; u /= r; } while (u > 0);` The array has 20 elements, which are more than
-- the digits of a word.
unfoldable pub digits : ℕ → ℕ → ℕ → List ℕ
digits zero r u = []
digits (suc room) r u =
    let rest = digits room r (u / r) in u % r ∷ (if u / r == 0 then [] else rest)

-- `buf[i]`, 0 where no digit was stored
abbrev pub element : List ℕ → ℕ → ℕ
element [] i = 0
element (d ∷ ds) zero = d
element (d ∷ ds) (suc i) = element ds i

-- `while (p > 0) write_char(dict[buf[--p]]);`
unfoldable pub write_digits : ℕ → List ℕ → List ℕ
unfolding dict
write_digits zero buf = []
write_digits (suc p) buf = dict (element buf p) ∷ write_digits p buf

-- What `write_uint` does once the digits are in `buf`.
unfoldable pub write_buf : ℕ → List ℕ → Written
unfolding write_digits
write_buf r buf = (length buf, write_digits (if r == 16 then 8 else length buf) buf)

-- `write_uint`
unfoldable pub write_uint : ℕ → ℕ → Written
unfolding digits write_buf
write_uint u r = write_buf r (digits 20 r u)

-- `write_int` of the `int` with the bits `d`
unfoldable pub write_int : ℕ → ℕ → Outcome Written
unfolding write_char write_uint
write_int d r =
    if ltb d (2 ^ 31)
    then done (write_uint d r)
    else if d == 2 ^ 31
    then undefined
    else let (n, minus) = write_char 45 in
      let (m, text) = write_uint (2 ^ 32 - d) r in done (m, minus ++ text)

-- An argument: a number in the 32 bits that it is passed in, or a string.
pub data Argument : Type 0 where
  number : ℕ → Argument
  string : List ℕ → Argument
  null : Argument

-- What the character after `%` asks for.
pub data Directive : Type 0 where
  text : Directive
  signed : Directive
  unsigned : ℕ → Directive
  char : Directive
  percent : Directive
  other : Directive

unfoldable pub classify : ℕ → Directive
classify c =
    if c == 115
    then text
    else if c == 100
    then signed
    else if c == 117
    then unsigned 10
    else if c == 120
    then unsigned 16
    else if c == 112
    then unsigned 16
    else if c == 99
    then char
    else if c == 37
    then percent
    else other

-- A case of the `switch`, with the arguments that are left.
unfoldable pub directive : Directive → List Argument → Outcome (Written × List Argument)
unfolding write_string write_int write_uint write_char
directive text (string s ∷ args) = done (write_string s, args)
directive signed (number d ∷ args) = write_int (word d) 10 >>= λ w. done (w, args)
directive (unsigned r) (number u ∷ args) = done (write_uint (word u) r, args)
directive char (number c ∷ args) = done (write_char c, args)
directive percent args = done (write_char 37, args)
directive other args = done ((0, []), args)
directive d args = undefined

-- `bprintf`: the count that it returns, and what it writes
unfoldable pub bprintf : List ℕ → List Argument → Outcome Written
unfolding classify directive write_char
bprintf [] args = done (0, [])
bprintf (ch ∷ []) args = if ch == 37 then undefined else done (write_char ch)
bprintf (ch ∷ c ∷ fmt) args =
    let plain = bprintf (c ∷ fmt) args >>= λ rest. done (also (write_char ch) rest) in
    let asked = directive (classify c) args >>= λ (w, left).
    (bprintf fmt left >>= λ rest. done (also w rest)) in
    if ch == 37 then asked else plain
