-- ===== src/Format/Allowed.antt =====
-- The formats and arguments for which the behaviour of `vsnprintf` is defined.
use Prim.Native.Nat.{bit_or}
use fdu_os.Common.{ℕ, ◌+◌, ◌*◌, ◌%◌, ◌^◌, ◌≡◌, Bool, true, false, ◌==◌, ltb, Option, List, [], ◌∷◌}
use fdu_os.Format.{
  Argument, number, string, bits_of, Spec, classify, Place, outside, directive, reset_spec,
  long_mark, signed, unsigned, pointer, char, text, percent, zero_pad, width_digit, other,
}

-- The formats, from a place in them on, and the arguments for which the behaviour is defined:
-- every directive is complete and has an argument of its kind, no width reaches 2^31, and no `%lld`
-- has the least argument.
pub data IsAllowed : List ℕ → Place → Spec → List Argument → Type 0 where
  at_end : {sp : Spec} {args : List Argument} → IsAllowed [] outside sp args
  plain_char :
      {c : ℕ} {fmt : List ℕ} {sp : Spec} {args : List Argument}
      → (c == 37) ≡ false
      → IsAllowed fmt outside sp args
      → IsAllowed (c ∷ fmt) outside sp args
  percent_sign :
      {fmt : List ℕ} {sp : Spec} {args : List Argument}
      → IsAllowed fmt (directive false) sp args
      → IsAllowed (37 ∷ fmt) outside sp args
  after_long :
      {in_width : Bool} {c : ℕ} {fmt : List ℕ} {sp : Spec} {args : List Argument}
      → classify in_width c ≡ long_mark
      → IsAllowed fmt
          (directive false)
          (record { flag = sp.flag; width = sp.width; longs = sp.longs + 1 })
          args
      → IsAllowed (c ∷ fmt) (directive in_width) sp args
  after_zero :
      {in_width : Bool} {c : ℕ} {fmt : List ℕ} {sp : Spec} {args : List Argument}
      → classify in_width c ≡ zero_pad
      → IsAllowed fmt
          (directive false)
          (record { flag = bit_or sp.flag 2; width = sp.width; longs = sp.longs })
          args
      → IsAllowed (c ∷ fmt) (directive in_width) sp args
  after_digit :
      {in_width : Bool} {c d : ℕ} {fmt : List ℕ} {sp : Spec} {args : List Argument}
      → classify in_width c ≡ width_digit d
      → ltb (sp.width * 10 + d) (2 ^ 31) ≡ true
      → IsAllowed fmt
          (directive true)
          (record { flag = sp.flag; width = sp.width * 10 + d; longs = sp.longs })
          args
      → IsAllowed (c ∷ fmt) (directive in_width) sp args
  a_signed :
      {in_width : Bool} {c v : ℕ} {fmt : List ℕ} {sp : Spec} {args : List Argument}
      → classify in_width c ≡ signed
      → (v % 2 ^ bits_of sp.longs == 2 ^ 63) ≡ false
      → IsAllowed fmt outside (reset_spec 0) args
      → IsAllowed (c ∷ fmt) (directive in_width) sp (number v ∷ args)
  an_unsigned :
      {in_width : Bool} {c base v : ℕ} {fmt : List ℕ} {sp : Spec} {args : List Argument}
      → classify in_width c ≡ unsigned base
      → IsAllowed fmt outside (reset_spec 0) args
      → IsAllowed (c ∷ fmt) (directive in_width) sp (number v ∷ args)
  a_pointer :
      {in_width : Bool} {c v : ℕ} {fmt : List ℕ} {sp : Spec} {args : List Argument}
      → classify in_width c ≡ pointer
      → IsAllowed fmt outside (reset_spec 0) args
      → IsAllowed (c ∷ fmt) (directive in_width) sp (number v ∷ args)
  a_char :
      {in_width : Bool} {c v : ℕ} {fmt : List ℕ} {sp : Spec} {args : List Argument}
      → classify in_width c ≡ char
      → IsAllowed fmt outside (reset_spec sp.longs) args
      → IsAllowed (c ∷ fmt) (directive in_width) sp (number v ∷ args)
  a_string :
      {in_width : Bool} {c : ℕ} {s : Option (List ℕ)} {fmt : List ℕ} {sp : Spec}
      {args : List Argument}
      → classify in_width c ≡ text
      → IsAllowed fmt outside (reset_spec sp.longs) args
      → IsAllowed (c ∷ fmt) (directive in_width) sp (string s ∷ args)
  a_percent :
      {in_width : Bool} {c : ℕ} {fmt : List ℕ} {sp : Spec} {args : List Argument}
      → classify in_width c ≡ percent
      → IsAllowed fmt outside (reset_spec sp.longs) args
      → IsAllowed (c ∷ fmt) (directive in_width) sp args
  an_other :
      {in_width : Bool} {c : ℕ} {fmt : List ℕ} {sp : Spec} {args : List Argument}
      → classify in_width c ≡ other
      → IsAllowed fmt outside sp args
      → IsAllowed (c ∷ fmt) (directive in_width) sp args
