-- ===== src/Format/Bounds.antt =====
-- `vsnprintf` keeps to its buffer and ends what it writes with a NUL.
use Prim.Native.Nat.{bit_or}
use fdu_os.Common.{
  ℕ, ◌+◌, ◌-◌, ◌%◌, ◌^◌, ◌≤◌, ◌<◌, ◌≡◌, refl, ◌==◌, Bool-cases, inl, inr, List, arith,
}
use fdu_os.Common.Outcome.{Outcome, done, undefined}
use fdu_os.Format.{
  Argument, ◌>>=◌, Output, Printed, going, full, stuck, set_ch, print_uint, bits_of, print_int,
  print_text, Spec, Place, outside, reset_spec, format, vsnprintf,
}
use fdu_os.Format.Allowed.{
  IsAllowed, at_end, plain_char, percent_sign, after_long, after_zero, after_digit, a_signed,
  an_unsigned, a_pointer, a_char, a_string, a_percent, an_other,
}
use fdu_os.Format.Safe.{
  IsEnded-bind, set_ch-IsSafe, print_text-IsSafe, print_uint-IsSafe, print_int-IsSafe, IsInside,
  IsEnded, Keeps,
}

module _ (size : ℕ) (positive : 0 < size) (str : ℕ → ℕ) where
  last_char :
      (o : Output)
      → IsInside size str o
      → IsEnded size str
          (set_ch size 0 o >>= λ o'. going (record { text = o'.text; pos = o'.pos - 1 }))
  unfolding set_ch
  last_char o (lt, kept) = elim (Bool-cases (o.pos + 1 == size)) [
    | inl e ↦ rw e (ground arith, λ a le. ground (arith, kept a le))
    | inr ne ↦ rw ne (omega arith, ground arith, λ a le. ground (arith, kept a le))
  ]

  format-IsEnded :
      {fmt : List ℕ} {place : Place} {sp : Spec} {args : List Argument}
      → IsAllowed fmt place sp args
      → (o : Output) → IsInside size str o
      → IsEnded size str (format size fmt place sp args o)
  unfolding format
  format-IsEnded at_end o h = last_char o h
  format-IsEnded (plain_char {c = c} plain rest) o h =
      rw (format, plain)
        (IsEnded-bind size str (set_ch size c o) _ (set_ch-IsSafe size str c o h)
          (format-IsEnded rest))
  format-IsEnded (percent_sign rest) o h = format-IsEnded rest o h
  format-IsEnded (after_long which rest) o h = rw (format, which) (format-IsEnded rest o h)
  format-IsEnded (after_zero which rest) o h = rw (format, which) (format-IsEnded rest o h)
  format-IsEnded (after_digit which small rest) o h =
      rw (format, which, small) (format-IsEnded rest o h)
  format-IsEnded (a_signed {v = v} {sp = sp} which least rest) o h =
      rw (format, which)
        (IsEnded-bind size str (print_int size sp v o) _ (print_int-IsSafe size str sp v o least h)
          (format-IsEnded rest))
  format-IsEnded (an_unsigned {base = base} {v = v} {sp = sp} which rest) o h =
      rw (format, which)
        (IsEnded-bind size str (print_uint size sp.flag sp.width base (v % 2 ^ bits_of sp.longs) o)
          _ (print_uint-IsSafe size str sp.flag sp.width base (v % 2 ^ bits_of sp.longs) o h)
          (format-IsEnded rest))
  format-IsEnded (a_pointer {v = v} {sp = sp} which rest) o h =
      rw (format, which)
        (IsEnded-bind size str (print_uint size (bit_or sp.flag 2) 8 16 (v % 2 ^ 32) o) _
          (print_uint-IsSafe size str (bit_or sp.flag 2) 8 16 (v % 2 ^ 32) o h)
          (format-IsEnded rest))
  format-IsEnded (a_char {v = v} which rest) o h =
      rw (format, which)
        (IsEnded-bind size str (set_ch size v o) _ (set_ch-IsSafe size str v o h)
          (format-IsEnded rest))
  format-IsEnded (a_string {s = s} {sp = sp} which rest) o h =
      rw (format, which)
        (IsEnded-bind size str (print_text size sp.width s o) _
          (print_text-IsSafe size str sp.width s o h) (format-IsEnded rest))
  format-IsEnded (a_percent which rest) o h =
      rw (format, which)
        (IsEnded-bind size str (set_ch size 37 o) _ (set_ch-IsSafe size str 37 o h)
          (format-IsEnded rest))
  format-IsEnded (an_other {c = c} which rest) o h =
      rw (format, which)
        (IsEnded-bind size str (set_ch size 37 o) _ (set_ch-IsSafe size str 37 o h) (λ o' h'.
          IsEnded-bind size str (set_ch size c o') _ (set_ch-IsSafe size str c o' h')
            (format-IsEnded rest)))

  -- The result and the buffer of a call that has kept to its buffer.
  pub record Kept (n : ℕ) (t : ℕ → ℕ) : Type 0 where
    pub at_most : n ≤ size
    pub last : ℕ
    pub last_inside : last < size
    pub last_nul : t last ≡ 0
    pub last_place : n < size → last ≡ n
    pub nothing_behind : Keeps size str t

  abbrev printed_result : Printed → Outcome (ℕ × (ℕ → ℕ))
  printed_result (going o) = done (o.pos, o.text)
  printed_result (full o) = done (size, o.text)
  printed_result stuck = undefined

  IsEnded-Kept :
      (r : Printed)
      → IsEnded size str r
      → (n : ℕ) × (t : ℕ → ℕ) × (printed_result r ≡ done (n, t)) × Kept n t
  IsEnded-Kept (going o) (lt, nul, kept) = (
    o.pos,
    o.text,
    refl,
    record {
      at_most = omega arith;
      last = o.pos;
      last_inside = lt;
      last_nul = nul;
      last_place = λ l. refl;
      nothing_behind = kept;
    },
  )
  IsEnded-Kept (full o) (nul, kept) = (
    size,
    o.text,
    refl,
    record {
      at_most = omega arith;
      last = size - 1;
      last_inside = omega arith;
      last_nul = nul;
      last_place = λ l. absurd (omega arith);
      nothing_behind = kept;
    },
  )
  IsEnded-Kept stuck h = elim h [ ]

  -- For a buffer of at least one byte, and a format and arguments for which the behaviour is
  -- defined, `vsnprintf` returns a result of at most the size; no byte behind the buffer has
  -- changed, and a NUL stands in the buffer, directly after the characters if the result is less
  -- than the size.
  pub vsnprintf-Kept :
      (fmt : List ℕ) (args : List Argument)
      → IsAllowed fmt outside (reset_spec 0) args
      → (n : ℕ) × (t : ℕ → ℕ) × (vsnprintf size fmt args str ≡ done (n, t)) × Kept n t
  unfolding vsnprintf
  vsnprintf-Kept fmt args allowed =
      IsEnded-Kept (format size fmt outside (reset_spec 0) args (record { text = str; pos = 0 }))
        (format-IsEnded allowed (record { text = str; pos = 0 }) (positive, λ a le. refl))
