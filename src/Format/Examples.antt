-- ===== src/Format/Examples.antt =====
-- Formatted output at small formats.
use fdu_os.Common.{ℕ, ◌%◌, ◌^◌, ◌≡◌, refl, List, [], ◌∷◌, arith, some}
use fdu_os.Common.Outcome.{Outcome, done, ◌>>=◌}
use fdu_os.Format.{number, string, outside, reset_spec, bits_of, classify, vsnprintf}
use fdu_os.Format.Allowed.{IsAllowed, at_end, plain_char, percent_sign, a_signed, a_string}
use fdu_os.Format.Bounds.{Kept, vsnprintf-Kept}
use fdu_os.Format.Numbers.{IsNumber, hexadecimal, vsnprintf_unsigned}

abbrev dots : ℕ → ℕ
dots a = 255

abbrev first : ℕ × (ℕ → ℕ) → Outcome (List ℕ)
first (n, t) = done (n ∷ t 0 ∷ t 1 ∷ t 2 ∷ t 3 ∷ t 4 ∷ [])

-- "%d" of -42
negative :
    (vsnprintf 10 (37 ∷ 100 ∷ []) (number 4294967254 ∷ []) dots >>= first)
    ≡ done (3 ∷ 45 ∷ 52 ∷ 50 ∷ 0 ∷ 255 ∷ [])
unfolding vsnprintf
negative = refl

-- "%2d" of 123: the width cuts the number off.
cut_off :
    (vsnprintf 10 (37 ∷ 50 ∷ 100 ∷ []) (number 123 ∷ []) dots >>= first)
    ≡ done (2 ∷ 50 ∷ 51 ∷ 0 ∷ 255 ∷ 255 ∷ [])
unfolding vsnprintf
cut_off = refl

-- "%d: %s"
two_directives :
    IsAllowed
      (37 ∷ 100 ∷ 58 ∷ 32 ∷ 37 ∷ 115 ∷ [])
      outside
      (reset_spec 0)
      (number 4294967254 ∷ string (some (97 ∷ [])) ∷ [])
unfolding classify bits_of
two_directives =
    percent_sign
      (a_signed refl refl (plain_char refl (plain_char refl (percent_sign (a_string refl at_end)))))

vsnprintf-Kept_example :
    (n : ℕ) × (t : ℕ → ℕ) × (vsnprintf 4
        (37 ∷ 100 ∷ 58 ∷ 32 ∷ 37 ∷ 115 ∷ [])
        (number 4294967254 ∷ string (some (97 ∷ [])) ∷ [])
        dots
      ≡ done (n, t))
    × Kept 4 (omega arith) dots n t
vsnprintf-Kept_example =
    vsnprintf-Kept 4 (omega arith) dots (37 ∷ 100 ∷ 58 ∷ 32 ∷ 37 ∷ 115 ∷ [])
      (number 4294967254 ∷ string (some (97 ∷ [])) ∷ []) two_directives

-- "%x" of 48879
vsnprintf_unsigned_example :
    (n : ℕ) × (text : ℕ → ℕ) × (vsnprintf 32 (37 ∷ 120 ∷ []) (number 48879 ∷ []) dots
      ≡ done (n, text))
    × IsNumber 16 (48879 % 2 ^ 32) n text
vsnprintf_unsigned_example = vsnprintf_unsigned 32 48879 dots hexadecimal (omega arith)
