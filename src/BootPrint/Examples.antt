-- ===== src/BootPrint/Examples.antt =====
-- The output of the boot loader at small formats.
use fdu_os.Common.{◌-◌, ◌^◌, ◌≤◌, ◌≡◌, refl, inl, inr, [], ◌∷◌, length, if◌then◌else◌, ◌==◌, arith}
use fdu_os.Common.Outcome.{done}
use fdu_os.BootPrint.{number, string, bprintf, write_uint, classify}
use fdu_os.BootPrint.Numbers.{read, write_uint_lem}
use fdu_os.BootPrint.Formats.{
  Counts, ended, plain, asked, takes_text, takes_unsigned, bprintf-Counts,
}

-- "%x" of 0x1f: eight digits, and a count of two.
hexadecimal :
    bprintf (37 ∷ 120 ∷ []) (number 31 ∷ []) ≡ done (2, 48 ∷ 48 ∷ 48 ∷ 48 ∷ 48 ∷ 48 ∷ 49 ∷ 102 ∷ [])
unfolding bprintf
hexadecimal = refl

-- "%d" of -7: two characters, and a count of one.
negative : bprintf (37 ∷ 100 ∷ []) (number (2 ^ 32 - 7) ∷ []) ≡ done (1, 45 ∷ 55 ∷ [])
unfolding bprintf
negative = refl

write_uint_lem_example :
    (read 16 0 (write_uint 31 16).1 ≡ 31)
    × (length (write_uint 31 16).1 ≡ (if 16 == 16 then 8 else (write_uint 31 16).0))
    × (1 ≤ (write_uint 31 16).0)
    × ((write_uint 31 16).0 ≤ length (write_uint 31 16).1)
write_uint_lem_example = write_uint_lem 31 16 (inr refl) (omega arith)

-- "a%s%u" of "b" and 5
bprintf-Counts_example :
    Counts (bprintf (97 ∷ 37 ∷ 115 ∷ 37 ∷ 117 ∷ []) (string (98 ∷ []) ∷ number 5 ∷ []))
unfolding classify
bprintf-Counts_example =
    bprintf-Counts (97 ∷ 37 ∷ 115 ∷ 37 ∷ 117 ∷ []) (string (98 ∷ []) ∷ number 5 ∷ []) (
      plain 97 (37 ∷ 115 ∷ 37 ∷ 117 ∷ []) (string (98 ∷ []) ∷ number 5 ∷ []) refl (
        asked 115 (37 ∷ 117 ∷ []) (string (98 ∷ []) ∷ number 5 ∷ []) (number 5 ∷ [])
          (takes_text (98 ∷ []) (number 5 ∷ []))
          (asked 117 [] (number 5 ∷ []) [] (takes_unsigned 10 5 [] (inl refl)) (ended []))))
