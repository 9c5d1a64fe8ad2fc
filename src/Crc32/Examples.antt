-- ===== src/Crc32/Examples.antt =====
-- The checksum of the bytes of "123456789".
use fdu_os.Common.{ℕ, ◌^◌, ◌<◌, ◌≡◌, refl, List, [], ◌∷◌, All, arith}
use Prim.Native.Nat.{bit_xor}
use fdu_os.Crc32.{crc32}
use fdu_os.Crc32.Division.{divide, crc32-divide}

abbrev text : List ℕ
text = 49 ∷ 50 ∷ 51 ∷ 52 ∷ 53 ∷ 54 ∷ 55 ∷ 56 ∷ 57 ∷ []

check_value : crc32 0 text ≡ 3421780262
unfolding crc32
check_value = refl

are_bytes : All (λ byte. byte < 2 ^ 8) text
are_bytes = (
  omega arith,
  (
    omega arith,
    (
      omega arith,
      (omega arith, (omega arith, (omega arith, (omega arith, (omega arith, (omega arith, tt)))))),
    ),
  ),
)

crc32-divide_example : crc32 0 text ≡ bit_xor (divide (bit_xor 0 4294967295) text) 4294967295
crc32-divide_example = crc32-divide 0 text (omega arith) are_bytes
