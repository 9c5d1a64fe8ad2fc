-- ===== src/Strings/Examples.antt =====
-- The theorems on `strcmp` at the strings "ab" and "ac", and on `strlcpy` with too small a buffer.
use fdu_os.Common.{ℕ, length, ◌≡◌, [], ◌∷◌, arith}
use fdu_os.Common.Outcome.{done}
use fdu_os.Util.{min2}
use fdu_os.Memory.{Memory}
use fdu_os.Strings.{strlcpy}
use fdu_os.Strings.Bounded.{with_text, strlcpy_lem}
use fdu_os.Strings.Compared.{stored}

abbrev ones : Memory
ones a = 1

strlcpy_lem_example :
    (m' : Memory) × (strlcpy 500 (stored (97 ∷ 98 ∷ []) []) 1 ones
      ≡ done (length {A = ℕ} (97 ∷ 98 ∷ []), m'))
    × ((a : ℕ)
        → m' a ≡ with_text 500 (97 ∷ 98 ∷ []) (min2 1 (length {A = ℕ} (97 ∷ 98 ∷ []))) ones a)
strlcpy_lem_example =
    strlcpy_lem 500 1 (97 ∷ 98 ∷ []) [] ones (omega arith, (omega arith, tt)) (omega arith)
