-- ===== src/Pages/Examples.antt =====
-- `pmemset` of two pages, and of 100 bytes.
use fdu_os.Common.{ℕ, ◌*◌, ◌≡◌, some, none, arith}
use fdu_os.Memory.{Memory}
use fdu_os.Pages.{pmemset}
use fdu_os.Pages.Fill.{filled, pmemset_lem, pmemset_endless}

abbrev empty : Memory
empty a = 0

pmemset_lem_example :
    (m' : Memory) × (pmemset 1000 3 8192 32 (4096 * 2) empty ≡ some m')
    × ((a : ℕ) → m' a ≡ filled 1000 8192 32 (4096 * 2) empty a)
pmemset_lem_example = pmemset_lem 1000 3 8192 32 2 empty (omega arith) (omega arith)

pmemset_endless_example : pmemset 1000 50 8192 32 100 empty ≡ none
pmemset_endless_example =
    pmemset_endless 1000 50 8192 32 100 empty (λ e. absurd (omega (arith, e))) (omega arith)
