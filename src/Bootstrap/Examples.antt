-- ===== src/Bootstrap/Examples.antt =====
-- The theorem on the regions, at 64 KB from 1 MB on and two regions.
use fdu_os.Common.{ℕ, ◌+◌, ◌^◌, refl, [], ◌∷◌, arith}
use fdu_os.Util.{roundup, div_round_up}
use fdu_os.Memory.{Memory, memset}
use fdu_os.Bootstrap.{Bootstrap, malloc, ctor}
use fdu_os.Bootstrap.Regions.{Reached, start, got, IsReached, Reached-Stacked}

abbrev empty : Memory
empty a = 0

abbrev after : ℕ → Bootstrap
after cur = record { base = 2 ^ 20; limit = 2 ^ 20 + 65536; cur = cur }

two_regions :
    Reached (2 ^ 20) 65536 (after (2 ^ 20 + 4196)) ((2 ^ 20 + 4096, 100) ∷ (2 ^ 20, 10) ∷ [])
unfolding ctor malloc roundup div_round_up
two_regions =
    got {size = 100} (memset (2 ^ 20) 205 10 empty)
      (memset (2 ^ 20 + 4096) 205 100 (memset (2 ^ 20) 205 10 empty))
      (got {size = 10} empty (memset (2 ^ 20) 205 10 empty) start (omega arith) refl (omega arith))
      (omega arith) refl (omega arith)

Reached-Stacked_example :
    IsReached (2 ^ 20) 65536 (after (2 ^ 20 + 4196)) ((2 ^ 20 + 4096, 100) ∷ (2 ^ 20, 10) ∷ [])
Reached-Stacked_example = Reached-Stacked (2 ^ 20) 65536 (omega arith) (omega arith) two_regions
