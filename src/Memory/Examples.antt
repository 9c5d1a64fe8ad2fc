-- ===== src/Memory/Examples.antt =====
-- The theorems on the copies at overlapping and at unaligned regions.
use fdu_os.Common.{◌%◌, ◌^◌, ◌≡◌}
use fdu_os.Memory.{Memory, memmove}
use fdu_os.Memory.Copies.{copied, memmove_lem}

abbrev bytes : Memory
bytes a = a % 2 ^ 8

memmove_lem_example : memmove 102 100 5 bytes 104 ≡ copied 102 100 5 bytes 104
memmove_lem_example = memmove_lem 102 100 5 bytes 104
