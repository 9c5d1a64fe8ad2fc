-- ===== src/Buddy/Examples.antt =====
-- The theorems on the buddy allocator at the sample zone of eight pages.
use fdu_os.Common.{◌+◌, ◌*◌, ◌^◌, ◌≤◌, ◌≡◌, refl, true, arith}
use fdu_os.Common.Outcome.{done, panic}
use fdu_os.Util.{div_round_up}
use fdu_os.Buddy
use fdu_os.Buddy.{BuddyPage, Buddy, malloc, aligned_malloc, ctor, initial_page}
use fdu_os.Buddy.Sample.{zone, blocks, zone-IsValid, three_pages}
use fdu_os.Buddy.Tiles.{count}
use fdu_os.Buddy.Holes.{IsValid}
use fdu_os.Buddy.Malloc.{Mallocs, malloc_lem, pages_for}
use fdu_os.Buddy.Free.{Freed, free_lem}
use fdu_os.Buddy.RoundTrip.{FreesAgain, malloc-free}
use fdu_os.Buddy.Aligned.{MallocsAligned, aligned_malloc_lem}
use fdu_os.Buddy.Reject.{free_twice}
use fdu_os.Buddy.Construct.{ctor-IsValid, single_pages, IsLargestOrder}

malloc_lem_example : Mallocs zone blocks (pages_for zone 10000) (malloc 10000 zone)
malloc_lem_example = malloc_lem 10000 zone-IsValid three_pages

free_lem_example :
    (b' : Buddy) × (Buddy.free (2 ^ 20 + 4096 * 0) zone ≡ done b') × Freed zone b' blocks 0 1 0
free_lem_example = free_lem 0 1 0 zone-IsValid refl (omega arith) (omega arith)

malloc-free_example : FreesAgain zone blocks (malloc 10000 zone)
malloc-free_example = malloc-free zone-IsValid refl (omega arith) (omega arith) 10000 three_pages

three_pages_aligned : div_round_up 64 10000 4096 ≤ 2 ^ 31
unfolding div_round_up
three_pages_aligned = omega arith

aligned_malloc_lem_example :
    MallocsAligned zone blocks (pages_for zone 10000) (2 ^ 13) (aligned_malloc 10000 (2 ^ 13) zone)
aligned_malloc_lem_example =
    aligned_malloc_lem zone-IsValid 12 13 10000 refl (omega arith) refl (omega arith) (omega arith)
      (omega arith) three_pages_aligned

free_twice_example : Buddy.free (2 ^ 20 + 4096 * 4) zone ≡ panic
unfolding count
free_twice_example = free_twice 2 4 zone-IsValid refl (omega arith) (omega arith)

ctor-IsValid_example :
    (b : Buddy) × (ctor true (2 ^ 20) 4096 8 ≡ done b)
    × IsValid b (single_pages 8)
    × IsLargestOrder 8 b.max_order
    × (b.page_count ≡ 8)
ctor-IsValid_example = ctor-IsValid (2 ^ 20) 4096 8 (omega arith) (omega arith)
