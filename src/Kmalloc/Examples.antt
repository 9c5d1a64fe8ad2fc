-- ===== src/Kmalloc/Examples.antt =====
-- `kmalloc` of 100 zeroed bytes over the sample zone, with the kernel at 3 GB.
use fdu_os.Common.{◌*◌, ◌^◌, ◌≤◌, refl, arith}
use fdu_os.Util.{div_round_up}
use fdu_os.Memory.{Memory}
use fdu_os.Buddy.Malloc.{pages_for}
use fdu_os.Buddy.Sample.{zone, blocks, zone-IsValid}
use fdu_os.Kmalloc.{kmalloc}
use fdu_os.Kmalloc.Release.{paged, KmallocFrees, kmalloc-kfree}

abbrev empty : Memory
empty a = 255

one_page : pages_for zone 100 ≤ 2 ^ 31
unfolding div_round_up
one_page = omega arith

kmalloc-kfree_example :
    KmallocFrees
      (3 * 2 ^ 30)
      100
      2
      zone
      blocks
      empty
      (kmalloc (paged (3 * 2 ^ 30)) 100 2 zone empty)
kmalloc-kfree_example =
    kmalloc-kfree (3 * 2 ^ 30) 100 2 empty (omega arith) zone-IsValid refl (omega arith)
      (omega arith) one_page
