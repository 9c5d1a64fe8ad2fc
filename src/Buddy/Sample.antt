-- ===== src/Buddy/Sample.antt =====
-- An allocator at rest over a zone of eight pages from 1 MB on: page 0 is in use, pages 1, 2 to 3
-- and 4 to 7 are free blocks.
use fdu_os.Common.{ℕ, ◌^◌, ◌≤◌, refl, Bool, false, List, [], ◌∷◌, ◌==◌, if◌then◌else◌, arith}
use fdu_os.Util.{div_round_up}
use fdu_os.Buddy.{BuddyPage, Buddy}
use fdu_os.Buddy.Tiles.{Tile, free, used, count}
use fdu_os.Buddy.Holes.{IsValid}
use fdu_os.Buddy.Malloc.{pages_for}

abbrev page_of : ℕ → Bool → BuddyPage
page_of order in_use = record { byte_size = 0; order = order; in_use = in_use; cur_page_count = 1 }

abbrev pub zone : Buddy
zone = record {
  pages = λ i.
      if i == 2 then page_of 1 false else if i == 4 then page_of 2 false else page_of 0 (i == 0);
  list = λ k. if k == 0 then 1 ∷ [] else if k == 1 then 2 ∷ [] else if k == 2 then 4 ∷ [] else [];
  max_order = 3;
  base = 2 ^ 20;
  page_size = 4096;
  page_count = 8;
  free_page_count = 7;
  waste_page_count = 0;
}

abbrev pub blocks : List Tile
blocks = used 0 1 ∷ free 0 ∷ free 1 ∷ free 2 ∷ []

pub zone-IsValid : IsValid zone blocks
unfolding count
zone-IsValid = record {
  cover = (
    record {
      aligned = refl;
      order_le = omega arith;
      page_order = refl;
      page_use = refl;
      asked = (refl, omega arith);
    },
    (
      record {
        aligned = refl;
        order_le = omega arith;
        page_order = refl;
        page_use = refl;
        asked = tt;
      },
      (
        record {
          aligned = refl;
          order_le = omega arith;
          page_order = refl;
          page_use = refl;
          asked = tt;
        },
        (
          record {
            aligned = refl;
            order_le = omega arith;
            page_order = refl;
            page_use = refl;
            asked = tt;
          },
          refl,
        ),
      ),
    ),
  );
  listed = λ o j. ground arith;
  free_count = refl;
  waste_count = refl;
  order_small = omega arith;
  count_small = omega arith;
  size_pos = omega arith;
}

pub three_pages : pages_for zone 10000 ≤ 2 ^ 31
unfolding div_round_up
three_pages = omega arith
