-- ===== src/Devices/Examples.antt =====
-- The theorems on the device index at a bus and two devices, one of them on the bus.
use fdu_os.Common.{
  ℕ, suc, refl, ◌+◌, ◌≡◌, ◌==◌, true, none, List, [], ◌∷◌, ◌++◌, length, if◌then◌else◌, arith,
}
use fdu_os.Common.Outcome.{done, undefined}
use fdu_os.Strings.Compared.{stored}
use fdu_os.Devices.{Device, insert, from_id, remove, next, add}
use fdu_os.Devices.Sorted.{IsSorted, or_else, from_id-insert}
use fdu_os.Devices.Removal.{Removes, remove_lem, empty, add_step, remove_step, Reached-IsSorted}
use fdu_os.Devices.Lookup.{Named, step_from, next_lem}

abbrev device : ℕ → ℕ → ℕ → Device
device address devno bus = record {
  address = address;
  devno = devno;
  bus = bus;
  name = stored (97 ∷ devno ∷ []) [];
}

abbrev bus : Device
bus = device 1000 1 0

abbrev on_bus : Device
on_bus = device 2000 3 1000

abbrev alone : Device
alone = device 3000 2 0

abbrev index : List Device
index = bus ∷ on_bus ∷ []

from_id-insert_example :
    from_id 2 (insert alone index)
    ≡ (if 2 == 2 then or_else (from_id 2 index) alone else from_id 2 index)
from_id-insert_example = from_id-insert 2 alone index ((omega arith, tt), (tt, tt))

remove_lem_example : Removes bus index (remove bus index)
remove_lem_example = remove_lem bus index

Reached-IsSorted_example :
    IsSorted (remove on_bus (add true bus (add true on_bus (add true alone []).1).1).1).1
Reached-IsSorted_example =
    Reached-IsSorted
      (remove_step on_bus (add_step true bus (add_step true on_bus (add_step true alone empty))))

abbrev named : Device → ℕ → Named
named d n = record {
  device = record d { name = stored (97 ∷ suc n ∷ []) [] };
  text = 97 ∷ suc n ∷ [];
  behind = [];
  is_text = (omega arith, (omega arith, tt));
  holds = refl;
}

next_lem_example :
    (next none 0 [] ≡ undefined)
    × (next none 0 (bus ∷ []) ≡ done (bus, 0))
    × ((e : Device) (front back : List Device)
        → (step_from (bus, length front) (front ++ (bus ∷ e ∷ back)) ≡ done (e, length front + 1))
          × (step_from (bus, length front) (front ++ (bus ∷ [])) ≡ undefined))
next_lem_example = next_lem [] 0 bus
