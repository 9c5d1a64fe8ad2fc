-- ===== src/Devices.antt =====
-- kern/dev/index/devlist.c: the device index as a list, in the order of the nodes, of the devices
-- that the entries point to. A device is told from others by its address. The position that
-- `__next` saves is an index of the list.
pub mod Sorted
pub mod Lookup
pub mod Removal
mod Examples
use fdu_os.Common.{
  ℕ, zero, suc, ◌+◌, Bool, true, false, not, Option, none, some, List, [], ◌∷◌, get_elem?, ltb,
  ◌==◌, if◌then◌else◌,
}
use fdu_os.Common.Outcome.{Outcome, done, panic, undefined, ◌>>=◌, ◌>>◌, assert}
use fdu_os.Strings.{Sign, same, minus, plus, strcmp}

-- The fields of `struct device` that the index reads; `bus` is the address of the bus device.
pub record Device : Type 0 where
  pub address : ℕ
  pub devno : ℕ
  pub bus : ℕ
  pub name : List ℕ

-- `__cmp(a, b) > 0`
abbrev pub is_after : Device → Device → Bool
is_after a b = ltb b.devno a.devno

-- The insertion of `__add`: in front of the first entry that is after the device.
unfoldable pub insert : Device → List Device → List Device
insert dev [] = dev ∷ []
insert dev (tmp ∷ rest) = if is_after tmp dev then dev ∷ tmp ∷ rest else tmp ∷ insert dev rest

-- `__add`; `allocated` says whether `kmalloc` gave memory for the entry. `false` is `EOF`.
pub add : Bool → Device → List Device → Bool × List Device
unfolding insert
add allocated dev devices = if allocated then (true, insert dev devices) else (false, devices)

-- The loop of `__remove` from index `i` on: `none` if a device is connected, else the last entry
-- of the device.
unfoldable pub scan : Device → List Device → ℕ → Option ℕ → Option (Option ℕ)
scan dev [] i this = some this
scan dev (tmp ∷ rest) i this =
    let other = scan dev rest (i + 1) this in
    let found = scan dev rest (i + 1) (some i) in
    if tmp.bus == dev.address then none else if tmp.address == dev.address then found else other

-- `list_del` of the entry at an index
unfoldable pub delete_at : ℕ → List Device → List Device
delete_at i [] = []
delete_at zero (d ∷ ds) = ds
delete_at (suc i) (d ∷ ds) = d ∷ delete_at i ds

-- `__remove`
pub remove : Device → List Device → Bool × List Device
unfolding scan delete_at
remove dev devices = elim (scan dev devices 0 none) [
  | none ↦ (false, devices)
  | some this ↦ elim this [ none ↦ (false, devices) | some i ↦ (true, delete_at i devices) ]
]

-- `__from_id`
unfoldable pub from_id : ℕ → List Device → Option Device
from_id devno [] = none
from_id devno (tmp ∷ rest) =
    let more = from_id devno rest in if tmp.devno == devno then some tmp else more

-- `__from_name`, with the name as a region of memory
unfoldable pub from_name : List ℕ → List Device → Outcome (Option Device)
from_name name [] = done none
from_name name (tmp ∷ rest) =
    let more = from_name name rest in
    strcmp tmp.name name >>= λ order. elim order [
      | same ↦ done (some tmp)
      | minus ↦ more
      | plus ↦ more
    ]

-- `__next`, with the saved position. The end is compared as an entry with the head of the list,
-- which no entry's address equals, so that behind the last device the head is read as an entry.
unfoldable pub next : Option Device → ℕ → List Device → Outcome (Device × ℕ)
next dev saved devices =
    let at : ℕ → Outcome (Device × ℕ) =
      λ i. elim (get_elem? devices i) [ none ↦ undefined | some d ↦ done (d, i) ] in
    elim dev [
      | none ↦ at 0
      | some d ↦ elim (get_elem? devices saved) [
        | none ↦ undefined
        | some s ↦ assert (s.address == d.address) >> at (saved + 1)
      ]
    ]
