-- ===== src/Devices/Sorted.antt =====
-- The index is kept in the order of the device numbers.
use fdu_os.Common.{
  ℕ, ◌≤◌, ◌<◌, ◌≡◌, refl, false, Option, none, some, List, [], ◌∷◌, ◌++◌, All, ◌==◌, if◌then◌else◌,
  Bool-cases, inl, inr, arith,
}
use fdu_os.Devices.{Device, is_after, insert, from_id}

abbrev pub Below : ℕ → Device → Type 0
Below n d = n ≤ d.devno

abbrev pub IsSorted : List Device → Type 0
IsSorted [] = Unit
IsSorted (d ∷ ds) = All (Below d.devno) ds × IsSorted ds

pub All-insert :
    (P : Device → Type 0) (d : Device) (ds : List Device) → P d → All P ds → All P (insert d ds)
unfolding insert
All-insert P d [] h hs = (h, tt)
All-insert P d (e ∷ es) h hs = elim (Bool-cases (is_after e d)) [
  | inl here ↦ rw here (h, hs)
  | inr later ↦ rw later (hs.0, All-insert P d es h hs.1)
]

weaken-Below : (n m : ℕ) (ds : List Device) → n ≤ m → All (Below m) ds → All (Below n) ds
weaken-Below n m [] le h = tt
weaken-Below n m (d ∷ ds) le h = (omega (arith, h.0), weaken-Below n m ds le h.1)

pub insert-IsSorted : (d : Device) (ds : List Device) → IsSorted ds → IsSorted (insert d ds)
unfolding insert
insert-IsSorted d [] h = (tt, tt)
insert-IsSorted d (e ∷ es) h = elim (Bool-cases (is_after e d)) [
  | inl here ↦
      let le : d.devno ≤ e.devno = ground arith in
      rw here ((le, weaken-Below d.devno e.devno es le h.0), h)
  | inr later ↦
      let le : e.devno ≤ d.devno = ground arith in
      rw later (All-insert (Below e.devno) d es le h.0, insert-IsSorted d es h.1)
]

All-drop :
    (P : Device → Type 0) (front : List Device) (d : Device) (back : List Device)
    → All P (front ++ (d ∷ back))
    → All P (front ++ back)
All-drop P [] d back h = h.1
All-drop P (e ∷ es) d back h = (h.0, All-drop P es d back h.1)

pub drop-IsSorted :
    (front : List Device) (d : Device) (back : List Device)
    → IsSorted (front ++ (d ∷ back))
    → IsSorted (front ++ back)
drop-IsSorted [] d back h = h.1
drop-IsSorted (e ∷ es) d back h =
    (All-drop (Below e.devno) es d back h.0, drop-IsSorted es d back h.1)

-- No device of a number below all the numbers.
from_id-Below : (n m : ℕ) (ds : List Device) → n < m → All (Below m) ds → from_id n ds ≡ none
unfolding from_id
from_id-Below n m [] lt h = refl
from_id-Below n m (d ∷ ds) lt h =
    let miss : (d.devno == n) ≡ false = ground (arith, h.0) in rw miss (from_id-Below n m ds lt h.1)

-- What `from_id` finds in an index with one device more.
abbrev pub or_else : Option Device → Device → Option Device
or_else none d = some d
or_else (some e) d = some e

-- In a sorted index, the insertion of a device changes what `from_id` finds for the device's own
-- number only, and there only if nothing was found: the older of two devices of a number stays
-- the one that is found.
pub from_id-insert :
    (n : ℕ) (d : Device) (ds : List Device)
    → IsSorted ds
    → from_id n (insert d ds) ≡ (if d.devno == n then or_else (from_id n ds) d else from_id n ds)
unfolding from_id insert
from_id-insert n d [] h = refl
from_id-insert n d (e ∷ es) h = elim (Bool-cases (is_after e d)) [
  | inl here ↦ elim (Bool-cases (d.devno == n)) [
    | inl own ↦
        let lt : n < e.devno = ground arith in
        let miss : (e.devno == n) ≡ false = ground arith in
        let rest = from_id-Below n e.devno es lt h.0 in rw (here, own, miss, rest) refl
    | inr not_own ↦ rw (here, not_own) refl
  ]
  | inr later ↦ elim (Bool-cases (e.devno == n)) [
    | inl hit ↦
        rw (later, hit)
          (elim (Bool-cases (d.devno == n)) [
            | inl own ↦ rw own refl
            | inr not_own ↦ rw not_own refl
          ])
    | inr miss ↦ rw (later, miss) (from_id-insert n d es h.1)
  ]
]
