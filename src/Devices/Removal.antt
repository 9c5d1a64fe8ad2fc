-- ===== src/Devices/Removal.antt =====
-- What `__remove` takes out, and the states of the index that the calls lead to.
use mathlib.Core.Path.{subst}
use fdu_os.Common.{
  ℕ, suc, ◌+◌, ◌≡◌, ◌≢◌, refl, sym, ◌∙◌, ap, Bool, true, false, Option, none, some, List, [], ◌∷◌,
  ◌++◌, length, All, ◌==◌, ==→eq, Bool-cases, inl, inr, arith,
}
use fdu_os.Devices.{Device, add, scan, delete_at, remove}
use fdu_os.Devices.Sorted.{IsSorted, insert-IsSorted, drop-IsSorted}

abbrev pub Unconnected : Device → Device → Type 0
Unconnected dev d = d.bus ≢ dev.address

abbrev pub Another : Device → Device → Type 0
Another dev d = d.address ≢ dev.address

-- How `__remove` ends.
pub data Removes (dev : Device) (ds : List Device) : Bool × List Device → Type 0 where
  connected : ¬ All (Unconnected dev) ds → Removes dev ds (false, ds)
  absent : All (Unconnected dev) ds → All (Another dev) ds → Removes dev ds (false, ds)
  removed :
      (front : List Device) (d : Device) (back : List Device)
      → All (Unconnected dev) ds
      → d.address ≡ dev.address
      → All (Another dev) back
      → ds ≡ front ++ (d ∷ back)
      → Removes dev ds (true, front ++ back)

-- What the scan finds in a list whose first index is `i`.
data Scanned (dev : Device) (ds : List Device) (i : ℕ) (this : Option ℕ)
    : Option (Option ℕ) → Type 0 where
  busy : ¬ All (Unconnected dev) ds → Scanned dev ds i this none
  nowhere : All (Unconnected dev) ds → All (Another dev) ds → Scanned dev ds i this (some this)
  here :
      (front : List Device) (d : Device) (back : List Device)
      → All (Unconnected dev) ds
      → d.address ≡ dev.address
      → All (Another dev) back
      → ds ≡ front ++ (d ∷ back)
      → Scanned dev ds i this (some (some (i + length front)))

module _ (dev : Device) where
  -- One entry in front that the scan passes by.
  passed :
      {ds : List Device} {i : ℕ} {this : Option ℕ} {r : Option (Option ℕ)} (d : Device)
      → Unconnected dev d
      → Another dev d
      → Scanned dev ds (i + 1) this r
      → Scanned dev (d ∷ ds) i this r
  passed d u a (busy h) = busy (λ all. h all.1)
  passed d u a (nowhere us others) = nowhere (u, us) (a, others)
  passed {ds} {i} {this} d u a (here front e back us same later split) =
      subst (λ x. Scanned dev (d ∷ ds) i this (some (some x))) (omega arith)
        (here (d ∷ front) e back (u, us) same later (ap (λ x. d ∷ x) split))

  -- One entry in front that is the device.
  noted :
      {ds : List Device} {i : ℕ} {this : Option ℕ} {r : Option (Option ℕ)} (d : Device)
      → Unconnected dev d
      → d.address ≡ dev.address
      → Scanned dev ds (i + 1) (some i) r
      → Scanned dev (d ∷ ds) i this r
  noted d u a (busy h) = busy (λ all. h all.1)
  noted {ds} {i} {this} d u a (nowhere us others) =
      subst (λ x. Scanned dev (d ∷ ds) i this (some (some x))) (omega arith)
        (here [] d ds (u, us) a others refl)
  noted {ds} {i} {this} d u a (here front e back us same later split) =
      subst (λ x. Scanned dev (d ∷ ds) i this (some (some x))) (omega arith)
        (here (d ∷ front) e back (u, us) same later (ap (λ x. d ∷ x) split))

  scan-Scanned :
      (ds : List Device) (i : ℕ) (this : Option ℕ) → Scanned dev ds i this (scan dev ds i this)
  unfolding scan
  scan-Scanned [] i this = nowhere tt tt
  scan-Scanned (d ∷ ds) i this = elim (Bool-cases (d.bus == dev.address)) [
    | inl on_bus ↦ rw on_bus (busy (λ all. absurd (ground (arith, all.0))))
    | inr off_bus ↦
        let u : Unconnected dev d = ground arith in
        elim (Bool-cases (d.address == dev.address)) [
          | inl own ↦
              rw (off_bus, own)
                (noted d u (==→eq d.address dev.address own) (scan-Scanned ds (i + 1) (some i)))
          | inr other ↦
              let a : Another dev d = ground arith in
              rw (off_bus, other) (passed d u a (scan-Scanned ds (i + 1) this))
        ]
  ]

  delete_at-length :
      (front : List Device) (d : Device) (back : List Device)
      → delete_at (0 + length front) (front ++ (d ∷ back)) ≡ front ++ back
  unfolding delete_at
  delete_at-length [] d back = refl
  delete_at-length (e ∷ es) d back =
      let n : 0 + suc (length es) ≡ suc (0 + length es) = omega arith in
      rw n (ap (λ x. e ∷ x) (delete_at-length es d back))

  settled :
      (ds : List Device) {r : Option (Option ℕ)}
      → Scanned dev ds 0 none r
      → Removes dev ds (elim r [
        | none ↦ (false, ds)
        | some this ↦ elim this [ none ↦ (false, ds) | some i ↦ (true, delete_at i ds) ]
      ])
  settled ds (busy h) = connected h
  settled ds (nowhere us others) = absent us others
  settled ds (here front d back us same later split) =
      subst (λ x. Removes dev ds (true, x))
        (sym (ap (delete_at (0 + length front)) split ∙ delete_at-length front d back))
        (removed front d back us same later split)

  -- `__remove` fails and changes nothing if a device is connected to the bus that is to be
  -- removed, or if the device has no entry. Otherwise it takes out the device's last entry, and
  -- the other entries keep their order.
  pub remove_lem : (ds : List Device) → Removes dev ds (remove dev ds)
  unfolding remove
  remove_lem ds = settled ds (scan-Scanned ds 0 none)

-- The states of the index that `__add` and `__remove` lead to.
pub data Reached : List Device → Type 0 where
  empty : Reached []
  add_step :
      {ds : List Device} (allocated : Bool) (d : Device)
      → Reached ds
      → Reached (add allocated d ds).1
  remove_step : {ds : List Device} (d : Device) → Reached ds → Reached (remove d ds).1

Removes-IsSorted :
    {dev : Device} {ds : List Device} {r : Bool × List Device}
    → IsSorted ds
    → Removes dev ds r
    → IsSorted r.1
Removes-IsSorted h (connected _) = h
Removes-IsSorted h (absent _ _) = h
Removes-IsSorted h (removed front d back _ _ _ split) = drop-IsSorted front d back (rw split at h)

-- Whatever additions and removals were made, and whether or not they had memory, the index is in
-- the order of the device numbers.
pub Reached-IsSorted : {ds : List Device} → Reached ds → IsSorted ds
unfolding add
Reached-IsSorted empty = tt
Reached-IsSorted (add_step {ds} true d before) = insert-IsSorted d ds (Reached-IsSorted before)
Reached-IsSorted (add_step false d before) = Reached-IsSorted before
Reached-IsSorted (remove_step {ds} d before) =
    Removes-IsSorted (Reached-IsSorted before) (remove_lem d ds)
