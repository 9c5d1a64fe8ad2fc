-- ===== src/Devices/Lookup.antt =====
-- Looking up a device by its name, and going through the devices.
use fdu_os.Common.{
  ℕ, suc, ◌+◌, ◌≡◌, ◌≢◌, ◌↔◌, refl, ◌∙◌, ap, Option, none, some, List, [], ◌∷◌, ◌++◌, length,
  get_elem?, get_elem?-append_length, All, ==_refl, arith,
}
use fdu_os.Common.Outcome.{Outcome, done, undefined}
use fdu_os.Strings.{Sign, same, minus, plus, strcmp}
use fdu_os.Strings.Compared.{IsText, stored, text_order, text_order-same, strcmp_lem}
use fdu_os.Devices.{Device, from_name, next}

-- A device whose name is a terminated string, and the string.
pub record Named : Type 0 where
  pub device : Device
  pub text : List ℕ
  pub behind : List ℕ
  pub is_text : IsText text
  pub holds : device.name ≡ stored text behind

abbrev pub devices_of : List Named → List Device
devices_of [] = []
devices_of (n ∷ ns) = n.device ∷ devices_of ns

-- How a search by name ends.
pub data FindsName (text : List ℕ) (ns : List Named) : Option Device → Type 0 where
  absent : All (λ n. n.text ≢ text) ns → FindsName text ns none
  first :
      (front : List Named) (n : Named) (back : List Named)
      → ns ≡ front ++ (n ∷ back)
      → All (λ m. m.text ≢ text) front
      → n.text ≡ text
      → FindsName text ns (some n.device)

module _ (text behind : List ℕ) (is_text : IsText text) where
  another :
      {ns : List Named} {r : Option Device} (n : Named)
      → n.text ≢ text
      → FindsName text ns r
      → FindsName text (n ∷ ns) r
  another n ne (absent others) = absent (ne, others)
  another n ne (first front m back split others e) =
      first (n ∷ front) m back (ap (λ x. n ∷ x) split) (ne, others) e

  order_step :
      {ns : List Named} {r : Option Device} {more : Outcome (Option Device)} (n : Named) (s : Sign)
      → more ≡ done r
      → (s ≡ same) ↔ (n.text ≡ text)
      → FindsName text ns r
      → (q : Option Device) × ((elim s [ same ↦ done (some n.device) | minus ↦ more | plus ↦ more ])
          ≡ done q)
        × FindsName text (n ∷ ns) q
  order_step {ns} n same e w f = (_, refl, first [] n ns refl tt (w.0 refl))
  order_step n minus e w f = (_, e, another n (λ t. let h = w.1 t in cc) f)
  order_step n plus e w f = (_, e, another n (λ t. let h = w.1 t in cc) f)

  -- For a terminated name, among devices with terminated names, `__from_name` reads nothing
  -- behind the terminators, and returns the first device of that name, or NULL if there is none.
  pub from_name_lem :
      (ns : List Named)
      → (r : Option Device) × (from_name (stored text behind) (devices_of ns) ≡ done r)
        × FindsName text ns r
  unfolding from_name
  from_name_lem [] = (none, refl, absent tt)
  from_name_lem (n ∷ ns) =
      let (r, e, f) = from_name_lem ns in
      let order : strcmp n.device.name (stored text behind) ≡ done (text_order n.text text) =
        ap (λ x. strcmp x (stored text behind)) n.holds
        ∙ strcmp_lem n.text text n.behind behind n.is_text is_text in
      let (q, d, g) = order_step n (text_order n.text text) e (text_order-same n.text text) f in
      (q, rw order d, g)

-- The device and the position that one `__next` after another returns.
abbrev pub step_from : Device × ℕ → List Device → Outcome (Device × ℕ)
step_from (d, i) ds = next (some d) i ds

-- Going through the devices of the index with `__next` starts at the first device, and from each
-- device but the last leads to the one behind it; behind the last device, and in an empty index,
-- it reads the list's head as an entry, which is undefined.
pub next_lem :
    (ds : List Device) (i : ℕ) (d : Device)
    → (next none i [] ≡ undefined)
      × (next none i (d ∷ ds) ≡ done (d, 0))
      × ((e : Device) (front back : List Device)
          → (step_from (d, length front) (front ++ (d ∷ e ∷ back)) ≡ done (e, length front + 1))
            × (step_from (d, length front) (front ++ (d ∷ [])) ≡ undefined))
unfolding next
next_lem ds i d = (refl, refl, λ e front back. (onward e front back, at_end front))
  where
    second :
        (e : Device) (front back : List Device)
        → get_elem? (front ++ (d ∷ e ∷ back)) (length front + 1) ≡ some e
    second e [] back = refl
    second e (x ∷ xs) back =
        let n : suc (length xs) + 1 ≡ suc (length xs + 1) = omega arith in rw n (second e xs back)

    beyond : (front : List Device) → get_elem? (front ++ (d ∷ [])) (length front + 1) ≡ none
    beyond [] = refl
    beyond (x ∷ xs) =
        let n : suc (length xs) + 1 ≡ suc (length xs + 1) = omega arith in rw n (beyond xs)

    onward :
        (e : Device) (front back : List Device)
        → next (some d) (length front) (front ++ (d ∷ e ∷ back)) ≡ done (e, length front + 1)
    onward e front back =
        rw
          (next, get_elem?-append_length front d (e ∷ back), ==_refl d.address, second e front back)
          refl

    at_end : (front : List Device) → next (some d) (length front) (front ++ (d ∷ [])) ≡ undefined
    at_end front =
        rw (next, get_elem?-append_length front d [], ==_refl d.address, beyond front) refl
