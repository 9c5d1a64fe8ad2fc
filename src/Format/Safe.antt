-- ===== src/Format/Safe.antt =====
-- Each part of the output keeps to the buffer.
use Prim.Native.Nat.{bit_and, bit_or}
use fdu_os.Common.{
  ℕ, zero, suc, ◌+◌, ◌-◌, ◌%◌, ◌^◌, ◌≤◌, ◌<◌, ◌≡◌, refl, false, ◌==◌, ltb, Bool-cases, inl, inr,
  Option, none, some, List, [], ◌∷◌, ◌++◌, length, get_elem?, arith,
}
use fdu_os.Format.{
  ◌>>=◌, Output, Printed, going, full, stuck, set_ch, print_digits, print_padded, print_string,
  print_spaces, digits_of, print_uint, bits_of, print_int, print_text, Spec,
}

module _ (size : ℕ) (str : ℕ → ℕ) where
  -- Nothing behind the buffer has changed.
  abbrev pub Keeps : (ℕ → ℕ) → Type 0
  Keeps t = (a : ℕ) → size ≤ a → t a ≡ str a

  abbrev pub IsInside : Output → Type 0
  IsInside o = (o.pos < size) × Keeps o.text

  -- Output goes on inside the buffer, or has ended in it.
  abbrev pub IsSafe : Printed → Type 0
  IsSafe (going o) = IsInside o
  IsSafe (full o) = (o.text (size - 1) ≡ 0) × Keeps o.text
  IsSafe stuck = ⊥

  -- As `IsSafe`, with the NUL written.
  abbrev pub IsEnded : Printed → Type 0
  IsEnded (going o) = (o.pos < size) × (o.text o.pos ≡ 0) × Keeps o.text
  IsEnded (full o) = (o.text (size - 1) ≡ 0) × Keeps o.text
  IsEnded stuck = ⊥

  IsSafe-bind :
      (r : Printed) (k : Output → Printed)
      → IsSafe r
      → ((o : Output) → IsInside o → IsSafe (k o))
      → IsSafe (r >>= k)
  IsSafe-bind (going o) k h then_safe = then_safe o h
  IsSafe-bind (full o) k h then_safe = h
  IsSafe-bind stuck k h then_safe = elim h [ ]

  pub IsEnded-bind :
      (r : Printed) (k : Output → Printed)
      → IsSafe r
      → ((o : Output) → IsInside o → IsEnded (k o))
      → IsEnded (r >>= k)
  IsEnded-bind (going o) k h then_ended = then_ended o h
  IsEnded-bind (full o) k h then_ended = h
  IsEnded-bind stuck k h then_ended = elim h [ ]

  pub set_ch-IsSafe : (ch : ℕ) (o : Output) → IsInside o → IsSafe (set_ch size ch o)
  unfolding set_ch
  set_ch-IsSafe ch o (lt, kept) = elim (Bool-cases (o.pos + 1 == size)) [
    | inl e ↦ rw e (ground arith, λ a le. ground (arith, kept a le))
    | inr ne ↦ rw ne (ground arith, λ a le. ground (arith, kept a le))
  ]

  print_string-IsSafe : (s : List ℕ) (o : Output) → IsInside o → IsSafe (print_string size s o)
  unfolding print_string
  print_string-IsSafe [] o h = h
  print_string-IsSafe (ch ∷ s) o h =
      IsSafe-bind (set_ch size ch o) _ (set_ch-IsSafe ch o h) (print_string-IsSafe s)

  print_spaces-IsSafe : (n : ℕ) (o : Output) → IsInside o → IsSafe (print_spaces size n o)
  unfolding print_spaces
  print_spaces-IsSafe zero o h = h
  print_spaces-IsSafe (suc n) o h =
      IsSafe-bind (set_ch size 32 o) _ (set_ch-IsSafe 32 o h) (print_spaces-IsSafe n)

  pub print_text-IsSafe :
      (width : ℕ) (arg : Option (List ℕ)) (o : Output)
      → IsInside o
      → IsSafe (print_text size width arg o)
  unfolding print_text
  print_text-IsSafe width none o h =
      let s = 40 ∷ 110 ∷ 117 ∷ 108 ∷ 108 ∷ 41 ∷ [] in
      IsSafe-bind (print_string size s o) _ (print_string-IsSafe s o h)
        (print_spaces-IsSafe (width - length s))
  print_text-IsSafe width (some s) o h =
      IsSafe-bind (print_string size s o) _ (print_string-IsSafe s o h)
        (print_spaces-IsSafe (width - length s))

  print_padded-IsSafe :
      (width fill : ℕ) (buf : List ℕ) (o : Output)
      → IsInside o
      → IsSafe (print_padded size width fill buf o)
  unfolding print_padded
  print_padded-IsSafe zero fill buf o h = h
  print_padded-IsSafe (suc width) fill buf o h =
      let rest = print_padded-IsSafe width fill buf in
      elim (get_elem? buf width)
        as (λ ch. IsSafe (elim ch [
          | none ↦ set_ch size fill o >>= print_padded size width fill buf
          | some ch ↦ set_ch size ch o >>= print_padded size width fill buf
        ])) [
          | none ↦ IsSafe-bind (set_ch size fill o) _ (set_ch-IsSafe fill o h) rest
          | some ch ↦ IsSafe-bind (set_ch size ch o) _ (set_ch-IsSafe ch o h) rest
        ]

  get_elem?-some : (buf : List ℕ) (n : ℕ) → n < length buf → (c : ℕ) × (get_elem? buf n ≡ some c)
  get_elem?-some [] n lt = absurd (omega arith)
  get_elem?-some (c ∷ cs) zero lt = (c, refl)
  get_elem?-some (c ∷ cs) (suc n) lt = get_elem?-some cs n (omega arith)

  print_digits-IsSafe :
      (n : ℕ) (buf : List ℕ) (o : Output)
      → n ≤ length buf
      → IsInside o
      → IsSafe (print_digits size n buf o)
  unfolding print_digits
  print_digits-IsSafe zero buf o le h = h
  print_digits-IsSafe (suc n) buf o le h =
      let (ch, here) = get_elem?-some buf n (omega arith) in
      rw (print_digits, here)
        (IsSafe-bind (set_ch size ch o) _ (set_ch-IsSafe ch o h)
          (λ o' h'. print_digits-IsSafe n buf o' (omega arith) h'))

  pub print_uint-IsSafe :
      (flag width base uval : ℕ) (o : Output)
      → IsInside o
      → IsSafe (print_uint size flag width base uval o)
  unfolding print_uint
  print_uint-IsSafe flag width base uval o h =
      let buf = digits_of base uval in
      let number_of : (o' : Output) → IsInside o' → IsSafe (print_digits size (length buf) buf o') =
        λ o' h'. print_digits-IsSafe (length buf) buf o' (omega arith) h' in
      let padded = print_padded-IsSafe width 48 buf in
      elim (Bool-cases (bit_and flag 256 == 0)) [
        | inl plus ↦ elim (Bool-cases (width == 0)) [
          | inl e ↦ rw (plus, e) (number_of o h)
          | inr ne ↦ elim (Bool-cases (bit_or flag 2 == 0)) [
            | inl unpadded ↦ rw (plus, ne, unpadded) (print_padded-IsSafe width 32 buf o h)
            | inr some_flag ↦ rw (plus, ne, some_flag) (padded o h)
          ]
        ]
        | inr minus ↦ elim (Bool-cases (width == 0)) [
          | inl e ↦
              rw (minus, e) (IsSafe-bind (set_ch size 45 o) _ (set_ch-IsSafe 45 o h) (number_of))
          | inr ne ↦ elim (Bool-cases (bit_or flag 2 == 0)) [
            | inl unpadded ↦
                rw (minus, ne, unpadded) (print_padded-IsSafe width 32 (buf ++ (45 ∷ [])) o h)
            | inr some_flag ↦
                rw (minus, ne, some_flag)
                  (IsSafe-bind (set_ch size 45 o) _ (set_ch-IsSafe 45 o h) padded)
          ]
        ]
      ]

  pub print_int-IsSafe :
      (sp : Spec) (v : ℕ) (o : Output)
      → (v % 2 ^ bits_of sp.longs == 2 ^ 63) ≡ false
      → IsInside o
      → IsSafe (print_int size sp v o)
  unfolding print_int
  print_int-IsSafe sp v o least h =
      let bits = bits_of sp.longs in
      elim (Bool-cases (ltb (v % 2 ^ bits) (2 ^ (bits - 1)))) [
        | inl plus ↦ rw plus (print_uint-IsSafe sp.flag sp.width 10 (v % 2 ^ bits) o h)
        | inr minus ↦
            rw (minus, least)
              (print_uint-IsSafe (bit_or sp.flag 256) sp.width 10 (2 ^ bits - v % 2 ^ bits) o h)
      ]
