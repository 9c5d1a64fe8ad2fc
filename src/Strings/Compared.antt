-- ===== src/Strings/Compared.antt =====
-- `strcmp` on terminated strings: it stays inside them, and its sign is their order.
use fdu_os.Common.{
  ℕ, suc, ◌+◌, ◌<◌, ◌≡◌, ◌≢◌, ◌↔◌, refl, ap, ◌∙◌, Bool, true, false, List, [], ◌∷◌, ◌++◌, length,
  All, ltb, ◌==◌, ==→eq, if◌then◌else◌, Bool-cases, inl, inr, arith,
}
use fdu_os.Common.Outcome.{done}
use fdu_os.Util.{min2}
use fdu_os.Strings.{Sign, minus, same, plus, memcmp, strlen_from, strlen, strcmp}

-- A string without its terminator: no byte of it is 0.
abbrev pub IsText : List ℕ → Type 0
IsText s = All (λ x. 0 < x) s

-- The region that holds a string, with whatever stands behind it.
abbrev pub stored : List ℕ → List ℕ → List ℕ
stored s behind = s ++ (0 ∷ behind)

-- The order of strings, as dictionaries have it.
abbrev pub text_order : List ℕ → List ℕ → Sign
text_order [] [] = same
text_order [] (y ∷ ys) = minus
text_order (x ∷ xs) [] = plus
text_order (x ∷ xs) (y ∷ ys) = if x == y then text_order xs ys else if ltb x y then minus else plus

pub strlen_from-stored :
    (r : ℕ) (s behind : List ℕ) → IsText s → strlen_from r (stored s behind) ≡ done (r + length s)
unfolding strlen_from
strlen_from-stored r [] behind h = ap done (omega arith)
strlen_from-stored r (x ∷ xs) behind h =
    let e : (x == 0) ≡ false = ground (arith, h.0) in
    rw e (strlen_from-stored (r + 1) xs behind h.1 ∙ ap done (omega arith))

memcmp-stored :
    (s1 s2 b1 b2 : List ℕ)
    → IsText s1
    → IsText s2
    → memcmp (stored s1 b1) (stored s2 b2) (min2 (length s1) (length s2) + 1)
      ≡ done (text_order s1 s2)
unfolding memcmp min2
memcmp-stored [] [] b1 b2 h1 h2 = refl
memcmp-stored [] (y ∷ ys) b1 b2 h1 h2 =
    let n : min2 0 (suc (length ys)) + 1 ≡ suc 0 = ground arith in
    let apart : (0 == y) ≡ false = ground (arith, h2.0) in
    let less : ltb 0 y ≡ true = ground (arith, h2.0) in rw (n, memcmp, apart, less) refl
memcmp-stored (x ∷ xs) [] b1 b2 h1 h2 =
    let n : min2 (suc (length xs)) 0 + 1 ≡ suc 0 = ground arith in
    let apart : (x == 0) ≡ false = ground (arith, h1.0) in
    let more : ltb x 0 ≡ false = ground (arith, h1.0) in rw (n, memcmp, apart, more) refl
memcmp-stored (x ∷ xs) (y ∷ ys) b1 b2 h1 h2 =
    let n : min2 (suc (length xs)) (suc (length ys)) + 1 ≡ suc (min2 (length xs) (length ys) + 1) =
      ground arith in
    rw n (elim (Bool-cases (x == y)) [
      | inl e ↦ rw (memcmp, e) (memcmp-stored xs ys b1 b2 h1.1 h2.1)
      | inr ne ↦ elim (Bool-cases (ltb x y)) [
        | inl l ↦ rw (memcmp, ne, l) refl
        | inr g ↦ rw (memcmp, ne, g) refl
      ]
    ])

-- For two terminated strings, whatever stands behind them, `strcmp` reads nothing behind the
-- terminators and returns their order in the dictionary.
pub strcmp_lem :
    (s1 s2 b1 b2 : List ℕ)
    → IsText s1
    → IsText s2
    → strcmp (stored s1 b1) (stored s2 b2) ≡ done (text_order s1 s2)
unfolding strcmp strlen
strcmp_lem s1 s2 b1 b2 h1 h2 =
    let l1 : strlen_from 0 (stored s1 b1) ≡ done (length s1) =
      strlen_from-stored 0 s1 b1 h1 ∙ ap done (omega arith) in
    let l2 : strlen_from 0 (stored s2 b2) ≡ done (length s2) =
      strlen_from-stored 0 s2 b2 h2 ∙ ap done (omega arith) in
    rw (l1, l2) (memcmp-stored s1 s2 b1 b2 h1 h2)

-- The order of two strings is `same` exactly if they are equal.
pub text_order-same : (s1 s2 : List ℕ) → (text_order s1 s2 ≡ same) ↔ (s1 ≡ s2)
text_order-same [] [] = (λ h. refl, λ h. refl)
text_order-same [] (y ∷ ys) = (λ h. cc, λ h. cc)
text_order-same (x ∷ xs) [] = (λ h. cc, λ h. cc)
text_order-same (x ∷ xs) (y ∷ ys) = elim (Bool-cases (x == y)) [
  | inl e ↦
      let head : x ≡ y = ==→eq x y e in
      let (to, from) = text_order-same xs ys in
      rw e (
        λ h. ap (λ z. z ∷ xs) head ∙ ap (λ zs. y ∷ zs) (to h),
        λ h. let rest : xs ≡ ys = cc in from rest,
      )
  | inr ne ↦ (
    λ h. absurd (differs (text_order xs ys) ne h),
    λ h. let head : x ≡ y = cc in absurd (ground (arith, ne)),
  )
]
  where
    differs :
        {p : Bool} (r : Sign)
        → p ≡ false
        → (if p then r else if ltb x y then minus else plus) ≢ same
    differs r ne h = elim (Bool-cases (ltb x y)) [
      | inl l ↦ let e = rw (ne, l) at h in cc
      | inr g ↦ let e = rw (ne, g) at h in cc
    ]
