-- ===== src/Buddy/Search.antt =====
-- The two searches of `malloc`: the order that is large enough, and the list with a block to give.
use fdu_os.Common.{
  ℕ, zero, suc, ◌+◌, ◌^◌, ◌≤◌, ◌<◌, ◌≡◌, refl, Option, none, some, List, [], ◌∷◌, ltb, ◌==◌,
  Bool-cases, inl, inr, arith,
}
use fdu_os.Buddy.{target_order, find_block}

-- The least order whose block holds `cnt` pages.
pub record IsLeastOrder (cnt t : ℕ) : Type 0 where
  pub enough : cnt ≤ 2 ^ t
  pub least : (s : ℕ) → s < t → 2 ^ s < cnt

target_order_from :
    (fuel t cnt : ℕ)
    → ((s : ℕ) → s < t → 2 ^ s < cnt)
    → cnt ≤ 2 ^ (t + fuel)
    → (r : ℕ) × (target_order (suc fuel) t cnt ≡ some r) × IsLeastOrder cnt r × (r ≤ t + fuel)
unfolding target_order
target_order_from zero t cnt below h =
    let e : t + 0 ≡ t = omega arith in
    (t, ground (arith, rw e at h), record { enough = rw e at h; least = below }, omega arith)
target_order_from (suc fuel) t cnt below h = elim (Bool-cases (ltb (2 ^ t) cnt)) [
  | inl more ↦
      let e : t + suc fuel ≡ t + 1 + fuel = omega arith in
      let (r, found, is, le) =
        target_order_from fuel (t + 1) cnt
          (λ s lt. elim (Bool-cases (ltb s t)) [
            | inl lower ↦ below s (ground arith)
            | inr last ↦ let same : s ≡ t = ground arith in rw same (ground arith)
          ])
          (rw e at h) in
      (r, rw more found, is, omega arith)
  | inr done ↦ (t, rw done, record { enough = ground arith; least = below }, omega arith)
]

-- The loop finds the least order, if one of 31 or less is enough.
pub target_order_lem :
    (cnt : ℕ)
    → cnt ≤ 2 ^ 31
    → (r : ℕ) × (target_order 32 0 cnt ≡ some r) × IsLeastOrder cnt r × (r ≤ 31)
target_order_lem cnt h = target_order_from 31 0 cnt (λ s lt. absurd (omega arith)) h

-- What the search for a block returns.
pub data Finds (list : ℕ → List ℕ) (rounds order : ℕ) : Option (ℕ × ℕ) → Type 0 where
  nothing : ((k : ℕ) → order ≤ k → k < order + rounds → list k ≡ []) → Finds list rounds order none
  block :
      {k i : ℕ} (rest : List ℕ)
      → order ≤ k
      → k < order + rounds
      → list k ≡ i ∷ rest
      → Finds list rounds order (some (k, i))

-- One more empty list in front.
Finds-skip :
    {list : ℕ → List ℕ} {rounds order : ℕ} {r : Option (ℕ × ℕ)}
    → list order ≡ []
    → Finds list rounds (order + 1) r
    → Finds list (suc rounds) order r
Finds-skip {list} {order = order} e (nothing h) = nothing λ k le lt.
    elim (Bool-cases (k == order)) [
      | inl same ↦ let q : k ≡ order = ground arith in rw q e
      | inr other ↦ h k (ground arith) (omega arith)
    ]
Finds-skip e (block rest le lt h) = block rest (omega arith) (omega arith) h

pub find_block_lem :
    (list : ℕ → List ℕ) (rounds order : ℕ) → Finds list rounds order (find_block list rounds order)
unfolding find_block
find_block_lem list zero order = nothing λ k le lt. absurd (omega arith)
find_block_lem list (suc rounds) order =
    step (list order) refl (find_block_lem list rounds (order + 1))
  where
    step :
        (xs : List ℕ)
        → list order ≡ xs
        → Finds list rounds (order + 1) (find_block list rounds (order + 1))
        → Finds list (suc rounds) order (find_block list (suc rounds) order)
    step [] e ih = rw (e, find_block) (Finds-skip e ih)
    step (i ∷ rest) e ih = rw (e, find_block) (block rest (omega arith) (omega arith) e)
