-- ===== src/Buddy/Disjoint.antt =====
-- The blocks in use do not overlap.
use native.Mathlib.Nat.{one-le-pow}
use fdu_os.Common.{ℕ, ◌+◌, ◌^◌, ◌≤◌, ◌<◌, ◌≡◌, ◌⊎◌, inl, inr, List, [], ◌∷◌, arith}
use fdu_os.Buddy.Tiles.{Tile, free, used, hits, used_here}

-- The block of order `o` at `j` starts where the blocks do.
pub used_from : (o c j i : ℕ) (ts : List Tile) → 0 < hits (used_here o c j) i ts → i ≤ j
used_from o c j i [] h = omega arith
used_from o c j i (free k ∷ ts) h = omega (arith, used_from o c j (i + 2 ^ k) ts (omega arith))
used_from o c j i (used k d ∷ ts) h = ground (arith, used_from o c j (i + 2 ^ k) ts)

pub used_once : (o c j i : ℕ) (ts : List Tile) → hits (used_here o c j) i ts ≤ 1
used_once o c j i [] = omega arith
used_once o c j i (free k ∷ ts) = omega (arith, used_once o c j (i + 2 ^ k) ts)
used_once o c j i (used k d ∷ ts) =
    ground (arith, used_once o c j (i + 2 ^ k) ts, used_from o c j (i + 2 ^ k) ts, one-le-pow k 2)

-- Two blocks in use are the same, or the one ends before the other starts.
pub data Separate (o c j o' c' j' : ℕ) : Type 0 where
  same : o ≡ o' → c ≡ c' → j ≡ j' → Separate o c j o' c' j'
  below : j + 2 ^ o ≤ j' → Separate o c j o' c' j'
  above : j' + 2 ^ o' ≤ j → Separate o c j o' c' j'

-- A block in use is the first one, or one of the others.
used_first :
    (o c j i k d : ℕ) (ts : List Tile)
    → 0 < hits (used_here o c j) i (used k d ∷ ts)
    → ((o ≡ k) × (c ≡ d) × (j ≡ i)) ⊎ (0 < hits (used_here o c j) (i + 2 ^ k) ts)
used_first o c j i k d ts h = ground arith

pub used_Separate :
    (o c j o' c' j' i : ℕ) (ts : List Tile)
    → 0 < hits (used_here o c j) i ts
    → 0 < hits (used_here o' c' j') i ts
    → Separate o c j o' c' j'
used_Separate o c j o' c' j' i [] h h' = absurd (omega arith)
used_Separate o c j o' c' j' i (free k ∷ ts) h h' =
    used_Separate o c j o' c' j' (i + 2 ^ k) ts (omega arith) (omega arith)
used_Separate o c j o' c' j' i (used k d ∷ ts) h h' = elim (used_first o c j i k d ts h) [
  | inl f ↦ elim (used_first o' c' j' i k d ts h') [
    | inl f' ↦ same (omega arith) (omega arith) (omega arith)
    | inr r' ↦ below (rw (f.0, f.2) (used_from o' c' j' (i + 2 ^ k) ts r'))
  ]
  | inr r ↦ elim (used_first o' c' j' i k d ts h') [
    | inl f' ↦ above (rw (f'.0, f'.2) (used_from o c j (i + 2 ^ k) ts r))
    | inr r' ↦ used_Separate o c j o' c' j' (i + 2 ^ k) ts r r'
  ]
]
