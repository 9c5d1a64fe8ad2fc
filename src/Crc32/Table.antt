-- ===== src/Crc32/Table.antt =====
-- The table against the division by the polynomial, bit by bit.
use Prim.Native.Nat.{bit_and, bit_xor}
use fdu_os.Common.{
  ℕ, zero, suc, ◌+◌, ◌/◌, ◌<◌, ◌≡◌, refl, ap, ◌∙◌, Bool, true, ◌&&◌, ◌==◌, if◌then◌else◌, List, [],
  ◌∷◌, length, get_elem?, some, arith,
}
use fdu_os.Crc32.{crc32_tab, entry}

-- One step of the division by the reversed polynomial 0xEDB88320, and eight of them
unfoldable pub shift : ℕ → ℕ
shift c = if bit_and c 1 == 1 then bit_xor (c / 2) 3988292384 else c / 2

unfoldable pub eight_shifts : ℕ → ℕ
unfolding shift
eight_shifts c = shift (shift (shift (shift (shift (shift (shift (shift c)))))))

-- The entries are those of the bytes from `i` on.
unfoldable all_match : ℕ → List ℕ → Bool
unfolding eight_shifts
all_match i [] = true
all_match i (x ∷ xs) = (x == eight_shifts i) && all_match (i + 1) xs

table_matches : all_match 0 crc32_tab ≡ true
unfolding all_match
table_matches = refl

both_true : (a b : Bool) → (a && b) ≡ true → (a ≡ true) × (b ≡ true)
both_true a b e = ground arith

==-eq : (x y : ℕ) → (x == y) ≡ true → x ≡ y
==-eq x y e = ground arith

match_at :
    (i : ℕ) (xs : List ℕ) (n : ℕ)
    → all_match i xs ≡ true
    → n < length xs
    → get_elem? xs n ≡ some (eight_shifts (i + n))
unfolding all_match
match_at i [] n m lt = absurd (omega arith)
match_at i (x ∷ xs) zero m lt =
    let (here, later) = both_true (x == eight_shifts i) (all_match (i + 1) xs) m in
    ap some (==-eq x (eight_shifts i) here ∙ ap eight_shifts (omega arith))
match_at i (x ∷ xs) (suc n) m lt =
    let (here, later) = both_true (x == eight_shifts i) (all_match (i + 1) xs) m in
    match_at (i + 1) xs n later (omega arith) ∙ ap (λ k. some (eight_shifts k)) (omega arith)

-- For every byte, the entry of the table at it is the byte after eight steps of the division by
-- the reversed polynomial 0xEDB88320.
pub entry-eight_shifts : (i : ℕ) → i < 256 → entry i ≡ eight_shifts i
unfolding entry
entry-eight_shifts i lt =
    let here =
      match_at 0 crc32_tab i table_matches lt ∙ ap (λ k. some (eight_shifts k)) (omega arith) in
    rw (entry, here) refl
