-- ===== src/Crc32/Division.antt =====
-- The checksum by the table is the division bit by bit.
use Prim.Native.Nat.{bit_and, bit_xor}
use native.Mathlib.Nat.{pow-suc}
use fdu_os.Common.{
  ℕ, zero, suc, ◌*◌, ◌/◌, ◌%◌, ◌^◌, ◌<◌, ◌≡◌, refl, sym, ap, ◌∙◌, ◌==◌, if◌then◌else◌, Bool-cases,
  inl, inr, List, [], ◌∷◌, All, arith,
}
use fdu_os.Common.Bits.Powers.{bit_and_mask}
use fdu_os.Common.Bits.Xor.{
  bit_xor-mod, bit_xor-half, xor_assoc, xor_comm, xor-below, xor-div, xor_parts, xor_zero,
}
use fdu_os.Crc32.{entry, crc_loop, crc32}
use fdu_os.Crc32.Table.{shift, eight_shifts, entry-eight_shifts}

-- The last digit decides whether the polynomial is subtracted.
shift-digit : (c : ℕ) → shift c ≡ (if c % 2 == 1 then bit_xor (c / 2) 3988292384 else c / 2)
unfolding shift
shift-digit c = ap (λ d. if d == 1 then bit_xor (c / 2) 3988292384 else c / 2) (bit_and_mask 1 c)

shift-below : (n c : ℕ) → 3988292384 < 2 ^ n → c < 2 ^ n → shift c < 2 ^ n
shift-below n c large lt = rw (shift-digit c) (elim (Bool-cases (c % 2 == 1)) [
  | inl odd ↦ rw odd (xor-below n (c / 2) 3988292384 (omega arith) large)
  | inr even ↦ rw even (omega arith)
])

shift-bit_xor :
    (a b : ℕ) → a < 2 ^ 63 → b < 2 ^ 63 → shift (bit_xor a (b * 2)) ≡ bit_xor (shift a) b
shift-bit_xor a b la lb =
    let digit : bit_xor a (b * 2) % 2 ≡ a % 2 = omega (arith, bit_xor-mod a (b * 2)) in
    let twice : b * 2 / 2 ≡ b = omega arith in
    let half : bit_xor a (b * 2) / 2 ≡ bit_xor (a / 2) b =
      bit_xor-half a (b * 2) ∙ ap (bit_xor (a / 2)) twice in
    let p : ℕ = 3988292384 in
    let swap : bit_xor (bit_xor (a / 2) b) p ≡ bit_xor (bit_xor (a / 2) p) b =
      xor_assoc 63 (a / 2) b p (omega arith) lb (omega arith)
      ∙ ap (bit_xor (a / 2)) (xor_comm 63 b p lb (omega arith))
      ∙ sym (xor_assoc 63 (a / 2) p b (omega arith) (omega arith) lb) in
    rw (shift-digit (bit_xor a (b * 2)), shift-digit a, digit, half)
      (elim (Bool-cases (a % 2 == 1)) [ inl odd ↦ rw odd swap | inr even ↦ rw even refl ])

-- `n` steps of the division
shifts : ℕ → ℕ → ℕ
shifts zero c = c
shifts (suc n) c = shifts n (shift c)

shifts-bit_xor :
    (n a b : ℕ)
    → a < 2 ^ 63
    → b * 2 ^ n < 2 ^ 63
    → shifts n (bit_xor a (b * 2 ^ n)) ≡ bit_xor (shifts n a) b
unfolding shifts
shifts-bit_xor zero a b la lb = let e : b * 2 ^ 0 ≡ b = omega arith in rw e refl
shifts-bit_xor (suc n) a b la lb =
    let high : b * 2 ^ suc n ≡ b * 2 ^ n * 2 = omega (arith, ap (λ t. b * t) (pow-suc 2 n)) in
    let small : b * 2 ^ n < 2 ^ 63 = omega (arith, high) in
    ap (λ x. shifts n (shift (bit_xor a x))) high
    ∙ ap (shifts n) (shift-bit_xor a (b * 2 ^ n) la small)
    ∙ shifts-bit_xor n (shift a) b (shift-below 63 a (omega arith) la) small

shifts-below : (k c : ℕ) → c < 2 ^ 32 → shifts k c < 2 ^ 32
unfolding shifts
shifts-below zero c lt = lt
shifts-below (suc k) c lt = shifts-below k (shift c) (shift-below 32 c (omega arith) lt)

eight_shifts-shifts : (c : ℕ) → eight_shifts c ≡ shifts 8 c
unfolding eight_shifts shifts
eight_shifts-shifts c = refl

-- Eight steps at once: the low byte by the table, the others moved down.
by_table : (x : ℕ) → x < 2 ^ 32 → bit_xor (entry (x % 256)) (x / 256) ≡ eight_shifts x
by_table x lt =
    let parts : bit_xor (x % 256) (x / 256 * 2 ^ 8) ≡ x =
      xor_parts 8 (x % 256) (x / 256) (omega arith) ∙ omega arith in
    ap (λ e. bit_xor e (x / 256))
      (entry-eight_shifts (x % 256) (omega arith) ∙ eight_shifts-shifts (x % 256))
    ∙ sym (shifts-bit_xor 8 (x % 256) (x / 256) (omega arith) (omega arith))
    ∙ ap (shifts 8) parts
    ∙ sym (eight_shifts-shifts x)

-- The division bit by bit, over the bytes
unfoldable pub divide : ℕ → List ℕ → ℕ
divide crc [] = crc
divide crc (byte ∷ rest) = divide (eight_shifts (bit_xor crc byte)) rest

one_byte :
    (crc byte : ℕ)
    → crc < 2 ^ 32
    → byte < 2 ^ 8
    → bit_xor (entry (bit_and (bit_xor crc byte) 255)) (crc / 2 ^ 8)
      ≡ eight_shifts (bit_xor crc byte)
one_byte crc byte lt small =
    let nothing : byte / 2 ^ 8 ≡ 0 = omega arith in
    let high : crc / 2 ^ 8 ≡ bit_xor crc byte / 2 ^ 8 = sym (
      xor-div 8 crc byte
      ∙ ap (bit_xor (crc / 2 ^ 8)) nothing
      ∙ xor_zero 32 (crc / 2 ^ 8) (omega arith)) in
    ap (λ i. bit_xor (entry i) (crc / 2 ^ 8)) (bit_and_mask 8 (bit_xor crc byte))
    ∙ ap (bit_xor (entry (bit_xor crc byte % 256))) high
    ∙ by_table (bit_xor crc byte) (xor-below 32 crc byte lt (omega arith))

crc_loop-divide :
    (crc : ℕ) (buf : List ℕ)
    → crc < 2 ^ 32
    → All (λ byte. byte < 2 ^ 8) buf
    → crc_loop crc buf ≡ divide crc buf
unfolding crc_loop divide
crc_loop-divide crc [] lt bytes = refl
crc_loop-divide crc (byte ∷ rest) lt (small, bytes) =
    let below : eight_shifts (bit_xor crc byte) < 2 ^ 32 =
      rw (eight_shifts-shifts (bit_xor crc byte))
        (shifts-below 8 (bit_xor crc byte) (xor-below 32 crc byte lt (omega arith))) in
    ap (λ c. crc_loop c rest) (one_byte crc byte lt small)
    ∙ crc_loop-divide (eight_shifts (bit_xor crc byte)) rest below bytes

-- For a 32-bit start value and bytes below 2^8, `crc32` is the division by the reversed polynomial
-- 0xEDB88320, bit by bit over the bytes, from the complement of the start value on, and
-- complemented.
pub crc32-divide :
    (crc : ℕ) (buf : List ℕ)
    → crc < 2 ^ 32
    → All (λ byte. byte < 2 ^ 8) buf
    → crc32 crc buf ≡ bit_xor (divide (bit_xor crc 4294967295) buf) 4294967295
unfolding crc32
crc32-divide crc buf lt bytes =
    ap (λ c. bit_xor c 4294967295)
      (crc_loop-divide (bit_xor crc 4294967295) buf (xor-below 32 crc 4294967295 lt (omega arith))
        bytes)
