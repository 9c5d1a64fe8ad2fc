-- ===== src/ArmPages/Entries.antt =====
-- One entry of the page tables of ARMv7-A, and what the processor reads from it.
use fdu_os.Common.{
  ℕ, ◌+◌, ◌*◌, ◌/◌, ◌%◌, ◌^◌, ◌<◌, ◌≡◌, refl, sym, ◌∙◌, ap, ◌&&◌, Option, none, some, ◌==◌,
  if◌then◌else◌, arith,
}
use Prim.Native.Nat.{bit_or}
use fdu_os.Common.Bits.Powers.{bit_or_under}
use fdu_os.Common.Bits.Step.{bit_or_step}
use fdu_os.EarlyKmmap.{MappingType, memory, device, framebuffer}
use fdu_os.ArmPages.{mkpgmid_big}

-- An entry whose lowest two bits are 01 is a block of 2 MB, and its access flag, bit 10, is set or
-- the access faults: bits 21 to 39 are the block, and the offset is that of the address.
abbrev pub block_target : ℕ → ℕ → Option ℕ
block_target e a =
    if (e % 4 == 1) && (e / 2 ^ 10 % 2 == 1)
    then some (e % 2 ^ 40 / 2 ^ 21 * 2 ^ 21 + a % 2 ^ 21)
    else none

-- The attributes are apart from the address and from the lowest two bits.
with_attributes :
    (pa c : ℕ)
    → pa % 2 ^ 21 ≡ 0
    → c < 2 ^ 19
    → bit_or (bit_or (bit_or pa 1) 0) (4 * c) ≡ pa + 1 + 4 * c
with_attributes pa c h lt =
    let q = pa / 2 ^ 21 in
    let whole : pa ≡ q * 2 ^ 21 = omega arith in
    let one : bit_or pa 1 ≡ pa + 1 =
      ap (λ x. bit_or x 1) whole ∙ bit_or_under 21 q 1 (omega arith) ∙ omega arith in
    let unit : (pa + 1) * 2 ^ 0 ≡ pa + 1 = omega arith in
    let same : bit_or (pa + 1) 0 ≡ pa + 1 =
      ap (λ x. bit_or x 0) (sym unit) ∙ bit_or_under 0 (pa + 1) 0 (omega arith) ∙ omega arith in
    let quarter : (pa + 1) / 2 / 2 ≡ q * 2 ^ 19 = omega arith in
    let low : 4 * c / 2 / 2 ≡ c = omega arith in
    let high : bit_or ((pa + 1) / 2 / 2) (4 * c / 2 / 2) ≡ q * 2 ^ 19 + c =
      ap (λ x. bit_or x (4 * c / 2 / 2)) quarter
      ∙ ap (bit_or (q * 2 ^ 19)) low
      ∙ bit_or_under 19 q c lt in
    ap (λ x. bit_or (bit_or x 0) (4 * c)) one
    ∙ ap (λ x. bit_or x (4 * c)) same
    ∙ ground (arith, bit_or_step (pa + 1) (4 * c), bit_or_step ((pa + 1) / 2) (4 * c / 2), high)

-- The three kinds of attributes that the `switch` knows
pub data IsKnown : MappingType → ℕ × ℕ → Type 0 where
  for_memory : IsKnown memory (3, 0)
  for_device : IsKnown device (2, 1)
  for_framebuffer : IsKnown framebuffer (2, 2)

mkpgmid_big-eq :
    (kind : MappingType) (attr : ℕ × ℕ) (pa : ℕ)
    → IsKnown kind attr
    → pa % 2 ^ 21 ≡ 0
    → (c : ℕ) × (c < 256) × (mkpgmid_big attr pa ≡ pa + 1025 + 4 * c)
unfolding mkpgmid_big
mkpgmid_big-eq kind attr pa for_memory h =
    (192, omega arith, with_attributes pa 448 h (omega arith) ∙ omega arith)
mkpgmid_big-eq kind attr pa for_device h =
    (129, omega arith, with_attributes pa 385 h (omega arith) ∙ omega arith)
mkpgmid_big-eq kind attr pa for_framebuffer h =
    (130, omega arith, with_attributes pa 386 h (omega arith) ∙ omega arith)

pub block_target-mkpgmid_big :
    (kind : MappingType) (attr : ℕ × ℕ)
    → IsKnown kind attr
    → (pa a : ℕ) → pa % 2 ^ 21 ≡ 0
    → pa < 2 ^ 40
    → block_target (mkpgmid_big attr pa) a ≡ some (pa + a % 2 ^ 21)
block_target-mkpgmid_big kind attr known pa a h lt =
    let (c, small, e) = mkpgmid_big-eq kind attr pa known h in
    let address : (pa + 1025 + 4 * c) % 2 ^ 40 / 2 ^ 21 * 2 ^ 21 ≡ pa = omega arith in
    let block : (pa + 1025 + 4 * c) % 4 ≡ 1 = omega arith in
    let accessed : (pa + 1025 + 4 * c) / 2 ^ 10 % 2 ≡ 1 = omega arith in
    rw (e, block, accessed, address) refl
