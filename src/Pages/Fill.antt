-- ===== src/Pages/Fill.antt =====
-- `pmemset` ends after one turn for each page, and not at all on a size that is not of pages.
use fdu_os.Common.{
  ℕ, zero, suc, ◌+◌, ◌*◌, ◌%◌, ◌^◌, ◌<◌, ◌≡◌, ◌≢◌, refl, ◌∙◌, false, ◌&&◌, ltb, leb, ◌==◌,
  if◌then◌else◌, none, some, arith,
}
use fdu_os.Common.Words.{word, add64, sub64}
use fdu_os.Memory.{Memory, memset}
use fdu_os.Memory.Copies.{memset_lem}
use fdu_os.Pages.{pmemset}

-- The `n` bytes at the address that the physical address is mapped to, filled
abbrev pub filled : ℕ → ℕ → ℕ → ℕ → Memory → Memory
filled koffset paddr c n m a =
    if leb (paddr + koffset) a && ltb a (paddr + koffset + n) then c % 2 ^ 8 else m a

turn :
    (koffset fuel paddr c size : ℕ) (m : Memory)
    → (size == 0) ≡ false
    → pmemset koffset (suc fuel) paddr c size m
      ≡ pmemset koffset fuel
          (add64 paddr 4096)
          c
          (sub64 size 4096)
          (memset (word (paddr + koffset)) c 4096 m)
unfolding pmemset
turn koffset fuel paddr c size m some_page = rw (pmemset, some_page) refl

next_turn :
    (koffset fuel c p p' n n' q q' : ℕ) (m : Memory)
    → p ≡ p'
    → n ≡ n'
    → q ≡ q'
    → pmemset koffset fuel p c n (memset q c 4096 m)
      ≡ pmemset koffset fuel p' c n' (memset q' c 4096 m)
next_turn koffset fuel c p p' n n' q q' m e e' e'' =
    λ i. pmemset koffset fuel (e i) c (e' i) (memset (e'' i) c 4096 m)

two_fills :
    (koffset paddr c n : ℕ) (m : Memory) (a : ℕ)
    → filled koffset (paddr + 4096) c (4096 * n) (memset (paddr + koffset) c 4096 m) a
      ≡ filled koffset paddr c (4096 * suc n) m a
two_fills koffset paddr c n m a = ground (arith, memset_lem (paddr + koffset) c 4096 m a)

-- For `n` pages that are mapped below 2^32: with more fuel than pages, `pmemset` ends, and has set
-- the bytes of the pages and no others.
pub pmemset_lem :
    (koffset fuel paddr c n : ℕ) (m : Memory)
    → n < fuel
    → paddr + koffset + 4096 * n < 2 ^ 32
    → (m' : Memory) × (pmemset koffset fuel paddr c (4096 * n) m ≡ some m')
      × ((a : ℕ) → m' a ≡ filled koffset paddr c (4096 * n) m a)
unfolding pmemset
pmemset_lem koffset zero paddr c n m enough room = absurd (omega arith)
pmemset_lem koffset (suc fuel) paddr c zero m enough room = (m, refl, λ a. ground arith)
pmemset_lem koffset (suc fuel) paddr c (suc n) m enough room =
    let m1 = memset (paddr + koffset) c 4096 m in
    let (m', e, at) = pmemset_lem koffset fuel (paddr + 4096) c n m1 (omega arith) (omega arith) in
    let some_page : (4096 * suc n == 0) ≡ false = ground arith in
    let page : word (paddr + koffset) ≡ paddr + koffset = omega arith in
    let next : add64 paddr 4096 ≡ paddr + 4096 = omega arith in
    let left : sub64 (4096 * suc n) 4096 ≡ 4096 * n = omega arith in
    (
      m',
      turn koffset fuel paddr c (4096 * suc n) m some_page
          ∙ next_turn koffset fuel c (add64 paddr 4096) (paddr + 4096) (sub64 (4096 * suc n) 4096)
              (4096 * n) (word (paddr + koffset)) (paddr + koffset) m next left page
          ∙ e,
      λ a. at a ∙ two_fills koffset paddr c n m a,
    )

-- On a size below 2^64 that is not a multiple of the page size, `pmemset` uses up any fuel: it
-- never ends.
pub pmemset_endless :
    (koffset fuel paddr c size : ℕ) (m : Memory)
    → size % 4096 ≢ 0
    → size < 2 ^ 64
    → pmemset koffset fuel paddr c size m ≡ none
unfolding pmemset
pmemset_endless koffset zero paddr c size m part small = refl
pmemset_endless koffset (suc fuel) paddr c size m part small =
    let nonzero : size ≢ 0 = λ e. part (omega arith) in
    let some_byte : (size == 0) ≡ false = ground arith in
    turn koffset fuel paddr c size m some_byte
    ∙ pmemset_endless koffset fuel (add64 paddr 4096) c (sub64 size 4096) _ (omega arith)
        (omega arith)
