-- ===== src/Memory/Copies.antt =====
-- What the copies leave in memory.
use Prim.Native.Nat.{bit_and, bit_or, bit_xor}
use fdu_os.Common.{
  ℕ, zero, suc, ◌+◌, ◌-◌, ◌*◌, ◌/◌, ◌%◌, ◌^◌, ◌≤◌, ◌<◌, ◌≡◌, ◌⊎◌, refl, sym, ap, ◌∙◌, true, false,
  ◌&&◌, ◌||◌, not, ltb, leb, ◌==◌, if◌then◌else◌, Bool-cases, inl, inr, arith,
}
use fdu_os.Common.Bits.Powers.{bit_and_mask}
use fdu_os.Memory.{
  Memory, store, copy_up, copy_down, copy_words, head_bytes, memcpy, memmove, set_up, memset,
}

-- The `n` bytes from `d` on are those that stood from `s` on, all others are as they were.
abbrev pub copied : ℕ → ℕ → ℕ → Memory → Memory
copied d s n m a = if leb d a && ltb a (d + n) then m (s + (a - d)) else m a

-- A copy from the front does not overwrite what it is yet to read.
abbrev pub IsForward : ℕ → ℕ → ℕ → Type 0
IsForward d s n = (d ≤ s) ⊎ (s + n ≤ d)

module _ (d s k n : ℕ) (m : Memory) where
  -- Two copies one after the other are one copy.
  glue_at :
      (a : ℕ)
      → IsForward d s (k + n)
      → copied (d + k) (s + k) n (copied d s k m) a ≡ copied d s (k + n) m a
  glue_at a f = elim (Bool-cases (leb (d + k) a && ltb a (d + k + n))) [
    | inl later ↦
        let first : (leb d a && ltb a (d + (k + n))) ≡ true = ground arith in
        let untouched : (leb d (s + k + (a - (d + k))) && ltb (s + k + (a - (d + k))) (d + k))
            ≡ false =
          ground arith in
        let e : s + k + (a - (d + k)) ≡ s + (a - d) = ground arith in
        rw (later, first, untouched) (ap m e)
    | inr not_later ↦ elim (Bool-cases (leb d a && ltb a (d + k))) [
      | inl early ↦
          let first : (leb d a && ltb a (d + (k + n))) ≡ true = ground arith in
          rw (not_later, first, early) refl
      | inr outside ↦
          let neither : (leb d a && ltb a (d + (k + n))) ≡ false = ground arith in
          rw (not_later, neither, outside) refl
    ]
  ]

  glue : IsForward d s (k + n) → copied (d + k) (s + k) n (copied d s k m) ≡ copied d s (k + n) m
  glue f = λ i a. glue_at a f i

copied-zero : (d s : ℕ) (m : Memory) → copied d s 0 m ≡ m
copied-zero d s m = λ i a. nothing a i
  where
    nothing : (a : ℕ) → copied d s 0 m a ≡ m a
    nothing a = let e : (leb d a && ltb a (d + 0)) ≡ false = ground arith in rw e refl

store-copied : (d s : ℕ) (m : Memory) → store d (m s) m ≡ copied d s 1 m
store-copied d s m = λ i a. at a i
  where
    at : (a : ℕ) → store d (m s) m a ≡ copied d s 1 m a
    at a = elim (Bool-cases (d == a)) [
      | inl e ↦
          let h : (leb d a && ltb a (d + 1)) ≡ true = ground arith in
          let x : s ≡ s + (a - d) = ground arith in rw (e, h) (ap m x)
      | inr ne ↦ let h : (leb d a && ltb a (d + 1)) ≡ false = ground arith in rw (ne, h) refl
    ]

pub copy_up-copied : (n d s : ℕ) (m : Memory) → IsForward d s n → copy_up n d s m ≡ copied d s n m
unfolding copy_up
copy_up-copied zero d s m f = sym (copied-zero d s m)
copy_up-copied (suc n) d s m f =
    let e : 1 + n ≡ suc n = omega arith in
    ap (λ x. copy_up n (d + 1) (s + 1) x) (store-copied d s m)
    ∙ copy_up-copied n (d + 1) (s + 1) (copied d s 1 m) (ground arith)
    ∙ glue d s 1 n m (ground arith)
    ∙ ap (λ x. copied d s x m) e

copy_words-copied :
    (t d s : ℕ) (m : Memory) → IsForward d s (4 * t) → copy_words t d s m ≡ copied d s (4 * t) m
unfolding copy_words
copy_words-copied zero d s m f =
    let e : 4 * 0 ≡ 0 = omega arith in sym (ap (λ x. copied d s x m) e ∙ copied-zero d s m)
copy_words-copied (suc t) d s m f =
    let e : 4 + 4 * t ≡ 4 * suc t = omega arith in
    copy_words-copied t (d + 4) (s + 4) (copied d s 4 m) (ground arith)
    ∙ glue d s 4 (4 * t) m (ground arith)
    ∙ ap (λ x. copied d s x m) e

-- A copy from the back, into a region that starts behind the one it reads.
copy_down-at :
    (n d s : ℕ) (m : Memory) (a : ℕ) → s < d → copy_down n (d + n) (s + n) m a ≡ copied d s n m a
unfolding copy_down
copy_down-at zero d s m a lt =
    let e : (leb d a && ltb a (d + 0)) ≡ false = ground arith in rw e refl
copy_down-at (suc n) d s m a lt =
    let ed : d + suc n - 1 ≡ d + n = omega arith in
    let es : s + suc n - 1 ≡ s + n = omega arith in
    rw (ed, es) (copy_down-at n d s (store (d + n) (m (s + n)) m) a lt ∙ last a)
  where
    last : (a : ℕ) → copied d s n (store (d + n) (m (s + n)) m) a ≡ copied d s (suc n) m a
    last a = elim (Bool-cases (leb d a && ltb a (d + n))) [
      | inl early ↦
          let h : (leb d a && ltb a (d + suc n)) ≡ true = ground arith in
          let apart : (d + n == s + (a - d)) ≡ false = ground arith in rw (early, h, apart) refl
      | inr not_early ↦ elim (Bool-cases (d + n == a)) [
        | inl e ↦
            let h : (leb d a && ltb a (d + suc n)) ≡ true = ground arith in
            let x : s + n ≡ s + (a - d) = ground arith in rw (not_early, e, h) (ap m x)
        | inr ne ↦
            let h : (leb d a && ltb a (d + suc n)) ≡ false = ground arith in
            rw (not_early, ne, h) refl
      ]
    ]

same_place : (d n : ℕ) (m : Memory) (a : ℕ) → copied d d n m a ≡ m a
same_place d n m a = elim (Bool-cases (leb d a && ltb a (d + n))) [
  | inl h ↦ let e : d + (a - d) ≡ a = ground arith in rw h (ap m e)
  | inr h ↦ rw h refl
]

-- However the two regions overlap, after `memmove` the destination holds the bytes that the source
-- held, and no other byte has changed.
pub memmove_lem :
    (dest src n : ℕ) (m : Memory) (a : ℕ) → memmove dest src n m a ≡ copied dest src n m a
unfolding memmove
memmove_lem dest src n m a = elim (Bool-cases (ltb dest src)) [
  | inl up ↦
      let f : IsForward dest src n = inl (ground arith) in
      rw up (ap (λ x. x a) (copy_up-copied n dest src m f))
  | inr not_up ↦ elim (Bool-cases (ltb src dest)) [
    | inl down ↦ rw (not_up, down) (copy_down-at n dest src m a (ground arith))
    | inr neither ↦
        let e : src ≡ dest = ground arith in
        rw (not_up, neither) (sym (ap (λ x. copied dest x n m a) e ∙ same_place dest n m a))
  ]
]

head_bytes_le : (dst src length : ℕ) → head_bytes dst src length ≤ length
unfolding head_bytes
head_bytes_le dst src length = elim (Bool-cases (bit_and (bit_or src dst) 3 == 0)) [
  | inl aligned ↦ rw aligned (omega arith)
  | inr not_aligned ↦ elim (Bool-cases (not (bit_and (bit_xor src dst) 3 == 0) || ltb length 4)) [
    | inl all ↦ rw (not_aligned, all) (omega arith)
    | inr part ↦ let long : 4 ≤ length = ground arith in rw (not_aligned, part) (omega arith)
  ]
]

-- Bytes, words and bytes again, one behind the other.
three_copies :
    (d s t w r : ℕ) (m : Memory)
    → IsForward d s (t + 4 * w + r)
    → copy_up r (d + t + 4 * w) (s + t + 4 * w) (copy_words w (d + t) (s + t) (copy_up t d s m))
      ≡ copied d s (t + 4 * w + r) m
three_copies d s t w r m f =
    let ed : d + t + 4 * w ≡ d + (t + 4 * w) = omega arith in
    let es : s + t + 4 * w ≡ s + (t + 4 * w) = omega arith in
    let both = copied d s (t + 4 * w) m in
    let two : copy_words w (d + t) (s + t) (copy_up t d s m) ≡ both =
      ap (copy_words w (d + t) (s + t)) (copy_up-copied t d s m (ground arith))
      ∙ copy_words-copied w (d + t) (s + t) (copied d s t m) (ground arith)
      ∙ glue d s t (4 * w) m (ground arith) in
    ap (copy_up r (d + t + 4 * w) (s + t + 4 * w)) two
    ∙ ap (λ x. copy_up r x (s + t + 4 * w) both) ed
    ∙ ap (λ x. copy_up r (d + (t + 4 * w)) x both) es
    ∙ copy_up-copied r (d + (t + 4 * w)) (s + (t + 4 * w)) both (ground arith)
    ∙ glue d s (t + 4 * w) r m f

-- If the destination does not start inside the source, however the two are aligned, after
-- `memcpy` the destination holds the bytes that the source held, and no other byte has changed.
pub memcpy_lem :
    (dst src length : ℕ) (m : Memory)
    → (dst ≤ src) ⊎ (src + length ≤ dst)
    → memcpy dst src length m ≡ copied dst src length m
unfolding memcpy
memcpy_lem dst src length m f = elim (Bool-cases ((length == 0) || (dst == src))) [
  | inl nothing ↦ rw nothing (λ i a. unchanged (ground arith) a i)
  | inr part ↦
      let t = head_bytes dst src length in
      let low : bit_and (length - t) 3 ≡ (length - t) % 4 = bit_and_mask 2 (length - t) in
      let e : t + 4 * ((length - t) / 4) + bit_and (length - t) 3 ≡ length =
        omega (arith, head_bytes_le dst src length, low) in
      let g : IsForward dst src (t + 4 * ((length - t) / 4) + bit_and (length - t) 3) =
        ground (arith, e) in
      rw part (
        three_copies dst src t ((length - t) / 4) (bit_and (length - t) 3) m g
        ∙ ap (λ x. copied dst src x m) e)
]
  where
    unchanged : (length ≡ 0) ⊎ (dst ≡ src) → (a : ℕ) → m a ≡ copied dst src length m a
    unchanged (inl e) a =
        sym (ap (λ x. copied dst src x m a) e ∙ ap (λ x. x a) (copied-zero dst src m))
    unchanged (inr e) a = sym (ap (λ x. copied x src length m a) e ∙ same_place src length m a)

pub set_up-at :
    (n d c : ℕ) (m : Memory) (a : ℕ)
    → set_up n d c m a ≡ (if leb d a && ltb a (d + n) then c % 2 ^ 8 else m a)
unfolding set_up
set_up-at zero d c m a = let e : (leb d a && ltb a (d + 0)) ≡ false = ground arith in rw e refl
set_up-at (suc n) d c m a = set_up-at n (d + 1) c (store d (c % 2 ^ 8) m) a ∙ ground arith

-- After `memset` the `n` bytes from `dst` on are the low byte of `c`, and no other has changed.
pub memset_lem :
    (dst c n : ℕ) (m : Memory) (a : ℕ)
    → memset dst c n m a ≡ (if leb dst a && ltb a (dst + n) then c % 2 ^ 8 else m a)
unfolding memset
memset_lem dst c n m a = elim (Bool-cases (n == 0)) [
  | inl e ↦ let out : (leb dst a && ltb a (dst + n)) ≡ false = ground arith in rw (e, out) refl
  | inr part ↦ rw part (set_up-at n dst c m a)
]
