-- ===== src/Strings/Bounded.antt =====
-- What `strlcpy` writes.
use fdu_os.Common.{
  ℕ, zero, suc, ◌+◌, ◌-◌, ◌<◌, ◌≡◌, refl, ap, ◌∙◌, true, false, ◌&&◌, List, [], ◌∷◌, length, leb,
  ltb, ◌==◌, if◌then◌else◌, Bool-cases, inl, inr, arith,
}
use fdu_os.Common.Outcome.{done, ◌>>=◌}
use fdu_os.Util.{min2}
use fdu_os.Memory.{Memory, store}
use fdu_os.Strings.{strlen_from, strlen, copy_text, strlcpy}
use fdu_os.Strings.Compared.{IsText, stored, strlen_from-stored}

abbrev pub byte_at : List ℕ → ℕ → ℕ
byte_at [] i = 0
byte_at (x ∷ xs) zero = x
byte_at (x ∷ xs) (suc i) = byte_at xs i

-- Memory after the first `k` bytes of a string and a terminator were written from `dst` on.
abbrev pub with_text : ℕ → List ℕ → ℕ → Memory → Memory
with_text dst s k m a =
    if leb dst a && ltb a (dst + k) then byte_at s (a - dst) else if dst + k == a then 0 else m a

abbrev CopiesText : ℕ → ℕ → List ℕ → List ℕ → Memory → Type 0
CopiesText dsize dst s behind m =
    (m' : Memory) × (copy_text dsize dst (stored s behind) m ≡ done m')
    × ((a : ℕ) → m' a ≡ with_text dst s (min2 dsize (length s)) m a)

only_end : (dst a : ℕ) (s : List ℕ) (m : Memory) → store dst 0 m a ≡ with_text dst s 0 m a
only_end dst a s m =
    let outside : (leb dst a && ltb a (dst + 0)) ≡ false = ground arith in
    let e : dst + 0 ≡ dst = omega arith in rw (outside, e) refl

one_more :
    (dst x k : ℕ) (xs : List ℕ) (m : Memory) (a : ℕ)
    → with_text (dst + 1) xs k (store dst x m) a ≡ with_text dst (x ∷ xs) (suc k) m a
one_more dst x k xs m a = elim (Bool-cases (dst == a)) [
  | inl at_start ↦
      let not_later : (leb (dst + 1) a && ltb a (dst + 1 + k)) ≡ false = ground arith in
      let not_end : (dst + 1 + k == a) ≡ false = ground arith in
      let inside : (leb dst a && ltb a (dst + suc k)) ≡ true = ground arith in
      let zero_index : a - dst ≡ 0 = ground arith in
      rw (not_later, not_end, inside, zero_index, at_start) refl
  | inr elsewhere ↦ elim (Bool-cases (leb (dst + 1) a && ltb a (dst + 1 + k))) [
    | inl later ↦
        let inside : (leb dst a && ltb a (dst + suc k)) ≡ true = ground arith in
        let index : a - dst ≡ suc (a - (dst + 1)) = ground arith in rw (later, inside, index) refl
    | inr not_later ↦
        let outside : (leb dst a && ltb a (dst + suc k)) ≡ false = ground arith in
        let e : dst + suc k ≡ dst + 1 + k = omega arith in
        rw (not_later, outside, e, elsewhere) refl
  ]
]

copies_text :
    (dsize dst : ℕ) (s behind : List ℕ) (m : Memory) → IsText s → CopiesText dsize dst s behind m
unfolding copy_text min2
copies_text zero dst s behind m h =
    let k : min2 0 (length s) ≡ 0 = ground arith in
    (store dst 0 m, refl, λ a. rw k (only_end dst a s m))
copies_text (suc dsize) dst [] behind m h =
    let k : min2 (suc dsize) 0 ≡ 0 = ground arith in
    (store dst 0 m, refl, λ a. rw k (only_end dst a [] m))
copies_text (suc dsize) dst (x ∷ xs) behind m h =
    let (m', e, at) = copies_text dsize (dst + 1) xs behind (store dst x m) h.1 in
    let text : (x == 0) ≡ false = ground (arith, h.0) in
    let k : min2 (suc dsize) (suc (length xs)) ≡ suc (min2 dsize (length xs)) = ground arith in
    (m', rw text e, λ a. at a ∙ one_more dst x (min2 dsize (length xs)) xs m a ∙ rw k refl)

-- For a terminated source and `dsize` above 0, `strlcpy` returns the length of the source. It
-- writes the first `dsize` bytes of the source, or all if there are fewer, and the terminator
-- behind them, and nothing else: with `dsize` bytes or more in the source, the terminator stands
-- at `dst[dsize]`, behind the buffer.
pub strlcpy_lem :
    (dst dsize : ℕ) (s behind : List ℕ) (m : Memory)
    → IsText s
    → 0 < dsize
    → (m' : Memory) × (strlcpy dst (stored s behind) dsize m ≡ done (length s, m'))
      × ((a : ℕ) → m' a ≡ with_text dst s (min2 dsize (length s)) m a)
unfolding strlcpy strlen
strlcpy_lem dst dsize s behind m h pos =
    let (m', e, at) = copies_text dsize dst s behind m h in
    let len : strlen_from 0 (stored s behind) ≡ done (length s) =
      strlen_from-stored 0 s behind h ∙ ap done (omega arith) in
    let some_room : (dsize == 0) ≡ false = ground arith in
    (m', rw (len, some_room) (ap (λ x. x >>= λ y. done (length s, y)) e), at)
