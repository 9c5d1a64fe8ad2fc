-- ===== src/Buddy/Aligned.antt =====
-- `aligned_malloc` on an allocator at rest: the block is aligned.
use native.Mathlib.Nat.{
  one-le-pow, pow-le-pow_right, pow-suc, mod-eq_of_lt, mul-le-mul_left, div-add-mod,
  add-mul-mod_self_left, mul_assoc,
}
use fdu_os.Common.{
  ℕ, suc, ◌+◌, ◌-◌, ◌*◌, ◌/◌, ◌%◌, ◌^◌, ◌≤◌, ◌<◌, ◌≡◌, refl, sym, ◌∙◌, ap, true, List, ltb, ltb→lt,
  if◌then◌else◌, Bool-cases, inl, inr, arith,
}
use fdu_os.Common.Bits.Powers.{pow-add}
use fdu_os.Common.Outcome.{Outcome, done}
use fdu_os.Util.{div_round_up, is_pow_of_2, is_aligned}
use fdu_os.Util.Rounding.{div_round_up-eq, quotient_range}
use fdu_os.Util.Alignment.{is_aligned_iff, is_pow_of_2_iff}
use fdu_os.Buddy.{Buddy, malloc, aligned_malloc, no_address}
use fdu_os.Buddy.Tiles.{Tile}
use fdu_os.Buddy.Holes.{IsValid}
use fdu_os.Buddy.Take.{Granted}
use fdu_os.Buddy.RoundTrip.{address_exact}
use fdu_os.Buddy.Malloc.{pages_for, Mallocs, granted, refused, malloc_lem, Refused}

-- How an aligned allocation of `cnt` pages ends: with an aligned block, or without memory.
pub data MallocsAligned (b : Buddy) (ts : List Tile) (cnt align : ℕ)
    : Outcome (ℕ × Buddy) → Type 0 where
  granted_aligned :
      {a : ℕ} {b' : Buddy}
      → Granted b b' ts cnt a
      → a % align ≡ 0
      → MallocsAligned b ts cnt align (done (a, b'))
  refused_aligned : Refused ts cnt → MallocsAligned b ts cnt align (done (no_address, b))

-- The bytes that `aligned_malloc` asks `malloc` for.
abbrev pub requested : ℕ → ℕ → ℕ
requested size align = if ltb size align then align else size

module _ (p a order cnt index base : ℕ) (whole : index % 2 ^ order ≡ 0)
    (boundary : base % 2 ^ a ≡ 0) (enough : cnt ≤ 2 ^ order) (covers : 2 ^ a ≤ 2 ^ p * cnt) where
  -- A block that holds `2 ^ a` bytes has at least that order.
  order_large : a ≤ p + order
  order_large = elim (Bool-cases (ltb (p + order) a)) [
    | inl short ↦
        let lt : p + order < a = ltb→lt (p + order) a short in
        let le : 2 ^ suc (p + order) ≤ 2 ^ a = pow-le-pow_right {n = 2} (omega arith) lt in
        absurd (
          omega (
            arith,
            pow-suc 2 (p + order),
            pow-add p order,
            one-le-pow (p + order) 2,
            mul-le-mul_left (2 ^ p) enough,
          ))
    | inr long ↦ ground arith
  ]

  scaled : 2 ^ p * index ≡ 2 ^ a * (2 ^ (p + order - a) * (index / 2 ^ order))
  scaled =
      let q = index / 2 ^ order in
      let e : a + (p + order - a) ≡ p + order = omega (arith, order_large) in
      let i : index ≡ 2 ^ order * q = omega (arith, div-add-mod index (2 ^ order)) in
      ap (λ x. 2 ^ p * x) i
      ∙ sym (mul_assoc (2 ^ p) (2 ^ order) q)
      ∙ ap (λ x. x * q)
          (sym (pow-add p order) ∙ ap (λ x. 2 ^ x) (sym e) ∙ pow-add a (p + order - a))
      ∙ mul_assoc (2 ^ a) (2 ^ (p + order - a)) q

  address_aligned : (base + 2 ^ p * index) % 2 ^ a ≡ 0
  address_aligned =
      rw scaled
        (add-mul-mod_self_left base (2 ^ a) (2 ^ (p + order - a) * (index / 2 ^ order)) ∙ boundary)

module _ {b : Buddy} {ts : List Tile} (v : IsValid b ts) (p a bytes : ℕ)
    (page : b.page_size ≡ 2 ^ p) (a_small : a < 64) (boundary : b.base % 2 ^ a ≡ 0)
    (zone : b.page_size * b.page_count ≤ 2 ^ 32)
    (fits : b.base + b.page_size * b.page_count < 2 ^ 64)
    (room : requested bytes (2 ^ a) + b.page_size ≤ 2 ^ 64)
    (small : div_round_up 64 (requested bytes (2 ^ a)) b.page_size ≤ 2 ^ 31) where
  abbrev cnt : ℕ
  cnt = pages_for b (requested bytes (2 ^ a))

  covers : 2 ^ a ≤ 2 ^ p * cnt
  covers =
      let r = requested bytes (2 ^ a) in
      let e : cnt ≡ (r + b.page_size - 1) / b.page_size =
        mod-eq_of_lt (omega arith) ∙ div_round_up-eq 64 r b.page_size v.size_pos room in
      let le : 2 ^ a ≤ r = ground arith in
      let q : r ≤ b.page_size * ((r + b.page_size - 1) / b.page_size) =
        (quotient_range 64 r b.page_size v.size_pos room).0 in
      rw (e, ← page) (omega arith)

  guards : (is_pow_of_2 (2 ^ a) ≡ true) × (is_aligned 64 b.base (2 ^ a) ≡ true)
  guards =
      let e : 64 - a + a ≡ 64 = omega arith in
      (
        (is_pow_of_2_iff (2 ^ a)).1 (a, refl),
        rw e at ((is_aligned_iff (64 - a) a b.base).1 boundary),
      )

  Mallocs-MallocsAligned :
      {r : Outcome (ℕ × Buddy)} → Mallocs b ts cnt r → MallocsAligned b ts cnt (2 ^ a) r
  Mallocs-MallocsAligned (refused r) = refused_aligned r
  Mallocs-MallocsAligned (granted g) =
      let lt : g.index < b.page_count = omega (arith, one-le-pow g.order 2, g.inside) in
      let e = g.address_of ∙ address_exact b g.index lt zone fits v.size_pos in
      granted_aligned g (
        rw (e, page)
          (address_aligned p a g.order cnt g.index b.base g.aligned boundary g.least.enough covers))

  aligned_malloc-malloc : aligned_malloc bytes (2 ^ a) b ≡ malloc (requested bytes (2 ^ a)) b
  unfolding aligned_malloc
  aligned_malloc-malloc =
      rw (guards.0, guards.1)
        (elim (Bool-cases (ltb bytes (2 ^ a))) [ inl h ↦ rw h refl | inr h ↦ rw h refl ])

  -- On an allocator at rest, with pages of `2 ^ p` bytes, over a zone of at most 4 GB that starts
  -- at a multiple of `2 ^ a` and ends below 2^64: for a request that, raised to `2 ^ a` bytes, is
  -- at most 2^31 pages, `aligned_malloc` with alignment `2 ^ a` fails no assertion. It returns a
  -- block as `malloc` does, at an address that is a multiple of `2 ^ a`; or no block of the
  -- order is free, and it returns -1 and changes nothing.
  pub aligned_malloc_lem : MallocsAligned b ts cnt (2 ^ a) (aligned_malloc bytes (2 ^ a) b)
  aligned_malloc_lem =
      rw aligned_malloc-malloc
        (Mallocs-MallocsAligned (malloc_lem (requested bytes (2 ^ a)) v (omega arith)))
