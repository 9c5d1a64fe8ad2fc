-- ===== src/Bootstrap/Regions.antt =====
-- The regions that the allocator hands out, over any sequence of calls.
use native.Mathlib.Nat.{mod-eq_of_lt}
use fdu_os.Common.{
  ℕ, ◌+◌, ◌%◌, ◌^◌, ◌≤◌, ◌<◌, ◌≡◌, refl, ltb, Bool-cases, inl, inr, List, [], ◌∷◌, arith,
}
use fdu_os.Common.Words.{add32}
use mathlib.Core.Path.{subst}
use fdu_os.Util.{roundup}
use fdu_os.Util.Rounding.{roundup_least}
use fdu_os.Memory.{Memory, memset}
use fdu_os.Bootstrap.{Bootstrap, malloc, free, ctor}

-- How a `malloc` ends: a region from a page boundary at or after `cur`, or NULL.
pub data Mallocs (size : ℕ) (s : Bootstrap) (m : Memory) : ℕ × Bootstrap × Memory → Type 0 where
  granted :
      {a : ℕ} {s' : Bootstrap}
      → a % 4096 ≡ 0
      → s.cur ≤ a
      → a + size ≤ s.limit
      → s'.limit ≡ s.limit
      → s'.cur ≡ a + size
      → Mallocs size s m (a, s', memset a 205 size m)
  refused :
      {s' : Bootstrap}
      → s.cur ≤ s'.cur
      → s.limit < s'.cur + size
      → s'.limit ≡ s.limit
      → Mallocs size s m (0, s', m)

module _ (size : ℕ) (s : Bootstrap) (m : Memory) (fits : s.cur + size + 4096 ≤ 2 ^ 32) where
  pub malloc-Mallocs : Mallocs size s m (malloc size s m)
  unfolding malloc
  malloc-Mallocs =
      let (aligned, above, below) = roundup_least 32 s.cur 4096 (omega arith) (omega arith) in
      let exact : add32 (roundup 32 s.cur 4096) size ≡ roundup 32 s.cur 4096 + size =
        mod-eq_of_lt (omega arith) in
      elim (Bool-cases (ltb s.limit (roundup 32 s.cur 4096 + size))) [
        | inl over ↦ rw (exact, over) (refused above (ground arith) refl)
        | inr within ↦ rw (exact, within) (granted aligned above (ground arith) refl refl)
      ]

-- The allocator after a sequence of calls, and the regions, as address and size, that it has
-- handed out, the last first.
pub data Reached (base max_size : ℕ) : Bootstrap → List (ℕ × ℕ) → Type 0 where
  start : Reached base max_size (ctor base max_size) []
  freed :
      {s : Bootstrap} {gs : List (ℕ × ℕ)} (ptr : ℕ)
      → Reached base max_size s gs
      → Reached base max_size (free ptr s) gs
  got :
      {s s' : Bootstrap} {gs : List (ℕ × ℕ)} {size a : ℕ} (m m' : Memory)
      → Reached base max_size s gs
      → s.cur + size + 4096 ≤ 2 ^ 32
      → malloc size s m ≡ (a, s', m')
      → 0 < a
      → Reached base max_size s' ((a, size) ∷ gs)
  got_null :
      {s s' : Bootstrap} {gs : List (ℕ × ℕ)} (size : ℕ) (m m' : Memory)
      → Reached base max_size s gs
      → s.cur + size + 4096 ≤ 2 ^ 32
      → malloc size s m ≡ (0, s', m')
      → Reached base max_size s' gs

-- Regions one below the other from `top` down to `base`, each from a page boundary on.
abbrev pub Stacked : ℕ → ℕ → ℕ → List (ℕ × ℕ) → Type 0
Stacked base limit top [] = base ≤ top
Stacked base limit top ((a, n) ∷ gs) =
    (a % 4096 ≡ 0) × (a + n ≤ top) × (a + n ≤ limit) × Stacked base limit a gs

Stacked-mono :
    (base limit : ℕ) {t t' : ℕ} (gs : List (ℕ × ℕ))
    → t ≤ t'
    → Stacked base limit t gs
    → Stacked base limit t' gs
Stacked-mono base limit [] le st = omega arith
Stacked-mono base limit ((a, n) ∷ gs) le (al, top, lim, rest) = (al, omega arith, lim, rest)

-- What holds of the allocator after any sequence of calls.
pub record IsReached (base max_size : ℕ) (s : Bootstrap) (gs : List (ℕ × ℕ)) : Type 0 where
  pub same_limit : s.limit ≡ base + max_size
  pub stacked : Stacked base (base + max_size) s.cur gs

Stacked-base : (base limit top : ℕ) (gs : List (ℕ × ℕ)) → Stacked base limit top gs → base ≤ top
Stacked-base base limit top [] st = st
Stacked-base base limit top ((a, n) ∷ gs) (al, t, lim, rest) =
    omega (arith, Stacked-base base limit a gs rest)

after_region :
    (base max_size : ℕ) {gs : List (ℕ × ℕ)} {s s' : Bootstrap} {m : Memory} {size a : ℕ}
    {m' : Memory}
    → IsReached base max_size s gs
    → Mallocs size s m (a, s', m')
    → 0 < a
    → IsReached base max_size s' ((a, size) ∷ gs)
after_region base max_size {gs = gs} {s = s} h (granted al above lim same cur) pos = record {
  same_limit = omega (arith, h.same_limit, same);
  stacked = (
    al,
    omega arith,
    omega (arith, h.same_limit),
    Stacked-mono base (base + max_size) gs above h.stacked,
  );
}
after_region base max_size {gs = gs} {s = s} h (refused above over same) pos = absurd (omega arith)

after_null :
    (base max_size : ℕ) {gs : List (ℕ × ℕ)} {s s' : Bootstrap} {m : Memory} {size a : ℕ}
    {m' : Memory}
    → IsReached base max_size s gs
    → Mallocs size s m (a, s', m')
    → 0 < base
    → a ≡ 0
    → IsReached base max_size s' gs
after_null base max_size {gs = gs} {s = s} h (granted al above lim same cur) pos e =
    absurd (omega (arith, Stacked-base base (base + max_size) s.cur gs h.stacked))
after_null base max_size {gs = gs} {s = s} h (refused above over same) pos e = record {
  same_limit = omega (arith, h.same_limit, same);
  stacked = Stacked-mono base (base + max_size) gs above h.stacked;
}

-- If the area from a `base` above 0 ends below 2^32, then after any calls of `malloc`, each small
-- enough for the end of its region to be a 32-bit address, and of `free`, the regions handed out
-- lie within the area, begin at page boundaries, and each ends before the one handed out next
-- begins; so they are disjoint.
pub Reached-Stacked :
    (base max_size : ℕ) {s : Bootstrap} {gs : List (ℕ × ℕ)}
    → 0 < base
    → base + max_size < 2 ^ 32
    → Reached base max_size s gs
    → IsReached base max_size s gs
unfolding ctor free
Reached-Stacked base max_size pos fits start = record {
  same_limit = mod-eq_of_lt fits;
  stacked = omega arith;
}
Reached-Stacked base max_size pos fits (freed ptr r) = Reached-Stacked base max_size pos fits r
Reached-Stacked base max_size pos fits (got {s = s} {size = size} m m' r small e some_region) =
    after_region base max_size (Reached-Stacked base max_size pos fits r)
      (subst (λ t. Mallocs size s m t) e (malloc-Mallocs size s m small)) some_region
Reached-Stacked base max_size pos fits (got_null {s = s} size m m' r small e) =
    after_null base max_size (Reached-Stacked base max_size pos fits r)
      (subst (λ t. Mallocs size s m t) e (malloc-Mallocs size s m small)) pos refl
