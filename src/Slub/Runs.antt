-- ===== src/Slub/Runs.antt =====
-- Any sequence of calls of slub.c from its constructor on.
use fdu_os.Common.{
  ℕ, ◌+◌, ◌%◌, ◌^◌, ◌<◌, ◌≤◌, ◌≡◌, ◌≢◌, refl, inl, inr, false, lt→ltb, ◌==◌, ==→eq, Bool-cases, set,
  arith,
}
use fdu_os.Common.Outcome.{Outcome, done}
use fdu_os.Buddy.Tiles.{count}
use fdu_os.Bridge.{PvBridge}
use fdu_os.Bridge.Pieces.{PieceLaws, AreApart}
use fdu_os.Slub.{Slub, ctor, malloc, free}
use fdu_os.Slub.State.{Ghost, IsSound, owned, owned-AreApart, owned-bounded}
use fdu_os.Slub.Calls.{Mallocs, refused, granted, Frees, freed}
use fdu_os.Slub.Malloc.{malloc-Mallocs}
use fdu_os.Slub.Free.{free-Frees}

-- A state that calls lead to, with the sizes that the client has asked for at the pointers that it
-- holds. It frees what it holds, and nothing else.
pub data Reached {State : Type 0} (pvbridge : PvBridge State) (bridge : State)
    : Slub State → (ℕ → ℕ) → Type 0 where
  constructed : (s : Slub State) → Reached pvbridge bridge (ctor bridge s) (λ p. 0)
  malloc_null :
      {s s' : Slub State} {asked : ℕ → ℕ} (size : ℕ)
      → Reached pvbridge bridge s asked
      → size < 2 ^ 32
      → malloc pvbridge size s ≡ done (0, s')
      → Reached pvbridge bridge s' asked
  malloc_step :
      {s s' : Slub State} {asked : ℕ → ℕ} (size p : ℕ)
      → Reached pvbridge bridge s asked
      → size < 2 ^ 32
      → malloc pvbridge size s ≡ done (p, s')
      → p ≢ 0
      → Reached pvbridge bridge s' (set asked p size)
  free_step :
      {s s' : Slub State} {asked : ℕ → ℕ} (p : ℕ)
      → Reached pvbridge bridge s asked
      → 0 < asked p
      → free pvbridge p s ≡ done s'
      → Reached pvbridge bridge s' (set asked p 0)

-- The ghost state without blocks.
abbrev pub no_blocks : (ℕ → ℕ) → Ghost
no_blocks held = record { known = λ b. false; live = λ p. false; held = held }

-- The state that a call returns.
abbrev pub malloc_state : {State : Type 0} → Slub State → Outcome (ℕ × Slub State) → Slub State
malloc_state s (done (p, s')) = s'
malloc_state s o = s

abbrev malloc_pointer : {State : Type 0} → Outcome (ℕ × Slub State) → ℕ
malloc_pointer (done (p, s')) = p
malloc_pointer o = 0

abbrev free_state : {State : Type 0} → Slub State → Outcome (Slub State) → Slub State
free_state s (done s') = s'
free_state s o = s

-- Parts of pieces that do not overlap do not overlap.
AreApart-within : (p q : ℕ) {n m k l : ℕ} → k ≤ n → l ≤ m → AreApart p n q m → AreApart p k q l
AreApart-within p q le le' (inl below) = inl (omega arith)
AreApart-within p q le le' (inr above) = inr (omega arith)

module _ {State : Type 0} {pvbridge : PvBridge State} {Holds : State → (ℕ → ℕ) → Type 0}
    (laws : PieceLaws pvbridge Holds) where
  -- The constructor leaves no block; the pieces that are held are those held before.
  pub ctor-IsSound :
      {bridge : State} {held : ℕ → ℕ} (s : Slub State)
      → Holds bridge held
      → ((x : ℕ) → 0 < held x → x % 4096 ≡ 0)
      → IsSound Holds (ctor bridge s) (no_blocks held)
  unfolding ctor count
  ctor-IsSound s holds whole = record {
    holds = holds;
    aligned = whole;
    block_held = λ b. λ k. absurd (ground arith);
    level_small = λ b. λ k. absurd (ground arith);
    solts = λ b. λ p. λ k. absurd (ground arith);
    stray = λ p. λ l. absurd (ground arith);
    avails = λ i. λ b. λ lt. rw (lt→ltb i 7 lt) refl;
    fulls = λ i. λ b. λ lt. rw (lt→ltb i 7 lt) refl;
  }

  -- A sound state in which the client owns at least what it holds.
  record Backed (s : Slub State) (asked : ℕ → ℕ) : Type 0 where
    ghost : Ghost
    sound : IsSound Holds s ghost
    enough : (p : ℕ) → asked p ≤ owned s ghost p

  ctor-Backed :
      {bridge : State} (s : Slub State) → Holds bridge (λ p. 0) → Backed (ctor bridge s) (λ p. 0)
  ctor-Backed s holds = record {
    ghost = no_blocks (λ p. 0);
    sound = ctor-IsSound s holds (λ x. λ h. absurd (omega arith));
    enough = λ p. omega arith;
  }

  Mallocs-Backed :
      {s : Slub State} {g : Ghost} {asked : ℕ → ℕ} {size : ℕ} {r : Outcome (ℕ × Slub State)}
      → ((p : ℕ) → asked p ≤ owned s g p)
      → Mallocs Holds s g size r
      → ((malloc_pointer r ≡ 0 → Backed (malloc_state s r) asked)
          × (malloc_pointer r ≢ 0 → Backed (malloc_state s r) (set asked (malloc_pointer r) size)))
  Mallocs-Backed enough (refused g' sound kept) = (
    λ e. record { ghost = g'; sound = sound; enough = λ q. rw (kept q) (enough q) },
    λ ne. absurd (ne refl),
  )
  Mallocs-Backed {size = size} enough (granted {p} g' sound before positive more kept) = (
    λ e. absurd (omega (arith, owned-bounded laws sound p positive)),
    λ ne. record {
      ghost = g';
      sound = sound;
      enough = λ q. elim (Bool-cases (p == q)) [
        | inl here ↦ rw (here, ← ==→eq p q here) more
        | inr other ↦ let ne : q ≢ p = ground arith in rw (other, kept q ne) (enough q)
      ];
    },
  )

  Frees-Backed :
      {s : Slub State} {g : Ghost} {asked : ℕ → ℕ} {p : ℕ} {r : Outcome (Slub State)}
      → ((q : ℕ) → asked q ≤ owned s g q)
      → Frees Holds s g p r
      → Backed (free_state s r) (set asked p 0)
  Frees-Backed {p = p} enough (freed g' sound gone kept) = record {
    ghost = g';
    sound = sound;
    enough = λ q. elim (Bool-cases (p == q)) [
      | inl here ↦ rw here (omega arith)
      | inr other ↦ let ne : q ≢ p = ground arith in rw (other, kept q ne) (enough q)
    ];
  }

  Reached-Backed :
      {bridge : State} {s : Slub State} {asked : ℕ → ℕ}
      → Holds bridge (λ p. 0)
      → Reached pvbridge bridge s asked
      → Backed s asked
  Reached-Backed holds (constructed s) = ctor-Backed s holds
  Reached-Backed holds (malloc_null size r small e) =
      let k = Reached-Backed holds r in
      (rw e at (Mallocs-Backed k.enough (malloc-Mallocs laws size k.sound small))).0 refl
  Reached-Backed holds (malloc_step size p r small e ne) =
      let k = Reached-Backed holds r in
      (rw e at (Mallocs-Backed k.enough (malloc-Mallocs laws size k.sound small))).1 ne
  Reached-Backed holds (free_step p r pos e) =
      let k = Reached-Backed holds r in
      rw e at (Frees-Backed k.enough (free-Frees laws k.sound p (omega (arith, k.enough p))))

  Mallocs-done :
      {s : Slub State} {g : Ghost} {size : ℕ} {r : Outcome (ℕ × Slub State)}
      → Mallocs Holds s g size r
      → (a : ℕ × Slub State) × (r ≡ done a)
  Mallocs-done (refused {s'} g' sound kept) = ((0, s'), refl)
  Mallocs-done (granted {p} {s'} g' sound before positive more kept) = ((p, s'), refl)

  Frees-done :
      {s : Slub State} {g : Ghost} {p : ℕ} {r : Outcome (Slub State)}
      → Frees Holds s g p r
      → (s' : Slub State) × (r ≡ done s')
  Frees-done (freed {s'} g' sound gone kept) = (s', refl)

  -- Over a bridge that keeps its promises and has given no piece yet, in every state that the
  -- constructor and then calls of `malloc` below 2^32 bytes and of `free` on held pointers lead
  -- to: two objects that the client holds, of at least one byte, do not overlap in the bytes asked
  -- for, are not at NULL, and end within 2^32.
  pub Reached-AreApart :
      {bridge : State} {s : Slub State} {asked : ℕ → ℕ} (p q : ℕ)
      → Holds bridge (λ x. 0)
      → Reached pvbridge bridge s asked
      → 0 < asked p
      → 0 < asked q
      → p ≢ q
      → AreApart p (asked p) q (asked q)
        × (0 < p)
        × (0 < q)
        × (p + asked p ≤ 2 ^ 32)
        × (q + asked q ≤ 2 ^ 32)
  Reached-AreApart {s = s} p q holds r hp hq ne =
      let k = Reached-Backed holds r in
      let own : 0 < owned s k.ghost p = omega (arith, k.enough p) in
      let own' : 0 < owned s k.ghost q = omega (arith, k.enough q) in
      let (pos, end) = owned-bounded laws k.sound p own in
      let (pos', end') = owned-bounded laws k.sound q own' in
      (
        AreApart-within p q (k.enough p) (k.enough q) (owned-AreApart laws k.sound p q own own' ne),
        pos,
        pos',
        omega (arith, k.enough p),
        omega (arith, k.enough q),
      )

  -- Over a bridge that keeps its promises and has given no piece yet, in every state that the
  -- constructor and then calls of `malloc` below 2^32 bytes and of `free` on held pointers lead
  -- to: a further `malloc` below 2^32 bytes, and a `free` of a held pointer of at least one byte,
  -- end without a failed assertion and without undefined behaviour.
  pub Reached-done :
      {bridge : State} {s : Slub State} {asked : ℕ → ℕ} (size p : ℕ)
      → Holds bridge (λ x. 0)
      → Reached pvbridge bridge s asked
      → size < 2 ^ 32
      → 0 < asked p
      → ((a : ℕ × Slub State) × (malloc pvbridge size s ≡ done a))
        × ((s' : Slub State) × (free pvbridge p s ≡ done s'))
  Reached-done size p holds r small h =
      let k = Reached-Backed holds r in
      (
        Mallocs-done (malloc-Mallocs laws size k.sound small),
        Frees-done (free-Frees laws k.sound p (omega (arith, k.enough p))),
      )
