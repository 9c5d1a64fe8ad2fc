-- ===== src/Slub/Malloc.antt =====
-- `malloc` of slub.c: an object of a block, a piece of its own, or NULL.
use fdu_os.Common.{
  ℕ, ◌+◌, ◌-◌, ◌%◌, ◌^◌, ◌<◌, ◌≤◌, ◌≡◌, refl, inl, inr, true, false, List, [], ◌∷◌, ltb, leb, ◌==◌,
  ==_refl, Bool-cases, if◌then◌else◌, set, arith,
}
use fdu_os.Common.Outcome.{Outcome, done, ◌>>=◌}
use fdu_os.Bridge.{PvBridge}
use fdu_os.Bridge.Pieces.{PieceLaws, Gives, nothing, piece}
use fdu_os.Slub.{
  Slub, list_empty, malloc_first, malloc_small, alloc_slub, malloc, add_avail, init_slub,
}
use fdu_os.Slub.Slots.{level_for_lem}
use fdu_os.Slub.State.{Ghost, IsSound}
use fdu_os.Slub.Refill.{refilled-IsSound, refilled-owned}
use fdu_os.Slub.Large.{large_Mallocs}
use fdu_os.Slub.Take.{first_not_full, malloc_first-Mallocs}
use fdu_os.Slub.Calls.{Mallocs, refused, Mallocs-same}

list-cases : (xs : List ℕ) → list_empty xs ≡ false → (x : ℕ) × (others : List ℕ) × (xs ≡ x ∷ others)
list-cases [] h = absurd (ground arith)
list-cases (x ∷ xs) h = (x, xs, refl)

module _ {State : Type 0} {bridge : PvBridge State} {Holds : State → (ℕ → ℕ) → Type 0}
    (laws : PieceLaws bridge Holds) where
  malloc_first_lem :
      {s : Slub State} {g : Ghost} (i size : ℕ)
      → IsSound Holds s g
      → i < 7
      → list_empty (s.slub_avail i) ≡ false
      → size ≤ 2 ^ (i + 4)
      → Mallocs Holds s g size (malloc_first i s)
  malloc_first_lem {s} i size sound lt filled enough =
      let (b, others, first) = list-cases (s.slub_avail i) filled in
      let (p, rest, solts) =
        list-cases (s.free_list b) (ground (arith, first_not_full sound i b others lt first)) in
      malloc_first-Mallocs laws sound i b p others rest lt first solts size enough

  new_bridge :
      {s : Slub State} {g : Ghost} {br : State}
      → IsSound Holds s g
      → Holds br g.held
      → IsSound Holds (record s { bridge = br }) g
  new_bridge sound holds = record {
    holds = holds;
    aligned = sound.aligned;
    block_held = sound.block_held;
    level_small = sound.level_small;
    solts = sound.solts;
    stray = sound.stray;
    avails = sound.avails;
    fulls = sound.fulls;
  }

  -- What `malloc` does with the block that the bridge has given.
  refill_lem :
      {s : Slub State} {g : Ghost} {slub : ℕ} {br : State} (i size : ℕ)
      → IsSound Holds s g
      → i < 7
      → size ≤ 2 ^ (i + 4)
      → slub % 4096 ≡ 0
      → g.held slub ≡ 0
      → Holds br (set g.held slub 4096)
      → Mallocs Holds s g size
          (malloc_first i (add_avail slub i (init_slub (i + 4) slub (record s { bridge = br }))))
  unfolding add_avail
  refill_lem {s} {g} {slub} {br} i size sound lt enough whole fresh holds =
      let (_, end) = laws.bounded br (set g.held slub 4096) slub holds (ground arith) in
      let fits : slub + 4096 ≤ 2 ^ 32 = ground (arith, end) in
      Mallocs-same Holds (refilled-owned sound i slub lt whole fits fresh holds) (
        malloc_first_lem i size (refilled-IsSound sound i slub lt whole fits fresh holds) lt
          (rw (add_avail, ==_refl i) refl) enough)

  -- What `malloc` does with the answer of the bridge.
  Gives-refill :
      {s : Slub State} {g : Ghost} {r : Outcome (ℕ × State)} (i size : ℕ)
      → IsSound Holds s g
      → i < 7
      → size ≤ 2 ^ (i + 4)
      → Gives Holds g.held 4096 r
      → Mallocs Holds s g size (
          (r >>= λ (slub, br).
          if slub == 0
          then done (0, record s { bridge = br })
          else done (slub, init_slub (i + 4) slub (record s { bridge = br })))
          >>= λ (new_slub, s').
              if new_slub == 0
              then done (0, s')
              else malloc_first (i + 4 - 4) (add_avail new_slub (i + 4 - 4) s'))
  Gives-refill i size sound lt enough (nothing holds) =
      refused _ (new_bridge sound holds) (λ q. refl)
  Gives-refill {s} {g} i size sound lt enough (piece {x} {s'} whole fresh holds) =
      let (pos, _) = laws.bounded s' (set g.held x 4096) x holds (ground arith) in
      let nonzero : (x == 0) ≡ false = ground (arith, pos) in
      let level : i + 4 - 4 ≡ i = omega arith in
      rw (nonzero, nonzero, level) (refill_lem i size sound lt enough whole fresh holds)

  malloc_small_lem :
      {s : Slub State} {g : Ghost} (i size : ℕ)
      → IsSound Holds s g
      → i < 7
      → size ≤ 2 ^ (i + 4)
      → Mallocs Holds s g size (malloc_small bridge (i + 4) s)
  unfolding malloc_small alloc_slub
  malloc_small_lem {s} {g} i size sound lt enough =
      let level : i + 4 - 4 ≡ i = omega arith in
      elim (Bool-cases (list_empty (s.slub_avail (i + 4 - 4)))) [
        | inr filled ↦
            rw (filled, level) (malloc_first_lem i size sound lt (rw level at filled) enough)
        | inl empty ↦
            let low : leb 4 (i + 4) ≡ true = ground arith in
            let high : leb (i + 4) 10 ≡ true = ground arith in
            rw (empty, low, high)
              (Gives-refill i size sound lt enough
                (laws.gives s.bridge g.held 4096 sound.holds (omega arith) (omega arith)))
      ]

  Gives-large :
      {s : Slub State} {g : Ghost} {r : Outcome (ℕ × State)} (size : ℕ)
      → IsSound Holds s g
      → 0 < size
      → Gives Holds g.held size r
      → Mallocs Holds s g size (r >>= λ (ptr, br). done (ptr, record s { bridge = br }))
  Gives-large size sound pos (nothing holds) = refused _ (new_bridge sound holds) (λ q. refl)
  Gives-large {s} {g} size sound pos (piece {x} {s'} whole fresh holds) =
      large_Mallocs laws sound size pos whole fresh holds

  -- On a sound allocator, `malloc` of less than 2^32 bytes fails no assertion and ends in a sound
  -- allocator. It returns NULL, and the client owns what it owned before; or it returns a pointer
  -- where the client owned nothing before and now owns at least `size` bytes and at least one, and
  -- at every other address what it owned before.
  pub malloc-Mallocs :
      {s : Slub State} {g : Ghost} (size : ℕ)
      → IsSound Holds s g
      → size < 2 ^ 32
      → Mallocs Holds s g size (malloc bridge size s)
  unfolding malloc
  malloc-Mallocs {s} {g} size sound small =
      let (l, e, enough, from, some_bytes) = level_for_lem 59 4 size (omega arith) in
      elim (Bool-cases (ltb 10 l)) [
        | inl big ↦
            let pos : 0 < size = some_bytes (ground (arith, big)) in
            rw (malloc, e, big)
              (Gives-large size sound pos (laws.gives s.bridge g.held size sound.holds pos small))
        | inr fits ↦
            let level : l - 4 + 4 ≡ l = omega arith in
            rw (malloc, e, fits)
              (rw level at (malloc_small_lem (l - 4) size sound (ground arith) (rw level enough)))
      ]
