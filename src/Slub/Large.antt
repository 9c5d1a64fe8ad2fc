-- ===== src/Slub/Large.antt =====
-- A piece of its own that the bridge gives, or takes back, for a large object.
use fdu_os.Common.{
  ℕ, ◌%◌, ◌<◌, ◌≡◌, ◌≢◌, refl, inl, inr, false, ◌==◌, ==→eq, ==_refl, Bool-cases, set, arith,
}
use fdu_os.Common.Outcome.{done}
use fdu_os.Bridge.{PvBridge}
use fdu_os.Bridge.Pieces.{PieceLaws}
use fdu_os.Slub.{Slub}
use fdu_os.Slub.State.{aligned_not_live, not_block, Ghost, IsSound, owned}
use fdu_os.Slub.Calls.{Mallocs, granted, Frees, freed}

module _ {State : Type 0} {Holds : State → (ℕ → ℕ) → Type 0} {s : Slub State} {g : Ghost}
    (sound : IsSound Holds s g) (x n : ℕ) {br : State} (holds : Holds br (set g.held x n))
    (unknown : g.known x ≡ false) where
  abbrev with_piece : Ghost
  with_piece = record g { held = set g.held x n }

  pub with_piece-IsSound :
      (0 < n → x % 4096 ≡ 0) → IsSound Holds (record s { bridge = br }) with_piece
  with_piece-IsSound whole = record {
    holds = holds;
    aligned = λ y. λ h. elim (Bool-cases (x == y)) [
      | inl here ↦ rw (← ==→eq x y here) (whole (rw here at h))
      | inr other ↦ sound.aligned y (rw other at h)
    ];
    block_held = λ c. λ k. elim (Bool-cases (x == c)) [
      | inl here ↦ let u = rw (==→eq x c here) at unknown in cc
      | inr other ↦ rw other (sound.block_held c k)
    ];
    level_small = sound.level_small;
    solts = sound.solts;
    stray = sound.stray;
    avails = sound.avails;
    fulls = sound.fulls;
  }

  elsewhere : (q : ℕ) → q ≢ x → owned s with_piece q ≡ owned s g q
  elsewhere q ne = let other : (x == q) ≡ false = ground arith in rw other refl

module _ {State : Type 0} {bridge : PvBridge State} {Holds : State → (ℕ → ℕ) → Type 0}
    (laws : PieceLaws bridge Holds) {s : Slub State} {g : Ghost} (sound : IsSound Holds s g) {x : ℕ}
    {br : State} where
  -- The bridge gives a piece for an object that is too large for a block.
  pub large_Mallocs :
      (n : ℕ)
      → 0 < n
      → x % 4096 ≡ 0
      → g.held x ≡ 0
      → Holds br (set g.held x n)
      → Mallocs Holds s g n (done (x, record s { bridge = br }))
  large_Mallocs n pos whole fresh holds =
      let not_live = aligned_not_live laws sound x whole in
      let unknown = not_block sound x fresh in
      let after : owned s (with_piece sound x n holds unknown) x ≡ n =
        rw (not_live, unknown, ==_refl x) refl in
      granted (with_piece sound x n holds unknown)
        (with_piece-IsSound sound x n holds unknown (λ _. whole)) (rw (not_live, unknown) fresh)
        (omega (arith, after)) (omega (arith, after)) (elsewhere sound x n holds unknown)

  -- It is taken back.
  pub large_Frees :
      0 < g.held x
      → g.known x ≡ false
      → Holds br (set g.held x 0)
      → Frees Holds s g x (done (record s { bridge = br }))
  large_Frees pos unknown holds =
      let not_live = aligned_not_live laws sound x (sound.aligned x pos) in
      freed (with_piece sound x 0 holds unknown)
        (with_piece-IsSound sound x 0 holds unknown (λ h. absurd (omega arith)))
        (rw (not_live, unknown, ==_refl x) refl) (elsewhere sound x 0 holds unknown)
