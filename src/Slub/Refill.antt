-- ===== src/Slub/Refill.antt =====
-- A block that the bridge has given becomes a block of free slots on the list of its level.
use fdu_os.Common.{
  ℕ, ◌+◌, ◌-◌, ◌%◌, ◌^◌, ◌<◌, ◌≤◌, ◌≡◌, refl, inl, inr, true, false, ◌==◌, ==→eq, Bool-cases, set,
  arith,
}
use fdu_os.Buddy.Tiles.{count}
use fdu_os.Slub.{Slub, init_slub, add_avail}
use fdu_os.Slub.Slots.{solts_of, solts_not_empty}
use fdu_os.Slub.State.{
  Ghost, not_block, IsSound, owned, block_of, taken, indicator, on_avail, on_full,
}

module _ {State : Type 0} {Holds : State → (ℕ → ℕ) → Type 0} {s : Slub State} {g : Ghost}
    (sound : IsSound Holds s g) {bridge : State} (i b : ℕ) (lt : i < 7) (whole : b % 4096 ≡ 0)
    (fits : b + 4096 ≤ 2 ^ 32) (fresh : g.held b ≡ 0)
    (holds : Holds bridge (set g.held b 4096)) where
  abbrev pub refilled : Slub State
  refilled = add_avail b i (init_slub (i + 4) b (record s { bridge = bridge }))

  abbrev pub refilled_ghost : Ghost
  refilled_ghost = record g { known = set g.known b true; held = set g.held b 4096 }

  unknown : g.known b ≡ false
  unknown = not_block sound b fresh

  none_taken : (p : ℕ) → taken g b p ≡ false
  none_taken p = elim (Bool-cases (g.live p)) [
    | inr n ↦ rw n refl
    | inl l ↦ elim (Bool-cases (block_of p == b)) [
      | inr other ↦ rw (l, other) refl
      | inl same ↦
          let k = rw (==→eq (block_of p) b same) at (sound.stray p l) in let u = unknown in cc
    ]
  ]

  level : i + 4 - 4 ≡ i
  level = omega arith

  refilled_solts :
      (c p : ℕ)
      → refilled_ghost.known c ≡ true
      → count p (refilled.free_list c) + indicator (taken refilled_ghost c p)
        ≡ count p (solts_of (refilled.level_idx c) c)
  unfolding init_slub add_avail
  refilled_solts c p k = elim (Bool-cases (b == c)) [
    | inl here ↦ rw (here, level, ← ==→eq b c here, none_taken p) (omega arith)
    | inr other ↦ rw other (sound.solts c p (rw other at k))
  ]

  refilled_avails :
      (k c : ℕ)
      → k < 7
      → count c (refilled.slub_avail k) ≡ indicator (on_avail refilled refilled_ghost k c)
  unfolding init_slub add_avail count
  refilled_avails k c small = elim (Bool-cases (b == c)) [
    | inl here ↦
        rw (here, level, ← ==→eq b c here, solts_not_empty i b lt fits)
          (ground (arith, rw unknown at (sound.avails k b small)))
    | inr other ↦ rw other (ground (arith, sound.avails k c small))
  ]

  refilled_fulls :
      (k c : ℕ)
      → k < 7
      → count c (refilled.slub_full k) ≡ indicator (on_full refilled refilled_ghost k c)
  unfolding init_slub add_avail
  refilled_fulls k c small = elim (Bool-cases (b == c)) [
    | inl here ↦
        rw (here, level, ← ==→eq b c here, solts_not_empty i b lt fits)
          (ground (arith, rw unknown at (sound.fulls k b small)))
    | inr other ↦ rw other (sound.fulls k c small)
  ]

  pub refilled-IsSound : IsSound Holds refilled refilled_ghost
  unfolding init_slub add_avail
  refilled-IsSound = record {
    holds = holds;
    aligned = λ x. λ h. elim (Bool-cases (b == x)) [
      | inl here ↦ rw (← ==→eq b x here) whole
      | inr other ↦ sound.aligned x (rw other at h)
    ];
    block_held = λ c. λ k. elim (Bool-cases (b == c)) [
      | inl here ↦ rw here refl
      | inr other ↦ rw other (sound.block_held c (rw other at k))
    ];
    level_small = λ c. λ k. elim (Bool-cases (b == c)) [
      | inl here ↦ rw (here, level) lt
      | inr other ↦ rw other (sound.level_small c (rw other at k))
    ];
    solts = refilled_solts;
    stray = λ p. λ l. ground (arith, sound.stray p l);
    avails = refilled_avails;
    fulls = refilled_fulls;
  }

  pub refilled-owned : (p : ℕ) → owned refilled refilled_ghost p ≡ owned s g p
  unfolding init_slub add_avail
  refilled-owned p = elim (Bool-cases (g.live p)) [
    | inl l ↦
        let other : (b == block_of p) ≡ false = ground (arith, rw l at (none_taken p)) in
        rw (l, other) refl
    | inr n ↦ elim (Bool-cases (b == p)) [
      | inl here ↦ rw (n, here, ← ==→eq b p here, unknown, fresh) refl
      | inr other ↦ rw (n, other) refl
    ]
  ]
