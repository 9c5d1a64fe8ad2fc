-- ===== src/Slub/Free.antt =====
-- `free` of slub.c: the object goes back to its block, or the piece to the bridge.
use fdu_os.Common.{
  ℕ, ◌+◌, ◌%◌, ◌^◌, ◌<◌, ◌≡◌, ◌≢◌, refl, inl, inr, true, false, ◌∷◌, ◌==◌, ==→eq, ==_refl,
  Bool-cases, set, arith,
}
use fdu_os.Common.Bits.Powers.{bit_and_mask}
use fdu_os.Util.{is_aligned, align_below, rounddown}
use fdu_os.Util.Alignment.{align_below-rounddown}
use fdu_os.Buddy.Tiles.{count, count-erase}
use fdu_os.Bridge.{PvBridge}
use fdu_os.Bridge.Pieces.{PieceLaws}
use fdu_os.Slub.{Slub, list_empty, list_del, add_avail, free_solt, free}
use fdu_os.Slub.Slots.{solts_of}
use fdu_os.Slub.State.{
  Ghost, IsSound, owned, block_of, taken, indicator, Kind, small, large, owned-Kind, owned-bounded,
  unaligned_free, live_unaligned,
}
use fdu_os.Slub.Calls.{Frees, freed}
use fdu_os.Slub.Large.{large_Frees}

-- The macros on a pointer.
is_aligned-block :
    (p : ℕ)
    → (p % 4096 ≡ 0 → is_aligned 32 p 4096 ≡ true) × (0 < p % 4096 → is_aligned 32 p 4096 ≡ false)
unfolding is_aligned
is_aligned-block p = rw (bit_and_mask 12 p) (λ h. ground arith, λ h. ground arith)

align_below-block : (p : ℕ) → p < 2 ^ 32 → align_below 32 p 4096 ≡ block_of p
unfolding rounddown
align_below-block p h = align_below-rounddown 20 12 p h

module _ {State : Type 0} {bridge : PvBridge State} {Holds : State → (ℕ → ℕ) → Type 0}
    (laws : PieceLaws bridge Holds) {s : Slub State} {g : Ghost} (sound : IsSound Holds s g) (p : ℕ)
    (live : g.live p ≡ true) where
  -- `free` before and after it has looked whether the block was full.
  abbrev pushed : Slub State
  pushed = record s { free_list = set s.free_list (block_of p) (p ∷ s.free_list (block_of p)) }

  abbrev pushed_ghost : Ghost
  pushed_ghost = record g { live = set g.live p false }

  abbrev back : Slub State
  back = add_avail (block_of p) (s.level_idx (block_of p)) (list_del (block_of p) pushed)

  abbrev j : ℕ
  j = s.level_idx (block_of p)

  j_small : j < 7
  j_small = sound.level_small (block_of p) (sound.stray p live)

  block_known : g.known (block_of p) ≡ true
  block_known = sound.stray p live

  pushed_solts :
      (c q : ℕ)
      → g.known c ≡ true
      → count q (pushed.free_list c) + indicator (taken pushed_ghost c q)
        ≡ count q (solts_of (pushed.level_idx c) c)
  unfolding count
  pushed_solts c q k = elim (Bool-cases (block_of p == c)) [
    | inl here ↦ rw here (elim (Bool-cases (p == q)) [
      | inl same ↦
          let e : p ≡ q = ==→eq p q same in
          let l : g.live q ≡ true = rw e at live in
          let t : (block_of q == c) ≡ true = rw e at here in
          rw (same, ==→eq (block_of p) c here) (omega (arith, rw (l, t) at (sound.solts c q k)))
      | inr other ↦ rw (other, ==→eq (block_of p) c here) (omega (arith, sound.solts c q k))
    ])
    | inr away ↦ rw away (elim (Bool-cases (p == q)) [
      | inl same ↦
          let e : p ≡ q = ==→eq p q same in
          let l : g.live q ≡ true = rw e at live in
          let t : (block_of q == c) ≡ false = rw e at away in
          rw same (rw (l, t) at (sound.solts c q k))
      | inr other ↦ rw other (sound.solts c q k)
    ])
  ]

  pushed_stray : (q : ℕ) → pushed_ghost.live q ≡ true → g.known (block_of q) ≡ true
  pushed_stray q l = ground (arith, sound.stray q)

  -- The block had a free slot.
  pushed-IsSound : list_empty (s.free_list (block_of p)) ≡ false → IsSound Holds pushed pushed_ghost
  pushed-IsSound more = record {
    holds = sound.holds;
    aligned = sound.aligned;
    block_held = sound.block_held;
    level_small = sound.level_small;
    solts = pushed_solts;
    stray = pushed_stray;
    avails = λ k. λ c. λ lt. elim (Bool-cases (block_of p == c)) [
      | inl here ↦
          rw (here, ← ==→eq (block_of p) c here) (rw more at (sound.avails k (block_of p) lt))
      | inr other ↦ rw other (sound.avails k c lt)
    ];
    fulls = λ k. λ c. λ lt. elim (Bool-cases (block_of p == c)) [
      | inl here ↦
          rw (here, ← ==→eq (block_of p) c here) (rw more at (sound.fulls k (block_of p) lt))
      | inr other ↦ rw other (sound.fulls k c lt)
    ];
  }

  -- The block was full.
  back-IsSound : list_empty (s.free_list (block_of p)) ≡ true → IsSound Holds back pushed_ghost
  unfolding add_avail list_del count
  back-IsSound full = record {
    holds = sound.holds;
    aligned = sound.aligned;
    block_held = sound.block_held;
    level_small = sound.level_small;
    solts = pushed_solts;
    stray = pushed_stray;
    avails = λ k. λ c. λ lt. elim (Bool-cases (block_of p == c)) [
      | inl here ↦
          rw (here, ← ==→eq (block_of p) c here, block_known)
            (elim (Bool-cases (j == k)) [
              | inl at_j ↦ rw at_j (
                  ground (
                    arith,
                    count-erase (block_of p) (block_of p) (s.slub_avail j),
                    rw full at (sound.avails j (block_of p) j_small),
                  ))
              | inr other ↦ rw other (
                  ground (
                    arith,
                    count-erase (block_of p) (block_of p) (s.slub_avail k),
                    rw full at (sound.avails k (block_of p) lt),
                  ))
            ])
      | inr away ↦ rw away (elim (Bool-cases (j == k)) [
        | inl at_j ↦
            rw (at_j, ← ==→eq j k at_j)
              (ground
                (arith, count-erase (block_of p) c (s.slub_avail j), sound.avails j c j_small))
        | inr other ↦
            rw other
              (ground (arith, count-erase (block_of p) c (s.slub_avail k), sound.avails k c lt))
      ])
    ];
    fulls = λ k. λ c. λ lt. elim (Bool-cases (block_of p == c)) [
      | inl here ↦
          rw (here, ← ==→eq (block_of p) c here)
            (ground (
              arith,
              count-erase (block_of p) (block_of p) (s.slub_full k),
              rw full at (sound.fulls k (block_of p) lt),
            ))
      | inr away ↦
          rw away (ground (arith, count-erase (block_of p) c (s.slub_full k), sound.fulls k c lt))
    ];
  }

  not_owned : owned pushed pushed_ghost p ≡ 0
  not_owned =
      let (not_block, not_held) = unaligned_free laws sound p (live_unaligned laws sound p live) in
      rw (==_refl p, not_block) not_held

  elsewhere : (q : ℕ) → q ≢ p → owned pushed pushed_ghost q ≡ owned s g q
  elsewhere q ne = let other : (p == q) ≡ false = ground arith in rw other refl

  small_Frees : p < 2 ^ 32 → Frees Holds s g p (free bridge p s)
  unfolding free free_solt add_avail list_del
  small_Frees below =
      let odd = (is_aligned-block p).1 (live_unaligned laws sound p live) in
      let base = align_below-block p below in
      elim (Bool-cases (list_empty (s.free_list (block_of p)))) [
        | inl full ↦
            rw (odd, base, full) (freed pushed_ghost (back-IsSound full) not_owned elsewhere)
        | inr more ↦
            rw (odd, base, more) (freed pushed_ghost (pushed-IsSound more) not_owned elsewhere)
      ]

module _ {State : Type 0} {bridge : PvBridge State} {Holds : State → (ℕ → ℕ) → Type 0}
    (laws : PieceLaws bridge Holds) {s : Slub State} {g : Ghost} (sound : IsSound Holds s g)
    (p : ℕ) where
  large-Frees : g.known p ≡ false → 0 < g.held p → Frees Holds s g p (free bridge p s)
  unfolding free
  large-Frees unknown pos =
      let even = (is_aligned-block p).0 (sound.aligned p pos) in
      let (br, e, holds) = laws.takes s.bridge g.held p sound.holds pos in
      rw (even, e) (large_Frees laws sound pos unknown holds)

  Kind-Frees : p < 2 ^ 32 → Kind s g p → Frees Holds s g p (free bridge p s)
  Kind-Frees h (small l k solt e) = small_Frees laws sound p l h
  Kind-Frees h (large n u big e) = large-Frees u big

  -- On a sound allocator, `free` of a pointer that the client owns ends without a failed assertion
  -- in a sound allocator; the client owns nothing at the pointer any more, and at every other
  -- address what it owned before.
  pub free-Frees : 0 < owned s g p → Frees Holds s g p (free bridge p s)
  free-Frees h =
      let (pos, end) = owned-bounded laws sound p h in
      Kind-Frees (omega arith) (owned-Kind laws sound p h)
