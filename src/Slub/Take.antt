-- ===== src/Slub/Take.antt =====
-- The first slot of a block is handed out, and a block that is full then changes its list.
use native.Mathlib.Nat.{one-le-pow}
use fdu_os.Common.{
  ℕ, ◌+◌, ◌%◌, ◌^◌, ◌<◌, ◌≤◌, ◌≡◌, ◌≢◌, refl, inl, inr, true, false, List, ◌∷◌, ◌==◌, ==→eq,
  ==_refl, Bool-cases, set, arith,
}
use fdu_os.Buddy.Tiles.{count, count-erase, count-cons_self}
use fdu_os.Bridge.{PvBridge}
use fdu_os.Bridge.Pieces.{PieceLaws}
use fdu_os.Slub.{Slub, list_empty, list_del, add_full, malloc_first, malloc_from_slub}
use fdu_os.Slub.Slots.{solts_of, solt_once}
use fdu_os.Slub.Calls.{Mallocs, granted}
use fdu_os.Slub.State.{
  Ghost, IsSound, owned, block_of, block_of_solt, block_end, unaligned_free, taken, indicator,
  on_avail,
}

-- The first block on a list of blocks with free slots has one.
pub first_not_full :
    {State : Type 0} {Holds : State → (ℕ → ℕ) → Type 0} {s : Slub State} {g : Ghost}
    → IsSound Holds s g
    → (i b : ℕ) (others : List ℕ) → i < 7
    → s.slub_avail i ≡ b ∷ others
    → on_avail s g i b ≡ true
first_not_full {s = s} sound i b others lt first =
    let c : 0 < count b (s.slub_avail i) = rw first (count-cons_self b others) in
    ground (arith, sound.avails i b lt)

module _ {State : Type 0} {bridge : PvBridge State} {Holds : State → (ℕ → ℕ) → Type 0}
    (laws : PieceLaws bridge Holds) {s : Slub State} {g : Ghost} (sound : IsSound Holds s g)
    (i b p : ℕ) (others rest : List ℕ) (lt : i < 7) (first : s.slub_avail i ≡ b ∷ others)
    (slots : s.free_list b ≡ p ∷ rest) where
  -- `malloc` before and after it has looked whether the block is full.
  abbrev popped : Slub State
  popped = record s { free_list = set s.free_list b rest }

  abbrev popped_ghost : Ghost
  popped_ghost = record g { live = set g.live p true }

  abbrev moved : Slub State
  moved = add_full b i (list_del b popped)

  is_listed : on_avail s g i b ≡ true
  is_listed = first_not_full sound i b others lt first

  block_known : g.known b ≡ true
  block_known = ground (arith, is_listed)

  block_level : s.level_idx b ≡ i
  block_level = ground (arith, is_listed)

  slot_of_block : 0 < count p (solts_of (s.level_idx b) b)
  slot_of_block =
      let c : 0 < count p (s.free_list b) = rw slots (count-cons_self p rest) in
      omega (arith, sound.solts b p block_known)

  place : (block_of p ≡ b) × (0 < p % 4096)
  place = block_of_solt laws sound b p block_known slot_of_block

  not_live : g.live p ≡ false
  not_live =
      let c : 0 < count p (s.free_list b) = rw slots (count-cons_self p rest) in
      let once =
        solt_once (s.level_idx b) b (sound.level_small b block_known)
          (block_end laws sound b block_known).1 p in
      ground (arith, sound.solts b p block_known, place.0)

  owned_before : owned s g p ≡ 0
  owned_before =
      let (not_block, not_held) = unaligned_free laws sound p place.1 in
      rw (not_live, not_block) not_held

  popped-owned : (q : ℕ) → q ≢ p → owned popped popped_ghost q ≡ owned s g q
  popped-owned q ne = let other : (p == q) ≡ false = ground arith in rw other refl

  owned_after : owned popped popped_ghost p ≡ 2 ^ (i + 4)
  owned_after = rw (==_refl p, place.0, block_level) refl

  popped_solts :
      (c q : ℕ)
      → g.known c ≡ true
      → count q (popped.free_list c) + indicator (taken popped_ghost c q)
        ≡ count q (solts_of (popped.level_idx c) c)
  unfolding count
  popped_solts c q k = elim (Bool-cases (b == c)) [
    | inl here ↦
        let old = rw slots at (sound.solts b q block_known) in
        rw (here, ← ==→eq b c here)
          (elim (Bool-cases (p == q)) [
            | inl same ↦
                let e : p ≡ q = ==→eq p q same in
                let n : g.live q ≡ false = rw e at not_live in
                let t : (block_of q == b) ≡ true = ground (arith, rw e at place.0) in
                rw (same, t) (omega (arith, rw (same, n) at old))
            | inr other ↦ rw other (omega (arith, rw other at old))
          ])
    | inr other ↦ rw other (elim (Bool-cases (p == q)) [
      | inl same ↦
          let e : p ≡ q = ==→eq p q same in
          let n : g.live q ≡ false = rw e at not_live in
          let t : (block_of q == c) ≡ false = ground (arith, rw e at place.0) in
          rw (same, t) (rw n at (sound.solts c q k))
      | inr other_slot ↦ rw other_slot (sound.solts c q k)
    ])
  ]

  popped_stray : (q : ℕ) → popped_ghost.live q ≡ true → g.known (block_of q) ≡ true
  popped_stray q l = elim (Bool-cases (p == q)) [
    | inl same ↦ rw (← ==→eq p q same, place.0) block_known
    | inr other ↦ sound.stray q (rw other at l)
  ]

  -- The block still has a free slot.
  popped-IsSound : list_empty rest ≡ false → IsSound Holds popped popped_ghost
  popped-IsSound more = record {
    holds = sound.holds;
    aligned = sound.aligned;
    block_held = sound.block_held;
    level_small = sound.level_small;
    solts = popped_solts;
    stray = popped_stray;
    avails = λ k. λ c. λ small. elim (Bool-cases (b == c)) [
      | inl here ↦ rw (here, ← ==→eq b c here, more) (rw slots at (sound.avails k b small))
      | inr other ↦ rw other (sound.avails k c small)
    ];
    fulls = λ k. λ c. λ small. elim (Bool-cases (b == c)) [
      | inl here ↦ rw (here, ← ==→eq b c here, more) (rw slots at (sound.fulls k b small))
      | inr other ↦ rw other (sound.fulls k c small)
    ];
  }

  -- The block is full.
  moved-IsSound : list_empty rest ≡ true → IsSound Holds moved popped_ghost
  unfolding add_full list_del count
  moved-IsSound full = record {
    holds = sound.holds;
    aligned = sound.aligned;
    block_held = sound.block_held;
    level_small = sound.level_small;
    solts = popped_solts;
    stray = popped_stray;
    avails = λ k. λ c. λ small. elim (Bool-cases (b == c)) [
      | inl here ↦
          rw (here, ← ==→eq b c here, full)
            (ground (arith, count-erase b b (s.slub_avail k), rw slots at (sound.avails k b small)))
      | inr other ↦
          rw other (ground (arith, count-erase b c (s.slub_avail k), sound.avails k c small))
    ];
    fulls = λ k. λ c. λ small. elim (Bool-cases (b == c)) [
      | inl here ↦
          rw (here, ← ==→eq b c here, full, block_known, block_level)
            (elim (Bool-cases (i == k)) [
              | inl equal ↦ rw equal (
                  ground (arith, count-erase b b (s.slub_full i), rw slots at (sound.fulls i b lt)))
              | inr not_at ↦ rw not_at (
                  ground
                    (arith, count-erase b b (s.slub_full k), rw slots at (sound.fulls k b small)))
            ])
      | inr other ↦ rw other (elim (Bool-cases (i == k)) [
        | inl equal ↦
            rw (equal, ← ==→eq i k equal)
              (ground (arith, count-erase b c (s.slub_full i), sound.fulls i c lt))
        | inr not_at ↦
            rw not_at (ground (arith, count-erase b c (s.slub_full k), sound.fulls k c small))
      ])
    ];
  }

  -- `malloc` takes the slot.
  pub malloc_first-Mallocs :
      (size : ℕ) → size ≤ 2 ^ (i + 4) → Mallocs Holds s g size (malloc_first i s)
  unfolding malloc_first malloc_from_slub add_full list_del
  malloc_first-Mallocs size enough =
      let pos : 0 < 2 ^ (i + 4) = one-le-pow (i + 4) 2 (omega arith) in
      elim (Bool-cases (list_empty rest)) [
        | inl full ↦
            rw (malloc_first, first, malloc_from_slub, slots, ==_refl b, full)
              (granted popped_ghost (moved-IsSound full) owned_before (omega (arith, owned_after))
                (omega (arith, owned_after)) popped-owned)
        | inr more ↦
            rw (malloc_first, first, malloc_from_slub, slots, ==_refl b, more)
              (granted popped_ghost (popped-IsSound more) owned_before (omega (arith, owned_after))
                (omega (arith, owned_after)) popped-owned)
      ]
