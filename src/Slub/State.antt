-- ===== src/Slub/State.antt =====
-- What the fields of the allocator stand for: the blocks that it has taken from the bridge, and
-- the objects that are handed out.
use native.Mathlib.Nat.{one-le-pow}
use fdu_os.Common.{
  ℕ, ◌+◌, ◌-◌, ◌%◌, ◌^◌, ◌≤◌, ◌<◌, ◌≡◌, ◌≢◌, refl, sym, inl, inr, Bool, true, false, not, ◌&&◌,
  ◌==◌, ==→eq, Bool-cases, if◌then◌else◌, ltb, ltb→lt, arith,
}
use fdu_os.Buddy.Tiles.{count}
use fdu_os.Bridge.{PvBridge}
use fdu_os.Bridge.Pieces.{AreApart, PieceLaws}
use fdu_os.Slub.{Slub, list_empty}
use fdu_os.Slub.Slots.{solts_of, solt_within, solts_apart}

-- The blocks of objects, the objects handed out, and the pieces held from the bridge.
pub record Ghost : Type 0 where
  pub known : ℕ → Bool
  pub live : ℕ → Bool
  pub held : ℕ → ℕ

abbrev pub block_of : ℕ → ℕ
block_of p = p - p % 4096

-- The bytes that the client may use from `p` on, 0 where it owns nothing.
abbrev pub owned : {State : Type 0} → Slub State → Ghost → ℕ → ℕ
owned s g p =
    if g.live p then 2 ^ (s.level_idx (block_of p) + 4) else if g.known p then 0 else g.held p

-- Whether block `b` belongs on the list of index `i`, for the blocks with a free slot or for those
-- without.
abbrev pub on_avail : {State : Type 0} → Slub State → Ghost → ℕ → ℕ → Bool
on_avail s g i b = g.known b && (s.level_idx b == i) && not (list_empty (s.free_list b))

abbrev pub on_full : {State : Type 0} → Slub State → Ghost → ℕ → ℕ → Bool
on_full s g i b = g.known b && (s.level_idx b == i) && list_empty (s.free_list b)

-- The object at `p` is one of block `b` that is handed out.
abbrev pub taken : Ghost → ℕ → ℕ → Bool
taken g b p = g.live p && (block_of p == b)

abbrev pub indicator : Bool → ℕ
indicator b = if b then 1 else 0

-- `Holds` says of the bridge's state which pieces are held. Every slot of a block is free or
-- handed out, and each block is on the list for its level and for whether it is full.
pub record IsSound {State : Type 0} (Holds : State → (ℕ → ℕ) → Type 0) (s : Slub State) (g : Ghost)
    : Type 0 where
  pub holds : Holds s.bridge g.held
  pub aligned : (x : ℕ) → 0 < g.held x → x % 4096 ≡ 0
  pub block_held : (b : ℕ) → g.known b ≡ true → g.held b ≡ 4096
  pub level_small : (b : ℕ) → g.known b ≡ true → s.level_idx b < 7
  pub solts :
      (b p : ℕ)
      → g.known b ≡ true
      → count p (s.free_list b) + indicator (taken g b p) ≡ count p (solts_of (s.level_idx b) b)
  pub stray : (p : ℕ) → g.live p ≡ true → g.known (block_of p) ≡ true
  pub avails : (i b : ℕ) → i < 7 → count b (s.slub_avail i) ≡ indicator (on_avail s g i b)
  pub fulls : (i b : ℕ) → i < 7 → count b (s.slub_full i) ≡ indicator (on_full s g i b)

-- An owned pointer is an object of a block, or a piece of its own.
pub data Kind {State : Type 0} (s : Slub State) (g : Ghost) (p : ℕ) : Type 0 where
  small :
      g.live p ≡ true
      → g.known (block_of p) ≡ true
      → 0 < count p (solts_of (s.level_idx (block_of p)) (block_of p))
      → owned s g p ≡ 2 ^ (s.level_idx (block_of p) + 4)
      → Kind s g p
  large : g.live p ≡ false → g.known p ≡ false → 0 < g.held p → owned s g p ≡ g.held p → Kind s g p

-- An address that no piece is held at is no block.
pub not_block :
    {State : Type 0} {Holds : State → (ℕ → ℕ) → Type 0} {s : Slub State} {g : Ghost}
    → IsSound Holds s g
    → (b : ℕ) → g.held b ≡ 0
    → g.known b ≡ false
not_block {g = g} sound b fresh = elim (Bool-cases (g.known b)) [
  | inr u ↦ u
  | inl k ↦ absurd (omega (arith, sound.block_held b k))
]

module _ {State : Type 0} {bridge : PvBridge State} {Holds : State → (ℕ → ℕ) → Type 0}
    (laws : PieceLaws bridge Holds) {s : Slub State} {g : Ghost} (sound : IsSound Holds s g) where
  -- A block lies in memory, apart from any other piece.
  pub block_end : (b : ℕ) → g.known b ≡ true → (0 < b) × (b + 4096 ≤ 2 ^ 32)
  block_end b k =
      let e = sound.block_held b k in
      let (pos, end) = laws.bounded s.bridge g.held b sound.holds (omega arith) in
      (pos, omega arith)

  -- Blocks and pieces of their own start at a block's boundary.
  pub unaligned_free : (x : ℕ) → 0 < x % 4096 → (g.known x ≡ false) × (g.held x ≡ 0)
  unaligned_free x h =
      let empty : g.held x ≡ 0 = elim (Bool-cases (ltb 0 (g.held x))) [
        | inr free ↦ ground arith
        | inl held ↦ absurd (omega (arith, sound.aligned x (ltb→lt 0 (g.held x) held)))
      ] in
      (not_block sound x empty, empty)

  pub solt_inside :
      (b p : ℕ)
      → g.known b ≡ true
      → 0 < count p (solts_of (s.level_idx b) b)
      → (b + 20 ≤ p) × (p + 2 ^ (s.level_idx b + 4) ≤ b + 4096)
  solt_inside b p k h = solt_within (s.level_idx b) b (sound.level_small b k) (block_end b k).1 p h

  -- The block of a slot is found by rounding its address down.
  pub block_of_solt :
      (b p : ℕ)
      → g.known b ≡ true
      → 0 < count p (solts_of (s.level_idx b) b)
      → (block_of p ≡ b) × (0 < p % 4096)
  block_of_solt b p k h =
      let (from, to) = solt_inside b p k h in
      let whole = sound.aligned b (omega (arith, sound.block_held b k)) in
      let pos = one-le-pow (s.level_idx b + 4) 2 (omega arith) in (omega arith, omega arith)

  pub live_solt :
      (p : ℕ) → g.live p ≡ true → 0 < count p (solts_of (s.level_idx (block_of p)) (block_of p))
  live_solt p l =
      let e : taken g (block_of p) p ≡ true = rw l (ground arith) in
      omega (arith, rw e at (sound.solts (block_of p) p (sound.stray p l)))

  pub live_unaligned : (p : ℕ) → g.live p ≡ true → 0 < p % 4096
  live_unaligned p l = (block_of_solt (block_of p) p (sound.stray p l) (live_solt p l)).1

  -- A pointer at a block's boundary is no object of a block.
  pub aligned_not_live : (p : ℕ) → p % 4096 ≡ 0 → g.live p ≡ false
  aligned_not_live p h = elim (Bool-cases (g.live p)) [
    | inr n ↦ n
    | inl l ↦ absurd (omega (arith, live_unaligned p l))
  ]

  pub owned-Kind : (p : ℕ) → 0 < owned s g p → Kind s g p
  owned-Kind p h = elim (Bool-cases (g.live p)) [
    | inl l ↦ small l (sound.stray p l) (live_solt p l) (rw l refl)
    | inr n ↦ elim (Bool-cases (g.known p)) [
      | inl k ↦ absurd (omega (arith, rw (n, k) at h))
      | inr u ↦ large n u (rw (n, u) at h) (rw (n, u) refl)
    ]
  ]

  -- An object and a piece of its own are apart, since the object's block and the piece are.
  small_large_apart :
      (p q : ℕ)
      → g.known (block_of p) ≡ true
      → 0 < count p (solts_of (s.level_idx (block_of p)) (block_of p))
      → g.known q ≡ false
      → 0 < g.held q
      → AreApart p (2 ^ (s.level_idx (block_of p) + 4)) q (g.held q)
  small_large_apart p q k h u big =
      let b = block_of p in
      let e = sound.block_held b k in
      let (from, to) = solt_inside b p k h in
      let ne : b ≢ q = λ same. cc in
      elim (laws.apart s.bridge g.held b q sound.holds (omega arith) big ne) [
        | inl below ↦ inl (omega arith)
        | inr above ↦ inr (omega arith)
      ]

  blocks_apart : (b c : ℕ) → g.known b ≡ true → g.known c ≡ true → b ≢ c → AreApart b 4096 c 4096
  blocks_apart b c k l ne =
      let e = sound.block_held b k in
      let f = sound.block_held c l in
      elim (laws.apart s.bridge g.held b c sound.holds (omega arith) (omega arith) ne) [
        | inl below ↦ inl (omega arith)
        | inr above ↦ inr (omega arith)
      ]

  small_apart :
      (p q : ℕ)
      → g.known (block_of p) ≡ true
      → 0 < count p (solts_of (s.level_idx (block_of p)) (block_of p))
      → g.known (block_of q) ≡ true
      → 0 < count q (solts_of (s.level_idx (block_of q)) (block_of q))
      → p ≢ q
      → AreApart p (2 ^ (s.level_idx (block_of p) + 4)) q (2 ^ (s.level_idx (block_of q) + 4))
  small_apart p q k h l j ne =
      let (from, to) = solt_inside (block_of p) p k h in
      let (from', to') = solt_inside (block_of q) q l j in
      elim (Bool-cases (block_of p == block_of q)) [
        | inl same ↦
            let e : block_of q ≡ block_of p = sym (==→eq (block_of p) (block_of q) same) in
            rw e (
              solts_apart (s.level_idx (block_of p)) (block_of p) (sound.level_small (block_of p) k)
                (block_end (block_of p) k).1 p q h (rw e at j) ne)
        | inr other ↦ elim (blocks_apart (block_of p) (block_of q) k l (ground arith)) [
          | inl below ↦ inl (omega arith)
          | inr above ↦ inr (omega arith)
        ]
      ]

  AreApart-sym : (p n q m : ℕ) → AreApart p n q m → AreApart q m p n
  AreApart-sym p n q m (inl a) = inr a
  AreApart-sym p n q m (inr a) = inl a

  Kind-AreApart :
      (p q : ℕ) → p ≢ q → Kind s g p → Kind s g q → AreApart p (owned s g p) q (owned s g q)
  Kind-AreApart p q ne (small l k h e) (small l' k' h' e') =
      rw (e, e') (small_apart p q k h k' h' ne)
  Kind-AreApart p q ne (small l k h e) (large n u big e') =
      rw (e, e') (small_large_apart p q k h u big)
  Kind-AreApart p q ne (large n u big e) (small l k h e') =
      rw (e, e') (AreApart-sym q _ p _ (small_large_apart q p k h u big))
  Kind-AreApart p q ne (large n u big e) (large n' u' big' e') =
      rw (e, e') (laws.apart s.bridge g.held p q sound.holds big big' ne)

  -- What the client owns at two pointers does not overlap.
  pub owned-AreApart :
      (p q : ℕ)
      → 0 < owned s g p
      → 0 < owned s g q
      → p ≢ q
      → AreApart p (owned s g p) q (owned s g q)
  owned-AreApart p q h j ne = Kind-AreApart p q ne (owned-Kind p h) (owned-Kind q j)

  Kind-bounded : (p : ℕ) → Kind s g p → (0 < p) × (p + owned s g p ≤ 2 ^ 32)
  Kind-bounded p (small l k h e) =
      let (from, to) = solt_inside (block_of p) p k h in
      let (pos, end) = block_end (block_of p) k in (omega arith, rw e (omega arith))
  Kind-bounded p (large n u big e) = rw e (laws.bounded s.bridge g.held p sound.holds big)

  -- It is not at NULL, and ends within the memory.
  pub owned-bounded : (p : ℕ) → 0 < owned s g p → (0 < p) × (p + owned s g p ≤ 2 ^ 32)
  owned-bounded p h = Kind-bounded p (owned-Kind p h)
