-- ===== src/Buddy/RoundTrip.antt =====
-- `malloc` followed by `free`, the alignment of the blocks, and where 32-bit addresses end.
use native.Mathlib.Nat.{one-le-pow, mul-le-mul_left}
use fdu_os.Common.{ℕ, suc, ◌+◌, ◌*◌, ◌^◌, ◌≤◌, ◌<◌, ◌%◌, ◌≡◌, refl, ◌∙◌, ap, List, arith}
use fdu_os.Common.Words.{add64, mul32}
use fdu_os.Common.Outcome.{Outcome, done}
use fdu_os.Buddy.{Buddy, malloc, free, no_address}
use fdu_os.Buddy.Tiles.{Tile, hits, used_here}
use fdu_os.Buddy.Holes.{IsValid}
use fdu_os.Buddy.Take.{Granted}
use fdu_os.Buddy.Malloc.{pages_for, Mallocs, granted, refused, malloc_lem}
use fdu_os.Buddy.Free.{Freed, free_lem}

-- Every block is in use in `ts'` exactly if it is in `ts`.
abbrev pub SameUsed : List Tile → List Tile → Type 0
SameUsed ts ts' = (o d j : ℕ) → hits (used_here o d j) 0 ts' ≡ hits (used_here o d j) 0 ts

-- In a zone of at most 4 GB that ends below 2^64, the address of a block is exact.
pub address_exact :
    (b : Buddy) (i : ℕ)
    → i < b.page_count
    → b.page_size * b.page_count ≤ 2 ^ 32
    → b.base + b.page_size * b.page_count < 2 ^ 64
    → 0 < b.page_size
    → add64 b.base (mul32 b.page_size i) ≡ b.base + b.page_size * i
address_exact b i lt small fits pos =
    let below : b.page_size * suc i ≤ b.page_size * b.page_count = mul-le-mul_left b.page_size lt in
    omega arith

-- `free` of the address that `malloc` returned: the blocks in use are again those of before.
pub record Restored (b b'' : Buddy) (ts : List Tile) : Type 0 where
  pub blocks : List Tile
  pub valid : IsValid b'' blocks
  pub same_used : SameUsed ts blocks
  pub free_pages : b''.free_page_count ≡ b.free_page_count

-- What a `free` of the address does after a `malloc` that ended in a given way.
pub data FreesAgain (b : Buddy) (ts : List Tile) : Outcome (ℕ × Buddy) → Type 0 where
  freed_again :
      {a : ℕ} {b' b'' : Buddy}
      → free a b' ≡ done b''
      → Restored b b'' ts
      → FreesAgain b ts (done (a, b'))
  no_memory : FreesAgain b ts (done (no_address, b))

module _ {b : Buddy} {ts : List Tile} (v : IsValid b ts) (boundary : b.base % b.page_size ≡ 0)
    (small : b.page_size * b.page_count ≤ 2 ^ 32)
    (fits : b.base + b.page_size * b.page_count < 2 ^ 64) where
  module _ {b' : Buddy} {cnt a : ℕ} (g : Granted b b' ts cnt a) where
    granted_address : a ≡ b'.base + b'.page_size * g.index
    granted_address =
        g.address_of
        ∙ address_exact b g.index (omega (arith, one-le-pow g.order 2, g.inside)) small fits
            v.size_pos
        ∙ rw (g.same_base, g.same_page_size) refl

    in_use_now : 0 < hits (used_here g.order cnt g.index) 0 g.blocks
    in_use_now = ground (arith, g.more g.order cnt g.index)

    granted_boundary : b'.base % b'.page_size ≡ 0
    granted_boundary = rw (g.same_base, g.same_page_size) boundary

    granted_fits : b'.base + b'.page_size * b'.page_count < 2 ^ 64
    granted_fits = rw (g.same_base, g.same_page_size, g.same_page_count) fits

    Freed-Restored : {b'' : Buddy} → Freed b' b'' g.blocks g.order cnt g.index → Restored b b'' ts
    Freed-Restored f = record {
      blocks = f.blocks;
      valid = f.valid;
      same_used = λ o d j. omega (arith, f.less o d j, g.more o d j);
      free_pages = omega (arith, f.free_pages, g.free_pages);
    }

    pub granted_Restored : (b'' : Buddy) × (free a b' ≡ done b'') × Restored b b'' ts
    granted_Restored =
        let (b'', e, f) =
          free_lem g.order cnt g.index g.valid granted_boundary granted_fits in_use_now in
        (b'', ap (λ x. free x b') granted_address ∙ e, Freed-Restored f)

    granted-free : FreesAgain b ts (done (a, b'))
    granted-free = let (b'', e, r) = granted_Restored in freed_again e r

  Mallocs-FreesAgain : {cnt : ℕ} {r : Outcome (ℕ × Buddy)} → Mallocs b ts cnt r → FreesAgain b ts r
  Mallocs-FreesAgain (granted g) = granted-free g
  Mallocs-FreesAgain (refused r) = no_memory

  -- On an allocator at rest, over a zone of at most 4 GB that starts at a page boundary and ends
  -- below 2^64: after a `malloc` of at most 2^31 pages that returned a block, `free` of its address
  -- ends without a failed assertion and leaves an allocator at rest with the same blocks in use
  -- and the same number of free pages as before.
  pub malloc-free : (bytes : ℕ) → pages_for b bytes ≤ 2 ^ 31 → FreesAgain b ts (malloc bytes b)
  malloc-free bytes enough = Mallocs-FreesAgain (malloc_lem bytes v enough)
