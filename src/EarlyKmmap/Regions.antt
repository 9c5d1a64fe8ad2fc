-- ===== src/EarlyKmmap/Regions.antt =====
-- The two regions that the kernel hands out: linear memory from `KERN_BASE` up, and dynamic
-- mappings from `KMMAP_BASE` up.
use native.Mathlib.Nat.{mod-eq_of_lt}
use fdu_os.Common.{
  ℕ, ◌+◌, ◌-◌, ◌^◌, ◌≤◌, ◌<◌, ◌≡◌, refl, sym, ap, ◌∙◌, Bool, true, false, List, [], ◌∷◌, ◌++◌, leb,
  ltb, if◌then◌else◌, Bool-cases, inl, inr, arith,
}
use fdu_os.Common.Words.{add32}
use fdu_os.Common.Outcome.{Outcome, done, ◌>>=◌}
use fdu_os.EarlyKmmap.{
  MappingType, memory, kmmap, temp, other, device, framebuffer, EarlyMapping, EarlyMappings, Bases,
  Status, ok, no_memory, invalid, early_mapping_add_memory,
}
use fdu_os.EarlyKmmap.Accept.{
  IsSound, Adds, added, full, not_valid, overlaps, early_mapping_add_lem,
}

abbrev pub is_memory : MappingType → Bool
is_memory memory = true
is_memory kmmap = false
is_memory temp = false
is_memory other = false
is_memory device = false
is_memory framebuffer = false

abbrev pub is_kmmap : MappingType → Bool
is_kmmap memory = false
is_kmmap kmmap = true
is_kmmap temp = false
is_kmmap other = false
is_kmmap device = false
is_kmmap framebuffer = false

-- The mappings of a kind lie one after the other, from `from` to `top`.
abbrev pub Run : (MappingType → Bool) → ℕ → List EarlyMapping → ℕ → Type 0
Run of_kind from [] top = from ≡ top
Run of_kind from (m ∷ ms) top =
    if of_kind m.kind
    then (m.vaddr ≡ from) × Run of_kind (from + m.size) ms top
    else Run of_kind from ms top

pub record IsPacked (bases : Bases) (valid : EarlyMapping → Bool) (s : EarlyMappings) : Type 0 where
  pub sound : IsSound valid s
  pub memory_run : Run is_memory bases.kern_base s.queue s.mem_top
  pub memory_end : s.mem_top ≤ bases.kmmap_base
  pub kmmap_run : Run is_kmmap bases.kmmap_base s.queue s.kmmap_top
  pub kmmap_end : s.kmmap_top ≤ bases.reserved_base

module _ (of_kind : MappingType → Bool) (e : EarlyMapping) where
  pub Run-append_other :
      (from : ℕ) (ms : List EarlyMapping) (top : ℕ)
      → of_kind e.kind ≡ false
      → Run of_kind from ms top
      → Run of_kind from (ms ++ (e ∷ [])) top
  Run-append_other from [] top isnt h = rw isnt h
  Run-append_other from (m ∷ ms) top isnt h = elim (Bool-cases (of_kind m.kind)) [
    | inl is ↦
        let (at, more) = rw is at h in rw is (at, Run-append_other (from + m.size) ms top isnt more)
    | inr miss ↦ rw miss (Run-append_other from ms top isnt (rw miss at h))
  ]

  pub Run-append :
      (from : ℕ) (ms : List EarlyMapping) (top : ℕ)
      → of_kind e.kind ≡ true
      → e.vaddr ≡ top
      → Run of_kind from ms top
      → Run of_kind from (ms ++ (e ∷ [])) (top + e.size)
  Run-append from [] top is at_top h = rw is (at_top ∙ sym h, ap (λ x. x + e.size) h)
  Run-append from (m ∷ ms) top is at_top h = elim (Bool-cases (of_kind m.kind)) [
    | inl here ↦
        let (at, more) = rw here at h in
        rw here (at, Run-append (from + m.size) ms top is at_top more)
    | inr miss ↦ rw miss (Run-append from ms top is at_top (rw miss at h))
  ]

module _ {bases : Bases} {valid : EarlyMapping → Bool} {s : EarlyMappings}
    (h : IsPacked bases valid s) (reserved_small : bases.reserved_base < 2 ^ 32) where
  -- How an addition of linear memory ends: with a part of what was asked for, and `mem_top` behind it.
  pub record AddsMemory (asked : ℕ) (r : ℕ) (s' : EarlyMappings) : Type 0 where
    pub packed : IsPacked bases valid s'
    pub part : r ≤ asked
    pub mem_top_after : s'.mem_top ≡ s.mem_top + r
    pub kmmap_top_after : s'.kmmap_top ≡ s.kmmap_top

  nothing_added : (asked : ℕ) → AddsMemory asked 0 s
  nothing_added asked = record {
    packed = h;
    part = omega arith;
    mem_top_after = omega arith;
    kmmap_top_after = refl;
  }

  module _ (base asked : ℕ) where
    abbrev granted_size : ℕ
    granted_size =
        if ltb (bases.kmmap_base - s.mem_top) asked then bases.kmmap_base - s.mem_top else asked

    abbrev memory_entry : EarlyMapping
    memory_entry = record { paddr = base; vaddr = s.mem_top; size = granted_size; kind = memory }

    abbrev settle_memory : Status × EarlyMappings → Outcome (ℕ × EarlyMappings)
    settle_memory (status, t) = elim status [
      | ok ↦ done (granted_size, record t { mem_top = add32 t.mem_top granted_size })
      | no_memory ↦ done (0, t)
      | invalid ↦ done (0, t)
    ]

    memory_added :
        s.mem_top < bases.kmmap_base
        → bases.kmmap_base ≤ bases.reserved_base
        → IsSound valid (record s { queue = s.queue ++ (memory_entry ∷ []) })
        → AddsMemory asked granted_size (record s {
          queue = s.queue ++ (memory_entry ∷ []);
          mem_top = add32 s.mem_top granted_size;
        })
    memory_added room order sound =
        let le : s.mem_top + granted_size ≤ bases.kmmap_base = ground arith in
        let exact : add32 s.mem_top granted_size ≡ s.mem_top + granted_size =
          mod-eq_of_lt (omega arith) in
        record {
          packed = record {
            sound = record {
              bounded = sound.bounded;
              all_valid = sound.all_valid;
              apart = sound.apart;
            };
            memory_run = rw exact (
                Run-append is_memory memory_entry bases.kern_base s.queue s.mem_top refl refl
                  h.memory_run);
            memory_end = rw exact le;
            kmmap_run =
                Run-append_other is_kmmap memory_entry bases.kmmap_base s.queue s.kmmap_top refl
                  h.kmmap_run;
            kmmap_end = h.kmmap_end;
          };
          part = ground arith;
          mem_top_after = exact;
          kmmap_top_after = refl;
        }

    -- On a packed queue, if the linear region ends before the dynamic one, below 2^32, `early_mapping_add_memory`
    -- fails no assertion. It returns a part of the size asked for, moves `mem_top` by what it
    -- returns, and leaves the mappings of both regions one after the other, inside their regions.
    pub early_mapping_add_memory_lem :
        bases.kmmap_base ≤ bases.reserved_base
        → (r : ℕ) × (s' : EarlyMappings) × (early_mapping_add_memory bases valid base asked s
            ≡ done (r, s'))
          × AddsMemory asked r s'
    unfolding early_mapping_add_memory
    early_mapping_add_memory_lem order = elim (Bool-cases (leb bases.kmmap_base s.mem_top)) [
      | inl stop ↦ (0, s, rw stop refl, nothing_added asked)
      | inr room ↦ rw room (after_add (ground arith) (early_mapping_add_lem h.sound memory_entry))
    ]
      where
        after_add :
            s.mem_top < bases.kmmap_base
            → {r : Outcome (Status × EarlyMappings)} → Adds valid memory_entry s r
            → (n : ℕ) × (s' : EarlyMappings) × ((r >>= settle_memory) ≡ done (n, s'))
              × AddsMemory asked n s'
        after_add lt (added _ _ _ sound) = (_, _, refl, memory_added lt order sound)
        after_add lt (full _) = (0, s, refl, nothing_added asked)
        after_add lt (not_valid _ _) = (0, s, refl, nothing_added asked)
        after_add lt (overlaps _ _ _) = (0, s, refl, nothing_added asked)
