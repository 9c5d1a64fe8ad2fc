-- ===== src/EarlyKmmap/Dynamic.antt =====
-- `early_mapping_add_kmmap`: the dynamic mappings from `KMMAP_BASE` up.
use native.Mathlib.Nat.{mod-eq_of_lt}
use fdu_os.Common.{
  ℕ, ◌+◌, ◌-◌, ◌^◌, ◌≤◌, ◌<◌, ◌≡◌, ◌⊎◌, refl, Bool, Option, none, some, [], ◌∷◌, ◌++◌, leb, ltb,
  Bool-cases, inl, inr, arith,
}
use fdu_os.Common.Words.{add32}
use fdu_os.Common.Outcome.{Outcome, done, ◌>>=◌}
use fdu_os.EarlyKmmap.{
  kmmap, EarlyMapping, EarlyMappings, Bases, Status, ok, no_memory, invalid,
  early_mapping_add_kmmap,
}
use fdu_os.EarlyKmmap.Accept.{
  IsSound, Adds, added, full, not_valid, overlaps, early_mapping_add_lem,
}
use fdu_os.EarlyKmmap.Regions.{is_memory, is_kmmap, IsPacked, Run-append, Run-append_other}

-- How a dynamic mapping ends: at the top of the region, or not at all.
pub record AddsKmmap (bases : Bases) (valid : EarlyMapping → Bool) (s : EarlyMappings) (size : ℕ)
    (r : Option ℕ) (s' : EarlyMappings) : Type 0 where
  pub packed : IsPacked bases valid s'
  pub mem_top_after : s'.mem_top ≡ s.mem_top
  pub address : r ≡ none × (s' ≡ s) ⊎ (r ≡ some s.kmmap_top) × (s'.kmmap_top ≡ s.kmmap_top + size)

module _ {bases : Bases} {valid : EarlyMapping → Bool} {s : EarlyMappings}
    (h : IsPacked bases valid s) (reserved_small : bases.reserved_base < 2 ^ 32)
    (base size : ℕ) where
  abbrev kmmap_entry : EarlyMapping
  kmmap_entry = record { paddr = base; vaddr = s.kmmap_top; size = size; kind = kmmap }

  nothing_mapped : AddsKmmap bases valid s size none s
  nothing_mapped = record { packed = h; mem_top_after = refl; address = inl (refl, refl) }

  abbrev settle_kmmap : Status × EarlyMappings → Outcome (Option ℕ × EarlyMappings)
  settle_kmmap (status, t) = elim status [
    | ok ↦ done (some s.kmmap_top, record t { kmmap_top = add32 t.kmmap_top size })
    | no_memory ↦ done (none, t)
    | invalid ↦ done (none, t)
  ]

  kmmap_added :
      s.kmmap_top + size ≤ bases.reserved_base
      → IsSound valid (record s { queue = s.queue ++ (kmmap_entry ∷ []) })
      → AddsKmmap bases valid s size
          (some s.kmmap_top)
          (record s { queue = s.queue ++ (kmmap_entry ∷ []); kmmap_top = add32 s.kmmap_top size })
  kmmap_added le sound =
      let exact : add32 s.kmmap_top size ≡ s.kmmap_top + size = mod-eq_of_lt (omega arith) in
      record {
        packed = record {
          sound = record {
            bounded = sound.bounded;
            all_valid = sound.all_valid;
            apart = sound.apart;
          };
          memory_run =
              Run-append_other is_memory kmmap_entry bases.kern_base s.queue s.mem_top refl
                h.memory_run;
          memory_end = h.memory_end;
          kmmap_run = rw exact (
              Run-append is_kmmap kmmap_entry bases.kmmap_base s.queue s.kmmap_top refl refl
                h.kmmap_run);
          kmmap_end = rw exact le;
        };
        mem_top_after = refl;
        address = inr (refl, exact);
      }

  settled :
      s.kmmap_top + size ≤ bases.reserved_base
      → {r : Outcome (Status × EarlyMappings)} → Adds valid kmmap_entry s r
      → (n : Option ℕ) × (s' : EarlyMappings) × ((r >>= settle_kmmap) ≡ done (n, s'))
        × AddsKmmap bases valid s size n s'
  settled le (added _ _ _ sound) = (_, _, refl, kmmap_added le sound)
  settled le (full _) = (none, s, refl, nothing_mapped)
  settled le (not_valid _ _) = (none, s, refl, nothing_mapped)
  settled le (overlaps _ _ _) = (none, s, refl, nothing_mapped)

  -- On a packed queue, if the dynamic region ends below 2^32, `early_mapping_add_kmmap` fails no assertion. It maps
  -- the whole size at the top of the region, where it fits, and moves the top behind it, or
  -- returns NULL and changes nothing; the mappings of both regions stay inside them, one after
  -- the other.
  pub early_mapping_add_kmmap_lem :
      (r : Option ℕ) × (s' : EarlyMappings) × (early_mapping_add_kmmap bases valid base size s
        ≡ done (r, s'))
      × AddsKmmap bases valid s size r s'
  unfolding early_mapping_add_kmmap
  early_mapping_add_kmmap_lem = elim (Bool-cases (leb bases.reserved_base s.kmmap_top)) [
    | inl stop ↦ (none, s, rw stop refl, nothing_mapped)
    | inr room ↦ elim (Bool-cases (ltb (bases.reserved_base - s.kmmap_top) size)) [
      | inl large ↦ (none, s, rw (room, large) refl, nothing_mapped)
      | inr fits ↦
          rw (room, fits)
            (settled (ground (arith, h.kmmap_end)) (early_mapping_add_lem h.sound kmmap_entry))
    ]
  ]
