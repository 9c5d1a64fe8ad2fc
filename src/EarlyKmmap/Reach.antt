-- ===== src/EarlyKmmap/Reach.antt =====
-- The states of the queue that the calls of early_kmmap.c lead to.
use fdu_os.Common.{ℕ, ◌^◌, ◌≤◌, ◌<◌, ◌≡◌, refl, sym, ap, ◌∙◌, Bool, false, Option, arith}
use fdu_os.Common.Outcome.{Outcome, done, panic, undefined}
use fdu_os.EarlyKmmap.{
  EarlyMapping, EarlyMappings, Bases, Status, early_mapping_clear, early_mapping_add,
  early_mapping_add_memory, early_mapping_add_kmmap,
}
use fdu_os.EarlyKmmap.Accept.{Adds, added, full, not_valid, overlaps, early_mapping_add_lem}
use fdu_os.EarlyKmmap.Regions.{
  is_memory, is_kmmap, IsPacked, Run-append_other, early_mapping_add_memory_lem,
}
use fdu_os.EarlyKmmap.Dynamic.{early_mapping_add_kmmap_lem}

-- A state that a clear leads to, and then additions; an entry of one's own is of no region.
pub data Reached (bases : Bases) (valid : EarlyMapping → Bool) : EarlyMappings → Type 0 where
  cleared : (s : EarlyMappings) → Reached bases valid (early_mapping_clear bases s)
  memory_step :
      {s s' : EarlyMappings} (base size r : ℕ)
      → Reached bases valid s
      → early_mapping_add_memory bases valid base size s ≡ done (r, s')
      → Reached bases valid s'
  kmmap_step :
      {s s' : EarlyMappings} (base size : ℕ) (r : Option ℕ)
      → Reached bases valid s
      → early_mapping_add_kmmap bases valid base size s ≡ done (r, s')
      → Reached bases valid s'
  own_step :
      {s s' : EarlyMappings} (entry : EarlyMapping) (r : Status)
      → is_memory entry.kind ≡ false
      → is_kmmap entry.kind ≡ false
      → Reached bases valid s
      → early_mapping_add valid entry s ≡ done (r, s')
      → Reached bases valid s'

-- The state that a call returns.
abbrev returned : {A : Type 0} → EarlyMappings → Outcome (A × EarlyMappings) → EarlyMappings
returned s (done (a, t)) = t
returned s panic = s
returned s undefined = s

module _ {bases : Bases} {valid : EarlyMapping → Bool} where
  own-IsPacked :
      {s : EarlyMappings} {r : Outcome (Status × EarlyMappings)} (entry : EarlyMapping)
      → is_memory entry.kind ≡ false
      → is_kmmap entry.kind ≡ false
      → IsPacked bases valid s
      → Adds valid entry s r
      → IsPacked bases valid (returned s r)
  own-IsPacked {s} entry nm nk h (added _ _ _ sound) = record {
    sound = sound;
    memory_run = Run-append_other is_memory entry bases.kern_base s.queue s.mem_top nm h.memory_run;
    memory_end = h.memory_end;
    kmmap_run = Run-append_other is_kmmap entry bases.kmmap_base s.queue s.kmmap_top nk h.kmmap_run;
    kmmap_end = h.kmmap_end;
  }
  own-IsPacked entry nm nk h (full _) = h
  own-IsPacked entry nm nk h (not_valid _ _) = h
  own-IsPacked entry nm nk h (overlaps _ _ _) = h

  -- With the bases in order and below 2^32, in every state that a clear and then additions
  -- lead to, of which those by `early_mapping_add` are of no region, the queue is
  -- sound: it has at most ten entries, all valid, of which OVERLAP is false for any two. The
  -- mappings of linear memory lie one after the other from `KERN_BASE` to `mem_top`, those of
  -- dynamic mappings from `KMMAP_BASE` to `kmmap_top`, and neither leaves its region.
  pub Reached-IsPacked :
      {s : EarlyMappings}
      → bases.kern_base ≤ bases.kmmap_base
      → bases.kmmap_base ≤ bases.reserved_base
      → bases.reserved_base < 2 ^ 32
      → Reached bases valid s
      → IsPacked bases valid s
  unfolding early_mapping_clear
  Reached-IsPacked low mid high (cleared s) = record {
    sound = record { bounded = omega arith; all_valid = tt; apart = tt };
    memory_run = refl;
    memory_end = low;
    kmmap_run = refl;
    kmmap_end = mid;
  }
  Reached-IsPacked low mid high (memory_step {s} base size r before e) =
      let (n, t, same, a) =
        early_mapping_add_memory_lem (Reached-IsPacked low mid high before) high base size mid in
      let st = ap (returned s) (sym same ∙ e) in rw st at a.packed
  Reached-IsPacked low mid high (kmmap_step {s} base size r before e) =
      let (n, t, same, a) =
        early_mapping_add_kmmap_lem (Reached-IsPacked low mid high before) high base size in
      let st = ap (returned s) (sym same ∙ e) in rw st at a.packed
  Reached-IsPacked low mid high (own_step {s} entry r nm nk before e) =
      let h = Reached-IsPacked low mid high before in
      let own = own-IsPacked entry nm nk h (early_mapping_add_lem h.sound entry) in rw e at own
