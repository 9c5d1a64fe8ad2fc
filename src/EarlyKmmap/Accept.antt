-- ===== src/EarlyKmmap/Accept.antt =====
-- Which mappings the queue takes, and what holds of the mappings in it.
use fdu_os.Common.{
  ℕ, zero, suc, ◌+◌, ◌^◌, ◌≤◌, ◌<◌, ◌≡◌, ◌≢◌, sym, Bool, true, false, some, List, [], ◌∷◌, ◌++◌,
  length, length-append, get_elem?, All, All-append, leb, ◌==◌, Bool-cases, inl, inr, arith,
}
use mathlib.Core.Option.{some_inj}
use fdu_os.Common.Outcome.{Outcome, done}
use fdu_os.Util.{overlap}
use fdu_os.Util.Intervals.{Within, overlap_iff}
use fdu_os.EarlyKmmap.{
  EarlyMapping, EarlyMappings, Status, ok, no_memory, invalid, queue_length, overlaps_any,
  early_mapping_add,
}

-- Of the mappings, each later one was found not to overlap the earlier ones.
abbrev pub Clear : EarlyMapping → EarlyMapping → Type 0
Clear m n = overlap 32 n.vaddr n.size m.vaddr m.size ≡ false

abbrev pub Apart : List EarlyMapping → Type 0
Apart [] = Unit
Apart (m ∷ ms) = All (Clear m) ms × Apart ms

pub record IsSound (valid : EarlyMapping → Bool) (s : EarlyMappings) : Type 0 where
  pub bounded : length s.queue ≤ queue_length
  pub all_valid : All (λ m. valid m ≡ true) s.queue
  pub apart : Apart s.queue

-- How `early_mapping_add` ends.
pub data Adds (valid : EarlyMapping → Bool) (entry : EarlyMapping) (s : EarlyMappings)
    : Outcome (Status × EarlyMappings) → Type 0 where
  added :
      length s.queue < queue_length
      → valid entry ≡ true
      → All (λ m. Clear m entry) s.queue
      → IsSound valid (record s { queue = s.queue ++ (entry ∷ []) })
      → Adds valid entry s (done (ok, record s { queue = s.queue ++ (entry ∷ []) }))
  full : length s.queue ≡ queue_length → Adds valid entry s (done (no_memory, s))
  not_valid :
      length s.queue < queue_length → valid entry ≡ false → Adds valid entry s (done (invalid, s))
  overlaps :
      length s.queue < queue_length
      → valid entry ≡ true
      → ¬ All (λ m. Clear m entry) s.queue
      → Adds valid entry s (done (invalid, s))

none_overlaps :
    (e : EarlyMapping) (ms : List EarlyMapping)
    → overlaps_any e ms ≡ false
    → All (λ m. Clear m e) ms
unfolding overlaps_any
none_overlaps e [] h = tt
none_overlaps e (m ∷ ms) h = (ground arith, none_overlaps e ms (ground arith))

one_overlaps :
    (e : EarlyMapping) (ms : List EarlyMapping)
    → overlaps_any e ms ≡ true
    → ¬ All (λ m. Clear m e) ms
unfolding overlaps_any
one_overlaps e [] h c = cc
one_overlaps e (m ∷ ms) h c = one_overlaps e ms (ground (arith, c.0)) c.1

Apart-append :
    (e : EarlyMapping) (ms : List EarlyMapping)
    → Apart ms
    → All (λ m. Clear m e) ms
    → Apart (ms ++ (e ∷ []))
Apart-append e [] a c = (tt, tt)
Apart-append e (m ∷ ms) a c =
    (All-append (Clear m) ms (e ∷ []) a.0 (c.0, tt), Apart-append e ms a.1 c.1)

module _ {valid : EarlyMapping → Bool} {s : EarlyMappings} (h : IsSound valid s)
    (entry : EarlyMapping) where
  -- On a sound queue, `early_mapping_add` fails no assertion. It appends the entry, and the queue
  -- stays sound, if there is room, the entry is valid and OVERLAP is false against every entry;
  -- it changes nothing and returns -ENOMEM if the queue is full, and -EINVAL otherwise.
  pub early_mapping_add_lem : Adds valid entry s (early_mapping_add valid entry s)
  unfolding early_mapping_add
  early_mapping_add_lem =
      let small : leb (length s.queue) queue_length ≡ true = ground (arith, h.bounded) in
      rw small (elim (Bool-cases (length s.queue == queue_length)) [
        | inl is_full ↦ rw is_full (full (ground arith))
        | inr room ↦
            let lt : length s.queue < queue_length = ground (arith, h.bounded) in
            rw room (elim (Bool-cases (valid entry)) [
              | inr bad ↦ rw bad (not_valid lt bad)
              | inl good ↦ rw good (elim (Bool-cases (overlaps_any entry s.queue)) [
                | inl hit ↦ rw hit (overlaps lt good (one_overlaps entry s.queue hit))
                | inr none_hit ↦
                    let clear = none_overlaps entry s.queue none_hit in
                    rw none_hit (
                      added lt good clear (record {
                        bounded = omega (arith, length-append s.queue (entry ∷ []));
                        all_valid =
                            All-append (λ m. valid m ≡ true) s.queue (entry ∷ []) h.all_valid
                              (good, tt);
                        apart = Apart-append entry s.queue h.apart clear;
                      }))
              ])
            ])
      ])

Clear-get_elem? :
    (m : EarlyMapping) {n : EarlyMapping} (ms : List EarlyMapping) (j : ℕ)
    → All (Clear m) ms
    → get_elem? ms j ≡ some n
    → Clear m n
Clear-get_elem? m [] j h e = cc
Clear-get_elem? m (x ∷ xs) zero h e = let same = some_inj.0 e in rw same at h.0
Clear-get_elem? m (x ∷ xs) (suc j) h e = Clear-get_elem? m xs j h.1 e

Apart-get_elem? :
    {m n : EarlyMapping} (ms : List EarlyMapping) (i j : ℕ)
    → i < j
    → Apart ms
    → get_elem? ms i ≡ some m
    → get_elem? ms j ≡ some n
    → Clear m n
Apart-get_elem? [] i j lt a ei ej = cc
Apart-get_elem? (x ∷ xs) zero zero lt a ei ej = absurd (omega arith)
Apart-get_elem? (x ∷ xs) zero (suc j) lt a ei ej =
    let same = some_inj.0 ei in rw same at (Clear-get_elem? x xs j a.0 ej)
Apart-get_elem? (x ∷ xs) (suc i) zero lt a ei ej = absurd (omega arith)
Apart-get_elem? (x ∷ xs) (suc i) (suc j) lt a ei ej = Apart-get_elem? xs i j (omega arith) a.1 ei ej

-- No address lies in two mappings of a sound queue, for mappings that are not empty, end below
-- 2^32 and start at different addresses.
pub sound_separate :
    {valid : EarlyMapping → Bool} {s : EarlyMappings} (i j : ℕ) (m n : EarlyMapping)
    → IsSound valid s
    → i < j
    → get_elem? s.queue i ≡ some m
    → get_elem? s.queue j ≡ some n
    → (0 < m.size) × (m.vaddr + m.size < 2 ^ 32)
    → (0 < n.size) × (n.vaddr + n.size < 2 ^ 32)
    → m.vaddr ≢ n.vaddr
    → (a : ℕ) → Within a m.vaddr m.size
    → ¬ Within a n.vaddr n.size
sound_separate {s = s} i j m n h lt ei ej hm hn ne a wm wn =
    let clear : Clear m n = Apart-get_elem? s.queue i j lt h.apart ei ej in
    let (_, back) = overlap_iff 32 n.vaddr n.size m.vaddr m.size hn.0 hm.0 hn.1 hm.1 in
    let hit = back (λ e. ne (sym e), (a, wn, wm)) in cc
