-- ===== src/EarlyKmmap.antt =====
-- kern/mm/kmmap/early_kmmap.c and include/aim/early_kmmap.h: the queue of early mappings.
-- `queue` holds the first `queue_size` entries of the array; the rest of the array is never read.
-- An iterator is the index of an entry. `KERN_BASE`, `KMMAP_BASE` and `RESERVED_BASE`, which the
-- build configures, are the fields of a record; `early_mapping_valid`, which each architecture
-- defines, is a parameter.
pub mod Accept
pub mod Regions
pub mod Dynamic
pub mod Reach
mod Examples
use fdu_os.Common.{
  ℕ, zero, suc, ◌+◌, ◌-◌, ◌^◌, Bool, true, false, ◌||◌, not, Option, none, some, List, [], ◌∷◌,
  ◌++◌, length, ltb, leb, ◌==◌, if◌then◌else◌,
}
use fdu_os.Common.Words.{word, add32}
use fdu_os.Common.Outcome.{Outcome, done, panic, undefined, ◌>>=◌, ◌>>◌, assert}
use fdu_os.Util.{overlap, roundup}

pub data MappingType : Type 0 where
  memory : MappingType
  kmmap : MappingType
  temp : MappingType
  other : MappingType
  device : MappingType
  framebuffer : MappingType

-- `struct early_mapping`
pub record EarlyMapping : Type 0 where
  pub paddr : ℕ
  pub vaddr : ℕ
  pub size : ℕ
  pub kind : MappingType

pub record EarlyMappings : Type 0 where
  pub queue : List EarlyMapping
  pub mem_top : ℕ
  pub kmmap_top : ℕ

pub record Bases : Type 0 where
  pub kern_base : ℕ
  pub kmmap_base : ℕ
  pub reserved_base : ℕ

-- What `early_mapping_add` returns: 0, `-ENOMEM` or `-EINVAL`.
pub data Status : Type 0 where
  ok : Status
  no_memory : Status
  invalid : Status

-- `EARLY_MAPPING_QUEUE_LENGTH`
abbrev pub queue_length : ℕ
queue_length = 10

-- `early_mapping_clear`
pub early_mapping_clear : Bases → EarlyMappings → EarlyMappings
early_mapping_clear bases s = record {
  queue = [];
  mem_top = bases.kern_base;
  kmmap_top = bases.kmmap_base;
}

-- The loop of `early_mapping_add`: an entry of the queue overlaps.
unfoldable pub overlaps_any : EarlyMapping → List EarlyMapping → Bool
overlaps_any entry [] = false
overlaps_any entry (m ∷ ms) =
    overlap 32 entry.vaddr entry.size m.vaddr m.size || overlaps_any entry ms

-- `early_mapping_add`
unfoldable pub early_mapping_add :
    (EarlyMapping → Bool) → EarlyMapping → EarlyMappings → Outcome (Status × EarlyMappings)
unfolding overlaps_any
early_mapping_add valid entry s =
    assert (leb (length s.queue) queue_length)
    >> (if length s.queue == queue_length
        then done (no_memory, s)
        else if not (valid entry)
        then done (invalid, s)
        else if overlaps_any entry s.queue
        then done (invalid, s)
        else done (ok, record s { queue = s.queue ++ (entry ∷ []) }))

-- `early_mapping_add_memory`
pub early_mapping_add_memory :
    Bases → (EarlyMapping → Bool) → ℕ → ℕ → EarlyMappings → Outcome (ℕ × EarlyMappings)
unfolding early_mapping_add
early_mapping_add_memory bases valid base asked s =
    let room = bases.kmmap_base - s.mem_top in
    let size = if ltb room asked then room else asked in
    let entry : EarlyMapping = record {
      paddr = base;
      vaddr = s.mem_top;
      size = size;
      kind = memory;
    } in
    if leb bases.kmmap_base s.mem_top
    then done (0, s)
    else early_mapping_add valid entry s >>= λ (status, s'). elim status [
      | ok ↦ done (size, record s' { mem_top = add32 s'.mem_top size })
      | no_memory ↦ done (0, s')
      | invalid ↦ done (0, s')
    ]

-- `early_mapping_add_kmmap`
pub early_mapping_add_kmmap :
    Bases → (EarlyMapping → Bool) → ℕ → ℕ → EarlyMappings → Outcome (Option ℕ × EarlyMappings)
unfolding early_mapping_add
early_mapping_add_kmmap bases valid base size s =
    let entry : EarlyMapping = record {
      paddr = base;
      vaddr = s.kmmap_top;
      size = size;
      kind = kmmap;
    } in
    if leb bases.reserved_base s.kmmap_top
    then done (none, s)
    else if ltb (bases.reserved_base - s.kmmap_top) size
    then done (none, s)
    else early_mapping_add valid entry s >>= λ (status, s'). elim status [
      | ok ↦ done (some s.kmmap_top, record s' { kmmap_top = add32 s'.kmmap_top size })
      | no_memory ↦ done (none, s')
      | invalid ↦ done (none, s')
    ]

-- `early_mapping_next`
unfoldable pub early_mapping_next : Option ℕ → EarlyMappings → Option ℕ
early_mapping_next base s =
    let next : ℕ = elim base [ none ↦ 0 | some i ↦ i + 1 ] in
    if leb (length s.queue) next then none else some next

-- One of the two additions of `init_jmphigh_mapping`, which panics when it is refused.
unfoldable pub add_or_panic : (EarlyMapping → Bool) → ℕ → ℕ → EarlyMappings → Outcome EarlyMappings
unfolding early_mapping_add
add_or_panic valid vaddr size s =
    let entry : EarlyMapping = record {
      paddr = 0;
      vaddr = vaddr;
      size = word (roundup 64 size (2 ^ 21));
      kind = memory;
    } in
    early_mapping_add valid entry s >>= λ (status, s'). elim status [
      | ok ↦ done s'
      | no_memory ↦ panic
      | invalid ↦ panic
    ]

-- `init_jmphigh_mapping`
pub init_jmphigh_mapping :
    Bases → (EarlyMapping → Bool) → ℕ → ℕ → EarlyMappings → Outcome EarlyMappings
unfolding add_or_panic
init_jmphigh_mapping bases valid lowsize highsize s =
    add_or_panic valid 0 lowsize s >>= add_or_panic valid bases.kern_base highsize
