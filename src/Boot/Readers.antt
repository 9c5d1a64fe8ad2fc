-- ===== src/Boot/Readers.antt =====
-- What a reader of the file is to do, and what loading a segment and moving the entry point mean.
use fdu_os.Common.{
  ℕ, ◌+◌, ◌-◌, ◌^◌, ◌≤◌, ◌<◌, ◌≡◌, ◌⊎◌, refl, sym, ap, ◌∙◌, ◌&&◌, leb, ltb, if◌then◌else◌,
  Bool-cases, inl, inr, some, List, [], ◌∷◌, arith,
}
use mathlib.Core.Path.{subst}
use fdu_os.Common.Words.{add32, sub32}
use fdu_os.Common.Outcome.{done}
use fdu_os.Memory.{Memory}
use fdu_os.Boot.{FileReader, Phdr, phdr_at, read32, adjust_entry}
use fdu_os.Boot.Ranges.{IsOutside, AreApart}

-- The read of `size` bytes at `offset` of the file has put them to `buf`; an address that is free
-- of the reader's own data has changed only there, and the reader is ready again.
pub record FileLoaded (file : ℕ → ℕ) (IsFree : ℕ → Type 0) (IsReady : Memory → Type 0)
    (buf size offset : ℕ) (m m' : Memory) : Type 0 where
  pub ready : IsReady m'
  pub bytes : (k : ℕ) → k < size → m' (buf + k) ≡ file (offset + k)
  pub others : (a : ℕ) → IsOutside a buf size → IsFree a → m' a ≡ m a

-- A reader of a file, with the calls that it can serve and the memories in which it is ready, which
-- depends on its own data only
pub record Reader (readfile : FileReader) : Type 1 where
  pub file : ℕ → ℕ
  pub CanRead : ℕ → ℕ → ℕ → Type 0
  pub IsFree : ℕ → Type 0
  pub IsReady : Memory → Type 0
  pub keeps : (m m' : Memory) → ((a : ℕ) → IsFree a ⊎ (m' a ≡ m a)) → IsReady m → IsReady m'
  pub reads :
      (buf size offset : ℕ) (m : Memory)
      → CanRead buf size offset
      → IsReady m
      → (m' : Memory) × (readfile buf size offset m ≡ some (done m'))
        × FileLoaded file IsFree IsReady buf size offset m m'

-- The bytes of a segment in memory
abbrev pub size_of : Phdr → ℕ
size_of h = if ltb h.p_filesz h.p_memsz then h.p_memsz else h.p_filesz

-- The header at an address whose 32 bytes are those at another
module _ (m m' : Memory) (ph ph' : ℕ) (same : (j : ℕ) → j < 32 → m' (ph' + j) ≡ m (ph + j)) where
  byte-same : (j x x' : ℕ) → x ≡ ph + j → x' ≡ ph' + j → j < 32 → m' x' ≡ m x
  byte-same j x x' e e' lt = ap m' e' ∙ same j lt ∙ sym (ap m e)

  pub field-same : (k : ℕ) → k + 4 ≤ 32 → read32 m' (ph' + k) ≡ read32 m (ph + k)
  field-same k lt = omega (
    arith,
    byte-same k (ph + k) (ph' + k) refl refl (omega arith),
    byte-same (k + 1) (ph + k + 1) (ph' + k + 1) (omega arith) (omega arith) (omega arith),
    byte-same (k + 2) (ph + k + 2) (ph' + k + 2) (omega arith) (omega arith) (omega arith),
    byte-same (k + 3) (ph + k + 2 + 1) (ph' + k + 2 + 1) (omega arith) (omega arith) (omega arith),
  )

  pub phdr-same : phdr_at m' ph' ≡ phdr_at m ph
  unfolding phdr_at
  phdr-same = λ i. record {
    p_offset = field-same 4 (omega arith) i;
    p_vaddr = field-same 8 (omega arith) i;
    p_paddr = field-same 12 (omega arith) i;
    p_filesz = field-same 16 (omega arith) i;
    p_memsz = field-same 20 (omega arith) i;
  }

-- How the entry point is moved from its virtual to its physical address: in the order of the
-- headers, by each segment that it lies in at that point.
pub data IsEntry : List Phdr → ℕ → ℕ → Type 0 where
  all_done : {entry : ℕ} → IsEntry [] entry entry
  moved :
      {h : Phdr} {hs : List Phdr} {k entry' : ℕ}
      → k < h.p_memsz
      → IsEntry hs (h.p_paddr + k) entry'
      → IsEntry (h ∷ hs) (h.p_vaddr + k) entry'
  not_in :
      {h : Phdr} {hs : List Phdr} {entry entry' : ℕ}
      → IsOutside entry h.p_vaddr h.p_memsz
      → IsEntry hs entry entry'
      → IsEntry (h ∷ hs) entry entry'

module _ {readfile : FileReader} (reader : Reader readfile) where
  -- The segment is in memory: what the file has of it, and zeros.
  pub record IsLoaded (m : Memory) (h : Phdr) : Type 0 where
    pub from_file : (k : ℕ) → k < h.p_filesz → m (h.p_paddr + k) ≡ reader.file (h.p_offset + k)
    pub zeros : (k : ℕ) → h.p_filesz ≤ k → k < h.p_memsz → m (h.p_paddr + k) ≡ 0

  -- The reader can read the segment, and it ends below 2^32, virtually and physically, outside the reader's own data and
  -- the `n` bytes of headers from `table` on.
  pub record CanLoad (table n : ℕ) (h : Phdr) : Type 0 where
    pub can_read : reader.CanRead h.p_paddr h.p_filesz h.p_offset
    pub fits : h.p_paddr + size_of h < 2 ^ 32
    pub virtual_fits : h.p_vaddr + h.p_memsz < 2 ^ 32
    pub off_table : AreApart h.p_paddr (size_of h) table n
    pub free : (k : ℕ) → k < size_of h → reader.IsFree (h.p_paddr + k)

  pub adjust_entry-IsEntry :
      (table n : ℕ) (h : Phdr) (hs : List Phdr) (entry entry' : ℕ)
      → CanLoad table n h
      → IsEntry hs (adjust_entry h entry) entry'
      → IsEntry (h ∷ hs) entry entry'
  unfolding adjust_entry
  adjust_entry-IsEntry table n h hs entry entry' can rest =
      let end : add32 h.p_vaddr h.p_memsz ≡ h.p_vaddr + h.p_memsz =
        omega (arith, can.virtual_fits) in
      elim (Bool-cases (leb h.p_vaddr entry && ltb entry (h.p_vaddr + h.p_memsz))) [
        | inl inside ↦
            let k = entry - h.p_vaddr in
            let lt : entry - h.p_vaddr < h.p_memsz = ground arith in
            let split : h.p_vaddr + (entry - h.p_vaddr) ≡ entry = ground arith in
            let difference : sub32 entry h.p_vaddr ≡ entry - h.p_vaddr =
              ground (arith, can.virtual_fits) in
            let sum : add32 (entry - h.p_vaddr) h.p_paddr ≡ h.p_paddr + (entry - h.p_vaddr) =
              ground (arith, can.fits) in
            let there : (if leb h.p_vaddr entry && ltb entry (add32 h.p_vaddr h.p_memsz)
                  then add32 (sub32 entry h.p_vaddr) h.p_paddr
                  else entry)
                ≡ h.p_paddr + (entry - h.p_vaddr) =
              rw (end, inside, difference, sum) refl in
            subst (λ x. IsEntry (h ∷ hs) x entry') split
              (moved lt (subst (λ x. IsEntry hs x entry') there rest))
        | inr outside ↦
            let there : (if leb h.p_vaddr entry && ltb entry (add32 h.p_vaddr h.p_memsz)
                  then add32 (sub32 entry h.p_vaddr) h.p_paddr
                  else entry)
                ≡ entry =
              rw (end, outside) refl in
            not_in (ground arith) (subst (λ x. IsEntry hs x entry') there rest)
      ]
