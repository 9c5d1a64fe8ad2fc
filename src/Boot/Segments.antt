-- ===== src/Boot/Segments.antt =====
-- The segments of the kernel in memory, on any reader of the file that does what it is to do.
use fdu_os.Common.{
  ℕ, suc, ◌+◌, ◌-◌, ◌*◌, ◌^◌, ◌≤◌, ◌<◌, ◌≡◌, refl, ap, ◌∙◌, true, ◌&&◌, leb, ltb, Bool-cases, inl,
  inr, some, List, [], ◌∷◌, length, All, arith,
}
use mathlib.Core.Path.{subst}
use fdu_os.Common.Words.{add32}
use fdu_os.Common.Outcome.{done}
use fdu_os.Memory.{Memory, set_up}
use fdu_os.Memory.Copies.{set_up-at}
use fdu_os.Boot.{
  FileReader, Phdr, phdr_at, adjust_entry, clear_rest, load_with, load_segment, load_segments,
}
use fdu_os.Boot.Ranges.{IsOutside, AreApart}
use fdu_os.Boot.Readers.{
  Reader, FileLoaded, size_of, phdr-same, IsEntry, all_done, IsLoaded, CanLoad,
  adjust_entry-IsEntry,
}

module _ {readfile : FileReader} (reader : Reader readfile) where
  -- One segment has been loaded.
  record Step (h : Phdr) (m m' : Memory) : Type 0 where
    ready : reader.IsReady m'
    loaded : IsLoaded reader m' h
    others : (a : ℕ) → IsOutside a h.p_paddr (size_of h) → reader.IsFree a → m' a ≡ m a

  cleared_ready :
      (h : Phdr) (m : Memory)
      → ltb h.p_filesz h.p_memsz ≡ true
      → ((k : ℕ) → k < size_of h → reader.IsFree (h.p_paddr + k))
      → reader.IsReady m
      → reader.IsReady (set_up (h.p_memsz - h.p_filesz) (h.p_paddr + h.p_filesz) 0 m)
  cleared_ready h m more free =
      let start = h.p_paddr + h.p_filesz in
      let cleared = set_up-at (h.p_memsz - h.p_filesz) start 0 m in
      reader.keeps m (set_up (h.p_memsz - h.p_filesz) start 0 m) (λ a.
        elim (Bool-cases (leb start a && ltb a (start + (h.p_memsz - h.p_filesz)))) [
          | inl inside ↦
              let back : h.p_paddr + (a - h.p_paddr) ≡ a = ground arith in
              inl (subst (λ x. reader.IsFree x) back (free (a - h.p_paddr) (ground arith)))
          | inr outside ↦ inr (cleared a ∙ rw outside refl)
        ])

  Step-clear_rest :
      (h : Phdr) (m m1 : Memory)
      → h.p_paddr + size_of h < 2 ^ 32
      → FileLoaded reader.file reader.IsFree reader.IsReady h.p_paddr h.p_filesz h.p_offset m m1
      → ((k : ℕ) → k < size_of h → reader.IsFree (h.p_paddr + k))
      → Step h m (clear_rest h.p_paddr h m1)
  unfolding clear_rest
  Step-clear_rest h m m1 fits l free = elim (Bool-cases (ltb h.p_filesz h.p_memsz)) [
    | inl more ↦
        let start : add32 h.p_paddr h.p_filesz ≡ h.p_paddr + h.p_filesz = ground arith in
        let cleared = set_up-at (h.p_memsz - h.p_filesz) (h.p_paddr + h.p_filesz) 0 m1 in
        rw (more, start)
          (record {
            ready = cleared_ready h m1 more free l.ready;
            loaded = record {
              from_file = λ k lt. ground (arith, cleared (h.p_paddr + k), l.bytes k lt);
              zeros = λ k le lt. ground (arith, cleared (h.p_paddr + k));
            };
            others = λ a out ok. ground (arith, cleared a, l.others a);
          })
    | inr no_more ↦ rw no_more (record {
      ready = l.ready;
      loaded = record { from_file = l.bytes; zeros = λ k le lt. absurd (ground arith) };
      others = λ a out ok. l.others a (ground arith) ok;
    })
  ]

  loaded_as :
      (ph : ℕ) (h : Phdr) (m m1 : Memory)
      → phdr_at m ph ≡ h
      → phdr_at m1 ph ≡ h
      → readfile h.p_paddr h.p_filesz h.p_offset m ≡ some (done m1)
      → load_segment readfile ph m ≡ some (done (clear_rest h.p_paddr h m1))
  unfolding load_segment load_with
  loaded_as ph h m m1 before after e =
      ap (λ x. load_with readfile ph x m) before
      ∙ rw (load_with, e) (ap (λ x. some (done (clear_rest h.p_paddr x m1))) after)

  module _ (table n : ℕ) (table_free : (a : ℕ) → table ≤ a → a < table + n → reader.IsFree a) where
    load_segment_lem :
        (ph : ℕ) (h : Phdr) (m : Memory)
        → phdr_at m ph ≡ h
        → table ≤ ph
        → ph + 32 ≤ table + n
        → CanLoad reader table n h
        → reader.IsReady m
        → (m' : Memory) × (load_segment readfile ph m ≡ some (done m')) × Step h m m'
    unfolding load_segment
    load_segment_lem ph h m is_h low high can ready =
        let (m1, e, l) = reader.reads h.p_paddr h.p_filesz h.p_offset m can.can_read ready in
        let same : phdr_at m1 ph ≡ h =
          phdr-same m m1 ph ph (λ j lt.
            l.others (ph + j)
              (elim can.off_table [ inl b ↦ inr (ground arith) | inr b ↦ inl (omega arith) ])
              (table_free (ph + j) (omega arith) (omega arith)))
          ∙ is_h in
        (_, loaded_as ph h m m1 is_h same e, Step-clear_rest h m m1 can.fits l can.free)

  -- The headers in memory, one after the other from `ph` on
  abbrev pub Table : Memory → ℕ → List Phdr → Type 0
  Table m ph [] = Unit
  Table m ph (h ∷ hs) = (phdr_at m ph ≡ h) × Table m (ph + 32) hs

  -- No segment overlaps another.
  abbrev pub AllApart : List Phdr → Type 0
  AllApart [] = Unit
  AllApart (h ∷ hs) =
      All (λ x. AreApart h.p_paddr (size_of h) x.p_paddr (size_of x)) hs × AllApart hs

  -- All segments have been loaded.
  pub record AllLoaded (hs : List Phdr) (m m' : Memory) : Type 0 where
    pub ready : reader.IsReady m'
    pub each : All (IsLoaded reader m') hs
    pub others :
        (a : ℕ) → All (λ h. IsOutside a h.p_paddr (size_of h)) hs → reader.IsFree a → m' a ≡ m a

  Table-same :
      (m m' : Memory) (ph : ℕ) (hs : List Phdr)
      → ((a : ℕ) → ph ≤ a → a < ph + 32 * length hs → m' a ≡ m a)
      → Table m ph hs
      → Table m' ph hs
  Table-same m m' ph [] same t = tt
  Table-same m m' ph (h ∷ hs) same (e, t) = (
    phdr-same m m' ph ph (λ j lt. same (ph + j) (omega arith) (omega arith)) ∙ e,
    Table-same m m' (ph + 32) hs (λ a le lt. same a (omega arith) (omega arith)) t,
  )

  All-IsOutside :
      (h : Phdr) (k : ℕ) (hs : List Phdr)
      → k < size_of h
      → All (λ x. AreApart h.p_paddr (size_of h) x.p_paddr (size_of x)) hs
      → All (λ x. IsOutside (h.p_paddr + k) x.p_paddr (size_of x)) hs
  All-IsOutside h k [] lt off = tt
  All-IsOutside h k (x ∷ hs) lt (off, rest) = (
    elim off [ inl b ↦ inl (omega arith) | inr b ↦ inr (omega arith) ],
    All-IsOutside h k hs lt rest,
  )

  IsLoaded-kept :
      (h : Phdr) (m m' : Memory)
      → ((k : ℕ) → k < size_of h → m' (h.p_paddr + k) ≡ m (h.p_paddr + k))
      → IsLoaded reader m h
      → IsLoaded reader m' h
  IsLoaded-kept h m m' same l = record {
    from_file = λ k lt. same k (ground arith) ∙ l.from_file k lt;
    zeros = λ k le lt. same k (ground arith) ∙ l.zeros k le lt;
  }

  next_segment :
      (n ph entry : ℕ) (h : Phdr) (m m1 : Memory)
      → load_segment readfile ph m ≡ some (done m1)
      → phdr_at m1 ph ≡ h
      → load_segments readfile (suc n) ph entry m
        ≡ load_segments readfile n (ph + 32) (adjust_entry h entry) m1
  unfolding load_segments
  next_segment n ph entry h m m1 e same =
      rw (load_segments, e)
        (ap (λ x. load_segments readfile n (ph + 32) (adjust_entry x entry) m1) same)

  module _ (table n : ℕ) (table_free : (a : ℕ) → table ≤ a → a < table + n → reader.IsFree a) where
    in_table :
        (h : Phdr) (m m' : Memory)
        → CanLoad reader table n h
        → Step h m m'
        → (a : ℕ) → table ≤ a
        → a < table + n
        → m' a ≡ m a
    in_table h m m' can s a le lt =
        s.others a (elim can.off_table [ inl b ↦ inr (omega arith) | inr b ↦ inl (omega arith) ])
          (table_free a le lt)

    pub load_segments_lem :
        (hs : List Phdr) (ph entry : ℕ) (m : Memory)
        → Table m ph hs
        → table ≤ ph
        → ph + 32 * length hs ≤ table + n
        → All (CanLoad reader table n) hs
        → AllApart hs
        → reader.IsReady m
        → (entry' : ℕ) × (m' : Memory) × (load_segments readfile (length hs) ph entry m
            ≡ some (done (entry', m')))
          × IsEntry hs entry entry'
          × AllLoaded hs m m'
    unfolding load_segments
    load_segments_lem [] ph entry m t low high can apart ready =
        (entry, m, refl, all_done, record { ready = ready; each = tt; others = λ a out ok. refl })
    load_segments_lem (h ∷ hs) ph entry m (is_h, t) low high (can, cans) (off, apart) ready =
        let (m1, e, s) =
          load_segment_lem table n table_free ph h m is_h low (omega arith) can ready in
        let kept = in_table h m m1 can s in
        let same_h : phdr_at m1 ph ≡ h =
          phdr-same m m1 ph ph (λ j lt. kept (ph + j) (omega arith) (omega arith)) ∙ is_h in
        let t1 = Table-same m m1 (ph + 32) hs (λ a le lt. kept a (omega arith) (omega arith)) t in
        let (entry', m', e', rest, l) =
          load_segments_lem hs (ph + 32) (adjust_entry h entry) m1 t1 (omega arith) (omega arith)
            cans apart s.ready in
        (
          entry',
          m',
          next_segment (length hs) ph entry h m m1 e same_h ∙ e',
          adjust_entry-IsEntry reader table n h hs entry entry' can rest,
          record {
            ready = l.ready;
            each = (
              IsLoaded-kept h m1 m'
                  (λ k lt. l.others (h.p_paddr + k) (All-IsOutside h k hs lt off) (can.free k lt))
                  s.loaded,
              l.each,
            );
            others = λ a (out, outs) ok. l.others a outs ok ∙ s.others a out ok;
          },
        )
