-- ===== src/Boot/Kernel.antt =====
-- `bootmain` from the disk: the reader of the file and the walk over the headers together.
use fdu_os.Common.{
  ℕ, ◌+◌, ◌*◌, ◌^◌, ◌≤◌, ◌<◌, ◌≡◌, refl, ap, ◌∙◌, false, ◌==◌, Option, some, List, [], ◌∷◌, length,
  All, arith,
}
use fdu_os.Common.Outcome.{Outcome, done}
use fdu_os.Memory.{Memory}
use fdu_os.Boot.{
  Disk, Console, FileReader, Phdr, read16, read32, kernreader_readfile, load_segments, load_kernel,
}
use fdu_os.Boot.Ranges.{IsOutside, IsFree, IsClear, AllClear}
use fdu_os.Boot.Typing.{own, IsReady, IsReady-kept}
use fdu_os.Boot.Sectors.{kernreader_readfile_lem}
use fdu_os.Boot.Readers.{
  Reader, FileLoaded, phdr-same, field-same, IsEntry, IsLoaded, size_of, CanLoad,
}
use fdu_os.Boot.Segments.{Table, AllApart, load_segments_lem}

-- The fields of the ELF header, read from its copy at `elf`
module _ (file m1 : Memory) (elf : ℕ)
    (bytes : (k : ℕ) → k < 4096 → m1 (elf + k) ≡ file (0 + k)) where
  copied_byte : (k x : ℕ) → x ≡ elf + k → k < 4096 → m1 x ≡ file k
  copied_byte k x e lt = ap m1 e ∙ bytes k lt ∙ ap file (omega arith)

  copied_half : read16 m1 (elf + 44) ≡ read16 file 44
  copied_half = omega (
    arith,
    copied_byte 44 (elf + 44) refl (omega arith),
    copied_byte 45 (elf + 44 + 1) (omega arith) (omega arith),
  )

  copied_word : (k : ℕ) → k + 4 ≤ 32 → read32 m1 (elf + k) ≡ read32 file (0 + k)
  copied_word = field-same file m1 0 elf (λ j lt. bytes j (omega arith))

  copied_range : (p n : ℕ) → p + n ≤ 4096 → (j : ℕ) → j < n → m1 (elf + p + j) ≡ file (p + j)
  copied_range p n le j lt = copied_byte (p + j) (elf + p + j) (omega arith) (omega arith)

module _ {readfile : FileReader} (reader : Reader readfile) (elf : ℕ) (hs : List Phdr) where
  -- The file starts with the magic number and has the headers `hs` within its first 4096 bytes,
  -- the reader can read these to `elf`, and it can load every segment, apart from the others and
  -- from the headers at `elf`.
  pub record IsKernel : Type 0 where
    pub can_read : reader.CanRead elf 4096 0
    pub elf_free : (a : ℕ) → elf ≤ a → a < elf + 4096 → reader.IsFree a
    pub mag0 : reader.file 0 ≡ 127
    pub mag1 : reader.file 1 ≡ 69
    pub mag2 : reader.file 2 ≡ 76
    pub mag3 : reader.file 3 ≡ 70
    pub e_phnum : read16 reader.file 44 ≡ length hs
    pub some_header : 0 < length hs
    pub in_preload : read32 reader.file 28 + 32 * length hs ≤ 4096
    pub table : Table reader reader.file (read32 reader.file 28) hs
    pub can_load : All (CanLoad reader elf 4096) hs
    pub apart : AllApart reader hs

  -- The segments are in memory, and the reader is ready; what is neither in a segment, nor at `elf`, nor the reader's own
  -- is as before.
  pub record KernelLoaded (m m' : Memory) : Type 0 where
    pub ready : reader.IsReady m'
    pub each : All (IsLoaded reader m') hs
    pub others :
        (a : ℕ)
        → IsOutside a elf 4096
        → All (λ h. IsOutside a h.p_paddr (size_of h)) hs
        → reader.IsFree a
        → m' a ≡ m a

  Table-moved :
      (m m1 : Memory) (p q : ℕ) (xs : List Phdr)
      → ((j : ℕ) → j < 32 * length xs → m1 (q + j) ≡ m (p + j))
      → Table reader m p xs
      → Table reader m1 q xs
  Table-moved m m1 p q [] same t = tt
  Table-moved m m1 p q (x ∷ xs) same (e, t) = (
    phdr-same m m1 p q (λ j lt. same j (omega arith)) ∙ e,
    Table-moved m m1 (p + 32) (q + 32) xs
        (λ j lt.
          let left : q + 32 + j ≡ q + (32 + j) = omega arith in
          let right : p + (32 + j) ≡ p + 32 + j = omega arith in
          ap m1 left ∙ same (32 + j) (omega arith) ∙ ap m right)
        t,
  )

  -- The tests of `bootmain` on a header that passes them
  after_header :
      (m m1 : Memory) (n phoff entry : ℕ) (r : Option (Outcome (ℕ × Memory)))
      → readfile elf 4096 0 m ≡ some (done m1)
      → m1 elf ≡ 127
      → m1 (elf + 1) ≡ 69
      → m1 (elf + 2) ≡ 76
      → m1 (elf + 3) ≡ 70
      → read16 m1 (elf + 44) ≡ n
      → (n == 0) ≡ false
      → read32 m1 (elf + 28) ≡ phoff
      → read32 m1 (elf + 24) ≡ entry
      → load_segments readfile n (elf + phoff) entry m1 ≡ r
      → load_kernel readfile elf m ≡ r
  unfolding load_kernel
  after_header m m1 n phoff entry r e e0 e1 e2 e3 is_n some_n is_phoff is_entry rest =
      rw (load_kernel, e, e0, e1, e2, e3, is_n, some_n, is_phoff, is_entry) rest

  load_kernel_lem :
      (m : Memory)
      → IsKernel
      → reader.IsReady m
      → (entry : ℕ) × (m' : Memory) × (load_kernel readfile elf m ≡ some (done (entry, m')))
        × IsEntry hs (read32 reader.file 24) entry
        × KernelLoaded m m'
  load_kernel_lem m k ready =
      let (m1, e, l) = reader.reads elf 4096 0 m k.can_read ready in
      let phoff = read32 reader.file 28 in
      let b = copied_byte reader.file m1 elf l.bytes in
      let is_n = copied_half reader.file m1 elf l.bytes ∙ k.e_phnum in
      let is_phoff = copied_word reader.file m1 elf l.bytes 28 (omega arith) in
      let is_entry = copied_word reader.file m1 elf l.bytes 24 (omega arith) in
      let t =
        Table-moved reader.file m1 phoff (elf + phoff) hs
          (copied_range reader.file m1 elf l.bytes phoff (32 * length hs) k.in_preload) k.table in
      let (entry, m', e', moves, all) =
        load_segments_lem reader elf 4096 k.elf_free hs (elf + phoff) (read32 reader.file 24) m1 t
          (omega arith) (omega (arith, k.in_preload)) k.can_load k.apart l.ready in
      (
        entry,
        m',
        after_header m m1 (length hs) phoff (read32 reader.file 24) _ e
            (b 0 elf (omega arith) (omega arith) ∙ k.mag0)
            (b 1 (elf + 1) refl (omega arith) ∙ k.mag1) (b 2 (elf + 2) refl (omega arith) ∙ k.mag2)
            (b 3 (elf + 3) refl (omega arith) ∙ k.mag3) is_n (ground (arith, k.some_header))
            is_phoff is_entry e',
        moves,
        record {
          ready = all.ready;
          each = all.each;
          others = λ a out outs ok. all.others a outs ok ∙ l.others a out ok;
        },
      )

module _ (disk : Disk) (con : Console) (content : ℕ → ℕ) (limit sectbuf screen fuel kdiskoffset : ℕ)
    (readable : (s : ℕ) → s < limit → disk s ≡ some (λ i. content (512 * s + i)))
    (apart : AllClear (own con sectbuf screen)) (small : limit ≤ 2 ^ 23) where
  -- The range of the file is on the readable part of the disk, and the destination is clear of the
  -- loader's own data.
  pub record InReach (buf size offset : ℕ) : Type 0 where
    pub enough : size + 512 ≤ fuel
    pub room : buf + size + 512 < 2 ^ 32
    pub on_disk : offset + kdiskoffset + size + 512 ≤ 512 * limit
    pub clear : IsClear (own con sectbuf screen) buf size

  -- `kernreader_readfile` reads the file that starts at `kdiskoffset` of the disk.
  abbrev pub disk_reader : Reader (kernreader_readfile disk con sectbuf fuel kdiskoffset)
  disk_reader = record {
    file = λ k. content (k + kdiskoffset);
    CanRead = InReach;
    IsFree = IsFree (own con sectbuf screen);
    IsReady = IsReady con screen;
    keeps = IsReady-kept con sectbuf screen;
    reads = λ buf size offset m can ready. reads buf size offset m can ready;
  }
    where
      reads :
          (buf size offset : ℕ) (m : Memory)
          → InReach buf size offset
          → IsReady con screen m
          → (m' : Memory) × (kernreader_readfile disk con sectbuf fuel kdiskoffset buf size offset m
              ≡ some (done m'))
            × FileLoaded
                (λ k. content (k + kdiskoffset))
                (IsFree (own con sectbuf screen))
                (IsReady con screen)
                buf
                size
                offset
                m
                m'
      reads buf size offset m can ready =
          let (m', e, l) =
            kernreader_readfile_lem disk con content limit sectbuf screen readable apart fuel
              kdiskoffset buf size offset m can.enough can.room can.on_disk small can.clear ready in
          (
            m',
            e,
            record {
              ready = l.ready;
              bytes = λ k lt. l.bytes k lt ∙ ap content (omega arith);
              others = l.others;
            },
          )

  -- For a disk whose sectors below `limit` can be read, the loader's own data apart from each other
  -- (the buffer of the BIOS, `sectbuf`, the 4000 bytes of the screen, `crt_pos` and `crt_buf`), a
  -- console that is ready, and more fuel than bytes in the sectors of each read: if the disk holds at
  -- `kdiskoffset` an ELF file with the magic number, with its headers `hs` in the first 4096 bytes,
  -- and with segments that end below 2^32, virtually and physically, apart from each other, from the
  -- copy of the headers and from the loader's own data, then `bootmain` comes to the kernel's entry
  -- point, moved by each segment in turn that it lies in from its virtual to its physical address;
  -- each segment is in memory at its physical address, the bytes of the file and then zeros; the
  -- console is ready again, and memory is otherwise changed only in the copy of the headers and in
  -- the loader's own data.
  pub kernel_from_disk :
      (elf : ℕ) (hs : List Phdr) (m : Memory)
      → IsKernel disk_reader elf hs
      → IsReady con screen m
      → (entry : ℕ) × (m' : Memory) × (load_kernel
            (kernreader_readfile disk con sectbuf fuel kdiskoffset)
            elf
            m
          ≡ some (done (entry, m')))
        × IsEntry hs (read32 disk_reader.file 24) entry
        × KernelLoaded disk_reader elf hs m m'
  kernel_from_disk = load_kernel_lem disk_reader
