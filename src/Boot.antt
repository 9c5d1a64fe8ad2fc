-- ===== src/Boot.antt =====
-- boot/arch/i386/kernreader.c and boot/bootmain.c: the boot loader reads the kernel's ELF file from
-- the disk, sector by sector, and copies its segments to their physical addresses. The disk is a
-- parameter, the bytes of a sector or `none` if the BIOS cannot read it, and so are the addresses
-- `sectbuf` and `mbr` of the loader's own variables. The dot that is printed for each sector goes to
-- the screen in memory, with the console's variables at addresses of their own; the messages of
-- `bootmain`, which go there too, are left out, and so are its code, its stack and `kdiskoffset`,
-- which a segment could overwrite as well. The loop of the reader runs on fuel; `none` says that the
-- fuel is used up.
pub mod Ranges
pub mod Typing
pub mod Bounce
pub mod Sectors
pub mod Readers
pub mod Segments
pub mod Kernel
mod Examples
use Prim.Native.Nat.{bit_or}
use fdu_os.Common.{
  ℕ, zero, suc, ◌+◌, ◌-◌, ◌*◌, ◌/◌, ◌%◌, ◌^◌, Bool, true, false, ◌&&◌, ltb, leb, ◌==◌,
  if◌then◌else◌, Option, none, some,
}
use fdu_os.Common.Words.{word, add32, sub32, mul32}
use fdu_os.Common.Outcome.{Outcome, done, panic, undefined}
use fdu_os.Memory.{Memory, copy_up, set_up}
use fdu_os.Screen.{Ports, Crt, store16, cga_putc, bputc}

abbrev pub Disk : Type 0
Disk = ℕ → Option (ℕ → ℕ)

-- The buffer of the BIOS, 512 bytes from 0x1000 on, filled with a sector
abbrev pub read_by_bios : (ℕ → ℕ) → Memory → Memory
read_by_bios bytes m a = if leb 4096 a && ltb a 4608 then bytes (a - 4096) else m a

-- The words of the structures, the lowest byte first
abbrev pub read16 : Memory → ℕ → ℕ
read16 m a = m a + 2 ^ 8 * m (a + 1)

abbrev pub read32 : Memory → ℕ → ℕ
read32 m a = read16 m a + 2 ^ 16 * read16 m (a + 2)

-- The addresses of the variables `crt_buf` and `crt_pos` of boot/arch/i386/console.c
pub record Console : Type 0 where
  pub buf_at : ℕ
  pub pos_at : ℕ

-- The ports that the screen and the serial port are written to; they do not reach the memory.
abbrev pub no_ports : Ports Unit
no_ports = record { inb = λ port w. (0, w); outb = λ port v w. w }

abbrev pub crt_at : Console → Memory → Crt
crt_at con m = record {
  addr_6845 = 980;
  crt_buf = read32 m con.buf_at;
  crt_pos = read16 m con.pos_at;
  memory = m;
}

-- `bputc`, as far as the memory is concerned
unfoldable pub put_char : Console → ℕ → Memory → Memory
unfolding bputc cga_putc
put_char con c m =
    let s = (bputc no_ports c (crt_at con m, tt)).0 in store16 con.pos_at s.crt_pos s.memory

-- `readsect`
unfoldable pub readsect : Disk → Console → ℕ → ℕ → Memory → Outcome Memory
readsect disk con dst sect m = elim (disk sect) [
  | none ↦ panic
  | some bytes ↦
      done (put_char con 46 (copy_up 512 dst 4096 (read_by_bios bytes (set_up 512 4096 255 m))))
]

-- `kernreader_init`: `kdiskoffset` from the second entry of the partition table
unfoldable pub kernreader_init : ℕ → Memory → ℕ
kernreader_init mbr m =
    let pentry : ℕ = mbr + 446 + 16 in
    mul32
      (m (pentry + 8)
        + 2 ^ 8 * m (pentry + 9)
        + 2 ^ 16 * m (pentry + 10)
        + 2 ^ 24 * m (pentry + 11))
      512

module _ (disk : Disk) (con : Console) (sectbuf : ℕ) where
  -- The loop of `kernreader_readfile`
  unfoldable pub read_loop : ℕ → ℕ → ℕ → ℕ → ℕ → Memory → Option (Outcome Memory)
  unfolding readsect copy_up
  read_loop zero buf size skip sect m = none
  read_loop (suc fuel) buf size skip sect m =
      let cursize = if ltb size 512 then size else 512 in
      let n : ℕ = sub32 cursize skip in
      elim (size == 0) [
        | true ↦ some (done m)
        | false ↦ elim (readsect disk con sectbuf sect m) [
          | done m1 ↦
              read_loop fuel (add32 buf n) (size - cursize) 0 (add32 sect 1)
                (copy_up n buf (sectbuf + skip) m1)
          | panic ↦ some panic
          | undefined ↦ some undefined
        ]
      ]

  -- `kernreader_readfile`
  unfoldable pub kernreader_readfile : ℕ → ℕ → ℕ → ℕ → ℕ → Memory → Option (Outcome Memory)
  unfolding read_loop
  kernreader_readfile fuel kdiskoffset buf size offset m =
      let start : ℕ = add32 offset kdiskoffset in
      read_loop fuel buf (add32 size (start % 512)) (start % 512) (start / 512) m

-- `elf_phdr`, the fields that are used
pub record Phdr : Type 0 where
  pub p_offset : ℕ
  pub p_vaddr : ℕ
  pub p_paddr : ℕ
  pub p_filesz : ℕ
  pub p_memsz : ℕ

-- `*ph`
unfoldable pub phdr_at : Memory → ℕ → Phdr
phdr_at m ph = record {
  p_offset = read32 m (ph + 4);
  p_vaddr = read32 m (ph + 8);
  p_paddr = read32 m (ph + 12);
  p_filesz = read32 m (ph + 16);
  p_memsz = read32 m (ph + 20);
}

-- A reader of `size` bytes at an offset of the file: `kernreader_readfile`
abbrev pub FileReader : Type 0
FileReader = ℕ → ℕ → ℕ → Memory → Option (Outcome Memory)

-- `if (va <= entry && entry < va + ph->p_memsz) entry = entry - ph->p_vaddr + ph->p_paddr;`
unfoldable pub adjust_entry : Phdr → ℕ → ℕ
adjust_entry ph entry =
    if leb ph.p_vaddr entry && ltb entry (add32 ph.p_vaddr ph.p_memsz)
    then add32 (sub32 entry ph.p_vaddr) ph.p_paddr
    else entry

-- `if (ph->p_memsz > ph->p_filesz) bmemset(...)`
unfoldable pub clear_rest : ℕ → Phdr → Memory → Memory
unfolding set_up
clear_rest pa h m =
    if ltb h.p_filesz h.p_memsz
    then set_up (h.p_memsz - h.p_filesz) (add32 pa h.p_filesz) 0 m
    else m

module _ (readfile : FileReader) where
  -- The bytes of the segment of a header from the file, then zeros; the sizes are read again from
  -- the header at `ph` for the zeros.
  unfoldable pub load_with : ℕ → Phdr → Memory → Option (Outcome Memory)
  unfolding clear_rest phdr_at
  load_with ph h m = elim (readfile h.p_paddr h.p_filesz h.p_offset m) [
    | none ↦ none
    | some (done m1) ↦ some (done (clear_rest h.p_paddr (phdr_at m1 ph) m1))
    | some panic ↦ some panic
    | some undefined ↦ some undefined
  ]

  unfoldable pub load_segment : ℕ → Memory → Option (Outcome Memory)
  unfolding load_with phdr_at
  load_segment ph m = load_with ph (phdr_at m ph) m

  -- `while (ph < eph)`, with the number of headers left; the value is `entry`
  unfoldable pub load_segments : ℕ → ℕ → ℕ → Memory → Option (Outcome (ℕ × Memory))
  unfolding load_segment adjust_entry phdr_at
  load_segments zero ph entry m = some (done (entry, m))
  load_segments (suc n) ph entry m = elim (load_segment ph m) [
    | none ↦ none
    | some (done m1) ↦ load_segments n (ph + 32) (adjust_entry (phdr_at m1 ph) entry) m1
    | some panic ↦ some panic
    | some undefined ↦ some undefined
  ]

  -- `bootmain`, from the read of the ELF header to the kernel's entry point
  unfoldable pub load_kernel : ℕ → Memory → Option (Outcome (ℕ × Memory))
  unfolding load_segments
  load_kernel elf m = elim (readfile elf 4096 0 m) [
    | none ↦ none
    | some (done m1) ↦
        let magic =
          (m1 elf == 127)
          && ((m1 (elf + 1) == 69) && ((m1 (elf + 2) == 76) && (m1 (elf + 3) == 70))) in
        if magic
        then (if read16 m1 (elf + 44) == 0
            then some panic
            else load_segments (read16 m1 (elf + 44)) (elf + read32 m1 (elf + 28))
                (read32 m1 (elf + 24)) m1)
        else some panic
    | some panic ↦ some panic
    | some undefined ↦ some undefined
  ]
