-- ===== src/Boot/Examples.antt =====
-- The boot loader on a disk of 100 sectors with a kernel of one segment in the second sector.
use fdu_os.Common.{
  ℕ, ◌+◌, ◌-◌, ◌*◌, ◌≡◌, refl, inl, inr, ◌==◌, if◌then◌else◌, some, List, [], ◌∷◌, arith,
}
use fdu_os.Common.Outcome.{done}
use fdu_os.Memory.{Memory}
use fdu_os.Boot.{Disk, Console, Phdr, phdr_at, read32, kernreader_readfile, load_kernel}
use fdu_os.Boot.Ranges.{IsClear, AllClear}
use fdu_os.Boot.Typing.{own, IsReady}
use fdu_os.Boot.Sectors.{Loaded, kernreader_readfile_lem}
use fdu_os.Boot.Readers.{Reader, IsEntry}
use fdu_os.Boot.Segments.{Table}
use fdu_os.Boot.Kernel.{disk_reader, IsKernel, KernelLoaded, kernel_from_disk}

abbrev table_of : List (ℕ × ℕ) → ℕ → ℕ
table_of [] k = 0
table_of ((i, v) ∷ rest) k = if i == k then v else table_of rest k

abbrev image : ℕ → ℕ
image k =
    table_of
      ((0, 127)
        ∷ (1, 69)
        ∷ (2, 76)
        ∷ (3, 70)
        ∷ (26, 16)
        ∷ (27, 128)
        ∷ (28, 52)
        ∷ (44, 1)
        ∷ (56, 100)
        ∷ (62, 16)
        ∷ (63, 128)
        ∷ (66, 16)
        ∷ (68, 4)
        ∷ (72, 8)
        ∷ (100, 1)
        ∷ [])
      k

abbrev content : ℕ → ℕ
content k = image (k - 512)

abbrev disk : Disk
disk s = some (λ i. content (512 * s + i))

-- The screen at 0xB8000, and the cursor on its first cell
abbrev empty : Memory
empty a = if a == 28673 then 128 else if a == 28674 then 11 else 0

abbrev con : Console
con = record { buf_at = 28672; pos_at = 28680 }

abbrev bytes_apart : AllClear (own con 32768 753664)
bytes_apart = (
  (inl (omega arith), (inl (omega arith), (inl (omega arith), (inl (omega arith), tt)))),
  (
    (inl (omega arith), (inr (omega arith), (inr (omega arith), tt))),
    ((inr (omega arith), (inr (omega arith), tt)), ((inr (omega arith), tt), (tt, tt))),
  ),
)

ready : IsReady con 753664 empty
ready = (refl, omega arith)

abbrev segment : Phdr
segment = record {
  p_offset = 100;
  p_vaddr = 2148532224;
  p_paddr = 1048576;
  p_filesz = 4;
  p_memsz = 8;
}

-- A destination above all of the loader's data
abbrev above : (n : ℕ) → IsClear (own con 32768 753664) 1048576 n
above n = (
  inr (omega arith),
  (inr (omega arith), (inr (omega arith), (inr (omega arith), (inr (omega arith), tt)))),
)

kernreader_readfile_lem_example :
    (m' : Memory) × (kernreader_readfile disk con 32768 1024 512 1048576 200 100 empty
      ≡ some (done m'))
    × Loaded con content 32768 753664 1048576 200 612 empty m'
kernreader_readfile_lem_example =
    kernreader_readfile_lem disk con content 100 32768 753664 (λ s lt. refl) bytes_apart 1024 512
      1048576 200 100 empty (omega arith) (omega arith) (omega arith) (omega arith) (above 200)
      ready

abbrev reader : Reader (kernreader_readfile disk con 32768 5000 512)
reader =
    disk_reader disk con content 100 32768 753664 5000 512 (λ s lt. refl) bytes_apart (omega arith)

headers : Table reader reader.file 52 (segment ∷ [])
unfolding phdr_at
headers = (refl, tt)

is_kernel : IsKernel reader 36864 (segment ∷ [])
is_kernel = record {
  can_read = record {
    enough = omega arith;
    room = omega arith;
    on_disk = omega arith;
    clear = (
      inr (omega arith),
      (inr (omega arith), (inl (omega arith), (inr (omega arith), (inr (omega arith), tt)))),
    );
  };
  elf_free = λ a le lt. (
    inr (omega arith),
    (inr (omega arith), (inl (omega arith), (inr (omega arith), (inr (omega arith), tt)))),
  );
  mag0 = refl;
  mag1 = refl;
  mag2 = refl;
  mag3 = refl;
  e_phnum = refl;
  some_header = omega arith;
  in_preload = omega arith;
  table = headers;
  can_load = (
    record {
      can_read = record {
        enough = omega arith;
        room = omega arith;
        on_disk = omega arith;
        clear = above 4;
      };
      fits = omega arith;
      off_table = inr (omega arith);
      virtual_fits = omega arith;
      free = λ k lt. (
        inr (omega arith),
        (inr (omega arith), (inr (omega arith), (inr (omega arith), (inr (omega arith), tt)))),
      );
    },
    tt,
  );
  apart = (tt, tt);
}

kernel_from_disk_example :
    (entry : ℕ) × (m' : Memory) × (load_kernel
        (kernreader_readfile disk con 32768 5000 512)
        36864
        empty
      ≡ some (done (entry, m')))
    × IsEntry (segment ∷ []) (read32 reader.file 24) entry
    × KernelLoaded reader 36864 (segment ∷ []) empty m'
kernel_from_disk_example =
    kernel_from_disk disk con content 100 32768 753664 5000 512 (λ s lt. refl) bytes_apart
      (omega arith) 36864 (segment ∷ []) empty is_kernel ready
