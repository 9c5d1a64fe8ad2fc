-- ===== src/BootArm.antt =====
-- boot/arch/armv7a/kernreader.c and libc.c: the loader of ARMv7-A finds the kernel's ELF file in
-- memory, behind its length and its checksum. What it prints is left out.
pub mod Reader
use fdu_os.Common.{
  ℕ, zero, suc, ◌+◌, true, false, Bool, ◌&&◌, not, leb, ltb, ◌==◌, if◌then◌else◌, Option, some,
  List, [], ◌∷◌,
}
use fdu_os.Common.Words.{word, add32}
use fdu_os.Common.Outcome.{Outcome, done, panic}
use fdu_os.Memory.{Memory, copy_up, set_up}
use fdu_os.Crc32.{crc32}
use fdu_os.Boot.{read32}

-- `ELF_INFO_START` and `ELF_START`
abbrev pub elf_info_start : ℕ
elf_info_start = 98304

abbrev pub elf_start : ℕ
elf_start = 131072

-- `elf_info->elf_len` and `elf_info->elf_crc32`
abbrev pub elf_len : Memory → ℕ
elf_len m = read32 m elf_info_start

abbrev pub elf_crc32 : Memory → ℕ
elf_crc32 m = read32 m (elf_info_start + 4)

-- `memset` and `memcpy` of the loader
unfoldable pub memset : ℕ → ℕ → ℕ → Memory → Memory
unfolding set_up
memset s c n m = set_up n s c m

unfoldable pub memcpy : ℕ → ℕ → ℕ → Memory → Memory
unfolding copy_up
memcpy dest src n m = copy_up n dest src m

-- The `n` bytes from `a` on
abbrev pub bytes_at : ℕ → ℕ → Memory → List ℕ
bytes_at zero a m = []
bytes_at (suc n) a m = m a ∷ bytes_at n (a + 1) m

-- `kernreader_init`
unfoldable pub kernreader_init : Memory → Outcome (Unit {0})
unfolding crc32
kernreader_init m =
    if elf_len m == 0
    then panic
    else if not (crc32 0 (bytes_at (elf_len m) elf_start m) == elf_crc32 m)
    then panic
    else done tt

-- `kernreader_readfile`
unfoldable pub kernreader_readfile : ℕ → ℕ → ℕ → Memory → Option (Outcome Memory)
unfolding memcpy
kernreader_readfile buf size offset m =
    if leb elf_start buf && ltb buf (add32 elf_start (elf_len m))
    then some panic
    else some (done (memcpy buf (add32 elf_start offset) size m))
