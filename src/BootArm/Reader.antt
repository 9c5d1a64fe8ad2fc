-- ===== src/BootArm/Reader.antt =====
-- What the reader of ARMv7-A accepts, and what it reads.
use Prim.Native.Nat.{bit_xor}
use fdu_os.Common.{
  ℕ, zero, suc, ◌+◌, ◌^◌, ◌≤◌, ◌<◌, ◌≡◌, ◌≢◌, ◌↔◌, refl, ◌&&◌, not, leb, ltb, ◌==◌, ==→eq,
  Bool-cases, inl, inr, if◌then◌else◌, Option, some, All, arith,
}
use fdu_os.Common.Words.{add32}
use fdu_os.Common.Outcome.{Outcome, done, panic}
use fdu_os.Memory.{Memory}
use fdu_os.Memory.Copies.{copy_up-copied}
use fdu_os.Crc32.{crc32}
use fdu_os.Crc32.Division.{divide, crc32-divide}
use fdu_os.Boot.Ranges.{IsOutside}
use fdu_os.BootArm.{
  elf_start, elf_len, elf_crc32, bytes_at, kernreader_init, kernreader_readfile, memcpy,
}

All-bytes_at :
    (n a : ℕ) (m : Memory) → ((x : ℕ) → m x < 2 ^ 8) → All (λ b. b < 2 ^ 8) (bytes_at n a m)
All-bytes_at zero a m h = tt
All-bytes_at (suc n) a m h = (h a, All-bytes_at n (a + 1) m h)

-- The checksum that the loader compares: the division of the bytes by the polynomial.
abbrev remainder : Memory → ℕ
remainder m = bit_xor (divide (bit_xor 0 4294967295) (bytes_at (elf_len m) elf_start m)) 4294967295

-- The tests of `kernreader_init` on any length and checksums.
guards_iff :
    (n c d : ℕ)
    → ((if n == 0 then panic else if not (c == d) then panic else done (tt {0})) ≡ done (tt {0}))
      ↔ ((n ≢ 0) × (c ≡ d))
guards_iff n c d = elim (Bool-cases (n == 0)) [
  | inl empty ↦
      rw empty (λ h. absurd cc, λ (some_bytes, same). absurd (some_bytes (==→eq n 0 empty)))
  | inr filled ↦ elim (Bool-cases (c == d)) [
    | inl same ↦ rw (filled, same) (λ h. (ground arith, ==→eq c d same), λ h. refl)
    | inr differs ↦
        rw (filled, differs) (λ h. absurd cc, λ (some_bytes, same). absurd (ground arith))
  ]
]

-- On a memory of bytes, `kernreader_init` goes on exactly if the file has a length and the stored
-- checksum is the division, bit by bit, of the file's bytes by the reversed polynomial 0xEDB88320,
-- complemented at both ends.
pub kernreader_init_iff :
    (m : Memory)
    → ((x : ℕ) → m x < 2 ^ 8)
    → (kernreader_init m ≡ done tt) ↔ ((elf_len m ≢ 0) × (remainder m ≡ elf_crc32 m))
unfolding kernreader_init
kernreader_init_iff m bytes =
    let e : crc32 0 (bytes_at (elf_len m) elf_start m) ≡ remainder m =
      crc32-divide 0 (bytes_at (elf_len m) elf_start m) (omega arith)
        (All-bytes_at (elf_len m) elf_start m bytes) in
    rw (← e) (guards_iff (elf_len m) (crc32 0 (bytes_at (elf_len m) elf_start m)) (elf_crc32 m))

-- How a read of `size` bytes at `offset` of the file ends.
pub data Reads (buf size offset : ℕ) (m : Memory) : Option (Outcome Memory) → Type 0 where
  overlapping : elf_start ≤ buf → buf < elf_start + elf_len m → Reads buf size offset m (some panic)
  copied_file :
      {m' : Memory}
      → ((k : ℕ) → k < size → m' (buf + k) ≡ m (elf_start + offset + k))
      → ((a : ℕ) → IsOutside a buf size → m' a ≡ m a)
      → Reads buf size offset m (some (done m'))

-- For a file that ends below 2^32 and a range inside it, `kernreader_readfile` panics exactly if
-- the destination starts inside the file; else the destination holds the bytes that the file had
-- in the range, also where it runs into the file, and no other byte has changed.
pub kernreader_readfile-Reads :
    (buf size offset : ℕ) (m : Memory)
    → elf_start + elf_len m < 2 ^ 32
    → offset + size ≤ elf_len m
    → Reads buf size offset m (kernreader_readfile buf size offset m)
unfolding kernreader_readfile memcpy
kernreader_readfile-Reads buf size offset m fits inside =
    let end : add32 elf_start (elf_len m) ≡ elf_start + elf_len m = omega arith in
    let from : add32 elf_start offset ≡ elf_start + offset = omega arith in
    elim (Bool-cases (leb elf_start buf && ltb buf (elf_start + elf_len m))) [
      | inl overlap ↦ rw (end, overlap) (overlapping (ground arith) (ground arith))
      | inr apart ↦
          let c = copy_up-copied size buf (elf_start + offset) m (ground arith) in
          rw (end, apart, from)
            (copied_file (λ k lt. rw c (ground arith)) (λ a out. rw c (ground arith)))
    ]
