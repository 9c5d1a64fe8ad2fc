-- ===== src/Boot/Sectors.antt =====
-- What `kernreader_readfile` reads, whatever the place of the bytes in the sectors.
use fdu_os.Common.{
  ℕ, zero, suc, ◌+◌, ◌-◌, ◌*◌, ◌/◌, ◌%◌, ◌^◌, ◌≤◌, ◌<◌, ◌≡◌, refl, ap, ◌∙◌, true, false, ◌&&◌, ltb,
  leb, ◌==◌, if◌then◌else◌, Bool-cases, inl, inr, Option, some, arith,
}
use mathlib.Core.Path.{subst}
use fdu_os.Common.Words.{add32, sub32}
use fdu_os.Common.Outcome.{Outcome, done}
use fdu_os.Memory.{Memory, copy_up}
use fdu_os.Memory.Copies.{copied, copy_up-copied, IsForward}
use fdu_os.Boot.{Disk, Console, readsect, read_loop, kernreader_readfile}
use fdu_os.Boot.Ranges.{IsOutside, IsFree, IsClear, IsClear-at, IsClear-part, AllClear}
use fdu_os.Boot.Typing.{own, IsReady, IsReady-kept}
use fdu_os.Boot.Bounce.{HasSector, readsect_lem}

-- The `n` bytes from `buf` on are those of the disk from the byte `src` on, and the console is ready;
-- otherwise only the loader's own data have changed.
pub record Loaded (con : Console) (content : ℕ → ℕ) (sectbuf screen buf n src : ℕ) (m m' : Memory)
    : Type 0 where
  pub ready : IsReady con screen m'
  pub bytes : (k : ℕ) → k < n → m' (buf + k) ≡ content (src + k)
  pub others : (a : ℕ) → IsOutside a buf n → IsFree (own con sectbuf screen) a → m' a ≡ m a

module _ (disk : Disk) (con : Console) (content : ℕ → ℕ) (limit sectbuf screen : ℕ)
    (readable : (s : ℕ) → s < limit → disk s ≡ some (λ i. content (512 * s + i)))
    (apart : AllClear (own con sectbuf screen)) where
  module _ (sect buf skip n : ℕ) (m m1 m2 m' : Memory) (rest : ℕ)
      (h : HasSector disk con content limit sectbuf screen readable apart sect m m1) where
    -- The bytes of the first sector, and then those of the others
    first_then :
        (in_sector : skip + n ≤ 512)
        → IsClear (own con sectbuf screen) buf (n + rest)
        → Loaded con content sectbuf screen
            (buf + n)
            rest
            (512 * sect + skip + n)
            (copied buf (sectbuf + skip) n m1)
            m'
        → Loaded con content sectbuf screen buf (n + rest) (512 * sect + skip) m m'
    first_then in_sector clear l = record {
      ready = l.ready;
      bytes = λ k lt. elim (Bool-cases (ltb k n)) [
        | inl early ↦
            let kept = l.others (buf + k) (inl (ground arith)) (
              IsClear-at (own con sectbuf screen) buf (n + rest) (buf + k) (omega arith)
                (ground arith) clear) in
            let here : (leb buf (buf + k) && ltb (buf + k) (buf + n)) ≡ true = ground arith in
            let there : sectbuf + skip + (buf + k - buf) ≡ sectbuf + (skip + k) = omega arith in
            let source : 512 * sect + (skip + k) ≡ 512 * sect + skip + k = omega arith in
            kept ∙ rw (here, there) (h.sector (skip + k) (ground arith) ∙ ap content source)
        | inr late ↦
            let e : buf + k ≡ buf + n + (k - n) = ground arith in
            let source : 512 * sect + skip + n + (k - n) ≡ 512 * sect + skip + k = ground arith in
            rw e (l.bytes (k - n) (ground arith) ∙ ap content source)
      ];
      others = λ a out free.
          let not_here : (leb buf a && ltb a (buf + n)) ≡ false = ground arith in
          l.others a (elim out [ inl b ↦ inl (omega arith) | inr b ↦ inr (omega arith) ]) free
          ∙ rw not_here (h.rest a free);
    }

  -- What the loop ends in
  abbrev Reads : ℕ → ℕ → Memory → Option (Outcome Memory) → ℕ → Type 0
  Reads buf n m r src =
      (m' : Memory) × (r ≡ some (done m')) × Loaded con content sectbuf screen buf n src m m'

  nothing_read :
      (buf n src : ℕ) (m : Memory)
      → n ≡ 0
      → IsReady con screen m
      → Loaded con content sectbuf screen buf n src m m
  nothing_read buf n src m e ready = record {
    ready = ready;
    bytes = λ k lt. absurd (omega arith);
    others = λ a out free. refl;
  }

  one_turn :
      (fuel buf size skip sect c n buf' sect' : ℕ) (m m1 m2 : Memory) (r : Option (Outcome Memory))
      → (if ltb size 512 then size else 512) ≡ c
      → (size == 0) ≡ false
      → readsect disk con sectbuf sect m ≡ done m1
      → sub32 c skip ≡ n
      → add32 buf n ≡ buf'
      → add32 sect 1 ≡ sect'
      → copy_up n buf (sectbuf + skip) m1 ≡ m2
      → read_loop disk con sectbuf fuel buf' (size - c) 0 sect' m2 ≡ r
      → read_loop disk con sectbuf (suc fuel) buf size skip sect m ≡ r
  unfolding read_loop
  one_turn fuel buf size skip sect c n buf' sect' m m1 m2 r is_c some_size ends is_n is_buf is_sect
        is_copy e =
      rw (read_loop, some_size, ends, is_c, is_n, is_buf, is_sect, is_copy) e

  -- A copy to a place clear of the loader's own data leaves the console ready.
  copied-IsReady :
      (buf src n size : ℕ) (m : Memory)
      → n ≤ size
      → IsClear (own con sectbuf screen) buf size
      → IsReady con screen m
      → IsReady con screen (copied buf src n m)
  copied-IsReady buf src n size m le clear =
      IsReady-kept con sectbuf screen m (copied buf src n m) (λ a.
        elim (Bool-cases (leb buf a && ltb a (buf + n))) [
          | inl inside ↦
              inl
                (IsClear-at (own con sectbuf screen) buf size a (ground arith) (ground arith) clear)
          | inr outside ↦ inr (rw outside refl)
        ])

  loop_step :
      (fuel buf size skip sect c : ℕ) (m : Memory)
      → (if ltb size 512 then size else 512) ≡ c
      → (size == 0) ≡ false
      → skip ≤ c
      → c ≤ 512
      → c ≤ size
      → buf + size < 2 ^ 32
      → 512 * sect + size ≤ 512 * limit
      → limit < 2 ^ 32
      → IsClear (own con sectbuf screen) buf (size - skip)
      → IsReady con screen m
      → ((m1 : Memory)
          → IsReady con screen m1
          → Reads
              (buf + (c - skip))
              (size - c)
              m1
              (read_loop disk con sectbuf fuel (buf + (c - skip)) (size - c) 0 (sect + 1) m1)
              (512 * sect + skip + (c - skip)))
      → Reads buf
          (size - skip)
          m
          (read_loop disk con sectbuf (suc fuel) buf size skip sect m)
          (512 * sect + skip)
  loop_step fuel buf size skip sect c m is_c some_size skip_le c_le c_size room within small clear
        ready rest =
      let nonzero : 0 < size = ground arith in
      let (m1, h) =
        readsect_lem disk con content limit sectbuf screen readable apart sect m (omega arith)
          ready in
      let n_exact : sub32 c skip ≡ c - skip = omega arith in
      let buf_exact : add32 buf (c - skip) ≡ buf + (c - skip) = omega arith in
      let sect_exact : add32 sect 1 ≡ sect + 1 = omega arith in
      let forward_here : IsForward buf (sectbuf + skip) (c - skip) = elim clear.1.0 [
        | inl b ↦ inl (omega arith)
        | inr b ↦ inr (omega arith)
      ] in
      let copy = copy_up-copied (c - skip) buf (sectbuf + skip) m1 forward_here in
      let ready' : IsReady con screen (copied buf (sectbuf + skip) (c - skip) m1) =
        copied-IsReady buf (sectbuf + skip) (c - skip) (size - skip) m1 (omega arith) clear
          h.ready in
      let (m', e, l) = rest (copied buf (sectbuf + skip) (c - skip) m1) ready' in
      let total : c - skip + (size - c) ≡ size - skip = omega arith in
      (
        m',
        one_turn fuel buf size skip sect c (c - skip) (buf + (c - skip)) (sect + 1) m m1 _ _ is_c
            some_size h.ends n_exact buf_exact sect_exact copy e,
        subst (λ n. Loaded con content sectbuf screen buf n (512 * sect + skip) m m') total
            (first_then sect buf skip (c - skip) m m1 m m' (size - c) h (omega arith)
              (rw total clear) l),
      )

  same_range :
      {buf n n' src src' : ℕ} {m : Memory} {r : Option (Outcome Memory)}
      → n ≡ n'
      → src ≡ src'
      → Reads buf n m r src
      → Reads buf n' m r src'
  same_range {buf = buf} {n = n} {src' = src'} {m = m} e e' (m', ends, l) = (
    m',
    ends,
    subst (λ x. Loaded con content sectbuf screen buf x src' m m') e
        (subst (λ x. Loaded con content sectbuf screen buf n x m m') e' l),
  )

  finished :
      (fuel buf size skip sect : ℕ) (m : Memory)
      → 0 < fuel
      → size ≡ 0
      → read_loop disk con sectbuf fuel buf size skip sect m ≡ some (done m)
  unfolding read_loop
  finished zero buf size skip sect m some_fuel e = absurd (omega arith)
  finished (suc fuel) buf size skip sect m some_fuel e =
      let none_left : (size == 0) ≡ true = ground arith in rw (read_loop, none_left) refl

  read_loop_lem :
      (fuel buf size skip sect : ℕ) (m : Memory)
      → size < fuel
      → skip ≤ size
      → skip < 512
      → buf + size < 2 ^ 32
      → 512 * sect + size ≤ 512 * limit
      → limit < 2 ^ 32
      → IsClear (own con sectbuf screen) buf (size - skip)
      → IsReady con screen m
      → Reads buf
          (size - skip)
          m
          (read_loop disk con sectbuf fuel buf size skip sect m)
          (512 * sect + skip)
  read_loop_lem zero buf size skip sect m enough skip_le skip_lt room within small clear ready =
      absurd (omega arith)
  read_loop_lem (suc fuel) buf size skip sect m enough skip_le skip_lt room within small clear
        ready =
      elim (Bool-cases (size == 0)) [
        | inl e ↦
            let z : size ≡ 0 = ground arith in
            (
              m,
              finished (suc fuel) buf size skip sect m (omega arith) z,
              nothing_read buf (size - skip) (512 * sect + skip) m (omega arith) ready,
            )
        | inr some_size ↦
            let nonzero : 0 < size = ground arith in
            elim (Bool-cases (ltb size 512)) [
              | inl last ↦
                  let is_c : (if ltb size 512 then size else 512) ≡ size = rw last refl in
                  loop_step fuel buf size skip sect size m is_c some_size skip_le (ground arith)
                    (omega arith) room within small clear ready
                    (λ m1 ready1. (
                      m1,
                      finished fuel _ (size - size) 0 (sect + 1) m1 (omega arith) (omega arith),
                      nothing_read _ (size - size) _ m1 (omega arith) ready1,
                    ))
              | inr more ↦
                  let is_c : (if ltb size 512 then size else 512) ≡ 512 = rw more refl in
                  let whole : 512 ≤ size = ground arith in
                  loop_step fuel buf size skip sect 512 m is_c some_size (omega arith) (omega arith)
                    whole room within small clear ready
                    (λ m1 ready1. same_range (omega arith) (omega arith) (
                      read_loop_lem fuel (buf + (512 - skip)) (size - 512) 0 (sect + 1) m1
                        (omega arith) (omega arith) (omega arith) (omega arith) (omega arith) small
                        (IsClear-part (own con sectbuf screen) buf (size - skip)
                          (buf + (512 - skip)) (size - 512 - 0) (omega arith) (omega arith) clear)
                        ready1))
            ]
      ]

  -- On a disk whose sectors below `limit` can be read, with the loader's own data apart from each
  -- other (the buffer of the BIOS, `sectbuf`, the 4000 bytes of the screen, `crt_pos` and `crt_buf`),
  -- a console that is ready, a destination clear of these data that ends below 2^32, and a range of
  -- the file within those sectors: with more fuel than bytes in the sectors read,
  -- `kernreader_readfile` ends, the destination holds the bytes of the disk from `kdiskoffset` plus
  -- the offset on, the console is ready again, and nothing else but the loader's own data has
  -- changed.
  pub kernreader_readfile_lem :
      (fuel kdiskoffset buf size offset : ℕ) (m : Memory)
      → size + 512 ≤ fuel
      → buf + size + 512 < 2 ^ 32
      → offset + kdiskoffset + size + 512 ≤ 512 * limit
      → limit ≤ 2 ^ 23
      → IsClear (own con sectbuf screen) buf size
      → IsReady con screen m
      → (m' : Memory) × (kernreader_readfile disk con sectbuf fuel kdiskoffset buf size offset m
          ≡ some (done m'))
        × Loaded con content sectbuf screen buf size (offset + kdiskoffset) m m'
  unfolding kernreader_readfile
  kernreader_readfile_lem fuel kdiskoffset buf size offset m enough room within small clear ready =
      let start : ℕ = offset + kdiskoffset in
      let exact : add32 offset kdiskoffset ≡ start = omega arith in
      let size_exact : add32 size (start % 512) ≡ size + start % 512 = omega arith in
      let back : size + start % 512 - start % 512 ≡ size = omega arith in
      let loop : kernreader_readfile disk con sectbuf fuel kdiskoffset buf size offset m
          ≡ read_loop disk con sectbuf fuel buf (size + start % 512) (start % 512) (start / 512) m =
        ap (λ t. read_loop disk con sectbuf fuel buf (add32 size (t % 512)) (t % 512) (t / 512) m)
          exact
        ∙ ap (λ t. read_loop disk con sectbuf fuel buf t (start % 512) (start / 512) m)
            size_exact in
      let (m', e, l) = same_range back (omega arith) (
        read_loop_lem fuel buf (size + start % 512) (start % 512) (start / 512) m (omega arith)
          (omega arith) (omega arith) (omega arith) (omega arith) (omega arith) (rw back clear)
          ready) in
      (m', loop ∙ e, l)
