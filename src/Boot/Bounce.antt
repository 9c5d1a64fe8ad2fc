-- ===== src/Boot/Bounce.antt =====
-- `readsect` puts a sector into `sectbuf`.
use fdu_os.Common.{
  ℕ, ◌+◌, ◌-◌, ◌*◌, ◌<◌, ◌≡◌, refl, ap, ◌∙◌, [], ◌∷◌, true, false, ◌&&◌, ltb, leb, inl, inr, some,
  arith,
}
use fdu_os.Common.Outcome.{done}
use fdu_os.Memory.{Memory, set_up}
use fdu_os.Memory.Copies.{copied, copy_up-copied, set_up-at, IsForward}
use fdu_os.Boot.{Disk, Console, put_char, read_by_bios, readsect}
use fdu_os.Boot.Ranges.{IsOutside, IsFree, AllClear, IsClear-at, other_side}
use fdu_os.Boot.Typing.{own, IsReady, IsReady-same, Typed, put_char-Typed}

module _ (disk : Disk) (con : Console) (content : ℕ → ℕ) (limit sectbuf screen : ℕ)
    (readable : (s : ℕ) → s < limit → disk s ≡ some (λ i. content (512 * s + i)))
    (apart : AllClear (own con sectbuf screen)) where
  -- `sectbuf` holds the sector, and the console is ready.
  pub record HasSector (sect : ℕ) (m m1 : Memory) : Type 0 where
    pub ready : IsReady con screen m1
    pub ends : readsect disk con sectbuf sect m ≡ done m1
    pub sector : (i : ℕ) → i < 512 → m1 (sectbuf + i) ≡ content (512 * sect + i)
    pub rest : (a : ℕ) → IsFree (own con sectbuf screen) a → m1 a ≡ m a

  sector_at :
      (bytes : ℕ → ℕ) (m : Memory) (i : ℕ)
      → i < 512
      → copied sectbuf 4096 512 (read_by_bios bytes m) (sectbuf + i) ≡ bytes i
  sector_at bytes m i lt =
      let here : (leb sectbuf (sectbuf + i) && ltb (sectbuf + i) (sectbuf + 512)) ≡ true =
        ground arith in
      let there : 4096 + (sectbuf + i - sectbuf) ≡ 4096 + i = omega arith in
      let in_bios : (leb 4096 (4096 + i) && ltb (4096 + i) 4608) ≡ true = ground arith in
      let back : 4096 + i - 4096 ≡ i = omega arith in rw (here, there, in_bios, back) refl

  rest_at :
      (bytes : ℕ → ℕ) (n : ℕ) (m : Memory) (a : ℕ)
      → n ≡ 512
      → IsOutside a 4096 512
      → IsOutside a sectbuf 512
      → copied sectbuf 4096 512 (read_by_bios bytes (set_up n 4096 255 m)) a ≡ m a
  rest_at bytes n m a e out away =
      let not_here : (leb sectbuf a && ltb a (sectbuf + 512)) ≡ false = ground arith in
      let not_bios : (leb 4096 a && ltb a 4608) ≡ false = ground arith in
      let not_filled : (leb 4096 a && ltb a (4096 + n)) ≡ false = ground arith in
      rw (not_here, not_bios) (set_up-at n 4096 255 m a ∙ rw not_filled refl)

  forward : IsForward sectbuf 4096 512
  forward = elim apart.0.0 [ inl below ↦ inr below | inr above ↦ inl (omega arith) ]

  -- Memory before the character on the console
  unfoldable after_read : ℕ → Memory → Memory
  after_read sect m =
      copied sectbuf 4096 512 (read_by_bios (λ i. content (512 * sect + i)) (set_up 512 4096 255 m))

  readsect-ends :
      (sect : ℕ) (m : Memory)
      → sect < limit
      → readsect disk con sectbuf sect m ≡ done (put_char con 46 (after_read sect m))
  unfolding readsect after_read
  readsect-ends sect m lt =
      rw (readsect, readable sect lt)
        (ap (λ x. done (put_char con 46 x))
          (copy_up-copied 512 sectbuf 4096
            (read_by_bios (λ i. content (512 * sect + i)) (set_up 512 4096 255 m)) forward))

  after_read-rest :
      (sect : ℕ) (m : Memory) (a : ℕ)
      → IsFree (own con sectbuf screen) a
      → after_read sect m a ≡ m a
  unfolding after_read
  after_read-rest sect m a (bios, (away, _)) =
      rest_at (λ i. content (512 * sect + i)) 512 m a refl bios away

  -- The console's variables are in neither buffer.
  after_read-IsReady :
      (sect : ℕ) (m : Memory) → IsReady con screen m → IsReady con screen (after_read sect m)
  unfolding after_read
  after_read-IsReady sect m (buf, pos) =
      let same : (a : ℕ)
          → IsOutside a 4096 512
          → IsOutside a sectbuf 512
          → after_read sect m a ≡ m a =
        λ a off away. rest_at (λ i. content (512 * sect + i)) 512 m a refl off away in
      let at_buf : (k : ℕ) → k < 4 → after_read sect m (con.buf_at + k) ≡ m (con.buf_at + k) =
        λ k lt.
          same (con.buf_at + k) (other_side 4096 512 con.buf_at 4 k apart.0.1.1.1.0 lt)
            (other_side sectbuf 512 con.buf_at 4 k apart.1.0.1.1.0 lt) in
      let at_pos : (k : ℕ) → k < 2 → after_read sect m (con.pos_at + k) ≡ m (con.pos_at + k) =
        λ k lt.
          same (con.pos_at + k) (other_side 4096 512 con.pos_at 2 k apart.0.1.1.0 lt)
            (other_side sectbuf 512 con.pos_at 2 k apart.1.0.1.0 lt) in
      IsReady-same con screen m (after_read sect m) at_buf at_pos (buf, pos)

  sector_kept :
      (sect : ℕ) (m : Memory) (i : ℕ)
      → i < 512
      → Typed con sectbuf screen apart (after_read sect m) (put_char con 46 (after_read sect m))
      → put_char con 46 (after_read sect m) (sectbuf + i) ≡ content (512 * sect + i)
  unfolding after_read
  sector_kept sect m i lt typed =
      let off =
        IsClear-at ((screen, 4000) ∷ (con.pos_at, 2) ∷ []) sectbuf 512 (sectbuf + i) (omega arith)
          (omega arith) (apart.1.0.0, (apart.1.0.1.0, tt)) in
      typed.rest (sectbuf + i) off.0 off.1.0
      ∙ sector_at (λ i'. content (512 * sect + i')) (set_up 512 4096 255 m) i lt

  pub readsect_lem :
      (sect : ℕ) (m : Memory)
      → sect < limit
      → IsReady con screen m
      → (m1 : Memory) × HasSector sect m m1
  readsect_lem sect m lt ready =
      let typed =
        put_char-Typed con sectbuf screen apart 46 (after_read sect m)
          (after_read-IsReady sect m ready) in
      (
        put_char con 46 (after_read sect m),
        record {
          ready = typed.ready;
          ends = readsect-ends sect m lt;
          sector = λ i l. sector_kept sect m i l typed;
          rest = λ a free. typed.rest a free.1.1.0 free.1.1.1.0 ∙ after_read-rest sect m a free;
        },
      )
