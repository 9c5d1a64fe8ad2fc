-- ===== src/Boot/Typing.antt =====
-- What a character on the console changes in memory: the screen and the position of the cursor.
use fdu_os.Common.{ℕ, ◌+◌, ◌<◌, ◌≡◌, ◌⊎◌, ap, ◌∙◌, inl, inr, List, [], ◌∷◌, arith}
use fdu_os.Memory.{Memory}
use fdu_os.Screen.{store16, cga_putc, bputc}
use fdu_os.Screen.Cursor.{cga_putc-typed}
use fdu_os.Boot.{Console, no_ports, crt_at, put_char, read16, read32}
use fdu_os.Boot.Ranges.{IsOutside, IsFree, AllClear, other_side}

-- The loader's own data: the buffer of the BIOS, `sectbuf`, the screen, `crt_pos` and `crt_buf`
abbrev pub own : Console → ℕ → ℕ → List (ℕ × ℕ)
own con sectbuf screen =
    (4096, 512) ∷ (sectbuf, 512) ∷ (screen, 4000) ∷ (con.pos_at, 2) ∷ (con.buf_at, 4) ∷ []

-- `crt_buf` is the screen, and the cursor is on it.
abbrev pub IsReady : Console → ℕ → Memory → Type 0
IsReady con screen m = (read32 m con.buf_at ≡ screen) × (read16 m con.pos_at < 2000)

store16-other : (p v a : ℕ) (m : Memory) → IsOutside a p 2 → store16 p v m a ≡ m a
store16-other p v a m out = ground arith

read16-store16 : (p v : ℕ) (m : Memory) → v < 2000 → read16 (store16 p v m) p ≡ v
read16-store16 p v m lt = ground arith

read16-same :
    (m m' : Memory) (a : ℕ) → ((k : ℕ) → k < 2 → m' (a + k) ≡ m (a + k)) → read16 m' a ≡ read16 m a
read16-same m m' a same =
    let first : m' a ≡ m a = ap m' (omega arith) ∙ same 0 (omega arith) ∙ ap m (omega arith) in
    omega (arith, first, same 1 (omega arith))

read32-same :
    (m m' : Memory) (a : ℕ) → ((k : ℕ) → k < 4 → m' (a + k) ≡ m (a + k)) → read32 m' a ≡ read32 m a
read32-same m m' a same =
    let low = read16-same m m' a (λ k lt. same k (omega arith)) in
    let high =
      read16-same m m' (a + 2)
        (λ k lt. ap m' (omega arith) ∙ same (2 + k) (omega arith) ∙ ap m (omega arith)) in
    omega (arith, low, high)

-- With the bytes of its variables as before, the console is ready.
pub IsReady-same :
    (con : Console) (screen : ℕ) (m m' : Memory)
    → ((k : ℕ) → k < 4 → m' (con.buf_at + k) ≡ m (con.buf_at + k))
    → ((k : ℕ) → k < 2 → m' (con.pos_at + k) ≡ m (con.pos_at + k))
    → IsReady con screen m
    → IsReady con screen m'
IsReady-same con screen m m' at_buf at_pos (buf, pos) = (
  read32-same m m' con.buf_at at_buf ∙ buf,
  omega (arith, pos, read16-same m m' con.pos_at at_pos),
)

-- What changes only free addresses leaves the console ready.
pub IsReady-kept :
    (con : Console) (sectbuf screen : ℕ) (m m' : Memory)
    → ((a : ℕ) → IsFree (own con sectbuf screen) a ⊎ (m' a ≡ m a))
    → IsReady con screen m
    → IsReady con screen m'
IsReady-kept con sectbuf screen m m' h =
    IsReady-same con screen m m'
      (λ k lt. elim (h (con.buf_at + k)) [
        | inl free ↦ absurd (elim free.1.1.1.1.0 [ inl b ↦ omega arith | inr b ↦ omega arith ])
        | inr e ↦ e
      ])
      (λ k lt. elim (h (con.pos_at + k)) [
        | inl free ↦ absurd (elim free.1.1.1.0 [ inl b ↦ omega arith | inr b ↦ omega arith ])
        | inr e ↦ e
      ])

module _ (con : Console) (sectbuf screen : ℕ) (apart : AllClear (own con sectbuf screen)) where
  -- The console is ready, and the loader's own data are otherwise as before.
  pub record Typed (m m' : Memory) : Type 0 where
    pub ready : IsReady con screen m'
    pub rest : (a : ℕ) → IsOutside a screen 4000 → IsOutside a con.pos_at 2 → m' a ≡ m a

  -- With a console that is ready: `bputc` changes nothing but the screen and the position of the
  -- cursor, and the console is ready again.
  pub put_char-Typed : (c : ℕ) (m : Memory) → IsReady con screen m → Typed m (put_char con c m)
  unfolding put_char bputc
  put_char-Typed c m (buf, pos) =
      let shows = cga_putc-typed no_ports c (crt_at con m) tt pos in
      let s' = (cga_putc no_ports c (crt_at con m, tt)).0 in
      let scr_pos = apart.1.1.0.0 in
      let scr_buf = apart.1.1.0.1.0 in
      let pos_buf = apart.1.1.1.0.0 in
      let rest : (a : ℕ)
          → IsOutside a screen 4000
          → IsOutside a con.pos_at 2
          → store16 con.pos_at s'.crt_pos s'.memory a ≡ m a =
        λ a out off.
          store16-other con.pos_at s'.crt_pos a s'.memory off ∙ shows.elsewhere a (rw buf out) in
      let same : (k : ℕ)
          → k < 4
          → store16 con.pos_at s'.crt_pos s'.memory (con.buf_at + k) ≡ m (con.buf_at + k) =
        λ k lt.
          rest (con.buf_at + k) (other_side screen 4000 con.buf_at 4 k scr_buf lt)
            (other_side con.pos_at 2 con.buf_at 4 k pos_buf lt) in
      let below : s'.crt_pos < 2000 = omega (arith, shows.cursor, shows.cursor_below) in
      record {
        ready = (
          read32-same m (store16 con.pos_at s'.crt_pos s'.memory) con.buf_at same ∙ buf,
          omega (arith, read16-store16 con.pos_at s'.crt_pos s'.memory below, below),
        );
        rest = rest;
      }
