-- ===== src/Bridge/Pieces.antt =====
-- What a client of a `virt_pvbridge` relies on. The pieces that it holds are a function from an
-- address to the bytes of the piece that starts there, 0 where none does.
use fdu_os.Common.{ℕ, ◌+◌, ◌%◌, ◌^◌, ◌≤◌, ◌<◌, ◌≡◌, ◌≢◌, ◌⊎◌, set}
use fdu_os.Common.Outcome.{Outcome, done}
use fdu_os.Bridge.{PvBridge}

-- Two pieces that do not overlap.
abbrev pub AreApart : ℕ → ℕ → ℕ → ℕ → Type 0
AreApart x n y m = (x + n ≤ y) ⊎ (y + m ≤ x)

-- How an aligned allocation of `size` bytes ends: with NULL, or with a new piece.
pub data Gives {State : Type 0} (Holds : State → (ℕ → ℕ) → Type 0) (h : ℕ → ℕ) (size : ℕ)
    : Outcome (ℕ × State) → Type 0 where
  nothing : {s' : State} → Holds s' h → Gives Holds h size (done (0, s'))
  piece :
      {x : ℕ} {s' : State}
      → x % 2 ^ 12 ≡ 0
      → h x ≡ 0
      → Holds s' (set h x size)
      → Gives Holds h size (done (x, s'))

-- `Holds s h` says that in state `s` the client holds the pieces `h`.
pub record PieceLaws {State : Type 0} (bridge : PvBridge State) (Holds : State → (ℕ → ℕ) → Type 0)
    : Type 0 where
  pub bounded : (s : State) (h : ℕ → ℕ) (x : ℕ) → Holds s h → 0 < h x → (0 < x) × (x + h x ≤ 2 ^ 32)
  pub apart :
      (s : State) (h : ℕ → ℕ) (x y : ℕ)
      → Holds s h
      → 0 < h x
      → 0 < h y
      → x ≢ y
      → AreApart x (h x) y (h y)
  pub gives :
      (s : State) (h : ℕ → ℕ) (size : ℕ)
      → Holds s h
      → 0 < size
      → size < 2 ^ 32
      → Gives Holds h size (bridge.aligned_malloc size (2 ^ 12) s)
  pub takes :
      (s : State) (h : ℕ → ℕ) (x : ℕ)
      → Holds s h
      → 0 < h x
      → (s' : State) × (bridge.free x s ≡ done s') × Holds s' (set h x 0)
