-- ===== src/Common/Updates.antt =====
-- A function from addresses or indices with one value changed.
use Prim.Native.Nat.{ℕ}
use fdu_os.Common.Compare.{◌==◌, if◌then◌else◌}

-- `h` with `n` at `x`
abbrev pub set {ℓ} : {A : Type ℓ} → (ℕ → A) → ℕ → A → ℕ → A
set h x n y = if x == y then n else h y
