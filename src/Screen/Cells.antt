-- ===== src/Screen/Cells.antt =====
-- What stores, copies and clearings do to the cells of the screen.
use fdu_os.Common.{
  ℕ, zero, suc, ◌+◌, ◌*◌, ◌%◌, ◌^◌, ◌≤◌, ◌<◌, ◌≡◌, ◌⊎◌, refl, ◌∙◌, ◌&&◌, ltb, leb, ◌==◌,
  if◌then◌else◌, inl, arith,
}
use fdu_os.Memory.{Memory, copy_up}
use fdu_os.Memory.Copies.{copied, copy_up-copied}
use fdu_os.Screen.{store16, blank}

-- The `i`-th cell of the screen at `buf`
abbrev pub cell : Memory → ℕ → ℕ → ℕ
cell m buf i = m (buf + 2 * i) + 2 ^ 8 * m (buf + 2 * i + 1)

-- The address is not one of the screen.
abbrev pub IsElsewhere : ℕ → ℕ → Type 0
IsElsewhere buf a = (a < buf) ⊎ (buf + 4000 ≤ a)

module _ (buf : ℕ) where
  pub cell-store16 :
      (j v i : ℕ) (m : Memory)
      → cell (store16 (buf + 2 * j) v m) buf i ≡ (if j == i then v % 2 ^ 16 else cell m buf i)
  cell-store16 j v i m = ground arith

  pub elsewhere-store16 :
      (j v : ℕ) (m : Memory) (a : ℕ)
      → j < 2000
      → IsElsewhere buf a
      → store16 (buf + 2 * j) v m a ≡ m a
  elsewhere-store16 j v m a lt away = ground arith

  pub cell-blank :
      (n j i : ℕ) (m : Memory)
      → cell (blank n buf j m) buf i ≡ (if leb j i && ltb i (j + n) then 1824 else cell m buf i)
  unfolding blank
  cell-blank zero j i m = ground arith
  cell-blank (suc n) j i m =
      cell-blank n (j + 1) i (store16 (buf + 2 * j) 1824 m)
      ∙ ground (arith, cell-store16 j 1824 i m)

  pub elsewhere-blank :
      (n j : ℕ) (m : Memory) (a : ℕ) → j + n ≤ 2000 → IsElsewhere buf a → blank n buf j m a ≡ m a
  unfolding blank
  elsewhere-blank zero j m a le away = refl
  elsewhere-blank (suc n) j m a le away =
      elsewhere-blank n (j + 1) (store16 (buf + 2 * j) 1824 m) a (omega arith) away
      ∙ elsewhere-store16 j 1824 m a (omega arith) away

  up : (m : Memory) → copy_up 3840 buf (buf + 160) m ≡ copied buf (buf + 160) 3840 m
  up m = copy_up-copied 3840 buf (buf + 160) m (inl (omega arith))

  pub cell-copy_up :
      (i : ℕ) (m : Memory)
      → i < 2000
      → cell (copy_up 3840 buf (buf + 160) m) buf i
        ≡ (if ltb i 1920 then cell m buf (i + 80) else cell m buf i)
  cell-copy_up i m lt = rw (up m) (ground arith)

  pub elsewhere-copy_up :
      (m : Memory) (a : ℕ) → IsElsewhere buf a → copy_up 3840 buf (buf + 160) m a ≡ m a
  elsewhere-copy_up m a away = rw (up m) (ground arith)
