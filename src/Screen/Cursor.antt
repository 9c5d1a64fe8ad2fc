-- ===== src/Screen/Cursor.antt =====
-- The text screen as rows of characters, and `cga_putc` as an operation on it.
use Prim.Native.Nat.{bit_and, bit_or}
use fdu_os.Common.{
  ℕ, ◌+◌, ◌-◌, ◌*◌, ◌/◌, ◌%◌, ◌^◌, ◌<◌, ◌≡◌, refl, sym, ap, ◌∙◌, Bool, true, false, ◌&&◌, ltb, leb,
  ◌==◌, if◌then◌else◌, Bool-cases, inl, inr, arith,
}
use fdu_os.Common.Bits.Powers.{bit_and_mask, bit_and_high_mask, bit_or_under, bit_or_comm}
use fdu_os.Memory.{copy_up}
use fdu_os.Screen.{
  Ports, Crt, store16, attribute, attributed, write_cell, erase_cell, at_cell, place, blank, roll,
  cga_putc,
}
use fdu_os.Screen.Cells.{
  cell, IsElsewhere, cell-store16, elsewhere-store16, cell-blank, elsewhere-blank, cell-copy_up,
  elsewhere-copy_up,
}

-- The contents of the cells and the cell of the cursor
pub record Grid : Type 0 where
  pub at : ℕ → ℕ
  pub pos : ℕ

abbrev pub set_at : ℕ → ℕ → ℕ → Grid → Grid
set_at j v pos g = record { at = λ i. if j == i then v % 2 ^ 16 else g.at i; pos = pos }

abbrev pub move : ℕ → Grid → Grid
move pos g = record { at = g.at; pos = pos }

-- The attribute that a character comes with, and light grey (7) on black (0) if it has none
abbrev pub colour_of : ℕ → ℕ
colour_of c = if c / 256 == 0 then 7 else c / 256

-- A backspace clears the cell before the cursor, a new line goes to the front of the next row, a
-- carriage return to the front of the row, a tab is a space, and any other character is put into
-- the cell of the cursor.
abbrev pub type_char : ℕ → Grid → Grid
type_char c g =
    if c % 256 == 8
    then (if ltb 0 g.pos then set_at (g.pos - 1) (colour_of c * 256 + 32) (g.pos - 1) g else g)
    else if c % 256 == 10
    then move (g.pos + 80 - g.pos % 80) g
    else if c % 256 == 13
    then move (g.pos - g.pos % 80) g
    else if c % 256 == 9
    then set_at g.pos (colour_of c * 256 + 32) (g.pos + 1) g
    else set_at g.pos (colour_of c * 256 + c % 256) (g.pos + 1) g

-- The same in the operators of the code, on a character with its attribute
abbrev pub type_bits : ℕ → Grid → Grid
type_bits c g =
    if bit_and c 255 == 8
    then (if ltb 0 g.pos then set_at (g.pos - 1) (bit_or (attribute c) 32) (g.pos - 1) g else g)
    else if bit_and c 255 == 10
    then move (g.pos + 80 - g.pos % 80) g
    else if bit_and c 255 == 13
    then move (g.pos - g.pos % 80) g
    else if bit_and c 255 == 9
    then set_at g.pos (bit_or (attribute c) 32) (g.pos + 1) g
    else set_at g.pos c (g.pos + 1) g

-- With the cursor below the last row, every row moves up by one and the last one is blank.
unfoldable pub scroll : Grid → Grid
scroll g =
    if leb 2000 g.pos
    then record { at = λ i. if ltb i 1920 then g.at (i + 80) else 1824; pos = g.pos - 80 }
    else g

-- From `s`, the screen has come to show `g`, with the cursor below `limit`.
pub record Shows (s s' : Crt) (g : Grid) (limit : ℕ) : Type 0 where
  pub same_screen : s'.crt_buf ≡ s.crt_buf
  pub same_adapter : s'.addr_6845 ≡ s.addr_6845
  pub cursor : s'.crt_pos ≡ g.pos
  pub cursor_below : g.pos < limit
  pub cells : (i : ℕ) → i < 2000 → cell s'.memory s.crt_buf i ≡ g.at i
  pub elsewhere : (a : ℕ) → IsElsewhere s.crt_buf a → s'.memory a ≡ s.memory a

-- What the screen at `s` shows
abbrev pub shown : Crt → Grid
shown s = record { at = cell s.memory s.crt_buf; pos = s.crt_pos }

module _ (s : Crt) (inside : s.crt_pos < 2000) where
  Shows-store16 :
      (j v pos pos' : ℕ)
      → j < 2000
      → pos ≡ pos'
      → pos' < 2080
      → Shows s
          (record {
            addr_6845 = s.addr_6845;
            crt_buf = s.crt_buf;
            crt_pos = pos;
            memory = store16 (s.crt_buf + 2 * j) v s.memory;
          })
          (set_at j v pos' (shown s))
          2080
  Shows-store16 j v pos pos' lt e below = record {
    same_screen = refl;
    same_adapter = refl;
    cursor = e;
    cursor_below = below;
    cells = λ i l. cell-store16 s.crt_buf j v i s.memory;
    elsewhere = λ a away. elsewhere-store16 s.crt_buf j v s.memory a lt away;
  }

  Shows-at_cell :
      (pos pos' : ℕ) → pos ≡ pos' → pos' < 2080 → Shows s (at_cell pos s) (move pos' (shown s)) 2080
  Shows-at_cell pos pos' e below = record {
    same_screen = refl;
    same_adapter = refl;
    cursor = e;
    cursor_below = below;
    cells = λ i l. refl;
    elsewhere = λ a away. refl;
  }

  place-Shows : (c : ℕ) → Shows s (place c s) (type_bits c (shown s)) 2080
  unfolding place write_cell erase_cell
  place-Shows c = elim (Bool-cases (bit_and c 255 == 8)) [
    | inl back ↦ elim (Bool-cases (ltb 0 s.crt_pos)) [
      | inl some_cell ↦
          rw (back, some_cell)
            (Shows-store16 (s.crt_pos - 1) (bit_or (attribute c) 32) (s.crt_pos - 1) (s.crt_pos - 1)
              (omega arith) refl (omega arith))
      | inr no_cell ↦ rw (back, no_cell) (Shows-at_cell s.crt_pos s.crt_pos refl (omega arith))
    ]
    | inr no_back ↦ elim (Bool-cases (bit_and c 255 == 10)) [
      | inl line ↦
          rw (no_back, line)
            (Shows-at_cell _ (s.crt_pos + 80 - s.crt_pos % 80) (omega arith) (omega arith))
      | inr no_line ↦ elim (Bool-cases (bit_and c 255 == 13)) [
        | inl front ↦
            rw (no_back, no_line, front)
              (Shows-at_cell _ (s.crt_pos - s.crt_pos % 80) refl (omega arith))
        | inr no_front ↦ elim (Bool-cases (bit_and c 255 == 9)) [
          | inl tab ↦
              rw (no_back, no_line, no_front, tab)
                (Shows-store16 s.crt_pos (bit_or (attribute c) 32) _ (s.crt_pos + 1) inside
                  (omega arith) (omega arith))
          | inr no_tab ↦
              rw (no_back, no_line, no_front, no_tab)
                (Shows-store16 s.crt_pos c _ (s.crt_pos + 1) inside (omega arith) (omega arith))
        ]
      ]
    ]
  ]

-- Both tests are one, and each case shows its grid.
both_cases :
    {s x y : Crt} {gx gy : Grid} (b b' : Bool)
    → b ≡ b'
    → (b' ≡ true → Shows s x gx 2000)
    → (b' ≡ false → Shows s y gy 2000)
    → Shows s (if b then x else y) (if b' then gx else gy) 2000
both_cases b b' e on off = elim (Bool-cases b') [
  | inl yes_case ↦ rw (e, yes_case) (on yes_case)
  | inr no_case ↦ rw (e, no_case) (off no_case)
]

module _ (s s' : Crt) (g : Grid) (h : Shows s s' g 2080) where
  moved :
      (i : ℕ)
      → i < 2000
      → ((j : ℕ) → j < 2000 → cell s'.memory s'.crt_buf j ≡ g.at j)
      → (if leb 1920 i && ltb i (1920 + 80)
          then 1824
          else cell (copy_up 3840 s'.crt_buf (s'.crt_buf + 160) s'.memory) s'.crt_buf i)
        ≡ (if ltb i 1920 then g.at (i + 80) else 1824)
  moved i lt old = elim (Bool-cases (ltb i 1920)) [
    | inl upper ↦
        let no_blank : (leb 1920 i && ltb i (1920 + 80)) ≡ false = ground arith in
        rw (no_blank, cell-copy_up s'.crt_buf i s'.memory lt, upper) (old (i + 80) (ground arith))
    | inr last ↦
        let blanked : (leb 1920 i && ltb i (1920 + 80)) ≡ true = ground arith in
        rw (blanked, last) refl
  ]

  rolled_cell :
      (i : ℕ)
      → i < 2000
      → cell
          (blank 80 s'.crt_buf 1920 (copy_up 3840 s'.crt_buf (s'.crt_buf + 160) s'.memory))
          s.crt_buf
          i
        ≡ (if ltb i 1920 then g.at (i + 80) else 1824)
  rolled_cell i lt =
      let buf = s'.crt_buf in
      let e : s.crt_buf ≡ s'.crt_buf = sym h.same_screen in
      let old : (j : ℕ) → j < 2000 → cell s'.memory s'.crt_buf j ≡ g.at j =
        λ j l. ap (λ b. cell s'.memory b j) h.same_screen ∙ h.cells j l in
      rw e (cell-blank buf 80 1920 i (copy_up 3840 buf (buf + 160) s'.memory) ∙ moved i lt old)

  rolled_elsewhere :
      (a : ℕ)
      → IsElsewhere s.crt_buf a
      → blank 80 s'.crt_buf 1920 (copy_up 3840 s'.crt_buf (s'.crt_buf + 160) s'.memory) a
        ≡ s.memory a
  rolled_elsewhere a away =
      let away' : IsElsewhere s'.crt_buf a = rw h.same_screen away in
      elsewhere-blank s'.crt_buf 80 1920 _ a (omega arith) away'
      ∙ elsewhere-copy_up s'.crt_buf s'.memory a away'
      ∙ h.elsewhere a away

  roll-Shows : Shows s (roll s') (scroll g) 2000
  unfolding roll scroll
  roll-Shows =
      both_cases (leb 2000 s'.crt_pos) (leb 2000 g.pos) (ap (leb 2000) h.cursor)
        (λ full. record {
          same_screen = h.same_screen;
          same_adapter = h.same_adapter;
          cursor = ap (λ x. x - 80) h.cursor;
          cursor_below = ground (arith, h.cursor_below);
          cells = rolled_cell;
          elsewhere = rolled_elsewhere;
        })
        (λ room. record {
          same_screen = h.same_screen;
          same_adapter = h.same_adapter;
          cursor = h.cursor;
          cursor_below = ground arith;
          cells = h.cells;
          elsewhere = h.elsewhere;
        })

attribute_lem : (c : ℕ) → c < 2 ^ 32 → attribute c ≡ c / 256 * 256
attribute_lem c lt = bit_and_high_mask 24 8 c lt ∙ omega arith

attributed_lem : (c : ℕ) → c < 2 ^ 32 → attributed c ≡ colour_of c * 256 + c % 256
unfolding attributed
attributed_lem c lt = elim (Bool-cases (c / 256 == 0)) [
  | inl plain ↦
      let e : c / 256 ≡ 0 = ground arith in
      let none_set : (attribute c == 0) ≡ true = ground (arith, attribute_lem c lt) in
      rw (none_set, plain) (bit_or_comm c 1792 ∙ bit_or_under 8 7 c (omega arith) ∙ omega arith)
  | inr some_bit ↦
      let some_set : (attribute c == 0) ≡ false = ground (arith, attribute_lem c lt) in
      rw (some_set, some_bit) (omega arith)
]

-- Typing the character that the code has given its attribute is typing the character.
type_bits-attributed : (c : ℕ) (g : Grid) → c < 2 ^ 32 → type_bits (attributed c) g ≡ type_char c g
type_bits-attributed c g lt =
    let colour = colour_of c in
    let x = colour * 256 + c % 256 in
    let below : colour * 256 + c % 256 < 2 ^ 32 = ground arith in
    let low : bit_and x 255 ≡ c % 256 = bit_and_mask 8 x ∙ omega arith in
    let high : bit_or (attribute x) 32 ≡ colour * 256 + 32 =
      ap (λ t. bit_or t 32) (attribute_lem x below ∙ omega arith)
      ∙ bit_or_under 8 colour 32 (omega arith) in
    rw (attributed_lem c lt, low, high) refl

-- The same in the operators of the code, for any character
pub cga_putc-typed :
    {World : Type 0} (ports : Ports World) (c : ℕ) (s : Crt) (w : World)
    → s.crt_pos < 2000
    → Shows s (cga_putc ports c (s, w)).0 (scroll (type_bits (attributed c) (shown s))) 2000
unfolding cga_putc
cga_putc-typed ports c s w inside =
    roll-Shows s (place (attributed c) s) (type_bits (attributed c) (shown s))
      (place-Shows s inside (attributed c))

-- From a cursor on the screen, for a character of 32 bits: after `cga_putc` the screen shows what
-- typing the character, with light grey on black if it has no attribute, and then scrolling show
-- from what it showed before; the cursor is on the screen again, and no memory outside the screen
-- has changed.
pub cga_putc-Shows :
    {World : Type 0} (ports : Ports World) (c : ℕ) (s : Crt) (w : World)
    → s.crt_pos < 2000
    → c < 2 ^ 32
    → Shows s (cga_putc ports c (s, w)).0 (scroll (type_char c (shown s))) 2000
cga_putc-Shows ports c s w inside int =
    rw (← type_bits-attributed c (shown s) int) (cga_putc-typed ports c s w inside)
