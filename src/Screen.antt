-- ===== src/Screen.antt =====
-- boot/arch/i386/console.c: the text screen and the serial port of the boot loader. The screen is
-- 25 rows of 80 cells of two bytes, the character and its attribute, in memory from `crt_buf` on;
-- `crt_pos` is the cell of the cursor. An `int` is the number of its 32 bits, and the ports of the
-- processor are a parameter.
pub mod Cells
pub mod Cursor
mod Examples
use Prim.Native.Nat.{bit_and, bit_or}
use fdu_os.Common.{
  ℕ, zero, suc, ◌+◌, ◌-◌, ◌*◌, ◌/◌, ◌%◌, ◌^◌, Bool, not, ltb, leb, ◌==◌, if◌then◌else◌,
}
use fdu_os.Memory.{Memory, store, copy_up}

-- `inb` and `outb`
pub record Ports (World : Type 0) : Type 0 where
  pub inb : ℕ → World → ℕ × World
  pub outb : ℕ → ℕ → World → World

-- `addr_6845`, `crt_buf` and `crt_pos`, with the memory
pub record Crt : Type 0 where
  pub addr_6845 : ℕ
  pub crt_buf : ℕ
  pub crt_pos : ℕ
  pub memory : Memory

-- `*(uint16_t *)a = v`
abbrev pub store16 : ℕ → ℕ → Memory → Memory
store16 a v m = store (a + 1) (v / 2 ^ 8 % 2 ^ 8) (store a (v % 2 ^ 8) m)

-- `c` without the character
abbrev pub attribute : ℕ → ℕ
attribute c = bit_and c 4294967040

-- `if (!(c & ~0xFF)) c |= 0x0700;`
unfoldable pub attributed : ℕ → ℕ
attributed c = if attribute c == 0 then bit_or c 1792 else c

-- `crt_buf[crt_pos++] = c;`
unfoldable pub write_cell : ℕ → Crt → Crt
write_cell c s = record {
  addr_6845 = s.addr_6845;
  crt_buf = s.crt_buf;
  crt_pos = (s.crt_pos + 1) % 2 ^ 16;
  memory = store16 (s.crt_buf + 2 * s.crt_pos) c s.memory;
}

-- `if (crt_pos > 0) { crt_pos--; crt_buf[crt_pos] = (c & ~0xff) | ' '; }`
unfoldable pub erase_cell : ℕ → Crt → Crt
erase_cell c s =
    if ltb 0 s.crt_pos
    then record {
      addr_6845 = s.addr_6845;
      crt_buf = s.crt_buf;
      crt_pos = s.crt_pos - 1;
      memory = store16 (s.crt_buf + 2 * (s.crt_pos - 1)) (bit_or (attribute c) 32) s.memory;
    }
    else s

abbrev pub at_cell : ℕ → Crt → Crt
at_cell pos s = record {
  addr_6845 = s.addr_6845;
  crt_buf = s.crt_buf;
  crt_pos = pos;
  memory = s.memory;
}

-- The `switch` on the character
unfoldable pub place : ℕ → Crt → Crt
unfolding write_cell erase_cell
place c s =
    let line : ℕ = (s.crt_pos + 80) % 2 ^ 16 in
    if bit_and c 255 == 8
    then erase_cell c s
    else if bit_and c 255 == 10
    then at_cell (line - line % 80) s
    else if bit_and c 255 == 13
    then at_cell (s.crt_pos - s.crt_pos % 80) s
    else if bit_and c 255 == 9
    then write_cell (bit_or (attribute c) 32) s
    else write_cell c s

-- `n` times `crt_buf[i++] = 0x0700 | ' ';`
unfoldable pub blank : ℕ → ℕ → ℕ → Memory → Memory
blank zero buf i m = m
blank (suc n) buf i m = blank n buf (i + 1) (store16 (buf + 2 * i) 1824 m)

-- `if (crt_pos >= CRT_SIZE)`: the rows move up by one, byte by byte, and the last one is cleared.
unfoldable pub roll : Crt → Crt
unfolding blank copy_up
roll s =
    if leb 2000 s.crt_pos
    then record {
      addr_6845 = s.addr_6845;
      crt_buf = s.crt_buf;
      crt_pos = s.crt_pos - 80;
      memory = blank 80 s.crt_buf 1920 (copy_up 3840 s.crt_buf (s.crt_buf + 160) s.memory);
    }
    else s

module _ {World : Type 0} (ports : Ports World) where
  -- The cursor of the adapter
  unfoldable pub show_cursor : Crt → World → World
  show_cursor s w = ports.outb (s.addr_6845 + 1) (s.crt_pos % 2 ^ 8) (
      ports.outb s.addr_6845 15
        (ports.outb (s.addr_6845 + 1) (s.crt_pos / 2 ^ 8) (ports.outb s.addr_6845 14 w)))

  -- `cga_putc`
  unfoldable pub cga_putc : ℕ → Crt × World → Crt × World
  unfolding attributed place roll show_cursor
  cga_putc c (s, w) = let s' = roll (place (attributed c) s) in (s', show_cursor s' w)

  -- `delay`
  unfoldable pub delay : World → World
  delay w = (ports.inb 132 (ports.inb 132 (ports.inb 132 (ports.inb 132 w).1).1).1).1

  -- The loop of `serial_putc` with `n` turns left
  unfoldable pub wait_ready : ℕ → World → World
  unfolding delay
  wait_ready zero w = (ports.inb 1021 w).1
  wait_ready (suc n) w =
      let (status, w') = ports.inb 1021 w in
      let again = wait_ready n (delay w') in if bit_and status 32 == 0 then again else w'

  -- `serial_putc`
  unfoldable pub serial_putc : ℕ → World → World
  unfolding wait_ready
  serial_putc c w = ports.outb 1016 (c % 2 ^ 8) (wait_ready 12800 w)

  -- `serial_init`; the value is `serial_exists`
  unfoldable pub serial_init : World → Bool × World
  serial_init w =
      let w1 = ports.outb 1019 128 (ports.outb 1018 0 w) in
      let w2 = ports.outb 1017 0 (ports.outb 1016 12 w1) in
      let w3 = ports.outb 1017 1 (ports.outb 1020 0 (ports.outb 1019 3 w2)) in
      let (status, w4) = ports.inb 1021 w3 in
      (not (status == 255), (ports.inb 1016 (ports.inb 1018 w4).1).1)

  -- `bputc`
  unfoldable pub bputc : ℕ → Crt × World → Crt × World
  unfolding cga_putc serial_putc
  bputc c s = let (s', w') = cga_putc c s in (s', serial_putc c w')
