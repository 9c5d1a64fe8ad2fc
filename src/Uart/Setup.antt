-- ===== src/Uart/Setup.antt =====
-- What `__uart_ns16550_init` makes of a device that behaves as the 16550 is documented to.
use Prim.Native.Nat.{bit_and}
use fdu_os.Common.{ℕ, ◌+◌, ◌*◌, ◌/◌, ◌%◌, ◌^◌, ◌≤◌, ◌<◌, ◌≡◌, ◌≢◌, refl, ◌∙◌, some, arith}
use fdu_os.Common.Bits.Powers.{bit_and_mask}
use fdu_os.Common.Outcome.{done}
use fdu_os.Bus.{Writer}
use fdu_os.Uart.{uart_init}

-- The registers of a 16550 behind a bus, as far as the set-up concerns them: a byte that is
-- written at an offset goes to its register; offsets 0 and 1 are the two bytes of the divisor while
-- the divisor latch bit of the line control register is set.
pub record Ns16550 {World : Type 0} (bus_write : Writer World) (base : ℕ) : Type 0 where
  pub line_control : World → ℕ
  pub fifo_control : World → ℕ
  pub divisor_lsb : World → ℕ
  pub divisor_msb : World → ℕ
  pub after : ℕ → ℕ → World → World
  pub accepts :
      (offset val : ℕ) (w : World) → bus_write base offset val w ≡ done (after offset val w)
  pub line_set : (val : ℕ) (w : World) → val < 2 ^ 8 → line_control (after 3 val w) ≡ val
  pub line_kept :
      (offset val : ℕ) (w : World) → offset ≢ 3 → line_control (after offset val w) ≡ line_control w
  pub fifo_set : (val : ℕ) (w : World) → val < 2 ^ 8 → fifo_control (after 2 val w) ≡ val
  pub fifo_kept :
      (offset val : ℕ) (w : World) → offset ≢ 2 → fifo_control (after offset val w) ≡ fifo_control w
  pub lsb_set :
      (val : ℕ) (w : World)
      → val < 2 ^ 8
      → 2 ^ 7 ≤ line_control w
      → divisor_lsb (after 0 val w) ≡ val
  pub lsb_kept :
      (offset val : ℕ) (w : World) → offset ≢ 0 → divisor_lsb (after offset val w) ≡ divisor_lsb w
  pub msb_set :
      (val : ℕ) (w : World)
      → val < 2 ^ 8
      → 2 ^ 7 ≤ line_control w
      → divisor_msb (after 1 val w) ≡ val
  pub msb_kept :
      (offset val : ℕ) (w : World) → offset ≢ 1 → divisor_msb (after offset val w) ≡ divisor_msb w

module _ {World : Type 0} {bus_write : Writer World} {base : ℕ} (d : Ns16550 bus_write base)
    (divisor : ℕ) (w : World) where
  open d use {line_control, fifo_control, divisor_lsb, divisor_msb, after}

  abbrev low_byte : ℕ
  low_byte = bit_and divisor 255

  abbrev high_byte : ℕ
  high_byte = bit_and (divisor / 2 ^ 8) 255

  abbrev latched : World
  latched = after 3 128 (after 2 71 w)

  abbrev divided : World
  divided = after 1 high_byte (after 0 low_byte latched)

  abbrev pub ready : World
  ready = after 3 3 divided

  bytes : (low_byte ≡ divisor % 2 ^ 8) × (high_byte ≡ divisor / 2 ^ 8 % 2 ^ 8)
  bytes = (bit_and_mask 8 divisor, bit_and_mask 8 (divisor / 2 ^ 8))

  latch_open : 2 ^ 7 ≤ line_control latched
  latch_open = omega (arith, d.line_set 128 (after 2 71 w) (omega arith))

  low_set : divisor_lsb ready ≡ low_byte
  low_set =
      d.lsb_kept 3 3 divided (omega arith)
      ∙ d.lsb_kept 1 high_byte (after 0 low_byte latched) (omega arith)
      ∙ d.lsb_set low_byte latched (omega (arith, bytes)) latch_open

  high_set : divisor_msb ready ≡ high_byte
  high_set =
      d.msb_kept 3 3 divided (omega arith)
      ∙ d.msb_set high_byte (after 0 low_byte latched) (omega (arith, bytes))
          (omega (arith, latch_open, d.line_kept 0 low_byte latched (omega arith)))

  fifo_ready : fifo_control ready ≡ 71
  fifo_ready =
      d.fifo_kept 3 3 divided (omega arith)
      ∙ d.fifo_kept 1 high_byte (after 0 low_byte latched) (omega arith)
      ∙ d.fifo_kept 0 low_byte latched (omega arith)
      ∙ d.fifo_kept 3 128 (after 2 71 w) (omega arith)
      ∙ d.fifo_set 71 w (omega arith)

  -- On a device that behaves as a 16550, `__uart_ns16550_init` leaves the divisor cut to 16 bits
  -- in the divisor registers, eight data bits without parity and a closed divisor latch in the
  -- line control register, and the FIFOs enabled, reset and triggering at four bytes.
  pub uart_init_lem :
      (uart_init divisor (some bus_write) base w ≡ done ready)
      × (divisor_lsb ready + 2 ^ 8 * divisor_msb ready ≡ divisor % 2 ^ 16)
      × (line_control ready ≡ 3)
      × (fifo_control ready ≡ 71)
  unfolding uart_init
  uart_init_lem = (
    rw (d.accepts, d.accepts, d.accepts, d.accepts, d.accepts) refl,
    omega (arith, low_set, high_set, bytes),
    d.line_set 3 divided (omega arith),
    fifo_ready,
  )
