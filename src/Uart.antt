-- ===== src/Uart.antt =====
-- drivers/serial/uart-ns16550.c and the output of drivers/serial/uart-rpi2.c: the serial ports, on
-- the access functions of their bus. `none` stands for a NULL access function. A loop that waits
-- for the device runs on fuel; `none` says that it is still waiting when the fuel is used up.
-- `divisor` is `UART_FREQ / UART_BAUDRATE`.
pub mod Waiting
pub mod Setup
mod Examples
use Prim.Native.Nat.{bit_and, bit_or}
use fdu_os.Common.{
  ℕ, zero, suc, ◌/◌, ◌%◌, ◌^◌, Bool, true, false, not, Option, none, some, ◌==◌, if◌then◌else◌,
}
use fdu_os.Common.Outcome.{Outcome, done, panic, undefined, ◌>>=◌}
use fdu_os.Bus.{Reader, Writer}

module _ {World : Type 0} where
  -- `do { read(offset, &buf); } while (!(buf & mask));`
  unfoldable pub wait_for : ℕ → ℕ → Reader World → ℕ → ℕ → World → Option (Outcome World)
  wait_for zero mask bus_read base offset w = none
  wait_for (suc fuel) mask bus_read base offset w = elim (bus_read base offset w) [
    | done (buf, w') ↦
        let again = wait_for fuel mask bus_read base offset w' in
        if bit_and buf mask == 0 then again else some (done w')
    | panic ↦ some panic
    | undefined ↦ some undefined
  ]

  -- `__uart_ns16550_init`: FIFO, divisor latch, divisor, and eight data bits
  unfoldable pub uart_init : ℕ → Option (Writer World) → ℕ → World → Outcome World
  uart_init divisor none base w = done w
  uart_init divisor (some bus_write8) base w =
      bus_write8 base 2 (bit_or (bit_or (bit_or 64 4) 2) 1) w >>= λ w1.
      bus_write8 base 3 128 w1 >>= λ w2. bus_write8 base 0 (bit_and divisor 255) w2 >>= λ w3.
      bus_write8 base 1 (bit_and (divisor / 2 ^ 8) 255) w3 >>= λ w4.
      bus_write8 base 3 (bit_or (bit_or 3 0) 0) w4

  -- `__uart_ns16550_enable` and `__uart_ns16550_disable`
  unfoldable pub uart_enable : Option (Writer World) → ℕ → World → Outcome World
  uart_enable none base w = done w
  uart_enable (some bus_write8) base w = bus_write8 base 4 (bit_or 2 1) w

  unfoldable pub uart_disable : Option (Writer World) → ℕ → World → Outcome World
  uart_disable none base w = done w
  uart_disable (some bus_write8) base w = bus_write8 base 4 0 w

  -- `__uart_ns16550_enable_interrupt` and `__uart_ns16550_disable_interrupt`
  unfoldable pub uart_enable_interrupt : Option (Writer World) → ℕ → World → Outcome World
  uart_enable_interrupt none base w = done w
  uart_enable_interrupt (some bus_write8) base w = bus_write8 base 1 1 w

  unfoldable pub uart_disable_interrupt : Option (Writer World) → ℕ → World → Outcome World
  uart_disable_interrupt none base w = done w
  uart_disable_interrupt (some bus_write8) base w = bus_write8 base 1 0 w

  -- `__uart_ns16550_getchar`
  unfoldable pub uart_getchar : ℕ → Option (Reader World) → ℕ → World → Option (Outcome (ℕ × World))
  unfolding wait_for
  uart_getchar fuel none base w = some (done (0, w))
  uart_getchar fuel (some bus_read8) base w = elim (wait_for fuel 1 bus_read8 base 5 w) [
    | none ↦ none
    | some ready ↦
        some (ready >>= λ w'. bus_read8 base 0 w' >>= λ (buf, w''). done (buf % 2 ^ 8, w''))
  ]

  -- `__uart_ns16550_putchar`; `false` is `EOF`
  unfoldable pub uart_putchar :
      ℕ
      → Option (Reader World)
      → Option (Writer World)
      → ℕ
      → ℕ
      → World
      → Option (Outcome (Bool × World))
  unfolding wait_for
  uart_putchar fuel none writer base c w = some (done (false, w))
  uart_putchar fuel (some bus_read8) none base c w = some (done (false, w))
  uart_putchar fuel (some bus_read8) (some bus_write8) base c w =
      elim (wait_for fuel 32 bus_read8 base 5 w) [
        | none ↦ none
        | some ready ↦ some (ready >>= λ w'. bus_write8 base 0 c w' >>= λ w''. done (true, w''))
      ]

  -- `__uart_rpi2_putchar`: a NULL access function is waited on for ever
  unfoldable pub rpi2_putchar :
      ℕ → Option (Reader World) → Option (Writer World) → ℕ → ℕ → World → Option (Outcome World)
  unfolding wait_for
  rpi2_putchar fuel none writer base c w = none
  rpi2_putchar fuel (some bus_read32) none base c w = none
  rpi2_putchar fuel (some bus_read32) (some bus_write32) base c w =
      elim (wait_for fuel 32 bus_read32 base 2183252 w) [
        | none ↦ none
        | some ready ↦ some (ready >>= λ w'. bus_write32 base 2183232 c w')
      ]
