-- ===== src/Uart/Waiting.antt =====
-- A character is sent, or received, once the device is ready, and no sooner.
use Prim.Native.Nat.{bit_and}
use fdu_os.Common.{ℕ, zero, suc, ◌%◌, ◌^◌, ◌<◌, ◌≡◌, ◌≢◌, refl, true, false, some, ◌==◌, arith}
use fdu_os.Common.Outcome.{done, ◌>>=◌}
use fdu_os.Bus.{Reader, Writer}
use fdu_os.Uart.{wait_for, uart_getchar, uart_putchar, rpi2_putchar}

module _ {World : Type 0} where
  -- The status read `n + 1` times is the first with a bit of the mask; the reads lead to `w'`.
  pub data ReadyAfter (bus_read : Reader World) (mask base offset : ℕ)
      : ℕ → World → World → Type 0 where
    now :
        {w w' : World} {buf : ℕ}
        → bus_read base offset w ≡ done (buf, w')
        → bit_and buf mask ≢ 0
        → ReadyAfter bus_read mask base offset 0 w w'
    later :
        {n : ℕ} {w w1 w' : World} {buf : ℕ}
        → bus_read base offset w ≡ done (buf, w1)
        → bit_and buf mask ≡ 0
        → ReadyAfter bus_read mask base offset n w1 w'
        → ReadyAfter bus_read mask base offset (suc n) w w'

  pub wait_for-ReadyAfter :
      (fuel : ℕ) {bus_read : Reader World} {mask base offset n : ℕ} {w w' : World}
      → ReadyAfter bus_read mask base offset n w w'
      → n < fuel
      → wait_for fuel mask bus_read base offset w ≡ some (done w')
  unfolding wait_for
  wait_for-ReadyAfter zero r lt = absurd (omega arith)
  wait_for-ReadyAfter (suc fuel) {mask = mask} (now {buf = buf} e ready) lt =
      let on : (bit_and buf mask == 0) ≡ false = ground arith in rw (wait_for, e, on) refl
  wait_for-ReadyAfter (suc fuel) {mask = mask} (later {buf = buf} e off r) lt =
      let again : (bit_and buf mask == 0) ≡ true = ground arith in
      rw (wait_for, e, again) (wait_for-ReadyAfter fuel r (omega arith))

  module _ (bus_read : Reader World) (bus_write : Writer World) (base n fuel c : ℕ) (w w' : World)
      (enough : n < fuel) where
    -- If the device reports an empty transmitter at the status read `n + 1` times and not before,
    -- `__uart_ns16550_putchar` reads the status so often, then writes the character to the
    -- transmit register, and returns 0.
    pub uart_putchar_lem :
        ReadyAfter bus_read 32 base 5 n w w'
        → uart_putchar fuel (some bus_read) (some bus_write) base c w
          ≡ some (bus_write base 0 c w' >>= λ w''. done (true, w''))
    unfolding uart_putchar
    uart_putchar_lem r = rw (uart_putchar, wait_for-ReadyAfter fuel r enough) refl

    pub uart_getchar_lem :
        ReadyAfter bus_read 1 base 5 n w w'
        → uart_getchar fuel (some bus_read) base w
          ≡ some (bus_read base 0 w' >>= λ (buf, w''). done (buf % 2 ^ 8, w''))
    unfolding uart_getchar
    uart_getchar_lem r = rw (uart_getchar, wait_for-ReadyAfter fuel r enough) refl

    pub rpi2_putchar_lem :
        ReadyAfter bus_read 32 base 2183252 n w w'
        → rpi2_putchar fuel (some bus_read) (some bus_write) base c w
          ≡ some (bus_write base 2183232 c w')
    unfolding rpi2_putchar
    rpi2_putchar_lem r = rw (rpi2_putchar, wait_for-ReadyAfter fuel r enough) refl
