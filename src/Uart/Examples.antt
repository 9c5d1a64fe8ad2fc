-- ===== src/Uart/Examples.antt =====
-- The theorems on the serial ports at a device with a file of registers.
use fdu_os.Common.{ℕ, suc, zero, ◌≡◌, refl, true, ◌&&◌, some, leb, ◌==◌, if◌then◌else◌, arith}
use fdu_os.Common.Outcome.{done, ◌>>=◌}
use fdu_os.Bus.{Reader, Writer}
use fdu_os.Uart.{uart_putchar}
use fdu_os.Uart.Waiting.{ReadyAfter, now, later, uart_putchar_lem}
use fdu_os.Uart.Setup.{Ns16550}

record Registers : Type 0 where
  lcr : ℕ
  fcr : ℕ
  dll : ℕ
  dlm : ℕ

abbrev set_register : ℕ → ℕ → Registers → Registers
set_register offset val r = record {
  lcr = if offset == 3 then val else r.lcr;
  fcr = if offset == 2 then val else r.fcr;
  dll = if (offset == 0) && leb 128 r.lcr then val else r.dll;
  dlm = if (offset == 1) && leb 128 r.lcr then val else r.dlm;
}

abbrev write_register : Writer Registers
write_register base offset val r = done (set_register offset val r)

device : Ns16550 write_register 0
device = record {
  line_control = λ r. r.lcr;
  fifo_control = λ r. r.fcr;
  divisor_lsb = λ r. r.dll;
  divisor_msb = λ r. r.dlm;
  after = set_register;
  accepts = λ o v r. refl;
  line_set = λ v r h. refl;
  line_kept = λ o v r ne. ground arith;
  fifo_set = λ v r h. refl;
  fifo_kept = λ o v r ne. ground arith;
  lsb_set = λ v r h open_latch. ground arith;
  lsb_kept = λ o v r ne. ground arith;
  msb_set = λ v r h open_latch. ground arith;
  msb_kept = λ o v r ne. ground arith;
}

abbrev unset : Registers
unset = record { lcr = 0; fcr = 0; dll = 0; dlm = 0 }

-- A device that is busy for as many reads as its state says, and then counts what is sent.
abbrev count_down : Reader ℕ
count_down base offset zero = done (32, zero)
count_down base offset (suc n) = done (0, n)

abbrev send : Writer ℕ
send base offset val n = done (val)

busy_twice : ReadyAfter count_down 32 0 5 2 2 0
busy_twice = later refl refl (later refl refl (now {buf = 32} refl (omega arith)))

uart_putchar_lem_example :
    uart_putchar 10 (some count_down) (some send) 0 65 2
    ≡ some (send 0 0 65 0 >>= λ w. done (true, w))
uart_putchar_lem_example = uart_putchar_lem count_down send 0 2 10 65 2 0 (omega arith) busy_twice
