-- ===== src/Mailbox.antt =====
-- kern/arch/armv7a/mach-rpi2/mailbox.c: messages to and from the video core of the Raspberry Pi 2,
-- on the access functions of the memory bus. `none` stands for a NULL access function, and `false`
-- for the result -1. A loop that waits for the device runs on fuel; `none` says that it is still
-- waiting when the fuel is used up.
pub mod Messages
mod Examples
use Prim.Native.Nat.{bit_and, bit_or}
use fdu_os.Common.{
  ℕ, zero, suc, ◌+◌, ◌%◌, ◌^◌, Bool, true, false, Option, none, some, leb, ◌==◌, if◌then◌else◌,
}
use fdu_os.Common.Outcome.{Outcome, done, panic, undefined, ◌>>=◌, ◌>>◌, assert}
use fdu_os.Bus.{Reader, Writer}

module _ {World : Type 0} where
  -- `do { bus_read32(bus, inst->base, MAIL0_STATUS, &s) } while (s & mask);`
  unfoldable pub wait_clear : ℕ → ℕ → Reader World → ℕ → World → Option (Outcome World)
  wait_clear zero mask bus_read base w = none
  wait_clear (suc fuel) mask bus_read base w = elim (bus_read base 24 w) [
    | done (s, w') ↦
        let again = wait_clear fuel mask bus_read base w' in
        if bit_and s mask == 0 then some (done w') else again
    | panic ↦ some panic
    | undefined ↦ some undefined
  ]

  -- `write_mailbox`
  unfoldable pub write_mailbox :
      ℕ
      → Option (Reader World)
      → Option (Writer World)
      → ℕ
      → ℕ
      → ℕ
      → World
      → Option (Outcome (Bool × World))
  unfolding wait_clear
  write_mailbox fuel reader writer base channel message w =
      elim (assert (bit_and message 15 == 0) >> assert (bit_and channel 15 == channel)) [
        | panic ↦ some panic
        | undefined ↦ some undefined
        | done _ ↦ elim writer [
          | none ↦ some (done (false, w))
          | some bus_write32 ↦ elim reader [
            | none ↦ some (done (false, w))
            | some bus_read32 ↦ elim (wait_clear fuel (2 ^ 31) bus_read32 base w) [
              | none ↦ none
              | some ready ↦ some (
                  ready >>= λ w'.
                  bus_write32 base 32 (bit_or channel message) w' >>= λ w''. done (true, w''))
            ]
          ]
        ]
      ]

  -- `read_mailbox`, with the word that is read
  unfoldable pub read_mailbox :
      ℕ
      → Option (Reader World)
      → Option (Writer World)
      → ℕ
      → ℕ
      → World
      → Option (Outcome (Bool × ℕ × World))
  unfolding wait_clear
  read_mailbox fuel reader writer base channel w = elim (assert (bit_and channel 15 == channel)) [
    | panic ↦ some panic
    | undefined ↦ some undefined
    | done _ ↦ elim writer [
      | none ↦ some (done (false, 0, w))
      | some bus_write32 ↦ elim reader [
        | none ↦ some (done (false, 0, w))
        | some bus_read32 ↦ elim (wait_clear fuel (2 ^ 30) bus_read32 base w) [
          | none ↦ none
          | some ready ↦
              some
                (ready >>= λ w'. bus_read32 base 0 w' >>= λ (d, w''). done (true, d % 2 ^ 32, w''))
        ]
      ]
    ]
  ]
