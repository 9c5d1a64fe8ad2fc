-- ===== src/Mailbox/Messages.antt =====
-- A message is written once the mailbox has room, and read once there is one.
use Prim.Native.Nat.{bit_and, bit_or}
use fdu_os.Common.{ℕ, zero, suc, ◌%◌, ◌^◌, ◌<◌, ◌≡◌, ◌≢◌, refl, true, false, some, ◌==◌, arith}
use fdu_os.Common.Outcome.{done, ◌>>=◌}
use fdu_os.Bus.{Reader, Writer}
use fdu_os.Mailbox.{wait_clear, write_mailbox, read_mailbox}

module _ {World : Type 0} where
  -- The status read `n + 1` times is the first without a bit of the mask; the reads lead to `w'`.
  pub data ClearAfter (bus_read : Reader World) (mask base : ℕ) : ℕ → World → World → Type 0 where
    now :
        {w w' : World} {s : ℕ}
        → bus_read base 24 w ≡ done (s, w')
        → bit_and s mask ≡ 0
        → ClearAfter bus_read mask base 0 w w'
    later :
        {n : ℕ} {w w1 w' : World} {s : ℕ}
        → bus_read base 24 w ≡ done (s, w1)
        → bit_and s mask ≢ 0
        → ClearAfter bus_read mask base n w1 w'
        → ClearAfter bus_read mask base (suc n) w w'

  wait_clear-ClearAfter :
      (fuel : ℕ) {bus_read : Reader World} {mask base n : ℕ} {w w' : World}
      → ClearAfter bus_read mask base n w w'
      → n < fuel
      → wait_clear fuel mask bus_read base w ≡ some (done w')
  unfolding wait_clear
  wait_clear-ClearAfter zero r lt = absurd (omega arith)
  wait_clear-ClearAfter (suc fuel) {mask = mask} (now {s = s} e clear) lt =
      let off : (bit_and s mask == 0) ≡ true = ground arith in rw (wait_clear, e, off) refl
  wait_clear-ClearAfter (suc fuel) {mask = mask} (later {s = s} e busy r) lt =
      let on : (bit_and s mask == 0) ≡ false = ground arith in
      rw (wait_clear, e, on) (wait_clear-ClearAfter fuel r (omega arith))

  module _ (bus_read : Reader World) (bus_write : Writer World) (base n fuel channel : ℕ)
      (w w' : World) (enough : n < fuel) (a_channel : bit_and channel 15 ≡ channel) where
    is_channel : (bit_and channel 15 == channel) ≡ true
    is_channel = ground arith

    -- For a channel of four bits and a message with its last four bits clear: if the device
    -- reports room at the status read `n + 1` times and not before, `write_mailbox` reads the
    -- status so often, then writes the message with the channel, and succeeds.
    pub write_mailbox_lem :
        (data_word : ℕ)
        → bit_and data_word 15 ≡ 0
        → ClearAfter bus_read (2 ^ 31) base n w w'
        → write_mailbox fuel (some bus_read) (some bus_write) base channel data_word w
          ≡ some (bus_write base 32 (bit_or channel data_word) w' >>= λ w''. done (true, w''))
    unfolding write_mailbox
    write_mailbox_lem data_word low r =
        let is_data : (bit_and data_word 15 == 0) ≡ true = ground arith in
        rw (write_mailbox, is_data, is_channel, wait_clear-ClearAfter fuel r enough) refl

    pub read_mailbox_lem :
        ClearAfter bus_read (2 ^ 30) base n w w'
        → read_mailbox fuel (some bus_read) (some bus_write) base channel w
          ≡ some (bus_read base 0 w' >>= λ (d, w''). done (true, d % 2 ^ 32, w''))
    unfolding read_mailbox
    read_mailbox_lem r = rw (read_mailbox, is_channel, wait_clear-ClearAfter fuel r enough) refl
