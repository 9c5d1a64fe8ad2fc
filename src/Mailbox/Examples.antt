-- ===== src/Mailbox/Examples.antt =====
-- A mailbox that is full for as many reads as its state says, and then counts what is sent.
use fdu_os.Common.{ℕ, suc, zero, ◌+◌, ◌^◌, ◌≡◌, refl, true, some, arith}
use fdu_os.Common.Outcome.{done, ◌>>=◌}
use fdu_os.Bus.{Reader, Writer}
use fdu_os.Mailbox.{write_mailbox}
use fdu_os.Mailbox.Messages.{ClearAfter, now, later, write_mailbox_lem}

abbrev drain : Reader ℕ
drain base offset zero = done (0, zero)
drain base offset (suc n) = done (2 ^ 31, n)

abbrev count : Writer ℕ
count base offset val w = done (w + val)

two_reads : ClearAfter drain (2 ^ 31) 0 2 2 0
two_reads =
    later refl (λ e. absurd (omega (arith, e)))
      (later refl (λ e. absurd (omega (arith, e))) (now refl refl))

write_mailbox_lem_example :
    write_mailbox 3 (some drain) (some count) 0 8 4096 2
    ≡ some (count 0 32 4104 0 >>= λ w''. done (true, w''))
write_mailbox_lem_example =
    write_mailbox_lem drain count 0 2 3 8 2 0 (omega arith) refl 4096 refl two_reads
