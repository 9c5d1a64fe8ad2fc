-- ===== src/Screen/Examples.antt =====
-- A new line on the last row of a screen at 0xB8000.
use fdu_os.Common.{◌≡◌, refl, arith}
use fdu_os.Screen.{Ports, Crt, cga_putc}
use fdu_os.Screen.Cursor.{Shows, shown, type_char, scroll, cga_putc-Shows}

abbrev no_ports : Ports Unit
no_ports = record { inb = λ port w. (255, w); outb = λ port v w. w }

abbrev last_row : Crt
last_row = record { addr_6845 = 980; crt_buf = 753664; crt_pos = 1930; memory = λ a. a }

cga_putc-Shows_example :
    Shows last_row
      (cga_putc no_ports 10 (last_row, tt)).0
      (scroll (type_char 10 (shown last_row)))
      2000
cga_putc-Shows_example = cga_putc-Shows no_ports 10 last_row tt (omega arith) (omega arith)

scrolled : ((cga_putc no_ports 10 (last_row, tt)).0).crt_pos ≡ 1920
unfolding cga_putc
scrolled = refl
