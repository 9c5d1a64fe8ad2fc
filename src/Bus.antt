-- ===== src/Bus.antt =====
-- drivers/io/io-mem.c and drivers/io/io-port.c: buses, through which drivers reach the registers of
-- their devices. What the processor reaches at an address or a port is hardware: a record of the
-- four accesses on a state of the outside world. A bus is memory, the ports of the processor, or
-- ports that are connected to another bus at a base; `none` is the NULL for a width without an
-- access function, and a call of it is `undefined`. `port_root` is the build's `IO_PORT_ROOT`.
pub mod Addresses
mod Examples
use fdu_os.Common.{ℕ, ◌+◌, ◌%◌, ◌^◌, Bool, true, false, Option, none, some, ◌==◌, if◌then◌else◌}
use fdu_os.Common.Words.{word, add64}
use fdu_os.Common.Outcome.{Outcome, done, panic, undefined, ◌>>=◌}

-- The accesses of the processor, by width and address: `read8` and its kin, `in8` and its kin.
pub record Hardware (World : Type 0) : Type 0 where
  pub read : ℕ → ℕ → World → ℕ × World
  pub write : ℕ → ℕ → ℕ → World → World
  pub in_port : ℕ → ℕ → World → ℕ × World
  pub out_port : ℕ → ℕ → ℕ → World → World

-- `struct bus_device`: the memory bus, the root port bus, or a port bus with its `base` and `bus`
pub data Bus : Type 0 where
  memory_bus : Bus
  root_port_bus : Bus
  port_bus : ℕ → Bus → Bus

-- `bus_read_fp` and `bus_write_fp` for a given bus: from a base, an offset (and a value)
abbrev pub Reader : Type 0 → Type 0
Reader World = ℕ → ℕ → World → Outcome (ℕ × World)

abbrev pub Writer : Type 0 → Type 0
Writer World = ℕ → ℕ → ℕ → World → Outcome World

-- The bus that a port bus is connected to: its base there, and the function for a width.
abbrev pub Parent : Type 0 → Type 0
Parent F = Option (ℕ × Option F)

module _ {World : Type 0} (hw : Hardware World) where
  -- io-mem.c
  unfoldable pub io_mem_read8 : Reader World
  io_mem_read8 base offset w = done (hw.read 8 (word (add64 base offset)) w)

  unfoldable pub io_mem_read16 : Reader World
  io_mem_read16 base offset w = done (hw.read 16 (word (add64 base offset)) w)

  unfoldable pub io_mem_read32 : Reader World
  io_mem_read32 base offset w = done (hw.read 32 (word (add64 base offset)) w)

  unfoldable pub io_mem_write8 : Writer World
  io_mem_write8 base offset val w = done (hw.write 8 (word (add64 base offset)) (val % 2 ^ 8) w)

  unfoldable pub io_mem_write16 : Writer World
  io_mem_write16 base offset val w = done (hw.write 16 (word (add64 base offset)) (val % 2 ^ 16) w)

  unfoldable pub io_mem_write32 : Writer World
  io_mem_write32 base offset val w = done (hw.write 32 (word (add64 base offset)) (val % 2 ^ 32) w)

  unfoldable pub io_mem_get_read_fp : ℕ → Option (Reader World)
  unfolding io_mem_read8 io_mem_read16 io_mem_read32
  io_mem_get_read_fp data_width =
      if data_width == 8
      then some io_mem_read8
      else if data_width == 16
      then some io_mem_read16
      else if data_width == 32
      then some io_mem_read32
      else none

  unfoldable pub io_mem_get_write_fp : ℕ → Option (Writer World)
  unfolding io_mem_write8 io_mem_write16 io_mem_write32
  io_mem_get_write_fp data_width =
      if data_width == 8
      then some io_mem_write8
      else if data_width == 16
      then some io_mem_write16
      else if data_width == 32
      then some io_mem_write32
      else none

  module _ (port_root : Bool) where
    -- io-port.c; the function of the parent is looked up for the same width
    unfoldable pub io_port_read8 : Parent (Reader World) → Reader World
    io_port_read8 (some (at, some bus_read8)) base offset w = bus_read8 at (add64 base offset) w
    io_port_read8 (some (at, none)) base offset w = undefined
    io_port_read8 none base offset w =
        if port_root then done (hw.in_port 8 (add64 base offset % 2 ^ 16) w) else panic

    unfoldable pub io_port_write8 : Parent (Writer World) → Writer World
    io_port_write8 (some (at, some bus_write8)) base offset val w =
        bus_write8 at (add64 base offset) val w
    io_port_write8 (some (at, none)) base offset val w = undefined
    io_port_write8 none base offset val w =
        if port_root
        then done (hw.out_port 8 (add64 base offset % 2 ^ 16) (val % 2 ^ 8) w)
        else panic

    unfoldable pub io_port_read16 : Parent (Reader World) → Reader World
    io_port_read16 (some (at, some bus_read16)) base offset w = bus_read16 at (add64 base offset) w
    io_port_read16 (some (at, none)) base offset w = undefined
    io_port_read16 none base offset w =
        if port_root then done (hw.in_port 16 (add64 base offset % 2 ^ 16) w) else panic

    unfoldable pub io_port_write16 : Parent (Writer World) → Writer World
    io_port_write16 (some (at, some bus_write16)) base offset val w =
        bus_write16 at (add64 base offset) val w
    io_port_write16 (some (at, none)) base offset val w = undefined
    io_port_write16 none base offset val w =
        if port_root
        then done (hw.out_port 16 (add64 base offset % 2 ^ 16) (val % 2 ^ 16) w)
        else panic

    unfoldable pub io_port_read32 : Parent (Reader World) → Reader World
    io_port_read32 (some (at, some bus_read32)) base offset w = bus_read32 at (add64 base offset) w
    io_port_read32 (some (at, none)) base offset w = undefined
    io_port_read32 none base offset w =
        if port_root then done (hw.in_port 32 (add64 base offset % 2 ^ 16) w) else panic

    unfoldable pub io_port_write32 : Parent (Writer World) → Writer World
    io_port_write32 (some (at, some bus_write32)) base offset val w =
        bus_write32 at (add64 base offset) val w
    io_port_write32 (some (at, none)) base offset val w = undefined
    io_port_write32 none base offset val w =
        if port_root
        then done (hw.out_port 32 (add64 base offset % 2 ^ 16) (val % 2 ^ 32) w)
        else panic

    -- `__get_read_fp` of io-port.c, given what `bus->get_read_fp` returns for each width
    unfoldable pub io_port_get_read_fp :
        Option (ℕ × (ℕ → Option (Reader World))) → ℕ → Option (Reader World)
    unfolding io_port_read8 io_port_read16 io_port_read32
    io_port_get_read_fp parent data_width =
        let bus : ℕ → Parent (Reader World) =
          λ width. elim parent [ none ↦ none | some (at, fp) ↦ some (at, fp width) ] in
        if data_width == 8
        then some (io_port_read8 (bus 8))
        else if data_width == 16
        then some (io_port_read16 (bus 16))
        else if data_width == 32
        then some (io_port_read32 (bus 32))
        else none

    unfoldable pub io_port_get_write_fp :
        Option (ℕ × (ℕ → Option (Writer World))) → ℕ → Option (Writer World)
    unfolding io_port_write8 io_port_write16 io_port_write32
    io_port_get_write_fp parent data_width =
        let bus : ℕ → Parent (Writer World) =
          λ width. elim parent [ none ↦ none | some (at, fp) ↦ some (at, fp width) ] in
        if data_width == 8
        then some (io_port_write8 (bus 8))
        else if data_width == 16
        then some (io_port_write16 (bus 16))
        else if data_width == 32
        then some (io_port_write32 (bus 32))
        else none

    -- `bus->bus_driver.get_read_fp(bus, data_width)`
    unfoldable pub get_read_fp : Bus → ℕ → Option (Reader World)
    unfolding io_mem_get_read_fp io_port_get_read_fp
    get_read_fp memory_bus data_width = io_mem_get_read_fp data_width
    get_read_fp root_port_bus data_width = io_port_get_read_fp none data_width
    get_read_fp (port_bus at bus) data_width =
        io_port_get_read_fp (some (at, get_read_fp bus)) data_width

    unfoldable pub get_write_fp : Bus → ℕ → Option (Writer World)
    unfolding io_mem_get_write_fp io_port_get_write_fp
    get_write_fp memory_bus data_width = io_mem_get_write_fp data_width
    get_write_fp root_port_bus data_width = io_port_get_write_fp none data_width
    get_write_fp (port_bus at bus) data_width =
        io_port_get_write_fp (some (at, get_write_fp bus)) data_width

-- `portio_bus_connect`
unfoldable pub portio_bus_connect : Bus → ℕ → Bus
portio_bus_connect bus base = port_bus base bus
