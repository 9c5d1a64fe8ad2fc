-- ===== src/Bus/Addresses.antt =====
-- Where an access through a bus ends.
use fdu_os.Common.{ℕ, ◌%◌, ◌^◌, ◌≡◌, ◌⊎◌, refl, Bool, true, false, some, if◌then◌else◌, inl, inr}
use fdu_os.Common.Words.{word, add64}
use fdu_os.Common.Outcome.{Outcome, done, panic}
use fdu_os.Bus.{
  Hardware, Bus, memory_bus, root_port_bus, port_bus, Reader, Writer, get_read_fp, get_write_fp,
}

-- The widths that buses have access functions for.
abbrev pub IsWidth : ℕ → Type 0
IsWidth width = (width ≡ 8) ⊎ ((width ≡ 16) ⊎ (width ≡ 32))

-- The address or port that a base and an offset on a bus stand for.
abbrev pub reached : Bus → ℕ → ℕ → ℕ
reached memory_bus base offset = word (add64 base offset)
reached root_port_bus base offset = add64 base offset % 2 ^ 16
reached (port_bus at bus) base offset = reached bus at (add64 base offset)

-- The bus at the end of the connections is memory, or it is the ports.
abbrev pub ends_in_memory : Bus → Bool
ends_in_memory memory_bus = true
ends_in_memory root_port_bus = false
ends_in_memory (port_bus at bus) = ends_in_memory bus

module _ {World : Type 0} (hw : Hardware World) (port_root : Bool) where
  -- One access of the processor at that address or port.
  abbrev pub reads : Bus → ℕ → ℕ → ℕ → World → Outcome (ℕ × World)
  reads bus width base offset w =
      if ends_in_memory bus
      then done (hw.read width (reached bus base offset) w)
      else if port_root
      then done (hw.in_port width (reached bus base offset) w)
      else panic

  abbrev pub writes : Bus → ℕ → ℕ → ℕ → ℕ → World → Outcome World
  writes bus width base offset val w =
      if ends_in_memory bus
      then done (hw.write width (reached bus base offset) (val % 2 ^ width) w)
      else if port_root
      then done (hw.out_port width (reached bus base offset) (val % 2 ^ width) w)
      else panic

  abbrev pub Reads : Bus → ℕ → Type 0
  Reads bus width =
      (f : Reader World) × (get_read_fp hw port_root bus width ≡ some f)
      × ((base offset : ℕ) (w : World) → f base offset w ≡ reads bus width base offset w)

  abbrev pub Writes : Bus → ℕ → Type 0
  Writes bus width =
      (f : Writer World) × (get_write_fp hw port_root bus width ≡ some f)
      × ((base offset val : ℕ) (w : World)
          → f base offset val w ≡ writes bus width base offset val w)

  read_through : (bus : Bus) (width : ℕ) → IsWidth width → Reads bus width
  unfolding get_read_fp
  read_through memory_bus width (inl e) = rw e (_, refl, λ b o w. refl)
  read_through memory_bus width (inr (inl e)) = rw e (_, refl, λ b o w. refl)
  read_through memory_bus width (inr (inr e)) = rw e (_, refl, λ b o w. refl)
  read_through root_port_bus width (inl e) = rw e (_, refl, λ b o w. refl)
  read_through root_port_bus width (inr (inl e)) = rw e (_, refl, λ b o w. refl)
  read_through root_port_bus width (inr (inr e)) = rw e (_, refl, λ b o w. refl)
  read_through (port_bus at bus) width (inl e) =
      let (f, found, spec) = read_through bus 8 (inl refl) in
      rw (e, found) (_, refl, λ b o w. spec at (add64 b o) w)
  read_through (port_bus at bus) width (inr (inl e)) =
      let (f, found, spec) = read_through bus 16 (inr (inl refl)) in
      rw (e, found) (_, refl, λ b o w. spec at (add64 b o) w)
  read_through (port_bus at bus) width (inr (inr e)) =
      let (f, found, spec) = read_through bus 32 (inr (inr refl)) in
      rw (e, found) (_, refl, λ b o w. spec at (add64 b o) w)

  write_through : (bus : Bus) (width : ℕ) → IsWidth width → Writes bus width
  unfolding get_write_fp
  write_through memory_bus width (inl e) = rw e (_, refl, λ b o v w. refl)
  write_through memory_bus width (inr (inl e)) = rw e (_, refl, λ b o v w. refl)
  write_through memory_bus width (inr (inr e)) = rw e (_, refl, λ b o v w. refl)
  write_through root_port_bus width (inl e) = rw e (_, refl, λ b o v w. refl)
  write_through root_port_bus width (inr (inl e)) = rw e (_, refl, λ b o v w. refl)
  write_through root_port_bus width (inr (inr e)) = rw e (_, refl, λ b o v w. refl)
  write_through (port_bus at bus) width (inl e) =
      let (f, found, spec) = write_through bus 8 (inl refl) in
      rw (e, found) (_, refl, λ b o v w. spec at (add64 b o) v w)
  write_through (port_bus at bus) width (inr (inl e)) =
      let (f, found, spec) = write_through bus 16 (inr (inl refl)) in
      rw (e, found) (_, refl, λ b o v w. spec at (add64 b o) v w)
  write_through (port_bus at bus) width (inr (inr e)) =
      let (f, found, spec) = write_through bus 32 (inr (inr refl)) in
      rw (e, found) (_, refl, λ b o v w. spec at (add64 b o) v w)

  -- Through any chain of port buses, for a width of 8, 16 or 32 bits there are access functions,
  -- and an access is one access of the processor, of that width and with the value cut to it: of
  -- memory, if the chain ends in the memory bus, at the base of the last connection plus the
  -- offset; else of a port, or a panic where the build has no ports.
  pub bus_access_lem : (bus : Bus) (width : ℕ) → IsWidth width → Reads bus width × Writes bus width
  bus_access_lem bus width h = (read_through bus width h, write_through bus width h)
