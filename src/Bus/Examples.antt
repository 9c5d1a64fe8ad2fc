-- ===== src/Bus/Examples.antt =====
-- The theorem on buses at ports that are connected to memory.
use fdu_os.Common.{ℕ, refl, true, inl, ◌==◌, if◌then◌else◌}
use fdu_os.Bus.{Hardware, memory_bus, port_bus}
use fdu_os.Bus.Addresses.{Reads, Writes, bus_access_lem}

-- Memory whose reads have no effect, and no ports.
abbrev plain : Hardware (ℕ → ℕ)
plain = record {
  read = λ width address w. (w address, w);
  write = λ width address val w a. if a == address then val else w a;
  in_port = λ width port w. (0, w);
  out_port = λ width port val w. w;
}

bus_access_lem_example :
    Reads plain true (port_bus 4096 memory_bus) 8 × Writes plain true (port_bus 4096 memory_bus) 8
bus_access_lem_example = bus_access_lem plain true (port_bus 4096 memory_bus) 8 (inl refl)
