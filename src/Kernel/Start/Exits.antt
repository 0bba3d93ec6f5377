-- ===== src/Kernel/Start/Exits.antt =====
-- When the kernel is left alone with the machine.
use uefi_game.Prelude.{ℕ, ◌≤◌, ◌≡◌}
use uefi_game.Kernel.Start.{MemoryMap, empty_map, ExitServices, Left}

-- The memory map as the firmware documents it: it has a size and a key. Every call gives the size, and
-- a call with room for the map gives its key; with this `ExitBootServices` succeeds.
pub record AreKeyed {S : Type 0} (services : ExitServices S) (success : ℕ) : Type 0 where
  pub size_of : S → ℕ
  pub key_of : S → ℕ
  pub sized : (s : S) (m : MemoryMap) → (services.get_memory_map s m).1.map_size ≡ size_of s
  pub mapped :
      (s : S) (m : MemoryMap)
      → size_of s ≤ m.map_size
      → (services.get_memory_map s m).1.map_key ≡ key_of s
  pub exits : (s : S) → services.exit_boot_services s (key_of s) ≡ success

module _ {S : Type 0} (services : ExitServices S) (success : ℕ)
    (keyed : AreKeyed services success) where
  -- The state after the buffer for the map is allocated.
  abbrev pub allocated : S → S
  allocated s = (services.allocate_pool s (services.get_memory_map s empty_map).1.map_size).0

  -- The boot services are left with the map of the state after the allocation.
  pub record IsLeft (s : S) (l : Left) : Type 0 where
    pub status : l.status ≡ success
    pub key : l.memory_map.map_key ≡ keyed.key_of (allocated s)
    pub size : l.memory_map.map_size ≡ keyed.size_of (allocated s)
