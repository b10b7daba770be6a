-- ===== src/Boot/MemoryMap/Tests.antt =====
-- A map of three descriptors, and blocks of several sizes.
use jsix.Prelude.{◌+◌, ◌≡◌, refl, false, none, some, List, [], ◌∷◌, if◌then◌else◌, arith}
use jsix.Prelude.Bits.{Word}
use jsix.Boot.MemoryMap.{
  conventional_memory, loader_data, memory_mapped_io, Descriptor, build_kernel_map, build_block,
  type_free,
}
use jsix.Boot.MemoryMap.Entries.{all_known, count_of, descriptors_at, build_kernel_map-covers}
use jsix.Boot.MemoryMap.Blocks.{IsLost, build_block_loses_groups}

-- two ranges of free memory that meet, and one of devices
abbrev three : List Descriptor
three =
    record { type = conventional_memory; physical_start = 0; number_of_pages = 2; attribute = 15 }
    ∷ record { type = loader_data; physical_start = 8192; number_of_pages = 1; attribute = 15 }
    ∷ record { type = memory_mapped_io; physical_start = 65536; number_of_pages = 1; attribute = 1 }
    ∷ []

merges :
    build_kernel_map [] three
    ≡ some (
        record { start = 65536; pages = 1; type = 4; attr = 1 }
        ∷ record { start = 0; pages = 3; type = 0; attr = 15 }
        ∷ [])
unfolding build_kernel_map
merges = refl

build_kernel_map-covers_example :
    count_of type_free 15 8200 (build_kernel_map [] three)
    ≡ (if all_known three then some (0 + descriptors_at type_free 15 8200 three) else none)
build_kernel_map-covers_example =
    build_kernel_map-covers type_free 15 8200 [] three tt
      (omega arith, (omega arith, (omega arith, tt)))

abbrev no_bits : Word
no_bits i = false

-- 16384 frames fill four words of `map2`, and only the first gets bits
build_block_loses_groups_example : IsLost 2 (build_block no_bits 0 16384)
build_block_loses_groups_example =
    build_block_loses_groups no_bits 0 16384 2 (omega arith) (omega arith) (omega arith)
