-- ===== src/Boot/MemoryMap.antt =====
-- src/boot/memory_map.cpp: the kernel's memory map, and the frame blocks that the frame allocator
-- starts with. The descriptors are those that UEFI returned, in its order. The pages that
-- `allocate_pages` gives are zeroed. `none` is `error::raise`.
pub mod Entries
pub mod Blocks
mod Tests
use jsix.Prelude.{
  ℕ, zero, suc, ◌+◌, ◌-◌, ◌*◌, ◌/◌, ◌%◌, ◌==◌, ◌++◌, Bool, true, false, ◌&&◌, Option, none, some,
  List, [], ◌∷◌, ltb, if◌then◌else◌, u64_mod, u32_mod,
}
use jsix.Prelude.Bits.{Word}
use jsix.Kernel.FrameAllocator.{FrameBlock, low_ones, put_word, frames_per_block, frame_size}

-- `uefi::memory_type`, with `other` for any value that it does not name
pub data EfiType : Type 0 where
  reserved loader_code loader_data boot_services_code boot_services_data : EfiType
  runtime_services_code runtime_services_data conventional_memory unusable_memory : EfiType
  acpi_reclaim_memory acpi_memory_nvs memory_mapped_io memory_mapped_io_port_space : EfiType
  pal_code persistent_memory other : EfiType

-- `mem_type`, numbered as in the source
abbrev pub type_free : ℕ
type_free = 0

abbrev pub type_acpi : ℕ
type_acpi = 2

abbrev pub type_uefi_runtime : ℕ
type_uefi_runtime = 3

abbrev pub type_mmio : ℕ
type_mmio = 4

abbrev pub type_persistent : ℕ
type_persistent = 5

-- The fields of `uefi::memory_descriptor` that the loader reads.
pub record Descriptor : Type 0 where
  pub type : EfiType
  pub physical_start : ℕ
  pub number_of_pages : ℕ
  pub attribute : ℕ

pub record MemEntry : Type 0 where
  pub start : ℕ
  pub pages : ℕ
  pub type : ℕ
  pub attr : ℕ

-- What the `switch` does with a descriptor: `continue`, raise an error, or go on with a type.
pub data Choice : Type 0 where
  skips raises : Choice
  keeps : ℕ → Choice

abbrev pub choose : EfiType → Choice
choose reserved = skips
choose unusable_memory = skips
choose acpi_memory_nvs = skips
choose pal_code = skips
choose loader_code = keeps type_free
choose boot_services_code = keeps type_free
choose boot_services_data = keeps type_free
choose conventional_memory = keeps type_free
choose loader_data = keeps type_free
choose runtime_services_code = keeps type_uefi_runtime
choose runtime_services_data = keeps type_uefi_runtime
choose acpi_reclaim_memory = keeps type_acpi
choose memory_mapped_io = keeps type_mmio
choose memory_mapped_io_port_space = keeps type_mmio
choose persistent_memory = keeps type_persistent
choose other = raises

abbrev pub can_merge : MemEntry → ℕ → Descriptor → Bool
can_merge prev type next =
    prev.type == type
    && ((prev.start + frame_size * prev.pages) % u64_mod == next.physical_start
        && prev.attr == next.attribute % u32_mod)

abbrev pub new_entry : ℕ → Descriptor → MemEntry
new_entry type d = record {
  start = d.physical_start;
  pages = d.number_of_pages;
  type = type;
  attr = d.attribute % u32_mod;
}

-- The map so far is listed from its last entry back.
abbrev pub add_entry : List MemEntry → ℕ → Descriptor → List MemEntry
add_entry [] type d = new_entry type d ∷ []
add_entry (prev ∷ map) type d =
    if can_merge prev type d
    then record prev { pages = (prev.pages + d.number_of_pages) % u64_mod } ∷ map
    else new_entry type d ∷ prev ∷ map

abbrev pub add_chosen : List MemEntry → Descriptor → Choice → Option (List MemEntry)
add_chosen map d skips = some map
add_chosen map d raises = none
add_chosen map d (keeps type) = some (add_entry map type d)

-- The loop of `build_kernel_map`, over the descriptors left.
abbrev pub and_then :
    (List MemEntry → Option (List MemEntry)) → Option (List MemEntry) → Option (List MemEntry)
and_then rest none = none
and_then rest (some map) = rest map

pub build_kernel_map : List MemEntry → List Descriptor → Option (List MemEntry)
build_kernel_map map [] = some map
build_kernel_map map (d ∷ left) =
    and_then (λ m. build_kernel_map m left) (add_chosen map d (choose d.type))

-- `memset(words, size, 0xff)` on zeroed words: byte `k` is in word `k / 8`.
abbrev pub set_bytes : ℕ → ℕ → Word
set_bytes size w i = ltb (w * 8 + i / 8) size

abbrev pub zeroed : ℕ → Word
zeroed w i = false

-- `map1` and `map2` of a block of fewer frames than a whole one. `(1ull << b1) - 1` is undefined when
-- `b1` is 64, and is `wide` there.
pub partial_map1 : Word → ℕ → Word
partial_map1 wide page_count = low_ones wide ((page_count + 4095) / 4096)

pub partial_map2 : Word → ℕ → ℕ → Word
partial_map2 wide page_count =
    let b2 = (page_count + 63) / 64 in
    put_word (set_bytes (b2 / 64)) (b2 / 64) (low_ones wide (b2 % 64))

-- The second loop of `build_frame_blocks`, for one block.
pub build_bitmap : Word → ℕ → ℕ → Word
build_bitmap wide count =
    put_word (set_bytes (count / 64 * 8)) (count / 64) (low_ones wide (count % 64))

pub partial_block : Word → ℕ → ℕ → FrameBlock
unfolding partial_map1 partial_map2 build_bitmap
partial_block wide base page_count = record {
  base = base;
  count = page_count;
  map1 = partial_map1 wide page_count;
  map2 = partial_map2 wide page_count;
  bitmap = build_bitmap wide page_count;
}

pub full_block : Word → ℕ → FrameBlock
unfolding build_bitmap
full_block wide base = record {
  base = base;
  count = frames_per_block;
  map1 = λ i. true;
  map2 = set_bytes 512;
  bitmap = build_bitmap wide frames_per_block;
}

-- The block that the loops of `build_frame_blocks` make for `page_count` frames from `base` on.
pub build_block : Word → ℕ → ℕ → FrameBlock
unfolding partial_block full_block
build_block wide base page_count =
    if ltb page_count frames_per_block
    then partial_block wide base page_count
    else full_block wide base

-- `while (page_count)`, on fuel: each block but the last takes `frames_per_block` pages.
pub entry_blocks : Word → ℕ → ℕ → ℕ → List FrameBlock
unfolding build_block
entry_blocks wide zero base page_count = []
entry_blocks wide (suc fuel) base page_count =
    let next = (base + frames_per_block * frame_size) % u64_mod in
    let rest = entry_blocks wide fuel next (page_count - frames_per_block) in
    if page_count == 0
    then []
    else (if ltb page_count frames_per_block
        then build_block wide base page_count ∷ []
        else build_block wide base page_count ∷ rest)

abbrev pub num_blocks : ℕ → ℕ
num_blocks frames = (frames + (frames_per_block - 1)) / frames_per_block

-- `build_frame_blocks`
pub build_frame_blocks : Word → List MemEntry → List FrameBlock
unfolding entry_blocks
build_frame_blocks wide [] = []
build_frame_blocks wide (e ∷ map) =
    let rest = build_frame_blocks wide map in
    if e.type == type_free
    then entry_blocks wide (num_blocks e.pages) e.start e.pages ++ rest
    else rest
