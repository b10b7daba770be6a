-- ===== src/Boot/MemoryMap/Entries.antt =====
-- build_kernel_map of src/boot/memory_map.cpp: the map covers the memory that the descriptors cover.
use jsix.Prelude.{
  one_if, ℕ, ◌+◌, ◌*◌, ◌%◌, ◌<◌, ◌==◌, ◌≡◌, ◌∙◌, refl, ap, Bool, true, false, ◌&&◌, ◌||◌, subst,
  Option, none, some, List, [], ◌∷◌, ltb, leb, if◌then◌else◌, u64_mod, u32_mod, arith,
}
use jsix.Kernel.FrameAllocator.{frame_size}
use jsix.Boot.MemoryMap.{
  EfiType, reserved, loader_code, loader_data, boot_services_code, boot_services_data,
  runtime_services_code, runtime_services_data, conventional_memory, unusable_memory,
  acpi_reclaim_memory, acpi_memory_nvs, memory_mapped_io, memory_mapped_io_port_space, pal_code,
  persistent_memory, other, MemEntry, Descriptor, Choice, skips, raises, keeps, choose, add_entry,
  add_chosen, and_then, build_kernel_map,
}

abbrev pub covers : ℕ → ℕ → ℕ → Bool
covers start pages a = leb start a && ltb a (start + frame_size * pages)

-- how many entries of a type and of attributes cover address `a`
abbrev pub entries_at : ℕ → ℕ → ℕ → List MemEntry → ℕ
entries_at type attr a [] = 0
entries_at type attr a (e ∷ map) =
    one_if (e.type == type && (e.attr == attr && covers e.start e.pages a))
    + entries_at type attr a map

-- The number that UEFI gives to a memory type, and 15 for one that it does not name.
abbrev pub uefi_number : EfiType → ℕ
uefi_number reserved = 0
uefi_number loader_code = 1
uefi_number loader_data = 2
uefi_number boot_services_code = 3
uefi_number boot_services_data = 4
uefi_number runtime_services_code = 5
uefi_number runtime_services_data = 6
uefi_number conventional_memory = 7
uefi_number unusable_memory = 8
uefi_number acpi_reclaim_memory = 9
uefi_number acpi_memory_nvs = 10
uefi_number memory_mapped_io = 11
uefi_number memory_mapped_io_port_space = 12
uefi_number pal_code = 13
uefi_number persistent_memory = 14
uefi_number other = 15

-- Is memory of a UEFI number of a kernel type? Memory that the kernel may use is code and data of the
-- loader and of the boot services, and conventional memory. Reserved and unusable memory, the memory of
-- the firmware's tables that it keeps and of its processor code are of no type.
abbrev pub becomes : ℕ → ℕ → Bool
becomes number type =
    (type == 0 && (leb 1 number && leb number 4 || number == 7))
    || ((type == 2 && number == 9)
        || ((type == 3 && (number == 5 || number == 6))
            || ((type == 4 && (number == 11 || number == 12)) || (type == 5 && number == 14))))

-- how many descriptors of memory of that type, with these attributes, cover it
abbrev pub descriptors_at : ℕ → ℕ → ℕ → List Descriptor → ℕ
descriptors_at type attr a [] = 0
descriptors_at type attr a (d ∷ left) =
    one_if (
      becomes (uefi_number d.type) type
      && (d.attribute % u32_mod == attr && covers d.physical_start d.number_of_pages a))
    + descriptors_at type attr a left

-- Does UEFI name the types of all descriptors?
abbrev pub all_known : List Descriptor → Bool
all_known [] = true
all_known (d ∷ left) = ltb (uefi_number d.type) 15 && all_known left

-- how often a descriptor stands for `a`, given what the switch makes of it
abbrev chosen_at : ℕ → ℕ → ℕ → Descriptor → Choice → ℕ
chosen_at type attr a d skips = 0
chosen_at type attr a d raises = 0
chosen_at type attr a d (keeps t) =
    one_if
      (t == type && (d.attribute % u32_mod == attr && covers d.physical_start d.number_of_pages a))

abbrev is_known : Choice → Bool
is_known skips = true
is_known raises = false
is_known (keeps t) = true

choose-known : (t : EfiType) → is_known (choose t) ≡ ltb (uefi_number t) 15
choose-known reserved = refl
choose-known loader_code = refl
choose-known loader_data = refl
choose-known boot_services_code = refl
choose-known boot_services_data = refl
choose-known runtime_services_code = refl
choose-known runtime_services_data = refl
choose-known conventional_memory = refl
choose-known unusable_memory = refl
choose-known acpi_reclaim_memory = refl
choose-known acpi_memory_nvs = refl
choose-known memory_mapped_io = refl
choose-known memory_mapped_io_port_space = refl
choose-known pal_code = refl
choose-known persistent_memory = refl
choose-known other = refl

-- does the switch give this type?
abbrev gives : Choice → ℕ → Bool
gives skips type = false
gives raises type = false
gives (keeps t) type = t == type

choose-becomes : (t : EfiType) (type : ℕ) → gives (choose t) type ≡ becomes (uefi_number t) type
choose-becomes reserved type = ground arith
choose-becomes loader_code type = ground arith
choose-becomes loader_data type = ground arith
choose-becomes boot_services_code type = ground arith
choose-becomes boot_services_data type = ground arith
choose-becomes runtime_services_code type = ground arith
choose-becomes runtime_services_data type = ground arith
choose-becomes conventional_memory type = ground arith
choose-becomes unusable_memory type = ground arith
choose-becomes acpi_reclaim_memory type = ground arith
choose-becomes acpi_memory_nvs type = ground arith
choose-becomes memory_mapped_io type = ground arith
choose-becomes memory_mapped_io_port_space type = ground arith
choose-becomes pal_code type = ground arith
choose-becomes persistent_memory type = ground arith
choose-becomes other type = ground arith

chosen_at-gives :
    (type attr a : ℕ) (d : Descriptor) (c : Choice)
    → chosen_at type attr a d c
      ≡ one_if (
          gives c type
          && (d.attribute % u32_mod == attr && covers d.physical_start d.number_of_pages a))
chosen_at-gives type attr a d skips = refl
chosen_at-gives type attr a d raises = refl
chosen_at-gives type attr a d (keeps t) = refl

chosen_at-becomes :
    (type attr a : ℕ) (d : Descriptor)
    → chosen_at type attr a d (choose d.type)
      ≡ one_if (
          becomes (uefi_number d.type) type
          && (d.attribute % u32_mod == attr && covers d.physical_start d.number_of_pages a))
chosen_at-becomes type attr a d =
    chosen_at-gives type attr a d (choose d.type)
    ∙ ap
        (λ b.
          one_if
            (b && (d.attribute % u32_mod == attr && covers d.physical_start d.number_of_pages a)))
        (choose-becomes d.type type)

-- No range wraps around the end of the address space.
abbrev pub EntriesFit : List MemEntry → Type 0
EntriesFit [] = Unit {0}
EntriesFit (e ∷ map) = (e.start + frame_size * e.pages < u64_mod) × EntriesFit map

abbrev pub DescriptorsFit : List Descriptor → Type 0
DescriptorsFit [] = Unit {0}
DescriptorsFit (d ∷ left) =
    (d.physical_start + frame_size * d.number_of_pages < u64_mod) × DescriptorsFit left

add_entry-EntriesFit :
    (map : List MemEntry) (t : ℕ) (d : Descriptor)
    → EntriesFit map
    → d.physical_start + frame_size * d.number_of_pages < u64_mod
    → EntriesFit (add_entry map t d)
add_entry-EntriesFit [] t d fits fit = ground arith
add_entry-EntriesFit (e ∷ map) t d fits fit = ground (arith, fits)

entries_at-add_entry :
    (type attr a : ℕ) (map : List MemEntry) (t : ℕ) (d : Descriptor)
    → EntriesFit map
    → d.physical_start + frame_size * d.number_of_pages < u64_mod
    → entries_at type attr a (add_entry map t d)
      ≡ entries_at type attr a map + chosen_at type attr a d (keeps t)
entries_at-add_entry type attr a [] t d fits fit = ground arith
entries_at-add_entry type attr a (e ∷ map) t d fits fit = ground (arith, fits)

abbrev pub count_of : ℕ → ℕ → ℕ → Option (List MemEntry) → Option ℕ
count_of type attr a none = none
count_of type attr a (some map) = some (entries_at type attr a map)

-- What a number of descriptors should bring.
abbrev Expected : ℕ → Bool → ℕ → Option ℕ → Type 0
Expected old known more found = found ≡ (if known then some (old + more) else none)

add_chosen-Expected :
    (type attr a : ℕ) (map : List MemEntry) (d : Descriptor) (left : List Descriptor) (c : Choice)
    → EntriesFit map
    → d.physical_start + frame_size * d.number_of_pages < u64_mod
    → ((m : List MemEntry)
        → EntriesFit m
        → Expected
            (entries_at type attr a m)
            (all_known left)
            (descriptors_at type attr a left)
            (count_of type attr a (build_kernel_map m left)))
    → Expected
        (entries_at type attr a map)
        (is_known c && all_known left)
        (chosen_at type attr a d c + descriptors_at type attr a left)
        (count_of type attr a (and_then (λ m. build_kernel_map m left) (add_chosen map d c)))
add_chosen-Expected type attr a map d left skips fits fit rest = rest map fits ∙ ground arith
add_chosen-Expected type attr a map d left raises fits fit rest = refl
add_chosen-Expected type attr a map d left (keeps t) fits fit rest =
    rest (add_entry map t d) (add_entry-EntriesFit map t d fits fit)
    ∙ ground (arith, entries_at-add_entry type attr a map t d fits fit)

-- When neither an entry of the map so far nor a descriptor wraps around: `build_kernel_map` raises an
-- error exactly when a descriptor has a type that UEFI does not name. Otherwise each address is covered
-- by as many entries of a kernel type and of attributes as before, and as there are descriptors of these
-- attributes that cover it and whose memory is of that kernel type: free memory for code and data of the
-- loader and of the boot services and for conventional memory, and the type of the same name for
-- reclaimable ACPI tables, runtime services, device memory and persistent memory.
pub build_kernel_map-covers :
    (type attr a : ℕ) (map : List MemEntry) (left : List Descriptor)
    → EntriesFit map
    → DescriptorsFit left
    → count_of type attr a (build_kernel_map map left) ≡ (
        if all_known left
        then some (entries_at type attr a map + descriptors_at type attr a left)
        else none)
unfolding build_kernel_map
build_kernel_map-covers type attr a map [] fits fit = ap some (omega arith)
build_kernel_map-covers type attr a map (d ∷ left) fits (fit, rest) =
    subst
      (λ k. count_of type attr a (build_kernel_map map (d ∷ left)) ≡ (
        if k && all_known left
        then some (entries_at type attr a map + descriptors_at type attr a (d ∷ left))
        else none))
      (choose-known d.type)
      (subst
        (λ n. count_of type attr a (build_kernel_map map (d ∷ left)) ≡ (
          if is_known (choose d.type) && all_known left
          then some (entries_at type attr a map + (n + descriptors_at type attr a left))
          else none))
        (chosen_at-becomes type attr a d)
        (add_chosen-Expected type attr a map d left (choose d.type) fits fit
          (λ m ok. build_kernel_map-covers type attr a m left ok rest)))
