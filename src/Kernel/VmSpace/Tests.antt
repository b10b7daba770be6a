-- ===== src/Kernel/VmSpace/Tests.antt =====
-- A space of two areas of 8192 and 4096 bytes, and a third one of 65536 bytes that comes in.
use jsix.Prelude.{◌+◌, ◌^◌, ◌<◌, ◌≡◌, ◌⊎◌, ◌==◌, refl, false, [], ◌∷◌, if◌then◌else◌, arith}
use jsix.Kernel.VmSpace.{Vmas, Area, VmSpace, add, remove}
use jsix.Kernel.VmSpace.Get.{IsRefused, IsAdded, add-outcome}
use jsix.Kernel.VmSpace.Keep.{IsRestored, remove-add}

abbrev vmas : Vmas
vmas i = record {
  size = if i == 1 then 8192 else (if i == 2 then 4096 else 65536);
  spaces = [];
  handle_count = 1;
  deleted = false;
}

abbrev low_area : Area
low_area = record { base = 65536; area = 1 }

abbrev high_area : Area
high_area = record { base = 16777216; area = 2 }

abbrev space : VmSpace
space = record { name = 9; kernel = false; areas = low_area ∷ high_area ∷ [] }

add_fits : (add space vmas 0 3 false).0 + 65536 < 2 ^ 64
unfolding add
add_fits = omega arith

add-outcome_example :
    let (at, t, us) = add space vmas 0 3 false in
    IsRefused space t vmas us 0 3 false at ⊎ IsAdded space t vmas us 0 3 false at
add-outcome_example =
    add-outcome space vmas 0 3 false (omega arith, omega arith, (omega arith, omega arith, tt))
      (omega arith) add_fits

remove-add_example :
    let (at, t, us) = add space vmas 0 3 false in
    ((at ≡ 0) × (t ≡ space) × (us ≡ vmas)) ⊎ IsRestored space vmas (remove t us 3)
remove-add_example = remove-add space vmas 0 3 false refl refl (omega arith) (omega arith)
