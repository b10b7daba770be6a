-- ===== src/Kernel/Capabilities/Tests.antt =====
-- A table with a capability on object 4 and one derived from it.
use jsix.Prelude.{ℕ, ◌==◌, ◌≡◌, refl, false, [], ◌∷◌, if◌then◌else◌, arith}
use jsix.Prelude.Bits.{Word, bit, word_or}
use jsix.Kernel.Capabilities.{Capability, State, Kobject, derive, derive_from}
use jsix.Kernel.Capabilities.Table.{IsTable, derives, step}
use jsix.Kernel.Capabilities.Rights.{IsAttenuated, cons-IsAttenuated, step-IsAttenuated}

abbrev reads_and_writes : Word
reads_and_writes = word_or (bit 0) (bit 1)

abbrev plain : ℕ → Kobject
plain o = record { kind = 3; handle_count = 0; deleted = false }

abbrev empty : State
empty = record { table = record { entries = []; count = 0 }; objects = plain }

abbrev first : Capability
first = record { parent = 0; holders = 0; caps = reads_and_writes; kind = 3; object = 4 }

-- capability 1 has one holder
abbrev held : State
held = record {
  table = record { entries = (1, record first { holders = 1 }) ∷ []; count = 1 };
  objects = λ o. record (plain o) { handle_count = if o == 4 then 1 else 0 };
}

derives_second : (derive held 1 (bit 0)).1 ≡ 2
unfolding derive derive_from
derives_second = refl

empty-IsTable : IsTable empty.table
empty-IsTable = record { below = tt; no_zero = refl; parents = tt }

held-IsTable : IsTable held.table
held-IsTable = record {
  below = (omega arith, refl, tt);
  no_zero = refl;
  parents = (omega arith, tt);
}

held-IsAttenuated : IsAttenuated held.table.entries
held-IsAttenuated =
    cons-IsAttenuated [] 0 1 (record first { holders = 1 }) tt (omega arith) (omega arith)
      (λ d f. cc f) (λ k c d e f. cc e)

step-IsAttenuated_example : IsAttenuated (step held (derives 1 (bit 0))).table.entries
step-IsAttenuated_example =
    step-IsAttenuated held (derives 1 (bit 0)) held-IsTable held-IsAttenuated (omega arith)
