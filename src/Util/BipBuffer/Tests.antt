-- ===== src/Util/BipBuffer/Tests.antt =====
-- A small buffer through a round: B in front of A, then A drained.
use jsix.Prelude.{ℕ, ◌≡◌, refl, some, List, [], ◌∷◌, min, arith}
use jsix.Util.BipBuffer.{
  BipBuffer, write_available, reserve, find_room, commit, consume, fill, write_at,
}
use jsix.Util.BipBuffer.Inv.{IsValid, reserve-write_available}
use jsix.Util.BipBuffer.Refine.{
  contents, Op, reserves, consumes, commits, step, run, queue_run, AllAllowed, run_refines,
}
use jsix.Util.BipBuffer.Progress.{IsServed, IsServing, step-IsServed}

abbrev zeros : ℕ → ℕ
zeros i = 0

-- ten bytes, empty
abbrev fresh : BipBuffer
fresh = record {
  start_a = 0;
  start_b = 0;
  start_r = 0;
  size_a = 0;
  size_b = 0;
  size_r = 0;
  buffer_size = 10;
  buffer = zeros;
}

abbrev round : List Op
round =
    reserves 7
    ∷ commits (1 ∷ 2 ∷ 3 ∷ 4 ∷ 5 ∷ 6 ∷ 7 ∷ [])
    ∷ consumes 5
    ∷ reserves 4
    ∷ commits (8 ∷ 9 ∷ [])
    ∷ consumes 1
    ∷ []

fresh-IsValid : IsValid fresh
fresh-IsValid = ground arith

-- seven bytes were written from 0 and five read, three are free at the end: a request for four
-- is granted five in front
abbrev half_read : BipBuffer
half_read = record fresh { start_a = 5; size_a = 2 }

half_read-IsValid : IsValid half_read
half_read-IsValid = ground arith

reserve-write_available_example : (reserve half_read 4).2 ≡ min 4 (write_available half_read)
reserve-write_available_example = reserve-write_available 4 half_read-IsValid

-- the reservation of four in front of A
abbrev reserved : BipBuffer
reserved = record half_read { size_r = 4; start_r = 0 }

reserved-IsValid : IsValid reserved
reserved-IsValid = ground arith

-- where `round` ends: 7 in front of the two bytes of B
abbrev ended : BipBuffer
ended = record {
  start_a = 6;
  start_b = 0;
  start_r = 0;
  size_a = 1;
  size_b = 2;
  size_r = 0;
  buffer_size = 10;
  buffer = write_at (write_at zeros 0 (1 ∷ 2 ∷ 3 ∷ 4 ∷ 5 ∷ 6 ∷ 7 ∷ [])) 0 (8 ∷ 9 ∷ []);
}

round_ends : run fresh round ≡ some ended
unfolding run step reserve commit fill consume
round_ends = refl

round-AllAllowed : AllAllowed fresh round
unfolding step reserve find_room commit fill consume
round-AllAllowed = (tt, (omega arith, (omega arith, (tt, (omega arith, (omega arith, tt))))))

run_refines_example :
    (c : BipBuffer) × (run fresh round ≡ some c)
    × IsValid c
    × (contents c ≡ queue_run (contents fresh) round)
run_refines_example = run_refines fresh round fresh-IsValid round-AllAllowed

ended-contents : contents ended ≡ 7 ∷ 8 ∷ 9 ∷ []
unfolding write_at
ended-contents = refl

half_read-IsServed : IsServed half_read
half_read-IsServed = record { front = λ h. absurd (omega arith); next = λ h. absurd (omega arith) }

step-IsServed_example : IsServing (record half_read { start_a = 6; size_a = 1 })
unfolding step consume
step-IsServed_example =
    step-IsServed half_read _ (consumes 1) half_read-IsValid half_read-IsServed tt refl

-- all read while two bytes at the end are reserved
abbrev drained : BipBuffer
drained = record fresh { start_a = 6; start_r = 6; size_r = 2 }

drained-IsValid : IsValid drained
drained-IsValid = ground arith
