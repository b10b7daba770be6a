-- ===== src/J6/Mutex/Tests.antt =====
-- Thread 1 locks the mutex; thread 2 finds it locked, marks it and compares the word.
use jsix.Prelude.{ℕ, ◌≡◌, ◌≢◌, refl, arith}
use jsix.J6.Mutex.{Mutex, new_mutex, act, acts, Reached, start, next}
use jsix.J6.Mutex.Exclusion.{mutual_exclusion}
use jsix.J6.Mutex.Race.{IsRacing, IsStranded, raced, lock_and_unlock, unlock_race_strands_waiter}

abbrev locked : Mutex
locked = act (act new_mutex 1) 1

abbrev contended : Mutex
contended = act (act (act (act locked 2) 2) 2) 2

locked-Reached : Reached locked
locked-Reached = next _ _ (next _ _ start (acts 1)) (acts 1)

contended-Reached : Reached contended
contended-Reached =
    next _ _ (next _ _ (next _ _ (next _ _ locked-Reached (acts 2)) (acts 2)) (acts 2)) (acts 2)

abbrev one : ℕ
one = 1

mutual_exclusion_example : 1 ≡ one
unfolding act
mutual_exclusion_example = mutual_exclusion contended 1 one contended-Reached refl refl

contended-IsRacing : IsRacing contended 1 2
unfolding act
contended-IsRacing = record {
  marked = refl;
  holder = refl;
  compared = refl;
  others = λ i d e. ground (arith, d, e);
}

unlock_race_strands_waiter_example :
    Reached (raced contended 1 2)
    × IsStranded (raced contended 1 2) 2
    × ((k : ℕ) → k ≢ 2 → IsStranded (lock_and_unlock (raced contended 1 2) k) 2)
unlock_race_strands_waiter_example =
    unlock_race_strands_waiter contended 1 2 (omega arith) contended-Reached contended-IsRacing
