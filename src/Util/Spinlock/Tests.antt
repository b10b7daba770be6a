-- ===== src/Util/Spinlock/Tests.antt =====
-- Thread 1 has the lock, and thread 2 waits for it.
use jsix.Prelude.{ℕ, ◌≡◌, refl, true}
use jsix.Util.Spinlock.{
  Spinlock, new_spinlock, act, acts, call_acquire, calls_acquire, Reached, start, step,
}
use jsix.Util.Spinlock.Queue.{at_head}
use jsix.Util.Spinlock.Exclusion.{single_owner, waiter-first}

abbrev taken : Spinlock
taken = act (act (call_acquire new_spinlock 1) 1) 1

abbrev contended : Spinlock
contended = act (act (call_acquire taken 2) 2) 2

taken-Reached : Reached taken
taken-Reached = step _ _ (step _ _ (step _ _ start (calls_acquire 1 refl)) (acts 1)) (acts 1)

contended-Reached : Reached contended
unfolding act
contended-Reached =
    step _ _ (step _ _ (step _ _ taken-Reached (calls_acquire 2 refl)) (acts 2)) (acts 2)

abbrev one : ℕ
one = 1

single_owner_example : 1 ≡ one
unfolding act
single_owner_example = single_owner contended 1 one contended-Reached refl refl

waiter-first_example : (h : ℕ) × (at_head (contended.phases h) (contended.blocked h) ≡ true)
unfolding act
waiter-first_example = waiter-first contended 2 contended-Reached refl
