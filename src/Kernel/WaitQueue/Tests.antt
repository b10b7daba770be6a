-- ===== src/Kernel/WaitQueue/Tests.antt =====
-- A queue of an exited thread, a ready one and two that wait.
use jsix.Prelude.{◌==◌, ◌≡◌, refl, true, false, none, some, [], ◌∷◌, if◌then◌else◌}
use jsix.Kernel.Threads.{Thread, Threads, handle_release}
use jsix.Kernel.WaitQueue.{WaitQueue, pop_next, clear}
use jsix.Kernel.WaitQueue.Order.{AllAlike, woken, clear-woken}

abbrev waiting : Thread
waiting = record {
  ready = false;
  exited = false;
  constant = false;
  wake_value = 9;
  wake_timeout = 0;
  message = none;
  handle_count = 2;
  deleted = false;
}

-- thread 1 has exited, and thread 2 is ready
abbrev four : Threads
four i =
    if i == 1
    then record waiting { exited = true; handle_count = 1 }
    else (if i == 2 then record waiting { ready = true } else waiting)

abbrev four_threads : WaitQueue
four_threads = 1 ∷ 2 ∷ 3 ∷ 4 ∷ []

pops_third : (pop_next four four_threads).0 ≡ some 3
unfolding pop_next handle_release
pops_third = refl

deletes_exited : ((pop_next four four_threads).1 1).deleted ≡ true
unfolding pop_next handle_release
deletes_exited = refl

clear-woken_example :
    AllAlike (clear four four_threads 5).0 (woken four four_threads 5)
    × ((clear four four_threads 5).1 ≡ [])
clear-woken_example = clear-woken four four_threads 5
