-- ===== src/Kernel/Scheduler/Steal/Conserved.antt =====
-- No thread is lost or repeated when processors take threads from each other: src/kernel/scheduler.cpp.
use jsix.Prelude.{
  ℕ, zero, suc, ◌+◌, ◌-◌, ◌/◌, ◌%◌, ◌≤◌, ◌<◌, ◌≡◌, ◌∙◌, ◌==◌, refl, sym, ap, false, List, [], ◌∷◌,
  ◌++◌, inl, inr, arith, Bool-cases, ==→eq, one_if, leb, length,
}
use jsix.Prelude.Occur.{count-append}
use jsix.Kernel.Scheduler.{
  Tcb, RunQueue, put_tcb, put_list, balance_lists, steal_rounds, idle_priority,
}
use jsix.Kernel.Scheduler.Lists.{count_queue, count_ready-put_list}
use jsix.Kernel.Scheduler.Balance.{balance_lists-outcome}
use jsix.Kernel.Scheduler.Steal.{
  Scheduler, Pair, put_queue, steal_ready, steal_blocked, steal_priorities, steal_from,
  steal_between, steal_rest, steal_work, add_thread,
}

-- How often a thread stands in the first `n` queues.
abbrev pub count_all : ℕ → (ℕ → RunQueue) → ℕ → ℕ
count_all t queues zero = 0
count_all t queues (suc n) = count_queue t (queues n) + count_all t queues n

count_all-put_other :
    (t k n : ℕ) (queues : ℕ → RunQueue) (q : RunQueue)
    → n ≤ k
    → count_all t (put_queue queues k q) n ≡ count_all t queues n
count_all-put_other t k zero queues q h = refl
count_all-put_other t k (suc n) queues q h =
    rw (other n k h)
      (ap (λ c. count_queue t (queues n) + c) (count_all-put_other t k n queues q (omega arith)))
  where
    other : (n k : ℕ) → suc n ≤ k → (n == k) ≡ false
    other n k h = ground arith

pub count_all-put :
    (t k n : ℕ) (queues : ℕ → RunQueue) (q : RunQueue)
    → k < n
    → count_all t (put_queue queues k q) n + count_queue t (queues k)
      ≡ count_all t queues n + count_queue t q
count_all-put t k zero queues q h = absurd (omega arith)
count_all-put t k (suc n) queues q h = elim (Bool-cases (n == k)) [
  | inl e ↦ rw e (
      omega (
        arith,
        count_all-put_other t k n queues q (ground (arith, e)),
        ap (λ i. count_queue t (queues i)) (==→eq n k e),
      ))
  | inr e ↦ rw e (omega (arith, count_all-put t k n queues q (ground (arith, e))))
]

-- A pair of queues with the threads of another one, each as often; the current threads and the idle
-- lists are the same.
pub record IsSame (s r : Pair) : Type 0 where
  pub counts :
      (t : ℕ)
      → count_queue t r.mine + count_queue t r.other ≡ count_queue t s.mine + count_queue t s.other
  pub current : (r.mine.current ≡ s.mine.current) × (r.other.current ≡ s.other.current)
  pub idle :
      (r.mine.ready idle_priority ≡ s.mine.ready idle_priority)
      × (r.other.ready idle_priority ≡ s.other.ready idle_priority)
  pub priority : (t : ℕ) → (r.tcbs t).priority ≡ (s.tcbs t).priority

idle_kept :
    (ready : ℕ → List ℕ) (p : ℕ) (l : List ℕ)
    → p < idle_priority
    → put_list ready p l idle_priority ≡ ready idle_priority
idle_kept ready p l h = ground arith

-- Balancing changes the processor of threads, and not their priority.
steal_rounds-priority :
    (to from : List ℕ) (tcbs : ℕ → Tcb) (cpu n t : ℕ)
    → ((steal_rounds to from tcbs cpu n).2 t).priority ≡ (tcbs t).priority
unfolding steal_rounds
steal_rounds-priority to [] tcbs cpu n t = refl
steal_rounds-priority to (u ∷ from) tcbs cpu zero t = refl
steal_rounds-priority to (u ∷ from) tcbs cpu (suc n) t =
    steal_rounds-priority (u ∷ to) from (put_tcb tcbs u (record (tcbs u) { cpu = cpu })) cpu n t
    ∙ put_cpu tcbs u cpu t
  where
    put_cpu :
        (tcbs : ℕ → Tcb) (u cpu t : ℕ)
        → (put_tcb tcbs u (record (tcbs u) { cpu = cpu }) t).priority ≡ (tcbs t).priority
    put_cpu tcbs u cpu t = elim (Bool-cases (t == u)) [
      | inl e ↦ rw e (ap (λ i. (tcbs i).priority) (sym (==→eq t u e)))
      | inr e ↦ rw e refl
    ]

balance_lists-priority :
    (to from : List ℕ) (tcbs : ℕ → Tcb) (cpu t : ℕ)
    → ((balance_lists to from tcbs cpu).0.2 t).priority ≡ (tcbs t).priority
unfolding balance_lists
balance_lists-priority to from tcbs cpu t = elim (Bool-cases (leb (length from) (length to))) [
  | inl e ↦ rw e refl
  | inr e ↦ rw e (steal_rounds-priority to from tcbs cpu ((length from - length to) / 2) t)
]

IsSame-trans : (a b c : Pair) → IsSame a b → IsSame b c → IsSame a c
IsSame-trans a b c x y = record {
  counts = λ t. y.counts t ∙ x.counts t;
  current = (y.current.0 ∙ x.current.0, y.current.1 ∙ x.current.1);
  idle = (y.idle.0 ∙ x.idle.0, y.idle.1 ∙ x.idle.1);
  priority = λ t. y.priority t ∙ x.priority t;
}

steal_ready-IsSame : (cpu p : ℕ) (s : Pair) → p < idle_priority → IsSame s (steal_ready cpu p s)
steal_ready-IsSame cpu p s h =
    let r = balance_lists (s.mine.ready p) (s.other.ready p) s.tcbs cpu in
    record {
      counts = λ t. omega (
        arith,
        (balance_lists-outcome t (s.mine.ready p) (s.other.ready p) s.tcbs cpu).0,
        count_ready-put_list t s.mine.ready p 8 r.0.0 (omega arith),
        count_ready-put_list t s.other.ready p 8 r.0.1 (omega arith),
      );
      current = (refl, refl);
      idle = (idle_kept s.mine.ready p r.0.0 h, idle_kept s.other.ready p r.0.1 h);
      priority = balance_lists-priority (s.mine.ready p) (s.other.ready p) s.tcbs cpu;
    }

steal_priorities-IsSame :
    (cpu left : ℕ) (s : Pair) → left ≤ idle_priority → IsSame s (steal_priorities cpu left s)
unfolding steal_priorities
steal_priorities-IsSame cpu zero s h = record {
  counts = λ t. refl;
  current = (refl, refl);
  idle = (refl, refl);
  priority = λ t. refl;
}
steal_priorities-IsSame cpu (suc left) s h =
    let p = idle_priority - suc left in
    IsSame-trans s (steal_ready cpu p s) (steal_priorities cpu left (steal_ready cpu p s))
      (steal_ready-IsSame cpu p s (omega arith))
      (steal_priorities-IsSame cpu left (steal_ready cpu (idle_priority - suc left) s)
        (omega arith))

steal_blocked-IsSame : (cpu : ℕ) (s : Pair) → IsSame s (steal_blocked cpu s)
steal_blocked-IsSame cpu s = record {
  counts =
      λ t. omega (arith, (balance_lists-outcome t s.mine.blocked s.other.blocked s.tcbs cpu).0);
  current = (refl, refl);
  idle = (refl, refl);
  priority = balance_lists-priority s.mine.blocked s.other.blocked s.tcbs cpu;
}

pub steal_from-IsSame : (cpu : ℕ) (s : Pair) → IsSame s (steal_from cpu s)
unfolding steal_from
steal_from-IsSame cpu s =
    let r = steal_priorities cpu idle_priority s in
    IsSame-trans s r (steal_blocked cpu r)
      (steal_priorities-IsSame cpu idle_priority s (omega arith)) (steal_blocked-IsSame cpu r)

-- Queues that hold each thread as often as before, with the current threads and the idle lists as before.
pub record IsConserved (s r : Scheduler) : Type 0 where
  pub same_count : r.queue_count ≡ s.queue_count
  pub threads : (t : ℕ) → count_all t r.queues r.queue_count ≡ count_all t s.queues s.queue_count
  pub current : (k : ℕ) → (r.queues k).current ≡ (s.queues k).current
  pub idle : (k : ℕ) → (r.queues k).ready idle_priority ≡ (s.queues k).ready idle_priority
  pub priority : (t : ℕ) → (r.tcbs t).priority ≡ (s.tcbs t).priority
  pub same_threads : r.threads ≡ s.threads

pub put_two :
    {A : Type 0} (f : RunQueue → A) (queues : ℕ → RunQueue) (i k : ℕ) (q r : RunQueue)
    → f q ≡ f (queues i)
    → f r ≡ f (queues k)
    → (j : ℕ) → f (put_queue (put_queue queues i q) k r j) ≡ f (queues j)
put_two f queues i k q r e e' j = elim (Bool-cases (j == k)) [
  | inl h ↦ rw h (e' ∙ ap (λ x. f (queues x)) (sym (==→eq j k h)))
  | inr h ↦ rw h (elim (Bool-cases (j == i)) [
    | inl g ↦ rw g (e ∙ ap (λ x. f (queues x)) (sym (==→eq j i g)))
    | inr g ↦ rw g refl
  ])
]

steal_between-IsConserved :
    (cpu i : ℕ) (s : Scheduler)
    → cpu < s.queue_count
    → i < s.queue_count
    → (i == cpu) ≡ false
    → IsConserved s (steal_between cpu i s)
steal_between-IsConserved cpu i s h hi apart =
    let pair : Pair = record { mine = s.queues cpu; other = s.queues i; tcbs = s.tcbs } in
    let r = steal_from cpu pair in
    let same = steal_from-IsSame cpu pair in
    record {
      same_count = refl;
      threads = λ t. omega (
        arith,
        same.counts t,
        count_all-put t i s.queue_count s.queues r.other hi,
        count_all-put t cpu s.queue_count (put_queue s.queues i r.other) r.mine h,
        ap (count_queue t) (beside s.queues i cpu r.other apart),
      );
      current =
          put_two (λ q. q.current) s.queues i cpu r.other r.mine same.current.1 same.current.0;
      idle =
          put_two (λ q. q.ready idle_priority) s.queues i cpu r.other r.mine same.idle.1
            same.idle.0;
      priority = same.priority;
      same_threads = refl;
    }
  where
    beside :
        (queues : ℕ → RunQueue) (i k : ℕ) (q : RunQueue)
        → (i == k) ≡ false
        → put_queue queues i q k ≡ queues k
    beside queues i k q e = ground (arith, e)

pub IsConserved-trans : (a b c : Scheduler) → IsConserved a b → IsConserved b c → IsConserved a c
IsConserved-trans a b c x y = record {
  same_count = y.same_count ∙ x.same_count;
  threads = λ t. y.threads t ∙ x.threads t;
  current = λ k. y.current k ∙ x.current k;
  idle = λ k. y.idle k ∙ x.idle k;
  priority = λ t. y.priority t ∙ x.priority t;
  same_threads = y.same_threads ∙ x.same_threads;
}

steal_rest-IsConserved :
    (cpu left : ℕ) (s : Scheduler)
    → cpu < s.queue_count
    → left ≤ s.queue_count
    → IsConserved s (steal_rest cpu left s)
unfolding steal_rest
steal_rest-IsConserved cpu zero s h le = record {
  same_count = refl;
  threads = λ t. refl;
  current = λ k. refl;
  idle = λ k. refl;
  priority = λ t. refl;
  same_threads = refl;
}
steal_rest-IsConserved cpu (suc left) s h le =
    let i = s.queue_count - suc left in
    let next = steal_between cpu i s in
    elim (Bool-cases (s.queue_count - suc left == cpu)) [
      | inl e ↦ rw e (steal_rest-IsConserved cpu left s h (omega arith))
      | inr e ↦ rw e (
          IsConserved-trans s next (steal_rest cpu left next)
            (steal_between-IsConserved cpu i s h (omega arith) e)
            (steal_rest-IsConserved cpu left (steal_between cpu (s.queue_count - suc left) s) h
              (omega arith)))
    ]

-- When a processor takes work from the others, each thread stands in the queues of all processors
-- together as often as before, every processor has the same current thread, and no idle thread is
-- moved.
pub steal_work-IsConserved :
    (cpu : ℕ) (s : Scheduler) → cpu < s.queue_count → IsConserved s (steal_work cpu s)
unfolding steal_work
steal_work-IsConserved cpu s h = steal_rest-IsConserved cpu s.queue_count s h (omega arith)

-- A new thread stands once more in the queues, and every other thread as often as before.
add_thread-count_all :
    (s : Scheduler) (t u : ℕ)
    → 0 < s.queue_count
    → count_all u (add_thread s t).queues s.queue_count
      ≡ count_all u s.queues s.queue_count + one_if (u == t)
unfolding add_thread
add_thread-count_all s t u some_queue =
    let cpu = s.add_index % s.queue_count in
    let q = s.queues cpu in
    omega (
      arith,
      count-append u q.blocked (t ∷ []),
      count_all-put u cpu s.queue_count s.queues (record q { blocked = q.blocked ++ t ∷ [] })
          (omega arith),
    )
