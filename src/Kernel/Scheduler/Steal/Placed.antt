-- ===== src/Kernel/Scheduler/Steal/Placed.antt =====
-- Stealing leaves each ready thread in a list of its priority: src/kernel/scheduler.cpp.
use jsix.Prelude.{
  ℕ, zero, suc, ◌+◌, ◌-◌, ◌≤◌, ◌<◌, ◌≡◌, ◌≢◌, ◌==◌, ◌∙◌, refl, sym, ap, subst, inl, inr, arith,
  Bool-cases, ==→eq,
}
use jsix.Prelude.Occur.{count}
use jsix.Kernel.Scheduler.{idle_priority}
use jsix.Kernel.Scheduler.Balance.{balance_lists-outcome}
use jsix.Kernel.Scheduler.Placed.{IsPlaced}
use jsix.Kernel.Scheduler.Steal.{
  Scheduler, Pair, steal_ready, steal_priorities, steal_from, steal_between, steal_rest, steal_work,
}
use jsix.Kernel.Scheduler.Steal.Conserved.{steal_from-IsSame}

-- A thread stands in the two lists of a priority together as often.
abbrev SameLists : Pair → Pair → Type 0
SameLists s r =
    (t p : ℕ)
    → count t (r.mine.ready p) + count t (r.other.ready p)
      ≡ count t (s.mine.ready p) + count t (s.other.ready p)

steal_ready-SameLists : (cpu q : ℕ) (s : Pair) → SameLists s (steal_ready cpu q s)
steal_ready-SameLists cpu q s t p = elim (Bool-cases (p == q)) [
  | inl e ↦ rw e (
      omega (
        arith,
        (balance_lists-outcome t (s.mine.ready q) (s.other.ready q) s.tcbs cpu).0,
        ap (λ k. count t (s.mine.ready k)) (==→eq p q e),
        ap (λ k. count t (s.other.ready k)) (==→eq p q e),
      ))
  | inr e ↦ rw e refl
]

steal_priorities-SameLists : (cpu left : ℕ) (s : Pair) → SameLists s (steal_priorities cpu left s)
unfolding steal_priorities
steal_priorities-SameLists cpu zero s t p = refl
steal_priorities-SameLists cpu (suc left) s t p =
    let q = idle_priority - suc left in
    steal_priorities-SameLists cpu left (steal_ready cpu (idle_priority - suc left) s) t p
    ∙ steal_ready-SameLists cpu q s t p

steal_from-SameLists : (cpu : ℕ) (s : Pair) → SameLists s (steal_from cpu s)
unfolding steal_from
steal_from-SameLists cpu s t p = steal_priorities-SameLists cpu idle_priority s t p

-- Each ready thread stands in a list of its priority, in every queue.
abbrev pub ArePlaced : Scheduler → Type 0
ArePlaced s = (k : ℕ) → k < s.queue_count → IsPlaced s.tcbs (s.queues k)

steal_between-ArePlaced :
    (cpu i : ℕ) (s : Scheduler)
    → cpu < s.queue_count
    → i < s.queue_count
    → ArePlaced s
    → ArePlaced (steal_between cpu i s)
steal_between-ArePlaced cpu i s h hi placed k bound t p le ne =
    let pair : Pair = record { mine = s.queues cpu; other = s.queues i; tcbs = s.tcbs } in
    let apart : (s.tcbs t).priority ≢ p = λ e. ne ((steal_from-IsSame cpu pair).priority t ∙ e) in
    ground (
      arith,
      steal_from-SameLists cpu pair t p,
      placed cpu h t p le apart,
      placed i hi t p le apart,
      placed k bound t p le apart,
    )

steal_rest-ArePlaced :
    (cpu left : ℕ) (s : Scheduler)
    → cpu < s.queue_count
    → left ≤ s.queue_count
    → ArePlaced s
    → ArePlaced (steal_rest cpu left s)
unfolding steal_rest
steal_rest-ArePlaced cpu zero s h le placed = placed
steal_rest-ArePlaced cpu (suc left) s h le placed =
    let i = s.queue_count - suc left in
    elim (Bool-cases (s.queue_count - suc left == cpu)) [
      | inl e ↦
          let skipped : steal_rest cpu (suc left) s ≡ steal_rest cpu left s = rw e refl in
          subst ArePlaced (sym skipped) (steal_rest-ArePlaced cpu left s h (omega arith) placed)
      | inr e ↦
          let between = steal_between cpu i s in
          let taken : steal_rest cpu (suc left) s ≡ steal_rest cpu left between = rw e refl in
          subst ArePlaced (sym taken) (
            steal_rest-ArePlaced cpu left (steal_between cpu (s.queue_count - suc left) s) h
              (omega arith) (steal_between-ArePlaced cpu i s h (omega arith) placed))
    ]

pub steal_work-ArePlaced :
    (cpu : ℕ) (s : Scheduler) → cpu < s.queue_count → ArePlaced s → ArePlaced (steal_work cpu s)
unfolding steal_work
steal_work-ArePlaced cpu s h placed =
    steal_rest-ArePlaced cpu s.queue_count s h (omega arith) placed
