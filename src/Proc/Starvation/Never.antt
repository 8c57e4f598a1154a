-- ===== src/Proc/Starvation/Never.antt =====
-- Two ways to be left out for good under the multi-level feedback scheduler.
use aut_whuoslab.Prelude.{
  ℕ, zero, suc, ◌<◌, ◌≡◌, refl, sym, subst, ◌≢◌, List, [], ◌∷◌, some, arith, modify, map, All,
  if◌then◌else◌,
}
use aut_whuoslab.Proc.Types.{Queue, Kernel, mlfq, is_mlfq, Chan, at}
use aut_whuoslab.Proc.Mlfq.{
  remove, mlfq_remove_process, scheduler_init, emptied, max_priority_levels,
}
use aut_whuoslab.Proc.Mlfq.Contents.{contents, IsQueue, erase, remove-erase}
use aut_whuoslab.Proc.Select.{use_mlfq_scheduler, select_next_proc}
use aut_whuoslab.Proc.Switch.{sleep_begin}
use aut_whuoslab.Proc.Starvation.{NoEntry, Lacks, OffQueues, select-Off}
use aut_whuoslab.Proc.Starvation.Elsewhere.{Elsewhere, Elsewhere-Off}

-- A history of such events.
pub data History (p : ℕ) (k : Kernel) : Kernel → Type 0 where
  start : History p k k
  then_event : {k' k'' : Kernel} → History p k k' → Elsewhere p k' k'' → History p k k''

module _ (p : ℕ) where
  History-Off : {k k' : Kernel} → History p k k' → OffQueues p k → OffQueues p k'
  History-Off start o = o
  History-Off (then_event h e) o = Elsewhere-Off p e (History-Off h o)

  -- Process `p` is queued once, in the queue of the given level.
  abbrev pub OnlyAt : ℕ → List Queue → Type 0
  OnlyAt level [] = Unit {0}
  OnlyAt zero (q ∷ qs) = IsQueue q × NoEntry p (erase p (contents q)) × All (Lacks p) qs
  OnlyAt (suc level) (q ∷ qs) = Lacks p q × OnlyAt level qs

  OnlyAt-remove :
      (level : ℕ) (qs : List Queue)
      → OnlyAt level qs
      → All (Lacks p) (modify qs level (λ q. remove q p))
  OnlyAt-remove level [] o = tt
  OnlyAt-remove zero (q ∷ qs) o =
      let (e, v) = remove-erase q p o.0 in
      (record { valid = v; absent = subst (NoEntry p) (sym e) o.1 }, o.2)
  OnlyAt-remove (suc level) (q ∷ qs) o = (o.0, OnlyAt-remove level qs o.1)

  removed-Off :
      (k : Kernel)
      → k.selector ≡ mlfq
      → (at k p).mlfq_level < max_priority_levels
      → OnlyAt (at k p).mlfq_level k.queues
      → OffQueues p (if is_mlfq k.selector then mlfq_remove_process p (at k p).mlfq_level k else k)
  unfolding mlfq_remove_process
  removed-Off k m lt o = ground (arith, OnlyAt-remove (at k p).mlfq_level k.queues o)

  -- Under the multi-level feedback scheduler a process that is queued exactly once, in the queue of its own
  -- level, and goes to sleep is never selected again: not after any history of what the other processes
  -- and the interrupts do, wakeups of its channel included, in which nobody switches to another
  -- scheduler and no processor dispatches the process because it had selected it before it slept.
  pub sleep-never_scheduled :
      (c : Chan) (k k' : Kernel)
      → k.selector ≡ mlfq
      → (at k p).mlfq_level < max_priority_levels
      → OnlyAt (at k p).mlfq_level k.queues
      → History p (sleep_begin c p k) k'
      → (select_next_proc k').0 ≢ some p
  unfolding sleep_begin
  sleep-never_scheduled c k k' m lt o h = (select-Off p k' (History-Off h asleep)).0
    where
      asleep : OffQueues p (sleep_begin c p k)
      asleep = let r = removed-Off k m lt o in record { in_force = r.in_force; lacks = r.lacks }

-- Switching to the multi-level feedback scheduler queues nobody. From the empty queues of `scheduler_init`, a
-- process that takes no step of its own after the switch, being one that does not run then, is never
-- selected, whatever the other processes and the interrupts do, as long as nobody switches to another
-- scheduler and no processor dispatches it because it had selected it before.
pub use_mlfq_scheduler-never_scheduled :
    (p : ℕ) (k k' : Kernel)
    → All IsQueue k.queues
    → History p (use_mlfq_scheduler (scheduler_init k)) k'
    → (select_next_proc k').0 ≢ some p
unfolding use_mlfq_scheduler scheduler_init
use_mlfq_scheduler-never_scheduled p k k' v h =
    (select-Off p k'
      (History-Off p h (record { in_force = refl; lacks = empty_queues k.queues v }))).0
  where
    empty_queues : (qs : List Queue) → All IsQueue qs → All (Lacks p) (map emptied qs)
    empty_queues [] v = tt
    empty_queues (q ∷ qs) v = (
      record { valid = record { slots = v.0.slots; fits = omega arith }; absent = tt },
      empty_queues qs v.1,
    )
