-- ===== src/Proc/Starvation.antt =====
-- Which processes the multi-level feedback scheduler can run at all: those that its queues hold. A
-- process that sleeps leaves them, `wakeup` does not put it back, and `sleep` itself puts it back only
-- after the process has been run again.
pub mod Elsewhere
pub mod Never
use aut_whuoslab.Prelude.{
  ℕ, zero, suc, ◌+◌, ◌%◌, ◌^◌, ◌&&◌, ◌≤◌, ◌<◌, ◌≡◌, refl, sym, ap, ◌∙◌, subst, ◌≢◌, ◌⊎◌, inl, inr,
  Bool, true, false, List, [], ◌∷◌, ◌++◌, Option, none, some, arith, ℤ, get_or, take, modify, map,
  All, if◌then◌else◌, ltb, leb, ◌==◌, Bool-cases,
}
use aut_whuoslab.Proc.Types.{
  nproc, Proc, Queue, Kernel, Selector, mlfq, is_mlfq, is_runnable, runnable, running, Chan, null,
  of_proc, of_ticks, at, is_slot,
}
use aut_whuoslab.Proc.Mlfq.{
  add, remove, mlfq_add_process, mlfq_remove_process, first_queued, mlfq_scheduler, scheduler_init,
  emptied, found, no_queue, max_priority_levels,
}
use aut_whuoslab.Proc.Mlfq.Contents.{contents, IsQueue, erase, remove-erase, add-append}
use aut_whuoslab.Proc.Table.{
  wakeup, update_proc, chan_of, kkill, reparent, reparent_from, exit_proc,
}
use aut_whuoslab.Proc.Select.{use_mlfq_scheduler, schedule, dispatch, select_by, select_next_proc}
use aut_whuoslab.Proc.Switch.{
  yield_begin, sleep_begin, sleep_end, tick_proc, clockintr, promote, charge, slice_over,
}

abbrev pub NoEntry : ℕ → List (Option ℕ) → Type 0
NoEntry p [] = Unit {0}
NoEntry p (x ∷ xs) = (is_slot x p ≡ false) × NoEntry p xs

-- A well-formed queue without process `p`.
pub record Lacks (p : ℕ) (q : Queue) : Type 0 where
  pub valid : IsQueue q
  pub absent : NoEntry p (contents q)

-- The multi-level feedback scheduler is in force and no queue holds `p`.
pub record OffQueues (p : ℕ) (k : Kernel) : Type 0 where
  pub in_force : k.selector ≡ mlfq
  pub lacks : All (Lacks p) k.queues

pub NoEntry-erase : (p r : ℕ) (xs : List (Option ℕ)) → NoEntry p xs → NoEntry p (erase r xs)
NoEntry-erase p r [] h = tt
NoEntry-erase p r (x ∷ xs) h = ground (arith, NoEntry-erase p r xs h.1)

NoEntry-append :
    (p : ℕ) (xs : List (Option ℕ)) (y : Option ℕ)
    → NoEntry p xs
    → is_slot y p ≡ false
    → NoEntry p (xs ++ y ∷ [])
NoEntry-append p [] y h e = (e, tt)
NoEntry-append p (x ∷ xs) y h e = (h.0, NoEntry-append p xs y h.1 e)

pub Lacks-remove : (p r : ℕ) (q : Queue) → Lacks p q → Lacks p (remove q r)
Lacks-remove p r q l =
    let (e, v) = remove-erase q r l.valid in
    record { valid = v; absent = subst (NoEntry p) (sym e) (NoEntry-erase p r _ l.absent) }

Lacks-add : (p r : ℕ) → r ≢ p → (q : Queue) → Lacks p q → Lacks p (add q r)
Lacks-add p r ne q l =
    let (e, v) = add-append q r l.valid in
    record { valid = v; absent = subst (NoEntry p) (sym e) (grown (ltb q.count nproc)) }
  where
    other : is_slot (some r) p ≡ false
    other = ground arith

    grown : (b : Bool) → NoEntry p (if b then contents q ++ some r ∷ [] else contents q)
    grown true = NoEntry-append p (contents q) (some r) l.absent other
    grown false = l.absent

All-modify {ℓ κ} :
    {A : Type ℓ} (P : A → Type κ) (f : A → A) (xs : List A) (i : ℕ)
    → ((x : A) → P x → P (f x))
    → All P xs
    → All P (modify xs i f)
All-modify P f [] i h a = tt
All-modify P f (x ∷ xs) zero h a = (h x a.0, a.1)
All-modify P f (x ∷ xs) (suc i) h a = (a.0, All-modify P f xs i h a.1)

module _ (p : ℕ) where
  pub remove-Off :
      (r level : ℕ) (k : Kernel) → OffQueues p k → OffQueues p (mlfq_remove_process r level k)
  unfolding mlfq_remove_process
  remove-Off r level k o =
      ground
        (arith, All-modify (Lacks p) (λ q. remove q r) k.queues level (Lacks-remove p r) o.lacks)

  pub add-Off :
      (r level : ℕ) (k : Kernel) → r ≢ p → OffQueues p k → OffQueues p (mlfq_add_process r level k)
  unfolding mlfq_add_process
  add-Off r level k ne o =
      ground (arith, All-modify (Lacks p) (λ q. add q r) k.queues level (Lacks-add p r ne) o.lacks)

  -- The head of a queue that has any is not `p`.
  abbrev HeadFree : Queue → Type 0
  HeadFree q = 0 < q.count → is_slot (get_or q.processes 0 none) p ≡ false

  head_free :
      (a : List (Option ℕ)) (c : ℕ)
      → NoEntry p (take c a)
      → 0 < c
      → is_slot (get_or a 0 none) p ≡ false
  head_free [] c h lt = refl
  head_free (x ∷ a) zero h lt = absurd (omega arith)
  head_free (x ∷ a) (suc c) h lt = h.0

  heads_free :
      (qs : List Queue) (level : ℕ) → All (Lacks p) qs → HeadFree (get_or qs level no_queue)
  heads_free [] level a = λ lt. refl
  heads_free (q ∷ qs) zero a = head_free q.processes q.count a.0.absent
  heads_free (q ∷ qs) (suc level) a = heads_free qs level a.1

  -- So the search over the levels does not come upon `p`.
  first_queued-absent :
      (rounds level i l : ℕ) (qs : List Queue)
      → All (Lacks p) qs
      → first_queued rounds level qs ≡ some (some i, l)
      → i ≢ p
  unfolding first_queued
  first_queued-absent zero level i l qs a e = cc
  first_queued-absent (suc rounds) level i l qs a e =
      ground (arith, heads_free qs level a, first_queued-absent rounds (suc level) i l qs a)

  -- While the multi-level feedback scheduler is in force and no queue holds a process, that process is not
  -- selected, and it stays off the queues.
  pub select-Off :
      (k : Kernel)
      → OffQueues p k
      → ((select_next_proc k).0 ≢ some p) × OffQueues p (select_next_proc k).1
  unfolding select_next_proc select_by mlfq_scheduler
  select-Off k o = by_search (first_queued max_priority_levels 0 k.queues) refl
    where
      selected :
          (r : Option (Option ℕ × ℕ))
          → first_queued max_priority_levels 0 k.queues ≡ r
          → select_next_proc k ≡ found r k
      selected r e = ap (λ s. select_by s k) o.in_force ∙ ap (λ r. found r k) e

      by_search :
          (r : Option (Option ℕ × ℕ))
          → first_queued max_priority_levels 0 k.queues ≡ r
          → ((select_next_proc k).0 ≢ some p) × OffQueues p (select_next_proc k).1
      by_search none e = rw (selected none e) (ground arith, o)
      by_search (some (none, l)) e =
          rw (selected _ e) (ground arith, record { in_force = o.in_force; lacks = o.lacks })
      by_search (some (some i, l)) e =
          rw (selected _ e)
            (ground (arith, first_queued-absent max_priority_levels 0 i l k.queues o.lacks e))

  -- The section of `scheduler` under the lock of the selected process leaves the queues alone.
  pub dispatch-Off : (o : Option ℕ) (k : Kernel) → OffQueues p k → OffQueues p (dispatch (o, k)).1
  unfolding dispatch
  dispatch-Off none k o = o
  dispatch-Off (some i) k o = by_state (is_runnable (at k i).state)
    where
      by_state :
          (b : Bool)
          → OffQueues p
              (if◌then◌else◌ {A = Option ℕ × Kernel} b
                (some i, update_proc i (λ q. record q { state = running }) k)
                (none, k)).1
      by_state true = record { in_force = o.in_force; lacks = o.lacks }
      by_state false = o
