-- ===== src/Proc/Starvation/Elsewhere.antt =====
-- What happens around a process that is off the queues of the multi-level feedback scheduler.
use aut_whuoslab.Prelude.{
  ℕ, zero, suc, ◌+◌, ◌%◌, ◌^◌, ◌&&◌, refl, ap, ◌≢◌, Bool, true, false, Option, none, some, ℤ,
  if◌then◌else◌, ◌==◌,
}
use aut_whuoslab.Proc.Types.{
  nproc, Proc, Kernel, is_mlfq, is_runnable, runnable, Chan, null, of_proc, of_ticks, at, is_slot,
}
use aut_whuoslab.Proc.Mlfq.{mlfq_add_process, mlfq_remove_process}
use aut_whuoslab.Proc.Table.{
  wakeup, update_proc, chan_of, kkill, reparent, reparent_from, exit_proc,
}
use aut_whuoslab.Proc.Select.{dispatch, select_next_proc, use_mlfq_scheduler}
use aut_whuoslab.Proc.Switch.{
  yield_begin, sleep_begin, sleep_end, tick_proc, clockintr, promote, charge, slice_over,
}
use aut_whuoslab.Proc.Starvation.{OffQueues, remove-Off, add-Off, select-Off, dispatch-Off}

-- What the other processes and the interrupts do to the scheduler's state. A round of `scheduler` is two steps,
-- which anything can come between: it selects under the lock of the queues, and then, under its
-- lock, dispatches another process than `p` that it has selected.
pub data Elsewhere (p : ℕ) (k : Kernel) : Kernel → Type 0 where
  wakes : (c : Chan) (me : Option ℕ) → Elsewhere p k (wakeup c me k)
  kills : (pid : ℤ) → Elsewhere p k (kkill pid k).1
  selects : Elsewhere p k (select_next_proc k).1
  dispatches : (i : ℕ) → i ≢ p → Elsewhere p k (dispatch (some i, k)).1
  switches : Elsewhere p k (use_mlfq_scheduler k)
  exits : (status : ℤ) (me : ℕ) → me ≢ p → Elsewhere p k (exit_proc status me k)
  forks : (child level : ℕ) → child ≢ p → Elsewhere p k (mlfq_add_process child level k)
  yields : (me : ℕ) → me ≢ p → Elsewhere p k (yield_begin me k)
  sleeps : (c : Chan) (me : ℕ) → me ≢ p → Elsewhere p k (sleep_begin c me k)
  resumes : (me : ℕ) → me ≢ p → Elsewhere p k (sleep_end me k)
  ticks : (cpu : ℕ) (me : Option ℕ) → me ≢ some p → Elsewhere p k (clockintr cpu me k)

module _ (p : ℕ) where
  Off-if :
      (b : Bool) {k k' : Kernel}
      → OffQueues p k
      → OffQueues p k'
      → OffQueues p (if b then k else k')
  Off-if true o o' = o
  Off-if false o o' = o'

  wakeup-Off : (c : Chan) (me : Option ℕ) (k : Kernel) → OffQueues p k → OffQueues p (wakeup c me k)
  unfolding wakeup
  wakeup-Off c me k o = record { in_force = o.in_force; lacks = o.lacks }

  update-Off :
      (i : ℕ) (f : Proc → Proc) (k : Kernel) → OffQueues p k → OffQueues p (update_proc i f k)
  update-Off i f k o = record { in_force = o.in_force; lacks = o.lacks }

  reparent_from-Off :
      (rounds i me : ℕ) (k : Kernel) → OffQueues p k → OffQueues p (reparent_from rounds i me k)
  unfolding reparent_from
  reparent_from-Off zero i me k o = o
  reparent_from-Off (suc rounds) i me k o = reparent_from-Off rounds (suc i) me _ (
      Off-if (is_slot (at k i).parent me)
        (wakeup-Off (of_proc k.initproc) (some me)
          (update_proc i (λ q. record q { parent = some k.initproc }) k)
          (update-Off i (λ q. record q { parent = some k.initproc }) k o))
        o)

  reparent-Off : (me : ℕ) (k : Kernel) → OffQueues p k → OffQueues p (reparent me k)
  unfolding reparent
  reparent-Off me k o = reparent_from-Off nproc 0 me k o

  -- A process is taken off its queue if the scheduler has queues.
  pub leave-Off :
      (me level : ℕ) (k : Kernel)
      → OffQueues p k
      → OffQueues p (if is_mlfq k.selector then mlfq_remove_process me level k else k)
  leave-Off me level k o = Off-if (is_mlfq k.selector) (remove-Off p me level k o) o

  exit-Off :
      (status : ℤ) (me : ℕ) (k : Kernel) → OffQueues p k → OffQueues p (exit_proc status me k)
  unfolding exit_proc
  exit-Off status me k o =
      let k1 = reparent me k in
      let k2 = wakeup (chan_of (at k1 me).parent) (some me) k1 in
      let o2 : OffQueues p k2 =
        wakeup-Off (chan_of (at k1 me).parent) (some me) k1 (reparent-Off me k o) in
      let o3 = leave-Off me (at k2 me).mlfq_level k2 o2 in
      record { in_force = o3.in_force; lacks = o3.lacks }

  yield-Off : (me : ℕ) (k : Kernel) → me ≢ p → OffQueues p k → OffQueues p (yield_begin me k)
  unfolding yield_begin
  yield-Off me k ne o =
      let o1 = leave-Off me (at k me).mlfq_level k o in
      let k2 : Kernel =
        update_proc me (λ q. record q { state = runnable })
          (if is_mlfq k.selector then mlfq_remove_process me (at k me).mlfq_level k else k) in
      let o2 : OffQueues p k2 = record { in_force = o1.in_force; lacks = o1.lacks } in
      Off-if (is_mlfq k2.selector) (add-Off p me (at k2 me).mlfq_level k2 ne o2) o2

  sleep-Off : (c : Chan) (me : ℕ) (k : Kernel) → OffQueues p k → OffQueues p (sleep_begin c me k)
  unfolding sleep_begin
  sleep-Off c me k o =
      let o1 = leave-Off me (at k me).mlfq_level k o in
      record { in_force = o1.in_force; lacks = o1.lacks }

  resume-Off : (me : ℕ) (k : Kernel) → me ≢ p → OffQueues p k → OffQueues p (sleep_end me k)
  unfolding sleep_end
  resume-Off me k ne o =
      let k1 = update_proc me (λ q. record q { chan = null }) k in
      let k2 = update_proc me promote k1 in
      let o1 : OffQueues p k1 = record { in_force = o.in_force; lacks = o.lacks } in
      let o2 : OffQueues p k2 = record { in_force = o.in_force; lacks = o.lacks } in
      Off-if (is_mlfq k1.selector) (add-Off p me (at k2 me).mlfq_level k2 ne o2) o1

  tick_proc-Off : (me : ℕ) (k : Kernel) → me ≢ p → OffQueues p k → OffQueues p (tick_proc me k)
  unfolding tick_proc
  tick_proc-Off me k ne o =
      let q = at k me in
      let k1 = if slice_over q then mlfq_remove_process me q.mlfq_level k else k in
      let o1 : OffQueues p k1 = Off-if (slice_over q) (remove-Off p me q.mlfq_level k o) o in
      let k2 = update_proc me charge k1 in
      let o2 : OffQueues p k2 = record { in_force = o1.in_force; lacks = o1.lacks } in
      Off-if (slice_over q && is_runnable (at k2 me).state)
        (add-Off p me (at k2 me).mlfq_level k2 ne o2) o2

  kill-Off : (pid : ℤ) (k : Kernel) → OffQueues p k → OffQueues p (kkill pid k).1
  unfolding kkill
  kill-Off pid k o = record { in_force = o.in_force; lacks = o.lacks }

  -- The part of `clockintr` that only CPU 0 does.
  abbrev ticked : ℕ → Option ℕ → Kernel → Kernel
  ticked cpu me k =
      if cpu == 0 then wakeup of_ticks me (record k { ticks = (k.ticks + 1) % 2 ^ 32 }) else k

  ticked-Off :
      (cpu : ℕ) (me : Option ℕ) (k : Kernel) → OffQueues p k → OffQueues p (ticked cpu me k)
  ticked-Off cpu me k o =
      Off-if (cpu == 0)
        (wakeup-Off of_ticks me (record k { ticks = (k.ticks + 1) % 2 ^ 32 })
          (record { in_force = o.in_force; lacks = o.lacks }))
        o

  clockintr-Off :
      (cpu : ℕ) (me : Option ℕ) (k : Kernel)
      → me ≢ some p
      → OffQueues p k
      → OffQueues p (clockintr cpu me k)
  unfolding clockintr
  clockintr-Off cpu none k ne o = ticked-Off cpu none k o
  clockintr-Off cpu (some i) k ne o =
      let o1 = ticked-Off cpu (some i) k o in
      Off-if (is_mlfq (ticked cpu (some i) k).selector)
        (tick_proc-Off i (ticked cpu (some i) k) (λ e. ne (ap some e)) o1) o1

  switch-Off : (k : Kernel) → OffQueues p k → OffQueues p (use_mlfq_scheduler k)
  unfolding use_mlfq_scheduler
  switch-Off k o = record { in_force = refl; lacks = o.lacks }

  -- Nothing that the other processes or the interrupts do puts a process that is off the queues back on
  -- them.
  pub Elsewhere-Off : {k k' : Kernel} → Elsewhere p k k' → OffQueues p k → OffQueues p k'
  Elsewhere-Off {k} (wakes c me) o = wakeup-Off c me k o
  Elsewhere-Off {k} (kills pid) o = kill-Off pid k o
  Elsewhere-Off {k} selects o = (select-Off p k o).1
  Elsewhere-Off {k} (dispatches i ne) o = dispatch-Off p (some i) k o
  Elsewhere-Off {k} switches o = switch-Off k o
  Elsewhere-Off {k} (exits status me ne) o = exit-Off status me k o
  Elsewhere-Off {k} (forks child level ne) o = add-Off p child level k ne o
  Elsewhere-Off {k} (yields me ne) o = yield-Off me k ne o
  Elsewhere-Off {k} (sleeps c me ne) o = sleep-Off c me k o
  Elsewhere-Off {k} (resumes me ne) o = resume-Off me k ne o
  Elsewhere-Off {k} (ticks cpu me ne) o = clockintr-Off cpu me k ne o
