-- ===== src/Proc/Tests.antt =====
-- A table of three processes: init in slot 0, a runnable shell in slot 1 and the running process 2.
use aut_whuoslab.Prelude.{
  ℕ, ◌≡◌, refl, ◌≢◌, true, [], ◌∷◌, none, some, arith, pos, minus_one, ℕ_discrete, replicate,
}
use aut_whuoslab.Proc.Types.{
  unused, sleeping, runnable, running, zombie, of_sem, of_proc, Proc, zeroed, nproc, Queue,
  Chan-discrete, round_robin, mlfq, Kernel, at,
}
use aut_whuoslab.Proc.Mlfq.{
  remove, mlfq_add_process, mlfq_remove_process, first_queued, mlfq_scheduler, scheduler_init,
}
use aut_whuoslab.Proc.Mlfq.Contents.{contents, IsQueue, erase, remove-erase}
use aut_whuoslab.Proc.Table.{
  wakeup, allocpid, alloc_slot, clear, kkill, setkilled, killed, reparent, exit_proc, einval, esrch,
  setpriority, getpriority,
}
use aut_whuoslab.Proc.Select.{
  default_round_robin, priority_scheduler, select_next_proc, use_round_robin,
  use_priority_scheduler, use_mlfq_scheduler, schedule,
}
use aut_whuoslab.Proc.Select.Fairness.{round_robin_repeats}
use aut_whuoslab.Proc.Switch.{yield_begin, sleep_begin, clockintr, sleep_end}
use aut_whuoslab.Proc.Wait.{kwait, kwait_resume}
use aut_whuoslab.Proc.Starvation.{Lacks, OffQueues}
use aut_whuoslab.Proc.Starvation.Elsewhere.{wakes}
use aut_whuoslab.Proc.Starvation.Never.{
  start, then_event, OnlyAt, sleep-never_scheduled, use_mlfq_scheduler-never_scheduled,
}

abbrev init_proc : Proc
init_proc = record zeroed { state = sleeping; chan = of_proc 0; pid = pos 1; priority = pos 5 }

abbrev shell : Proc
shell = record zeroed { state = runnable; pid = pos 2; priority = pos 7; parent = some 0 }

abbrev me : Proc
me = record zeroed {
  state = running;
  pid = pos 3;
  priority = pos 5;
  time_quantum = 1;
  parent = some 1;
}

abbrev empty_queue : Queue
empty_queue = record { processes = replicate nproc none; count = 0 }

abbrev top_queue : Queue
top_queue = record { processes = some 1 ∷ some 2 ∷ replicate 62 none; count = 2 }

-- The multi-level feedback scheduler with slots 1 and 2 on its top level.
abbrev boot : Kernel
boot = record {
  procs = init_proc ∷ shell ∷ me ∷ zeroed ∷ [];
  queues = top_queue ∷ replicate 4 empty_queue;
  current_level = 0;
  time_slices = 1 ∷ 2 ∷ 4 ∷ 8 ∷ 16 ∷ [];
  selector = mlfq;
  nextpid = pos 4;
  initproc = 0;
  ticks = 0;
}

abbrev rr : Kernel
rr = record boot { selector = round_robin }

top_queue-IsQueue : IsQueue top_queue
top_queue-IsQueue = record { slots = refl; fits = omega arith }

empty_queue-IsQueue : IsQueue empty_queue
empty_queue-IsQueue = record { slots = refl; fits = omega arith }

empty-Lacks : (p : ℕ) → Lacks p empty_queue
empty-Lacks p = record { valid = empty_queue-IsQueue; absent = tt }

top-Lacks : Lacks 0 top_queue
top-Lacks = record { valid = top_queue-IsQueue; absent = (refl, (refl, tt)) }

boot-Off : OffQueues 0 boot
boot-Off = record {
  in_force = refl;
  lacks = (top-Lacks, (empty-Lacks 0, (empty-Lacks 0, (empty-Lacks 0, (empty-Lacks 0, tt)))));
}

boot-OnlyAt : OnlyAt 2 0 boot.queues
boot-OnlyAt = (
  top_queue-IsQueue,
  (refl, tt),
  (empty-Lacks 2, (empty-Lacks 2, (empty-Lacks 2, (empty-Lacks 2, tt)))),
)

-- Process 2 sleeps on a semaphore, the semaphore is posted, and the scheduler runs.
abbrev posted : Kernel
posted = wakeup (of_sem 3) none (sleep_begin (of_sem 3) 2 boot)

sleep-never_scheduled_example : (select_next_proc posted).0 ≢ some 2
sleep-never_scheduled_example =
    sleep-never_scheduled 2 (of_sem 3) boot posted refl (omega arith) boot-OnlyAt
      (then_event start (wakes (of_sem 3) none))

-- It was woken, and is not chosen.
posted_runnable : (at posted 2).state ≡ runnable
unfolding wakeup sleep_begin mlfq_remove_process remove Chan-discrete ℕ_discrete
posted_runnable = refl

use_mlfq_scheduler-never_scheduled_example :
    (select_next_proc (use_mlfq_scheduler (scheduler_init rr))).0 ≢ some 1
use_mlfq_scheduler-never_scheduled_example =
    use_mlfq_scheduler-never_scheduled 1 rr (use_mlfq_scheduler (scheduler_init rr))
      (
        top_queue-IsQueue,
        (
          empty_queue-IsQueue,
          (empty_queue-IsQueue, (empty_queue-IsQueue, (empty_queue-IsQueue, tt))),
        ),
      )
      start

remove-erase_example :
    (contents (remove top_queue 1) ≡ erase 1 (contents top_queue)) × IsQueue (remove top_queue 1)
remove-erase_example = remove-erase top_queue 1 top_queue-IsQueue

set_shell : (setpriority (pos 2) (pos 9) 2 boot).0 ≡ pos 0
unfolding setpriority
set_shell = refl

rr_runs : (schedule rr).0 ≡ some 1
unfolding schedule default_round_robin
rr_runs = refl

round_robin_repeats_example : (schedule (yield_begin 1 (schedule rr).1)).0 ≡ some 1
round_robin_repeats_example = round_robin_repeats rr 1 refl rr_runs

-- The policies, the calls and the clock on this table.
mlfq_runs : (mlfq_scheduler boot).0 ≡ some 1
unfolding mlfq_scheduler first_queued
mlfq_runs = refl

priority_runs : (schedule (use_priority_scheduler rr)).0 ≡ some 1
unfolding schedule use_priority_scheduler priority_scheduler
priority_runs = refl

default_runs : (select_next_proc (use_round_robin boot)).0 ≡ some 1
unfolding select_next_proc use_round_robin default_round_robin
default_runs = refl

slices_lem : (scheduler_init rr).time_slices ≡ boot.time_slices
unfolding scheduler_init
slices_lem = refl

alloc_first : (alloc_slot boot).0 ≡ some 3
unfolding alloc_slot
alloc_first = refl

alloc_pid : (at (alloc_slot boot).1 3).pid ≡ pos 4
unfolding alloc_slot
alloc_pid = refl

next_pid : (allocpid (alloc_slot boot).1).0 ≡ pos 5
unfolding alloc_slot allocpid
next_pid = refl

clear_unused : (clear me).state ≡ unused
clear_unused = refl

kill_wakes : (at (kkill (pos 1) boot).1 0).state ≡ runnable
unfolding kkill
kill_wakes = refl

kill_nobody : (kkill (pos 8) boot).0 ≡ minus_one
unfolding kkill
kill_nobody = refl

killed_set : killed 1 (setkilled 1 boot) ≡ true
unfolding killed setkilled
killed_set = refl

orphan : (at (reparent 1 boot) 2).parent ≡ some 0
unfolding reparent
orphan = refl

exit_zombie : (at (exit_proc (pos 7) 2 boot) 2).state ≡ zombie
unfolding exit_proc mlfq_remove_process
exit_zombie = refl

priority_range : (setpriority (pos 2) (pos 10) 2 boot).0 ≡ einval
unfolding setpriority
priority_range = refl

priority_nobody : (setpriority (pos 8) (pos 1) 2 boot).0 ≡ esrch
unfolding setpriority
priority_nobody = refl

priority_own : getpriority (pos 0) 2 boot ≡ pos 5
unfolding getpriority
priority_own = refl

tick_lowers : (at (clockintr 0 (some 2) boot) 2).mlfq_level ≡ 1
unfolding clockintr mlfq_remove_process mlfq_add_process wakeup
tick_lowers = refl

wait_sleeps : (kwait_resume true 1 rr).1 ≡ none
unfolding kwait_resume sleep_end
wait_sleeps = refl

wait_reaps : (kwait true 1 (exit_proc (pos 7) 2 rr)).1 ≡ some (pos 3)
unfolding kwait exit_proc Chan-discrete ℕ_discrete
wait_reaps = refl

wait_orphan : (kwait true 2 rr).1 ≡ some minus_one
unfolding kwait
wait_orphan = refl
