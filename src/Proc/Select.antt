-- ===== src/Proc/Select.antt =====
-- The scheduling policies: kernel/proc.c and kernel/scheduler_ext.c, and one round of `scheduler`.
pub mod Policy
pub mod Fairness
use aut_whuoslab.Prelude.{
  ℕ, suc, List, [], ◌∷◌, Option, none, some, ℤ, int_lt, minus_one, ◌&&◌, if◌then◌else◌,
}
use aut_whuoslab.Proc.Types.{
  running, is_runnable, Proc, Kernel, Selector, round_robin, priority_first, mlfq, at,
}
use aut_whuoslab.Proc.Mlfq.{mlfq_scheduler}
use aut_whuoslab.Proc.Table.{update_proc}

-- `default_round_robin`, from slot `i` on.
pub runnable_from : ℕ → List Proc → Option ℕ
runnable_from i [] = none
runnable_from i (p ∷ ps) = if is_runnable p.state then some i else runnable_from (suc i) ps

unfoldable pub default_round_robin : Kernel → Option ℕ
unfolding runnable_from
default_round_robin k = runnable_from 0 k.procs

-- The loop of `priority_scheduler` from slot `i` on, with its two variables.
pub highest_from : ℕ → List Proc → Option ℕ → ℤ → Option ℕ
highest_from i [] best_proc highest_priority = best_proc
highest_from i (p ∷ ps) best_proc highest_priority =
    let better = is_runnable p.state && int_lt highest_priority p.priority in
    highest_from (suc i) ps (if better then some i else best_proc)
      (if better then p.priority else highest_priority)

unfoldable pub priority_scheduler : Kernel → Option ℕ
unfolding highest_from
priority_scheduler k = highest_from 0 k.procs none minus_one

-- `select_next_proc()`
unfoldable pub select_by : Selector → Kernel → Option ℕ × Kernel
select_by round_robin k = (default_round_robin k, k)
select_by priority_first k = (priority_scheduler k, k)
select_by mlfq k = mlfq_scheduler k

unfoldable pub select_next_proc : Kernel → Option ℕ × Kernel
unfolding select_by
select_next_proc k = select_by k.selector k

-- `set_scheduler`: no selector means the default one.
unfoldable pub set_scheduler : Option Selector → Kernel → Kernel
set_scheduler none k = record k { selector = round_robin }
set_scheduler (some s) k = record k { selector = s }

unfoldable pub use_round_robin : Kernel → Kernel
unfolding set_scheduler
use_round_robin k = set_scheduler none k

unfoldable pub use_priority_scheduler : Kernel → Kernel
unfolding set_scheduler
use_priority_scheduler k = set_scheduler (some priority_first) k

unfoldable pub use_mlfq_scheduler : Kernel → Kernel
unfolding set_scheduler
use_mlfq_scheduler k = set_scheduler (some mlfq) k

-- The section of `scheduler` under the lock of the selected process, up to the switch: the process that it
-- switches to, if it is still runnable.
unfoldable pub dispatch : Option ℕ × Kernel → Option ℕ × Kernel
dispatch (none, k) = (none, k)
dispatch (some i, k) =
    if is_runnable (at k i).state
    then (some i, update_proc i (λ p. record p { state = running }) k)
    else (none, k)

-- A round in which nothing comes between the selection, under the lock of the queues, and the test of the state,
-- under the lock of the selected process: that of a single processor.
unfoldable pub schedule : Kernel → Option ℕ × Kernel
unfolding select_next_proc dispatch
schedule k = dispatch (select_next_proc k)
