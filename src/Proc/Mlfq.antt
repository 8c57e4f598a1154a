-- ===== src/Proc/Mlfq.antt =====
-- kernel/scheduler_ext.c: the queues of the multi-level feedback scheduler.
pub mod Contents
use aut_whuoslab.Prelude.{
  ℕ, zero, suc, ◌+◌, ◌-◌, ◌^◌, List, [], ◌∷◌, Option, none, some, get_or, set, modify, map, ltb,
  leb, if◌then◌else◌,
}
use aut_whuoslab.Proc.Types.{nproc, Queue, Kernel, is_slot}

abbrev pub max_priority_levels : ℕ
max_priority_levels = 5

abbrev pub no_queue : Queue
no_queue = record { processes = []; count = 0 }

-- The body of `mlfq_add_process` under the queue's lock.
unfoldable pub add : Queue → ℕ → Queue
add q p =
    if ltb q.count nproc
    then record { processes = set q.processes q.count (some p); count = q.count + 1 }
    else q

-- `for(j = i; j < count - 1; j++) processes[j] = processes[j + 1];` over its rounds.
pub shift : ℕ → ℕ → List (Option ℕ) → List (Option ℕ)
shift zero j a = a
shift (suc rounds) j a = shift rounds (suc j) (set a j (get_or a (suc j) none))

-- The search of `mlfq_remove_process` from index `i` on, over the rounds left.
pub remove_from : ℕ → ℕ → Queue → ℕ → Queue
unfolding shift
remove_from zero i q p = q
remove_from (suc rounds) i q p =
    if is_slot (get_or q.processes i none) p
    then record { processes = shift (q.count - 1 - i) i q.processes; count = q.count - 1 }
    else remove_from rounds (suc i) q p

unfoldable pub remove : Queue → ℕ → Queue
unfolding remove_from
remove q p = remove_from q.count 0 q p

unfoldable pub mlfq_add_process : ℕ → ℕ → Kernel → Kernel
mlfq_add_process p level k =
    if leb max_priority_levels level
    then k
    else record k { queues = modify k.queues level (λ q. add q p) }

unfoldable pub mlfq_remove_process : ℕ → ℕ → Kernel → Kernel
mlfq_remove_process p level k =
    if leb max_priority_levels level
    then k
    else record k { queues = modify k.queues level (λ q. remove q p) }

-- The level that is searched, over the levels left: the first process of the first queue that has any.
unfoldable pub first_queued : ℕ → ℕ → List Queue → Option (Option ℕ × ℕ)
first_queued zero level qs = none
first_queued (suc rounds) level qs =
    if ltb 0 (get_or qs level no_queue).count
    then some (get_or (get_or qs level no_queue).processes 0 none, level)
    else first_queued rounds (suc level) qs

-- What `mlfq_scheduler` makes of the search.
abbrev pub found : Option (Option ℕ × ℕ) → Kernel → Option ℕ × Kernel
found none k = (none, k)
found (some (p, level)) k = (p, record k { current_level = level })

unfoldable pub mlfq_scheduler : Kernel → Option ℕ × Kernel
mlfq_scheduler k = found (first_queued max_priority_levels 0 k.queues) k

-- `scheduler_init`
abbrev pub emptied : Queue → Queue
emptied q = record q { count = 0 }

-- `time_slices[i] = 1 << i` from `i` on, over the rounds left.
pub slices_from : ℕ → ℕ → List ℕ
slices_from zero i = []
slices_from (suc rounds) i = 2 ^ i ∷ slices_from rounds (suc i)

unfoldable pub scheduler_init : Kernel → Kernel
unfolding slices_from
scheduler_init k = record k {
  queues = map emptied k.queues;
  time_slices = slices_from max_priority_levels 0;
  current_level = 0;
}
