-- ===== src/Proc/Table.antt =====
-- kernel/proc.c: the routines that walk or change the process table. `me` is the slot of the process
-- that runs the code, `none` where an interrupt finds no process.
pub mod Wakeup
pub mod Priority
use aut_whuoslab.Prelude.{
  ℕ, zero, suc, Bool, true, false, ◌&&◌, List, [], ◌∷◌, Option, none, some, ℤ, pos, negsuc, int_inc,
  int_eq, int_lt, ◌||◌, minus_one, modify, if◌then◌else◌,
}
use aut_whuoslab.Proc.Types.{
  nproc, unused, used, runnable, zombie, is_sleeping, is_unused, Chan, null, of_proc, chan_eq, Proc,
  Kernel, at, is_slot, is_mlfq,
}
use aut_whuoslab.Proc.Mlfq.{mlfq_remove_process}

-- `proc[i]` by a change of some of its fields.
abbrev pub update_proc : ℕ → (Proc → Proc) → Kernel → Kernel
update_proc i f k = record k { procs = modify k.procs i f }

-- The body of the loop of `wakeup` for one process.
abbrev pub wake : Chan → Proc → Proc
wake c p = if is_sleeping p.state && chan_eq p.chan c then record p { state = runnable } else p

-- The loop from slot `i` on.
unfoldable pub wake_from : Chan → Option ℕ → ℕ → List Proc → List Proc
wake_from c me i [] = []
wake_from c me i (p ∷ ps) = (if is_slot me i then p else wake c p) ∷ wake_from c me (suc i) ps

unfoldable pub wakeup : Chan → Option ℕ → Kernel → Kernel
unfolding wake_from
wakeup c me k = record k { procs = wake_from c me 0 k.procs }

-- `allocpid`
unfoldable pub allocpid : Kernel → ℤ × Kernel
allocpid k = (k.nextpid, record k { nextpid = int_inc k.nextpid })

-- The first UNUSED slot from `i` on.
pub unused_from : ℕ → List Proc → Option ℕ
unused_from i [] = none
unused_from i (p ∷ ps) = if is_unused p.state then some i else unused_from (suc i) ps

-- `allocproc` up to the allocation of its pages: the slot is taken and its scheduling fields set.
unfoldable pub alloc_slot : Kernel → Option ℕ × Kernel
unfolding unused_from allocpid
alloc_slot k = elim (unused_from 0 k.procs) [
  | none ↦ (none, k)
  | some i ↦
      let (pid, k') = allocpid k in
      (
        some i,
        update_proc i
            (λ p. record p {
              pid = pid;
              state = used;
              priority = pos 5;
              errno = pos 0;
              mlfq_level = 0;
              time_used = 0;
              time_quantum = 1;
            })
            k',
      )
]

-- `freeproc` after its pages are given back.
abbrev pub clear : Proc → Proc
clear p = record p {
  pid = pos 0;
  parent = none;
  chan = null;
  killed = false;
  xstate = pos 0;
  state = unused;
}

-- `kkill` for one process, and the loop from slot `i` on.
abbrev pub kill_one : Proc → Proc
kill_one p = record p { killed = true; state = if is_sleeping p.state then runnable else p.state }

unfoldable pub kill_from : ℤ → List Proc → ℤ × List Proc
kill_from pid [] = (minus_one, [])
kill_from pid (p ∷ ps) =
    let (r, ps') = kill_from pid ps in
    if int_eq p.pid pid then (pos 0, kill_one p ∷ ps) else (r, p ∷ ps')

unfoldable pub kkill : ℤ → Kernel → ℤ × Kernel
unfolding kill_from
kkill pid k = let (r, ps) = kill_from pid k.procs in (r, record k { procs = ps })

unfoldable pub setkilled : ℕ → Kernel → Kernel
setkilled i k = update_proc i (λ p. record p { killed = true }) k

unfoldable pub killed : ℕ → Kernel → Bool
killed i k = (at k i).killed

-- The loop of `reparent` from slot `i` on, over the slots left: each child of `me` goes to init, which is
-- woken.
unfoldable pub reparent_from : ℕ → ℕ → ℕ → Kernel → Kernel
unfolding wakeup
reparent_from zero i me k = k
reparent_from (suc rounds) i me k = reparent_from rounds (suc i) me (
    if is_slot (at k i).parent me
    then wakeup (of_proc k.initproc) (some me)
        (update_proc i (λ p. record p { parent = some k.initproc }) k)
    else k)

unfoldable pub reparent : ℕ → Kernel → Kernel
unfolding reparent_from
reparent me k = reparent_from nproc 0 me k

-- The channel of a process pointer.
abbrev pub chan_of : Option ℕ → Chan
chan_of none = null
chan_of (some i) = of_proc i

-- `kexit` from the point where the files and the directory are closed up to the switch to the scheduler.
unfoldable pub exit_proc : ℤ → ℕ → Kernel → Kernel
unfolding reparent wakeup
exit_proc status me k =
    let k1 = reparent me k in
    let k2 = wakeup (chan_of (at k1 me).parent) (some me) k1 in
    let k3 = if is_mlfq k2.selector then mlfq_remove_process me (at k2 me).mlfq_level k2 else k2 in
    update_proc me (λ p. record p { xstate = status; state = zombie }) k3

-- `sys_setpriority` and `sys_getpriority` of kernel/sysproc.c.
abbrev pub einval : ℤ
einval = negsuc 21

abbrev pub esrch : ℤ
esrch = negsuc 2

pub priority_from : ℤ → ℤ → List Proc → ℤ × List Proc
priority_from pid priority [] = (esrch, [])
priority_from pid priority (p ∷ ps) =
    let (r, ps') = priority_from pid priority ps in
    if int_eq p.pid pid then (pos 0, record p { priority = priority } ∷ ps) else (r, p ∷ ps')

unfoldable pub setpriority : ℤ → ℤ → ℕ → Kernel → ℤ × Kernel
unfolding priority_from
setpriority pid priority me k =
    if int_lt priority (pos 0) || int_lt (pos 9) priority
    then (einval, k)
    else if int_eq pid (pos 0)
    then (pos 0, update_proc me (λ p. record p { priority = priority }) k)
    else (let (r, ps) = priority_from pid priority k.procs in (r, record k { procs = ps }))

pub find_priority : ℤ → List Proc → ℤ
find_priority pid [] = esrch
find_priority pid (p ∷ ps) = if int_eq p.pid pid then p.priority else find_priority pid ps

unfoldable pub getpriority : ℤ → ℕ → Kernel → ℤ
unfolding find_priority
getpriority pid me k = if int_eq pid (pos 0) then (at k me).priority else find_priority pid k.procs
