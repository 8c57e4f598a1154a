-- ===== src/Proc/Types.antt =====
-- kernel/proc.h and kernel/scheduler_ext.c: the process table and the state of the schedulers.
use mathlib.Core.Logic.{ite}
use aut_whuoslab.Prelude.{
  ℕ, Bool, true, false, List, Option, none, some, ℤ, pos, get_or, ◌==◌, ℕ_discrete,
}

-- kernel/param.h
abbrev pub nproc : ℕ
nproc = 64

-- `enum procstate`
pub data State : Type 0 where
  unused used sleeping runnable running zombie : State

abbrev pub is_runnable : State → Bool
is_runnable runnable = true
is_runnable unused = false
is_runnable used = false
is_runnable sleeping = false
is_runnable running = false
is_runnable zombie = false

abbrev pub is_sleeping : State → Bool
is_sleeping sleeping = true
is_sleeping unused = false
is_sleeping used = false
is_sleeping runnable = false
is_sleeping running = false
is_sleeping zombie = false

abbrev pub is_unused : State → Bool
is_unused unused = true
is_unused used = false
is_unused sleeping = false
is_unused runnable = false
is_unused running = false
is_unused zombie = false

abbrev pub is_zombie : State → Bool
is_zombie zombie = true
is_zombie unused = false
is_zombie used = false
is_zombie sleeping = false
is_zombie runnable = false
is_zombie running = false

-- A sleep channel is the address of a kernel object; the constructors are the objects that the code
-- sleeps on, by their place in their tables, and `null` is the 0 of a process that does not sleep.
pub data Chan : Type 0 where
  null : Chan
  of_proc of_sleeplock of_sem of_mutex of_cond of_rwlock of_nread of_nwrite : ℕ → Chan
  of_ticks of_log of_console : Chan

unfoldable pub Chan-discrete : Discrete Chan
Chan-discrete = hlevel ℕ_discrete

-- `a == b` of two channels.
abbrev pub chan_eq : Chan → Chan → Bool
chan_eq c d = ite (Chan-discrete c d) true false

-- `struct proc`, the fields that the process functions read. A `struct proc *` is the slot's number.
pub record Proc : Type 0 where
  pub state : State
  pub chan : Chan
  pub killed : Bool
  pub xstate : ℤ
  pub pid : ℤ
  pub priority : ℤ
  pub errno : ℤ
  pub mlfq_level : ℕ
  pub time_used : ℕ
  pub time_quantum : ℕ
  pub parent : Option ℕ

-- A slot of the zeroed static table.
abbrev pub zeroed : Proc
zeroed = record {
  state = unused;
  chan = null;
  killed = false;
  xstate = pos 0;
  pid = pos 0;
  priority = pos 0;
  errno = pos 0;
  mlfq_level = 0;
  time_used = 0;
  time_quantum = 0;
  parent = none;
}

-- `struct priority_queue`: an array of NPROC pointers, of which the first `count` are queued.
pub record Queue : Type 0 where
  pub processes : List (Option ℕ)
  pub count : ℕ

-- What `select_next_proc` points to.
pub data Selector : Type 0 where
  round_robin priority_first mlfq : Selector

abbrev pub is_mlfq : Selector → Bool
is_mlfq mlfq = true
is_mlfq round_robin = false
is_mlfq priority_first = false

pub record Kernel : Type 0 where
  pub procs : List Proc
  pub queues : List Queue
  pub current_level : ℕ
  pub time_slices : List ℕ
  pub selector : Selector
  pub nextpid : ℤ
  pub initproc : ℕ
  pub ticks : ℕ

-- `proc[i]`
abbrev pub at : Kernel → ℕ → Proc
at k i = get_or k.procs i zeroed

-- `a == b` of two process pointers.
abbrev pub is_slot : Option ℕ → ℕ → Bool
is_slot none i = false
is_slot (some j) i = j == i
