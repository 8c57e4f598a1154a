-- ===== src/Spinlock.antt =====
-- kernel/spinlock.c: the spinlocks, and the interrupts of each CPU. A lock and a CPU are their numbers. The atomic swap
-- of `acquire` and the note of the CPU behind it are one step; the fences and the names of locks are left out.
pub mod Counted
pub mod Turns
mod Tests
use aut_whuoslab.Prelude.{
  ℕ, zero, suc, Bool, true, false, not, ◌&&◌, List, [], ◌∷◌, Option, none, some, ℤ, pos, int_inc,
  int_dec, is_positive, is_zero, get_or, set, modify, ◌==◌, if◌then◌else◌, Outcome, done, panic,
  ◌>>=◌,
}

-- `struct spinlock`
pub record Spinlock : Type 0 where
  pub locked : Bool
  pub cpu : Option ℕ

-- `noff` and `intena` of `struct cpu`, and whether the CPU takes interrupts.
pub record Cpu : Type 0 where
  pub noff : ℤ
  pub intena : Bool
  pub intr : Bool

pub record Machine : Type 0 where
  pub locks : List Spinlock
  pub cpus : List Cpu

abbrev pub no_lock : Spinlock
no_lock = record { locked = false; cpu = none }

abbrev pub no_cpu : Cpu
no_cpu = record { noff = pos 0; intena = false; intr = false }

abbrev pub lock_at : ℕ → Machine → Spinlock
lock_at l m = get_or m.locks l no_lock

abbrev pub cpu_at : ℕ → Machine → Cpu
cpu_at c m = get_or m.cpus c no_cpu

abbrev pub is_cpu : Option ℕ → ℕ → Bool
is_cpu none c = false
is_cpu (some d) c = d == c

pub initlock : ℕ → Machine → Machine
initlock l m = record m { locks = set m.locks l no_lock }

pub holding : ℕ → ℕ → Machine → Bool
holding l c m = (lock_at l m).locked && is_cpu (lock_at l m).cpu c

-- On one CPU.
abbrev pub masked : Cpu → Cpu
masked x = record {
  noff = int_inc x.noff;
  intena = if is_zero x.noff then x.intr else x.intena;
  intr = false;
}

pub push_off : ℕ → Machine → Machine
push_off c m = record m { cpus = modify m.cpus c masked }

abbrev pub unmasked : Cpu → Cpu
unmasked x = record x { noff = int_dec x.noff; intr = is_zero (int_dec x.noff) && x.intena }

pub pop_off : ℕ → Machine → Outcome Machine
pop_off c m =
    if (cpu_at c m).intr
    then panic
    else if not (is_positive (cpu_at c m).noff)
    then panic
    else done (record m { cpus = modify m.cpus c unmasked })

-- `acquire` up to its loop.
pub acquire : ℕ → ℕ → Machine → Outcome Machine
unfolding push_off holding
acquire l c m = let m' = push_off c m in if holding l c m' then panic else done m'

-- One round of its loop; the Boolean says whether the CPU has got the lock.
pub acquire_test : ℕ → ℕ → Machine → Machine × Bool
acquire_test l c m =
    if (lock_at l m).locked
    then (m, false)
    else (record m { locks = set m.locks l (record { locked = true; cpu = some c }) }, true)

pub release : ℕ → ℕ → Machine → Outcome Machine
unfolding holding pop_off
release l c m =
    if not (holding l c m) then panic else pop_off c (record m { locks = set m.locks l no_lock })
