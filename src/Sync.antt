-- ===== src/Sync.antt =====
-- kernel/sync_primitives.c: semaphores, mutexes, condition variables and reader-writer locks.
-- A call runs from its entry, or from the point where it is scheduled again after `sleep`, to its return
-- or its next `sleep`: `f` and `f_resume`. Under the object's spinlock this is one atomic step. The
-- parameter `me` is the slot of the calling process.
pub mod Steps
pub mod Waiting
pub mod RwWaiting
pub mod Exclusion
pub mod RwExclusion
mod Tests
use aut_whuoslab.Prelude.{
  ℕ, Bool, true, false, not, ◌&&◌, ◌||◌, List, map, Option, none, some, ℤ, pos, negsuc, int_inc,
  int_dec, is_positive, is_zero, minus_one, get_or, set, ltb, ◌==◌, if◌then◌else◌,
}
use aut_whuoslab.Proc.Types.{Kernel, Chan, of_sem, of_mutex, of_cond, of_rwlock, is_slot}
use aut_whuoslab.Proc.Table.{wakeup}
use aut_whuoslab.Proc.Switch.{sleep_begin, sleep_end}

-- `struct mutex`, `struct rwlock`; a semaphore is its value and a condition its number of waiters.
pub record Mutex : Type 0 where
  pub locked : Bool
  pub owner : Option ℕ

pub record RwLock : Type 0 where
  pub readers : ℤ
  pub writer : Bool
  pub owner : Option ℕ

-- NSEM, NCOND, NMUTEX and NRWLOCK
abbrev pub table_size : ℕ
table_size = 32

pub record Sync : Type 0 where
  pub kern : Kernel
  pub semaphores : List ℤ
  pub conditions : List ℤ
  pub mutexes : List Mutex
  pub rwlocks : List RwLock

-- A call returns a value, or the process is asleep inside it, or the machine has stopped.
pub data Call : Type 0 where
  returned : ℤ → Call
  slept panicked : Call

abbrev pub no_mutex : Mutex
no_mutex = record { locked = false; owner = none }

abbrev pub no_rwlock : RwLock
no_rwlock = record { readers = pos 0; writer = false; owner = none }

abbrev pub sem : Sync → ℕ → ℤ
sem s i = get_or s.semaphores i (pos 0)

abbrev pub cond_waiters : Sync → ℕ → ℤ
cond_waiters s i = get_or s.conditions i (pos 0)

abbrev pub mutex : Sync → ℕ → Mutex
mutex s i = get_or s.mutexes i no_mutex

abbrev pub rwlock : Sync → ℕ → RwLock
rwlock s i = get_or s.rwlocks i no_rwlock

-- The guard of every call: the place in the table, if the number is in its range.
abbrev pub index : ℤ → Option ℕ
index (pos i) = if ltb i table_size then some i else none
index (negsuc n) = none

-- A call on an object that passed the guard, -1 else.
abbrev pub guarded : ℤ → Sync → (ℕ → Sync × Call) → Sync × Call
guarded id s call = elim (index id) [ none ↦ (s, returned minus_one) | some i ↦ call i ]

-- `sleep` under the object's spinlock with `held` more spinlocks held: `sched` panics if there is any.
abbrev pub sleep_on : ℕ → Chan → ℕ → Sync → Sync × Call
sleep_on held c me s =
    if held == 0 then (record s { kern = sleep_begin c me s.kern }, slept) else (s, panicked)

abbrev pub wake_all : Chan → ℕ → Sync → Sync
wake_all c me s = record s { kern = wakeup c (some me) s.kern }

abbrev pub resume : ℕ → Sync → Sync
resume me s = record s { kern = sleep_end me s.kern }

abbrev pub cleared : RwLock → RwLock
cleared r = record r { readers = pos 0; writer = false }

pub sync_init : Sync → Sync
sync_init s = record s {
  semaphores = map (λ _. pos 0) s.semaphores;
  conditions = map (λ _. pos 0) s.conditions;
  mutexes = map (λ _. no_mutex) s.mutexes;
  rwlocks = map cleared s.rwlocks;
}

abbrev pub set_sem : ℕ → ℤ → Sync → Sync
set_sem i v s = record s { semaphores = set s.semaphores i v }

abbrev pub set_cond : ℕ → ℤ → Sync → Sync
set_cond i v s = record s { conditions = set s.conditions i v }

abbrev pub set_mutex : ℕ → Mutex → Sync → Sync
set_mutex i m s = record s { mutexes = set s.mutexes i m }

abbrev pub set_rwlock : ℕ → RwLock → Sync → Sync
set_rwlock i r s = record s { rwlocks = set s.rwlocks i r }

-- Semaphores.
pub sem_init : ℤ → ℤ → Sync → Sync × Call
sem_init id initial_value s = guarded id s λ i. (set_sem i initial_value s, returned (pos 0))

-- The loop of `sem_wait` at its test.
pub sem_wait_test : ℕ → ℕ → Sync → Sync × Call
sem_wait_test i me s =
    if is_positive (sem s i)
    then (set_sem i (int_dec (sem s i)) s, returned (pos 0))
    else sleep_on 0 (of_sem i) me s

pub sem_wait : ℤ → ℕ → Sync → Sync × Call
unfolding sem_wait_test
sem_wait id me s = guarded id s λ i. sem_wait_test i me s

pub sem_wait_resume : ℕ → ℕ → Sync → Sync × Call
unfolding sem_wait_test
sem_wait_resume i me s = sem_wait_test i me (resume me s)

pub sem_post : ℤ → ℕ → Sync → Sync × Call
sem_post id me s =
    guarded id s λ i. (wake_all (of_sem i) me (set_sem i (int_inc (sem s i)) s), returned (pos 0))

-- Mutexes.
pub mutex_init : ℤ → Sync → Sync × Call
mutex_init id s = guarded id s λ i. (set_mutex i no_mutex s, returned (pos 0))

-- The loop of `mutex_lock` at its test; the caller holds `held` spinlocks.
pub mutex_lock_test : ℕ → ℕ → ℕ → Sync → Sync × Call
mutex_lock_test held i me s =
    if (mutex s i).locked && not (is_slot (mutex s i).owner me)
    then sleep_on held (of_mutex i) me s
    else (set_mutex i (record { locked = true; owner = some me }) s, returned (pos 0))

pub mutex_lock : ℕ → ℤ → ℕ → Sync → Sync × Call
unfolding mutex_lock_test
mutex_lock held id me s = guarded id s λ i. mutex_lock_test held i me s

pub mutex_lock_resume : ℕ → ℕ → Sync → Sync × Call
unfolding mutex_lock_test
mutex_lock_resume i me s = mutex_lock_test 0 i me (resume me s)

pub mutex_unlock : ℤ → ℕ → Sync → Sync × Call
mutex_unlock id me s = guarded id s λ i.
    if is_slot (mutex s i).owner me
    then (wake_all (of_mutex i) me (set_mutex i no_mutex s), returned (pos 0))
    else (s, returned minus_one)

-- Condition variables.
pub cond_init : ℤ → Sync → Sync × Call
cond_init id s = guarded id s λ i. (set_cond i (pos 0) s, returned (pos 0))

pub cond_wait : ℤ → ℤ → ℕ → Sync → Sync × Call
unfolding mutex_unlock
cond_wait cond_id mutex_id me s = guarded cond_id s λ i.
    sleep_on 0 (of_cond i) me
      (mutex_unlock mutex_id me (set_cond i (int_inc (cond_waiters s i)) s)).0

-- After the sleep `cond_wait` calls `mutex_lock` with the condition's spinlock held, which is the one held spinlock
-- that it is given: where it would sleep, `sched` finds `noff` to be 2 and panics.
abbrev pub cond_wait_end : ℕ → Sync × Call → Sync × Call
cond_wait_end i (s, panicked) = (s, panicked)
cond_wait_end i (s, slept) = (s, slept)
cond_wait_end i (s, returned r) = (set_cond i (int_dec (cond_waiters s i)) s, returned (pos 0))

pub cond_wait_resume : ℕ → ℤ → ℕ → Sync → Sync × Call
unfolding mutex_lock
cond_wait_resume i mutex_id me s = cond_wait_end i (mutex_lock 1 mutex_id me (resume me s))

pub cond_signal : ℤ → ℕ → Sync → Sync × Call
cond_signal id me s =
    guarded id s λ i.
      (if is_positive (cond_waiters s i) then wake_all (of_cond i) me s else s, returned (pos 0))

pub cond_broadcast : ℤ → ℕ → Sync → Sync × Call
cond_broadcast id me s =
    guarded id s λ i.
      (if is_positive (cond_waiters s i) then wake_all (of_cond i) me s else s, returned (pos 0))

-- Reader-writer locks.
pub rwlock_init : ℤ → Sync → Sync × Call
rwlock_init id s = guarded id s λ i. (set_rwlock i (cleared (rwlock s i)) s, returned (pos 0))

pub read_lock_test : ℕ → ℕ → Sync → Sync × Call
read_lock_test i me s = if (rwlock s i).writer then sleep_on 0 (of_rwlock i) me s else (
  set_rwlock i (record (rwlock s i) { readers = int_inc (rwlock s i).readers }) s,
  returned (pos 0),
)

pub rwlock_read_lock : ℤ → ℕ → Sync → Sync × Call
unfolding read_lock_test
rwlock_read_lock id me s = guarded id s λ i. read_lock_test i me s

pub rwlock_read_lock_resume : ℕ → ℕ → Sync → Sync × Call
unfolding read_lock_test
rwlock_read_lock_resume i me s = read_lock_test i me (resume me s)

pub rwlock_read_unlock : ℤ → ℕ → Sync → Sync × Call
rwlock_read_unlock id me s = guarded id s λ i.
    let readers = int_dec (rwlock s i).readers in
    let s' = set_rwlock i (record (rwlock s i) { readers = readers }) s in
    (if is_zero readers then wake_all (of_rwlock i) me s' else s', returned (pos 0))

pub write_lock_test : ℕ → ℕ → Sync → Sync × Call
write_lock_test i me s =
    if (rwlock s i).writer || is_positive (rwlock s i).readers
    then sleep_on 0 (of_rwlock i) me s
    else (set_rwlock i (record (rwlock s i) { writer = true; owner = some me }) s, returned (pos 0))

pub rwlock_write_lock : ℤ → ℕ → Sync → Sync × Call
unfolding write_lock_test
rwlock_write_lock id me s = guarded id s λ i. write_lock_test i me s

pub rwlock_write_lock_resume : ℕ → ℕ → Sync → Sync × Call
unfolding write_lock_test
rwlock_write_lock_resume i me s = write_lock_test i me (resume me s)

pub rwlock_write_unlock : ℤ → ℕ → Sync → Sync × Call
rwlock_write_unlock id me s = guarded id s λ i.
    if is_slot (rwlock s i).owner me
    then (
      wake_all (of_rwlock i) me
          (set_rwlock i (record (rwlock s i) { writer = false; owner = none }) s),
      returned (pos 0),
    )
    else (s, returned minus_one)
