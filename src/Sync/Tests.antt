-- ===== src/Sync/Tests.antt =====
-- The objects with three processes: 1 has mutex 0, 2 runs, 3 sleeps on mutex 0.
use aut_whuoslab.Prelude.{
  ℕ, ◌-◌, ◌^◌, ◌≡◌, refl, ◌≢◌, inl, inr, true, false, [], ◌∷◌, some, arith, pos, negsuc, minus_one,
  replicate, get_or-replicate, sym, ap, ◌∙◌, zero, suc,
}
use aut_whuoslab.Proc.Types.{sleeping, running, of_mutex, Proc, zeroed, round_robin, Kernel}
use aut_whuoslab.Sync.{
  Sync, returned, slept, no_mutex, no_rwlock, mutex, rwlock, sem, sync_init, sem_init, sem_wait,
  sem_wait_resume, sem_post, mutex_init, mutex_lock, mutex_unlock, cond_init, cond_wait, panicked,
  cond_wait_resume, mutex_lock_test, rwlock_init, rwlock_read_lock, rwlock_read_unlock,
  rwlock_write_lock, rwlock_write_unlock,
}
use aut_whuoslab.Sync.Steps.{posts, inits_sem, locks, writes}
use aut_whuoslab.Sync.Waiting.{SemsQuiet, SemStep-Quiet, MutexesQuiet, MutexStep-Quiet}
use aut_whuoslab.Sync.RwWaiting.{RwLocksQuiet, RwStep-Quiet}
use aut_whuoslab.Sync.Exclusion.{Holds, MutexStep-Holds}
use aut_whuoslab.Sync.RwExclusion.{AllApart, RwStep-Apart}

abbrev running_proc : Proc
running_proc = record zeroed { state = running }

abbrev kernel : Kernel
kernel = record {
  procs =
      zeroed
      ∷ running_proc
      ∷ running_proc
      ∷ record zeroed { state = sleeping; chan = of_mutex 0 }
      ∷ [];
  queues = [];
  current_level = 0;
  time_slices = [];
  selector = round_robin;
  nextpid = pos 4;
  initproc = 0;
  ticks = 0;
}

-- Mutex 0 is held by process 1, and process 3 waits for it.
abbrev held : Sync
held = record {
  kern = kernel;
  semaphores = replicate 32 (pos 0);
  conditions = replicate 32 (pos 1);
  mutexes = record { locked = true; owner = some 1 } ∷ replicate 31 no_mutex;
  rwlocks = replicate 32 no_rwlock;
}

held-Holds : Holds held 0 1
held-Holds = (refl, refl)

-- Nobody sleeps on a semaphore or a reader-writer lock, and only on the mutex that is taken.
held-SemsQuiet : SemsQuiet held
held-SemsQuiet i = inr (refl, (refl, (refl, (ground arith, tt))))

held-MutexesQuiet : MutexesQuiet held
held-MutexesQuiet zero = inl refl
held-MutexesQuiet (suc i) = inr (refl, (refl, (refl, (ground arith, tt))))

held-RwLocksQuiet : RwLocksQuiet held
held-RwLocksQuiet i = inr (refl, (refl, (refl, (ground arith, tt))))

few_readers : (i : ℕ) → (rwlock held i).readers ≢ pos (2 ^ 31 - 1)
few_readers i e = absurd_eq (sym (ap (λ r. r.readers) (get_or-replicate 32 i no_rwlock)) ∙ e)
  where
    absurd_eq : pos 0 ≡ pos 2147483647 → ⊥
    absurd_eq e = ground arith

no_minus : (i : ℕ) → (rwlock held i).readers ≢ negsuc (2 ^ 31 - 1)
no_minus i e = absurd_eq (sym (ap (λ r. r.readers) (get_or-replicate 32 i no_rwlock)) ∙ e)
  where
    absurd_eq : pos 0 ≡ negsuc 2147483647 → ⊥
    absurd_eq e = ground arith

held-AllApart : AllApart held
held-AllApart i = inl (ap (λ r. r.writer) (get_or-replicate 32 i no_rwlock))

MutexStep-Holds_example : Holds (mutex_lock 0 (pos 0) 2 held).0 0 1
MutexStep-Holds_example = MutexStep-Holds 0 (omega arith) (locks (pos 0)) tt held-Holds

MutexStep-Quiet_example : MutexesQuiet (mutex_lock 0 (pos 0) 2 held).0
MutexStep-Quiet_example = MutexStep-Quiet refl (locks (pos 0)) tt held-MutexesQuiet

-- Semaphore 3, on which nobody sleeps, may be initialised to 8.
sem_init-Quiet : SemsQuiet (sem_init (pos 3) (pos 8) held).0
sem_init-Quiet =
    SemStep-Quiet {me = 2} refl (inits_sem (pos 3) (pos 8))
      (λ i e up. (refl, (refl, (refl, (ground arith, tt))))) held-SemsQuiet

SemStep-Quiet_example : SemsQuiet (sem_post (pos 3) 2 held).0
SemStep-Quiet_example = SemStep-Quiet refl (posts (pos 3)) tt held-SemsQuiet

RwStep-Quiet_example : RwLocksQuiet (rwlock_write_lock (pos 3) 2 held).0
RwStep-Quiet_example = RwStep-Quiet refl few_readers (writes (pos 3)) tt held-RwLocksQuiet

RwStep-Apart_example : AllApart (rwlock_write_lock (pos 3) 2 held).0
RwStep-Apart_example = RwStep-Apart no_minus (writes (pos 3)) held-AllApart

-- The calls on this state.
init_clears : (sync_init held).semaphores ≡ held.semaphores
unfolding sync_init
init_clears = refl

sem_after_init : sem (sem_init (pos 3) (pos 8) held).0 3 ≡ pos 8
unfolding sem_init
sem_after_init = refl

sem_range : (sem_post (pos 32) 2 held).1 ≡ returned minus_one
unfolding sem_post
sem_range = refl

sem_sleeps : (sem_wait (pos 3) 2 held).1 ≡ slept
unfolding sem_wait
sem_sleeps = refl

-- A waiter that is scheduled after a post gets through.
sem_gets :
    (sem_wait_resume 3 2 (sem_post (pos 3) 1 (sem_wait (pos 3) 2 held).0).0).1 ≡ returned (pos 0)
unfolding sem_wait_resume sem_post sem_wait
sem_gets = refl

mutex_init_frees : mutex (mutex_init (pos 0) held).0 0 ≡ no_mutex
unfolding mutex_init
mutex_init_frees = refl

cond_init_lem : (cond_init (negsuc 0) held).1 ≡ returned minus_one
unfolding cond_init
cond_init_lem = refl

cond_sleeps : (cond_wait (pos 2) (pos 0) 1 held).1 ≡ slept
unfolding cond_wait
cond_sleeps = refl

-- `cond_wait` gave the mutex up first.
cond_unlocks : mutex (cond_wait (pos 2) (pos 0) 1 held).0 0 ≡ no_mutex
unfolding cond_wait mutex_unlock
cond_unlocks = refl

-- A reader keeps a writer out, and one call of `rwlock_read_unlock` by anyone lets the writer in.
read_then_write : (rwlock_write_lock (pos 3) 2 (rwlock_read_lock (pos 3) 1 held).0).1 ≡ slept
unfolding rwlock_write_lock rwlock_read_lock
read_then_write = refl

stray_unlock :
    (rwlock_write_lock
      (pos 3)
      2
      (rwlock_read_unlock (pos 3) 2 (rwlock_read_lock (pos 3) 1 held).0).0).1
    ≡ returned (pos 0)
unfolding rwlock_write_lock rwlock_read_unlock rwlock_read_lock
stray_unlock = refl

write_unlock_owner : (rwlock_write_unlock (pos 3) 2 held).1 ≡ returned minus_one
unfolding rwlock_write_unlock
write_unlock_owner = refl

rwlock_init_lem : rwlock (rwlock_init (pos 3) (rwlock_read_lock (pos 3) 1 held).0).0 3 ≡ no_rwlock
unfolding rwlock_init rwlock_read_lock
rwlock_init_lem = refl

-- An initialisation by another process frees a mutex that process 1 has.
freed_by_init : (mutex (mutex_init (pos 0) held).0 0).locked ≡ false
unfolding mutex_init
freed_by_init = refl

-- Process 2 goes on in `cond_wait` while process 1 has the mutex.
wait_panics : (cond_wait_resume 0 (pos 0) 2 held).1 ≡ panicked
unfolding cond_wait_resume mutex_lock mutex_lock_test
wait_panics = refl
