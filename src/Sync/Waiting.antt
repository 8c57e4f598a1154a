-- ===== src/Sync/Waiting.antt =====
-- No lost wakeups: a process does not stay asleep on an object that it could have.
use aut_whuoslab.Prelude.{
  ℕ, ◌≡◌, refl, ◌≢◌, ◌⊎◌, inl, inr, Bool, true, false, not, ◌&&◌, some, arith, ℤ, pos, int_inc,
  int_dec, is_positive, minus_one, Bool-cases, if◌then◌else◌,
}
use aut_whuoslab.Proc.Types.{running, null, of_sem, of_mutex, at, is_slot}
use aut_whuoslab.Proc.Sleepers.{
  Nobody, Quiet, Quiet-set, Quiet-busy, Quiet-wake, Quiet-sleep, Quiet-resume,
}
use aut_whuoslab.Sync.{
  Sync, Call, returned, Mutex, no_mutex, sem, mutex, resume, wake_all, set_mutex, sem_wait_test,
  sem_init, mutex_init, index, sem_wait, sem_wait_resume, sem_post, mutex_lock_test, mutex_lock,
  mutex_lock_resume, mutex_unlock,
}
use aut_whuoslab.Sync.Steps.{
  guarded-keeps, guarded-keeps_at, SemStep, waits, resumes_wait, posts, inits_sem, MutexStep, locks,
  resumes_lock, unlocks, inits_mutex,
}

-- The objects that a process may have to wait for.
abbrev Spent : ℤ → Type 0
Spent v = is_positive v ≡ false

abbrev Taken : Mutex → Type 0
Taken m = m.locked ≡ true

-- Nobody sleeps on a semaphore with a positive value.
abbrev pub SemsQuiet : Sync → Type 0
SemsQuiet s = Quiet Spent of_sem (pos 0) s.semaphores s.kern.procs

-- Nobody sleeps on a free mutex.
abbrev pub MutexesQuiet : Sync → Type 0
MutexesQuiet s = Quiet Taken of_mutex no_mutex s.mutexes s.kern.procs

sem_apart : (i j : ℕ) → i ≢ j → of_sem i ≢ of_sem j
sem_apart i j ne = ground arith

sem_real : (i : ℕ) → null ≢ of_sem i
sem_real i = ground arith

sem_wait_test-Quiet : (i me : ℕ) (s : Sync) → SemsQuiet s → SemsQuiet (sem_wait_test i me s).0
unfolding sem_wait_test
sem_wait_test-Quiet i me s q = elim (Bool-cases (is_positive (sem s i))) [
  | inl go ↦ rw go (
      Quiet-set Spent of_sem (pos 0) sem_apart sem_real s.semaphores s.kern.procs i
        (int_dec (sem s i)) (nobody go (q i)) q)
  | inr stay ↦
      rw stay (Quiet-sleep Spent of_sem (pos 0) sem_apart sem_real s.semaphores s.kern i me stay q)
]
  where
    nobody :
        is_positive (sem s i) ≡ true
        → Spent (sem s i) ⊎ Nobody (of_sem i) s.kern.procs
        → Nobody (of_sem i) s.kern.procs
    nobody go (inl spent) = cc
    nobody go (inr n) = n

sem_wait_resume-Quiet : (i me : ℕ) (s : Sync) → SemsQuiet s → SemsQuiet (sem_wait_resume i me s).0
unfolding sem_wait_resume
sem_wait_resume-Quiet i me s q =
    sem_wait_test-Quiet i me (resume me s)
      (Quiet-resume Spent of_sem (pos 0) sem_apart sem_real s.semaphores s.kern me q)

-- The call is not an initialisation to a positive value of a semaphore on which a process sleeps.
abbrev pub SparesWaiters : {me : ℕ} {s s' : Sync} → SemStep me s s' → Type 0
SparesWaiters (waits id) = Unit {0}
SparesWaiters (resumes_wait i) = Unit {0}
SparesWaiters (posts id) = Unit {0}
SparesWaiters {me} {s} (inits_sem id v) =
    (i : ℕ) → index id ≡ some i → is_positive v ≡ true → Nobody (of_sem i) s.kern.procs

-- No `sem_wait`, `sem_post` or `sem_init` by a running process leaves anybody asleep on a semaphore with a positive value, but for
-- a `sem_init` with a positive value of one on which a process sleeps, since it wakes nobody.
pub SemStep-Quiet :
    {me : ℕ} {s s' : Sync}
    → (at s.kern me).state ≡ running
    → (call : SemStep me s s') → SparesWaiters call
    → SemsQuiet s
    → SemsQuiet s'
unfolding sem_wait sem_post sem_init
SemStep-Quiet {me} {s} r (waits id) c q =
    guarded-keeps SemsQuiet id s (λ i. sem_wait_test i me s) q (λ i. sem_wait_test-Quiet i me s q)
SemStep-Quiet {me} {s} r (resumes_wait i) c q = sem_wait_resume-Quiet i me s q
SemStep-Quiet {me} {s} r (posts id) c q = guarded-keeps SemsQuiet id s _ q λ i.
    Quiet-wake Spent of_sem (pos 0) sem_apart sem_real s.semaphores s.kern i me (int_inc (sem s i))
      r q
SemStep-Quiet {me} {s} r (inits_sem id v) c q = guarded-keeps_at SemsQuiet id s _ q λ i e.
    elim (Bool-cases (is_positive v)) [
      | inl up ↦
          Quiet-set Spent of_sem (pos 0) sem_apart sem_real s.semaphores s.kern.procs i v (c i e up)
            q
      | inr down ↦
          Quiet-busy Spent of_sem (pos 0) sem_apart sem_real s.semaphores s.kern.procs i v down q
    ]

mutex_apart : (i j : ℕ) → i ≢ j → of_mutex i ≢ of_mutex j
mutex_apart i j ne = ground arith

mutex_real : (i : ℕ) → null ≢ of_mutex i
mutex_real i = ground arith

mutex_lock_test-Quiet :
    (i me : ℕ) (s : Sync) → MutexesQuiet s → MutexesQuiet (mutex_lock_test 0 i me s).0
unfolding mutex_lock_test
mutex_lock_test-Quiet i me s q =
    elim (Bool-cases ((mutex s i).locked && not (is_slot (mutex s i).owner me))) [
      | inl stay ↦ rw stay (
          Quiet-sleep Taken of_mutex no_mutex mutex_apart mutex_real s.mutexes s.kern i me
            (ground arith) q)
      | inr go ↦ rw go (
          Quiet-busy Taken of_mutex no_mutex mutex_apart mutex_real s.mutexes s.kern.procs i
            (record { locked = true; owner = some me }) refl q)
    ]

mutex_lock_resume-Quiet :
    (i me : ℕ) (s : Sync) → MutexesQuiet s → MutexesQuiet (mutex_lock_resume i me s).0
unfolding mutex_lock_resume
mutex_lock_resume-Quiet i me s q =
    mutex_lock_test-Quiet i me (resume me s)
      (Quiet-resume Taken of_mutex no_mutex mutex_apart mutex_real s.mutexes s.kern me q)

-- The call is not an initialisation of a mutex on which a process sleeps.
abbrev pub SparesLockers : {me : ℕ} {s s' : Sync} → MutexStep me s s' → Type 0
SparesLockers (locks id) = Unit {0}
SparesLockers (resumes_lock i) = Unit {0}
SparesLockers (unlocks id) = Unit {0}
SparesLockers {me} {s} (inits_mutex id) =
    (i : ℕ) → index id ≡ some i → Nobody (of_mutex i) s.kern.procs

-- No `mutex_lock`, `mutex_unlock` or `mutex_init` by a running process leaves anybody asleep on a free mutex, but for
-- a `mutex_init` of one on which a process sleeps, since it wakes nobody.
pub MutexStep-Quiet :
    {me : ℕ} {s s' : Sync}
    → (at s.kern me).state ≡ running
    → (call : MutexStep me s s') → SparesLockers call
    → MutexesQuiet s
    → MutexesQuiet s'
unfolding mutex_lock mutex_unlock mutex_init
MutexStep-Quiet {me} {s} r (locks id) c q =
    guarded-keeps MutexesQuiet id s (λ i. mutex_lock_test 0 i me s) q
      (λ i. mutex_lock_test-Quiet i me s q)
MutexStep-Quiet {me} {s} r (resumes_lock i) c q = mutex_lock_resume-Quiet i me s q
MutexStep-Quiet {me} {s} r (inits_mutex id) c q = guarded-keeps_at MutexesQuiet id s _ q λ i e.
    Quiet-set Taken of_mutex no_mutex mutex_apart mutex_real s.mutexes s.kern.procs i no_mutex
      (c i e) q
MutexStep-Quiet {me} {s} r (unlocks id) c q =
    guarded-keeps MutexesQuiet id s _ q λ i. by_owner i (is_slot (mutex s i).owner me)
  where
    by_owner :
        (i : ℕ) (b : Bool)
        → MutexesQuiet
            (if◌then◌else◌ {A = Sync × Call} b
              (wake_all (of_mutex i) me (set_mutex i no_mutex s), returned (pos 0))
              (s, returned minus_one)).0
    by_owner i true =
        Quiet-wake Taken of_mutex no_mutex mutex_apart mutex_real s.mutexes s.kern i me no_mutex r q
    by_owner i false = q
