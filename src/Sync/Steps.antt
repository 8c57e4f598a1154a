-- ===== src/Sync/Steps.antt =====
-- kernel/sync_primitives.c: the calls that a process can make on each kind of object, as steps. A `cond_wait`, which
-- unlocks and locks a mutex on its way, is none of these steps.
use aut_whuoslab.Prelude.{ℕ, Option, none, some, ℤ, minus_one, ◌≡◌, ◌≢◌, refl}
use aut_whuoslab.Sync.{
  Sync, Call, returned, index, guarded, sem_init, mutex_init, rwlock_init, sem_wait,
  sem_wait_resume, sem_post, mutex_lock, mutex_lock_resume, mutex_unlock, rwlock_read_lock,
  rwlock_read_lock_resume, rwlock_read_unlock, rwlock_write_lock, rwlock_write_lock_resume,
  rwlock_write_unlock,
}

-- What holds of a state after any call on a guarded object holds after a refused one too.
pub guarded-keeps {ℓ} :
    (P : Sync → Type ℓ) (id : ℤ) (s : Sync) (call : ℕ → Sync × Call)
    → P s
    → ((i : ℕ) → P (call i).0)
    → P (guarded id s call).0
guarded-keeps P id s call h k = by_index (index id)
  where
    by_index :
        (o : Option ℕ)
        → P (elim o as (λ _. Sync × Call) [ none ↦ (s, returned minus_one) | some i ↦ call i ]).0
    by_index none = h
    by_index (some i) = k i

-- The same, where the call may use that the number is in range.
pub guarded-keeps_at {ℓ} :
    (P : Sync → Type ℓ) (id : ℤ) (s : Sync) (call : ℕ → Sync × Call)
    → P s
    → ((i : ℕ) → index id ≡ some i → P (call i).0)
    → P (guarded id s call).0
guarded-keeps_at P id s call h k = by_index (index id) refl
  where
    by_index :
        (o : Option ℕ)
        → index id ≡ o
        → P (elim o as (λ _. Sync × Call) [ none ↦ (s, returned minus_one) | some i ↦ call i ]).0
    by_index none e = h
    by_index (some i) e = k i e

-- A call of process `me` on some semaphore.
pub data SemStep (me : ℕ) (s : Sync) : Sync → Type 0 where
  waits : (id : ℤ) → SemStep me s (sem_wait id me s).0
  resumes_wait : (i : ℕ) → SemStep me s (sem_wait_resume i me s).0
  posts : (id : ℤ) → SemStep me s (sem_post id me s).0
  inits_sem : (id v : ℤ) → SemStep me s (sem_init id v s).0

-- A call of process `me` on some mutex.
pub data MutexStep (me : ℕ) (s : Sync) : Sync → Type 0 where
  locks : (id : ℤ) → MutexStep me s (mutex_lock 0 id me s).0
  resumes_lock : (i : ℕ) → MutexStep me s (mutex_lock_resume i me s).0
  unlocks : (id : ℤ) → MutexStep me s (mutex_unlock id me s).0
  inits_mutex : (id : ℤ) → MutexStep me s (mutex_init id s).0

-- A call of process `me` on some reader-writer lock.
pub data RwStep (me : ℕ) (s : Sync) : Sync → Type 0 where
  reads : (id : ℤ) → RwStep me s (rwlock_read_lock id me s).0
  resumes_read : (i : ℕ) → RwStep me s (rwlock_read_lock_resume i me s).0
  unlocks_read : (id : ℤ) → RwStep me s (rwlock_read_unlock id me s).0
  writes : (id : ℤ) → RwStep me s (rwlock_write_lock id me s).0
  resumes_write : (i : ℕ) → RwStep me s (rwlock_write_lock_resume i me s).0
  unlocks_write : (id : ℤ) → RwStep me s (rwlock_write_unlock id me s).0
  inits_rwlock : (id : ℤ) → RwStep me s (rwlock_init id s).0

-- The call is not an initialisation of mutex `i`.
abbrev pub Spares : {me : ℕ} {s s' : Sync} → ℕ → MutexStep me s s' → Type 0
Spares i (locks id) = Unit {0}
Spares i (resumes_lock j) = Unit {0}
Spares i (unlocks id) = Unit {0}
Spares i (inits_mutex id) = index id ≢ some i
