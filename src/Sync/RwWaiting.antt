-- ===== src/Sync/RwWaiting.antt =====
-- No lost wakeups on reader-writer locks.
use aut_whuoslab.Prelude.{
  ℕ, ◌≡◌, refl, ◌≢◌, ◌⊎◌, inl, inr, Bool, true, false, ◌||◌, none, some, arith, ℤ, pos, int_inc,
  int_dec, is_positive, is_zero, minus_one, set, ◌^◌, ◌-◌, Bool-cases, if◌then◌else◌, subst, sym,
}
use aut_whuoslab.Proc.Types.{running, null, of_rwlock, at, is_slot}
use aut_whuoslab.Proc.Table.{wakeup}
use aut_whuoslab.Proc.Switch.{sleep_begin}
use aut_whuoslab.Proc.Sleepers.{
  Nobody, Quiet, Quiet-set, Quiet-busy, Quiet-wake, Quiet-sleep, Quiet-resume,
}
use aut_whuoslab.Sync.{
  Sync, Call, returned, RwLock, no_rwlock, rwlock, resume, wake_all, set_rwlock, read_lock_test,
  rwlock_read_lock, rwlock_read_lock_resume, rwlock_read_unlock, write_lock_test, rwlock_write_lock,
  rwlock_write_lock_resume, rwlock_write_unlock, rwlock_init, cleared, index,
}
use aut_whuoslab.Sync.Steps.{
  guarded-keeps, guarded-keeps_at, RwStep, reads, resumes_read, unlocks_read, writes, resumes_write,
  unlocks_write, inits_rwlock,
}

-- A lock that a process may have to wait for.
abbrev InUse : RwLock → Type 0
InUse r = (r.writer || is_positive r.readers) ≡ true

-- Nobody sleeps on a lock that has neither a writer nor readers.
abbrev pub RwLocksQuiet : Sync → Type 0
RwLocksQuiet s = Quiet InUse of_rwlock no_rwlock s.rwlocks s.kern.procs

rwlock_apart : (i j : ℕ) → i ≢ j → of_rwlock i ≢ of_rwlock j
rwlock_apart i j ne = ground arith

rwlock_real : (i : ℕ) → null ≢ of_rwlock i
rwlock_real i = ground arith

module _ (i me : ℕ) (s : Sync) (q : RwLocksQuiet s) where
  -- A lock that is free has no sleepers.
  free-Nobody :
      (rwlock s i).writer ≡ false
      → is_positive (rwlock s i).readers ≡ false
      → Nobody (of_rwlock i) s.kern.procs
  free-Nobody w f = unused (q i)
    where
      unused :
          InUse (rwlock s i) ⊎ Nobody (of_rwlock i) s.kern.procs → Nobody (of_rwlock i) s.kern.procs
      unused (inl b) = ground arith
      unused (inr n) = n

  -- A write that leaves the lock in use, or to a lock that is free.
  rw_busy :
      (v : RwLock) → InUse v → Quiet InUse of_rwlock no_rwlock (set s.rwlocks i v) s.kern.procs
  rw_busy v b =
      Quiet-busy InUse of_rwlock no_rwlock rwlock_apart rwlock_real s.rwlocks s.kern.procs i v b q

  rw_free :
      (v : RwLock)
      → Nobody (of_rwlock i) s.kern.procs
      → Quiet InUse of_rwlock no_rwlock (set s.rwlocks i v) s.kern.procs
  rw_free v n =
      Quiet-set InUse of_rwlock no_rwlock rwlock_apart rwlock_real s.rwlocks s.kern.procs i v n q

  rw_sleep :
      InUse (rwlock s i)
      → Quiet InUse of_rwlock no_rwlock s.rwlocks (sleep_begin (of_rwlock i) me s.kern).procs
  rw_sleep b =
      Quiet-sleep InUse of_rwlock no_rwlock rwlock_apart rwlock_real s.rwlocks s.kern i me b q

  rw_wake :
      (at s.kern me).state ≡ running
      → (v : RwLock)
      → Quiet InUse of_rwlock no_rwlock
          (set s.rwlocks i v)
          (wakeup (of_rwlock i) (some me) s.kern).procs
  rw_wake r v =
      Quiet-wake InUse of_rwlock no_rwlock rwlock_apart rwlock_real s.rwlocks s.kern i me v r q

  more_readers : ℤ → RwLock
  more_readers v = record (rwlock s i) { readers = v }

  read_lock_test-Quiet :
      (rwlock s i).readers ≢ pos (2 ^ 31 - 1) → RwLocksQuiet (read_lock_test i me s).0
  unfolding read_lock_test more_readers
  read_lock_test-Quiet fits = elim (Bool-cases (rwlock s i).writer) [
    | inl stay ↦ rw stay (rw_sleep (ground arith))
    | inr go ↦
        subst RwLocksQuiet (sym (entered go))
          (by_count (Bool-cases (is_positive (int_inc (rwlock s i).readers))) go)
  ]
    where
      entered :
          (rwlock s i).writer ≡ false
          → (read_lock_test i me s).0 ≡ set_rwlock i (more_readers (int_inc (rwlock s i).readers)) s
      entered w = ground arith

      by_count :
          ((is_positive (int_inc (rwlock s i).readers) ≡ true)
            ⊎ (is_positive (int_inc (rwlock s i).readers) ≡ false))
          → (rwlock s i).writer ≡ false
          → Quiet InUse of_rwlock no_rwlock
              (set s.rwlocks i (more_readers (int_inc (rwlock s i).readers)))
              s.kern.procs
      by_count (inl some_left) w = rw_busy _ (ground arith)
      by_count (inr none_left) w = rw_free _ (free-Nobody w (ground arith))

  write_lock_test-Quiet : RwLocksQuiet (write_lock_test i me s).0
  unfolding write_lock_test
  write_lock_test-Quiet =
      elim (Bool-cases ((rwlock s i).writer || is_positive (rwlock s i).readers)) [
        | inl stay ↦ rw stay (rw_sleep stay)
        | inr go ↦ rw go (rw_busy (record (rwlock s i) { writer = true; owner = some me }) refl)
      ]

  -- The body of `rwlock_read_unlock` for a number in range.
  abbrev left_by_reader : Sync
  left_by_reader = set_rwlock i (record (rwlock s i) { readers = int_dec (rwlock s i).readers }) s

  read_unlock-Quiet :
      (at s.kern me).state ≡ running
      → RwLocksQuiet (
          if is_zero (int_dec (rwlock s i).readers)
          then wake_all (of_rwlock i) me left_by_reader
          else left_by_reader)
  unfolding more_readers
  read_unlock-Quiet r = elim (Bool-cases (is_zero (int_dec (rwlock s i).readers))) [
    | inl last ↦ rw last (rw_wake r (more_readers (int_dec (rwlock s i).readers)))
    | inr others ↦ rw others (
        by_use (Bool-cases ((rwlock s i).writer || is_positive (int_dec (rwlock s i).readers)))
          others)
  ]
    where
      by_use :
          (((rwlock s i).writer || is_positive (int_dec (rwlock s i).readers)) ≡ true)
            ⊎ (((rwlock s i).writer || is_positive (int_dec (rwlock s i).readers)) ≡ false)
          → is_zero (int_dec (rwlock s i).readers) ≡ false
          → Quiet InUse of_rwlock no_rwlock
              (set s.rwlocks i (more_readers (int_dec (rwlock s i).readers)))
              s.kern.procs
      by_use (inl busy) nz = rw_busy _ busy
      by_use (inr free) nz = rw_free _ (free-Nobody (ground arith) (ground arith))

  write_unlock-Quiet :
      (at s.kern me).state ≡ running
      → (b : Bool)
      → RwLocksQuiet
          (if◌then◌else◌ {A = Sync × Call} b
            (
              wake_all
                  (of_rwlock i)
                  me
                  (set_rwlock i (record (rwlock s i) { writer = false; owner = none }) s),
              returned (pos 0),
            )
            (s, returned minus_one)).0
  write_unlock-Quiet r true = rw_wake r (record (rwlock s i) { writer = false; owner = none })
  write_unlock-Quiet r false = q

-- The state in which a sleeper goes on.
resumed-Quiet : (me : ℕ) (s : Sync) → RwLocksQuiet s → RwLocksQuiet (resume me s)
resumed-Quiet me s q =
    Quiet-resume InUse of_rwlock no_rwlock rwlock_apart rwlock_real s.rwlocks s.kern me q

-- The call is not an initialisation of a lock on which a process sleeps.
abbrev pub SparesSleepers : {me : ℕ} {s s' : Sync} → RwStep me s s' → Type 0
SparesSleepers (reads id) = Unit {0}
SparesSleepers (resumes_read i) = Unit {0}
SparesSleepers (unlocks_read id) = Unit {0}
SparesSleepers (writes id) = Unit {0}
SparesSleepers (resumes_write i) = Unit {0}
SparesSleepers (unlocks_write id) = Unit {0}
SparesSleepers {me} {s} (inits_rwlock id) =
    (i : ℕ) → index id ≡ some i → Nobody (of_rwlock i) s.kern.procs

-- No call on a reader-writer lock by a running process leaves anybody asleep on a lock that has neither a
-- writer nor readers, unless a lock already had 2147483647 readers, and but for a `rwlock_init` of a lock on
-- which a process sleeps, since it wakes nobody.
pub RwStep-Quiet :
    {me : ℕ} {s s' : Sync}
    → (at s.kern me).state ≡ running
    → ((i : ℕ) → (rwlock s i).readers ≢ pos (2 ^ 31 - 1))
    → (call : RwStep me s s') → SparesSleepers call
    → RwLocksQuiet s
    → RwLocksQuiet s'
unfolding rwlock_read_lock rwlock_read_lock_resume rwlock_read_unlock rwlock_write_lock
    rwlock_write_lock_resume rwlock_write_unlock rwlock_init
RwStep-Quiet {me} {s} r fits (reads id) c q =
    guarded-keeps RwLocksQuiet id s (λ i. read_lock_test i me s) q
      (λ i. read_lock_test-Quiet i me s q (fits i))
RwStep-Quiet {me} {s} r fits (resumes_read i) c q =
    read_lock_test-Quiet i me (resume me s) (resumed-Quiet me s q) (fits i)
RwStep-Quiet {me} {s} r fits (unlocks_read id) c q =
    guarded-keeps RwLocksQuiet id s _ q (λ i. read_unlock-Quiet i me s q r)
RwStep-Quiet {me} {s} r fits (writes id) c q =
    guarded-keeps RwLocksQuiet id s (λ i. write_lock_test i me s) q
      (λ i. write_lock_test-Quiet i me s q)
RwStep-Quiet {me} {s} r fits (resumes_write i) c q =
    write_lock_test-Quiet i me (resume me s) (resumed-Quiet me s q)
RwStep-Quiet {me} {s} r fits (unlocks_write id) c q =
    guarded-keeps RwLocksQuiet id s _ q
      (λ i. write_unlock-Quiet i me s q r (is_slot (rwlock s i).owner me))
RwStep-Quiet {me} {s} r fits (inits_rwlock id) c q =
    guarded-keeps_at RwLocksQuiet id s _ q λ i e. rw_free i me s q (cleared (rwlock s i)) (c i e)
