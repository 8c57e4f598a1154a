-- ===== src/Sync/Exclusion.antt =====
-- Who owns a mutex, and who is inside a reader-writer lock.
use aut_whuoslab.Prelude.{
  ℕ, ◌≡◌, refl, sym, ap, ◌∙◌, subst, ◌≢◌, ◌⊎◌, inl, inr, Bool, true, false, not, ◌&&◌, Option, none,
  some, arith, ◌<◌, ℕ_discrete, ℤ, pos, minus_one, length, get_or, set, get_or-set_self,
  get_or-set_ne, Bool-cases, if◌then◌else◌, ◌==◌,
}
use aut_whuoslab.Proc.Types.{Chan, of_mutex, is_slot}
use aut_whuoslab.Sync.{
  Sync, Call, returned, slept, panicked, Mutex, no_mutex, table_size, mutex, resume, wake_all,
  set_mutex, guarded, sleep_on, mutex_lock_test, mutex_lock, mutex_lock_resume, mutex_unlock,
  mutex_init, cond_signal, cond_broadcast,
}
use aut_whuoslab.Proc.Switch.{sleep_begin}
use aut_whuoslab.Sync.Steps.{
  guarded-keeps, guarded-keeps_at, MutexStep, locks, resumes_lock, unlocks, inits_mutex, Spares,
}

-- Process `p` has the mutex `i`.
abbrev pub Holds : Sync → ℕ → ℕ → Type 0
Holds s i p = ((mutex s i).locked ≡ true) × ((mutex s i).owner ≡ some p)

module _ (me i p : ℕ) (s : Sync) where
  -- A write to another mutex leaves this one as it is.
  set_other : (j : ℕ) (v : Mutex) → j ≢ i → Holds s i p → Holds (set_mutex j v s) i p
  set_other j v d h =
      let e = get_or-set_ne s.mutexes j i v no_mutex d in
      (ap (λ m. m.locked) e ∙ h.0, ap (λ m. m.owner) e ∙ h.1)

  sleep_on-Holds : (held : ℕ) (c : Chan) → Holds s i p → Holds (sleep_on held c me s).0 i p
  sleep_on-Holds held c h = by_held (held == 0)
    where
      by_held :
          (b : Bool)
          → Holds
              (if◌then◌else◌ {A = Sync × Call} b
                (record s { kern = sleep_begin c me s.kern }, slept)
                (s, panicked)).0
              i
              p
      by_held true = h
      by_held false = h

  -- Somebody else's mutex is not taken.
  lock_test-Holds : (held j : ℕ) → me ≢ p → Holds s i p → Holds (mutex_lock_test held j me s).0 i p
  unfolding mutex_lock_test
  lock_test-Holds held j ne h = elim (ℕ_discrete j i) [
    | yes e ↦ rw (e, h.0, h.1, other) (sleep_on-Holds held (of_mutex i) h)
    | no d ↦ by_test ((mutex s j).locked && not (is_slot (mutex s j).owner me)) d
  ]
    where
      other : is_slot (some p) me ≡ false
      other = ground arith

      by_test :
          (b : Bool)
          → j ≢ i
          → Holds
              (if◌then◌else◌ {A = Sync × Call} b
                (sleep_on held (of_mutex j) me s)
                (set_mutex j (record { locked = true; owner = some me }) s, returned (pos 0))).0
              i
              p
      by_test true d = sleep_on-Holds held (of_mutex j) h
      by_test false d = set_other j (record { locked = true; owner = some me }) d h

  unlock-Holds :
      (j : ℕ)
      → me ≢ p
      → Holds s i p
      → Holds
          (if◌then◌else◌ {A = Sync × Call}
            (is_slot (mutex s j).owner me)
            (wake_all (of_mutex j) me (set_mutex j no_mutex s), returned (pos 0))
            (s, returned minus_one)).0
          i
          p
  unlock-Holds j ne h = elim (ℕ_discrete j i) [
    | yes e ↦ rw (e, h.1, other) h
    | no d ↦ by_owner (is_slot (mutex s j).owner me) d
  ]
    where
      other : is_slot (some p) me ≡ false
      other = ground arith

      by_owner :
          (b : Bool)
          → j ≢ i
          → Holds
              (if◌then◌else◌ {A = Sync × Call} b
                (wake_all (of_mutex j) me (set_mutex j no_mutex s), returned (pos 0))
                (s, returned minus_one)).0
              i
              p
      by_owner true d = set_other j no_mutex d h
      by_owner false d = h

-- A process keeps a mutex through every `mutex_lock` and `mutex_unlock` of another process, of this or another mutex,
-- and through every `mutex_init` of another mutex. A `mutex_init` of this very mutex frees it, whoever calls
-- it, and is left out.
pub MutexStep-Holds :
    {me p : ℕ} {s s' : Sync} (i : ℕ)
    → me ≢ p
    → (call : MutexStep me s s') → Spares i call
    → Holds s i p
    → Holds s' i p
unfolding mutex_lock mutex_lock_resume mutex_unlock mutex_init
MutexStep-Holds {me} {p} {s} i ne (locks id) c h =
    guarded-keeps (λ t. Holds t i p) id s (λ j. mutex_lock_test 0 j me s) h
      (λ j. lock_test-Holds me i p s 0 j ne h)
MutexStep-Holds {me} {p} {s} i ne (resumes_lock j) c h =
    lock_test-Holds me i p (resume me s) 0 j ne h
MutexStep-Holds {me} {p} {s} i ne (unlocks id) c h =
    guarded-keeps (λ t. Holds t i p) id s _ h (λ j. unlock-Holds me i p s j ne h)
MutexStep-Holds {me} {p} {s} i ne (inits_mutex id) c h =
    guarded-keeps_at (λ t. Holds t i p) id s _ h
      λ j e. set_other me i p s j no_mutex (λ d. c (e ∙ ap some d)) h

abbrev taken_by : ℕ → Mutex
taken_by p = record { locked = true; owner = some p }

guarded_lem :
    (i : ℕ) (s : Sync) (call : ℕ → Sync × Call) → i < table_size → guarded (pos i) s call ≡ call i
guarded_lem i s call lt = ground arith

mutex_lock-eq :
    (held i me : ℕ) (s : Sync)
    → i < table_size
    → mutex_lock held (pos i) me s ≡ mutex_lock_test held i me s
unfolding mutex_lock
mutex_lock-eq held i me s lt = guarded_lem i s (λ j. mutex_lock_test held j me s) lt

-- What a finished call of `mutex_lock` by `me` on mutex `i` has done.
abbrev pub Got : Sync → ℕ → ℕ → Sync × Call → Type 0
Got s i me (s', c) =
    (c ≡ returned (pos 0))
    × Holds s' i me
    × (((mutex s i).locked ≡ false) ⊎ ((mutex s i).owner ≡ some me))

-- What an unfinished one has: the caller sleeps, and the mutexes are as they were.
abbrev pub Blocked : Sync → ℕ → ℕ → Sync × Call → Type 0
Blocked s i me (s', c) =
    (c ≡ slept)
    × (s'.mutexes ≡ s.mutexes)
    × ((mutex s i).locked ≡ true)
    × (is_slot (mutex s i).owner me ≡ false)

is_slot-some : (o : Option ℕ) (p : ℕ) → is_slot o p ≡ true → o ≡ some p
is_slot-some none p e = cc
is_slot-some (some q) p e = ap some (ground arith)

free_or_mine :
    (b : Bool) (o : Option ℕ) (p : ℕ)
    → (b && not (is_slot o p)) ≡ false
    → (b ≡ false) ⊎ (o ≡ some p)
free_or_mine false o p e = inl refl
free_or_mine true o p e = inr (is_slot-some o p (ground arith))

-- A process that locks a mutex in range, in a full table, either gets it, from nobody or from itself, and
-- then has it, or falls asleep, and then the mutex is another's and stays so.
pub mutex_lock-cases :
    (i me : ℕ) (s : Sync)
    → i < table_size
    → length s.mutexes ≡ table_size
    → Got s i me (mutex_lock 0 (pos i) me s) ⊎ Blocked s i me (mutex_lock 0 (pos i) me s)
unfolding mutex_lock_test
mutex_lock-cases i me s lt len = rw (mutex_lock-eq 0 i me s lt) by_test
  where
    stored : get_or (set s.mutexes i (taken_by me)) i no_mutex ≡ taken_by me
    stored = get_or-set_self s.mutexes i (taken_by me) no_mutex (subst (λ n. i < n) (sym len) lt)

    by_test : Got s i me (mutex_lock_test 0 i me s) ⊎ Blocked s i me (mutex_lock_test 0 i me s)
    by_test = elim (Bool-cases ((mutex s i).locked && not (is_slot (mutex s i).owner me))) [
      | inl stay ↦ rw stay (inr (refl, refl, ground arith, ground arith))
      | inr go ↦ rw go (
          inl (refl, (ap (λ m. m.locked) stored, ap (λ m. m.owner) stored), free_or_mine _ _ me go))
    ]

-- Only the owner of a mutex unlocks it, and then it is free; anyone else gets -1 and nothing changes.
pub mutex_unlock-Owner :
    (i me : ℕ) (s : Sync)
    → i < table_size
    → length s.mutexes ≡ table_size
    → (((mutex s i).owner ≡ some me)
        × ((mutex_unlock (pos i) me s).1 ≡ returned (pos 0))
        × (mutex (mutex_unlock (pos i) me s).0 i ≡ no_mutex))
      ⊎ ((is_slot (mutex s i).owner me ≡ false)
          × (mutex_unlock (pos i) me s ≡ (s, returned minus_one)))
unfolding mutex_unlock
mutex_unlock-Owner i me s lt len = by_owner (Bool-cases (is_slot (mutex s i).owner me))
  where
    fits : i < length s.mutexes
    fits = subst (λ n. i < n) (sym len) lt

    step : Bool → Sync × Call
    step b =
        if◌then◌else◌ {A = Sync × Call} b
          (wake_all (of_mutex i) me (set_mutex i no_mutex s), returned (pos 0))
          (s, returned minus_one)

    Result : Sync × Call → Type 0
    Result r =
        (((mutex s i).owner ≡ some me) × (r.1 ≡ returned (pos 0)) × (mutex r.0 i ≡ no_mutex))
        ⊎ ((is_slot (mutex s i).owner me ≡ false) × (r ≡ (s, returned minus_one)))

    by_owner :
        ((is_slot (mutex s i).owner me ≡ true) ⊎ (is_slot (mutex s i).owner me ≡ false))
        → Result (mutex_unlock (pos i) me s)
    by_owner (inl mine) =
        subst Result (sym (guarded_lem i s _ lt ∙ ap step mine))
          (inl (is_slot-some _ me mine, refl, get_or-set_self s.mutexes i no_mutex no_mutex fits))
    by_owner (inr other) =
        subst Result (sym (guarded_lem i s _ lt ∙ ap step other)) (inr (other, refl))

-- `cond_signal` is `cond_broadcast`: it wakes all the waiters.
pub cond_signal-cond_broadcast :
    (id : ℤ) (me : ℕ) (s : Sync) → cond_signal id me s ≡ cond_broadcast id me s
unfolding cond_signal cond_broadcast
cond_signal-cond_broadcast id me s = refl
