-- ===== src/Sync/RwExclusion.antt =====
-- Readers and writers keep each other out.
use aut_whuoslab.Prelude.{
  ℕ, ◌-◌, ◌^◌, ◌≡◌, refl, sym, subst, ◌≢◌, ◌⊎◌, inl, inr, Bool, true, false, ◌||◌, none, arith,
  ℕ_discrete, ℤ, negsuc, int_dec, is_positive, is_zero, get_or, set, get_or-set_cases,
  get_or-set_ne, Bool-cases, if◌then◌else◌,
}
use aut_whuoslab.Proc.Types.{is_slot}
use aut_whuoslab.Sync.{
  Sync, Call, RwLock, no_rwlock, rwlock, resume, set_rwlock, read_lock_test, rwlock_read_lock,
  rwlock_read_lock_resume, rwlock_read_unlock, write_lock_test, rwlock_write_lock,
  rwlock_write_lock_resume, rwlock_write_unlock, rwlock_init, cleared,
}
use aut_whuoslab.Sync.Steps.{
  guarded-keeps, RwStep, reads, resumes_read, unlocks_read, writes, resumes_write, unlocks_write,
  inits_rwlock,
}

-- Not a writer and readers at once.
abbrev pub IsApart : RwLock → Type 0
IsApart r = (r.writer ≡ false) ⊎ (is_positive r.readers ≡ false)

abbrev pub AllApart : Sync → Type 0
AllApart s = (i : ℕ) → IsApart (rwlock s i)

module _ (i me : ℕ) (s : Sync) (a : AllApart s) where
  set-Apart : (v : RwLock) → IsApart v → AllApart (set_rwlock i v s)
  set-Apart v h j = elim (ℕ_discrete i j) [
    | yes e ↦
        subst (λ j. IsApart (get_or (set s.rwlocks i v) j no_rwlock)) e
          (self (get_or-set_cases s.rwlocks i v no_rwlock))
    | no d ↦ subst IsApart (sym (get_or-set_ne s.rwlocks i j v no_rwlock d)) (a j)
  ]
    where
      self :
          (get_or (set s.rwlocks i v) i no_rwlock ≡ v)
            ⊎ (get_or (set s.rwlocks i v) i no_rwlock ≡ get_or s.rwlocks i no_rwlock)
          → IsApart (get_or (set s.rwlocks i v) i no_rwlock)
      self (inl e) = subst IsApart (sym e) h
      self (inr e) = subst IsApart (sym e) (a i)

  read_lock-Apart : AllApart (read_lock_test i me s).0
  unfolding read_lock_test
  read_lock-Apart = by_writer (rwlock s i).writer refl
    where
      by_writer : (b : Bool) → (rwlock s i).writer ≡ b → AllApart (read_lock_test i me s).0
      by_writer true e = rw e a
      by_writer false e = rw e (set-Apart _ (inl refl))

  write_lock-Apart : AllApart (write_lock_test i me s).0
  unfolding write_lock_test
  write_lock-Apart = elim (Bool-cases ((rwlock s i).writer || is_positive (rwlock s i).readers)) [
    | inl stay ↦ rw stay a
    | inr go ↦ rw go (set-Apart _ (inr (ground arith)))
  ]

  dec-Apart :
      (rwlock s i).readers ≢ negsuc (2 ^ 31 - 1)
      → IsApart (record (rwlock s i) { readers = int_dec (rwlock s i).readers })
  dec-Apart ne = left (a i)
    where
      lower :
          (v : ℤ)
          → v ≢ negsuc (2 ^ 31 - 1)
          → is_positive v ≡ false
          → is_positive (int_dec v) ≡ false
      lower v ne e = ground arith

      left :
          IsApart (rwlock s i)
          → IsApart (record (rwlock s i) { readers = int_dec (rwlock s i).readers })
      left (inl e) = inl e
      left (inr e) = inr (lower _ ne e)

  Apart-if :
      (b : Bool) (s1 s2 : Sync) (c1 c2 : Call)
      → AllApart s1
      → AllApart s2
      → AllApart (if◌then◌else◌ {A = Sync × Call} b (s1, c1) (s2, c2)).0
  Apart-if true s1 s2 c1 c2 h1 h2 = h1
  Apart-if false s1 s2 c1 c2 h1 h2 = h2

  Apart-either :
      (b : Bool) (s1 s2 : Sync) → AllApart s1 → AllApart s2 → AllApart (if b then s1 else s2)
  Apart-either true s1 s2 h1 h2 = h1
  Apart-either false s1 s2 h1 h2 = h2

-- No call on a reader-writer lock lets a writer and readers in at the same time, as the lock counts them,
-- unless its count of readers is -2147483648.
pub RwStep-Apart :
    {me : ℕ} {s s' : Sync}
    → ((i : ℕ) → (rwlock s i).readers ≢ negsuc (2 ^ 31 - 1))
    → RwStep me s s'
    → AllApart s
    → AllApart s'
unfolding rwlock_read_lock rwlock_read_lock_resume rwlock_read_unlock rwlock_write_lock
    rwlock_write_lock_resume rwlock_write_unlock rwlock_init
RwStep-Apart {me} {s} fits (reads id) a =
    guarded-keeps AllApart id s (λ i. read_lock_test i me s) a (λ i. read_lock-Apart i me s a)
RwStep-Apart {me} {s} fits (resumes_read i) a = read_lock-Apart i me (resume me s) a
RwStep-Apart {me} {s} fits (unlocks_read id) a = guarded-keeps AllApart id s _ a λ i.
    let left = set-Apart i me s a _ (dec-Apart i me s a (fits i)) in
    Apart-either i me s a (is_zero (int_dec (rwlock s i).readers)) _ _ left left
RwStep-Apart {me} {s} fits (writes id) a =
    guarded-keeps AllApart id s (λ i. write_lock_test i me s) a (λ i. write_lock-Apart i me s a)
RwStep-Apart {me} {s} fits (resumes_write i) a = write_lock-Apart i me (resume me s) a
RwStep-Apart {me} {s} fits (unlocks_write id) a = guarded-keeps AllApart id s _ a λ i.
    Apart-if i me s a (is_slot (rwlock s i).owner me) _ _ _ _
      (set-Apart i me s a (record (rwlock s i) { writer = false; owner = none }) (inl refl)) a
RwStep-Apart {me} {s} fits (inits_rwlock id) a =
    guarded-keeps AllApart id s _ a (λ i. set-Apart i me s a (cleared (rwlock s i)) (inl refl))
