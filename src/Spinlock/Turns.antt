-- ===== src/Spinlock/Turns.antt =====
-- What the CPUs do with the spinlocks, turn by turn.
use aut_whuoslab.Prelude.{
  ℕ, suc, ◌+◌, ◌-◌, ◌^◌, ◌<◌, ◌≡◌, refl, sym, ap, ◌∙◌, subst, fun_ext, Bool, true, false, ◌&&◌,
  Option, none, some, arith, pos, int_inc, int_dec, is_positive, is_zero, length, get_or,
  get_or-set_self, set, modify, if◌then◌else◌, ℕ_discrete, Outcome, done, Returns, Returns-mono,
}
use aut_whuoslab.Kalloc.{update}
use aut_whuoslab.File.Uses.{is, holders, holders-set, is_self, get_or-modify_self}
use aut_whuoslab.Spinlock.{
  Cpu, Machine, no_lock, no_cpu, lock_at, cpu_at, is_cpu, holding, masked, push_off, unmasked,
  pop_off, acquire, acquire_test, release,
}
use aut_whuoslab.Spinlock.Counted.{
  owner, owners, length-owners, get_or-owners, owners-set, load, Counted, Counted-modify,
  Counted-locks,
}

abbrev pub bump : (ℕ → ℕ) → ℕ → ℕ → ℕ
bump pending c = update pending c (suc (pending c))

abbrev pub drop : (ℕ → ℕ) → ℕ → ℕ → ℕ
drop pending c = update pending c (pending c - 1)

-- A CPU that holds a lock is its owner.
holding-owner : (l c : ℕ) (m : Machine) → holding l c m ≡ true → owner (lock_at l m) ≡ some c
unfolding holding
holding-owner l c m h = by_parts (lock_at l m).locked (lock_at l m).cpu h
  where
    by_parts :
        (b : Bool) (o : Option ℕ) → (b && is_cpu o c) ≡ true → (if b then o else none) ≡ some c
    by_parts true (some d) e = ground (arith, e)
    by_parts true none e = absurd (cc)
    by_parts false o e = absurd (cc)

module _ (pending : ℕ → ℕ) (m : Machine) (v : Counted pending m) (c : ℕ)
    (b : c < length m.cpus) where
  pub push_off-Counted : load pending c m < 2 ^ 31 - 1 → Counted (bump pending c) (push_off c m)
  unfolding push_off
  push_off-Counted room =
      Counted-modify c (suc (pending c)) masked v b
        (ap int_inc (v.counts c b) ∙ ground (arith, room)) (λ u. refl)

  -- The interrupts come back with the last call, if they were on before the first.
  abbrev pub Popped : Machine → Type 0
  Popped m' =
      Counted (drop pending c) m'
      × ((cpu_at c m').intr ≡ (is_zero (pos (load pending c m - 1)) && (cpu_at c m).intena))
      × (m'.locks ≡ m.locks)

  pub pop_off-Popped : 0 < pending c → Returns Popped (pop_off c m)
  unfolding pop_off
  pop_off-Popped some_left =
      rw (off, positive)
        (
          Counted-modify c (pending c - 1) unmasked v b (ap int_dec (v.counts c b) ∙ lower)
              (λ u. ap (λ z. is_zero (int_dec z) && (cpu_at c m).intena) (v.counts c b) ∙ stays u),
          ap Cpu.intr (get_or-modify_self m.cpus c unmasked no_cpu b)
              ∙ ap (λ z. is_zero (int_dec z) && (cpu_at c m).intena) (v.counts c b)
              ∙ ap (λ z. is_zero z && (cpu_at c m).intena) one_less,
          refl,
        )
    where
      off : (cpu_at c m).intr ≡ false
      off = v.masks c b (omega (arith, some_left))

      positive : is_positive (cpu_at c m).noff ≡ true
      positive = ap is_positive (v.counts c b) ∙ ground (arith, some_left)

      one_less : int_dec (pos (load pending c m)) ≡ pos (load pending c m - 1)
      one_less = ground (arith, some_left)

      lower : int_dec (pos (load pending c m)) ≡ pos (holders c (owners m.locks) + (pending c - 1))
      lower = one_less ∙ ap pos (omega (arith, some_left))

      stays :
          0 < holders c (owners m.locks) + (pending c - 1)
          → (is_zero (int_dec (pos (load pending c m))) && (cpu_at c m).intena) ≡ false
      stays u = ap (λ z. is_zero z && (cpu_at c m).intena) lower ∙ ground (arith, u)

  module _ (l : ℕ) (r : l < length m.locks) where
    pub acquire-Counted :
        load pending c m < 2 ^ 31 - 1
        → holding l c m ≡ false
        → Returns (Counted (bump pending c)) (acquire l c m)
    unfolding acquire push_off holding
    acquire-Counted room n = rw n (push_off-Counted room)

    -- The CPU gets a free lock, which counts for one of its calls of `push_off` from then on; it does not get another one.
    abbrev pub Tried : Machine × Bool → Type 0
    Tried (m', true) =
        (owner (lock_at l m) ≡ none) × (owner (lock_at l m') ≡ some c) × Counted (drop pending c) m'
    Tried (m', false) = ((lock_at l m).locked ≡ true) × (m' ≡ m)

    pub acquire_test-Tried : 0 < pending c → Tried (acquire_test l c m)
    unfolding acquire_test
    acquire_test-Tried some_left = by_lock (lock_at l m).locked refl
      where
        by_lock :
            (t : Bool)
            → (lock_at l m).locked ≡ t
            → Tried (
                if t then (m, false) else (
                  record m { locks = set m.locks l (record { locked = true; cpu = some c }) },
                  true,
                ))
        by_lock true e = (e, refl)
        by_lock false e =
            let free : owner (lock_at l m) ≡ none = rw e refl in
            (
              free,
              ap owner
                  (get_or-set_self m.locks l (record { locked = true; cpu = some c }) no_lock r),
              Counted-locks (drop pending c) l (record { locked = true; cpu = some c }) v r
                  (λ d. balance d (ℕ_discrete c d) ∙ ap (λ o. is d o + pending d) (sym free)),
            )
          where
            balance :
                (d : ℕ) → Dec (c ≡ d) → is d (some c) + drop pending c d ≡ is d none + pending d
            balance d q = ground (arith, some_left, q)

module _ (pending : ℕ → ℕ) (m : Machine) (v : Counted pending m) (c : ℕ) (b : c < length m.cpus)
    (l : ℕ) (r : l < length m.locks) where
  -- The lock is free, the counts are right again, and the interrupts come back if this was all that
  -- kept them off.
  abbrev pub Released : Machine → Type 0
  Released m' =
      Counted pending m'
      × (owner (lock_at l m') ≡ none)
      × ((cpu_at c m').intr ≡ (is_zero (pos (load pending c m - 1)) && (cpu_at c m).intena))

  -- A CPU that holds a lock releases it without a panic: nobody has it then, `noff` still counts what keeps each
  -- CPU's interrupts off, and the interrupts of this CPU are on exactly if this lock was the last such thing
  -- and `intena` says that they were on before the first.
  pub release-Released : holding l c m ≡ true → Returns Released (release l c m)
  unfolding release
  release-Released h = rw h (
      Returns-mono (Popped (bump pending c) unlocked unlocked-Counted c b) Released
        (pop_off c unlocked)
        (pop_off-Popped (bump pending c) unlocked unlocked-Counted c b (omega (arith, self)))
        (λ m' p. (
          subst (λ q. Counted q m') back p.0,
          ap (λ ls. owner (get_or ls l no_lock)) p.2
              ∙ ap owner (get_or-set_self m.locks l no_lock no_lock r),
          p.1 ∙ ap (λ n. is_zero (pos (n - 1)) && (cpu_at c m).intena) same_load,
        )))
    where
      unlocked : Machine
      unlocked = record m { locks = set m.locks l no_lock }

      held : owner (lock_at l m) ≡ some c
      held = holding-owner l c m h

      self : bump pending c c ≡ suc (pending c)
      self = ground arith

      balance : (d : ℕ) → Dec (c ≡ d) → is d none + bump pending c d ≡ is d (some c) + pending d
      balance d q = ground (arith, q)

      unlocked-Counted : Counted (bump pending c) unlocked
      unlocked-Counted =
          Counted-locks (bump pending c) l no_lock v r
            (λ d. balance d (ℕ_discrete c d) ∙ ap (λ o. is d o + pending d) (sym held))

      back : drop (bump pending c) c ≡ pending
      back = fun_ext (λ d. same d (ℕ_discrete c d))
        where
          same : (d : ℕ) → Dec (c ≡ d) → drop (bump pending c) c d ≡ pending d
          same d (yes q) = ground (arith, q, ap pending q)
          same d (no q) = ground (arith, q)

      same_load : load (bump pending c) c unlocked ≡ load pending c m
      same_load = omega (
        arith,
        self,
        is_self c,
        holders-set c (owners m.locks) l none (omega (arith, r, length-owners m.locks)),
        ap (holders c) (owners-set m.locks l no_lock),
        ap (is c) (get_or-owners m.locks l ∙ held),
      )

-- A CPU's turn. `toggle` is a change of the interrupts where no `push_off` is in force.
pub data Turn : Type 0 where
  push : ℕ → Turn
  pop : ℕ → Turn
  begin : ℕ → ℕ → Turn
  try : ℕ → ℕ → Turn
  free : ℕ → ℕ → Turn
  toggle : ℕ → Bool → Turn

pub run_turn : Turn → Machine → Outcome Machine
run_turn (push c) m = done (push_off c m)
run_turn (pop c) m = pop_off c m
run_turn (begin l c) m = acquire l c m
run_turn (try l c) m = done (acquire_test l c m).0
run_turn (free l c) m = release l c m
run_turn (toggle c t) m = done (record m { cpus = modify m.cpus c (λ x. record x { intr = t }) })

-- The discipline: a CPU pops what it has pushed, does not acquire a lock that it holds, and releases only such a one.
abbrev pub Allowed : Turn → (ℕ → ℕ) → Machine → Type 0
Allowed (push c) pending m = (c < length m.cpus) × (load pending c m < 2 ^ 31 - 1)
Allowed (pop c) pending m = (c < length m.cpus) × (0 < pending c)
Allowed (begin l c) pending m =
    (c < length m.cpus)
    × (load pending c m < 2 ^ 31 - 1)
    × (l < length m.locks)
    × (holding l c m ≡ false)
Allowed (try l c) pending m = (c < length m.cpus) × (0 < pending c) × (l < length m.locks)
Allowed (free l c) pending m = (c < length m.cpus) × (l < length m.locks) × (holding l c m ≡ true)
Allowed (toggle c t) pending m = (c < length m.cpus) × (load pending c m ≡ 0)

-- What is pending after a turn.
abbrev pub after : Turn → (ℕ → ℕ) → Machine → ℕ → ℕ
after (push c) pending m = bump pending c
after (pop c) pending m = drop pending c
after (begin l c) pending m = bump pending c
after (try l c) pending m = if (acquire_test l c m).1 then drop pending c else pending
after (free l c) pending m = pending
after (toggle c t) pending m = update pending c (pending c)

tried-Counted :
    (pending : ℕ → ℕ) (m : Machine) (v : Counted pending m) (c : ℕ) (b : c < length m.cpus) (l : ℕ)
    (r : l < length m.locks) (x : Machine × Bool)
    → Tried pending m v c b l r x
    → Counted (if x.1 then drop pending c else pending) x.0
tried-Counted pending m v c b l r (m', true) t = t.2
tried-Counted pending m v c b l r (m', false) t = subst (Counted pending) (sym t.1) v

-- In a turn that keeps the discipline a CPU does not panic, and after it the invariant holds again: the `noff` of each CPU is
-- the number of the locks that it has and of the calls of `push_off` pending on it, and a CPU with one of those takes no
-- interrupts.
pub run_turn-Counted :
    (t : Turn) (pending : ℕ → ℕ) (m : Machine)
    → Counted pending m
    → Allowed t pending m
    → Returns (Counted (after t pending m)) (run_turn t m)
unfolding run_turn
run_turn-Counted (push c) pending m v a = push_off-Counted pending m v c a.0 a.1
run_turn-Counted (pop c) pending m v a =
    Returns-mono (Popped pending m v c a.0) (Counted (drop pending c)) (pop_off c m)
      (pop_off-Popped pending m v c a.0 a.1) (λ m' p. p.0)
run_turn-Counted (begin l c) pending m v a = acquire-Counted pending m v c a.0 l a.2 a.1 a.3
run_turn-Counted (try l c) pending m v a =
    tried-Counted pending m v c a.0 l a.2 (acquire_test l c m)
      (acquire_test-Tried pending m v c a.0 l a.2 a.1)
run_turn-Counted (free l c) pending m v a =
    Returns-mono (Released pending m v c a.0 l a.1) (Counted pending) (release l c m)
      (release-Released pending m v c a.0 l a.1 a.2) (λ m' p. p.0)
run_turn-Counted (toggle c t) pending m v a =
    Counted-modify c (pending c) (λ x. record x { intr = t }) v a.0 (v.counts c a.0)
      (λ u. absurd (omega (arith, u, a.1)))
