-- ===== src/Spinlock/Counted.antt =====
-- `noff` counts the locks of a CPU and what else keeps its interrupts off.
use aut_whuoslab.Prelude.{
  ℕ, zero, suc, ◌+◌, ◌<◌, ◌≡◌, refl, sym, ap, ◌∙◌, subst, ◌≢◌, false, List, [], ◌∷◌, Option, none,
  arith, pos, length, length-modify, get_or, set, modify, if◌then◌else◌, ℕ_discrete,
}
use aut_whuoslab.Kalloc.{update}
use aut_whuoslab.File.Uses.{is, holders, holders-set, get_or-modify_self, get_or-modify_ne}
use aut_whuoslab.Spinlock.{Spinlock, Cpu, Machine, no_lock, no_cpu, lock_at, cpu_at}

-- The CPU that has a lock.
abbrev pub owner : Spinlock → Option ℕ
owner x = if x.locked then x.cpu else none

abbrev pub owners : List Spinlock → List (Option ℕ)
owners [] = []
owners (x ∷ xs) = owner x ∷ owners xs

pub owners-set :
    (xs : List Spinlock) (i : ℕ) (x : Spinlock) → owners (set xs i x) ≡ set (owners xs) i (owner x)
owners-set [] i x = refl
owners-set (y ∷ ys) zero x = refl
owners-set (y ∷ ys) (suc i) x = ap (λ l. owner y ∷ l) (owners-set ys i x)

pub length-owners : (xs : List Spinlock) → length (owners xs) ≡ length xs
length-owners [] = refl
length-owners (x ∷ xs) = ap suc (length-owners xs)

pub get_or-owners :
    (xs : List Spinlock) (i : ℕ) → get_or (owners xs) i none ≡ owner (get_or xs i no_lock)
get_or-owners [] i = refl
get_or-owners (x ∷ xs) zero = refl
get_or-owners (x ∷ xs) (suc i) = get_or-owners xs i

-- The locks of CPU `c`, and its calls of `push_off` that belong to no lock that it has got.
abbrev pub load : (ℕ → ℕ) → ℕ → Machine → ℕ
load pending c m = holders c (owners m.locks) + pending c

-- `noff` is the load, and a CPU with a load takes no interrupts.
pub record Counted (pending : ℕ → ℕ) (m : Machine) : Type 0 where
  pub counts : (c : ℕ) → c < length m.cpus → (cpu_at c m).noff ≡ pos (load pending c m)
  pub masks : (c : ℕ) → c < length m.cpus → 0 < load pending c m → (cpu_at c m).intr ≡ false

-- CPU `c` and what is pending on it change.
pub Counted-modify :
    {pending : ℕ → ℕ} {m : Machine} (c n : ℕ) (f : Cpu → Cpu)
    → Counted pending m
    → c < length m.cpus
    → (f (cpu_at c m)).noff ≡ pos (holders c (owners m.locks) + n)
    → (0 < holders c (owners m.locks) + n → (f (cpu_at c m)).intr ≡ false)
    → Counted (update pending c n) (record m { cpus = modify m.cpus c f })
Counted-modify {pending} {m} c n f v l e off = record {
  counts = λ d h. count d (omega (arith, h, length-modify m.cpus c f)) (ℕ_discrete c d);
  masks = λ d h u. mask d (omega (arith, h, length-modify m.cpus c f)) u (ℕ_discrete c d);
}
  where
    after : Machine
    after = record m { cpus = modify m.cpus c f }

    self : update pending c n c ≡ n
    self = ground arith

    other : (d : ℕ) → c ≢ d → update pending c n d ≡ pending d
    other d q = ground (arith, q)

    count :
        (d : ℕ)
        → d < length m.cpus
        → Dec (c ≡ d)
        → (cpu_at d after).noff ≡ pos (load (update pending c n) d after)
    count d h (yes q) =
        subst (λ k. (cpu_at k after).noff ≡ pos (load (update pending c n) k after)) q
          (ap Cpu.noff (get_or-modify_self m.cpus c f no_cpu l)
            ∙ e
            ∙ ap (λ k. pos (holders c (owners m.locks) + k)) (sym self))
    count d h (no q) =
        ap Cpu.noff (get_or-modify_ne m.cpus c d f no_cpu q)
        ∙ v.counts d h
        ∙ ap (λ k. pos (holders d (owners m.locks) + k)) (sym (other d q))

    mask :
        (d : ℕ)
        → d < length m.cpus
        → 0 < load (update pending c n) d after
        → Dec (c ≡ d)
        → (cpu_at d after).intr ≡ false
    mask d h u (yes q) =
        subst (λ k. (cpu_at k after).intr ≡ false) q
          (ap Cpu.intr (get_or-modify_self m.cpus c f no_cpu l)
            ∙ off (
                subst (λ k. 0 < holders c (owners m.locks) + k) self
                  (subst (λ k. 0 < load (update pending c n) k after) (sym q) u)))
    mask d h u (no q) =
        ap Cpu.intr (get_or-modify_ne m.cpus c d f no_cpu q)
        ∙ v.masks d h (subst (λ k. 0 < holders d (owners m.locks) + k) (other d q) u)

-- A lock changes hands, and what is pending changes with it.
pub Counted-locks :
    {pending : ℕ → ℕ} {m : Machine} (pending' : ℕ → ℕ) (l : ℕ) (x : Spinlock)
    → Counted pending m
    → l < length m.locks
    → ((d : ℕ) → is d (owner x) + pending' d ≡ is d (owner (lock_at l m)) + pending d)
    → Counted pending' (record m { locks = set m.locks l x })
Counted-locks {pending} {m} pending' l x v h e = record {
  counts = λ d b. v.counts d b ∙ ap pos (sym (same d));
  masks = λ d b u. v.masks d b (omega (arith, u, same d));
}
  where
    same : (d : ℕ) → load pending' d (record m { locks = set m.locks l x }) ≡ load pending d m
    same d = omega (
      arith,
      e d,
      holders-set d (owners m.locks) l (owner x) (omega (arith, h, length-owners m.locks)),
      ap (is d) (get_or-owners m.locks l),
      ap (holders d) (owners-set m.locks l x),
    )
