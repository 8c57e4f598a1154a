-- ===== src/Proc/Table/Priority.antt =====
-- Setting a priority and reading it back.
use aut_whuoslab.Prelude.{
  ℕ, ◌≡◌, inl, inr, List, [], ◌∷◌, true, false, ◌||◌, arith, ℤ, pos, int_lt, int_eq, Bool-cases,
}
use aut_whuoslab.Proc.Types.{Proc, Kernel}
use aut_whuoslab.Proc.Table.{einval, priority_from, setpriority, find_priority, getpriority}

priority_from-found :
    (pid v : ℤ) (ps : List Proc)
    → (priority_from pid v ps).0 ≡ pos 0
    → find_priority pid (priority_from pid v ps).1 ≡ v
unfolding priority_from find_priority
priority_from-found pid v [] e = cc
priority_from-found pid v (p ∷ ps) e = ground (arith, priority_from-found pid v ps)

-- A call of `setpriority` on another process, by its pid, that returns 0 has set the priority that
-- `getpriority` of that pid then returns.
pub setpriority-getpriority :
    (pid v : ℤ) (me : ℕ) (k : Kernel)
    → int_eq pid (pos 0) ≡ false
    → (setpriority pid v me k).0 ≡ pos 0
    → getpriority pid me (setpriority pid v me k).1 ≡ v
unfolding setpriority getpriority
setpriority-getpriority pid v me k other e =
    elim (Bool-cases (int_lt v (pos 0) || int_lt (pos 9) v)) [
      | inl bad ↦ absurd (refused bad)
      | inr good ↦ rw (good, other) (priority_from-found pid v k.procs (rw (good, other) at e))
    ]
  where
    refused : (int_lt v (pos 0) || int_lt (pos 9) v) ≡ true → ⊥
    refused bad = let e' : einval ≡ pos 0 = rw bad at e in ground (arith, e')
