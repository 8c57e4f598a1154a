-- ===== src/Proc/Wait.antt =====
-- kernel/proc.c: `kwait`, under `wait_lock`. The pages of the child that `freeproc` gives back are not part
-- of the table; whether the exit status can be copied to the caller is an argument.
use native.Mathlib.Nat.{add-zero}
use aut_whuoslab.Prelude.{
  ℕ, zero, suc, ◌+◌, ◌≡◌, refl, sym, ap, ◌∙◌, subst, ◌⊎◌, inl, inr, Bool, true, false, not, ◌&&◌,
  ◌||◌, List, [], ◌∷◌, Option, none, some, arith, ℤ, minus_one, get_elem?, get_or_of_get_elem?, All,
  Bool-cases, if◌then◌else◌,
}
use aut_whuoslab.Proc.Types.{Proc, Kernel, at, zeroed, is_slot, is_zombie, of_proc}
use aut_whuoslab.Proc.Table.{update_proc, clear}
use aut_whuoslab.Proc.Switch.{sleep_begin, sleep_end}

-- A child of `me` that has exited.
abbrev pub is_dead_child : ℕ → Proc → Bool
is_dead_child me p = is_slot p.parent me && is_zombie p.state

-- The scan from slot `i` on: the first such child.
unfoldable pub dead_from : ℕ → ℕ → List Proc → Option ℕ
dead_from me i [] = none
dead_from me i (p ∷ ps) = if is_dead_child me p then some i else dead_from me (suc i) ps

-- `havekids` at the end of a scan.
unfoldable pub havekids : ℕ → List Proc → Bool
havekids me [] = false
havekids me (p ∷ ps) = is_slot p.parent me || havekids me ps

-- One pass of the loop; without a result the caller sleeps on its own slot.
unfoldable pub kwait : Bool → ℕ → Kernel → Kernel × Option ℤ
unfolding dead_from havekids
kwait copied me k = elim (dead_from me 0 k.procs) [
  | some i ↦ if copied then (update_proc i clear k, some (at k i).pid) else (k, some minus_one)
  | none ↦
      if not (havekids me k.procs) || (at k me).killed
      then (k, some minus_one)
      else (sleep_begin (of_proc me) me k, none)
]

unfoldable pub kwait_resume : Bool → ℕ → Kernel → Kernel × Option ℤ
unfolding kwait
kwait_resume copied me k = kwait copied me (sleep_end me k)

-- What the scan finds.
abbrev pub Scanned : ℕ → List Proc → ℕ → Option ℕ → Type 0
Scanned me ps b none = All (λ p. is_dead_child me p ≡ false) ps
Scanned me ps b (some i) =
    (j : ℕ) × (p : Proc) × (i ≡ b + j) × (get_elem? ps j ≡ some p) × (is_dead_child me p ≡ true)

dead_from-Scanned : (me b : ℕ) (ps : List Proc) → Scanned me ps b (dead_from me b ps)
unfolding dead_from
dead_from-Scanned me b [] = tt
dead_from-Scanned me b (p ∷ ps) =
    by_head (Bool-cases (is_dead_child me p)) (dead_from-Scanned me (suc b) ps)
  where
    step : Bool → Option ℕ
    step t = if◌then◌else◌ {A = Option ℕ} t (some b) (dead_from me (suc b) ps)

    further :
        is_dead_child me p ≡ false
        → (r : Option ℕ) → Scanned me ps (suc b) r
        → Scanned me (p ∷ ps) b r
    further e none a = (e, a)
    further e (some i) (j, q, s, g, d) = (suc j, q, s ∙ omega arith, g, d)

    by_head :
        (is_dead_child me p ≡ true) ⊎ (is_dead_child me p ≡ false)
        → Scanned me ps (suc b) (dead_from me (suc b) ps)
        → Scanned me (p ∷ ps) b (step (is_dead_child me p))
    by_head (inl e) s =
        subst (λ t. Scanned me (p ∷ ps) b (step t)) (sym e) (zero, p, sym (add-zero b), refl, e)
    by_head (inr e) s = subst (λ t. Scanned me (p ∷ ps) b (step t)) (sym e) (further e _ s)

-- The caller gets a child that has exited, and its slot is free; or the status cannot be copied.
abbrev pub Reaped : Bool → ℕ → Kernel → Kernel × Option ℤ → Type 0
Reaped copied me k (k', r) =
    (i : ℕ) × (p : Proc) × (get_elem? k.procs i ≡ some p)
    × (is_dead_child me p ≡ true)
    × (k' ≡ (if copied then update_proc i clear k else k))
    × (r ≡ some (if copied then p.pid else minus_one))

-- No child has exited: the call fails or sleeps, and sleeps only with a child left and when not killed.
abbrev pub Waiting : ℕ → Kernel → Kernel × Option ℤ → Type 0
Waiting me k (k', r) =
    All (λ p. is_dead_child me p ≡ false) k.procs
    × (((r ≡ some minus_one) × (k' ≡ k))
        ⊎ ((r ≡ none)
            × (k' ≡ sleep_begin (of_proc me) me k)
            × (havekids me k.procs ≡ true)
            × ((at k me).killed ≡ false)))

-- A pass of `kwait` frees the slot of a child that has exited and returns its pid, or -1 and frees nothing
-- when the status cannot be copied. Without such a child it returns -1, or the caller sleeps, which it does
-- only if it has children and is not killed.
pub kwait-cases :
    (copied : Bool) (me : ℕ) (k : Kernel)
    → Reaped copied me k (kwait copied me k) ⊎ Waiting me k (kwait copied me k)
unfolding kwait
kwait-cases copied me k = by_scan (dead_from me 0 k.procs) (dead_from-Scanned me 0 k.procs)
  where
    idle : Bool → Kernel × Option ℤ
    idle t =
        if◌then◌else◌ {A = Kernel × Option ℤ} t (k, some minus_one)
          (sleep_begin (of_proc me) me k, none)

    reap : Bool → ℕ → Kernel × Option ℤ
    reap c i =
        if◌then◌else◌ {A = Kernel × Option ℤ} c (update_proc i clear k, some (at k i).pid)
          (k, some minus_one)

    outcome : Option ℕ → Kernel × Option ℤ
    outcome r = elim r [
      | some i ↦ reap copied i
      | none ↦ idle (not (havekids me k.procs) || (at k me).killed)
    ]

    reaped :
        (c : Bool) (i : ℕ) (p : Proc)
        → get_elem? k.procs i ≡ some p
        → is_dead_child me p ≡ true
        → Reaped c me k (reap c i)
    reaped true i p g d =
        (i, p, g, d, refl, ap (λ (q : Proc). some q.pid) (get_or_of_get_elem? k.procs i zeroed p g))
    reaped false i p g d = (i, p, g, d, refl, refl)

    by_scan :
        (r : Option ℕ)
        → Scanned me k.procs 0 r
        → Reaped copied me k (outcome r) ⊎ Waiting me k (outcome r)
    by_scan (some i) (j, p, e, g, d) =
        let q : j ≡ i = omega arith in
        inl (reaped copied i p (subst (λ n. get_elem? k.procs n ≡ some p) q g) d)
    by_scan none a = inr (by_test (Bool-cases (not (havekids me k.procs) || (at k me).killed)))
      where
        by_test :
            ((not (havekids me k.procs) || (at k me).killed) ≡ true)
              ⊎ ((not (havekids me k.procs) || (at k me).killed) ≡ false)
            → Waiting me k (idle (not (havekids me k.procs) || (at k me).killed))
        by_test (inl e) = subst (λ t. Waiting me k (idle t)) (sym e) (a, inl (refl, refl))
        by_test (inr e) =
            subst (λ t. Waiting me k (idle t)) (sym e)
              (a, inr (refl, refl, ground arith, ground arith))
