-- ===== src/Proc/Select/Fairness.antt =====
-- What the round-robin policy does with a process that yields.
use aut_whuoslab.Prelude.{
  ℕ, zero, suc, ◌+◌, ◌≡◌, refl, sym, ap, ◌∙◌, subst, true, List, [], ◌∷◌, Option, none, some, arith,
  get_or_of_get_elem?, modify,
}
use aut_whuoslab.Proc.Types.{running, runnable, is_runnable, Proc, Kernel, round_robin, zeroed}
use aut_whuoslab.Proc.Select.{runnable_from, default_round_robin, schedule, select_by, dispatch}
use aut_whuoslab.Proc.Table.{update_proc}
use aut_whuoslab.Proc.Switch.{yield_begin}
use aut_whuoslab.Proc.Select.Policy.{FirstRunnable, default_round_robin-First}

-- A change of a process that ends with it runnable leaves the first pick where it is.
runnable_from-modify :
    (ps : List Proc) (b n : ℕ) (f : Proc → Proc)
    → ((p : Proc) → is_runnable (f p).state ≡ true)
    → runnable_from b ps ≡ some (b + n)
    → runnable_from b (modify ps n f) ≡ some (b + n)
unfolding runnable_from
runnable_from-modify [] b n f r e = cc
runnable_from-modify (p ∷ ps) b zero f r e = rw (r p) (ap some (omega arith))
runnable_from-modify (p ∷ ps) b (suc n) f r e =
    ground (arith, ap some (sucs b n), runnable_from-modify ps (suc b) n f r)
  where
    sucs : (b n : ℕ) → suc b + n ≡ b + suc n
    sucs b n = omega arith

modify-modify :
    (ps : List Proc) (i : ℕ) (f g : Proc → Proc)
    → modify (modify ps i f) i g ≡ modify ps i (λ p. g (f p))
modify-modify [] i f g = refl
modify-modify (p ∷ ps) zero f g = refl
modify-modify (p ∷ ps) (suc i) f g = ap (λ l. p ∷ l) (modify-modify ps i f g)

abbrev run_it : Proc → Proc
run_it p = record p { state = running }

abbrev ready_it : Proc → Proc
ready_it p = record p { state = runnable }

module _ (k : Kernel) (i : ℕ) (rr : k.selector ≡ round_robin) where
  -- The round runs the pick.
  schedule_pick : default_round_robin k ≡ some i → schedule k ≡ (some i, update_proc i run_it k)
  unfolding schedule select_by
  schedule_pick e =
      ap (λ s. dispatch (select_by s k)) rr
      ∙ ap (λ r. dispatch (r, k)) e
      ∙ ready (subst (FirstRunnable k.procs) e (default_round_robin-First k))
    where
      ready :
          FirstRunnable k.procs (some i) → dispatch (some i, k) ≡ (some i, update_proc i run_it k)
      ready (p, there, state, first) = ground (arith, get_or_of_get_elem? k.procs i zeroed p there)

  pick_of_schedule : (schedule k).0 ≡ some i → default_round_robin k ≡ some i
  unfolding schedule select_by
  pick_of_schedule e =
      picked (default_round_robin k) (ap (λ s. (dispatch (select_by s k)).0) (sym rr) ∙ e)
    where
      picked : (r : Option ℕ) → (dispatch (r, k)).0 ≡ some i → r ≡ some i
      picked none e = e
      picked (some j) e = ground arith

  yield_lem :
      yield_begin i (update_proc i run_it k) ≡ update_proc i ready_it (update_proc i run_it k)
  unfolding yield_begin
  yield_lem = ground arith

-- The round-robin policy is not fair: the process that it has just run, and that yields, is picked again,
-- whichever other processes are runnable.
pub round_robin_repeats :
    (k : Kernel) (i : ℕ)
    → k.selector ≡ round_robin
    → (schedule k).0 ≡ some i
    → (schedule (yield_begin i (schedule k).1)).0 ≡ some i
unfolding default_round_robin
round_robin_repeats k i rr e =
    rw (schedule_pick k i rr first, yield_lem k i rr, schedule_pick again i rr second)
  where
    first : default_round_robin k ≡ some i
    first = pick_of_schedule k i rr e

    again : Kernel
    again = update_proc i ready_it (update_proc i run_it k)

    second : default_round_robin again ≡ some i
    second =
        let z : 0 + i ≡ i = omega arith in
        rw (modify-modify k.procs i run_it ready_it) (
          runnable_from-modify k.procs 0 i (λ p. ready_it (run_it p)) (λ p. refl)
            (first ∙ ap some (sym z))
          ∙ ap some z)
