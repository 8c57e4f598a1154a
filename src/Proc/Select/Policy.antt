-- ===== src/Proc/Select/Policy.antt =====
-- Which process each policy picks.
use native.Mathlib.Nat.{zero-add}
use mathlib.Core.Option
use aut_whuoslab.Prelude.{
  ℕ, suc, ◌+◌, ◌≡◌, refl, sym, ap, ◌∙◌, subst, ◌⊎◌, inl, inr, true, false, not, ◌&&◌, List, [], ◌∷◌,
  Option, none, some, arith, ℤ, int_lt, minus_one, get_elem?, take, All, Bool-cases,
}
use aut_whuoslab.Proc.Types.{runnable, is_runnable, Proc, Kernel}
use aut_whuoslab.Proc.Select.{runnable_from, default_round_robin, highest_from, priority_scheduler}

abbrev NotRunnable : Proc → Type 0
NotRunnable p = is_runnable p.state ≡ false

-- The pick is the runnable process in the lowest slot; without a pick no process is runnable.
abbrev pub FirstRunnable : List Proc → Option ℕ → Type 0
FirstRunnable ps none = All NotRunnable ps
FirstRunnable ps (some i) =
    (p : Proc) × (get_elem? ps i ≡ some p) × (p.state ≡ runnable) × All NotRunnable (take i ps)

-- A pick in the table behind one more process that is not runnable.
FirstRunnable-cons :
    (x : Proc) (ps : List Proc) (r : Option ℕ)
    → NotRunnable x
    → FirstRunnable ps r
    → FirstRunnable (x ∷ ps) (Option.map suc r)
FirstRunnable-cons x ps none h f = (h, f)
FirstRunnable-cons x ps (some i) h (p, e, s, f) = (p, e, s, (h, f))

runnable_from-suc :
    (i : ℕ) (ps : List Proc) → runnable_from (suc i) ps ≡ Option.map suc (runnable_from i ps)
unfolding runnable_from
runnable_from-suc i [] = refl
runnable_from-suc i (p ∷ ps) = ground (arith, runnable_from-suc (suc i) ps)

runnable_from-First : (ps : List Proc) → FirstRunnable ps (runnable_from 0 ps)
unfolding runnable_from
runnable_from-First [] = tt
runnable_from-First (p ∷ ps) = elim (Bool-cases (is_runnable p.state)) [
  | inl hit ↦ rw hit (p, refl, ground arith, tt)
  | inr miss ↦
      rw (miss, runnable_from-suc 0 ps)
        (FirstRunnable-cons p ps (runnable_from 0 ps) miss (runnable_from-First ps))
]

-- `default_round_robin` picks the runnable process in the lowest slot, and none only if no process is
-- runnable.
pub default_round_robin-First : (k : Kernel) → FirstRunnable k.procs (default_round_robin k)
unfolding default_round_robin
default_round_robin-First k = runnable_from-First k.procs

abbrev NoBetter : ℤ → Proc → Type 0
NoBetter h q = (is_runnable q.state && int_lt h q.priority) ≡ false

abbrev Worse : ℤ → Proc → Type 0
Worse h q = (is_runnable q.state && not (int_lt q.priority h)) ≡ false

-- The pick is runnable, no runnable process has a higher priority, and none in a lower slot has the same;
-- without a pick no process is runnable.
abbrev pub Highest : List Proc → Option ℕ → Type 0
Highest ps none = All NotRunnable ps
Highest ps (some i) =
    (p : Proc) × (get_elem? ps i ≡ some p)
    × (p.state ≡ runnable)
    × All (NoBetter p.priority) ps
    × All (Worse p.priority) (take i ps)

-- The loop from slot `i` on keeps its candidate, whom nobody beats, or ends with the best at `i + j`.
record Found (h : ℤ) (ps : List Proc) (i : ℕ) (r : Option ℕ) : Type 0 where
  j : ℕ
  p : Proc
  slot : r ≡ some (i + j)
  there : get_elem? ps j ≡ some p
  ready : p.state ≡ runnable
  beats : int_lt h p.priority ≡ true
  best : All (NoBetter p.priority) ps
  first : All (Worse p.priority) (take j ps)

abbrev Kept : Option ℕ → ℤ → List Proc → ℕ → Option ℕ → Type 0
Kept best h ps i r = ((r ≡ best) × All (NoBetter h) ps) ⊎ Found h ps i r

lt_trans : (a b c : ℤ) → int_lt a b ≡ true → int_lt b c ≡ true → int_lt a c ≡ true
lt_trans a b c p q = ground arith

lt_irrefl : (a : ℤ) → int_lt a a ≡ false
lt_irrefl a = ground arith

-- Whoever does not beat `h` is worse than one who does.
worse : (h b : ℤ) (x : Proc) → NoBetter h x → int_lt h b ≡ true → NoBetter b x × Worse b x
worse h b x n l = ground arith

not_better : (b : ℤ) (x : Proc) → int_lt x.priority b ≡ true → NoBetter b x × Worse b x
not_better b x l = ground arith

highest_from-Found :
    (ps : List Proc) (i : ℕ) (best : Option ℕ) (h : ℤ) → Kept best h ps i (highest_from i ps best h)
unfolding highest_from
highest_from-Found [] i best h = inl (refl, tt)
highest_from-Found (x ∷ ps) i best h =
    elim (Bool-cases (is_runnable x.state && int_lt h x.priority)) [
      | inl better ↦
          subst (Kept best h (x ∷ ps) i) (sym (took better))
            (taken better (highest_from-Found ps (suc i) (some i) x.priority))
      | inr kept ↦
          subst (Kept best h (x ∷ ps) i) (sym (kept_on kept))
            (passed kept (highest_from-Found ps (suc i) best h))
    ]
  where
    took :
        (is_runnable x.state && int_lt h x.priority) ≡ true
        → highest_from i (x ∷ ps) best h ≡ highest_from (suc i) ps (some i) x.priority
    took b = rw b

    kept_on :
        (is_runnable x.state && int_lt h x.priority) ≡ false
        → highest_from i (x ∷ ps) best h ≡ highest_from (suc i) ps best h
    kept_on b = rw b

    taken :
        (is_runnable x.state && int_lt h x.priority) ≡ true
        → Kept (some i) x.priority ps (suc i) (highest_from (suc i) ps (some i) x.priority)
        → Kept best h (x ∷ ps) i (highest_from (suc i) ps (some i) x.priority)
    taken b (inl (e, all)) = inr (record {
      j = 0;
      p = x;
      slot = e ∙ ap some (omega arith);
      there = refl;
      ready = ground arith;
      beats = ground arith;
      best = (ground (arith, lt_irrefl x.priority), all);
      first = tt;
    })
    taken b (inr f) =
        let w = not_better f.p.priority x f.beats in
        inr (record {
          j = suc f.j;
          p = f.p;
          slot = f.slot ∙ ap some (omega arith);
          there = f.there;
          ready = f.ready;
          beats = lt_trans h x.priority f.p.priority (ground arith) f.beats;
          best = (w.0, f.best);
          first = (w.1, f.first);
        })

    passed :
        (is_runnable x.state && int_lt h x.priority) ≡ false
        → Kept best h ps (suc i) (highest_from (suc i) ps best h)
        → Kept best h (x ∷ ps) i (highest_from (suc i) ps best h)
    passed k (inl (e, all)) = inl (e, (k, all))
    passed k (inr f) =
        let w = worse h f.p.priority x k f.beats in
        inr (record {
          j = suc f.j;
          p = f.p;
          slot = f.slot ∙ ap some (omega arith);
          there = f.there;
          ready = f.ready;
          beats = f.beats;
          best = (w.0, f.best);
          first = (w.1, f.first);
        })

-- With no negative priority in the table `priority_scheduler` picks a runnable process of the highest
-- priority, of several the one in the lowest slot, and none only if no process is runnable.
pub priority_scheduler-Highest :
    (k : Kernel)
    → All (λ q. int_lt minus_one q.priority ≡ true) k.procs
    → Highest k.procs (priority_scheduler k)
unfolding priority_scheduler
priority_scheduler-Highest k nonneg = pick (highest_from-Found k.procs 0 none minus_one)
  where
    idle :
        (ps : List Proc)
        → All (λ q. int_lt minus_one q.priority ≡ true) ps
        → All (NoBetter minus_one) ps
        → All NotRunnable ps
    idle [] n a = tt
    idle (q ∷ ps) n a = (ground (arith, n.0, a.0), idle ps n.1 a.1)

    pick :
        Kept none minus_one k.procs 0 (highest_from 0 k.procs none minus_one)
        → Highest k.procs (highest_from 0 k.procs none minus_one)
    pick (inl (e, all)) = rw e (idle k.procs nonneg all)
    pick (inr f) = rw (f.slot, zero-add) (f.p, f.there, f.ready, f.best, f.first)
