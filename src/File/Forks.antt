-- ===== src/File/Forks.antt =====
-- A new process gets the descriptors of its parent, and one that exits gives its own back.
use aut_whuoslab.Prelude.{
  ℕ, zero, suc, ◌+◌, ◌*◌, ◌≤◌, ◌<◌, ◌≡◌, refl, sym, ap, ◌∙◌, subst, ◌≢◌, List, [], ◌∷◌, Option,
  none, some, arith, length, set, get_or, get_or-set_self, get_or-set_ne, done, ◌>>=◌, Returns,
  Returns-bind, ℕ_discrete, Returns-mono, Returns-map,
}
use aut_whuoslab.Proc.Types.{nproc}
use aut_whuoslab.File.{
  nofile, Files, Released, place, set_ofile, filedup, fileclose, fork_files, exit_files,
}
use aut_whuoslab.File.Counted.{Counted}
use aut_whuoslab.File.Refs.{Closed, fileclose-Closed}
use aut_whuoslab.File.Descriptors.{slot, place-lt, take_back, used_slot, fileclose-set_ofile}
use aut_whuoslab.File.Calls.{dup_slot}

-- Process `p` has no descriptor from `fd` on.
abbrev pub Vacant : ℕ → ℕ → Files → Type 0
Vacant p fd s = (k : ℕ) → fd ≤ k → k < nofile → slot (place p k) s ≡ none

-- The descriptors from `fd` on, up to `fd + n`, of process `np` are those of `p`.
abbrev pub Shares : ℕ → ℕ → ℕ → List (Option ℕ) → List (Option ℕ) → Type 0
Shares p np fd os os' =
    (k : ℕ) → fd ≤ k → k < nofile → get_or os' (place np k) none ≡ get_or os (place p k) none

-- All other places are as before.
abbrev pub Beyond : ℕ → ℕ → List (Option ℕ) → List (Option ℕ) → Type 0
Beyond np fd os os' =
    (i : ℕ)
    → ((k : ℕ) → fd ≤ k → k < nofile → i ≢ place np k)
    → get_or os' i none ≡ get_or os i none

apart : (p np a b : ℕ) → p ≢ np → a < nofile → b < nofile → place p a ≢ place np b
apart p np a b ne x y = omega arith

-- The round for descriptor `fd`, which writes that of `np` at most, before the others.
shared_round :
    (p np fd : ℕ) (os os1 os' : List (Option ℕ))
    → p ≢ np
    → fd < nofile
    → get_or os1 (place np fd) none ≡ get_or os (place p fd) none
    → ((i : ℕ) → place np fd ≢ i → get_or os1 i none ≡ get_or os i none)
    → Shares p np (suc fd) os1 os' × Beyond np (suc fd) os1 os'
    → Shares p np fd os os' × Beyond np fd os os'
shared_round p np fd os os1 os' ne b e o (sh, be) = (
  λ k h u. by_place k h u (ℕ_discrete fd k),
  λ i n. be i (λ k h u. n k (omega (arith, h)) u) ∙ o i (λ q. n fd (omega arith) b (sym q)),
)
  where
    by_place :
        (k : ℕ)
        → fd ≤ k
        → k < nofile
        → Dec (fd ≡ k)
        → get_or os' (place np k) none ≡ get_or os (place p k) none
    by_place k h u (yes q) =
        subst (λ j. get_or os' (place np j) none ≡ get_or os (place p j) none) q
          (be (place np fd) (λ j v w. omega (arith, v)) ∙ e)
    by_place k h u (no q) =
        sh k (omega (arith, h, q)) u ∙ o (place p k) (λ v. apart p np k fd ne u b (sym v))

cleared_round :
    (p fd : ℕ) (os os1 os' : List (Option ℕ))
    → fd < nofile
    → get_or os1 (place p fd) none ≡ none
    → ((i : ℕ) → place p fd ≢ i → get_or os1 i none ≡ get_or os i none)
    → ((k : ℕ) → suc fd ≤ k → k < nofile → get_or os' (place p k) none ≡ none)
      × Beyond p (suc fd) os1 os'
    → ((k : ℕ) → fd ≤ k → k < nofile → get_or os' (place p k) none ≡ none) × Beyond p fd os os'
cleared_round p fd os os1 os' b e o (cl, be) = (
  λ k h u. by_place k h u (ℕ_discrete fd k),
  λ i n. be i (λ k h u. n k (omega (arith, h)) u) ∙ o i (λ q. n fd (omega arith) b (sym q)),
)
  where
    by_place : (k : ℕ) → fd ≤ k → k < nofile → Dec (fd ≡ k) → get_or os' (place p k) none ≡ none
    by_place k h u (yes q) =
        subst (λ j. get_or os' (place p j) none ≡ none) q
          (be (place p fd) (λ j v w. omega (arith, v)) ∙ e)
    by_place k h u (no q) = cl k (omega (arith, h, q)) u

abbrev pub Forked : ℕ → ℕ → ℕ → Files → Files → Type 0
Forked p np fd s s' =
    Counted [] s' × Shares p np fd s.ofile s'.ofile × Beyond np fd s.ofile s'.ofile

abbrev pub Exited : ℕ → ℕ → Files → Files × List Released → Type 0
Exited p fd s (s', rs) = Counted [] s' × Vacant p fd s' × Beyond p fd s.ofile s'.ofile

-- What a write to descriptor `i` does to the reads.
written :
    (os os' : List (Option ℕ)) (i : ℕ) (o : Option ℕ)
    → os' ≡ set os i o
    → i < length os
    → (get_or os' i none ≡ o) × ((j : ℕ) → i ≢ j → get_or os' j none ≡ get_or os j none)
written os os' i o e h = (
  ap (λ (xs : List (Option ℕ)). get_or xs i none) e ∙ get_or-set_self os i o none h,
  λ j n. ap (λ (xs : List (Option ℕ)). get_or xs j none) e ∙ get_or-set_ne os i j o none n,
)

-- A descriptor's reference is given back, and then the descriptor cleared.
abbrev Cleared : Files → ℕ → Files × Released → Type 0
Cleared s i r = Counted [] (set_ofile i none r.0) × (set r.0.ofile i none ≡ set s.ofile i none)

clear_slot :
    {s : Files} (f i : ℕ)
    → Counted [] s
    → i < nproc * nofile
    → slot i s ≡ some f
    → Returns (Cleared s i) (fileclose f s)
clear_slot {s} f i c l e =
    Returns-map (λ (r : Files × Released). Counted [] r.0 × (r.0.ofile ≡ set s.ofile i none))
      (fileclose f s) (λ r. (set_ofile i none r.0, r.1))
      (subst (Returns (λ (r : Files × Released). Counted [] r.0 × (r.0.ofile ≡ set s.ofile i none)))
        (fileclose-set_ofile f i none s)
        (Returns-mono (Closed [] f (set_ofile i none s))
          (λ (r : Files × Released). Counted [] r.0 × (r.0.ofile ≡ set s.ofile i none))
          (fileclose f (set_ofile i none s)) (fileclose-Closed f (take_back i c l e))
          (λ r d. (d.0, d.1))))

module _ (p np : ℕ) (l : p < nproc) (ln : np < nproc) (ne : p ≢ np) where
  fork_loop :
      (n fd : ℕ) (s : Files)
      → fd + n ≡ nofile
      → Counted [] s
      → Vacant np fd s
      → Returns (Forked p np fd s) (fork_files n p np fd s)
  unfolding fork_files
  fork_loop zero fd s e c v = (c, (λ k h u. absurd (omega (arith, e, h, u))), λ i n. refl)
  fork_loop (suc n) fd s e c v =
      by_slot (slot (place p fd) s) refl (λ (k : Files). fork_loop n (suc fd) k (omega (arith, e)))
    where
      b : fd < nofile
      b = omega (arith, e)

      by_slot :
          (o : Option ℕ)
          → slot (place p fd) s ≡ o
          → ((k : Files)
              → Counted [] k
              → Vacant np (suc fd) k
              → Returns (Forked p np (suc fd) k) (fork_files n p np (suc fd) k))
          → Returns (Forked p np fd s) (elim o [
            | none ↦ fork_files n p np (suc fd) s
            | some f ↦
                filedup f s >>= λ k. fork_files n p np (suc fd) (set_ofile (place np fd) (some f) k)
          ])
      by_slot none q ih =
          Returns-mono (Forked p np (suc fd) s) (Forked p np fd s) (fork_files n p np (suc fd) s)
            (ih s c (λ k h u. v k (omega (arith, h)) u))
            (λ k d.
              let x =
                shared_round p np fd s.ofile s.ofile k.ofile ne b (v fd (omega arith) b ∙ sym q)
                  (λ i n. refl) (d.1, d.2) in
              (d.0, x.0, x.1))
      by_slot (some f) q ih =
          let i = place np fd in
          let li : i < nproc * nofile = place-lt np fd ln b in
          Returns-bind (λ k. Counted [] (set_ofile i (some f) k) × (k.ofile ≡ s.ofile))
            (Forked p np fd s) (filedup f s)
            (λ k. fork_files n p np (suc fd) (set_ofile i (some f) k))
            (dup_slot f i c li (v fd (omega arith) b)
              (used_slot (place p fd) c (place-lt p fd l b) q))
            (λ k d.
              let w =
                written s.ofile (set k.ofile i (some f)) i (some f)
                  (ap (λ (os : List (Option ℕ)). set os i (some f)) d.1)
                  (omega (arith, li, c.slots)) in
              Returns-mono (Forked p np (suc fd) (set_ofile i (some f) k)) (Forked p np fd s)
                (fork_files n p np (suc fd) (set_ofile i (some f) k))
                (ih (set_ofile i (some f) k) d.0
                  (λ j h u. w.1 (place np j) (omega (arith, h)) ∙ v j (omega (arith, h)) u))
                (λ r a.
                  let x =
                    shared_round p np fd s.ofile (set k.ofile i (some f)) r.ofile ne b (w.0 ∙ sym q)
                      w.1 (a.1, a.2) in
                  (a.0, x.0, x.1)))

  -- With the counts right and no descriptor in the new process, the loop of `kfork` does not panic: the new process
  -- has its parent's descriptors, no other process's descriptor changes, and the counts are right again.
  pub fork_files-Shares :
      (s : Files)
      → Counted [] s
      → Vacant np 0 s
      → Returns (Forked p np 0 s) (fork_files nofile p np 0 s)
  fork_files-Shares s c v = fork_loop nofile 0 s refl c v

module _ (p : ℕ) (l : p < nproc) where
  exit_loop :
      (n fd : ℕ) (s : Files)
      → fd + n ≡ nofile
      → Counted [] s
      → Returns (Exited p fd s) (exit_files n p fd s)
  unfolding exit_files
  exit_loop zero fd s e c = (c, (λ k h u. absurd (omega (arith, e, h, u))), λ i n. refl)
  exit_loop (suc n) fd s e c =
      by_slot (slot (place p fd) s) refl (λ (k : Files). exit_loop n (suc fd) k (omega (arith, e)))
    where
      b : fd < nofile
      b = omega (arith, e)

      by_slot :
          (o : Option ℕ)
          → slot (place p fd) s ≡ o
          → ((k : Files) → Counted [] k → Returns (Exited p (suc fd) k) (exit_files n p (suc fd) k))
          → Returns (Exited p fd s) (elim o [
            | none ↦ exit_files n p (suc fd) s
            | some f ↦ fileclose f s >>= λ r.
                exit_files n p (suc fd) (set_ofile (place p fd) none r.0) >>= λ q.
                done (q.0, r.1 ∷ q.1)
          ])
      by_slot none q ih =
          Returns-mono (Exited p (suc fd) s) (Exited p fd s) (exit_files n p (suc fd) s) (ih s c)
            (λ k d.
              let x = cleared_round p fd s.ofile s.ofile k.0.ofile b q (λ i n. refl) (d.1, d.2) in
              (d.0, x.0, x.1))
      by_slot (some f) q ih =
          let i = place p fd in
          let li : i < nproc * nofile = place-lt p fd l b in
          Returns-bind (Cleared s i) (Exited p fd s) (fileclose f s)
            (λ r. exit_files n p (suc fd) (set_ofile i none r.0) >>= λ q. done (q.0, r.1 ∷ q.1))
            (clear_slot f i c li q)
            (λ r d.
              let w =
                written s.ofile (set r.0.ofile i none) i none d.1 (omega (arith, li, c.slots)) in
              Returns-bind (Exited p (suc fd) (set_ofile i none r.0)) (Exited p fd s)
                (exit_files n p (suc fd) (set_ofile i none r.0)) (λ q. done (q.0, r.1 ∷ q.1))
                (ih (set_ofile i none r.0) d.0)
                (λ k a.
                  let x =
                    cleared_round p fd s.ofile (set r.0.ofile i none) k.0.ofile b w.0 w.1
                      (a.1, a.2) in
                  (a.0, x.0, x.1)))

  -- With the counts right, the loop of `kexit` does not panic: the process has no descriptor left, no other
  -- process's descriptor changes, and the counts are right again.
  pub exit_files-Vacant :
      (s : Files) → Counted [] s → Returns (Exited p 0 s) (exit_files nofile p 0 s)
  exit_files-Vacant s c = exit_loop nofile 0 s refl c
