-- ===== src/Vm/Map.antt =====
-- `mappages`: the entries that it writes.
use aut_whuoslab.Prelude.{
  ℕ, zero, suc, ◌+◌, ◌-◌, ◌*◌, ◌/◌, ◌%◌, ◌<◌, ◌≤◌, ◌≡◌, refl, sym, ap, ◌∙◌, subst, ◌≢◌, ◌⊎◌, inl,
  inr, Bool, true, false, ◌&&◌, List, [], ◌∷◌, Option, some, arith, ℕ_discrete, ◌==◌, if◌then◌else◌,
  ltb, leb, Bool-cases, ℤ, pos, minus_one, Outcome, done,
}
use aut_whuoslab.Kalloc.{pgsize}
use aut_whuoslab.Vm.{
  Flags, Pte, Vm, zero_pte, maxva, px, leaf, set_pte, entry, walk_from, walk, map_from, mappages,
}
use aut_whuoslab.Vm.Tree.{pxs, table, view, IsVm}
use aut_whuoslab.Vm.Walk.{Walked, walk_root-Walked}
use aut_whuoslab.Vm.Entry.{written-IsVm, written-view}

-- Page `p` is one of the `n` pages from `q` on.
abbrev pub within : ℕ → ℕ → ℕ → Bool
within q n p = leb q p && ltb p (q + n)

-- No page of the range is mapped.
abbrev pub Unmapped : ℕ → ℕ → ℕ → Vm → Type 0
Unmapped root q n s =
    (a : ℕ) → a < maxva → within q n (a / pgsize) ≡ true → (view root a s).flags.valid ≡ false

-- What `mappages` of `n` pages leaves: the first `k` of them are mapped, each to its page of the memory
-- from `pa` on; the other addresses keep their entries. The result is 0 if these are all of them; it
-- is -1 otherwise, and then no page is free.
pub record Maps (root n va pa : ℕ) (perm : Flags) (s : Vm) (r : Outcome (Vm × ℤ)) : Type 0 where
  pub after : Vm
  pub code : ℤ
  pub k : ℕ
  pub lab' : ℕ → Option (List ℕ)
  pub rest : List ℕ
  pub returns : r ≡ done (after, code)
  pub vm : IsVm root lab' rest after
  pub result : ((code ≡ pos 0) × (k ≡ n)) ⊎ ((code ≡ minus_one) × (k < n) × (rest ≡ []))
  pub entries :
      (a : ℕ)
      → a < maxva
      → view root a after ≡ (
          if within (va / pgsize) k (a / pgsize)
          then leaf perm (pa + (a / pgsize - va / pgsize) * pgsize)
          else view root a s)

step_full :
    (n t va pa : ℕ) (perm : Flags) (s : Vm)
    → va < maxva
    → (walk_from 2 t va true s).1 ≡ 0
    → map_from (suc n) t va pa perm s ≡ done ((walk_from 2 t va true s).0, minus_one)
unfolding map_from walk
step_full n t va pa perm s h z = let b : leb maxva va ≡ false = ground arith in rw (b, z) refl

step_mapped :
    (n t va pa : ℕ) (perm : Flags) (s : Vm)
    → va < maxva
    → (walk_from 2 t va true s).1 ≢ 0
    → (entry (walk_from 2 t va true s).1 va (walk_from 2 t va true s).0).flags.valid ≡ false
    → map_from (suc n) t va pa perm s
      ≡ map_from n t
          (va + pgsize)
          (pa + pgsize)
          perm
          (set_pte (walk_from 2 t va true s).1 (px 0 va) (leaf perm pa) (walk_from 2 t va true s).0)
unfolding map_from walk
step_mapped n t va pa perm s h z v =
    let b : leb maxva va ≡ false = ground arith in
    let c : ((walk_from 2 t va true s).1 == 0) ≡ false = ground (arith, z) in rw (b, c, v) refl

module _ (root : ℕ) (perm : Flags) where
  -- One more page in front.
  Maps-suc :
      (n va pa : ℕ) (s s2 : Vm) (r : Outcome (Vm × ℤ))
      → ((a : ℕ)
          → a < maxva
          → view root a s2 ≡ (if a / pgsize == va / pgsize then leaf perm pa else view root a s))
      → Maps root n (va + pgsize) (pa + pgsize) perm s2 r
      → Maps root (suc n) va pa perm s r
  Maps-suc n va pa s s2 r one m = record {
    after = m.after;
    code = m.code;
    k = suc m.k;
    lab' = m.lab';
    rest = m.rest;
    returns = m.returns;
    vm = m.vm;
    result = elim m.result [
      | inl q ↦ inl (q.0, ap suc q.1)
      | inr q ↦ inr (q.0, omega (arith, q.1), q.2)
    ];
    entries = λ a h.
        m.entries a h
        ∙ at_page a (a / pgsize) (va / pgsize) ((va + pgsize) / pgsize) (omega arith) (one a h);
  }
    where
      at_page :
          (a p q q' : ℕ)
          → q' ≡ q + 1
          → view root a s2 ≡ (if p == q then leaf perm pa else view root a s)
          → (if within q' m.k p
              then leaf perm (pa + pgsize + (p - q') * pgsize)
              else view root a s2)
            ≡ (if within q (suc m.k) p then leaf perm (pa + (p - q) * pgsize) else view root a s)
      at_page a p q q' e f = elim (ℕ_discrete p q) [
        | yes d ↦
            let g : view root a s2 ≡ leaf perm pa = f ∙ ground (arith, d) in
            let o : within q' m.k p ≡ false = ground (arith, d, e) in
            let i : within q (suc m.k) p ≡ true = ground (arith, d) in
            let c : pa + (p - q) * pgsize ≡ pa = omega (arith, d) in rw (o, i, g, c) refl
        | no d ↦
            let g : view root a s2 ≡ view root a s = f ∙ ground (arith, d) in
            elim (Bool-cases (within q' m.k p)) [
              | inl b ↦
                  let i : within q (suc m.k) p ≡ true = ground (arith, b, e, d) in
                  let c : pa + pgsize + (p - q') * pgsize ≡ pa + (p - q) * pgsize =
                    ground (arith, b, e) in
                  rw (b, i, c) refl
              | inr b ↦
                  let i : within q (suc m.k) p ≡ false = ground (arith, b, e, d) in rw (b, i) g
            ]
      ]

  map_from-Maps :
      (n va pa : ℕ) (lab : ℕ → Option (List ℕ)) (xs : List ℕ) (s : Vm)
      → IsVm root lab xs s
      → va % pgsize ≡ 0
      → va + n * pgsize ≤ maxva
      → Unmapped root (va / pgsize) n s
      → Maps root n va pa perm s (map_from n root va pa perm s)
  unfolding map_from
  map_from-Maps zero va pa lab xs s vm al hi un = record {
    after = s;
    code = pos 0;
    k = 0;
    lab' = lab;
    rest = xs;
    returns = refl;
    vm = vm;
    result = inl (refl, refl);
    entries = λ a h. ground arith;
  }
  map_from-Maps (suc n) va pa lab xs s vm al hi un = elim w.result [
    | inl full ↦ record {
      after = v;
      code = minus_one;
      k = 0;
      lab' = w.lab';
      rest = w.rest;
      returns = step_full n root va pa perm s below full.0;
      vm = w.vm;
      result = inr (refl, omega arith, full.1);
      entries = λ a h. w.views a ∙ ground arith;
    }
    | inr found ↦
        let here = written-view root w.lab' w.rest v w.vm va t (leaf perm pa) found.0 found.1 in
        let one = λ (a : ℕ) (h : a < maxva).
          here a below h
          ∙ ap (λ y. if a / pgsize == va / pgsize then leaf perm pa else y) (w.views a) in
        let free : (entry t va v).flags.valid ≡ false =
          sym (ap (λ (e : Pte). e.flags.valid) (at_table found.0 found.1))
          ∙ ap (λ (e : Pte). e.flags.valid) (w.views va)
          ∙ un va below (ground arith) in
        let rest =
          map_from-Maps n (va + pgsize) (pa + pgsize) w.lab' w.rest
            (set_pte t (px 0 va) (leaf perm pa) v)
            (written-IsVm root w.lab' w.rest v w.vm va t (leaf perm pa) found.0 found.1)
            (omega arith) (omega arith)
            (λ a h i.
              let apart : (a / pgsize == va / pgsize) ≡ false = ground (arith, i) in
              let i' : within (va / pgsize) (suc n) (a / pgsize) ≡ true = ground (arith, i) in
              let e2 : view root a (set_pte t (px 0 va) (leaf perm pa) v) ≡ view root a s =
                one a h ∙ rw apart refl in
              ap (λ (e : Pte). e.flags.valid) e2 ∙ un a h i') in
        subst (Maps root (suc n) va pa perm s)
          (sym (step_mapped n root va pa perm s below (nonzero found.0) free))
          (Maps-suc n va pa s (set_pte t (px 0 va) (leaf perm pa) v) _ one rest)
  ]
    where
      below : va < maxva
      below = omega arith

      w : Walked root lab s root (pxs 2 va) (px 1 va ∷ px 2 va ∷ []) (walk_from 2 root va true s)
      w = walk_root-Walked root va lab xs s vm

      v : Vm
      v = (walk_from 2 root va true s).0

      t : ℕ
      t = (walk_from 2 root va true s).1

      nonzero : w.lab' t ≡ some (px 1 va ∷ px 2 va ∷ []) → t ≢ 0
      nonzero l z = let n = w.vm.tree.nonnull in cc

      at_table :
          w.lab' t ≡ some (px 1 va ∷ px 2 va ∷ [])
          → table root va v ≡ t
          → view root va v ≡ entry t va v
      at_table l e =
          let b : (t == 0) ≡ false = let n = nonzero l in ground (arith, n) in
          ap (λ u. if u == 0 then zero_pte else entry u va v) e ∙ rw b refl

-- `mappages` of a range of whole pages that are not mapped does not panic: it maps the pages in order, each
-- to its page of the memory from `pa` on, until all are mapped or no page is free for a table; every other
-- address keeps its entry, and the tables stay a tree apart from the free pages. The result is 0 exactly if
-- all are mapped.
pub mappages-Maps :
    (root va size pa : ℕ) (perm : Flags) (lab : ℕ → Option (List ℕ)) (xs : List ℕ) (s : Vm)
    → IsVm root lab xs s
    → va % pgsize ≡ 0
    → size % pgsize ≡ 0
    → 0 < size
    → va + size ≤ maxva
    → Unmapped root (va / pgsize) (size / pgsize) s
    → Maps root (size / pgsize) va pa perm s (mappages root va size pa perm s)
unfolding mappages
mappages-Maps root va size pa perm lab xs s vm al sl pos_size hi un =
    let n : size ≢ 0 = omega arith in
    let guards : mappages root va size pa perm s ≡ map_from (size / pgsize) root va pa perm s =
      ground (arith, al, sl, n) in
    rw guards (map_from-Maps root perm (size / pgsize) va pa lab xs s vm al (omega arith) un)
