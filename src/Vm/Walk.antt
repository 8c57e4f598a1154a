-- ===== src/Vm/Walk.antt =====
-- `walk`: the table that it finds, and the tables that it adds.
use aut_whuoslab.Prelude.{
  ℕ, zero, suc, ◌≡◌, refl, sym, ap, ◌∙◌, subst, ◌≢◌, ◌⊎◌, inl, inr, Bool, true, false, List, [],
  ◌∷◌, Option, some, arith, pos, ◌==◌, if◌then◌else◌, Bool-cases,
}
use aut_whuoslab.Kalloc.{Kmem, pa_idx, update, kalloc}
use aut_whuoslab.Kalloc.Inv.{Frees, update_self, kalloc-Allocs, kalloc-kernel_end}
use aut_whuoslab.Radix.{follow, full, Reads}
use aut_whuoslab.Vm.{Vm, px, alloc_page, link_table, walk_from}
use aut_whuoslab.Vm.Tree.{
  child, Inner, pxs, view, IsVm, linked_vm, link-IsVm, link-view, link-child, link-old_child,
  link-old_label, x_nonzero, Reads-pxs,
}

-- What `kalloc` does with free pages `xs` to the memory.
abbrev pub PageAllocs : Vm → List ℕ → ℕ × Vm → Type 0
PageAllocs s [] r = r ≡ (0, s)
PageAllocs s (x ∷ xs) r =
    (k : Kmem) × (r ≡ (x, record s { kmem = k; page = update s.page x (λ j. 5) }))
    × Frees k xs
    × (k.kernel_end ≡ s.kmem.kernel_end)
    × (k.count ≡ update s.kmem.count (pa_idx x) (pos 1))

pub alloc_page-PageAllocs :
    (s : Vm) (xs : List ℕ) → Frees s.kmem xs → PageAllocs s xs (alloc_page s)
unfolding alloc_page
alloc_page-PageAllocs s [] f = let a = kalloc-Allocs s.kmem [] f in rw (a.0, a.1) refl
alloc_page-PageAllocs s (x ∷ xs) f =
    let a = kalloc-Allocs s.kmem (x ∷ xs) f in
    let n : ((x == 0) ≡ false) =
      let h = f.past_null in let p = f.pages.0.above in ground (arith, h, p) in
    let e : (kalloc s.kmem).0 ≡ x = a.0 in
    ((kalloc s.kmem).1, rw (e, n) refl, a.1, kalloc-kernel_end s.kmem, a.4)

walk_found :
    (l t va : ℕ) (alloc : Bool) (s : Vm)
    → (s.pte t (px (suc l) va)).flags.valid ≡ true
    → walk_from (suc l) t va alloc s ≡ walk_from l (s.pte t (px (suc l) va)).pa va alloc s
unfolding walk_from
walk_found l t va alloc s h = rw h refl

walk_absent :
    (l t va : ℕ) (s : Vm)
    → (s.pte t (px (suc l) va)).flags.valid ≡ false
    → walk_from (suc l) t va false s ≡ (s, 0)
unfolding walk_from
walk_absent l t va s h = rw h refl

-- How `walk` goes on with what `kalloc` returned.
abbrev go_on : ℕ → ℕ → ℕ → ℕ × Vm → Vm × ℕ
go_on l t va (p, s') =
    if p == 0 then (s', 0) else walk_from l p va true (link_table t (px (suc l) va) p s')

walk_no_memory :
    (l t va : ℕ) (s : Vm)
    → (s.pte t (px (suc l) va)).flags.valid ≡ false
    → alloc_page s ≡ (0, s)
    → walk_from (suc l) t va true s ≡ (s, 0)
unfolding walk_from
walk_no_memory l t va s h e = rw h (ap (go_on l t va) e)

walk_made :
    (l t va x : ℕ) (s s' : Vm)
    → (s.pte t (px (suc l) va)).flags.valid ≡ false
    → alloc_page s ≡ (x, s')
    → x ≢ 0
    → walk_from (suc l) t va true s ≡ walk_from l x va true (link_table t (px (suc l) va) x s')
unfolding walk_from
walk_made l t va x s s' h e n =
    let b : (x == 0) ≡ false = ground (arith, n) in rw h (ap (go_on l t va) e ∙ rw b refl)

-- What `walk` leaves, with `alloc`: a tree with the old tables in it, where every address has the entry that
-- it had. The result is the table of the address, or 0 when no page is free any more.
pub record Walked (root : ℕ) (lab : ℕ → Option (List ℕ)) (s : Vm) (t : ℕ) (js p : List ℕ)
    (r : Vm × ℕ) : Type 0 where
  pub lab' : ℕ → Option (List ℕ)
  pub rest : List ℕ
  pub vm : IsVm root lab' rest r.0
  pub views : (va : ℕ) → view root va r.0 ≡ view root va s
  pub old : (a : ℕ) (q : List ℕ) → lab a ≡ some q → lab' a ≡ some q
  pub same_children :
      (a j : ℕ) (q : List ℕ) → lab a ≡ some q → child s a j ≢ 0 → child r.0 a j ≡ child s a j
  pub result : ((r.1 ≡ 0) × (rest ≡ [])) ⊎ ((lab' r.1 ≡ some p) × (follow (child r.0) js t ≡ r.1))

walk_from-Walked :
    (root l va : ℕ) (lab : ℕ → Option (List ℕ)) (xs : List ℕ) (s : Vm) (t : ℕ) (pt : List ℕ)
    → IsVm root lab xs s
    → lab t ≡ some pt
    → Reads Inner pt (pxs l va)
    → Walked root lab s t (pxs l va) (full pt (pxs l va)) (walk_from l t va true s)
unfolding walk_from
walk_from-Walked root zero va lab xs s t pt vm at_t h = record {
  lab' = lab;
  rest = xs;
  vm = vm;
  views = λ a. refl;
  old = λ a q e. e;
  same_children = λ a j q e n. refl;
  result = inr (at_t, refl);
}
walk_from-Walked root (suc l) va lab xs s t pt vm at_t h =
    elim (Bool-cases (s.pte t (px (suc l) va)).flags.valid) [
      | inl on ↦
          let nz = vm.solid t (px (suc l) va) pt at_t h.0 on in
          subst (Walked root lab s t (pxs (suc l) va) (full pt (pxs (suc l) va)))
            (sym (walk_found l t va true s on))
            (down on nz (
              walk_from-Walked root l va lab xs s (s.pte t (px (suc l) va)).pa (px (suc l) va ∷ pt)
                vm (under on nz) h.1))
      | inr off ↦ made xs vm off (alloc_page-PageAllocs s xs vm.frees) (walk_from-Walked root l va)
    ]
  where
    t_nonzero : t ≢ 0
    t_nonzero e = let n = vm.tree.nonnull in cc

    is_child :
        (s.pte t (px (suc l) va)).flags.valid ≡ true
        → child s t (px (suc l) va) ≡ (s.pte t (px (suc l) va)).pa
    is_child e = rw e refl

    under :
        (s.pte t (px (suc l) va)).flags.valid ≡ true
        → (s.pte t (px (suc l) va)).pa ≢ 0
        → lab (s.pte t (px (suc l) va)).pa ≡ some (px (suc l) va ∷ pt)
    under e n = elim (vm.tree.linked t (px (suc l) va) pt at_t h.0) [
      | inl z ↦ absurd (n (sym (is_child e) ∙ z))
      | inr g ↦ sym (ap lab (is_child e)) ∙ g
    ]

    down :
        (s.pte t (px (suc l) va)).flags.valid ≡ true
        → (s.pte t (px (suc l) va)).pa ≢ 0
        → {r : Vm × ℕ}
        → Walked root lab s (s.pte t (px (suc l) va)).pa (pxs l va) (full pt (pxs (suc l) va)) r
        → Walked root lab s t (pxs (suc l) va) (full pt (pxs (suc l) va)) r
    down e n {r} w = record {
      lab' = w.lab';
      rest = w.rest;
      vm = w.vm;
      views = w.views;
      old = w.old;
      same_children = w.same_children;
      result = elim w.result [
        | inl z ↦ inl z
        | inr q ↦
            let b : (t == 0) ≡ false = let m = t_nonzero in ground (arith, m) in
            let c : child r.0 t (px (suc l) va) ≡ (s.pte t (px (suc l) va)).pa =
              w.same_children t (px (suc l) va) pt at_t (λ z. n (sym (is_child e) ∙ z))
              ∙ is_child e in
            inr (q.0, rw (b, c) q.1)
      ];
    }

    up :
        (x : ℕ) (ys : List ℕ) (v : IsVm root lab (x ∷ ys) s) (k : Kmem) (g : ℕ → ℕ → ℕ)
        → (s.pte t (px (suc l) va)).flags.valid ≡ false
        → {r : Vm × ℕ}
        → Walked root
            (update lab x (some (px (suc l) va ∷ pt)))
            (linked_vm t (px (suc l) va) x k g s)
            x
            (pxs l va)
            (full pt (pxs (suc l) va))
            r
        → Walked root lab s t (pxs (suc l) va) (full pt (pxs (suc l) va)) r
    up x ys v k g off {r} w = record {
      lab' = w.lab';
      rest = w.rest;
      vm = w.vm;
      views = λ a.
          w.views a ∙ link-view root lab x ys s v t (px (suc l) va) pt at_t h.0 (rw off refl) k g a;
      old = λ a q e.
          w.old a q (
            link-old_label root lab x ys s v t (px (suc l) va) pt at_t h.0 (rw off refl) k g a q e);
      same_children = λ a j q e n.
          let c =
            link-old_child root lab x ys s v t (px (suc l) va) pt at_t h.0 (rw off refl) k g a j q e
              n in
          let o =
            link-old_label root lab x ys s v t (px (suc l) va) pt at_t h.0 (rw off refl) k g a q
              e in
          w.same_children a j q o (λ z. n (sym c ∙ z)) ∙ c;
      result = elim w.result [
        | inl z ↦ inl z
        | inr q ↦
            let b : (t == 0) ≡ false = let m = t_nonzero in ground (arith, m) in
            let d = link-child root lab x ys s v t (px (suc l) va) pt at_t h.0 (rw off refl) k g in
            let o =
              link-old_label root lab x ys s v t (px (suc l) va) pt at_t h.0 (rw off refl) k g t pt
                at_t in
            let nz = x_nonzero root lab x ys s v t (px (suc l) va) pt at_t h.0 (rw off refl) k g in
            let c : child r.0 t (px (suc l) va) ≡ x =
              w.same_children t (px (suc l) va) pt o (λ z. nz (sym d ∙ z)) ∙ d in
            inr (q.0, rw (b, c) q.1)
      ];
    }

    made :
        (ys : List ℕ)
        → IsVm root lab ys s
        → (s.pte t (px (suc l) va)).flags.valid ≡ false
        → PageAllocs s ys (alloc_page s)
        → ((lab2 : ℕ → Option (List ℕ)) (zs : List ℕ) (s2 : Vm) (u : ℕ) (pu : List ℕ)
            → IsVm root lab2 zs s2
            → lab2 u ≡ some pu
            → Reads Inner pu (pxs l va)
            → Walked root lab2 s2 u (pxs l va) (full pu (pxs l va)) (walk_from l u va true s2))
        → Walked root lab s t
            (pxs (suc l) va)
            (full pt (pxs (suc l) va))
            (walk_from (suc l) t va true s)
    made [] v off a rec =
        subst (Walked root lab s t (pxs (suc l) va) (full pt (pxs (suc l) va)))
          (sym (walk_no_memory l t va s off a))
          (record {
            lab' = lab;
            rest = [];
            vm = v;
            views = λ a. refl;
            old = λ a q e. e;
            same_children = λ a j q e n. refl;
            result = inl (refl, refl);
          })
    made (x ∷ ys) v off (k, a, f, _, _) rec =
        let nz =
          x_nonzero root lab x ys s v t (px (suc l) va) pt at_t h.0 (rw off refl) k
            (update s.page x (λ j. 5)) in
        let vm2 =
          link-IsVm root lab x ys s v t (px (suc l) va) pt at_t h.0 (rw off refl) k
            (update s.page x (λ j. 5)) f in
        subst (Walked root lab s t (pxs (suc l) va) (full pt (pxs (suc l) va)))
          (sym (walk_made l t va x s _ off a nz))
          (up x ys v k (update s.page x (λ j. 5)) off (
            rec (update lab x (some (px (suc l) va ∷ pt))) ys
              (linked_vm t (px (suc l) va) x k (update s.page x (λ j. 5)) s) x (px (suc l) va ∷ pt)
              vm2 (update_self lab x (some (px (suc l) va ∷ pt))) h.1))

-- `walk` with `alloc`, from the root.
pub walk_root-Walked :
    (root va : ℕ) (lab : ℕ → Option (List ℕ)) (xs : List ℕ) (s : Vm)
    → IsVm root lab xs s
    → Walked root lab s root (pxs 2 va) (px 1 va ∷ px 2 va ∷ []) (walk_from 2 root va true s)
walk_root-Walked root va lab xs s vm =
    walk_from-Walked root 2 va lab xs s root [] vm vm.rooted (Reads-pxs va)
