-- ===== src/Vm/Tree.antt =====
-- What the page tables of vm.c hold: the entry of each address, and the tables as a tree.
use mathlib.Core.Path.{fun_ext}
use aut_whuoslab.Prelude.{
  ℕ, zero, suc, ◌*◌, ◌/◌, ◌%◌, ◌≡◌, sym, ap, ◌∙◌, subst, ◌≢◌, ◌⊎◌, inl, inr, true, ◌&&◌, List, [],
  ◌∷◌, All, Option, none, some, arith, ℕ_discrete, ◌==◌, if◌then◌else◌,
}
use aut_whuoslab.Kalloc.{Kmem, pgsize, update}
use aut_whuoslab.Kalloc.Inv.{Frees, IsPage, Absent}
use aut_whuoslab.Radix.{follow, grown, IsTree, Reads, follow-lab}
use aut_whuoslab.Radix.Grow.{grow-follow_cases, grow-IsTree}
use aut_whuoslab.Vm.{Pte, Vm, no_flags, zero_pte, px, leaf, link_table, entry}

-- The table that an entry leads to, 0 for none.
abbrev pub child : Vm → ℕ → ℕ → ℕ
child s t i = if (s.pte t i).flags.valid then (s.pte t i).pa else 0

-- The labels of the tables of levels 2 and 1.
abbrev pub Inner : List ℕ → Type 0
Inner [] = Unit
Inner (i ∷ []) = Unit
Inner (i ∷ j ∷ is) = ⊥

-- The indices from a table with `level` levels to go.
abbrev pub pxs : ℕ → ℕ → List ℕ
pxs zero va = []
pxs (suc level) va = px (suc level) va ∷ pxs level va

-- The table of level 0 for `va`.
abbrev pub table : ℕ → ℕ → Vm → ℕ
table root va s = follow (child s) (pxs 2 va) root

-- The entry of `va`, 0 where there is no table for it.
abbrev pub view : ℕ → ℕ → Vm → Pte
view root va s = if table root va s == 0 then zero_pte else entry (table root va s) va s

-- The tables that `lab` labels form a tree, and `xs` are the free pages, none of them a table.
pub record IsVm (root : ℕ) (lab : ℕ → Option (List ℕ)) (xs : List ℕ) (s : Vm) : Type 0 where
  pub frees : Frees s.kmem xs
  pub tree : IsTree Inner lab (child s)
  pub rooted : lab root ≡ some []
  pub solid :
      (t i : ℕ) (p : List ℕ)
      → lab t ≡ some p
      → Inner p
      → (s.pte t i).flags.valid ≡ true
      → (s.pte t i).pa ≢ 0
  pub unused : All (λ x. lab x ≡ none) xs

-- A new table `x` in entry `i` of `t`.
abbrev pub linked_vm : ℕ → ℕ → ℕ → Kmem → (ℕ → ℕ → ℕ) → Vm → Vm
linked_vm t i x k g s = link_table t i x (record s { kmem = k; page = g })

unused-update :
    (lab : ℕ → Option (List ℕ)) (x : ℕ) (l : Option (List ℕ)) (xs : List ℕ)
    → Absent x xs
    → All (λ y. lab y ≡ none) xs
    → All (λ y. update lab x l y ≡ none) xs
unused-update lab x l [] a u = tt
unused-update lab x l (y ∷ ys) a u = (ground (arith, a.0, u.0), unused-update lab x l ys a.1 u.1)

module _ (t i x : ℕ) (k : Kmem) (g : ℕ → ℕ → ℕ) (s : Vm) (aligned : x % pgsize ≡ 0)
    (ne : x ≢ t) where
  pte_linked :
      (a j : ℕ)
      → (linked_vm t i x k g s).pte a j
        ≡ (if (a == t) && (j == i) then leaf no_flags x else if a == x then zero_pte else s.pte a j)
  pte_linked a j = ground (arith, ne)

  child_linked : child (linked_vm t i x k g s) ≡ grown (child s) t i x
  child_linked = fun_ext (λ a. fun_ext (λ j. at_place a j))
    where
      whole : x / pgsize * pgsize ≡ x
      whole = omega arith

      at_place : (a j : ℕ) → child (linked_vm t i x k g s) a j ≡ grown (child s) t i x a j
      at_place a j = rw (pte_linked a j) (ground (arith, whole))

pub no-Inner :
    (lab : ℕ → Option (List ℕ)) (t : ℕ) (p : List ℕ) (a b : ℕ)
    → lab t ≡ some p
    → Inner p
    → lab t ≡ some (a ∷ b ∷ [])
    → ⊥
no-Inner lab t [] a b l h m = cc
no-Inner lab t (i ∷ []) a b l h m = cc
no-Inner lab t (i ∷ (j ∷ js)) a b l h m = elim h [ ]

pub Reads-pxs : (va : ℕ) → Reads Inner [] (pxs 2 va)
Reads-pxs va = (tt, (tt, tt))

module _ (root : ℕ) (lab : ℕ → Option (List ℕ)) (xs : List ℕ) (s : Vm)
    (vm : IsVm root lab xs s) where
  pub table-lab :
      (va : ℕ) → (table root va s ≡ 0) ⊎ (lab (table root va s) ≡ some (px 1 va ∷ px 2 va ∷ []))
  table-lab va =
      follow-lab Inner lab (child s) vm.tree (pxs 2 va) [] root (inr vm.rooted) (Reads-pxs va)

module _ (root : ℕ) (lab : ℕ → Option (List ℕ)) (x : ℕ) (xs : List ℕ) (s : Vm)
    (vm : IsVm root lab (x ∷ xs) s) (t i : ℕ) (pt : List ℕ) (at_t : lab t ≡ some pt)
    (inner : Inner pt) (empty : child s t i ≡ 0) (k : Kmem) (g : ℕ → ℕ → ℕ) where
  abbrev x_page : IsPage s.kmem.kernel_end x
  x_page = vm.frees.pages.0

  pub x_nonzero : x ≢ 0
  x_nonzero = let h = vm.frees.past_null in let p = x_page.above in omega (arith, h, p)

  x_fresh : lab x ≡ none
  x_fresh = vm.unused.0

  x_apart : (a : ℕ) (p : List ℕ) → lab a ≡ some p → x ≢ a
  x_apart a p l e = let f = x_fresh in cc

  child_new : child (linked_vm t i x k g s) ≡ grown (child s) t i x
  child_new = child_linked t i x k g s x_page.aligned (x_apart t pt at_t)

  pub link-child : child (linked_vm t i x k g s) t i ≡ x
  link-child = ap (λ c. c t i) child_new ∙ ground arith

  pub link-old_child :
      (a j : ℕ) (q : List ℕ)
      → lab a ≡ some q
      → child s a j ≢ 0
      → child (linked_vm t i x k g s) a j ≡ child s a j
  link-old_child a j q l n =
      let o = x_apart a q l in
      let z = empty in
      ap (λ c. c a j) child_new ∙ elim (ℕ_discrete a t) [
        | yes e ↦ elim (ℕ_discrete j i) [
          | yes d ↦ absurd (n (rw (e, d) z))
          | no d ↦ ground (arith, o, d)
        ]
        | no e ↦ ground (arith, o, e)
      ]

  pub link-old_label :
      (a : ℕ) (q : List ℕ) → lab a ≡ some q → update lab x (some (i ∷ pt)) a ≡ some q
  link-old_label a q l = let n = x_apart a q l in ground (arith, n, l)

  -- The new table keeps the tree.
  pub link-IsVm : Frees k xs → IsVm root (update lab x (some (i ∷ pt))) xs (linked_vm t i x k g s)
  link-IsVm f = record {
    frees = f;
    tree =
        subst (IsTree Inner (update lab x (some (i ∷ pt)))) (sym child_new)
          (grow-IsTree Inner lab (child s) vm.tree t i x pt at_t x_fresh x_nonzero);
    rooted = old root (x_apart root [] vm.rooted) ∙ vm.rooted;
    solid = filled;
    unused = unused-update lab x (some (i ∷ pt)) xs vm.frees.distinct.0 vm.unused.1;
  }
    where
      old : (a : ℕ) → x ≢ a → update lab x (some (i ∷ pt)) a ≡ lab a
      old a n = ground (arith, n)

      whole : x / pgsize * pgsize ≡ x
      whole = let p = x_page.aligned in omega (arith, p)

      filled :
          (a j : ℕ) (p : List ℕ)
          → update lab x (some (i ∷ pt)) a ≡ some p
          → Inner p
          → ((linked_vm t i x k g s).pte a j).flags.valid ≡ true
          → ((linked_vm t i x k g s).pte a j).pa ≢ 0
      filled a j p l h =
          rw (pte_linked t i x k g s x_page.aligned (x_apart t pt at_t) a j)
            (elim (ℕ_discrete a x) [
              | yes e ↦
                  let n = x_apart t pt at_t in let nz = x_nonzero in ground (arith, n, nz, whole, e)
              | no n ↦
                  let was = vm.solid a j p (sym (old a (λ e. n (sym e))) ∙ l) h in
                  let nz = x_nonzero in ground (arith, was, n, nz, whole)
            ])

  -- It changes no entry of a page.
  pub link-view : (va : ℕ) → view root va (linked_vm t i x k g s) ≡ view root va s
  link-view va =
      by_way
        (grow-follow_cases Inner lab (child s) vm.tree t i x pt at_t x_fresh (pxs 2 va) [] root
          empty (inr vm.rooted) (Reads-pxs va))
        (table-lab root lab (x ∷ xs) s vm va)
    where
      way : table root va (linked_vm t i x k g s) ≡ follow (grown (child s) t i x) (pxs 2 va) root
      way = ap (λ c. follow c (pxs 2 va) root) child_new

      entry_at : Vm → ℕ → Pte
      entry_at q a = if a == 0 then zero_pte else entry a va q

      by_way :
          (follow (grown (child s) t i x) (pxs 2 va) root ≡ table root va s)
            ⊎ ((follow (grown (child s) t i x) (pxs 2 va) root ≡ x) × (table root va s ≡ 0))
          → (table root va s ≡ 0) ⊎ (lab (table root va s) ≡ some (px 1 va ∷ px 2 va ∷ []))
          → entry_at (linked_vm t i x k g s) (table root va (linked_vm t i x k g s))
            ≡ entry_at s (table root va s)
      by_way (inl e) (inl z) =
          ap (entry_at (linked_vm t i x k g s)) (way ∙ e ∙ z) ∙ ap (entry_at s) (sym z)
      by_way (inl e) (inr l) =
          ap (entry_at (linked_vm t i x k g s)) (way ∙ e)
          ∙ ap (λ y. if table root va s == 0 then zero_pte else y) (same (table root va s) l)
        where
          same :
              (a : ℕ)
              → lab a ≡ some (px 1 va ∷ px 2 va ∷ [])
              → (linked_vm t i x k g s).pte a (px 0 va) ≡ s.pte a (px 0 va)
          same a m =
              let n : a ≢ t = λ q. no-Inner lab t pt _ _ at_t inner (sym (ap lab q) ∙ m) in
              let o = x_apart a _ m in
              pte_linked t i x k g s x_page.aligned (x_apart t pt at_t) a (px 0 va)
              ∙ ground (arith, n, o)
      by_way (inr q) l =
          ap (entry_at (linked_vm t i x k g s)) (way ∙ q.0) ∙ blank ∙ ap (entry_at s) (sym q.1)
        where
          blank : entry_at (linked_vm t i x k g s) x ≡ zero_pte
          blank =
              ap (λ y. if x == 0 then zero_pte else y)
                (pte_linked t i x k g s x_page.aligned (x_apart t pt at_t) x (px 0 va))
              ∙ (let n = x_apart t pt at_t in ground (arith, n))
