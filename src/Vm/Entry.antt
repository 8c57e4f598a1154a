-- ===== src/Vm/Entry.antt =====
-- A write of the entry of one address, in the table that `walk` finds for it.
use aut_whuoslab.Prelude.{
  ℕ, ◌/◌, ◌<◌, ◌≡◌, sym, ap, ◌∙◌, ◌≢◌, ◌⊎◌, inl, inr, List, [], ◌∷◌, Option, some, arith,
  ℕ_discrete, ◌==◌, if◌then◌else◌,
}
use aut_whuoslab.Kalloc.{pgsize}
use aut_whuoslab.Radix.{follow_agree}
use aut_whuoslab.Vm.{Pte, Vm, zero_pte, maxva, px, set_pte, entry}
use aut_whuoslab.Vm.Tree.{child, Inner, pxs, table, view, IsVm, Reads-pxs, table-lab, no-Inner}

-- The three indices are the digits of the page's number.
px_inj :
    (a b : ℕ)
    → a < maxva
    → b < maxva
    → px 2 a ≡ px 2 b
    → px 1 a ≡ px 1 b
    → px 0 a ≡ px 0 b
    → a / pgsize ≡ b / pgsize
px_inj a b ha hb e2 e1 e0 = omega arith

px_page :
    (a b : ℕ) → a / pgsize ≡ b / pgsize → (px 2 a ≡ px 2 b) × (px 1 a ≡ px 1 b) × (px 0 a ≡ px 0 b)
px_page a b e = (omega arith, omega arith, omega arith)

path_inj :
    (o : Option (List ℕ)) (a b c d : ℕ)
    → o ≡ some (a ∷ b ∷ [])
    → o ≡ some (c ∷ d ∷ [])
    → (a ≡ c) × (b ≡ d)
path_inj o a b c d e f = (cc, cc)

module _ (root : ℕ) (lab : ℕ → Option (List ℕ)) (xs : List ℕ) (s : Vm) (vm : IsVm root lab xs s)
    (va t : ℕ) (e : Pte) (at_t : lab t ≡ some (px 1 va ∷ px 2 va ∷ []))
    (way : table root va s ≡ t) where
  abbrev written : Vm
  written = set_pte t (px 0 va) e s

  Inner-ne : (a : ℕ) (p : List ℕ) → lab a ≡ some p → Inner p → a ≢ t
  Inner-ne a p l h q = no-Inner lab a p _ _ l h (ap lab q ∙ at_t)

  row : (a j : ℕ) → a ≢ t → written.pte a j ≡ s.pte a j
  row a j n = ground (arith, n)

  child_row : (a j : ℕ) (p : List ℕ) → lab a ≡ some p → Inner p → child written a j ≡ child s a j
  child_row a j p l h =
      ap (λ (q : Pte). if q.flags.valid then q.pa else 0) (row a j (Inner-ne a p l h))

  pub written-table : (a : ℕ) → table root a written ≡ table root a s
  written-table a =
      follow_agree Inner lab (child s) vm.tree (child written) (pxs 2 a) [] root child_row
        (inr vm.rooted) (Reads-pxs a)

  pub written-IsVm : IsVm root lab xs written
  written-IsVm = record {
    frees = vm.frees;
    tree = record {
      nonnull = vm.tree.nonnull;
      linked = λ a j p l h. rw (child_row a j p l h) (vm.tree.linked a j p l h);
    };
    rooted = vm.rooted;
    solid = λ a j p l h. rw (row a j (Inner-ne a p l h)) (vm.solid a j p l h);
    unused = vm.unused;
  }

  -- The entry of this page is the new one, and the other pages keep theirs.
  pub written-view :
      (a : ℕ)
      → va < maxva
      → a < maxva
      → view root a written ≡ (if a / pgsize == va / pgsize then e else view root a s)
  written-view a hv ha =
      ap (λ u. if u == 0 then zero_pte else entry u a written) (written-table a)
      ∙ by_page (ℕ_discrete (a / pgsize) (va / pgsize)) (table-lab root lab xs s vm a)
    where
      t_nonzero : t ≢ 0
      t_nonzero z = let n = vm.tree.nonnull in cc

      entry_at : ℕ → Pte
      entry_at u = if u == 0 then zero_pte else entry u a written

      by_page :
          Dec (a / pgsize ≡ va / pgsize)
          → (table root a s ≡ 0) ⊎ (lab (table root a s) ≡ some (px 1 a ∷ px 2 a ∷ []))
          → entry_at (table root a s) ≡ (if a / pgsize == va / pgsize then e else view root a s)
      by_page (yes q) l =
          let d = px_page a va q in
          let u : table root a s ≡ t = rw (d.0, d.1) way in
          let n = t_nonzero in let z = d.2 in ap entry_at u ∙ ground (arith, n, z, q)
      by_page (no q) (inl z) = rw z (ground (arith, q))
      by_page (no q) (inr l) = elim (ℕ_discrete (table root a s) t) [
        | yes u ↦
            let d = path_inj (lab t) _ _ _ _ (sym (ap lab u) ∙ l) at_t in
            let n : px 0 a ≢ px 0 va = λ z. q (px_inj a va ha hv d.1 d.0 z) in
            rw u (ground (arith, n, q))
        | no u ↦
            ap (λ y. if table root a s == 0 then zero_pte else y) (row (table root a s) (px 0 a) u)
            ∙ ground (arith, q)
      ]
