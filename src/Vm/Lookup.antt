-- ===== src/Vm/Lookup.antt =====
-- `walk` without `alloc`, and what `walkaddr` and `ismapped` read.
use aut_whuoslab.Prelude.{
  ℕ, zero, suc, ◌<◌, ◌≡◌, refl, sym, ap, ◌∙◌, ◌≢◌, inl, inr, false, not, ◌&&◌, List, [], ◌∷◌,
  Option, some, arith, ℕ_discrete, ◌==◌, if◌then◌else◌, leb, Bool-cases, done,
}
use aut_whuoslab.Radix.{follow, follow_zero, Reads}
use aut_whuoslab.Vm.{Vm, maxva, px, entry, walk_from, walk, walkaddr}
use aut_whuoslab.Vm.Memory.{ismapped}
use aut_whuoslab.Vm.Tree.{child, Inner, pxs, table, view, IsVm, Reads-pxs}

module _ (root : ℕ) (lab : ℕ → Option (List ℕ)) (xs : List ℕ) (s : Vm)
    (vm : IsVm root lab xs s) where
  find_from :
      (l va t : ℕ) (pt : List ℕ)
      → lab t ≡ some pt
      → Reads Inner pt (pxs l va)
      → walk_from l t va false s ≡ (s, follow (child s) (pxs l va) t)
  unfolding walk_from
  find_from zero va t pt at_t h = refl
  find_from (suc l) va t pt at_t h = elim (Bool-cases (s.pte t (px (suc l) va)).flags.valid) [
    | inl on ↦
        let c : child s t (px (suc l) va) ≡ (s.pte t (px (suc l) va)).pa = rw on refl in
        let nz = vm.solid t (px (suc l) va) pt at_t h.0 on in
        let under : lab (s.pte t (px (suc l) va)).pa ≡ some (px (suc l) va ∷ pt) =
          elim (vm.tree.linked t (px (suc l) va) pt at_t h.0) [
            | inl z ↦ absurd (nz (sym c ∙ z))
            | inr g ↦ sym (ap lab c) ∙ g
          ] in
        rw (on, b) (find_from l va (s.pte t (px (suc l) va)).pa (px (suc l) va ∷ pt) under h.1)
    | inr off ↦ rw (off, b) (ap (λ u. (s, u)) (sym (follow_zero (child s) (pxs l va))))
  ]
    where
      b : (t == 0) ≡ false
      b = let n : t ≢ 0 = (λ e. let z = vm.tree.nonnull in cc) in ground (arith, n)

  pub find : (va : ℕ) → walk_from 2 root va false s ≡ (s, table root va s)
  find va = find_from 2 va root [] vm.rooted (Reads-pxs va)

  -- `walkaddr` reads the address of a page from its entry, and returns 0 for an address that is out of
  -- range, not mapped or not the user's.
  pub walkaddr-view :
      (va : ℕ)
      → walkaddr root va s ≡ (
          if not (leb maxva va) && ((view root va s).flags.valid && (view root va s).flags.user)
          then (view root va s).pa
          else 0)
  unfolding walkaddr
  walkaddr-view va = ap read (find va) ∙ by_table (ℕ_discrete (table root va s) 0)
    where
      read : Vm × ℕ → ℕ
      read (s', t0) =
          if leb maxva va
          then 0
          else if t0 == 0
          then 0
          else if not (entry t0 va s).flags.valid
          then 0
          else if not (entry t0 va s).flags.user
          then 0
          else (entry t0 va s).pa

      by_table :
          Dec (table root va s ≡ 0)
          → read (s, table root va s) ≡ (
              if not (leb maxva va) && ((view root va s).flags.valid && (view root va s).flags.user)
              then (view root va s).pa
              else 0)
      by_table (yes z) = rw z (ground arith)
      by_table (no n) =
          let b : (table root va s == 0) ≡ false = ground (arith, n) in rw b (ground arith)

  pub ismapped-view : (va : ℕ) → va < maxva → ismapped root va s ≡ done (view root va s).flags.valid
  unfolding ismapped walk
  ismapped-view va h =
      let b : leb maxva va ≡ false = ground arith in
      rw (b, ap (λ w. w.1) (find va))
        (elim (ℕ_discrete (table root va s) 0) [
          | yes z ↦ rw z refl
          | no n ↦ let c : (table root va s == 0) ≡ false = ground (arith, n) in rw c refl
        ])
