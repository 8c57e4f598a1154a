-- ===== src/Vm/Cow.antt =====
-- `cowhandler`: the first write to a page that is shared until it is written.
use aut_whuoslab.Prelude.{
  ℕ, zero, suc, ◌<◌, ◌/◌, ◌≡◌, refl, sym, ap, ◌∙◌, subst, ◌≢◌, ◌⊎◌, inl, inr, Bool, true, false,
  not, ◌||◌, List, [], ◌∷◌, All, Option, none, some, arith, ◌==◌, if◌then◌else◌, leb, done, Outcome,
  ◌>>=◌, ℤ, pos, minus_one,
}
use aut_whuoslab.Kalloc.{Kmem, pgsize, pa_idx, update, kunrefpage, krefcount}
use aut_whuoslab.Kalloc.Inv.{Frees, IsPage, Absent, idx-ne}
use aut_whuoslab.Kalloc.Refcount.{Unrefs, kunrefpage-Unrefs}
use aut_whuoslab.Vm.{Flags, Pte, Vm, zero_pte, maxva, px, set_pte, entry, alloc_page}
use aut_whuoslab.Vm.Memory.{unref_page, writable, cow_page, cowhandler}
use aut_whuoslab.Vm.Tree.{table, view, IsVm, table-lab}
use aut_whuoslab.Vm.Walk.{PageAllocs, alloc_page-PageAllocs}
use aut_whuoslab.Vm.Entry.{written-IsVm, written-view}
use aut_whuoslab.Vm.Lookup.{find}

-- The tables do not depend on the pages, and on the allocator only by its free pages.
pub with-Frees :
    (root : ℕ) (lab : ℕ → Option (List ℕ)) (xs ys : List ℕ) (s : Vm) (k : Kmem) (g : ℕ → ℕ → ℕ)
    → IsVm root lab xs s
    → Frees k ys
    → All (λ y. lab y ≡ none) ys
    → IsVm root lab ys (record s { kmem = k; page = g })
with-Frees root lab xs ys s k g vm f u = record {
  frees = f;
  tree = vm.tree;
  rooted = vm.rooted;
  solid = vm.solid;
  unused = u;
}

-- The faulting address is on a page of the user that waits for a copy.
pub record IsShared (root va pa : ℕ) (f : Flags) (s : Vm) : Type 0 where
  pub in_range : va < maxva
  pub mapped : view root va s ≡ record { flags = f; pa = pa }
  pub valid : f.valid ≡ true
  pub user : f.user ≡ true
  pub cow : f.cow ≡ true

false_ne : false ≢ true
false_ne e = cc

-- What giving back a share of page `pa`, one of `suc n`, does.
pub record Unshared (pa n : ℕ) (xs : List ℕ) (s : Vm) (r : Outcome Vm) : Type 0 where
  pub kmem' : Kmem
  pub page' : ℕ → ℕ → ℕ
  pub rest : List ℕ
  pub returns : r ≡ done (record s { kmem = kmem'; page = page' })
  pub frees : Frees kmem' rest
  pub others : (p : ℕ) → p ≢ pa → page' p ≡ s.page p
  pub share :
      ((n ≡ 0) × (rest ≡ pa ∷ xs))
      ⊎ ((n ≢ 0) × (rest ≡ xs) × (krefcount kmem' pa ≡ pos n) × (page' pa ≡ s.page pa))

pub unref_page-Unshared :
    (pa n : ℕ) (xs : List ℕ) (s : Vm)
    → Frees s.kmem xs
    → IsPage s.kmem.kernel_end pa
    → Absent pa xs
    → s.kmem.count (pa_idx pa) ≡ pos (suc n)
    → Unshared pa n xs s (unref_page pa s)
unref_page-Unshared pa n xs s f p a c = by_count n (
    subst (λ z. Unrefs s.kmem xs pa z (kunrefpage s.kmem pa)) c
      (kunrefpage-Unrefs s.kmem xs pa f p a))
  where
    give : Kmem × ℕ → Vm
    give u = record s { kmem = u.0; page = if u.1 == 1 then update s.page pa (λ j. 1) else s.page }

    by_count :
        (m : ℕ)
        → Unrefs s.kmem xs pa (pos (suc m)) (kunrefpage s.kmem pa)
        → Unshared pa m xs s (unref_page pa s)
    by_count zero (k', e, f') = record {
      kmem' = k';
      page' = update s.page pa (λ j. 1);
      rest = pa ∷ xs;
      returns = ap (λ o. o >>= λ u. done (give u)) e;
      frees = f';
      others = λ q d. ground (arith, d);
      share = inl (refl, refl);
    }
    by_count (suc m) (k', e, f', g) = record {
      kmem' = k';
      page' = s.page;
      rest = xs;
      returns = ap (λ o. o >>= λ u. done (give u)) e;
      frees = f';
      others = λ q d. refl;
      share = inr (omega arith, refl, g, refl);
    }

-- What the copy leaves: the address has page `x`, with the COW flag cleared, the W flag set and the other flags
-- as they were, and with what page `pa` held; the other addresses keep their entries, the other pages what they hold; and of the `suc n` shares of `pa` one is given back.
pub record Copied (root va pa x n : ℕ) (lab : ℕ → Option (List ℕ)) (xs : List ℕ) (f : Flags)
    (s : Vm) (r : Outcome (Vm × ℤ)) : Type 0 where
  pub after : Vm
  pub rest : List ℕ
  pub returns : r ≡ done (after, pos 0)
  pub vm : IsVm root lab rest after
  pub entries :
      (a : ℕ)
      → a < maxva
      → view root a after ≡ (
          if a / pgsize == va / pgsize
          then record { flags = record f { cow = false; write = true }; pa = x }
          else view root a s)
  pub contents : after.page x ≡ s.page pa
  pub others : (p : ℕ) → p ≢ x → p ≢ pa → after.page p ≡ s.page p
  pub share :
      ((n ≡ 0) × (rest ≡ pa ∷ xs))
      ⊎ ((n ≢ 0) × (rest ≡ xs) × (krefcount after.kmem pa ≡ pos n) × (after.page pa ≡ s.page pa))

cow_step :
    (root va : ℕ) (lab : ℕ → Option (List ℕ)) (xs : List ℕ) (s : Vm) (pa : ℕ) (f : Flags)
    → IsVm root lab xs s
    → IsShared root va pa f s
    → (table root va s ≢ 0)
      × (cowhandler root va s
          ≡ cow_page (table root va s) va (record { flags = f; pa = pa }) (alloc_page s))
unfolding cowhandler
cow_step root va lab xs s pa f vm sh = (
  n,
  ap guards (find root lab xs s vm va) ∙ rw (hv, bn, at_entry, sh.valid, sh.user, sh.cow) refl,
)
  where
    guards : Vm × ℕ → Outcome (Vm × ℤ)
    guards (w, t0) =
        if leb maxva va
        then done (s, minus_one)
        else if (t0 == 0) || (not (entry t0 va s).flags.valid || not (entry t0 va s).flags.user)
        then done (s, minus_one)
        else if not (entry t0 va s).flags.cow
        then done (s, minus_one)
        else cow_page t0 va (entry t0 va s) (alloc_page s)

    n : table root va s ≢ 0
    n z =
        let e : view root va s ≡ zero_pte = ap (λ t. if t == 0 then zero_pte else entry t va s) z in
        false_ne (ap (λ (q : Pte). q.flags.valid) (sym e ∙ sh.mapped) ∙ sh.valid)

    hv : leb maxva va ≡ false
    hv = let h = sh.in_range in ground (arith, h)

    bn : (table root va s == 0) ≡ false
    bn = let m = n in ground (arith, m)

    at_entry : entry (table root va s) va s ≡ record { flags = f; pa = pa }
    at_entry =
        sym (ap (λ (b : Bool). if b then zero_pte else entry (table root va s) va s) bn) ∙ sh.mapped

module _ (root va : ℕ) (lab : ℕ → Option (List ℕ)) (x : ℕ) (xs : List ℕ) (s : Vm) (pa n : ℕ)
    (f : Flags) where
  -- A write to a page of the user that is shared until it is written, with page `x` the next free one, does
  -- not panic, and gives the address a copy of the page with PTE_COW cleared and PTE_W set; one share of the old
  -- page is given back, and the entries of the other addresses and the other pages stay.
  pub cowhandler-Copied :
      IsVm root lab (x ∷ xs) s
      → IsShared root va pa f s
      → IsPage s.kmem.kernel_end pa
      → Absent pa (x ∷ xs)
      → lab pa ≡ none
      → s.kmem.count (pa_idx pa) ≡ pos (suc n)
      → Copied root va pa x n lab xs f s (cowhandler root va s)
  cowhandler-Copied vm sh page absent no_table count =
      by_alloc (alloc_page-PageAllocs s (x ∷ xs) vm.frees)
    where
      t : ℕ
      t = table root va s

      at_t : lab t ≡ some (px 1 va ∷ px 2 va ∷ [])
      at_t = elim (table-lab root lab (x ∷ xs) s vm va) [
        | inl z ↦ absurd ((cow_step root va lab (x ∷ xs) s pa f vm sh).0 z)
        | inr l ↦ l
      ]

      by_alloc :
          PageAllocs s (x ∷ xs) (alloc_page s)
          → Copied root va pa x n lab xs f s (cowhandler root va s)
      by_alloc (k, a, fk, ek, ck) = record {
        after = record s3 { kmem = u.kmem'; page = u.page' };
        rest = u.rest;
        returns =
            step.1
            ∙ ap (cow_page t va (record { flags = f; pa = pa })) a
            ∙ rw nx (ap (λ o. o >>= λ w. done (w, pos 0)) u.returns);
        vm =
            with-Frees root lab xs u.rest s3 u.kmem' u.page'
              (written-IsVm root lab xs s2 vm2 va t e at_t refl) u.frees no_tables;
        entries = λ b h. written-view root lab xs s2 vm2 va t e at_t refl b sh.in_range h;
        contents = u.others x (λ q. absent.0 (sym q)) ∙ ground arith ∙ old_page;
        others = λ p m d. u.others p d ∙ ground (arith, m);
        share = elim u.share [ inl q ↦ inl q | inr q ↦ inr (q.0, q.1, q.2, q.3 ∙ kept) ];
      }
        where
          step :
              (t ≢ 0)
              × (cowhandler root va s
                  ≡ cow_page t va (record { flags = f; pa = pa }) (alloc_page s))
          step = cow_step root va lab (x ∷ xs) s pa f vm sh

          e : Pte
          e = record { flags = writable f; pa = x }

          s2 : Vm
          s2 = record s {
            kmem = k;
            page = update (update s.page x (λ j. 5)) x (update s.page x (λ j. 5) pa);
          }

          s3 : Vm
          s3 = set_pte t (px 0 va) e s2

          old_page : update s.page x (λ j. 5) pa ≡ s.page pa
          old_page = let d = absent.0 in ground (arith, d)

          kept : s3.page pa ≡ s.page pa
          kept = let d = absent.0 in ground (arith, d)

          nx : (x == 0) ≡ false
          nx = let h = vm.frees.past_null in let p = vm.frees.pages.0.above in ground (arith, h, p)

          vm2 : IsVm root lab xs s2
          vm2 = with-Frees root lab (x ∷ xs) xs s k s2.page vm fk vm.unused.1

          still : k.count (pa_idx pa) ≡ pos (suc n)
          still =
              ap (λ c. c (pa_idx pa)) ck
              ∙ ground (
                arith,
                idx-ne s.kmem.kernel_end x pa vm.frees.pages.0 page (λ q. absent.0 (sym q)),
                count,
              )

          u : Unshared pa n xs s3 (unref_page pa s3)
          u =
              unref_page-Unshared pa n xs s3 fk (subst (λ z. IsPage z pa) (sym ek) page) absent.1
                still

          no_tables : All (λ y. lab y ≡ none) u.rest
          no_tables = elim u.share [
            | inl q ↦ subst (All (λ y. lab y ≡ none)) (sym q.1) (no_table, vm.unused.1)
            | inr q ↦ subst (All (λ y. lab y ≡ none)) (sym q.1) vm.unused.1
          ]
