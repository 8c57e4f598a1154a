-- ===== src/Vm/Tests.antt =====
-- Small memories, and runs of vm.c on them.
use aut_whuoslab.Prelude.{
  ℕ, ◌≡◌, refl, sym, ap, ◌∙◌, ◌≢◌, ◌⊎◌, inl, inr, true, List, [], ◌∷◌, Option, none, some, arith,
  ℕ_discrete, ◌==◌, if◌then◌else◌, Outcome, done, panic, ℤ, pos, minus_one, ◌>>=◌,
}
use aut_whuoslab.Kalloc.{kalloc, kfree, kunrefpage}
use aut_whuoslab.Vm.{Flags, Vm, no_flags, zero_pte, leaf, mappages}
use aut_whuoslab.Vm.Memory.{
  cowhandler, uvmcreate, uvmfree, uvmdealloc, uvmalloc, uvmcopy, uvmclear, vmfault,
}
use aut_whuoslab.Vm.Tree.{child, Inner, IsVm, no-Inner}
use aut_whuoslab.Vm.Map.{Maps, mappages-Maps}
use aut_whuoslab.Vm.Cow.{Copied, cowhandler-Copied}

abbrev user_rw : Flags
user_rw = record no_flags { read = true; write = true; user = true }

-- Three free pages, and an empty root table at 0x8000_1000.
abbrev empty_vm : Vm
empty_vm = record {
  kmem = record {
    freelist = 0x8000_2000;
    word =
        λ p. if p == 0x8000_2000 then 0x8000_3000 else if p == 0x8000_3000 then 0x8000_4000 else 0;
    count = λ _. pos 0;
    kernel_end = 0x8000_1000;
  };
  pte = λ _ _. zero_pte;
  page = λ _ _. 0;
}

abbrev root_label : ℕ → Option (List ℕ)
root_label p = if p == 0x8000_1000 then some [] else none

empty-IsVm : IsVm 0x8000_1000 root_label (0x8000_2000 ∷ 0x8000_3000 ∷ 0x8000_4000 ∷ []) empty_vm
empty-IsVm = record {
  frees = record {
    past_null = omega arith;
    linked = (refl, (refl, (refl, refl)));
    pages = (omega arith, (omega arith, (omega arith, tt)));
    uncounted = (refl, (refl, (refl, tt)));
    distinct = ((omega arith, (omega arith, tt)), ((omega arith, tt), (tt, tt)));
  };
  tree = record { nonnull = refl; linked = λ t i p l h. inl refl };
  rooted = refl;
  solid = λ t i p l h e. cc;
  unused = (refl, (refl, (refl, tt)));
}

mappages-Maps_example :
    Maps 0x8000_1000 2 0 0x8700_0000 user_rw empty_vm
      (mappages 0x8000_1000 0 8192 0x8700_0000 user_rw empty_vm)
mappages-Maps_example =
    mappages-Maps 0x8000_1000 0 8192 0x8700_0000 user_rw root_label _ empty_vm empty-IsVm
      (omega arith) (omega arith) (omega arith) (omega arith) (λ a h i. refl)

-- A page of the user at address 0 that waits for a copy; its count is 2.
abbrev shared_flags : Flags
shared_flags = record no_flags { valid = true; read = true; user = true; cow = true }

abbrev shared_vm : Vm
shared_vm = record {
  kmem = record {
    freelist = 0x8000_5000;
    word = λ _. 0;
    count = λ i. if i == 0x8_0004 then pos 2 else pos 0;
    kernel_end = 0x8000_1000;
  };
  pte = λ t i.
      if i == 0
      then (if t == 0x8000_1000
          then leaf no_flags 0x8000_2000
          else if t == 0x8000_2000
          then leaf no_flags 0x8000_3000
          else if t == 0x8000_3000
          then record { flags = shared_flags; pa = 0x8000_4000 }
          else zero_pte)
      else zero_pte;
  page = λ p j. if p == 0x8000_4000 then 7 else 0;
}

abbrev three_labels : ℕ → Option (List ℕ)
three_labels p =
    if p == 0x8000_1000
    then some []
    else if p == 0x8000_2000
    then some (0 ∷ [])
    else if p == 0x8000_3000
    then some (0 ∷ 0 ∷ [])
    else none

three_linked :
    (t i : ℕ) (p : List ℕ)
    → three_labels t ≡ some p
    → Inner p
    → (child shared_vm t i ≡ 0) ⊎ (three_labels (child shared_vm t i) ≡ some (i ∷ p))
three_linked t i p l h =
    by_entry (ℕ_discrete i 0) (ℕ_discrete t 0x8000_1000) (ℕ_discrete t 0x8000_2000)
      (ℕ_discrete t 0x8000_3000)
  where
    below : Option (List ℕ) → Option (List ℕ)
    below none = none
    below (some q) = some (0 ∷ q)

    by_entry :
        Dec (i ≡ 0)
        → Dec (t ≡ 0x8000_1000)
        → Dec (t ≡ 0x8000_2000)
        → Dec (t ≡ 0x8000_3000)
        → (child shared_vm t i ≡ 0) ⊎ (three_labels (child shared_vm t i) ≡ some (i ∷ p))
    by_entry (no n) a b c = inl (ground (arith, n))
    by_entry (yes z) (yes e) b c = inr (rw (z, e) (ap below (sym (ap three_labels e) ∙ l)))
    by_entry (yes z) (no a) (yes e) c = inr (rw (z, e) (ap below (sym (ap three_labels e) ∙ l)))
    by_entry (yes z) (no a) (no b) (yes e) =
        absurd (no-Inner three_labels t p 0 0 l h (ap three_labels e))
    by_entry (yes z) (no a) (no b) (no c) = inl (ground (arith, z, a, b, c))

three_solid :
    (t i : ℕ) (p : List ℕ)
    → three_labels t ≡ some p
    → Inner p
    → (shared_vm.pte t i).flags.valid ≡ true
    → (shared_vm.pte t i).pa ≢ 0
three_solid t i p l h v = ground (arith, v)

shared-IsVm : IsVm 0x8000_1000 three_labels (0x8000_5000 ∷ []) shared_vm
shared-IsVm = record {
  frees = record {
    past_null = omega arith;
    linked = (refl, refl);
    pages = (omega arith, tt);
    uncounted = (refl, tt);
    distinct = (tt, tt);
  };
  tree = record { nonnull = refl; linked = three_linked };
  rooted = refl;
  solid = three_solid;
  unused = (refl, tt);
}

cowhandler-Copied_example :
    Copied 0x8000_1000 20 0x8000_4000 0x8000_5000 1 three_labels [] shared_flags shared_vm
      (cowhandler 0x8000_1000 20 shared_vm)
cowhandler-Copied_example =
    cowhandler-Copied 0x8000_1000 20 three_labels 0x8000_5000 [] shared_vm 0x8000_4000 1
      shared_flags shared-IsVm
      (record { in_range = omega arith; mapped = refl; valid = refl; user = refl; cow = refl })
      (record { aligned = refl; above = omega arith; below = omega arith }) (omega arith, tt) refl
      refl

-- What the routines return, without their states.
abbrev int_of : Outcome (Vm × ℤ) → Outcome ℤ
int_of r = r >>= λ p. done p.1

abbrev num_of : Outcome (Vm × ℕ) → Outcome ℕ
num_of r = r >>= λ p. done p.1

-- A process grows to two pages and a bit: two tables fit and one page, then the memory is full.
grow_full : num_of (uvmalloc 0x8000_1000 0 8193 user_rw empty_vm) ≡ done 0
unfolding uvmalloc kalloc kunrefpage kfree
grow_full = refl

grow_one : num_of (uvmalloc 0x8000_1000 0 4096 user_rw empty_vm) ≡ done 4096
unfolding uvmalloc kalloc
grow_one = refl

-- A page that is touched for the first time, and the next one.
fault : num_of (vmfault 0x8000_1000 8192 4100 empty_vm) ≡ done 0x8000_2000
unfolding vmfault kalloc
fault = refl

fault_outside : num_of (vmfault 0x8000_1000 4096 4100 empty_vm) ≡ done 0
unfolding vmfault kalloc
fault_outside = refl

copy_absent : int_of (uvmcopy 0x8000_1000 0x8000_2000 4096 empty_vm) ≡ panic
unfolding uvmcopy kalloc
copy_absent = refl

copy_no_memory : int_of (uvmcopy 0x8000_1000 0x8000_5000 1 shared_vm) ≡ done minus_one
unfolding uvmcopy kalloc kfree
copy_no_memory = refl

clear_absent : uvmclear 0x8000_1000 0 empty_vm ≡ panic
unfolding uvmclear
clear_absent = refl

create : (uvmcreate empty_vm).0 ≡ 0x8000_2000
unfolding uvmcreate kalloc
create = refl

shrink : num_of (uvmdealloc 0x8000_1000 4096 0 shared_vm) ≡ done 0
unfolding uvmdealloc kunrefpage
shrink = refl

-- The shared page loses one share and the three tables are free, the root first.
freed_all : (uvmfree 0x8000_1000 4096 shared_vm >>= λ s. done s.kmem.freelist) ≡ done 0x8000_1000
unfolding uvmfree kalloc kfree kunrefpage
freed_all = refl

-- A page that is still mapped.
still_mapped : uvmfree 0x8000_1000 0 shared_vm ≡ panic
unfolding uvmfree kalloc kfree
still_mapped = refl
