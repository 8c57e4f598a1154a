-- ===== src/Vm/Memory.antt =====
-- The rest of kernel/vm.c: a process's memory grows, shrinks and is copied, and its page faults.
use aut_whuoslab.Prelude.{
  ℕ, zero, suc, ◌+◌, ◌-◌, ◌*◌, ◌/◌, ◌%◌, Bool, true, false, not, ◌&&◌, ◌||◌, ltb, leb, ◌==◌,
  if◌then◌else◌, ℤ, pos, negsuc, minus_one, Outcome, done, panic, ◌>>=◌,
}
use aut_whuoslab.Kalloc.{pgsize, pg_round_up, update, kfree, kunrefpage}
use aut_whuoslab.Vm.{
  Flags, Pte, Vm, no_flags, zero_pte, maxva, px, set_pte, alloc_page, zero_table, entry, walk_from,
  walk, mappages,
}

abbrev pub pg_round_down : ℕ → ℕ
pg_round_down a = a / pgsize * pgsize

-- `memset(p, 0, PGSIZE)` of a page that is not a table.
abbrev pub zero_page : ℕ → Vm → Vm
zero_page p s = record s { page = update s.page p (λ j. 0) }

abbrev pub free_page : ℕ → Vm → Outcome Vm
free_page p s =
    kfree s.kmem p >>= λ k. done (record s { kmem = k; page = update s.page p (λ j. 1) })

-- `kunrefpage`, which fills the page with junk if it frees it.
abbrev pub unref_page : ℕ → Vm → Outcome Vm
unref_page p s = kunrefpage s.kmem p >>= λ u.
    done (record s { kmem = u.0; page = if u.1 == 1 then update s.page p (λ j. 1) else s.page })

-- 0 if there is no memory.
unfoldable pub uvmcreate : Vm → ℕ × Vm
unfolding alloc_page
uvmcreate s = let (p, s') = alloc_page s in if p == 0 then (0, s') else (p, zero_table p s')

-- The loop of `uvmunmap` over the pages left.
pub unmap_from : ℕ → ℕ → ℕ → Bool → Vm → Outcome Vm
unfolding walk
unmap_from zero t va do_free s = done s
unmap_from (suc n) t va do_free s = walk t va false s >>= λ w.
    let e = entry w.1 va s in
    let next = λ (k : Vm). unmap_from n t (va + pgsize) do_free k in
    if w.1 == 0
    then next s
    else if not e.flags.valid
    then next s
    else if do_free
    then (unref_page e.pa s >>= λ u. next (set_pte w.1 (px 0 va) zero_pte u))
    else next (set_pte w.1 (px 0 va) zero_pte s)

pub uvmunmap : ℕ → ℕ → ℕ → Bool → Vm → Outcome Vm
unfolding unmap_from
uvmunmap t va npages do_free s =
    if not (va % pgsize == 0) then panic else unmap_from npages t va do_free s

unfoldable pub uvmdealloc : ℕ → ℕ → ℕ → Vm → Outcome (Vm × ℕ)
unfolding uvmunmap
uvmdealloc t oldsz newsz s =
    if leb oldsz newsz
    then done (s, oldsz)
    else if ltb (pg_round_up newsz) (pg_round_up oldsz)
    then (uvmunmap t (pg_round_up newsz) ((pg_round_up oldsz - pg_round_up newsz) / pgsize) true s
        >>= λ s'. done (s', newsz))
    else done (s, newsz)

-- The loop of `uvmalloc` at `a`, over the pages left; `oldsz` is rounded up.
pub grow_from : ℕ → ℕ → ℕ → ℕ → ℕ → Flags → Vm → Outcome (Vm × ℕ)
unfolding alloc_page mappages uvmdealloc
grow_from zero t a oldsz newsz perm s = done (s, newsz)
grow_from (suc n) t a oldsz newsz perm s =
    let (p, s1) = alloc_page s in
    let back = λ (k : Vm). uvmdealloc t a oldsz k >>= λ r. done (r.0, 0) in
    let mapped = mappages t a pgsize p perm (zero_page p s1) >>= λ r. elim r.1 [
      | pos z ↦ grow_from n t (a + pgsize) oldsz newsz perm r.0
      | negsuc z ↦ free_page p r.0 >>= back
    ] in
    if p == 0 then back s1 else mapped

-- `xperm` with PTE_R and PTE_U.
abbrev pub user_perm : Flags → Flags
user_perm xperm = record xperm { read = true; user = true }

unfoldable pub uvmalloc : ℕ → ℕ → ℕ → Flags → Vm → Outcome (Vm × ℕ)
unfolding grow_from
uvmalloc t oldsz newsz xperm s =
    if ltb newsz oldsz
    then done (s, oldsz)
    else grow_from ((newsz - pg_round_up oldsz + (pgsize - 1)) / pgsize) t (pg_round_up oldsz)
        (pg_round_up oldsz) newsz (user_perm xperm) s

-- An entry that leads to another table.
abbrev pub is_table : Flags → Bool
is_table f = f.valid && not (f.read || (f.write || f.exec))

-- The loop of `freewalk` over the entries of table `t` from `i` on, with `level` levels of tables below; a tree
-- that is deeper counts as a panic, so that a result is a proof that it ended.
pub free_tables : ℕ → ℕ → ℕ → ℕ → Vm → Outcome Vm
free_tables level zero t i s = done s
free_tables zero (suc n) t i s =
    let rest = free_tables zero n t (i + 1) s in if (s.pte t i).flags.valid then panic else rest
free_tables (suc level) (suc n) t i s =
    let p = (s.pte t i).pa in
    let next = free_tables (suc level) n t (i + 1) s in
    let freed = free_tables level 512 p 0 s >>= free_page p >>= λ k.
    free_tables (suc level) n t (i + 1) (set_pte t i zero_pte k) in
    if is_table (s.pte t i).flags then freed else if (s.pte t i).flags.valid then panic else next

pub freewalk : ℕ → Vm → Outcome Vm
unfolding free_tables
freewalk t s = free_tables 2 512 t 0 s >>= free_page t

unfoldable pub uvmfree : ℕ → ℕ → Vm → Outcome Vm
unfolding uvmunmap freewalk
uvmfree t sz s =
    (if ltb 0 sz then uvmunmap t 0 (pg_round_up sz / pgsize) true s else done s) >>= freewalk t

-- The loop of `uvmcopy`, compiled without COW, at `i` and over the pages left.
pub copy_from : ℕ → ℕ → ℕ → ℕ → Vm → Outcome (Vm × ℤ)
unfolding walk alloc_page mappages uvmunmap
copy_from zero old new i s = done (s, pos 0)
copy_from (suc n) old new i s = walk old i false s >>= λ w.
    let e = entry w.1 i s in
    let (p, s1) = alloc_page s in
    let undo : Vm → Outcome (Vm × ℤ) =
      λ k. uvmunmap new 0 (i / pgsize) true k >>= λ r. done (r, minus_one) in
    let copied = record s1 { page = update s1.page p (s1.page e.pa) } in
    let mapped = mappages new i pgsize p e.flags copied >>= λ r. elim r.1 [
      | pos z ↦ copy_from n old new (i + pgsize) r.0
      | negsuc z ↦ free_page p r.0 >>= undo
    ] in
    if w.1 == 0
    then panic
    else if not e.flags.valid
    then panic
    else if p == 0
    then undo s1
    else mapped

unfoldable pub uvmcopy : ℕ → ℕ → ℕ → Vm → Outcome (Vm × ℤ)
unfolding copy_from
uvmcopy old new sz s = copy_from ((sz + (pgsize - 1)) / pgsize) old new 0 s

-- `*pte &= ~PTE_U`
unfoldable pub uvmclear : ℕ → ℕ → Vm → Outcome Vm
unfolding walk
uvmclear t va s = walk t va false s >>= λ w.
    let e = entry w.1 va s in
    if w.1 == 0
    then panic
    else done (set_pte w.1 (px 0 va) (record e { flags = record e.flags { user = false } }) s)

-- The flags of a page that was copied on a write.
abbrev pub writable : Flags → Flags
writable f = record f { cow = false; write = true }

-- The copy of the page of entry `e`, into what `kalloc` returned.
abbrev pub cow_page : ℕ → ℕ → Pte → ℕ × Vm → Outcome (Vm × ℤ)
cow_page t va e (p, s) =
    let copied = record s { page = update s.page p (s.page e.pa) } in
    if p == 0
    then done (s, minus_one)
    else (unref_page e.pa (set_pte t (px 0 va) (record { flags = writable e.flags; pa = p }) copied)
        >>= λ u. done (u, pos 0))

unfoldable pub cowhandler : ℕ → ℕ → Vm → Outcome (Vm × ℤ)
unfolding walk_from alloc_page
cowhandler t va s =
    let (w, t0) = walk_from 2 t va false s in
    let e = entry t0 va s in
    if leb maxva va
    then done (s, minus_one)
    else if (t0 == 0) || (not e.flags.valid || not e.flags.user)
    then done (s, minus_one)
    else if not e.flags.cow
    then done (s, minus_one)
    else cow_page t0 va e (alloc_page s)

unfoldable pub ismapped : ℕ → ℕ → Vm → Outcome Bool
unfolding walk
ismapped t va s = walk t va false s >>= λ w. done (not (w.1 == 0) && (entry w.1 va s).flags.valid)

-- `vmfault` in a process with `sz` bytes: the new page, or 0. Its argument `pagetable` and `p->pagetable`, in which it
-- maps the page, are one table here: the page faults pass the process's own one, and a copy that passes another
-- one, that of a process that `kexec` builds, is to its mapped stack and does not come here.
unfoldable pub vmfault : ℕ → ℕ → ℕ → Vm → Outcome (Vm × ℕ)
unfolding ismapped alloc_page mappages
vmfault t sz va s =
    let a = pg_round_down va in
    let (p, s1) = alloc_page s in
    let mapped =
      mappages t a pgsize p (record no_flags { read = true; write = true; user = true })
        (zero_page p s1)
      >>= λ r. elim r.1 [
        | pos z ↦ done (r.0, p)
        | negsuc z ↦ free_page p r.0 >>= λ k. done (k, 0)
      ] in
    if leb sz va
    then done (s, 0)
    else (ismapped t a s >>= λ m.
        if m then done (s, 0) else if p == 0 then done (s1, 0) else mapped)
