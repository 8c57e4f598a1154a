-- ===== src/Vm.antt =====
-- kernel/vm.c: the page tables of a process and its memory. An entry of a table is its flags and the
-- address of a page; the other bits of an entry are not kept. Page-table pages, the contents of the other
-- pages, and what the allocator reads of a free page are three views of the RAM: `pte p i` is entry `i` of
-- the table at `p`, `page p j` is byte `j` of the page at `p`, and `kmem` is the allocator's state. The
-- flush of the TLB is left out.
pub mod Memory
pub mod Walk
pub mod Tree
pub mod Entry
pub mod Lookup
pub mod Map
pub mod Cow
pub mod Copy
pub mod UserBytes
pub mod CopyIn
pub mod CopyOut
pub mod Written
mod CopyTests
mod Tests
use aut_whuoslab.Prelude.{
  ℕ, zero, suc, ◌+◌, ◌-◌, ◌*◌, ◌/◌, ◌%◌, ◌^◌, Bool, true, false, not, ◌&&◌, ◌||◌, ltb, leb, ◌==◌,
  if◌then◌else◌, ℤ, pos, negsuc, minus_one, Outcome, done, panic, ◌>>=◌,
}
use aut_whuoslab.Kalloc.{Kmem, pgsize, pg_round_up, update, kalloc, kfree, kunrefpage}

-- PTE_V, PTE_R, PTE_W, PTE_X, PTE_U and PTE_COW
pub record Flags : Type 0 where
  pub valid : Bool
  pub read : Bool
  pub write : Bool
  pub exec : Bool
  pub user : Bool
  pub cow : Bool

pub record Pte : Type 0 where
  pub flags : Flags
  pub pa : ℕ

abbrev pub no_flags : Flags
no_flags = record {
  valid = false;
  read = false;
  write = false;
  exec = false;
  user = false;
  cow = false;
}

-- The entry 0.
abbrev pub zero_pte : Pte
zero_pte = record { flags = no_flags; pa = 0 }

pub record Vm : Type 0 where
  pub kmem : Kmem
  pub pte : ℕ → ℕ → Pte
  pub page : ℕ → ℕ → ℕ

abbrev pub maxva : ℕ
maxva = 2 ^ 38

-- PX(level, va)
abbrev pub px : ℕ → ℕ → ℕ
px level va = va / 2 ^ (12 + 9 * level) % 512

-- `PA2PTE(pa) | perm | PTE_V`; the low bits of the address are lost.
abbrev pub leaf : Flags → ℕ → Pte
leaf perm pa = record { flags = record perm { valid = true }; pa = pa / pgsize * pgsize }

abbrev pub set_pte : ℕ → ℕ → Pte → Vm → Vm
set_pte t i e s = record s { pte = update s.pte t (update (s.pte t) i e) }

-- `kalloc`, with the junk that it leaves in the page.
pub alloc_page : Vm → ℕ × Vm
alloc_page s =
    let (p, k) = kalloc s.kmem in
    (p, record s { kmem = k; page = if p == 0 then s.page else update s.page p (λ j. 5) })

-- `memset(p, 0, PGSIZE)` of a table.
abbrev pub zero_table : ℕ → Vm → Vm
zero_table p s = record s { pte = update s.pte p (λ i. zero_pte) }

-- A new table hangs in an entry.
abbrev pub link_table : ℕ → ℕ → ℕ → Vm → Vm
link_table t i p s = set_pte t i (leaf no_flags p) (zero_table p s)

-- The loop of `walk` at table `t` with `level` levels to go: the table of level 0, or 0 for none.
pub walk_from : ℕ → ℕ → ℕ → Bool → Vm → Vm × ℕ
unfolding alloc_page
walk_from zero t va alloc s = (s, t)
walk_from (suc level) t va alloc s =
    let i = px (suc level) va in
    let (p, s') = alloc_page s in
    let found = walk_from level (s.pte t i).pa va alloc s in
    let made = walk_from level p va alloc (link_table t i p s') in
    if (s.pte t i).flags.valid
    then found
    else if not alloc
    then (s, 0)
    else if p == 0
    then (s', 0)
    else made

-- The table that holds the entry of `va`, which is entry `px 0 va`.
pub walk : ℕ → ℕ → Bool → Vm → Outcome (Vm × ℕ)
unfolding walk_from
walk t va alloc s = if leb maxva va then panic else done (walk_from 2 t va alloc s)

-- The entry in the table that `walk` found.
abbrev pub entry : ℕ → ℕ → Vm → Pte
entry t va s = s.pte t (px 0 va)

-- 0 for an address that a user cannot reach.
pub walkaddr : ℕ → ℕ → Vm → ℕ
unfolding walk_from
walkaddr t va s =
    let (s', t0) = walk_from 2 t va false s in
    if leb maxva va
    then 0
    else if t0 == 0
    then 0
    else if not (entry t0 va s).flags.valid
    then 0
    else if not (entry t0 va s).flags.user
    then 0
    else (entry t0 va s).pa

-- The loop of `mappages` over the pages left.
pub map_from : ℕ → ℕ → ℕ → ℕ → Flags → Vm → Outcome (Vm × ℤ)
unfolding walk
map_from zero t va pa perm s = done (s, pos 0)
map_from (suc n) t va pa perm s = walk t va true s >>= λ w.
    let rest =
      map_from n t (va + pgsize) (pa + pgsize) perm (set_pte w.1 (px 0 va) (leaf perm pa) w.0) in
    if w.1 == 0
    then done (w.0, minus_one)
    else if (entry w.1 va w.0).flags.valid
    then panic
    else rest

pub mappages : ℕ → ℕ → ℕ → ℕ → Flags → Vm → Outcome (Vm × ℤ)
unfolding map_from
mappages t va size pa perm s =
    if not (va % pgsize == 0)
    then panic
    else if not (size % pgsize == 0)
    then panic
    else if size == 0
    then panic
    else map_from (size / pgsize) t va pa perm s
