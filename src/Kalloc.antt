-- ===== src/Kalloc.antt =====
-- kernel/kalloc.c: the physical page allocator with the reference counts of copy-on-write.
-- The free list is the C one: `kmem.freelist` is the address of the first free page and the first
-- word of each free page is the address of the next, 0 at the end. Each critical section of
-- `kmem.lock` and `pg_refcnt.lock` is taken whole. `end`, which the linker script defines, is a
-- field of the state that no routine changes.
pub mod Inv
pub mod Refcount
pub mod Boot
mod Tests
use aut_whuoslab.Prelude.{
  ℕ, zero, suc, ◌+◌, ◌-◌, ◌*◌, ◌/◌, ◌%◌, Bool, true, false, not, ◌||◌, leb, ltb, ◌==◌,
  if◌then◌else◌, ℤ, pos, int_inc, int_dec, is_positive, is_zero, Outcome, done, panic, ◌>>=◌,
}

abbrev pub pgsize : ℕ
pgsize = 4096

-- KERNBASE + 128 MB
abbrev pub phystop : ℕ
phystop = 0x8800_0000

-- `word pa` is the 8-byte word at the start of the page at `pa`, all that the allocator reads of it.
pub record Kmem : Type 0 where
  pub freelist : ℕ
  pub word : ℕ → ℕ
  pub count : ℕ → ℤ
  pub kernel_end : ℕ

abbrev pub update {ℓ} : {A : Type ℓ} → (ℕ → A) → ℕ → A → ℕ → A
update f p v q = if p == q then v else f q

abbrev pub pa_idx : ℕ → ℕ
pa_idx pa = pa / pgsize

-- The guard of every entry point: not aligned, inside the kernel image, or past the RAM.
abbrev pub is_bad : Kmem → ℕ → Bool
is_bad k pa = not (pa % pgsize == 0) || (ltb pa k.kernel_end || leb phystop pa)

pub krefpage : Kmem → ℕ → Kmem
krefpage k pa =
    if is_bad k pa
    then k
    else record k { count = update k.count (pa_idx pa) (int_inc (k.count (pa_idx pa))) }

pub krefcount : Kmem → ℕ → ℤ
krefcount k pa = if is_bad k pa then pos 0 else k.count (pa_idx pa)

-- The word that `memset(pa, 1, PGSIZE)` and `memset(r, 5, PGSIZE)` leave.
abbrev pub junk_free : ℕ
junk_free = 0x0101_0101_0101_0101

abbrev pub junk_alloc : ℕ
junk_alloc = 0x0505_0505_0505_0505

-- The count is cleared, the page filled with junk, then linked in front.
unfoldable pub kfree : Kmem → ℕ → Outcome Kmem
kfree k pa =
    if is_bad k pa
    then panic
    else done (record k {
      count = update k.count (pa_idx pa) (pos 0);
      word = update (update k.word pa junk_free) pa k.freelist;
      freelist = pa;
    })

-- 1 if the page was freed.
unfoldable pub kunrefpage : Kmem → ℕ → Outcome (Kmem × ℕ)
kunrefpage k pa =
    let c = int_dec (k.count (pa_idx pa)) in
    let k' : Kmem = record k { count = update k.count (pa_idx pa) c } in
    if is_bad k pa
    then done (k, 0)
    else if not (is_positive (k.count (pa_idx pa)))
    then panic
    else if is_zero c
    then (kfree k' pa >>= λ f. done (f, 1))
    else done (k', 0)

-- The address of a page, 0 if there is none.
unfoldable pub kalloc : Kmem → ℕ × Kmem
kalloc k = if k.freelist == 0 then (0, k) else (
  k.freelist,
  record k {
    freelist = k.word k.freelist;
    word = update k.word k.freelist junk_alloc;
    count = update k.count (pa_idx k.freelist) (pos 1);
  },
)

abbrev pub pg_round_up : ℕ → ℕ
pg_round_up a = (a + (pgsize - 1)) / pgsize * pgsize

-- The loop of `freerange` from `p` on; out of fuel it counts as a panic, so that a result is a proof
-- that it ended.
pub freerange_from : ℕ → Kmem → ℕ → ℕ → Outcome Kmem
freerange_from zero k p pa_end = panic
freerange_from (suc fuel) k p pa_end = elim (leb (p + pgsize) pa_end) [
  | true ↦ kfree k p >>= λ k'. freerange_from fuel k' (p + pgsize) pa_end
  | false ↦ done k
]

pub freerange : Kmem → ℕ → ℕ → Outcome Kmem
unfolding freerange_from
freerange k pa_start pa_end = freerange_from (suc (pa_end / pgsize)) k (pg_round_up pa_start) pa_end

-- The allocator at boot: counts and list are zeroed static data, the RAM holds anything.
pub kinit : ℕ → (ℕ → ℕ) → Outcome Kmem
unfolding freerange
kinit kernel_end ram =
    freerange (record { freelist = 0; word = ram; count = λ _. pos 0; kernel_end = kernel_end })
      kernel_end phystop
