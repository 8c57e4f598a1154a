-- ===== src/Kalloc/Boot.antt =====
-- `kinit`: the allocator starts with every page between the kernel image and the end of the RAM.
use aut_whuoslab.Prelude.{
  ℕ, zero, suc, ◌+◌, ◌*◌, ap, subst, ◌-◌, ◌/◌, ◌%◌, ◌≤◌, ◌<◌, ◌≡◌, refl, List, [], ◌∷◌, arith, pos,
  done, leb_of_le, ◌∙◌, dec_lt,
}
use aut_whuoslab.Kalloc.{Kmem, pgsize, phystop, pg_round_up, kfree, freerange_from, kinit}
use aut_whuoslab.Kalloc.Inv.{IsPage, Frees, Absent, kfree-Frees}

-- The `n` pages from `base` on, the last one first.
abbrev pub ram_pages : ℕ → ℕ → List ℕ
ram_pages zero base = []
ram_pages (suc n) base = (base + n * pgsize) ∷ ram_pages n base

ram_pages-Absent : (n base p : ℕ) → base + n * pgsize ≤ p → Absent p (ram_pages n base)
ram_pages-Absent zero base p h = tt
ram_pages-Absent (suc n) base p h = (omega arith, ram_pages-Absent n base p (omega arith))

freerange_step :
    (fuel p : ℕ) (k k' : Kmem)
    → p + pgsize ≤ phystop
    → kfree k p ≡ done k'
    → freerange_from (suc fuel) k p phystop ≡ freerange_from fuel k' (p + pgsize) phystop
unfolding freerange_from
freerange_step fuel p k k' le e = rw (leb_of_le (p + pgsize) phystop le, freerange_from, e)

freerange_stop :
    (fuel p : ℕ) (k : Kmem) → phystop < p + pgsize → freerange_from (suc fuel) k p phystop ≡ done k
unfolding freerange_from
freerange_stop fuel p k lt = ground arith

module _ (kernel_end base : ℕ) (past : kernel_end ≤ base) (aligned : base % pgsize ≡ 0)
    (below : base ≤ phystop) where
  abbrev all_pages : List ℕ
  all_pages = ram_pages ((phystop - base) / pgsize) base

  -- The loop with `n` pages freed goes on to the last page, and stops.
  freerange_from-Frees :
      (fuel n : ℕ) (k : Kmem)
      → k.kernel_end ≡ kernel_end
      → base + n * pgsize ≤ phystop
      → (phystop - (base + n * pgsize)) / pgsize < fuel
      → Frees k (ram_pages n base)
      → (k' : Kmem) × (freerange_from fuel k (base + n * pgsize) phystop ≡ done k')
        × Frees k' all_pages
  freerange_from-Frees zero n k e hi fu f = absurd (omega arith)
  freerange_from-Frees (suc fuel) n k e hi fu f = elim (dec_lt phystop (p + pgsize)) [
    | yes last ↦
        (k, freerange_stop fuel p k last, subst (λ m. Frees k (ram_pages m base)) (count last) f)
    | no more ↦
        let room : p + pgsize ≤ phystop = omega arith in
        let next : p + pgsize ≡ base + suc n * pgsize = omega arith in
        let hi' : base + suc n * pgsize ≤ phystop = omega arith in
        let fu' : (phystop - (base + suc n * pgsize)) / pgsize < fuel = omega arith in
        let (k1, freed, f1, e1, _) =
          kfree-Frees k (ram_pages n base) p f (page room)
            (ram_pages-Absent n base p (omega arith)) in
        let (k', run, f') = freerange_from-Frees fuel (suc n) k1 (e1 ∙ e) hi' fu' f1 in
        (
          k',
          freerange_step fuel p k k1 room freed
              ∙ ap (λ q. freerange_from fuel k1 q phystop) next
              ∙ run,
          f',
        )
  ]
    where
      p : ℕ
      p = base + n * pgsize

      page : p + pgsize ≤ phystop → IsPage k.kernel_end p
      page room = omega arith

      count : phystop < p + pgsize → n ≡ (phystop - base) / pgsize
      count last = omega arith

-- At boot the allocator ends up, without a panic, with a free list of all the pages between the end of
-- the kernel image and the end of the RAM, the last one first.
pub kinit-Frees :
    (kernel_end : ℕ) (ram : ℕ → ℕ)
    → 0 < kernel_end
    → kernel_end ≤ phystop
    → (k : Kmem) × (kinit kernel_end ram ≡ done k)
      × Frees k (ram_pages ((phystop - pg_round_up kernel_end) / pgsize) (pg_round_up kernel_end))
unfolding kinit
kinit-Frees kernel_end ram h le =
    let (k, run, f) =
      freerange_from-Frees kernel_end (pg_round_up kernel_end) (omega arith) (omega arith)
        (omega arith) (suc (phystop / pgsize)) 0 blank refl (omega arith) (omega arith) none_free in
    (k, ap (λ q. freerange_from (suc (phystop / pgsize)) blank q phystop) start ∙ run, f)
  where
    blank : Kmem
    blank = record { freelist = 0; word = ram; count = λ _. pos 0; kernel_end = kernel_end }

    none_free : Frees blank []
    none_free = record { past_null = h; linked = refl; pages = tt; uncounted = tt; distinct = tt }

    start : pg_round_up kernel_end ≡ pg_round_up kernel_end + 0 * pgsize
    start = omega arith
