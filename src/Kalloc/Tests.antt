-- ===== src/Kalloc/Tests.antt =====
-- The page allocator on a RAM that has two or three pages behind the kernel image.
use aut_whuoslab.Prelude.{ℕ, ◌+◌, ◌-◌, ◌/◌, ◌≡◌, refl, [], ◌∷◌, arith, pos, Outcome, done, panic}
use aut_whuoslab.Kalloc.{
  Kmem, pgsize, phystop, pa_idx, update, krefpage, krefcount, kfree, kunrefpage, kalloc,
  pg_round_up, freerange, kinit,
}
use aut_whuoslab.Kalloc.Inv.{Frees, IsPage, Absent, Allocs, kalloc-Allocs}
use aut_whuoslab.Kalloc.Boot.{ram_pages, kinit-Frees}

abbrev image_end : ℕ
image_end = 0x87FF_D000

abbrev page_a : ℕ
page_a = 0x87FF_E000

abbrev page_b : ℕ
page_b = 0x87FF_F000

-- `page_a` is free, `page_b` is in use once.
abbrev one_free : Kmem
one_free = record {
  freelist = page_a;
  word = λ p. 0;
  count = update (λ i. pos 0) (pa_idx page_b) (pos 1);
  kernel_end = image_end;
}

one_free-Frees : Frees one_free (page_a ∷ [])
one_free-Frees = record {
  past_null = omega arith;
  linked = (refl, refl);
  pages = (record { aligned = refl; above = omega arith; below = omega arith }, tt);
  uncounted = (refl, tt);
  distinct = (tt, tt);
}

page_b-IsPage : IsPage image_end page_b
page_b-IsPage = record { aligned = refl; above = omega arith; below = omega arith }

page_b-Absent : Absent page_b (page_a ∷ [])
page_b-Absent = (omega arith, tt)

kalloc-Allocs_example : Allocs one_free (page_a ∷ []) (kalloc one_free)
kalloc-Allocs_example = kalloc-Allocs one_free (page_a ∷ []) one_free-Frees

kinit-Frees_example :
    (k : Kmem) × (kinit image_end (λ p. 7) ≡ done k)
    × Frees k (ram_pages ((phystop - pg_round_up image_end) / pgsize) (pg_round_up image_end))
kinit-Frees_example = kinit-Frees image_end (λ p. 7) (omega arith) (omega arith)

-- A double free is not noticed by `kfree`, a free of an odd address is.
kfree_unaligned : kfree one_free (page_b + 8) ≡ panic
unfolding kfree
kfree_unaligned = refl

kunrefpage_unused : kunrefpage one_free page_a ≡ panic
unfolding kunrefpage
kunrefpage_unused = refl

kalloc_head : (kalloc one_free).0 ≡ page_a
unfolding kalloc
kalloc_head = refl

krefcount_used : krefcount (krefpage one_free page_b) page_b ≡ pos 2
unfolding krefcount krefpage
krefcount_used = refl

-- Two whole pages fit between an odd end of the image and the end of the RAM.
abbrev freelist_of : Outcome Kmem → ℕ
freelist_of panic = 0
freelist_of (done k) = k.freelist

freerange_two : freelist_of (freerange one_free (image_end + 1) phystop) ≡ page_b
unfolding freerange kfree
freerange_two = refl

kinit_last : freelist_of (kinit (image_end + 1) (λ p. 7)) ≡ page_b
unfolding kinit kfree
kinit_last = refl
