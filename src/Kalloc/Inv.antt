-- ===== src/Kalloc/Inv.antt =====
-- The free list of kalloc.c, seen as the list of its pages.
use aut_whuoslab.Prelude.{
  ℕ, ◌%◌, ◌≤◌, ◌<◌, ◌≡◌, refl, sym, subst, ◌≢◌, List, [], ◌∷◌, All, arith, ℤ, pos, done,
}
use aut_whuoslab.Kalloc.{
  Kmem, pgsize, phystop, junk_free, junk_alloc, pa_idx, update, kfree, kalloc,
}

-- The pages that the links pass through, from `head` to the end of the list.
abbrev pub Chain : (ℕ → ℕ) → ℕ → List ℕ → Type 0
Chain word head [] = head ≡ 0
Chain word head (x ∷ xs) = (head ≡ x) × Chain word (word x) xs

abbrev pub Absent : ℕ → List ℕ → Type 0
Absent pa [] = Unit {0}
Absent pa (x ∷ xs) = (pa ≢ x) × Absent pa xs

abbrev pub Distinct : List ℕ → Type 0
Distinct [] = Unit {0}
Distinct (x ∷ xs) = Absent x xs × Distinct xs

-- A page that the allocator may own.
pub record IsPage (kernel_end pa : ℕ) : Type 0 where
  pub aligned : pa % pgsize ≡ 0
  pub above : kernel_end ≤ pa
  pub below : pa < phystop

-- `xs` are the free pages, the next one to be handed out first: linked, distinct, and uncounted.
pub record Frees (k : Kmem) (xs : List ℕ) : Type 0 where
  pub past_null : 0 < k.kernel_end
  pub linked : Chain k.word k.freelist xs
  pub pages : All (IsPage k.kernel_end) xs
  pub uncounted : All (λ x. k.count (pa_idx x) ≡ pos 0) xs
  pub distinct : Distinct xs

pub update_self {ℓ} : {A : Type ℓ} (f : ℕ → A) (p : ℕ) (v : A) → update f p v p ≡ v
update_self f p v = ground arith

-- A write to a page that is not linked leaves the links alone.
Chain-update :
    (xs : List ℕ) (word : ℕ → ℕ) (pa v head : ℕ)
    → Absent pa xs
    → Chain word head xs
    → Chain (update word pa v) head xs
Chain-update [] word pa v head a c = c
Chain-update (x ∷ xs) word pa v head a c =
    ground (arith, Chain-update xs word pa v (word x) a.1 c.1)

-- Distinct pages have distinct counters.
pub idx-ne :
    (kernel_end pa x : ℕ)
    → IsPage kernel_end pa
    → IsPage kernel_end x
    → pa ≢ x
    → pa_idx pa ≢ pa_idx x
idx-ne kernel_end pa x p q ne = omega arith

pub uncounted-update :
    (kernel_end : ℕ) (xs : List ℕ) (count : ℕ → ℤ) (pa : ℕ) (c : ℤ)
    → IsPage kernel_end pa
    → All (IsPage kernel_end) xs
    → Absent pa xs
    → All (λ x. count (pa_idx x) ≡ pos 0) xs
    → All (λ x. update count (pa_idx pa) c (pa_idx x) ≡ pos 0) xs
uncounted-update kernel_end [] count pa c p ps a u = tt
uncounted-update kernel_end (x ∷ xs) count pa c p ps a u = (
  ground (arith, idx-ne kernel_end pa x p ps.0 a.0, u.0),
  uncounted-update kernel_end xs count pa c p ps.1 a.1 u.1,
)

-- A page that is in nobody's hands comes back to the front of the list, uncounted; the kernel does
-- not panic, and no other page's count changes.
pub kfree-Frees :
    (k : Kmem) (xs : List ℕ) (pa : ℕ)
    → Frees k xs
    → IsPage k.kernel_end pa
    → Absent pa xs
    → (k' : Kmem) × (kfree k pa ≡ done k')
      × Frees k' (pa ∷ xs)
      × (k'.kernel_end ≡ k.kernel_end)
      × (k'.count ≡ update k.count (pa_idx pa) (pos 0))
unfolding kfree
kfree-Frees k xs pa f p a = (freed, ground arith, frees, refl, refl)
  where
    freed : Kmem
    freed = record k {
      count = update k.count (pa_idx pa) (pos 0);
      word = update (update k.word pa junk_free) pa k.freelist;
      freelist = pa;
    }

    links : Chain freed.word k.freelist xs
    links =
        Chain-update xs _ pa k.freelist k.freelist a
          (Chain-update xs k.word pa junk_free k.freelist a f.linked)

    frees : Frees freed (pa ∷ xs)
    frees = record {
      past_null = f.past_null;
      linked = (
        refl,
        subst (λ h. Chain freed.word h xs)
            (sym (update_self (update k.word pa junk_free) pa k.freelist)) links,
      );
      pages = (p, f.pages);
      uncounted = (
        ground arith,
        uncounted-update k.kernel_end xs k.count pa (pos 0) p f.pages a f.uncounted,
      );
      distinct = (a, f.distinct);
    }

-- What `kalloc` does with free pages `xs`: the first one is handed out with a count of one and leaves
-- the list; with none left the result is null and the state is unchanged.
abbrev pub Allocs : Kmem → List ℕ → ℕ × Kmem → Type 0
Allocs k [] (r, k') = (r ≡ 0) × (k' ≡ k)
Allocs k (x ∷ xs) (r, k') =
    (r ≡ x)
    × Frees k' xs
    × IsPage k'.kernel_end x
    × Absent x xs
    × (k'.count ≡ update k.count (pa_idx x) (pos 1))

-- The state after the first page `x` is handed out.
abbrev handed : Kmem → ℕ → Kmem
handed k x = record k {
  freelist = k.word x;
  word = update k.word x junk_alloc;
  count = update k.count (pa_idx x) (pos 1);
}

kalloc-handed : (k : Kmem) (x : ℕ) → k.freelist ≡ x → 0 < x → kalloc k ≡ (x, handed k x)
unfolding kalloc
kalloc-handed k x e h = ground arith

handed-Frees : (k : Kmem) (x : ℕ) (xs : List ℕ) → Frees k (x ∷ xs) → Frees (handed k x) xs
handed-Frees k x xs f = record {
  past_null = f.past_null;
  linked = Chain-update xs k.word x junk_alloc (k.word x) f.distinct.0 f.linked.1;
  pages = f.pages.1;
  uncounted =
      uncounted-update k.kernel_end xs k.count x (pos 1) f.pages.0 f.pages.1 f.distinct.0
        f.uncounted.1;
  distinct = f.distinct.1;
}

-- `kalloc` hands out the first free page, which leaves the list and gets a count of one, or returns null
-- and changes nothing when no page is free.
pub kalloc-Allocs : (k : Kmem) (xs : List ℕ) → Frees k xs → Allocs k xs (kalloc k)
unfolding kalloc
kalloc-Allocs k [] f = ground (arith, f.linked)
kalloc-Allocs k (x ∷ xs) f =
    rw (kalloc-handed k x f.linked.0 (positive f.pages.0))
      (refl, handed-Frees k x xs f, f.pages.0, f.distinct.0, refl)
  where
    positive : IsPage k.kernel_end x → 0 < x
    positive p = omega (arith, f.past_null)

pub kalloc-kernel_end : (k : Kmem) → (kalloc k).1.kernel_end ≡ k.kernel_end
unfolding kalloc
kalloc-kernel_end k = ground arith
