-- ===== src/Kalloc/Refcount.antt =====
-- The reference counts of kalloc.c: sharing a page, and giving a share back.
use mathlib.Core.Path.{fun_ext}
use aut_whuoslab.Prelude.{
  ℕ, zero, suc, ◌-◌, ◌^◌, ◌<◌, ◌≡◌, ◌≢◌, refl, List, ◌∷◌, arith, ◌∙◌, ap, ◌>>=◌, ℤ, pos, negsuc,
  int_inc, Outcome, done, panic,
}
use aut_whuoslab.Kalloc.{Kmem, pa_idx, update, krefpage, krefcount, kfree, kunrefpage}
use aut_whuoslab.Kalloc.Inv.{IsPage, Frees, Absent, uncounted-update, kfree-Frees}

-- A change to the count of a page that is in somebody's hands keeps the free list.
counted-Frees :
    (k : Kmem) (xs : List ℕ) (pa : ℕ) (c : ℤ)
    → Frees k xs
    → IsPage k.kernel_end pa
    → Absent pa xs
    → Frees (record k { count = update k.count (pa_idx pa) c }) xs
counted-Frees k xs pa c f p a = record {
  past_null = f.past_null;
  linked = f.linked;
  pages = f.pages;
  uncounted = uncounted-update k.kernel_end xs k.count pa c p f.pages a f.uncounted;
  distinct = f.distinct;
}

-- Sharing a page that is in somebody's hands adds one to what `krefcount` reports of it and keeps the
-- free pages.
pub krefpage-Frees :
    (k : Kmem) (xs : List ℕ) (pa : ℕ)
    → Frees k xs
    → IsPage k.kernel_end pa
    → Absent pa xs
    → Frees (krefpage k pa) xs × (krefcount (krefpage k pa) pa ≡ int_inc (krefcount k pa))
unfolding krefpage krefcount
krefpage-Frees k xs pa f p a =
    ground (arith, counted-Frees k xs pa (int_inc (k.count (pa_idx pa))) f p a)

-- What `kunrefpage` does, by the count that it finds.
abbrev pub Unrefs : Kmem → List ℕ → ℕ → ℤ → Outcome (Kmem × ℕ) → Type 0
Unrefs k xs pa (negsuc n) r = r ≡ panic
Unrefs k xs pa (pos zero) r = r ≡ panic
Unrefs k xs pa (pos (suc zero)) r = (k' : Kmem) × (r ≡ done (k', 1)) × Frees k' (pa ∷ xs)
Unrefs k xs pa (pos (suc (suc n))) r =
    (k' : Kmem) × (r ≡ done (k', 0)) × Frees k' xs × (krefcount k' pa ≡ pos (suc n))

kunref_last :
    (k : Kmem) (pa : ℕ)
    → IsPage k.kernel_end pa
    → k.count (pa_idx pa) ≡ pos 1
    → kunrefpage k pa
      ≡ (kfree (record k { count = update k.count (pa_idx pa) (pos 0) }) pa >>= λ f. done (f, 1))
unfolding kunrefpage
kunref_last k pa p e = ground arith

kunref_by_count :
    (k : Kmem) (xs : List ℕ) (pa : ℕ) (c : ℤ)
    → Frees k xs
    → IsPage k.kernel_end pa
    → Absent pa xs
    → k.count (pa_idx pa) ≡ c
    → Unrefs k xs pa c (kunrefpage k pa)
unfolding kunrefpage krefcount
kunref_by_count k xs pa (negsuc n) f p a e = ground arith
kunref_by_count k xs pa (pos zero) f p a e = ground arith
kunref_by_count k xs pa (pos (suc zero)) f p a e =
    let k1 : Kmem = record k { count = update k.count (pa_idx pa) (pos 0) } in
    let (k', freed, f', _, _) = kfree-Frees k1 xs pa (counted-Frees k xs pa (pos 0) f p a) p a in
    (k', kunref_last k pa p e ∙ ap (λ r. r >>= λ f. done (f, 1)) freed, f')
kunref_by_count k xs pa (pos (suc (suc n))) f p a e = (
  record k { count = update k.count (pa_idx pa) (pos (suc n)) },
  ground arith,
  counted-Frees k xs pa (pos (suc n)) f p a,
  ground arith,
)

-- Giving a share back, for a page that is in somebody's hands: with other holders left the count falls
-- by one and the page stays; the last share frees it, with result 1; a page with no holder is a panic.
pub kunrefpage-Unrefs :
    (k : Kmem) (xs : List ℕ) (pa : ℕ)
    → Frees k xs
    → IsPage k.kernel_end pa
    → Absent pa xs
    → Unrefs k xs pa (k.count (pa_idx pa)) (kunrefpage k pa)
kunrefpage-Unrefs k xs pa f p a = kunref_by_count k xs pa (k.count (pa_idx pa)) f p a refl

-- Sharing a page and giving the share back is no change at all.
pub kunrefpage-krefpage :
    (k : Kmem) (pa n : ℕ)
    → IsPage k.kernel_end pa
    → k.count (pa_idx pa) ≡ pos (suc n)
    → suc n < 2 ^ 31 - 1
    → kunrefpage (krefpage k pa) pa ≡ done (k, 0)
unfolding kunrefpage krefpage
kunrefpage-krefpage k pa n p e h =
    shared ∙ ap (λ c. done (record k { count = c }, 0)) (fun_ext λ j. ground arith)
  where
    shared :
        kunrefpage (krefpage k pa) pa
        ≡ done (
          record k {
            count =
                update (update k.count (pa_idx pa) (pos (suc (suc n)))) (pa_idx pa) (pos (suc n));
          },
          0,
        )
    shared = ground arith

-- Giving a share back touches no other page's count.
pub kunrefpage_frame :
    (k k' : Kmem) (pa r : ℕ)
    → kunrefpage k pa ≡ done (k', r)
    → (k'.kernel_end ≡ k.kernel_end) × ((i : ℕ) → i ≢ pa_idx pa → k'.count i ≡ k.count i)
unfolding kunrefpage kfree
kunrefpage_frame k k' pa r e = (ground (arith, e), λ i n. ground (arith, e, n))
