-- ===== src/Fs/Reach.antt =====
-- One way down the index blocks of a file, entry by entry.
use aut_whuoslab.Prelude.{
  ℕ, ◌≡◌, ◌≢◌, refl, sym, ap, ◌∙◌, subst, ◌⊎◌, inl, inr, true, false, ◌==◌, if◌then◌else◌, List, [],
  ◌∷◌, ◌++◌, Option, some, arith,
}
use aut_whuoslab.Kalloc.{update}
use aut_whuoslab.Kalloc.Inv.{update_self}
use aut_whuoslab.Radix.Paths.{append_nil, full_inj, full_last, follow_last, prefix_last, longer}
use aut_whuoslab.Radix.{follow, full, Reads}
use aut_whuoslab.Fs.{Content, then_entry, root_entry, index_entry}
use aut_whuoslab.Fs.Alloc.{Used}
use aut_whuoslab.Fs.Tree.{
  top, child, Inner, IsContent, added, added-IsContent, added-child, added_nonzero, added_frame,
  added_kept, Enters, root_entry-Enters, index_entry-Enters,
}

-- What a way down `js` in the content `c` comes to: block `a.0`, allocated where there was none, or 0 when every
-- block of the disk is in use. No way changes but those that `js` goes along; blocks that were in
-- use keep their bytes, and a new one is clear.
pub record Reached (c : Content) (js : List ℕ) (a : ℕ × Content) : Type 0 where
  pub lab : ℕ → Option (List ℕ)
  pub ok : IsContent lab a.1
  pub size : top a.1 ≡ top c
  pub result :
      ((a.0 ≡ 0)
        × (follow (child c) js (top c) ≡ 0)
        × Used 0 (top c) a.1.store
        × (follow (child a.1) js (top c) ≡ 0))
      ⊎ ((a.0 ≢ 0) × (lab a.0 ≡ some (full [] js)) × (follow (child a.1) js (top c) ≡ a.0))
  pub frame :
      (ks : List ℕ)
      → Reads Inner [] ks
      → ((rest : List ℕ) → ks ++ rest ≡ js → ⊥)
      → follow (child a.1) ks (top c) ≡ follow (child c) ks (top c)
  pub kept :
      (ks : List ℕ)
      → Reads Inner [] ks
      → follow (child c) ks (top c) ≢ 0
      → follow (child a.1) ks (top c) ≡ follow (child c) ks (top c)
  pub stored :
      (x : ℕ)
      → c.store.bit x ≡ true
      → (a.1.store.bit x ≡ true) × (a.1.store.bytes x ≡ c.store.bytes x)
  pub fresh : follow (child c) js (top c) ≡ 0 → a.0 ≢ 0 → a.1.store.bytes a.0 ≡ (λ i. 0)

pub start-Reached :
    (lab : ℕ → Option (List ℕ)) (c : Content) → IsContent lab c → Reached c [] (top c, c)
start-Reached lab c ok = record {
  lab = lab;
  ok = ok;
  size = refl;
  result = inr (nonzero, ok.rooted, refl);
  frame = λ ks h n. refl;
  kept = λ ks h n. refl;
  stored = λ x b. (b, refl);
  fresh = λ z n. absurd (n z);
}
  where
    nonzero : top c ≢ 0
    nonzero z = let n = ok.tree.nonnull in let r = ok.rooted in cc

Reads-init : (js p : List ℕ) (j : ℕ) → Reads Inner p (js ++ (j ∷ [])) → Reads Inner p js
Reads-init [] p j h = tt
Reads-init (k ∷ js) p j h = (h.0, Reads-init js (k ∷ p) j h.1)

module _ (c : Content) (js : List ℕ) (j t : ℕ) (c1 : Content) (r : Reached c js (t, c1))
    (at_t : r.lab t ≡ some (full [] js)) (way : follow (child c1) js (top c) ≡ t)
    (t_nonzero : t ≢ 0) (inner : Inner (full [] js)) (reads : Reads Inner [] (js ++ (j ∷ []))) where
  next_way : (f : ℕ → ℕ → ℕ) → follow f js (top c) ≡ t → follow f (js ++ (j ∷ [])) (top c) ≡ f t j
  next_way f e =
      let b : (t == 0) ≡ false = ground (arith, t_nonzero) in
      follow_last f js (top c) j ∙ ap (λ y. if y == 0 then 0 else f y j) e ∙ rw b refl

  -- An entry that was empty at the start is still empty.
  still_empty : follow (child c) (js ++ (j ∷ [])) (top c) ≡ 0 → child c1 t j ≡ 0
  still_empty z =
      sym (next_way (child c1) way)
      ∙ r.frame (js ++ (j ∷ [])) reads (λ rest e. longer js rest j e)
      ∙ z

  was_empty : child c1 t j ≡ 0 → follow (child c) (js ++ (j ∷ [])) (top c) ≡ 0
  was_empty z =
      sym (r.frame (js ++ (j ∷ [])) reads (λ rest e. longer js rest j e))
      ∙ next_way (child c1) way
      ∙ z

  pub enter-Reached : (a : ℕ × Content) → Enters t j c1 a → Reached c (js ++ (j ∷ [])) a
  enter-Reached a (inl q) = subst (Reached c (js ++ (j ∷ []))) (sym q.1) (record {
    lab = r.lab;
    ok = r.ok;
    size = r.size;
    result =
        inr (q.0, labelled (r.ok.tree.linked t j (full [] js) at_t inner), next_way (child c1) way);
    frame = λ ks h n. r.frame ks h (λ rest e. n (rest ++ (j ∷ [])) (prefix_last ks js rest j e));
    kept = r.kept;
    stored = r.stored;
    fresh = λ z n. absurd (q.0 (still_empty z));
  })
    where
      labelled :
          (child c1 t j ≡ 0) ⊎ (r.lab (child c1 t j) ≡ some (j ∷ full [] js))
          → r.lab (child c1 t j) ≡ some (full [] (js ++ (j ∷ [])))
      labelled (inl z) = absurd (q.0 z)
      labelled (inr l) = l ∙ ap some (sym (full_last js [] j))
  enter-Reached a (inr (inl q)) = subst (Reached c (js ++ (j ∷ []))) (sym q.1) (record {
    lab = r.lab;
    ok = r.ok;
    size = r.size;
    result = inl (
      refl,
      was_empty q.0,
      subst (λ n. Used 0 n c1.store) r.size q.2,
      next_way (child c1) way ∙ q.0,
    );
    frame = λ ks h n. r.frame ks h (λ rest e. n (rest ++ (j ∷ [])) (prefix_last ks js rest j e));
    kept = r.kept;
    stored = r.stored;
    fresh = λ z n. absurd (n refl);
  })
  enter-Reached a (inr (inr (b, empty, e, real, free))) =
      subst (Reached c (js ++ (j ∷ []))) (sym e) (record {
        lab = update r.lab b (some (j ∷ full [] js));
        ok = added-IsContent r.lab c1 r.ok t j b (full [] js) at_t inner empty free real;
        size = r.size;
        result = inr (
          nz,
          update_self r.lab b _ ∙ ap some (sym (full_last js [] j)),
          next_way (child c2) arrives
              ∙ added-child r.lab c1 r.ok t j b (full [] js) at_t inner empty free real,
        );
        frame = λ ks h n.
            same ks h n
            ∙ r.frame ks h (λ rest p. n (rest ++ (j ∷ [])) (prefix_last ks js rest j p));
        kept = λ ks h n. let k = r.kept ks h n in keep ks h (λ z. n (sym k ∙ z)) ∙ k;
        stored = λ x u.
            let old = r.stored x u in
            let d : x ≢ b = (λ p. let v = old.0 in let f = free in cc) in
            (bit_kept x d old.0, bytes_kept x d ∙ old.1);
        fresh = λ z n. update_self c1.store.bytes b (λ i. 0);
      })
    where
      c2 : Content
      c2 = added t j b c1

      nz : b ≢ 0
      nz = added_nonzero r.lab c1 r.ok t j b (full [] js) at_t inner empty free real

      bit_kept : (x : ℕ) → x ≢ b → c1.store.bit x ≡ true → c2.store.bit x ≡ true
      bit_kept x d u = ground (arith, d, u)

      bytes_kept : (x : ℕ) → x ≢ b → c2.store.bytes x ≡ c1.store.bytes x
      bytes_kept x d = ground (arith, d)

      keep :
          (ks : List ℕ)
          → Reads Inner [] ks
          → follow (child c1) ks (top c) ≢ 0
          → follow (child c2) ks (top c) ≡ follow (child c1) ks (top c)
      keep ks h =
          subst (λ m. follow (child c1) ks m ≢ 0 → follow (child c2) ks m ≡ follow (child c1) ks m)
            r.size (added_kept r.lab c1 r.ok t j b (full [] js) at_t inner empty free real ks h)

      same :
          (ks : List ℕ)
          → Reads Inner [] ks
          → ((rest : List ℕ) → ks ++ rest ≡ js ++ (j ∷ []) → ⊥)
          → follow (child c2) ks (top c) ≡ follow (child c1) ks (top c)
      same ks h n =
          subst (λ m. follow (child c2) ks m ≡ follow (child c1) ks m) r.size
            (added_frame r.lab c1 r.ok t j b (full [] js) at_t inner empty free real ks h (λ f.
              n [] (append_nil ks ∙ full_inj ks (js ++ (j ∷ [])) (f ∙ sym (full_last js [] j)))))

      arrives : follow (child c2) js (top c) ≡ t
      arrives = keep js (Reads-init js [] j reads) (λ z. t_nonzero (sym way ∙ z)) ∙ way

-- An entry of the inode.
pub root_entry-Reached :
    (lab : ℕ → Option (List ℕ)) (c : Content) (i : ℕ)
    → IsContent lab c
    → Reached c (i ∷ []) (root_entry i c)
unfolding start-Reached
root_entry-Reached lab c i ok =
    let nz : top c ≢ 0 = (λ z. let n = ok.tree.nonnull in let r = ok.rooted in cc) in
    enter-Reached c [] i (top c) c (start-Reached lab c ok) ok.rooted refl nz (omega arith)
      (omega arith, tt) (root_entry i c) (root_entry-Enters i c ok.boot)

-- An entry of an index block.
pub then_entry-Reached :
    (c : Content) (js : List ℕ) (j : ℕ) (a : ℕ × Content)
    → js ≢ []
    → Inner (full [] js)
    → Reads Inner [] (js ++ (j ∷ []))
    → Reached c js a
    → Reached c (js ++ (j ∷ [])) (then_entry j a)
then_entry-Reached c js j (t, c1) ne inner reads r = by_result r.result
  where
    out_of_blocks :
        t ≡ 0
        → follow (child c) js (top c) ≡ 0
        → Used 0 (top c) c1.store
        → follow (child c1) js (top c) ≡ 0
        → Reached c (js ++ (j ∷ [])) (0, c1)
    out_of_blocks z none_there used none_here = record {
      lab = r.lab;
      ok = r.ok;
      size = r.size;
      result = inl (
        refl,
        follow_last (child c) js (top c) j ∙ rw none_there refl,
        used,
        follow_last (child c1) js (top c) j ∙ rw none_here refl,
      );
      frame = λ ks h n. r.frame ks h (λ rest e. n (rest ++ (j ∷ [])) (prefix_last ks js rest j e));
      kept = r.kept;
      stored = r.stored;
      fresh = λ e n. absurd (n refl);
    }

    by_result :
        ((t ≡ 0)
            × (follow (child c) js (top c) ≡ 0)
            × Used 0 (top c) c1.store
            × (follow (child c1) js (top c) ≡ 0))
          ⊎ ((t ≢ 0) × (r.lab t ≡ some (full [] js)) × (follow (child c1) js (top c) ≡ t))
        → Reached c (js ++ (j ∷ [])) (then_entry j (t, c1))
    by_result (inl q) = rw q.0 (out_of_blocks q.0 q.1 q.2 q.3)
    by_result (inr q) =
        let b : (t == 0) ≡ false = let n = q.0 in ground (arith, n) in
        let d : t ≢ top c1 =
          λ e. ne (full_inj js [] (label_inj (r.lab t) _ _ q.1 (ap r.lab e ∙ r.ok.rooted))) in
        subst (Reached c (js ++ (j ∷ [])))
          (ap (λ y. if y then (0, c1) else index_entry t j c1) (sym b))
          (enter-Reached c js j t c1 r q.1 q.2 q.0 inner reads (index_entry t j c1)
            (index_entry-Enters t j c1 d r.ok.boot))
      where
        label_inj : (o : Option (List ℕ)) (x y : List ℕ) → o ≡ some x → o ≡ some y → x ≡ y
        label_inj o x y e f = cc
