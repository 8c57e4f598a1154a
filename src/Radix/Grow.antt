-- ===== src/Radix/Grow.antt =====
-- A tree gets a new node in an empty place.
use aut_whuoslab.Prelude.{
  ℕ, ◌≡◌, refl, sym, ap, ◌∙◌, ◌≢◌, ◌⊎◌, inl, inr, List, [], ◌∷◌, Option, none, some, arith,
  ℕ_discrete, ◌==◌, if◌then◌else◌,
}
use aut_whuoslab.Kalloc.{update}
use aut_whuoslab.Radix.{follow, full, grown, follow_zero, IsTree, Reads}

some_ne {ℓ} : {A : Type ℓ} (x : A) → none ≢ some x
some_ne x e = cc

some_inj {ℓ} : {A : Type ℓ} (x y : A) → some x ≡ some y → x ≡ y
some_inj x y e = cc

module _ (Inner : List ℕ → Type 0) where
  module _ (lab : ℕ → Option (List ℕ)) (child : ℕ → ℕ → ℕ) (tree : IsTree Inner lab child) where
    module _ (t i v : ℕ) (pt : List ℕ) (at_t : lab t ≡ some pt) (fresh : lab v ≡ none) where
      apart : (s : ℕ) (p : List ℕ) → lab s ≡ some p → s ≢ v
      apart s p l e = some_ne p (sym fresh ∙ sym (ap lab e) ∙ l)

      new_empty : (k : ℕ) → grown child t i v v k ≡ 0
      new_empty k = let n = apart t pt at_t in ground (arith, n)

      same_child :
          (s j : ℕ) (p : List ℕ)
          → lab s ≡ some p
          → ((s ≡ t) × (j ≡ i) → ⊥)
          → grown child t i v s j ≡ child s j
      same_child s j p l n = let d = apart s p l in ground (arith, n, d)

      -- A new node in an empty place changes no path but the one that ends there.
      pub grow-follow :
          (js p : List ℕ) (r : ℕ)
          → child t i ≡ 0
          → (r ≡ 0) ⊎ (lab r ≡ some p)
          → Reads Inner p js
          → full p js ≢ i ∷ pt
          → follow (grown child t i v) js r ≡ follow child js r
      grow-follow [] p r e l h n = refl
      grow-follow (j ∷ js) p r e (inl z) h n = rw z refl
      grow-follow (j ∷ js) p r e (inr l) h n =
          by_place (place (ℕ_discrete r t) (ℕ_discrete j i))
            (λ c. grow-follow js (j ∷ p) (child r j) e c h.1 n)
        where
          place : Dec (r ≡ t) → Dec (j ≡ i) → ((r ≡ t) × (j ≡ i)) ⊎ ((r ≡ t) × (j ≡ i) → ⊥)
          place (yes a) (yes b) = inl (a, b)
          place (yes a) (no b) = inr (λ q. b q.1)
          place (no a) d = inr (λ q. a q.0)

          end :
              (ks : List ℕ)
              → full (j ∷ p) ks ≢ i ∷ pt
              → (r ≡ t) × (j ≡ i)
              → follow (grown child t i v) ks v ≡ 0
          end [] n q = absurd (n (rw (q.1, some_inj p pt (sym l ∙ ap lab q.0 ∙ at_t)) refl))
          end (k ∷ ks) n q =
              let f : follow (grown child t i v) ks (grown child t i v v k) ≡ 0 =
                rw (new_empty k) (follow_zero (grown child t i v) ks) in
              ground (arith, f)

          here : (r ≡ t) × (j ≡ i) → grown child t i v r j ≡ v
          here q = ground (arith, q)

          was : (r ≡ t) × (j ≡ i) → child r j ≡ 0
          was q = rw (q.0, q.1) e

          by_place :
              ((r ≡ t) × (j ≡ i)) ⊎ ((r ≡ t) × (j ≡ i) → ⊥)
              → ((child r j ≡ 0) ⊎ (lab (child r j) ≡ some (j ∷ p))
                  → follow (grown child t i v) js (child r j) ≡ follow child js (child r j))
              → follow (grown child t i v) (j ∷ js) r ≡ follow child (j ∷ js) r
          by_place (inl q) ih =
              let a : follow (grown child t i v) js (grown child t i v r j) ≡ 0 =
                ap (follow (grown child t i v) js) (here q) ∙ end js n q in
              let b : follow child js (child r j) ≡ 0 =
                ap (follow child js) (was q) ∙ follow_zero child js in
              ap (λ x. if r == 0 then 0 else x) (a ∙ sym b)
          by_place (inr q) ih =
              ap (λ x. if r == 0 then 0 else x)
                (ap (follow (grown child t i v) js) (same_child r j p l q)
                  ∙ ih (tree.linked r j p l h.0))

      -- The tree with the new node.
      pub grow-IsTree : v ≢ 0 → IsTree Inner (update lab v (some (i ∷ pt))) (grown child t i v)
      grow-IsTree nv = record { nonnull = null_free; linked = links }
        where
          null_free : update lab v (some (i ∷ pt)) 0 ≡ none
          null_free = let n = tree.nonnull in ground (arith, n)

          old : (s : ℕ) → s ≢ v → update lab v (some (i ∷ pt)) s ≡ lab s
          old s n = ground (arith, n)

          new : update lab v (some (i ∷ pt)) v ≡ some (i ∷ pt)
          new = ground arith

          later :
              (c j : ℕ) (p : List ℕ)
              → (c ≡ 0) ⊎ (lab c ≡ some (j ∷ p))
              → (c ≡ 0) ⊎ (update lab v (some (i ∷ pt)) c ≡ some (j ∷ p))
          later c j p (inl z) = inl z
          later c j p (inr l) = inr (old c (apart c (j ∷ p) l) ∙ l)

          links :
              (s j : ℕ) (p : List ℕ)
              → update lab v (some (i ∷ pt)) s ≡ some p
              → Inner p
              → (grown child t i v s j ≡ 0)
                ⊎ (update lab v (some (i ∷ pt)) (grown child t i v s j) ≡ some (j ∷ p))
          links s j p l h = elim (ℕ_discrete s v) [
            | yes e ↦ inl (rw e (new_empty j))
            | no n ↦ other (sym (old s n) ∙ l) (ℕ_discrete s t) (ℕ_discrete j i)
          ]
            where
              kept :
                  lab s ≡ some p
                  → ((s ≡ t) × (j ≡ i) → ⊥)
                  → (grown child t i v s j ≡ 0)
                    ⊎ (update lab v (some (i ∷ pt)) (grown child t i v s j) ≡ some (j ∷ p))
              kept g q = rw (same_child s j p g q) (later (child s j) j p (tree.linked s j p g h))

              other :
                  lab s ≡ some p
                  → Dec (s ≡ t)
                  → Dec (j ≡ i)
                  → (grown child t i v s j ≡ 0)
                    ⊎ (update lab v (some (i ∷ pt)) (grown child t i v s j) ≡ some (j ∷ p))
              other g (yes a) (yes b) =
                  let c : grown child t i v s j ≡ v = ground (arith, a, b) in
                  inr (
                    ap (update lab v (some (i ∷ pt))) c
                    ∙ new
                    ∙ rw (b, some_inj p pt (sym g ∙ ap lab a ∙ at_t)) refl)
              other g (yes a) (no b) = kept g (λ q. b q.1)
              other g (no a) d = kept g (λ q. a q.0)

      -- What a new node in an empty place does to any path: nothing, or the path now leads to it and led
      -- nowhere.
      pub grow-follow_cases :
          (js p : List ℕ) (r : ℕ)
          → child t i ≡ 0
          → (r ≡ 0) ⊎ (lab r ≡ some p)
          → Reads Inner p js
          → (follow (grown child t i v) js r ≡ follow child js r)
            ⊎ ((follow (grown child t i v) js r ≡ v) × (follow child js r ≡ 0))
      grow-follow_cases [] p r e l h = inl refl
      grow-follow_cases (j ∷ js) p r e (inl z) h = inl (rw z refl)
      grow-follow_cases (j ∷ js) p r e (inr l) h =
          by_place (ℕ_discrete r 0) (ℕ_discrete r t) (ℕ_discrete j i)
            (λ c. grow-follow_cases js (j ∷ p) (child r j) e c h.1)
        where
          Goal : List ℕ → ℕ → ℕ → Type 0
          Goal ks a b =
              (follow (grown child t i v) ks a ≡ follow child ks b)
              ⊎ ((follow (grown child t i v) ks a ≡ v) × (follow child ks b ≡ 0))

          at_new : (ks : List ℕ) → Goal ks v 0
          at_new [] = inr (refl, refl)
          at_new (k ∷ ks) =
              let f : follow (grown child t i v) ks (grown child t i v v k) ≡ 0 =
                rw (new_empty k) (follow_zero (grown child t i v) ks) in
              inl (ground (arith, f))

          next : r ≢ 0 → Goal js (grown child t i v r j) (child r j) → Goal (j ∷ js) r r
          next n g =
              let e1 : follow (grown child t i v) (j ∷ js) r
                  ≡ follow (grown child t i v) js (grown child t i v r j) =
                ground (arith, n) in
              let e2 : follow child (j ∷ js) r ≡ follow child js (child r j) = ground (arith, n) in
              rw (e1, e2) g

          by_place :
              Dec (r ≡ 0)
              → Dec (r ≡ t)
              → Dec (j ≡ i)
              → ((child r j ≡ 0) ⊎ (lab (child r j) ≡ some (j ∷ p))
                  → Goal js (child r j) (child r j))
              → Goal (j ∷ js) r r
          by_place (yes z) a b ih = inl (rw z refl)
          by_place (no n) (yes a) (yes b) ih =
              let c : grown child t i v r j ≡ v = ground (arith, a, b) in
              let d : child r j ≡ 0 = rw (a, b) e in next n (rw (c, d) (at_new js))
          by_place (no n) (yes a) (no b) ih =
              let c = same_child r j p l (λ q. b q.1) in
              next n (rw c (ih (tree.linked r j p l h.0)))
          by_place (no n) (no a) b ih =
              let c = same_child r j p l (λ q. a q.0) in
              next n (rw c (ih (tree.linked r j p l h.0)))
