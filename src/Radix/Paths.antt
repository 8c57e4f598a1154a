-- ===== src/Radix/Paths.antt =====
-- Paths as lists of indices, and their last index.
use aut_whuoslab.Prelude.{
  false, ℕ, ◌≡◌, refl, sym, ap, ◌∙◌, List, [], ◌∷◌, ◌++◌, arith, ℕ_discrete, ◌==◌, if◌then◌else◌,
}
use aut_whuoslab.Radix.{follow, full}

full-full : (q ks p : List ℕ) → full q (full p ks) ≡ full (ks ++ q) p
full-full q [] p = refl
full-full q (k ∷ ks) p = full-full q ks (k ∷ p)

pub append_nil : (ks : List ℕ) → ks ++ [] ≡ ks
append_nil [] = refl
append_nil (k ∷ ks) = ap (λ l. k ∷ l) (append_nil ks)

pub full_inj : (js ks : List ℕ) → full [] js ≡ full [] ks → js ≡ ks
full_inj js ks e =
    sym (append_nil js)
    ∙ sym (full-full [] js [])
    ∙ ap (full []) e
    ∙ full-full [] ks []
    ∙ append_nil ks

pub full_last : (js p : List ℕ) (j : ℕ) → full p (js ++ (j ∷ [])) ≡ j ∷ full p js
full_last [] p j = refl
full_last (k ∷ js) p j = full_last js (k ∷ p) j

pub follow_last :
    (f : ℕ → ℕ → ℕ) (js : List ℕ) (r j : ℕ)
    → follow f (js ++ (j ∷ [])) r ≡ (if follow f js r == 0 then 0 else f (follow f js r) j)
follow_last f [] r j = refl
follow_last f (k ∷ js) r j = elim (ℕ_discrete r 0) [
  | yes z ↦ rw z refl
  | no n ↦ let b : (r == 0) ≡ false = ground (arith, n) in rw b (follow_last f js (f r k) j)
]

pub prefix_last :
    (ks js rest : List ℕ) (j : ℕ) → ks ++ rest ≡ js → ks ++ (rest ++ (j ∷ [])) ≡ js ++ (j ∷ [])
prefix_last ks js rest j e = append_assoc ks rest (j ∷ []) ∙ ap (λ l. l ++ (j ∷ [])) e
  where
    append_assoc : (xs ys zs : List ℕ) → xs ++ (ys ++ zs) ≡ (xs ++ ys) ++ zs
    append_assoc [] ys zs = refl
    append_assoc (x ∷ xs) ys zs = ap (λ l. x ∷ l) (append_assoc xs ys zs)

pub longer : (js rest : List ℕ) (j : ℕ) → (js ++ (j ∷ [])) ++ rest ≡ js → ⊥
longer [] rest j e = cc
longer (k ∷ js) rest j e = longer js rest j (tail_eq _ _ k k e)
  where
    tail_eq : (xs ys : List ℕ) (x y : ℕ) → x ∷ xs ≡ y ∷ ys → xs ≡ ys
    tail_eq xs ys x y q = cc
