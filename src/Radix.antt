-- ===== src/Radix.antt =====
-- Trees of nodes that are named by numbers, 0 for none, and hold an array of children: the index blocks of
-- a file and the page tables of a process are two of them. A label is the path of a node from the root,
-- the last index first; that a node has one label says that the nodes form a tree.
pub mod Grow
pub mod Paths
use aut_whuoslab.Prelude.{
  ℕ, ◌≡◌, refl, sym, ap, ◌∙◌, ◌≢◌, ◌⊎◌, inl, inr, ◌&&◌, List, [], ◌∷◌, Option, none, some, arith,
  ℕ_discrete, ◌==◌, if◌then◌else◌,
}
use aut_whuoslab.Kalloc.{update}

-- The node that the indices lead to.
abbrev pub follow : (ℕ → ℕ → ℕ) → List ℕ → ℕ → ℕ
follow child [] r = r
follow child (j ∷ js) r = if r == 0 then 0 else follow child js (child r j)

-- The label that the indices lead to.
abbrev pub full : List ℕ → List ℕ → List ℕ
full p [] = p
full p (j ∷ js) = full (j ∷ p) js

-- Child `i` of `t` is the new node `v`, which has no children.
abbrev pub grown : (ℕ → ℕ → ℕ) → ℕ → ℕ → ℕ → ℕ → ℕ → ℕ
grown child t i v s j = if (s == t) && (j == i) then v else if s == v then 0 else child s j

pub follow_zero : (child : ℕ → ℕ → ℕ) (js : List ℕ) → follow child js 0 ≡ 0
follow_zero child [] = refl
follow_zero child (j ∷ js) = refl

module _ (Inner : List ℕ → Type 0) where
  -- Nodes with an inner label have labelled children.
  pub record IsTree (lab : ℕ → Option (List ℕ)) (child : ℕ → ℕ → ℕ) : Type 0 where
    pub nonnull : lab 0 ≡ none
    pub linked :
        (t i : ℕ) (p : List ℕ)
        → lab t ≡ some p
        → Inner p
        → (child t i ≡ 0) ⊎ (lab (child t i) ≡ some (i ∷ p))

  -- Every node that is read on the way has an inner label.
  abbrev pub Reads : List ℕ → List ℕ → Type 0
  Reads p [] = Unit
  Reads p (j ∷ js) = Inner p × Reads (j ∷ p) js

  module _ (lab : ℕ → Option (List ℕ)) (child : ℕ → ℕ → ℕ) (tree : IsTree lab child) where
    -- The node at the end of a path has the path as its label.
    pub follow-lab :
        (js p : List ℕ) (r : ℕ)
        → (r ≡ 0) ⊎ (lab r ≡ some p)
        → Reads p js
        → (follow child js r ≡ 0) ⊎ (lab (follow child js r) ≡ some (full p js))
    follow-lab [] p r l h = l
    follow-lab (j ∷ js) p r (inl z) h = inl (rw z refl)
    follow-lab (j ∷ js) p r (inr l) h = elim (ℕ_discrete r 0) [
      | yes z ↦ inl (rw z refl)
      | no n ↦
          let e : (if r == 0 then 0 else follow child js (child r j))
              ≡ follow child js (child r j) =
            ground arith in
          rw e (follow-lab js (j ∷ p) (child r j) (tree.linked r j p l h.0) h.1)
    ]

    -- The way depends on the nodes with an inner label only.
    pub follow_agree :
        (other : ℕ → ℕ → ℕ) (js p : List ℕ) (r : ℕ)
        → ((t i : ℕ) (q : List ℕ) → lab t ≡ some q → Inner q → other t i ≡ child t i)
        → (r ≡ 0) ⊎ (lab r ≡ some p)
        → Reads p js
        → follow other js r ≡ follow child js r
    follow_agree other [] p r same l h = refl
    follow_agree other (j ∷ js) p r same (inl z) h = rw z refl
    follow_agree other (j ∷ js) p r same (inr l) h =
        ap (λ x. if r == 0 then 0 else x)
          (ap (follow other js) (same r j p l h.0)
            ∙ follow_agree other js (j ∷ p) (child r j) same (tree.linked r j p l h.0) h.1)
