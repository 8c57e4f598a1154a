-- ===== src/Bio/Release.antt =====
-- Releasing and pinning leave every block its buffer.
use aut_whuoslab.Prelude.{
  ℕ, suc, ◌≡◌, refl, sym, ap, ◌∙◌, ◌⊎◌, inl, inr, Bool, true, false, List, [], ◌∷◌, ◌==◌,
  Bool-cases,
}
use aut_whuoslab.Bio.{Buf, more, less, has, unlink, change, brelse_end, bpin, bunpin}
use aut_whuoslab.Bio.Unique.{one_more, copies, Unique}

one_more_swap : (s t : Bool) (n : ℕ) → one_more s (one_more t n) ≡ one_more t (one_more s n)
one_more_swap true true n = refl
one_more_swap true false n = refl
one_more_swap false true n = refl
one_more_swap false false n = refl

module _ {ℓ} {A : Type ℓ} where
  change-copies :
      (s d b : ℕ) (f : Buf A → Buf A) (bufs : List (Buf A))
      → ((x : Buf A) → has d b (f x) ≡ has d b x)
      → copies d b (change s f bufs) ≡ copies d b bufs
  unfolding change
  change-copies s d b f [] h = refl
  change-copies s d b f (x ∷ xs) h = elim (Bool-cases (x.slot == s)) [
    | inl e ↦ rw e (ap (λ t. one_more t (copies d b xs)) (h x))
    | inr e ↦ rw e (ap (one_more (has d b x)) (change-copies s d b f xs h))
  ]

  -- `bpin` and `bunpin` leave the blocks of the buffers.
  pub bpin-Unique :
      (s : ℕ) (bufs : List (Buf A)) → Unique bufs → Unique (bpin s bufs) × Unique (bunpin s bufs)
  unfolding bpin bunpin
  bpin-Unique s bufs u = (
    λ d b. rw (change-copies s (suc d) b more bufs (λ x. refl)) (u d b),
    λ d b. rw (change-copies s (suc d) b less bufs (λ x. refl)) (u d b),
  )

  -- The first buffer of its slot in the list is `x`.
  abbrev pub Linked : Buf A → List (Buf A) → Type ℓ
  Linked x [] = Unit × ⊥
  Linked x (y ∷ ys) =
      ((y.slot == x.slot) ≡ true × (y ≡ x)) ⊎ ((y.slot == x.slot) ≡ false × Linked x ys)

  -- Unlinking it takes one off the count of its block.
  unlink-copies :
      (x : Buf A) (d b : ℕ) (bufs : List (Buf A))
      → Linked x bufs
      → copies d b bufs ≡ one_more (has d b x) (copies d b (unlink x.slot bufs))
  unfolding unlink
  unlink-copies x d b [] l = absurd l.1
  unlink-copies x d b (y ∷ ys) (inl (e, q)) =
      rw e (ap (λ z. one_more (has d b z) (copies d b ys)) q)
  unlink-copies x d b (y ∷ ys) (inr (e, l)) = rw e (
      ap (one_more (has d b y)) (unlink-copies x d b ys l)
      ∙ one_more_swap (has d b y) (has d b x) (copies d b (unlink x.slot ys)))

  -- `brelse` of a buffer of the list changes no block's number of buffers, also when it moves the buffer to
  -- the front.
  pub brelse_end-copies :
      (x : Buf A) (bufs : List (Buf A))
      → Linked x bufs
      → (d b : ℕ) → copies d b (brelse_end x bufs) ≡ copies d b bufs
  unfolding brelse_end
  brelse_end-copies x bufs l d b = elim (Bool-cases ((less x).refcnt == 0)) [
    | inl e ↦ rw e (sym (unlink-copies x d b bufs l))
    | inr e ↦ rw e (change-copies x.slot d b less bufs (λ y. refl))
  ]
