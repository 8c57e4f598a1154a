-- ===== src/Ring.antt =====
-- Rings of bytes: a list that is used over and over, with the place of each count in it. The pipe and the
-- input of the console are such.
use aut_whuoslab.Prelude.{
  ℕ, zero, suc, ◌+◌, ◌<◌, ◌≡◌, refl, ap, ap₂, subst, ◌≢◌, List, [], ◌∷◌, ◌++◌, arith, length,
  get_or, set, get_or-set_ne,
}

module _ (place : ℕ → ℕ) where
  -- `count` bytes of the ring from count `r` on.
  abbrev pub elems : ℕ → ℕ → List ℕ → List ℕ
  elems zero r bytes = []
  elems (suc count) r bytes = get_or bytes (place r) 0 ∷ elems count (r + 1) bytes

  pub length-elems : (c r : ℕ) (bytes : List ℕ) → length (elems c r bytes) ≡ c
  length-elems zero r bytes = refl
  length-elems (suc c) r bytes = ap suc (length-elems c (r + 1) bytes)

  -- Counts with the same place see the same bytes.
  pub elems-mod :
      ((r s : ℕ) → place r ≡ place s → place (r + 1) ≡ place (s + 1))
      → (c r s : ℕ) (bytes : List ℕ) → place r ≡ place s
      → elems c r bytes ≡ elems c s bytes
  elems-mod next zero r s bytes e = refl
  elems-mod next (suc c) r s bytes e =
      ap₂ (λ x xs. x ∷ xs) (ap (λ i. get_or bytes i 0) e)
        (elems-mod next c (r + 1) (s + 1) bytes (next r s e))

  -- A write elsewhere.
  pub elems-set :
      (c r p v : ℕ) (bytes : List ℕ)
      → ((i : ℕ) → i < c → p ≢ place (r + i))
      → elems c r (set bytes p v) ≡ elems c r bytes
  elems-set zero r p v bytes h = refl
  elems-set (suc c) r p v bytes h =
      ap₂ (λ x xs. x ∷ xs)
        (get_or-set_ne bytes p (place r) v 0
          (subst (λ k. p ≢ place k) (omega arith) (h 0 (omega arith))))
        (elems-set c (r + 1) p v bytes
          (λ i l. subst (λ k. p ≢ place k) (omega arith) (h (suc i) (omega (arith, l)))))

  pub elems-append :
      (a b r : ℕ) (bytes : List ℕ)
      → elems (a + b) r bytes ≡ elems a r bytes ++ elems b (r + a) bytes
  elems-append zero b r bytes =
      let e : r + 0 ≡ r = omega arith in let z : 0 + b ≡ b = omega arith in rw (e, z) refl
  elems-append (suc a) b r bytes =
      let e : r + 1 + a ≡ r + suc a = omega arith in
      let z : suc a + b ≡ suc (a + b) = omega arith in
      rw z (
        ap (λ xs. get_or bytes (place r) 0 ∷ xs)
          (subst (λ k. elems (a + b) (r + 1) bytes ≡ elems a (r + 1) bytes ++ elems b k bytes) e
            (elems-append a b (r + 1) bytes)))

  pub elems-snoc :
      (c r : ℕ) (bytes : List ℕ)
      → elems (suc c) r bytes ≡ elems c r bytes ++ get_or bytes (place (r + c)) 0 ∷ []
  elems-snoc c r bytes =
      let e : c + 1 ≡ suc c = omega arith in
      subst (λ n. elems n r bytes ≡ elems c r bytes ++ get_or bytes (place (r + c)) 0 ∷ []) e
        (elems-append c 1 r bytes)
