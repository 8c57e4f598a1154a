-- ===== src/File/Uses.antt =====
-- How often an open file is in use: by descriptors, and by code that holds it before or after a descriptor does.
use aut_whuoslab.Prelude.{
  ℕ, zero, suc, ◌+◌, ◌≤◌, ◌<◌, ◌≡◌, refl, ap, ◌≢◌, List, [], ◌∷◌, Option, none, some, arith, length,
  get_or, set, modify, ◌==◌, if◌then◌else◌,
}

-- 1 for a descriptor of file `f`.
abbrev pub is : ℕ → Option ℕ → ℕ
is f none = 0
is f (some g) = if g == f then 1 else 0

abbrev pub holders : ℕ → List (Option ℕ) → ℕ
holders f [] = 0
holders f (o ∷ os) = is f o + holders f os

abbrev pub times : ℕ → List ℕ → ℕ
times f [] = 0
times f (e ∷ es) = is f (some e) + times f es

-- Descriptor `i` becomes `o`.
pub holders-set :
    (f : ℕ) (os : List (Option ℕ)) (i : ℕ) (o : Option ℕ)
    → i < length os
    → holders f (set os i o) + is f (get_or os i none) ≡ holders f os + is f o
holders-set f [] i o h = absurd (omega arith)
holders-set f (x ∷ os) zero o h = omega arith
holders-set f (x ∷ os) (suc i) o h = omega (arith, holders-set f os i o (omega arith))

pub is-le : (f : ℕ) (o : Option ℕ) → is f o ≤ 1
is-le f none = omega arith
is-le f (some g) = ground arith

pub holders-le : (f : ℕ) (os : List (Option ℕ)) → holders f os ≤ length os
holders-le f [] = omega arith
holders-le f (o ∷ os) = omega (arith, is-le f o, holders-le f os)

pub times-le : (f : ℕ) (es : List ℕ) → times f es ≤ length es
times-le f [] = omega arith
times-le f (e ∷ es) = omega (arith, is-le f (some e), times-le f es)

pub is_self : (f : ℕ) → is f (some f) ≡ 1
is_self f = ground arith

pub is_ne : (f g : ℕ) → g ≢ f → is f (some g) ≡ 0
is_ne f g h = ground arith

module _ {ℓ} {A : Type ℓ} where
  pub get_or-modify_self :
      (xs : List A) (i : ℕ) (h : A → A) (d : A)
      → i < length xs
      → get_or (modify xs i h) i d ≡ h (get_or xs i d)
  get_or-modify_self [] i h d l = absurd (omega arith)
  get_or-modify_self (x ∷ xs) zero h d l = refl
  get_or-modify_self (x ∷ xs) (suc i) h d l = get_or-modify_self xs i h d (omega arith)

  pub get_or-modify_ne :
      (xs : List A) (i j : ℕ) (h : A → A) (d : A)
      → i ≢ j
      → get_or (modify xs i h) j d ≡ get_or xs j d
  get_or-modify_ne [] i j h d n = refl
  get_or-modify_ne (x ∷ xs) zero zero h d n = absurd (n refl)
  get_or-modify_ne (x ∷ xs) zero (suc j) h d n = refl
  get_or-modify_ne (x ∷ xs) (suc i) zero h d n = refl
  get_or-modify_ne (x ∷ xs) (suc i) (suc j) h d n = get_or-modify_ne xs i j h d (λ e. n (ap suc e))
