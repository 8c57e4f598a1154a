-- ===== src/Fs/Path/Components.antt =====
-- `skipelem` takes a path apart at its slashes.
use aut_whuoslab.Prelude.{
  ℕ, ◌≤◌, ◌<◌, ◌≡◌, refl, sym, ap, ◌∙◌, inl, inr, false, Bool-cases, ◌==◌, if◌then◌else◌, List, [],
  ◌∷◌, Option, none, some, take, map, length, arith,
}
use aut_whuoslab.Fs.Path.{dirsiz, slash, skip_slashes, element, skip_name, skipelem}

abbrev push : ℕ → List (List ℕ) → List (List ℕ)
push c [] = (c ∷ []) ∷ []
push c (w ∷ ws) = (c ∷ w) ∷ ws

-- The pieces between the slashes, empty ones too.
abbrev pub pieces : List ℕ → List (List ℕ)
pieces [] = [] ∷ []
pieces (c ∷ cs) = if c == slash then [] ∷ pieces cs else push c (pieces cs)

abbrev pub drop_empty : List (List ℕ) → List (List ℕ)
drop_empty [] = []
drop_empty ([] ∷ ws) = drop_empty ws
drop_empty ((c ∷ w) ∷ ws) = (c ∷ w) ∷ drop_empty ws

-- The names of a path: its pieces that are not empty, each cut to DIRSIZ bytes.
abbrev pub components : List ℕ → List (List ℕ)
components path = map (take dirsiz) (drop_empty (pieces path))

skip-pieces : (p : List ℕ) → drop_empty (pieces (skip_slashes p)) ≡ drop_empty (pieces p)
skip-pieces [] = refl
skip-pieces (c ∷ cs) = elim (Bool-cases (c == slash)) [
  | inl s ↦ rw s (skip-pieces cs)
  | inr n ↦ rw n (rw n refl)
]

abbrev behind : List ℕ → List (List ℕ)
behind [] = []
behind (c ∷ cs) = pieces cs

element-pieces : (p : List ℕ) → pieces p ≡ (element p).0 ∷ behind (element p).1
element-pieces [] = refl
element-pieces (c ∷ cs) = elim (Bool-cases (c == slash)) [
  | inl s ↦ rw s refl
  | inr n ↦ rw n (ap (push c) (element-pieces cs))
]

-- What is left behind an element is empty or starts with a slash.
element-stop : (p : List ℕ) → drop_empty (behind (element p).1) ≡ drop_empty (pieces (element p).1)
element-stop [] = refl
element-stop (c ∷ cs) = elim (Bool-cases (c == slash)) [
  | inl s ↦ rw s (rw s refl)
  | inr n ↦ rw n (element-stop cs)
]

element-length : (p : List ℕ) → length (element p).1 ≤ length p
element-length [] = omega arith
element-length (c ∷ cs) = elim (Bool-cases (c == slash)) [
  | inl s ↦ rw s (omega arith)
  | inr n ↦ rw n (omega (arith, element-length cs))
]

skip-length : (p : List ℕ) → length (skip_slashes p) ≤ length p
skip-length [] = omega arith
skip-length (c ∷ cs) = elim (Bool-cases (c == slash)) [
  | inl s ↦ rw s (omega (arith, skip-length cs))
  | inr n ↦ rw n (omega arith)
]

-- The list does not start with a slash.
abbrev pub NoSlash : List ℕ → Type 0
NoSlash [] = Unit {0}
NoSlash (c ∷ cs) = (c == slash) ≡ false

skip-NoSlash : (p : List ℕ) → NoSlash (skip_slashes p)
skip-NoSlash [] = tt
skip-NoSlash (c ∷ cs) = elim (Bool-cases (c == slash)) [
  | inl s ↦ rw s (skip-NoSlash cs)
  | inr n ↦ rw n n
]

-- What `skipelem` returns for a path: nothing if the path has no names; else its first name, and a shorter path,
-- with no slash in front, that has the others.
abbrev pub Skips : List ℕ → Option (List ℕ × List ℕ) → Type 0
Skips path none = components path ≡ []
Skips path (some (name, rest)) =
    (components path ≡ name ∷ components rest) × NoSlash rest × (length rest < length path)

skip_name-Skips : (p : List ℕ) → NoSlash p → Skips p (skip_name p)
skip_name-Skips [] h = refl
skip_name-Skips (c ∷ cs) h = (
  rw h (
      ap (λ ws. map (take dirsiz) (drop_empty (push c ws))) (element-pieces cs)
      ∙ ap (λ ws. take dirsiz (c ∷ (element cs).0) ∷ map (take dirsiz) ws)
          (element-stop cs ∙ sym (skip-pieces (element cs).1))),
  skip-NoSlash (element (c ∷ cs)).1,
  rw h (omega (arith, skip-length (element cs).1, element-length cs)),
)

-- `skipelem` takes a path apart as its pieces between slashes say: it returns the first piece that is not
-- empty, cut to DIRSIZ bytes, and a shorter path that has the other names and starts with no slash; it
-- returns 0 exactly for a path without names.
pub skipelem-Skips : (path : List ℕ) → Skips path (skipelem path)
unfolding skipelem
skipelem-Skips path =
    by_name (skip_name (skip_slashes path))
      (skip_name-Skips (skip_slashes path) (skip-NoSlash path))
  where
    same : components (skip_slashes path) ≡ components path
    same = ap (map (take dirsiz)) (skip-pieces path)

    by_name : (r : Option (List ℕ × List ℕ)) → Skips (skip_slashes path) r → Skips path r
    by_name none e = sym same ∙ e
    by_name (some (n, r)) (e, s, l) = (sym same ∙ e, s, omega (arith, skip-length path, l))
