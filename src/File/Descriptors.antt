-- ===== src/File/Descriptors.antt =====
-- Descriptors and the references in hand.
use aut_whuoslab.Prelude.{
  ℕ, zero, suc, ◌+◌, ◌*◌, ◌<◌, ◌≡◌, refl, ap, subst, Bool, true, false, List, ◌∷◌, Option, none,
  some, arith, ℤ, pos, negsuc, get_or, done, ◌>>=◌, ltb, if◌then◌else◌, not,
}
use aut_whuoslab.Proc.Types.{nproc}
use aut_whuoslab.File.{nofile, Files, place, set_ofile, filedup, fileclose, free_fd, fdalloc, argfd}
use aut_whuoslab.File.Uses.{is, holders-set, is_self}
use aut_whuoslab.File.Counted.{uses, Counted, Counted-set}

-- The file of descriptor `i` of the list.
abbrev pub slot : ℕ → Files → Option ℕ
slot i s = get_or s.ofile i none

pub place-lt : (p fd : ℕ) → p < nproc → fd < nofile → place p fd < nproc * nofile
place-lt p fd h l = omega arith

-- A reference in hand becomes a descriptor, and a descriptor a reference in hand.
pub put_in :
    {es : List ℕ} {s : Files} {f : ℕ} (i : ℕ)
    → Counted (f ∷ es) s
    → i < nproc * nofile
    → slot i s ≡ none
    → Counted es (set_ofile i (some f) s)
put_in {es} {s} {f} i c l e = Counted-set es i (some f) c l (λ g. omega (arith, ap (is g) e))

pub take_back :
    {es : List ℕ} {s : Files} {f : ℕ} (i : ℕ)
    → Counted es s
    → i < nproc * nofile
    → slot i s ≡ some f
    → Counted (f ∷ es) (set_ofile i none s)
take_back {es} {s} {f} i c l e = Counted-set (f ∷ es) i none c l (λ g. omega (arith, ap (is g) e))

-- The file of a descriptor is in use.
pub used_slot :
    {es : List ℕ} {s : Files} {f : ℕ} (i : ℕ)
    → Counted es s
    → i < nproc * nofile
    → slot i s ≡ some f
    → 0 < uses es f s
used_slot {es} {s} {f} i c l e =
    omega (arith, holders-set f s.ofile i none (omega (arith, l, c.slots)), ap (is f) e, is_self f)

-- `fdalloc` leaves all as it was, or takes a free descriptor.
abbrev pub Taken : ℕ → ℕ → Files → Option ℕ × Files → Type 0
Taken p f s (none, s') = s' ≡ s
Taken p f s (some fd, s') =
    (fd < nofile) × (slot (place p fd) s ≡ none) × (s' ≡ set_ofile (place p fd) (some f) s)

free_fd-some :
    (n p fd r : ℕ) (s : Files)
    → fd + n ≡ nofile
    → free_fd n p fd s ≡ some r
    → (r < nofile) × (slot (place p r) s ≡ none)
free_fd-some zero p fd r s l e = absurd (cc)
free_fd-some (suc n) p fd r s l e =
    by_slot (slot (place p fd) s) refl e (free_fd-some n p (suc fd) r s (omega (arith, l)))
  where
    by_slot :
        (o : Option ℕ)
        → slot (place p fd) s ≡ o
        → elim o [ none ↦ some fd | some f ↦ free_fd n p (suc fd) s ] ≡ some r
        → (free_fd n p (suc fd) s ≡ some r → (r < nofile) × (slot (place p r) s ≡ none))
        → (r < nofile) × (slot (place p r) s ≡ none)
    by_slot none h q k =
        let i : fd ≡ r = cc in (omega (arith, l, i), subst (λ j. slot (place p j) s ≡ none) i h)
    by_slot (some f) h q k = k q

pub fdalloc-Taken : (p f : ℕ) (s : Files) → Taken p f s (fdalloc p f s)
unfolding fdalloc
fdalloc-Taken p f s = by_fd (free_fd nofile p 0 s) refl
  where
    by_fd :
        (o : Option ℕ)
        → free_fd nofile p 0 s ≡ o
        → Taken p f s
            (elim o [ none ↦ (none, s) | some fd ↦ (some fd, set_ofile (place p fd) (some f) s) ])
    by_fd none e = refl
    by_fd (some fd) e = let (a, b) = free_fd-some nofile p 0 fd s refl e in (a, b, refl)

-- What `argfd` finds.
abbrev pub Found : ℕ → Files → Option (ℕ × ℕ) → Type 0
Found p s none = Unit {0}
Found p s (some (fd, f)) = (fd < nofile) × (slot (place p fd) s ≡ some f)

pub argfd-Found : (p : ℕ) (a : ℤ) (s : Files) → Found p s (argfd p a s)
unfolding argfd
argfd-Found p (negsuc n) s = tt
argfd-Found p (pos fd) s = by_parts (ltb fd nofile) refl (slot (place p fd) s) refl
  where
    by_parts :
        (b : Bool)
        → ltb fd nofile ≡ b
        → (o : Option ℕ) → slot (place p fd) s ≡ o
        → Found p s (if not b then none else elim o [ none ↦ none | some f ↦ some (fd, f) ])
    by_parts false l o e = tt
    by_parts true l none e = tt
    by_parts true l (some f) e = (ground (arith, l), e)

-- A descriptor may be written before or after a reference is taken or given back.
pub filedup-set_ofile :
    (f i : ℕ) (o : Option ℕ) (s : Files)
    → filedup f (set_ofile i o s) ≡ filedup f s >>= λ k. done (set_ofile i o k)
unfolding filedup
filedup-set_ofile f i o s = ground arith

pub fileclose-set_ofile :
    (f i : ℕ) (o : Option ℕ) (s : Files)
    → fileclose f (set_ofile i o s) ≡ fileclose f s >>= λ r. done (set_ofile i o r.0, r.1)
unfolding fileclose
fileclose-set_ofile f i o s = ground arith
