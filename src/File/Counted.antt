-- ===== src/File/Counted.antt =====
-- The reference counts of the files.
use aut_whuoslab.Prelude.{
  ℕ, ◌+◌, ◌*◌, ◌≤◌, ◌<◌, ◌≡◌, sym, ap, ◌∙◌, subst, ◌≢◌, List, Option, none, arith, pos, length,
  get_or, length-set, length-modify, ℕ_discrete, dec_lt,
}
use aut_whuoslab.Proc.Types.{nproc}
use aut_whuoslab.File.{nofile, File, Files, no_file, file, change_file, set_ofile}
use aut_whuoslab.File.Uses.{
  is, holders, times, holders-set, holders-le, times-le, get_or-modify_self, get_or-modify_ne,
}

-- The users of file `f`: the descriptors, and `es`, the references held by the code that runs.
abbrev pub uses : List ℕ → ℕ → Files → ℕ
uses es f s = holders f s.ofile + times f es

-- Each count is the number of users, and no user has a file that is not there.
pub record Counted (es : List ℕ) (s : Files) : Type 0 where
  pub slots : length s.ofile ≡ nproc * nofile
  pub counts : (f : ℕ) → f < length s.ftable → (file f s).ref ≡ pos (uses es f s)
  pub valid : (f : ℕ) → length s.ftable ≤ f → uses es f s ≡ 0

-- A descriptor and the references in hand change together.
pub Counted-set :
    {es : List ℕ} {s : Files} (es' : List ℕ) (i : ℕ) (o : Option ℕ)
    → Counted es s
    → i < nproc * nofile
    → ((g : ℕ) → is g o + times g es' ≡ is g (get_or s.ofile i none) + times g es)
    → Counted es' (set_ofile i o s)
Counted-set {es} {s} es' i o c l e = record {
  slots = length-set s.ofile i o ∙ c.slots;
  counts = λ f h. c.counts f h ∙ ap pos (same f);
  valid = λ f h. sym (same f) ∙ c.valid f h;
}
  where
    same : (f : ℕ) → uses es f s ≡ uses es' f (set_ofile i o s)
    same f = omega (arith, e f, holders-set f s.ofile i o (omega (arith, l, c.slots)))

-- A file and the references to it in hand change together.
pub Counted-change :
    {es : List ℕ} {s : Files} (es' : List ℕ) (f : ℕ) (h : File → File)
    → Counted es s
    → f < length s.ftable
    → (h (file f s)).ref ≡ pos (uses es' f s)
    → ((g : ℕ) → f ≢ g → times g es' ≡ times g es)
    → Counted es' (change_file f h s)
Counted-change {es} {s} es' f h c l e o = record {
  slots = c.slots;
  counts = λ g b. count g (omega (arith, b, length-modify s.ftable f h)) (ℕ_discrete f g);
  valid = λ g b. beyond g (omega (arith, b, length-modify s.ftable f h));
}
  where
    same : (g : ℕ) → f ≢ g → uses es g s ≡ uses es' g s
    same g n = ap (λ t. holders g s.ofile + t) (sym (o g n))

    count :
        (g : ℕ)
        → g < length s.ftable
        → Dec (f ≡ g)
        → (file g (change_file f h s)).ref ≡ pos (uses es' g s)
    count g b (yes i) =
        subst (λ k. (file k (change_file f h s)).ref ≡ pos (uses es' k s)) i
          (ap File.ref (get_or-modify_self s.ftable f h no_file l) ∙ e)
    count g b (no n) =
        ap File.ref (get_or-modify_ne s.ftable f g h no_file n) ∙ c.counts g b ∙ ap pos (same g n)

    beyond : (g : ℕ) → length s.ftable ≤ g → uses es' g s ≡ 0
    beyond g b = sym (same g (omega (arith, l, b))) ∙ c.valid g b

-- A file in use is there, and its count is positive and small.
pub uses-le :
    {es : List ℕ} {s : Files} (f : ℕ) → Counted es s → uses es f s ≤ nproc * nofile + length es
uses-le {es} {s} f c = omega (arith, holders-le f s.ofile, times-le f es, c.slots)

pub used-lt :
    {es : List ℕ} {s : Files} (f : ℕ) → Counted es s → 0 < uses es f s → f < length s.ftable
used-lt {es} {s} f c u = elim (dec_lt f (length s.ftable)) [
  | yes l ↦ l
  | no n ↦ absurd (omega (arith, u, c.valid f (omega (arith, n))))
]
