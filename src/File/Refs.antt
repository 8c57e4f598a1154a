-- ===== src/File/Refs.antt =====
-- `filealloc`, `filedup` and `fileclose` keep the counts.
use aut_whuoslab.Prelude.{
  ℕ, zero, suc, ◌+◌, ◌-◌, ◌^◌, ◌≤◌, ◌<◌, ◌≡◌, refl, sym, ap, ◌∙◌, subst, ◌≢◌, Bool, true, false,
  List, [], ◌∷◌, Option, none, some, arith, pos, int_inc, int_dec, is_zero, length, length-modify,
  get_or, done, Returns, ◌==◌, if◌then◌else◌,
}
use aut_whuoslab.File.{
  nofile, fd_none, File, Files, Released, nothing, no_file, file, change_file, free_file, filealloc,
  filedup, release_of, fileclose,
}
use aut_whuoslab.File.Uses.{times, is_self, is_ne}
use aut_whuoslab.File.Counted.{uses, Counted, Counted-change, uses-le, used-lt}

int_inc_pos : (n : ℕ) → n < 2 ^ 31 - 1 → int_inc (pos n) ≡ pos (suc n)
int_inc_pos n h = ground arith

-- The references in hand but for one to `f`.
times_cons : (f : ℕ) (es : List ℕ) → times f (f ∷ es) ≡ suc (times f es)
times_cons f es = omega (arith, is_self f)

times_other : (f : ℕ) (es : List ℕ) (g : ℕ) → f ≢ g → times g (f ∷ es) ≡ times g es
times_other f es g n = omega (arith, is_ne g f n)

-- A free file has no user.
free_file-some :
    (xs : List File) (k f : ℕ)
    → free_file k xs ≡ some f
    → (i : ℕ) × (f ≡ k + i) × (i < length xs) × (is_zero (get_or xs i no_file).ref ≡ true)
free_file-some [] k f e = absurd (cc)
free_file-some (x ∷ xs) k f e = by_ref (is_zero x.ref) refl e (free_file-some xs (suc k) f)
  where
    by_ref :
        (b : Bool)
        → is_zero x.ref ≡ b
        → (if b then some k else free_file (suc k) xs) ≡ some f
        → (free_file (suc k) xs ≡ some f
            → (i : ℕ) × (f ≡ suc k + i)
              × (i < length xs)
              × (is_zero (get_or xs i no_file).ref ≡ true))
        → (i : ℕ) × (f ≡ k + i)
          × (i < length (x ∷ xs))
          × (is_zero (get_or (x ∷ xs) i no_file).ref ≡ true)
    by_ref true z q r = (0, ground (arith, q), omega arith, z)
    by_ref false z q r = let (i, a, b, c) = r q in (suc i, omega (arith, a), omega (arith, b), c)

-- `filealloc` leaves all as it was, or hands out one reference to a file that had none.
abbrev pub Allocated : List ℕ → Files → Option ℕ × Files → Type 0
Allocated es s (none, s') = s' ≡ s
Allocated es s (some f, s') =
    Counted (f ∷ es) s'
    × (s'.ofile ≡ s.ofile)
    × (uses es f s ≡ 0)
    × (length s'.ftable ≡ length s.ftable)

-- One reference goes to file `f`.
claimed : ℕ → Files → Files
claimed f s = change_file f (λ x. record x { ref = pos 1 }) s

claimed-Allocated :
    {es : List ℕ} {s : Files} (f : ℕ)
    → Counted es s
    → f < length s.ftable
    → is_zero (file f s).ref ≡ true
    → Allocated es s (some f, claimed f s)
unfolding claimed
claimed-Allocated {es} {s} f c l z = (
  Counted-change (f ∷ es) f (λ x. record x { ref = pos 1 }) c l
      (ap pos (omega (arith, none_left, times_cons f es))) (times_other f es),
  refl,
  none_left,
  length-modify s.ftable f (λ x. record x { ref = pos 1 }),
)
  where
    none_left : uses es f s ≡ 0
    none_left = ground (arith, z, c.counts f l)

pub filealloc-Allocated : (es : List ℕ) (s : Files) → Counted es s → Allocated es s (filealloc s)
unfolding filealloc claimed
filealloc-Allocated es s c = by_file (free_file 0 s.ftable) refl
  where
    by_file :
        (o : Option ℕ)
        → free_file 0 s.ftable ≡ o
        → Allocated es s (elim o [ none ↦ (none, s) | some f ↦ (some f, claimed f s) ])
    by_file none e = refl
    by_file (some f) e =
        let (i, a, b, z) = free_file-some s.ftable 0 f e in
        let j : i ≡ f = omega (arith, a) in
        claimed-Allocated f c (omega (arith, a, b)) (subst (λ k. is_zero (file k s).ref ≡ true) j z)

-- One more, or one fewer, reference to file `f`.
raised : ℕ → Files → Files
raised f s = change_file f (λ x. record x { ref = int_inc x.ref }) s

lowered : ℕ → Files → Files
lowered f s = change_file f (λ x. record x { ref = int_dec x.ref }) s

freed : ℕ → Files → Files
freed f s = change_file f (λ x. record x { ref = pos 0; kind = fd_none }) s

filedup-raised :
    (s : Files) (f n : ℕ) → (file f s).ref ≡ pos (suc n) → filedup f s ≡ done (raised f s)
unfolding filedup raised
filedup-raised s f n e = ground (arith, e)

-- `filedup` hands out one more reference to a file in use.
abbrev pub Dupped : List ℕ → ℕ → Files → Files → Type 0
Dupped es f s s' = Counted (f ∷ es) s' × (s'.ofile ≡ s.ofile) × (length s'.ftable ≡ length s.ftable)

pub filedup-Counted :
    {es : List ℕ} {s : Files} (f : ℕ)
    → Counted es s
    → 0 < uses es f s
    → length es ≤ nofile
    → Returns (Dupped es f s) (filedup f s)
unfolding raised
filedup-Counted {es} {s} f c u l =
    let b = used-lt f c u in
    let n = uses es f s - 1 in
    let e : uses es f s ≡ suc n = omega (arith, u) in
    let r : (file f s).ref ≡ pos (suc n) = c.counts f b ∙ ap pos e in
    subst (Returns (Dupped es f s)) (sym (filedup-raised s f n r)) (
      Counted-change (f ∷ es) f (λ x. record x { ref = int_inc x.ref }) c b
          (ap int_inc (c.counts f b)
            ∙ int_inc_pos (uses es f s) (omega (arith, l, uses-le f c))
            ∙ ap pos (omega (arith, times_cons f es)))
          (times_other f es),
      refl,
      length-modify s.ftable f (λ x. record x { ref = int_inc x.ref }),
    )

-- `fileclose` takes one reference back; with the last one goes what the file stands for.
abbrev pub Closed : List ℕ → ℕ → Files → Files × Released → Type 0
Closed es f s (s', r) =
    Counted es s'
    × (s'.ofile ≡ s.ofile)
    × (length s'.ftable ≡ length s.ftable)
    × (r ≡ (if uses es f s == 0 then release_of (file f s) else nothing))

fileclose-last :
    (s : Files) (f : ℕ)
    → (file f s).ref ≡ pos 1
    → fileclose f s ≡ done (freed f s, release_of (file f s))
unfolding fileclose freed
fileclose-last s f e = ground (arith, e)

fileclose-more :
    (s : Files) (f n : ℕ)
    → (file f s).ref ≡ pos (suc (suc n))
    → fileclose f s ≡ done (lowered f s, nothing)
unfolding fileclose lowered
fileclose-more s f n e = ground (arith, e)

pub fileclose-Closed :
    {es : List ℕ} {s : Files} (f : ℕ) → Counted (f ∷ es) s → Returns (Closed es f s) (fileclose f s)
unfolding freed lowered
fileclose-Closed {es} {s} f c = by_uses (uses es f s) refl
  where
    b : f < length s.ftable
    b = used-lt f c (omega (arith, times_cons f es))

    others : (g : ℕ) → f ≢ g → times g es ≡ times g (f ∷ es)
    others g n = sym (times_other f es g n)

    ref : (n : ℕ) → uses es f s ≡ n → (file f s).ref ≡ pos (suc n)
    ref n e = c.counts f b ∙ ap pos (omega (arith, e, times_cons f es))

    by_uses : (n : ℕ) → uses es f s ≡ n → Returns (Closed es f s) (fileclose f s)
    by_uses zero e = subst (Returns (Closed es f s)) (sym (fileclose-last s f (ref 0 e))) (
      Counted-change es f (λ x. record x { ref = pos 0; kind = fd_none }) c b (ap pos (sym e))
          others,
      refl,
      length-modify s.ftable f (λ x. record x { ref = pos 0; kind = fd_none }),
      rw e refl,
    )
    by_uses (suc n) e =
        subst (Returns (Closed es f s)) (sym (fileclose-more s f n (ref (suc n) e))) (
          Counted-change es f (λ x. record x { ref = int_dec x.ref }) c b
              (ap int_dec (ref (suc n) e) ∙ ap pos (sym e)) others,
          refl,
          length-modify s.ftable f (λ x. record x { ref = int_dec x.ref }),
          rw e (ground arith),
        )
