-- ===== src/Pipe/Read.antt =====
-- Reading takes from the front of the queue.
use aut_whuoslab.Prelude.{
  ℕ, zero, suc, ◌+◌, ◌%◌, ◌<◌, ◌≡◌, refl, sym, ap, ap₂, ◌∙◌, subst, ◌⊎◌, inl, inr, Bool, true,
  false, ◌&&◌, List, [], ◌∷◌, ◌++◌, arith, ℤ, pos, minus_one, get_or, ◌==◌, if◌then◌else◌,
}
use aut_whuoslab.Pipe.{Pipe, World, pipe_size, next, is_empty, drain, piperead}
use aut_whuoslab.Pipe.Contents.{elems, count, contents, IsPipe, elems-mod, empty_lem}

-- The pipe without its oldest byte.
abbrev pub pop : Pipe → Pipe
pop p = record p { nread = next p.nread }

module _ (p : Pipe) (v : IsPipe p) (n : ℕ) (some_left : count p ≡ suc n) where
  pop-count : count (pop p) ≡ n
  pop-count = omega (arith, v.read_word, v.write_word)

  pop-IsPipe : IsPipe (pop p)
  pop-IsPipe = record {
    slots = v.slots;
    read_word = omega arith;
    write_word = v.write_word;
    fits = omega (arith, pop-count, v.fits);
  }

  pop-contents : contents p ≡ get_or p.bytes (p.nread % pipe_size) 0 ∷ contents (pop p)
  pop-contents =
      ap (λ c. elems c p.nread p.bytes) some_left
      ∙ ap (λ xs. get_or p.bytes (p.nread % pipe_size) 0 ∷ xs)
          (elems-mod n (p.nread + 1) (next p.nread) p.bytes (omega arith)
            ∙ ap (λ c. elems c (next p.nread) p.bytes) (sym pop-count))

-- What the user's buffer gets from the bytes `xs` of a queue, of which at most `rounds` are read from
-- place `i` on: those before the first place that cannot be written.
abbrev pub taken : ℕ → ℕ → (ℕ → Bool) → List ℕ → List ℕ
taken zero i dst xs = []
taken (suc rounds) i dst [] = []
taken (suc rounds) i dst (x ∷ xs) = if dst i then x ∷ taken rounds (suc i) dst xs else []

-- The copy loop delivers these bytes and leaves the rest of the queue.
abbrev pub Drained : List ℕ → Pipe → Pipe × List ℕ × ℤ → Type 0
Drained chs p (p', out, r) = IsPipe p' × (out ≡ chs) × (contents p ≡ out ++ contents p')

-- One round of the loop by its two tests.
round : ℕ → ℕ → (ℕ → Bool) → Pipe → Bool → Bool → Pipe × List ℕ × ℤ
round rounds i dst p empty writable =
    if◌then◌else◌ {A = Pipe × List ℕ × ℤ} empty (p, [], pos i)
      (if◌then◌else◌ {A = Pipe × List ℕ × ℤ} writable
        (let (p', chs, r) = drain rounds (suc i) dst (pop p) in
          (p', get_or p.bytes (p.nread % pipe_size) 0 ∷ chs, r))
        (p, [], if i == 0 then minus_one else pos i))

Drained-none : (p : Pipe) (r : ℤ) → IsPipe p → Drained [] p (p, [], r)
Drained-none p r v = (v, refl, refl)

pub drain-Drained :
    (rounds left i : ℕ) (dst : ℕ → Bool) (p : Pipe)
    → IsPipe p
    → count p ≡ left
    → Drained (taken rounds i dst (contents p)) p (drain rounds i dst p)
unfolding drain round
drain-Drained zero left i dst p v h = Drained-none p (pos i) v
drain-Drained (suc rounds) zero i dst p v h =
    subst (λ xs. Drained (taken (suc rounds) i dst xs) p (drain (suc rounds) i dst p))
      (sym none_left)
      (subst (Drained [] p) (sym (ap (λ b. round rounds i dst p b (dst i)) is))
        (Drained-none p (pos i) v))
  where
    none_left : contents p ≡ []
    none_left = ap (λ c. elems c p.nread p.bytes) h

    is : is_empty p ≡ true
    is = empty_lem p v ∙ ground arith
drain-Drained (suc rounds) (suc left) i dst p v h =
    subst (λ xs. Drained (taken (suc rounds) i dst xs) p (drain (suc rounds) i dst p))
      (sym (pop-contents p v left h))
      (by_dst
        (drain-Drained rounds left (suc i) dst (pop p) (pop-IsPipe p v left h)
          (pop-count p v left h))
        (dst i) refl)
  where
    isnt : is_empty p ≡ false
    isnt = empty_lem p v ∙ ground arith

    x : ℕ
    x = get_or p.bytes (p.nread % pipe_size) 0

    by_dst :
        Drained
          (taken rounds (suc i) dst (contents (pop p)))
          (pop p)
          (drain rounds (suc i) dst (pop p))
        → (b : Bool) → dst i ≡ b
        → Drained (taken (suc rounds) i dst (x ∷ contents (pop p))) p (drain (suc rounds) i dst p)
    by_dst (v', e, c) b d =
        subst (Drained (taken (suc rounds) i dst (x ∷ contents (pop p))) p)
          (sym (ap₂ (round rounds i dst p) isnt d))
          (subst
            (λ a.
              Drained (if a then x ∷ taken rounds (suc i) dst (contents (pop p)) else []) p
                (round rounds i dst p false b))
            (sym d) (by_write (v', e, c) b))
      where
        by_write :
            Drained
              (taken rounds (suc i) dst (contents (pop p)))
              (pop p)
              (drain rounds (suc i) dst (pop p))
            → (b : Bool)
            → Drained
                (if b then x ∷ taken rounds (suc i) dst (contents (pop p)) else [])
                p
                (round rounds i dst p false b)
        by_write (v', e, c) true =
            (v', ap (λ l. x ∷ l) e, pop-contents p v left h ∙ ap (λ l. x ∷ l) c)
        by_write (v', e, c) false = Drained-none p (if i == 0 then minus_one else pos i) v

-- A call of `piperead` that does not sleep or find its process killed, since the pipe has bytes or its
-- writing end is closed, delivers the oldest bytes, at most `n` and those before the first place that cannot
-- be written, and leaves the rest of the queue.
pub piperead-Drained :
    (id n me : ℕ) (dst : ℕ → Bool) (w : World)
    → IsPipe w.pipe
    → ((0 < count w.pipe) ⊎ (w.pipe.writeopen ≡ false))
    → let (w', out, r) = piperead id (pos n) dst me w in
      IsPipe w'.pipe
      × (out ≡ taken n 0 dst (contents w.pipe))
      × (contents w.pipe ≡ out ++ contents w'.pipe)
unfolding piperead
piperead-Drained id n me dst w v h =
    rw (go_on h) (drain-Drained n (count w.pipe) 0 dst w.pipe v refl)
  where
    go_on :
        (0 < count w.pipe) ⊎ (w.pipe.writeopen ≡ false)
        → (is_empty w.pipe && w.pipe.writeopen) ≡ false
    go_on (inl lt) = let e = empty_lem w.pipe v in rw e (ground (arith, lt))
    go_on (inr c) = rw c (ground arith)
