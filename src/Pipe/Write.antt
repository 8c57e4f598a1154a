-- ===== src/Pipe/Write.antt =====
-- Writing appends to the queue.
use aut_whuoslab.Prelude.{
  ℕ, zero, suc, ◌+◌, ◌-◌, ◌%◌, ◌<◌, ◌≡◌, refl, sym, ap, ap₂, ◌∙◌, subst, ◌≢◌, ◌⊎◌, inl, inr, Bool,
  true, false, not, ◌&&◌, ◌||◌, List, [], ◌∷◌, ◌++◌, arith, Option, none, some, pos, minus_one,
  length, length-set, get_or, set, get_or-set_self, ◌==◌, if◌then◌else◌,
}
use mathlib.Core.List.{append_assoc, append-nil}
use aut_whuoslab.Proc.Types.{at}
use aut_whuoslab.Pipe.{
  Pipe, World, Result, returned, slept, Stop, finished, full, pipe_size, is_full, put, fill,
  write_end, write_test, pipewrite,
}
use aut_whuoslab.Pipe.Contents.{elems, count, contents, IsPipe, elems-set, elems-snoc, full_lem}

module _ (p : Pipe) (v : IsPipe p) (room : count p < pipe_size) (ch : ℕ) where
  put-count : count (put ch p) ≡ suc (count p)
  put-count = omega (arith, v.read_word, v.write_word, room)

  put-place : (p.nread + count p) % pipe_size ≡ p.nwrite % pipe_size
  put-place = omega (arith, v.read_word, v.write_word)

  pub put-IsPipe : IsPipe (put ch p)
  put-IsPipe = record {
    slots = length-set p.bytes (p.nwrite % pipe_size) ch ∙ v.slots;
    read_word = v.read_word;
    write_word = omega arith;
    fits = omega (arith, put-count, room);
  }

  pub put-contents : contents (put ch p) ≡ contents p ++ ch ∷ []
  put-contents =
      ap (λ c. elems c p.nread new) put-count
      ∙ elems-snoc (count p) p.nread new
      ∙ ap₂ (λ xs x. xs ++ x ∷ []) before (ap (λ i. get_or new i 0) put-place ∙ here)
    where
      new : List ℕ
      new = set p.bytes (p.nwrite % pipe_size) ch

      here : get_or new (p.nwrite % pipe_size) 0 ≡ ch
      here = get_or-set_self p.bytes (p.nwrite % pipe_size) ch 0 (omega (arith, v.slots))

      before : elems (count p) p.nread new ≡ elems (count p) p.nread p.bytes
      before =
          let e : (p.nread + count p + 0) % pipe_size ≡ p.nwrite % pipe_size =
            omega (arith, put-place) in
          subst (λ k. elems (count p) p.nread (set p.bytes k ch) ≡ elems (count p) p.nread p.bytes)
            e (elems-set (count p) p.nread 0 ch p.bytes (omega (arith, room)))

-- What a call with `rounds` bytes to go and `i` done puts into a queue that has `room`: the bytes that
-- can be read, as far as there is room.
abbrev pub sent : ℕ → ℕ → ℕ → (ℕ → Option ℕ) → List ℕ
sent zero room i src = []
sent (suc rounds) zero i src = []
sent (suc rounds) (suc room) i src = elim (src i) [
  | none ↦ []
  | some ch ↦ ch ∷ sent rounds room (suc i) src
]

-- The loop leaves a pipe with the bytes `chs` at the end of the queue, and stops for want of room only in
-- a full pipe.
abbrev pub Filled : List ℕ → ℕ → Pipe → Pipe × ℕ × Stop → Type 0
Filled chs i p (p', j, stop) =
    IsPipe p'
    × (contents p' ≡ contents p ++ chs)
    × (j ≡ i + length chs)
    × ((stop ≡ finished) ⊎ ((stop ≡ full) × (count p' ≡ pipe_size)))

Filled-none :
    (i : ℕ) (p : Pipe) (stop : Stop)
    → IsPipe p
    → (stop ≡ finished) ⊎ ((stop ≡ full) × (count p ≡ pipe_size))
    → Filled [] i p (p, i, stop)
Filled-none i p stop v s = (v, sym (append-nil (contents p)), omega arith, s)

Filled-put :
    (chs : List ℕ) (i : ℕ) (p : Pipe) (ch : ℕ) (out : Pipe × ℕ × Stop)
    → contents (put ch p) ≡ contents p ++ ch ∷ []
    → Filled chs (suc i) (put ch p) out
    → Filled (ch ∷ chs) i p out
Filled-put chs i p ch out e (v, c, j, s) =
    (v, c ∙ ap (λ xs. xs ++ chs) e ∙ append_assoc (contents p) (ch ∷ []) chs, omega arith, s)

pub fill-Filled :
    (rounds room i : ℕ) (src : ℕ → Option ℕ) (p : Pipe)
    → IsPipe p
    → room + count p ≡ pipe_size
    → Filled (sent rounds room i src) i p (fill rounds i src p)
unfolding fill
fill-Filled zero room i src p v h = Filled-none i p finished v (inl refl)
fill-Filled (suc rounds) zero i src p v h =
    subst (Filled [] i p) (sym (ap step is)) (Filled-none i p full v (inr (refl, no_room)))
  where
    no_room : count p ≡ pipe_size
    no_room = omega (arith, h)

    is : is_full p ≡ true
    is = full_lem p v ∙ ground arith

    step : Bool → Pipe × ℕ × Stop
    step b =
        if◌then◌else◌ {A = Pipe × ℕ × Stop} b (p, i, full)
          (elim (src i) [ none ↦ (p, i, finished) | some ch ↦ fill rounds (suc i) src (put ch p) ])
fill-Filled (suc rounds) (suc room) i src p v h =
    by_byte
      (λ ch.
        fill-Filled rounds room (suc i) src (put ch p) (put-IsPipe p v (omega arith) ch)
          (omega (arith, put-count p v (omega arith) ch)))
      (src i) refl
  where
    isnt : is_full p ≡ false
    isnt = full_lem p v ∙ ground arith

    go : Option ℕ → Pipe × ℕ × Stop
    go o = elim o [ none ↦ (p, i, finished) | some ch ↦ fill rounds (suc i) src (put ch p) ]

    step : Bool → Pipe × ℕ × Stop
    step b = if◌then◌else◌ {A = Pipe × ℕ × Stop} b (p, i, full) (go (src i))

    bytes : Option ℕ → List ℕ
    bytes o = elim o [ none ↦ [] | some ch ↦ ch ∷ sent rounds room (suc i) src ]

    by_byte :
        ((ch : ℕ)
          → Filled
              (sent rounds room (suc i) src)
              (suc i)
              (put ch p)
              (fill rounds (suc i) src (put ch p)))
        → (o : Option ℕ) → src i ≡ o
        → Filled (bytes (src i)) i p (fill (suc rounds) i src p)
    by_byte rest none e =
        subst (λ out. Filled (bytes (src i)) i p out) (sym (ap step isnt ∙ ap go e))
          (subst (λ o. Filled (bytes o) i p (p, i, finished)) (sym e)
            (Filled-none i p finished v (inl refl)))
    by_byte rest (some ch) e =
        subst (λ out. Filled (bytes (src i)) i p out) (sym (ap step isnt ∙ ap go e))
          (subst (λ o. Filled (bytes o) i p (fill rounds (suc i) src (put ch p))) (sym e)
            (Filled-put (sent rounds room (suc i) src) i p ch _ (put-contents p v (omega arith) ch)
              (rest ch)))

-- What a call leaves that had `i` bytes done and put `chs` into the pipe: it returns their number with the
-- others, or sleeps with it in a full pipe.
abbrev pub Wrote : List ℕ → ℕ → Pipe → World × Result → Type 0
Wrote chs i p (w', r) =
    IsPipe w'.pipe
    × (contents w'.pipe ≡ contents p ++ chs)
    × ((r ≡ returned (pos (i + length chs)))
        ⊎ ((r ≡ slept (i + length chs)) × (count w'.pipe ≡ pipe_size)))

-- A call of `pipewrite` for `n` bytes by a process that is not killed, on a pipe with an open reading end,
-- appends to the queue the bytes that can be read from the user's buffer, as far as there is room. It
-- returns their number, or sleeps in a full pipe.
pub pipewrite-Wrote :
    (id n me : ℕ) (src : ℕ → Option ℕ) (w : World)
    → IsPipe w.pipe
    → w.pipe.readopen ≡ true
    → (at w.kern me).killed ≡ false
    → Wrote (sent n (pipe_size - count w.pipe) 0 src) 0 w.pipe (pipewrite id (pos n) src me w)
unfolding pipewrite write_test
pipewrite-Wrote id n me src w v readable alive =
    subst (Wrote (sent n room 0 src) 0 w.pipe) (sym (ap step go_on))
      (ended (fill n 0 src w.pipe) (fill-Filled n room 0 src w.pipe v (omega (arith, v.fits))))
  where
    room : ℕ
    room = pipe_size - count w.pipe

    go_on : (not (n == 0) && (not w.pipe.readopen || (at w.kern me).killed)) ≡ false
    go_on = rw (readable, alive) (ground arith)

    step : Bool → World × Result
    step b =
        if◌then◌else◌ {A = World × Result} b (w, returned minus_one)
          (write_end id me w.kern (fill n 0 src w.pipe))

    full_ne : full ≢ finished
    full_ne = ground arith

    ended :
        (out : Pipe × ℕ × Stop)
        → Filled (sent n room 0 src) 0 w.pipe out
        → Wrote (sent n room 0 src) 0 w.pipe (write_end id me w.kern out)
    ended (p', j, finished) (v', c, e, s) = (v', c, inl (ap (λ k. returned (pos k)) e))
    ended (p', j, full) (v', c, e, inl s) = absurd (full_ne s)
    ended (p', j, full) (v', c, e, inr s) = (v', c, inr (ap slept e, s.1))
