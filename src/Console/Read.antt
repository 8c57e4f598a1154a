-- ===== src/Console/Read.antt =====
-- `consoleread` takes whole lines from the front.
use aut_whuoslab.Prelude.{
  ℕ, zero, suc, ◌+◌, ◌%◌, ◌≡◌, refl, sym, ap, ◌∙◌, subst, Bool, true, false, not, List, [], ◌∷◌,
  arith, get_or, ltb, ◌==◌, if◌then◌else◌,
}
use aut_whuoslab.Ring
use aut_whuoslab.Console.{
  input_buf_size, Cons, Stop, finished, asleep, newline, control_d, inc, minus, read_loop,
}
use aut_whuoslab.Console.Lines.{in_buf, elems, ready, edit, IsCons}

-- What a reader gets of the bytes `xs`, of which it wants `n` of `target` more, from place `i` of its buffer on, what
-- stays, how many it still wants, and whether it has to wait. A line is not read past its newline; C('D') ends the read
-- and is kept for the next one, unless this one has nothing yet; a byte that cannot be delivered is lost.
unfoldable pub reads : ℕ → ℕ → ℕ → (ℕ → Bool) → List ℕ → List ℕ × List ℕ × ℕ × Stop
reads zero target i dst xs = ([], xs, zero, finished)
reads (suc n) target i dst [] = ([], [], suc n, asleep)
reads (suc n) target i dst (x ∷ xs) =
    let (out, left, k, stop) = reads n target (suc i) dst xs in
    if x == control_d
    then ([], (if ltb (suc n) target then x ∷ xs else xs), suc n, finished)
    else if not (dst i)
    then ([], xs, suc n, finished)
    else if x == newline
    then (x ∷ [], xs, n, finished)
    else (x ∷ out, left, k, stop)

-- The loop does to the input what `reads` does to the whole lines; the open line stays.
pub record Read (ls : List ℕ) (spec : List ℕ × List ℕ × ℕ × Stop) (x : Cons × List ℕ × ℕ × Stop)
    : Type 0 where
  pub valid : IsCons x.0
  pub out : x.1 ≡ spec.0
  pub rest : ready x.0 ≡ spec.1
  pub same : edit x.0 ≡ ls
  pub left : x.2 ≡ spec.2
  pub stop : x.3 ≡ spec.3

module _ (c : Cons) (v : IsCons c) (n : ℕ) (some_ready : minus c.w c.r ≡ suc n) where
  abbrev pub advance : Cons
  advance = record c { r = inc c.r }

  advance-count : minus c.w (inc c.r) ≡ n
  advance-count = omega (arith, some_ready, v.read_word, v.write_word)

  advance-IsCons : IsCons advance
  advance-IsCons = record {
    slots = v.slots;
    read_word = omega arith;
    write_word = v.write_word;
    edit_word = v.edit_word;
    fits = omega (arith, advance-count, some_ready, v.fits);
    unfinished = v.unfinished;
  }

  ready-advance : ready c ≡ get_or c.buf (c.r % input_buf_size) 0 ∷ ready advance
  ready-advance =
      ap (λ k. elems k c.r c.buf) some_ready
      ∙ ap (λ xs. get_or c.buf (c.r % input_buf_size) 0 ∷ xs)
          (Ring.elems-mod in_buf (λ r s e. omega (arith, e)) n (c.r + 1) (inc c.r) c.buf
              (omega arith)
            ∙ ap (λ k. elems k (inc c.r) c.buf) (sym advance-count))

branch :
    (b : Bool) {ls : List ℕ} {s s' : List ℕ × List ℕ × ℕ × Stop} {x x' : Cons × List ℕ × ℕ × Stop}
    → Read ls s x
    → Read ls s' x'
    → Read ls (if b then s else s') (if b then x else x')
branch true p q = p
branch false p q = q

-- A round with a byte `x` before the bytes `ready next`.
module _ (c next : Cons) (n target i : ℕ) (dst : ℕ → Bool) (x : ℕ)
    (split : ready c ≡ x ∷ ready next) (v : IsCons c) (vn : IsCons next)
    (same : edit next ≡ edit c) where
  kept :
      (b : Bool)
      → Read
          (edit c)
          ([], (if b then x ∷ ready next else ready next), suc n, finished)
          ((if b then c else next), [], suc n, finished)
  kept true = record { valid = v; out = refl; rest = split; same = refl; left = refl; stop = refl }
  kept false = record { valid = vn; out = refl; rest = refl; same = same; left = refl; stop = refl }

  one :
      (out : List ℕ) (k : ℕ) → Read (edit c) (out, ready next, k, finished) (next, out, k, finished)
  one out k = record { valid = vn; out = refl; rest = refl; same = same; left = refl; stop = refl }

  more :
      {spec : List ℕ × List ℕ × ℕ × Stop} {r : Cons × List ℕ × ℕ × Stop}
      → Read (edit next) spec r
      → Read (edit c) (x ∷ spec.0, spec.1, spec.2, spec.3) (r.0, x ∷ r.1, r.2, r.3)
  more h = record {
    valid = h.valid;
    out = ap (λ xs. x ∷ xs) h.out;
    rest = h.rest;
    same = h.same ∙ same;
    left = h.left;
    stop = h.stop;
  }

pub read_loop-Read :
    (n target i : ℕ) (dst : ℕ → Bool) (c : Cons)
    → IsCons c
    → Read (edit c) (reads n target i dst (ready c)) (read_loop n target i dst c)
unfolding read_loop reads
read_loop-Read zero target i dst c v = record {
  valid = v;
  out = refl;
  rest = refl;
  same = refl;
  left = refl;
  stop = refl;
}
read_loop-Read (suc n) target i dst c v =
    by_count (minus c.w c.r) refl
      (λ (a : Cons) (va : IsCons a). read_loop-Read n target (suc i) dst a va)
  where
    x : ℕ
    x = get_or c.buf (c.r % input_buf_size) 0

    by_count :
        (m : ℕ)
        → minus c.w c.r ≡ m
        → ((a : Cons)
            → IsCons a
            → Read
                (edit a)
                (reads n target (suc i) dst (ready a))
                (read_loop n target (suc i) dst a))
        → Read (edit c) (reads (suc n) target i dst (ready c)) (read_loop (suc n) target i dst c)
    by_count zero z ih =
        let e : (c.r == c.w) ≡ true = ground (arith, z, v.read_word, v.write_word) in
        let none_ready : ready c ≡ [] = ap (λ k. elems k c.r c.buf) z in
        subst
          (λ xs. Read (edit c) (reads (suc n) target i dst xs) (read_loop (suc n) target i dst c))
          (sym none_ready)
          (rw e (record {
            valid = v;
            out = refl;
            rest = none_ready;
            same = refl;
            left = refl;
            stop = refl;
          }))
    by_count (suc m) z ih =
        let e : (c.r == c.w) ≡ false = ground (arith, z, v.read_word, v.write_word) in
        let next = advance c v m z in
        let vn = advance-IsCons c v m z in
        let split = ready-advance c v m z in
        subst
          (λ xs. Read (edit c) (reads (suc n) target i dst xs) (read_loop (suc n) target i dst c))
          (sym split)
          (rw e (
            branch (x == control_d)
              (kept c next n target i dst x split v vn refl (ltb (suc n) target))
              (branch (not (dst i)) (one c next n target i dst x split v vn refl [] (suc n)) (
                branch (x == newline) (one c next n target i dst x split v vn refl (x ∷ []) n)
                  (more c next n target i dst x split v vn refl (ih next vn))))))
