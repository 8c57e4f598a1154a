-- ===== src/Console/Typed.antt =====
-- What a typed character does to the lines.
use aut_whuoslab.Prelude.{
  ℕ, zero, suc, ◌+◌, ◌%◌, ◌≤◌, ◌<◌, ◌≡◌, refl, sym, ap, ap₂, ◌∙◌, subst, ◌≢◌, ◌⊎◌, inl, inr, Bool,
  true, false, not, ◌&&◌, ◌||◌, List, [], ◌∷◌, ◌++◌, arith, length, get_or, set, length-set,
  length-append, get_or-set_self, ltb, ◌==◌, if◌then◌else◌, Bool-cases,
}
use aut_whuoslab.Ring
use aut_whuoslab.Console.{
  input_buf_size, Cons, newline, delete, control_d, control_h, control_p, control_u, inc, dec,
  minus, store_byte, erase_byte, kill_line, as_typed, input,
}
use aut_whuoslab.Console.Lines.{
  in_buf, elems, ready, edit, Line, line, IsCons, Unfinished, length-elems, total_lem, elems-append,
  init, init-snoc, Unfinished-snoc, shorter, edit-shorter, shorter-IsCons, last-ne,
}

-- A byte goes to the open line, which becomes whole by a newline, by C('D'), or when the buffer is full.
abbrev pub commit : ℕ → Line → Line
commit ch l =
    if (ch == newline)
      || ((ch == control_d) || (length l.whole + suc (length l.open_line) == input_buf_size))
    then record { whole = l.whole ++ (l.open_line ++ ch ∷ []); open_line = [] }
    else record { whole = l.whole; open_line = l.open_line ++ ch ∷ [] }

abbrev pub typed : ℕ → Line → Line
typed ch l =
    if ch == control_p
    then l
    else if ch == control_u
    then record l { open_line = [] }
    else if (ch == control_h) || (ch == delete)
    then record l { open_line = init l.open_line }
    else if not (ch == 0) && ltb (length l.whole + length l.open_line) input_buf_size
    then commit (as_typed ch) l
    else l

-- The new input is well-formed and shows as this line, and a reader is woken when there are more than `n` bytes for it.
pub record Becomes (n : ℕ) (l : Line) (x : Cons × List ℕ × Bool) : Type 0 where
  pub valid : IsCons x.0
  pub shows : line x.0 ≡ l
  pub wakes : x.2 ≡ ltb n (length l.whole)

none_more : (n : ℕ) → false ≡ ltb n n
none_more n = ground arith

module _ (c : Cons) (v : IsCons c) where
  erase_byte-Becomes :
      Becomes
        (length (ready c))
        (record { whole = ready c; open_line = init (edit c) })
        (erase_byte c)
  erase_byte-Becomes = by_count (minus c.e c.w) refl
    where
      by_count :
          (n : ℕ)
          → minus c.e c.w ≡ n
          → Becomes
              (length (ready c))
              (record { whole = ready c; open_line = init (edit c) })
              (erase_byte c)
      by_count zero z =
          let e : (c.e == c.w) ≡ true = ground (arith, z, v.edit_word, v.write_word) in
          let none_left : edit c ≡ [] = ap (λ n. elems n c.w c.buf) z in
          rw e (record {
            valid = v;
            shows =
                ap (λ (xs : List ℕ). record { whole = ready c; open_line = xs })
                  (none_left ∙ ap init (sym none_left));
            wakes = none_more (length (ready c));
          })
      by_count (suc n) z =
          let e : (c.e == c.w) ≡ false = ground (arith, z, v.edit_word, v.write_word) in
          rw e (record {
            valid = shorter-IsCons c v n z;
            shows =
                ap (λ (xs : List ℕ). record { whole = ready c; open_line = xs })
                  (sym (ap init (edit-shorter c v n z) ∙ init-snoc _ _));
            wakes = none_more (length (ready c));
          })

pub kill_line-Becomes :
    (n : ℕ) (c : Cons)
    → IsCons c
    → minus c.e c.w ≡ n
    → Becomes (length (ready c)) (record { whole = ready c; open_line = [] }) (kill_line n c)
unfolding kill_line
kill_line-Becomes zero c v z = record {
  valid = v;
  shows =
      ap (λ (xs : List ℕ). record { whole = ready c; open_line = xs })
        (ap (λ n. elems n c.w c.buf) z);
  wakes = none_more (length (ready c));
}
kill_line-Becomes (suc n) c v z =
    let e : (c.e == c.w) ≡ false = ground (arith, z, v.edit_word, v.write_word) in
    let l : (get_or c.buf (dec c.e % input_buf_size) 0 == newline) ≡ false =
      ground (arith, last-ne c v n z) in
    let count : minus (dec c.e) c.w ≡ n = omega (arith, z, v.edit_word, v.write_word) in
    let rest = kill_line-Becomes n (shorter c v n z) (shorter-IsCons c v n z) count in
    rw (e, l) (record { valid = rest.valid; shows = rest.shows; wakes = rest.wakes })

abbrev stored : ℕ → Cons → Cons
stored ch c = record c { buf = set c.buf (c.e % input_buf_size) ch; e = inc c.e }

module _ (c : Cons) (v : IsCons c) (ch : ℕ) (room : minus c.e c.r < input_buf_size) where
  stored-ready : ready (stored ch c) ≡ ready c
  stored-ready =
      Ring.elems-set in_buf (minus c.w c.r) c.r (c.e % input_buf_size) ch c.buf
        (λ i l. omega (arith, l, room, total_lem c v, v.read_word, v.write_word, v.edit_word))

  stored-count : minus (inc c.e) c.w ≡ suc (minus c.e c.w)
  stored-count = omega (arith, room, total_lem c v, v.read_word, v.write_word, v.edit_word)

  stored-edit : edit (stored ch c) ≡ edit c ++ ch ∷ []
  stored-edit =
      ap (λ n. elems n c.w (set c.buf (c.e % input_buf_size) ch)) stored-count
      ∙ Ring.elems-snoc in_buf (minus c.e c.w) c.w (set c.buf (c.e % input_buf_size) ch)
      ∙ ap₂ (λ xs x. xs ++ x ∷ [])
          (Ring.elems-set in_buf (minus c.e c.w) c.w (c.e % input_buf_size) ch c.buf
            (λ i l. omega (arith, l, room, total_lem c v, v.read_word, v.write_word, v.edit_word)))
          (ap (λ j. get_or (set c.buf (c.e % input_buf_size) ch) j 0)
              (omega (arith, v.write_word, v.edit_word))
            ∙ get_or-set_self c.buf (c.e % input_buf_size) ch 0 (omega (arith, v.slots)))

  stored_fits : minus c.w c.r + minus (inc c.e) c.w ≤ input_buf_size
  stored_fits = omega (arith, stored-count, room, total_lem c v)

  stored-total : minus (inc c.e) c.r ≡ length (ready c) + suc (length (edit c))
  stored-total = omega (
    arith,
    room,
    total_lem c v,
    v.read_word,
    v.write_word,
    v.edit_word,
    length-elems (minus c.w c.r) c.r c.buf,
    length-elems (minus c.e c.w) c.w c.buf,
  )

  slots_lem : length (stored ch c).buf ≡ input_buf_size
  slots_lem = length-set c.buf (c.e % input_buf_size) ch ∙ v.slots

  -- The open line goes on.
  goes_on :
      ch ≢ newline
      → Becomes
          (length (ready c))
          (record { whole = ready c; open_line = edit c ++ ch ∷ [] })
          (stored ch c, ch ∷ [], false)
  goes_on ne = record {
    valid = record {
      slots = slots_lem;
      read_word = v.read_word;
      write_word = v.write_word;
      edit_word = omega arith;
      fits = stored_fits;
      unfinished = subst Unfinished (sym stored-edit) (Unfinished-snoc (edit c) ch v.unfinished ne);
    };
    shows = λ i. record { whole = stored-ready i; open_line = stored-edit i };
    wakes = none_more (length (ready c));
  }

  none_open : edit (record (stored ch c) { w = inc c.e }) ≡ []
  none_open =
      let z : minus (inc c.e) (inc c.e) ≡ 0 = omega arith in
      ap (λ n. elems n (inc c.e) (stored ch c).buf) z

  -- The open line is ended.
  ends :
      Becomes
        (length (ready c))
        (record { whole = ready c ++ (edit c ++ ch ∷ []); open_line = [] })
        (record (stored ch c) { w = inc c.e }, ch ∷ [], true)
  ends = record {
    valid = record {
      slots = slots_lem;
      read_word = v.read_word;
      write_word = omega arith;
      edit_word = omega arith;
      fits = omega (arith, stored_fits, v.read_word, v.write_word);
      unfinished = subst Unfinished (sym none_open) tt;
    };
    shows = λ i. record { whole = all i; open_line = none_open i };
    wakes = some_more;
  }
    where
      some_more : true ≡ ltb (length (ready c)) (length (ready c ++ (edit c ++ ch ∷ [])))
      some_more =
          let a = length-append (ready c) (edit c ++ ch ∷ []) in
          let b = length-append (edit c) (ch ∷ []) in ground (arith, a, b)

      all : ready (record (stored ch c) { w = inc c.e }) ≡ ready c ++ (edit c ++ ch ∷ [])
      all =
          elems-append (stored ch c) v.read_word v.write_word (omega arith) stored_fits
          ∙ ap₂ (λ xs ys. xs ++ ys) stored-ready stored-edit

  store_byte-Becomes : Becomes (length (ready c)) (commit ch (line c)) (store_byte ch c)
  store_byte-Becomes = by_flag (Bool-cases (ends_at (length (ready c) + suc (length (edit c)))))
    where
      ends_at : ℕ → Bool
      ends_at n = (ch == newline) || ((ch == control_d) || (n == input_buf_size))

      by_flag :
          (ends_at (length (ready c) + suc (length (edit c))) ≡ true)
            ⊎ (ends_at (length (ready c) + suc (length (edit c))) ≡ false)
          → Becomes (length (ready c)) (commit ch (line c)) (store_byte ch c)
      by_flag (inl e) = rw (e, ap ends_at stored-total ∙ e) ends
      by_flag (inr e) =
          rw (e, ap ends_at stored-total ∙ e)
            (goes_on
              (λ q. let z : (ch == newline) ≡ true = ground (arith, q) in ground (arith, e, z)))

branch :
    (b : Bool) {n : ℕ} {l l' : Line} {x x' : Cons × List ℕ × Bool}
    → (b ≡ true → Becomes n l x)
    → (b ≡ false → Becomes n l' x')
    → Becomes n (if b then l else l') (if b then x else x')
branch true p q = p refl
branch false p q = q refl

pub input-Becomes :
    (ch : ℕ) (c : Cons) → IsCons c → Becomes (length (ready c)) (typed ch (line c)) (input ch c)
unfolding input
input-Becomes ch c v =
    branch (ch == control_p)
      (λ e. record { valid = v; shows = refl; wakes = none_more (length (ready c)) })
      (λ e.
        branch (ch == control_u) (λ e1. kill_line-Becomes (minus c.e c.w) c v refl)
          (λ e1.
            branch ((ch == control_h) || (ch == delete)) (λ e2. erase_byte-Becomes c v)
              (λ e2. by_room)))
  where
    by_room :
        Becomes
          (length (ready c))
          (if not (ch == 0) && ltb (length (ready c) + length (edit c)) input_buf_size
            then commit (as_typed ch) (line c)
            else line c)
          (if not (ch == 0) && ltb (minus c.e c.r) input_buf_size
            then store_byte (as_typed ch) c
            else (c, [], false))
    by_room =
        let count : minus c.e c.r ≡ length (ready c) + length (edit c) = omega (
          arith,
          total_lem c v,
          length-elems (minus c.w c.r) c.r c.buf,
          length-elems (minus c.e c.w) c.w c.buf,
        ) in
        subst
          (λ n.
            Becomes (length (ready c))
              (if not (ch == 0) && ltb n input_buf_size
                then commit (as_typed ch) (line c)
                else line c)
              (if not (ch == 0) && ltb (minus c.e c.r) input_buf_size
                then store_byte (as_typed ch) c
                else (c, [], false)))
          count
          (branch (not (ch == 0) && ltb (minus c.e c.r) input_buf_size)
            (λ e. store_byte-Becomes c v (as_typed ch) (ground (arith, e)))
            (λ e. record { valid = v; shows = refl; wakes = none_more (length (ready c)) }))
