-- ===== src/Console/RoundTrip.antt =====
-- A line that is typed and read.
use aut_whuoslab.Prelude.{
  ℕ, zero, suc, ◌+◌, ◌-◌, ◌<◌, ◌≡◌, refl, ap, ◌∙◌, ◌≢◌, Bool, true, false, List, [], ◌∷◌, ◌++◌,
  Option, All, arith, length, length-append, ◌==◌, pos,
}
use mathlib.Core.List.{append_assoc}
use aut_whuoslab.Proc.Types.{at}
use aut_whuoslab.Console.{
  input_buf_size, newline, carriage_return, delete, control_d, control_h, control_p, control_u,
  World, consoleintr, finished, returned, consoleread,
}
use aut_whuoslab.Console.Lines.{ready, Line, line, IsCons}
use aut_whuoslab.Console.Typed.{typed}
use aut_whuoslab.Console.Read.{reads}
use aut_whuoslab.Console.Calls.{consoleintr-typed, result_of, consoleread-reads}

-- A character with no special meaning.
pub record Plain (ch : ℕ) : Type 0 where
  pub null : ch ≢ 0
  pub end_of_file : ch ≢ control_d
  pub back : ch ≢ control_h
  pub new : ch ≢ newline
  pub return : ch ≢ carriage_return
  pub print : ch ≢ control_p
  pub kill : ch ≢ control_u
  pub del : ch ≢ delete

-- The interrupts for some characters, one after the other.
abbrev pub type_all : List ℕ → Option ℕ → World → World
type_all [] me w = w
type_all (ch ∷ chs) me w = type_all chs me (consoleintr ch me w).0

typed-Plain :
    (ch : ℕ) (l : Line)
    → Plain ch
    → length l.whole + suc (length l.open_line) < input_buf_size
    → typed ch l ≡ record { whole = l.whole; open_line = l.open_line ++ ch ∷ [] }
typed-Plain ch l p room =
    ground (arith, p.null, p.end_of_file, p.back, p.new, p.return, p.print, p.kill, p.del, room)

-- The interrupts leave what the characters, one after the other, make of the lines.
abbrev typed_all : List ℕ → Line → Line
typed_all [] l = l
typed_all (ch ∷ chs) l = typed_all chs (typed ch l)

type_all-typed_all :
    (chs : List ℕ) (me : Option ℕ) (w : World)
    → IsCons w.cons
    → IsCons (type_all chs me w).cons
      × (line (type_all chs me w).cons ≡ typed_all chs (line w.cons))
type_all-typed_all [] me w v = (v, refl)
type_all-typed_all (ch ∷ chs) me w v =
    let (a, b, c) = consoleintr-typed ch me w v in
    let (d, e) = type_all-typed_all chs me (consoleintr ch me w).0 a in
    (d, e ∙ ap (typed_all chs) b)

typed-newline :
    (o : List ℕ)
    → length o < input_buf_size
    → typed newline (record { whole = []; open_line = o })
      ≡ record { whole = o ++ newline ∷ []; open_line = [] }
typed-newline o room = ground (arith, room)

typed_all-Plain :
    (chs o : List ℕ)
    → All Plain chs
    → length o + length chs < input_buf_size
    → typed_all (chs ++ newline ∷ []) (record { whole = []; open_line = o })
      ≡ record { whole = o ++ (chs ++ newline ∷ []); open_line = [] }
typed_all-Plain [] o p room = typed-newline o (omega (arith, room))
typed_all-Plain (ch ∷ chs) o p room =
    ap (typed_all (chs ++ newline ∷ []))
      (typed-Plain ch (record { whole = []; open_line = o }) p.0 (omega (arith, room)))
    ∙ typed_all-Plain chs (o ++ ch ∷ []) p.1 (omega (arith, room, length-append o (ch ∷ [])))
    ∙ ap (λ (xs : List ℕ). record { whole = xs; open_line = [] })
        (append_assoc o (ch ∷ []) (chs ++ newline ∷ []))

-- A read takes a whole line.
reads_line :
    (chs : List ℕ) (n target i : ℕ) (dst : ℕ → Bool)
    → All Plain chs
    → ((j : ℕ) → dst j ≡ true)
    → length chs < n
    → reads n target i dst (chs ++ newline ∷ [])
      ≡ (chs ++ newline ∷ [], [], n - suc (length chs), finished)
unfolding reads
reads_line [] (suc n) target i dst p ok h = let z : suc n - 1 ≡ n = omega arith in rw (ok i, z) refl
reads_line (ch ∷ chs) (suc n) target i dst p ok h =
    let rest = reads_line chs n target (suc i) dst p.1 ok (omega (arith, h)) in
    let d : (ch == control_d) ≡ false = ground (arith, p.0.end_of_file) in
    let e : (ch == newline) ≡ false = ground (arith, p.0.new) in
    let z : suc n - suc (suc (length chs)) ≡ n - suc (length chs) = omega arith in
    rw (ok i, d, e, z) (λ j. let (out, left, k, stop) = rest j in (ch ∷ out, left, k, stop))
reads_line chs zero target i dst p ok h = absurd (omega (arith, h))

-- With no input in the console, fewer than 128 plain characters that are typed, with a newline behind them, come out
-- of the next `consoleread` that has room for them: it returns their number, the newline counted, and the
-- console has no input again.
pub consoleread-consoleintr :
    (chs : List ℕ) (n me : ℕ) (running : Option ℕ) (dst : ℕ → Bool) (w : World)
    → IsCons w.cons
    → line w.cons ≡ record { whole = []; open_line = [] }
    → All Plain chs
    → length chs < input_buf_size
    → ((j : ℕ) → dst j ≡ true)
    → length chs < n
    → let (w', out, r) = consoleread n n dst me (type_all (chs ++ newline ∷ []) running w) in
      (line w'.cons ≡ record { whole = []; open_line = [] })
      × (out ≡ chs ++ newline ∷ [])
      × (r ≡ returned (pos (suc (length chs))))
consoleread-consoleintr chs n me running dst w v empty p room ok h =
    let typed_in = type_all (chs ++ newline ∷ []) running w in
    let (v', e) = type_all-typed_all (chs ++ newline ∷ []) running w v in
    let l : line typed_in.cons ≡ record { whole = chs ++ newline ∷ []; open_line = [] } =
      e
      ∙ ap (typed_all (chs ++ newline ∷ [])) empty
      ∙ typed_all-Plain chs [] p (omega (arith, room)) in
    let spec : reads n n (n - n) dst (ready typed_in.cons)
        ≡ (chs ++ newline ∷ [], [], n - suc (length chs), finished) =
      ap (reads n n (n - n) dst) (ap Line.whole l) ∙ reads_line chs n n (n - n) dst p ok h in
    let (_, out, rest, same, r) = consoleread-reads n n me dst typed_in v' in
    let count : n - (n - suc (length chs)) ≡ suc (length chs) = omega (arith, h) in
    (
      (λ i. record {
        whole = (rest ∙ ap (λ s. s.1) spec) i;
        open_line = (same ∙ ap Line.open_line l) i;
      }),
      out ∙ ap (λ s. s.0) spec,
      r
          ∙ ap (λ s. result_of n s.2 (at typed_in.kern me).killed s.3) spec
          ∙ ap (λ k. returned (pos k)) count,
    )
