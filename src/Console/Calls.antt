-- ===== src/Console/Calls.antt =====
-- The interrupt and the read of the console, and a line that goes through both.
use aut_whuoslab.Prelude.{
  ℕ, ◌-◌, ◌≡◌, refl, sym, ap, ap₂, ◌∙◌, subst, Bool, true, false, List, Option, length, ltb,
  if◌then◌else◌, pos, minus_one,
}
use aut_whuoslab.Proc.Types.{Kernel, of_console, at}
use aut_whuoslab.Proc.Table.{wakeup}
use aut_whuoslab.Proc.Switch.{sleep_begin}
use aut_whuoslab.Console.{
  Cons, World, consoleintr, Stop, finished, asleep, Result, returned, slept, read_loop, read_end,
  consoleread,
}
use aut_whuoslab.Console.Lines.{ready, edit, Line, line, IsCons}
use aut_whuoslab.Console.Typed.{typed, input-Becomes}
use aut_whuoslab.Console.Read.{reads, read_loop-Read}

-- A character from the UART changes the lines of a well-formed input as `typed` says, and the input stays
-- well-formed: C('U') drops the open line, a backspace its last byte, and any other character but 0 and C('P') is
-- put behind it, unless the buffer is full. A newline, C('D') and the byte that fills the buffer end the line. The
-- readers are woken exactly when there are more bytes for them than before.
pub consoleintr-typed :
    (ch : ℕ) (me : Option ℕ) (w : World)
    → IsCons w.cons
    → let w' = (consoleintr ch me w).0 in
      IsCons w'.cons
      × (line w'.cons ≡ typed ch (line w.cons))
      × (w'.kern ≡ (
          if ltb (length (ready w.cons)) (length (ready w'.cons))
          then wakeup of_console me w.kern
          else w.kern))
unfolding consoleintr
consoleintr-typed ch me w v =
    let b = input-Becomes ch w.cons v in
    (
      b.valid,
      b.shows,
      ap (λ t. if t then wakeup of_console me w.kern else w.kern)
          (b.wakes ∙ ap (λ (l : Line). ltb (length (ready w.cons)) (length l.whole)) (sym b.shows)),
    )

-- The result of a read that has `left` bytes to go.
abbrev pub result_of : ℕ → ℕ → Bool → Stop → Result
result_of target left killed finished = returned (pos (target - left))
result_of target left killed asleep = if killed then returned minus_one else slept left

read_end-cons :
    (target me : ℕ) (k : Kernel) (x : Cons × List ℕ × ℕ × Stop)
    → let (w', out, r) = read_end target me k x in
      (w'.cons ≡ x.0) × (out ≡ x.1) × (r ≡ result_of target x.2 (at k me).killed x.3)
read_end-cons target me k (c, out, left, finished) = (refl, refl, refl)
read_end-cons target me k (c, out, left, asleep) = by_killed (at k me).killed
  where
    by_killed :
        (b : Bool)
        → let (w', o, r) =
            if◌then◌else◌ {A = World × List ℕ × Result} b
              (record { kern = k; cons = c }, out, returned minus_one)
              (record { kern = sleep_begin of_console me k; cons = c }, out, slept left) in
          (w'.cons ≡ c) × (o ≡ out) × (r ≡ (if b then returned minus_one else slept left))
    by_killed true = (refl, refl, refl)
    by_killed false = (refl, refl, refl)

-- `consoleread` with `n` bytes to go of `target` does to the whole lines what `reads` does, keeps the input
-- well-formed, and does not touch the line that is being typed. It returns the number of bytes that
-- it has delivered; with too few bytes for it, it sleeps with the rest to go, or returns -1 if it is killed.
pub consoleread-reads :
    (n target me : ℕ) (dst : ℕ → Bool) (w : World)
    → IsCons w.cons
    → let (w', out, r) = consoleread n target dst me w in
      let (bytes, rest, left, stop) = reads n target (target - n) dst (ready w.cons) in
      IsCons w'.cons
      × (out ≡ bytes)
      × (ready w'.cons ≡ rest)
      × (edit w'.cons ≡ edit w.cons)
      × (r ≡ result_of target left (at w.kern me).killed stop)
unfolding consoleread
consoleread-reads n target me dst w v =
    let x = read_loop n target (target - n) dst w.cons in
    let h = read_loop-Read n target (target - n) dst w.cons v in
    let e = read_end-cons target me w.kern x in
    (
      subst IsCons (sym e.0) h.valid,
      e.1 ∙ h.out,
      ap ready e.0 ∙ h.rest,
      ap edit e.0 ∙ h.same,
      e.2 ∙ ap₂ (λ l s. result_of target l (at w.kern me).killed s) h.left h.stop,
    )
