-- ===== src/Console/Tests.antt =====
-- An input whose counters are about to wrap around, with one whole line and one byte of the next.
use aut_whuoslab.Prelude.{
  ℕ, ◌-◌, ◌≡◌, refl, Bool, true, [], ◌∷◌, none, arith, length, ltb, if◌then◌else◌, pos, replicate,
  set,
}
use aut_whuoslab.Proc.Types.{Kernel, zeroed, running, round_robin, of_console, at}
use aut_whuoslab.Proc.Table.{wakeup}
use aut_whuoslab.Console.{
  Cons, World, newline, returned, consoleintr, consoleread, consoleread_resume, input, kill_line,
  read_loop,
}
use aut_whuoslab.Console.Lines.{ready, edit, line, IsCons}
use aut_whuoslab.Console.Typed.{typed}
use aut_whuoslab.Console.Read.{reads}
use aut_whuoslab.Console.Calls.{consoleintr-typed, result_of, consoleread-reads}
use aut_whuoslab.Console.RoundTrip.{Plain, type_all, consoleread-consoleintr}

abbrev kernel : Kernel
kernel = record {
  procs = record zeroed { state = running } ∷ [];
  queues = [];
  current_level = 0;
  time_slices = [];
  selector = round_robin;
  nextpid = pos 1;
  initproc = 0;
  ticks = 0;
}

abbrev one_line : Cons
one_line = record {
  buf = set (set (set (replicate 128 0) 126 97) 127 10) 0 98;
  r = 4294967294;
  w = 0;
  e = 1;
}

abbrev world : World
world = record { kern = kernel; cons = one_line }

one_line-IsCons : IsCons one_line
one_line-IsCons = record {
  slots = refl;
  read_word = omega arith;
  write_word = omega arith;
  edit_word = omega arith;
  fits = omega arith;
  unfinished = omega arith;
}

consoleintr-typed_example :
    let w' = (consoleintr 13 none world).0 in
    IsCons w'.cons
    × (line w'.cons ≡ typed 13 (line one_line))
    × (w'.kern ≡ (
        if ltb (length (ready one_line)) (length (ready w'.cons))
        then wakeup of_console none kernel
        else kernel))
consoleintr-typed_example = consoleintr-typed 13 none world one_line-IsCons

abbrev user_ok : ℕ → Bool
user_ok i = true

consoleread-reads_example :
    let (w', out, r) = consoleread 5 5 user_ok 0 world in
    let (bytes, rest, left, stop) = reads 5 5 (5 - 5) user_ok (ready one_line) in
    IsCons w'.cons
    × (out ≡ bytes)
    × (ready w'.cons ≡ rest)
    × (edit w'.cons ≡ edit one_line)
    × (r ≡ result_of 5 left (at kernel 0).killed stop)
consoleread-reads_example = consoleread-reads 5 5 0 user_ok world one_line-IsCons

abbrev no_input : World
no_input = record {
  kern = kernel;
  cons = record { buf = replicate 128 0; r = 4294967294; w = 4294967294; e = 4294967294 };
}

no_input-IsCons : IsCons no_input.cons
no_input-IsCons = record {
  slots = refl;
  read_word = omega arith;
  write_word = omega arith;
  edit_word = omega arith;
  fits = omega arith;
  unfinished = tt;
}

h-Plain : Plain 104
h-Plain = record {
  null = omega arith;
  end_of_file = omega arith;
  back = omega arith;
  new = omega arith;
  return = omega arith;
  print = omega arith;
  kill = omega arith;
  del = omega arith;
}

i-Plain : Plain 105
i-Plain = record {
  null = omega arith;
  end_of_file = omega arith;
  back = omega arith;
  new = omega arith;
  return = omega arith;
  print = omega arith;
  kill = omega arith;
  del = omega arith;
}

consoleread-consoleintr_example :
    let (w', out, r) =
      consoleread 9 9 user_ok 0 (type_all (104 ∷ 105 ∷ newline ∷ []) none no_input) in
    (line w'.cons ≡ record { whole = []; open_line = [] })
    × (out ≡ 104 ∷ 105 ∷ newline ∷ [])
    × (r ≡ returned (pos 3))
consoleread-consoleintr_example =
    consoleread-consoleintr (104 ∷ 105 ∷ []) 9 0 none user_ok no_input no_input-IsCons refl
      (h-Plain, (i-Plain, tt)) (omega arith) (λ j. refl) (omega arith)

-- A line that C('U') kills.
kills : edit (consoleintr 21 none world).0.cons ≡ []
unfolding consoleintr input kill_line
kills = refl

-- A reader that was asleep.
wakes_up : (consoleread_resume 5 5 user_ok 0 world).1 ≡ 97 ∷ 10 ∷ []
unfolding consoleread_resume consoleread read_loop
wakes_up = refl
