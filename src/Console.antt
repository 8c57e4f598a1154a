-- ===== src/Console.antt =====
-- kernel/console.c: the input of the console, a ring with three 32-bit counters: `r` to read, `w` behind the last
-- whole line, `e` behind the last byte typed. What goes to the UART comes out as a list of the
-- arguments of `consputc`.
pub mod Lines
pub mod Typed
pub mod Read
pub mod Calls
pub mod RoundTrip
mod Tests
use aut_whuoslab.Prelude.{
  ℕ, zero, suc, ◌+◌, ◌-◌, ◌%◌, ◌^◌, Bool, true, false, not, ◌&&◌, ◌||◌, List, [], ◌∷◌, Option, none,
  some, ℤ, pos, minus_one, get_or, set, ltb, ◌==◌, if◌then◌else◌,
}
use aut_whuoslab.Proc.Types.{Kernel, of_console, at}
use aut_whuoslab.Proc.Table.{wakeup}
use aut_whuoslab.Proc.Switch.{sleep_begin, sleep_end}

-- INPUT_BUF_SIZE
abbrev pub input_buf_size : ℕ
input_buf_size = 128

pub record Cons : Type 0 where
  pub buf : List ℕ
  pub r : ℕ
  pub w : ℕ
  pub e : ℕ

-- BACKSPACE, and the characters that the code names.
abbrev pub backspace : ℕ
backspace = 256

abbrev pub newline : ℕ
newline = 10

abbrev pub carriage_return : ℕ
carriage_return = 13

abbrev pub delete : ℕ
delete = 127

-- C(x): C('D'), C('H'), C('P'), C('U').
abbrev pub control_d : ℕ
control_d = 4

abbrev pub control_h : ℕ
control_h = 8

abbrev pub control_p : ℕ
control_p = 16

abbrev pub control_u : ℕ
control_u = 21

abbrev pub inc : ℕ → ℕ
inc n = (n + 1) % 2 ^ 32

abbrev pub dec : ℕ → ℕ
dec n = (n + 2 ^ 32 - 1) % 2 ^ 32

-- `a - b` of two counters.
abbrev pub minus : ℕ → ℕ → ℕ
minus a b = (a + 2 ^ 32 - b) % 2 ^ 32

-- `c` with what is echoed, and whether a reader is woken.
abbrev pub store_byte : ℕ → Cons → Cons × List ℕ × Bool
store_byte ch c =
    let stored = record c { buf = set c.buf (c.e % input_buf_size) ch; e = inc c.e } in
    let whole =
      (ch == newline) || ((ch == control_d) || (minus stored.e stored.r == input_buf_size)) in
    if whole then (record stored { w = stored.e }, ch ∷ [], true) else (stored, ch ∷ [], false)

abbrev pub erase_byte : Cons → Cons × List ℕ × Bool
erase_byte c =
    if c.e == c.w then (c, [], false) else (record c { e = dec c.e }, backspace ∷ [], false)

-- The loop of C('U'), with fuel: it runs at most `e - w` times.
pub kill_line : ℕ → Cons → Cons × List ℕ × Bool
kill_line zero c = (c, [], false)
kill_line (suc n) c =
    let (c', out, woken) = kill_line n (record c { e = dec c.e }) in
    if not (c.e == c.w) && not (get_or c.buf (dec c.e % input_buf_size) 0 == newline)
    then (c', backspace ∷ out, woken)
    else (c, [], false)

-- The byte that is stored for a character.
abbrev pub as_typed : ℕ → ℕ
as_typed ch = if ch == carriage_return then newline else ch

-- `consoleintr` on the input; C('P') only prints.
pub input : ℕ → Cons → Cons × List ℕ × Bool
unfolding kill_line
input ch c =
    if ch == control_p
    then (c, [], false)
    else if ch == control_u
    then kill_line (minus c.e c.w) c
    else if (ch == control_h) || (ch == delete)
    then erase_byte c
    else if not (ch == 0) && ltb (minus c.e c.r) input_buf_size
    then store_byte (as_typed ch) c
    else (c, [], false)

pub record World : Type 0 where
  pub kern : Kernel
  pub cons : Cons

-- The interrupt while process `me` runs.
pub consoleintr : ℕ → Option ℕ → World → World × List ℕ
unfolding input
consoleintr ch me w =
    let (c, out, woken) = input ch w.cons in
    (record { kern = if woken then wakeup of_console me w.kern else w.kern; cons = c }, out)

-- How the loop of `consoleread` ends: with a result, or asleep with `n` bytes to go.
pub data Stop : Type 0 where
  finished asleep : Stop

-- The loop with `n` bytes to go of `target`, and `i` done: the input, the bytes for the user, the bytes to go.
pub read_loop : ℕ → ℕ → ℕ → (ℕ → Bool) → Cons → Cons × List ℕ × ℕ × Stop
read_loop zero target i dst c = (c, [], zero, finished)
read_loop (suc n) target i dst c =
    let ch = get_or c.buf (c.r % input_buf_size) 0 in
    let next = record c { r = inc c.r } in
    let (c', out, left, stop) = read_loop n target (suc i) dst next in
    if c.r == c.w
    then (c, [], suc n, asleep)
    else if ch == control_d
    then (if ltb (suc n) target then c else next, [], suc n, finished)
    else if not (dst i)
    then (next, [], suc n, finished)
    else if ch == newline
    then (next, ch ∷ [], n, finished)
    else (c', ch ∷ out, left, stop)

-- `consoleread` returns, or sleeps with some bytes to go.
pub data Result : Type 0 where
  returned : ℤ → Result
  slept : ℕ → Result

abbrev pub read_end : ℕ → ℕ → Kernel → Cons × List ℕ × ℕ × Stop → World × List ℕ × Result
read_end target me k (c, out, left, finished) =
    (record { kern = k; cons = c }, out, returned (pos (target - left)))
read_end target me k (c, out, left, asleep) =
    if (at k me).killed
    then (record { kern = k; cons = c }, out, returned minus_one)
    else (record { kern = sleep_begin of_console me k; cons = c }, out, slept left)

-- From the loop's test on, with `n` bytes to go of `target`.
pub consoleread : ℕ → ℕ → (ℕ → Bool) → ℕ → World → World × List ℕ × Result
unfolding read_loop
consoleread n target dst me w =
    read_end target me w.kern (read_loop n target (target - n) dst w.cons)

pub consoleread_resume : ℕ → ℕ → (ℕ → Bool) → ℕ → World → World × List ℕ × Result
unfolding consoleread
consoleread_resume n target dst me w =
    consoleread n target dst me (record w { kern = sleep_end me w.kern })
