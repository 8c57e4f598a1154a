-- ===== src/Pipe.antt =====
-- kernel/pipe.c: the ring buffer of a pipe. A call runs from its entry, or from the point where it is
-- scheduled again, to its return or its next `sleep`; under the lock of the pipe that is one step. The
-- user's memory, which `copyin` and `copyout` reach byte by byte, is an argument: what byte stands at
-- place `i` of the buffer, if it can be read, and whether place `i` can be written.
pub mod Contents
pub mod Write
pub mod Read
mod Tests
use aut_whuoslab.Prelude.{
  ℕ, zero, suc, ◌+◌, ◌%◌, ◌^◌, Bool, true, false, not, ◌&&◌, ◌||◌, List, [], ◌∷◌, Option, none,
  some, ℤ, pos, negsuc, minus_one, get_or, set, ◌==◌, if◌then◌else◌,
}
use aut_whuoslab.Proc.Types.{Kernel, Chan, of_nread, of_nwrite, at}
use aut_whuoslab.Proc.Table.{wakeup}
use aut_whuoslab.Proc.Switch.{sleep_begin, sleep_end}

-- PIPESIZE
abbrev pub pipe_size : ℕ
pipe_size = 512

-- `struct pipe`; the counters are 32-bit words that wrap around.
pub record Pipe : Type 0 where
  pub bytes : List ℕ
  pub nread : ℕ
  pub nwrite : ℕ
  pub readopen : Bool
  pub writeopen : Bool

-- The pipe number `id`, and the process table.
pub record World : Type 0 where
  pub kern : Kernel
  pub pipe : Pipe

-- A call returns, or its process sleeps when `i` bytes are done.
pub data Result : Type 0 where
  returned : ℤ → Result
  slept : ℕ → Result

abbrev pub next : ℕ → ℕ
next n = (n + 1) % 2 ^ 32

abbrev pub is_full : Pipe → Bool
is_full p = p.nwrite == (p.nread + pipe_size) % 2 ^ 32

abbrev pub is_empty : Pipe → Bool
is_empty p = p.nread == p.nwrite

-- `pipealloc`, the part on the pipe itself: the page holds anything.
pub pipe_init : Pipe → Pipe
pipe_init p = record p { readopen = true; writeopen = true; nwrite = 0; nread = 0 }

-- The result says whether the page is given back.
pub pipeclose : ℕ → Bool → ℕ → World → World × Bool
pipeclose id writable me w =
    let p =
      if writable
      then record w.pipe { writeopen = false }
      else record w.pipe { readopen = false } in
    let c = if writable then of_nread id else of_nwrite id in
    (record w { kern = wakeup c (some me) w.kern; pipe = p }, not p.readopen && not p.writeopen)

abbrev pub put : ℕ → Pipe → Pipe
put ch p = record p { bytes = set p.bytes (p.nwrite % pipe_size) ch; nwrite = next p.nwrite }

-- The loop of `pipewrite` on the pipe while it can go on: the rounds left, the bytes done, the user's
-- buffer. It stops when the bytes are done, the buffer cannot be read, or the pipe is full.
pub data Stop : Type 0 where
  finished full : Stop

pub fill : ℕ → ℕ → (ℕ → Option ℕ) → Pipe → Pipe × ℕ × Stop
fill zero i src p = (p, i, finished)
fill (suc rounds) i src p =
    if is_full p
    then (p, i, full)
    else elim (src i) [ none ↦ (p, i, finished) | some ch ↦ fill rounds (suc i) src (put ch p) ]

-- The bytes that are left of the `n` that an int counts.
abbrev pub rounds_of : ℤ → ℕ
rounds_of (pos n) = n
rounds_of (negsuc n) = 0

abbrev pub write_end : ℕ → ℕ → Kernel → Pipe × ℕ × Stop → World × Result
write_end id me k (p, i, finished) =
    (record { kern = wakeup (of_nread id) (some me) k; pipe = p }, returned (pos i))
write_end id me k (p, i, full) = (
  record { kern = sleep_begin (of_nwrite id) me (wakeup (of_nread id) (some me) k); pipe = p },
  slept i,
)

-- `pipewrite` from its loop's test on, with `rounds` bytes to go and `i` done.
pub write_test : ℕ → ℕ → ℕ → (ℕ → Option ℕ) → ℕ → World → World × Result
unfolding fill
write_test id rounds i src me w =
    if not (rounds == 0) && (not w.pipe.readopen || (at w.kern me).killed)
    then (w, returned minus_one)
    else write_end id me w.kern (fill rounds i src w.pipe)

pub pipewrite : ℕ → ℤ → (ℕ → Option ℕ) → ℕ → World → World × Result
unfolding write_test
pipewrite id n src me w = write_test id (rounds_of n) 0 src me w

pub pipewrite_resume : ℕ → ℕ → ℕ → (ℕ → Option ℕ) → ℕ → World → World × Result
unfolding write_test
pipewrite_resume id rounds i src me w =
    write_test id rounds i src me (record w { kern = sleep_end me w.kern })

-- The copy loop of `piperead`: the pipe, the bytes it delivers, and its result, `i` before the first round.
pub drain : ℕ → ℕ → (ℕ → Bool) → Pipe → Pipe × List ℕ × ℤ
drain zero i dst p = (p, [], pos i)
drain (suc rounds) i dst p =
    if is_empty p
    then (p, [], pos i)
    else if dst i
    then (let ch = get_or p.bytes (p.nread % pipe_size) 0 in
        let (p', chs, r) = drain rounds (suc i) dst (record p { nread = next p.nread }) in
        (p', ch ∷ chs, r))
    else (p, [], if i == 0 then minus_one else pos i)

-- `piperead` at its first test; the bytes are what the user's buffer gets.
pub piperead : ℕ → ℤ → (ℕ → Bool) → ℕ → World → World × List ℕ × Result
unfolding drain
piperead id n dst me w =
    if is_empty w.pipe && w.pipe.writeopen
    then if (at w.kern me).killed
      then (w, [], returned minus_one)
      else (record w { kern = sleep_begin (of_nread id) me w.kern }, [], slept 0)
    else (let (p, chs, r) = drain (rounds_of n) 0 dst w.pipe in
        (record { kern = wakeup (of_nwrite id) (some me) w.kern; pipe = p }, chs, returned r))

pub piperead_resume : ℕ → ℤ → (ℕ → Bool) → ℕ → World → World × List ℕ × Result
unfolding piperead
piperead_resume id n dst me w = piperead id n dst me (record w { kern = sleep_end me w.kern })
