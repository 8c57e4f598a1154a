-- ===== src/Pipe/Tests.antt =====
-- A pipe whose counters are about to wrap around, with two bytes in it.
use aut_whuoslab.Prelude.{
  ℕ, ◌+◌, ◌≡◌, refl, inl, Bool, true, false, [], ◌∷◌, ◌++◌, Option, some, arith, pos, negsuc,
  minus_one, replicate, set,
}
use aut_whuoslab.Proc.Types.{Kernel, zeroed, running, round_robin}
use aut_whuoslab.Proc.Switch.{sleep_end}
use aut_whuoslab.Pipe.{
  Pipe, World, returned, slept, pipe_init, pipeclose, pipewrite, pipewrite_resume, piperead,
  piperead_resume,
}
use aut_whuoslab.Pipe.Contents.{contents, IsPipe}
use aut_whuoslab.Pipe.Write.{sent, Wrote, pipewrite-Wrote}
use aut_whuoslab.Pipe.Read.{taken, piperead-Drained}

abbrev kernel : Kernel
kernel = record {
  procs = record zeroed { state = running } ∷ [];
  queues = [];
  current_level = 0;
  time_slices = [];
  selector = round_robin;
  nextpid = pos 1;
  initproc = 0;
  ticks = 0;
}

abbrev two_bytes : Pipe
two_bytes = record {
  bytes = set (set (replicate 512 0) 510 7) 511 8;
  nread = 4294967294;
  nwrite = 0;
  readopen = true;
  writeopen = true;
}

abbrev world : World
world = record { kern = kernel; pipe = two_bytes }

two_bytes-IsPipe : IsPipe two_bytes
two_bytes-IsPipe = record {
  slots = refl;
  read_word = omega arith;
  write_word = omega arith;
  fits = omega arith;
}

abbrev user : ℕ → Option ℕ
user i = some (i + 1)

abbrev user_ok : ℕ → Bool
user_ok i = true

pipewrite-Wrote_example : Wrote (sent 3 510 0 user) 0 two_bytes (pipewrite 0 (pos 3) user 0 world)
pipewrite-Wrote_example = pipewrite-Wrote 0 3 0 user world two_bytes-IsPipe refl refl

piperead-Drained_example :
    let (w', out, r) = piperead 0 (pos 5) user_ok 0 world in
    IsPipe w'.pipe
    × (out ≡ taken 5 0 user_ok (contents two_bytes))
    × (contents two_bytes ≡ out ++ contents w'.pipe)
piperead-Drained_example = piperead-Drained 0 5 0 user_ok world two_bytes-IsPipe (inl (omega arith))

contents_lem : contents two_bytes ≡ 7 ∷ 8 ∷ []
contents_lem = refl

read_across : (piperead 0 (pos 5) user_ok 0 (pipewrite 0 (pos 1) user 0 world).0).1 ≡ 7 ∷ 8 ∷ 1 ∷ []
unfolding piperead pipewrite
read_across = refl

-- An empty pipe with a closed writing end gives 0.
end_of_file :
    (piperead 0
      (pos 5)
      user_ok
      0
      (pipeclose 0 true 0 (record world { pipe = pipe_init two_bytes })).0).2
    ≡ returned (pos 0)
unfolding piperead pipeclose pipe_init
end_of_file = refl

read_sleeps :
    (piperead_resume 0 (pos 5) user_ok 0 (record world { pipe = pipe_init two_bytes })).2 ≡ slept 0
unfolding piperead_resume pipe_init sleep_end
read_sleeps = refl

-- A pipe without readers refuses, and the last close frees it.
write_refused : (pipewrite 0 (pos 1) user 0 (pipeclose 0 false 0 world).0).1 ≡ returned minus_one
unfolding pipewrite pipeclose
write_refused = refl

last_close : (pipeclose 0 true 0 (pipeclose 0 false 0 world).0).1 ≡ true
unfolding pipeclose
last_close = refl

write_nothing : (pipewrite 0 (negsuc 4) user 0 world).1 ≡ returned (pos 0)
unfolding pipewrite
write_nothing = refl

write_resumes : (pipewrite_resume 0 1 2 user 0 world).1 ≡ returned (pos 3)
unfolding pipewrite_resume sleep_end
write_resumes = refl
