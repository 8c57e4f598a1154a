-- ===== src/File/Runs.antt =====
-- All that the processes do with their descriptors, call after call.
use aut_whuoslab.Prelude.{
  ℕ, ◌*◌, ◌≤◌, ◌<◌, ◌≡◌, refl, subst, ap, ◌∙◌, Returns-mono, ◌≢◌, Bool, [], Option, none, arith, ℤ,
  pos, replicate, get_or-replicate, Outcome, done, ◌>>=◌, Returns, Returns-bind, length,
}
use aut_whuoslab.Proc.Types.{nproc}
use aut_whuoslab.File.{
  nofile, File, Files, Released, no_file, file, sys_dup, sys_close, Opening, open_file, sys_pipe,
  fork_files, exit_files,
}
use aut_whuoslab.File.Uses.{holders, holders-le}
use aut_whuoslab.File.Counted.{uses, Counted}
use aut_whuoslab.File.Calls.{Fine, sys_dup-Fine, sys_close-Counted, open_file-Fine}
use aut_whuoslab.File.Pipes.{sys_pipe-Fine}
use aut_whuoslab.File.Forks.{Vacant, Forked, Exited, fork_files-Shares, exit_files-Vacant}

-- A call with the process that makes it. A page and a Boolean stand for what `kalloc` and `copyout` return.
pub data Call : Type 0 where
  dup : ℕ → ℤ → Call
  close : ℕ → ℤ → Call
  open_as : ℕ → Opening → Call
  pipe : ℕ → Option ℕ → Bool → Call
  fork : ℕ → ℕ → Call
  exit : ℕ → Call

unfoldable pub run_call : Call → Files → Outcome Files
run_call (dup p a) s = sys_dup p a s >>= λ r. done r.0
run_call (close p a) s = sys_close p a s >>= λ r. done r.0
run_call (open_as p x) s = open_file p x s >>= λ r. done r.0
run_call (pipe p page copied) s = sys_pipe p page copied s >>= λ r. done r.0
run_call (fork p np) s = fork_files nofile p np 0 s
run_call (exit p) s = exit_files nofile p 0 s >>= λ r. done r.0

-- The process is one of the table; a new process is another one, and has no descriptor yet.
abbrev pub Sane : Call → Files → Type 0
Sane (dup p a) s = p < nproc
Sane (close p a) s = p < nproc
Sane (open_as p x) s = p < nproc
Sane (pipe p page copied) s = p < nproc
Sane (fork p np) s = (p < nproc) × (np < nproc) × (p ≢ np) × Vacant np 0 s
Sane (exit p) s = p < nproc

-- At boot no file is open.
abbrev pub boot_files : ℕ → Files
boot_files nfile = record {
  ftable = replicate nfile no_file;
  ofile = replicate (nproc * nofile) none;
}

-- The states that calls lead to.
pub data Reached (nfile : ℕ) : Files → Type 0 where
  boot : Reached nfile (boot_files nfile)
  call :
      {s s' : Files} (c : Call)
      → Reached nfile s
      → Sane c s
      → run_call c s ≡ done s'
      → Reached nfile s'

pub run_call-Counted :
    (c : Call) (s : Files) → Sane c s → Counted [] s → Returns (Counted []) (run_call c s)
unfolding run_call
run_call-Counted (dup p a) s h c =
    Returns-bind Fine (Counted []) (sys_dup p a s) (λ r. done r.0) (sys_dup-Fine p h a s c)
      (λ r d. d)
run_call-Counted (close p a) s h c =
    Returns-bind (λ (r : Files × ℤ × Released). Counted [] r.0) (Counted []) (sys_close p a s)
      (λ r. done r.0) (sys_close-Counted p h a s c) (λ r d. d)
run_call-Counted (open_as p x) s h c =
    Returns-bind Fine (Counted []) (open_file p x s) (λ r. done r.0) (open_file-Fine p h x s c)
      (λ r d. d)
run_call-Counted (pipe p page copied) s h c =
    Returns-bind Fine (Counted []) (sys_pipe p page copied s) (λ r. done r.0)
      (sys_pipe-Fine p h page copied s c) (λ r d. d)
run_call-Counted (fork p np) s h c =
    Returns-mono (Forked p np 0 s) (Counted []) (fork_files nofile p np 0 s)
      (fork_files-Shares p np h.0 h.1 h.2 s c h.3) (λ r d. d.0)
run_call-Counted (exit p) s h c =
    Returns-bind (Exited p 0 s) (Counted []) (exit_files nofile p 0 s) (λ r. done r.0)
      (exit_files-Vacant p h s c) (λ r d. d.0)

boot_files-Counted : (nfile : ℕ) → Counted [] (boot_files nfile)
boot_files-Counted nfile = record {
  slots = refl;
  counts = λ f h. ap File.ref (get_or-replicate nfile f no_file);
  valid = λ f h. refl;
}

pub Reached-Counted : {nfile : ℕ} {s : Files} → Reached nfile s → Counted [] s
Reached-Counted {nfile} boot = boot_files-Counted nfile
Reached-Counted (call {s} c r h e) =
    subst (Returns (Counted [])) e (run_call-Counted c s h (Reached-Counted r))

-- The calls are dup, close, the end of open, pipe, and the loops of fork and exit. From boot, whatever calls are made
-- in whatever order by whichever processes of the table, with a new process being another one that has no
-- descriptor: the next call does not panic, and after it the reference count of each file is the number
-- of descriptors with this file, all processes together.
pub Reached-Returns :
    (nfile : ℕ) (s : Files) (c : Call)
    → Reached nfile s
    → Sane c s
    → Returns
        (λ s'. (f : ℕ) → f < length s'.ftable → (file f s').ref ≡ pos (holders f s'.ofile))
        (run_call c s)
Reached-Returns nfile s c r h =
    Returns-mono (Counted [])
      (λ s'. (f : ℕ) → f < length s'.ftable → (file f s').ref ≡ pos (holders f s'.ofile))
      (run_call c s) (run_call-Counted c s h (Reached-Counted r))
      (λ s' d f b. d.counts f b ∙ ap pos (omega arith))

-- In each state that calls lead to, the reference count of a file is never negative and at most NPROC * NOFILE,
-- and no descriptor has a file outside of the table.
pub Reached-bounded :
    (nfile f : ℕ) (s : Files)
    → Reached nfile s
    → ((f < length s.ftable) → (n : ℕ) × ((file f s).ref ≡ pos n) × (n ≤ nproc * nofile))
      × (length s.ftable ≤ f → holders f s.ofile ≡ 0)
Reached-bounded nfile f s r =
    let c = Reached-Counted r in
    (
      λ h. (uses [] f s, c.counts f h, omega (arith, holders-le f s.ofile, c.slots)),
      λ h. omega (arith, c.valid f h),
    )
