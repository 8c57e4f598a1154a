-- ===== src/File.antt =====
-- kernel/file.c, the descriptors of kernel/sysfile.c, and the loops of kernel/proc.c over them. A `struct file *` is
-- the number of an entry of `ftable`, and the arrays `ofile` of all processes stand in one list, NOFILE
-- entries for each. Closing the last reference of a file says what is given back with it.
pub mod Uses
pub mod Counted
pub mod Refs
pub mod Descriptors
pub mod Calls
pub mod Pipes
pub mod Forks
pub mod Runs
mod Tests
use aut_whuoslab.Prelude.{
  ℕ, zero, suc, ◌+◌, ◌*◌, ◌<◌, Bool, true, false, not, ◌||◌, ltb, ◌==◌, if◌then◌else◌, List, [],
  ◌∷◌, Option, none, some, modify, set, get_or, ℤ, pos, negsuc, minus_one, int_inc, int_dec,
  is_positive, is_zero, Outcome, done, panic, ◌>>=◌,
}

abbrev pub nofile : ℕ
nofile = 16

pub data Kind : Type 0 where
  fd_none fd_pipe fd_inode fd_device : Kind

-- `object` is the pipe, or the entry of the inode.
pub record File : Type 0 where
  pub kind : Kind
  pub ref : ℤ
  pub readable : Bool
  pub writable : Bool
  pub object : ℕ
  pub off : ℕ
  pub major : ℕ

pub record Files : Type 0 where
  pub ftable : List File
  pub ofile : List (Option ℕ)

-- What `fileclose` gives back: an end of a pipe, or an inode.
pub data Released : Type 0 where
  nothing : Released
  pipe_end : ℕ → Bool → Released
  inode : ℕ → Released

abbrev pub no_file : File
no_file = record {
  kind = fd_none;
  ref = pos 0;
  readable = false;
  writable = false;
  object = 0;
  off = 0;
  major = 0;
}

abbrev pub file : ℕ → Files → File
file f s = get_or s.ftable f no_file

abbrev pub change_file : ℕ → (File → File) → Files → Files
change_file f g s = record s { ftable = modify s.ftable f g }

-- `ofile[fd]` of process `p`
abbrev pub place : ℕ → ℕ → ℕ
place p fd = p * nofile + fd

abbrev pub set_ofile : ℕ → Option ℕ → Files → Files
set_ofile i o s = record s { ofile = set s.ofile i o }

-- The loop of `filealloc` from entry `f` on.
abbrev pub free_file : ℕ → List File → Option ℕ
free_file f [] = none
free_file f (x ∷ xs) = if is_zero x.ref then some f else free_file (suc f) xs

pub filealloc : Files → Option ℕ × Files
filealloc s = elim (free_file 0 s.ftable) [
  | none ↦ (none, s)
  | some f ↦ (some f, change_file f (λ x. record x { ref = pos 1 }) s)
]

pub filedup : ℕ → Files → Outcome Files
filedup f s =
    if not (is_positive (file f s).ref)
    then panic
    else done (change_file f (λ x. record x { ref = int_inc x.ref }) s)

abbrev pub release_of : File → Released
release_of x = elim x.kind [
  | fd_none ↦ nothing
  | fd_pipe ↦ pipe_end x.object x.writable
  | fd_inode ↦ inode x.object
  | fd_device ↦ inode x.object
]

pub fileclose : ℕ → Files → Outcome (Files × Released)
fileclose f s =
    let x = file f s in
    if not (is_positive x.ref)
    then panic
    else if is_positive (int_dec x.ref)
    then done (change_file f (λ y. record y { ref = int_dec y.ref }) s, nothing)
    else done (change_file f (λ y. record y { ref = pos 0; kind = fd_none }) s, release_of x)

-- The loop of `fdalloc` from descriptor `fd` on, with `n` to go.
abbrev pub free_fd : ℕ → ℕ → ℕ → Files → Option ℕ
free_fd zero p fd s = none
free_fd (suc n) p fd s =
    let rest = free_fd n p (suc fd) s in
    elim (get_or s.ofile (place p fd) none) [ none ↦ some fd | some f ↦ rest ]

pub fdalloc : ℕ → ℕ → Files → Option ℕ × Files
fdalloc p f s = elim (free_fd nofile p 0 s) [
  | none ↦ (none, s)
  | some fd ↦ (some fd, set_ofile (place p fd) (some f) s)
]

-- The file of a descriptor of process `p`.
pub argfd : ℕ → ℤ → Files → Option (ℕ × ℕ)
argfd p (negsuc n) s = none
argfd p (pos fd) s =
    if not (ltb fd nofile)
    then none
    else elim (get_or s.ofile (place p fd) none) [ none ↦ none | some f ↦ some (fd, f) ]

pub sys_dup : ℕ → ℤ → Files → Outcome (Files × ℤ)
sys_dup p a s = elim (argfd p a s) [
  | none ↦ done (s, minus_one)
  | some (fd, f) ↦
      let (o, s') = fdalloc p f s in
      elim o [ none ↦ done (s', minus_one) | some fd' ↦ filedup f s' >>= λ k. done (k, pos fd') ]
]

pub sys_close : ℕ → ℤ → Files → Outcome (Files × ℤ × Released)
sys_close p a s = elim (argfd p a s) [
  | none ↦ done (s, minus_one, nothing)
  | some (fd, f) ↦ fileclose f (set_ofile (place p fd) none s) >>= λ r. done (r.0, pos 0, r.1)
]

-- What `sys_open` knows of the inode and of the mode when it asks for a file.
pub record Opening : Type 0 where
  pub device : Bool
  pub ip : ℕ
  pub major : ℕ
  pub write_only : Bool
  pub read_write : Bool

abbrev pub opened : Opening → File → File
opened x f =
    let set_up =
      if x.device
      then record f { kind = fd_device; major = x.major }
      else record f { kind = fd_inode; off = 0 } in
    record set_up {
      object = x.ip;
      readable = not x.write_only;
      writable = x.write_only || x.read_write;
    }

-- -EMFILE
abbrev pub no_descriptor : ℤ
no_descriptor = negsuc 23

-- `sys_open` where it takes a file and a descriptor. A file that is closed again here stands for nothing yet.
pub open_file : ℕ → Opening → Files → Outcome (Files × ℤ)
open_file p x s =
    let (o, s1) = filealloc s in
    elim o [
      | none ↦ done (s1, no_descriptor)
      | some f ↦
          let (d, s2) = fdalloc p f s1 in
          elim d [
            | none ↦ fileclose f s2 >>= λ r. done (r.0, no_descriptor)
            | some fd ↦ done (change_file f (opened x) s2, pos fd)
          ]
    ]

-- `pipealloc`, with the page that `kalloc` returns: the two files.
pub pipealloc : Option ℕ → Files → Outcome (Files × Option (ℕ × ℕ))
pipealloc page s =
    let (o, s1) = filealloc s in
    elim o [
      | none ↦ done (s1, none)
      | some f0 ↦
          let (d, s2) = filealloc s1 in
          elim d [
            | none ↦ fileclose f0 s2 >>= λ r. done (r.0, none)
            | some f1 ↦ elim page [
              | none ↦ fileclose f0 s2 >>= λ r. fileclose f1 r.0 >>= λ q. done (q.0, none)
              | some pi ↦ done (
                change_file f1
                    (λ y. record y {
                      kind = fd_pipe;
                      readable = false;
                      writable = true;
                      object = pi;
                    })
                    (change_file f0
                      (λ y. record y {
                        kind = fd_pipe;
                        readable = true;
                        writable = false;
                        object = pi;
                      })
                      s2),
                some (f0, f1),
              )
            ]
          ]
    ]

-- Both files of a pipe are closed again; the ends of the pipe that go with them are left out.
abbrev pub close_both : ℕ → ℕ → Files → Outcome (Files × ℤ)
close_both f0 f1 s = fileclose f0 s >>= λ r. fileclose f1 r.0 >>= λ q. done (q.0, minus_one)

-- `sys_pipe`; `copied` says whether both `copyout`s succeed.
pub sys_pipe : ℕ → Option ℕ → Bool → Files → Outcome (Files × ℤ)
sys_pipe p page copied s = pipealloc page s >>= λ a. elim a.1 [
  | none ↦ done (a.0, minus_one)
  | some (rf, wf) ↦
      let (d0, s1) = fdalloc p rf a.0 in
      elim d0 [
        | none ↦ close_both rf wf s1
        | some fd0 ↦
            let (d1, s2) = fdalloc p wf s1 in
            elim d1 [
              | none ↦ close_both rf wf (set_ofile (place p fd0) none s2)
              | some fd1 ↦
                  if copied
                  then done (s2, pos 0)
                  else close_both rf wf
                      (set_ofile (place p fd1) none (set_ofile (place p fd0) none s2))
            ]
      ]
]

-- The loop of `kfork` over the descriptors from `fd` on, with `n` to go.
pub fork_files : ℕ → ℕ → ℕ → ℕ → Files → Outcome Files
fork_files zero p np fd s = done s
fork_files (suc n) p np fd s =
    let rest = λ (k : Files). fork_files n p np (suc fd) k in
    elim (get_or s.ofile (place p fd) none) [
      | none ↦ rest s
      | some f ↦ filedup f s >>= λ k. rest (set_ofile (place np fd) (some f) k)
    ]

-- The loop of `kexit`, with what is given back.
pub exit_files : ℕ → ℕ → ℕ → Files → Outcome (Files × List Released)
exit_files zero p fd s = done (s, [])
exit_files (suc n) p fd s =
    let rest = λ (k : Files). exit_files n p (suc fd) k in
    elim (get_or s.ofile (place p fd) none) [
      | none ↦ rest s
      | some f ↦ fileclose f s >>= λ r.
          rest (set_ofile (place p fd) none r.0) >>= λ q. done (q.0, r.1 ∷ q.1)
    ]
