-- ===== src/File/Tests.antt =====
-- A table of two files, of which the first is opened by process 0.
use aut_whuoslab.Prelude.{
  ℕ, ◌*◌, ◌≤◌, ◌<◌, ◌≡◌, refl, ◌∙◌, true, false, [], ◌∷◌, none, some, arith, pos, replicate, set,
  length, get_or-set_ne, get_or-replicate, done, Returns,
}
use aut_whuoslab.Proc.Types.{nproc}
use aut_whuoslab.File.{
  nofile, fd_inode, fd_none, Files, inode, no_file, file, place, Opening, open_file, filealloc,
  fileclose, fdalloc, argfd, sys_close, fork_files,
}
use aut_whuoslab.File.Uses.{holders}
use aut_whuoslab.File.Counted.{Counted}
use aut_whuoslab.File.Forks.{Vacant, Forked, fork_files-Shares}
use aut_whuoslab.File.Runs.{
  open_as, fork, run_call, boot_files, Reached, boot, call, Reached-Counted, Reached-Returns,
  Reached-bounded,
}

abbrev opening : Opening
opening = record { device = false; ip = 5; major = 0; write_only = false; read_write = true }

abbrev opened_files : Files
opened_files = record {
  ftable =
      record {
        kind = fd_inode;
        ref = pos 1;
        readable = true;
        writable = true;
        object = 5;
        off = 0;
        major = 0;
      }
      ∷ no_file
      ∷ [];
  ofile = set (replicate 1024 none) 0 (some 0);
}

runs_open : run_call (open_as 0 opening) (boot_files 2) ≡ done opened_files
unfolding run_call open_file filealloc fdalloc
runs_open = refl

opened_files-Reached : Reached 2 opened_files
opened_files-Reached = call (open_as 0 opening) boot (omega arith) runs_open

opened_files-Counted : Counted [] opened_files
opened_files-Counted = Reached-Counted opened_files-Reached

opened_files-Vacant : Vacant 1 0 opened_files
opened_files-Vacant k h u =
    get_or-set_ne (replicate 1024 none) 0 (place 1 k) (some 0) none (omega arith)
    ∙ get_or-replicate 1024 (place 1 k) none

Reached-Returns_example :
    Returns
      (λ s'. (f : ℕ) → f < length s'.ftable → (file f s').ref ≡ pos (holders f s'.ofile))
      (run_call (fork 0 1) opened_files)
Reached-Returns_example =
    Reached-Returns 2 opened_files (fork 0 1) opened_files-Reached
      (omega arith, omega arith, omega arith, opened_files-Vacant)

Reached-bounded_example :
    ((0 < length opened_files.ftable)
      → (n : ℕ) × ((file 0 opened_files).ref ≡ pos n) × (n ≤ nproc * nofile))
    × (length opened_files.ftable ≤ 0 → holders 0 opened_files.ofile ≡ 0)
Reached-bounded_example = Reached-bounded 2 0 opened_files opened_files-Reached

fork_files-Shares_example :
    Returns (Forked 0 1 0 opened_files) (fork_files nofile 0 1 0 opened_files)
fork_files-Shares_example =
    fork_files-Shares 0 1 (omega arith) (omega arith) (omega arith) opened_files
      opened_files-Counted opened_files-Vacant

-- The last descriptor gives the inode back.
closes :
    sys_close 0 (pos 0) opened_files
    ≡ done (
      record {
        ftable =
            record {
              kind = fd_none;
              ref = pos 0;
              readable = true;
              writable = true;
              object = 5;
              off = 0;
              major = 0;
            }
            ∷ no_file
            ∷ [];
        ofile = replicate 1024 none;
      },
      pos 0,
      inode 5,
    )
unfolding sys_close fileclose argfd
closes = refl
