-- ===== src/Log/Tests.antt =====
-- A log at block 2 and a transaction of the blocks 40 and 41.
use aut_whuoslab.Prelude.{
  ℕ, ◌≡◌, refl, ◌⊎◌, inr, true, false, [], ◌∷◌, arith, pos, length, take, ◌==◌, done, panic, All,
}
use aut_whuoslab.Kalloc.{update}
use aut_whuoslab.Proc.Types.{round_robin, Kernel}
use aut_whuoslab.Log.{
  Log, Disk, Memory, write_block, write_header, max_op_blocks, do_writes, commit, begin_op_test,
  begin_op_resume, end_op, end_op_committed, log_force_commit, log_space_available, log_wait_test,
  log_write,
}
use aut_whuoslab.Log.Writes.{Home}
use aut_whuoslab.Log.Recovery.{recovered, IsOld, IsNew}
use aut_whuoslab.Log.Crash.{commit-crash}
use aut_whuoslab.Log.Budget.{without}
use aut_whuoslab.Log.Reserve.{Reserved, log_write-Reserved, begin_op_test-Reserved, end_op-Reserved}

abbrev disk : Disk ℕ
disk = record { header = []; block = λ b. b }

abbrev memory : Memory ℕ
memory = record {
  buf = update (update (λ b. b) 40 700) 41 800;
  pins = update (update (λ b. pos 0) 40 (pos 1)) 41 (pos 1);
  lh = 40 ∷ 41 ∷ [];
}

homes : All (Home 2) (40 ∷ 41 ∷ [])
homes = (inr (omega arith), (inr (omega arith), tt))

-- A crash after the header and one of the two blocks.
commit-crash_example :
    ((recovered 2 (do_writes (take 4 (commit 2 memory).1) disk)).header ≡ [])
    × (IsOld 2 disk (recovered 2 (do_writes (take 4 (commit 2 memory).1) disk))
        ⊎ IsNew 2 memory disk (recovered 2 (do_writes (take 4 (commit 2 memory).1) disk)))
commit-crash_example = commit-crash 2 disk memory refl homes (omega arith) 4

commit_writes :
    (commit 2 memory).1
    ≡ write_block 3 700
      ∷ write_block 4 800
      ∷ write_header (40 ∷ 41 ∷ [])
      ∷ write_block 40 700
      ∷ write_block 41 800
      ∷ write_header []
      ∷ []
unfolding commit
commit_writes = refl

-- Before the header the transaction is lost, after it the boot completes it.
crash_before : (recovered 2 (do_writes (take 2 (commit 2 memory).1) disk)).block 41 ≡ 41
unfolding recovered commit do_writes
crash_before = refl

crash_after : (recovered 2 (do_writes (take 3 (commit 2 memory).1) disk)).block 41 ≡ 800
unfolding recovered commit do_writes
crash_after = refl

abbrev kernel : Kernel
kernel = record {
  procs = [];
  queues = [];
  current_level = 0;
  time_slices = [];
  selector = round_robin;
  nextpid = pos 1;
  initproc = 0;
  ticks = 0;
}

-- Two operations, one of which has logged a block.
abbrev busy : Log
busy = record {
  kern = kernel;
  outstanding = pos 2;
  committing = false;
  lh = 40 ∷ [];
  pins = λ b. pos 0;
}

busy-Reserved : Reserved busy (9 ∷ 10 ∷ [])
busy-Reserved = record {
  counted = refl;
  room = omega arith;
  bounded = (omega arith, (omega arith, tt));
}

log_write-Reserved_example : (l' : Log) × (log_write 41 busy ≡ done l') × Reserved l' (8 ∷ 10 ∷ [])
log_write-Reserved_example = log_write-Reserved busy (9 ∷ 10 ∷ []) 0 8 41 busy-Reserved refl

begin_op_test-Reserved_example :
    (((begin_op_test 1 busy).1 ≡ true)
      × Reserved (begin_op_test 1 busy).0 (max_op_blocks ∷ 9 ∷ 10 ∷ []))
    ⊎ (((begin_op_test 1 busy).1 ≡ false) × Reserved (begin_op_test 1 busy).0 (9 ∷ 10 ∷ []))
begin_op_test-Reserved_example = begin_op_test-Reserved 1 busy (9 ∷ 10 ∷ []) busy-Reserved

end_op-Reserved_example :
    (l' : Log) × (end_op 1 busy ≡ done (l', length (without (9 ∷ 10 ∷ []) 0) == 0))
    × Reserved l' (without (9 ∷ 10 ∷ []) 0)
    × (l'.committing ≡ (length (without (9 ∷ 10 ∷ []) 0) == 0))
end_op-Reserved_example = end_op-Reserved 1 busy (9 ∷ 10 ∷ []) 0 9 busy-Reserved refl refl

-- `log_force_commit` starts a commit while two operations are in progress, and the next `end_op` of one
-- of them panics.
forced : (log_force_commit busy).1 ≡ true
unfolding log_force_commit
forced = refl

forced_end : end_op 1 (log_force_commit busy).0 ≡ panic
unfolding end_op log_force_commit
forced_end = refl

-- The third operation waits for room.
third_waits : (begin_op_resume 1 busy).1 ≡ false
unfolding begin_op_resume
third_waits = refl

no_trans : log_write 41 (record busy { outstanding = pos 0 }) ≡ panic
unfolding log_write
no_trans = refl

space_lem : log_space_available busy ≡ true
unfolding log_space_available
space_lem = refl

wait_goes_on : (log_wait_test 1 busy).1 ≡ true
unfolding log_wait_test
wait_goes_on = refl

-- After the last operation's commit a new one begins.
commit_reopens :
    (begin_op_test 1
      (end_op_committed 1 (λ b. pos 0) (record busy { outstanding = pos 0; committing = true }))).1
    ≡ true
unfolding begin_op_test end_op_committed
commit_reopens = refl
