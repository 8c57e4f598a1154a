-- ===== src/Log.antt =====
-- kernel/log.c: the redo log. The blocks of the disk hold contents of any type; the header block, which
-- the code casts to `struct logheader`, is kept apart as its list of block numbers (`n` is the length of
-- the list). Writes to the disk come out as a list, one write per `bwrite`, so that a crash is a prefix.
pub mod Writes
pub mod Install
pub mod Recovery
pub mod Crash
pub mod Budget
pub mod Reserve
mod Tests
use aut_whuoslab.Prelude.{
  ℕ, suc, ◌+◌, ◌*◌, Bool, true, false, List, [], ◌∷◌, ◌++◌, Option, none, some, ℤ, pos, negsuc,
  int_inc, int_dec, int_lt, is_zero, length, ltb, leb, ◌==◌, if◌then◌else◌, Outcome, done, panic,
}
use aut_whuoslab.Proc.Types.{Kernel, of_log}
use aut_whuoslab.Proc.Table.{wakeup}
use aut_whuoslab.Proc.Switch.{sleep_begin, sleep_end}
use aut_whuoslab.Kalloc.{update}

abbrev pub max_op_blocks : ℕ
max_op_blocks = 10

-- MAXOPBLOCKS * 3
abbrev pub log_blocks : ℕ
log_blocks = 30

-- A `bwrite` of a block, or of the header of the log.
pub data Write {ℓ} (A : Type ℓ) : Type ℓ where
  write_block : ℕ → A → Write A
  write_header : List ℕ → Write A

pub record Disk {ℓ} (A : Type ℓ) : Type ℓ where
  pub header : List ℕ
  pub block : ℕ → A

-- The memory of the log: what `bread` returns for each block, the pins of the buffers, the header.
pub record Memory {ℓ} (A : Type ℓ) : Type ℓ where
  pub buf : ℕ → A
  pub pins : ℕ → ℤ
  pub lh : List ℕ

-- `bunpin` of each block installed.
pub unpin : List ℕ → (ℕ → ℤ) → ℕ → ℤ
unpin [] pins = pins
unpin (b ∷ bs) pins = unpin bs (update pins b (int_dec (pins b)))

module _ {ℓ} {A : Type ℓ} where
  -- The disk after some writes.
  pub do_write : Write A → Disk A → Disk A
  do_write (write_block b v) d = record d { block = update d.block b v }
  do_write (write_header h) d = record d { header = h }

  pub do_writes : List (Write A) → Disk A → Disk A
  unfolding do_write
  do_writes [] d = d
  do_writes (w ∷ ws) d = do_writes ws (do_write w d)

  -- The loop of `write_log` from `tail` on, over the blocks left; the log begins at block `start`.
  pub write_log_from : ℕ → ℕ → List ℕ → (ℕ → A) → (ℕ → A) × List (Write A)
  write_log_from start tail [] buf = (buf, [])
  write_log_from start tail (b ∷ bs) buf =
      let to = start + tail + 1 in
      let (buf', ws) = write_log_from start (suc tail) bs (update buf to (buf b)) in
      (buf', write_block to (buf b) ∷ ws)

  -- The loop of `install_trans` from `tail` on, over the blocks left.
  pub install_from : ℕ → ℕ → List ℕ → (ℕ → A) → (ℕ → A) × List (Write A)
  install_from start tail [] buf = (buf, [])
  install_from start tail (b ∷ bs) buf =
      let v = buf (start + tail + 1) in
      let (buf', ws) = install_from start (suc tail) bs (update buf b v) in
      (buf', write_block b v ∷ ws)

  pub install_trans : Bool → ℕ → Memory A → Memory A × List (Write A)
  unfolding install_from unpin
  install_trans recovering start m =
      let (buf, ws) = install_from start 0 m.lh m.buf in
      (record m { buf = buf; pins = if recovering then m.pins else unpin m.lh m.pins }, ws)

  pub write_log : ℕ → Memory A → Memory A × List (Write A)
  unfolding write_log_from
  write_log start m =
      let (buf, ws) = write_log_from start 0 m.lh m.buf in (record m { buf = buf }, ws)

  pub write_head : Memory A → List (Write A)
  write_head m = write_header m.lh ∷ []

  pub commit : ℕ → Memory A → Memory A × List (Write A)
  unfolding write_log write_head install_trans
  commit start m =
      let (m1, ws1) = write_log start m in
      let (m2, ws2) = install_trans false start m1 in
      let m3 = record m2 { lh = [] } in
      if ltb 0 (length m.lh)
      then (m3, ws1 ++ (write_head m1 ++ (ws2 ++ write_head m3)))
      else (m, [])

  pub read_head : Disk A → Memory A → Memory A
  read_head d m = record m { lh = d.header }

  pub recover_from_log : ℕ → Disk A → Memory A → Memory A × List (Write A)
  unfolding read_head install_trans write_head
  recover_from_log start d m =
      let (m1, ws) = install_trans true start (read_head d m) in
      let m2 = record m1 { lh = [] } in (m2, ws ++ write_head m2)

  -- `initlog` on the machine that boots from a disk: no buffer is in memory yet.
  pub initlog : ℕ → Disk A → Memory A × List (Write A)
  unfolding recover_from_log
  initlog start d = recover_from_log start d (record { buf = d.block; pins = λ b. pos 0; lh = [] })

-- The transactions: `struct log` with the pins and the process table.
pub record Log : Type 0 where
  pub kern : Kernel
  pub outstanding : ℤ
  pub committing : Bool
  pub lh : List ℕ
  pub pins : ℕ → ℤ

-- `log.lh.n + (log.outstanding+1)*MAXOPBLOCKS > LOGBLOCKS`
abbrev pub no_room : ℕ → ℤ → Bool
no_room n (pos m) = ltb log_blocks (n + (m + 1) * max_op_blocks)
no_room n (negsuc m) = ltb (log_blocks + m * max_op_blocks) n

-- The loop of `begin_op` at its tests; the result says whether the operation has begun or the process
-- is asleep.
pub begin_op_test : ℕ → Log → Log × Bool
begin_op_test me l =
    if l.committing
    then (record l { kern = sleep_begin of_log me l.kern }, false)
    else if no_room (length l.lh) l.outstanding
    then (record l { kern = sleep_begin of_log me l.kern }, false)
    else (record l { outstanding = int_inc l.outstanding }, true)

pub begin_op_resume : ℕ → Log → Log × Bool
unfolding begin_op_test
begin_op_resume me l = begin_op_test me (record l { kern = sleep_end me l.kern })

-- `end_op` up to the commit; the result says whether the caller commits.
pub end_op : ℕ → Log → Outcome (Log × Bool)
end_op me l =
    let n = int_dec l.outstanding in
    if l.committing
    then panic
    else if is_zero n
    then done (record l { outstanding = n; committing = true }, true)
    else done (record l { outstanding = n; kern = wakeup of_log (some me) l.kern }, false)

-- `end_op` after the commit, which leaves the header empty and the pins given back.
pub end_op_committed : ℕ → (ℕ → ℤ) → Log → Log
end_op_committed me pins l = record l {
  lh = [];
  pins = pins;
  committing = false;
  kern = wakeup of_log (some me) l.kern;
}

-- `log_force_commit` up to its commit: it starts one although operations are outstanding.
pub log_force_commit : Log → Log × Bool
log_force_commit l =
    if int_lt (pos 0) l.outstanding then (record l { committing = true }, true) else (l, false)

pub log_space_available : Log → Bool
log_space_available l = leb (length l.lh + max_op_blocks) log_blocks

-- `log_wait_for_space` at its test: `true` when the caller goes on.
pub log_wait_test : ℕ → Log → Log × Bool
log_wait_test me l =
    if ltb log_blocks (length l.lh + max_op_blocks)
    then (record l { kern = sleep_begin of_log me l.kern }, false)
    else (l, true)

-- Whether a block is in the header.
abbrev pub mem : ℕ → List ℕ → Bool
mem b [] = false
mem b (c ∷ cs) = if c == b then true else mem b cs

pub log_write : ℕ → Log → Outcome Log
log_write b l =
    if leb log_blocks (length l.lh)
    then panic
    else if int_lt l.outstanding (pos 1)
    then panic
    else if mem b l.lh
    then done l
    else done (record l { lh = l.lh ++ b ∷ []; pins = update l.pins b (int_inc (l.pins b)) })
