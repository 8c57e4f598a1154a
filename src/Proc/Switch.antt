-- ===== src/Proc/Switch.antt =====
-- Giving up the CPU: `yield`, `sleep` and the clock tick. `swtch` itself is assembly: a routine that
-- switches is two functions, what it does before and what it does when it is scheduled again.
use aut_whuoslab.Prelude.{
  ℕ, ◌+◌, ◌-◌, ◌%◌, ◌^◌, Bool, ◌&&◌, Option, none, some, ltb, leb, ◌==◌, if◌then◌else◌,
}
use aut_whuoslab.Proc.Types.{
  sleeping, runnable, is_runnable, Chan, null, of_ticks, Proc, Kernel, at, is_mlfq,
}
use aut_whuoslab.Proc.Mlfq.{mlfq_add_process, mlfq_remove_process}
use aut_whuoslab.Proc.Table.{update_proc, wakeup}

-- `yield` up to the switch. Nothing but the release of the lock is left to do after it.
unfoldable pub yield_begin : ℕ → Kernel → Kernel
yield_begin me k =
    let level = (at k me).mlfq_level in
    let k1 = if is_mlfq k.selector then mlfq_remove_process me level k else k in
    let k2 = update_proc me (λ p. record p { state = runnable }) k1 in
    if is_mlfq k2.selector then mlfq_add_process me (at k2 me).mlfq_level k2 else k2

-- `sleep` up to the switch.
unfoldable pub sleep_begin : Chan → ℕ → Kernel → Kernel
sleep_begin c me k =
    update_proc me (λ p. record p { chan = c; state = sleeping })
      (if is_mlfq k.selector then mlfq_remove_process me (at k me).mlfq_level k else k)

-- A process that slept goes up a level.
abbrev pub promote : Proc → Proc
promote p =
    if ltb 0 p.mlfq_level
    then record p {
      mlfq_level = p.mlfq_level - 1;
      time_quantum = 2 ^ (p.mlfq_level - 1);
      time_used = 0;
    }
    else p

-- `sleep` after the switch.
unfoldable pub sleep_end : ℕ → Kernel → Kernel
sleep_end me k =
    let k1 = update_proc me (λ p. record p { chan = null }) k in
    if is_mlfq k1.selector
    then (let k2 = update_proc me promote k1 in mlfq_add_process me (at k2 me).mlfq_level k2)
    else k1

-- A tick charged to a process: the new fields, and whether the slice is used up above the lowest level.
abbrev pub slice_over : Proc → Bool
slice_over p = leb p.time_quantum (p.time_used + 1) && ltb p.mlfq_level 4

abbrev pub charge : Proc → Proc
charge p =
    if leb p.time_quantum (p.time_used + 1)
    then (if ltb p.mlfq_level 4
        then record p {
          mlfq_level = p.mlfq_level + 1;
          time_quantum = 2 ^ (p.mlfq_level + 1);
          time_used = 0;
        }
        else record p { time_used = 0 })
    else record p { time_used = p.time_used + 1 }

-- The scheduling part of `clockintr` for the process that the tick finds running.
unfoldable pub tick_proc : ℕ → Kernel → Kernel
tick_proc me k =
    let p = at k me in
    let k1 = if slice_over p then mlfq_remove_process me p.mlfq_level k else k in
    let k2 = update_proc me charge k1 in
    if slice_over p && is_runnable (at k2 me).state
    then mlfq_add_process me (at k2 me).mlfq_level k2
    else k2

-- `clockintr` on CPU `cpu`; `ticks` is a 32-bit count.
unfoldable pub clockintr : ℕ → Option ℕ → Kernel → Kernel
unfolding tick_proc
clockintr cpu me k =
    let k1 =
      if cpu == 0 then wakeup of_ticks me (record k { ticks = (k.ticks + 1) % 2 ^ 32 }) else k in
    elim me [ none ↦ k1 | some i ↦ if is_mlfq k1.selector then tick_proc i k1 else k1 ]
