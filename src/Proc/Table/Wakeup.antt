-- ===== src/Proc/Table/Wakeup.antt =====
-- What `wakeup` and `kkill` do to each process.
use native.Mathlib.Nat.{add-zero, zero-add}
use aut_whuoslab.Prelude.{
  ap, ℕ, zero, suc, ◌+◌, ◌≡◌, List, [], ◌∷◌, Option, some, arith, get_elem?, if◌then◌else◌,
}
use aut_whuoslab.Proc.Types.{Chan, Proc, Kernel, is_slot}
use aut_whuoslab.Proc.Table.{wake, wake_from, wakeup}

wake_from-get_elem? :
    (c : Chan) (me : Option ℕ) (i j : ℕ) (ps : List Proc) (p : Proc)
    → get_elem? ps j ≡ some p
    → get_elem? (wake_from c me i ps) j ≡ some (if is_slot me (i + j) then p else wake c p)
unfolding wake_from
wake_from-get_elem? c me i j [] p h = cc
wake_from-get_elem? c me i zero (x ∷ ps) p h =
    let e : x ≡ p = cc in rw add-zero (ap (λ q. some (if is_slot me i then q else wake c q)) e)
wake_from-get_elem? c me i (suc j) (x ∷ ps) p h =
    let e : i + suc j ≡ suc i + j = omega arith in rw e (wake_from-get_elem? c me (suc i) j ps p h)

-- `wakeup` makes every other process that sleeps on the channel runnable and leaves the rest of it as it
-- was; processes that do not sleep on the channel, and the caller, stay as they are.
pub wakeup-get_elem? :
    (c : Chan) (me : Option ℕ) (k : Kernel) (j : ℕ) (p : Proc)
    → get_elem? k.procs j ≡ some p
    → get_elem? (wakeup c me k).procs j ≡ some (if is_slot me j then p else wake c p)
unfolding wakeup
wakeup-get_elem? c me k j p h = rw zero-add at (wake_from-get_elem? c me 0 j k.procs p h)
