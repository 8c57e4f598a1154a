-- ===== src/Vm/Copy.antt =====
-- `copyin`, `copyinstr` and `copyout` of kernel/vm.c, between a process's pages and the kernel's memory, a
-- function from addresses to bytes.
use aut_whuoslab.Prelude.{
  ℕ, zero, suc, ◌+◌, ◌-◌, ◌%◌, Bool, true, false, not, ◌||◌, leb, ◌==◌, if◌then◌else◌, min, ℤ, pos,
  negsuc, minus_one, Outcome, done, ◌>>=◌,
}
use aut_whuoslab.Kalloc.{pgsize, update}
use aut_whuoslab.Vm.{Vm, maxva, entry, walk, walkaddr}
use aut_whuoslab.Vm.Memory.{pg_round_down, cowhandler, vmfault}

-- `n` bytes from place `j` of a page to address `dst`.
abbrev pub from_page : ℕ → (ℕ → ℕ) → ℕ → ℕ → (ℕ → ℕ) → ℕ → ℕ
from_page zero page j dst mem = mem
from_page (suc n) page j dst mem = from_page n page (j + 1) (dst + 1) (update mem dst (page j))

-- The bytes of a round: up to the end of the page, and no more than are left.
abbrev pub chunk : ℕ → ℕ → ℕ
chunk va len = min (pgsize - va % pgsize) len

-- The loop of `copyin` in a process of `sz` bytes. A round copies a byte or more, so that `len` rounds are enough.
unfoldable pub copyin_from : ℕ → ℕ → ℕ → ℕ → ℕ → ℕ → (ℕ → ℕ) → Vm → Outcome (Vm × (ℕ → ℕ) × ℤ)
copyin_from zero t sz dst src len mem s = done (s, mem, pos 0)
copyin_from (suc rounds) t sz dst src len mem s =
    let va = pg_round_down src in
    let pa = walkaddr t va s in
    let n = chunk src len in
    let round = (if pa == 0 then vmfault t sz va s else done (s, pa)) >>= λ f.
    let rest =
      copyin_from rounds t sz (dst + n) (va + pgsize) (len - n)
        (from_page n (f.0.page f.1) (src % pgsize) dst mem) f.0 in
    if f.1 == 0 then done (f.0, mem, minus_one) else rest in
    if len == 0 then done (s, mem, pos 0) else round

unfoldable pub copyin : ℕ → ℕ → ℕ → ℕ → ℕ → (ℕ → ℕ) → Vm → Outcome (Vm × (ℕ → ℕ) × ℤ)
unfolding copyin_from
copyin t sz dst src len mem s = copyin_from len t sz dst src len mem s

-- The inner loop of `copyinstr` over `n` bytes of a page: the memory, whether the NUL was met, and the next
-- address.
unfoldable pub string_in_page : ℕ → (ℕ → ℕ) → ℕ → ℕ → (ℕ → ℕ) → (ℕ → ℕ) × Bool × ℕ
string_in_page zero page j dst mem = (mem, false, dst)
string_in_page (suc n) page j dst mem =
    let rest = string_in_page n page (j + 1) (dst + 1) (update mem dst (page j)) in
    if page j == 0 then (update mem dst 0, true, dst) else rest

-- The outer loop, with `max` bytes to go.
unfoldable pub copyinstr_from : ℕ → ℕ → ℕ → ℕ → ℕ → (ℕ → ℕ) → Vm → (ℕ → ℕ) × ℤ
unfolding string_in_page
copyinstr_from zero t dst src max mem s = (mem, minus_one)
copyinstr_from (suc rounds) t dst src max mem s =
    let va = pg_round_down src in
    let pa = walkaddr t va s in
    let n = chunk src max in
    let (mem', got_null, dst') = string_in_page n (s.page pa) (src % pgsize) dst mem in
    let rest = copyinstr_from rounds t dst' (va + pgsize) (max - n) mem' s in
    if max == 0
    then (mem, minus_one)
    else if pa == 0
    then (mem, minus_one)
    else if got_null
    then (mem', pos 0)
    else rest

unfoldable pub copyinstr : ℕ → ℕ → ℕ → ℕ → (ℕ → ℕ) → Vm → (ℕ → ℕ) × ℤ
unfolding copyinstr_from
copyinstr t dst src max mem s = copyinstr_from max t dst src max mem s

-- `n` bytes from address `src` to place `j` of the page at `pa`.
abbrev pub to_page : ℕ → ℕ → ℕ → ℕ → (ℕ → ℕ) → Vm → Vm
to_page n pa j src mem s = record s { page = update s.page pa (from_page n mem src j (s.page pa)) }

-- A page of the process is made ready to be written: its copy is made if it is shared until it is written. The
-- Boolean says whether it can be written.
unfoldable pub open_page : ℕ → ℕ → Vm → Outcome (Vm × Bool)
open_page t va s = walk t va false s >>= λ w.
    let e = entry w.1 va s in
    let reload = λ (k : Vm). walk t va false k >>= λ w'. done (k, (entry w'.1 va k).flags.write) in
    let copied =
      cowhandler t va s >>= λ c. elim c.1 [ pos z ↦ reload c.0 | negsuc z ↦ done (c.0, false) ] in
    if w.1 == 0
    then done (s, false)
    else if not e.flags.valid || not e.flags.user
    then done (s, false)
    else if e.flags.cow
    then copied
    else done (s, e.flags.write)

-- The loop of `copyout`.
unfoldable pub copyout_from : ℕ → ℕ → ℕ → ℕ → ℕ → (ℕ → ℕ) → Vm → Outcome (Vm × ℤ)
unfolding open_page
copyout_from zero t dst src len mem s = done (s, pos 0)
copyout_from (suc rounds) t dst src len mem s =
    let va = pg_round_down dst in
    let n = chunk dst len in
    let round = open_page t va s >>= λ w.
    let pa = walkaddr t va w.0 in
    let rest =
      copyout_from rounds t (va + pgsize) (src + n) (len - n) mem
        (to_page n pa (dst % pgsize) src mem w.0) in
    if not w.1 then done (w.0, minus_one) else if pa == 0 then done (w.0, minus_one) else rest in
    if len == 0 then done (s, pos 0) else if leb maxva va then done (s, minus_one) else round

unfoldable pub copyout : ℕ → ℕ → ℕ → ℕ → (ℕ → ℕ) → Vm → Outcome (Vm × ℤ)
unfolding copyout_from
copyout t dst src len mem s = copyout_from len t dst src len mem s
