-- ===== src/Vm/CopyIn.antt =====
-- `copyin` of bytes that the process can reach.
use aut_whuoslab.Prelude.{
  ℕ, zero, suc, ◌+◌, ◌-◌, ◌%◌, ◌≤◌, ◌<◌, ◌≡◌, refl, sym, ap, ap₂, ◌∙◌, ◌≢◌, ◌⊎◌, inl, inr, false,
  arith, ◌==◌, dec_lt, pos, done,
}
use aut_whuoslab.Kalloc.{pgsize, update}
use aut_whuoslab.Kalloc.Inv.{update_self}
use aut_whuoslab.Vm.{Vm, walkaddr}
use aut_whuoslab.Vm.Memory.{pg_round_down}
use aut_whuoslab.Vm.Copy.{from_page, chunk, copyin_from, copyin}

pub from_page-there :
    (n : ℕ) (page : ℕ → ℕ) (j dst k : ℕ) (mem : ℕ → ℕ)
    → (k < dst) ⊎ (dst + n ≤ k)
    → from_page n page j dst mem k ≡ mem k
from_page-there zero page j dst k mem h = refl
from_page-there (suc n) page j dst k mem h =
    from_page-there n page (j + 1) (dst + 1) k (update mem dst (page j)) (later h)
    ∙ ground (arith, other h)
  where
    later : (k < dst) ⊎ (dst + suc n ≤ k) → (k < dst + 1) ⊎ (dst + 1 + n ≤ k)
    later (inl l) = inl (omega (arith, l))
    later (inr g) = inr (omega (arith, g))

    other : (k < dst) ⊎ (dst + suc n ≤ k) → k ≢ dst
    other (inl l) = omega (arith, l)
    other (inr g) = omega (arith, g)

pub from_page-here :
    (n : ℕ) (page : ℕ → ℕ) (j dst i : ℕ) (mem : ℕ → ℕ)
    → i < n
    → from_page n page j dst mem (dst + i) ≡ page (j + i)
from_page-here zero page j dst i mem h = absurd (omega (arith, h))
from_page-here (suc n) page j dst zero mem h =
    let z : dst + 0 ≡ dst = omega arith in
    let y : j + 0 ≡ j = omega arith in
    rw (z, y)
      (from_page-there n page (j + 1) (dst + 1) dst (update mem dst (page j)) (inl (omega arith))
        ∙ update_self mem dst (page j))
from_page-here (suc n) page j dst (suc i) mem h =
    let z : dst + suc i ≡ dst + 1 + i = omega arith in
    let y : j + suc i ≡ j + 1 + i = omega arith in
    rw (z, y)
      (from_page-here n page (j + 1) (dst + 1) i (update mem dst (page j)) (omega (arith, h)))

-- The process can reach these bytes, and they are these.
abbrev pub Reachable : ℕ → ℕ → ℕ → Vm → Type 0
Reachable t src len s = (i : ℕ) → i < len → walkaddr t (pg_round_down (src + i)) s ≢ 0

abbrev pub byte_of : ℕ → ℕ → Vm → ℕ
byte_of t va s = s.page (walkaddr t (pg_round_down va) s) (va % pgsize)

-- The memory after a whole copy.
pub record CopiedIn (t dst src len : ℕ) (mem : ℕ → ℕ) (s : Vm) (mem' : ℕ → ℕ) : Type 0 where
  pub bytes : (i : ℕ) → i < len → mem' (dst + i) ≡ byte_of t (src + i) s
  pub others : (k : ℕ) → (k < dst) ⊎ (dst + len ≤ k) → mem' k ≡ mem k

-- A round, and the rest.
CopiedIn-round :
    (t dst src len n : ℕ) (mem : ℕ → ℕ) (s : Vm) (mem' : ℕ → ℕ)
    → n ≤ len
    → src % pgsize + n ≤ pgsize
    → (n < len → src % pgsize + n ≡ pgsize)
    → CopiedIn t
        (dst + n)
        (pg_round_down src + pgsize)
        (len - n)
        (from_page n (s.page (walkaddr t (pg_round_down src) s)) (src % pgsize) dst mem)
        s
        mem'
    → CopiedIn t dst src len mem s mem'
CopiedIn-round t dst src len n mem s mem' l fit whole c = record {
  bytes = λ i h. by_place i h (dec_lt i n);
  others = λ k h.
      c.others k (wider k h) ∙ from_page-there n page (src % pgsize) dst k mem (narrower k h);
}
  where
    page : ℕ → ℕ
    page = s.page (walkaddr t (pg_round_down src) s)

    wider : (k : ℕ) → (k < dst) ⊎ (dst + len ≤ k) → (k < dst + n) ⊎ (dst + n + (len - n) ≤ k)
    wider k (inl h) = inl (omega (arith, h))
    wider k (inr h) = inr (omega (arith, h, l))

    narrower : (k : ℕ) → (k < dst) ⊎ (dst + len ≤ k) → (k < dst) ⊎ (dst + n ≤ k)
    narrower k (inl h) = inl h
    narrower k (inr h) = inr (omega (arith, h, l))

    by_place : (i : ℕ) → i < len → Dec (i < n) → mem' (dst + i) ≡ byte_of t (src + i) s
    by_place i h (yes q) =
        let v : pg_round_down (src + i) ≡ pg_round_down src = omega (arith, fit, q) in
        let j : (src + i) % pgsize ≡ src % pgsize + i = omega (arith, fit, q) in
        c.others (dst + i) (inl (omega (arith, q)))
        ∙ from_page-here n page (src % pgsize) dst i mem q
        ∙ ap₂ (λ a b. s.page (walkaddr t a s) b) (sym v) (sym j)
    by_place i h (no q) =
        let d : dst + i ≡ dst + n + (i - n) = omega (arith, q) in
        let v : pg_round_down src + pgsize + (i - n) ≡ src + i =
          omega (arith, q, h, whole (omega (arith, q, h))) in
        ap mem' d ∙ c.bytes (i - n) (omega (arith, q, h)) ∙ ap (λ a. byte_of t a s) v

copyin_from-CopiedIn :
    (rounds t sz dst src len : ℕ) (mem : ℕ → ℕ) (s : Vm)
    → len ≤ rounds
    → Reachable t src len s
    → (mem' : ℕ → ℕ) × (copyin_from rounds t sz dst src len mem s ≡ done (s, mem', pos 0))
      × CopiedIn t dst src len mem s mem'
unfolding copyin_from
copyin_from-CopiedIn zero t sz dst src len mem s h ok =
    (mem, refl, record { bytes = λ i l. absurd (omega (arith, h, l)); others = λ k l. refl })
copyin_from-CopiedIn (suc rounds) t sz dst src zero mem s h ok =
    (mem, refl, record { bytes = λ i l. absurd (omega (arith, l)); others = λ k l. refl })
copyin_from-CopiedIn (suc rounds) t sz dst src (suc len) mem s h ok =
    let n = chunk src (suc len) in
    let first : pg_round_down (src + 0) ≡ pg_round_down src = omega arith in
    let e : (walkaddr t (pg_round_down src) s == 0) ≡ false =
      nonzero (λ q. ok 0 (omega arith) (ap (λ a. walkaddr t a s) first ∙ q)) in
    let (mem', run, c) =
      copyin_from-CopiedIn rounds t sz (dst + n) (pg_round_down src + pgsize) (suc len - n)
        (from_page n (s.page (walkaddr t (pg_round_down src) s)) (src % pgsize) dst mem) s
        (omega (arith, h)) (later n (omega arith) (omega arith)) in
    (
      mem',
      rw (z, e) (rw e run),
      CopiedIn-round t dst src (suc len) n mem s mem' (omega arith) (omega arith)
          (λ q. omega (arith, q)) c,
    )
  where
    z : (suc len == 0) ≡ false
    z = ground arith

    nonzero : {k : ℕ} → k ≢ 0 → (k == 0) ≡ false
    nonzero q = ground (arith, q)

    later :
        (n : ℕ)
        → n ≤ suc len
        → (n < suc len → src % pgsize + n ≡ pgsize)
        → Reachable t (pg_round_down src + pgsize) (suc len - n) s
    later n l w i h =
        let v : pg_round_down (src + (n + i)) ≡ pg_round_down (pg_round_down src + pgsize + i) =
          omega (arith, h, w (omega (arith, h))) in
        λ q. ok (n + i) (omega (arith, h)) (ap (λ a. walkaddr t a s) v ∙ q)

-- When every byte of the range is on a page that the process can reach, `copyin` returns 0 and changes no page and no
-- entry: the bytes of the range are at `dst`, in order, and the rest of the kernel's memory is as it was.
pub copyin-CopiedIn :
    (t sz dst src len : ℕ) (mem : ℕ → ℕ) (s : Vm)
    → Reachable t src len s
    → (mem' : ℕ → ℕ) × (copyin t sz dst src len mem s ≡ done (s, mem', pos 0))
      × CopiedIn t dst src len mem s mem'
unfolding copyin
copyin-CopiedIn t sz dst src len mem s ok =
    copyin_from-CopiedIn len t sz dst src len mem s (omega arith) ok
