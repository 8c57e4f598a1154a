-- ===== src/Vm/UserBytes.antt =====
-- The copies from a process, byte by byte.
use aut_whuoslab.Prelude.{
  ℕ, zero, suc, ◌+◌, ◌-◌, ◌*◌, ◌/◌, ◌%◌, ◌≤◌, ◌<◌, ◌≡◌, refl, sym, ap, ap₂, ◌∙◌, inl, inr, Bool,
  true, false, Option, none, some, arith, ◌==◌, if◌then◌else◌, Bool-cases, dec_lt, ℤ, pos,
  minus_one,
}
use aut_whuoslab.Kalloc.{pgsize, update}
use aut_whuoslab.Vm.{Vm, walkaddr}
use aut_whuoslab.Vm.Memory.{pg_round_down}
use aut_whuoslab.Vm.Copy.{chunk, string_in_page, copyinstr_from, copyinstr}

-- The byte at address `va` of the process, if the process can reach it.
abbrev pub user_byte : ℕ → ℕ → Vm → Option ℕ
user_byte t va s =
    let pa = walkaddr t (pg_round_down va) s in
    if pa == 0 then none else some (s.page pa (va % pgsize))

abbrev string_step : ℕ → (ℕ → ℕ) → (ℕ → (ℕ → ℕ) × ℤ) → Option ℕ → (ℕ → ℕ) × ℤ
string_step dst mem rest none = (mem, minus_one)
string_step dst mem rest (some b) = if b == 0 then (update mem dst 0, pos 0) else rest b

-- A string is copied byte by byte until its NUL, until a byte that cannot be reached, or until `max` bytes.
pub string_bytes : ℕ → ℕ → ℕ → ℕ → (ℕ → ℕ) → Vm → (ℕ → ℕ) × ℤ
unfolding string_step
string_bytes zero t dst va mem s = (mem, minus_one)
string_bytes (suc max) t dst va mem s =
    string_step dst mem (λ b. string_bytes max t (dst + 1) (va + 1) (update mem dst b) s)
      (user_byte t va s)

-- What is left to do after some bytes of a page.
abbrev after_page : ℕ → ℕ → ℕ → Vm → (ℕ → ℕ) × Bool × ℕ → (ℕ → ℕ) × ℤ
after_page max t va s (mem, true, dst) = (mem, pos 0)
after_page max t va s (mem, false, dst) = string_bytes max t dst va mem s

module _ (t : ℕ) (s : Vm) where
  -- A byte of the page that holds `va`.
  in_page :
      (va0 va : ℕ)
      → va0 % pgsize ≡ 0
      → va0 ≤ va
      → va < va0 + pgsize
      → (walkaddr t va0 s == 0) ≡ false
      → user_byte t va s ≡ some (s.page (walkaddr t va0 s) (va - va0))
  in_page va0 va a l u e =
      let v : pg_round_down va ≡ va0 = omega (arith, a, l, u) in
      let j : va % pgsize ≡ va - va0 = omega (arith, a, l, u) in rw (v, e, j) refl

  string_in_page-string_bytes :
      (n max va0 va dst : ℕ) (mem : ℕ → ℕ)
      → va0 % pgsize ≡ 0
      → va0 ≤ va
      → va + n ≤ va0 + pgsize
      → (walkaddr t va0 s == 0) ≡ false
      → string_bytes (n + max) t dst va mem s
        ≡ after_page max t
            (va + n)
            s
            (string_in_page n (s.page (walkaddr t va0 s)) (va - va0) dst mem)
  unfolding string_bytes string_in_page
  string_in_page-string_bytes zero max va0 va dst mem a l u e =
      let z : va + 0 ≡ va = omega arith in let m : 0 + max ≡ max = omega arith in rw (z, m) refl
  string_in_page-string_bytes (suc n) max va0 va dst mem a l u e =
      let b = in_page va0 va a l (omega (arith, u)) e in
      let m : suc n + max ≡ suc (n + max) = omega arith in
      let k : va + 1 + n ≡ va + suc n = omega arith in
      let j : va + 1 - va0 ≡ va - va0 + 1 = omega (arith, l) in
      let page = s.page (walkaddr t va0 s) in
      let x = page (va - va0) in
      let ih =
        string_in_page-string_bytes n max va0 (va + 1) (dst + 1) (update mem dst x) a
          (omega (arith, l)) (omega (arith, u)) e
        ∙ ap₂ (λ v i. after_page max t v s (string_in_page n page i (dst + 1) (update mem dst x))) k
            j in
      ap (λ i. string_bytes i t dst va mem s) m
      ∙ ap
          (string_step dst mem
            (λ c. string_bytes (n + max) t (dst + 1) (va + 1) (update mem dst c) s))
          b
      ∙ by_byte (x == 0) (string_in_page n page (va - va0 + 1) (dst + 1) (update mem dst x)) ih
    where
      by_byte :
          (b : Bool) {p : (ℕ → ℕ) × ℤ} (r : (ℕ → ℕ) × Bool × ℕ)
          → p ≡ after_page max t (va + suc n) s r
          → (if b then (update mem dst 0, pos 0) else p)
            ≡ after_page max t (va + suc n) s (if b then (update mem dst 0, true, dst) else r)
      by_byte true r h = refl
      by_byte false r h = h

  -- The end of a page, or of what is left.
  after_page-rest :
      (max va : ℕ) (r : (ℕ → ℕ) × Bool × ℕ)
      → after_page max t va s r ≡ (if r.1 then (r.0, pos 0) else string_bytes max t r.2 va r.0 s)
  after_page-rest max va (mem, true, dst) = refl
  after_page-rest max va (mem, false, dst) = refl

  -- No byte of a page that is out of reach can be read.
  string_bytes-unreachable :
      (max dst va : ℕ) (mem : ℕ → ℕ)
      → (walkaddr t (pg_round_down va) s == 0) ≡ true
      → string_bytes max t dst va mem s ≡ (mem, minus_one)
  unfolding string_bytes
  string_bytes-unreachable zero dst va mem e = refl
  string_bytes-unreachable (suc max) dst va mem e =
      ap
        (λ b.
          string_step dst mem (λ c. string_bytes max t (dst + 1) (va + 1) (update mem dst c) s)
            (if b then none else some (s.page (walkaddr t (pg_round_down va) s) (va % pgsize))))
        e

  copyinstr_from-string_bytes :
      (rounds max dst va : ℕ) (mem : ℕ → ℕ)
      → max ≤ rounds
      → copyinstr_from rounds t dst va max mem s ≡ string_bytes max t dst va mem s
  unfolding copyinstr_from string_bytes
  copyinstr_from-string_bytes zero zero dst va mem h = refl
  copyinstr_from-string_bytes zero (suc max) dst va mem h = absurd (omega (arith, h))
  copyinstr_from-string_bytes (suc rounds) zero dst va mem h = refl
  copyinstr_from-string_bytes (suc rounds) (suc max) dst va mem h =
      elim (Bool-cases (walkaddr t va0 s == 0)) [
        | inl e ↦ ap₂ step z e ∙ sym (string_bytes-unreachable (suc max) dst va mem e)
        | inr e ↦
            ap₂ step z e
            ∙ ap (λ p. if r.1 then (r.0, pos 0) else p)
                (copyinstr_from-string_bytes rounds (suc max - n) r.2 (va0 + pgsize) r.0
                    (omega (arith, h))
                  ∙ next r.2 r.0)
            ∙ sym (after_page-rest (suc max - n) (va + n) r)
            ∙ ap
                (λ i.
                  after_page (suc max - n) t (va + n) s
                    (string_in_page n (s.page (walkaddr t va0 s)) i dst mem))
                (sym place)
            ∙ sym (
                string_in_page-string_bytes n (suc max - n) va0 va dst mem (omega arith)
                  (omega arith) (omega arith) e)
            ∙ ap (λ k. string_bytes k t dst va mem s) all
      ]
    where
      va0 : ℕ
      va0 = va / pgsize * pgsize

      n : ℕ
      n = chunk va (suc max)

      r : (ℕ → ℕ) × Bool × ℕ
      r = string_in_page n (s.page (walkaddr t va0 s)) (va % pgsize) dst mem

      z : (suc max == 0) ≡ false
      z = ground arith

      step : Bool → Bool → (ℕ → ℕ) × ℤ
      step a b =
          if◌then◌else◌ {A = (ℕ → ℕ) × ℤ} a (mem, minus_one)
            (if◌then◌else◌ {A = (ℕ → ℕ) × ℤ} b (mem, minus_one)
              (if◌then◌else◌ {A = (ℕ → ℕ) × ℤ} r.1 (r.0, pos 0)
                (copyinstr_from rounds t r.2 (va0 + pgsize) (suc max - n) r.0 s)))

      all : n + (suc max - n) ≡ suc max
      all = omega arith

      place : va - va0 ≡ va % pgsize
      place = omega arith

      next :
          (d : ℕ) (m : ℕ → ℕ)
          → string_bytes (suc max - n) t d (va0 + pgsize) m s
            ≡ string_bytes (suc max - n) t d (va + n) m s
      next d m = elim (dec_lt (suc max) (pgsize - va % pgsize)) [
        | yes q ↦ let k : suc max - n ≡ 0 = omega (arith, q) in rw k refl
        | no q ↦
            let k : va0 + pgsize ≡ va + n = omega (arith, q) in
            ap (λ v. string_bytes (suc max - n) t d v m s) k
      ]

-- `copyinstr` copies a string as `string_bytes` does: it returns 0 when it has copied a NUL, and -1 when
-- a byte before it cannot be reached by the process, or when there is none among the first `max` bytes.
pub copyinstr-string_bytes :
    (t dst src max : ℕ) (mem : ℕ → ℕ) (s : Vm)
    → copyinstr t dst src max mem s ≡ string_bytes max t dst src mem s
unfolding copyinstr
copyinstr-string_bytes t dst src max mem s =
    copyinstr_from-string_bytes t s max max dst src mem (omega arith)
