-- ===== src/Strings/Copy.antt =====
-- `safestrcpy` leaves a terminated string.
use aut_whuoslab.Prelude.{
  ℕ, zero, suc, ◌+◌, ◌≤◌, ◌<◌, ◌≡◌, refl, sym, ap, ◌∙◌, ◌⊎◌, inl, inr, true, false, arith, ◌==◌,
  Bool-cases, pos,
}
use aut_whuoslab.Kalloc.{update}
use aut_whuoslab.Strings.{safestrcpy_from, safestrcpy}

-- A round of the loop at the end of the source, and before it.
round_end :
    (n s t : ℕ) (m : ℕ → ℕ)
    → (m t == 0) ≡ true
    → safestrcpy_from (suc n) s t m ≡ update (update m s (m t)) (s + 1) 0
unfolding safestrcpy_from
round_end n s t m e =
    ap
      (λ b. elim b as (λ _. ℕ → ℕ) [
        | true ↦ update (update m s (m t)) (s + 1) 0
        | false ↦ safestrcpy_from n (s + 1) (t + 1) (update m s (m t))
      ])
      e

round_more :
    (n s t : ℕ) (m : ℕ → ℕ)
    → (m t == 0) ≡ false
    → safestrcpy_from (suc n) s t m ≡ safestrcpy_from n (s + 1) (t + 1) (update m s (m t))
unfolding safestrcpy_from
round_more n s t m e =
    ap
      (λ b. elim b as (λ _. ℕ → ℕ) [
        | true ↦ update (update m s (m t)) (s + 1) 0
        | false ↦ safestrcpy_from n (s + 1) (t + 1) (update m s (m t))
      ])
      e

safestrcpy_from-outside :
    (n s t x : ℕ) (m : ℕ → ℕ) → (x < s) ⊎ (s + n < x) → safestrcpy_from n s t m x ≡ m x
unfolding safestrcpy_from
safestrcpy_from-outside zero s t x m (inl h) = ground arith
safestrcpy_from-outside zero s t x m (inr h) = ground arith
safestrcpy_from-outside (suc n) s t x m (inl h) = elim (Bool-cases (m t == 0)) [
  | inl e ↦ rw (round_end n s t m e) (ground arith)
  | inr e ↦
      rw (round_more n s t m e)
        (safestrcpy_from-outside n (s + 1) (t + 1) x _ (inl (omega arith)) ∙ ground arith)
]
safestrcpy_from-outside (suc n) s t x m (inr h) = elim (Bool-cases (m t == 0)) [
  | inl e ↦ rw (round_end n s t m e) (ground arith)
  | inr e ↦
      rw (round_more n s t m e)
        (safestrcpy_from-outside n (s + 1) (t + 1) x _ (inr (omega arith)) ∙ ground arith)
]

-- The string at `s` of the memory `r`: the bytes from `t` on of `m` up to place `j`, where it ends because
-- the source does or because `n` bytes are copied.
pub record Copied (n s t : ℕ) (m r : ℕ → ℕ) : Type 0 where
  pub j : ℕ
  pub within : j ≤ n
  pub ended : r (s + j) ≡ 0
  pub same : (i : ℕ) → i < j → r (s + i) ≡ m (t + i)
  pub whole : (m (t + j) ≡ 0) ⊎ (j ≡ n)

safestrcpy_from-Copied :
    (n s t : ℕ) (m : ℕ → ℕ) → (s + n < t) ⊎ (t + n < s) → Copied n s t m (safestrcpy_from n s t m)
unfolding safestrcpy_from
safestrcpy_from-Copied zero s t m a = record {
  j = 0;
  within = omega arith;
  ended = ground arith;
  same = λ i h. absurd (omega arith);
  whole = inr refl;
}
safestrcpy_from-Copied (suc n) s t m a = elim (Bool-cases (m t == 0)) [
  | inl e ↦ rw (round_end n s t m e) (record {
    j = 0;
    within = omega arith;
    ended = ground arith;
    same = λ i h. absurd (omega arith);
    whole = inl (source_end e);
  })
  | inr e ↦
      rw (round_more n s t m e)
        (longer (safestrcpy_from-Copied n (s + 1) (t + 1) (update m s (m t)) (later a)))
]
  where
    source_end : (m t == 0) ≡ true → m (t + 0) ≡ 0
    source_end e = let q : t + 0 ≡ t = omega arith in rw q (ground arith)

    later : (s + suc n < t) ⊎ (t + suc n < s) → (s + 1 + n < t + 1) ⊎ (t + 1 + n < s + 1)
    later (inl l) = inl (omega arith)
    later (inr l) = inr (omega arith)

    apart :
        (i : ℕ)
        → i ≤ n
        → (s + suc n < t) ⊎ (t + suc n < s)
        → update m s (m t) (t + 1 + i) ≡ m (t + suc i)
    apart i h (inl l) = let q : t + 1 + i ≡ t + suc i = omega arith in rw q (ground arith)
    apart i h (inr l) = let q : t + 1 + i ≡ t + suc i = omega arith in rw q (ground arith)

    longer :
        Copied n
          (s + 1)
          (t + 1)
          (update m s (m t))
          (safestrcpy_from n (s + 1) (t + 1) (update m s (m t)))
        → Copied (suc n) s t m (safestrcpy_from n (s + 1) (t + 1) (update m s (m t)))
    longer c = record {
      j = suc c.j;
      within = omega (arith, c.within);
      ended = (let q : s + suc c.j ≡ s + 1 + c.j = omega arith in rw q c.ended);
      same = every;
      whole = reason c.whole;
    }
      where
        every :
            (i : ℕ)
            → i < suc c.j
            → safestrcpy_from n (s + 1) (t + 1) (update m s (m t)) (s + i) ≡ m (t + i)
        every zero h =
            let q : s + 0 ≡ s = omega arith in
            let g : t + 0 ≡ t = omega arith in
            rw (q, g)
              (safestrcpy_from-outside n (s + 1) (t + 1) s (update m s (m t)) (inl (omega arith))
                ∙ ground arith)
        every (suc i) h =
            let q : s + suc i ≡ s + 1 + i = omega arith in
            rw q (c.same i (omega arith)) ∙ apart i (omega (arith, c.within)) a

        reason :
            (update m s (m t) (t + 1 + c.j) ≡ 0) ⊎ (c.j ≡ n)
            → (m (t + suc c.j) ≡ 0) ⊎ (suc c.j ≡ suc n)
        reason (inl z) = inl (sym (apart c.j c.within a) ∙ z)
        reason (inr z) = inr (ap suc z)

-- `safestrcpy` with room for `n + 1` bytes, which do not overlap the source, leaves a string that ends
-- within that room, is the source's up to its end or its first `n` bytes, and writes nothing outside.
pub safestrcpy-Copied :
    (n s t : ℕ) (m : ℕ → ℕ)
    → (s + n < t) ⊎ (t + n < s)
    → Copied n s t m (safestrcpy s t (pos (suc n)) m)
      × ((x : ℕ) → (x < s) ⊎ (s + n < x) → safestrcpy s t (pos (suc n)) m x ≡ m x)
unfolding safestrcpy
safestrcpy-Copied n s t m a =
    (safestrcpy_from-Copied n s t m a, λ x h. safestrcpy_from-outside n s t x m h)
