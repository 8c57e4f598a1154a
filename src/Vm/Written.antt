-- ===== src/Vm/Written.antt =====
-- What `copyout` writes.
use aut_whuoslab.Prelude.{
  ℕ, zero, suc, ◌+◌, ◌-◌, ◌%◌, ◌≤◌, ◌<◌, ◌≡◌, refl, sym, ap, ap₂, ◌∙◌, subst, ◌≢◌, ◌⊎◌, inl, inr,
  true, false, arith, leb, ◌==◌, dec_lt, ℕ_discrete, ℤ, pos, Outcome, done,
}
use aut_whuoslab.Kalloc.{pgsize, update}
use aut_whuoslab.Kalloc.Inv.{update_self}
use aut_whuoslab.Vm.{Vm, maxva, walkaddr}
use aut_whuoslab.Vm.Memory.{pg_round_down}
use aut_whuoslab.Vm.Copy.{from_page, chunk, open_page, copyout_from, copyout, copyin}
use aut_whuoslab.Vm.CopyIn.{from_page-here, from_page-there, copyin-CopiedIn}
use aut_whuoslab.Vm.CopyOut.{
  with_page, table_of, Writable, walkaddr-with_page, Writable-with_page, open_page-Writable,
  read_at-nonzero, walkaddr-read_at,
}

module _ (t : ℕ) (s : Vm) where
  -- The page of address `va`, and the place in it.
  abbrev pub frame : ℕ → ℕ
  frame va = walkaddr t (pg_round_down va) s

  -- All pages of the range can be written, and no two of them are one page of the RAM.
  pub record CanWrite (dst len : ℕ) : Type 0 where
    pub writable : (i : ℕ) → i < len → Writable t (pg_round_down (dst + i)) s
    pub apart :
        (i j : ℕ)
        → i < len
        → j < len
        → frame (dst + i) ≡ frame (dst + j)
        → pg_round_down (dst + i) ≡ pg_round_down (dst + j)

  -- Byte `j` of the page at `pa` is none of the range.
  abbrev pub Elsewhere : ℕ → ℕ → ℕ → ℕ → Type 0
  Elsewhere dst len pa j = (i : ℕ) → i < len → frame (dst + i) ≡ pa → (dst + i) % pgsize ≢ j

  -- The pages after a whole copy.
  pub record Written (dst src len : ℕ) (mem : ℕ → ℕ) (g g' : ℕ → ℕ → ℕ) : Type 0 where
    pub bytes : (i : ℕ) → i < len → g' (frame (dst + i)) ((dst + i) % pgsize) ≡ mem (src + i)
    pub others : (pa j : ℕ) → Elsewhere dst len pa j → g' pa j ≡ g pa j

  -- The pages after a round of `n` bytes.
  abbrev round_page : ℕ → ℕ → ℕ → (ℕ → ℕ) → (ℕ → ℕ → ℕ) → ℕ → ℕ → ℕ
  round_page dst src n mem g =
      update g (frame dst) (from_page n mem src (dst % pgsize) (g (frame dst)))

  module _ (dst src len n : ℕ) (mem : ℕ → ℕ) (g g' : ℕ → ℕ → ℕ) (ok : CanWrite dst len)
      (l : n ≤ len) (some_bytes : 0 < n) (fit : dst % pgsize + n ≤ pgsize)
      (whole : n < len → dst % pgsize + n ≡ pgsize)
      (rest : Written
        (pg_round_down dst + pgsize)
        (src + n)
        (len - n)
        mem
        (round_page dst src n mem g)
        g') where
    -- The rest of the range begins with the next page.
    next : (i : ℕ) → i < len - n → pg_round_down dst + pgsize + i ≡ dst + (n + i)
    next i h = omega (arith, h, whole (omega (arith, h)))

    here : (i : ℕ) → i < n → pg_round_down (dst + i) ≡ pg_round_down dst
    here i h = omega (arith, h, fit)

    place : (i : ℕ) → i < n → (dst + i) % pgsize ≡ dst % pgsize + i
    place i h = omega (arith, h, fit)

    -- The rest does not write to this page.
    left_alone :
        (i : ℕ)
        → i < n
        → g' (frame dst) (dst % pgsize + i)
          ≡ round_page dst src n mem g (frame dst) (dst % pgsize + i)
    left_alone i h =
        rest.others (frame dst) (dst % pgsize + i)
          (λ k q e. absurd (distinct k q (ap frame (sym (next k q)) ∙ e)))
      where
        distinct : (k : ℕ) → k < len - n → frame (dst + (n + k)) ≢ frame dst
        distinct k q e =
            let first : dst + 0 ≡ dst = omega arith in
            omega (
              arith,
              ok.apart (n + k) 0 (omega (arith, q)) (omega (arith, q)) (e ∙ ap frame (sym first)),
              whole (omega (arith, q)),
            )

    written_here : (i : ℕ) → i < n → g' (frame (dst + i)) ((dst + i) % pgsize) ≡ mem (src + i)
    written_here i h =
        ap₂ g' (ap (λ v. walkaddr t v s) (here i h)) (place i h)
        ∙ left_alone i h
        ∙ ap (λ f. f (dst % pgsize + i))
            (update_self g (frame dst) (from_page n mem src (dst % pgsize) (g (frame dst))))
        ∙ from_page-here n mem src (dst % pgsize) i (g (frame dst)) h

    written_there :
        (i : ℕ) → i < len → Dec (i < n) → g' (frame (dst + i)) ((dst + i) % pgsize) ≡ mem (src + i)
    written_there i h (yes q) = written_here i q
    written_there i h (no q) =
        let v : pg_round_down dst + pgsize + (i - n) ≡ dst + i =
          next (i - n) (omega (arith, h, q)) ∙ omega (arith, q) in
        let b : src + n + (i - n) ≡ src + i = omega (arith, q) in
        ap (λ a. g' (frame a) (a % pgsize)) (sym v)
        ∙ rest.bytes (i - n) (omega (arith, h, q))
        ∙ ap mem b

    round_there :
        (pa j : ℕ)
        → Elsewhere dst len pa j
        → Dec (frame dst ≡ pa)
        → round_page dst src n mem g pa j ≡ g pa j
    round_there pa j o (no q) = ground (arith, q)
    round_there pa j o (yes q) =
        subst (λ p. round_page dst src n mem g p j ≡ g p j) q
          (ap (λ f. f j)
              (update_self g (frame dst) (from_page n mem src (dst % pgsize) (g (frame dst))))
            ∙ from_page-there n mem src (dst % pgsize) j (g (frame dst))
                (beside (dec_lt j (dst % pgsize)) (dec_lt j (dst % pgsize + n))))
      where
        beside :
            Dec (j < dst % pgsize)
            → Dec (j < dst % pgsize + n)
            → (j < dst % pgsize) ⊎ (dst % pgsize + n ≤ j)
        beside (yes a) b = inl a
        beside (no a) (no b) = inr (omega (arith, b))
        beside (no a) (yes b) =
            let i = j - dst % pgsize in
            let h : i < n = omega (arith, a, b) in
            absurd (
              o i (omega (arith, h, l)) (ap (λ v. walkaddr t v s) (here i h) ∙ q)
                (place i h ∙ omega (arith, a)))

    Written-round : Written dst src len mem g g'
    Written-round = record {
      bytes = λ i h. written_there i h (dec_lt i n);
      others = λ pa j o.
          rest.others pa j (λ i h e.
            subst (λ a. a % pgsize ≢ j) (sym (next i h))
              (o (n + i) (omega (arith, h)) (ap frame (sym (next i h)) ∙ e)))
          ∙ round_there pa j o (ℕ_discrete (frame dst) pa);
    }

  -- What `copyout` does in all: the pages change, and nothing else.
  abbrev pub CopiedOut : ℕ → ℕ → ℕ → (ℕ → ℕ) → (ℕ → ℕ → ℕ) → Outcome (Vm × ℤ) → Type 0
  CopiedOut dst src len mem g r =
      (g' : ℕ → ℕ → ℕ) × (r ≡ done (with_page s g', pos 0)) × Written dst src len mem g g'

  copyout_from-Written :
      (rounds dst src len : ℕ) (mem : ℕ → ℕ) (g : ℕ → ℕ → ℕ)
      → len ≤ rounds
      → CanWrite dst len
      → CopiedOut dst src len mem g (copyout_from rounds t dst src len mem (with_page s g))
  unfolding copyout_from
  copyout_from-Written zero dst src len mem g h ok =
      (g, refl, record { bytes = λ i l. absurd (omega (arith, h, l)); others = λ pa j o. refl })
  copyout_from-Written (suc rounds) dst src zero mem g h ok =
      (g, refl, record { bytes = λ i l. absurd (omega (arith, l)); others = λ pa j o. refl })
  copyout_from-Written (suc rounds) dst src (suc len) mem g h ok =
      let n = chunk dst (suc len) in
      let (g', run, w) =
        copyout_from-Written rounds (pg_round_down dst + pgsize) (src + n) (suc len - n) mem
          (round_page dst src n mem g) (omega (arith, h)) (later n (omega arith) (omega arith)) in
      (
        g',
        rw (z, below, opens) (rw (pa, reached) run),
        Written-round dst src (suc len) n mem g g' ok (omega arith) (omega arith) (omega arith)
            (λ q. omega (arith, q)) w,
      )
    where
      first : Writable t (pg_round_down dst) s
      first =
          let e : dst + 0 ≡ dst = omega arith in
          subst (λ v. Writable t (pg_round_down v) s) e (ok.writable 0 (omega arith))

      z : (suc len == 0) ≡ false
      z = ground arith

      below : leb maxva (pg_round_down dst) ≡ false
      below =
          (read_at-nonzero (table_of t (pg_round_down dst) s) (pg_round_down dst) s
            (λ e. first.reach (walkaddr-read_at t (pg_round_down dst) s ∙ e))).0

      opens : open_page t (pg_round_down dst) (with_page s g) ≡ done (with_page s g, true)
      opens =
          open_page-Writable t (pg_round_down dst) (with_page s g)
            (Writable-with_page t (pg_round_down dst) s g first)

      pa : walkaddr t (pg_round_down dst) (with_page s g) ≡ walkaddr t (pg_round_down dst) s
      pa = walkaddr-with_page t (pg_round_down dst) s g

      reached : (walkaddr t (pg_round_down dst) s == 0) ≡ false
      reached = let r = first.reach in ground (arith, r)

      later :
          (n : ℕ)
          → n ≤ suc len
          → (n < suc len → dst % pgsize + n ≡ pgsize)
          → CanWrite (pg_round_down dst + pgsize) (suc len - n)
      later n l w = record {
        writable = λ i b.
            subst (λ v. Writable t (pg_round_down v) s) (sym (over i b))
              (ok.writable (n + i) (omega (arith, b)));
        apart = λ i j b c e.
            ap pg_round_down (over i b)
            ∙ ok.apart (n + i) (n + j) (omega (arith, b)) (omega (arith, c))
                (ap frame (sym (over i b)) ∙ e ∙ ap frame (over j c))
            ∙ ap pg_round_down (sym (over j c));
      }
        where
          over : (i : ℕ) → i < suc len - n → pg_round_down dst + pgsize + i ≡ dst + (n + i)
          over i b = omega (arith, b, w (omega (arith, b)))

  -- When all pages of the range are pages that the process may write to, none of them shared until it is written and
  -- no two of them one page of the RAM, `copyout` returns 0 and changes no entry: the bytes from `src` on are at the
  -- addresses from `dst` on, in order, and no other byte of any page has changed.
  pub copyout-Written :
      (dst src len : ℕ) (mem : ℕ → ℕ)
      → CanWrite dst len
      → CopiedOut dst src len mem s.page (copyout t dst src len mem s)
  unfolding copyout
  copyout-Written dst src len mem ok =
      copyout_from-Written len dst src len mem s.page (omega arith) ok

-- What `copyout` has written, to pages as in `copyout-Written`, is what `copyin` reads back from the same addresses.
pub copyin-copyout :
    (t sz dst src back len : ℕ) (mem : ℕ → ℕ) (s : Vm)
    → CanWrite t s dst len
    → (s' : Vm) × (mem' : ℕ → ℕ) × (copyout t dst src len mem s ≡ done (s', pos 0))
      × (copyin t sz back dst len mem s' ≡ done (s', mem', pos 0))
      × ((i : ℕ) → i < len → mem' (back + i) ≡ mem (src + i))
copyin-copyout t sz dst src back len mem s ok =
    let (g', wrote, w) = copyout-Written t s dst src len mem ok in
    let s' = with_page s g' in
    let (mem', read, c) = copyin-CopiedIn t sz back dst len mem s' (λ i h e.
      (ok.writable i h).reach (sym (walkaddr-with_page t (pg_round_down (dst + i)) s g') ∙ e)) in
    (
      s',
      mem',
      wrote,
      read,
      λ i h.
          c.bytes i h
          ∙ ap (λ a. g' a ((dst + i) % pgsize))
              (walkaddr-with_page t (pg_round_down (dst + i)) s g')
          ∙ w.bytes i h,
    )
