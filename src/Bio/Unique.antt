-- ===== src/Bio/Unique.antt =====
-- A disk block has at most one buffer.
use aut_whuoslab.Prelude.{
  ℕ, suc, ◌≤◌, ◌<◌, ◌≡◌, refl, sym, ap, ◌∙◌, subst, ◌⊎◌, inl, inr, Bool, true, false, List, [], ◌∷◌,
  Option, none, some, arith, ◌==◌, if◌then◌else◌, Outcome, done, panic, All, ℕ_discrete,
}
use aut_whuoslab.Bio.{Buf, more, has, hit, recycle, bget}

abbrev pub one_more : Bool → ℕ → ℕ
one_more true n = suc n
one_more false n = n

one_more_mono : (t : Bool) (m n : ℕ) → m ≤ n → one_more t m ≤ one_more t n
one_more_mono true m n h = omega (arith, h)
one_more_mono false m n h = h

one_more-suc : (t : Bool) (m n : ℕ) → m ≤ suc n → one_more t m ≤ suc (one_more t n)
one_more-suc true m n h = omega (arith, h)
one_more-suc false m n h = h

one_more_ge : (t : Bool) (n : ℕ) → n ≤ one_more t n
one_more_ge true n = omega arith
one_more_ge false n = omega arith

one_more_le : (t : Bool) (n : ℕ) → one_more t n ≤ suc n
one_more_le true n = omega arith
one_more_le false n = omega arith

module _ {ℓ} {A : Type ℓ} where
  -- The number of buffers of a block.
  abbrev pub copies : ℕ → ℕ → List (Buf A) → ℕ
  copies dev blockno [] = 0
  copies dev blockno (x ∷ xs) = one_more (has dev blockno x) (copies dev blockno xs)

  -- Device 0, which the buffers name before their first use, does not count.
  abbrev pub Unique : List (Buf A) → Type 0
  Unique bufs = (dev blockno : ℕ) → copies (suc dev) blockno bufs ≤ 1

  abbrev pub Referenced : Buf A → Type 0
  Referenced x = (x.refcnt == 0) ≡ false

  -- What the search for a block finds.
  abbrev pub Hit : ℕ → ℕ → List (Buf A) → Option (ℕ × List (Buf A)) → Type 0
  Hit dev blockno bufs none = copies dev blockno bufs ≡ 0
  Hit dev blockno bufs (some (s, ys)) =
      (0 < copies dev blockno bufs) × ((d b : ℕ) → copies d b ys ≡ copies d b bufs)

  hit-Hit : (dev blockno : ℕ) (bufs : List (Buf A)) → Hit dev blockno bufs (hit dev blockno bufs)
  unfolding hit
  hit-Hit dev blockno [] = refl
  hit-Hit dev blockno (x ∷ xs) =
      by_key (has dev blockno x) refl (later (hit dev blockno xs) (hit-Hit dev blockno xs))
    where
      found_later : Option (ℕ × List (Buf A)) → Option (ℕ × List (Buf A))
      found_later r = elim r [ none ↦ none | some (s, ys) ↦ some (s, x ∷ ys) ]

      later :
          (r : Option (ℕ × List (Buf A)))
          → Hit dev blockno xs r
          → has dev blockno x ≡ false
          → Hit dev blockno (x ∷ xs) (found_later r)
      later none h n = ap (λ t. one_more t (copies dev blockno xs)) n ∙ h
      later (some (s, ys)) h n = (
        subst (λ t. 0 < one_more t (copies dev blockno xs)) (sym n) h.0,
        λ d b. ap (one_more (has d b x)) (h.1 d b),
      )

      by_key :
          (t : Bool)
          → has dev blockno x ≡ t
          → (has dev blockno x ≡ false
              → Hit dev blockno (x ∷ xs) (found_later (hit dev blockno xs)))
          → Hit dev blockno (x ∷ xs) (
              if◌then◌else◌ {A = Option (ℕ × List (Buf A))}
                (has dev blockno x)
                (some (x.slot, more x ∷ xs))
                (found_later (hit dev blockno xs)))
      by_key true e l =
          subst
            (λ u. Hit dev blockno (x ∷ xs) (
              if◌then◌else◌ {A = Option (ℕ × List (Buf A))} u (some (x.slot, more x ∷ xs))
                (found_later (hit dev blockno xs))))
            (sym e)
            (subst (λ u. 0 < one_more u (copies dev blockno xs)) (sym e) (omega arith), λ d b. refl)
      by_key false e l =
          subst
            (λ u. Hit dev blockno (x ∷ xs) (
              if◌then◌else◌ {A = Option (ℕ × List (Buf A))} u (some (x.slot, more x ∷ xs))
                (found_later (hit dev blockno xs))))
            (sym e) (l e)

  -- What the search for a buffer without references finds: the block then has one buffer more, and no
  -- other block has more than before.
  abbrev pub Recycled : ℕ → ℕ → List (Buf A) → Option (ℕ × List (Buf A)) → Type 0
  Recycled dev blockno bufs none = All Referenced bufs
  Recycled dev blockno bufs (some (s, ys)) =
      (copies dev blockno ys ≤ suc (copies dev blockno bufs))
      × (0 < copies dev blockno ys)
      × ((d b : ℕ) → ((d ≡ dev) × (b ≡ blockno)) ⊎ (copies d b ys ≤ copies d b bufs))

  recycle-Recycled :
      (dev blockno : ℕ) (bufs : List (Buf A)) → Recycled dev blockno bufs (recycle dev blockno bufs)
  unfolding recycle
  recycle-Recycled dev blockno [] = tt
  recycle-Recycled dev blockno (x ∷ xs) =
      later (recycle dev blockno xs) (recycle-Recycled dev blockno xs)
    where
      fresh : Buf A
      fresh = record x { dev = dev; blockno = blockno; valid = false; refcnt = 1 }

      here : Option (ℕ × List (Buf A))
      here = if x.refcnt == 0 then some (x.slot, fresh ∷ xs) else none

      found : Option (ℕ × List (Buf A)) → Option (ℕ × List (Buf A))
      found r = elim r [ some (s, ys) ↦ some (s, x ∷ ys) | none ↦ here ]

      is_key : has dev blockno fresh ≡ true
      is_key = ground arith

      others : (d b : ℕ) → ((d ≡ dev) × (b ≡ blockno)) ⊎ (has d b fresh ≡ false)
      others d b = elim (ℕ_discrete d dev) [
        | yes e ↦ elim (ℕ_discrete b blockno) [ yes g ↦ inl (e, g) | no g ↦ inr (ground arith) ]
        | no e ↦ inr (ground arith)
      ]

      by_ref :
          (t : Bool)
          → (x.refcnt == 0) ≡ t
          → All Referenced xs
          → Recycled dev blockno (x ∷ xs) (if t then some (x.slot, fresh ∷ xs) else none)
      by_ref true e a = (
        subst (λ t. one_more t (copies dev blockno xs) ≤ suc (copies dev blockno (x ∷ xs)))
            (sym is_key) (omega (arith, one_more_ge (has dev blockno x) (copies dev blockno xs))),
        subst (λ t. 0 < one_more t (copies dev blockno xs)) (sym is_key) (omega arith),
        λ d b. away d b (others d b),
      )
        where
          away :
              (d b : ℕ)
              → ((d ≡ dev) × (b ≡ blockno)) ⊎ (has d b fresh ≡ false)
              → ((d ≡ dev) × (b ≡ blockno)) ⊎ (copies d b (fresh ∷ xs) ≤ copies d b (x ∷ xs))
          away d b (inl e) = inl e
          away d b (inr e) = inr (
              subst (λ t. one_more t (copies d b xs) ≤ copies d b (x ∷ xs)) (sym e)
                (one_more_ge (has d b x) (copies d b xs)))
      by_ref false e a = (e, a)

      later :
          (r : Option (ℕ × List (Buf A)))
          → Recycled dev blockno xs r
          → Recycled dev blockno (x ∷ xs) (found r)
      later none a = by_ref (x.refcnt == 0) refl a
      later (some (s, ys)) (c, p, o) = (
        one_more-suc (has dev blockno x) (copies dev blockno ys) (copies dev blockno xs) c,
        omega (arith, p, one_more_ge (has dev blockno x) (copies dev blockno ys)),
        λ d b. up d b (o d b),
      )
        where
          up :
              (d b : ℕ)
              → ((d ≡ dev) × (b ≡ blockno)) ⊎ (copies d b ys ≤ copies d b xs)
              → ((d ≡ dev) × (b ≡ blockno)) ⊎ (copies d b (x ∷ ys) ≤ copies d b (x ∷ xs))
          up d b (inl e) = inl e
          up d b (inr h) = inr (one_more_mono (has d b x) (copies d b ys) (copies d b xs) h)

  -- What `bget` leaves: a cache in which the block has its one buffer; it panics only when every buffer is
  -- referenced and none holds the block.
  abbrev pub Got : ℕ → ℕ → List (Buf A) → Outcome (ℕ × List (Buf A)) → Type 0
  Got dev blockno bufs panic = All Referenced bufs × (copies dev blockno bufs ≡ 0)
  Got dev blockno bufs (done (s, ys)) = Unique ys × (copies dev blockno ys ≡ 1)

  -- In a cache without two buffers for one block of a device other than 0, `bget` of a block of such a
  -- device ends with one buffer for that block and still no two for any, or panics when every buffer is
  -- referenced and none holds the block.
  pub bget-Got :
      (dev blockno : ℕ) (bufs : List (Buf A))
      → Unique bufs
      → Got (suc dev) blockno bufs (bget (suc dev) blockno bufs)
  unfolding bget
  bget-Got dev blockno bufs u = by_hit (hit (suc dev) blockno bufs) (hit-Hit (suc dev) blockno bufs)
    where
      recycled : Option (ℕ × List (Buf A)) → Outcome (ℕ × List (Buf A))
      recycled r = elim r [ some r ↦ done r | none ↦ panic ]

      by_recycle :
          (r : Option (ℕ × List (Buf A)))
          → copies (suc dev) blockno bufs ≡ 0
          → Recycled (suc dev) blockno bufs r
          → Got (suc dev) blockno bufs (recycled r)
      by_recycle none z a = (a, z)
      by_recycle (some (s, ys)) z (c, p, o) =
          (λ d b. single d b (o (suc d) b), omega (arith, c, p, z))
        where
          single :
              (d b : ℕ)
              → ((suc d ≡ suc dev) × (b ≡ blockno)) ⊎ (copies (suc d) b ys ≤ copies (suc d) b bufs)
              → copies (suc d) b ys ≤ 1
          single d b (inl (e, g)) = rw (e, g) (omega (arith, c, z))
          single d b (inr h) = let k = u d b in omega arith

      by_hit :
          (r : Option (ℕ × List (Buf A)))
          → Hit (suc dev) blockno bufs r
          → Got
              (suc dev)
              blockno
              bufs
              (elim r [ some r ↦ done r | none ↦ recycled (recycle (suc dev) blockno bufs) ])
      by_hit none z =
          by_recycle (recycle (suc dev) blockno bufs) z (recycle-Recycled (suc dev) blockno bufs)
      by_hit (some (s, ys)) (p, e) =
          (λ d b. rw (e (suc d) b) (u d b), omega (arith, p, e (suc dev) blockno, u dev blockno))
