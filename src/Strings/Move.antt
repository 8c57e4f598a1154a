-- ===== src/Strings/Move.antt =====
-- `memmove` copies as if through a buffer.
use aut_whuoslab.Prelude.{
  ℕ, zero, suc, ◌+◌, ◌-◌, ◌≤◌, ◌<◌, ◌≡◌, refl, ap, ◌∙◌, ◌⊎◌, inl, inr, Bool, true, false, ◌&&◌,
  arith, ltb, leb, ◌==◌, if◌then◌else◌, Bool-cases, ℕ_discrete, dec_lt,
}
use aut_whuoslab.Kalloc.{update}
use aut_whuoslab.Strings.{copy_up, copy_down, memmove}

-- The memory `m` with the `n` bytes from `src` on copied to `dst`.
abbrev pub moved : ℕ → ℕ → ℕ → (ℕ → ℕ) → ℕ → ℕ
moved dst src n m x = if leb dst x && ltb x (dst + n) then m (src + (x - dst)) else m x

copy_up-outside : (n d s x : ℕ) (m : ℕ → ℕ) → (x < d) ⊎ (d + n ≤ x) → copy_up n d s m x ≡ m x
unfolding copy_up
copy_up-outside zero d s x m h = refl
copy_up-outside (suc n) d s x m (inl h) =
    copy_up-outside n (d + 1) (s + 1) x _ (inl (omega arith)) ∙ ground arith
copy_up-outside (suc n) d s x m (inr h) =
    copy_up-outside n (d + 1) (s + 1) x _ (inr (omega arith)) ∙ ground arith

-- Upwards: right unless the destination begins inside the source.
copy_up-inside :
    (n d s j : ℕ) (m : ℕ → ℕ) → (d ≤ s) ⊎ (s + n ≤ d) → j < n → copy_up n d s m (d + j) ≡ m (s + j)
unfolding copy_up
copy_up-inside zero d s j m a h = absurd (omega arith)
copy_up-inside (suc n) d s zero m a h =
    let e : d + 0 ≡ d = omega arith in
    let g : s + 0 ≡ s = omega arith in
    rw (e, g) (copy_up-outside n (d + 1) (s + 1) d _ (inl (omega arith)) ∙ ground arith)
copy_up-inside (suc n) d s (suc j) m a h =
    let e : d + suc j ≡ d + 1 + j = omega arith in
    let g : s + suc j ≡ s + 1 + j = omega arith in
    rw (e, g) (copy_up-inside n (d + 1) (s + 1) j _ (later a) (omega arith) ∙ apart a)
  where
    later : (d ≤ s) ⊎ (s + suc n ≤ d) → (d + 1 ≤ s + 1) ⊎ (s + 1 + n ≤ d + 1)
    later (inl l) = inl (omega arith)
    later (inr l) = inr (omega arith)

    apart : (d ≤ s) ⊎ (s + suc n ≤ d) → update m d (m s) (s + 1 + j) ≡ m (s + 1 + j)
    apart (inl l) = ground arith
    apart (inr l) = ground arith

-- One round downwards, for areas that begin at `d` and `s`.
copy_down-round :
    (n d s : ℕ) (m : ℕ → ℕ)
    → copy_down (suc n) (d + suc n) (s + suc n) m
      ≡ copy_down n (d + n) (s + n) (update m (d + n) (m (s + n)))
unfolding copy_down
copy_down-round n d s m =
    let e : d + suc n - 1 ≡ d + n = omega arith in
    let g : s + suc n - 1 ≡ s + n = omega arith in rw (e, g) refl

copy_down-outside :
    (n d s x : ℕ) (m : ℕ → ℕ) → (x < d) ⊎ (d + n ≤ x) → copy_down n (d + n) (s + n) m x ≡ m x
unfolding copy_down
copy_down-outside zero d s x m h = refl
copy_down-outside (suc n) d s x m (inl h) =
    ap (λ f. f x) (copy_down-round n d s m) ∙ copy_down-outside n d s x _ (inl h) ∙ ground arith
copy_down-outside (suc n) d s x m (inr h) =
    ap (λ f. f x) (copy_down-round n d s m)
    ∙ copy_down-outside n d s x _ (inr (omega arith))
    ∙ ground arith

-- Downwards: right if the destination does not begin before the source.
copy_down-inside :
    (n d s j : ℕ) (m : ℕ → ℕ) → s ≤ d → j < n → copy_down n (d + n) (s + n) m (d + j) ≡ m (s + j)
copy_down-inside zero d s j m a h = absurd (omega arith)
copy_down-inside (suc n) d s j m a h =
    ap (λ f. f (d + j)) (copy_down-round n d s m) ∙ elim (ℕ_discrete j n) [
      | yes e ↦ copy_down-outside n d s (d + j) _ (inr (omega arith)) ∙ last e
      | no e ↦ copy_down-inside n d s j _ a (omega arith) ∙ ground arith
    ]
  where
    last : j ≡ n → update m (d + n) (m (s + n)) (d + j) ≡ m (s + j)
    last e = rw e (ground arith)

-- `memmove` leaves at every address what a copy through a buffer leaves, whether or not the two areas
-- overlap.
pub memmove-moved : (dst src n x : ℕ) (m : ℕ → ℕ) → memmove dst src n m x ≡ moved dst src n m x
unfolding memmove
memmove-moved dst src n x m = by_area (Bool-cases (leb dst x && ltb x (dst + n)))
  where
    way : Bool → ℕ
    way b = if◌then◌else◌ {A = ℕ → ℕ} b (copy_down n (dst + n) (src + n) m) (copy_up n dst src m) x

    all : Bool → ℕ
    all b =
        if◌then◌else◌ {A = ℕ → ℕ} b m
          (if◌then◌else◌ {A = ℕ → ℕ} (ltb src dst && ltb dst (src + n))
            (copy_down n (dst + n) (src + n) m) (copy_up n dst src m))
          x

    inside : (j : ℕ) → x ≡ dst + j → j < n → memmove dst src n m x ≡ m (src + j)
    inside j e lt = ap all some_bytes ∙ by_way (Bool-cases (ltb src dst && ltb dst (src + n)))
      where
        some_bytes : (n == 0) ≡ false
        some_bytes = ground arith

        by_way :
            ((ltb src dst && ltb dst (src + n)) ≡ true)
              ⊎ ((ltb src dst && ltb dst (src + n)) ≡ false)
            → all false ≡ m (src + j)
        by_way (inl b) =
            ap way b
            ∙ ap (copy_down n (dst + n) (src + n) m) e
            ∙ copy_down-inside n dst src j m (ground arith) lt
        by_way (inr b) =
            ap way b ∙ ap (copy_up n dst src m) e ∙ copy_up-inside n dst src j m (apart b) lt
          where
            apart : (ltb src dst && ltb dst (src + n)) ≡ false → (dst ≤ src) ⊎ (src + n ≤ dst)
            apart b = elim (dec_lt src dst) [
              | yes lt ↦ inr (ground arith)
              | no ge ↦ inl (omega arith)
            ]

    outside : (x < dst) ⊎ (dst + n ≤ x) → memmove dst src n m x ≡ m x
    outside h = by_none (Bool-cases (n == 0))
      where
        by_way :
            ((ltb src dst && ltb dst (src + n)) ≡ true)
              ⊎ ((ltb src dst && ltb dst (src + n)) ≡ false)
            → all false ≡ m x
        by_way (inl b) = ap way b ∙ copy_down-outside n dst src x m h
        by_way (inr b) = ap way b ∙ copy_up-outside n dst src x m h

        by_none : ((n == 0) ≡ true) ⊎ ((n == 0) ≡ false) → memmove dst src n m x ≡ m x
        by_none (inl z) = ap all z
        by_none (inr z) = ap all z ∙ by_way (Bool-cases (ltb src dst && ltb dst (src + n)))

    by_area :
        ((leb dst x && ltb x (dst + n)) ≡ true) ⊎ ((leb dst x && ltb x (dst + n)) ≡ false)
        → memmove dst src n m x ≡ moved dst src n m x
    by_area (inl b) = rw b (inside (x - dst) (ground arith) (ground arith))
    by_area (inr b) = rw b (outside (apart b))
      where
        apart : (leb dst x && ltb x (dst + n)) ≡ false → (x < dst) ⊎ (dst + n ≤ x)
        apart b = elim (dec_lt x dst) [ yes lt ↦ inl lt | no ge ↦ inr (ground arith) ]
