-- ===== src/Fs/Bmap.antt =====
-- `bmap`: the block of a file's block.
use aut_whuoslab.Prelude.{
  ℕ, ◌+◌, ◌-◌, ◌*◌, ◌/◌, ◌%◌, ◌<◌, ◌≤◌, ◌≡◌, ◌≢◌, refl, sym, ap, ◌∙◌, ◌⊎◌, inl, inr, true, false,
  ltb, ◌==◌, if◌then◌else◌, List, [], ◌∷◌, ◌++◌, Option, dec_lt, get_or, Outcome, done, arith,
}
use aut_whuoslab.Radix.{follow, Reads}
use aut_whuoslab.Fs.{
  Content, ndirect, nindirect, nindirect2, nindirect3, maxfile, then_entry, root_entry, bmap,
}
use aut_whuoslab.Fs.Alloc.{Used}
use aut_whuoslab.Fs.Tree.{top, child, Inner, IsContent}
use aut_whuoslab.Fs.Reach.{Reached, root_entry-Reached, then_entry-Reached}
use aut_whuoslab.Radix.Paths.{append_nil}

-- The entries that lead to block `bn` of the file, from the inode on.
abbrev pub path : ℕ → List ℕ
path bn =
    let b1 = bn - ndirect in
    let b2 = b1 - nindirect in
    let b3 = b2 - nindirect2 in
    if ltb bn ndirect
    then bn ∷ []
    else if ltb b1 nindirect
    then ndirect ∷ b1 ∷ []
    else if ltb b2 nindirect2
    then (ndirect + 1) ∷ b2 / nindirect ∷ b2 % nindirect ∷ []
    else (ndirect + 2) ∷ b3 / nindirect2 ∷ b3 % nindirect2 / nindirect ∷ b3 % nindirect ∷ []

-- The block of the file's block `bn`, 0 for none.
abbrev pub lookup : Content → ℕ → ℕ
lookup c bn = follow (child c) (path bn) (top c)

-- The block number whose entries a list starts with.
abbrev number : List ℕ → ℕ
number [] = 0
number (i ∷ ks) =
    if ltb i ndirect
    then i
    else if i == ndirect
    then ndirect + get_or ks 0 0
    else if i == ndirect + 1
    then ndirect + nindirect + get_or ks 0 0 * nindirect + get_or ks 1 0
    else ndirect
      + nindirect
      + nindirect2
      + get_or ks 0 0 * nindirect2
      + get_or ks 1 0 * nindirect
      + get_or ks 2 0

-- Which of the four ways `bmap` takes.
abbrev Ways : ℕ → Type 0
Ways bn =
    ((ltb bn ndirect ≡ true) × (bn < ndirect))
    ⊎ ((ltb bn ndirect ≡ false)
        × (ltb (bn - ndirect) nindirect ≡ true)
        × (ndirect ≤ bn)
        × (bn - ndirect < nindirect))
    ⊎ ((ltb bn ndirect ≡ false)
        × (ltb (bn - ndirect) nindirect ≡ false)
        × (ltb (bn - ndirect - nindirect) nindirect2 ≡ true)
        × (ndirect + nindirect ≤ bn)
        × (bn - ndirect - nindirect < nindirect2))
    ⊎ ((ltb bn ndirect ≡ false)
        × (ltb (bn - ndirect) nindirect ≡ false)
        × (ltb (bn - ndirect - nindirect) nindirect2 ≡ false)
        × (ltb (bn - ndirect - nindirect - nindirect2) nindirect3 ≡ true)
        × (ndirect + nindirect + nindirect2 ≤ bn))

pub ways : (bn : ℕ) → bn < maxfile → Ways bn
ways bn h = elim (dec_lt bn ndirect) [
  | yes a ↦ inl (ground arith, a)
  | no a ↦ elim (dec_lt (bn - ndirect) nindirect) [
    | yes b ↦ inr (inl (ground arith, ground arith, omega arith, b))
    | no b ↦ elim (dec_lt (bn - ndirect - nindirect) nindirect2) [
      | yes d ↦ inr (inr (inl (ground arith, ground arith, ground arith, omega arith, d)))
      | no d ↦ inr (inr (inr (ground arith, ground arith, ground arith, ground arith, omega arith)))
    ]
  ]
]

number-path : (bn : ℕ) (rest : List ℕ) → Ways bn → number (path bn ++ rest) ≡ bn
number-path bn rest (inl (e, l)) = rw (e, e) refl
number-path bn rest (inr (inl (e, f, l, m))) = rw (e, f) (omega arith)
number-path bn rest (inr (inr (inl (e, f, g, l, m)))) = rw (e, f, g) (omega arith)
number-path bn rest (inr (inr (inr (e, f, g, h, l)))) = rw (e, f, g) (omega arith)

pub path_inj :
    (a b : ℕ) (rest : List ℕ) → a < maxfile → b < maxfile → path a ++ rest ≡ path b → a ≡ b
path_inj a b rest ha hb e =
    sym (number-path a rest (ways a ha))
    ∙ ap number (e ∙ sym (append_nil (path b)))
    ∙ number-path b [] (ways b hb)

pub path_ne : (bn : ℕ) → Ways bn → path bn ≢ []
path_ne bn (inl (e, l)) = rw e (λ q. cc)
path_ne bn (inr (inl (e, f, l, m))) = rw (e, f) (λ q. cc)
path_ne bn (inr (inr (inl (e, f, g, l, m)))) = rw (e, f, g) (λ q. cc)
path_ne bn (inr (inr (inr (e, f, g, h, l)))) = rw (e, f, g) (λ q. cc)

pub Reads-path : (bn : ℕ) → Ways bn → Reads Inner [] (path bn)
Reads-path bn (inl (e, l)) = rw e (omega arith, tt)
Reads-path bn (inr (inl (e, f, l, m))) = rw (e, f) (omega arith, (omega arith, tt))
Reads-path bn (inr (inr (inl (e, f, g, l, m)))) =
    rw (e, f, g) (omega arith, (omega arith, (omega arith, tt)))
Reads-path bn (inr (inr (inr (e, f, g, h, l)))) =
    rw (e, f, g) (omega arith, (omega arith, (omega arith, (omega arith, tt))))

bmap-Reached :
    (lab : ℕ → Option (List ℕ)) (c : Content) (bn : ℕ)
    → IsContent lab c
    → Ways bn
    → (a : ℕ × Content) × (bmap bn c ≡ done a) × Reached c (path bn) a
unfolding bmap
bmap-Reached lab c bn ok (inl (e, l)) =
    (root_entry bn c, rw e refl, rw e (root_entry-Reached lab c bn ok))
bmap-Reached lab c bn ok (inr (inl (e, f, l, m))) =
    let r0 = root_entry-Reached lab c ndirect ok in
    let i1 : Inner (ndirect ∷ []) = omega arith in
    let r1 =
      then_entry-Reached c (ndirect ∷ []) (bn - ndirect) (root_entry ndirect c) (λ q. cc) i1
        (omega arith, (i1, tt)) r0 in
    (then_entry (bn - ndirect) (root_entry ndirect c), rw (e, f) refl, rw (e, f) r1)
bmap-Reached lab c bn ok (inr (inr (inl (e, f, g, l, m)))) =
    let b2 = bn - ndirect - nindirect in
    let r0 = root_entry-Reached lab c (ndirect + 1) ok in
    let i1 : Inner ((ndirect + 1) ∷ []) = omega arith in
    let r1 =
      then_entry-Reached c ((ndirect + 1) ∷ []) (b2 / nindirect) (root_entry (ndirect + 1) c)
        (λ q. cc) i1 (omega arith, (i1, tt)) r0 in
    let i2 : Inner (b2 / nindirect ∷ (ndirect + 1) ∷ []) = omega arith in
    let r2 =
      then_entry-Reached c ((ndirect + 1) ∷ b2 / nindirect ∷ []) (b2 % nindirect)
        (then_entry (b2 / nindirect) (root_entry (ndirect + 1) c)) (λ q. cc) i2
        (omega arith, (i1, (i2, tt))) r1 in
    (
      then_entry (b2 % nindirect) (then_entry (b2 / nindirect) (root_entry (ndirect + 1) c)),
      rw (e, f, g) refl,
      rw (e, f, g) r2,
    )
bmap-Reached lab c bn ok (inr (inr (inr (e, f, g, h, l)))) =
    let b3 = bn - ndirect - nindirect - nindirect2 in
    let r0 = root_entry-Reached lab c (ndirect + 2) ok in
    let i1 : Inner ((ndirect + 2) ∷ []) = omega arith in
    let r1 =
      then_entry-Reached c ((ndirect + 2) ∷ []) (b3 / nindirect2) (root_entry (ndirect + 2) c)
        (λ q. cc) i1 (omega arith, (i1, tt)) r0 in
    let i2 : Inner (b3 / nindirect2 ∷ (ndirect + 2) ∷ []) = omega arith in
    let a2 = then_entry (b3 / nindirect2) (root_entry (ndirect + 2) c) in
    let r2 =
      then_entry-Reached c ((ndirect + 2) ∷ b3 / nindirect2 ∷ []) (b3 % nindirect2 / nindirect) a2
        (λ q. cc) i2 (omega arith, (i1, (i2, tt))) r1 in
    let i3 : Inner (b3 % nindirect2 / nindirect ∷ b3 / nindirect2 ∷ (ndirect + 2) ∷ []) =
      omega arith in
    let r3 =
      then_entry-Reached c ((ndirect + 2) ∷ b3 / nindirect2 ∷ b3 % nindirect2 / nindirect ∷ [])
        (b3 % nindirect) (then_entry (b3 % nindirect2 / nindirect) a2) (λ q. cc) i3
        (omega arith, (i1, (i2, (i3, tt)))) r2 in
    (
      then_entry (b3 % nindirect) (then_entry (b3 % nindirect2 / nindirect) a2),
      rw (e, f, g, h) refl,
      rw (e, f, g) r3,
    )

-- What `bmap` of a file's block `bn` does. The result is the block that `bn` had, or a new, clear one that it has
-- from now on, or 0 when every block of the disk is in use. No other block of the file moves, and no block
-- in use changes its bytes.
pub record Bmapped (c : Content) (bn : ℕ) (r : Outcome (ℕ × Content)) : Type 0 where
  pub addr : ℕ
  pub after : Content
  pub lab' : ℕ → Option (List ℕ)
  pub returns : r ≡ done (addr, after)
  pub ok : IsContent lab' after
  pub size : top after ≡ top c
  pub result :
      ((addr ≡ 0) × (lookup after bn ≡ 0) × Used 0 (top c) after.store)
      ⊎ ((addr ≢ 0) × (lookup after bn ≡ addr))
  pub found : lookup c bn ≢ 0 → addr ≡ lookup c bn
  pub fresh : lookup c bn ≡ 0 → addr ≢ 0 → after.store.bytes addr ≡ (λ i. 0)
  pub others : (k : ℕ) → k < maxfile → k ≢ bn → lookup after k ≡ lookup c k
  pub stored :
      (x : ℕ)
      → c.store.bit x ≡ true
      → (after.store.bit x ≡ true) × (after.store.bytes x ≡ c.store.bytes x)

-- For a file whose blocks form a tree of blocks in use, `bmap` of a block below the largest file size does
-- not panic: it returns the block that was there or else a new, cleared block that it links in, through the
-- direct entries or one to three levels of index blocks, or 0 if the disk is full; every other block of
-- the file stays where it is, blocks in use keep their bytes, and the blocks still form such a tree.
pub bmap-Bmapped :
    (lab : ℕ → Option (List ℕ)) (c : Content) (bn : ℕ)
    → IsContent lab c
    → bn < maxfile
    → Bmapped c bn (bmap bn c)
bmap-Bmapped lab c bn ok h = by_way (bmap-Reached lab c bn ok (ways bn h))
  where
    by_way :
        (a : ℕ × Content) × (bmap bn c ≡ done a) × Reached c (path bn) a → Bmapped c bn (bmap bn c)
    by_way ((addr, after), e, r) = record {
      addr = addr;
      after = after;
      lab' = r.lab;
      returns = e;
      ok = r.ok;
      size = r.size;
      result = elim r.result [
        | inl q ↦ inl (q.0, ap (follow (child after) (path bn)) r.size ∙ q.3, q.2)
        | inr q ↦ inr (q.0, ap (follow (child after) (path bn)) r.size ∙ q.2)
      ];
      found = λ n. elim r.result [
        | inl q ↦ absurd (n q.1)
        | inr q ↦ sym q.2 ∙ r.kept (path bn) (Reads-path bn (ways bn h)) n
      ];
      fresh = r.fresh;
      others = λ k hk n.
          ap (follow (child after) (path k)) r.size
          ∙ r.frame (path k) (Reads-path k (ways k hk)) (λ rest q. n (path_inj k bn rest hk h q));
      stored = r.stored;
    }
