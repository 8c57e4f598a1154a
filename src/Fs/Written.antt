-- ===== src/Fs/Written.antt =====
-- `writei`: what a file holds after a write.
use aut_whuoslab.Prelude.{
  ℕ, ◌+◌, ◌-◌, ◌/◌, ◌%◌, ◌<◌, ◌≤◌, ◌≡◌, ◌≢◌, refl, sym, ap, ◌∙◌, ◌⊎◌, inl, inr, true, false, ◌==◌,
  if◌then◌else◌, List, [], Option, some, ℕ_discrete, Outcome, arith,
}
use aut_whuoslab.Kalloc.{update}
use aut_whuoslab.Kalloc.Inv.{update_self}
use aut_whuoslab.Radix.{full, follow-lab}
use aut_whuoslab.Fs.{Content, maxfile}
use aut_whuoslab.Fs.Tree.{top, child, Inner, IsContent}
use aut_whuoslab.Radix.Paths.{full_inj, append_nil}
use aut_whuoslab.Fs.Bmap.{path, lookup, ways, path_inj, path_ne, Reads-path, Bmapped}
use aut_whuoslab.Fs.Data.{bsize, CopyIn, set_bytes, log_block_write}

-- Byte `k` of the file; 0 where it has no block.
abbrev pub byte_at : Content → ℕ → ℕ
byte_at c k =
    if lookup c (k / bsize) == 0 then 0 else c.store.bytes (lookup c (k / bsize)) (k % bsize)

-- `copy` writes within the `m` bytes that it is given and, when it succeeds, the bytes of `mem` from the
-- address `src` on. Whether it succeeds does not depend on the bytes that it writes over.
pub record Copies (mem : ℕ → ℕ) (copy : CopyIn) : Type 0 where
  pub outside :
      (o src m : ℕ) (old : ℕ → ℕ) (i : ℕ) → (i < o) ⊎ (o + m ≤ i) → (copy o src m old).1 i ≡ old i
  pub inside :
      (o src m : ℕ) (old : ℕ → ℕ) (i : ℕ)
      → (copy o src m old).0 ≡ true
      → o ≤ i
      → i < o + m
      → (copy o src m old).1 i ≡ mem (src + (i - o))
  pub by_place : (o src m : ℕ) (old other : ℕ → ℕ) → (copy o src m old).0 ≡ (copy o src m other).0

module _ (lab : ℕ → Option (List ℕ)) (c : Content) (ok : IsContent lab c) where
  lookup-lab : (k : ℕ) → k < maxfile → lookup c k ≢ 0 → lab (lookup c k) ≡ some (full [] (path k))
  lookup-lab k h n =
      elim (follow-lab Inner lab (child c) ok.tree (path k) [] (top c) (inr ok.rooted)
        (Reads-path k (ways k h))) [ inl z ↦ absurd (n z) | inr l ↦ l ]

  -- The blocks of the file are in use.
  lookup_used : (k : ℕ) → k < maxfile → lookup c k ≢ 0 → c.store.bit (lookup c k) ≡ true
  lookup_used k h n = (ok.marked (lookup c k) _ (lookup-lab k h n) not_top).1
    where
      label_inj : (o : Option (List ℕ)) (x y : List ℕ) → o ≡ some x → o ≡ some y → x ≡ y
      label_inj o x y e f = cc

      not_top : lookup c k ≢ top c
      not_top e = path_ne k (ways k h) (
          full_inj (path k) []
            (label_inj (lab (top c)) _ _ (sym (ap lab e) ∙ lookup-lab k h n) ok.rooted))

  -- They are different blocks.
  lookup_inj :
      (j k : ℕ) → j < maxfile → k < maxfile → lookup c j ≢ 0 → lookup c j ≡ lookup c k → j ≡ k
  lookup_inj j k hj hk n e = path_inj j k [] hj hk (
      append_nil (path j)
      ∙ full_inj (path j) (path k) (
          label_inj (lab (lookup c j)) _ _ (lookup-lab j hj n)
            (ap lab e ∙ lookup-lab k hk (λ z. n (e ∙ z)))))
    where
      label_inj : (o : Option (List ℕ)) (x y : List ℕ) → o ≡ some x → o ≡ some y → x ≡ y
      label_inj o x y p q = cc

-- The content after one round: the block of `bn`, as `bmap` left it, has the bytes `d`.
module _ (lab : ℕ → Option (List ℕ)) (c : Content) (bn : ℕ) (ok : IsContent lab c)
    (small : bn < maxfile) (r : Outcome (ℕ × Content)) (b : Bmapped c bn r) (real : b.addr ≢ 0)
    (d : ℕ → ℕ) where
  abbrev pub rounded : Content
  rounded = log_block_write b.addr (set_bytes b.addr d b.after)

  pub rounded-IsContent : IsContent b.lab' rounded
  rounded-IsContent = record {
    tree = b.ok.tree;
    rooted = b.ok.rooted;
    marked = b.ok.marked;
    boot = b.ok.boot;
  }

  pub its_block : lookup rounded bn ≡ b.addr
  its_block = elim b.result [ inl q ↦ absurd (real q.0) | inr q ↦ q.1 ]

  -- What the block held: what the file had there, or zeros.
  pub old_bytes : (k : ℕ) → k / bsize ≡ bn → b.after.store.bytes b.addr (k % bsize) ≡ byte_at c k
  old_bytes k e = by_block (ℕ_discrete (lookup c bn) 0)
    where
      by_block : Dec (lookup c bn ≡ 0) → b.after.store.bytes b.addr (k % bsize) ≡ byte_at c k
      by_block (yes z) =
          ap (λ f. f (k % bsize)) (b.fresh z real)
          ∙ rw e (let q : (lookup c bn == 0) ≡ true = ground (arith, z) in rw q refl)
      by_block (no n) =
          let q : (lookup c bn == 0) ≡ false = ground (arith, n) in
          ap (λ a. b.after.store.bytes a (k % bsize)) (b.found n)
          ∙ ap (λ f. f (k % bsize)) (b.stored (lookup c bn) (lookup_used lab c ok bn small n)).1
          ∙ rw e (rw q refl)

  pub rounded_here : (k : ℕ) → k / bsize ≡ bn → byte_at rounded k ≡ d (k % bsize)
  rounded_here k e =
      let q : (b.addr == 0) ≡ false = ground (arith, real) in
      let u : update b.after.store.bytes b.addr d b.addr ≡ d =
        update_self b.after.store.bytes b.addr d in
      ap (λ a. if a == 0 then 0 else update b.after.store.bytes b.addr d a (k % bsize))
        (ap (lookup rounded) e ∙ its_block)
      ∙ rw q (ap (λ f. f (k % bsize)) u)

  pub rounded_there :
      (k : ℕ) → k / bsize < maxfile → k / bsize ≢ bn → byte_at rounded k ≡ byte_at c k
  rounded_there k h n = by_block (ℕ_discrete (lookup c (k / bsize)) 0)
    where
      same : lookup rounded (k / bsize) ≡ lookup c (k / bsize)
      same = b.others (k / bsize) h n

      by_block : Dec (lookup c (k / bsize) ≡ 0) → byte_at rounded k ≡ byte_at c k
      by_block (yes z) =
          let q : (lookup c (k / bsize) == 0) ≡ true = ground (arith, z) in
          ap (λ a. if a == 0 then 0 else rounded.store.bytes a (k % bsize)) same ∙ rw q refl
      by_block (no m) =
          let q : (lookup c (k / bsize) == 0) ≡ false = ground (arith, m) in
          let apart : lookup c (k / bsize) ≢ b.addr = λ e. n (
            lookup_inj b.lab' rounded rounded-IsContent (k / bsize) bn h small
              (λ z. m (sym same ∙ z)) (same ∙ e ∙ sym its_block)) in
          let u : update b.after.store.bytes b.addr d (lookup c (k / bsize))
              ≡ b.after.store.bytes (lookup c (k / bsize)) =
            ground (arith, apart) in
          ap (λ a. if a == 0 then 0 else rounded.store.bytes a (k % bsize)) same
          ∙ rw q (
              ap (λ f. f (k % bsize))
                (u ∙ (b.stored (lookup c (k / bsize)) (lookup_used lab c ok (k / bsize) h m)).1))

-- A round that gets no block changes no byte of the file.
pub full-byte_at :
    (lab : ℕ → Option (List ℕ)) (c : Content) (bn : ℕ)
    → IsContent lab c
    → bn < maxfile
    → (r : Outcome (ℕ × Content)) (b : Bmapped c bn r) → b.addr ≡ 0
    → (k : ℕ) → k / bsize < maxfile
    → byte_at b.after k ≡ byte_at c k
full-byte_at lab c bn ok small r b z k h = by_block (ℕ_discrete (lookup c (k / bsize)) 0)
  where
    held : Content → ℕ → ℕ
    held q a = if a == 0 then 0 else q.store.bytes a (k % bsize)

    same : Dec (k / bsize ≡ bn) → lookup b.after (k / bsize) ≡ lookup c (k / bsize)
    same (yes e) =
        ap (lookup b.after) e
        ∙ elim b.result [ inl q ↦ q.1 | inr q ↦ absurd (q.0 z) ]
        ∙ elim (ℕ_discrete (lookup c bn) 0) [
          | yes y ↦ sym y
          | no n ↦ absurd (n (sym (b.found n) ∙ z))
        ]
        ∙ ap (lookup c) (sym e)
    same (no n) = b.others (k / bsize) h n

    by_block : Dec (lookup c (k / bsize) ≡ 0) → byte_at b.after k ≡ byte_at c k
    by_block (yes y) =
        ap (held b.after) (same (ℕ_discrete (k / bsize) bn) ∙ y) ∙ ap (held c) (sym y)
    by_block (no n) =
        ap (held b.after) (same (ℕ_discrete (k / bsize) bn))
        ∙ ap (λ (v : ℕ → ℕ). if lookup c (k / bsize) == 0 then 0 else v (k % bsize))
            (b.stored (lookup c (k / bsize)) (lookup_used lab c ok (k / bsize) h n)).1

-- What a round gets, a block or none, changes no byte of the file.
pub mapped-byte_at :
    (lab : ℕ → Option (List ℕ)) (c : Content) (bn : ℕ) (ok : IsContent lab c) (small : bn < maxfile)
    (r : Outcome (ℕ × Content)) (b : Bmapped c bn r)
    → Dec (b.addr ≡ 0)
    → (k : ℕ) → k / bsize < maxfile
    → byte_at b.after k ≡ byte_at c k
mapped-byte_at lab c bn ok small r b (yes z) k h = full-byte_at lab c bn ok small r b z k h
mapped-byte_at lab c bn ok small r b (no real) k h = elim (ℕ_discrete (k / bsize) bn) [
  | yes e ↦
      let q : (b.addr == 0) ≡ false = ground (arith, real) in
      ap (held b.after) (ap (lookup b.after) e ∙ its_block lab c bn ok small r b real (λ i. 0))
      ∙ rw q (old_bytes lab c bn ok small r b real (λ i. 0) k e)
  | no n ↦ elsewhere n (ℕ_discrete (lookup c (k / bsize)) 0)
]
  where
    held : Content → ℕ → ℕ
    held q a = if a == 0 then 0 else q.store.bytes a (k % bsize)

    elsewhere : k / bsize ≢ bn → Dec (lookup c (k / bsize) ≡ 0) → byte_at b.after k ≡ byte_at c k
    elsewhere n (yes z) = ap (held b.after) (b.others (k / bsize) h n ∙ z) ∙ ap (held c) (sym z)
    elsewhere n (no m) =
        ap (held b.after) (b.others (k / bsize) h n)
        ∙ ap (λ (v : ℕ → ℕ). if lookup c (k / bsize) == 0 then 0 else v (k % bsize))
            (b.stored (lookup c (k / bsize)) (lookup_used lab c ok (k / bsize) h m)).1
