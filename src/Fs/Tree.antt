-- ===== src/Fs/Tree.antt =====
-- A file's blocks as a tree: its root stands for the inode, the nodes are the index blocks and the data
-- blocks. The number of the root is the size of the disk, which is no block's.
use mathlib.Core.Path.{fun_ext}
use aut_whuoslab.Prelude.{
  ℕ, ◌-◌, ◌<◌, ◌≡◌, ◌≢◌, refl, sym, ap, ◌∙◌, subst, ◌⊎◌, inl, inr, true, false, not, ◌==◌,
  if◌then◌else◌, List, [], ◌∷◌, Option, none, some, ℕ_discrete, arith,
}
use aut_whuoslab.Kalloc.{update}
use aut_whuoslab.Radix.{follow, full, grown, IsTree, Reads}
use aut_whuoslab.Radix.Grow.{grow-IsTree, grow-follow, grow-follow_cases}
use aut_whuoslab.Fs.{Store, Content, balloc, root_entry, index_entry, bblock, bzero}
use aut_whuoslab.Fs.Alloc.{Used, Ballocs, balloc-Ballocs}

-- The root.
abbrev pub top : Content → ℕ
top c = c.store.size

abbrev pub child : Content → ℕ → ℕ → ℕ
child c t j = if t == top c then c.addrs j else c.store.index t j

-- How many levels of index blocks hang below a label: none below direct blocks, and one, two and three below
-- the three entries behind them.
abbrev pub levels : List ℕ → ℕ
levels [] = 4
levels (i ∷ []) = i - 9
levels (j ∷ i ∷ p) = levels (i ∷ p) - 1

abbrev pub Inner : List ℕ → Type 0
Inner p = 0 < levels p

-- The blocks of the file that `lab` labels are in use.
pub record IsContent (lab : ℕ → Option (List ℕ)) (c : Content) : Type 0 where
  pub tree : IsTree Inner lab (child c)
  pub rooted : lab (top c) ≡ some []
  pub marked :
      (t : ℕ) (p : List ℕ) → lab t ≡ some p → t ≢ top c → (t < top c) × (c.store.bit t ≡ true)
  pub boot : c.store.bit 0 ≡ true

-- A new block `b` in the place that `root_entry` or `index_entry` read.
abbrev pub added : ℕ → ℕ → ℕ → Content → Content
added t j b c = record {
  addrs = if t == top c then update c.addrs j b else c.addrs;
  store = record {
    size = c.store.size;
    bmapstart = c.store.bmapstart;
    bit = update c.store.bit b true;
    index =
        if t == top c
        then update c.store.index b (λ i. 0)
        else update (update c.store.index b (λ i. 0)) t
            (update (update c.store.index b (λ i. 0) t) j b);
    bytes = update c.store.bytes b (λ i. 0);
    logged =
        if t == top c
        then b ∷ bblock b c.store ∷ c.store.logged
        else t ∷ b ∷ bblock b c.store ∷ c.store.logged;
  };
}

module _ (lab : ℕ → Option (List ℕ)) (c : Content) (ok : IsContent lab c) (t j b : ℕ) (pt : List ℕ)
    (at_t : lab t ≡ some pt) (inner : Inner pt) (empty : child c t j ≡ 0)
    (free : c.store.bit b ≡ false) (real : b < top c) where
  unlabelled : lab b ≡ none
  unlabelled = by_label (lab b) refl
    where
      by_label : (o : Option (List ℕ)) → lab b ≡ o → o ≡ none
      by_label none e = refl
      by_label (some p) e = let m = ok.marked b p e (omega arith) in let f = free in cc

  pub added_nonzero : b ≢ 0
  added_nonzero z = let f = free in let m = ok.boot in cc

  apart : b ≢ t
  apart e = let u = unlabelled in let a = at_t in cc

  child-added : child (added t j b c) ≡ grown (child c) t j b
  child-added =
      fun_ext (λ a. fun_ext (λ k. at_place a k (ℕ_discrete t (top c)) (ℕ_discrete a (top c))))
    where
      at_place :
          (a k : ℕ)
          → Dec (t ≡ top c)
          → Dec (a ≡ top c)
          → child (added t j b c) a k ≡ grown (child c) t j b a k
      at_place a k d f = let n = apart in ground (arith, n)

  pub added-IsContent : IsContent (update lab b (some (j ∷ pt))) (added t j b c)
  added-IsContent = record {
    tree =
        subst (IsTree Inner (update lab b (some (j ∷ pt)))) (sym child-added)
          (grow-IsTree Inner lab (child c) ok.tree t j b pt at_t unlabelled added_nonzero);
    rooted = let d : b ≢ top c = omega arith in ground (arith, d, ok.rooted);
    marked = λ a p l n. elim (ℕ_discrete a b) [
      | yes e ↦ (omega arith, ground arith)
      | no d ↦
          let m = ok.marked a p (sym (old a d) ∙ l) n in (m.0, let k = m.1 in ground (arith, d, k))
    ];
    boot = let n = added_nonzero in let m = ok.boot in ground (arith, n, m);
  }
    where
      old : (a : ℕ) → a ≢ b → update lab b (some (j ∷ pt)) a ≡ lab a
      old a n = ground (arith, n)

  pub added_old : (a : ℕ) (q : List ℕ) → lab a ≡ some q → update lab b (some (j ∷ pt)) a ≡ some q
  added_old a q l = let n : a ≢ b = (λ e. let u = unlabelled in cc) in ground (arith, n, l)

  pub added-child : child (added t j b c) t j ≡ b
  added-child = ap (λ f. f t j) child-added ∙ ground arith

  pub added_frame :
      (js : List ℕ)
      → Reads Inner [] js
      → full [] js ≢ j ∷ pt
      → follow (child (added t j b c)) js (top c) ≡ follow (child c) js (top c)
  added_frame js h n =
      ap (λ f. follow f js (top c)) child-added
      ∙ grow-follow Inner lab (child c) ok.tree t j b pt at_t unlabelled js [] (top c) empty
          (inr ok.rooted) h n

  pub added_kept :
      (js : List ℕ)
      → Reads Inner [] js
      → follow (child c) js (top c) ≢ 0
      → follow (child (added t j b c)) js (top c) ≡ follow (child c) js (top c)
  added_kept js h n =
      ap (λ f. follow f js (top c)) child-added
      ∙ elim (grow-follow_cases Inner lab (child c) ok.tree t j b pt at_t unlabelled js [] (top c)
          empty (inr ok.rooted) h) [ inl e ↦ e | inr q ↦ absurd (n q.1) ]

-- The three outcomes of `root_entry` and `index_entry`: a block that was there, a full disk, a new block.
abbrev pub Enters : ℕ → ℕ → Content → ℕ × Content → Type 0
Enters t j c a =
    ((child c t j ≢ 0) × (a ≡ (child c t j, c)))
    ⊎ ((child c t j ≡ 0) × (a ≡ (0, c)) × Used 0 (top c) c.store)
    ⊎ ((b : ℕ) × (child c t j ≡ 0)
        × (a ≡ (b, added t j b c))
        × (b < top c)
        × (c.store.bit b ≡ false))

root_entry-Enters_by :
    (i : ℕ) (c : Content) (r : ℕ × Store)
    → c.store.bit 0 ≡ true
    → Ballocs c.store r
    → Enters (top c) i c (
        if not (c.addrs i == 0)
        then (c.addrs i, c)
        else if r.0 == 0
        then (0, record c { store = r.1 })
        else (r.0, record { addrs = update c.addrs i r.0; store = r.1 }))
unfolding bzero
root_entry-Enters_by i c r boot f = elim (ℕ_discrete (c.addrs i) 0) [
  | no n ↦
      let b : (c.addrs i == 0) ≡ false = ground (arith, n) in
      let h : child c (top c) i ≡ c.addrs i = ground arith in inl (rw h n, rw (b, h) refl)
  | yes z ↦
      let b : (c.addrs i == 0) ≡ true = ground (arith, z) in
      let h : child c (top c) i ≡ 0 = ground (arith, z) in
      let t : (top c == top c) ≡ true = ground arith in
      elim f [
        | inl q ↦ inr (inl (h, rw (b, q.0) refl, q.1))
        | inr (x, e, lt, free, _, _) ↦
            let n : (x == 0) ≡ false =
              (let nz : x ≢ 0 = (λ d. let u = free in cc) in ground (arith, nz)) in
            inr (inr (x, h, rw (b, e, n, t) refl, lt, free))
      ]
]

pub root_entry-Enters :
    (i : ℕ) (c : Content) → c.store.bit 0 ≡ true → Enters (top c) i c (root_entry i c)
unfolding root_entry
root_entry-Enters i c boot = root_entry-Enters_by i c (balloc c.store) boot (balloc-Ballocs c.store)

index_entry-Enters_by :
    (t j : ℕ) (c : Content) (r : ℕ × Store)
    → t ≢ top c
    → c.store.bit 0 ≡ true
    → Ballocs c.store r
    → Enters t j c (
        if not (c.store.index t j == 0)
        then (c.store.index t j, c)
        else if r.0 == 0
        then (0, record c { store = r.1 })
        else (
          r.0,
          record c {
            store = record r.1 {
              index = update r.1.index t (update (r.1.index t) j r.0);
              logged = t ∷ r.1.logged;
            };
          },
        ))
unfolding bzero
index_entry-Enters_by t j c r d boot f = elim (ℕ_discrete (c.store.index t j) 0) [
  | no n ↦
      let b : (c.store.index t j == 0) ≡ false = ground (arith, n) in
      let h : child c t j ≡ c.store.index t j = ground (arith, d) in inl (rw h n, rw (b, h) refl)
  | yes z ↦
      let b : (c.store.index t j == 0) ≡ true = ground (arith, z) in
      let h : child c t j ≡ 0 = ground (arith, z, d) in
      let u : (t == top c) ≡ false = ground (arith, d) in
      elim f [
        | inl q ↦ inr (inl (h, rw (b, q.0) refl, q.1))
        | inr (x, e, lt, free, _, _) ↦
            let n : (x == 0) ≡ false =
              (let nz : x ≢ 0 = (λ v. let w = free in cc) in ground (arith, nz)) in
            inr (inr (x, h, rw (b, e, n, u) refl, lt, free))
      ]
]

pub index_entry-Enters :
    (t j : ℕ) (c : Content) → t ≢ top c → c.store.bit 0 ≡ true → Enters t j c (index_entry t j c)
unfolding index_entry
index_entry-Enters t j c d boot =
    index_entry-Enters_by t j c (balloc c.store) d boot (balloc-Ballocs c.store)
