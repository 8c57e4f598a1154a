-- ===== src/Fs/Unique.antt =====
-- `iget`: an inode has at most one entry of the table.
use aut_whuoslab.Prelude.{
  ℕ, ◌≡◌, ◌≢◌, refl, sym, ap, ◌∙◌, ◌⊎◌, inl, inr, true, false, List, Option, none, some, modify,
  get_elem?, get_elem?-modify_ne, get_elem?-modify_self, is_positive, is_zero, int_inc, pos,
  Outcome, done, panic, ℕ_discrete, arith,
}
use aut_whuoslab.Fs.Inodes.{Inode, Inodes, holds, scan, one_more_ref, fresh_entry, iget}
use aut_whuoslab.Fs.Scan.{Unheld, Full, Scanned, head_eq, some_ne, scan-Scanned}

-- Two entries do not hold the same inode.
abbrev pub Unique : List Inode → Type 0
Unique ips =
    (i j : ℕ) (x y : Inode)
    → get_elem? ips i ≡ some x
    → get_elem? ips j ≡ some y
    → is_positive y.ref ≡ true
    → holds y.dev y.inum x ≡ true
    → i ≡ j

-- What holds of an entry that holds an inode.
holds_parts :
    (dev inum : ℕ) (x : Inode)
    → holds dev inum x ≡ true
    → (is_positive x.ref ≡ true) × (x.dev ≡ dev) × (x.inum ≡ inum)
holds_parts dev inum x h = ground (arith, h)

holds_of :
    (dev inum : ℕ) (x : Inode)
    → is_positive x.ref ≡ true
    → x.dev ≡ dev
    → x.inum ≡ inum
    → holds dev inum x ≡ true
holds_of dev inum x p d n = ground (arith, p, d, n)

get_modified :
    (ips : List Inode) (i j : ℕ) (f : Inode → Inode) (x y : Inode)
    → get_elem? ips i ≡ some x
    → get_elem? (modify ips i f) j ≡ some y
    → ((j ≡ i) × (y ≡ f x)) ⊎ ((j ≢ i) × (get_elem? ips j ≡ some y))
get_modified ips i j f x y g h = elim (ℕ_discrete j i) [
  | yes e ↦ inl (
    e,
    head_eq y (f x) (sym h ∙ ap (get_elem? (modify ips i f)) e ∙ get_elem?-modify_self ips i f x g),
  )
  | no n ↦ inr (n, sym (get_elem?-modify_ne ips i j f (λ q. n (sym q))) ∙ h)
]

-- One more reference to an inode leaves the entries unique.
hit-Unique :
    (ips : List Inode) (i : ℕ) (x : Inode)
    → get_elem? ips i ≡ some x
    → is_positive x.ref ≡ true
    → Unique ips
    → Unique (modify ips i one_more_ref)
hit-Unique ips i x g p u a b y z ga gb pos_z h =
    by_places (get_modified ips i a one_more_ref x y g ga)
      (get_modified ips i b one_more_ref x z g gb)
  where
    q : (is_positive y.ref ≡ true) × (y.dev ≡ z.dev) × (y.inum ≡ z.inum)
    q = holds_parts z.dev z.inum y h

    by_places :
        ((a ≡ i) × (y ≡ one_more_ref x)) ⊎ ((a ≢ i) × (get_elem? ips a ≡ some y))
        → ((b ≡ i) × (z ≡ one_more_ref x)) ⊎ ((b ≢ i) × (get_elem? ips b ≡ some z))
        → a ≡ b
    by_places (inl e) (inl f) = e.0 ∙ sym f.0
    by_places (inl e) (inr f) =
        e.0
        ∙ u i b x z g f.1 pos_z (
            holds_of z.dev z.inum x p (sym (ap (λ (k : Inode). k.dev) e.1) ∙ q.1)
              (sym (ap (λ (k : Inode). k.inum) e.1) ∙ q.2))
    by_places (inr e) (inl f) =
        u a i y x e.1 g p (
          holds_of x.dev x.inum y q.0 (q.1 ∙ ap (λ (k : Inode). k.dev) f.1)
            (q.2 ∙ ap (λ (k : Inode). k.inum) f.1))
        ∙ sym f.0
    by_places (inr e) (inr f) = u a b y z e.1 f.1 pos_z h

-- A new entry for an inode that no entry holds leaves the entries unique.
fresh-Unique :
    (dev inum : ℕ) (ips : List Inode) (i : ℕ) (x : Inode)
    → get_elem? ips i ≡ some x
    → Unheld dev inum ips
    → Unique ips
    → Unique (modify ips i (fresh_entry dev inum))
fresh-Unique dev inum ips i x g none_holds u a b y z ga gb pos_z h =
    by_places (get_modified ips i a (fresh_entry dev inum) x y g ga)
      (get_modified ips i b (fresh_entry dev inum) x z g gb)
  where
    q : (is_positive y.ref ≡ true) × (y.dev ≡ z.dev) × (y.inum ≡ z.inum)
    q = holds_parts z.dev z.inum y h

    no_holder :
        (n : ℕ) (w : Inode)
        → get_elem? ips n ≡ some w
        → is_positive w.ref ≡ true
        → w.dev ≡ dev
        → w.inum ≡ inum
        → ⊥
    no_holder n w gw pw d m = let k = none_holds n w gw in let l = holds_of dev inum w pw d m in cc

    by_places :
        ((a ≡ i) × (y ≡ fresh_entry dev inum x)) ⊎ ((a ≢ i) × (get_elem? ips a ≡ some y))
        → ((b ≡ i) × (z ≡ fresh_entry dev inum x)) ⊎ ((b ≢ i) × (get_elem? ips b ≡ some z))
        → a ≡ b
    by_places (inl e) (inl f) = e.0 ∙ sym f.0
    by_places (inl e) (inr f) = absurd (
        no_holder b z f.1 pos_z (sym q.1 ∙ ap (λ (k : Inode). k.dev) e.1)
          (sym q.2 ∙ ap (λ (k : Inode). k.inum) e.1))
    by_places (inr e) (inl f) = absurd (
        no_holder a y e.1 q.0 (q.1 ∙ ap (λ (k : Inode). k.dev) f.1)
          (q.2 ∙ ap (λ (k : Inode). k.inum) f.1))
    by_places (inr e) (inr f) = u a b y z e.1 f.1 pos_z h

-- The entry that `iget` returns: the one that held the inode, with one reference more, or a free one that
-- now has its numbers, one reference and `valid` 0, its other fields as they were.
abbrev pub Entry : ℕ → ℕ → List Inode → Inode → Inode → Type 0
Entry dev inum ips x y =
    ((holds dev inum x ≡ true) × (y ≡ record x { ref = int_inc x.ref }))
    ⊎ (Unheld dev inum ips
        × (is_zero x.ref ≡ true)
        × (y ≡ record x { dev = dev; inum = inum; ref = pos 1; valid = false }))

-- What `iget` does: it panics if no entry holds the inode and none is free; otherwise the entries are still unique,
-- and only the one that it returns has changed.
abbrev pub Gets : ℕ → ℕ → Inodes → Outcome (ℕ × Inodes) → Type 0
Gets dev inum s panic = Unheld dev inum s.table × Full s.table
Gets dev inum s (done (i, s')) =
    Unique s'.table
    × ((x y : Inode) × (get_elem? s.table i ≡ some x)
        × (get_elem? s'.table i ≡ some y)
        × Entry dev inum s.table x y)
    × ((j : ℕ) → j ≢ i → get_elem? s'.table j ≡ get_elem? s.table j)

-- In a table where no inode has two entries, `iget` returns the entry that holds the inode, with one reference
-- more and nothing else changed, or else a free entry that now has the inode's numbers, one reference and
-- `valid` 0, or panics when there is neither; the other entries stay, and no inode has two entries
-- afterwards.
pub iget-Gets : (dev inum : ℕ) (s : Inodes) → Unique s.table → Gets dev inum s (iget dev inum s)
unfolding iget
iget-Gets dev inum s u =
    by_scan (scan dev inum 0 none s.table) (scan-Scanned dev inum 0 none s.table)
  where
    result : Option ℕ × Option ℕ → Outcome (ℕ × Inodes)
    result (hit, empty) = elim hit [
      | some i ↦ done (i, record s { table = modify s.table i one_more_ref })
      | none ↦ elim empty [
        | none ↦ panic
        | some i ↦ done (i, record s { table = modify s.table i (fresh_entry dev inum) })
      ]
    ]

    others :
        (i : ℕ) (f : Inode → Inode) (j : ℕ)
        → j ≢ i
        → get_elem? (modify s.table i f) j ≡ get_elem? s.table j
    others i f j n = get_elem?-modify_ne s.table i j f (λ e. n (sym e))

    by_scan :
        (r : Option ℕ × Option ℕ) → Scanned dev inum 0 none s.table r → Gets dev inum s (result r)
    by_scan (some h, o) (n, x, e, g, held) =
        let at : get_elem? s.table h ≡ some x =
          ap (get_elem? s.table) (let k : h ≡ n = omega (arith, e) in k) ∙ g in
        (
          hit-Unique s.table h x at (holds_parts dev inum x held).0 u,
          (
            x,
            one_more_ref x,
            at,
            get_elem?-modify_self s.table h one_more_ref x at,
            inl (held, refl),
          ),
          others h one_more_ref,
        )
    by_scan (none, none) f = (f.1, f.2)
    by_scan (none, some i) (free, inl e) = absurd (some_ne i e)
    by_scan (none, some i) (free, inr (n, x, e, g, z)) =
        let at : get_elem? s.table i ≡ some x =
          ap (get_elem? s.table) (let k : i ≡ n = omega (arith, e) in k) ∙ g in
        (
          fresh-Unique dev inum s.table i x at free u,
          (
            x,
            fresh_entry dev inum x,
            at,
            get_elem?-modify_self s.table i (fresh_entry dev inum) x at,
            inr (free, z, refl),
          ),
          others i (fresh_entry dev inum),
        )
