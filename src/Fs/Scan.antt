-- ===== src/Fs/Scan.antt =====
-- The loop of `iget`: the entry that it finds.
use aut_whuoslab.Prelude.{
  ℕ, zero, suc, ◌+◌, ◌≡◌, ◌≢◌, refl, sym, ap, ◌∙◌, ◌⊎◌, inl, inr, true, false, if◌then◌else◌, List,
  [], ◌∷◌, Option, none, some, get_elem?, is_zero, Bool-cases, arith,
}
use aut_whuoslab.Fs.Inodes.{Inode, holds, scan}

abbrev pub Unheld : ℕ → ℕ → List Inode → Type 0
Unheld dev inum ips = (n : ℕ) (x : Inode) → get_elem? ips n ≡ some x → holds dev inum x ≡ false

abbrev pub Full : List Inode → Type 0
Full ips = (n : ℕ) (x : Inode) → get_elem? ips n ≡ some x → is_zero x.ref ≡ false

-- What a scan from entry `i` on finds.
abbrev pub Scanned : ℕ → ℕ → ℕ → Option ℕ → List Inode → Option ℕ × Option ℕ → Type 0
Scanned dev inum i e ips (some h, o) =
    (n : ℕ) × (x : Inode) × (h ≡ i + n) × (get_elem? ips n ≡ some x) × (holds dev inum x ≡ true)
Scanned dev inum i e ips (none, none) = (e ≡ none) × Unheld dev inum ips × Full ips
Scanned dev inum i e ips (none, some f) =
    Unheld dev inum ips
    × ((e ≡ some f)
        ⊎ ((n : ℕ) × (x : Inode) × (f ≡ i + n)
            × (get_elem? ips n ≡ some x)
            × (is_zero x.ref ≡ true)))

pub head_eq : (x y : Inode) → some x ≡ some y → x ≡ y
head_eq x y e = cc

num_eq : {x y : ℕ} → some x ≡ some y → x ≡ y
num_eq e = cc

pub some_ne : (x : ℕ) → none ≢ some x
some_ne x e = cc

module _ (dev inum : ℕ) where
  cons-Unheld :
      (ip : Inode) (ips : List Inode)
      → holds dev inum ip ≡ false
      → Unheld dev inum ips
      → Unheld dev inum (ip ∷ ips)
  cons-Unheld ip ips h u zero x e = ap (holds dev inum) (sym (head_eq ip x e)) ∙ h
  cons-Unheld ip ips h u (suc n) x e = u n x e

  cons-Full : (ip : Inode) (ips : List Inode) → is_zero ip.ref ≡ false → Full ips → Full (ip ∷ ips)
  cons-Full ip ips h u zero x e = ap (λ (q : Inode). is_zero q.ref) (sym (head_eq ip x e)) ∙ h
  cons-Full ip ips h u (suc n) x e = u n x e

  -- The results of a scan from the next entry on are those of a scan from here.
  scan_later :
      (i : ℕ) (e e' : Option ℕ) (ip : Inode) (ips : List Inode) (r : Option ℕ × Option ℕ)
      → holds dev inum ip ≡ false
      → ((e' ≡ e) × ((e ≡ none) → is_zero ip.ref ≡ false))
        ⊎ ((e' ≡ some i) × (is_zero ip.ref ≡ true))
      → Scanned dev inum (suc i) e' ips r
      → Scanned dev inum i e (ip ∷ ips) r
  scan_later i e e' ip ips (some h, o) no_hit c (n, x, p, g, q) = (suc n, x, omega (arith, p), g, q)
  scan_later i e e' ip ips (none, none) no_hit (inl c) f =
      (sym c.0 ∙ f.0, cons-Unheld ip ips no_hit f.1, cons-Full ip ips (c.1 (sym c.0 ∙ f.0)) f.2)
  scan_later i e e' ip ips (none, none) no_hit (inr c) f = let a = f.0 in let b = c.0 in absurd cc
  scan_later i e e' ip ips (none, some z) no_hit (inl c) (u, inl g) =
      (cons-Unheld ip ips no_hit u, inl (sym c.0 ∙ g))
  scan_later i e e' ip ips (none, some z) no_hit (inr c) (u, inl g) =
      let same : z ≡ i = num_eq (sym g ∙ c.0) in
      (cons-Unheld ip ips no_hit u, inr (0, ip, omega arith, refl, c.1))
  scan_later i e e' ip ips (none, some z) no_hit c (u, inr (n, x, p, g, q)) =
      (cons-Unheld ip ips no_hit u, inr (suc n, x, omega (arith, p), g, q))

  pub scan-Scanned :
      (i : ℕ) (e : Option ℕ) (ips : List Inode) → Scanned dev inum i e ips (scan dev inum i e ips)
  scan-Scanned i none [] = (refl, (λ n x g. cc), λ n x g. cc)
  scan-Scanned i (some z) [] = ((λ n x g. cc), inl refl)
  scan-Scanned i e (ip ∷ ips) = elim (Bool-cases (holds dev inum ip)) [
    | inl hit ↦ rw hit (0, ip, omega arith, refl, hit)
    | inr no_hit ↦
        rw no_hit (scan_later i e _ ip ips _ no_hit (passed e) (scan-Scanned (suc i) _ ips))
  ]
    where
      passed :
          (o : Option ℕ)
          → ((elim o [ none ↦ if is_zero ip.ref then some i else none | some a ↦ some a ] ≡ o)
              × ((o ≡ none) → is_zero ip.ref ≡ false))
            ⊎ ((elim o [ none ↦ if is_zero ip.ref then some i else none | some a ↦ some a ]
                  ≡ some i)
                × (is_zero ip.ref ≡ true))
      passed (some a) = inl (refl, λ q. absurd (some_ne a (sym q)))
      passed none = elim (Bool-cases (is_zero ip.ref)) [
        | inl z ↦ inr (rw z refl, z)
        | inr z ↦ inl (rw z refl, λ q. z)
      ]
