-- ===== src/Log/Install.antt =====
-- What installing a logged transaction does to a disk, also when only a part of it is done.
use aut_whuoslab.Prelude.{
  ℕ, suc, ◌+◌, ◌≤◌, ◌≡◌, refl, ◌∙◌, subst, ◌≢◌, inl, inr, Bool, true, false, List, [], ◌∷◌, arith,
  length, All, if◌then◌else◌,
}
use aut_whuoslab.Kalloc.{update}
use aut_whuoslab.Log.{
  log_blocks, Write, write_block, write_header, Disk, do_write, do_writes, install_from, mem,
}
use aut_whuoslab.Log.Writes.{Home, Logged}

module _ {ℓ} {A : Type ℓ} (start : ℕ) (val : ℕ → A) where
  -- A write of the right value to a home block of the transaction `bs`.
  abbrev pub Good : List ℕ → Write A → Type ℓ
  Good bs (write_block b v) = (mem b bs ≡ true) × (v ≡ val b) × Home start b
  Good bs (write_header h) = Unit × ⊥

  -- The home blocks do not touch the log.
  Logged-update :
      (f : ℕ → A) (tail c : ℕ) (bs : List ℕ) (v : A)
      → Home start c
      → tail + length bs ≤ log_blocks
      → Logged start val f tail bs
      → Logged start val (update f c v) tail bs
  Logged-update f tail c [] v h n l = tt
  Logged-update f tail c (b ∷ bs) v h n l =
      (kept h ∙ l.0, Logged-update f (suc tail) c bs v h (omega arith) l.1)
    where
      kept : Home start c → update f c v (start + tail + 1) ≡ f (start + tail + 1)
      kept (inl g) = ground arith
      kept (inr g) = ground arith

  mem-cons : (b c : ℕ) (bs : List ℕ) → mem b bs ≡ true → mem b (c ∷ bs) ≡ true
  mem-cons b c bs e = ground arith

  All-mem_cons :
      (c : ℕ) (bs cs : List ℕ) → All (λ b. mem b bs ≡ true) cs → All (λ b. mem b (c ∷ bs) ≡ true) cs
  All-mem_cons c bs [] a = tt
  All-mem_cons c bs (b ∷ cs) a = (mem-cons b c bs a.0, All-mem_cons c bs cs a.1)

  All-mem : (bs : List ℕ) → All (λ b. mem b bs ≡ true) bs
  All-mem [] = tt
  All-mem (b ∷ bs) = (ground arith, All-mem_cons b bs bs (All-mem bs))

  install_from-Good_in :
      (bs0 : List ℕ) (tail : ℕ) (bs : List ℕ) (buf : ℕ → A)
      → All (λ b. mem b bs0 ≡ true) bs
      → All (Home start) bs
      → tail + length bs ≤ log_blocks
      → Logged start val buf tail bs
      → All (Good bs0) (install_from start tail bs buf).1
  unfolding install_from
  install_from-Good_in bs0 tail [] buf m a n l = tt
  install_from-Good_in bs0 tail (b ∷ bs) buf m a n l = (
    (m.0, l.0, a.0),
    install_from-Good_in bs0 (suc tail) bs _ m.1 a.1 (omega arith)
        (Logged-update buf (suc tail) b bs _ a.0 (omega arith) l.1),
  )

  pub install_from-Good :
      (bs : List ℕ) (buf : ℕ → A)
      → All (Home start) bs
      → length bs ≤ log_blocks
      → Logged start val buf 0 bs
      → All (Good bs) (install_from start 0 bs buf).1
  install_from-Good bs buf a n l = install_from-Good_in bs 0 bs buf (All-mem bs) a (omega arith) l

  -- All of it: each block of the transaction has its value.
  pub install_from-block :
      (tail x : ℕ) (bs : List ℕ) (buf : ℕ → A) (d : Disk A)
      → All (Home start) bs
      → tail + length bs ≤ log_blocks
      → Logged start val buf tail bs
      → (do_writes (install_from start tail bs buf).1 d).block x
        ≡ (if mem x bs then val x else d.block x)
  unfolding install_from do_writes do_write
  install_from-block tail x [] buf d a n l = refl
  install_from-block tail x (b ∷ bs) buf d a n l =
      install_from-block (suc tail) x bs _ _ a.1 (omega arith)
        (Logged-update buf (suc tail) b bs _ a.0 (omega arith) l.1)
      ∙ ground (arith, l.0)

  -- Any good writes: the header and the log stay, and a block is as it was or has its value.
  pub Good-header :
      (bs : List ℕ) (ws : List (Write A)) (d : Disk A)
      → All (Good bs) ws
      → (do_writes ws d).header ≡ d.header
  unfolding do_writes do_write
  Good-header bs [] d g = refl
  Good-header bs (write_block b v ∷ ws) d g = Good-header bs ws _ g.1
  Good-header bs (write_header h ∷ ws) d g = absurd g.0.1

  pub Good-Logged :
      (bs : List ℕ) (ws : List (Write A)) (d : Disk A)
      → length bs ≤ log_blocks
      → All (Good bs) ws
      → Logged start val d.block 0 bs
      → Logged start val (do_writes ws d).block 0 bs
  unfolding do_writes do_write
  Good-Logged bs [] d n g l = l
  Good-Logged bs (write_block b v ∷ ws) d n g l =
      Good-Logged bs ws _ n g.1 (Logged-update d.block 0 b bs v (good_home g.0) (omega arith) l)
    where
      good_home : Good bs (write_block b v) → Home start b
      good_home (m, e, h) = h
  Good-Logged bs (write_header h ∷ ws) d n g l = absurd g.0.1

  pub Good-block :
      (bs : List ℕ) (ws : List (Write A)) (d : Disk A) (x : ℕ)
      → All (Good bs) ws
      → (if mem x bs then val x else (do_writes ws d).block x)
        ≡ (if mem x bs then val x else d.block x)
  unfolding do_writes do_write
  Good-block bs [] d x g = refl
  Good-block bs (write_block b v ∷ ws) d x g = Good-block bs ws _ x g.1 ∙ other (mem x bs) refl
    where
      good_mem : Good bs (write_block b v) → mem b bs ≡ true
      good_mem (m, e, h) = m

      apart : mem x bs ≡ false → b ≢ x
      apart e q =
          let m : mem x bs ≡ true = subst (λ y. mem y bs ≡ true) q (good_mem g.0) in ground arith

      other :
          (t : Bool)
          → mem x bs ≡ t
          → (if t then val x else update d.block b v x) ≡ (if t then val x else d.block x)
      other true e = refl
      other false e = ground (arith, apart e)
  Good-block bs (write_header h ∷ ws) d x g = absurd g.0.1
