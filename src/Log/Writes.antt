-- ===== src/Log/Writes.antt =====
-- What the writes of the log's loops do to a disk.
use aut_whuoslab.Prelude.{
  ℕ, zero, suc, ◌+◌, ◌≤◌, ◌<◌, ◌≡◌, refl, ap, ◌∙◌, ◌⊎◌, inl, inr, List, [], ◌∷◌, ◌++◌, arith,
  length, take, All,
}
use aut_whuoslab.Kalloc.{update}
use aut_whuoslab.Log.{
  log_blocks, Write, write_block, write_header, Disk, do_write, do_writes, write_log_from,
}

-- A block outside the log, which begins with its header at block `start`.
abbrev pub Home : ℕ → ℕ → Type 0
Home start b = (b < start) ⊎ (start + log_blocks < b)

module _ {ℓ} {A : Type ℓ} where
  pub do_writes-append :
      (ws vs : List (Write A)) (d : Disk A) → do_writes (ws ++ vs) d ≡ do_writes vs (do_writes ws d)
  unfolding do_writes
  do_writes-append [] vs d = refl
  do_writes-append (w ∷ ws) vs d = do_writes-append ws vs (do_write w d)

  -- A prefix of two lists of writes ends in the first or in the second.
  pub take-append :
      (k : ℕ) (ws vs : List (Write A))
      → (take k (ws ++ vs) ≡ take k ws) ⊎ ((j : ℕ) × (take k (ws ++ vs) ≡ ws ++ take j vs))
  take-append k [] vs = inr (k, refl)
  take-append zero (w ∷ ws) vs = inl refl
  take-append (suc k) (w ∷ ws) vs = longer (take-append k ws vs)
    where
      longer :
          (take k (ws ++ vs) ≡ take k ws) ⊎ ((j : ℕ) × (take k (ws ++ vs) ≡ ws ++ take j vs))
          → (w ∷ take k (ws ++ vs) ≡ w ∷ take k ws)
            ⊎ ((j : ℕ) × (w ∷ take k (ws ++ vs) ≡ w ∷ ws ++ take j vs))
      longer (inl e) = inl (ap (λ l. w ∷ l) e)
      longer (inr (j, e)) = inr (j, ap (λ l. w ∷ l) e)

  -- Nothing but the log's blocks is written.
  abbrev pub InLog : ℕ → Write A → Type 0
  InLog start (write_block b v) = (start < b) × (b ≤ start + log_blocks)
  InLog start (write_header h) = ⊥

  pub All-take {κ} :
      (P : Write A → Type κ) (k : ℕ) (ws : List (Write A)) → All P ws → All P (take k ws)
  All-take P zero ws a = tt
  All-take P (suc k) [] a = tt
  All-take P (suc k) (w ∷ ws) a = (a.0, All-take P k ws a.1)

  pub InLog-Home :
      (start : ℕ) (ws : List (Write A)) (d : Disk A)
      → All (InLog start) ws
      → ((do_writes ws d).header ≡ d.header)
        × ((b : ℕ) → Home start b → (do_writes ws d).block b ≡ d.block b)
  unfolding do_writes do_write
  InLog-Home start [] d a = (refl, λ b h. refl)
  InLog-Home start (write_block c v ∷ ws) d a =
      let (e, f) = InLog-Home start ws (do_write (write_block c v) d) a.1 in
      (e, λ b h. f b h ∙ other b h)
    where
      other : (b : ℕ) → Home start b → update d.block c v b ≡ d.block b
      other b (inl h) = ground (arith, a.0)
      other b (inr h) = ground (arith, a.0)
  InLog-Home start (write_header h ∷ ws) d a = absurd a.0

  -- The log holds the values of the blocks in the list, from `tail` on.
  abbrev pub Logged : ℕ → (ℕ → A) → (ℕ → A) → ℕ → List ℕ → Type ℓ
  Logged start val block tail [] = Unit
  Logged start val block tail (b ∷ bs) =
      (block (start + tail + 1) ≡ val b) × Logged start val block (suc tail) bs

  module _ (start : ℕ) where
    pub write_log_from-InLog :
        (tail : ℕ) (bs : List ℕ) (buf : ℕ → A)
        → tail + length bs ≤ log_blocks
        → All (InLog start) (write_log_from start tail bs buf).1
    unfolding write_log_from
    write_log_from-InLog tail [] buf h = tt
    write_log_from-InLog tail (b ∷ bs) buf h =
        ((omega arith, omega arith), write_log_from-InLog (suc tail) bs _ (omega arith))

    -- The writes go to the places from `tail` on.
    write_log_from-below :
        (tail x : ℕ) (bs : List ℕ) (buf : ℕ → A) (d : Disk A)
        → x < start + tail + 1
        → (do_writes (write_log_from start tail bs buf).1 d).block x ≡ d.block x
    unfolding write_log_from do_writes do_write
    write_log_from-below tail x [] buf d h = refl
    write_log_from-below tail x (b ∷ bs) buf d h =
        write_log_from-below (suc tail) x bs _ _ (omega arith) ∙ ground arith

    -- After `write_log` the log on the disk holds what the buffers held.
    pub write_log_from-Logged :
        (tail : ℕ) (bs : List ℕ) (buf val : ℕ → A) (d : Disk A)
        → All (Home start) bs
        → ((b : ℕ) → Home start b → buf b ≡ val b)
        → tail + length bs ≤ log_blocks
        → Logged start val (do_writes (write_log_from start tail bs buf).1 d).block tail bs
    unfolding write_log_from do_writes do_write
    write_log_from-Logged tail [] buf val d a same h = tt
    write_log_from-Logged tail (b ∷ bs) buf val d a same h = (
      write_log_from-below (suc tail) (start + tail + 1) bs _ _ (omega arith)
          ∙ ground (arith, same b a.0),
      write_log_from-Logged (suc tail) bs _ val _ a.1 (λ c g. kept c g ∙ same c g) (omega arith),
    )
      where
        kept : (c : ℕ) → Home start c → update buf (start + tail + 1) (buf b) c ≡ buf c
        kept c (inl g) = ground arith
        kept c (inr g) = ground arith

    -- The buffers see the same writes as the disk.
    pub write_log_from-buf :
        (tail : ℕ) (bs : List ℕ) (buf : ℕ → A) (h : List ℕ)
        → (write_log_from start tail bs buf).0
          ≡ (do_writes
              (write_log_from start tail bs buf).1
              (record { header = h; block = buf })).block
    unfolding write_log_from do_writes do_write
    write_log_from-buf tail [] buf h = refl
    write_log_from-buf tail (b ∷ bs) buf h =
        write_log_from-buf (suc tail) bs (update buf (start + tail + 1) (buf b)) h
