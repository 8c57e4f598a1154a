-- ===== src/Log/Recovery.antt =====
-- What a boot makes of the log that it finds on the disk.
use aut_whuoslab.Prelude.{
  ℕ, zero, suc, ◌≤◌, ◌≡◌, refl, ap, ◌∙◌, List, [], ◌∷◌, arith, length, take, All, if◌then◌else◌,
}
use aut_whuoslab.Log.{
  log_blocks, Write, write_header, Disk, Memory, do_write, do_writes, install_from, mem, write_head,
  install_trans, read_head, recover_from_log, initlog,
}
use aut_whuoslab.Log.Writes.{Home, Logged, do_writes-append}
use aut_whuoslab.Log.Install.{Good, install_from-block, Good-header, Good-Logged, Good-block}

module _ {ℓ} {A : Type ℓ} where
  pub take_nil : (k : ℕ) → take {A = Write A} k [] ≡ []
  take_nil zero = refl
  take_nil (suc k) = refl

  -- The disk after the machine has booted from it.
  unfoldable pub recovered : ℕ → Disk A → Disk A
  unfolding initlog
  recovered start d = do_writes (initlog start d).1 d

  pub recovered_lem :
      (start : ℕ) (d : Disk A)
      → recovered start d
        ≡ do_write (write_header []) (do_writes (install_from start 0 d.header d.block).1 d)
  unfolding recovered initlog recover_from_log install_trans write_head read_head do_writes
  recovered_lem start d =
      do_writes-append (install_from start 0 d.header d.block).1 (write_header [] ∷ []) d

  -- The blocks outside the log are those of `d`.
  abbrev pub IsOld : ℕ → Disk A → Disk A → Type ℓ
  IsOld start d r = (b : ℕ) → Home start b → r.block b ≡ d.block b

  -- The blocks of the transaction have the contents of the buffers, the others outside the log those of `d`.
  abbrev pub IsNew : ℕ → Memory A → Disk A → Disk A → Type ℓ
  IsNew start m d r =
      (b : ℕ) → Home start b → r.block b ≡ (if mem b m.lh then m.buf b else d.block b)

  pub recovered-clean :
      (start : ℕ) (d : Disk A)
      → d.header ≡ []
      → ((recovered start d).header ≡ []) × ((b : ℕ) → (recovered start d).block b ≡ d.block b)
  unfolding do_write do_writes install_from
  recovered-clean start d e = rw (recovered_lem start d, e) (refl, λ b. refl)

  module _ (start : ℕ) (val : ℕ → A) (bs : List ℕ) (homes : All (Home start) bs)
      (fits : length bs ≤ log_blocks) where
    pub recovered_committed :
        (d : Disk A)
        → d.header ≡ bs
        → Logged start val d.block 0 bs
        → ((recovered start d).header ≡ [])
          × ((b : ℕ) → (recovered start d).block b ≡ (if mem b bs then val b else d.block b))
    unfolding do_write
    recovered_committed d e l = (
      ap (λ r. r.header) (recovered_lem start d),
      λ b.
          ap (λ r. r.block b) (recovered_lem start d)
          ∙ ap (λ h. (do_writes (install_from start 0 h d.block).1 d).block b) e
          ∙ install_from-block start val 0 b bs d.block d homes (omega (arith, fits)) l,
    )

    -- A crash while the transaction is installed.
    pub recovered-installing :
        (d : Disk A) (ws : List (Write A))
        → d.header ≡ bs
        → Logged start val d.block 0 bs
        → All (Good start val bs) ws
        → ((recovered start (do_writes ws d)).header ≡ [])
          × ((b : ℕ)
              → (recovered start (do_writes ws d)).block b
                ≡ (if mem b bs then val b else d.block b))
    recovered-installing d ws e l g =
        let (h, f) =
          recovered_committed (do_writes ws d) (Good-header start val bs ws d g ∙ e)
            (Good-Logged start val bs ws d fits g l) in
        (h, λ b. f b ∙ Good-block start val bs ws d b g)
