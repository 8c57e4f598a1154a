-- ===== src/Log/Crash.antt =====
-- The transaction across a crash: after any of the disk writes of `commit`, in order, the machine may stop
-- and boot again from the disk.
use aut_whuoslab.Prelude.{
  ℕ, zero, suc, ◌≤◌, ◌<◌, ◌≡◌, refl, ap, ◌∙◌, ◌⊎◌, inl, inr, true, false, List, [], ◌∷◌, ◌++◌,
  arith, length, take, All, ltb, if◌then◌else◌,
}
use aut_whuoslab.Log.{
  log_blocks, Write, write_header, Disk, Memory, do_write, do_writes, write_log_from, install_from,
  mem, write_log, write_head, install_trans, commit,
}
use aut_whuoslab.Log.Writes.{
  Home, Logged, InLog, InLog-Home, All-take, take-append, do_writes-append, write_log_from-InLog,
  write_log_from-Logged, write_log_from-buf,
}
use aut_whuoslab.Log.Install.{Good, install_from-Good, install_from-block}
use aut_whuoslab.Log.Recovery.{
  take_nil, recovered, IsOld, IsNew, recovered-clean, recovered-installing,
}

module _ {ℓ} {A : Type ℓ} where
  module _ (start : ℕ) (d : Disk A) (m : Memory A) (clean : d.header ≡ [])
      (homes : All (Home start) m.lh) (fits : length m.lh ≤ log_blocks) where
    -- The three parts of the writes of `commit`.
    abbrev logging : List (Write A)
    logging = (write_log_from start 0 m.lh m.buf).1

    abbrev installing : List (Write A)
    installing = (install_from start 0 m.lh (write_log_from start 0 m.lh m.buf).0).1

    commit-writes :
        0 < length m.lh
        → (commit start m).1 ≡ logging ++ write_header m.lh ∷ (installing ++ write_header [] ∷ [])
    unfolding commit write_log write_head install_trans
    commit-writes lt = let e : ltb 0 (length m.lh) ≡ true = ground arith in rw e refl

    commit-none : length m.lh ≡ 0 → (commit start m).1 ≡ []
    unfolding commit
    commit-none z = let e : ltb 0 (length m.lh) ≡ false = ground arith in rw e refl

    -- The disk with the log written, and with its header written.
    abbrev logged : Disk A
    logged = do_writes logging d

    abbrev committed : Disk A
    committed = do_write (write_header m.lh) logged

    logging-InLog : All (InLog start) logging
    logging-InLog = write_log_from-InLog start 0 m.lh m.buf (omega (arith, fits))

    committed-Logged : Logged start m.buf committed.block 0 m.lh
    unfolding do_write
    committed-Logged =
        write_log_from-Logged start 0 m.lh m.buf m.buf d homes (λ b h. refl) (omega (arith, fits))

    buffers-Logged : Logged start m.buf (write_log_from start 0 m.lh m.buf).0 0 m.lh
    buffers-Logged = rw (write_log_from-buf start 0 m.lh m.buf []) (
        write_log_from-Logged start 0 m.lh m.buf m.buf (record { header = []; block = m.buf }) homes
          (λ b h. refl) (omega (arith, fits)))

    installing-Good : All (Good start m.buf m.lh) installing
    installing-Good = install_from-Good start m.buf m.lh _ homes fits buffers-Logged

    -- What a boot finds after a crash.
    abbrev Survives : Disk A → Type ℓ
    Survives r = (r.header ≡ []) × (IsOld start d r ⊎ IsNew start m d r)

    clean_crash :
        (ws : List (Write A)) → All (InLog start) ws → Survives (recovered start (do_writes ws d))
    clean_crash ws a =
        let (e, f) = InLog-Home start ws d a in
        let (h, g) = recovered-clean start (do_writes ws d) (e ∙ clean) in
        (h, inl (λ b hb. g b ∙ f b hb))

    committed-IsNew :
        (r : Disk A)
        → ((b : ℕ) → r.block b ≡ (if mem b m.lh then m.buf b else committed.block b))
        → IsNew start m d r
    unfolding do_write
    committed-IsNew r f b h =
        f b
        ∙ ap (λ v. if mem b m.lh then m.buf b else v)
            ((InLog-Home start logging d logging-InLog).1 b h)

    install_crash :
        (ws : List (Write A))
        → All (Good start m.buf m.lh) ws
        → Survives (recovered start (do_writes ws committed))
    unfolding do_write
    install_crash ws g =
        let (h, f) =
          recovered-installing start m.buf m.lh homes fits committed ws refl committed-Logged g in
        (h, inr (committed-IsNew (recovered start (do_writes ws committed)) f))

    -- The disk that a commit without a crash leaves.
    finished : Disk A
    unfolding do_write
    finished = do_write (write_header []) (do_writes installing committed)

    finished-IsNew : IsNew start m d finished
    unfolding finished do_write
    finished-IsNew = committed-IsNew finished (λ b.
        install_from-block start m.buf 0 b m.lh _ committed homes (omega (arith, fits))
          buffers-Logged)

    finished_crash : Survives (recovered start finished)
    unfolding finished do_write
    finished_crash =
        let (h, f) = recovered-clean start finished refl in
        (h, inr (λ b hb. f b ∙ finished-IsNew b hb))

    -- A prefix of the writes after those of the log.
    late_crash :
        (j : ℕ)
        → Survives (
            recovered start (
              do_writes (take j (write_header m.lh ∷ (installing ++ write_header [] ∷ []))) logged))
    unfolding do_writes finished
    late_crash zero = clean_crash logging logging-InLog
    late_crash (suc j) = by_part (take-append j installing (write_header [] ∷ []))
      where
        by_part :
            (take j (installing ++ write_header [] ∷ []) ≡ take j installing)
              ⊎ ((i : ℕ) × (take j (installing ++ write_header [] ∷ [])
                    ≡ installing ++ take i (write_header [] ∷ [])))
            → Survives (
                recovered start (do_writes (take j (installing ++ write_header [] ∷ [])) committed))
        by_part (inl e) =
            rw e (install_crash (take j installing) (All-take _ j installing installing-Good))
        by_part (inr (zero, e)) =
            rw (e, do_writes-append installing [] committed)
              (install_crash installing installing-Good)
        by_part (inr (suc i, e)) =
            rw (e, do_writes-append installing (write_header [] ∷ take i []) committed)
              (rw (take_nil i) finished_crash)

    any_crash :
        (k : ℕ)
        → Survives (
            recovered start (
              do_writes
                (take k (logging ++ write_header m.lh ∷ (installing ++ write_header [] ∷ [])))
                d))
    any_crash k =
        by_part (take-append k logging (write_header m.lh ∷ (installing ++ write_header [] ∷ [])))
      where
        rest : List (Write A)
        rest = write_header m.lh ∷ (installing ++ write_header [] ∷ [])

        by_part :
            (take k (logging ++ rest) ≡ take k logging)
              ⊎ ((j : ℕ) × (take k (logging ++ rest) ≡ logging ++ take j rest))
            → Survives (recovered start (do_writes (take k (logging ++ rest)) d))
        by_part (inl e) = rw e (clean_crash (take k logging) (All-take _ k logging logging-InLog))
        by_part (inr (j, e)) = rw (e, do_writes-append logging (take j rest) d) (late_crash j)

    -- A commit is atomic. The disk's log is empty, all blocks of the transaction are outside the log area,
    -- and there are at most LOGBLOCKS of them. If the machine stops after any number of the writes of
    -- `commit`, the next boot leaves an empty log and either all blocks outside the log as they were, or
    -- all blocks of the transaction with the contents of the buffers and the others as they were.
    pub commit-crash :
        (k : ℕ)
        → ((recovered start (do_writes (take k (commit start m).1) d)).header ≡ [])
          × (IsOld start d (recovered start (do_writes (take k (commit start m).1) d))
              ⊎ IsNew start m d (recovered start (do_writes (take k (commit start m).1) d)))
    commit-crash k = by_length (length m.lh) refl
      where
        by_length :
            (n : ℕ)
            → length m.lh ≡ n
            → Survives (recovered start (do_writes (take k (commit start m).1) d))
        by_length zero e = rw (commit-none e) (rw (take_nil k) (clean_crash [] tt))
        by_length (suc n) e = rw (commit-writes (omega arith)) (any_crash k)

    -- A commit that is not interrupted, under the same conditions, leaves an empty log and all blocks of
    -- the transaction, of which there is at least one, with the contents of the buffers.
    pub commit-IsNew :
        0 < length m.lh
        → ((do_writes (commit start m).1 d).header ≡ [])
          × IsNew start m d (do_writes (commit start m).1 d)
    unfolding finished do_writes
    commit-IsNew lt =
        rw
          (
            commit-writes lt,
            do_writes-append logging (write_header m.lh ∷ (installing ++ write_header [] ∷ [])) d,
            do_writes-append installing (write_header [] ∷ []) committed,
          )
          (refl, finished-IsNew)
