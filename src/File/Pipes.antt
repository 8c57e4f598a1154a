-- ===== src/File/Pipes.antt =====
-- `pipealloc` and `sys_pipe`, with all their ways out.
use aut_whuoslab.Prelude.{
  ℕ, ◌<◌, ◌≡◌, refl, sym, ap, ◌∙◌, subst, ◌≢◌, Bool, true, false, [], ◌∷◌, Option, none, some,
  arith, ℤ, pos, minus_one, length, set, get_or-set_self, get_or-set_ne, length-set, Outcome, done,
  ◌>>=◌, Returns, Returns-bind, if◌then◌else◌,
}
use aut_whuoslab.Proc.Types.{nproc}
use aut_whuoslab.File.{
  nofile, fd_pipe, File, Files, change_file, place, set_ofile, filealloc, fileclose, fdalloc,
  pipealloc, close_both, sys_pipe,
}
use aut_whuoslab.File.Counted.{Counted}
use aut_whuoslab.File.Refs.{Allocated, filealloc-Allocated, Closed, fileclose-Closed}
use aut_whuoslab.File.Descriptors.{slot, place-lt, put_in, take_back, Taken, fdalloc-Taken}
use aut_whuoslab.File.Calls.{Fine, Counted-swap, Counted-fields, close_both-Fine}

-- Both files of a new pipe are in hand, or none.
abbrev pub Piped : Files × Option (ℕ × ℕ) → Type 0
Piped (s, none) = Counted [] s
Piped (s, some (f0, f1)) = Counted (f0 ∷ f1 ∷ []) s

close_one-Piped :
    {s : Files} (f : ℕ)
    → Counted (f ∷ []) s
    → Returns Piped (fileclose f s >>= λ q. done (q.0, none))
close_one-Piped {s} f c =
    Returns-bind (Closed [] f s) Piped (fileclose f s) (λ q. done (q.0, none))
      (fileclose-Closed f c) (λ a p. p.0)

-- The two ends, as `pipealloc` fills them in.
as_read_end : ℕ → File → File
as_read_end pi y = record y { kind = fd_pipe; readable = true; writable = false; object = pi }

as_write_end : ℕ → File → File
as_write_end pi y = record y { kind = fd_pipe; readable = false; writable = true; object = pi }

-- `pipealloc` with both files in hand.
fill_pipe : ℕ → ℕ → Option ℕ → Files → Outcome (Files × Option (ℕ × ℕ))
fill_pipe f0 f1 page s = elim page [
  | none ↦ fileclose f0 s >>= λ r. fileclose f1 r.0 >>= λ q. done (q.0, none)
  | some pi ↦
      done (change_file f1 (as_write_end pi) (change_file f0 (as_read_end pi) s), some (f0, f1))
]

fill_pipe-Piped :
    {s : Files} (f0 f1 : ℕ) (page : Option ℕ)
    → Counted (f1 ∷ f0 ∷ []) s
    → Returns Piped (fill_pipe f0 f1 page s)
unfolding fill_pipe as_read_end as_write_end
fill_pipe-Piped {s} f0 f1 none c =
    Returns-bind (Closed (f1 ∷ []) f0 s) Piped (fileclose f0 s)
      (λ r. fileclose f1 r.0 >>= λ q. done (q.0, none)) (fileclose-Closed f0 (Counted-swap f1 f0 c))
      (λ a p. close_one-Piped f1 p.0)
fill_pipe-Piped f0 f1 (some pi) c = Counted-swap f1 f0 (
    Counted-fields f1 (as_write_end pi)
      (Counted-swap f0 f1 (Counted-fields f0 (as_read_end pi) (Counted-swap f1 f0 c) refl)) refl)

pub pipealloc-Piped :
    (page : Option ℕ) (s : Files) → Counted [] s → Returns Piped (pipealloc page s)
unfolding pipealloc fill_pipe as_read_end as_write_end
pipealloc-Piped page s c = by_first (filealloc s) (filealloc-Allocated [] s c)
  where
    by_second :
        (f0 : ℕ) (s1 : Files)
        → Counted (f0 ∷ []) s1
        → (r : Option ℕ × Files) → Allocated (f0 ∷ []) s1 r
        → Returns Piped (elim r.0 [
          | none ↦ fileclose f0 r.1 >>= λ q. done (q.0, none)
          | some f1 ↦ fill_pipe f0 f1 page r.1
        ])
    by_second f0 s1 d (none, s2) a = close_one-Piped f0 (subst (Counted (f0 ∷ [])) (sym a) d)
    by_second f0 s1 d (some f1, s2) a = fill_pipe-Piped f0 f1 page a.0

    by_first :
        (r : Option ℕ × Files)
        → Allocated [] s r
        → Returns Piped (elim r.0 [
          | none ↦ done (r.1, none)
          | some f0 ↦
              let (d, s2) = filealloc r.1 in
              elim d [
                | none ↦ fileclose f0 s2 >>= λ q. done (q.0, none)
                | some f1 ↦ fill_pipe f0 f1 page s2
              ]
        ])
    by_first (none, s1) a = subst (Counted []) (sym a) c
    by_first (some f0, s1) a =
        by_second f0 s1 a.0 (filealloc s1) (filealloc-Allocated (f0 ∷ []) s1 a.0)

-- `sys_pipe` with the first descriptor taken, and with both.
second_fd : ℕ → ℕ → ℕ → ℕ → Bool → Files → Outcome (Files × ℤ)
second_fd p rf wf fd0 copied s1 =
    let (d1, s2) = fdalloc p wf s1 in
    elim d1 [
      | none ↦ close_both rf wf (set_ofile (place p fd0) none s2)
      | some fd1 ↦
          if copied
          then done (s2, pos 0)
          else close_both rf wf (set_ofile (place p fd1) none (set_ofile (place p fd0) none s2))
    ]

module _ (p : ℕ) (l : p < nproc) where
  -- Both descriptors are cleared, and both files are in hand again.
  undo :
      (s : Files) (rf wf fd0 fd1 : ℕ)
      → Counted [] (set_ofile (place p fd1) (some wf) s)
      → fd0 < nofile
      → fd1 < nofile
      → slot (place p fd0) s ≡ some rf
      → slot (place p fd1) s ≡ none
      → Counted (rf ∷ wf ∷ []) (
          set_ofile
            (place p fd1)
            none
            (set_ofile (place p fd0) none (set_ofile (place p fd1) (some wf) s)))
  undo s rf wf fd0 fd1 c b0 b1 e0 e1 = Counted-swap wf rf (
      take_back (place p fd1) (take_back (place p fd0) c (place-lt p fd0 l b0) first)
        (place-lt p fd1 l b1) second)
    where
      apart_lem : none ≡ some rf → ⊥
      apart_lem e = cc

      apart : place p fd1 ≢ place p fd0
      apart i = absurd (apart_lem (sym e1 ∙ ap (λ j. slot j s) i ∙ e0))

      in_range : place p fd1 < length s.ofile
      in_range =
          omega (arith, length-set s.ofile (place p fd1) (some wf), c.slots, place-lt p fd1 l b1)

      first : slot (place p fd0) (set_ofile (place p fd1) (some wf) s) ≡ some rf
      first = get_or-set_ne s.ofile (place p fd1) (place p fd0) (some wf) none apart ∙ e0

      second :
          slot (place p fd1) (set_ofile (place p fd0) none (set_ofile (place p fd1) (some wf) s))
          ≡ some wf
      second =
          get_or-set_ne (set s.ofile (place p fd1) (some wf)) (place p fd0) (place p fd1) none none
            (λ i. apart (sym i))
          ∙ get_or-set_self s.ofile (place p fd1) (some wf) none in_range

  second_fd-Fine :
      {s : Files} (rf wf fd0 : ℕ) (copied : Bool)
      → Counted (wf ∷ []) s
      → fd0 < nofile
      → slot (place p fd0) s ≡ some rf
      → Returns Fine (second_fd p rf wf fd0 copied s)
  unfolding second_fd
  second_fd-Fine {s} rf wf fd0 copied c b0 e0 = by_fd (fdalloc p wf s) (fdalloc-Taken p wf s) copied
    where
      by_fd :
          (x : Option ℕ × Files)
          → Taken p wf s x
          → (ok : Bool)
          → Returns Fine (elim x.0 [
            | none ↦ close_both rf wf (set_ofile (place p fd0) none x.1)
            | some fd1 ↦
                if ok
                then done (x.1, pos 0)
                else close_both rf wf
                    (set_ofile (place p fd1) none (set_ofile (place p fd0) none x.1))
          ])
      by_fd (none, s2) t ok =
          subst (λ k. Returns Fine (close_both rf wf (set_ofile (place p fd0) none k))) (sym t)
            (close_both-Fine rf wf (take_back (place p fd0) c (place-lt p fd0 l b0) e0))
      by_fd (some fd1, s2) t true =
          subst (Counted []) (sym t.2) (put_in (place p fd1) c (place-lt p fd1 l t.0) t.1)
      by_fd (some fd1, s2) t false =
          subst
            (λ k.
              Returns Fine
                (close_both rf wf (set_ofile (place p fd1) none (set_ofile (place p fd0) none k))))
            (sym t.2)
            (close_both-Fine rf wf (
              undo s rf wf fd0 fd1 (put_in (place p fd1) c (place-lt p fd1 l t.0) t.1) b0 t.0 e0
                t.1))

  -- `sys_pipe` with both files in hand.
  sys_pipe_files : ℕ → ℕ → Bool → Files → Outcome (Files × ℤ)
  sys_pipe_files rf wf copied s =
      let (d0, s1) = fdalloc p rf s in
      elim d0 [ none ↦ close_both rf wf s1 | some fd0 ↦ second_fd p rf wf fd0 copied s1 ]

  sys_pipe_files-Fine :
      {s : Files} (rf wf : ℕ) (copied : Bool)
      → Counted (rf ∷ wf ∷ []) s
      → Returns Fine (sys_pipe_files rf wf copied s)
  unfolding sys_pipe_files
  sys_pipe_files-Fine {s} rf wf copied c = by_fd (fdalloc p rf s) (fdalloc-Taken p rf s)
    where
      by_fd :
          (x : Option ℕ × Files)
          → Taken p rf s x
          → Returns Fine (elim x.0 [
            | none ↦ close_both rf wf x.1
            | some fd0 ↦ second_fd p rf wf fd0 copied x.1
          ])
      by_fd (none, s1) t =
          subst (λ k. Returns Fine (close_both rf wf k)) (sym t) (close_both-Fine rf wf c)
      by_fd (some fd0, s1) t =
          let b = place-lt p fd0 l t.0 in
          subst (λ k. Returns Fine (second_fd p rf wf fd0 copied k)) (sym t.2)
            (second_fd-Fine rf wf fd0 copied (put_in (place p fd0) c b t.1) t.0
              (get_or-set_self s.ofile (place p fd0) (some rf) none (omega (arith, b, c.slots))))

  pub sys_pipe-Fine :
      (page : Option ℕ) (copied : Bool) (s : Files)
      → Counted [] s
      → Returns Fine (sys_pipe p page copied s)
  unfolding sys_pipe sys_pipe_files second_fd
  sys_pipe-Fine page copied s c =
      Returns-bind Piped Fine (pipealloc page s) _ (pipealloc-Piped page s c) by_pipe
    where
      by_pipe :
          (a : Files × Option (ℕ × ℕ))
          → Piped a
          → Returns Fine (elim a.1 [
            | none ↦ done (a.0, minus_one)
            | some (rf, wf) ↦ sys_pipe_files rf wf copied a.0
          ])
      by_pipe (s', none) c' = c'
      by_pipe (s', some (rf, wf)) c' = sys_pipe_files-Fine rf wf copied c'
