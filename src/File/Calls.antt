-- ===== src/File/Calls.antt =====
-- What the system calls on descriptors do to the counts.
use aut_whuoslab.Prelude.{
  ℕ, ◌*◌, ◌<◌, ◌≡◌, refl, sym, ap, ◌∙◌, subst, List, [], ◌∷◌, Option, none, some, arith, ℤ, pos,
  minus_one, length, set, get_or, Outcome, done, ◌>>=◌, Returns, Returns-bind, Returns-mono, ◌==◌,
  if◌then◌else◌,
}
use aut_whuoslab.Proc.Types.{nproc}
use aut_whuoslab.File.{
  nofile, File, Files, Released, release_of, file, change_file, place, set_ofile, filealloc,
  filedup, fileclose, fdalloc, argfd, sys_dup, sys_close, Opening, opened, no_descriptor, open_file,
  close_both, fd_none, fd_pipe, fd_inode, fd_device,
}
use aut_whuoslab.File.Uses.{holders, is_self}
use aut_whuoslab.File.Counted.{uses, Counted, Counted-change, used-lt}
use aut_whuoslab.File.Refs.{
  Allocated, filealloc-Allocated, Dupped, filedup-Counted, Closed, fileclose-Closed,
}
use aut_whuoslab.File.Descriptors.{
  slot, place-lt, put_in, take_back, used_slot, Taken, fdalloc-Taken, Found, argfd-Found,
  filedup-set_ofile,
}

-- No reference is in hand when a call returns.
abbrev pub Fine : Files × ℤ → Type 0
Fine (s, r) = Counted [] s

pub Counted-swap :
    {es : List ℕ} {s : Files} (a b : ℕ) → Counted (a ∷ b ∷ es) s → Counted (b ∷ a ∷ es) s
Counted-swap {es} {s} a b c = record {
  slots = c.slots;
  counts = λ f h. c.counts f h ∙ ap pos (omega arith);
  valid = λ f h. omega (arith, c.valid f h);
}

-- A field other than the count is written.
pub Counted-fields :
    {es : List ℕ} {s : Files} (f : ℕ) (h : File → File)
    → Counted (f ∷ es) s
    → (h (file f s)).ref ≡ (file f s).ref
    → Counted (f ∷ es) (change_file f h s)
Counted-fields {es} {s} f h c e =
    let b : f < length s.ftable = used-lt f c (omega (arith, is_self f)) in
    Counted-change (f ∷ es) f h c b (e ∙ c.counts f b) (λ g n. refl)

pub closing :
    {es : List ℕ} {s : Files} (f : ℕ) (k : Files × Released → Outcome (Files × ℤ))
    → Counted (f ∷ es) s
    → ((s' : Files) (r : Released) → Counted es s' → Returns Fine (k (s', r)))
    → Returns Fine (fileclose f s >>= k)
closing {es} {s} f k c h =
    Returns-bind (Closed es f s) Fine (fileclose f s) k (fileclose-Closed f c)
      (λ a p. h a.0 a.1 p.0)

pub close_both-Fine :
    {s : Files} (f0 f1 : ℕ) → Counted (f0 ∷ f1 ∷ []) s → Returns Fine (close_both f0 f1 s)
close_both-Fine f0 f1 c =
    closing f0 (λ r. fileclose f1 r.0 >>= λ q. done (q.0, minus_one)) c
      (λ s' r c'. closing f1 (λ q. done (q.0, minus_one)) c' (λ s'' r' c''. c''))

-- A free descriptor gets a reference of its own to a file in use.
pub dup_slot :
    {s : Files} (f i : ℕ)
    → Counted [] s
    → i < nproc * nofile
    → slot i s ≡ none
    → 0 < uses [] f s
    → Returns (λ k. Counted [] (set_ofile i (some f) k) × (k.ofile ≡ s.ofile)) (filedup f s)
dup_slot {s} f i c l e u =
    Returns-mono (Dupped [] f s) (λ k. Counted [] (set_ofile i (some f) k) × (k.ofile ≡ s.ofile))
      (filedup f s) (filedup-Counted f c u (omega arith))
      (λ k d. (put_in i d.0 l (ap (λ (os : List (Option ℕ)). get_or os i none) d.1 ∙ e), d.1))

-- The body of `sys_dup` behind `argfd`.
dup_file : ℕ → ℕ → Files → Outcome (Files × ℤ)
dup_file p f s =
    let (o, s') = fdalloc p f s in
    elim o [ none ↦ done (s', minus_one) | some fd ↦ filedup f s' >>= λ k. done (k, pos fd) ]

-- What the last `fileclose` of a file gives back, by the file's kind: to `pipeclose` its pipe and whether it is
-- the writing end, to `iput` its inode, that of a device too, and nothing for a file of no kind.
abbrev pub GivenBack : File → Released → Type 0
GivenBack x gone =
    ((x.kind ≡ fd_pipe) → gone ≡ Released.pipe_end x.object x.writable)
    × ((x.kind ≡ fd_inode) → gone ≡ Released.inode x.object)
    × ((x.kind ≡ fd_device) → gone ≡ Released.inode x.object)
    × ((x.kind ≡ fd_none) → gone ≡ Released.nothing)

release_of-GivenBack : (x : File) → GivenBack x (release_of x)
release_of-GivenBack x = (λ e. rw e refl, λ e. rw e refl, λ e. rw e refl, λ e. rw e refl)

-- What `sys_close` does to the file `f` of descriptor `fd` of process `p`: the descriptor alone is cleared, and when none is
-- left with the file, what the file stands for is given back.
abbrev pub Leaves : ℕ → ℕ → ℕ → Files → Files × ℤ × Released → Type 0
Leaves p fd f s (s', r, gone) =
    Counted [] s'
    × (s'.ofile ≡ set s.ofile (place p fd) none)
    × (r ≡ pos 0)
    × ((0 < holders f s'.ofile) → gone ≡ Released.nothing)
    × ((holders f s'.ofile ≡ 0) → GivenBack (file f s) gone)

-- The outcome of `sys_close` by what `argfd` finds: nothing changes for a bad descriptor.
abbrev pub CloseCase : ℕ → Files → Option (ℕ × ℕ) → Files × ℤ × Released → Type 0
CloseCase p s none (s', r, gone) = (s' ≡ s) × (r ≡ minus_one) × (gone ≡ Released.nothing)
CloseCase p s (some (fd, f)) q = Leaves p fd f s q

if_left :
    (r : Released) (n : ℕ) → 0 < n → (if n == 0 then r else Released.nothing) ≡ Released.nothing
if_left r n h = ground (arith, h)

if_none : (r : Released) (n : ℕ) → n ≡ 0 → (if n == 0 then r else Released.nothing) ≡ r
if_none r n h = ground (arith, h)

opened-ref : (x : Opening) (f : File) → (opened x f).ref ≡ f.ref
opened-ref x f = ground arith

module _ (p : ℕ) (l : p < nproc) where
  dup_file-Fine :
      {s : Files} (f : ℕ) → Counted [] s → 0 < uses [] f s → Returns Fine (dup_file p f s)
  unfolding dup_file
  dup_file-Fine {s} f c u = by_fd (fdalloc p f s) (fdalloc-Taken p f s)
    where
      dupped :
          (i : ℕ)
          → i < nproc * nofile
          → slot i s ≡ none
          → Returns (Counted []) (filedup f (set_ofile i (some f) s))
      dupped i b e = subst (Returns (Counted [])) (sym (filedup-set_ofile f i (some f) s)) (
          Returns-bind (λ k. Counted [] (set_ofile i (some f) k) × (k.ofile ≡ s.ofile)) (Counted [])
            (filedup f s) (λ k. done (set_ofile i (some f) k)) (dup_slot f i c b e u) (λ k d. d.0))

      by_fd :
          (x : Option ℕ × Files)
          → Taken p f s x
          → Returns Fine (elim x.0 [
            | none ↦ done (x.1, minus_one)
            | some fd ↦ filedup f x.1 >>= λ k. done (k, pos fd)
          ])
      by_fd (none, s') t = subst (Counted []) (sym t) c
      by_fd (some fd, s') t =
          subst (λ k. Returns Fine (filedup f k >>= λ k. done (k, pos fd))) (sym t.2)
            (Returns-bind (Counted []) Fine (filedup f (set_ofile (place p fd) (some f) s))
              (λ k. done (k, pos fd)) (dupped (place p fd) (place-lt p fd l t.0) t.1) (λ k d. d))

  pub sys_dup-Fine : (a : ℤ) (s : Files) → Counted [] s → Returns Fine (sys_dup p a s)
  unfolding sys_dup dup_file
  sys_dup-Fine a s c = by_arg (argfd p a s) (argfd-Found p a s)
    where
      by_arg :
          (o : Option (ℕ × ℕ))
          → Found p s o
          → Returns Fine (elim o [ none ↦ done (s, minus_one) | some (fd, f) ↦ dup_file p f s ])
      by_arg none h = c
      by_arg (some (fd, f)) h =
          dup_file-Fine f c (used_slot (place p fd) c (place-lt p fd l h.0) h.1)

  -- The descriptor is cleared and its reference given back.
  pub close_slot :
      {s : Files} (fd f : ℕ)
      → Counted [] s
      → fd < nofile
      → slot (place p fd) s ≡ some f
      → Returns
          (Closed [] f (set_ofile (place p fd) none s))
          (fileclose f (set_ofile (place p fd) none s))
  close_slot fd f c b e = fileclose-Closed f (take_back (place p fd) c (place-lt p fd l b) e)

  close_slot-Leaves :
      {s : Files} (fd f : ℕ)
      → Counted [] s
      → fd < nofile
      → slot (place p fd) s ≡ some f
      → Returns
          (Leaves p fd f s)
          (fileclose f (set_ofile (place p fd) none s) >>= λ r. done (r.0, pos 0, r.1))
  close_slot-Leaves {s} fd f c b e =
      Returns-bind (Closed [] f (set_ofile (place p fd) none s)) (Leaves p fd f s)
        (fileclose f (set_ofile (place p fd) none s)) (λ r. done (r.0, pos 0, r.1))
        (close_slot fd f c b e)
        (λ r d. (
          d.0,
          d.1,
          refl,
          λ some_left.
              d.3
              ∙ if_left (release_of (file f s)) (uses [] f (set_ofile (place p fd) none s))
                  (omega (arith, ap (holders f) d.1, some_left)),
          λ none_left.
              subst (GivenBack (file f s))
                (sym (
                  d.3
                  ∙ if_none (release_of (file f s)) (uses [] f (set_ofile (place p fd) none s))
                      (omega (arith, ap (holders f) d.1, none_left))))
                (release_of-GivenBack (file f s)),
        ))

  pub sys_close-cases :
      (a : ℤ) (s : Files) → Counted [] s → Returns (CloseCase p s (argfd p a s)) (sys_close p a s)
  unfolding sys_close
  sys_close-cases a s c = by_arg (argfd p a s) (argfd-Found p a s)
    where
      by_arg :
          (o : Option (ℕ × ℕ))
          → Found p s o
          → Returns (CloseCase p s o) (elim o [
            | none ↦ done (s, minus_one, Released.nothing)
            | some (fd, f) ↦
                fileclose f (set_ofile (place p fd) none s) >>= λ r. done (r.0, pos 0, r.1)
          ])
      by_arg none h = (refl, refl, refl)
      by_arg (some (fd, f)) h = close_slot-Leaves fd f c h.0 h.1

  pub sys_close-Counted :
      (a : ℤ) (s : Files)
      → Counted [] s
      → Returns (λ (r : Files × ℤ × Released). Counted [] r.0) (sys_close p a s)
  sys_close-Counted a s c =
      Returns-mono (CloseCase p s (argfd p a s)) (λ (r : Files × ℤ × Released). Counted [] r.0)
        (sys_close p a s) (sys_close-cases a s c) (λ r d. counted (argfd p a s) r d)
    where
      counted : (o : Option (ℕ × ℕ)) (r : Files × ℤ × Released) → CloseCase p s o r → Counted [] r.0
      counted none r d = subst (Counted []) (sym d.0) c
      counted (some (fd, f)) r d = d.0

  pub open_file-Fine : (x : Opening) (s : Files) → Counted [] s → Returns Fine (open_file p x s)
  unfolding open_file
  open_file-Fine x s c = by_file (filealloc s) (filealloc-Allocated [] s c)
    where
      by_fd :
          (f : ℕ) (s1 : Files)
          → Counted (f ∷ []) s1
          → (r : Option ℕ × Files) → Taken p f s1 r
          → Returns Fine (elim r.0 [
            | none ↦ fileclose f r.1 >>= λ q. done (q.0, no_descriptor)
            | some fd ↦ done (change_file f (opened x) r.1, pos fd)
          ])
      by_fd f s1 d (none, s2) t =
          closing f (λ q. done (q.0, no_descriptor)) (subst (Counted (f ∷ [])) (sym t) d)
            (λ s' r e. e)
      by_fd f s1 d (some fd, s2) t =
          subst (λ k. Counted [] (change_file f (opened x) k)) (sym t.2)
            (put_in (place p fd) (Counted-fields f (opened x) d (opened-ref x (file f s1)))
              (place-lt p fd l t.0) t.1)

      by_file :
          (r : Option ℕ × Files)
          → Allocated [] s r
          → Returns Fine (elim r.0 [
            | none ↦ done (r.1, no_descriptor)
            | some f ↦
                let (d, s2) = fdalloc p f r.1 in
                elim d [
                  | none ↦ fileclose f s2 >>= λ q. done (q.0, no_descriptor)
                  | some fd ↦ done (change_file f (opened x) s2, pos fd)
                ]
          ])
      by_file (none, s1) d = subst (Counted []) (sym d) c
      by_file (some f, s1) d = by_fd f s1 d.0 (fdalloc p f s1) (fdalloc-Taken p f s1)
