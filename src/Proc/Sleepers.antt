-- ===== src/Proc/Sleepers.antt =====
-- Who sleeps on a channel, and how the kernel's routines change it. The section gives the rule that makes
-- a table of waitable objects lose no wakeup: whoever may proceed is not left asleep.
use aut_whuoslab.Prelude.{
  ℕ, zero, suc, ◌+◌, ◌<◌, ◌≡◌, sym, subst, ◌≢◌, ◌⊎◌, inl, inr, Bool, true, false, ◌&&◌, List, [],
  ◌∷◌, Option, some, arith, get_or, set, get_or-set_ne, get_or-set_cases, modify, All,
  if◌then◌else◌, ℕ_discrete,
}
use aut_whuoslab.Proc.Types.{
  sleeping, running, is_sleeping, is_mlfq, Chan, null, chan_eq, Proc, Kernel, at, zeroed,
}
use aut_whuoslab.Proc.Mlfq.{mlfq_add_process, mlfq_remove_process}
use aut_whuoslab.Proc.Table.{update_proc, wake_from, wakeup}
use aut_whuoslab.Proc.Switch.{promote, sleep_begin, sleep_end}

abbrev pub asleep : Chan → Proc → Bool
asleep c p = is_sleeping p.state && chan_eq p.chan c

abbrev pub Nobody : Chan → List Proc → Type 0
Nobody c ps = All (λ p. asleep c p ≡ false) ps

mlfq_remove-procs : (p level : ℕ) (k : Kernel) → (mlfq_remove_process p level k).procs ≡ k.procs
unfolding mlfq_remove_process
mlfq_remove-procs p level k = ground arith

mlfq_add-procs : (p level : ℕ) (k : Kernel) → (mlfq_add_process p level k).procs ≡ k.procs
unfolding mlfq_add_process
mlfq_add-procs p level k = ground arith

-- The table after the two halves of `sleep`: nothing but the process's own slot changes.
pub sleep_begin-procs :
    (c : Chan) (me : ℕ) (k : Kernel)
    → (sleep_begin c me k).procs ≡ modify k.procs me (λ p. record p { chan = c; state = sleeping })
unfolding sleep_begin
sleep_begin-procs c me k = ground (arith, mlfq_remove-procs me (at k me).mlfq_level k)

Nobody-modify :
    (c : Chan) (f : Proc → Proc) (ps : List Proc) (i : ℕ)
    → ((p : Proc) → asleep c p ≡ false → asleep c (f p) ≡ false)
    → Nobody c ps
    → Nobody c (modify ps i f)
Nobody-modify c f [] i h n = tt
Nobody-modify c f (p ∷ ps) zero h n = (h p n.0, n.1)
Nobody-modify c f (p ∷ ps) (suc i) h n = (n.0, Nobody-modify c f ps i h n.1)

Nobody-if :
    (c : Chan) (b : Bool) (k k' : Kernel)
    → Nobody c k.procs
    → Nobody c k'.procs
    → Nobody c (if b then k else k').procs
Nobody-if c true k k' n n' = n
Nobody-if c false k k' n n' = n'

sleep_end-Nobody :
    (c : Chan) (me : ℕ) (k : Kernel) → null ≢ c → Nobody c k.procs → Nobody c (sleep_end me k).procs
unfolding sleep_end
sleep_end-Nobody c me k ne n =
    let k1 = update_proc me (λ p. record p { chan = null }) k in
    let k2 = update_proc me promote k1 in
    let n1 : Nobody c k1.procs =
      Nobody-modify c (λ p. record p { chan = null }) k.procs me (λ p a. ground arith) n in
    let n2 : Nobody c k2.procs = Nobody-modify c promote k1.procs me (λ p a. ground arith) n1 in
    Nobody-if c (is_mlfq k1.selector) (mlfq_add_process me (at k2 me).mlfq_level k2) k1
      (subst (Nobody c) (sym (mlfq_add-procs me (at k2 me).mlfq_level k2)) n2) n1

sleep_begin-Nobody :
    (c d : Chan) (me : ℕ) (k : Kernel)
    → c ≢ d
    → Nobody d k.procs
    → Nobody d (sleep_begin c me k).procs
sleep_begin-Nobody c d me k ne n = rw (sleep_begin-procs c me k) (
    Nobody-modify d (λ p. record p { chan = c; state = sleeping }) k.procs me (λ p a. ground arith)
      n)

wake_from-Nobody :
    (c d : Chan) (me : Option ℕ) (i : ℕ) (ps : List Proc)
    → Nobody d ps
    → Nobody d (wake_from c me i ps)
unfolding wake_from
wake_from-Nobody c d me i [] n = tt
wake_from-Nobody c d me i (p ∷ ps) n = (ground (arith, n.0), wake_from-Nobody c d me (suc i) ps n.1)

-- Past the caller's slot everybody is woken.
wake_past : (c : Chan) (m i : ℕ) (ps : List Proc) → m < i → Nobody c (wake_from c (some m) i ps)
unfolding wake_from
wake_past c m i [] lt = tt
wake_past c m i (p ∷ ps) lt = (ground arith, wake_past c m (suc i) ps (omega arith))

wake_all_but :
    (c : Chan) (m i n : ℕ) (ps : List Proc)
    → m ≡ i + n
    → (get_or ps n zeroed).state ≡ running
    → Nobody c (wake_from c (some m) i ps)
unfolding wake_from
wake_all_but c m i n [] e r = tt
wake_all_but c m i zero (p ∷ ps) e r = (ground arith, wake_past c m (suc i) ps (omega arith))
wake_all_but c m i (suc n) (p ∷ ps) e r =
    (ground arith, wake_all_but c m (suc i) n ps (omega arith) r)

wakeup-Nobody :
    (c d : Chan) (me : Option ℕ) (k : Kernel) → Nobody d k.procs → Nobody d (wakeup c me k).procs
unfolding wakeup
wakeup-Nobody c d me k n = wake_from-Nobody c d me 0 k.procs n

-- A `wakeup` by a running process leaves nobody asleep on the channel.
pub wakeup-all :
    (c : Chan) (me : ℕ) (k : Kernel)
    → (at k me).state ≡ running
    → Nobody c (wakeup c (some me) k).procs
unfolding wakeup
wakeup-all c me k r = wake_all_but c me 0 me k.procs (omega arith) r

-- A table of objects with a channel each, of which those that are `Busy` may be waited for.
module _ {ℓ κ} {A : Type ℓ} (Busy : A → Type κ) (chan : ℕ → Chan) (d : A) where
  -- Nobody sleeps on an object that is not busy.
  abbrev pub Quiet : List A → List Proc → Type κ
  Quiet table ps = (j : ℕ) → Busy (get_or table j d) ⊎ Nobody (chan j) ps

module _ {ℓ κ} {A : Type ℓ} (Busy : A → Type κ) (chan : ℕ → Chan) (d : A)
    (apart : (i j : ℕ) → i ≢ j → chan i ≢ chan j) (real : (i : ℕ) → null ≢ chan i) where
  -- A write to an object on which nobody sleeps.
  pub Quiet-set :
      (table : List A) (ps : List Proc) (i : ℕ) (v : A)
      → Nobody (chan i) ps
      → Quiet Busy chan d table ps
      → Quiet Busy chan d (set table i v) ps
  Quiet-set table ps i v n q j = elim (ℕ_discrete i j) [
    | yes e ↦ inr (subst (λ m. Nobody (chan m) ps) e n)
    | no ne ↦ subst (λ x. Busy x ⊎ Nobody (chan j) ps) (sym (get_or-set_ne table i j v d ne)) (q j)
  ]

  -- A write that leaves the object busy.
  pub Quiet-busy :
      (table : List A) (ps : List Proc) (i : ℕ) (v : A)
      → Busy v
      → Quiet Busy chan d table ps
      → Quiet Busy chan d (set table i v) ps
  Quiet-busy table ps i v b q j = elim (ℕ_discrete i j) [
    | yes e ↦
        subst (λ m. Busy (get_or (set table i v) m d) ⊎ Nobody (chan m) ps) e
          (written (get_or-set_cases table i v d))
    | no ne ↦ subst (λ x. Busy x ⊎ Nobody (chan j) ps) (sym (get_or-set_ne table i j v d ne)) (q j)
  ]
    where
      written :
          (get_or (set table i v) i d ≡ v) ⊎ (get_or (set table i v) i d ≡ get_or table i d)
          → Busy (get_or (set table i v) i d) ⊎ Nobody (chan i) ps
      written (inl e) = inl (subst Busy (sym e) b)
      written (inr e) = subst (λ x. Busy x ⊎ Nobody (chan i) ps) (sym e) (q i)

  -- A write, and a wakeup of all that sleep on the object.
  pub Quiet-wake :
      (table : List A) (k : Kernel) (i me : ℕ) (v : A)
      → (at k me).state ≡ running
      → Quiet Busy chan d table k.procs
      → Quiet Busy chan d (set table i v) (wakeup (chan i) (some me) k).procs
  Quiet-wake table k i me v r q =
      Quiet-set table (wakeup (chan i) (some me) k).procs i v (wakeup-all (chan i) me k r)
        (λ j. still j (q j))
    where
      still :
          (j : ℕ)
          → Busy (get_or table j d) ⊎ Nobody (chan j) k.procs
          → Busy (get_or table j d) ⊎ Nobody (chan j) (wakeup (chan i) (some me) k).procs
      still j (inl b) = inl b
      still j (inr n) = inr (wakeup-Nobody (chan i) (chan j) (some me) k n)

  -- Going to sleep on a busy object.
  pub Quiet-sleep :
      (table : List A) (k : Kernel) (i me : ℕ)
      → Busy (get_or table i d)
      → Quiet Busy chan d table k.procs
      → Quiet Busy chan d table (sleep_begin (chan i) me k).procs
  Quiet-sleep table k i me b q j = elim (ℕ_discrete i j) [
    | yes e ↦ inl (subst (λ m. Busy (get_or table m d)) e b)
    | no ne ↦ still (q j) ne
  ]
    where
      still :
          Busy (get_or table j d) ⊎ Nobody (chan j) k.procs
          → i ≢ j
          → Busy (get_or table j d) ⊎ Nobody (chan j) (sleep_begin (chan i) me k).procs
      still (inl b) ne = inl b
      still (inr n) ne = inr (sleep_begin-Nobody (chan i) (chan j) me k (apart i j ne) n)

  -- Going on after a sleep.
  pub Quiet-resume :
      (table : List A) (k : Kernel) (me : ℕ)
      → Quiet Busy chan d table k.procs
      → Quiet Busy chan d table (sleep_end me k).procs
  Quiet-resume table k me q j = still (q j)
    where
      still :
          Busy (get_or table j d) ⊎ Nobody (chan j) k.procs
          → Busy (get_or table j d) ⊎ Nobody (chan j) (sleep_end me k).procs
      still (inl b) = inl b
      still (inr n) = inr (sleep_end-Nobody (chan j) me k (real j) n)
