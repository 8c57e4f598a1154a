-- ===== src/Fs/RoundTrip.antt =====
-- `readi` after `writei`.
use aut_whuoslab.Prelude.{
  ℕ, ◌+◌, ◌-◌, ◌^◌, ◌<◌, ◌≤◌, ◌≡◌, ap, ◌∙◌, ◌⊎◌, inl, inr, ltb, if◌then◌else◌, List, Option, done,
  arith, ◌>>=◌, pos, minus_one, subst,
}
use aut_whuoslab.Fs.{Content}
use aut_whuoslab.Fs.Alloc.{Used}
use aut_whuoslab.Fs.Tree.{top, IsContent}
use aut_whuoslab.Fs.Data.{CopyIn, CopyOut, int_of, writei, readi}
use aut_whuoslab.Fs.Written.{Copies}
use aut_whuoslab.Fs.Write.{int_of-pos, writei-Writes}
use aut_whuoslab.Fs.Read.{Delivers, RoundFails, wanted, readi-Delivered}

-- The size that `writei` leaves.
abbrev pub grown_size : ℕ → ℕ → ℕ → ℕ
grown_size off total size = if ltb size (off + total) then off + total else size

-- A `readi` of the bytes that a `writei` of less than 2 GB has written, to any place, delivers what was written, all of
-- it unless every block of the disk is in use, or returns -1 and the copy of one of its own rounds, to
-- that round's place and of its length, fails. Both run in a transaction with room in the log, which is
-- left out here.
pub readi-writei :
    (source : ℕ → ℕ) (copyin : CopyIn) (copyout : CopyOut) (src dst off n size : ℕ) (mem : ℕ → ℕ)
    (lab : ℕ → Option (List ℕ)) (c : Content)
    → Copies source copyin
    → Delivers copyout
    → IsContent lab c
    → off ≤ size
    → off + n < 2 ^ 32
    → n < 2 ^ 31
    → (total got : ℕ) × (after after' : Content) × (mem' : ℕ → ℕ) × (writei copyin src off n size c
        ≡ done (pos total, grown_size off total size, after))
      × (readi copyout dst off total (grown_size off total size) mem after
          ≡ done (int_of got, mem', after'))
      × (((int_of got ≡ pos got)
            × (got ≤ total)
            × ((i : ℕ) → dst ≤ i → i < dst + got → mem' i ≡ source (src + (i - dst)))
            × ((got ≡ total) ⊎ Used 0 (top after) after'.store))
          ⊎ ((int_of got ≡ minus_one) × RoundFails copyout off dst 0 total))
readi-writei source copyin copyout src dst off n size mem lab c copies delivers ok inside below
      signed =
    let (total, after, run, w) =
      writei-Writes source copyin src off n size lab c copies ok inside below signed in
    let wrote : writei copyin src off n size c
        ≡ done (pos w.total, grown_size off w.total size, w.after) =
      run ∙ ap (λ o. o >>= λ r. done (pos r.0, grown_size off r.0 size, r.1)) w.returns in
    let room : off ≤ grown_size off w.total size = ground arith in
    let all : wanted off w.total (grown_size off w.total size) ≡ w.total = ground arith in
    let (got, mem', after', read, _, d) =
      readi-Delivered copyout dst off w.total (grown_size off w.total size) mem w.lab' w.after
        delivers w.ok room (omega (arith, w.bound)) (omega (arith, w.bound)) in
    let reads : readi copyout dst off w.total (grown_size off w.total size) mem w.after
        ≡ done (int_of d.total, d.mem', d.after) =
      read ∙ ap (λ o. o >>= λ r. done (int_of r.0, r.1, r.2)) d.returns in
    (
      w.total,
      d.total,
      w.after,
      d.after,
      d.mem',
      wrote,
      reads,
      elim d.result [
        | inr f ↦ inr (ap int_of f.0, subst (RoundFails copyout off dst 0) all f.1)
        | inl q ↦ inl (
          int_of-pos d.total (omega (arith, q.1, all, w.bound)),
          omega (arith, q.1, all),
          (λ i lo hi.
              q.2 i lo (omega (arith, hi))
              ∙ w.new (off + (i - dst)) (omega arith) (omega (arith, q.1, all, hi))
              ∙ ap source (omega arith)),
          elim q.3 [ inl e ↦ inl (e ∙ all) | inr u ↦ inr u ],
        )
      ],
    )
