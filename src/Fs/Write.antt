-- ===== src/Fs/Write.antt =====
-- `writei` as a whole: the loop, round by round.
use aut_whuoslab.Prelude.{
  ℕ, zero, suc, ◌+◌, ◌-◌, ◌*◌, ◌/◌, ◌%◌, ◌^◌, ◌<◌, ◌≤◌, ◌≡◌, ◌≢◌, refl, ap, ◌∙◌, subst, ◌⊎◌, inl,
  inr, Bool, true, false, ltb, ◌==◌, if◌then◌else◌, List, Option, ℕ_discrete, dec_lt, Bool-cases,
  Outcome, done, arith, pos,
}
use aut_whuoslab.Fs.{Content, maxfile, bmap}
use aut_whuoslab.Fs.Alloc.{Used}
use aut_whuoslab.Fs.Tree.{top, IsContent}
use aut_whuoslab.Fs.Bmap.{Bmapped, bmap-Bmapped}
use aut_whuoslab.Fs.Data.{bsize, CopyIn, set_bytes, round_bytes, write_from, int_of, writei}
use aut_whuoslab.Fs.Written.{
  byte_at, Copies, rounded, rounded-IsContent, rounded_here, rounded_there, old_bytes, full-byte_at,
}

-- The copy of the round of `writei` at `off`, from `src`, that `total` bytes of `n` leave, fails, whatever bytes the
-- block has.
abbrev pub CopyFails : CopyIn → ℕ → ℕ → ℕ → ℕ → Type 0
CopyFails copy off src total n =
    (total < n) × ((old : ℕ → ℕ) → (copy (off % bsize) src (round_bytes off total n) old).0 ≡ false)

CopyFails-at :
    (copy : CopyIn) (off src off' src' total n : ℕ)
    → off ≡ off'
    → src ≡ src'
    → CopyFails copy off src total n
    → CopyFails copy off' src' total n
CopyFails-at copy off src off' src' total n e d f =
    subst (λ a. CopyFails copy a src' total n) e (subst (λ b. CopyFails copy off b total n) d f)

-- What `writei` has done when it stops with `total` bytes written, of which `tot` before: the bytes from `off` on
-- are those from `src` on, the bytes of the file before `off` and behind the range are as they were, and
-- it stops early only on a full disk or when the copy of the very next round fails.
pub record Writes (mem : ℕ → ℕ) (copy : CopyIn) (off src tot n : ℕ) (c : Content)
    (r : Outcome (ℕ × Content)) : Type 0 where
  pub total : ℕ
  pub after : Content
  pub lab' : ℕ → Option (List ℕ)
  pub returns : r ≡ done (total, after)
  pub ok : IsContent lab' after
  pub grows : tot ≤ total
  pub bound : total ≤ n
  pub new : (k : ℕ) → off ≤ k → k < off + (total - tot) → byte_at after k ≡ mem (src + (k - off))
  pub kept :
      (k : ℕ)
      → k < maxfile * bsize
      → (k < off) ⊎ (off + (n - tot) ≤ k)
      → byte_at after k ≡ byte_at c k
  pub stops :
      (total ≡ n)
      ⊎ Used 0 (top c) after.store
      ⊎ CopyFails copy (off + (total - tot)) (src + (total - tot)) total n

module _ (mem : ℕ → ℕ) (copy : CopyIn) (copies : Copies mem copy) (n : ℕ) where
  write_from-Writes :
      (rounds off src tot : ℕ) (lab : ℕ → Option (List ℕ)) (c : Content)
      → IsContent lab c
      → tot ≤ n
      → n - tot ≤ rounds
      → off + (n - tot) < maxfile * bsize
      → Writes mem copy off src tot n c (write_from rounds copy off src tot n c)
  unfolding write_from
  write_from-Writes zero off src tot lab c ok le fuel fits = record {
    total = tot;
    after = c;
    lab' = lab;
    returns = refl;
    ok = ok;
    grows = omega arith;
    bound = le;
    new = λ k a b. absurd (omega arith);
    kept = λ k h o. refl;
    stops = inl (omega arith);
  }
  write_from-Writes (suc rounds) off src tot lab c ok le fuel fits = elim (dec_lt tot n) [
    | no all ↦
        let l : ltb tot n ≡ false = ground arith in
        record {
          total = tot;
          after = c;
          lab' = lab;
          returns = rw l refl;
          ok = ok;
          grows = omega arith;
          bound = le;
          new = λ k a b. absurd (omega arith);
          kept = λ k h o. refl;
          stops = inl (omega arith);
        }
    | yes more ↦
        by_block more (bmap-Bmapped lab c (off / bsize) ok small)
          (ℕ_discrete (bmap-Bmapped lab c (off / bsize) ok small).addr 0) (write_from-Writes rounds)
  ]
    where
      m : ℕ
      m = round_bytes off tot n

      m_bounds : tot < n → (0 < m) × (m ≤ n - tot) × (off % bsize + m ≤ bsize)
      m_bounds h = (omega arith, omega arith, omega arith)

      small : off / bsize < maxfile
      small = omega arith

      -- The round's copy.
      copied : Bmapped c (off / bsize) (bmap (off / bsize) c) → Bool × (ℕ → ℕ)
      copied b = copy (off % bsize) src m (b.after.store.bytes b.addr)

      by_block :
          tot < n
          → (b : Bmapped c (off / bsize) (bmap (off / bsize) c)) → Dec (b.addr ≡ 0)
          → ((off' src' tot' : ℕ) (lab2 : ℕ → Option (List ℕ)) (c2 : Content)
              → IsContent lab2 c2
              → tot' ≤ n
              → n - tot' ≤ rounds
              → off' + (n - tot') < maxfile * bsize
              → Writes mem copy off' src' tot' n c2 (write_from rounds copy off' src' tot' n c2))
          → Writes mem copy off src tot n c (write_from (suc rounds) copy off src tot n c)
      by_block more b (yes z) rec =
          let l : ltb tot n ≡ true = ground arith in
          let q : (b.addr == 0) ≡ true = ground (arith, z) in
          record {
            total = tot;
            after = b.after;
            lab' = b.lab';
            returns = rw (l, b.returns, q) refl;
            ok = b.ok;
            grows = omega arith;
            bound = le;
            new = λ k a h. absurd (omega arith);
            kept = λ k h o. full-byte_at lab c (off / bsize) ok small _ b z k (omega arith);
            stops = elim b.result [ inl q ↦ inr (inl q.2) | inr q ↦ absurd (q.0 z) ];
          }
      by_block more b (no real) rec = elim (Bool-cases (copied b).0) [
        | inr failed ↦
            let l : ltb tot n ≡ true = ground arith in
            let q : (b.addr == 0) ≡ false = ground (arith, real) in
            record {
              total = tot;
              after = set_bytes b.addr (copied b).1 b.after;
              lab' = b.lab';
              returns = rw (l, b.returns, q, failed) refl;
              ok = record {
                tree = b.ok.tree;
                rooted = b.ok.rooted;
                marked = b.ok.marked;
                boot = b.ok.boot;
              };
              grows = omega arith;
              bound = le;
              new = λ k a h. absurd (omega arith);
              kept = λ k h o. outside_kept b real k h (outside_round more k o);
              stops = inr (
                  inr (
                    CopyFails-at copy off src _ _ tot n (omega arith) (omega arith)
                      (more, λ old. copies.by_place (off % bsize) src m old _ ∙ failed)));
            }
        | inl copied_all ↦
            let l : ltb tot n ≡ true = ground arith in
            let q : (b.addr == 0) ≡ false = ground (arith, real) in
            let w =
              rec (off + m) (src + m) (tot + m) b.lab' (next b real)
                (rounded-IsContent lab c (off / bsize) ok small _ b real (copied b).1)
                (let z = m_bounds more in omega (arith, z.1))
                (let z = m_bounds more in omega (arith, z.0))
                (let z = m_bounds more in omega (arith, z.1)) in
            record {
              total = w.total;
              after = w.after;
              lab' = w.lab';
              returns = rw (l, b.returns, q, copied_all) w.returns;
              ok = w.ok;
              grows = omega (arith, w.grows);
              bound = w.bound;
              new = λ k a h. elim (dec_lt k (off + m)) [
                | yes near ↦
                    w.kept k (omega (arith, w.bound, w.grows)) (inl near)
                    ∙ inside_new b real copied_all more k a near
                | no far ↦
                    w.new k (omega arith) (omega (arith, w.grows)) ∙ ap mem (omega (arith, far))
              ];
              kept = λ k h o.
                  w.kept k h (later_side more k o)
                  ∙ outside_kept b real k h (outside_round more k o);
              stops = elim w.stops [
                | inl e ↦ inl e
                | inr (inl u) ↦ inr (inl (subst (λ t. Used 0 t w.after.store) b.size u))
                | inr (inr f) ↦ inr (
                    inr (
                      CopyFails-at copy _ _ _ _ w.total n (omega (arith, w.grows))
                        (omega (arith, w.grows)) f))
              ];
            }
      ]
        where
          next : (b : Bmapped c (off / bsize) (bmap (off / bsize) c)) → b.addr ≢ 0 → Content
          next b real = rounded lab c (off / bsize) ok small _ b real (copied b).1

          outside_round :
              tot < n → (k : ℕ) → (k < off) ⊎ (off + (n - tot) ≤ k) → (k < off) ⊎ (off + m ≤ k)
          outside_round h k (inl a) = inl a
          outside_round h k (inr a) = inr (let z = m_bounds h in omega (arith, z.1))

          later_side :
              tot < n
              → (k : ℕ) → (k < off) ⊎ (off + (n - tot) ≤ k)
              → (k < off + m) ⊎ (off + m + (n - (tot + m)) ≤ k)
          later_side h k (inl a) = inl (omega arith)
          later_side h k (inr a) = inr (let z = m_bounds h in omega (arith, z.1))

          inside_new :
              (b : Bmapped c (off / bsize) (bmap (off / bsize) c)) (real : b.addr ≢ 0)
              → (copied b).0 ≡ true
              → tot < n
              → (k : ℕ) → off ≤ k
              → k < off + m
              → byte_at (next b real) k ≡ mem (src + (k - off))
          inside_new b real all h k lo hi =
              let z = m_bounds h in
              let e : k / bsize ≡ off / bsize = omega (arith, z.2) in
              let d : src + (k % bsize - off % bsize) ≡ src + (k - off) = omega arith in
              rounded_here lab c (off / bsize) ok small _ b real (copied b).1 k e
              ∙ copies.inside (off % bsize) src m (b.after.store.bytes b.addr) (k % bsize) all
                  (omega arith) (omega arith)
              ∙ ap mem d

          outside_kept :
              (b : Bmapped c (off / bsize) (bmap (off / bsize) c)) (real : b.addr ≢ 0) (k : ℕ)
              → k < maxfile * bsize
              → (k < off) ⊎ (off + m ≤ k)
              → byte_at (next b real) k ≡ byte_at c k
          outside_kept b real k h o = elim (ℕ_discrete (k / bsize) (off / bsize)) [
            | yes e ↦
                rounded_here lab c (off / bsize) ok small _ b real (copied b).1 k e
                ∙ copies.outside (off % bsize) src m (b.after.store.bytes b.addr) (k % bsize)
                    (in_block o e)
                ∙ old_bytes lab c (off / bsize) ok small _ b real (copied b).1 k e
            | no e ↦
                rounded_there lab c (off / bsize) ok small _ b real (copied b).1 k (omega arith) e
          ]
            where
              in_block :
                  (k < off) ⊎ (off + m ≤ k)
                  → k / bsize ≡ off / bsize
                  → (k % bsize < off % bsize) ⊎ (off % bsize + m ≤ k % bsize)
              in_block (inl a) e = inl (omega arith)
              in_block (inr a) e = inr (omega arith)

pub int_of-pos : (total : ℕ) → total < 2 ^ 31 → int_of total ≡ pos total
int_of-pos total h = ground (arith, h)

pub writei-Writes :
    (mem : ℕ → ℕ) (copy : CopyIn) (src off n size : ℕ) (lab : ℕ → Option (List ℕ)) (c : Content)
    → Copies mem copy
    → IsContent lab c
    → off ≤ size
    → off + n < 2 ^ 32
    → n < 2 ^ 31
    → (total : ℕ) × (after : Content) × (writei copy src off n size c
        ≡ done (pos total, (if ltb size (off + total) then off + total else size), after))
      × Writes mem copy off src 0 n c (done (total, after))
unfolding writei
writei-Writes mem copy src off n size lab c copies ok inside below signed =
    let grown = λ (total : ℕ). if ltb size (off + total) then off + total else size in
    let w =
      write_from-Writes mem copy copies n n off src 0 lab c ok (omega arith) (omega arith)
        (omega arith) in
    let a : (off + n) % 2 ^ 32 ≡ off + n = omega arith in
    let g1 : ltb size off ≡ false = ground arith in
    let g2 : ltb (off + n) off ≡ false = ground arith in
    let g3 : ltb (maxfile * bsize) (off + n) ≡ false = ground arith in
    (
      w.total,
      w.after,
      rw (a, g1, g2, g3, w.returns)
          (ap (λ z. done (z, grown w.total, w.after))
            (int_of-pos w.total (omega (arith, w.bound)))),
      subst (Writes mem copy off src 0 n c) w.returns w,
    )
