-- ===== src/Fs/Read.antt =====
-- `readi`: the bytes that it delivers.
use aut_whuoslab.Prelude.{
  ℕ, zero, suc, ◌+◌, ◌-◌, ◌*◌, ◌/◌, ◌%◌, ◌^◌, ◌<◌, ◌≤◌, ◌≡◌, ◌≢◌, refl, ap, ◌∙◌, subst, ◌⊎◌, inl,
  inr, Bool, true, false, ltb, ◌==◌, if◌then◌else◌, List, Option, ℕ_discrete, dec_lt, Bool-cases,
  Outcome, done, arith, pos, minus_one,
}
use aut_whuoslab.Fs.{Content, maxfile, bmap}
use aut_whuoslab.Fs.Alloc.{Used}
use aut_whuoslab.Fs.Tree.{top, IsContent}
use aut_whuoslab.Fs.Bmap.{Bmapped, bmap-Bmapped}
use aut_whuoslab.Fs.Data.{bsize, CopyOut, round_bytes, read_from, int_of, readi}
use aut_whuoslab.Fs.Write.{int_of-pos}
use aut_whuoslab.Fs.Written.{byte_at, old_bytes, mapped-byte_at}

-- `copy` writes within the `m` bytes at `dst` and, when it succeeds, the bytes that it is given. Whether it
-- succeeds does not depend on the bytes.
pub record Delivers (copy : CopyOut) : Type 0 where
  pub outside :
      (dst m : ℕ) (from mem : ℕ → ℕ) (i : ℕ)
      → (i < dst) ⊎ (dst + m ≤ i)
      → (copy dst m from mem).1 i ≡ mem i
  pub inside :
      (dst m : ℕ) (from mem : ℕ → ℕ) (i : ℕ)
      → (copy dst m from mem).0 ≡ true
      → dst ≤ i
      → i < dst + m
      → (copy dst m from mem).1 i ≡ from (i - dst)
  pub by_place :
      (dst m : ℕ) (from mem from' mem' : ℕ → ℕ)
      → (copy dst m from mem).0 ≡ (copy dst m from' mem').0

-- The copy of a round of `readi` fails, whatever the bytes: of the first round, at `off`, to `dst` and with `tot`
-- bytes before it, or of a later one at the beginning of a block.
abbrev pub RoundFails : CopyOut → ℕ → ℕ → ℕ → ℕ → Type 0
RoundFails copy off dst tot n =
    (at : ℕ) × (tot ≤ at)
    × (at < n)
    × ((at ≡ tot) ⊎ ((off + (at - tot)) % bsize ≡ 0))
    × ((from mem : ℕ → ℕ)
        → (copy (dst + (at - tot)) (round_bytes (off + (at - tot)) at n) from mem).0 ≡ false)

RoundFails-first :
    (copy : CopyOut) (off dst tot n : ℕ)
    → tot < n
    → ((from mem : ℕ → ℕ) → (copy dst (round_bytes off tot n) from mem).0 ≡ false)
    → RoundFails copy off dst tot n
RoundFails-first copy off dst tot n h f = (
  tot,
  omega arith,
  h,
  inl refl,
  subst
      (λ x.
        (from mem : ℕ → ℕ) → (copy x (round_bytes (off + (tot - tot)) tot n) from mem).0 ≡ false)
      (let e : dst ≡ dst + (tot - tot) = omega arith in e)
      (subst (λ y. (from mem : ℕ → ℕ) → (copy dst (round_bytes y tot n) from mem).0 ≡ false)
        (let e : off ≡ off + (tot - tot) = omega arith in e) f),
)

RoundFails-later :
    (copy : CopyOut) (off dst tot n : ℕ)
    → tot < n
    → RoundFails copy
        (off + round_bytes off tot n)
        (dst + round_bytes off tot n)
        (tot + round_bytes off tot n)
        n
    → RoundFails copy off dst tot n
RoundFails-later copy off dst tot n h (at, lo, hi, border, f) =
    let m = round_bytes off tot n in
    let bound : tot + m ≤ n = omega arith in
    let ends : (off + m) % bsize ≡ 0 = omega (arith, lo, hi) in
    let e : off + m + (at - (tot + m)) ≡ off + (at - tot) = omega (arith, lo) in
    let d : dst + m + (at - (tot + m)) ≡ dst + (at - tot) = omega (arith, lo) in
    (
      at,
      omega (arith, lo),
      hi,
      inr (
          subst (λ x. x % bsize ≡ 0) e
            (elim border [
              | inl first ↦
                  let g : off + m + (at - (tot + m)) ≡ off + m = omega (arith, first) in
                  ap (λ x. x % bsize) g ∙ ends
              | inr z ↦ z
            ])),
      subst
          (λ x.
            (from mem : ℕ → ℕ) → (copy x (round_bytes (off + (at - tot)) at n) from mem).0 ≡ false)
          d
          (subst
            (λ y.
              (from mem : ℕ → ℕ)
              → (copy (dst + m + (at - (tot + m))) (round_bytes y at n) from mem).0 ≡ false)
            e f),
    )

-- What `readi` has done when it stops: the file holds what it held, the memory outside the range is
-- untouched; and it has delivered the file's bytes from `off` on, all `n` of them unless every block of the
-- disk is in use, or else the copy of one of its rounds failed and the result is -1.
pub record Delivered (copy : CopyOut) (off dst tot n : ℕ) (mem : ℕ → ℕ) (c : Content)
    (r : Outcome (ℕ × (ℕ → ℕ) × Content)) : Type 0 where
  pub total : ℕ
  pub mem' : ℕ → ℕ
  pub after : Content
  pub lab' : ℕ → Option (List ℕ)
  pub returns : r ≡ done (total, mem', after)
  pub ok : IsContent lab' after
  pub same : (k : ℕ) → k < maxfile * bsize → byte_at after k ≡ byte_at c k
  pub untouched : (i : ℕ) → (i < dst) ⊎ (dst + (n - tot) ≤ i) → mem' i ≡ mem i
  pub result :
      ((tot ≤ total)
        × (total ≤ n)
        × ((i : ℕ) → dst ≤ i → i < dst + (total - tot) → mem' i ≡ byte_at c (off + (i - dst)))
        × ((total ≡ n) ⊎ Used 0 (top c) after.store))
      ⊎ ((total ≡ 2 ^ 32 - 1) × RoundFails copy off dst tot n)

module _ (copy : CopyOut) (delivers : Delivers copy) (n : ℕ) where
  read_from-Delivered :
      (rounds off dst tot : ℕ) (mem : ℕ → ℕ) (lab : ℕ → Option (List ℕ)) (c : Content)
      → IsContent lab c
      → tot ≤ n
      → n - tot ≤ rounds
      → off + (n - tot) < maxfile * bsize
      → Delivered copy off dst tot n mem c (read_from rounds copy off dst tot n mem c)
  unfolding read_from
  read_from-Delivered zero off dst tot mem lab c ok le fuel fits = record {
    total = tot;
    mem' = mem;
    after = c;
    lab' = lab;
    returns = refl;
    ok = ok;
    same = λ k h. refl;
    untouched = λ i o. refl;
    result = inl (omega arith, le, (λ i a b. absurd (omega arith)), inl (omega arith));
  }
  read_from-Delivered (suc rounds) off dst tot mem lab c ok le fuel fits = elim (dec_lt tot n) [
    | no all ↦
        let l : ltb tot n ≡ false = ground arith in
        record {
          total = tot;
          mem' = mem;
          after = c;
          lab' = lab;
          returns = rw l refl;
          ok = ok;
          same = λ k h. refl;
          untouched = λ i o. refl;
          result = inl (omega arith, le, (λ i a b. absurd (omega arith)), inl (omega arith));
        }
    | yes more ↦
        by_block more (bmap-Bmapped lab c (off / bsize) ok small)
          (ℕ_discrete (bmap-Bmapped lab c (off / bsize) ok small).addr 0)
          (read_from-Delivered rounds)
  ]
    where
      m : ℕ
      m = round_bytes off tot n

      m_bounds : tot < n → (0 < m) × (m ≤ n - tot) × (off % bsize + m ≤ bsize)
      m_bounds h = (omega arith, omega arith, omega arith)

      small : off / bsize < maxfile
      small = omega arith

      copied : Bmapped c (off / bsize) (bmap (off / bsize) c) → Bool × (ℕ → ℕ)
      copied b = copy dst m (λ i. b.after.store.bytes b.addr (off % bsize + i)) mem

      wider : tot < n → (i : ℕ) → (i < dst) ⊎ (dst + (n - tot) ≤ i) → (i < dst) ⊎ (dst + m ≤ i)
      wider h i (inl a) = inl a
      wider h i (inr a) = inr (let z = m_bounds h in omega (arith, z.1))

      later :
          tot < n
          → (i : ℕ) → (i < dst) ⊎ (dst + (n - tot) ≤ i)
          → (i < dst + m) ⊎ (dst + m + (n - (tot + m)) ≤ i)
      later h i (inl a) = inl (omega arith)
      later h i (inr a) = inr (let z = m_bounds h in omega (arith, z.1))

      -- The bytes of this round.
      here :
          (b : Bmapped c (off / bsize) (bmap (off / bsize) c))
          → b.addr ≢ 0
          → (copied b).0 ≡ true
          → tot < n
          → (i : ℕ) → dst ≤ i
          → i < dst + m
          → (copied b).1 i ≡ byte_at c (off + (i - dst))
      here b real all h i lo hi =
          let z = m_bounds h in
          let e : (off + (i - dst)) / bsize ≡ off / bsize = omega (arith, z.2) in
          let d : off % bsize + (i - dst) ≡ (off + (i - dst)) % bsize = omega (arith, z.2) in
          delivers.inside dst m _ mem i all lo hi
          ∙ ap (b.after.store.bytes b.addr) d
          ∙ old_bytes lab c (off / bsize) ok small _ b real (λ j. 0) (off + (i - dst)) e

      by_block :
          tot < n
          → (b : Bmapped c (off / bsize) (bmap (off / bsize) c)) → Dec (b.addr ≡ 0)
          → ((off' dst' tot' : ℕ) (mem2 : ℕ → ℕ) (lab2 : ℕ → Option (List ℕ)) (c2 : Content)
              → IsContent lab2 c2
              → tot' ≤ n
              → n - tot' ≤ rounds
              → off' + (n - tot') < maxfile * bsize
              → Delivered copy off' dst' tot' n mem2 c2
                  (read_from rounds copy off' dst' tot' n mem2 c2))
          → Delivered copy off dst tot n mem c (read_from (suc rounds) copy off dst tot n mem c)
      by_block more b (yes z) rec =
          let l : ltb tot n ≡ true = ground arith in
          let q : (b.addr == 0) ≡ true = ground (arith, z) in
          record {
            total = tot;
            mem' = mem;
            after = b.after;
            lab' = b.lab';
            returns = rw (l, b.returns, q) refl;
            ok = b.ok;
            same = λ k h. mapped-byte_at lab c (off / bsize) ok small _ b (yes z) k (omega arith);
            untouched = λ i o. refl;
            result = inl (
              omega arith,
              le,
              (λ i a h. absurd (omega arith)),
              elim b.result [ inl u ↦ inr u.2 | inr u ↦ absurd (u.0 z) ],
            );
          }
      by_block more b (no real) rec = elim (Bool-cases (copied b).0) [
        | inr failed ↦
            let l : ltb tot n ≡ true = ground arith in
            let q : (b.addr == 0) ≡ false = ground (arith, real) in
            record {
              total = 2 ^ 32 - 1;
              mem' = (copied b).1;
              after = b.after;
              lab' = b.lab';
              returns = rw (l, b.returns, q, failed) refl;
              ok = b.ok;
              same =
                  λ k h. mapped-byte_at lab c (off / bsize) ok small _ b (no real) k (omega arith);
              untouched = λ i o. delivers.outside dst m _ mem i (wider more i o);
              result = inr (
                refl,
                RoundFails-first copy off dst tot n more
                    (λ from2 mem2. delivers.by_place dst m from2 mem2 _ mem ∙ failed),
              );
            }
        | inl all ↦
            let l : ltb tot n ≡ true = ground arith in
            let q : (b.addr == 0) ≡ false = ground (arith, real) in
            let w =
              rec (off + m) (dst + m) (tot + m) (copied b).1 b.lab' b.after b.ok
                (let z = m_bounds more in omega (arith, z.1))
                (let z = m_bounds more in omega (arith, z.0))
                (let z = m_bounds more in omega (arith, z.1)) in
            let old = λ (k : ℕ) (h : k < maxfile * bsize).
              mapped-byte_at lab c (off / bsize) ok small _ b (no real) k (omega arith) in
            record {
              total = w.total;
              mem' = w.mem';
              after = w.after;
              lab' = w.lab';
              returns = rw (l, b.returns, q, all) w.returns;
              ok = w.ok;
              same = λ k h. w.same k h ∙ old k h;
              untouched = λ i o.
                  w.untouched i (later more i o) ∙ delivers.outside dst m _ mem i (wider more i o);
              result = elim w.result [
                | inr f ↦ inr (f.0, RoundFails-later copy off dst tot n more f.1)
                | inl (lo, hi, bytes, stops) ↦ inl (
                  omega arith,
                  hi,
                  (λ i a h. elim (dec_lt i (dst + m)) [
                    | yes near ↦ w.untouched i (inl near) ∙ here b real all more i a near
                    | no far ↦
                        let d : off + m + (i - (dst + m)) ≡ off + (i - dst) = omega (arith, far) in
                        bytes i (omega arith) (omega (arith, lo, h))
                        ∙ ap (byte_at b.after) d
                        ∙ old (off + (i - dst)) (omega (arith, hi, h, far))
                  ]),
                  elim stops [
                    | inl e ↦ inl e
                    | inr u ↦ inr (subst (λ t. Used 0 t w.after.store) b.size u)
                  ],
                )
              ];
            }
      ]

-- The bytes that `readi` is to deliver: as far as the file goes.
abbrev pub wanted : ℕ → ℕ → ℕ → ℕ
wanted off n size = if ltb size (off + n) then size - off else n

pub readi-Delivered :
    (copy : CopyOut) (dst off n size : ℕ) (mem : ℕ → ℕ) (lab : ℕ → Option (List ℕ)) (c : Content)
    → Delivers copy
    → IsContent lab c
    → off ≤ size
    → off + n < 2 ^ 32
    → n < 2 ^ 31
    → (total : ℕ) × (mem' : ℕ → ℕ) × (after : Content) × (readi copy dst off n size mem c
        ≡ done (int_of total, mem', after))
      × ((int_of total ≡ pos total) ⊎ (int_of total ≡ minus_one))
      × Delivered copy off dst 0 (wanted off n size) mem c (done (total, mem', after))
unfolding readi
readi-Delivered copy dst off n size mem lab c delivers ok inside below signed =
    let w =
      read_from-Delivered copy delivers (wanted off n size) (wanted off n size) off dst 0 mem lab c
        ok (omega arith) (omega arith) (ground arith) in
    let few =
      λ (t : ℕ) (h : t ≤ wanted off n size). (let z : t < 2 ^ 31 = ground (arith, h) in z) in
    let a : (off + n) % 2 ^ 32 ≡ off + n = omega arith in
    let g1 : ltb size off ≡ false = ground arith in
    let g2 : ltb (off + n) off ≡ false = ground arith in
    (
      w.total,
      w.mem',
      w.after,
      rw (a, g1, g2, w.returns) refl,
      elim w.result [
        | inl q ↦ inl (int_of-pos w.total (few w.total q.1))
        | inr q ↦ inr (ap int_of q.0)
      ],
      subst (Delivered copy off dst 0 (wanted off n size) mem c) w.returns w,
    )
