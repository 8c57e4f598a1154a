-- ===== src/Vm/CopyOut.antt =====
-- `copyout` to pages that can be written.
use aut_whuoslab.Prelude.{
  ℕ, zero, suc, ◌≡◌, refl, sym, ap, ◌∙◌, ◌≢◌, Bool, true, false, not, leb, ◌==◌, if◌then◌else◌,
  done,
}
use aut_whuoslab.Vm.{Vm, maxva, px, entry, walk_from, walk, walkaddr}
use aut_whuoslab.Vm.Copy.{open_page}

-- The state with other pages.
abbrev pub with_page : Vm → (ℕ → ℕ → ℕ) → Vm
with_page s g = record s { page = g }

-- The tables see nothing of a write to another page.
walk_from-with_page :
    (level t va : ℕ) (s : Vm) (g : ℕ → ℕ → ℕ)
    → walk_from level t va false (with_page s g)
      ≡ (with_page (walk_from level t va false s).0 g, (walk_from level t va false s).1)
unfolding walk_from
walk_from-with_page zero t va s g = refl
walk_from-with_page (suc level) t va s g =
    by_valid (s.pte t (px (suc level) va)).flags.valid
      (walk_from level (s.pte t (px (suc level) va)).pa va false s)
      (walk_from-with_page level (s.pte t (px (suc level) va)).pa va s g)
  where
    by_valid :
        (b : Bool) {x : Vm × ℕ} (y : Vm × ℕ)
        → x ≡ (with_page y.0 g, y.1)
        → (if b then x else (with_page s g, 0)) ≡ (
          with_page (if◌then◌else◌ {A = Vm × ℕ} b y (s, 0)).0 g,
          (if◌then◌else◌ {A = Vm × ℕ} b y (s, 0)).1,
        )
    by_valid true y h = h
    by_valid false y h = refl

-- The table with the entry of `va`, and what `walkaddr` reads in it.
abbrev pub table_of : ℕ → ℕ → Vm → ℕ
table_of t va s = (walk_from 2 t va false s).1

abbrev pub read_at : ℕ → ℕ → Vm → ℕ
read_at t0 va s =
    if leb maxva va
    then 0
    else if t0 == 0
    then 0
    else if not (entry t0 va s).flags.valid
    then 0
    else if not (entry t0 va s).flags.user
    then 0
    else (entry t0 va s).pa

pub walkaddr-read_at : (t va : ℕ) (s : Vm) → walkaddr t va s ≡ read_at (table_of t va s) va s
unfolding walkaddr
walkaddr-read_at t va s = refl

table_of-with_page :
    (t va : ℕ) (s : Vm) (g : ℕ → ℕ → ℕ) → table_of t va (with_page s g) ≡ table_of t va s
table_of-with_page t va s g = ap (λ x. x.1) (walk_from-with_page 2 t va s g)

pub walkaddr-with_page :
    (t va : ℕ) (s : Vm) (g : ℕ → ℕ → ℕ) → walkaddr t va (with_page s g) ≡ walkaddr t va s
walkaddr-with_page t va s g =
    walkaddr-read_at t va (with_page s g)
    ∙ ap (λ t0. read_at t0 va s) (table_of-with_page t va s g)
    ∙ sym (walkaddr-read_at t va s)

-- A page of the process that it may write to, and that is its own.
pub record Writable (t va : ℕ) (s : Vm) : Type 0 where
  pub reach : walkaddr t va s ≢ 0
  pub can_write : (entry (table_of t va s) va s).flags.write ≡ true
  pub not_shared : (entry (table_of t va s) va s).flags.cow ≡ false

pub Writable-with_page :
    (t va : ℕ) (s : Vm) (g : ℕ → ℕ → ℕ) → Writable t va s → Writable t va (with_page s g)
Writable-with_page t va s g w = record {
  reach = λ e. w.reach (sym (walkaddr-with_page t va s g) ∙ e);
  can_write = ap (λ t0. (entry t0 va s).flags.write) (table_of-with_page t va s g) ∙ w.can_write;
  not_shared = ap (λ t0. (entry t0 va s).flags.cow) (table_of-with_page t va s g) ∙ w.not_shared;
}

pub read_at-nonzero :
    (t0 va : ℕ) (s : Vm)
    → read_at t0 va s ≢ 0
    → (leb maxva va ≡ false)
      × ((t0 == 0) ≡ false)
      × ((entry t0 va s).flags.valid ≡ true)
      × ((entry t0 va s).flags.user ≡ true)
read_at-nonzero t0 va s n =
    by_tests (leb maxva va) (t0 == 0) (entry t0 va s).flags.valid (entry t0 va s).flags.user n
  where
    by_tests :
        (a b c d : Bool)
        → (if a
            then 0
            else if b
            then 0
            else if not c
            then 0
            else if not d
            then 0
            else (entry t0 va s).pa)
          ≢ 0
        → (a ≡ false) × (b ≡ false) × (c ≡ true) × (d ≡ true)
    by_tests true b c d h = absurd (h refl)
    by_tests false true c d h = absurd (h refl)
    by_tests false false false d h = absurd (h refl)
    by_tests false false true false h = absurd (h refl)
    by_tests false false true true h = (refl, refl, refl, refl)

pub open_page-Writable : (t va : ℕ) (s : Vm) → Writable t va s → open_page t va s ≡ done (s, true)
unfolding open_page walk
open_page-Writable t va s w =
    let (a, b, c, d) =
      read_at-nonzero (table_of t va s) va s (λ e. w.reach (walkaddr-read_at t va s ∙ e)) in
    rw (a, b, c, d, w.not_shared, w.can_write) refl
