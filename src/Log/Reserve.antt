-- ===== src/Log/Reserve.antt =====
-- The space of the log: an operation that writes no more than MAXOPBLOCKS blocks always finds room.
use aut_whuoslab.Prelude.{
  ℕ, zero, suc, ◌+◌, ◌*◌, ◌≤◌, ◌≡◌, refl, sym, ap, ap₂, ◌∙◌, subst, ◌⊎◌, inl, inr, Bool, true,
  false, List, [], ◌∷◌, ◌++◌, arith, pos, int_inc, int_dec, int_lt, is_zero, length, length-append,
  All, ◌==◌, get_elem?, set, some, leb, Bool-cases, if◌then◌else◌, Outcome, done, panic,
}
use aut_whuoslab.Kalloc.{update}
use aut_whuoslab.Proc.Types.{of_log}
use aut_whuoslab.Proc.Table.{wakeup}
use aut_whuoslab.Proc.Switch.{sleep_begin}
use aut_whuoslab.Log.{
  Log, log_blocks, max_op_blocks, no_room, begin_op_test, end_op, log_write, mem,
}
use aut_whuoslab.Log.Budget.{
  sum, without, sum-set, length-set_budget, sum-without, length-without, positive_entry,
  bounded-set, bounded-without, sum-bounded,
}

-- The operations in progress may still write the numbers of blocks in `budgets`: each operation is counted,
-- and there is room for all that they may write.
pub record Reserved (l : Log) (budgets : List ℕ) : Type 0 where
  pub counted : l.outstanding ≡ pos (length budgets)
  pub room : length l.lh + sum budgets ≤ log_blocks
  pub bounded : All (λ n. n ≤ max_op_blocks) budgets

-- With a block left in the budget of the operation, `log_write` does not panic, and the room goes down by
-- no more than that block.
pub log_write-Reserved :
    (l : Log) (budgets : List ℕ) (i n b : ℕ)
    → Reserved l budgets
    → get_elem? budgets i ≡ some (suc n)
    → (l' : Log) × (log_write b l ≡ done l') × Reserved l' (set budgets i n)
unfolding log_write
log_write-Reserved l budgets i n b r e = by_mem (mem b l.lh) refl
  where
    added : Log
    added = record l { lh = l.lh ++ b ∷ []; pins = update l.pins b (int_inc (l.pins b)) }

    less : suc (sum (set budgets i n)) ≡ sum budgets
    less = sum-set budgets i n e

    fits : leb log_blocks (length l.lh) ≡ false
    fits = let h = r.room in ground (arith, less)

    begun : int_lt l.outstanding (pos 1) ≡ false
    begun = let h = positive_entry budgets i n e in rw r.counted (ground (arith, h))

    kept : Reserved l (set budgets i n)
    kept = record {
      counted = r.counted ∙ ap pos (sym (length-set_budget budgets i n));
      room = omega (arith, r.room, less);
      bounded = bounded-set budgets i n e r.bounded;
    }

    grown : Reserved added (set budgets i n)
    grown = record {
      counted = r.counted ∙ ap pos (sym (length-set_budget budgets i n));
      room = omega (arith, r.room, less, length-append l.lh (b ∷ []));
      bounded = bounded-set budgets i n e r.bounded;
    }

    by_mem :
        (t : Bool)
        → mem b l.lh ≡ t
        → (l' : Log) × (log_write b l ≡ done l') × Reserved l' (set budgets i n)
    by_mem true m = (l, rw (fits, begun, m) refl, kept)
    by_mem false m = (added, rw (fits, begun, m) refl, grown)

-- `begin_op` lets an operation begin only when there is room for MAXOPBLOCKS more blocks besides what the
-- operations in progress may still write; else the caller sleeps and nothing is reserved.
pub begin_op_test-Reserved :
    (me : ℕ) (l : Log) (budgets : List ℕ)
    → Reserved l budgets
    → (((begin_op_test me l).1 ≡ true) × Reserved (begin_op_test me l).0 (max_op_blocks ∷ budgets))
      ⊎ (((begin_op_test me l).1 ≡ false) × Reserved (begin_op_test me l).0 budgets)
unfolding begin_op_test
begin_op_test-Reserved me l budgets r =
    by_tests (Bool-cases l.committing) (Bool-cases (no_room (length l.lh) l.outstanding))
  where
    asleep : Log
    asleep = record l { kern = sleep_begin of_log me l.kern }

    waiting : Reserved asleep budgets
    waiting = record { counted = r.counted; room = r.room; bounded = r.bounded }

    begun : Log
    begun = record l { outstanding = int_inc l.outstanding }

    enough :
        no_room (length l.lh) l.outstanding ≡ false
        → length l.lh + (length budgets + 1) * max_op_blocks ≤ log_blocks
    enough e =
        let e' : no_room (length l.lh) (pos (length budgets)) ≡ false = rw r.counted at e in
        ground arith

    one_more :
        no_room (length l.lh) l.outstanding ≡ false
        → int_inc l.outstanding ≡ pos (suc (length budgets))
    one_more e = let h = enough e in rw r.counted (ground (arith, h))

    entered : no_room (length l.lh) l.outstanding ≡ false → Reserved begun (max_op_blocks ∷ budgets)
    entered e = record {
      counted = one_more e;
      room = omega (arith, enough e, sum-bounded budgets r.bounded);
      bounded = (omega arith, r.bounded);
    }

    tried : Bool → Log × Bool
    tried b = if◌then◌else◌ {A = Log × Bool} b (asleep, false) (begun, true)

    step : Bool → Log × Bool
    step b =
        if◌then◌else◌ {A = Log × Bool} b (asleep, false)
          (tried (no_room (length l.lh) l.outstanding))

    Result : Log × Bool → Type 0
    Result x =
        ((x.1 ≡ true) × Reserved x.0 (max_op_blocks ∷ budgets))
        ⊎ ((x.1 ≡ false) × Reserved x.0 budgets)

    by_tests :
        (l.committing ≡ true) ⊎ (l.committing ≡ false)
        → (no_room (length l.lh) l.outstanding ≡ true)
          ⊎ (no_room (length l.lh) l.outstanding ≡ false)
        → (((begin_op_test me l).1 ≡ true)
            × Reserved (begin_op_test me l).0 (max_op_blocks ∷ budgets))
          ⊎ (((begin_op_test me l).1 ≡ false) × Reserved (begin_op_test me l).0 budgets)
    by_tests (inl c) o = subst Result (sym (ap step c)) (inr (refl, waiting))
    by_tests (inr c) (inl full) =
        subst Result (sym (ap step c ∙ ap tried full)) (inr (refl, waiting))
    by_tests (inr c) (inr some_room) =
        subst Result (sym (ap step c ∙ ap tried some_room)) (inl (refl, entered some_room))

-- An operation that ends while no commit is under way does not panic and gives up what it did not write.
-- It commits exactly when no other operation is in progress.
pub end_op-Reserved :
    (me : ℕ) (l : Log) (budgets : List ℕ) (i n : ℕ)
    → Reserved l budgets
    → l.committing ≡ false
    → get_elem? budgets i ≡ some n
    → (l' : Log) × (end_op me l ≡ done (l', length (without budgets i) == 0))
      × Reserved l' (without budgets i)
      × (l'.committing ≡ (length (without budgets i) == 0))
unfolding end_op
end_op-Reserved me l budgets i n r c e = by_last (length (without budgets i) == 0) refl
  where
    one_less : int_dec l.outstanding ≡ pos (length (without budgets i))
    one_less = rw (r.counted, sym (length-without budgets i n e)) refl

    last_lem : is_zero (int_dec l.outstanding) ≡ (length (without budgets i) == 0)
    last_lem = ap is_zero one_less ∙ zero_lem (length (without budgets i))
      where
        zero_lem : (m : ℕ) → is_zero (pos m) ≡ (m == 0)
        zero_lem zero = refl
        zero_lem (suc m) = ground arith

    last : Log
    last = record l { outstanding = int_dec l.outstanding; committing = true }

    other : Log
    other = record l { outstanding = int_dec l.outstanding; kern = wakeup of_log (some me) l.kern }

    fewer : length l.lh + sum (without budgets i) ≤ log_blocks
    fewer = omega (arith, r.room, sum-without budgets i)

    step : Bool → Bool → Outcome (Log × Bool)
    step b z =
        if◌then◌else◌ {A = Outcome (Log × Bool)} b panic
          (if◌then◌else◌ {A = Outcome (Log × Bool)} z (done (last, true)) (done (other, false)))

    by_last :
        (t : Bool)
        → (length (without budgets i) == 0) ≡ t
        → (l' : Log) × (end_op me l ≡ done (l', t))
          × Reserved l' (without budgets i)
          × (l'.committing ≡ t)
    by_last true z = (
      last,
      ap₂ step c (last_lem ∙ z),
      record { counted = one_less; room = fewer; bounded = bounded-without budgets i r.bounded },
      refl,
    )
    by_last false z = (
      other,
      ap₂ step c (last_lem ∙ z),
      record { counted = one_less; room = fewer; bounded = bounded-without budgets i r.bounded },
      c,
    )
