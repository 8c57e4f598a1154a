-- ===== src/Log/Budget.antt =====
-- Budgets of blocks, one for each operation in progress.
use aut_whuoslab.Prelude.{
  ℕ, zero, suc, ◌+◌, ◌*◌, ◌≤◌, ◌≡◌, refl, ap, List, [], ◌∷◌, arith, length, All, ◌<◌, get_elem?,
  set, some,
}
use aut_whuoslab.Log.{max_op_blocks}

abbrev pub sum : List ℕ → ℕ
sum [] = 0
sum (x ∷ xs) = x + sum xs

-- The list without its entry at `i`.
abbrev pub without : List ℕ → ℕ → List ℕ
without [] i = []
without (x ∷ xs) zero = xs
without (x ∷ xs) (suc i) = x ∷ without xs i

pub sum-le : (budgets : List ℕ) (m : ℕ) → sum budgets ≤ sum budgets + m
sum-le budgets m = omega arith

pub sum-set :
    (budgets : List ℕ) (i n : ℕ)
    → get_elem? budgets i ≡ some (suc n)
    → suc (sum (set budgets i n)) ≡ sum budgets
sum-set [] i n e = cc
sum-set (x ∷ xs) zero n e = ground arith
sum-set (x ∷ xs) (suc i) n e =
    let h : suc (sum (set xs i n)) ≡ sum xs = sum-set xs i n e in omega arith

pub length-set_budget : (budgets : List ℕ) (i n : ℕ) → length (set budgets i n) ≡ length budgets
length-set_budget [] i n = refl
length-set_budget (x ∷ xs) zero n = refl
length-set_budget (x ∷ xs) (suc i) n = ap suc (length-set_budget xs i n)

pub sum-without : (budgets : List ℕ) (i : ℕ) → sum (without budgets i) ≤ sum budgets
sum-without [] i = omega arith
sum-without (x ∷ xs) zero = omega arith
sum-without (x ∷ xs) (suc i) = let h : sum (without xs i) ≤ sum xs = sum-without xs i in omega arith

pub length-without :
    (budgets : List ℕ) (i n : ℕ)
    → get_elem? budgets i ≡ some n
    → suc (length (without budgets i)) ≡ length budgets
length-without [] i n e = cc
length-without (x ∷ xs) zero n e = refl
length-without (x ∷ xs) (suc i) n e = ap suc (length-without xs i n e)

pub positive_entry :
    (budgets : List ℕ) (i n : ℕ) → get_elem? budgets i ≡ some (suc n) → 0 < length budgets
positive_entry [] i n e = cc
positive_entry (x ∷ xs) i n e = omega arith

pub bounded-set :
    (budgets : List ℕ) (i n : ℕ)
    → get_elem? budgets i ≡ some (suc n)
    → All (λ m. m ≤ max_op_blocks) budgets
    → All (λ m. m ≤ max_op_blocks) (set budgets i n)
bounded-set [] i n e a = tt
bounded-set (x ∷ xs) zero n e a = (ground (arith, a.0), a.1)
bounded-set (x ∷ xs) (suc i) n e a = (a.0, bounded-set xs i n e a.1)

pub bounded-without :
    (budgets : List ℕ) (i : ℕ)
    → All (λ m. m ≤ max_op_blocks) budgets
    → All (λ m. m ≤ max_op_blocks) (without budgets i)
bounded-without [] i a = tt
bounded-without (x ∷ xs) zero a = a.1
bounded-without (x ∷ xs) (suc i) a = (a.0, bounded-without xs i a.1)

pub sum-bounded :
    (budgets : List ℕ)
    → All (λ m. m ≤ max_op_blocks) budgets
    → sum budgets ≤ length budgets * max_op_blocks
sum-bounded [] a = omega arith
sum-bounded (x ∷ xs) a =
    let h : sum xs ≤ length xs * max_op_blocks = sum-bounded xs a.1 in omega (arith, a.0)
