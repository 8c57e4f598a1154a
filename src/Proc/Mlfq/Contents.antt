-- ===== src/Proc/Mlfq/Contents.antt =====
-- The array of a scheduler queue against the list of the processes that are queued.
use aut_whuoslab.Prelude.{
  ℕ, zero, suc, ◌+◌, ◌-◌, ◌≤◌, ◌<◌, ◌≡◌, refl, ap, ap₂, ◌∙◌, inl, inr, List, [], ◌∷◌, ◌++◌, Option,
  none, some, arith, length, get_or, set, take, length-set, if◌then◌else◌, Bool-cases, tests, ltb,
  add-one,
}
use aut_whuoslab.Proc.Types.{nproc, Queue, is_slot}
use aut_whuoslab.Proc.Mlfq.{add, shift, remove_from, remove}

-- The processes of a queue, first in first.
abbrev pub contents : Queue → List (Option ℕ)
contents q = take q.count q.processes

-- Every queue has its array of NPROC slots.
pub record IsQueue (q : Queue) : Type 0 where
  pub slots : length q.processes ≡ nproc
  pub fits : q.count ≤ nproc

-- The list without the first occurrence of a process.
abbrev pub erase : ℕ → List (Option ℕ) → List (Option ℕ)
erase p [] = []
erase p (x ∷ xs) = if is_slot x p then xs else x ∷ erase p xs

take-set-append :
    (a : List (Option ℕ)) (n : ℕ) (v : Option ℕ)
    → n < length a
    → take (suc n) (set a n v) ≡ take n a ++ v ∷ []
take-set-append [] n v h = absurd (omega arith)
take-set-append (x ∷ a) zero v h = refl
take-set-append (x ∷ a) (suc n) v h = ap (λ l. x ∷ l) (take-set-append a n v (omega arith))

length-shift : (n j : ℕ) (a : List (Option ℕ)) → length (shift n j a) ≡ length a
unfolding shift
length-shift zero j a = refl
length-shift (suc n) j a = length-shift n (suc j) _ ∙ length-set a j _

-- Shifting behind the head is shifting the tail.
shift-cons :
    (n j : ℕ) (x : Option ℕ) (a : List (Option ℕ)) → shift n (suc j) (x ∷ a) ≡ x ∷ shift n j a
unfolding shift
shift-cons zero j x a = refl
shift-cons (suc n) j x a = shift-cons n (suc j) x (set a j (get_or a (suc j) none))

take-shift :
    (n : ℕ) (x : Option ℕ) (a : List (Option ℕ))
    → n ≤ length a
    → take n (shift n 0 (x ∷ a)) ≡ take n a
unfolding shift
take-shift zero x a h = refl
take-shift (suc n) x [] h = absurd (omega arith)
take-shift (suc n) x (y ∷ a) h =
    ap (take (suc n)) (shift-cons n 0 y (y ∷ a)) ∙ ap (λ l. y ∷ l) (take-shift n y a (omega arith))

abbrev queue : List (Option ℕ) → ℕ → Queue
queue a c = record { processes = a; count = c }

-- The search behind the head leaves the head.
abbrev behind : Option ℕ → Queue → Queue
behind x q = record { processes = x ∷ q.processes; count = suc q.count }

remove_from-behind :
    (n i p : ℕ) (x : Option ℕ) (q : Queue)
    → i + n ≤ q.count
    → remove_from n (suc i) (behind x q) p ≡ behind x (remove_from n i q p)
unfolding remove_from
remove_from-behind zero i p x q h = refl
remove_from-behind (suc n) i p x q h = elim (Bool-cases (is_slot (get_or q.processes i none) p)) [
  | inl here ↦
      let left : suc q.count - 1 - suc i ≡ q.count - 1 - i = omega arith in
      rw here (
        ap₂ queue
          (ap (λ m. shift m (suc i) (x ∷ q.processes)) left
            ∙ shift-cons (q.count - 1 - i) i x q.processes)
          (omega arith))
  | inr on ↦ rw on (remove_from-behind n (suc i) p x q (omega arith))
]

-- Removing a process takes its first occurrence out of the queue and keeps the order of the others.
pub contents-remove :
    (a : List (Option ℕ)) (c p : ℕ)
    → c ≤ length a
    → contents (remove (record { processes = a; count = c }) p) ≡ erase p (take c a)
unfolding remove
contents-remove a zero p h = refl
contents-remove [] (suc c) p h = absurd (omega arith)
contents-remove (x ∷ a) (suc c) p h = elim (Bool-cases (is_slot x p)) [
  | inl here ↦
      let one : suc c - 1 ≡ c = omega arith in
      let zero_on : suc c - 1 - 0 ≡ c = omega arith in
      rw here (ap₂ (λ n m. take n (shift m 0 (x ∷ a))) one zero_on ∙ take-shift c x a (omega arith))
  | inr on ↦ rw on (
      ap contents (remove_from-behind c 0 p x (queue a c) (omega arith))
      ∙ ap (λ l. x ∷ l) (contents-remove a c p (omega arith)))
]

remove_from-IsQueue :
    (n i p : ℕ) (q : Queue) → i + n ≤ q.count → IsQueue q → IsQueue (remove_from n i q p)
unfolding remove_from
remove_from-IsQueue zero i p q h v = v
remove_from-IsQueue (suc n) i p q h v = ground (
  arith,
  length-shift (q.count - 1 - i) i q.processes,
  remove_from-IsQueue n (suc i) p q (omega arith) v,
)

-- `mlfq_remove_process` takes the first occurrence of the process out of the queue, keeps the others in
-- their order, and keeps the array.
pub remove-erase :
    (q : Queue) (p : ℕ)
    → IsQueue q
    → (contents (remove q p) ≡ erase p (contents q)) × IsQueue (remove q p)
unfolding remove
remove-erase q p v = (
  contents-remove q.processes q.count p (omega arith),
  remove_from-IsQueue q.count 0 p q (omega arith) v,
)

-- `mlfq_add_process` puts the process at the end of a queue that has room, and leaves a full queue as it
-- is.
pub add-append :
    (q : Queue) (p : ℕ)
    → IsQueue q
    → (contents (add q p) ≡ (if ltb q.count nproc then contents q ++ some p ∷ [] else contents q))
      × IsQueue (add q p)
unfolding add
add-append q p v = elim (Bool-cases (ltb q.count nproc)) [
  | inl room ↦ rw room (
    rw add-one (take-set-append q.processes q.count (some p) (omega (tests, v.slots))),
    record { slots = length-set q.processes q.count (some p) ∙ v.slots; fits = omega tests },
  )
  | inr full ↦ rw full (refl, v)
]
