-- ===== src/Spinlock/Tests.antt =====
-- Two locks and two CPUs; CPU 1 holds lock 0.
use aut_whuoslab.Prelude.{
  ℕ, zero, suc, ◌<◌, ◌≡◌, refl, true, false, [], ◌∷◌, some, arith, pos, panic, Returns,
}
use aut_whuoslab.Spinlock.{
  Machine, no_lock, cpu_at, lock_at, initlock, holding, push_off, acquire, acquire_test, release,
}
use aut_whuoslab.Spinlock.Counted.{load, Counted}
use aut_whuoslab.Spinlock.Turns.{
  begin, run_turn, after, run_turn-Counted, Released, release-Released,
}

abbrev machine : Machine
machine = record {
  locks = record { locked = true; cpu = some 1 } ∷ no_lock ∷ [];
  cpus =
      record { noff = pos 0; intena = false; intr = true }
      ∷ record { noff = pos 1; intena = true; intr = false }
      ∷ [];
}

abbrev nothing_pending : ℕ → ℕ
nothing_pending c = 0

counts_lem : (c : ℕ) → c < 2 → (cpu_at c machine).noff ≡ pos (load nothing_pending c machine)
counts_lem zero h = refl
counts_lem (suc zero) h = refl
counts_lem (suc (suc c)) h = absurd (omega (arith, h))

masks_lem : (c : ℕ) → c < 2 → 0 < load nothing_pending c machine → (cpu_at c machine).intr ≡ false
masks_lem zero h u = absurd (omega (arith, u))
masks_lem (suc zero) h u = refl
masks_lem (suc (suc c)) h u = absurd (omega (arith, h))

machine-Counted : Counted nothing_pending machine
machine-Counted = record { counts = counts_lem; masks = masks_lem }

holds : holding 0 1 machine ≡ true
unfolding holding
holds = refl

holds_not : holding 0 0 machine ≡ false
unfolding holding
holds_not = refl

run_turn-Counted_example :
    Returns (Counted (after (begin 0 0) nothing_pending machine)) (run_turn (begin 0 0) machine)
run_turn-Counted_example =
    run_turn-Counted (begin 0 0) nothing_pending machine machine-Counted
      (omega arith, omega arith, omega arith, holds_not)

release-Released_example :
    Returns
      (Released nothing_pending machine machine-Counted 1 (omega arith) 0 (omega arith))
      (release 0 1 machine)
release-Released_example =
    release-Released nothing_pending machine machine-Counted 1 (omega arith) 0 (omega arith) holds

-- A lock that is held by its own CPU.
twice : acquire 0 1 machine ≡ panic
unfolding acquire push_off holding
twice = refl

fresh : lock_at 0 (initlock 0 machine) ≡ no_lock
unfolding initlock
fresh = refl

spins : (acquire_test 0 0 machine).1 ≡ false
unfolding acquire_test
spins = refl
