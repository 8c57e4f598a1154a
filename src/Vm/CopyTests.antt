-- ===== src/Vm/CopyTests.antt =====
-- A process with one page, which begins with a string, and copies of it.
use aut_whuoslab.Prelude.{
  ℕ, ◌+◌, ◌<◌, ◌≡◌, refl, sym, ◌∙◌, subst, ◌≢◌, true, ◌==◌, if◌then◌else◌, arith, pos, minus_one,
  done,
}
use aut_whuoslab.Vm.{Flags, Vm, no_flags, zero_pte, leaf, walk_from, walkaddr}
use aut_whuoslab.Vm.Memory.{pg_round_down}
use aut_whuoslab.Vm.Copy.{copyin, copyinstr, copyout, copyinstr_from, string_in_page}
use aut_whuoslab.Vm.UserBytes.{string_bytes, copyinstr-string_bytes}
use aut_whuoslab.Vm.CopyIn.{Reachable}
use aut_whuoslab.Vm.CopyOut.{Writable}
use aut_whuoslab.Vm.Written.{CanWrite, CopiedOut, copyout-Written, copyin-copyout}

abbrev user_rw : Flags
user_rw = record no_flags { read = true; write = true; user = true }

abbrev root : ℕ
root = 0x8000_1000

-- The three tables, and the page at address 0.
abbrev mapped_vm : Vm
mapped_vm = record {
  kmem = record { freelist = 0; word = λ _. 0; count = λ _. pos 0; kernel_end = 0x8000_1000 };
  pte = λ t i.
      if i == 0
      then if t == 0x8000_1000
        then leaf no_flags 0x8000_2000
        else if t == 0x8000_2000
        then leaf no_flags 0x8000_3000
        else if t == 0x8000_3000
        then leaf user_rw 0x8000_4000
        else zero_pte
      else zero_pte;
  page = λ p j. if p == 0x8000_4000 then (if j == 0 then 104 else if j == 1 then 105 else 0) else 0;
}

abbrev kernel_bytes : ℕ → ℕ
kernel_bytes a = a + 1

page_0 : walkaddr root 0 mapped_vm ≡ 0x8000_4000
unfolding walkaddr
page_0 = refl

first_page : (i : ℕ) → i < 3 → pg_round_down (0 + i) ≡ 0
first_page i h = omega (arith, h)

page_0-Writable : Writable root 0 mapped_vm
unfolding walk_from
page_0-Writable = record {
  reach = λ e. let z : ◌≡◌ {A = ℕ} 0x8000_4000 0 = sym page_0 ∙ e in absurd (omega (arith, z));
  can_write = refl;
  not_shared = refl;
}

three_bytes-CanWrite : CanWrite root mapped_vm 0 3
three_bytes-CanWrite = record {
  writable = λ i h. subst (λ v. Writable root v mapped_vm) (sym (first_page i h)) page_0-Writable;
  apart = λ i j h k e. first_page i h ∙ sym (first_page j k);
}

three_bytes-Reachable : Reachable root 0 3 mapped_vm
three_bytes-Reachable i h =
    subst (λ v. walkaddr root v mapped_vm ≢ 0) (sym (first_page i h)) page_0-Writable.reach

copyinstr-string_bytes_example :
    copyinstr root 0x9000 0 16 kernel_bytes mapped_vm
    ≡ string_bytes 16 root 0x9000 0 kernel_bytes mapped_vm
copyinstr-string_bytes_example = copyinstr-string_bytes root 0x9000 0 16 kernel_bytes mapped_vm

copyout-Written_example :
    CopiedOut root mapped_vm 0 0x9000 3 kernel_bytes mapped_vm.page
      (copyout root 0 0x9000 3 kernel_bytes mapped_vm)
copyout-Written_example =
    copyout-Written root mapped_vm 0 0x9000 3 kernel_bytes three_bytes-CanWrite

copyin-copyout_example :
    (s' : Vm) × (mem' : ℕ → ℕ) × (copyout root 0 0x9000 3 kernel_bytes mapped_vm ≡ done (s', pos 0))
    × (copyin root 4096 0xA000 0 3 kernel_bytes s' ≡ done (s', mem', pos 0))
    × ((i : ℕ) → i < 3 → mem' (0xA000 + i) ≡ kernel_bytes (0x9000 + i))
copyin-copyout_example =
    copyin-copyout root 4096 0 0x9000 0xA000 3 kernel_bytes mapped_vm three_bytes-CanWrite

-- A page that is not there yet.
refused : (copyinstr root 0x9000 0x5000 16 kernel_bytes mapped_vm).1 ≡ minus_one
unfolding copyinstr walkaddr copyinstr_from string_in_page
refused = refl
