-- ===== src/Strings/Tests.antt =====
-- A memory in which address `x` holds `x`, but for a zero at 105.
use aut_whuoslab.Prelude.{ℕ, ◌≡◌, refl, pos, negsuc}
use aut_whuoslab.Kalloc.{update}
use aut_whuoslab.Strings.{
  memset, memmove, memcpy, memcmp, strncmp, strncpy, safestrcpy, strlen_from,
}
use aut_whuoslab.Strings.Move.{moved, memmove-moved}

abbrev memory : ℕ → ℕ
memory = update (λ x. x) 105 0

memmove-moved_example : memmove 102 100 4 memory 103 ≡ moved 102 100 4 memory 103
memmove-moved_example = memmove-moved 102 100 4 103 memory

-- An overlapping copy in each direction.
move_down : memmove 102 100 4 memory 104 ≡ 102
unfolding memmove
move_down = refl

move_up : memcpy 100 102 4 memory 101 ≡ 103
unfolding memcpy
move_up = refl

set_byte : memset 300 511 2 memory 301 ≡ 255
unfolding memset
set_byte = refl

compare_less : memcmp 3 100 101 memory ≡ negsuc 0
unfolding memcmp
compare_less = refl

compare_equal : strncmp 3 100 100 memory ≡ pos 0
unfolding strncmp
compare_equal = refl

compare_ends : strncmp 9 105 105 memory ≡ pos 0
unfolding strncmp
compare_ends = refl

copy_pads : strncpy 6 200 103 memory 205 ≡ 0
unfolding strncpy
copy_pads = refl

copy_nothing : safestrcpy 200 103 (negsuc 3) memory 200 ≡ 200
unfolding safestrcpy
copy_nothing = refl

length_lem : strlen_from 10 0 102 memory ≡ pos 3
unfolding strlen_from
length_lem = refl
