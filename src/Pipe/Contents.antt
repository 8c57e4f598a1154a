-- ===== src/Pipe/Contents.antt =====
-- The pipe as a queue of bytes.
use aut_whuoslab.Prelude.{
  ℕ, suc, ◌+◌, ◌-◌, ◌%◌, ◌^◌, ◌≤◌, ◌<◌, ◌≡◌, List, [], ◌∷◌, ◌++◌, arith, length, get_or, set, ◌==◌,
}
use aut_whuoslab.Ring
use aut_whuoslab.Pipe.{Pipe, pipe_size, is_full, is_empty}

abbrev pub in_ring : ℕ → ℕ
in_ring r = r % pipe_size

-- `count` bytes of the ring from place `r` on.
abbrev pub elems : ℕ → ℕ → List ℕ → List ℕ
elems = Ring.elems in_ring

-- `nwrite - nread` in 32 bits.
abbrev pub count : Pipe → ℕ
count p = (p.nwrite + 2 ^ 32 - p.nread) % 2 ^ 32

-- The bytes in the pipe, the oldest first.
abbrev pub contents : Pipe → List ℕ
contents p = elems (count p) p.nread p.bytes

-- A whole array, counters of 32 bits, and no more bytes than fit.
pub record IsPipe (p : Pipe) : Type 0 where
  pub slots : length p.bytes ≡ pipe_size
  pub read_word : p.nread < 2 ^ 32
  pub write_word : p.nwrite < 2 ^ 32
  pub fits : count p ≤ pipe_size

pub length-elems : (c r : ℕ) (bytes : List ℕ) → length (elems c r bytes) ≡ c
length-elems = Ring.length-elems in_ring

-- Places count in steps of the size of the ring.
pub elems-mod :
    (c r s : ℕ) (bytes : List ℕ) → r % pipe_size ≡ s % pipe_size → elems c r bytes ≡ elems c s bytes
elems-mod = Ring.elems-mod in_ring (λ r s e. omega (arith, e))

-- A write behind the last byte.
pub elems-set :
    (c r j v : ℕ) (bytes : List ℕ)
    → c + j < pipe_size
    → elems c r (set bytes ((r + c + j) % pipe_size) v) ≡ elems c r bytes
elems-set c r j v bytes h =
    Ring.elems-set in_ring c r ((r + c + j) % pipe_size) v bytes (λ i l. omega (arith, h, l))

pub elems-snoc :
    (c r : ℕ) (bytes : List ℕ)
    → elems (suc c) r bytes ≡ elems c r bytes ++ get_or bytes ((r + c) % pipe_size) 0 ∷ []
elems-snoc = Ring.elems-snoc in_ring

module _ (p : Pipe) (v : IsPipe p) where
  -- The two tests of the code.
  pub full_lem : is_full p ≡ (count p == pipe_size)
  full_lem = ground (arith, v.read_word, v.write_word, v.fits)

  pub empty_lem : is_empty p ≡ (count p == 0)
  empty_lem = ground (arith, v.read_word, v.write_word, v.fits)
