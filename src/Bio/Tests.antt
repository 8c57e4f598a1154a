-- ===== src/Bio/Tests.antt =====
-- A cache of 30 buffers, and one of two.
use aut_whuoslab.Prelude.{
  ℕ, ◌+◌, ◌≡◌, refl, true, false, List, [], ◌∷◌, arith, pos, map, done, panic,
}
use aut_whuoslab.Proc.Types.{round_robin, Kernel}
use aut_whuoslab.Bio.{
  Buf, initsleeplock, holdingsleep, acquiresleep_test, acquiresleep_resume, releasesleep, binit,
  bget, bread_end, bwrite, brelse_end, bpin, bunpin,
}
use aut_whuoslab.Bio.Unique.{Unique, Got, bget-Got}

abbrev buffer : ℕ → ℕ → ℕ → Buf ℕ
buffer slot blockno refcnt = record {
  slot = slot;
  valid = true;
  dev = 1;
  blockno = blockno;
  lock = initsleeplock;
  refcnt = refcnt;
  contents = 0;
}

abbrev cache : List (Buf ℕ)
cache = buffer 0 40 1 ∷ buffer 1 41 0 ∷ []

cache-Unique : Unique cache
cache-Unique d b = ground arith

bget-Got_example : Got 1 42 cache (bget 1 42 cache)
bget-Got_example = bget-Got 0 42 cache cache-Unique

-- The first buffer of the cache at boot is the last one of the array.
boot_order :
    map (λ (x : Buf ℕ). x.slot) (binit 0)
    ≡ 29 ∷ 28 ∷ 27 ∷ 26 ∷ 25 ∷ 24 ∷ 23 ∷ 22 ∷ 21 ∷ 20 ∷ 19 ∷ 18 ∷ 17 ∷ 16 ∷ 15 ∷ 14 ∷ 13 ∷ 12 ∷ 11
      ∷ 10 ∷ 9 ∷ 8 ∷ 7 ∷ 6 ∷ 5 ∷ 4 ∷ 3 ∷ 2 ∷ 1 ∷ 0 ∷ []
unfolding binit
boot_order = refl

get_hit : bget 1 40 cache ≡ done (0, buffer 0 40 2 ∷ buffer 1 41 0 ∷ [])
unfolding bget
get_hit = refl

get_none : bget 1 42 (bpin 1 cache) ≡ panic
unfolding bget bpin
get_none = refl

read_fresh : (bread_end (λ d b. b + 1) (record (buffer 1 42 1) { valid = false })).contents ≡ 43
unfolding bread_end
read_fresh = refl

-- A write needs the lock.
abbrev kernel : Kernel
kernel = record {
  procs = [];
  queues = [];
  current_level = 0;
  time_slices = [];
  selector = round_robin;
  nextpid = pos 1;
  initproc = 0;
  ticks = 0;
}

write_unlocked : bwrite (pos 3) (buffer 0 40 1) ≡ panic
unfolding bwrite holdingsleep
write_unlocked = refl

lock_holds : holdingsleep (acquiresleep_test 0 0 initsleeplock kernel).0 (pos 0) ≡ true
unfolding holdingsleep acquiresleep_test
lock_holds = refl

lock_waits :
    (acquiresleep_resume 0 0 (acquiresleep_test 0 0 initsleeplock kernel).0 kernel).2 ≡ false
unfolding acquiresleep_resume acquiresleep_test
lock_waits = refl

unlock_frees :
    (releasesleep 0 0 (acquiresleep_test 0 0 initsleeplock kernel).0 kernel).0 ≡ initsleeplock
unfolding releasesleep
unlock_frees = refl

-- The last release moves the buffer to the front.
release_front : brelse_end (buffer 1 41 1) (bpin 1 cache) ≡ buffer 1 41 0 ∷ buffer 0 40 1 ∷ []
unfolding brelse_end bpin
release_front = refl

unpin_lem : bunpin 1 (bpin 1 cache) ≡ cache
unfolding bunpin bpin
unpin_lem = refl
