-- ===== src/Bio.antt =====
-- kernel/bio.c and the sleep locks of kernel/sleeplock.c: the buffer cache. The doubly linked list of the
-- buffers is a list in its order from `head.next`, the most recently used first. `bget` is what it does
-- under the spinlock of the cache; the sleep lock of the buffer is then taken by `acquiresleep`, which a
-- process that slept goes through again. The disk is a function of device and block that the driver reads.
pub mod Unique
pub mod Release
mod Tests
use aut_whuoslab.Prelude.{
  ℕ, zero, suc, ◌+◌, ◌-◌, ◌%◌, ◌^◌, Bool, true, false, not, ◌&&◌, ◌||◌, List, [], ◌∷◌, Option, none,
  some, ℤ, pos, int_eq, ◌==◌, if◌then◌else◌, Outcome, done, panic, ◌>>=◌,
}
use aut_whuoslab.Proc.Types.{Kernel, of_sleeplock, at}
use aut_whuoslab.Proc.Table.{wakeup}
use aut_whuoslab.Proc.Switch.{sleep_begin, sleep_end}

-- `struct sleeplock`
pub record SleepLock : Type 0 where
  pub locked : Bool
  pub pid : ℤ

abbrev pub initsleeplock : SleepLock
initsleeplock = record { locked = false; pid = pos 0 }

-- `struct buf`, and the number of its place in `bcache.buf`.
pub record Buf {ℓ} (A : Type ℓ) : Type ℓ where
  pub slot : ℕ
  pub valid : Bool
  pub dev : ℕ
  pub blockno : ℕ
  pub lock : SleepLock
  pub refcnt : ℕ
  pub contents : A

-- `holdingsleep` of a process with this pid.
pub holdingsleep : SleepLock → ℤ → Bool
holdingsleep l pid = l.locked && int_eq l.pid pid

-- `acquiresleep` at its test: the lock is taken, or the process sleeps.
pub acquiresleep_test : ℕ → ℕ → SleepLock → Kernel → SleepLock × Kernel × Bool
acquiresleep_test slot me l k =
    if l.locked
    then (l, sleep_begin (of_sleeplock slot) me k, false)
    else (record { locked = true; pid = (at k me).pid }, k, true)

pub acquiresleep_resume : ℕ → ℕ → SleepLock → Kernel → SleepLock × Kernel × Bool
unfolding acquiresleep_test
acquiresleep_resume slot me l k = acquiresleep_test slot me l (sleep_end me k)

pub releasesleep : ℕ → ℕ → SleepLock → Kernel → SleepLock × Kernel
releasesleep slot me l k =
    (record { locked = false; pid = pos 0 }, wakeup (of_sleeplock slot) (some me) k)

module _ {ℓ} {A : Type ℓ} where
  -- `refcnt` is an unsigned int.
  abbrev pub more : Buf A → Buf A
  more x = record x { refcnt = (x.refcnt + 1) % 2 ^ 32 }

  abbrev pub less : Buf A → Buf A
  less x = record x { refcnt = (x.refcnt + (2 ^ 32 - 1)) % 2 ^ 32 }

  -- `binit` puts the buffers from `i` on in front of those before, over the rounds left.
  pub binit_from : ℕ → ℕ → A → List (Buf A) → List (Buf A)
  binit_from zero i a bufs = bufs
  binit_from (suc rounds) i a bufs = binit_from rounds (i + 1) a (
      record {
        slot = i;
        valid = false;
        dev = 0;
        blockno = 0;
        lock = initsleeplock;
        refcnt = 0;
        contents = a;
      }
      ∷ bufs)

  -- NBUF buffers
  pub binit : A → List (Buf A)
  unfolding binit_from
  binit a = binit_from 30 0 a []

  abbrev pub has : ℕ → ℕ → Buf A → Bool
  has dev blockno x = (x.dev == dev) && (x.blockno == blockno)

  -- The search of `bget` for the block: its slot, and the list with the reference counted.
  pub hit : ℕ → ℕ → List (Buf A) → Option (ℕ × List (Buf A))
  hit dev blockno [] = none
  hit dev blockno (x ∷ xs) =
      let rest = hit dev blockno xs in
      if has dev blockno x
      then some (x.slot, more x ∷ xs)
      else elim rest [ none ↦ none | some (s, ys) ↦ some (s, x ∷ ys) ]

  -- The search from the end for a buffer without references.
  pub recycle : ℕ → ℕ → List (Buf A) → Option (ℕ × List (Buf A))
  recycle dev blockno [] = none
  recycle dev blockno (x ∷ xs) = elim (recycle dev blockno xs) [
    | some (s, ys) ↦ some (s, x ∷ ys)
    | none ↦
        if x.refcnt == 0
        then some
            (x.slot, record x { dev = dev; blockno = blockno; valid = false; refcnt = 1 } ∷ xs)
        else none
  ]

  pub bget : ℕ → ℕ → List (Buf A) → Outcome (ℕ × List (Buf A))
  unfolding hit recycle
  bget dev blockno bufs = elim (hit dev blockno bufs) [
    | some r ↦ done r
    | none ↦ elim (recycle dev blockno bufs) [ some r ↦ done r | none ↦ panic ]
  ]

  -- `bread` once `bget` has the buffer with its lock.
  pub bread_end : (ℕ → ℕ → A) → Buf A → Buf A
  bread_end disk x =
      if x.valid then x else record x { valid = true; contents = disk x.dev x.blockno }

  -- What `bwrite` writes, if the caller holds the buffer.
  pub bwrite : ℤ → Buf A → Outcome (ℕ × ℕ × A)
  bwrite pid x = if holdingsleep x.lock pid then done (x.dev, x.blockno, x.contents) else panic

  -- The list without the buffer of a slot.
  pub unlink : ℕ → List (Buf A) → List (Buf A)
  unlink s [] = []
  unlink s (x ∷ xs) = if x.slot == s then xs else x ∷ unlink s xs

  -- A change of the buffer of a slot.
  pub change : ℕ → (Buf A → Buf A) → List (Buf A) → List (Buf A)
  change s f [] = []
  change s f (x ∷ xs) = if x.slot == s then f x ∷ xs else x ∷ change s f xs

  -- `brelse` after the lock is released; `x` is the buffer.
  pub brelse_end : Buf A → List (Buf A) → List (Buf A)
  unfolding unlink change
  brelse_end x bufs =
      if (less x).refcnt == 0 then less x ∷ unlink x.slot bufs else change x.slot less bufs

  pub bpin : ℕ → List (Buf A) → List (Buf A)
  unfolding change
  bpin s bufs = change s more bufs

  pub bunpin : ℕ → List (Buf A) → List (Buf A)
  unfolding change
  bunpin s bufs = change s less bufs
