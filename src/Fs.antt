-- ===== src/Fs.antt =====
-- kernel/fs.c: the blocks of the disk and the blocks of a file. Blocks are read and written through the
-- buffer cache and the log; here the store holds what the buffers hold, and `logged` the blocks that were
-- handed to `log_block_write`, the last one first. The bitmap, the index blocks and the data blocks are
-- three views of the blocks: `bit b` is the bit of block `b`, `index b j` is entry `j` of index block `b`, and
-- `bytes b j` is byte `j` of block `b`. The panics of `log_write`, outside a transaction and on a full log, are those of
-- Log: a caller of what logs here is in a transaction with room in the log.
pub mod Alloc
pub mod Tree
pub mod Reach
pub mod Bmap
pub mod Data
pub mod Written
pub mod Write
pub mod Read
pub mod RoundTrip
pub mod Inodes
pub mod Scan
pub mod Unique
pub mod Path
mod Tests
mod DataTests
use aut_whuoslab.Prelude.{
  ℕ, zero, suc, ◌+◌, ◌-◌, ◌*◌, ◌/◌, ◌%◌, Bool, true, false, not, ltb, ◌==◌, if◌then◌else◌, List,
  ◌∷◌, Option, none, some, Outcome, done, panic, ◌>>=◌,
}
use aut_whuoslab.Kalloc.{update}

-- BPB: the bits of a block.
abbrev pub bpb : ℕ
bpb = 32768

abbrev pub ndirect : ℕ
ndirect = 10

abbrev pub nindirect : ℕ
nindirect = 1024

abbrev pub nindirect2 : ℕ
nindirect2 = nindirect * nindirect

abbrev pub nindirect3 : ℕ
nindirect3 = nindirect * nindirect * nindirect

abbrev pub maxfile : ℕ
maxfile = ndirect + nindirect + nindirect2 + nindirect3

-- `size` and `bmapstart` are of the superblock.
pub record Store : Type 0 where
  pub size : ℕ
  pub bmapstart : ℕ
  pub bit : ℕ → Bool
  pub index : ℕ → ℕ → ℕ
  pub bytes : ℕ → ℕ → ℕ
  pub logged : List ℕ

-- BBLOCK(b, sb)
abbrev pub bblock : ℕ → Store → ℕ
bblock b s = b / bpb + s.bmapstart

-- The block is cleared and logged, in a transaction with room in the log.
pub bzero : ℕ → Store → Store
bzero b s = record s {
  index = update s.index b (λ j. 0);
  bytes = update s.bytes b (λ j. 0);
  logged = b ∷ s.logged;
}

-- The inner loop of `balloc` at `bi`, with `left` bits of the bitmap block to go.
pub free_bit : ℕ → ℕ → ℕ → Store → Option ℕ
free_bit zero b bi s = none
free_bit (suc left) b bi s =
    let rest = free_bit left b (bi + 1) s in
    if not (ltb (b + bi) s.size) then none else if s.bit (b + bi) then rest else some (b + bi)

-- The outer loop at `b`, over the bitmap blocks left.
pub free_block : ℕ → ℕ → Store → Option ℕ
free_block zero b s = none
free_block (suc n) b s =
    let rest = free_block n (b + bpb) s in
    if not (ltb b s.size) then none else elim (free_bit bpb b 0 s) [ none ↦ rest | some x ↦ some x ]

-- The bit of a block is set in its bitmap block, and the block is cleared.
abbrev pub take_block : ℕ → Store → Store
take_block b s = bzero b (record s { bit = update s.bit b true; logged = bblock b s ∷ s.logged })

-- A block, or 0.
pub balloc : Store → ℕ × Store
balloc s = elim (free_block (suc (s.size / bpb)) 0 s) [
  | none ↦ (0, s)
  | some b ↦ (b, take_block b s)
]

pub bfree : ℕ → Store → Outcome Store
bfree b s =
    if not (s.bit b)
    then panic
    else done (record s { bit = update s.bit b false; logged = bblock b s ∷ s.logged })

-- An inode's block numbers, `ip->addrs`, and the disk.
pub record Content : Type 0 where
  pub addrs : ℕ → ℕ
  pub store : Store

-- `ip->addrs[i]`, with a new block if there is none.
pub root_entry : ℕ → Content → ℕ × Content
root_entry i c =
    let (b, s) = balloc c.store in
    if not (c.addrs i == 0)
    then (c.addrs i, c)
    else if b == 0
    then (0, record c { store = s })
    else (b, record { addrs = update c.addrs i b; store = s })

-- Entry `j` of index block `t`, with a new block if there is none.
pub index_entry : ℕ → ℕ → Content → ℕ × Content
index_entry t j c =
    let (b, s) = balloc c.store in
    let linked : Store = record s {
      index = update s.index t (update (s.index t) j b);
      logged = t ∷ s.logged;
    } in
    if not (c.store.index t j == 0)
    then (c.store.index t j, c)
    else if b == 0
    then (0, record c { store = s })
    else (b, record c { store = linked })

-- The next level down, unless the level above ran out of blocks.
abbrev pub then_entry : ℕ → ℕ × Content → ℕ × Content
then_entry j (t, c) = if t == 0 then (0, c) else index_entry t j c

-- The block of a file's block `bn`, allocated if need be; 0 if the disk is full.
pub bmap : ℕ → Content → Outcome (ℕ × Content)
bmap bn c =
    let b1 = bn - ndirect in
    let b2 = b1 - nindirect in
    let b3 = b2 - nindirect2 in
    if ltb bn ndirect
    then done (root_entry bn c)
    else if ltb b1 nindirect
    then done (then_entry b1 (root_entry ndirect c))
    else if ltb b2 nindirect2
    then done
        (then_entry (b2 % nindirect) (then_entry (b2 / nindirect) (root_entry (ndirect + 1) c)))
    else if ltb b3 nindirect3
    then done (
        then_entry (b3 % nindirect) (
          then_entry (b3 % nindirect2 / nindirect)
            (then_entry (b3 / nindirect2) (root_entry (ndirect + 2) c))))
    else panic

-- Frees block `b`, after what hangs below it, if there is one.
abbrev free_with : ℕ → Outcome Store → Store → Outcome Store
free_with b below s = if b == 0 then done s else (below >>= λ k. bfree b k)

-- The blocks in entries `j` on of index block `t`, with `n` entries to go, and the blocks below them in `level`
-- further levels of index blocks.
pub free_entries : ℕ → ℕ → ℕ → ℕ → Store → Outcome Store
free_entries level zero t j s = done s
free_entries zero (suc n) t j s =
    free_with (s.index t j) (done s) s >>= λ k. free_entries zero n t (j + 1) k
free_entries (suc level) (suc n) t j s =
    free_with (s.index t j) (free_entries level nindirect (s.index t j) 0 s) s >>= λ k.
    free_entries (suc level) n t (j + 1) k

-- A direct block of the inode, and an index block with `level` levels of index blocks below.
abbrev free_direct : ℕ → Content → Outcome Content
free_direct i c = free_with (c.addrs i) (done c.store) c.store >>= λ s.
    done (record { addrs = update c.addrs i 0; store = s })

abbrev free_indirect : ℕ → ℕ → Content → Outcome Content
free_indirect level i c =
    free_with (c.addrs i) (free_entries level nindirect (c.addrs i) 0 c.store) c.store >>= λ s.
    done (record { addrs = update c.addrs i 0; store = s })

-- The loop over the direct blocks from `i` on.
abbrev pub trunc_direct : ℕ → ℕ → Content → Outcome Content
trunc_direct zero i c = done c
trunc_direct (suc n) i c = free_direct i c >>= λ k. trunc_direct n (i + 1) k

-- The inode's blocks; its size, which `itrunc` also clears, is not here.
pub itrunc : Content → Outcome Content
itrunc c = trunc_direct ndirect 0 c >>= λ c1. free_indirect 0 ndirect c1 >>= λ c2.
    free_indirect 1 (ndirect + 1) c2 >>= λ c3. free_indirect 2 (ndirect + 2) c3
