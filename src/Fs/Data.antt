-- ===== src/Fs/Data.antt =====
-- `writei` and `readi` of kernel/fs.c: the bytes of a file. The copy of the inode on the disk and the times of
-- the change and of the access are left out. `either_copyin`, which copies from a process or from the kernel, is the function `copy`: at
-- an offset of a block, from an address, a number of bytes, over a block's old bytes; it
-- says whether the copy succeeded and gives the block's new bytes.
use aut_whuoslab.Prelude.{
  ℕ, zero, suc, ◌+◌, ◌-◌, ◌*◌, ◌/◌, ◌%◌, ◌^◌, Bool, not, ◌||◌, ltb, ◌==◌, if◌then◌else◌, min, ◌∷◌,
  ℤ, pos, negsuc, minus_one, Outcome, done, ◌>>=◌,
}
use aut_whuoslab.Kalloc.{update}
use aut_whuoslab.Fs.{Content, maxfile, bmap}

abbrev pub bsize : ℕ
bsize = 4096

abbrev pub CopyIn : Type 0
CopyIn = ℕ → ℕ → ℕ → (ℕ → ℕ) → Bool × (ℕ → ℕ)

abbrev pub set_bytes : ℕ → (ℕ → ℕ) → Content → Content
set_bytes b d c = record c { store = record c.store { bytes = update c.store.bytes b d } }

abbrev pub log_block_write : ℕ → Content → Content
log_block_write b c = record c { store = record c.store { logged = b ∷ c.store.logged } }

-- The bytes of the round at `off` that `tot` leaves.
abbrev pub round_bytes : ℕ → ℕ → ℕ → ℕ
round_bytes off tot n = min (n - tot) (bsize - off % bsize)

-- The loop of `writei`: the number of bytes written. Each round writes a byte or more, so that `n` rounds are
-- enough.
unfoldable pub write_from : ℕ → CopyIn → ℕ → ℕ → ℕ → ℕ → Content → Outcome (ℕ × Content)
write_from zero copy off src tot n c = done (tot, c)
write_from (suc rounds) copy off src tot n c =
    let m = round_bytes off tot n in
    let round = bmap (off / bsize) c >>= λ a.
    let r = copy (off % bsize) src m (a.1.store.bytes a.0) in
    let c' = set_bytes a.0 r.1 a.1 in
    if a.0 == 0
    then done (tot, a.1)
    else if not r.0
    then done (tot, c')
    else write_from rounds copy (off + m) (src + m) (tot + m) n (log_block_write a.0 c') in
    if not (ltb tot n) then done (tot, c) else round

-- A `uint` as an `int`.
abbrev pub int_of : ℕ → ℤ
int_of n = if ltb n (2 ^ 31) then pos n else negsuc (2 ^ 32 - 1 - n)

-- The result, and the file's size and content. The sum `off + n` wraps around at 32 bits.
unfoldable pub writei : CopyIn → ℕ → ℕ → ℕ → ℕ → Content → Outcome (ℤ × ℕ × Content)
writei copy src off n size c =
    if ltb size off || ltb ((off + n) % 2 ^ 32) off
    then done (minus_one, size, c)
    else if ltb (maxfile * bsize) ((off + n) % 2 ^ 32)
    then done (minus_one, size, c)
    else (write_from n copy off src 0 n c >>= λ r.
        done (int_of r.0, if ltb size (off + r.0) then off + r.0 else size, r.1))

-- `either_copyout`: to an address, a number of bytes, from these bytes, over the receiver's memory.
abbrev pub CopyOut : Type 0
CopyOut = ℕ → ℕ → (ℕ → ℕ) → (ℕ → ℕ) → Bool × (ℕ → ℕ)

-- The loop of `readi`: the number of bytes read, or -1 as a `uint` if a copy failed.
unfoldable pub read_from :
    ℕ → CopyOut → ℕ → ℕ → ℕ → ℕ → (ℕ → ℕ) → Content → Outcome (ℕ × (ℕ → ℕ) × Content)
read_from zero copy off dst tot n mem c = done (tot, mem, c)
read_from (suc rounds) copy off dst tot n mem c =
    let m = round_bytes off tot n in
    let round = bmap (off / bsize) c >>= λ a.
    let r = copy dst m (λ i. a.1.store.bytes a.0 (off % bsize + i)) mem in
    if a.0 == 0
    then done (tot, mem, a.1)
    else if not r.0
    then done (2 ^ 32 - 1, r.1, a.1)
    else read_from rounds copy (off + m) (dst + m) (tot + m) n r.1 a.1 in
    if not (ltb tot n) then done (tot, mem, c) else round

-- The result, the receiver's memory and the file, for a file of `size` bytes.
unfoldable pub readi : CopyOut → ℕ → ℕ → ℕ → ℕ → (ℕ → ℕ) → Content → Outcome (ℤ × (ℕ → ℕ) × Content)
readi copy dst off n size mem c =
    let n' = if ltb size ((off + n) % 2 ^ 32) then size - off else n in
    if ltb size off || ltb ((off + n) % 2 ^ 32) off
    then done (pos 0, mem, c)
    else (read_from n' copy off dst 0 n' mem c >>= λ r. done (int_of r.0, r.1, r.2))
