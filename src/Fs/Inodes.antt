-- ===== src/Fs/Inodes.antt =====
-- kernel/fs.c and kernel/file.h: the table of the inodes in use. An inode's fields on the disk are a `Dinode`,
-- kept in the table's entry while it is valid; its padding is left out. A pointer to an entry is its
-- number, and the sleep-lock of an entry is the caller's.
use aut_whuoslab.Prelude.{
  ℕ, suc, Bool, true, false, not, ◌&&◌, ◌==◌, if◌then◌else◌, List, [], ◌∷◌, Option, none, some,
  modify, ℤ, pos, int_inc, int_dec, int_eq, is_positive, is_zero, Outcome, done, panic, ◌>>=◌,
}
use aut_whuoslab.Kalloc.{update}
use aut_whuoslab.Fs.{Store, itrunc}

pub record Dinode : Type 0 where
  pub kind : ℕ
  pub major : ℕ
  pub minor : ℕ
  pub nlink : ℕ
  pub size : ℕ
  pub addrs : ℕ → ℕ
  pub mode : ℕ
  pub uid : ℕ
  pub atime : ℕ
  pub mtime : ℕ
  pub ctime : ℕ
  pub blocks : ℕ

pub record Inode : Type 0 where
  pub dev : ℕ
  pub inum : ℕ
  pub ref : ℤ
  pub valid : Bool
  pub fields : Dinode

pub record Inodes : Type 0 where
  pub table : List Inode
  pub on_disk : ℕ → Dinode
  pub store : Store

abbrev pub holds : ℕ → ℕ → Inode → Bool
holds dev inum ip = is_positive ip.ref && (ip.dev == dev && ip.inum == inum)

-- The loop of `iget` at entry `i`: the entry that holds the inode, and the first free one that it has passed.
abbrev pub scan : ℕ → ℕ → ℕ → Option ℕ → List Inode → Option ℕ × Option ℕ
scan dev inum i empty [] = (none, empty)
scan dev inum i empty (ip ∷ ips) =
    if holds dev inum ip
    then (some i, empty)
    else scan dev inum (suc i)
        (elim empty [ none ↦ if is_zero ip.ref then some i else none | some e ↦ some e ]) ips

abbrev pub one_more_ref : Inode → Inode
one_more_ref ip = record ip { ref = int_inc ip.ref }

abbrev pub fresh_entry : ℕ → ℕ → Inode → Inode
fresh_entry dev inum ip = record ip { dev = dev; inum = inum; ref = pos 1; valid = false }

unfoldable pub iget : ℕ → ℕ → Inodes → Outcome (ℕ × Inodes)
iget dev inum s =
    let (hit, empty) = scan dev inum 0 none s.table in
    elim hit [
      | some i ↦ done (i, record s { table = modify s.table i one_more_ref })
      | none ↦ elim empty [
        | none ↦ panic
        | some i ↦ done (i, record s { table = modify s.table i (fresh_entry dev inum) })
      ]
    ]

unfoldable pub idup : ℕ → Inodes → Inodes
idup i s = record s { table = modify s.table i one_more_ref }

-- The fields of entry `ip` go to the disk.
unfoldable pub iupdate : Inode → Inodes → Inodes
iupdate ip s = record s { on_disk = update s.on_disk ip.inum ip.fields }

-- `ilock` of entry `i` that holds `ip`, with the entry's sleep-lock.
unfoldable pub ilock : ℕ → Inode → Inodes → Outcome Inodes
ilock i ip s =
    let d = s.on_disk ip.inum in
    if not (is_positive ip.ref)
    then panic
    else if ip.valid
    then done s
    else if d.kind == 0
    then panic
    else done (record s { table = modify s.table i (λ e. record e { valid = true; fields = d }) })

-- An inode without links loses its blocks and its kind, here and on the disk.
unfoldable pub free_inode : ℕ → Inode → Inodes → Outcome Inodes
free_inode i ip s = itrunc (record { addrs = ip.fields.addrs; store = s.store }) >>= λ c.
    let d : Dinode = record ip.fields { kind = 0; size = 0; addrs = c.addrs } in
    done (record s {
      table = modify s.table i (λ e. record e { valid = false; fields = d });
      on_disk = update s.on_disk ip.inum d;
      store = c.store;
    })

abbrev pub drop_ref : ℕ → Inodes → Inodes
drop_ref i s = record s { table = modify s.table i (λ e. record e { ref = int_dec e.ref }) }

-- `iput` of entry `i` that holds `ip`.
unfoldable pub iput : ℕ → Inode → Inodes → Outcome Inodes
iput i ip s =
    if int_eq ip.ref (pos 1) && (ip.valid && ip.fields.nlink == 0)
    then (free_inode i ip s >>= λ k. done (drop_ref i k))
    else done (drop_ref i s)
