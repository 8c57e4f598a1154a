-- ===== src/Fs/Tests.antt =====
-- A disk of 40 blocks, and runs of fs.c on it.
use aut_whuoslab.Prelude.{
  ℕ, ◌+◌, ◌≡◌, Bool, true, false, map, zero, suc, sym, ap, ◌∙◌, get_elem?, is_positive, pos, refl,
  inl, ltb, ◌==◌, if◌then◌else◌, List, [], ◌∷◌, Option, none, some, ◌>>=◌, Outcome, done, panic,
  arith,
}
use aut_whuoslab.Fs.{
  Store, Content, bzero, balloc, free_block, free_bit, bfree, root_entry, index_entry, bmap,
  free_entries, itrunc,
}
use aut_whuoslab.Fs.Inodes.{Dinode, Inode, Inodes, iget, idup, iupdate, ilock, iput, free_inode}
use aut_whuoslab.Fs.Unique.{Unique, Gets, iget-Gets}
use aut_whuoslab.Fs.Path.{skipelem}
use aut_whuoslab.Fs.Path.Components.{Skips, skipelem-Skips}
use aut_whuoslab.Fs.Alloc.{Ballocs, balloc-Ballocs}
use aut_whuoslab.Fs.Tree.{IsContent}
use aut_whuoslab.Fs.Bmap.{Bmapped, bmap-Bmapped}

-- Blocks 0 to 19 are in use.
abbrev pub small_disk : Store
small_disk = record {
  size = 40;
  bmapstart = 5;
  bit = λ b. ltb b 20;
  index = λ _ _. 9;
  bytes = λ _ _. 1;
  logged = [];
}

abbrev pub empty_file : Content
empty_file = record { addrs = λ _. 0; store = small_disk }

abbrev pub inode_only : ℕ → Option (List ℕ)
inode_only t = if t == 40 then some [] else none

pub empty_file-IsContent :
    IsContent inode_only (record empty_file { store = record small_disk { index = λ _ _. 0 } })
empty_file-IsContent = record {
  tree = record { nonnull = refl; linked = λ t i p l h. inl (ground arith) };
  rooted = refl;
  marked = λ t p l n. absurd (n (ground (arith, l)));
  boot = refl;
}

balloc-Ballocs_example : Ballocs small_disk (balloc small_disk)
balloc-Ballocs_example = balloc-Ballocs small_disk

bmap-Bmapped_example :
    Bmapped
      (record empty_file { store = record small_disk { index = λ _ _. 0 } })
      2000
      (bmap 2000 (record empty_file { store = record small_disk { index = λ _ _. 0 } }))
bmap-Bmapped_example = bmap-Bmapped inode_only _ 2000 empty_file-IsContent (omega arith)

first_free : (balloc small_disk).0 ≡ 20
unfolding balloc free_block free_bit
first_free = refl

-- Block 1200 of the file is below two levels of index blocks.
abbrev block_of : Outcome (ℕ × Content) → Outcome (ℕ × List ℕ)
block_of r = r >>= λ a. done (a.0, a.1.store.logged)

two_levels : block_of (bmap 1200 empty_file) ≡ done (22, 21 ∷ 22 ∷ 5 ∷ 20 ∷ 21 ∷ 5 ∷ 20 ∷ 5 ∷ [])
unfolding bmap root_entry index_entry balloc free_block free_bit bzero
two_levels = refl

too_large : bmap 1074791434 empty_file ≡ panic
unfolding bmap
too_large = refl

twice : bfree 19 small_disk >>= bfree 19 ≡ panic
unfolding bfree
twice = refl

-- The first two direct blocks are 18 and 19.
truncated :
    (itrunc (record empty_file { addrs = λ i. if ltb i 2 then 18 + i else 0 }) >>= λ c.
    done (c.store.logged))
    ≡ done (5 ∷ 5 ∷ [])
unfolding itrunc bfree free_entries
truncated = refl

-- A table of three entries: inode 7 in use twice, two free entries.
abbrev no_fields : Dinode
no_fields = record {
  kind = 0;
  major = 0;
  minor = 0;
  nlink = 0;
  size = 0;
  addrs = λ _. 0;
  mode = 0;
  uid = 0;
  atime = 0;
  mtime = 0;
  ctime = 0;
  blocks = 0;
}

abbrev free_entry : Inode
free_entry = record { dev = 1; inum = 7; ref = pos 0; valid = false; fields = no_fields }

abbrev seven : Inode
seven = record free_entry { ref = pos 2; valid = true; fields = record no_fields { kind = 2 } }

abbrev three_entries : Inodes
three_entries = record {
  table = free_entry ∷ seven ∷ free_entry ∷ [];
  on_disk = λ i. record no_fields { kind = 2; size = i };
  store = small_disk;
}

-- Entry 1 is the one in use.
in_use_one :
    (i : ℕ) (x : Inode)
    → get_elem? three_entries.table i ≡ some x
    → is_positive x.ref ≡ true
    → i ≡ 1
in_use_one i x g p = by_place i (ap ref_of g)
  where
    ref_of : Option Inode → Bool
    ref_of o = elim o [ none ↦ false | some q ↦ is_positive q.ref ]

    by_place : (n : ℕ) → ref_of (get_elem? three_entries.table n) ≡ is_positive x.ref → n ≡ 1
    by_place zero e = absurd cc
    by_place (suc zero) e = refl
    by_place (suc (suc zero)) e = absurd cc
    by_place (suc (suc (suc n))) e = absurd cc

three_entries-Unique : Unique three_entries.table
three_entries-Unique i j x y gx gy p h =
    in_use_one i x gx (ground (arith, h)) ∙ sym (in_use_one j y gy p)

iget-Gets_example : Gets 1 7 three_entries (iget 1 7 three_entries)
iget-Gets_example = iget-Gets 1 7 three_entries three_entries-Unique

abbrev slot_of : Outcome (ℕ × Inodes) → Outcome ℕ
slot_of r = r >>= λ a. done a.0

found_seven : slot_of (iget 1 7 three_entries) ≡ done 1
unfolding iget
found_seven = refl

found_free : slot_of (iget 1 8 three_entries) ≡ done 0
unfolding iget
found_free = refl

-- An entry that was just taken is read from the disk when it is locked.
locked :
    (iget 1 8 three_entries >>= λ a.
    ilock 0 (record free_entry { inum = 8; ref = pos 1 }) a.1 >>= λ s.
    done (map (λ (e : Inode). e.fields.size) s.table))
    ≡ done (8 ∷ 0 ∷ 0 ∷ [])
unfolding iget ilock
locked = refl

put_back : iput 1 seven (idup 1 (iupdate seven three_entries)) ≡ done (iupdate seven three_entries)
unfolding iput idup iupdate
put_back = refl

-- The last reference to an inode without links frees it.
freed :
    (iput 1
        (record seven { ref = pos 1 })
        (record three_entries { table = record seven { ref = pos 1 } ∷ [] })
      >>= λ s. done (s.on_disk 7).kind)
    ≡ done 0
unfolding iput free_inode itrunc bfree free_entries
freed = refl

-- "//a/b" and "///"
skipelem-Skips_example :
    Skips (47 ∷ 47 ∷ 97 ∷ 47 ∷ 98 ∷ []) (skipelem (47 ∷ 47 ∷ 97 ∷ 47 ∷ 98 ∷ []))
skipelem-Skips_example = skipelem-Skips (47 ∷ 47 ∷ 97 ∷ 47 ∷ 98 ∷ [])

first_name : skipelem (47 ∷ 47 ∷ 97 ∷ 47 ∷ 98 ∷ []) ≡ some (97 ∷ [], 98 ∷ [])
unfolding skipelem
first_name = refl

slashes : skipelem (47 ∷ 47 ∷ 47 ∷ []) ≡ none
unfolding skipelem
slashes = refl
