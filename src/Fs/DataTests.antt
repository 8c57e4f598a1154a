-- ===== src/Fs/DataTests.antt =====
-- Runs of `writei` and `readi` on a small disk.
use aut_whuoslab.Prelude.{
  ℕ, ◌+◌, ◌-◌, ◌%◌, ◌<◌, ◌≤◌, ◌≡◌, ◌⊎◌, ◌&&◌, leb, ltb, true, ℤ, pos, minus_one, refl,
  if◌then◌else◌, ◌>>=◌, Outcome, done, arith,
}
use aut_whuoslab.Fs.{Content, bmap, root_entry, index_entry, balloc, free_block, free_bit, bzero}
use aut_whuoslab.Fs.Alloc.{Used}
use aut_whuoslab.Fs.Tree.{top}
use aut_whuoslab.Fs.Data.{CopyIn, CopyOut, int_of, write_from, writei, read_from, readi}
use aut_whuoslab.Fs.Written.{byte_at, Copies}
use aut_whuoslab.Fs.Read.{Delivers, RoundFails}
use aut_whuoslab.Fs.RoundTrip.{grown_size, readi-writei}
use aut_whuoslab.Fs.Tests.{small_disk, empty_file, inode_only, empty_file-IsContent}

abbrev clean_file : Content
clean_file = record empty_file { store = record small_disk { index = λ _ _. 0 } }

-- The kernel copies from itself: every copy succeeds. Address `a` holds `a % 256`.
abbrev kernel_bytes : ℕ → ℕ
kernel_bytes a = a % 256

abbrev kernel_copy : CopyIn
kernel_copy o s m old =
    (true, λ i. if leb o i && ltb i (o + m) then kernel_bytes (s + (i - o)) else old i)

kernel-Copies : Copies kernel_bytes kernel_copy
kernel-Copies = record {
  outside = λ o s m old i h. ground (arith, h);
  inside = λ o s m old i e lo hi. ground (arith, lo, hi);
  by_place = λ o s m old other. refl;
}

-- Three bytes across the border of two blocks.
abbrev written_at : ℕ → Outcome (ℤ × ℕ × Content) → Outcome (ℤ × ℕ × ℕ)
written_at k r = r >>= λ a. done (a.0, a.1, byte_at a.2 k)

across : written_at 4096 (writei kernel_copy 1000 4095 3 5000 clean_file) ≡ done (pos 3, 5000, 233)
unfolding writei write_from bmap root_entry index_entry balloc free_block free_bit bzero
across = refl

behind_the_end : writei kernel_copy 1000 5001 3 5000 empty_file ≡ done (minus_one, 5000, empty_file)
unfolding writei
behind_the_end = refl

abbrev kernel_deliver : CopyOut
kernel_deliver dst m from mem =
    (true, λ i. if leb dst i && ltb i (dst + m) then from (i - dst) else mem i)

kernel-Delivers : Delivers kernel_deliver
kernel-Delivers = record {
  outside = λ dst m from mem i h. ground (arith, h);
  inside = λ dst m from mem i e lo hi. ground (arith, lo, hi);
  by_place = λ dst m from mem from' mem'. refl;
}

readi-writei_example :
    (total got : ℕ) × (after after' : Content) × (mem' : ℕ → ℕ) × (writei kernel_copy 1000 5000 8000
        6000 clean_file
      ≡ done (pos total, grown_size 5000 total 6000, after))
    × (readi kernel_deliver 70 5000 total (grown_size 5000 total 6000) kernel_bytes after
        ≡ done (int_of got, mem', after'))
    × (((int_of got ≡ pos got)
          × (got ≤ total)
          × ((i : ℕ) → 70 ≤ i → i < 70 + got → mem' i ≡ kernel_bytes (1000 + (i - 70)))
          × ((got ≡ total) ⊎ Used 0 (top after) after'.store))
        ⊎ ((int_of got ≡ minus_one) × RoundFails kernel_deliver 5000 70 0 total))
readi-writei_example =
    readi-writei kernel_bytes kernel_copy kernel_deliver 1000 70 5000 8000 6000 kernel_bytes
      inode_only clean_file kernel-Copies kernel-Delivers empty_file-IsContent (omega arith)
      (omega arith) (omega arith)

-- Two of three bytes are in the file.
abbrev delivered_at : ℕ → Outcome (ℤ × (ℕ → ℕ) × Content) → Outcome (ℤ × ℕ)
delivered_at i r = r >>= λ a. done (a.0, a.1 i)

short_read :
    delivered_at 71 (readi kernel_deliver 70 4998 3 5000 kernel_bytes clean_file) ≡ done (pos 2, 0)
unfolding readi read_from bmap root_entry index_entry balloc free_block free_bit bzero
short_read = refl
