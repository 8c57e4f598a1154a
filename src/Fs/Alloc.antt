-- ===== src/Fs/Alloc.antt =====
-- `balloc`: the block that it finds, and what it does to the disk.
use aut_whuoslab.Prelude.{
  ℕ, zero, suc, ◌+◌, ◌*◌, ◌/◌, ◌<◌, ◌≤◌, ◌≡◌, ◌≢◌, ◌∷◌, refl, sym, ◌⊎◌, inl, inr, true, false, not,
  ltb, if◌then◌else◌, Option, none, some, dec_lt, Bool-cases, arith,
}
use aut_whuoslab.Fs.{Store, bpb, bzero, free_bit, free_block, take_block, balloc}

-- Blocks `lo` to `hi - 1` are in use.
abbrev pub Used : ℕ → ℕ → Store → Type 0
Used lo hi s = (a : ℕ) → lo ≤ a → a < hi → s.bit a ≡ true

-- What a search from `lo` to `hi`, or to the end of the disk, finds: the first free block, or nothing.
abbrev pub Search : ℕ → ℕ → Store → Option ℕ → Type 0
Search lo hi s none = (a : ℕ) → lo ≤ a → a < hi → a < s.size → s.bit a ≡ true
Search lo hi s (some b) = (lo ≤ b) × (b < hi) × (b < s.size) × (s.bit b ≡ false) × Used lo b s

Search-suc :
    (lo hi : ℕ) (s : Store) (o : Option ℕ)
    → s.bit lo ≡ true
    → lo < hi
    → Search (lo + 1) hi s o
    → Search lo hi s o
Search-suc lo hi s none u l f = λ a la ha sz. elim (dec_lt lo a) [
  | yes m ↦ f a (omega arith) ha sz
  | no m ↦ let e : a ≡ lo = omega arith in rw e u
]
Search-suc lo hi s (some b) u l f = (
  omega (arith, f.0),
  f.1,
  f.2,
  f.3,
  λ a la lt. elim (dec_lt lo a) [
    | yes m ↦ f.4 a (omega arith) lt
    | no m ↦ let e : a ≡ lo = omega arith in rw e u
  ],
)

free_bit-Search :
    (left b bi lo hi : ℕ) (s : Store)
    → lo ≡ b + bi
    → hi ≡ lo + left
    → Search lo hi s (free_bit left b bi s)
unfolding free_bit
free_bit-Search zero b bi lo hi s e h = λ a l g z. absurd (omega arith)
free_bit-Search (suc left) b bi lo hi s e h = rw (sym e) (elim (dec_lt lo s.size) [
  | no out ↦ let n : ltb lo s.size ≡ false = ground arith in rw n (λ a l h z. absurd (omega arith))
  | yes inside ↦
      let n : ltb lo s.size ≡ true = ground arith in
      elim (Bool-cases (s.bit lo)) [
        | inl used ↦
            rw (n, used)
              (Search-suc lo hi s _ used (omega arith)
                (free_bit-Search left b (bi + 1) (lo + 1) hi s (omega arith) (omega arith)))
        | inr free ↦
            rw (n, free) (omega arith, omega arith, inside, free, λ a l g. absurd (omega arith))
      ]
])

-- A search goes on where another one found nothing.
Search-append :
    (lo mid hi : ℕ) (s : Store) (o r : Option ℕ)
    → lo ≤ mid
    → mid ≤ hi
    → Search lo mid s o
    → Search mid hi s r
    → Search lo hi s (elim o [ none ↦ r | some x ↦ some x ])
Search-append lo mid hi s none none l m f g =
    λ a la ha sz. elim (dec_lt a mid) [ yes k ↦ f a la k sz | no k ↦ g a (omega arith) ha sz ]
Search-append lo mid hi s none (some b) l m f g = (
  omega (arith, g.0),
  g.1,
  g.2,
  g.3,
  λ a la lt. elim (dec_lt a mid) [
    | yes k ↦ f a la k (omega (arith, g.2))
    | no k ↦ g.4 a (omega arith) lt
  ],
)
Search-append lo mid hi s (some b) r l m f g = (f.0, omega (arith, f.1), f.2, f.3, f.4)

-- A search that stops at the end of the disk.
Search-guard :
    (lo hi : ℕ) (s : Store) (o : Option ℕ)
    → Search lo hi s o
    → Search lo hi s (if not (ltb lo s.size) then none else o)
Search-guard lo hi s o f = elim (dec_lt lo s.size) [
  | no out ↦ let m : ltb lo s.size ≡ false = ground arith in rw m (λ a l h z. absurd (omega arith))
  | yes inside ↦ let m : ltb lo s.size ≡ true = ground arith in rw m f
]

free_block-Search : (n b hi : ℕ) (s : Store) → hi ≡ b + n * bpb → Search b hi s (free_block n b s)
unfolding free_block
free_block-Search zero b hi s e = λ a l h z. absurd (omega arith)
free_block-Search (suc n) b hi s e = Search-guard b hi s _ (
    Search-append b (b + bpb) hi s (free_bit bpb b 0 s) (free_block n (b + bpb) s) (omega arith)
      (omega arith) (free_bit-Search bpb b 0 b (b + bpb) s (omega arith) refl)
      (free_block-Search n (b + bpb) hi s (omega arith)))

-- Block `b` is taken: its bit alone is set, it holds zeros, as data and as an index block, the other blocks hold what
-- they held, and its block of the bitmap and then the block itself have been logged.
pub record Claimed (b : ℕ) (s s' : Store) : Type 0 where
  pub bit_set : s'.bit b ≡ true
  pub other_bits : (a : ℕ) → a ≢ b → s'.bit a ≡ s.bit a
  pub zero_bytes : (j : ℕ) → s'.bytes b j ≡ 0
  pub zero_entries : (j : ℕ) → s'.index b j ≡ 0
  pub other_blocks : (a : ℕ) → a ≢ b → (s'.bytes a ≡ s.bytes a) × (s'.index a ≡ s.index a)
  pub log : s'.logged ≡ b ∷ (b / bpb + s.bmapstart) ∷ s.logged
  pub superblock : (s'.size ≡ s.size) × (s'.bmapstart ≡ s.bmapstart)

take_block-Claimed : (b : ℕ) (s : Store) → Claimed b s (take_block b s)
unfolding bzero
take_block-Claimed b s = record {
  bit_set = ground arith;
  other_bits = λ a n. ground (arith, n);
  zero_bytes = λ j. ground arith;
  zero_entries = λ j. ground arith;
  other_blocks = λ a n. (ground (arith, n), ground (arith, n));
  log = refl;
  superblock = (refl, refl);
}

-- What `balloc` does: it takes the first free block of the disk, or returns 0 and changes nothing when every
-- block is in use.
abbrev pub Ballocs : Store → ℕ × Store → Type 0
Ballocs s r =
    ((r ≡ (0, s)) × Used 0 s.size s)
    ⊎ ((b : ℕ) × (r ≡ (b, take_block b s))
        × (b < s.size)
        × (s.bit b ≡ false)
        × Used 0 b s
        × Claimed b s r.1)

-- `balloc` takes the first block that is free in the bitmap: its bit alone is set, all its bytes are 0, the other
-- blocks keep what they hold, and the bitmap block and the block itself are logged; it returns 0, and changes nothing, only if every block of the disk is in
-- use.
pub balloc-Ballocs : (s : Store) → Ballocs s (balloc s)
unfolding balloc
balloc-Ballocs s =
    by_search (free_block (suc (s.size / bpb)) 0 s)
      (free_block-Search (suc (s.size / bpb)) 0 _ s refl)
  where
    by_search :
        (o : Option ℕ)
        → Search 0 (0 + suc (s.size / bpb) * bpb) s o
        → Ballocs s (elim o [ none ↦ (0, s) | some b ↦ (b, take_block b s) ])
    by_search none f = inl (refl, λ a l h. f a l (omega arith) h)
    by_search (some b) f = inr (b, refl, f.2, f.3, f.4, take_block-Claimed b s)
