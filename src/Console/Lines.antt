-- ===== src/Console/Lines.antt =====
-- The input as the whole lines and the line that is being typed.
use aut_whuoslab.Prelude.{
  ℕ, suc, ◌+◌, ◌%◌, ◌^◌, ◌≤◌, ◌<◌, ◌≡◌, refl, sym, ap, ap₂, ◌∙◌, subst, ◌≢◌, List, [], ◌∷◌, ◌++◌,
  All, arith, length, get_or,
}
use aut_whuoslab.Ring
use aut_whuoslab.Console.{input_buf_size, Cons, newline, dec, minus}

abbrev pub in_buf : ℕ → ℕ
in_buf r = r % input_buf_size

abbrev pub elems : ℕ → ℕ → List ℕ → List ℕ
elems = Ring.elems in_buf

-- The bytes for readers, and the bytes that can still be edited.
abbrev pub ready : Cons → List ℕ
ready c = elems (minus c.w c.r) c.r c.buf

abbrev pub edit : Cons → List ℕ
edit c = elems (minus c.e c.w) c.w c.buf

pub record Line : Type 0 where
  pub whole : List ℕ
  pub open_line : List ℕ

abbrev pub line : Cons → Line
line c = record { whole = ready c; open_line = edit c }

abbrev pub Unfinished : List ℕ → Type 0
Unfinished xs = All (λ x. x ≢ newline) xs

-- The bytes stand in the buffer, and the line that is being typed has no end yet.
pub record IsCons (c : Cons) : Type 0 where
  pub slots : length c.buf ≡ input_buf_size
  pub read_word : c.r < 2 ^ 32
  pub write_word : c.w < 2 ^ 32
  pub edit_word : c.e < 2 ^ 32
  pub fits : minus c.w c.r + minus c.e c.w ≤ input_buf_size
  pub unfinished : Unfinished (edit c)

pub length-elems : (n r : ℕ) (buf : List ℕ) → length (elems n r buf) ≡ n
length-elems = Ring.length-elems in_buf

-- All that was typed and not read.
pub total_lem : (c : Cons) → IsCons c → minus c.e c.r ≡ minus c.w c.r + minus c.e c.w
total_lem c v = omega (arith, v.read_word, v.write_word, v.edit_word, v.fits)

-- Also when the open line has just been ended.
pub elems-append :
    (c : Cons)
    → c.r < 2 ^ 32
    → c.w < 2 ^ 32
    → c.e < 2 ^ 32
    → minus c.w c.r + minus c.e c.w ≤ input_buf_size
    → elems (minus c.e c.r) c.r c.buf ≡ ready c ++ edit c
elems-append c h i j f =
    ap (λ n. elems n c.r c.buf) (omega (arith, h, i, j, f))
    ∙ Ring.elems-append in_buf (minus c.w c.r) (minus c.e c.w) c.r c.buf
    ∙ ap (λ xs. ready c ++ xs)
        (Ring.elems-mod in_buf (λ r s e. omega (arith, e)) (minus c.e c.w) (c.r + minus c.w c.r) c.w
          c.buf (omega (arith, h, i)))

abbrev pub init : List ℕ → List ℕ
init [] = []
init (x ∷ []) = []
init (x ∷ y ∷ xs) = x ∷ init (y ∷ xs)

pub init-snoc : (xs : List ℕ) (x : ℕ) → init (xs ++ x ∷ []) ≡ xs
init-snoc [] x = refl
init-snoc (y ∷ []) x = refl
init-snoc (y ∷ z ∷ xs) x = ap (λ l. y ∷ l) (init-snoc (z ∷ xs) x)

pub Unfinished-snoc :
    (xs : List ℕ) (x : ℕ) → Unfinished xs → x ≢ newline → Unfinished (xs ++ x ∷ [])
Unfinished-snoc [] x a p = (p, tt)
Unfinished-snoc (y ∷ xs) x a p = (a.0, Unfinished-snoc xs x a.1 p)

pub Unfinished-inv :
    (xs : List ℕ) (x : ℕ) → Unfinished (xs ++ x ∷ []) → Unfinished xs × (x ≢ newline)
Unfinished-inv [] x a = (tt, a.0)
Unfinished-inv (y ∷ xs) x a = let (b, p) = Unfinished-inv xs x a.1 in ((a.0, b), p)

-- The last byte is taken off the line.
module _ (c : Cons) (v : IsCons c) (n : ℕ) (some_left : minus c.e c.w ≡ suc n) where
  abbrev pub shorter : Cons
  shorter = record c { e = dec c.e }

  shorter-count : minus (dec c.e) c.w ≡ n
  shorter-count = omega (arith, v.write_word, v.edit_word, some_left)

  pub edit-shorter : edit c ≡ edit shorter ++ get_or c.buf (dec c.e % input_buf_size) 0 ∷ []
  edit-shorter =
      ap (λ k. elems k c.w c.buf) some_left
      ∙ Ring.elems-snoc in_buf n c.w c.buf
      ∙ ap₂ (λ k j. elems k c.w c.buf ++ get_or c.buf j 0 ∷ []) (sym shorter-count)
          (omega (arith, v.write_word, v.edit_word, some_left))

  pub shorter-IsCons : IsCons shorter
  shorter-IsCons = record {
    slots = v.slots;
    read_word = v.read_word;
    write_word = v.write_word;
    edit_word = omega arith;
    fits = omega (arith, shorter-count, some_left, v.fits);
    unfinished = (Unfinished-inv (edit shorter) _ (subst Unfinished edit-shorter v.unfinished)).0;
  }

  pub last-ne : get_or c.buf (dec c.e % input_buf_size) 0 ≢ newline
  last-ne = (Unfinished-inv (edit shorter) _ (subst Unfinished edit-shorter v.unfinished)).1
