-- ===== src/Fs/Path.antt =====
-- `skipelem` of kernel/fs.c. A path is the bytes of its string before the NUL, a name the bytes that `name` holds
-- before its NUL or its end.
pub mod Components
use aut_whuoslab.Prelude.{ℕ, ◌==◌, if◌then◌else◌, List, [], ◌∷◌, Option, none, some, take}

abbrev pub dirsiz : ℕ
dirsiz = 62

-- '/'
abbrev pub slash : ℕ
slash = 47

abbrev pub skip_slashes : List ℕ → List ℕ
skip_slashes [] = []
skip_slashes (c ∷ cs) = if c == slash then skip_slashes cs else c ∷ cs

-- The bytes before the next slash, and the rest.
abbrev pub element : List ℕ → List ℕ × List ℕ
element [] = ([], [])
element (c ∷ cs) = let (e, rest) = element cs in if c == slash then ([], c ∷ cs) else (c ∷ e, rest)

-- The name, and the path behind it.
abbrev pub skip_name : List ℕ → Option (List ℕ × List ℕ)
skip_name [] = none
skip_name (c ∷ cs) = let (e, rest) = element (c ∷ cs) in some (take dirsiz e, skip_slashes rest)

unfoldable pub skipelem : List ℕ → Option (List ℕ × List ℕ)
skipelem path = skip_name (skip_slashes path)
