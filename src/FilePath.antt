-- ===== src/FilePath.antt =====
-- The parts of a path as Rust's `std::path` reads them, over the bytes of a UTF-8 path on Unix.
pub mod Lines
use Prim.Native.Char.{code}
use goodgrep.Prelude.{
  ℕ, ◌+◌, String, Bool, true, false, ◌&&◌, not, List, [], ◌∷◌, Option, none, some,
}
use goodgrep.Prelude.Tests.{leb, ◌==◌, nat_key, if◌then◌else◌}

-- The bytes of a text, if it is ASCII.
abbrev pub codes : String → List ℕ
codes String.[] = []
codes (String.◌∷◌ first rest) = code first ∷ codes rest

abbrev pub to_lower : ℕ → ℕ
to_lower c = if leb b'A' c && leb c b'Z' then c + 32 else c

-- `eq_ignore_ascii_case`
unfoldable pub eq_lower : List ℕ → List ℕ → Bool
eq_lower [] [] = true
eq_lower [] (y ∷ ys) = false
eq_lower (x ∷ xs) [] = false
eq_lower (x ∷ xs) (y ∷ ys) = to_lower x == to_lower y && eq_lower xs ys

-- The pieces of a text between separators; the list is never empty.
unfoldable pub onto : ℕ → List (List ℕ) → List (List ℕ)
onto c [] = (c ∷ []) ∷ []
onto c (p ∷ ps) = (c ∷ p) ∷ ps

unfoldable pub split : ℕ → List ℕ → List (List ℕ)
unfolding onto
split sep [] = [] ∷ []
split sep (c ∷ cs) = let rest = split sep cs in if c == sep then [] ∷ rest else onto c rest

is_component : List ℕ → Bool
is_component [] = false
is_component (c ∷ []) = not (c == b'.')
is_component (c ∷ d ∷ cs) = true

last_component : List (List ℕ) → Option (List ℕ) → Option (List ℕ)
last_component [] found = found
last_component (p ∷ ps) found = last_component ps (if is_component p then some p else found)

is_parent : List ℕ → Bool
is_parent (a ∷ b ∷ []) = a == b'.' && b == b'.'
is_parent _ = false

-- `Path::file_name`: the last component, unless it is `..`.
pub file_name : List ℕ → Option (List ℕ)
unfolding last_component is_component is_parent split
file_name path = elim (last_component (split b'/' path) none) [
  | none ↦ none
  | some name ↦ if is_parent name then none else some name
]

last_piece : List (List ℕ) → Option (List ℕ)
last_piece [] = none
last_piece (p ∷ []) = none
last_piece (p ∷ q ∷ []) = some q
last_piece (p ∷ q ∷ r ∷ ps) = last_piece (q ∷ r ∷ ps)

after_dot : List (List ℕ) → Option (List ℕ)
unfolding last_piece
after_dot ([] ∷ q ∷ []) = none
after_dot ps = last_piece ps

-- `Path::extension`: what stands behind the last dot, unless the name begins with its only dot.
unfoldable pub extension : List ℕ → Option (List ℕ)
unfolding file_name after_dot split
extension path = elim (file_name path) [ none ↦ none | some name ↦ after_dot (split b'.' name) ]

unfoldable pub is_prefix : List ℕ → List ℕ → Bool
is_prefix [] ys = true
is_prefix (x ∷ xs) [] = false
is_prefix (x ∷ xs) (y ∷ ys) = x == y && is_prefix xs ys

reversed : List ℕ → List ℕ → List ℕ
reversed [] acc = acc
reversed (x ∷ xs) acc = reversed xs (x ∷ acc)

-- `str::starts_with` and `str::ends_with`, the affix first.
pub starts_with : String → String → Bool
unfolding is_prefix
starts_with prefix s = is_prefix (codes prefix) (codes s)

pub ends_with : String → String → Bool
unfolding is_prefix reversed
ends_with suffix s = is_prefix (reversed (codes suffix) []) (reversed (codes s) [])
