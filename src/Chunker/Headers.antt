-- ===== src/Chunker/Headers.antt =====
-- The header line in front of a later part of a definition.
use mathlib.Core.List.{append_assoc}
use goodgrep.Prelude.{
  ℕ, suc, Bool, ◌≤◌, ◌≡◌, refl, ap, true, false, not, ◌&&◌, List, [], ◌∷◌, ◌++◌, Option, none, some,
  arith, inl, inr,
}
use goodgrep.Prelude.Tests.{ltb, if◌then◌else◌, Bool-cases}
use goodgrep.Prelude.Lists.{length, filter-append, is_empty, All}
use goodgrep.Types.{ChunkType}
use goodgrep.Text.{lines, trim}
use goodgrep.Text.Trims.{ink, is_dark}
use goodgrep.Text.Feeds.{HasNoFeed, lines-HasNoFeed, trim-HasNoFeed, length-lines_line}
use goodgrep.Chunker.{with_header, first_text, extract_header_line, is_block}

-- The header, if there is one, is a line.
abbrev pub IsHeader : Option (List ℕ) → Type 0
IsHeader none = Unit
IsHeader (some h) = HasNoFeed h

if-IsHeader :
    (b : Bool) (x y : Option (List ℕ)) → IsHeader x → IsHeader y → IsHeader (if b then x else y)
if-IsHeader true x y hx hy = hx
if-IsHeader false x y hx hy = hy

first_text-IsHeader : (ps : List (List ℕ)) → All HasNoFeed ps → IsHeader (first_text ps)
unfolding first_text
first_text-IsHeader [] a = tt
first_text-IsHeader (p ∷ ps) a =
    if-IsHeader (is_empty (trim p)) (first_text ps) (some (trim p)) (first_text-IsHeader ps a.1)
      (trim-HasNoFeed p a.0)

pub extract_header_line-IsHeader : (text : List ℕ) → IsHeader (extract_header_line text)
unfolding extract_header_line
extract_header_line-IsHeader text = first_text-IsHeader (lines text) (lines-HasNoFeed text)

pub length-lines-with_header :
    (h : Option (List ℕ)) (i : ℕ) (chunk_type : Option ChunkType) (content : List ℕ)
    → IsHeader h
    → length (lines (with_header h i chunk_type content)) ≤ suc (length (lines content))
unfolding with_header
length-lines-with_header none i chunk_type content line = omega arith
length-lines-with_header (some h) i chunk_type content line =
    ground (arith, length-lines_line h content line)

pub ink-with_header :
    (h : Option (List ℕ)) (i : ℕ) (chunk_type : Option ChunkType) (content : List ℕ)
    → (extra : List ℕ) × (ink (with_header h i chunk_type content) ≡ extra ++ ink content)
unfolding with_header
ink-with_header none i chunk_type content = ([], refl)
ink-with_header (some h) i chunk_type content =
    elim (Bool-cases (ltb 0 i && not (is_block chunk_type))) [
      | inl put ↦ (
        ink (h ++ b'\n' ∷ []),
        ground (
          arith,
          ap ink (append_assoc h (b'\n' ∷ []) content),
          filter-append is_dark (h ++ b'\n' ∷ []) content,
        ),
      )
      | inr kept ↦ ([], ground arith)
    ]
