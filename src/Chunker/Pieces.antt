-- ===== src/Chunker/Pieces.antt =====
-- Cutting a text by bytes: `split_by_chars_impl`.
use goodgrep.Prelude.{
  ℕ, zero, suc, ◌+◌, ◌≤◌, ◌<◌, ◌∙◌, ◌≡◌, refl, ap, sym, false, List, [], ◌∷◌, ◌++◌, Option, some,
  arith, inl, inr,
}
use goodgrep.Prelude.Tests.{nat_key}
use goodgrep.Prelude.Lists.{length, filter-append, length-append, is_empty, All, List-cases}
use mathlib.Core.List.{append-nil}
use goodgrep.Types.{ChunkType, Chunk, new_chunk}
use goodgrep.Text.{bytes, trim_start, trim_end, split_at, floor_char_boundary, lines}
use goodgrep.Text.Cuts.{
  bytes-append, split_at-bytes, floor_char_boundary-prefix, floor_char_boundary-positive,
}
use goodgrep.Text.Counts.{length-lines_before, length-lines_behind}
use goodgrep.Text.Trims.{ink, is_dark, trim_start-suffix, trim_end-prefix}
use goodgrep.Chunker.{max_chars, split_loop, split_by_chars_impl}

-- The text of the chunks, one behind the other.
abbrev pub texts : List Chunk → List ℕ
texts [] = []
texts (c ∷ cs) = c.content ++ texts cs

-- A chunk of the type `chunk_type` that is not empty, and not too long in bytes or lines.
abbrev pub IsPiece : ℕ → ChunkType → Chunk → Type 0
IsPiece max_count chunk_type c =
    (is_empty c.content ≡ false)
    × (bytes c.content ≤ max_chars)
    × (length (lines c.content) ≤ max_count)
    × (c.chunk_type ≡ some chunk_type)

module _ (fuel : ℕ) (text : List ℕ) (ln : ℕ) (chunk_type : ChunkType)
    (context : List (List ℕ)) where
  split_loop_end : trim_start text ≡ [] → split_loop (suc fuel) text ln chunk_type context ≡ some []
  unfolding split_loop
  split_loop_end gone = ground (arith, gone)

  module _ (c : ℕ) (s pre post : List ℕ) where
    split_loop_blank :
        trim_start text ≡ c ∷ s
        → split_at (c ∷ s) (floor_char_boundary (c ∷ s) max_chars) ≡ some (pre, post)
        → trim_end pre ≡ []
        → split_loop (suc fuel) text ln chunk_type context
          ≡ split_loop fuel post ln chunk_type context
    unfolding split_loop
    split_loop_blank left cut blank = ground (arith, left, cut, blank)

    split_loop_piece :
        (d : ℕ) (t : List ℕ) (rest : List Chunk)
        → trim_start text ≡ c ∷ s
        → split_at (c ∷ s) (floor_char_boundary (c ∷ s) max_chars) ≡ some (pre, post)
        → trim_end pre ≡ d ∷ t
        → split_loop fuel post (ln + length (lines (d ∷ t))) chunk_type context ≡ some rest
        → split_loop (suc fuel) text ln chunk_type context
          ≡ some (new_chunk (d ∷ t) ln (ln + length (lines (d ∷ t))) chunk_type context ∷ rest)
    unfolding split_loop
    split_loop_piece d t rest left cut kept more = ground (arith, left, cut, kept, more)

-- The cut of a text that does not begin with a blank.
head_cut :
    (c : ℕ) (s : List ℕ)
    → (b : ℕ) × (pre : List ℕ) × (post : List ℕ) × (c ∷ s ≡ b ∷ pre ++ post)
      × (split_at (c ∷ s) (floor_char_boundary (c ∷ s) max_chars) ≡ some (b ∷ pre, post))
      × (bytes (b ∷ pre) ≤ max_chars)
head_cut c s =
    let (pre, post, parts, cut, small) = floor_char_boundary-prefix (c ∷ s) max_chars in
    elim (List-cases pre) [
      | inl gone ↦ absurd (
          ground
            (arith, ap bytes gone, cut, floor_char_boundary-positive c s max_chars (omega arith)))
      | inr (b, t, e) ↦ (
        b,
        t,
        post,
        parts ∙ ap (λ u. u ++ post) e,
        ap (split_at (c ∷ s)) cut
            ∙ ap (λ u. split_at u (bytes pre)) parts
            ∙ split_at-bytes pre post
            ∙ ap (λ u. some (u, post)) e,
        ground (arith, small, ap bytes e),
      )
    ]

-- What a cut into pieces returns.
abbrev pub Pieces : ℕ → ChunkType → List ℕ → Option (List Chunk) → Type 0
Pieces max_count chunk_type text result =
    (chunks : List Chunk) × (result ≡ some chunks)
    × (ink (texts chunks) ≡ ink text)
    × All (IsPiece max_count chunk_type) chunks

-- A text in parts: blanks, the text of a piece, blanks, and what is left.
module _ (text p t q post : List ℕ) (parts : text ≡ p ++ ((t ++ q) ++ post)) where
  ink-parts : ink p ≡ [] → ink q ≡ [] → ink text ≡ ink t ++ ink post
  ink-parts light end_light =
      ap ink parts
      ∙ filter-append is_dark p ((t ++ q) ++ post)
      ∙ ap (λ u. u ++ ink ((t ++ q) ++ post)) light
      ∙ filter-append is_dark (t ++ q) post
      ∙ ap (λ u. u ++ ink post) (filter-append is_dark t q ∙ ap (λ u. ink t ++ u) end_light)
      ∙ ap (λ u. u ++ ink post) (append-nil (ink t))

  length-parts : (b : ℕ) (pre : List ℕ) → b ∷ pre ≡ t ++ q → length post < length text
  length-parts b pre e = omega (
    arith,
    ap length parts,
    length-append p ((t ++ q) ++ post),
    length-append (t ++ q) post,
    ap length e,
  )

  lines-post : length (lines post) ≤ length (lines text)
  lines-post = ground (
    arith,
    ap (λ u. length (lines u)) parts,
    length-lines_behind p ((t ++ q) ++ post),
    length-lines_behind (t ++ q) post,
  )

  lines-piece : length (lines t) ≤ length (lines text)
  lines-piece = ground (
    arith,
    ap (λ u. length (lines u)) parts,
    length-lines_behind p ((t ++ q) ++ post),
    length-lines_before (t ++ q) post,
    length-lines_before t q,
  )

split_loop-Pieces :
    (fuel : ℕ) (text : List ℕ) (ln : ℕ) (chunk_type : ChunkType) (context : List (List ℕ))
    (max_count : ℕ)
    → length text ≤ fuel
    → length (lines text) ≤ max_count
    → Pieces max_count chunk_type text (split_loop fuel text ln chunk_type context)
split_loop-Pieces zero [] ln chunk_type context max_count short few =
    unfold split_loop trim_start in ([], refl, refl, tt)
split_loop-Pieces zero (c ∷ s) ln chunk_type context max_count short few = absurd (omega arith)
split_loop-Pieces (suc fuel) text ln chunk_type context max_count short few =
    let (p, start, light) = trim_start-suffix text in
    elim (List-cases (trim_start text)) [
      | inl gone ↦ (
        [],
        split_loop_end fuel text ln chunk_type context gone,
        ground (arith, ap ink start, filter-append is_dark p (trim_start text), light, ap ink gone),
        tt,
      )
      | inr (c, s, left) ↦
          let (b, pre, post, parts, cut, small) = head_cut c s in
          let (q, end_parts, end_light) = trim_end-prefix (b ∷ pre) in
          let whole = start ∙ ap (λ u. p ++ u) (left ∙ parts ∙ ap (λ u. u ++ post) end_parts) in
          let shorter = length-parts text p (trim_end (b ∷ pre)) q post whole b pre end_parts in
          let fewer = lines-post text p (trim_end (b ∷ pre)) q post whole in
          let same_ink = ink-parts text p (trim_end (b ∷ pre)) q post whole light end_light in
          elim (List-cases (trim_end (b ∷ pre))) [
            | inl blank ↦
                let (chunks, result, same, each) =
                  split_loop-Pieces fuel post ln chunk_type context max_count
                    (omega (arith, shorter)) (omega (arith, fewer)) in
                (
                  chunks,
                  split_loop_blank fuel text ln chunk_type context c s (b ∷ pre) post left cut blank
                      ∙ result,
                  same ∙ sym (same_ink ∙ ap (λ u. ink u ++ ink post) blank),
                  each,
                )
            | inr (d, t, kept) ↦
                let (chunks, result, same, each) =
                  split_loop-Pieces fuel post (ln + length (lines (d ∷ t))) chunk_type context
                    max_count (omega (arith, shorter)) (omega (arith, fewer)) in
                (
                  new_chunk (d ∷ t) ln (ln + length (lines (d ∷ t))) chunk_type context ∷ chunks,
                  split_loop_piece fuel text ln chunk_type context c s (b ∷ pre) post d t chunks
                      left cut kept result,
                  filter-append is_dark (d ∷ t) (texts chunks)
                      ∙ ap (λ u. ink (d ∷ t) ++ u) same
                      ∙ sym (same_ink ∙ ap (λ u. ink u ++ ink post) kept),
                  (
                    (
                      refl,
                      ground (
                        arith,
                        small,
                        ap bytes end_parts,
                        bytes-append (trim_end (b ∷ pre)) q,
                        ap bytes kept,
                      ),
                      ground (
                        arith,
                        lines-piece text p (trim_end (b ∷ pre)) q post whole,
                        few,
                        ap (λ u. length (lines u)) kept,
                      ),
                      refl,
                    ),
                    each,
                  ),
                )
          ]
    ]

-- Cutting a text by bytes never fails, and its fuel is enough: it gives chunks of at most
-- `max_chars` bytes, none of them empty and none of more lines than the text, which hold every
-- character of the text that is not blank, in order.
pub split_by_chars_impl-Pieces :
    (content : List ℕ) (start_line : ℕ) (chunk_type : ChunkType) (context : List (List ℕ))
    → Pieces
        (length (lines content))
        chunk_type
        content
        (split_by_chars_impl content start_line chunk_type context)
unfolding split_by_chars_impl
split_by_chars_impl-Pieces content start_line chunk_type context =
    split_loop-Pieces (length content) content start_line chunk_type context
      (length (lines content)) (omega arith) (omega arith)
