-- ===== src/Chunker/Cuts.antt =====
-- Chunks of any size, cut by bytes.
use mathlib.Core.List.{append-nil}
use goodgrep.Prelude.{
  ℕ, ◌≤◌, ◌∙◌, ◌≡◌, refl, ap, sym, List, [], ◌∷◌, ◌++◌, Option, some, arith, inl, inr,
}
use goodgrep.Prelude.Tests.{ltb, nat_key, Bool-cases}
use goodgrep.Prelude.Lists.{length, filter-append, All, All-append, All-imp}
use goodgrep.Prelude.Panics.{flat_map}
use goodgrep.Types.{Chunk}
use goodgrep.Text.{bytes, lines}
use goodgrep.Text.Trims.{ink, is_dark}
use goodgrep.Chunker.{max_chars, split_by_chars, type_or_other, split_long}
use goodgrep.Chunker.Pieces.{texts, split_by_chars_impl-Pieces}
use goodgrep.Chunker.Windows.{texts-append, IsBounded}

-- What cutting chunks by bytes leaves of them: their text, in chunks of at most `max_count` lines.
abbrev pub Cut : ℕ → List ℕ → Option (List Chunk) → Type 0
Cut max_count text result =
    (out : List Chunk) × (result ≡ some out)
    × (ink (texts out) ≡ ink text)
    × All (IsBounded max_count) out

pub split_by_chars-Cut :
    (max_count : ℕ) (c : Chunk)
    → length (lines c.content) ≤ max_count
    → Cut max_count c.content (split_by_chars c)
unfolding split_by_chars
split_by_chars-Cut max_count c few =
    let (out, result, same, each) =
      split_by_chars_impl-Pieces c.content c.start_line (type_or_other c.chunk_type) c.context in
    (out, result, same, All-imp _ _ out (λ d piece. (piece.1, omega (arith, piece.2, few))) each)

pub split_long-Cut :
    (max_count : ℕ) (c : Chunk)
    → length (lines c.content) ≤ max_count
    → Cut max_count c.content (split_long c)
unfolding split_long
split_long-Cut max_count c few = elim (Bool-cases (ltb max_chars (bytes c.content))) [
  | inl long ↦
      let (out, result, same, each) = split_by_chars-Cut max_count c few in
      (out, ground (arith, result), same, each)
  | inr short ↦ (c ∷ [], ground arith, ap ink (append-nil c.content), ((ground arith, few), tt))
]

pub flat_map-Cut :
    (max_count : ℕ) (cs : List Chunk)
    → All (λ c. length (lines c.content) ≤ max_count) cs
    → Cut max_count (texts cs) (flat_map split_long cs)
flat_map-Cut max_count [] few = ([], refl, refl, tt)
flat_map-Cut max_count (c ∷ cs) few =
    let (first, here, same, each) = split_long-Cut max_count c few.0 in
    let (rest, later, alike, others) = flat_map-Cut max_count cs few.1 in
    (
      first ++ rest,
      ground (arith, here, later),
      ap ink (texts-append first rest)
          ∙ filter-append is_dark (texts first) (texts rest)
          ∙ ap (λ t. t ++ ink (texts rest)) same
          ∙ ap (λ t. ink c.content ++ t) alike
          ∙ sym (filter-append is_dark c.content (texts cs)),
      All-append _ first rest each others,
    )
