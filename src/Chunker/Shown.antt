-- ===== src/Chunker/Shown.antt =====
-- Every line of a text is in the chunks.
use mathlib.Core.List.{append-nil, append_assoc}
use goodgrep.Prelude.{
  ℕ, suc, ◌<◌, ◌∙◌, ◌≡◌, refl, ap, sym, subst, List, [], ◌++◌, Option, some, arith, inl, inr,
}
use goodgrep.Prelude.Tests.{leb, Bool-cases}
use goodgrep.Prelude.Lists.{length, filter-append, All}
use goodgrep.Types.{Chunk}
use goodgrep.Text.{lines}
use goodgrep.Text.Trims.{ink, is_dark}
use goodgrep.Text.LineText.{line_text, line_text_beyond}
use goodgrep.Text.Nested.{line_text_parts}
use goodgrep.Chunker.{max_lines, simple_chunk, split_if_too_big}
use goodgrep.Chunker.Pieces.{texts}
use goodgrep.Chunker.Windows.{IsBounded, Covers, simple_chunk_sound}
use goodgrep.Chunker.Long.{split_if_too_big-Covers, split_if_too_big-IsBounded}

-- The characters of the line `k` of a text that are not blank stand together in a run of chunks.
pub record Shows (content : List ℕ) (k : ℕ) (chunks : List Chunk) : Type 0 where
  pub before : List Chunk
  pub part : List Chunk
  pub after : List Chunk
  pub in_order : chunks ≡ before ++ (part ++ after)
  pub ahead : List ℕ
  pub behind : List ℕ
  pub has_line : ink (texts part) ≡ ahead ++ (ink (line_text k 0 content) ++ behind)

pub Shows-blank :
    (content : List ℕ) (k : ℕ) (chunks : List Chunk)
    → ink (line_text k 0 content) ≡ []
    → Shows content k chunks
Shows-blank content k chunks blank = record {
  before = [];
  part = [];
  after = chunks;
  in_order = refl;
  ahead = [];
  behind = [];
  has_line = sym (append-nil _ ∙ blank);
}

Shows-of_Covers :
    (content : List ℕ) (k : ℕ) (chunks : List Chunk)
    → Covers content k chunks
    → Shows content k chunks
Shows-of_Covers content k chunks c =
    let (a, b, parts) = line_text_parts content c.first c.more k c.from_first c.to_last in
    record {
      before = c.before;
      part = c.part;
      after = c.after;
      in_order = c.in_order;
      ahead = c.extra ++ ink a;
      behind = ink b;
      has_line =
          c.has_text
          ∙ ap (λ u. c.extra ++ u)
              (ap ink parts
                ∙ filter-append is_dark a (line_text k 0 content ++ b)
                ∙ ap (λ u. ink a ++ u) (filter-append is_dark (line_text k 0 content) b))
          ∙ sym (append_assoc c.extra (ink a) (ink (line_text k 0 content) ++ ink b));
    }

Shows-line :
    (content : List ℕ) (k : ℕ) (chunks : List Chunk)
    → (k < length (lines content) → Covers content k chunks)
    → Shows content k chunks
Shows-line content k chunks covers = elim (Bool-cases (leb (length (lines content)) k)) [
  | inl beyond ↦
      Shows-blank content k chunks (ap ink (line_text_beyond content k (ground (arith, beyond))))
  | inr within ↦ Shows-of_Covers content k chunks (covers (ground (arith, within)))
]

-- Chunking by lines never fails; each chunk has at most `max_chars` bytes and `max_lines` lines, and
-- the characters of each line of the file that are not blank stand together in a run of chunks.
pub simple_chunk-Shows :
    (content path : List ℕ)
    → (chunks : List Chunk) × (simple_chunk content path ≡ some chunks)
      × All (IsBounded max_lines) chunks
      × ((k : ℕ) → Shows content k chunks)
simple_chunk-Shows content path =
    let (chunks, result, bounded, covers) = simple_chunk_sound content path in
    (chunks, result, bounded, λ k. Shows-line content k chunks (covers k))

pub some_injective {ℓ} : {A : Type ℓ} (x y : A) (o : Option A) → o ≡ some x → o ≡ some y → x ≡ y
some_injective x y o h k = ground (arith, h, k)

-- Splitting a chunk never fails; each part has at most `max_chars` bytes, and at most one line, the
-- header, more than `max_lines`; and the characters of each line of the chunk that are not blank stand
-- together in a run of parts, although short windows are left out.
pub split_if_too_big-Shows :
    (chunk : Chunk)
    → (out : List Chunk) × (split_if_too_big chunk ≡ some out)
      × All (IsBounded (suc max_lines)) out
      × ((k : ℕ) → Shows chunk.content k out)
split_if_too_big-Shows chunk =
    let (out, result, bounded) = split_if_too_big-IsBounded chunk in
    (
      out,
      result,
      bounded,
      λ k. Shows-line chunk.content k out λ h.
          let (parts, same, few, covers) = split_if_too_big-Covers chunk k h in
          subst (Covers chunk.content k)
            (some_injective parts out (split_if_too_big chunk) same result) covers,
    )
