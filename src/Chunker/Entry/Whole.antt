-- ===== src/Chunker/Entry/Whole.antt =====
-- What `Chunker::chunk` returns.
use mathlib.Core.List.{append_assoc}
use goodgrep.Prelude.{
  ℕ, suc, ◌+◌, ◌-◌, ◌≤◌, ◌<◌, ◌∙◌, ◌≡◌, refl, ap, subst, Bool, true, false, not, ◌||◌, List, [],
  ◌∷◌, ◌++◌, Option, none, some, arith, inl, inr,
}
use goodgrep.Prelude.Tests.{leb, Bool-cases}
use goodgrep.Prelude.Lists.{length, All, All-append, All-imp, List-cases}
use goodgrep.Prelude.Results.{Result, ok, err}
use goodgrep.Prelude.Panics.{◌>>=◌, flat_map, flat_map-append}
use goodgrep.Types.{Chunk}
use goodgrep.Text.{lines}
use goodgrep.Text.Trims.{ink}
use goodgrep.Text.LineText.{line_text, line_text_beyond}
use goodgrep.Text.Nested.{line_text-line_text}
use goodgrep.Chunker.{max_lines, is_markdown, simple_chunk, split_if_too_big}
use goodgrep.Chunker.Windows.{IsBounded}
use goodgrep.Chunker.Long.{split_if_too_big-IsBounded, split_if_too_big_short}
use goodgrep.Chunker.Shown.{
  Shows, Shows-blank, simple_chunk-Shows, split_if_too_big-Shows, some_injective,
}
use goodgrep.Chunker.Markdown.{chunk_markdown, find_headings}
use goodgrep.Chunker.Markdown.Sections.{Holds, Found}
use goodgrep.Chunker.Markdown.Covered.{chunk_markdown-Found}
use goodgrep.Chunker.Entry.{raw_chunks, chunk}

split_each :
    (cs : List Chunk)
    → (out : List Chunk) × (flat_map split_if_too_big cs ≡ some out)
      × All (IsBounded (suc max_lines)) out
split_each [] = ([], refl, tt)
split_each (c ∷ cs) =
    let (first, here, bounded) = split_if_too_big-IsBounded c in
    let (rest, later, others) = split_each cs in
    (first ++ rest, ground (arith, here, later), All-append _ first rest bounded others)

split_short :
    (cs : List Chunk) → All (IsBounded max_lines) cs → flat_map split_if_too_big cs ≡ some cs
split_short [] h = refl
split_short (c ∷ cs) h = ground (arith, split_if_too_big_short c h.0, split_short cs h.1)

regroup : (a b p q c : List Chunk) → a ++ ((b ++ (p ++ q)) ++ c) ≡ (a ++ b) ++ (p ++ (q ++ c))
regroup a b p q c = simp append_assoc

whole_order :
    (content : List ℕ) (k : ℕ) (cs out : List Chunk) (held : Holds content k cs)
    (ahead parts after : List Chunk)
    → flat_map split_if_too_big cs ≡ some out
    → flat_map split_if_too_big held.before ≡ some ahead
    → split_if_too_big held.piece ≡ some parts
    → flat_map split_if_too_big held.after ≡ some after
    → out ≡ ahead ++ (parts ++ after)
whole_order content k cs out held ahead parts after result first here rest =
    some_injective out (ahead ++ (parts ++ after)) (flat_map split_if_too_big cs) result (
      ap (flat_map split_if_too_big) held.in_order
      ∙ flat_map-append split_if_too_big held.before (held.piece ∷ held.after) ahead
          (parts ++ after) first (ground (arith, here, rest)))

forth : (i k : ℕ) → i ≤ k → i + (k - i) ≡ k
forth i k h = omega arith

line_of_held :
    (content : List ℕ) (k : ℕ) (cs : List Chunk) (held : Holds content k cs)
    → line_text (k - held.first) 0 held.piece.content ≡ line_text k 0 content
line_of_held content k cs held =
    ap (line_text (k - held.first) 0) held.has_text
    ∙ line_text-line_text content held.first held.more (k - held.first)
        (omega (arith, held.from_first, held.to_last))
    ∙ ap (λ n. line_text n 0 content) (forth held.first k held.from_first)

-- A line of a chunk that is a range of lines is shown by the parts of the chunk.
split_each-Shows :
    (content : List ℕ) (k : ℕ) (cs out : List Chunk)
    → flat_map split_if_too_big cs ≡ some out
    → Found content k cs
    → Shows content k out
split_each-Shows content k cs out result (inl blank) = Shows-blank content k out blank
split_each-Shows content k cs out result (inr held) =
    let (ahead, cut_ahead, bounded_ahead) = split_each held.before in
    let (after, cut_after, bounded_after) = split_each held.after in
    let (parts, cut, bounded, shows) = split_if_too_big-Shows held.piece in
    let shown = shows (k - held.first) in
    record {
      before = ahead ++ shown.before;
      part = shown.part;
      after = shown.after ++ after;
      in_order =
          whole_order content k cs out held ahead parts after result cut_ahead cut cut_after
          ∙ ap (λ u. ahead ++ (u ++ after)) shown.in_order
          ∙ regroup ahead shown.before shown.part shown.after after;
      ahead = shown.ahead;
      behind = shown.behind;
      has_line =
          shown.has_line
          ∙ ap (λ u. shown.ahead ++ (ink u ++ shown.behind)) (line_of_held content k cs held);
    }

-- What chunking a whole file returns.
abbrev pub Whole : List ℕ → Option (List Chunk) → Type 0
Whole content result =
    (out : List Chunk) × (result ≡ some out)
    × All (IsBounded (suc max_lines)) out
    × ((k : ℕ) → Shows content k out)

simple-Whole :
    (content path : List ℕ) (raw : Option (List Chunk))
    → raw ≡ simple_chunk content path
    → Whole content (raw >>= flat_map split_if_too_big)
simple-Whole content path raw same =
    let (chunks, result, bounded, shows) = simple_chunk-Shows content path in
    (
      chunks,
      ground (arith, same, result, split_short chunks bounded),
      All-imp _ _ chunks (λ c b. (b.0, omega (arith, b.1))) bounded,
      shows,
    )

Found-Whole :
    (content : List ℕ) (raw : Option (List Chunk)) (chunks : List Chunk)
    → raw ≡ some chunks
    → ((k : ℕ) → k < length (lines content) → Found content k chunks)
    → Whole content (raw >>= flat_map split_if_too_big)
Found-Whole content raw chunks result found =
    let (out, cut, bounded) = split_each chunks in
    (
      out,
      ground (arith, result, cut),
      bounded,
      λ k. elim (Bool-cases (leb (length (lines content)) k)) [
        | inl beyond ↦
            Shows-blank content k out (ap ink (line_text_beyond content k (ground (arith, beyond))))
        | inr within ↦ split_each-Shows content k chunks out cut (found k (ground (arith, within)))
      ],
    )

module _ (captures : List ℕ → Option (List ℕ × List ℕ)) (content path : List ℕ) where
  chunk_markdown_plain :
      find_headings captures (lines content) 0 none ≡ []
      → chunk_markdown captures content path ≡ simple_chunk content path
  unfolding chunk_markdown
  chunk_markdown_plain gone = ground (arith, gone)

  markdown-Whole :
      Whole content (chunk_markdown captures content path >>= flat_map split_if_too_big)
  markdown-Whole = elim (List-cases (find_headings captures (lines content) 0 none)) [
    | inl gone ↦
        simple-Whole content path (chunk_markdown captures content path) (chunk_markdown_plain gone)
    | inr (first, rest, headings) ↦
        let (chunks, result, found) =
          chunk_markdown-Found captures content path first rest headings in
        Found-Whole content (chunk_markdown captures content path) chunks result found
  ]

-- Chunks are returned, and they are within the bounds.
abbrev pub Bounded : Option (List Chunk) → Type 0
Bounded result = (out : List Chunk) × (result ≡ some out) × All (IsBounded (suc max_lines)) out

Bounded-of_Whole :
    (content : List ℕ) (result : Option (List Chunk)) → Whole content result → Bounded result
Bounded-of_Whole content result (out, same, bounded, shows) = (out, same, bounded)

-- Whether tree-sitter gave chunks.
abbrev pub has_chunks {κ} : {E : Type κ} → Result E (Option (List Chunk)) → Bool
has_chunks (ok (some c)) = true
has_chunks _ = false

module _ {E : Type 0} (captures : List ℕ → Option (List ℕ × List ℕ)) where
  raw_chunks_markdown :
      (parsed : Result E (Option (List Chunk))) (content path : List ℕ)
      → is_markdown path ≡ true
      → chunk_markdown captures content path ≡ raw_chunks captures parsed content path
  unfolding raw_chunks
  raw_chunks_markdown parsed content path h = ground (arith, h)

  raw_chunks_simple :
      (parsed : Result E (Option (List Chunk))) (content path : List ℕ)
      → is_markdown path ≡ false
      → has_chunks parsed ≡ false
      → raw_chunks captures parsed content path ≡ simple_chunk content path
  unfolding raw_chunks
  raw_chunks_simple (ok (some c)) content path h l = absurd (ground (arith, l))
  raw_chunks_simple (ok none) content path h l = ground (arith, h)
  raw_chunks_simple (err e) content path h l = ground (arith, h)

  raw_chunks_parsed :
      (parsed : Result E (Option (List Chunk))) (c : List Chunk) (content path : List ℕ)
      → parsed ≡ ok (some c)
      → is_markdown path ≡ false
      → raw_chunks captures parsed content path ≡ some c
  unfolding raw_chunks
  raw_chunks_parsed parsed c content path e h = ground (arith, e, h)

  -- A Markdown file, and a file without chunks from tree-sitter, which may have failed, is chunked
  -- without failing: every chunk has at most `max_chars` bytes and at most one line more than
  -- `max_lines`, and the characters of each line of the file that are not blank stand together in a run
  -- of chunks.
  pub chunk-Whole :
      (parsed : Result E (Option (List Chunk))) (content path : List ℕ)
      → (is_markdown path || not (has_chunks parsed)) ≡ true
      → Whole content (chunk captures parsed content path)
  unfolding chunk
  chunk-Whole parsed content path h = elim (Bool-cases (is_markdown path)) [
    | inl markdown ↦
        subst (λ raw. Whole content (raw >>= flat_map split_if_too_big))
          (raw_chunks_markdown parsed content path markdown) (markdown-Whole captures content path)
    | inr code ↦
        simple-Whole content path (raw_chunks captures parsed content path)
          (raw_chunks_simple parsed content path code (ground (arith, h, code)))
  ]

  chunk_parsed :
      (parsed : Result E (Option (List Chunk))) (c : List Chunk) (content path : List ℕ)
      → parsed ≡ ok (some c)
      → is_markdown path ≡ false
      → Bounded (chunk captures parsed content path)
  unfolding chunk
  chunk_parsed parsed c content path e h =
      let (out, cut, bounded) = split_each c in
      (out, ground (arith, raw_chunks_parsed parsed c content path e h, cut), bounded)

  -- Whatever tree-sitter does, failing included, chunking a file gives chunks, each of at most
  -- `max_chars` bytes and at most one line more than `max_lines`.
  pub chunk-Bounded :
      (parsed : Result E (Option (List Chunk))) (content path : List ℕ)
      → Bounded (chunk captures parsed content path)
  chunk-Bounded (err e) content path =
      Bounded-of_Whole content _ (chunk-Whole (err e) content path (ground arith))
  chunk-Bounded (ok none) content path =
      Bounded-of_Whole content _ (chunk-Whole (ok none) content path (ground arith))
  chunk-Bounded (ok (some c)) content path = elim (Bool-cases (is_markdown path)) [
    | inl markdown ↦
        Bounded-of_Whole content _
          (chunk-Whole (ok (some c)) content path (ground (arith, markdown)))
    | inr code ↦ chunk_parsed (ok (some c)) c content path refl code
  ]
