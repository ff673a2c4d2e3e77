-- ===== src/Chunker/Long.antt =====
-- Chunks that are too long: `split_if_too_big`.
use mathlib.Core.List.{append-nil}
use goodgrep.Prelude.{
  ℕ, zero, suc, ◌+◌, ◌-◌, ◌≤◌, ◌<◌, ◌∙◌, min, ◌≡◌, refl, subst, ap, sym, true, false, not, ◌||◌,
  Bool, List, [], ◌∷◌, ◌++◌, Option, some, arith, inl, inr,
}
use goodgrep.Prelude.Tests.{leb, ltb, ◌==◌, nat_key, Bool-cases}
use goodgrep.Prelude.Lists.{length, All, All-append, All-parts}
use goodgrep.Prelude.Panics.{flat_map, flat_map-append}
use goodgrep.Types.{Chunk, new_chunk}
use goodgrep.Text.{bytes, lines}
use goodgrep.Text.Trims.{ink}
use goodgrep.Text.LineText.{
  line_text, line_total, length-lines-line_text, length-lines_bound, line_text_all,
}
use goodgrep.Chunker.{
  max_chars, max_lines, stride_lines, slice_lines, with_header, extract_header_line, type_or_other,
  window_loop, split_long, split_if_too_big,
}
use goodgrep.Chunker.Pieces.{texts}
use goodgrep.Chunker.Windows.{
  IsBounded, Covers, Covers-first, Covers-later, slice_window, window_has, few_lines,
}
use goodgrep.Chunker.Headers.{
  extract_header_line-IsHeader, length-lines-with_header, ink-with_header,
}
use goodgrep.Chunker.Cuts.{split_by_chars-Cut, flat_map-Cut}

-- The windows of lines of a long chunk, and the lines that they cover: a short window at the end is
-- left out.
is_kept : ℕ → ℕ → Bool
is_kept i n = i == 0 || leb (i + 3) n

near_window :
    (k i n : ℕ)
    → (ltb k (i + stride_lines) || not (is_kept (i + stride_lines) n)) ≡ true
    → k < n
    → k < i + max_lines
unfolding is_kept
near_window k i n here to = ground arith

module _ (chunk : Chunk) (line_count : ℕ) (fits : line_count ≤ line_total chunk.content) where
  abbrev window_chunk : ℕ → List ℕ → Chunk
  window_chunk i content =
      new_chunk (with_header (extract_header_line chunk.content) i chunk.chunk_type content)
        (chunk.start_line + i) (chunk.start_line + min (i + max_lines) line_count)
        (type_or_other chunk.chunk_type) chunk.context

  window_loop_end : (fuel i : ℕ) → line_count ≤ i → window_loop fuel i chunk line_count ≡ some []
  unfolding window_loop
  window_loop_end zero i h = ground arith
  window_loop_end (suc fuel) i h = ground arith

  window_loop_skip :
      (fuel i : ℕ)
      → is_kept i line_count ≡ false
      → i < line_count
      → window_loop (suc fuel) i chunk line_count
        ≡ window_loop fuel (i + stride_lines) chunk line_count
  unfolding window_loop is_kept
  window_loop_skip fuel i h l = ground arith

  window_loop_step :
      (fuel i : ℕ) (content : List ℕ) (rest : List Chunk)
      → is_kept i line_count ≡ true
      → i < line_count
      → slice_lines chunk.content i (min (i + max_lines) line_count) ≡ some content
      → window_loop fuel (i + stride_lines) chunk line_count ≡ some rest
      → window_loop (suc fuel) i chunk line_count ≡ some (window_chunk i content ∷ rest)
  unfolding window_loop is_kept
  window_loop_step fuel i content rest h l window more = ground (arith, window, more)

  -- What is known of the windows from the line `i`.
  abbrev Windows : ℕ → Option (List Chunk) → Type 0
  Windows i result =
      (chunks : List Chunk) × (result ≡ some chunks)
      × All (λ c. length (lines c.content) ≤ suc max_lines) chunks
      × ((k : ℕ)
          → is_kept i line_count ≡ true
          → i ≤ k
          → k < line_count
          → Covers chunk.content k chunks)

  step-Windows :
      (fuel i : ℕ)
      → is_kept i line_count ≡ true
      → i < line_count
      → Windows (i + stride_lines) (window_loop fuel (i + stride_lines) chunk line_count)
      → Windows i (window_loop (suc fuel) i chunk line_count)
  step-Windows fuel i kept inside (rest, later, bounded, covers) =
      let more = min (i + max_lines) line_count - suc i in
      let content = line_text i more chunk.content in
      let header = extract_header_line chunk.content in
      let (extra, same) = ink-with_header header i chunk.chunk_type content in
      (
        window_chunk i content ∷ rest,
        window_loop_step fuel i content rest kept inside
            (slice_window chunk.content i line_count inside fits) later,
        (
          omega (
            arith,
            length-lines-with_header header i chunk.chunk_type content
                (extract_header_line-IsHeader chunk.content),
            few_lines (length (lines content)) (length (lines content)) i line_count (omega arith)
                (length-lines-line_text chunk.content i more),
          ),
          bounded,
        ),
        λ k kept_i from to.
            elim (Bool-cases
              (ltb k (i + stride_lines) || not (is_kept (i + stride_lines) line_count))) [
                | inl here ↦
                    Covers-first chunk.content k (window_chunk i content ∷ []) rest i more extra
                      from (window_has i k line_count from (near_window k i line_count here to) to)
                      (ap ink (append-nil _) ∙ same)
                | inr there ↦
                    Covers-later chunk.content k (window_chunk i content ∷ []) rest
                      (covers k (ground (arith, there)) (ground (arith, there)) to)
              ],
      )

  window_loop-Windows :
      (fuel i : ℕ) → line_count ≤ i + fuel → Windows i (window_loop fuel i chunk line_count)
  window_loop-Windows zero i h =
      ([], window_loop_end 0 i (omega arith), tt, λ k kept from to. absurd (omega arith))
  window_loop-Windows (suc fuel) i h = elim (Bool-cases (leb line_count i)) [
    | inl over ↦ (
      [],
      window_loop_end (suc fuel) i (ground (arith, over)),
      tt,
      λ k kept from to. absurd (ground (arith, over, from, to)),
    )
    | inr inside ↦ elim (Bool-cases (is_kept i line_count)) [
      | inl kept ↦
          step-Windows fuel i kept (ground (arith, inside))
            (window_loop-Windows fuel (i + stride_lines) (omega arith))
      | inr short ↦
          let (rest, later, bounded, covers) =
            window_loop-Windows fuel (i + stride_lines) (omega arith) in
          (
            rest,
            window_loop_skip fuel i short (ground (arith, inside)) ∙ later,
            bounded,
            λ k kept. absurd (ground (arith, kept, short)),
          )
    ]
  ]

-- Cutting the chunks by bytes covers what they cover.
split_long-Covers :
    (content : List ℕ) (k max_count : ℕ) (cs : List Chunk)
    → All (λ c. length (lines c.content) ≤ max_count) cs
    → Covers content k cs
    → (out : List Chunk) × (flat_map split_long cs ≡ some out)
      × All (IsBounded max_count) out
      × Covers content k out
split_long-Covers content k max_count cs few c =
    let few_parts = subst (All (λ d. length (lines d.content) ≤ max_count)) c.in_order few in
    let (few_before, few_rest) = All-parts _ c.before (c.part ++ c.after) few_parts in
    let (few_part, few_after) = All-parts _ c.part c.after few_rest in
    let (before, cut_before, same_before, bounded_before) =
      flat_map-Cut max_count c.before few_before in
    let (part, cut_part, same_part, bounded_part) = flat_map-Cut max_count c.part few_part in
    let (after, cut_after, same_after, bounded_after) = flat_map-Cut max_count c.after few_after in
    (
      before ++ (part ++ after),
      ap (flat_map split_long) c.in_order
          ∙ flat_map-append split_long c.before (c.part ++ c.after) before (part ++ after)
              cut_before (flat_map-append split_long c.part c.after part after cut_part cut_after),
      All-append _ before (part ++ after) bounded_before
          (All-append _ part after bounded_part bounded_after),
      Covers-later content k before (part ++ after) (
          Covers-first content k part after c.first c.more c.extra c.from_first c.to_last
            (same_part ∙ c.has_text)),
    )

Covers-whole :
    (content : List ℕ) (k : ℕ) (chunks : List Chunk)
    → k < length (lines content)
    → ink (texts chunks) ≡ ink content
    → Covers content k chunks
Covers-whole content k chunks h same = subst (Covers content k) (append-nil chunks) (
    Covers-first content k chunks [] 0 (line_total content) [] (omega arith)
      (omega (arith, length-lines_bound content))
      (same ∙ sym (ap ink (line_text_all content (line_total content) (omega arith)))))

split_if_too_big_long :
    (chunk : Chunk) (subs : List Chunk)
    → max_lines < length (lines chunk.content)
    → window_loop (length (lines chunk.content)) 0 chunk (length (lines chunk.content)) ≡ some subs
    → split_if_too_big chunk ≡ flat_map split_long subs
unfolding split_if_too_big
split_if_too_big_long chunk subs long found = ground (arith, long, found)

pub split_if_too_big-Covers :
    (chunk : Chunk) (k : ℕ)
    → k < length (lines chunk.content)
    → (out : List Chunk) × (split_if_too_big chunk ≡ some out)
      × All (IsBounded (suc max_lines)) out
      × Covers chunk.content k out
split_if_too_big-Covers chunk k h =
    elim (Bool-cases (leb (length (lines chunk.content)) max_lines)) [
      | inr long ↦
          let (subs, found, few, covers) =
            window_loop-Windows chunk (length (lines chunk.content))
              (length-lines_bound chunk.content) (length (lines chunk.content)) 0 (omega arith) in
          let (out, result, bounded, covered) =
            split_long-Covers chunk.content k (suc max_lines) subs few
              (covers k (unfold is_kept in refl) (omega arith) h) in
          (
            out,
            split_if_too_big_long chunk subs (ground (arith, long)) found ∙ result,
            bounded,
            covered,
          )
      | inl few ↦ elim (Bool-cases (leb (bytes chunk.content) max_chars)) [
        | inl short ↦ (
          chunk ∷ [],
          unfold split_if_too_big in ground (arith, few, short),
          ((ground (arith, short), ground (arith, few)), tt),
          Covers-whole chunk.content k (chunk ∷ []) h (ap ink (append-nil chunk.content)),
        )
        | inr wide ↦
            let (out, result, same, bounded) =
              split_by_chars-Cut (suc max_lines) chunk (ground (arith, few)) in
            (
              out,
              (unfold split_if_too_big in ground (arith, few, wide, result)),
              bounded,
              Covers-whole chunk.content k out h same,
            )
      ]
    ]

-- The same without a line.
pub split_if_too_big-IsBounded :
    (chunk : Chunk)
    → (out : List Chunk) × (split_if_too_big chunk ≡ some out) × All (IsBounded (suc max_lines)) out
split_if_too_big-IsBounded chunk =
    elim (Bool-cases (leb (length (lines chunk.content)) max_lines)) [
      | inr long ↦
          let (subs, found, few, covers) =
            window_loop-Windows chunk (length (lines chunk.content))
              (length-lines_bound chunk.content) (length (lines chunk.content)) 0 (omega arith) in
          let (out, result, same, bounded) = flat_map-Cut (suc max_lines) subs few in
          (out, split_if_too_big_long chunk subs (ground (arith, long)) found ∙ result, bounded)
      | inl few ↦ elim (Bool-cases (leb (bytes chunk.content) max_chars)) [
        | inl short ↦ (
          chunk ∷ [],
          unfold split_if_too_big in ground (arith, few, short),
          ((ground (arith, short), ground (arith, few)), tt),
        )
        | inr wide ↦
            let (out, result, same, bounded) =
              split_by_chars-Cut (suc max_lines) chunk (ground (arith, few)) in
            (out, unfold split_if_too_big in ground (arith, few, wide, result), bounded)
      ]
    ]

-- A chunk that is not too long stays as it is.
pub split_if_too_big_short :
    (chunk : Chunk) → IsBounded max_lines chunk → split_if_too_big chunk ≡ some (chunk ∷ [])
unfolding split_if_too_big
split_if_too_big_short chunk h = ground (arith, h.0, h.1)
