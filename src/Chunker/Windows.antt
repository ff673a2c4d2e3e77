-- ===== src/Chunker/Windows.antt =====
-- Windows of lines: `simple_chunk` and the loop of `split_if_too_big`.
use mathlib.Core.List.{append-nil, append_assoc}
use goodgrep.Prelude.{
  ℕ, zero, suc, ◌+◌, ◌-◌, ◌≤◌, ◌<◌, ◌∙◌, min, ◌≡◌, refl, ap, sym, List, [], ◌∷◌, ◌++◌, Option, some,
  arith, inl, inr,
}
use goodgrep.Prelude.Tests.{leb, ltb, nat_key, if◌then◌else◌, Bool-cases}
use goodgrep.Prelude.Lists.{length, All, All-append, All-imp}
use goodgrep.Types.{Chunk, new_chunk, block}
use goodgrep.Text.{bytes, lines}
use goodgrep.Text.Trims.{ink}
use goodgrep.Text.LineText.{line_text, line_total, length-lines-line_text, length-lines_bound}
use goodgrep.Chunker.{
  max_chars, max_lines, stride_lines, slice_lines, split_content_by_chars, simple_loop,
  simple_chunk, file_context,
}
use goodgrep.Chunker.Ranges.{slice_lines-line_text}
use goodgrep.Chunker.Pieces.{texts, split_by_chars_impl-Pieces}

pub texts-append : (xs ys : List Chunk) → texts (xs ++ ys) ≡ texts xs ++ texts ys
texts-append [] ys = refl
texts-append (c ∷ xs) ys =
    ap (λ t. c.content ++ t) (texts-append xs ys)
    ∙ sym (append_assoc c.content (texts xs) (texts ys))

-- A chunk that is within the bounds.
abbrev pub IsBounded : ℕ → Chunk → Type 0
IsBounded max_count c = (bytes c.content ≤ max_chars) × (length (lines c.content) ≤ max_count)

-- The line `k` of a text is covered: some of the chunks, one behind the other, hold all characters
-- that are not blank of a range of lines with `k`, perhaps behind other text.
pub record Covers (content : List ℕ) (k : ℕ) (chunks : List Chunk) : Type 0 where
  pub before : List Chunk
  pub part : List Chunk
  pub after : List Chunk
  pub in_order : chunks ≡ before ++ (part ++ after)
  pub first : ℕ
  pub more : ℕ
  pub from_first : first ≤ k
  pub to_last : k ≤ first + more
  pub extra : List ℕ
  pub has_text : ink (texts part) ≡ extra ++ ink (line_text first more content)

pub Covers-later :
    (content : List ℕ) (k : ℕ) (xs ys : List Chunk)
    → Covers content k ys
    → Covers content k (xs ++ ys)
Covers-later content k xs ys c = record {
  before = xs ++ c.before;
  part = c.part;
  after = c.after;
  in_order = ap (λ zs. xs ++ zs) c.in_order ∙ sym (append_assoc xs c.before (c.part ++ c.after));
  first = c.first;
  more = c.more;
  from_first = c.from_first;
  to_last = c.to_last;
  extra = c.extra;
  has_text = c.has_text;
}

pub Covers-first :
    (content : List ℕ) (k : ℕ) (part rest : List Chunk) (first more : ℕ) (extra : List ℕ)
    → first ≤ k
    → k ≤ first + more
    → ink (texts part) ≡ extra ++ ink (line_text first more content)
    → Covers content k (part ++ rest)
Covers-first content k part rest first more extra from to same = record {
  before = [];
  part = part;
  after = rest;
  in_order = refl;
  first = first;
  more = more;
  from_first = from;
  to_last = to;
  extra = extra;
  has_text = same;
}

-- The window from the line `i`, and its range.
window_end : (i n : ℕ) → i < n → min (i + max_lines) n ≡ suc (i + (min (i + max_lines) n - suc i))
window_end i n h = omega arith

pub slice_window :
    (content : List ℕ) (i n : ℕ)
    → i < n
    → n ≤ line_total content
    → slice_lines content i (min (i + max_lines) n)
      ≡ some (line_text i (min (i + max_lines) n - suc i) content)
slice_window content i n h l =
    ap (slice_lines content i) (window_end i n h)
    ∙ slice_lines-line_text content i (min (i + max_lines) n - suc i) (omega arith)

pub window_has :
    (i k n : ℕ) → i ≤ k → k < i + max_lines → k < n → k ≤ i + (min (i + max_lines) n - suc i)
window_has i k n from near h = omega arith

pub few_lines : (m l i n : ℕ) → m ≤ l → l ≤ suc (min (i + max_lines) n - suc i) → m ≤ max_lines
few_lines m l i n h k = omega arith

-- The chunks of one window of `simple_chunk`.
abbrev window_chunks : List ℕ → ℕ → ℕ → List (List ℕ) → Option (List Chunk)
window_chunks sub_content i end_line stack =
    if leb (bytes sub_content) max_chars
    then some (new_chunk sub_content i end_line block stack ∷ [])
    else split_content_by_chars sub_content i stack

window_chunks_sound :
    (sub_content : List ℕ) (i end_line : ℕ) (stack : List (List ℕ))
    → (chunks : List Chunk) × (window_chunks sub_content i end_line stack ≡ some chunks)
      × (ink (texts chunks) ≡ ink sub_content)
      × All (IsBounded (length (lines sub_content))) chunks
unfolding split_content_by_chars
window_chunks_sound sub_content i end_line stack =
    elim (Bool-cases (leb (bytes sub_content) max_chars)) [
      | inl short ↦ (
        new_chunk sub_content i end_line block stack ∷ [],
        ground arith,
        ap ink (append-nil sub_content),
        ((ground arith, omega arith), tt),
      )
      | inr long ↦
          let (chunks, result, same, each) = split_by_chars_impl-Pieces sub_content i block stack in
          (
            chunks,
            ground (arith, result),
            same,
            All-imp _ _ chunks (λ c piece. (piece.1, piece.2)) each,
          )
    ]

module _ (content : List ℕ) (line_count : ℕ) (stack : List (List ℕ))
    (fits : line_count ≤ line_total content) where
  simple_loop_step :
      (fuel i : ℕ) (sub_content : List ℕ) (chunks rest : List Chunk)
      → i < line_count
      → slice_lines content i (min (i + max_lines) line_count) ≡ some sub_content
      → window_chunks sub_content i (min (i + max_lines) line_count) stack ≡ some chunks
      → simple_loop fuel (i + stride_lines) content line_count stack ≡ some rest
      → simple_loop (suc fuel) i content line_count stack ≡ some (chunks ++ rest)
  unfolding simple_loop
  simple_loop_step fuel i sub_content chunks rest h window found more =
      ground (arith, window, found, more)

  simple_loop_sound :
      (fuel i : ℕ)
      → line_count ≤ i + fuel
      → (chunks : List Chunk) × (simple_loop fuel i content line_count stack ≡ some chunks)
        × All (IsBounded max_lines) chunks
        × ((k : ℕ) → i ≤ k → k < line_count → Covers content k chunks)
  simple_loop_sound zero i h =
      ([], (unfold simple_loop in ground arith), tt, λ k from to. absurd (omega arith))
  simple_loop_sound (suc fuel) i h = elim (Bool-cases (ltb i line_count)) [
    | inr over ↦ (
      [],
      (unfold simple_loop in ground arith),
      tt,
      λ k from to. absurd (ground (arith, from, to, over)),
    )
    | inl inside ↦
        let inside_lt : i < line_count = ground (arith, inside) in
        let more = min (i + max_lines) line_count - suc i in
        let sub_content = line_text i more content in
        let (chunks, found, same, each) =
          window_chunks_sound sub_content i (min (i + max_lines) line_count) stack in
        let (rest, later, bounded, covers) =
          simple_loop_sound fuel (i + stride_lines) (omega arith) in
        (
          chunks ++ rest,
          simple_loop_step fuel i sub_content chunks rest inside_lt
              (slice_window content i line_count inside_lt fits) found later,
          All-append _ chunks rest
              (All-imp _ _ chunks
                (λ c b. (
                  b.0,
                  few_lines (length (lines c.content)) (length (lines sub_content)) i line_count b.1
                      (length-lines-line_text content i more),
                ))
                each)
              bounded,
          λ k from to. elim (Bool-cases (ltb k (i + stride_lines))) [
            | inl here ↦
                Covers-first content k chunks rest i more [] from
                  (window_has i k line_count from (ground (arith, here)) to) same
            | inr there ↦ Covers-later content k chunks rest (covers k (ground (arith, there)) to)
          ],
        )
  ]

pub simple_chunk_sound :
    (content path : List ℕ)
    → (chunks : List Chunk) × (simple_chunk content path ≡ some chunks)
      × All (IsBounded max_lines) chunks
      × ((k : ℕ) → k < length (lines content) → Covers content k chunks)
unfolding simple_chunk
simple_chunk_sound content path =
    let (chunks, result, bounded, covers) =
      simple_loop_sound content (length (lines content)) (file_context path ∷ [])
        (length-lines_bound content) (length (lines content)) 0 (omega arith) in
    (chunks, result, bounded, λ k h. covers k (omega arith) h)
