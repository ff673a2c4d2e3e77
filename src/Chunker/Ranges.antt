-- ===== src/Chunker/Ranges.antt =====
-- The byte range of a range of lines.
use goodgrep.Prelude.{
  ℕ, zero, suc, ◌+◌, ◌≤◌, ◌<◌, ◌≡◌, true, false, List, [], ◌∷◌, ◌++◌, some, arith, inl, inr,
}
use goodgrep.Prelude.Tests.{◌==◌, nat_key, if◌then◌else◌, Bool-cases}
use goodgrep.Text.{len_utf8, bytes, slice}
use goodgrep.Text.Cuts.{slice-bytes}
use goodgrep.Text.LineText.{
  line_text, line_total, line_total_cons, line_text_end, line_total_nil, line_text_nil,
  line_text_next, line_text_within, line_text_skip,
}
use goodgrep.Chunker.{scan_lines, line_range_to_byte_range, slice_lines}

module _ (c : ℕ) (s : List ℕ) (index line start_line end_line start_byte end_byte : ℕ) where
  scan_lines_stop :
      (c == b'\n') ≡ true
      → suc line ≡ end_line
      → scan_lines (c ∷ s) index line start_line end_line start_byte end_byte ≡ (start_byte, index)
  unfolding scan_lines
  scan_lines_stop feed last = ground arith

  scan_lines_feed :
      (c == b'\n') ≡ true
      → suc line < end_line
      → scan_lines (c ∷ s) index line start_line end_line start_byte end_byte
        ≡ scan_lines s
            (bytes (c ∷ []) + index)
            (suc line)
            start_line
            end_line
            (if suc line == start_line then suc index else start_byte)
            end_byte
  unfolding scan_lines
  scan_lines_feed feed more = ground arith

  scan_lines_text :
      (c == b'\n') ≡ false
      → scan_lines (c ∷ s) index line start_line end_line start_byte end_byte
        ≡ scan_lines s (bytes (c ∷ []) + index) line start_line end_line start_byte end_byte
  unfolding scan_lines
  scan_lines_text text = ground arith

bytes_feed : (c : ℕ) → (c == b'\n') ≡ true → len_utf8 c ≡ 1
unfolding len_utf8
bytes_feed c feed = ground arith

-- What is known of the scan of `s` from the line `line`, once the start of the range is found.
abbrev Ends : List ℕ → ℕ → ℕ → ℕ → ℕ → ℕ → ℕ → ℕ → Type 0
Ends s index line start_line end_line more start_byte end_byte =
    (r : List ℕ) × (s ≡ line_text 0 more s ++ r)
    × (scan_lines s index line start_line end_line start_byte end_byte
        ≡ (start_byte, bytes (line_text 0 more s) + index))

module _ (c : ℕ) (s : List ℕ) (index line start_line end_line more start_byte end_byte : ℕ) where
  text-Ends :
      (c == b'\n') ≡ false
      → Ends s (bytes (c ∷ []) + index) line start_line end_line more start_byte end_byte
      → Ends (c ∷ s) index line start_line end_line more start_byte end_byte
  text-Ends text (r, parts, result) = (
    r,
    ground (arith, parts, line_text_within c more s),
    ground (
      arith,
      result,
      line_text_within c more s,
      scan_lines_text c s index line start_line end_line start_byte end_byte,
    ),
  )

  feed-Ends :
      (c == b'\n') ≡ true
      → start_line ≤ line
      → suc line < end_line
      → Ends s (bytes (c ∷ []) + index) (suc line) start_line end_line more start_byte end_byte
      → Ends (c ∷ s) index line start_line end_line (suc more) start_byte end_byte
  feed-Ends feed h l (r, parts, result) = (
    r,
    ground (arith, parts, line_text_next c more s),
    ground (
      arith,
      result,
      line_text_next c more s,
      bytes_feed c feed,
      scan_lines_feed c s index line start_line end_line start_byte end_byte feed l,
    ),
  )

scan_lines-Ends :
    (s : List ℕ) (index line start_line end_line more start_byte end_byte : ℕ)
    → start_line ≤ line
    → end_line ≡ suc (line + more)
    → more < line_total s
    → end_byte ≡ bytes s + index
    → Ends s index line start_line end_line more start_byte end_byte
scan_lines-Ends [] index line start_line end_line zero start_byte end_byte h l m e = (
  [],
  ground (arith, line_text_nil 0 0),
  unfold scan_lines in ground (arith, e, line_text_nil 0 0),
)
scan_lines-Ends [] index line start_line end_line (suc more) start_byte end_byte h l m e =
    absurd (ground (arith, m, line_total_nil))
scan_lines-Ends (c ∷ s) index line start_line end_line zero start_byte end_byte h l m e =
    elim (Bool-cases (c == b'\n')) [
      | inr text ↦ text-Ends c s index line start_line end_line 0 start_byte end_byte text (
          scan_lines-Ends s (bytes (c ∷ []) + index) line start_line end_line 0 start_byte end_byte
            h l (ground (arith, line_total_cons c s)) (omega arith))
      | inl feed ↦ (
        c ∷ s,
        ground (arith, line_text_end c s feed),
        ground (
          arith,
          line_text_end c s feed,
          scan_lines_stop c s index line start_line end_line start_byte end_byte feed (omega arith),
        ),
      )
    ]
scan_lines-Ends (c ∷ s) index line start_line end_line (suc more) start_byte end_byte h l m e =
    elim (Bool-cases (c == b'\n')) [
      | inr text ↦
          text-Ends c s index line start_line end_line (suc more) start_byte end_byte text (
            scan_lines-Ends s (bytes (c ∷ []) + index) line start_line end_line (suc more)
              start_byte end_byte h l (ground (arith, line_total_cons c s)) (omega arith))
      | inl feed ↦
          feed-Ends c s index line start_line end_line more start_byte end_byte feed h (omega arith)
            (scan_lines-Ends s (bytes (c ∷ []) + index) (suc line) start_line end_line more
              start_byte end_byte (omega arith) (omega arith) (ground (arith, line_total_cons c s))
              (omega arith))
    ]

-- The same for a scan that is `skip + 1` lines ahead of the start of the range.
abbrev Ranges : List ℕ → ℕ → ℕ → ℕ → ℕ → ℕ → ℕ → ℕ → ℕ → Type 0
Ranges s index line start_line end_line skip more start_byte end_byte =
    (p : List ℕ) × (r : List ℕ) × (s ≡ p ++ (line_text (suc skip) more s ++ r))
    × (scan_lines s index line start_line end_line start_byte end_byte
        ≡ (bytes p + index, bytes (line_text (suc skip) more s) + (bytes p + index)))

module _ (c : ℕ) (s : List ℕ)
    (index line start_line end_line skip more start_byte end_byte : ℕ) where
  text-Ranges :
      (c == b'\n') ≡ false
      → Ranges s (bytes (c ∷ []) + index) line start_line end_line skip more start_byte end_byte
      → Ranges (c ∷ s) index line start_line end_line skip more start_byte end_byte
  text-Ranges text (p, r, parts, result) = (
    c ∷ p,
    r,
    ground (arith, parts, line_text_skip c skip more s),
    ground (
      arith,
      result,
      line_text_skip c skip more s,
      scan_lines_text c s index line start_line end_line start_byte end_byte,
    ),
  )

  feed-Ranges :
      (c == b'\n') ≡ true
      → suc line < start_line
      → suc line < end_line
      → Ranges s
          (bytes (c ∷ []) + index)
          (suc line)
          start_line
          end_line
          skip
          more
          start_byte
          end_byte
      → Ranges (c ∷ s) index line start_line end_line (suc skip) more start_byte end_byte
  feed-Ranges feed h l (p, r, parts, result) = (
    c ∷ p,
    r,
    ground (arith, parts, line_text_skip c (suc skip) more s),
    ground (
      arith,
      result,
      line_text_skip c (suc skip) more s,
      scan_lines_feed c s index line start_line end_line start_byte end_byte feed l,
    ),
  )

module _ (c : ℕ) (s : List ℕ) (index line start_line end_line more start_byte end_byte : ℕ) where
  start-Ranges :
      (c == b'\n') ≡ true
      → suc line ≡ start_line
      → suc line < end_line
      → Ends s (bytes (c ∷ []) + index) (suc line) start_line end_line more (suc index) end_byte
      → Ranges (c ∷ s) index line start_line end_line 0 more start_byte end_byte
  start-Ranges feed h l (r, parts, result) = (
    c ∷ [],
    r,
    ground (arith, parts, line_text_skip c 0 more s),
    ground (
      arith,
      result,
      line_text_skip c 0 more s,
      bytes_feed c feed,
      scan_lines_feed c s index line start_line end_line start_byte end_byte feed l,
    ),
  )

scan_lines-Ranges :
    (s : List ℕ) (index line start_line end_line skip more start_byte end_byte : ℕ)
    → start_line ≡ suc (line + skip)
    → end_line ≡ suc (start_line + more)
    → suc skip + more < line_total s
    → end_byte ≡ bytes s + index
    → Ranges s index line start_line end_line skip more start_byte end_byte
scan_lines-Ranges [] index line start_line end_line skip more start_byte end_byte h l m e =
    absurd (ground (arith, m, line_total_nil))
scan_lines-Ranges (c ∷ s) index line start_line end_line zero more start_byte end_byte h l m e =
    elim (Bool-cases (c == b'\n')) [
      | inr text ↦ text-Ranges c s index line start_line end_line 0 more start_byte end_byte text (
          scan_lines-Ranges s (bytes (c ∷ []) + index) line start_line end_line 0 more start_byte
            end_byte h l (ground (arith, line_total_cons c s)) (omega arith))
      | inl feed ↦
          start-Ranges c s index line start_line end_line more start_byte end_byte feed
            (omega arith) (omega arith)
            (scan_lines-Ends s (bytes (c ∷ []) + index) (suc line) start_line end_line more
              (suc index) end_byte (omega arith) (omega arith) (ground (arith, line_total_cons c s))
              (omega arith))
    ]
scan_lines-Ranges (c ∷ s) index line start_line end_line (suc skip) more start_byte end_byte h l m
      e =
    elim (Bool-cases (c == b'\n')) [
      | inr text ↦
          text-Ranges c s index line start_line end_line (suc skip) more start_byte end_byte text (
            scan_lines-Ranges s (bytes (c ∷ []) + index) line start_line end_line (suc skip) more
              start_byte end_byte h l (ground (arith, line_total_cons c s)) (omega arith))
      | inl feed ↦
          feed-Ranges c s index line start_line end_line skip more start_byte end_byte feed
            (omega arith) (omega arith)
            (scan_lines-Ranges s (bytes (c ∷ []) + index) (suc line) start_line end_line skip more
              start_byte end_byte (omega arith) l (ground (arith, line_total_cons c s))
              (omega arith))
    ]

range_ends :
    (content : List ℕ) (i more : ℕ)
    → i + more < line_total content
    → (p : List ℕ) × (r : List ℕ) × (content ≡ p ++ (line_text i more content ++ r))
      × (line_range_to_byte_range content i (suc (i + more))
          ≡ (bytes p, bytes (line_text i more content) + bytes p))
unfolding line_range_to_byte_range
range_ends content zero more h =
    let (r, parts, result) =
      scan_lines-Ends content 0 0 0 (suc more) more 0 (bytes content) (omega arith) (omega arith)
        (omega (arith, h)) (omega arith) in
    ([], r, parts, ground (arith, result))
range_ends content (suc i) more h =
    let (p, r, parts, result) =
      scan_lines-Ranges content 0 0 (suc i) (suc (suc i + more)) i more 0 (bytes content)
        (omega arith) (omega arith) (omega (arith, h)) (omega arith) in
    (p, r, parts, ground (arith, result))

slice_range :
    (content p q r : List ℕ) (range : ℕ × ℕ)
    → content ≡ p ++ (q ++ r)
    → range ≡ (bytes p, bytes q + bytes p)
    → slice content range.0 range.1 ≡ some q
slice_range content p q r range parts ends = ground (arith, parts, ends, slice-bytes p q r)

-- The slice of a range of lines is the text of these lines, with the line feeds between them: the byte
-- range never cuts a character, nor the line feed at its end.
pub slice_lines-line_text :
    (content : List ℕ) (i more : ℕ)
    → i + more < line_total content
    → slice_lines content i (suc (i + more)) ≡ some (line_text i more content)
unfolding slice_lines
slice_lines-line_text content i more h =
    let (p, r, parts, range) = range_ends content i more h in
    slice_range content p (line_text i more content) r
      (line_range_to_byte_range content i (suc (i + more))) parts range
