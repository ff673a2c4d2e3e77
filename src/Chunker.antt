-- ===== src/Chunker.antt =====
-- Tools/ggrep/src/chunker/mod.rs: a file is cut into chunks by lines, and long chunks by bytes.
-- A panic is `none`, and so is a loop that is out of fuel.
pub mod Ranges
pub mod Pieces
pub mod Windows
pub mod Headers
pub mod Cuts
pub mod Long
pub mod Shown
pub mod Entry
pub mod Examples
pub mod Markdown
use goodgrep.Prelude.{
  ℕ, zero, suc, ◌+◌, ◌-◌, min, max, Bool, true, false, not, ◌&&◌, ◌||◌, List, [], ◌∷◌, ◌++◌, map,
  Option, none, some,
}
use goodgrep.Prelude.Tests.{ltb, leb, ◌==◌, nat_key, if◌then◌else◌}
use goodgrep.Prelude.Lists.{length, is_empty}
use goodgrep.Prelude.Results.{Result, ok, err}
use goodgrep.Prelude.Panics.{◌>>=◌, flat_map}
use goodgrep.FilePath.{codes, eq_lower, extension}
use goodgrep.Types.{ChunkType, Chunk, new_chunk, block, other}
use goodgrep.Text.{bytes, trim_start, trim_end, trim, split_at, slice, floor_char_boundary, lines}

abbrev pub max_lines : ℕ
max_lines = 75

abbrev pub max_chars : ℕ
max_chars = 2000

abbrev pub overlap_lines : ℕ
overlap_lines = 10

abbrev pub stride_lines : ℕ
stride_lines = max (max_lines - overlap_lines) 1

unfoldable pub is_markdown : List ℕ → Bool
is_markdown path = elim (extension path) [
  | none ↦ false
  | some ext ↦
      eq_lower ext (codes "md") || eq_lower ext (codes "markdown") || eq_lower ext (codes "mmd")
]

-- The loop over the positions of the line feeds; it stops at the end of the range.
unfoldable pub scan_lines : List ℕ → ℕ → ℕ → ℕ → ℕ → ℕ → ℕ → ℕ × ℕ
scan_lines [] index current_line start_line end_line start_byte end_byte = (start_byte, end_byte)
scan_lines (c ∷ s) index current_line start_line end_line start_byte end_byte =
    let is_feed = c == b'\n' in
    let line = if is_feed then suc current_line else current_line in
    let start = if is_feed && line == start_line then suc index else start_byte in
    let rest = scan_lines s (bytes (c ∷ []) + index) line start_line end_line start end_byte in
    if is_feed && line == end_line then (start_byte, index) else rest

unfoldable pub line_range_to_byte_range : List ℕ → ℕ → ℕ → ℕ × ℕ
line_range_to_byte_range content start_line end_line =
    scan_lines content 0 0 start_line end_line 0 (bytes content)

-- `content.slice(start_byte..end_byte)` of a range of lines.
unfoldable pub slice_lines : List ℕ → ℕ → ℕ → Option (List ℕ)
slice_lines content start_line end_line =
    let (start_byte, end_byte) = line_range_to_byte_range content start_line end_line in
    slice content start_byte end_byte

-- The loop of `split_by_chars_impl`.
unfoldable pub split_loop : ℕ → List ℕ → ℕ → ChunkType → List (List ℕ) → Option (List Chunk)
split_loop zero text ln chunk_type context = if is_empty (trim_start text) then some [] else none
split_loop (suc fuel) text ln chunk_type context =
    let iter = trim_start text in
    elim (is_empty iter) [
      | true ↦ some []
      | false ↦ do
        (pre, post) ← split_at iter (floor_char_boundary iter max_chars)
        let trimmed = trim_end pre
        let end_line = ln + length (lines trimmed)
        elim (is_empty trimmed) [
          | true ↦ split_loop fuel post ln chunk_type context
          | false ↦ split_loop fuel post end_line chunk_type context >>= λ rest.
              some (new_chunk trimmed ln end_line chunk_type context ∷ rest)
        ]
    ]

unfoldable pub split_by_chars_impl : List ℕ → ℕ → ChunkType → List (List ℕ) → Option (List Chunk)
split_by_chars_impl content start_line chunk_type context =
    split_loop (length content) content start_line chunk_type context

abbrev pub type_or_other : Option ChunkType → ChunkType
type_or_other none = other
type_or_other (some t) = t

unfoldable pub split_by_chars : Chunk → Option (List Chunk)
split_by_chars chunk =
    split_by_chars_impl chunk.content chunk.start_line (type_or_other chunk.chunk_type)
      chunk.context

unfoldable pub split_content_by_chars : List ℕ → ℕ → List (List ℕ) → Option (List Chunk)
split_content_by_chars input start_line context = split_by_chars_impl input start_line block context

abbrev pub file_context : List ℕ → List ℕ
file_context path = codes "File: " ++ path

-- The loop of `simple_chunk` over windows of lines.
unfoldable pub simple_loop : ℕ → ℕ → List ℕ → ℕ → List (List ℕ) → Option (List Chunk)
simple_loop zero i content line_count stack = if ltb i line_count then none else some []
simple_loop (suc fuel) i content line_count stack =
    let end_line = min (i + max_lines) line_count in
    if not (ltb i line_count) then some [] else if end_line - i == 0 then some [] else do
      sub_content ← slice_lines content i end_line
      chunks ←
          if leb (bytes sub_content) max_chars
          then some (new_chunk sub_content i end_line block stack ∷ [])
          else split_content_by_chars sub_content i stack
      rest ← simple_loop fuel (i + stride_lines) content line_count stack
      some (chunks ++ rest)

unfoldable pub simple_chunk : List ℕ → List ℕ → Option (List Chunk)
simple_chunk content path =
    let line_count = length (lines content) in
    simple_loop line_count 0 content line_count (file_context path ∷ [])

unfoldable pub first_text : List (List ℕ) → Option (List ℕ)
first_text [] = none
first_text (line ∷ rest) = if is_empty (trim line) then first_text rest else some (trim line)

unfoldable pub extract_header_line : List ℕ → Option (List ℕ)
extract_header_line text = first_text (lines text)

abbrev pub is_block : Option ChunkType → Bool
is_block (some block) = true
is_block _ = false

-- A part of a definition begins with the header line of the definition.
unfoldable pub with_header : Option (List ℕ) → ℕ → Option ChunkType → List ℕ → List ℕ
with_header none i chunk_type content = content
with_header (some h) i chunk_type content =
    if ltb 0 i && not (is_block chunk_type) then h ++ b'\n' ∷ content else content

-- The loop of `split_if_too_big` over windows of lines.
unfoldable pub window_loop : ℕ → ℕ → Chunk → ℕ → Option (List Chunk)
window_loop zero i chunk line_count = if ltb i line_count then none else some []
window_loop (suc fuel) i chunk line_count =
    let end_line = min (i + max_lines) line_count in
    let rest = window_loop fuel (i + stride_lines) chunk line_count in
    if not (ltb i line_count) then some [] else if ltb (end_line - i) 3 && ltb 0 i then rest else do
      content ← slice_lines chunk.content i end_line
      more ← rest
      some (
          new_chunk (with_header (extract_header_line chunk.content) i chunk.chunk_type content)
            (chunk.start_line + i) (chunk.start_line + end_line) (type_or_other chunk.chunk_type)
            chunk.context
          ∷ more)

unfoldable pub split_long : Chunk → Option (List Chunk)
split_long sc = if ltb max_chars (bytes sc.content) then split_by_chars sc else some (sc ∷ [])

unfoldable pub split_if_too_big : Chunk → Option (List Chunk)
split_if_too_big chunk =
    let char_count = bytes chunk.content in
    let line_count = length (lines chunk.content) in
    if leb line_count max_lines && leb char_count max_chars
    then some (chunk ∷ [])
    else if ltb max_chars char_count && leb line_count max_lines
    then split_by_chars chunk
    else do sub_chunks ← window_loop line_count 0 chunk line_count; flat_map split_long sub_chunks
