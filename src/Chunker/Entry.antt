-- ===== src/Chunker/Entry.antt =====
-- Tools/ggrep/src/chunker/mod.rs, `Chunker::chunk`: the ways to cut a file, and what is tried if one
-- fails. What tree-sitter found is a parameter; `e` is its error.
pub mod Whole
use goodgrep.Prelude.{ℕ, List, Option, none, some, Bool, true, false}
use goodgrep.Prelude.Tests.{if◌then◌else◌}
use goodgrep.Prelude.Results.{Result, ok, err}
use goodgrep.Prelude.Panics.{◌>>=◌, flat_map}
use goodgrep.Types.{Chunk}
use goodgrep.Chunker.{is_markdown, simple_chunk, split_if_too_big}
use goodgrep.Chunker.Markdown.{chunk_markdown}

module _ {E : Type 0} (captures : List ℕ → Option (List ℕ × List ℕ)) where
  unfoldable pub raw_chunks : Result E (Option (List Chunk)) → List ℕ → List ℕ → Option (List Chunk)
  raw_chunks parsed content path =
      if is_markdown path then chunk_markdown captures content path else elim parsed [
        | ok (some c) ↦ some c
        | ok none ↦ simple_chunk content path
        | err e ↦ simple_chunk content path
      ]

  unfoldable pub chunk : Result E (Option (List Chunk)) → List ℕ → List ℕ → Option (List Chunk)
  chunk parsed content path = do
    chunks ← raw_chunks parsed content path
    flat_map split_if_too_big chunks
