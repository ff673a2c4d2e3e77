-- ===== src/Types.antt =====
-- Tools/ggrep/src/types.rs: the data that the parts of the engine exchange. A score is an `f32`;
-- it is a parameter `F`, since nothing that is proved about a result computes with it.
use goodgrep.Prelude.{ℕ, String, Bool, false, Option, none, some, List}

pub data SearchMode : Type 0 where
  balanced discovery implementation planning debug : SearchMode

pub data ChunkType : Type 0 where
  function class interface method type_alias block other : ChunkType

-- `content` holds the bytes of the UTF-8 text.
pub record SearchResult (F : Type 0) : Type 0 where
  pub path : String
  pub content : List ℕ
  pub score : F
  pub secondary_score : Option F
  pub row_id : Option String
  pub segment_table : Option String
  pub start_line : ℕ
  pub num_lines : ℕ
  pub chunk_type : Option ChunkType
  pub is_anchor : Option Bool

pub record SearchLimitHit : Type 0 where
  pub code : String
  pub limit : ℕ
  pub observed : Option ℕ
  pub path_key : Option String

-- A piece of a file; `content` holds the scalar values of the text, and so do the lines of `context`.
pub record Chunk : Type 0 where
  pub content : List ℕ
  pub start_line : ℕ
  pub start_col : ℕ
  pub end_line : ℕ
  pub chunk_type : Option ChunkType
  pub context : List (List ℕ)
  pub chunk_index : Option ℕ
  pub is_anchor : Option Bool

-- `Chunk::new`
abbrev pub new_chunk : List ℕ → ℕ → ℕ → ChunkType → List (List ℕ) → Chunk
new_chunk content start_line end_line chunk_type context = record {
  content = content;
  start_line = start_line;
  start_col = 0;
  end_line = end_line;
  chunk_type = some chunk_type;
  context = context;
  chunk_index = none;
  is_anchor = some false;
}
