-- ===== src/Search/Profile/Bucket.antt =====
-- `SearchBucket` and `bucket_for_path`.
use goodgrep.Prelude.{ℕ, String, Bool, List, [], ◌∷◌, none, some}
use goodgrep.Prelude.Tests.{if◌then◌else◌}
use goodgrep.Prelude.Lists.{any}
use goodgrep.FilePath.{codes, eq_lower, extension}

pub data SearchBucket : Type 0 where
  code docs graph : SearchBucket

abbrev graph_extensions : List String
graph_extensions = "mmd" ∷ "mermaid" ∷ []

abbrev docs_extensions : List String
docs_extensions =
    "md" ∷ "mdx" ∷ "markdown" ∷ "txt" ∷ "json" ∷ "html" ∷ "htm" ∷ "css" ∷ "yaml" ∷ "yml" ∷ "toml"
    ∷ []

is_one_of : List String → List ℕ → Bool
is_one_of names ext = any (λ name. eq_lower ext (codes name)) names

bucket_for_extension : List ℕ → SearchBucket
bucket_for_extension ext =
    if is_one_of graph_extensions ext
    then SearchBucket.graph
    else if is_one_of docs_extensions ext
    then SearchBucket.docs
    else SearchBucket.code

unfoldable pub bucket_for_path : String → SearchBucket
unfolding bucket_for_extension is_one_of extension eq_lower
bucket_for_path path = elim (extension (codes path)) [
  | none ↦ bucket_for_extension []
  | some ext ↦ bucket_for_extension ext
]
