-- ===== src/Snapshot/SegmentIndex/Examples.antt =====
-- An index of two files, with lines in which each character of the key follows a mark.
use Prim.Native.Char.{code}
use Prim.Native.String.{char_at}
use goodgrep.Prelude.{◌≡◌, refl, String, false, List, [], ◌∷◌, Option, none, some}
use goodgrep.Prelude.Tests.{◌==◌, nat_key, string_key, if◌then◌else◌}
use goodgrep.Prelude.Maps.{lookup}
use goodgrep.Prelude.Results.{ok}
use goodgrep.Snapshot.SegmentIndex.{
  read_segment_file_index, write_segment_file_index,
  read_segment_file_index-write_segment_file_index,
}

marked : String → String → String
marked String.[] value = String.◌∷◌ (char_at "." 0) value
marked (String.◌∷◌ c key) value = String.◌∷◌ (char_at ":" 0) (String.◌∷◌ c (marked key value))

unmarked : String → Option (String × String)
unmarked String.[] = none
unmarked (String.◌∷◌ mark String.[]) =
    if code mark == b'.' then some (String.[], String.[]) else none
unmarked (String.◌∷◌ mark (String.◌∷◌ c rest)) =
    let more = unmarked rest in
    if code mark == b'.'
    then some (String.[], String.◌∷◌ c rest)
    else elim more [ none ↦ none | some e ↦ some (String.◌∷◌ c e.0, e.1) ]

unmarked-marked : (key value : String) → unmarked (marked key value) ≡ some (key, value)
unfolding unmarked marked
unmarked-marked String.[] String.[] = refl
unmarked-marked String.[] (String.◌∷◌ c value) = refl
unmarked-marked (String.◌∷◌ c key) value = rw (unmarked-marked key value) refl

abbrev to_line : String × String → String
to_line e = marked e.0 e.1

abbrev index : List (String × String)
index = ("a", "seg_s1") ∷ ("b", "seg_s0") ∷ []

read_segment_file_index-write_segment_file_index_example :
    (out : List (String × String)) × (read_segment_file_index
        (λ line. false)
        unmarked
        (write_segment_file_index to_line (λ ks. ks) index)
      ≡ ok out)
    × ((k : String) → lookup k out ≡ lookup k index)
read_segment_file_index-write_segment_file_index_example =
    read_segment_file_index-write_segment_file_index (λ line. false) unmarked to_line
      (λ e. (refl, unmarked-marked e.0 e.1)) (λ ks. ks) (λ ks k. refl) index
