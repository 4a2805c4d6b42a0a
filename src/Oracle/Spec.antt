-- ===== src/Oracle/Spec.antt =====
-- `parse_spec`: the comma-separated list of oracles that the user enables.
use memhunt.Base.{Text, codes, ◌||◌, List, [], ◌∷◌, ◌++◌, drop}
use memhunt.Base.{is_empty, eq_list, if◌then◌else◌, trim, split, starts_with, as_bytes}
use memhunt.Base.{Result, ok, err, ◌>>=◌}
use memhunt.Oracle.{Oracle}
use memhunt.Oracle.Plain.{utf8_oracle, json_oracle, known_oracle}
use memhunt.Oracle.Utf16.{utf16le_oracle}
use memhunt.Oracle.Binary.{gzip_oracle, protobuf_oracle}

-- The messages of `parse_spec`.
pub data SpecError : Type 0 where
  unknown_oracle : Text → SpecError
  no_oracle : SpecError

-- What one trimmed part adds to the list; the empty part adds nothing.
unfoldable pub part_oracles : Text → Result SpecError (List Oracle)
part_oracles part =
    if eq_list part (codes "utf8")
    then ok (utf8_oracle ∷ [])
    else if eq_list part (codes "json")
    then ok (json_oracle ∷ [])
    else if eq_list part (codes "gzip")
    then ok (gzip_oracle ∷ [])
    else if eq_list part (codes "utf16le") || eq_list part (codes "utf16")
    then ok (utf16le_oracle ∷ [])
    else if eq_list part (codes "protobuf")
    then ok (protobuf_oracle ∷ [])
    else if starts_with (codes "known:") part
    then ok (known_oracle (drop 6 (as_bytes part)) ∷ [])
    else if is_empty part
    then ok []
    else err (unknown_oracle part)

unfoldable pub collect_parts : List Text → List Oracle → Result SpecError (List Oracle)
collect_parts [] oracles = ok oracles
collect_parts (part ∷ parts) oracles = do
  new ← part_oracles (trim part)
  collect_parts parts (oracles ++ new)

unfoldable pub parse_spec : Text → Result SpecError (List Oracle)
unfolding collect_parts
parse_spec spec = do
  oracles ← collect_parts (split b',' spec) []
  if is_empty oracles then err no_oracle else ok oracles
