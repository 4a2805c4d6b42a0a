-- ===== src/Examples/Oracles.antt =====
-- The oracles on small heads: oracle.rs.
use memhunt.Base.{◌≡◌, ◌↔◌, refl, arith, Bytes, codes, true, false}
use memhunt.Base.{List, [], ◌∷◌, ◌++◌, none, some, from_utf8, as_bytes}
use memhunt.Base.Utf8.RoundTrip.{from_utf8-as_bytes}
use memhunt.Report.{high}
use memhunt.Oracle.{Oracle, best_match}
use memhunt.Oracle.Plain.{utf8_oracle, json_oracle, verify_utf8, verify_json}
use memhunt.Oracle.Best.{IsBest, best_match-IsBest, best_match-none, AllReject}
use memhunt.Oracle.Accepts.Json.{IsJsonHead, verify_json_iff}
use memhunt.Oracle.Accepts.Json.{verify_json_cut}
use memhunt.Oracle.Accepts.Utf8.{verify_utf8_cut}

abbrev object : Bytes
object = codes "{\"a\":1}"

abbrev both : List Oracle
both = utf8_oracle ∷ json_oracle ∷ []

best_of_object : best_match both object ≡ some (codes "json", high)
unfolding best_match verify_utf8 verify_json from_utf8
best_of_object = refl

best_match-IsBest_example : IsBest both object (codes "json", high)
best_match-IsBest_example = best_match-IsBest object both (codes "json", high) best_of_object

none_of_noise : best_match both (0xff ∷ 0xfe ∷ []) ≡ none
unfolding best_match verify_utf8 verify_json from_utf8
none_of_noise = refl

best_match-none_example : AllReject (0xff ∷ 0xfe ∷ []) both
best_match-none_example = best_match-none (0xff ∷ 0xfe ∷ []) both none_of_noise

verify_json_iff_example : (verify_json object ≡ true) ↔ IsJsonHead object
verify_json_iff_example = verify_json_iff object

verify_json_cut_example : verify_json (codes "{\"" ++ 0xe4 ∷ []) ≡ false
verify_json_cut_example = verify_json_cut (codes "{\"") 0xe4 (omega arith)

abbrev gzip_head : Bytes
gzip_head = 0x1f ∷ 0x8b ∷ 0x08 ∷ 0x00 ∷ 0x55 ∷ []

verify_utf8_cut_example : verify_utf8 (codes "ab" ++ 0xe4 ∷ []) ≡ false
verify_utf8_cut_example = verify_utf8_cut (codes "ab") 0xe4 (omega arith)

from_utf8-as_bytes_example : from_utf8 (as_bytes (0x61 ∷ 0x4e2d ∷ [])) ≡ some (0x61 ∷ 0x4e2d ∷ [])
from_utf8-as_bytes_example = from_utf8-as_bytes (0x61 ∷ 0x4e2d ∷ []) (ground arith)
