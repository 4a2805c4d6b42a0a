-- ===== src/Oracle/Plain.antt =====
-- The oracles on plain text: `Utf8Oracle`, `JsonOracle` and `KnownPlaintextOracle`.
use memhunt.Base.{ℕ, zero, suc, ◌*◌, max, Bytes, Text, codes, Bool, false, ◌&&◌, ◌||◌, not}
use memhunt.Base.{[], ◌∷◌, Option, none, some, length, take, get_or, filter, any, all}
use memhunt.Base.{is_empty, leb, ◌==◌, eq_list, if◌then◌else◌, windows, from_utf8, is_control}
use memhunt.Report.{medium, high}
use memhunt.Oracle.{Oracle}

-- `while end > 0 && data[end - 1] == 0 { end -= 1; }`
unfoldable pub trimmed_end : Bytes → ℕ → ℕ
trimmed_end bytes zero = zero
trimmed_end bytes (suc e) =
    let rest = trimmed_end bytes e in if get_or bytes e 0 == 0 then rest else suc e

unfoldable pub strip_trailing_zeros : Bytes → Bytes
unfolding trimmed_end
strip_trailing_zeros bytes = take (trimmed_end bytes (length bytes)) bytes

-- `!c.is_control() || c == '\n' || c == '\r' || c == '\t'`
unfoldable pub is_printable : ℕ → Bool
unfolding is_control
is_printable c = not (is_control c) || c == 0x0a || c == 0x0d || c == 0x09

unfoldable pub mostly_printable : Option Text → Bool
unfolding is_printable
mostly_printable none = false
mostly_printable (some s) = leb (length s * 9) (length (filter is_printable s) * 10)

unfoldable pub verify_utf8 : Bytes → Bool
unfolding strip_trailing_zeros mostly_printable
verify_utf8 plaintext_head =
    let head = strip_trailing_zeros plaintext_head in
    if is_empty head then false else mostly_printable (from_utf8 head)

abbrev pub utf8_oracle : Oracle
utf8_oracle = record { name = codes "utf8"; verify = verify_utf8; confidence = medium }

-- What may follow the bracket of an array.
unfoldable pub starts_value : ℕ → Bool
starts_value c =
    (leb b'0' c && leb c b'9') || c == b'"' || c == b'[' || c == b'{' || c == b' ' || c == 0x09

unfoldable pub structurally_valid : Bytes → Bool
unfolding starts_value
structurally_valid [] = false
structurally_valid (b ∷ []) = false
structurally_valid (b ∷ c ∷ rest) =
    if b == b'{' then c == b'"' else if b == b'[' then starts_value c else false

unfoldable pub all_printable : Option Text → Bool
unfolding is_printable
all_printable none = false
all_printable (some s) = all is_printable s

unfoldable pub verify_json : Bytes → Bool
unfolding structurally_valid all_printable
verify_json plaintext_head =
    if not (structurally_valid plaintext_head)
    then false
    else all_printable (from_utf8 plaintext_head)

abbrev pub json_oracle : Oracle
json_oracle = record { name = codes "json"; verify = verify_json; confidence = high }

unfoldable pub verify_known : Bytes → Bytes → Bool
verify_known fragment plaintext_head =
    any (λ w. eq_list w fragment) (windows (max (length fragment) 1) plaintext_head)

abbrev pub known_oracle : Bytes → Oracle
known_oracle fragment = record {
  name = codes "known";
  verify = verify_known fragment;
  confidence = high;
}
