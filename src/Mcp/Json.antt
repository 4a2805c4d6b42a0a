-- ===== src/Mcp/Json.antt =====
-- What mcp.rs takes from `serde_json`: values, and what is documented of them.
use memhunt.Base.{ℕ, ◌≡◌, Text, Bool, List, [], ◌∷◌, Option, none, some, Result}
use memhunt.Base.{eq_list, if◌then◌else◌}
use memhunt.Report.{ScanResult}
use memhunt.KeySched.Scan.{KeyScheduleResult}
use memhunt.HashScan.Scan.{HashScanResult}

-- `Value`, its accessors, and what `json!` builds: `negative n` is the number below zero.
-- `parse` is `from_str`, `print` is `to_string`, and the last three fields are `to_value`; an error
-- comes with its text.
pub record Json : Type 1 where
  pub Value : Type 0
  pub null : Value
  pub bool : Bool → Value
  pub number : ℕ → Value
  pub negative : ℕ → Value
  pub string : Text → Value
  pub array : List Value → Value
  pub object : List (Text × Value) → Value
  pub get : Text → Value → Option Value
  pub as_str : Value → Option Text
  pub as_u64 : Value → Option ℕ
  pub parse : Text → Result Text Value
  pub print : Value → Text
  pub scan_value : ScanResult → Result Text Value
  pub schedules_value : KeyScheduleResult → Result Text Value
  pub hashes_value : HashScanResult → Result Text Value

-- The entry of a key; where a key stands twice, the later entry replaces the other.
abbrev pub entry {ℓ} : {A : Type ℓ} → Text → List (Text × A) → Option A
entry key [] = none
entry key ((k, a) ∷ fields) =
    let later = entry key fields in
    elim later [ some b ↦ some b | none ↦ if eq_list key k then some a else none ]

-- An object holds the fields that it was built from, and a string its text.
pub record IsLawful (json : Json) : Type 0 where
  pub get-object :
      (key : Text) (fields : List (Text × json.Value))
      → json.get key (json.object fields) ≡ entry key fields
  pub as_str-string : (t : Text) → json.as_str (json.string t) ≡ some t

module _ (json : Json) where
  -- `.get(name).and_then(Value::as_str)`, and the same for `as_u64`.
  abbrev pub text_arg : Text → json.Value → Option Text
  text_arg name args = elim (json.get name args) [ none ↦ none | some v ↦ json.as_str v ]

  abbrev pub number_arg : Text → json.Value → Option ℕ
  number_arg name args = elim (json.get name args) [ none ↦ none | some v ↦ json.as_u64 v ]
