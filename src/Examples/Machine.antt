-- ===== src/Examples/Machine.antt =====
-- Stand-ins for the system and for `serde_json`, on which the front ends run.
use memhunt.Base.{ℕ, ◌+◌, ◌-◌, ◌*◌, ◌≡◌, refl, ap, Bytes, Text, codes, Bool, true}
use memhunt.Base.{List, [], ◌∷◌, Option, none, some, eq_list, leb, if◌then◌else◌}
use memhunt.Base.{Result, ok, err, to_decimal}
use memhunt.Host.{Host}
use memhunt.Mcp.Json.{Json, IsLawful, entry}

abbrev digit : ℕ → ℕ
digit c = if leb b'a' c then c - 87 else c - 48

abbrev unhex : Text → Option Bytes
unhex [] = some []
unhex (c ∷ []) = none
unhex (c ∷ d ∷ t) =
    let rest = unhex t in elim rest [ none ↦ none | some bs ↦ some ((16 * digit c + digit d) ∷ bs) ]

-- One file, with the name `dump`; stdout takes every line.
abbrev pub host : Bytes → Host
host dump = record {
  hex_decode = unhex;
  base64_decode = λ t. none;
  read_file = λ path. if eq_list path (codes "dump") then ok dump else err (codes "no such file");
  build_pool = λ n. ok tt;
  passes_run = λ n. true;
  write = λ out line. ok tt;
  flush = λ out. ok tt;
  hit_json = λ hit. hit.key_hex;
  key_hit_json = λ hit. hit.algo;
  hash_hit_json = λ hit. hit.match_hex;
  from_utf8_lossy = λ bytes. bytes;
}

mutual
  pub data Value : Type 0 where
    null : Value
    bool : Bool → Value
    number : ℕ → Value
    negative : ℕ → Value
    string : Text → Value
    array : Items → Value
    object : Fields → Value

  pub data Items : Type 0 where
    nil : Items
    item : Value → Items → Items

  pub data Fields : Type 0 where
    end : Fields
    field : Text → Value → Fields → Fields

abbrev items : List Value → Items
items [] = nil
items (v ∷ vs) = item v (items vs)

abbrev fields : List (Text × Value) → Fields
fields [] = end
fields (f ∷ fs) = field f.0 f.1 (fields fs)

abbrev listed : Fields → List (Text × Value)
listed end = []
listed (field k v fs) = (k, v) ∷ listed fs

abbrev get : Text → Value → Option Value
get key (object fs) = entry key (listed fs)
get key null = none
get key (bool b) = none
get key (number n) = none
get key (negative n) = none
get key (string t) = none
get key (array vs) = none

abbrev as_str : Value → Option Text
as_str (string t) = some t
as_str null = none
as_str (bool b) = none
as_str (number n) = none
as_str (negative n) = none
as_str (array vs) = none
as_str (object fs) = none

abbrev as_u64 : Value → Option ℕ
as_u64 (number n) = some n
as_u64 null = none
as_u64 (bool b) = none
as_u64 (string t) = none
as_u64 (negative n) = none
as_u64 (array vs) = none
as_u64 (object fs) = none

-- The texts that are parsed: a request with an id, and one without.
abbrev pub ping_text : Text
ping_text = codes "{\"id\":7,\"method\":\"ping\"}"

abbrev pub note_text : Text
note_text = codes "{\"method\":\"ping\"}"

abbrev pub ping : Value
ping = object (field (codes "id") (number 7) (field (codes "method") (string (codes "ping")) end))

abbrev parse : Text → Result Text Value
parse t =
    if eq_list t ping_text
    then ok ping
    else if eq_list t note_text
    then ok (object (field (codes "method") (string (codes "ping")) end))
    else err (codes "expected value")

-- Only the id of a reply is printed.
abbrev print : Value → Text
print v = elim (entry_id v) [ none ↦ codes "none" | some n ↦ to_decimal n ]
  where
    entry_id : Value → Option ℕ
    entry_id w = elim (get (codes "id") w) [ none ↦ none | some i ↦ as_u64 i ]

abbrev pub json : Json
json = record {
  Value = Value;
  null = null;
  bool = bool;
  number = number;
  negative = negative;
  string = string;
  array = λ vs. array (items vs);
  object = λ fs. object (fields fs);
  get = get;
  as_str = as_str;
  as_u64 = as_u64;
  parse = parse;
  print = print;
  scan_value = λ r. ok null;
  schedules_value = λ r. ok null;
  hashes_value = λ r. ok null;
}

listed-fields : (fs : List (Text × Value)) → listed (fields fs) ≡ fs
listed-fields [] = refl
listed-fields (f ∷ fs) = ap (λ rest. f ∷ rest) (listed-fields fs)

pub lawful : IsLawful json
lawful = record {
  get-object = λ key fs. ap (entry key) (listed-fields fs);
  as_str-string = λ t. refl;
}
