-- ===== src/Mcp/Calls.antt =====
-- What the tools of the server accept and find.
use memhunt.Base.{◌≡◌, ◌↔◌, refl, sym, ap, ◌∙◌, ◌⊎◌, inl, inr}
use memhunt.Base.{Bytes, Text, codes, Bool, true, false, not, ◌%◌, ◌&&◌, List, Memᴰ}
use memhunt.Base.{Option, none, some, length, all, is_empty, ◌==◌, eq_list, eq_list→eq, trim}
use memhunt.Base.{as_bytes, Bool-cases, if◌then◌else◌}
use memhunt.Base.{Result, ok, Failure, some_or}
use mathlib.Core.List.Memᴰ
use memhunt.Cipher.{Crates}
use memhunt.HashScan.Algos.{Digests}
use memhunt.Host.{Host}
use memhunt.Cli.Decode.{
  CliError, not_detected, or_else, is_hexdigit, looks_hex, try_hex, try_b64, decode_as,
}
use memhunt.Mcp.Json.{Json, IsLawful, entry, text_arg}
use memhunt.Mcp.Schema.{tool_schemas, scan_schema, key_schedules_schema, hash_scan_schema}
use memhunt.Mcp.Tools.{decode_blob}
use memhunt.Mcp.Dispatch.{named_tool}
use memhunt.Base.{none_ne_some, some_inj, ok_inj, err_ne_ok}

abbrev no_hex_no_base64 : Text
no_hex_no_base64 = codes "could not decode input as hex or base64"

-- The two results have their bytes in common.
same_bytes :
    (o : Option Bytes) (e : Text) (e' : CliError) (bytes : Bytes)
    → (some_or o e ≡ ok bytes) ↔ (some_or o e' ≡ ok bytes)
same_bytes none e e' bytes = ((λ h. absurd (err_ne_ok h)), (λ h. absurd (err_ne_ok h)))
same_bytes (some v) e e' bytes = ((λ h. ap ok (ok_inj h)), (λ h. ap ok (ok_inj h)))

same_choice :
    (digits even empty : Bool) (hex base64 : Option Bytes) (bytes : Bytes)
    → ((if digits && even && not empty
          then elim hex [ some v ↦ ok v | none ↦ some_or base64 no_hex_no_base64 ]
          else some_or base64 no_hex_no_base64)
        ≡ ok bytes)
      ↔ (some_or (or_else (if even && not empty && digits then hex else none) base64) not_detected
          ≡ ok bytes)
same_choice true true false (some v) base64 bytes =
    same_bytes (some v) no_hex_no_base64 not_detected bytes
same_choice true true false none base64 bytes = same_bytes base64 _ not_detected bytes
same_choice true true true hex base64 bytes = same_bytes base64 _ not_detected bytes
same_choice true false false hex base64 bytes = same_bytes base64 _ not_detected bytes
same_choice true false true hex base64 bytes = same_bytes base64 _ not_detected bytes
same_choice false true false hex base64 bytes = same_bytes base64 _ not_detected bytes
same_choice false true true hex base64 bytes = same_bytes base64 _ not_detected bytes
same_choice false false false hex base64 bytes = same_bytes base64 _ not_detected bytes
same_choice false false true hex base64 bytes = same_bytes base64 _ not_detected bytes

-- The two front ends read a target alike: `decode_blob` gives the bytes that `decode_ciphertext`
-- finds with the encoding `auto`, before it refuses an empty target.
pub decode_blob-decode_as :
    (host : Host) (s : Text) (bytes : Bytes)
    → (decode_blob host s ≡ ok bytes) ↔ (decode_as host s (codes "auto") ≡ ok bytes)
unfolding decode_blob decode_as try_hex try_b64 looks_hex
decode_blob-decode_as host s bytes =
    let t = trim s in
    same_choice (all is_hexdigit t) (length (as_bytes t) % 2 == 0) (is_empty t) (host.hex_decode t)
      (host.base64_decode t) bytes

-- The three names of the tools.
abbrev IsTool : Text → Type 0
IsTool name =
    (name ≡ codes "memhunt_scan")
    ⊎ (name ≡ codes "memhunt_key_schedules")
    ⊎ (name ≡ codes "memhunt_hash_scan")

module _ (json : Json) (lawful : IsLawful json) where
  abbrev IsNamed : json.Value → Text → Type 0
  IsNamed schema name = text_arg json (codes "name") schema ≡ some name

  IsNamed-object :
      (text : Text) (fields : List (Text × json.Value))
      → entry (codes "name") fields ≡ some (json.string text)
      → IsNamed (json.object fields) text
  IsNamed-object text fields e =
      rw (text_arg, lawful.get-object (codes "name") fields, e) (lawful.as_str-string text)

  scan_name : IsNamed (scan_schema json) (codes "memhunt_scan")
  unfolding scan_schema
  scan_name = IsNamed-object _ _ refl

  key_schedules_name : IsNamed (key_schedules_schema json) (codes "memhunt_key_schedules")
  unfolding key_schedules_schema
  key_schedules_name = IsNamed-object _ _ refl

  hash_scan_name : IsNamed (hash_scan_schema json) (codes "memhunt_hash_scan")
  unfolding hash_scan_schema
  hash_scan_name = IsNamed-object _ _ refl

  same_name :
      {schema other : json.Value} {name text : Text}
      → schema ≡ other
      → IsNamed other text
      → IsNamed schema name
      → name ≡ text
  same_name e named h = some_inj (sym h ∙ ap (text_arg json (codes "name")) e ∙ named)

  listed-IsTool :
      (name : Text) (schema : json.Value)
      → Memᴰ schema (tool_schemas json)
      → IsNamed schema name
      → IsTool name
  listed-IsTool name schema (Memᴰ.head e) h = inl (same_name e scan_name h)
  listed-IsTool name schema (Memᴰ.tail (Memᴰ.head e)) h =
      inr (inl (same_name e key_schedules_name h))
  listed-IsTool name schema (Memᴰ.tail (Memᴰ.tail (Memᴰ.head e))) h =
      inr (inr (same_name e hash_scan_name h))
  listed-IsTool name schema (Memᴰ.tail (Memᴰ.tail (Memᴰ.tail m))) h = absurd (Memᴰ.not-nil m)

  tool-listed :
      (name : Text)
      → IsTool name
      → (schema : json.Value) × Memᴰ schema (tool_schemas json) × IsNamed schema name
  tool-listed name (inl e) = (scan_schema json, Memᴰ.head refl, scan_name ∙ ap some (sym e))
  tool-listed name (inr (inl e)) =
      (key_schedules_schema json, Memᴰ.tail (Memᴰ.head refl), key_schedules_name ∙ ap some (sym e))
  tool-listed name (inr (inr e)) = (
    hash_scan_schema json,
    Memᴰ.tail (Memᴰ.tail (Memᴰ.head refl)),
    hash_scan_name ∙ ap some (sym e),
  )

  module _ (host : Host) (crates : Crates) (digests : Digests) where
    abbrev Known : Text → json.Value → Type 0
    Known name args =
        (r : Result (Failure Text) json.Value) × (named_tool host json crates digests name args
          ≡ some r)

    tool-Known : (name : Text) (args : json.Value) → IsTool name → Known name args
    unfolding named_tool
    tool-Known name args (inl e) = rw e (_, refl)
    tool-Known name args (inr (inl e)) = rw e (_, refl)
    tool-Known name args (inr (inr e)) = rw e (_, refl)

    Known-IsTool : (name : Text) (args : json.Value) → Known name args → IsTool name
    unfolding named_tool
    Known-IsTool name args (r, e) = elim (Bool-cases (eq_list name (codes "memhunt_scan"))) [
      | inl scan ↦ inl (eq_list→eq _ _ scan)
      | inr no_scan ↦ elim (Bool-cases (eq_list name (codes "memhunt_key_schedules"))) [
        | inl schedules ↦ inr (inl (eq_list→eq _ _ schedules))
        | inr no_schedules ↦ elim (Bool-cases (eq_list name (codes "memhunt_hash_scan"))) [
          | inl hash_scan ↦ inr (inr (eq_list→eq _ _ hash_scan))
          | inr no_hash ↦ absurd (none_ne_some (rw (no_scan, no_schedules, no_hash) at e))
        ]
      ]
    ]

    -- `tools/list` offers exactly the tools that `tools/call` knows: an entry of the list has a name
    -- exactly where a tool is called by it.
    pub tool_listed_iff :
        (name : Text) (args : json.Value)
        → ((schema : json.Value) × Memᴰ schema (tool_schemas json)
            × (text_arg json (codes "name") schema ≡ some name))
          ↔ ((r : Result (Failure Text) json.Value) × (named_tool host json crates digests name args
                ≡ some r))
    tool_listed_iff name args = (
      (λ h. tool-Known name args (listed-IsTool name h.0 h.1 h.2)),
      (λ known. tool-listed name (Known-IsTool name args known)),
    )
