-- ===== src/Examples/Server.antt =====
-- The server on stand-ins for the system and for `serde_json`: mcp.rs.
use memhunt.Base.{ℕ, ◌≡◌, ◌≢◌, ◌↔◌, refl, arith, Text, codes, List, [], ◌∷◌, Memᴰ, map}
use memhunt.Base.{some, take, trim}
use memhunt.Base.{Result, ok, Failure}
use memhunt.Base.{is_empty, if◌then◌else◌}
use memhunt.Host.{Host}
use memhunt.Cli.Decode.{decode_as}
use memhunt.Mcp.Json.{text_arg}
use memhunt.Mcp.Schema.{tool_schemas}
use memhunt.Mcp.Tools.{decode_blob}
use memhunt.Mcp.Dispatch.{named_tool, dispatch}
use memhunt.Mcp.Serve.{serve_stdio}
use memhunt.Base.{All, subst, sym, ◌∙◌, ok_inj, err_ne_ok}
use memhunt.Mcp.Total.Requests.{RangeCollects}
use memhunt.Mcp.Replies.{HasReply, IsServable, params_of}
use memhunt.Mcp.Session.{IsSession, serve_stdio-IsSession, serve_stdio_prefix, request_answered}
use memhunt.Mcp.Calls.{decode_blob-decode_as, tool_listed_iff}
use memhunt.Examples.Hashes.{digests}
use memhunt.Examples.Scans.{crates}
use memhunt.Base.{err}
use memhunt.Examples.Machine.{host, Value, number, string, object, field, end, json, lawful}
use memhunt.Examples.Machine.{ping_text, note_text, ping}

abbrev version : Text
version = codes "0.1.0"

-- A request, a notification, a line that is no JSON, and a blank line.
abbrev lines : List Text
lines = ping_text ∷ note_text ∷ codes "hello" ∷ codes " " ∷ []

abbrev note : Value
note = object (field (codes "method") (string (codes "ping")) end)

read_ping : json.parse (trim ping_text) ≡ ok ping
unfolding trim
read_ping = refl

read_note : json.parse (trim note_text) ≡ ok note
unfolding trim
read_note = refl

garbage : json.parse (trim (codes "hello")) ≡ err (codes "expected value")
unfolding trim
garbage = refl

no_text : json.parse (trim (codes " ")) ≡ err (codes "expected value")
unfolding trim
no_text = refl

range_fits :
    (line : Text) {v : Value}
    → json.parse (trim line) ≡ ok v
    → RangeCollects json (params_of json v)
    → IsServable json line
range_fits line p fits req q =
    subst (λ w. RangeCollects json (params_of json w)) (ok_inj (sym p ∙ q)) fits

no_request : (line : Text) {e : Text} → json.parse (trim line) ≡ err e → IsServable json line
no_request line p req q = absurd (err_ne_ok (sym p ∙ q))

lines-IsServable : All (IsServable json) lines
lines-IsServable = (
  range_fits _ read_ping (omega arith),
  (range_fits _ read_note (omega arith), (no_request _ garbage, (no_request _ no_text, tt))),
)

serve_stdio-IsSession_example :
    (replies : List Value) × IsSession json
      (dispatch (host []) json crates digests version)
      lines
      replies
    × (serve_stdio (host []) json crates digests version (map ok lines) []
        ≡ (map json.print replies, ok tt))
serve_stdio-IsSession_example =
    serve_stdio-IsSession (host []) json crates digests version lawful lines
      ((λ e. cc), ((λ e. cc), ((λ e. cc), ((λ e. cc), tt)))) (λ n. refl) lines-IsServable
      (λ out line. refl) (λ out. refl)

-- A stdout that takes one line only.
abbrev short_stdout : Host
short_stdout = record (host []) {
  write = λ out line. if is_empty out then ok tt else err (codes "broken pipe");
}

serve_stdio_prefix_example :
    (replies : List Value) × IsSession json
      (dispatch short_stdout json crates digests version)
      lines
      replies
    × ((n : ℕ) × ((serve_stdio short_stdout json crates digests version (map ok lines) []).0
          ≡ map json.print (take n replies)))
    × ((serve_stdio short_stdout json crates digests version (map ok lines) []).1 ≡ ok tt
        → (serve_stdio short_stdout json crates digests version (map ok lines) []).0
          ≡ map json.print replies)
serve_stdio_prefix_example =
    serve_stdio_prefix short_stdout json crates digests version lawful lines
      ((λ e. cc), ((λ e. cc), ((λ e. cc), ((λ e. cc), tt))))

trimmed : trim ping_text ≢ []
unfolding trim
trimmed e = cc

request_answered_example :
    (r : Value) × Memᴰ
      (json.print r)
      (serve_stdio (host []) json crates digests version (map ok lines) []).0
    × HasReply json (number 7) r
request_answered_example =
    request_answered (host []) json crates digests version lawful lines ping_text ping (number 7)
      ((λ e. cc), ((λ e. cc), ((λ e. cc), ((λ e. cc), tt)))) (λ n. refl) lines-IsServable
      (λ out line. refl) (λ out. refl) (Memᴰ.head refl) trimmed read_ping refl

tool_listed_iff_example :
    ((schema : Value) × Memᴰ schema (tool_schemas json)
      × (text_arg json (codes "name") schema ≡ some (codes "memhunt_scan")))
    ↔ ((r : Result (Failure Text) Value) × (named_tool
            (host [])
            json
            crates
            digests
            (codes "memhunt_scan")
            ping
          ≡ some r))
tool_listed_iff_example =
    tool_listed_iff json lawful (host []) crates digests (codes "memhunt_scan") ping

decode_blob-decode_as_example :
    (decode_blob (host []) (codes " 00ff ") ≡ ok (0 ∷ 255 ∷ []))
    ↔ (decode_as (host []) (codes " 00ff ") (codes "auto") ≡ ok (0 ∷ 255 ∷ []))
decode_blob-decode_as_example = decode_blob-decode_as (host []) (codes " 00ff ") (0 ∷ 255 ∷ [])
