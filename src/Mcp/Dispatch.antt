-- ===== src/Mcp/Dispatch.antt =====
-- `dispatch`: the methods of the server. The version of the package is a parameter.
use memhunt.Base.{Text, codes, Bool, true, false, [], ◌∷◌, ◌++◌, Option, none, some}
use memhunt.Base.{eq_list, if◌then◌else◌}
use memhunt.Base.{Result, ok, err, Failure, error, panic, raise, ◌>>=◌, some_or}
use memhunt.Cipher.{Crates}
use memhunt.HashScan.Algos.{Digests}
use memhunt.Host.{Host}
use memhunt.Mcp.Json.{Json}
use memhunt.Mcp.Schema.{server_name, protocol_version, tools_schema}
use memhunt.Mcp.Tools.{or_default, need, tool_scan, tool_key_schedules, tool_hash_scan}

module _ (json : Json) where
  -- `json!({})`.
  abbrev pub no_fields : json.Value
  no_fields = json.object []

  -- The result of a tool: a text, and whether it is that of an error.
  abbrev pub tool_content : Text → Bool → json.Value
  tool_content text is_error = json.object (
      (
        codes "content",
        json.array (
            json.object
              ((codes "type", json.string (codes "text")) ∷ (codes "text", json.string text) ∷ [])
            ∷ []),
      )
      ∷ (codes "isError", json.bool is_error)
      ∷ [])

  -- The `match` on the result of a tool.
  abbrev pub wrap_result : Result (Failure Text) json.Value → Result (Failure Text) json.Value
  wrap_result (ok result) = ok (tool_content (json.print result) false)
  wrap_result (err (error message)) = ok (tool_content message true)
  wrap_result (err panic) = err panic

  abbrev pub initialize_result : Text → json.Value
  initialize_result version = json.object (
      (codes "protocolVersion", json.string protocol_version)
      ∷ (codes "capabilities", json.object ((codes "tools", no_fields) ∷ []))
      ∷ (
        codes "serverInfo",
        json.object
            ((codes "name", json.string server_name) ∷ (codes "version", json.string version) ∷ []),
      )
      ∷ [])

module _ (host : Host) (json : Json) (crates : Crates) (digests : Digests) where
  -- The `match` on the name of a tool; `none` where no tool has it.
  unfoldable pub named_tool : Text → json.Value → Option (Result (Failure Text) json.Value)
  named_tool name args =
      if eq_list name (codes "memhunt_scan")
      then some (tool_scan host json crates args)
      else if eq_list name (codes "memhunt_key_schedules")
      then some (tool_key_schedules host json crates.hex_encode args)
      else if eq_list name (codes "memhunt_hash_scan")
      then some (tool_hash_scan host json crates.hex_encode digests args)
      else none

  -- The arm `"tools/call"`.
  unfoldable pub tools_call : json.Value → Result (Failure Text) json.Value
  unfolding named_tool
  tools_call params = do
    name ← raise (need host json (codes "name") (codes "tools/call requires name") params)
    let args = or_default (json.get (codes "arguments") params) (no_fields json)
    result ← raise (some_or (named_tool name args) (codes "unknown tool '" ++ (name ++ codes "'")))
    wrap_result json result

  unfoldable pub dispatch : Text → Text → json.Value → Result (Failure Text) json.Value
  unfolding tools_call
  dispatch version method params =
      if eq_list method (codes "initialize")
      then ok (initialize_result json version)
      else if eq_list method (codes "ping")
      then ok (no_fields json)
      else if eq_list method (codes "tools/list")
      then ok (json.object ((codes "tools", tools_schema json) ∷ []))
      else if eq_list method (codes "tools/call")
      then tools_call params
      else err (error (codes "unknown method '" ++ (method ++ codes "'")))
