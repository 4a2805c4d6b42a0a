-- ===== src/Mcp/Total/Requests.antt =====
-- No request makes the server panic.
use memhunt.Base.{◌≡◌, inl, inr, subst}
use memhunt.Base.{Text, codes, Bool, true, false, Option, none, some}
use memhunt.Base.{eq_list, if◌then◌else◌}
use memhunt.Base.{Result, ok, err, Failure, error, panic, raise, ◌>>=◌}
use memhunt.Base.{◌++◌, Option-cases, some_or, Returns, if-Returns}
use memhunt.Base.{some_inj, raised-Returns}
use memhunt.Cipher.{Crates}
use memhunt.HashScan.Algos.{Digests}
use memhunt.Host.{Host}
use memhunt.Mcp.Json.{Json}
use memhunt.HashScan.Scan.{Collects}
use memhunt.Mcp.Tools.{or_default, need, hash_scan_config}
use memhunt.Mcp.Total.{ThreadsStart}
use memhunt.Mcp.Dispatch.{no_fields, wrap_result, named_tool, tools_call, dispatch}
use memhunt.Mcp.Total.{tool_scan-Returns, tool_key_schedules-Returns, tool_hash_scan-Returns}

-- The arguments of a call, and a request whose range of lengths can be collected.
abbrev pub arguments : (json : Json) → json.Value → json.Value
arguments json params = or_default (json.get (codes "arguments") params) (no_fields json)

abbrev pub RangeCollects : (json : Json) → json.Value → Type 0
RangeCollects json params = Collects (hash_scan_config json (arguments json params)).lengths

module _ (host : Host) (json : Json) (crates : Crates) (digests : Digests)
    (starts : ThreadsStart host) where
  -- A tool of the table does not panic.
  abbrev KnownReturns : Option (Result (Failure Text) json.Value) → Type 0
  KnownReturns tool = (r : Result (Failure Text) json.Value) → tool ≡ some r → Returns r

  named_tool-Returns :
      (name : Text) (args : json.Value)
      → Collects (hash_scan_config json args).lengths
      → KnownReturns (named_tool host json crates digests name args)
  unfolding named_tool
  named_tool-Returns name args held =
      choose (eq_list name (codes "memhunt_scan")) _ _
        (tool_scan-Returns host json crates args starts)
        (choose (eq_list name (codes "memhunt_key_schedules")) _ _
          (tool_key_schedules-Returns host json crates.hex_encode args)
          (choose (eq_list name (codes "memhunt_hash_scan")) _ none
            (tool_hash_scan-Returns host json crates.hex_encode digests args held)
            (λ r e. absurd cc)))
    where
      choose :
          (test : Bool) (r : Result (Failure Text) json.Value)
          (others : Option (Result (Failure Text) json.Value))
          → Returns r
          → KnownReturns others
          → KnownReturns (if test then some r else others)
      choose true r others h k s e = subst Returns (some_inj e) h
      choose false r others h k s e = k s e

  wrap_result-Returns :
      (r : Result (Failure Text) json.Value) → Returns r → Returns (wrap_result json r)
  wrap_result-Returns (ok result) h = tt
  wrap_result-Returns (err (error message)) h = tt
  wrap_result-Returns (err panic) h = h

  tools_call-Returns :
      (params : json.Value)
      → RangeCollects json params
      → Returns (tools_call host json crates digests params)
  unfolding tools_call
  tools_call-Returns params held =
      raised-Returns (need host json (codes "name") (codes "tools/call requires name") params) _
        (λ name. named name (arguments json params) held)
    where
      named :
          (name : Text) (args : json.Value)
          → Collects (hash_scan_config json args).lengths
          → Returns (
              raise (
                some_or
                  (named_tool host json crates digests name args)
                  (codes "unknown tool '" ++ (name ++ codes "'")))
              >>= λ result. wrap_result json result)
      named name args h = elim (Option-cases (named_tool host json crates digests name args)) [
        | inl unknown ↦ rw unknown tt
        | inr (r, e) ↦ rw e (wrap_result-Returns r (named_tool-Returns name args h r e))
      ]

  pub dispatch-Returns :
      (version method : Text) (params : json.Value)
      → RangeCollects json params
      → Returns (dispatch host json crates digests version method params)
  unfolding dispatch
  dispatch-Returns version method params held =
      if-Returns (eq_list method (codes "initialize")) (ok _) _ tt (
        if-Returns (eq_list method (codes "ping")) (ok _) _ tt (
          if-Returns (eq_list method (codes "tools/list")) (ok _) _ tt (
            if-Returns (eq_list method (codes "tools/call"))
              (tools_call host json crates digests params) (err (error _))
              (tools_call-Returns params held) tt)))
