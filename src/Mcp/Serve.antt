-- ===== src/Mcp/Serve.antt =====
-- `serve_stdio`: the loop over the lines of stdin.
use memhunt.Base.{ℕ, Text, codes, List, [], ◌∷◌, ◌++◌, Option, none, some, is_empty, trim}
use memhunt.Base.{if◌then◌else◌}
use memhunt.Base.{Result, ok, err, Failure, error, panic}
use memhunt.Cipher.{Crates}
use memhunt.HashScan.Algos.{Digests}
use memhunt.Host.{Host}
use memhunt.Mcp.Json.{Json, text_arg}
use memhunt.Mcp.Tools.{or_default}
use memhunt.Mcp.Dispatch.{no_fields, dispatch}

module _ (json : Json) where
  abbrev pub result_reply : json.Value → json.Value → json.Value
  result_reply id result = json.object (
      (codes "jsonrpc", json.string (codes "2.0"))
      ∷ (codes "id", id)
      ∷ (codes "result", result)
      ∷ [])

  -- The code is `-code`.
  abbrev pub error_reply : json.Value → ℕ → Text → json.Value
  error_reply id code message = json.object (
      (codes "jsonrpc", json.string (codes "2.0"))
      ∷ (codes "id", id)
      ∷ (
        codes "error",
        json.object
            ((codes "code", json.negative code) ∷ (codes "message", json.string message) ∷ []),
      )
      ∷ [])

  -- The `match` on what `dispatch` gives.
  abbrev pub response :
      json.Value → Result (Failure Text) json.Value → Result (Failure Text) (Option json.Value)
  response id (ok result) = ok (some (result_reply id result))
  response id (err (error msg)) = ok (some (error_reply id 32602 msg))
  response id (err panic) = err panic

module _ (host : Host) (json : Json) (crates : Crates) (digests : Digests) (version : Text) where
  -- What a request is answered with; one without an id gets no answer.
  unfoldable pub answer : json.Value → Result (Failure Text) (Option json.Value)
  answer req = elim (json.get (codes "id") req) [
    | none ↦ ok none
    | some id ↦
        let method = or_default (text_arg json (codes "method") req) [] in
        let params = or_default (json.get (codes "params") req) (no_fields json) in
        response json id (dispatch host json crates digests version method params)
  ]

  -- The body of the loop up to the output, for a line that was read.
  unfoldable pub handle_line : Text → Result (Failure Text) (Option json.Value)
  unfolding answer
  handle_line line =
      let trimmed = trim line in
      if is_empty trimmed then ok none else elim (json.parse trimmed) [
        | ok req ↦ answer req
        | err e ↦ ok (some (error_reply json json.null 32700 (codes "parse error: " ++ e)))
      ]

  -- `writeln!(out, "{}", resp)?; out.flush()?;`, with what follows: the rest of the loop.
  abbrev pub after_output :
      Result Text (Unit {0})
      → Result Text (Unit {0})
      → List Text × Result (Failure Text) (Unit {0})
      → List Text
      → Text
      → List Text × Result (Failure Text) (Unit {0})
  after_output (err e) flushed rest out line = (out, err (error e))
  after_output (ok u) (err e) rest out line = (out ++ line ∷ [], err (error e))
  after_output (ok u) (ok v) rest out line = rest

  -- The outcome of a line: the lines of stdout so far, and how the loop ends.
  abbrev pub send :
      Result (Failure Text) (Option json.Value)
      → (List Text → List Text × Result (Failure Text) (Unit {0}))
      → List Text
      → List Text × Result (Failure Text) (Unit {0})
  send (err e) rest out = (out, err e)
  send (ok none) rest out = rest out
  send (ok (some resp)) rest out =
      let line = json.print resp in
      let sent = out ++ line ∷ [] in
      after_output (host.write out line) (host.flush sent) (rest sent) out line

  -- `reads` are the outcomes of `read_line`; an empty line, as the end of `reads`, is the end of
  -- stdin.
  unfoldable pub serve_stdio :
      List (Result Text Text) → List Text → List Text × Result (Failure Text) (Unit {0})
  unfolding handle_line
  serve_stdio [] out = (out, ok tt)
  serve_stdio (err e ∷ reads) out = (out, err (error e))
  serve_stdio (ok [] ∷ reads) out = (out, ok tt)
  serve_stdio (ok (c ∷ line) ∷ reads) out = send (handle_line (c ∷ line)) (serve_stdio reads) out
