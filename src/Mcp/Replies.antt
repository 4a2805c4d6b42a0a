-- ===== src/Mcp/Replies.antt =====
-- What the server answers a line with.
use memhunt.Base.{ℕ, ◌≡◌, ◌≢◌, refl, sym, ap, subst, ◌∙◌, ◌⊎◌, inl, inr}
use memhunt.Base.{Text, codes, [], ◌∷◌, ◌++◌, Option, none, some, is_empty, trim}
use memhunt.Base.{false, Option-cases}
use memhunt.Base.{Result, ok, err, Failure, error, panic, Returns, Result-cases}
use memhunt.Base.{none_ne_some, some_inj, ok_inj, err_ne_ok}
use memhunt.Cipher.{Crates}
use memhunt.HashScan.Algos.{Digests}
use memhunt.Host.{Host}
use memhunt.Mcp.Json.{Json, IsLawful, text_arg}
use memhunt.Mcp.Tools.{or_default}
use memhunt.Mcp.Dispatch.{no_fields, dispatch}
use memhunt.Mcp.Serve.{result_reply, error_reply, response, answer, handle_line}
use memhunt.Mcp.Total.{ThreadsStart}
use memhunt.Mcp.Total.Requests.{RangeCollects, dispatch-Returns}

module _ (json : Json) where
  -- What a reply carries: a result, or an error with its code and message, and never both.
  abbrev pub Carries : json.Value → Result (ℕ × Text) json.Value → Type 0
  Carries reply (ok result) =
      (json.get (codes "result") reply ≡ some result) × (json.get (codes "error") reply ≡ none)
  Carries reply (err (code, message)) =
      (json.get (codes "error") reply
        ≡ some (
            json.object
              ((codes "code", json.negative code) ∷ (codes "message", json.string message) ∷ [])))
      × (json.get (codes "result") reply ≡ none)

  -- A reply of JSON-RPC 2.0 to the request with the id.
  pub record IsReply (id : json.Value) (outcome : Result (ℕ × Text) json.Value) (reply : json.Value)
      : Type 0 where
    pub version : json.get (codes "jsonrpc") reply ≡ some (json.string (codes "2.0"))
    pub id_kept : json.get (codes "id") reply ≡ some id
    pub carries : Carries reply outcome

  -- A reply with the id, whatever it carries.
  abbrev pub HasReply : json.Value → json.Value → Type 0
  HasReply id reply = (outcome : Result (ℕ × Text) json.Value) × IsReply id outcome reply

  -- The method of a request, and its parameters.
  abbrev pub method_of : json.Value → Text
  method_of req = or_default (text_arg json (codes "method") req) []

  abbrev pub params_of : json.Value → json.Value
  params_of req = or_default (json.get (codes "params") req) (no_fields json)

  -- The range of lengths of a request in the line can be collected.
  abbrev pub IsServable : Text → Type 0
  IsServable line =
      (req : json.Value) → json.parse (trim line) ≡ ok req → RangeCollects json (params_of req)

  module _ (run : Text → json.Value → Result (Failure Text) json.Value) where
    -- What a line is answered with, if `run` runs the methods. Nothing, where the line is blank or a
    -- request without an id. A parse error (-32700) with the id null, where the line is no JSON. The
    -- result of the method, or its error (-32602), with the id of the request otherwise. A method that
    -- panics leaves its request without an answer.
    pub data IsAnswer (line : Text) : Option json.Value → Type 0 where
      blank : trim line ≡ [] → IsAnswer line none
      notification :
          {req : json.Value}
          → json.parse (trim line) ≡ ok req
          → json.get (codes "id") req ≡ none
          → IsAnswer line none
      garbled :
          {e : Text} {reply : json.Value}
          → json.parse (trim line) ≡ err e
          → IsReply json.null (err (32700, codes "parse error: " ++ e)) reply
          → IsAnswer line (some reply)
      succeeded :
          {req id result reply : json.Value}
          → json.parse (trim line) ≡ ok req
          → json.get (codes "id") req ≡ some id
          → run (method_of req) (params_of req) ≡ ok result
          → IsReply id (ok result) reply
          → IsAnswer line (some reply)
      failed :
          {req id reply : json.Value} {message : Text}
          → json.parse (trim line) ≡ ok req
          → json.get (codes "id") req ≡ some id
          → run (method_of req) (params_of req) ≡ err (error message)
          → IsReply id (err (32602, message)) reply
          → IsAnswer line (some reply)
      crashed :
          {req : json.Value}
          → json.parse (trim line) ≡ ok req
          → run (method_of req) (params_of req) ≡ err panic
          → IsAnswer line none

    same_id :
        {t : Text} {req req' id id' : json.Value}
        → json.parse t ≡ ok req
        → json.parse t ≡ ok req'
        → json.get (codes "id") req ≡ some id
        → json.get (codes "id") req' ≡ some id'
        → id ≡ id'
    same_id p p' g g' = some_inj (sym g ∙ ap (json.get (codes "id")) (ok_inj (sym p ∙ p')) ∙ g')

    -- A request with an id is answered.
    pub answer_request :
        {line : Text} {o : Option json.Value} {req id : json.Value}
        → IsAnswer line o
        → trim line ≢ []
        → json.parse (trim line) ≡ ok req
        → json.get (codes "id") req ≡ some id
        → run (method_of req) (params_of req) ≢ err panic
        → (r : json.Value) × (o ≡ some r) × HasReply id r
    answer_request (blank empty) full parsed given sane = absurd (full empty)
    answer_request (notification p missing) full parsed given sane =
        absurd (
          none_ne_some (sym missing ∙ ap (json.get (codes "id")) (ok_inj (sym p ∙ parsed)) ∙ given))
    answer_request (garbled p r) full parsed given sane = absurd (err_ne_ok (sym p ∙ parsed))
    answer_request (succeeded {result} {reply = resp} p g run r) full parsed given sane = (
      resp,
      refl,
      (ok result, subst (λ i. IsReply i (ok result) resp) (same_id p parsed g given) r),
    )
    answer_request (failed {reply = resp} {message} p g run r) full parsed given sane = (
      resp,
      refl,
      (
        err (32602, message),
        subst (λ i. IsReply i (err (32602, message)) resp) (same_id p parsed g given) r,
      ),
    )
    answer_request (crashed p e) full parsed given sane =
        absurd (sane (ap (λ q. run (method_of q) (params_of q)) (ok_inj (sym parsed ∙ p)) ∙ e))

  module _ (lawful : IsLawful json) where
    result_reply-IsReply :
        (id result : json.Value) → IsReply id (ok result) (result_reply json id result)
    result_reply-IsReply id result = record {
      version = lawful.get-object _ _;
      id_kept = lawful.get-object _ _;
      carries = (lawful.get-object _ _, lawful.get-object _ _);
    }

    error_reply-IsReply :
        (id : json.Value) (code : ℕ) (message : Text)
        → IsReply id (err (code, message)) (error_reply json id code message)
    error_reply-IsReply id code message = record {
      version = lawful.get-object _ _;
      id_kept = lawful.get-object _ _;
      carries = (lawful.get-object _ _, lawful.get-object _ _);
    }

    module _ (run : Text → json.Value → Result (Failure Text) json.Value) where
      -- What a step of the server gives: an answer, or the panic of a method.
      abbrev Gives : Text → Result (Failure Text) (Option json.Value) → Type 0
      Gives line step =
          (o : Option json.Value) × IsAnswer run line o
          × ((step ≡ ok o)
              ⊎ ((step ≡ err panic)
                  × (o ≡ none)
                  × ((req : json.Value) × (json.parse (trim line) ≡ ok req)
                      × (run (method_of req) (params_of req) ≡ err panic))))

      response-Gives :
          (line : Text) (req id : json.Value) (r : Result (Failure Text) json.Value)
          → json.parse (trim line) ≡ ok req
          → json.get (codes "id") req ≡ some id
          → run (method_of req) (params_of req) ≡ r
          → Gives line (response json id r)
      response-Gives line req id (ok result) parsed given e =
          (_, succeeded parsed given e (result_reply-IsReply id result), inl refl)
      response-Gives line req id (err (error msg)) parsed given e =
          (_, failed parsed given e (error_reply-IsReply id 32602 msg), inl refl)
      response-Gives line req id (err panic) parsed given e =
          (none, crashed parsed e, inr (refl, refl, (req, parsed, e)))

    module _ (host : Host) (crates : Crates) (digests : Digests) (version : Text) where
      answer_step :
          (line : Text) (req id : json.Value)
          → is_empty (trim line) ≡ false
          → json.parse (trim line) ≡ ok req
          → json.get (codes "id") req ≡ some id
          → handle_line host json crates digests version line
            ≡ response json id
                (dispatch host json crates digests version (method_of req) (params_of req))
      unfolding handle_line answer
      answer_step line req id some_text parsed given = rw (some_text, parsed, answer, given) refl

      pub handle_line-Gives :
          (line : Text)
          → Gives
              (dispatch host json crates digests version)
              line
              (handle_line host json crates digests version line)
      unfolding handle_line answer
      handle_line-Gives line = elim (is_blank (trim line)) [
        | inl empty ↦ (none, blank empty, inl (rw empty refl))
        | inr some_text ↦ elim (Result-cases (json.parse (trim line))) [
          | inr (e, no_json) ↦ (
            some (error_reply json json.null 32700 (codes "parse error: " ++ e)),
            garbled no_json (error_reply-IsReply json.null 32700 _),
            inl (rw (some_text, no_json) refl),
          )
          | inl (req, parsed) ↦ elim (Option-cases (json.get (codes "id") req)) [
            | inl missing ↦ (
              none,
              notification parsed missing,
              inl (rw (some_text, parsed, answer, missing) refl),
            )
            | inr (id, given) ↦
                let run = dispatch host json crates digests version in
                let step = answer_step line req id some_text parsed given in
                subst (Gives run line) (sym step) (
                  response-Gives run line req id (run (method_of req) (params_of req)) parsed given
                    refl)
          ]
        ]
      ]
        where
          is_blank : (t : Text) → (t ≡ []) ⊎ (is_empty t ≡ false)
          is_blank [] = inl refl
          is_blank (c ∷ t) = inr refl

      -- A line stops the server by no panic and is answered as `IsAnswer` says, if the threads that
      -- calls ask for can be started, and a request in the line has fewer than 2 ^ 60 lengths in its
      -- range: with the result or the error of `dispatch` for a request with an id, with a parse
      -- error for a line that is no JSON, and not at all for a blank line and a request without an id.
      pub handle_line-IsAnswer :
          (line : Text)
          → ThreadsStart host
          → IsServable line
          → (o : Option json.Value) × (handle_line host json crates digests version line ≡ ok o)
            × IsAnswer (dispatch host json crates digests version) line o
      handle_line-IsAnswer line starts servable =
          let (o, good, step) = handle_line-Gives line in
          elim step [
            | inl same ↦ (o, same, good)
            | inr (stopped, none_given, (req, parsed, e)) ↦ absurd (
                subst Returns e (
                  dispatch-Returns host json crates digests starts version (method_of req)
                    (params_of req) (servable req parsed)))
          ]
