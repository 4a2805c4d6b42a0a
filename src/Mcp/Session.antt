-- ===== src/Mcp/Session.antt =====
-- A run of the server over the lines of stdin, against the replies that it owes.
use memhunt.Base.{ℕ, suc, ◌≡◌, ◌≢◌, refl, sym, ap, ap₂, ◌∙◌, subst, inl, inr}
use memhunt.Base.{Text, codes, List, [], ◌∷◌, ◌++◌, map, take, All, Memᴰ, Option, none, some, trim}
use memhunt.Base.{append_assoc, append-nil}
use memhunt.Base.{Result, ok, Failure, Result-cases}
use mathlib.Core.List.Memᴰ
use memhunt.Cipher.{Crates}
use memhunt.HashScan.Algos.{Digests}
use memhunt.Host.{Host}
use memhunt.Cli.Exit.{TakesLines}
use memhunt.Mcp.Json.{Json, IsLawful}
use memhunt.Mcp.Serve.{send, serve_stdio}
use memhunt.Base.{none_ne_some, some_inj, err_ne_ok}
use memhunt.Base.{err, panic, Returns}
use memhunt.Mcp.Total.{ThreadsStart}
use memhunt.Mcp.Total.Requests.{dispatch-Returns}
use memhunt.Mcp.Replies.{answer_request, handle_line-Gives, IsServable, method_of, params_of}
use memhunt.Mcp.Dispatch.{dispatch}
use memhunt.Mcp.Replies.{HasReply, IsAnswer, handle_line-IsAnswer}

-- The replies to lines, in the order of the lines: each line is answered by itself, or not at all,
-- if `run` runs the methods.
pub data IsSession (json : Json) (run : Text → json.Value → Result (Failure Text) json.Value)
    : List Text → List json.Value → Type 0 where
  done : IsSession json run [] []
  quiet :
      {line : Text} {lines : List Text} {replies : List json.Value}
      → IsAnswer json run line none
      → IsSession json run lines replies
      → IsSession json run (line ∷ lines) replies
  reply :
      {line : Text} {lines : List Text} {r : json.Value} {replies : List json.Value}
      → IsAnswer json run line (some r)
      → IsSession json run lines replies
      → IsSession json run (line ∷ lines) (r ∷ replies)

-- No call of `read_line` gives an empty line before the end of stdin.
abbrev pub AreLines : List Text → Type 0
AreLines = All (λ line. line ≢ [])

All-mem {ℓ} : {A : Type 0} (P : A → Type ℓ) (xs : List A) (a : A) → Memᴰ a xs → All P xs → P a
All-mem P [] a m h = absurd (Memᴰ.not-nil m)
All-mem P (x ∷ xs) a m (h, hs) = elim (Memᴰ.cases_cons m) [
  | inl same ↦ subst P (sym same) h
  | inr later ↦ All-mem P xs a later hs
]

module _ (json : Json) (run : Text → json.Value → Result (Failure Text) json.Value) where
  session_answers :
      {lines : List Text} {replies : List json.Value} {line : Text} {req id : json.Value}
      → IsSession json run lines replies
      → Memᴰ line lines
      → trim line ≢ []
      → json.parse (trim line) ≡ ok req
      → json.get (codes "id") req ≡ some id
      → run (method_of json req) (params_of json req) ≢ err panic
      → (r : json.Value) × Memᴰ r replies × HasReply json id r
  session_answers done m full parsed given sane = absurd (Memᴰ.not-nil m)
  session_answers (quiet a s) m full parsed given sane = elim (Memᴰ.cases_cons m) [
    | inl this ↦
        let (r, same, good) =
          answer_request json run (subst (λ l. IsAnswer json run l none) (sym this) a) full parsed
            given sane in
        absurd (none_ne_some same)
    | inr later ↦ session_answers s later full parsed given sane
  ]
  session_answers (reply {r = resp} a s) m full parsed given sane = elim (Memᴰ.cases_cons m) [
    | inl this ↦
        let (r, same, good) =
          answer_request json run (subst (λ l. IsAnswer json run l (some resp)) (sym this) a) full
            parsed given sane in
        (r, Memᴰ.head (sym (some_inj same)), good)
    | inr later ↦
        let (r, n, good) = session_answers s later full parsed given sane in (r, Memᴰ.tail n, good)
  ]

module _ (host : Host) (json : Json) (crates : Crates) (digests : Digests) (version : Text)
    (lawful : IsLawful json) where
  -- The methods of the server.
  abbrev methods : Text → json.Value → Result (Failure Text) json.Value
  methods = dispatch host json crates digests version

  abbrev serve : List Text → List Text → List Text × Result (Failure Text) (Unit {0})
  serve lines out = serve_stdio host json crates digests version (map ok lines) out

  -- What a run owes from here on, and what it wrote of it: `written` of the replies, and all of
  -- them where it ends without an error.
  pub record IsRun (lines out : List Text) (run : List Text × Result (Failure Text) (Unit {0}))
      : Type 0 where
    pub replies : List json.Value
    pub session : IsSession json methods lines replies
    pub written : ℕ
    pub output : run.0 ≡ out ++ map json.print (take written replies)
    pub complete : run.1 ≡ ok tt → run.0 ≡ out ++ map json.print replies

  send-IsRun :
      (line : Text) (lines out : List Text) (o : Option json.Value)
      → IsAnswer json methods line o
      → ((before : List Text) → IsRun lines before (serve lines before))
      → IsRun (line ∷ lines) out (send host json crates digests version (ok o) (serve lines) out)
  send-IsRun line lines out none a k =
      let r = k out in
      record {
        replies = r.replies;
        session = quiet a r.session;
        written = r.written;
        output = r.output;
        complete = r.complete;
      }
  send-IsRun line lines out (some resp) a k =
      let text = json.print resp in
      let after = out ++ text ∷ [] in
      let r = k after in
      elim (Result-cases (host.write out text)) [
        | inr (e, failed) ↦ rw failed (record {
          replies = resp ∷ r.replies;
          session = reply a r.session;
          written = 0;
          output = sym (append-nil out);
          complete = λ h. absurd (err_ne_ok h);
        })
        | inl (u, taken) ↦ elim (Result-cases (host.flush after)) [
          | inr (e, failed) ↦
              rw (taken, failed)
                (record {
                  replies = resp ∷ r.replies;
                  session = reply a r.session;
                  written = 1;
                  output = refl;
                  complete = λ h. absurd (err_ne_ok h);
                })
          | inl (v, flushed) ↦
              rw (taken, flushed)
                (record {
                  replies = resp ∷ r.replies;
                  session = reply a r.session;
                  written = suc r.written;
                  output =
                      r.output
                      ∙ append_assoc out (text ∷ []) (map json.print (take r.written r.replies));
                  complete =
                      λ h. r.complete h ∙ append_assoc out (text ∷ []) (map json.print r.replies);
                })
        ]
      ]

  serve-IsRun : (lines out : List Text) → AreLines lines → IsRun lines out (serve lines out)
  unfolding serve_stdio
  serve-IsRun [] out h = record {
    replies = [];
    session = done;
    written = 0;
    output = sym (append-nil out);
    complete = λ e. sym (append-nil out);
  }
  serve-IsRun ([] ∷ lines) out (h, hs) = absurd (h refl)
  serve-IsRun ((c ∷ line) ∷ lines) out (h, hs) =
      let (o, answer, step) =
        handle_line-Gives json lawful host crates digests version (c ∷ line) in
      elim step [
        | inl handled ↦
            rw handled
              (send-IsRun (c ∷ line) lines out o answer (λ before. serve-IsRun lines before hs))
        | inr (stopped, unanswered, why) ↦
            let rest = serve-IsRun lines out hs in
            rw stopped (record {
              replies = rest.replies;
              session =
                  quiet (subst (IsAnswer json methods (c ∷ line)) unanswered answer) rest.session;
              written = 0;
              output = sym (append-nil out);
              complete = λ e. absurd (err_ne_ok e);
            })
      ]

  -- `flush` never fails.
  abbrev pub Flushes : Type 0
  Flushes = (out : List Text) → host.flush out ≡ ok tt

  sent_ends :
      (o : Option json.Value) (out : List Text)
      (rest : List Text → List Text × Result (Failure Text) (Unit {0}))
      → TakesLines host
      → Flushes
      → ((before : List Text) → (rest before).1 ≡ ok tt)
      → (send host json crates digests version (ok o) rest out).1 ≡ ok tt
  sent_ends none out rest takes flushes k = k out
  sent_ends (some resp) out rest takes flushes k =
      rw (takes out (json.print resp), flushes (out ++ json.print resp ∷ []))
        (k (out ++ json.print resp ∷ []))

  serve_ends :
      (lines out : List Text)
      → AreLines lines
      → ThreadsStart host
      → All (IsServable json) lines
      → TakesLines host
      → Flushes
      → (serve lines out).1 ≡ ok tt
  unfolding serve_stdio
  serve_ends [] out h starts servable takes flushes = refl
  serve_ends ([] ∷ lines) out (h, hs) starts servable takes flushes = refl
  serve_ends ((c ∷ line) ∷ lines) out (h, hs) starts (servable, others) takes flushes =
      let (o, handled, answer) =
        handle_line-IsAnswer json lawful host crates digests version (c ∷ line) starts servable in
      rw handled (
        sent_ends o out (serve lines) takes flushes
          (λ before. serve_ends lines before hs starts others takes flushes))

  -- With a stdout that takes every line, threads that can be started, and requests with fewer than
  -- 2 ^ 60 lengths in their ranges, the server reads its input to the end, and writes exactly the
  -- replies of a session: each line by itself is answered with one line or with none, in the order of
  -- the lines.
  pub serve_stdio-IsSession :
      (lines : List Text)
      → AreLines lines
      → ThreadsStart host
      → All (IsServable json) lines
      → TakesLines host
      → Flushes
      → (replies : List json.Value) × IsSession json methods lines replies
        × (serve lines [] ≡ (map json.print replies, ok tt))
  serve_stdio-IsSession lines h starts servable takes flushes =
      let r = serve-IsRun lines [] h in
      let end = serve_ends lines [] h starts servable takes flushes in
      (r.replies, r.session, ap₂ (λ a b. (a, b)) (r.complete end) end)

  -- If stdout may fail, what the server wrote is a first part of the replies of a session, in their
  -- order, and all of them where it ends without an error.
  pub serve_stdio_prefix :
      (lines : List Text)
      → AreLines lines
      → (replies : List json.Value) × IsSession json methods lines replies
        × ((n : ℕ) × ((serve lines []).0 ≡ map json.print (take n replies)))
        × ((serve lines []).1 ≡ ok tt → (serve lines []).0 ≡ map json.print replies)
  serve_stdio_prefix lines h =
      let r = serve-IsRun lines [] h in (r.replies, r.session, (r.written, r.output), r.complete)

  -- With a stdout that takes every line, threads that can be started, and requests with fewer than
  -- 2 ^ 60 lengths in their ranges, each line with a request that has an id is answered: some line on
  -- stdout is a reply of JSON-RPC 2.0 with this id.
  pub request_answered :
      (lines : List Text) (line : Text) (req id : json.Value)
      → AreLines lines
      → ThreadsStart host
      → All (IsServable json) lines
      → TakesLines host
      → Flushes
      → Memᴰ line lines
      → trim line ≢ []
      → json.parse (trim line) ≡ ok req
      → json.get (codes "id") req ≡ some id
      → (r : json.Value) × Memᴰ (json.print r) (serve lines []).0 × HasReply json id r
  request_answered lines line req id h starts servable takes flushes m full parsed given =
      let (replies, session, run) = serve_stdio-IsSession lines h starts servable takes flushes in
      let (r, n, good) = session_answers json methods session m full parsed given returns in
      (r, subst (Memᴰ (json.print r)) (sym (ap (λ p. p.0) run)) (Memᴰ.map json.print n), good)
    where
      returns :
          dispatch host json crates digests version (method_of json req) (params_of json req)
          ≢ err panic
      returns e = subst Returns e (
          dispatch-Returns host json crates digests starts version (method_of json req)
            (params_of json req) (All-mem (IsServable json) lines line m servable req parsed))
