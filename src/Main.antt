-- ===== src/Main.antt =====
-- `main` of crates/memhunt-cli/src/main.rs: the commands, behind the parsing of the arguments.
use memhunt.Base.{ℕ, Text, Bool, List, []}
use memhunt.Base.{Result, ok, err, Failure, error, panic}
use memhunt.Cipher.{Crates}
use memhunt.HashScan.Algos.{Digests}
use memhunt.Host.{Host}
use memhunt.Cli.Run.{ScanOptions, HashOptions, Run, run_scan, run_key_schedules, run_hash}
use memhunt.Mcp.Json.{Json}
use memhunt.Mcp.Serve.{serve_stdio}

-- `Command`, with the path and the flag of `key-schedules`.
pub data Command : Type 0 where
  scan : ScanOptions → Command
  key_schedules : Text → Bool → Command
  hash : HashOptions → Command
  serve : Command

-- The `match` on the end of `serve_stdio`, and the code that a panic ends the process with.
abbrev pub serve_code : Result (Failure Text) (Unit {0}) → ℕ
serve_code (ok u) = 0
serve_code (err (error e)) = 2
serve_code (err panic) = 101

module _ (host : Host) (json : Json) (crates : Crates) (digests : Digests) (version : Text) where
  -- `stdin` is what `read_line` gives, call by call.
  unfoldable pub main : List (Result Text Text) → Command → Run
  main stdin (scan o) = run_scan host crates o
  main stdin (key_schedules dump json_lines) =
      run_key_schedules host crates.hex_encode dump json_lines
  main stdin (hash o) = run_hash host crates.hex_encode digests o
  main stdin serve =
      let (out, end) = serve_stdio host json crates digests version stdin [] in
      record { output = out; code = serve_code end }
