-- ===== src/Cli/Run.antt =====
-- `run_scan`, `run_key_schedules` and `run_hash`: what they write on stdout, and their exit codes.
-- What goes to stderr is not modelled.
use memhunt.Base.{ℕ, zero, suc, Bytes, Text, codes, Bool, not, List, [], ◌∷◌, ◌++◌}
use memhunt.Base.{Option, none, some, length, take, eq_list, if◌then◌else◌, as_bytes}
use memhunt.Base.{Result, ok, err, Failure, error, panic, raise, ◌>>=◌, ◌>>◌, map_err, map_error}
use memhunt.Base.{some_or}
use memhunt.Cipher.{Crates}
use memhunt.Report.{Hit}
use memhunt.Oracle.Spec.{parse_spec}
use memhunt.KeySched.Scan.{KeyScheduleHit, scan_key_schedules}
use memhunt.Engine.Choice.{parse_list}
use memhunt.Engine.Scan.{scan}
use memhunt.HashScan.Algos.{Digests, HashAlgoSpec, parse}
use memhunt.HashScan.Scan.{HashHit, HashScanConfig, scan_preimages, scan_hmac_keys}
use memhunt.Host.{Host}
use memhunt.Cli.Decode.{CliError, unreadable, pool, of_spec, of_list, of_scan, of_hash}
use memhunt.Cli.Decode.{bad_hex_arg, write_failed, digest_not_hex, no_algo_given, no_message}
use memhunt.Cli.Decode.{unknown_mode, decode_ciphertext}
use memhunt.Cli.Print.{print_human, print_key_hit, print_hash_hit}

-- The options of `memhunt scan`.
pub record ScanOptions : Type 0 where
  pub dump_path : Text
  pub target : Text
  pub encoding : Text
  pub oracle : Text
  pub cipher : Text
  pub max_hits : ℕ
  pub iv : Option Text
  pub nonce : Option Text
  pub tag : Option Text
  pub aad : Option Text
  pub no_iv_scan : Bool
  pub json : Bool
  pub threads : Option ℕ

-- The options of `memhunt hash`.
pub record HashOptions : Type 0 where
  pub dump_path : Text
  pub mode : Text
  pub digest : Text
  pub algos : Text
  pub message : Option Text
  pub min_len : ℕ
  pub max_len : ℕ
  pub json : Bool

abbrev pub hash_config : HashOptions → HashScanConfig
hash_config o = record { lengths = record { min = o.min_len; max = o.max_len }; max_hits = 0 }

-- The lines on stdout, and the exit code.
pub record Run : Type 0 where
  pub output : List Text
  pub code : ℕ

-- `match run()`, and the code that a panic ends the process with.
unfoldable pub exit_code : Result (Failure CliError) ℕ → ℕ
exit_code (ok zero) = 1
exit_code (ok (suc n)) = 0
exit_code (err (error e)) = 2
exit_code (err panic) = 101

-- `.map_err(…)?` behind a write.
abbrev after_write :
    Result Text (Unit {0})
    → List Text × Result CliError (Unit {0})
    → List Text
    → List Text × Result CliError (Unit {0})
after_write (ok u) rest out = rest
after_write (err e) rest out = (out, err (write_failed e))

-- `unwrap_or_default`.
abbrev or_no_bytes : Option Bytes → Bytes
or_no_bytes none = []
or_no_bytes (some bytes) = bytes

module _ (host : Host) where
  -- `std::fs::read(path).map_err(…)?`
  unfoldable pub read_dump : Text → Result CliError Bytes
  read_dump path = map_err (unreadable path) (host.read_file path)

  -- `let _ = writeln!(…)`: a line that stdout does not take is lost.
  unfoldable pub write_lines : List Text → List Text → List Text
  write_lines [] out = out
  write_lines (l ∷ lines) out =
      write_lines lines (elim (host.write out l) [ ok u ↦ out ++ l ∷ [] | err e ↦ out ])

  module _ {H : Type 0} (json_line : H → Text) (human_lines : H → List Text) where
    unfoldable pub emit_json : List H → List Text → List Text × Result CliError (Unit {0})
    emit_json [] out = (out, ok tt)
    emit_json (hit ∷ hits) out =
        after_write (host.write out (json_line hit)) (emit_json hits (out ++ json_line hit ∷ []))
          out

    unfoldable pub emit_human : List H → List Text → List Text
    unfolding write_lines
    emit_human [] out = out
    emit_human (hit ∷ hits) out = emit_human hits (write_lines (human_lines hit) out)

    unfoldable pub emit : Bool → List H → List Text × Result CliError (Unit {0})
    unfolding emit_json emit_human
    emit json hits = if json then emit_json hits [] else (emit_human hits [], ok tt)

    -- The hits are written, and their number is the result. A failure before writes nothing.
    unfoldable pub finish : Bool → Result (Failure CliError) (List H) → Run
    unfolding emit exit_code
    finish json (err e) = record { output = []; code = exit_code (err e) }
    finish json (ok hits) =
        let (out, written) = emit json hits in
        record { output = out; code = exit_code (raise written >>= λ u. ok (length hits)) }

  -- `value.as_deref().map(hex::decode).transpose()`.
  unfoldable pub decode_hex_arg : Option Text → Text → Result CliError (Option Bytes)
  decode_hex_arg none name = ok none
  decode_hex_arg (some value) name =
      some_or (host.hex_decode value) (bad_hex_arg name) >>= λ bytes. ok (some bytes)

  abbrev pub build_threads : Option ℕ → Result CliError (Unit {0})
  build_threads none = ok tt
  build_threads (some n) = map_err pool (host.build_pool n)

  module _ (crates : Crates) where
    -- The closure `run` of `run_scan`, up to the result of the scan.
    unfoldable pub scan_hits : ScanOptions → Result (Failure CliError) (List Hit)
    unfolding read_dump decode_hex_arg
    scan_hits o = do
      raise (build_threads o.threads)
      ciphertext ← raise (decode_ciphertext host o.target o.encoding)
      oracles ← raise (map_err of_spec (parse_spec o.oracle))
      selection ← raise (map_err of_list (parse_list o.cipher))
      fixed_iv ← raise (decode_hex_arg o.iv (codes "iv"))
      nonce ← raise (decode_hex_arg o.nonce (codes "nonce"))
      tag ← raise (decode_hex_arg o.tag (codes "tag"))
      aad ← raise (decode_hex_arg o.aad (codes "aad"))
      dump ← raise (read_dump o.dump_path)
      result ← map_error of_scan (
          scan crates dump ciphertext oracles (record {
            ciphers = selection.ciphers;
            mode = selection.mode;
            max_hits = o.max_hits;
            scan_iv = not o.no_iv_scan;
            fixed_iv = fixed_iv;
            nonce = nonce;
            tag = tag;
            aad = aad;
          }))
      ok result.hits

    unfoldable pub run_scan : ScanOptions → Run
    unfolding scan_hits finish
    run_scan o = finish host.hit_json print_human o.json (scan_hits o)

  module _ (hex_encode : Bytes → Text) where
    unfoldable pub key_hits : Text → Result (Failure CliError) (List KeyScheduleHit)
    unfolding read_dump
    key_hits dump_path = do
      dump ← raise (read_dump dump_path)
      ok (scan_key_schedules hex_encode dump).hits

    unfoldable pub run_key_schedules : Text → Bool → Run
    unfolding key_hits finish
    run_key_schedules dump_path json =
        finish host.key_hit_json print_key_hit json (key_hits dump_path)

    abbrev pub first_algo : List HashAlgoSpec → Option HashAlgoSpec
    first_algo [] = none
    first_algo (a ∷ algos) = some a

    module _ (digests : Digests) where
      unfoldable pub preimage_hits :
          HashOptions → Bytes → Bytes → HashScanConfig → Result (Failure CliError) (List HashHit)
      preimage_hits o digest dump config = do
        algos ← raise (map_err of_hash (parse o.algos))
        result ← map_error of_hash (scan_preimages hex_encode digests dump digest config algos)
        ok result.hits

      unfoldable pub hmac_hits :
          HashOptions → Bytes → Bytes → HashScanConfig → Result (Failure CliError) (List HashHit)
      hmac_hits o digest dump config = do
        algo_list ← raise (map_err of_hash (parse o.algos))
        algo ← raise (some_or (first_algo algo_list) no_algo_given)
        msg ← raise (some_or o.message no_message)
        result ←
            map_error of_hash
              (scan_hmac_keys hex_encode digests dump digest config algo (as_bytes msg))
        ok result.hits

      -- The closure `run` of `run_hash`, up to the result of the search.
      unfoldable pub hash_hits : HashOptions → Result (Failure CliError) (List HashHit)
      unfolding read_dump preimage_hits hmac_hits
      hash_hits o = do
        digest ← raise (some_or (host.hex_decode o.digest) digest_not_hex)
        dump ← raise (read_dump o.dump_path)
        let config = hash_config o
        if eq_list o.mode (codes "preimage")
            then preimage_hits o digest dump config
            else if eq_list o.mode (codes "hmac_key")
            then hmac_hits o digest dump config
            else err (error (unknown_mode o.mode))

      abbrev pub hash_preview : HashHit → Text
      hash_preview hit =
          take 80 (host.from_utf8_lossy (or_no_bytes (host.hex_decode hit.match_hex)))

      unfoldable pub run_hash : HashOptions → Run
      unfolding hash_hits finish
      run_hash o =
          finish host.hash_hit_json (λ hit. print_hash_hit (hash_preview hit) hit) o.json
            (hash_hits o)
