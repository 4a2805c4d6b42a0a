-- ===== src/Mcp/Tools.antt =====
-- The tools of the server: `tool_scan`, `tool_key_schedules` and `tool_hash_scan`.
-- An error is a `String`.
use memhunt.Base.{ℕ, ◌%◌, Bytes, Text, codes, Bool, true, false, not, ◌&&◌, ◌||◌, ◌++◌}
use memhunt.Base.{List, [], ◌∷◌, Option, none, some, length, is_empty, all, ltb, ◌==◌, eq_list}
use memhunt.Base.{if◌then◌else◌, trim, as_bytes}
use memhunt.Base.{Result, ok, err, Failure, error, panic, raise, ◌>>=◌, ◌>>◌, fail_if}
use memhunt.Base.{map_err, map_error, some_or}
use memhunt.Cipher.{Crates}
use memhunt.Oracle.Spec.{parse_spec}
use memhunt.KeySched.Scan.{scan_key_schedules}
use memhunt.Oracle.{Oracle}
use memhunt.Engine.Choice.{CipherChoice, gcm, eq_mode, parse_list}
use memhunt.Report.{ScanResult}
use memhunt.Engine.Config.{ScanConfig, ScanError, is_some, no_oracle, validate_config}
use memhunt.Engine.Scan.{scan_choice, scan}
use memhunt.HashScan.Algos.{Digests, HashAlgoSpec, md5, sha1, sha256, sm3, parse}
use memhunt.HashScan.Scan.{HashScanConfig, scan_preimages, scan_hmac_keys}
use memhunt.Messages.{spec_message, list_message, scan_message, hash_message}
use memhunt.Host.{Host}
use memhunt.Cli.Decode.{is_hexdigit}
use memhunt.Mcp.Json.{Json, text_arg, number_arg}

-- `unwrap_or`.
abbrev pub or_default {ℓ} : {A : Type ℓ} → Option A → A → A
or_default none d = d
or_default (some a) d = a

-- `vec![…]` of `tool_hash_scan`.
abbrev pub default_algos : List HashAlgoSpec
default_algos = md5 ∷ sha1 ∷ sha256 ∷ sm3 ∷ []

module _ (crates : Crates) (dump ciphertext : Bytes) (oracles : List Oracle)
    (config : ScanConfig) where
  -- A cipher of the list is hunted: the ciphers before it are skipped.
  unfoldable pub starts_pass : List CipherChoice → Bool
  starts_pass [] = false
  starts_pass (choice ∷ choices) =
      let rest = starts_pass choices in
      elim (scan_choice crates dump ciphertext oracles config choice 0) [
        | err e ↦ false
        | ok none ↦ rest
        | ok (some found) ↦ true
      ]

  -- `scan` behind `let _ = …build_global()`: the error of the pool is lost, and where its threads
  -- could not be started, the first pass over the windows panics.
  unfoldable pub scan_in_pool : Bool → Result (Failure ScanError) ScanResult
  unfolding starts_pass
  scan_in_pool true = scan crates dump ciphertext oracles config
  scan_in_pool false = do
    raise (validate_config config)
    raise (
        fail_if ((not (eq_mode config.mode gcm) || not (is_some config.tag)) && is_empty oracles)
          no_oracle)
    let whole = scan crates dump ciphertext oracles config
    if starts_pass config.ciphers then err panic else whole

-- The algorithm of a list that holds exactly one.
abbrev pub single_algo : List HashAlgoSpec → Result Text HashAlgoSpec
single_algo (algo ∷ []) = ok algo
single_algo [] = err (codes "hmac_key mode takes exactly one algo")
single_algo (a ∷ b ∷ more) = err (codes "hmac_key mode takes exactly one algo")

module _ (json : Json) where
  -- The algorithms that a preimage search takes.
  unfoldable pub preimage_algos : json.Value → Result Text (List HashAlgoSpec)
  preimage_algos args = elim (text_arg json (codes "algos") args) [
    | some s ↦ map_err hash_message (parse s)
    | none ↦ ok default_algos
  ]

  abbrev pub hash_scan_config : json.Value → HashScanConfig
  hash_scan_config args = record {
    lengths = record {
      min = or_default (number_arg json (codes "min_len") args) 8;
      max = or_default (number_arg json (codes "max_len") args) 128;
    };
    max_hits = or_default (number_arg json (codes "max_hits") args) 0;
  }

module _ (host : Host) where
  -- `decode_blob`: hex where the text is hex, and base64 otherwise.
  unfoldable pub decode_blob : Text → Result Text Bytes
  unfolding is_hexdigit
  decode_blob s =
      let t = trim s in
      let looks_hex = all is_hexdigit t && length (as_bytes t) % 2 == 0 && not (is_empty t) in
      let base64 =
        some_or (host.base64_decode t) (codes "could not decode input as hex or base64") in
      if looks_hex then elim (host.hex_decode t) [ some v ↦ ok v | none ↦ base64 ] else base64

  unfoldable pub read_dump : Text → Result Text Bytes
  read_dump dump_path =
      map_err (λ e. codes "read " ++ (dump_path ++ (codes ": " ++ e))) (host.read_file dump_path)

  -- `if let Some(n) = …` on the argument `threads`.
  abbrev pub pool_runs : Option ℕ → Bool
  pool_runs none = true
  pool_runs (some n) = host.passes_run n

  module _ (json : Json) where
    -- `.ok_or(…)?` behind an argument.
    abbrev pub need : Text → Text → json.Value → Result Text Text
    need name message args = some_or (text_arg json name args) message

    -- The closure `decode_hex_arg`.
    unfoldable pub decode_hex_arg : json.Value → Text → Result Text (Option Bytes)
    decode_hex_arg args name = elim (text_arg json name args) [
      | none ↦ ok none
      | some value ↦
          some_or (host.hex_decode value) (codes "invalid " ++ (name ++ codes " hex")) >>= λ bytes.
          ok (some bytes)
    ]

    unfoldable pub tool_scan : Crates → json.Value → Result (Failure Text) json.Value
    unfolding read_dump decode_blob decode_hex_arg
    tool_scan crates args = do
      dump_path ← raise (need (codes "dump_path") (codes "dump_path is required") args)
      ciphertext_s ← raise (need (codes "ciphertext") (codes "ciphertext is required") args)
      dump ← raise (read_dump dump_path)
      ciphertext ← raise (decode_blob ciphertext_s)
      let ciphers = or_default (text_arg json (codes "ciphers") args) (codes "aes")
      selection ← raise (map_err list_message (parse_list ciphers))
      let spec = or_default (text_arg json (codes "oracles") args) (codes "utf8,json")
      oracles ← raise (map_err spec_message (parse_spec spec))
      fixed_iv ← raise (decode_hex_arg args (codes "iv"))
      nonce ← raise (decode_hex_arg args (codes "nonce"))
      tag ← raise (decode_hex_arg args (codes "tag"))
      aad ← raise (decode_hex_arg args (codes "aad"))
      let usable = pool_runs (number_arg json (codes "threads") args)
      result ← map_error scan_message (
          scan_in_pool crates dump ciphertext oracles
            (record {
              ciphers = selection.ciphers;
              mode = selection.mode;
              max_hits = or_default (number_arg json (codes "max_hits") args) 0;
              scan_iv = true;
              fixed_iv = fixed_iv;
              nonce = nonce;
              tag = tag;
              aad = aad;
            })
            usable)
      raise (json.scan_value result)

    module _ (hex_encode : Bytes → Text) where
      unfoldable pub tool_key_schedules : json.Value → Result (Failure Text) json.Value
      unfolding read_dump
      tool_key_schedules args = do
        dump_path ← raise (need (codes "dump_path") (codes "dump_path is required") args)
        dump ← raise (read_dump dump_path)
        raise (json.schedules_value (scan_key_schedules hex_encode dump))

      module _ (digests : Digests) where
        unfoldable pub preimage_mode :
            json.Value → Bytes → Bytes → HashScanConfig → Result (Failure Text) json.Value
        unfolding preimage_algos
        preimage_mode args digest dump config = do
          algos ← raise (preimage_algos json args)
          result ←
              map_error hash_message (scan_preimages hex_encode digests dump digest config algos)
          raise (json.hashes_value result)

        unfoldable pub hmac_key_mode :
            json.Value → Bytes → Bytes → HashScanConfig → Result (Failure Text) json.Value
        hmac_key_mode args digest dump config = do
          algo_s ← raise (
              need (codes "algos")
                (codes "algos is required for hmac_key mode (one of md5|sha1|sha256|sm3)") args)
          algos ← raise (map_err hash_message (parse algo_s))
          algo ← raise (single_algo algos)
          message ←
              raise (need (codes "message") (codes "message is required for hmac_key mode") args)
          result ←
              map_error hash_message
                (scan_hmac_keys hex_encode digests dump digest config algo (as_bytes message))
          raise (json.hashes_value result)

        -- The `match` on the mode.
        unfoldable pub hash_mode :
            Text → json.Value → Bytes → Bytes → HashScanConfig → Result (Failure Text) json.Value
        unfolding preimage_mode hmac_key_mode
        hash_mode mode args digest dump config =
            if eq_list mode (codes "preimage")
            then preimage_mode args digest dump config
            else if eq_list mode (codes "hmac_key")
            then hmac_key_mode args digest dump config
            else err (error (codes "unknown mode '" ++ (mode ++ codes "' (preimage | hmac_key)")))

        unfoldable pub tool_hash_scan : json.Value → Result (Failure Text) json.Value
        unfolding read_dump hash_mode
        tool_hash_scan args = do
          dump_path ← raise (need (codes "dump_path") (codes "dump_path is required") args)
          mode ← raise (need (codes "mode") (codes "mode is required (preimage | hmac_key)") args)
          digest_s ← raise (need (codes "digest") (codes "digest is required") args)
          digest ← raise (some_or (host.hex_decode digest_s) (codes "digest must be hex"))
          dump ← raise (read_dump dump_path)
          let config = hash_scan_config json args
          let range = config.lengths
          raise (
              fail_if (ltb range.min 1 || ltb range.max range.min)
                (codes "max_len must be >= min_len >= 1"))
          hash_mode mode args digest dump config
