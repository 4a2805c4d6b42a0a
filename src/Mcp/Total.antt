-- ===== src/Mcp/Total.antt =====
-- No tool of the server panics.
pub mod Requests
use memhunt.Base.{◌<◌, ◌≡◌, inl, inr, arith, subst}
use memhunt.Base.{Bytes, Text, codes, Bool, true, false, ◌||◌, List, Option, none, some}
use memhunt.Base.{eq_list, ltb, Bool-cases, if◌then◌else◌, as_bytes}
use memhunt.Base.{
  Result, ok, err, Failure, error, panic, raise, ◌>>=◌, ◌>>◌, fail_if, map_err, map_error,
}
use memhunt.Base.{
  ◌++◌, Option-cases, some_or, Returns, raise-Returns, bind-Returns, if-Returns, map_error-Returns,
}
use memhunt.Base.{some_inj, ne_panic-Returns, raised-Returns}
use memhunt.Cipher.{Crates}
use memhunt.Oracle.{Oracle}
use memhunt.Oracle.Spec.{parse_spec}
use memhunt.KeySched.Scan.{scan_key_schedules}
use memhunt.Engine.Choice.{parse_list}
use memhunt.Engine.Config.{ScanConfig}
use memhunt.Engine.Scan.{scan}
use memhunt.Engine.Scan.Total.{scan_never_unreachable}
use memhunt.HashScan.Algos.{Digests, HashError, parse}
use memhunt.Base.{ℕ, ◌≡◌, refl, true, Bool, Option, none, some}
use memhunt.Mcp.Json.{number_arg}
use memhunt.Mcp.Tools.{pool_runs, scan_in_pool}
use memhunt.HashScan.Scan.{Collects, HashScanConfig, HashScanResult, scan_preimages, scan_hmac_keys}
use memhunt.HashScan.Total.{scan_preimages-Returns, scan_hmac_keys-Returns}
use memhunt.Messages.{spec_message, list_message, scan_message, hash_message}
use memhunt.Host.{Host}
use memhunt.Mcp.Json.{Json, text_arg}
use memhunt.Mcp.Tools.{or_default, need, read_dump, decode_blob, decode_hex_arg, single_algo}
use memhunt.Mcp.Tools.{preimage_algos, preimage_mode, hmac_key_mode, hash_mode, hash_scan_config}
use memhunt.Mcp.Tools.{tool_scan, tool_key_schedules, tool_hash_scan}
use memhunt.Mcp.Dispatch.{no_fields, wrap_result, named_tool, tools_call, dispatch}

-- The threads that a call asks for can be started.
abbrev pub ThreadsStart : Host → Type 0
ThreadsStart host = (n : ℕ) → host.passes_run n ≡ true

module _ (host : Host) (json : Json) where
  pub tool_scan-Returns :
      (crates : Crates) (args : json.Value)
      → ThreadsStart host
      → Returns (tool_scan host json crates args)
  unfolding tool_scan scan_in_pool
  tool_scan-Returns crates args starts =
      raised-Returns (need host json (codes "dump_path") (codes "dump_path is required") args) _
        (λ dump_path.
          raised-Returns (need host json (codes "ciphertext") (codes "ciphertext is required") args)
            _
            (λ ciphertext_s. raised-Returns (read_dump host dump_path) _ (λ dump.
              raised-Returns (decode_blob host ciphertext_s) _ (λ ciphertext.
                raised-Returns
                  (map_err list_message
                    (parse_list (or_default (text_arg json (codes "ciphers") args) (codes "aes"))))
                  _
                  (λ selection.
                    raised-Returns
                      (map_err spec_message (
                        parse_spec
                          (or_default (text_arg json (codes "oracles") args) (codes "utf8,json"))))
                      _
                      (λ oracles.
                        raised-Returns (decode_hex_arg host json args (codes "iv")) _ (λ fixed_iv.
                          raised-Returns (decode_hex_arg host json args (codes "nonce")) _ (λ start.
                            raised-Returns (decode_hex_arg host json args (codes "tag")) _ (λ tag.
                              raised-Returns (decode_hex_arg host json args (codes "aad")) _
                                (λ aad. searched dump ciphertext oracles _))))))))))
    where
      usable : Bool
      usable = pool_runs host (number_arg json (codes "threads") args)

      all_start : (threads : Option ℕ) → pool_runs host threads ≡ true
      all_start none = refl
      all_start (some n) = starts n

      searched :
          (dump ciphertext : Bytes) (oracles : List Oracle) (config : ScanConfig)
          → Returns (
              map_error scan_message (scan_in_pool crates dump ciphertext oracles config usable)
              >>= λ r. raise (json.scan_value r))
      searched dump ciphertext oracles config =
          let r = scan crates dump ciphertext oracles config in
          rw (all_start (number_arg json (codes "threads") args)) (
            bind-Returns (map_error scan_message r) _
              (map_error-Returns scan_message r
                (ne_panic-Returns r (scan_never_unreachable crates dump ciphertext oracles config)))
              (λ result. raise-Returns (json.scan_value result)))

  module _ (hex_encode : Bytes → Text) where
    pub tool_key_schedules-Returns :
        (args : json.Value) → Returns (tool_key_schedules host json hex_encode args)
    unfolding tool_key_schedules
    tool_key_schedules-Returns args =
        raised-Returns (need host json (codes "dump_path") (codes "dump_path is required") args) _
          (λ dump_path.
            raised-Returns (read_dump host dump_path) _
              (λ dump. raise-Returns (json.schedules_value (scan_key_schedules hex_encode dump))))

    module _ (digests : Digests) where
      found-Returns :
          (r : Result (Failure HashError) HashScanResult)
          → Returns r
          → Returns (map_error hash_message r >>= λ result. raise (json.hashes_value result))
      found-Returns r h =
          bind-Returns (map_error hash_message r) _ (map_error-Returns hash_message r h)
            (λ result. raise-Returns (json.hashes_value result))

      module _ (args : json.Value) (digest dump : Bytes) (config : HashScanConfig)
          (pos : 0 < config.lengths.min) (held : Collects config.lengths) where
        preimage_mode-Returns :
            Returns (preimage_mode host json hex_encode digests args digest dump config)
        unfolding preimage_mode
        preimage_mode-Returns = raised-Returns (preimage_algos json args) _ (λ algos.
            found-Returns (scan_preimages hex_encode digests dump digest config algos)
              (scan_preimages-Returns hex_encode digests dump digest config pos algos))

        hmac_key_mode-Returns :
            Returns (hmac_key_mode host json hex_encode digests args digest dump config)
        unfolding hmac_key_mode
        hmac_key_mode-Returns =
            raised-Returns
              (need host json (codes "algos")
                (codes "algos is required for hmac_key mode (one of md5|sha1|sha256|sm3)") args)
              _
              (λ algo_s. raised-Returns (map_err hash_message (parse algo_s)) _ (λ algos.
                raised-Returns (single_algo algos) _ (λ algo.
                  raised-Returns
                    (need host json (codes "message")
                      (codes "message is required for hmac_key mode") args)
                    _
                    (λ message.
                      found-Returns
                        (scan_hmac_keys hex_encode digests dump digest config algo
                          (as_bytes message))
                        (scan_hmac_keys-Returns hex_encode digests dump digest config pos algo
                          (as_bytes message) held)))))

        hash_mode-Returns :
            (mode : Text)
            → Returns (hash_mode host json hex_encode digests mode args digest dump config)
        unfolding hash_mode
        hash_mode-Returns mode =
            if-Returns (eq_list mode (codes "preimage"))
              (preimage_mode host json hex_encode digests args digest dump config) _
              preimage_mode-Returns
              (if-Returns (eq_list mode (codes "hmac_key"))
                (hmac_key_mode host json hex_encode digests args digest dump config) (err (error _))
                hmac_key_mode-Returns tt)

      checked-Returns :
          (args : json.Value) (digest dump : Bytes) (config : HashScanConfig) (message mode : Text)
          → Collects config.lengths
          → Returns (
              raise (
                fail_if
                  (ltb config.lengths.min 1 || ltb config.lengths.max config.lengths.min)
                  message)
              >> hash_mode host json hex_encode digests mode args digest dump config)
      checked-Returns args digest dump config message mode held =
          elim (Bool-cases (ltb config.lengths.min 1)) [
            | inl none_short ↦ rw none_short tt
            | inr positive ↦ elim (Bool-cases (ltb config.lengths.max config.lengths.min)) [
              | inl reversed ↦ rw (positive, reversed) tt
              | inr ordered ↦
                  rw (positive, ordered)
                    (hash_mode-Returns args digest dump config (ground arith) held mode)
            ]
          ]

      -- `memhunt_hash_scan` does not panic where its range has fewer than 2 ^ 60 lengths: a shortest
      -- length of 0, which makes the searches panic, is refused before.
      pub tool_hash_scan-Returns :
          (args : json.Value)
          → Collects (hash_scan_config json args).lengths
          → Returns (tool_hash_scan host json hex_encode digests args)
      unfolding tool_hash_scan
      tool_hash_scan-Returns args held =
          raised-Returns (need host json (codes "dump_path") (codes "dump_path is required") args) _
            (λ dump_path.
              raised-Returns
                (need host json (codes "mode") (codes "mode is required (preimage | hmac_key)")
                  args)
                _
                (λ mode.
                  raised-Returns (need host json (codes "digest") (codes "digest is required") args)
                    _
                    (λ digest_s.
                      raised-Returns
                        (some_or (host.hex_decode digest_s) (codes "digest must be hex")) _
                        (λ digest. raised-Returns (read_dump host dump_path) _ (λ dump.
                          checked-Returns args digest dump (hash_scan_config json args) _ mode
                            held)))))
