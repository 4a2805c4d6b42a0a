-- ===== src/Examples/ToolCalls.antt =====
-- Calls of the server's tools on stand-ins for the system and for `serde_json`: mcp.rs.
use memhunt.Base.{none, ℕ, ◌≡◌, ◌≢◌, ◌↔◌, refl, arith, Text, codes, List, [], ◌∷◌, Memᴰ}
use memhunt.Base.{some, take, split, trim}
use memhunt.Base.{ok, raise}
use memhunt.HashScan.Algos.{md5, parse, part_algo}
use memhunt.HashScan.Scan.{HashHit, HashScanResult}
use memhunt.HashScan.Preimages.{IsPreimage}
use memhunt.Mcp.Tools.{decode_blob, preimage_algos, hash_scan_config, tool_hash_scan}
use memhunt.Mcp.HashCalls.{tool_hash_scan-preimages, default_call_fails}
use memhunt.Examples.KeySchedules.{hex}
use memhunt.Examples.Hashes
use memhunt.Examples.Hashes.{digests}
use memhunt.Examples.Scans
use memhunt.Examples.Scans.{crates}
use memhunt.Examples.Commands
use memhunt.Report.{Confidence, ScanResult, ecb}
use memhunt.Oracle.{best_match}
use memhunt.Engine.Choice.{CipherChoice, label}
use memhunt.Engine.Finish.{finalize_hit}
use memhunt.Engine.Hunt.Decrypts.{Decrypts}
use memhunt.Engine.Hunt.Keys.{IsKeyAt}
use memhunt.Engine.Scan.Keys.{IsCut}
use memhunt.Cli.Decode.{is_hexdigit}
use memhunt.Base.{panic, ◌-◌, ◌^◌}
use memhunt.Mcp.Capacity.{hmac_range_panics}
use memhunt.Mcp.ScanCalls.{IsScanCall, tool_scan-ecb_keys}
use memhunt.Mcp.Tools.{decode_hex_arg, tool_scan}
use memhunt.Base.{as_bytes, concat, Bytes, err}
use memhunt.Examples.Machine.{host, Value, number, string, object, field, end, json}
use memhunt.Examples.Machine.{ping}

abbrev with_algos : Value
with_algos = object (
    field (codes "dump_path") (string (codes "dump")) (
      field (codes "mode") (string (codes "preimage")) (
        field (codes "digest") (string (hex Hashes.target))
          (field (codes "algos") (string (codes "md5")) end))))

abbrev without_algos : Value
without_algos = object (field (codes "mode") (string (codes "preimage")) end)

algos_read : preimage_algos json with_algos ≡ ok (md5 ∷ [])
unfolding preimage_algos parse part_algo split trim
algos_read = refl

tool_hash_scan-preimages_example :
    (r : HashScanResult) × (tool_hash_scan (host Hashes.dump) json hex digests with_algos
      ≡ raise (json.hashes_value r))
    × ((hit : HashHit)
        → Memᴰ hit r.hits
          ↔ IsPreimage hex digests Hashes.dump Hashes.target
              (hash_scan_config json with_algos)
              (md5 ∷ [])
              hit)
tool_hash_scan-preimages_example =
    tool_hash_scan-preimages (host Hashes.dump) json hex digests with_algos Hashes.dump
      Hashes.target (md5 ∷ [])
      (record {
        path = codes "dump";
        path_given = refl;
        mode_given = refl;
        target = hex Hashes.target;
        target_given = refl;
        decoded = refl;
        readable = refl;
        listed = algos_read;
        ordered = omega arith;
      })
      (record {
        not_empty = omega arith;
        lengths_match = (refl, tt);
        positive = omega arith;
        unlimited = refl;
      })

default_call_fails_example :
    tool_hash_scan (host Hashes.dump) json hex digests without_algos ≢ ok ping
default_call_fails_example =
    default_call_fails (host Hashes.dump) json hex digests without_algos ping refl refl refl

abbrev scan_args : Value
scan_args = object (
    field (codes "dump_path") (string (codes "dump")) (
      field (codes "ciphertext") (string (hex (concat Scans.blocks))) (
        field (codes "ciphers") (string (codes "aes-128,sm4"))
          (field (codes "oracles") (string (codes "json")) end))))

target_read :
    decode_blob (host Scans.dump) (hex (concat Scans.blocks)) ≡ ok Commands.inputs.ciphertext
unfolding decode_blob is_hexdigit trim as_bytes
target_read = refl

scan_args-IsScanCall : IsScanCall (host Scans.dump) json crates scan_args Commands.inputs
unfolding decode_hex_arg
scan_args-IsScanCall = record {
  path = codes "dump";
  path_given = refl;
  target = hex (concat Scans.blocks);
  target_given = refl;
  readable = refl;
  decoded = target_read;
  ciphers = Commands.ciphers_read;
  oracles = Commands.oracles_read;
  fixed_iv = refl;
  start = refl;
  tag = refl;
  aad = refl;
  threads_run = refl;
}

tool_scan-ecb_keys_example :
    (r : ScanResult) × (tool_scan (host Scans.dump) json crates scan_args
      ≡ raise (json.scan_value r))
    × ((choice : CipherChoice) (c : IsCut crates (concat Scans.blocks) Scans.config choice)
          (offset : ℕ) (k : Bytes) (ps : List Bytes) (found : Text × Confidence)
        → Memᴰ choice Scans.config.ciphers
        → IsKeyAt Scans.dump c.cipher offset k
        → Decrypts c.cipher k c.blocks ps
        → best_match Scans.oracles (concat (take 2 ps)) ≡ some found
        → Memᴰ
            (finalize_hit hex (label choice) ecb k offset none none [] (concat ps) found.0 found.1)
            r.hits)
tool_scan-ecb_keys_example =
    tool_scan-ecb_keys (host Scans.dump) json crates scan_args Commands.inputs scan_args-IsScanCall
      Scans.search (Scans.aes_cut, (Scans.sm4_cut, tt))

-- The greatest length is 2 ^ 64 - 1.
abbrev wide_range : Value
wide_range = object (
    field (codes "dump_path") (string (codes "dump")) (
      field (codes "mode") (string (codes "hmac_key")) (
        field (codes "digest") (string (hex Hashes.target)) (
          field (codes "algos") (string (codes "md5")) (
            field (codes "message") (string (codes "m"))
              (field (codes "max_len") (number (2 ^ 64 - 1)) end))))))

one_algo_read : parse (codes "md5") ≡ ok (md5 ∷ [])
unfolding parse part_algo split trim
one_algo_read = refl

hmac_range_panics_example :
    tool_hash_scan (host Hashes.dump) json hex digests wide_range ≡ err panic
hmac_range_panics_example =
    hmac_range_panics (host Hashes.dump) json hex digests wide_range
      (record {
        path = codes "dump";
        path_given = refl;
        mode_given = refl;
        target = hex Hashes.target;
        target_given = refl;
        mac = Hashes.target;
        decoded = refl;
        dump = Hashes.dump;
        readable = refl;
        listed = codes "md5";
        algos_given = refl;
        algo = md5;
        one_algo = one_algo_read;
        message = codes "m";
        message_given = refl;
        fits = refl;
      })
      (omega arith) (omega arith)
