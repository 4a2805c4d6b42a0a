-- ===== src/Examples/Commands.antt =====
-- The commands on stand-ins for the system: main.rs.
use memhunt.Base.{ℕ, ◌≡◌, ◌↔◌, refl, inl, arith, Bytes, codes, true, false}
use memhunt.Base.{[], ◌∷◌, Memᴰ, none, some, concat, split, trim, strip_suffix}
use memhunt.Base.{to_ascii_lowercase, as_bytes, ok}
use memhunt.Report.{high, ecb}
use memhunt.Oracle.Spec.{parse_spec, part_oracles}
use memhunt.Engine.Choice.{aes128, sm4, block, parse_list, parse_parts, parse_part, token_ciphers}
use memhunt.Engine.Choice.{token_of}
use memhunt.Engine.Finish.{finalize_hit}
use memhunt.HashScan.Algos.{md5, parse, part_algo}
use memhunt.HashScan.Scan.{HashHit}
use memhunt.HashScan.Preimages.{IsPreimage}
use memhunt.Cli.Decode.{decode_ciphertext, try_hex, looks_hex, is_hexdigit}
use memhunt.Cli.Run.{ScanOptions, HashOptions, hash_config, decode_hex_arg, run_scan}
use memhunt.Cli.Run.{run_key_schedules, run_hash}
use memhunt.Cli.Searches.{HoldsSchedule, key_schedules_exit_iff, preimage_exit_iff}
use memhunt.Cli.Searches.{zero_length_exit}
use memhunt.Cli.Scans.{Inputs, IsRead, run_scan-ecb_key}
use memhunt.Examples.KeySchedules.{hex, aes_dump}
use memhunt.Examples.Hashes
use memhunt.Examples.Scans
use memhunt.Examples.Scans.{crates}
use memhunt.Examples.Machine.{host}

key_schedules_exit_iff_example :
    ((run_key_schedules (host aes_dump) hex (codes "dump") false).code ≡ 0)
    ↔ ((dump : Bytes) × ((host aes_dump).read_file (codes "dump") ≡ ok dump) × HoldsSchedule dump)
key_schedules_exit_iff_example =
    key_schedules_exit_iff (host aes_dump) hex (codes "dump") false (inl refl)

abbrev hash_options : ℕ → HashOptions
hash_options shortest = record {
  dump_path = codes "dump";
  mode = codes "preimage";
  digest = hex Hashes.target;
  algos = codes "md5";
  message = none;
  min_len = shortest;
  max_len = 16;
  json = false;
}

algos_read : parse (codes "md5") ≡ ok (md5 ∷ [])
unfolding parse part_algo split trim
algos_read = refl

preimage_exit_iff_example :
    ((run_hash (host Hashes.dump) hex Hashes.digests (hash_options 8)).code ≡ 0) ↔ (
      (hit : HashHit) × IsPreimage hex Hashes.digests Hashes.dump Hashes.target
        (hash_config (hash_options 8))
        (md5 ∷ [])
        hit)
preimage_exit_iff_example =
    preimage_exit_iff (host Hashes.dump) hex Hashes.digests (hash_options 8) Hashes.target
      Hashes.dump refl refl refl (md5 ∷ []) algos_read
      (record {
        not_empty = omega arith;
        lengths_match = (refl, tt);
        positive = omega arith;
        unlimited = refl;
      })
      (inl refl)

zero_length_exit_example :
    (run_hash (host Hashes.dump) hex Hashes.digests (hash_options 0)).code ≡ 101
zero_length_exit_example =
    zero_length_exit (host Hashes.dump) hex Hashes.digests (hash_options 0) Hashes.target
      Hashes.dump refl refl refl md5 [] algos_read refl refl

abbrev scan_options : ScanOptions
scan_options = record {
  dump_path = codes "dump";
  target = hex (concat Scans.blocks);
  encoding = codes "auto";
  oracle = codes "json";
  cipher = codes "aes-128,sm4";
  max_hits = 0;
  iv = none;
  nonce = none;
  tag = none;
  aad = none;
  no_iv_scan = false;
  json = true;
  threads = some 4;
}

abbrev pub inputs : Inputs
inputs = record {
  dump = Scans.dump;
  ciphertext = concat Scans.blocks;
  oracles = Scans.oracles;
  selection = record { ciphers = aes128 ∷ sm4 ∷ []; mode = block };
  fixed_iv = none;
  start = none;
  tag = none;
  aad = none;
}

target_read :
    decode_ciphertext (host Scans.dump) scan_options.target (codes "auto") ≡ ok inputs.ciphertext
unfolding decode_ciphertext try_hex looks_hex is_hexdigit trim as_bytes
target_read = refl

pub oracles_read : parse_spec (codes "json") ≡ ok inputs.oracles
unfolding parse_spec part_oracles split trim
oracles_read = refl

pub ciphers_read : parse_list (codes "aes-128,sm4") ≡ ok inputs.selection
unfolding parse_list parse_parts split trim parse_part token_ciphers token_of strip_suffix
    to_ascii_lowercase
ciphers_read = refl

scan_options-IsRead : IsRead (host Scans.dump) scan_options inputs
unfolding decode_hex_arg
scan_options-IsRead = record {
  pooled = refl;
  target = target_read;
  oracles = oracles_read;
  ciphers = ciphers_read;
  fixed_iv = refl;
  start = refl;
  tag = refl;
  aad = refl;
  readable = refl;
}

run_scan-ecb_key_example :
    Memᴰ
      ((host Scans.dump).hit_json (
        finalize_hit hex
          (codes "aes-128")
          ecb
          Scans.key
          2
          none
          none
          []
          (concat Scans.plaintext)
          (codes "json")
          high))
      (run_scan (host Scans.dump) crates scan_options).output
    × ((run_scan (host Scans.dump) crates scan_options).code ≡ 0)
unfolding Scans.aes_cut
run_scan-ecb_key_example =
    run_scan-ecb_key (host Scans.dump) crates scan_options inputs scan_options-IsRead refl
      (λ out line. refl) Scans.search (Scans.aes_cut, (Scans.sm4_cut, tt)) aes128 Scans.aes_cut 2
      Scans.key Scans.plaintext (codes "json", high) (Memᴰ.head refl) Scans.key_at Scans.decrypts
      Scans.accepted
