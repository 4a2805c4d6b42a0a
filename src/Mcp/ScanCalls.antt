-- ===== src/Mcp/ScanCalls.antt =====
-- `tool_scan` against the search that its arguments ask for.
use memhunt.Base.{ℕ, ◌≡◌, refl, Bytes, Text, codes, true, List, [], Memᴰ, none, some}
use memhunt.Base.{All, concat, take, ok, raise}
use memhunt.Report.{Confidence, ScanResult, ecb}
use memhunt.Cipher.{Crates}
use memhunt.Oracle.{best_match}
use memhunt.Oracle.Spec.{parse_spec}
use memhunt.Engine.Choice.{CipherChoice, label, parse_list}
use memhunt.Engine.Config.{ScanConfig}
use memhunt.Engine.Finish.{finalize_hit}
use memhunt.Engine.Hunt.Decrypts.{Decrypts}
use memhunt.Engine.Hunt.Keys.{IsKeyAt}
use memhunt.Engine.Scan.Keys.{IsBlockSearch, IsCut, scan_finds_ecb_keys}
use memhunt.Host.{Host}
use memhunt.Cli.Scans.{Inputs}
use memhunt.Mcp.Json.{Json, text_arg, number_arg}
use memhunt.Mcp.Tools.{
  or_default, read_dump, decode_blob, decode_hex_arg, pool_runs, scan_in_pool, tool_scan,
}

module _ (host : Host) (json : Json) (crates : Crates) (args : json.Value) (i : Inputs) where
  abbrev pub call_config : ScanConfig
  call_config = record {
    ciphers = i.selection.ciphers;
    mode = i.selection.mode;
    max_hits = or_default (number_arg json (codes "max_hits") args) 0;
    scan_iv = true;
    fixed_iv = i.fixed_iv;
    nonce = i.start;
    tag = i.tag;
    aad = i.aad;
  }

  -- The dump can be read, the threads that are asked for can be started, and the other arguments are
  -- accepted; `aes` and `utf8,json` stand for the
  -- ciphers and the oracles that are not given.
  pub record IsScanCall : Type 0 where
    pub path : Text
    pub path_given : text_arg json (codes "dump_path") args ≡ some path
    pub target : Text
    pub target_given : text_arg json (codes "ciphertext") args ≡ some target
    pub readable : host.read_file path ≡ ok i.dump
    pub decoded : decode_blob host target ≡ ok i.ciphertext
    pub ciphers :
        parse_list (or_default (text_arg json (codes "ciphers") args) (codes "aes"))
        ≡ ok i.selection
    pub oracles :
        parse_spec (or_default (text_arg json (codes "oracles") args) (codes "utf8,json"))
        ≡ ok i.oracles
    pub fixed_iv : decode_hex_arg host json args (codes "iv") ≡ ok i.fixed_iv
    pub start : decode_hex_arg host json args (codes "nonce") ≡ ok i.start
    pub tag : decode_hex_arg host json args (codes "tag") ≡ ok i.tag
    pub aad : decode_hex_arg host json args (codes "aad") ≡ ok i.aad
    pub threads_run : pool_runs host (number_arg json (codes "threads") args) ≡ true

  -- A call of `memhunt_scan` whose arguments are accepted, with a pool of threads that can be started
  -- where one is asked for, without a limit on the hits, whose ciphers
  -- are block ciphers that cut the ciphertext into whole blocks and take the fixed IV, answers with
  -- a result. The result holds every key of a listed cipher in the dump under which the ciphertext
  -- decrypts in ECB mode to a plaintext whose first two blocks an oracle accepts.
  pub tool_scan-ecb_keys :
      IsScanCall
      → IsBlockSearch call_config i.oracles
      → All (IsCut crates i.ciphertext call_config) i.selection.ciphers
      → (r : ScanResult) × (tool_scan host json crates args ≡ raise (json.scan_value r))
        × ((choice : CipherChoice) (c : IsCut crates i.ciphertext call_config choice) (offset : ℕ)
              (key : Bytes) (ps : List Bytes) (found : Text × Confidence)
            → Memᴰ choice i.selection.ciphers
            → IsKeyAt i.dump c.cipher offset key
            → Decrypts c.cipher key c.blocks ps
            → best_match i.oracles (concat (take 2 ps)) ≡ some found
            → Memᴰ
                (finalize_hit crates.hex_encode
                  (label choice)
                  ecb
                  key
                  offset
                  none
                  none
                  []
                  (concat ps)
                  found.0
                  found.1)
                r.hits)
  unfolding tool_scan read_dump scan_in_pool
  tool_scan-ecb_keys c s cuts =
      let (r, run, complete) =
        scan_finds_ecb_keys crates i.dump i.ciphertext i.oracles call_config s cuts in
      (
        r,
        rw
            (
              c.path_given, c.target_given, c.readable, c.decoded, c.ciphers, c.oracles, c.fixed_iv,
              c.start, c.tag, c.aad, c.threads_run, run,
            )
            refl,
        complete,
      )
