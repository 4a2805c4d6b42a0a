-- ===== src/Cli/Scans.antt =====
-- `run_scan` against the search that its options ask for.
use memhunt.Base.{ℕ, ◌≡◌, refl, sym, subst, ◌∙◌, inr}
use memhunt.Base.{Bytes, Text, codes, true, not, List, Memᴰ, [], Option, some, All, concat, take}
use memhunt.Base.{Result, ok, Failure, ◌>>=◌, map_error}
use memhunt.Base.{none}
use mathlib.Core.List.Memᴰ
use memhunt.Report.{Confidence, Hit, ecb}
use memhunt.Cipher.{Crates}
use memhunt.Oracle.{Oracle, best_match}
use memhunt.Oracle.Spec.{parse_spec}
use memhunt.Engine.Choice.{CipherChoice, CipherSelection, label, parse_list}
use memhunt.Engine.Config.{ScanConfig}
use memhunt.Engine.Finish.{finalize_hit}
use memhunt.Engine.Hunt.Keys.{IsKeyAt}
use memhunt.Engine.Hunt.Decrypts.{Decrypts}
use memhunt.Engine.Scan.{scan}
use memhunt.Engine.Scan.Keys.{IsBlockSearch, IsCut, scan_finds_ecb_keys}
use memhunt.Host.{Host}
use memhunt.Cli.Decode.{CliError, decode_ciphertext, of_scan}
use memhunt.Cli.Print.{print_human}
use memhunt.Cli.Run.{ScanOptions, read_dump, decode_hex_arg, build_threads, scan_hits, run_scan}
use memhunt.Cli.Exit.{TakesLines, finish_output, finish_zero_iff}

-- What the options of a scan are read as.
pub record Inputs : Type 0 where
  pub dump : Bytes
  pub ciphertext : Bytes
  pub oracles : List Oracle
  pub selection : CipherSelection
  pub fixed_iv : Option Bytes
  pub start : Option Bytes
  pub tag : Option Bytes
  pub aad : Option Bytes

abbrev pub scan_config : ScanOptions → Inputs → ScanConfig
scan_config o i = record {
  ciphers = i.selection.ciphers;
  mode = i.selection.mode;
  max_hits = o.max_hits;
  scan_iv = not o.no_iv_scan;
  fixed_iv = i.fixed_iv;
  nonce = i.start;
  tag = i.tag;
  aad = i.aad;
}

-- Every option is accepted, and the dump can be read.
pub record IsRead (host : Host) (o : ScanOptions) (i : Inputs) : Type 0 where
  pub pooled : build_threads host o.threads ≡ ok tt
  pub target : decode_ciphertext host o.target o.encoding ≡ ok i.ciphertext
  pub oracles : parse_spec o.oracle ≡ ok i.oracles
  pub ciphers : parse_list o.cipher ≡ ok i.selection
  pub fixed_iv : decode_hex_arg host o.iv (codes "iv") ≡ ok i.fixed_iv
  pub start : decode_hex_arg host o.nonce (codes "nonce") ≡ ok i.start
  pub tag : decode_hex_arg host o.tag (codes "tag") ≡ ok i.tag
  pub aad : decode_hex_arg host o.aad (codes "aad") ≡ ok i.aad
  pub readable : host.read_file o.dump_path ≡ ok i.dump

module _ (host : Host) (crates : Crates) (o : ScanOptions) where
  module _ (i : Inputs) (read : IsRead host o i) where
    abbrev run_result : Result (Failure CliError) (List Hit)
    run_result =
        map_error of_scan (scan crates i.dump i.ciphertext i.oracles (scan_config o i)) >>= λ r.
        ok r.hits

    scan_hits_read : scan_hits host crates o ≡ run_result
    unfolding scan_hits read_dump
    scan_hits_read =
        rw
          (
            read.pooled, read.target, read.oracles, read.ciphers, read.fixed_iv, read.start,
            read.tag, read.aad, read.readable,
          )
          refl

    -- Where every option of `memhunt scan --json` is accepted, the ciphers are block ciphers that cut
    -- the ciphertext into whole blocks and take the fixed IV, no limit is set, and stdout takes every
    -- line: for each key of a listed cipher in the dump under which the ciphertext decrypts in ECB
    -- mode to a plaintext whose first two blocks an oracle accepts, the JSON line of its hit is
    -- written, and the exit code is 0.
    pub run_scan-ecb_key :
        o.json ≡ true
        → TakesLines host
        → IsBlockSearch (scan_config o i) i.oracles
        → All (IsCut crates i.ciphertext (scan_config o i)) i.selection.ciphers
        → (choice : CipherChoice) (c : IsCut crates i.ciphertext (scan_config o i) choice)
          (offset : ℕ) (key : Bytes) (ps : List Bytes) (found : Text × Confidence)
        → Memᴰ choice i.selection.ciphers
        → IsKeyAt i.dump c.cipher offset key
        → Decrypts c.cipher key c.blocks ps
        → best_match i.oracles (concat (take 2 ps)) ≡ some found
        → Memᴰ
            (host.hit_json (
              finalize_hit crates.hex_encode
                (label choice)
                ecb
                key
                offset
                none
                none
                []
                (concat ps)
                found.0
                found.1))
            (run_scan host crates o).output
          × ((run_scan host crates o).code ≡ 0)
    unfolding run_scan
    run_scan-ecb_key json takes s cuts choice c offset key ps found listed at d accepted =
        let (r, run, complete) =
          scan_finds_ecb_keys crates i.dump i.ciphertext i.oracles (scan_config o i) s cuts in
        let hit = complete choice c offset key ps found listed at d accepted in
        let hits : scan_hits host crates o ≡ ok r.hits = scan_hits_read ∙ rw run refl in
        let output = finish_output host host.hit_json print_human true r.hits takes in
        let (to, from) = finish_zero_iff host host.hit_json print_human true r.hits (inr takes) in
        rw (json, hits) (subst (Memᴰ _) (sym output) (Memᴰ.map host.hit_json hit), from (_, hit))
