-- ===== src/Mcp/Capacity.antt =====
-- `tool_hash_scan` in the mode `hmac_key` on a range of lengths that no vector can hold.
use memhunt.Base.{◌+◌, ◌-◌, ◌≤◌, ◌<◌, ◌≡◌, refl, arith}
use memhunt.Base.{Bytes, Text, codes, true, false, []}
use memhunt.Base.{length, ltb, ◌==◌, ◌∷◌, as_bytes, some, err, ok, panic}
use memhunt.HashScan.Algos.{Digests, HashAlgoSpec, hasher, parse}
use memhunt.HashScan.Scan.{
  HashScanConfig, vec_capacity, collect_range, hmac_lengths, scan_hmac_keys,
}
use memhunt.Host.{Host}
use memhunt.Mcp.Json.{Json, text_arg}
use memhunt.Mcp.Tools.{read_dump, hash_scan_config, hmac_key_mode, hash_mode, tool_hash_scan}

scan_hmac_keys-panic :
    (hex_encode : Bytes → Text) (digests : Digests) (dump target : Bytes) (config : HashScanConfig)
    (algo : HashAlgoSpec) (message : Bytes)
    → length target ≡ (hasher digests algo).output_len
    → vec_capacity < config.lengths.max + 1 - config.lengths.min
    → scan_hmac_keys hex_encode digests dump target config algo message ≡ err panic
unfolding scan_hmac_keys hmac_lengths collect_range
scan_hmac_keys-panic hex_encode digests dump target config algo message fits full =
    let same : (length target == (hasher digests algo).output_len) ≡ true = ground arith in
    let over : ltb vec_capacity (config.lengths.max + 1 - config.lengths.min) ≡ true =
      ground (arith, full) in
    rw (same, over) refl

module _ (host : Host) (json : Json) (hex_encode : Bytes → Text) (digests : Digests)
    (args : json.Value) where
  -- A call in the mode `hmac_key` with one algorithm, a message and a target of the algorithm's
  -- length, whose dump can be read.
  pub record IsHmacCall : Type 0 where
    pub path : Text
    pub path_given : text_arg json (codes "dump_path") args ≡ some path
    pub mode_given : text_arg json (codes "mode") args ≡ some (codes "hmac_key")
    pub target : Text
    pub target_given : text_arg json (codes "digest") args ≡ some target
    pub mac : Bytes
    pub decoded : host.hex_decode target ≡ some mac
    pub dump : Bytes
    pub readable : host.read_file path ≡ ok dump
    pub listed : Text
    pub algos_given : text_arg json (codes "algos") args ≡ some listed
    pub algo : HashAlgoSpec
    pub one_algo : parse listed ≡ ok (algo ∷ [])
    pub message : Text
    pub message_given : text_arg json (codes "message") args ≡ some message
    pub fits : length mac ≡ (hasher digests algo).output_len

  abbrev config : HashScanConfig
  config = hash_scan_config json args

  -- A call of `memhunt_hash_scan` in the mode `hmac_key` that is well-formed in all but the size of
  -- its range, which starts at 1 or above and has 2 ^ 60 lengths or more, ends in a panic: the check
  -- of `min_len` and `max_len` lets it pass, and no vector can hold its lengths.
  pub hmac_range_panics :
      IsHmacCall
      → 0 < config.lengths.min
      → config.lengths.min + vec_capacity ≤ config.lengths.max
      → tool_hash_scan host json hex_encode digests args ≡ err panic
  unfolding tool_hash_scan hash_mode hmac_key_mode read_dump
  hmac_range_panics c pos wide =
      let positive : ltb config.lengths.min 1 ≡ false = ground (arith, pos) in
      let ordered : ltb config.lengths.max config.lengths.min ≡ false = ground (arith, wide) in
      let full : vec_capacity < config.lengths.max + 1 - config.lengths.min =
        omega (arith, pos, wide) in
      rw
        (
          c.path_given,
          c.mode_given,
          c.target_given,
          c.decoded,
          c.readable,
          positive,
          ordered,
          c.algos_given,
          c.one_algo,
          c.message_given,
          scan_hmac_keys-panic hex_encode digests c.dump c.mac config c.algo (as_bytes c.message)
              c.fits full,
        )
        refl
