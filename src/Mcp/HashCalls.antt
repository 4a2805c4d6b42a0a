-- ===== src/Mcp/HashCalls.antt =====
-- `tool_hash_scan` against the searches of hash_scan.rs.
use memhunt.Base.{◌≤◌, ◌<◌, ◌≡◌, ◌≢◌, ◌↔◌, refl, sym, ap, ◌∙◌, arith}
use memhunt.Base.{Bytes, Text, codes, false, ◌||◌, List, Memᴰ, none, some}
use memhunt.Base.{ltb}
use memhunt.Base.{Result, ok, err, Failure, error, panic, raise, ◌>>=◌, fail_if, map_error, some_or}
use memhunt.HashScan.Algos.{Digests, HashAlgoSpec, HashError}
use memhunt.HashScan.Scan.{HashHit, HashScanConfig, HashScanResult, scan_preimages}
use memhunt.HashScan.Preimages.{IsPreimage, IsSearchable, scan_preimages_exact}
use memhunt.HashScan.Limits.{default_algos_fail}
use memhunt.Messages.{hash_message}
use memhunt.Host.{Host}
use memhunt.Mcp.Json.{Json, text_arg}
use memhunt.Mcp.Tools.{need, read_dump, default_algos, preimage_algos, hash_scan_config}
use memhunt.Mcp.Tools.{preimage_mode, hash_mode, tool_hash_scan}
use memhunt.Base.{err_ne_ok, ok_inj}

-- A step that fails gives no result, and neither does one whose rest gives none.
raised-no_result {ℓ κ μ} :
    {E : Type κ} {A : Type ℓ} {B : Type μ} (r : Result E A) (f : A → Result (Failure E) B) (b : B)
    → ((a : A) → r ≡ ok a → f a ≢ ok b)
    → (raise r >>= f) ≢ ok b
raised-no_result (ok a) f b k h = k a refl h
raised-no_result (err e) f b k h = err_ne_ok h

search-no_result {ℓ} :
    {B : Type ℓ} (r : Result (Failure HashError) HashScanResult)
    (f : HashScanResult → Result (Failure Text) B) (b : B)
    → ((a : HashScanResult) → r ≢ ok a)
    → (map_error hash_message r >>= f) ≢ ok b
search-no_result (ok a) f b k h = k a refl
search-no_result (err (error e)) f b k h = err_ne_ok h
search-no_result (err panic) f b k h = err_ne_ok h

module _ (host : Host) (json : Json) (hex_encode : Bytes → Text) (digests : Digests) where
  module _ (args : json.Value) (dump digest : Bytes) where
    -- A call in the mode `preimage`, whose dump and digest can be read.
    pub record IsPreimageCall (algos : List HashAlgoSpec) : Type 0 where
      pub path : Text
      pub path_given : text_arg json (codes "dump_path") args ≡ some path
      pub mode_given : text_arg json (codes "mode") args ≡ some (codes "preimage")
      pub target : Text
      pub target_given : text_arg json (codes "digest") args ≡ some target
      pub decoded : host.hex_decode target ≡ some digest
      pub readable : host.read_file path ≡ ok dump
      pub listed : preimage_algos json args ≡ ok algos
      pub ordered :
          (hash_scan_config json args).lengths.min ≤ (hash_scan_config json args).lengths.max

    abbrev config : HashScanConfig
    config = hash_scan_config json args

    hash_scan_call :
        (algos : List HashAlgoSpec)
        → IsPreimageCall algos
        → 0 < config.lengths.min
        → tool_hash_scan host json hex_encode digests args
          ≡ preimage_mode host json hex_encode digests args digest dump config
    unfolding tool_hash_scan hash_mode read_dump
    hash_scan_call algos c pos =
        let positive : ltb config.lengths.min 1 ≡ false = ground arith in
        let ordered : ltb config.lengths.max config.lengths.min ≡ false =
          ground (arith, c.ordered) in
        rw (c.path_given, c.mode_given, c.target_given, c.decoded, c.readable, positive, ordered)
          refl

    -- A call of `memhunt_hash_scan` in the mode `preimage`, whose search can run, answers with a
    -- result whose hits are exactly the windows, of a length between `min_len` and `max_len`, whose
    -- digest by a listed algorithm is the given one. No other length is searched.
    pub tool_hash_scan-preimages :
        (algos : List HashAlgoSpec)
        → IsPreimageCall algos
        → IsSearchable digests digest config algos
        → (r : HashScanResult) × (tool_hash_scan host json hex_encode digests args
            ≡ raise (json.hashes_value r))
          × ((hit : HashHit)
              → Memᴰ hit r.hits ↔ IsPreimage hex_encode digests dump digest config algos hit)
    unfolding preimage_mode
    tool_hash_scan-preimages algos c s =
        let (r, run, exact) = scan_preimages_exact hex_encode digests dump digest config algos s in
        (r, hash_scan_call algos c s.positive ∙ rw (c.listed, run) refl, exact)

  module _ (args v : json.Value) (absent : text_arg json (codes "algos") args ≡ none) where
    hash_mode-default :
        (mode : Text) (digest dump : Bytes) (c : HashScanConfig)
        → mode ≡ codes "preimage"
        → c.max_hits ≡ 0
        → hash_mode host json hex_encode digests mode args digest dump c ≢ ok v
    unfolding hash_mode preimage_mode preimage_algos
    hash_mode-default mode digest dump c e unlimited =
        let search = scan_preimages hex_encode digests dump digest c default_algos in
        rw (e, preimage_mode, preimage_algos, absent)
          (search-no_result search _ v
            (λ r run. default_algos_fail hex_encode digests dump digest c r unlimited run))

    given_mode :
        (message mode : Text)
        → text_arg json (codes "mode") args ≡ some (codes "preimage")
        → need host json (codes "mode") message args ≡ ok mode
        → mode ≡ codes "preimage"
    given_mode message mode preimage given =
        ok_inj (sym given ∙ ap (λ o. some_or o message) preimage)

    -- `memhunt_hash_scan` in the mode `preimage` without `algos`, which its schema describes as a
    -- search by all four algorithms, never gives a result, if the hits have no limit.
    pub default_call_fails :
        text_arg json (codes "mode") args ≡ some (codes "preimage")
        → (hash_scan_config json args).max_hits ≡ 0
        → tool_hash_scan host json hex_encode digests args ≢ ok v
    unfolding tool_hash_scan
    default_call_fails preimage unlimited =
        let range = (hash_scan_config json args).lengths in
        raised-no_result (need host json (codes "dump_path") (codes "dump_path is required") args) _
          v
          (λ path p.
            raised-no_result
              (need host json (codes "mode") (codes "mode is required (preimage | hmac_key)") args)
              _ v
              (λ mode given.
                raised-no_result (need host json (codes "digest") (codes "digest is required") args)
                  _ v
                  (λ digest_s s.
                    raised-no_result
                      (some_or (host.hex_decode digest_s) (codes "digest must be hex")) _ v
                      (λ digest d. raised-no_result (read_dump host path) _ v (λ dump r.
                        raised-no_result
                          (fail_if (ltb range.min 1 || ltb range.max range.min)
                            (codes "max_len must be >= min_len >= 1"))
                          _ v
                          (λ u q.
                            hash_mode-default mode digest dump (hash_scan_config json args)
                              (given_mode _ mode preimage given) unlimited))))))
