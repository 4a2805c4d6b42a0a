-- ===== src/HashScan/Total.antt =====
-- The searches of hash_scan.rs do not panic where the shortest length is 1 or more.
use memhunt.Base.{ℕ, ◌<◌, arith}
use memhunt.Base.{Bytes, Text, not, ◌++◌, List, [], ◌∷◌, Option, All, length}
use memhunt.Base.{◌==◌, is_empty}
use memhunt.Base.{ok, raise, fail_if}
use memhunt.Base.{Returns, raise-Returns, bind-Returns, if-Returns}
use memhunt.HashScan.Algos.{Digests, HashAlgoSpec, hasher, digest_empty, digest_length, mac_length}
use memhunt.HashScan.Scan.{
  HashHit, HashScanConfig, inclusive, Collects, add_missing, scan_lengths, scan_algos,
}
use memhunt.HashScan.Scan.{preimage_test, hmac_test, scan_preimages, scan_hmac_keys}
use memhunt.HashScan.Lengths.{scan_lengths-pass_lengths, All-range_from}
use memhunt.HashScan.Sizes.{add_missing_positive}
use memhunt.HashScan.HmacKeys.{hmac_lengths-Collects}

scan_lengths-Returns :
    (dump : Bytes) (test : ℕ → ℕ → Bytes → Option HashHit) (lens : List ℕ) (tried : ℕ)
    → All (λ l. 0 < l) lens
    → Returns (scan_lengths dump test lens tried)
scan_lengths-Returns dump test lens tried pos =
    rw (scan_lengths-pass_lengths dump test lens tried pos) tt

module _ (hex_encode : Bytes → Text) (digests : Digests) (dump target : Bytes)
    (config : HashScanConfig) (pos : 0 < config.lengths.min) where
  All-inclusive : All (λ l. 0 < l) (inclusive config.lengths)
  unfolding inclusive
  All-inclusive = All-range_from _ _ pos

  scan_algos-Returns :
      (algos : List HashAlgoSpec) (state : ℕ × List HashHit)
      → Returns (scan_algos hex_encode digests dump target config algos state)
  unfolding scan_algos
  scan_algos-Returns [] state = tt
  scan_algos-Returns (algo ∷ algos) (tried, hits) =
      let h = hasher digests algo in
      bind-Returns
        (raise (
          fail_if (not (length target == h.output_len))
            (digest_length (length target) h.name h.output_len)))
        _ (raise-Returns (fail_if _ _))
        (λ u.
          bind-Returns
            (scan_lengths dump (preimage_test hex_encode digests dump target config algo)
              (inclusive config.lengths) tried)
            _ (scan_lengths-Returns dump _ _ tried All-inclusive)
            (λ found.
              if-Returns _ (ok _) _ tt (scan_algos-Returns algos (found.0, hits ++ found.1))))

  pub scan_preimages-Returns :
      (algos : List HashAlgoSpec)
      → Returns (scan_preimages hex_encode digests dump target config algos)
  unfolding scan_preimages
  scan_preimages-Returns algos =
      bind-Returns (raise (fail_if (is_empty target) digest_empty)) _ (raise-Returns (fail_if _ _))
        (λ u.
          bind-Returns (scan_algos hex_encode digests dump target config algos (0, [])) _
            (scan_algos-Returns algos (0, [])) (λ r. tt))

  pub scan_hmac_keys-Returns :
      (algo : HashAlgoSpec) (message : Bytes)
      → Collects config.lengths
      → Returns (scan_hmac_keys hex_encode digests dump target config algo message)
  unfolding scan_hmac_keys
  scan_hmac_keys-Returns algo message held =
      let h = hasher digests algo in
      let sizes : List ℕ = 16 ∷ 24 ∷ 32 ∷ 64 ∷ [] in
      bind-Returns
        (raise (
          fail_if (not (length target == h.output_len))
            (mac_length (length target) h.name h.output_len)))
        _ (raise-Returns (fail_if _ _))
        (λ u. rw (hmac_lengths-Collects hex_encode digests dump target config held) (
          bind-Returns
            (scan_lengths dump (hmac_test hex_encode digests dump target config algo message)
              (add_missing (inclusive config.lengths) sizes) 0)
            _
            (scan_lengths-Returns dump _ _ 0 (
              add_missing_positive (inclusive config.lengths) sizes All-inclusive
                (omega arith, (omega arith, (omega arith, (omega arith, tt))))))
            (λ r. tt)))
