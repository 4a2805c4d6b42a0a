-- ===== src/HashScan/Limits.antt =====
-- `scan_preimages` where it fails, and under a limit on the hits.
use memhunt.Base.{ℕ, suc, ◌+◌, ◌-◌, ◌≤◌, ◌<◌, ◌≡◌, ◌≢◌, refl, inl, inr, arith}
use memhunt.Base.{Bytes, Text, false, true, ◌&&◌, ◌++◌, List, [], ◌∷◌, Option, All}
use memhunt.Base.{length, take, length-take, is_empty, ltb, leb, ◌==◌, if◌then◌else◌, Bool-cases}
use memhunt.Base.{Result, ok, err, Failure, panic}
use memhunt.Base.{Result-cases, ==→eq}
use memhunt.Base.{err_ne_ok}
use memhunt.HashScan.Algos.{Digests, HashAlgoSpec, md5, sha1, sha256, sm3, hasher, HashError}
use memhunt.HashScan.Scan.{HashHit, HashScanResult, HashScanConfig, range_from, inclusive}
use memhunt.HashScan.Scan.{preimage_test, scan_lengths, scan_algos, scan_preimages}

module _ (hex_encode : Bytes → Text) (digests : Digests) (dump target : Bytes)
    (config : HashScanConfig) where
  -- The target is as long as each of the digests.
  abbrev LengthsMatch : List HashAlgoSpec → Type 0
  LengthsMatch = All (λ a. length target ≡ (hasher digests a).output_len)

  -- A round that does not fail: the length fits, and the passes give a result.
  scan_algos_round :
      (algo : HashAlgoSpec) (algos : List HashAlgoSpec) (state result : ℕ × List HashHit)
      → scan_algos hex_encode digests dump target config (algo ∷ algos) state ≡ ok result
      → (length target ≡ (hasher digests algo).output_len)
        × (found : ℕ × List HashHit) × ((if ltb 0 config.max_hits
                && leb config.max_hits (length (state.1 ++ found.1))
              then ok (found.0, take config.max_hits (state.1 ++ found.1))
              else scan_algos hex_encode digests dump target config algos
                  (found.0, state.1 ++ found.1))
            ≡ ok result)
  unfolding scan_algos
  scan_algos_round algo algos (tried, hits) result e =
      elim (Bool-cases (length target == (hasher digests algo).output_len)) [
        | inr differs ↦ absurd (err_ne_ok (rw differs at e))
        | inl fits ↦ elim (Result-cases (passes tried)) [
          | inl (found, scanned) ↦ (==→eq _ _ fits, found, rw (fits, scanned) at e)
          | inr (why, failed) ↦ absurd (err_ne_ok (rw (fits, failed) at e))
        ]
      ]
    where
      passes : ℕ → Result (Failure HashError) (ℕ × List HashHit)
      passes =
          scan_lengths dump (preimage_test hex_encode digests dump target config algo)
            (inclusive config.lengths)

  scan_algos_lengths :
      (algos : List HashAlgoSpec) (state result : ℕ × List HashHit)
      → config.max_hits ≡ 0
      → scan_algos hex_encode digests dump target config algos state ≡ ok result
      → LengthsMatch algos
  scan_algos_lengths [] state result unlimited e = tt
  scan_algos_lengths (algo ∷ algos) state result unlimited e =
      let (fits, found, rest) = scan_algos_round algo algos state result e in
      let off : ltb 0 config.max_hits ≡ false = ground arith in
      (
        fits,
        scan_algos_lengths algos (found.0, state.1 ++ found.1) result unlimited (rw off at rest),
      )

  abbrev defaults : List HashAlgoSpec
  defaults = md5 ∷ sha1 ∷ sha256 ∷ sm3 ∷ []

  -- With all four algorithms, which the server takes by default, and no limit on the hits, no
  -- digest at all is searched for: `scan_preimages` never returns a result.
  pub default_algos_fail :
      (r : HashScanResult)
      → config.max_hits ≡ 0
      → scan_preimages hex_encode digests dump target config defaults ≢ ok r
  unfolding scan_preimages
  default_algos_fail r unlimited e = elim (Bool-cases (is_empty target)) [
    | inl empty ↦ err_ne_ok (rw empty at e)
    | inr full ↦
        elim (Result-cases (scan_algos hex_encode digests dump target config defaults (0, []))) [
          | inl (state, scanned) ↦
              let (m, (s, others)) = scan_algos_lengths defaults (0, []) state unlimited scanned in
              omega arith
          | inr (why, failed) ↦ err_ne_ok (rw (full, failed) at e)
        ]
  ]

  scan_lengths-zero :
      (test : ℕ → ℕ → Bytes → Option HashHit) (tried : ℕ)
      → config.lengths.min ≡ 0
      → scan_lengths dump test (inclusive config.lengths) tried ≡ err panic
  unfolding inclusive
  scan_lengths-zero test tried e =
      let count : config.lengths.max + 1 - config.lengths.min ≡ suc config.lengths.max =
        omega arith in
      rw (count, e) (unfold range_from scan_lengths in refl)

  -- With a shortest length of 0, which the command line accepts, a search for a digest of the right
  -- length panics, whatever the dump holds.
  pub zero_length_panics :
      (algo : HashAlgoSpec) (algos : List HashAlgoSpec)
      → config.lengths.min ≡ 0
      → length target ≡ (hasher digests algo).output_len
      → scan_preimages hex_encode digests dump target config (algo ∷ algos) ≡ err panic
  unfolding scan_preimages scan_algos
  zero_length_panics algo algos none_short fits =
      let same : (length target == (hasher digests algo).output_len) ≡ true = ground arith in
      let full : is_empty target ≡ false = nonempty target (some_output algo fits) in
      rw (
        full,
        same,
        scan_lengths-zero (preimage_test hex_encode digests dump target config algo) 0 none_short,
      )
    where
      nonempty : (t : Bytes) → length t ≢ 0 → is_empty t ≡ false
      nonempty [] h = absurd (h refl)
      nonempty (b ∷ t) h = refl

      some_output :
          (a : HashAlgoSpec) → length target ≡ (hasher digests a).output_len → length target ≢ 0
      some_output md5 h = omega arith
      some_output sha1 h = omega arith
      some_output sha256 h = omega arith
      some_output sm3 h = omega arith

  scan_algos_limit :
      (algos : List HashAlgoSpec) (state result : ℕ × List HashHit)
      → length state.1 < config.max_hits
      → scan_algos hex_encode digests dump target config algos state ≡ ok result
      → length result.1 ≤ config.max_hits
  scan_algos_limit [] state result room e = unfold scan_algos in ground arith
  scan_algos_limit (algo ∷ algos) state result room e =
      let (fits, found, rest) = scan_algos_round algo algos state result e in
      let on : ltb 0 config.max_hits ≡ true = ground arith in
      elim (Bool-cases (leb config.max_hits (length (state.1 ++ found.1)))) [
        | inl full ↦
            let stopped = rw (on, full) at rest in
            omega (arith, kept stopped, length-take config.max_hits (state.1 ++ found.1))
        | inr more ↦
            scan_algos_limit algos (found.0, state.1 ++ found.1) result (ground arith)
              (rw (on, more) at rest)
      ]
    where
      kept :
          {n : ℕ} {hits : List HashHit}
          → ◌≡◌ {A = Result (Failure HashError) (ℕ × List HashHit)} (ok (n, hits)) (ok result)
          → length result.1 ≡ length hits
      kept h = cc

  -- Under a limit on the hits a result has at most that many.
  pub scan_preimages_limit :
      (algos : List HashAlgoSpec) (r : HashScanResult)
      → 0 < config.max_hits
      → scan_preimages hex_encode digests dump target config algos ≡ ok r
      → length r.hits ≤ config.max_hits
  unfolding scan_preimages
  scan_preimages_limit algos r pos e = elim (Bool-cases (is_empty target)) [
    | inl empty ↦ absurd (err_ne_ok (rw empty at e))
    | inr full ↦
        elim (Result-cases (scan_algos hex_encode digests dump target config algos (0, []))) [
          | inl (state, scanned) ↦ omega (
            arith,
            scan_algos_limit algos (0, []) state pos scanned,
            kept (rw (full, scanned) at e),
          )
          | inr (why, failed) ↦ absurd (err_ne_ok (rw (full, failed) at e))
        ]
  ]
    where
      kept :
          {q : HashScanResult}
          → ◌≡◌ {A = Result (Failure HashError) HashScanResult} (ok q) (ok r)
          → length r.hits ≡ length q.hits
      kept h = cc
