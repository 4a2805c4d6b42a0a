-- ===== src/HashScan/Preimages.antt =====
-- `scan_preimages` reports exactly the windows with the target digest.
use memhunt.Base.{ℕ, ◌+◌, ◌≤◌, ◌<◌, ◌≡◌, ◌↔◌, refl, sym, ap, ◌∙◌, subst, ◌⊎◌, inl, inr, arith}
use memhunt.Base.{Bytes, Text, codes, false, true, ◌++◌, List, [], ◌∷◌, Memᴰ, some, All}
use memhunt.Base.{length, take, drop, is_empty, ◌==◌}
use memhunt.Base.{ok}
use mathlib.Core.List.Memᴰ
use memhunt.HashScan.Algos.{Digests, HashAlgoSpec, hasher}
use memhunt.HashScan.Scan.{HashHit, HashScanResult, HashScanConfig, inclusive, hash_hit}
use memhunt.HashScan.Scan.{preimage_test, scan_algos, scan_preimages}
use memhunt.HashScan.Lengths.{pass_lengths, scan_lengths-pass_lengths, pass_lengths_complete}
use memhunt.HashScan.Lengths.{pass_lengths_sound, inclusive-bounds, mem-inclusive, All-range_from}
use memhunt.HashScan.Lengths.{digest_test_hit, digest_test-some}

-- A search that can run: the target has the length of every listed digest, the lengths start at 1,
-- and there is no limit on the hits.
pub record IsSearchable (digests : Digests) (target : Bytes) (config : HashScanConfig)
    (algos : List HashAlgoSpec) : Type 0 where
  pub not_empty : 0 < length target
  pub lengths_match : All (λ a. length target ≡ (hasher digests a).output_len) algos
  pub positive : 0 < config.lengths.min
  pub unlimited : config.max_hits ≡ 0

module _ (hex_encode : Bytes → Text) (digests : Digests) (dump target : Bytes)
    (config : HashScanConfig) where
  -- A window of the dump, of a length in the range, whose digest by a listed algorithm is the target.
  pub record IsPreimage (algos : List HashAlgoSpec) (hit : HashHit) : Type 0 where
    pub algo : HashAlgoSpec
    pub listed : Memᴰ algo algos
    pub len : ℕ
    pub low : config.lengths.min ≤ len
    pub high : len ≤ config.lengths.max
    pub offset : ℕ
    pub inside : offset + len ≤ length dump
    pub digest : (hasher digests algo).hash_into (take len (drop offset dump)) ≡ target
    pub reported :
        hit
        ≡ hash_hit hex_encode
            (hasher digests algo).name
            (codes "preimage")
            len
            offset
            (take len (drop offset dump))

  abbrev pass : HashAlgoSpec → ℕ → ℕ × List HashHit
  pass algo tried =
      pass_lengths dump (preimage_test hex_encode digests dump target config algo)
        (inclusive config.lengths) tried

  -- The loop over the algorithms where nothing fails.
  pass_algos : List HashAlgoSpec → ℕ × List HashHit → ℕ × List HashHit
  pass_algos [] state = state
  pass_algos (algo ∷ algos) (tried, hits) =
      let found = pass algo tried in pass_algos algos (found.0, hits ++ found.1)

  scan_algos-pass_algos :
      (algos : List HashAlgoSpec) (state : ℕ × List HashHit)
      → IsSearchable digests target config algos
      → scan_algos hex_encode digests dump target config algos state ≡ ok (pass_algos algos state)
  unfolding scan_algos pass_algos
  scan_algos-pass_algos [] state s = refl
  scan_algos-pass_algos (algo ∷ algos) (tried, hits) s =
      let fits : (length target == (hasher digests algo).output_len) ≡ true =
        ground (arith, s.lengths_match.0) in
      let rest =
        scan_algos-pass_algos algos ((pass algo tried).0, hits ++ (pass algo tried).1)
          (record {
            not_empty = s.not_empty;
            lengths_match = s.lengths_match.1;
            positive = s.positive;
            unlimited = s.unlimited;
          }) in
      rw
        (
          fits,
          scan_lengths-pass_lengths dump (preimage_test hex_encode digests dump target config algo)
              (inclusive config.lengths) tried (all_positive s),
          s.unlimited,
        )
        rest
    where
      all_positive :
          IsSearchable digests target config (algo ∷ algos)
          → All (λ l. 0 < l) (inclusive config.lengths)
      all_positive t = unfold inclusive in All-range_from _ _ t.positive

  algos_keep :
      (algos : List HashAlgoSpec) (state : ℕ × List HashHit) (hit : HashHit)
      → Memᴰ hit state.1
      → Memᴰ hit (pass_algos algos state).1
  unfolding pass_algos
  algos_keep [] state hit m = m
  algos_keep (algo ∷ algos) (tried, hits) hit m = algos_keep algos _ hit (Memᴰ.append_left _ m)

  pass_hit :
      (algo : HashAlgoSpec) (tried : ℕ) (hit : HashHit)
      → Memᴰ hit (pass algo tried).1
      → IsPreimage (algo ∷ []) hit
  pass_hit algo tried hit m =
      let (len, offset, at, fits, e) =
        pass_lengths_sound dump _ (inclusive config.lengths) tried hit m in
      let (low, high) = inclusive-bounds config.lengths len at in
      let (digest, same) =
        digest_test_hit hex_encode _ _ (hasher digests algo).hash_into target len offset _ hit e in
      record {
        algo = algo;
        listed = Memᴰ.head refl;
        len = len;
        low = low;
        high = high;
        offset = offset;
        inside = fits;
        digest = digest;
        reported = same;
      }

  IsPreimage-weaken :
      (algo : HashAlgoSpec) (algos : List HashAlgoSpec) (hit : HashHit)
      → IsPreimage algos hit
      → IsPreimage (algo ∷ algos) hit
  IsPreimage-weaken algo algos hit p = record {
    algo = p.algo;
    listed = Memᴰ.tail p.listed;
    len = p.len;
    low = p.low;
    high = p.high;
    offset = p.offset;
    inside = p.inside;
    digest = p.digest;
    reported = p.reported;
  }

  IsPreimage-first :
      (algo : HashAlgoSpec) (algos : List HashAlgoSpec) (hit : HashHit)
      → IsPreimage (algo ∷ []) hit
      → IsPreimage (algo ∷ algos) hit
  IsPreimage-first algo algos hit p = record {
    algo = p.algo;
    listed = Memᴰ.head (Memᴰ.eq_of_singleton p.listed);
    len = p.len;
    low = p.low;
    high = p.high;
    offset = p.offset;
    inside = p.inside;
    digest = p.digest;
    reported = p.reported;
  }

  pass_algos_sound :
      (algos : List HashAlgoSpec) (state : ℕ × List HashHit) (hit : HashHit)
      → Memᴰ hit (pass_algos algos state).1
      → Memᴰ hit state.1 ⊎ IsPreimage algos hit
  unfolding pass_algos
  pass_algos_sound [] state hit m = inl m
  pass_algos_sound (algo ∷ algos) (tried, hits) hit m =
      elim (pass_algos_sound algos ((pass algo tried).0, hits ++ (pass algo tried).1) hit m) [
        | inr later ↦ inr (IsPreimage-weaken algo algos hit later)
        | inl earlier ↦ elim (Memᴰ.append_cases hits earlier) [
          | inl old ↦ inl old
          | inr new ↦ inr (IsPreimage-first algo algos hit (pass_hit algo tried hit new))
        ]
      ]

  pass_algos_complete :
      (algos : List HashAlgoSpec) (state : ℕ × List HashHit) (hit : HashHit)
      → 0 < config.lengths.min
      → IsPreimage algos hit
      → Memᴰ hit (pass_algos algos state).1
  unfolding pass_algos
  pass_algos_complete [] state hit pos p = absurd (Memᴰ.not-nil p.listed)
  pass_algos_complete (algo ∷ algos) (tried, hits) hit pos p = elim (Memᴰ.cases_cons p.listed) [
    | inl same ↦ algos_keep algos _ hit (
        Memᴰ.append_right hits (
          subst (λ a. Memᴰ hit (pass a tried).1) same
            (pass_lengths_complete dump _ (inclusive config.lengths) tried p.len p.offset hit
              (mem-inclusive config.lengths p.len p.low p.high) (omega (arith, p.low)) p.inside
              (digest_test-some hex_encode _ _ (hasher digests p.algo).hash_into target p.len
                  p.offset _ p.digest
                ∙ ap some (sym p.reported)))))
    | inr later ↦ pass_algos_complete algos _ hit pos (record {
      algo = p.algo;
      listed = later;
      len = p.len;
      low = p.low;
      high = p.high;
      offset = p.offset;
      inside = p.inside;
      digest = p.digest;
      reported = p.reported;
    })
  ]

  -- A search that can run (the target is not empty and has the length of every listed digest, the
  -- shortest length is 1 or more, no limit on the hits) returns a result, whose hits are exactly the
  -- windows of a length in the range whose digest by a listed algorithm is the target, each with the
  -- algorithm's name, its offset, its length and its bytes. No length outside the range is searched.
  pub scan_preimages_exact :
      (algos : List HashAlgoSpec)
      → IsSearchable digests target config algos
      → (r : HashScanResult) × (scan_preimages hex_encode digests dump target config algos ≡ ok r)
        × ((hit : HashHit) → Memᴰ hit r.hits ↔ IsPreimage algos hit)
  unfolding scan_preimages
  scan_preimages_exact algos s =
      let run = pass_algos algos (0, []) in
      let full : is_empty target ≡ false = nonempty target s.not_empty in
      (
        record {
          hits = run.1;
          stats = record { dump_size = length dump; candidates_tried = run.0 };
        },
        rw (full, scan_algos-pass_algos algos (0, []) s) refl,
        λ hit. (
          (λ m. only_new hit (pass_algos_sound algos (0, []) hit m)),
          (λ p. pass_algos_complete algos (0, []) hit s.positive p),
        ),
      )
    where
      nonempty : (t : Bytes) → 0 < length t → is_empty t ≡ false
      nonempty [] h = absurd (omega arith)
      nonempty (b ∷ t) h = refl

      only_new : (hit : HashHit) → Memᴰ hit [] ⊎ IsPreimage algos hit → IsPreimage algos hit
      only_new hit (inl nothing) = absurd (Memᴰ.not-nil nothing)
      only_new hit (inr p) = p
