-- ===== src/HashScan/HmacKeys.antt =====
-- `scan_hmac_keys` reports exactly the windows that are the key of the target MAC.
use memhunt.Base.{ℕ, ◌+◌, ◌-◌, ◌≤◌, ◌<◌, ◌≡◌, ◌↔◌, refl, sym, ap, ◌∙◌, ◌⊎◌, inl, inr, arith}
use memhunt.Base.{Bytes, Text, codes, true, List, [], ◌∷◌, Memᴰ, Option, some, All}
use memhunt.Base.{length, take, drop, ◌==◌}
use memhunt.Base.{ok}
use memhunt.HashScan.Algos.{Digests, HashAlgoSpec, hasher}
use memhunt.HashScan.Scan.{HashHit, HashScanResult, HashScanConfig, inclusive, hash_hit, hmac_test}
use memhunt.Base.{ltb, false}
use memhunt.HashScan.Scan.{
  vec_capacity, Collects, collect_range, add_missing, hmac_lengths, scan_hmac_keys,
}
use memhunt.HashScan.Lengths.{pass_lengths, scan_lengths-pass_lengths, pass_lengths_complete}
use memhunt.HashScan.Sizes.{
  add_missing_keeps, add_missing_adds, add_missing_only, add_missing_positive,
}
use memhunt.HashScan.Sizes.{Distinct, add_missing-Distinct, inclusive-Distinct}
use memhunt.HashScan.Lengths.{pass_lengths_sound, inclusive-bounds, mem-inclusive, All-range_from}
use memhunt.HashScan.Lengths.{digest_test_hit, digest_test-some}

-- A length of the range, or one of the common key sizes.
abbrev pub IsKeyLength : HashScanConfig → ℕ → Type 0
IsKeyLength config l =
    (config.lengths.min ≤ l) × (l ≤ config.lengths.max) ⊎ (l ≡ 16) ⊎ (l ≡ 24) ⊎ (l ≡ 32) ⊎ (l ≡ 64)

module _ (hex_encode : Bytes → Text) (digests : Digests) (dump target : Bytes)
    (config : HashScanConfig) where
  abbrev sizes : List ℕ
  sizes = 16 ∷ 24 ∷ 32 ∷ 64 ∷ []

  abbrev lengths_tried : List ℕ
  lengths_tried = add_missing (inclusive config.lengths) sizes

  -- A range that can be collected gives the lengths.
  pub hmac_lengths-Collects : Collects config.lengths → hmac_lengths config ≡ ok lengths_tried
  unfolding hmac_lengths collect_range
  hmac_lengths-Collects fits =
      let holds : ltb vec_capacity (config.lengths.max + 1 - config.lengths.min) ≡ false =
        ground (arith, fits) in
      rw holds refl

  mem-sizes : (l : ℕ) → Memᴰ l sizes → IsKeyLength config l
  mem-sizes l (Memᴰ.head e) = inr (inl e)
  mem-sizes l (Memᴰ.tail (Memᴰ.head e)) = inr (inr (inl e))
  mem-sizes l (Memᴰ.tail (Memᴰ.tail (Memᴰ.head e))) = inr (inr (inr (inl e)))
  mem-sizes l (Memᴰ.tail (Memᴰ.tail (Memᴰ.tail (Memᴰ.head e)))) = inr (inr (inr (inr e)))
  mem-sizes l (Memᴰ.tail (Memᴰ.tail (Memᴰ.tail (Memᴰ.tail m)))) = elim m [ ]

  mem-lengths : (l : ℕ) → Memᴰ l lengths_tried → IsKeyLength config l
  mem-lengths l m = elim (add_missing_only (inclusive config.lengths) sizes l m) [
    | inl range ↦ inl (inclusive-bounds config.lengths l range)
    | inr common ↦ mem-sizes l common
  ]

  lengths-mem : (l : ℕ) → IsKeyLength config l → Memᴰ l lengths_tried
  lengths-mem l (inl (low, high)) =
      add_missing_keeps (inclusive config.lengths) sizes l (mem-inclusive config.lengths l low high)
  lengths-mem l (inr (inl e)) = add_missing_adds (inclusive config.lengths) sizes l (Memᴰ.head e)
  lengths-mem l (inr (inr (inl e))) =
      add_missing_adds (inclusive config.lengths) sizes l (Memᴰ.tail (Memᴰ.head e))
  lengths-mem l (inr (inr (inr (inl e)))) =
      add_missing_adds (inclusive config.lengths) sizes l (Memᴰ.tail (Memᴰ.tail (Memᴰ.head e)))
  lengths-mem l (inr (inr (inr (inr e)))) =
      add_missing_adds (inclusive config.lengths) sizes l
        (Memᴰ.tail (Memᴰ.tail (Memᴰ.tail (Memᴰ.head e))))

  key-length-positive : (l : ℕ) → 0 < config.lengths.min → IsKeyLength config l → 0 < l
  key-length-positive l pos (inl (low, high)) = omega arith
  key-length-positive l pos (inr h) = omega arith

  -- A window of the dump, of a length that is tried, whose HMAC of the message is the target.
  pub record IsHmacKey (algo : HashAlgoSpec) (message : Bytes) (hit : HashHit) : Type 0 where
    pub len : ℕ
    pub tried : IsKeyLength config len
    pub offset : ℕ
    pub inside : offset + len ≤ length dump
    pub mac : (hasher digests algo).hmac_into (take len (drop offset dump)) message ≡ target
    pub reported :
        hit
        ≡ hash_hit hex_encode
            (hasher digests algo).name
            (codes "hmac_key")
            len
            offset
            (take len (drop offset dump))

  -- With a target as long as the algorithm's MACs and a range that starts at 1 or above and has
  -- fewer than 2 ^ 60 lengths, the search returns a result, whose hits are exactly the windows, of a
  -- length in the range or of 16, 24, 32 or 64 bytes, that give the target as the HMAC of the
  -- message. Each of these lengths is tried once. The limit on the hits is not read.
  pub scan_hmac_keys_exact :
      (algo : HashAlgoSpec) (message : Bytes)
      → length target ≡ (hasher digests algo).output_len
      → 0 < config.lengths.min
      → Collects config.lengths
      → (r : HashScanResult) × (scan_hmac_keys hex_encode digests dump target config algo message
          ≡ ok r)
        × ((hit : HashHit) → Memᴰ hit r.hits ↔ IsHmacKey algo message hit)
        × ((lengths : List ℕ) × (hmac_lengths config ≡ ok lengths)
            × Distinct lengths
            × ((l : ℕ) → Memᴰ l lengths ↔ IsKeyLength config l))
  unfolding scan_hmac_keys
  scan_hmac_keys_exact algo message fits pos held =
      let same : (length target == (hasher digests algo).output_len) ≡ true = ground arith in
      let run = pass_lengths dump (test) lengths_tried 0 in
      (
        record {
          hits = run.1;
          stats = record { dump_size = length dump; candidates_tried = run.0 };
        },
        rw
            (
              same,
              hmac_lengths-Collects held,
              scan_lengths-pass_lengths dump test lengths_tried 0 all_positive,
            )
            refl,
        λ hit. (found hit, complete hit),
        (
          lengths_tried,
          hmac_lengths-Collects held,
          add_missing-Distinct (inclusive config.lengths) sizes (inclusive-Distinct config.lengths),
          λ l. (mem-lengths l, lengths-mem l),
        ),
      )
    where
      test : ℕ → ℕ → Bytes → Option HashHit
      test = hmac_test hex_encode digests dump target config algo message

      all_positive : All (λ l. 0 < l) lengths_tried
      all_positive =
          unfold inclusive in
          add_missing_positive (inclusive config.lengths) sizes
            (All-range_from config.lengths.min (config.lengths.max + 1 - config.lengths.min) pos)
            (omega arith)

      found :
          (hit : HashHit)
          → Memᴰ hit (pass_lengths dump test lengths_tried 0).1
          → IsHmacKey algo message hit
      found hit m =
          let (len, offset, at, inside, e) = pass_lengths_sound dump test lengths_tried 0 hit m in
          let (mac, reported) =
            digest_test_hit hex_encode _ _ (λ key. (hasher digests algo).hmac_into key message)
              target len offset _ hit e in
          record {
            len = len;
            tried = mem-lengths len at;
            offset = offset;
            inside = inside;
            mac = mac;
            reported = reported;
          }

      complete :
          (hit : HashHit)
          → IsHmacKey algo message hit
          → Memᴰ hit (pass_lengths dump test lengths_tried 0).1
      complete hit k =
          pass_lengths_complete dump test lengths_tried 0 k.len k.offset hit
            (lengths-mem k.len k.tried) (key-length-positive k.len pos k.tried) k.inside
            (digest_test-some hex_encode _ _ (λ key. (hasher digests algo).hmac_into key message)
                target k.len k.offset _ k.mac
              ∙ ap some (sym k.reported))
