-- ===== src/Examples/Hashes.antt =====
-- Searches for preimages and MAC keys with stand-ins for the digests: hash_scan.rs. The stand-in
-- cuts or fills its input to the digest's length.
use memhunt.Base.{ℕ, ◌≡◌, ◌↔◌, refl, arith, Bytes, codes, ◌++◌}
use memhunt.Base.{sweep, enumerate_from, windows}
use memhunt.Base.{[], ◌∷◌, Memᴰ, take, replicate, ok}
use memhunt.HashScan.Algos.{Digests, md5}
use memhunt.HashScan.Scan.{HashHit, HashScanResult, HashScanConfig}
use memhunt.HashScan.Scan.{hash_hit, inclusive, scan_lengths, scan_preimages, scan_hmac_keys}
use memhunt.HashScan.Preimages.{IsPreimage, scan_preimages_exact}
use memhunt.Base.{List}
use memhunt.HashScan.Scan.{hmac_lengths}
use memhunt.HashScan.Sizes.{Distinct}
use memhunt.HashScan.HmacKeys.{IsHmacKey, IsKeyLength, scan_hmac_keys_exact}
use memhunt.Examples.KeySchedules.{hex}

abbrev fill : ℕ → Bytes → Bytes
fill n b = take n (b ++ replicate n 0)

abbrev pub digests : Digests
digests = record {
  md5 = fill 16;
  sha1 = fill 20;
  sha256 = fill 32;
  sm3 = fill 32;
  hmac_md5 = λ key m. fill 16 (key ++ m);
  hmac_sha1 = λ key m. fill 20 (key ++ m);
  hmac_sha256 = λ key m. fill 32 (key ++ m);
  hmac_sm3 = λ key m. fill 32 (key ++ m);
}

abbrev pub dump : Bytes
dump = codes "xxsecret password=hunter2 yy"

abbrev pub target : Bytes
target = codes "password=hunter2"

abbrev sizes : ℕ → ℕ → HashScanConfig
sizes low limit = record { lengths = record { min = low; max = 16 }; max_hits = limit }

scan_preimages_exact_example :
    (r : HashScanResult) × (scan_preimages hex digests dump target (sizes 8 0) (md5 ∷ []) ≡ ok r)
    × ((hit : HashHit)
        → Memᴰ hit r.hits ↔ IsPreimage hex digests dump target (sizes 8 0) (md5 ∷ []) hit)
scan_preimages_exact_example =
    scan_preimages_exact hex digests dump target (sizes 8 0) (md5 ∷ []) (record {
      not_empty = omega arith;
      lengths_match = (refl, tt);
      positive = omega arith;
      unlimited = refl;
    })

-- The window is a preimage, and so it is among the hits.
planted :
    IsPreimage hex digests dump target
      (sizes 8 0)
      (md5 ∷ [])
      (hash_hit hex (codes "md5") (codes "preimage") 16 9 target)
planted = record {
  algo = md5;
  listed = Memᴰ.head refl;
  len = 16;
  low = omega arith;
  high = omega arith;
  offset = 9;
  inside = omega arith;
  digest = refl;
  reported = refl;
}

planted_found :
    Memᴰ
      (hash_hit hex (codes "md5") (codes "preimage") 16 9 target)
      scan_preimages_exact_example.0.hits
planted_found =
    (scan_preimages_exact_example.2 (hash_hit hex (codes "md5") (codes "preimage") 16 9 target)).1
      planted

abbrev repeats : Bytes
repeats = replicate 6 7

limited :
    (r : HashScanResult) × (scan_preimages hex digests repeats
        (7 ∷ 7 ∷ replicate 14 0)
        (record { lengths = record { min = 2; max = 2 }; max_hits = 3 })
        (md5 ∷ [])
      ≡ ok r)
unfolding scan_preimages scan_lengths inclusive sweep enumerate_from windows
limited = (_, refl)

scan_hmac_keys_exact_example :
    (r : HashScanResult) × (scan_hmac_keys hex digests dump
        (codes "password=hunter2")
        (sizes 8 0)
        md5
        (codes "m")
      ≡ ok r)
    × ((hit : HashHit)
        → Memᴰ hit r.hits
          ↔ IsHmacKey hex digests dump (codes "password=hunter2") (sizes 8 0) md5 (codes "m") hit)
    × ((lengths : List ℕ) × (hmac_lengths (sizes 8 0) ≡ ok lengths)
        × Distinct lengths
        × ((l : ℕ) → Memᴰ l lengths ↔ IsKeyLength (sizes 8 0) l))
scan_hmac_keys_exact_example =
    scan_hmac_keys_exact hex digests dump (codes "password=hunter2") (sizes 8 0) md5 (codes "m")
      refl (omega arith) (omega arith)
