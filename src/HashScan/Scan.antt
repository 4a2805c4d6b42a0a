-- ===== src/HashScan/Scan.antt =====
-- hash_scan.rs: `scan_preimages` and `scan_hmac_keys`. `hex::encode` is a parameter, and times are
-- not modelled (see Report).
use memhunt.Base.{ℕ, zero, suc, ◌^◌, ◌+◌, ◌-◌, ◌≤◌, Bytes, Text, codes, false, not, ◌&&◌, ◌++◌}
use memhunt.Base.{List, [], ◌∷◌, Option, none, some, length, take, is_empty, any, eq_list}
use memhunt.Base.{ltb, leb, ◌==◌, if◌then◌else◌, sweep, positions}
use memhunt.Base.{Result, ok, err, Failure, panic, raise, ◌>>=◌, ◌>>◌, fail_if}
use memhunt.Report.{ScanStats}
use memhunt.HashScan.Algos.{Digests, HashAlgoSpec, hasher, HashError, digest_empty}
use memhunt.HashScan.Algos.{digest_length, mac_length}

pub record HashHit : Type 0 where
  pub algo : Text
  pub kind : Text
  pub offset : ℕ
  pub length : ℕ
  pub match_hex : Text

pub record HashScanResult : Type 0 where
  pub hits : List HashHit
  pub stats : ScanStats

pub record LengthRange : Type 0 where
  pub min : ℕ
  pub max : ℕ

abbrev pub default_range : LengthRange
default_range = record { min = 8; max = 128 }

pub record HashScanConfig : Type 0 where
  pub lengths : LengthRange
  pub max_hits : ℕ

-- `count` numbers from `lo` on.
unfoldable pub range_from : ℕ → ℕ → List ℕ
range_from lo zero = []
range_from lo (suc count) = lo ∷ range_from (lo + 1) count

-- `min..=max`.
unfoldable pub inclusive : LengthRange → List ℕ
unfolding range_from
inclusive r = range_from r.min (r.max + 1 - r.min)

-- `flat_map_iter` over the lengths: a pass over the windows of each, in order. `windows(0)` panics.
unfoldable pub scan_lengths :
    Bytes
    → (ℕ → ℕ → Bytes → Option HashHit)
    → List ℕ
    → ℕ
    → Result (Failure HashError) (ℕ × List HashHit)
scan_lengths dump test [] tried = ok (tried, [])
scan_lengths dump test (len ∷ lens) tried =
    let found = sweep false (test len) (positions len dump) tried in
    let rest = scan_lengths dump test lens found.0 in
    if len == 0 then err panic else (rest >>= λ more. ok (more.0, found.1 ++ more.1))

-- The common key sizes that the range does not hold yet.
unfoldable pub add_missing : List ℕ → List ℕ → List ℕ
add_missing lengths [] = lengths
add_missing lengths (fixed ∷ more) =
    add_missing (if any (λ l. l == fixed) lengths then lengths else lengths ++ fixed ∷ []) more

-- A `Vec<usize>` takes 8 bytes for an entry, and `isize::MAX` bytes at most.
abbrev pub vec_capacity : ℕ
vec_capacity = 2 ^ 60 - 1

-- The range can be collected.
abbrev pub Collects : LengthRange → Type 0
Collects r = r.max + 1 - r.min ≤ vec_capacity

-- `(min..=max).collect()`: a longer vector is a panic (`capacity overflow`).
unfoldable pub collect_range : LengthRange → Result (Failure HashError) (List ℕ)
unfolding inclusive
collect_range r = if ltb vec_capacity (r.max + 1 - r.min) then err panic else ok (inclusive r)

unfoldable pub hmac_lengths : HashScanConfig → Result (Failure HashError) (List ℕ)
unfolding add_missing collect_range
hmac_lengths config =
    collect_range config.lengths >>= λ range. ok (add_missing range (16 ∷ 24 ∷ 32 ∷ 64 ∷ []))

module _ (hex_encode : Bytes → Text) where
  abbrev pub hash_hit : Text → Text → ℕ → ℕ → Bytes → HashHit
  hash_hit algo kind len offset win = record {
    algo = algo;
    kind = kind;
    offset = offset;
    length = len;
    match_hex = hex_encode win;
  }

  -- The closure that tests one window: `kind` and the digest of the window are those of the search.
  abbrev pub digest_test : Text → Text → (Bytes → Bytes) → Bytes → ℕ → ℕ → Bytes → Option HashHit
  digest_test algo kind digest target len offset win =
      if eq_list (digest win) target then some (hash_hit algo kind len offset win) else none

  module _ (digests : Digests) (dump target : Bytes) (config : HashScanConfig) where
    abbrev pub preimage_test : HashAlgoSpec → ℕ → ℕ → Bytes → Option HashHit
    preimage_test algo =
        digest_test (hasher digests algo).name (codes "preimage") (hasher digests algo).hash_into
          target

    -- The loop over the algorithms, with the counter and the hits so far.
    unfoldable pub scan_algos :
        List HashAlgoSpec → ℕ × List HashHit → Result (Failure HashError) (ℕ × List HashHit)
    scan_algos [] state = ok state
    scan_algos (algo ∷ algos) (tried, hits) = do
      let h = hasher digests algo
      raise (
          fail_if (not (length target == h.output_len))
            (digest_length (length target) h.name h.output_len))
      found ← scan_lengths dump (preimage_test algo) (inclusive config.lengths) tried
      let hits' = hits ++ found.1
      let rest = scan_algos algos (found.0, hits')
      let enough = ltb 0 config.max_hits && leb config.max_hits (length hits')
      if enough then ok (found.0, take config.max_hits hits') else rest

    unfoldable pub scan_preimages : List HashAlgoSpec → Result (Failure HashError) HashScanResult
    unfolding scan_algos
    scan_preimages algos = do
      raise (fail_if (is_empty target) digest_empty)
      (tried, hits) ← scan_algos algos (0, [])
      ok (record {
        hits = hits;
        stats = record { dump_size = length dump; candidates_tried = tried };
      })

    abbrev pub hmac_test : HashAlgoSpec → Bytes → ℕ → ℕ → Bytes → Option HashHit
    hmac_test algo known_message =
        digest_test (hasher digests algo).name (codes "hmac_key")
          (λ key. (hasher digests algo).hmac_into key known_message) target

    unfoldable pub scan_hmac_keys : HashAlgoSpec → Bytes → Result (Failure HashError) HashScanResult
    scan_hmac_keys algo known_message = do
      let h = hasher digests algo
      raise (
          fail_if (not (length target == h.output_len))
            (mac_length (length target) h.name h.output_len))
      lengths ← hmac_lengths config
      (tried, hits) ← scan_lengths dump (hmac_test algo known_message) lengths 0
      ok (record {
        hits = hits;
        stats = record { dump_size = length dump; candidates_tried = tried };
      })
