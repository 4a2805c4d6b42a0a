-- ===== src/KeySched/Scan.antt =====
-- `scan_key_schedules`: the three AES key sizes, one after the other, then SM4.
-- `hex::encode` is a parameter. Times are not modelled (see Report).
use memhunt.Base.{ℕ, ◌+◌, ◌*◌, Bytes, Text, codes, false, List, [], ◌∷◌, ◌++◌, Option}
use memhunt.Base.{length, take, drop, ltb, if◌then◌else◌, sweep, positions}
use memhunt.Report.{ScanStats}
use memhunt.KeySched.Aes.{schedule_head_valid}
use memhunt.KeySched.Sm4.{sm4_schedule_head_valid}
use mathlib.Core.Option

pub record KeyScheduleHit : Type 0 where
  pub algo : Text
  pub offset : ℕ
  pub key_hex : Text
  pub words_validated : ℕ

pub record KeyScheduleResult : Type 0 where
  pub hits : List KeyScheduleHit
  pub stats : ScanStats

abbrev pub aes_sizes : List (ℕ × Text)
aes_sizes = (4, codes "aes-128") ∷ (6, codes "aes-192") ∷ (8, codes "aes-256") ∷ []

module _ (hex_encode : Bytes → Text) (dump : Bytes) where
  -- The closure that tests one window for an AES key of `nk` words.
  abbrev pub aes_test : ℕ → Text → ℕ → Bytes → Option KeyScheduleHit
  aes_test nk algo offset win =
      Option.map
        (λ validated. record {
          algo = algo;
          offset = offset;
          key_hex = hex_encode (take (nk * 4) win);
          words_validated = validated + nk;
        })
        (schedule_head_valid dump offset nk)

  abbrev pub sm4_test : ℕ → Bytes → Option KeyScheduleHit
  sm4_test offset win =
      Option.map
        (λ validated. record {
          algo = codes "sm4";
          offset = offset;
          key_hex = hex_encode (take 16 (drop offset dump));
          words_validated = validated;
        })
        (sm4_schedule_head_valid dump offset)

  -- One key size: `continue` where the dump is too short, else a pass over its windows. The pair is
  -- the counter and the hits so far.
  unfoldable pub visit_size : ℕ → Text → ℕ × List KeyScheduleHit → ℕ × List KeyScheduleHit
  visit_size nk algo (tried, all_hits) =
      let window = (nk + 4) * 4 in
      let found = sweep false (aes_test nk algo) (positions window dump) tried in
      if ltb (length dump) window then (tried, all_hits) else (found.0, all_hits ++ found.1)

  unfoldable pub scan_sizes : List (ℕ × Text) → ℕ × List KeyScheduleHit → ℕ × List KeyScheduleHit
  scan_sizes [] state = state
  scan_sizes ((nk, algo) ∷ sizes) state = scan_sizes sizes (visit_size nk algo state)

  unfoldable pub scan_sm4_schedules : ℕ → ℕ × List KeyScheduleHit
  scan_sm4_schedules tried =
      if ltb (length dump) 20 then (tried, []) else sweep false sm4_test (positions 20 dump) tried

  unfoldable pub scan_key_schedules : KeyScheduleResult
  unfolding scan_sizes visit_size scan_sm4_schedules
  scan_key_schedules =
      let aes = scan_sizes aes_sizes (0, []) in
      let sm4 = scan_sm4_schedules aes.0 in
      record {
        hits = aes.1 ++ sm4.1;
        stats = record { dump_size = length dump; candidates_tried = sm4.0 };
      }
