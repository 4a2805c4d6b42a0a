-- ===== src/Report.antt =====
-- crates/memhunt-core/src/report.rs: what a scan reports.
-- A `String` is a `Text`. The times of a run (`duration_ms`, `candidates_per_sec`) come from a
-- clock and from floating point, and are not modelled.
use memhunt.Base.{ℕ, Text, Option, List}

pub data Confidence : Type 0 where
  low medium high : Confidence

abbrev pub rank : Confidence → ℕ
rank low = 0
rank medium = 1
rank high = 2

pub data Mode : Type 0 where
  ecb cbc ctr gcm stream : Mode

pub record IvCandidate : Type 0 where
  pub iv_hex : Text
  pub iv_offset : ℕ
  pub confidence : Confidence
  pub matched_by : Text
  pub block0_utf8 : Option Text
  pub block0_hex : Text

pub record Hit : Type 0 where
  pub algo : Text
  pub mode : Mode
  pub key_hex : Text
  pub key_offset : ℕ
  pub iv_hex : Option Text
  pub iv_offset : Option ℕ
  pub nonce_hex : Option Text
  pub padding : Option Text
  pub plaintext_utf8 : Option Text
  pub plaintext_hex : Text
  pub matched_by : Text
  pub confidence : Confidence
  pub iv_candidates : List IvCandidate

pub record ScanStats : Type 0 where
  pub dump_size : ℕ
  pub candidates_tried : ℕ

pub record ScanResult : Type 0 where
  pub hits : List Hit
  pub stats : ScanStats
