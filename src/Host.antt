-- ===== src/Host.antt =====
-- What the front ends of crates/memhunt-cli/src take from other packages and from the system.
use memhunt.Base.{ℕ, Bool, Bytes, Text, List, Option, Result}
use memhunt.Report.{Hit}
use memhunt.KeySched.Scan.{KeyScheduleHit}
use memhunt.HashScan.Scan.{HashHit}

-- `hex::decode` and the `decode` of base64's standard engine; `none` is an error.
-- `std::fs::read` and rayon's `build_global`, with the text of the error. `passes_run`: whether the
-- parallel passes can run behind a `build_global` with this number of threads. They can where it
-- built the pool and where a pool stood before; they panic where the threads could not be started.
-- `write`: stdout takes a line, behind the lines that it took before, or gives an error; `flush` is
-- called behind the lines that it took.
-- `serde_json::to_writer` of a hit: the line that it writes. `from_utf8_lossy`: the text of the
-- bytes, with a replacement character where they are no UTF-8.
pub record Host : Type 0 where
  pub hex_decode : Text → Option Bytes
  pub base64_decode : Text → Option Bytes
  pub read_file : Text → Result Text Bytes
  pub build_pool : ℕ → Result Text (Unit {0})
  pub passes_run : ℕ → Bool
  pub write : List Text → Text → Result Text (Unit {0})
  pub flush : List Text → Result Text (Unit {0})
  pub hit_json : Hit → Text
  pub key_hit_json : KeyScheduleHit → Text
  pub hash_hit_json : HashHit → Text
  pub from_utf8_lossy : Bytes → Text
