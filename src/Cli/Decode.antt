-- ===== src/Cli/Decode.antt =====
-- `decode_ciphertext`: how the target of a scan is read.
use memhunt.Base.{ℕ, ◌%◌, Bytes, Text, codes, Bool, not, ◌&&◌, ◌||◌, Option, none, some, length}
use memhunt.Base.{is_empty, all, leb, ◌==◌, eq_list, if◌then◌else◌, trim, as_bytes}
use memhunt.Base.{Result, ok, err, ◌>>=◌, ◌>>◌, fail_if, some_or}
use memhunt.Oracle.Spec.{SpecError}
use memhunt.Engine.Choice.{ListError}
use memhunt.Engine.Config.{ScanError}
use memhunt.HashScan.Algos.{HashError}
use memhunt.Host.{Host}

-- The errors of main.rs. Those of the core and of the system are passed on.
pub data CliError : Type 0 where
  not_hex not_base64 not_detected empty_ciphertext digest_not_hex no_algo_given no_message :
      CliError
  unknown_encoding unknown_mode bad_hex_arg pool write_failed : Text → CliError
  unreadable : Text → Text → CliError
  of_spec : SpecError → CliError
  of_list : ListError → CliError
  of_scan : ScanError → CliError
  of_hash : HashError → CliError

-- `char::is_ascii_hexdigit`.
unfoldable pub is_hexdigit : ℕ → Bool
is_hexdigit c = leb b'0' c && leb c b'9' || leb b'a' c && leb c b'f' || leb b'A' c && leb c b'F'

-- A `String` has the length of its UTF-8.
unfoldable pub looks_hex : Text → Bool
unfolding is_hexdigit
looks_hex t = length (as_bytes t) % 2 == 0 && not (is_empty t) && all is_hexdigit t

-- `or_else`.
abbrev pub or_else {ℓ} : {A : Type ℓ} → Option A → Option A → Option A
or_else none b = b
or_else (some a) b = some a

module _ (host : Host) where
  unfoldable pub try_hex : Text → Option Bytes
  try_hex s = let t = trim s in if looks_hex t then host.hex_decode t else none

  unfoldable pub try_b64 : Text → Option Bytes
  try_b64 s = host.base64_decode (trim s)

  -- The `match` on the encoding.
  unfoldable pub decode_as : Text → Text → Result CliError Bytes
  decode_as target encoding =
      if eq_list encoding (codes "hex")
      then some_or (try_hex target) not_hex
      else if eq_list encoding (codes "base64")
      then some_or (try_b64 target) not_base64
      else if eq_list encoding (codes "utf8")
      then ok (as_bytes target)
      else if eq_list encoding (codes "auto")
      then some_or (or_else (try_hex target) (try_b64 target)) not_detected
      else err (unknown_encoding encoding)

  unfoldable pub decode_ciphertext : Text → Text → Result CliError Bytes
  unfolding decode_as
  decode_ciphertext target encoding = do
    decoded ← decode_as target encoding
    fail_if (is_empty decoded) empty_ciphertext
    ok decoded
