-- ===== src/Engine/Finish.antt =====
-- engine.rs: the last step of a hunt, which turns a match into a `Hit`. `hex::encode` is a
-- parameter.
use memhunt.Base.{ℕ, Bytes, Text, codes, [], Option, none, some, List, if◌then◌else◌, from_utf8}
use memhunt.Report.{Confidence, Mode, IvCandidate, Hit}
use memhunt.Engine.Padding.{strip_pkcs7, strip_zero}

unfoldable pub to_utf8 : Bytes → Option Text
to_utf8 bytes = from_utf8 bytes

-- The name of the padding, and the plaintext after it is gone.
unfoldable pub strip_padding : Bytes → Option Text × Bytes
strip_padding plaintext =
    let (is_pkcs7, unpadded) = strip_pkcs7 plaintext in
    let (is_zero, trimmed) = strip_zero unpadded in
    if is_pkcs7
    then (some (codes "pkcs7"), unpadded)
    else if is_zero
    then (some (codes "zero"), trimmed)
    else (none, trimmed)

module _ (hex_encode : Bytes → Text) where
  unfoldable pub finalize_hit :
      Text
      → Mode
      → Bytes
      → ℕ
      → Option Text
      → Option ℕ
      → List IvCandidate
      → Bytes
      → Text
      → Confidence
      → Hit
  unfolding strip_padding to_utf8
  finalize_hit algo mode key key_offset iv_hex iv_offset iv_candidates plaintext matched_by
        confidence =
      let (padding, unpadded) = strip_padding plaintext in
      record {
        algo = algo;
        mode = mode;
        key_hex = hex_encode key;
        key_offset = key_offset;
        iv_hex = iv_hex;
        iv_offset = iv_offset;
        nonce_hex = none;
        padding = padding;
        plaintext_utf8 = to_utf8 unpadded;
        plaintext_hex = hex_encode unpadded;
        matched_by = matched_by;
        confidence = confidence;
        iv_candidates = iv_candidates;
      }

  unfoldable pub finalize_stream_hit :
      Text → Mode → Bytes → ℕ → Bytes → Bytes → Text → Confidence → Hit
  unfolding to_utf8
  finalize_stream_hit algo mode key key_offset nonce plaintext matched_by confidence = record {
    algo = algo;
    mode = mode;
    key_hex = hex_encode key;
    key_offset = key_offset;
    iv_hex = none;
    iv_offset = none;
    nonce_hex = some (hex_encode nonce);
    padding = none;
    plaintext_utf8 = to_utf8 plaintext;
    plaintext_hex = hex_encode plaintext;
    matched_by = matched_by;
    confidence = confidence;
    iv_candidates = [];
  }
