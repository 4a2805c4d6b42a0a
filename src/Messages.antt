-- ===== src/Messages.antt =====
-- The texts of the errors of crates/memhunt-core/src: the strings that `Err` holds there.
use memhunt.Base.{Text, codes, ◌++◌, to_decimal}
use memhunt.Oracle.Spec.{SpecError, unknown_oracle}
use memhunt.Oracle.Spec
use memhunt.Engine.Choice.{ListError, mixed_modes, no_cipher, unknown_cipher}
use memhunt.Engine.Choice
use memhunt.Engine.Config.{ScanError, stream_mixed_with_block, iv_for_stream, nonce_required_stream}
use memhunt.Engine.Config.{xchacha_nonce, chacha_nonce, poly1305_tag_length, ctr_for_stream}
use memhunt.Engine.Config.{nonce_in_block, tag_outside_gcm, aad_outside_gcm, iv_for_ctr}
use memhunt.Engine.Config.{nonce_required_ctr, ctr_nonce_length, iv_for_gcm, nonce_required_gcm}
use memhunt.Engine.Config.{gcm_nonce_length, gcm_tag_length, aad_without_tag, ciphertext_empty}
use memhunt.Engine.Config.{unaligned, fixed_iv_length}
use memhunt.Engine.Config
use memhunt.HashScan.Algos.{HashError, unknown_algo, no_algo, digest_empty, digest_length}
use memhunt.HashScan.Algos.{mac_length}

unfoldable pub spec_message : SpecError → Text
spec_message (unknown_oracle other) =
    codes "unknown oracle '"
    ++ (other ++ codes "' (utf8 | utf16le | json | gzip | protobuf | known:<text>)")
spec_message Spec.no_oracle = codes "no oracle enabled"

unfoldable pub list_message : ListError → Text
list_message mixed_modes = codes "cipher list cannot mix modes"
list_message no_cipher = codes "no cipher specified"
list_message Choice.aes_only = codes "CTR and GCM support AES keys only"
list_message (unknown_cipher other) =
    codes "unknown cipher '"
    ++ (other
        ++ codes
            "' (aes-128 | aes-192 | aes-256 | des | 3des | sm4 | chacha20 | xchacha20 | all | aes-<size>-ctr | aes-<size>-gcm)")

unfoldable pub scan_message : ScanError → Text
scan_message stream_mixed_with_block = codes "stream ciphers cannot be mixed with block ciphers"
scan_message iv_for_stream = codes "use --nonce, not --iv, for stream ciphers"
scan_message nonce_required_stream = codes "nonce is required for stream ciphers"
scan_message (xchacha_nonce n) =
    codes "XChaCha20 requires a 24-byte nonce (got " ++ (to_decimal n ++ codes ")")
scan_message (chacha_nonce n) =
    codes "ChaCha20 requires a 12-byte nonce (got " ++ (to_decimal n ++ codes ")")
scan_message poly1305_tag_length = codes "Poly1305 tag must be 16 bytes"
scan_message ctr_for_stream = codes "CTR is AES-only; chacha20 is already a stream cipher"
scan_message nonce_in_block = codes "nonce is only valid for CTR or GCM"
scan_message tag_outside_gcm = codes "tag is only valid for GCM"
scan_message aad_outside_gcm = codes "aad is only valid for GCM"
scan_message iv_for_ctr = codes "use --nonce, not --iv, for CTR"
scan_message nonce_required_ctr = codes "nonce is required for CTR"
scan_message ctr_nonce_length = codes "CTR nonce must be a 16-byte initial counter block"
scan_message iv_for_gcm = codes "use --nonce, not --iv, for GCM"
scan_message nonce_required_gcm = codes "nonce is required for GCM"
scan_message gcm_nonce_length = codes "GCM nonce must be 12 bytes"
scan_message gcm_tag_length = codes "GCM tag must be 16 bytes"
scan_message aad_without_tag = codes "GCM aad requires a tag"
scan_message Config.aes_only = codes "CTR and GCM support AES keys only"
scan_message Config.no_oracle = codes "no oracle specified"
scan_message ciphertext_empty = codes "ciphertext is empty"
scan_message (unaligned n block) =
    codes "ciphertext length "
    ++ (to_decimal n
        ++ (codes " is not a multiple of the block size (" ++ (to_decimal block ++ codes ")")))
scan_message (fixed_iv_length n algo block) =
    codes "fixed IV length "
    ++ (to_decimal n
        ++ (codes " does not match " ++ (algo ++ (codes " block size " ++ to_decimal block))))

unfoldable pub hash_message : HashError → Text
hash_message (unknown_algo other) =
    codes "unknown hash algo '" ++ (other ++ codes "' (md5 | sha1 | sha256 | sm3)")
hash_message no_algo = codes "no hash algo specified"
hash_message digest_empty = codes "target digest is empty"
hash_message (digest_length n name size) =
    codes "target digest length "
    ++ (to_decimal n
        ++ (codes " does not match " ++ (name ++ (codes " output length " ++ to_decimal size))))
hash_message (mac_length n name size) =
    codes "target MAC length "
    ++ (to_decimal n
        ++ (codes " does not match " ++ (name ++ (codes " output length " ++ to_decimal size))))
