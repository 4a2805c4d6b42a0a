-- ===== src/Engine/StreamHunt.antt =====
-- engine.rs: `hunt_stream` (AES in CTR or GCM mode) and `hunt_stream_cipher` (ChaCha20, XChaCha20).
-- The AEAD crates and `hex::encode` are parameters. The nonces and tags have the lengths that those
-- crates want, since `validate_config` has passed.
pub mod Keys
pub mod StreamCiphers
pub mod Tagged
use memhunt.Base.{ℕ, ◌*◌, min, Bytes, Text, codes, Bool, List, [], Option, none, some}
use memhunt.Base.{length, take, ◌==◌, eq_list, if◌then◌else◌, sweep, positions}
use memhunt.Report.{Mode, Hit, high, stream}
use memhunt.Report
use memhunt.Cipher.{Crates, BlockCipher, StreamCipher}
use memhunt.Oracle.{Oracle, best_match}
use memhunt.Engine.Choice.{CipherMode, block, ctr, gcm, eq_mode}
use memhunt.Engine.Config.{ScanConfig}
use memhunt.Engine.Counter.{stream_decrypt}
use memhunt.Engine.Finish.{finalize_stream_hit}
use memhunt.Engine.Hunt.{verify_blocks}

infixl 5 ◌>>=◌
abbrev ◌>>=◌ {ℓ κ} : {A : Type ℓ} {B : Type κ} → Option A → (A → Option B) → Option B
none >>= f = none
some a >>= f = f a

-- `unwrap_or_default()`.
abbrev pub or_empty : Option Bytes → Bytes
or_empty none = []
or_empty (some bytes) = bytes

unfoldable pub decrypt_gcm_tagged : Crates → Bytes → Bytes → Bytes → Bytes → Bytes → Option Bytes
decrypt_gcm_tagged crates key nonce ciphertext tag aad =
    if length key == 16
    then crates.aes128_gcm key nonce aad ciphertext tag
    else if length key == 24
    then crates.aes192_gcm key nonce aad ciphertext tag
    else if length key == 32
    then crates.aes256_gcm key nonce aad ciphertext tag
    else none

unfoldable pub decrypt_poly1305_tagged :
    Crates → Text → Bytes → Bytes → Bytes → Bytes → Bytes → Option Bytes
decrypt_poly1305_tagged crates algo key nonce ciphertext tag aad =
    if eq_list algo (codes "chacha20")
    then crates.chacha20_poly1305 key nonce aad ciphertext tag
    else if eq_list algo (codes "xchacha20")
    then crates.xchacha20_poly1305 key nonce aad ciphertext tag
    else none

-- The mode of the report, `none` where `hunt_stream` returns at once.
abbrev pub report_mode : CipherMode → Option Mode
report_mode block = none
report_mode ctr = some Report.ctr
report_mode gcm = some Report.gcm

module _ (crates : Crates) (dump ciphertext : Bytes) where
  module _ (cipher : BlockCipher) (oracles : List Oracle) (config : ScanConfig) (algo : Text) where
    abbrev pub stream_hit : Mode → ℕ → Bytes → Bytes → Text × Report.Confidence → Hit
    stream_hit mode offset key plaintext (name, confidence) =
        finalize_stream_hit crates.hex_encode algo mode key offset (or_empty config.nonce) plaintext
          name confidence

    -- The prefix that the oracles see.
    abbrev pub verify_len : ℕ
    verify_len = min (verify_blocks * cipher.block_len) (length ciphertext)

    unfoldable pub oracle_test : Mode → ℕ → Bytes → Option Hit
    oracle_test mode offset key = do
      let nonce = or_empty config.nonce
      head ← stream_decrypt cipher key (take verify_len ciphertext) nonce config.mode
      found ← best_match oracles head
      plaintext ← stream_decrypt cipher key ciphertext nonce config.mode
      some (stream_hit mode offset key plaintext found)

    unfoldable pub gcm_test : Mode → Bytes → ℕ → Bytes → Option Hit
    gcm_test mode tag offset key = do
      plaintext ←
          decrypt_gcm_tagged crates key (or_empty config.nonce) ciphertext tag (or_empty config.aad)
      some (stream_hit mode offset key plaintext (codes "gcm-tag", high))

    -- The closure that tests one window as the key.
    unfoldable pub stream_test : Mode → ℕ → Bytes → Option Hit
    unfolding oracle_test gcm_test
    stream_test mode offset key = elim config.tag [
      | none ↦ oracle_test mode offset key
      | some tag ↦
          if eq_mode config.mode gcm
          then gcm_test mode tag offset key
          else oracle_test mode offset key
    ]

    unfoldable pub hunt_stream : Bool → ℕ → ℕ × List Hit
    unfolding stream_test
    hunt_stream stop tried = elim (report_mode config.mode) [
      | none ↦ (tried, [])
      | some mode ↦ sweep stop (stream_test mode) (positions cipher.key_len dump) tried
    ]

  module _ (adapter : StreamCipher) (oracles : List Oracle) (config : ScanConfig)
      (algo : Text) where
    abbrev pub keystream_hit : ℕ → Bytes → Bytes → Text × Report.Confidence → Hit
    keystream_hit offset key plaintext (name, confidence) =
        finalize_stream_hit crates.hex_encode algo stream key offset (or_empty config.nonce)
          plaintext name confidence

    abbrev pub keystream_verify_len : ℕ
    keystream_verify_len = min (verify_blocks * 16) (length ciphertext)

    unfoldable pub keystream_test : ℕ → Bytes → Option Hit
    keystream_test offset key = do
      let nonce = or_empty config.nonce
      head ← adapter.xor_keystream key nonce (take keystream_verify_len ciphertext)
      found ← best_match oracles head
      plaintext ← adapter.xor_keystream key nonce ciphertext
      some (keystream_hit offset key plaintext found)

    unfoldable pub poly1305_test : Bytes → ℕ → Bytes → Option Hit
    poly1305_test tag offset key = do
      plaintext ←
          decrypt_poly1305_tagged crates algo key (or_empty config.nonce) ciphertext tag
            (or_empty config.aad)
      some (keystream_hit offset key plaintext (codes "poly1305-tag", high))

    unfoldable pub stream_cipher_test : ℕ → Bytes → Option Hit
    unfolding keystream_test poly1305_test
    stream_cipher_test offset key = elim config.tag [
      | some tag ↦ poly1305_test tag offset key
      | none ↦ keystream_test offset key
    ]

    unfoldable pub hunt_stream_cipher : Bool → ℕ → ℕ × List Hit
    unfolding stream_cipher_test
    hunt_stream_cipher stop tried =
        sweep stop stream_cipher_test (positions adapter.key_len dump) tried
