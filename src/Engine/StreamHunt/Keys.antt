-- ===== src/Engine/StreamHunt/Keys.antt =====
-- `hunt_stream` and `hunt_stream_cipher` find the key of a ciphertext.
use memhunt.Base.{ℕ, ◌*◌, min, ◌≡◌, refl, sym, ap, subst}
use memhunt.Base.{Bytes, Text, false, List, [], Memᴰ, Option, none, some, length, take}
use memhunt.Base.{sweep, positions, sweep_complete}
use memhunt.Report.{Confidence, Mode, Hit}
use memhunt.Cipher.{Crates, BlockCipher}
use memhunt.Oracle.{Oracle, best_match}
use memhunt.Engine.Config.{ScanConfig}
use memhunt.Engine.Counter.{stream_decrypt}
use memhunt.Engine.Keystream.{NonceFits, IsEncryption, stream_decrypt_prefix}
use memhunt.Engine.Finish.{finalize_stream_hit}
use memhunt.Engine.Hunt.Keys.{IsKeyAt}
use memhunt.Engine.StreamHunt.{or_empty, report_mode, oracle_test}
use memhunt.Engine.StreamHunt.{verify_len, stream_test, hunt_stream}

module _ (crates : Crates) (dump ciphertext : Bytes) (cipher : BlockCipher) (oracles : List Oracle)
    (config : ScanConfig) (algo : Text) where
  abbrev test : Mode → ℕ → Bytes → Option Hit
  test = stream_test crates dump ciphertext cipher oracles config algo

  abbrev hits : ℕ → List Hit
  hits tried = (hunt_stream crates dump ciphertext cipher oracles config algo false tried).1

  pub hunt_stream-sweep :
      (tried : ℕ) (mode : Mode)
      → report_mode config.mode ≡ some mode
      → hunt_stream crates dump ciphertext cipher oracles config algo false tried
        ≡ sweep false (test mode) (positions cipher.key_len dump) tried
  unfolding hunt_stream
  hunt_stream-sweep tried mode reported = ap run reported
    where
      run : Option Mode → ℕ × List Hit
      run none = (tried, [])
      run (some m) = sweep false (test m) (positions cipher.key_len dump) tried

  hunt_stream_complete :
      (tried offset : ℕ) (key : Bytes) (mode : Mode) (hit : Hit)
      → IsKeyAt dump cipher offset key
      → report_mode config.mode ≡ some mode
      → test mode offset key ≡ some hit
      → Memᴰ hit (hits tried)
  hunt_stream_complete tried offset key mode hit at reported e =
      subst (λ run. Memᴰ hit run.1) (sym (hunt_stream-sweep tried mode reported))
        (sweep_complete cipher.key_len (test mode) dump tried offset hit at.some_bytes at.inside
          (subst (λ k. test mode offset k ≡ some hit) (sym at.reads) e))

  test_oracle :
      (offset : ℕ) (key : Bytes) (mode : Mode) (head plaintext : Bytes) (found : Text × Confidence)
      → config.tag ≡ none
      → stream_decrypt cipher key
          (take (verify_len crates dump ciphertext cipher oracles config algo) ciphertext)
          (or_empty config.nonce)
          config.mode
        ≡ some head
      → best_match oracles head ≡ some found
      → stream_decrypt cipher key ciphertext (or_empty config.nonce) config.mode ≡ some plaintext
      → test mode offset key
        ≡ some (
            finalize_stream_hit crates.hex_encode algo mode key offset
              (or_empty config.nonce)
              plaintext
              found.0
              found.1)
  unfolding stream_test oracle_test
  test_oracle offset key mode head plaintext found no_tag d accepted whole =
      rw (no_tag, d, accepted, whole) refl

  -- A key in the dump under which the ciphertext decrypts in CTR or GCM mode is reported, with its
  -- offset, its bytes and the whole plaintext, where no tag is given, the nonce fits the mode, the
  -- cipher encrypts 16 bytes to 16 bytes and an oracle accepts the plaintext's first two blocks.
  pub stream_key_found :
      (tried offset : ℕ) (key : Bytes) (enc : Bytes → Bytes) (mode : Mode) (plaintext : Bytes)
      (found : Text × Confidence)
      → IsKeyAt dump cipher offset key
      → IsEncryption cipher key enc
      → NonceFits config.mode (or_empty config.nonce)
      → report_mode config.mode ≡ some mode
      → config.tag ≡ none
      → stream_decrypt cipher key ciphertext (or_empty config.nonce) config.mode ≡ some plaintext
      → best_match oracles (take (min (2 * cipher.block_len) (length ciphertext)) plaintext)
        ≡ some found
      → Memᴰ
          (finalize_stream_hit crates.hex_encode algo mode key offset
            (or_empty config.nonce)
            plaintext
            found.0
            found.1)
          (hits tried)
  stream_key_found tried offset key enc mode plaintext found at encrypts fits reported no_tag d
        accepted =
      hunt_stream_complete tried offset key mode _ at reported (
        test_oracle offset key mode
          (take (min (2 * cipher.block_len) (length ciphertext)) plaintext) plaintext found no_tag
          (stream_decrypt_prefix cipher key enc encrypts config.mode (or_empty config.nonce) fits
            (min (2 * cipher.block_len) (length ciphertext)) ciphertext plaintext d)
          accepted d)
