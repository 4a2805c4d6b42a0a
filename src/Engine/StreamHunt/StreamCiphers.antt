-- ===== src/Engine/StreamHunt/StreamCiphers.antt =====
-- `hunt_stream_cipher` finds the key of a ChaCha ciphertext.
use memhunt.Base.{ℕ, ◌+◌, ◌*◌, ◌≤◌, ◌<◌, min, ◌≡◌, refl, sym, subst}
use memhunt.Base.{Bytes, Text, false, List, Memᴰ, Option, none, some, length, take, drop}
use memhunt.Base.{sweep_complete}
use memhunt.Report.{Confidence, Hit, stream}
use memhunt.Cipher.{Crates, StreamCipher}
use memhunt.Oracle.{Oracle, best_match}
use memhunt.Engine.Config.{ScanConfig}
use memhunt.Engine.Finish.{finalize_stream_hit}
use memhunt.Engine.StreamHunt.{or_empty, keystream_test}
use memhunt.Engine.StreamHunt.{stream_cipher_test, hunt_stream_cipher}

-- The key of a stream cipher stands at `offset` in the dump.
pub record IsStreamKeyAt (dump : Bytes) (cipher : StreamCipher) (offset : ℕ) (key : Bytes)
    : Type 0 where
  pub some_bytes : 0 < cipher.key_len
  pub inside : offset + cipher.key_len ≤ length dump
  pub reads : take cipher.key_len (drop offset dump) ≡ key

-- Under the key and the nonce the cipher works byte by byte, as a keystream does.
abbrev pub Streams : StreamCipher → Bytes → Bytes → Type 0
Streams cipher key nonce =
    (n : ℕ) (bytes plain : Bytes)
    → cipher.xor_keystream key nonce bytes ≡ some plain
    → cipher.xor_keystream key nonce (take n bytes) ≡ some (take n plain)

module _ (crates : Crates) (dump ciphertext : Bytes) (cipher : StreamCipher) (oracles : List Oracle)
    (config : ScanConfig) (algo : Text) where
  abbrev test : ℕ → Bytes → Option Hit
  test = stream_cipher_test crates dump ciphertext cipher oracles config algo

  abbrev hits : ℕ → List Hit
  hits tried = (hunt_stream_cipher crates dump ciphertext cipher oracles config algo false tried).1

  hunt_stream_cipher_complete :
      (tried offset : ℕ) (key : Bytes) (hit : Hit)
      → IsStreamKeyAt dump cipher offset key
      → test offset key ≡ some hit
      → Memᴰ hit (hits tried)
  unfolding hunt_stream_cipher
  hunt_stream_cipher_complete tried offset key hit at e =
      sweep_complete cipher.key_len test dump tried offset hit at.some_bytes at.inside
        (subst (λ k. test offset k ≡ some hit) (sym at.reads) e)

  test_keystream :
      (offset : ℕ) (key head plaintext : Bytes) (found : Text × Confidence)
      → config.tag ≡ none
      → cipher.xor_keystream key
          (or_empty config.nonce)
          (take (min (2 * 16) (length ciphertext)) ciphertext)
        ≡ some head
      → best_match oracles head ≡ some found
      → cipher.xor_keystream key (or_empty config.nonce) ciphertext ≡ some plaintext
      → test offset key
        ≡ some (
            finalize_stream_hit crates.hex_encode algo stream key offset
              (or_empty config.nonce)
              plaintext
              found.0
              found.1)
  unfolding stream_cipher_test keystream_test
  test_keystream offset key head plaintext found no_tag d accepted whole =
      rw (no_tag, d, accepted, whole) refl

  -- A key in the dump under which the ciphertext decrypts is reported, with its offset, its bytes
  -- and the whole plaintext, where no tag is given, the cipher decrypts a prefix of the ciphertext
  -- to the prefix of the plaintext, and an oracle accepts the plaintext's first 32 bytes.
  pub keystream_key_found :
      (tried offset : ℕ) (key plaintext : Bytes) (found : Text × Confidence)
      → IsStreamKeyAt dump cipher offset key
      → Streams cipher key (or_empty config.nonce)
      → config.tag ≡ none
      → cipher.xor_keystream key (or_empty config.nonce) ciphertext ≡ some plaintext
      → best_match oracles (take (min 32 (length ciphertext)) plaintext) ≡ some found
      → Memᴰ
          (finalize_stream_hit crates.hex_encode algo stream key offset
            (or_empty config.nonce)
            plaintext
            found.0
            found.1)
          (hits tried)
  keystream_key_found tried offset key plaintext found at streams no_tag d accepted =
      hunt_stream_cipher_complete tried offset key _ at (
        test_keystream offset key (take (min 32 (length ciphertext)) plaintext) plaintext found
          no_tag (streams (min 32 (length ciphertext)) ciphertext plaintext d) accepted d)
