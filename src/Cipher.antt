-- ===== src/Cipher.antt =====
-- crates/memhunt-core/src/cipher_adapter.rs: the ciphers that the engine sees. What the cipher
-- crates do is a parameter, the record `Crates`; the adapters around them are the source's.
use memhunt.Base.{ℕ, ◌==◌, ltb, Bytes, Text, codes, Bool, not, ◌||◌, ◌++◌, Option, none, some}
use memhunt.Base.{length, take, drop, if◌then◌else◌}

-- A block cipher of a crate: which keys it takes, its block size, and its two directions.
pub record CrateCipher : Type 0 where
  pub accepts_key : Bytes → Bool
  pub block_size : ℕ
  pub decrypt_block : Bytes → Bytes → Bytes
  pub encrypt_block : Bytes → Bytes → Bytes

-- The crates that the program calls. An AEAD gives the plaintext of a ciphertext, or nothing when
-- the tag does not verify; its arguments are key, nonce, aad, ciphertext and tag.
pub record Crates : Type 0 where
  pub aes128 : CrateCipher
  pub aes192 : CrateCipher
  pub aes256 : CrateCipher
  pub des : CrateCipher
  pub tdes_ede3 : CrateCipher
  pub sm4 : CrateCipher
  pub chacha20_stream : Bytes → Bytes → Bytes → Bytes
  pub xchacha20_stream : Bytes → Bytes → Bytes → Bytes
  pub aes128_gcm : Bytes → Bytes → Bytes → Bytes → Bytes → Option Bytes
  pub aes192_gcm : Bytes → Bytes → Bytes → Bytes → Bytes → Option Bytes
  pub aes256_gcm : Bytes → Bytes → Bytes → Bytes → Bytes → Option Bytes
  pub chacha20_poly1305 : Bytes → Bytes → Bytes → Bytes → Bytes → Option Bytes
  pub xchacha20_poly1305 : Bytes → Bytes → Bytes → Bytes → Bytes → Option Bytes
  pub hex_encode : Bytes → Text

-- The trait `BlockCipher`. A call that returns `false` is `none`, and leaves the block as it was.
pub record BlockCipher : Type 0 where
  pub algo : Text
  pub key_len : ℕ
  pub block_len : ℕ
  pub decrypt_with_key : Bytes → Bytes → Option Bytes
  pub encrypt_with_key : Bytes → Bytes → Option Bytes

-- `block.get_mut(..16)`, with the rest of the block left alone.
unfoldable pub aes_call : CrateCipher → (Bytes → Bytes → Bytes) → Bytes → Bytes → Option Bytes
aes_call c run key b =
    if not (c.accepts_key key)
    then none
    else if ltb (length b) 16
    then none
    else some (run key (take 16 b) ++ drop 16 b)

abbrev pub aes_adapter : Text → ℕ → CrateCipher → BlockCipher
aes_adapter algo key_len c = record {
  algo = algo;
  key_len = key_len;
  block_len = 16;
  decrypt_with_key = aes_call c c.decrypt_block;
  encrypt_with_key = aes_call c c.encrypt_block;
}

-- As `aes_call`, over `block_len` bytes, which must fill an `Array` of the crate's block size.
unfoldable pub cipher05_call :
    ℕ → CrateCipher → (Bytes → Bytes → Bytes) → Bytes → Bytes → Option Bytes
cipher05_call block_len c run key b =
    if not (c.accepts_key key)
    then none
    else if ltb (length b) block_len
    then none
    else if not (block_len == c.block_size)
    then none
    else some (run key (take block_len b) ++ drop block_len b)

abbrev pub cipher05_adapter : Text → ℕ → ℕ → CrateCipher → BlockCipher
cipher05_adapter algo key_len block_len c = record {
  algo = algo;
  key_len = key_len;
  block_len = block_len;
  decrypt_with_key = cipher05_call block_len c c.decrypt_block;
  encrypt_with_key = cipher05_call block_len c c.encrypt_block;
}

-- The trait `StreamCipherAdapter`.
pub record StreamCipher : Type 0 where
  pub algo : Text
  pub key_len : ℕ
  pub nonce_len : ℕ
  pub xor_keystream : Bytes → Bytes → Bytes → Option Bytes

-- Behind the two length checks the constructors of the crate take the key and the nonce.
unfoldable pub chacha_call :
    ℕ → (Bytes → Bytes → Bytes → Bytes) → Bytes → Bytes → Bytes → Option Bytes
chacha_call nonce_len run key nonce bytes =
    if not (length key == 32) || not (length nonce == nonce_len)
    then none
    else some (run key nonce bytes)

abbrev pub chacha_adapter : Text → ℕ → (Bytes → Bytes → Bytes → Bytes) → StreamCipher
chacha_adapter algo nonce_len run = record {
  algo = algo;
  key_len = 32;
  nonce_len = nonce_len;
  xor_keystream = chacha_call nonce_len run;
}

module _ (crates : Crates) where
  abbrev pub aes128 : BlockCipher
  aes128 = aes_adapter (codes "aes-128") 16 crates.aes128

  abbrev pub aes192 : BlockCipher
  aes192 = aes_adapter (codes "aes-192") 24 crates.aes192

  abbrev pub aes256 : BlockCipher
  aes256 = aes_adapter (codes "aes-256") 32 crates.aes256

  abbrev pub des : BlockCipher
  des = cipher05_adapter (codes "des") 8 8 crates.des

  abbrev pub tdes_ede3 : BlockCipher
  tdes_ede3 = cipher05_adapter (codes "3des-ede3") 24 8 crates.tdes_ede3

  abbrev pub sm4 : BlockCipher
  sm4 = cipher05_adapter (codes "sm4") 16 16 crates.sm4

  abbrev pub chacha20 : StreamCipher
  chacha20 = chacha_adapter (codes "chacha20") 12 crates.chacha20_stream

  abbrev pub xchacha20 : StreamCipher
  xchacha20 = chacha_adapter (codes "xchacha20") 24 crates.xchacha20_stream
