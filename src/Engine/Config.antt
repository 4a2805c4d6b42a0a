-- ===== src/Engine/Config.antt =====
-- engine.rs: `ScanConfig` and `validate_config`.
pub mod Valid
use memhunt.Base.{
  ℕ, Bytes, Text, Bool, true, false, not, ◌&&◌, List, ◌∷◌, [], Option, none, some, any, length,
}
use memhunt.Base.{◌==◌, if◌then◌else◌, Result, ok, err, ◌>>=◌, ◌>>◌, fail_if}
use memhunt.Engine.Choice.{
  CipherMode, block, ctr, gcm, CipherChoice, aes128, aes192, aes256, chacha20,
}
use memhunt.Engine.Choice.{xchacha20, eq_mode, eq_choice, is_aes, is_stream_cipher}

pub record ScanConfig : Type 0 where
  pub ciphers : List CipherChoice
  pub mode : CipherMode
  pub max_hits : ℕ
  pub scan_iv : Bool
  pub fixed_iv : Option Bytes
  pub nonce : Option Bytes
  pub tag : Option Bytes
  pub aad : Option Bytes

abbrev pub default_config : ScanConfig
default_config = record {
  ciphers = aes128 ∷ aes192 ∷ aes256 ∷ [];
  mode = block;
  max_hits = 0;
  scan_iv = true;
  fixed_iv = none;
  nonce = none;
  tag = none;
  aad = none;
}

-- The messages of `scan`, its validation included, in the order of the source.
pub data ScanError : Type 0 where
  stream_mixed_with_block iv_for_stream nonce_required_stream : ScanError
  xchacha_nonce chacha_nonce : ℕ → ScanError
  poly1305_tag_length ctr_for_stream : ScanError
  nonce_in_block tag_outside_gcm aad_outside_gcm : ScanError
  iv_for_ctr nonce_required_ctr ctr_nonce_length : ScanError
  iv_for_gcm nonce_required_gcm gcm_nonce_length gcm_tag_length aad_without_tag : ScanError
  aes_only : ScanError
  no_oracle ciphertext_empty : ScanError
  unaligned : ℕ → ℕ → ScanError
  fixed_iv_length : ℕ → Text → ℕ → ScanError

abbrev pub is_some {ℓ} : {A : Type ℓ} → Option A → Bool
is_some none = false
is_some (some a) = true

-- `ok_or(message)?`.
abbrev pub ok_or {ℓ} : {A : Type ℓ} → Option A → ScanError → Result ScanError A
ok_or none e = err e
ok_or (some a) e = ok a

-- `if let Some(x) = option { if x.len() != n { return Err(e) } }`.
abbrev pub length_if_some : Option Bytes → ℕ → ScanError → Result ScanError (Unit {0})
length_if_some none n e = ok tt
length_if_some (some bytes) n e = fail_if (not (length bytes == n)) e

unfoldable pub validate_stream : ScanConfig → Result ScanError (Unit {0})
validate_stream c = do
  fail_if (any (λ x. not (is_stream_cipher x)) c.ciphers) stream_mixed_with_block
  fail_if (is_some c.fixed_iv) iv_for_stream
  nonce ← ok_or c.nonce nonce_required_stream
  let has_xchacha = any (λ x. eq_choice x xchacha20) c.ciphers
  let has_chacha = any (λ x. eq_choice x chacha20) c.ciphers
  fail_if (has_xchacha && not (length nonce == 24)) (xchacha_nonce (length nonce))
  fail_if (has_chacha && not (length nonce == 12)) (chacha_nonce (length nonce))
  length_if_some c.tag 16 poly1305_tag_length
  fail_if (eq_mode c.mode ctr) ctr_for_stream

-- `if let Some(tag) = … { … } else if config.aad.is_some() { … }`.
abbrev pub tag_or_no_aad : Option Bytes → Option Bytes → Result ScanError (Unit {0})
tag_or_no_aad none aad = fail_if (is_some aad) aad_without_tag
tag_or_no_aad (some tag) aad = fail_if (not (length tag == 16)) gcm_tag_length

unfoldable pub validate_mode : CipherMode → ScanConfig → Result ScanError (Unit {0})
validate_mode block c = do
  fail_if (is_some c.nonce) nonce_in_block
  fail_if (is_some c.tag) tag_outside_gcm
  fail_if (is_some c.aad) aad_outside_gcm
validate_mode ctr c = do
  fail_if (is_some c.fixed_iv) iv_for_ctr
  fail_if (is_some c.tag) tag_outside_gcm
  fail_if (is_some c.aad) aad_outside_gcm
  nonce ← ok_or c.nonce nonce_required_ctr
  fail_if (not (length nonce == 16)) ctr_nonce_length
validate_mode gcm c = do
  fail_if (is_some c.fixed_iv) iv_for_gcm
  nonce ← ok_or c.nonce nonce_required_gcm
  fail_if (not (length nonce == 12)) gcm_nonce_length
  tag_or_no_aad c.tag c.aad

unfoldable pub validate_config : ScanConfig → Result ScanError (Unit {0})
unfolding validate_stream validate_mode
validate_config c = if any is_stream_cipher c.ciphers then validate_stream c else (do
  validate_mode c.mode c
  fail_if (not (eq_mode c.mode block) && any (λ x. not (is_aes x)) c.ciphers) aes_only)
