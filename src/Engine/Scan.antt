-- ===== src/Engine/Scan.antt =====
-- engine.rs: `scan`, the validation and then one hunt for each cipher of the list.
-- The flag `stop` is created and read, and nothing sets it. Times are not modelled (see Report).
pub mod Hits
pub mod Keys
pub mod Total
pub mod Limits
use memhunt.Base.{
  ℕ, Bytes, Text, Bool, false, not, ◌&&◌, ◌||◌, ◌++◌, List, [], ◌∷◌, Option, none, some,
}
use memhunt.Base.{length, take, is_empty, ltb, leb, ◌==◌, if◌then◌else◌}
use memhunt.Base.{Result, ok, err, Failure, error, panic, raise, ◌>>=◌, ◌>>◌, fail_if}
use memhunt.Report.{Hit, ScanResult}
use memhunt.Cipher
use memhunt.Cipher.{Crates, BlockCipher, StreamCipher}
use memhunt.Oracle.{Oracle}
use memhunt.Engine.Choice.{CipherMode, block, gcm, CipherChoice, aes128, aes192, aes256, des}
use memhunt.Engine.Choice.{tdes_ede3, sm4, chacha20, xchacha20, eq_mode, label, is_stream_cipher}
use memhunt.Engine.Config.{ScanConfig, ScanError, is_some, no_oracle, ciphertext_empty}
use memhunt.Engine.Config.{fixed_iv_length, validate_config}
use memhunt.Engine.Padding.{split_blocks}
use memhunt.Engine.Hunt.{hunt}
use memhunt.Engine.StreamHunt.{hunt_stream, hunt_stream_cipher}

module _ (crates : Crates) where
  -- `none` is `unreachable!`.
  abbrev pub adapter : CipherChoice → Option BlockCipher
  adapter aes128 = some (Cipher.aes128 crates)
  adapter aes192 = some (Cipher.aes192 crates)
  adapter aes256 = some (Cipher.aes256 crates)
  adapter des = some (Cipher.des crates)
  adapter tdes_ede3 = some (Cipher.tdes_ede3 crates)
  adapter sm4 = some (Cipher.sm4 crates)
  adapter chacha20 = none
  adapter xchacha20 = none

  abbrev pub stream_adapter : CipherChoice → Option StreamCipher
  stream_adapter chacha20 = some (Cipher.chacha20 crates)
  stream_adapter xchacha20 = some (Cipher.xchacha20 crates)
  stream_adapter aes128 = none
  stream_adapter aes192 = none
  stream_adapter aes256 = none
  stream_adapter des = none
  stream_adapter tdes_ede3 = none
  stream_adapter sm4 = none

abbrev pub or_panic {ℓ} : {A : Type ℓ} → Option A → Result (Failure ScanError) A
or_panic none = err panic
or_panic (some a) = ok a

abbrev pub some_ok {ℓ} :
    {A : Type ℓ} → Result (Failure ScanError) A → Result (Failure ScanError) (Option A)
some_ok (ok a) = ok (some a)
some_ok (err e) = err e

-- The check of the fixed IV against the block size.
unfoldable pub check_iv : Option Bytes → Text → ℕ → Result ScanError (Option Bytes)
check_iv none algo block_len = ok none
check_iv (some iv) algo block_len =
    if not (length iv == block_len)
    then err (fixed_iv_length (length iv) algo block_len)
    else ok (some iv)

module _ (crates : Crates) (dump ciphertext : Bytes) (oracles : List Oracle)
    (config : ScanConfig) where
  -- The hunt in ECB and CBC mode, behind its checks.
  unfoldable pub scan_blocks :
      CipherChoice → BlockCipher → ℕ → Result (Failure ScanError) (ℕ × List Hit)
  unfolding check_iv
  scan_blocks choice cipher tried = do
    blocks ← raise (split_blocks ciphertext cipher.block_len)
    iv ← raise (check_iv config.fixed_iv (label choice) cipher.block_len)
    ok (
        hunt crates.hex_encode dump blocks cipher.block_len cipher oracles config (label choice) iv
          false tried)

  unfoldable pub scan_stream :
      CipherChoice → BlockCipher → ℕ → Result (Failure ScanError) (ℕ × List Hit)
  scan_stream choice cipher tried = do
    raise (fail_if (is_empty ciphertext) ciphertext_empty)
    ok (hunt_stream crates dump ciphertext cipher oracles config (label choice) false tried)

  unfoldable pub scan_stream_cipher : CipherChoice → ℕ → Result (Failure ScanError) (ℕ × List Hit)
  scan_stream_cipher choice tried = do
    raise (fail_if (is_empty ciphertext) ciphertext_empty)
    adapter ← or_panic (stream_adapter crates choice)
    ok (hunt_stream_cipher crates dump ciphertext adapter oracles config (label choice) false tried)

  -- `none` is `continue`: the dump is shorter than a key.
  unfoldable pub scan_block_cipher :
      CipherChoice → ℕ → Result (Failure ScanError) (Option (ℕ × List Hit))
  unfolding scan_blocks scan_stream
  scan_block_cipher choice tried = do
    cipher ← or_panic (adapter crates choice)
    let blocks_found = scan_blocks choice cipher tried
    let stream_found = scan_stream choice cipher tried
    let found = if eq_mode config.mode block then blocks_found else stream_found
    if ltb (length dump) cipher.key_len then ok none else some_ok found

  unfoldable pub scan_choice : CipherChoice → ℕ → Result (Failure ScanError) (Option (ℕ × List Hit))
  unfolding scan_stream_cipher scan_block_cipher
  scan_choice choice tried =
      if is_stream_cipher choice
      then some_ok (scan_stream_cipher choice tried)
      else scan_block_cipher choice tried

  -- The loop over the ciphers, with the counter and the hits so far.
  unfoldable pub scan_loop :
      List CipherChoice → ℕ × List Hit → Result (Failure ScanError) (ℕ × List Hit)
  scan_loop [] state = ok state
  scan_loop (choice ∷ choices) (tried, all_hits) = do
    found ← scan_choice choice tried
    elim found [
      | none ↦ scan_loop choices (tried, all_hits)
      | some (tried', hits) ↦
          let all_hits' = all_hits ++ hits in
          let rest = scan_loop choices (tried', all_hits') in
          if ltb 0 config.max_hits && leb config.max_hits (length all_hits')
          then ok (tried', take config.max_hits all_hits')
          else rest
    ]

  unfoldable pub scan : Result (Failure ScanError) ScanResult
  unfolding scan_loop
  scan = do
    raise (validate_config config)
    raise (
        fail_if ((not (eq_mode config.mode gcm) || not (is_some config.tag)) && is_empty oracles)
          no_oracle)
    (tried, hits) ← scan_loop config.ciphers (0, [])
    ok (record {
      hits = hits;
      stats = record { dump_size = length dump; candidates_tried = tried };
    })
