-- ===== src/Engine/Scan/Total.antt =====
-- `scan` asks each cipher of the list for an adapter that it has.
use memhunt.Base.{ℕ, ◌≡◌, ◌≢◌, refl, subst}
use memhunt.Base.{Bytes, Bool, not, ◌&&◌, ◌||◌, ◌++◌, List, [], ◌∷◌, Option, none, some}
use memhunt.Base.{length, take, is_empty, ltb, leb, if◌then◌else◌}
use memhunt.Base.{Result, ok, err, Failure, error, panic, raise, fail_if}
use memhunt.Base.{Returns, raise-Returns, bind-Returns, if-Returns}
use memhunt.Report.{Hit}
use memhunt.Cipher.{Crates, BlockCipher}
use memhunt.Oracle.{Oracle}
use memhunt.Engine.Choice.{block, gcm, CipherChoice, aes128, aes192, aes256, des}
use memhunt.Engine.Choice.{tdes_ede3, sm4, chacha20, xchacha20, eq_mode, label}
use memhunt.Engine.Config.{ScanConfig, ScanError, is_some, no_oracle, ciphertext_empty}
use memhunt.Engine.Config.{validate_config}
use memhunt.Engine.Padding.{split_blocks}
use memhunt.Engine.Scan.{some_ok, adapter, check_iv, scan_blocks, scan_stream}
use memhunt.Engine.Scan.{scan_stream_cipher, scan_block_cipher, scan_choice, scan_loop, scan}

some_ok-Returns {ℓ} :
    {A : Type ℓ} (r : Result (Failure ScanError) A) → Returns r → Returns (some_ok r)
some_ok-Returns (ok a) h = tt
some_ok-Returns (err (error e)) h = tt
some_ok-Returns (err panic) h = h

module _ (crates : Crates) (dump ciphertext : Bytes) (oracles : List Oracle)
    (config : ScanConfig) where
  scan_blocks-Returns :
      (choice : CipherChoice) (cipher : BlockCipher) (tried : ℕ)
      → Returns (scan_blocks crates dump ciphertext oracles config choice cipher tried)
  unfolding scan_blocks
  scan_blocks-Returns choice cipher tried =
      bind-Returns (raise (split_blocks ciphertext cipher.block_len)) _
        (raise-Returns (split_blocks ciphertext cipher.block_len))
        (λ blocks.
          bind-Returns (raise (check_iv config.fixed_iv (label choice) cipher.block_len)) _
            (raise-Returns (check_iv config.fixed_iv (label choice) cipher.block_len)) (λ iv. tt))

  scan_stream-Returns :
      (choice : CipherChoice) (cipher : BlockCipher) (tried : ℕ)
      → Returns (scan_stream crates dump ciphertext oracles config choice cipher tried)
  unfolding scan_stream
  scan_stream-Returns choice cipher tried =
      bind-Returns (raise (fail_if (is_empty ciphertext) ciphertext_empty)) _
        (raise-Returns (fail_if (is_empty ciphertext) ciphertext_empty)) (λ u. tt)

  adapted :
      (choice : CipherChoice) (cipher : BlockCipher) (tried : ℕ)
      → adapter crates choice ≡ some cipher
      → Returns (scan_block_cipher crates dump ciphertext oracles config choice tried)
  unfolding scan_block_cipher
  adapted choice cipher tried e = rw e (
      if-Returns (ltb (length dump) cipher.key_len) _ _ tt (
        some_ok-Returns _ (
          if-Returns (eq_mode config.mode block) _ _ (scan_blocks-Returns choice cipher tried)
            (scan_stream-Returns choice cipher tried))))

  scan_choice-Returns :
      (choice : CipherChoice) (tried : ℕ)
      → Returns (scan_choice crates dump ciphertext oracles config choice tried)
  unfolding scan_choice scan_stream_cipher
  scan_choice-Returns aes128 tried = adapted aes128 _ tried refl
  scan_choice-Returns aes192 tried = adapted aes192 _ tried refl
  scan_choice-Returns aes256 tried = adapted aes256 _ tried refl
  scan_choice-Returns des tried = adapted des _ tried refl
  scan_choice-Returns tdes_ede3 tried = adapted tdes_ede3 _ tried refl
  scan_choice-Returns sm4 tried = adapted sm4 _ tried refl
  scan_choice-Returns chacha20 tried = some_ok-Returns _ (
      bind-Returns (raise (fail_if (is_empty ciphertext) ciphertext_empty)) _
        (raise-Returns (fail_if (is_empty ciphertext) ciphertext_empty)) (λ u. tt))
  scan_choice-Returns xchacha20 tried = some_ok-Returns _ (
      bind-Returns (raise (fail_if (is_empty ciphertext) ciphertext_empty)) _
        (raise-Returns (fail_if (is_empty ciphertext) ciphertext_empty)) (λ u. tt))

  scan_loop-Returns :
      (choices : List CipherChoice) (state : ℕ × List Hit)
      → Returns (scan_loop crates dump ciphertext oracles config choices state)
  unfolding scan_loop
  scan_loop-Returns [] state = tt
  scan_loop-Returns (choice ∷ choices) (tried, hits) =
      bind-Returns (scan_choice crates dump ciphertext oracles config choice tried) _
        (scan_choice-Returns choice tried) (after (λ state. scan_loop-Returns choices state))
    where
      after :
          ((state : ℕ × List Hit)
            → Returns (scan_loop crates dump ciphertext oracles config choices state))
          → (found : Option (ℕ × List Hit))
          → Returns (elim found [
            | none ↦ scan_loop crates dump ciphertext oracles config choices (tried, hits)
            | some (tried', new) ↦
                if ltb 0 config.max_hits && leb config.max_hits (length (hits ++ new))
                then ok (tried', take config.max_hits (hits ++ new))
                else scan_loop crates dump ciphertext oracles config choices (tried', hits ++ new)
          ])
      after rest none = rest (tried, hits)
      after rest (some (tried', new)) =
          if-Returns (ltb 0 config.max_hits && leb config.max_hits (length (hits ++ new))) _ _ tt
            (rest (tried', hits ++ new))

  -- For every input `scan` returns a result or an error: it asks no cipher for an adapter of the
  -- other kind, where the code has `unreachable!`.
  pub scan_never_unreachable : scan crates dump ciphertext oracles config ≢ err panic
  unfolding scan
  scan_never_unreachable e = subst Returns e (
      bind-Returns (raise (validate_config config)) _ (raise-Returns (validate_config config)) (λ u.
        bind-Returns (raise (fail_if no_test no_oracle)) _
          (raise-Returns (fail_if no_test no_oracle))
          (λ v.
            bind-Returns (scan_loop crates dump ciphertext oracles config config.ciphers (0, [])) _
              (scan_loop-Returns config.ciphers (0, [])) (λ r. tt))))
    where
      no_test : Bool
      no_test = (not (eq_mode config.mode gcm) || not (is_some config.tag)) && is_empty oracles
