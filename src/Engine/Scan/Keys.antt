-- ===== src/Engine/Scan/Keys.antt =====
-- `scan` in ECB and CBC mode: it returns, and it reports the planted keys.
use memhunt.Base.{ℕ, ◌≤◌, ◌≡◌, refl, sym, ap, ◌∙◌, inl, inr, arith}
use memhunt.Base.{Bytes, Text, true, false, ◌++◌, List, [], ◌∷◌, Memᴰ, All}
use memhunt.Base.{Option, none, some, length, take, is_empty, ltb, if◌then◌else◌}
use memhunt.Base.{Result, ok, Failure}
use memhunt.Base.{Bool-cases, concat}
use memhunt.Report.{Hit, ScanResult, Confidence, ecb}
use memhunt.Cipher.{Crates, BlockCipher}
use memhunt.Oracle.{Oracle, best_match}
use memhunt.Engine.Choice.{block, gcm, CipherChoice, eq_mode, label, is_stream_cipher}
use memhunt.Engine.Choice.{aes128, aes192, aes256, des, tdes_ede3, sm4, chacha20, xchacha20}
use memhunt.Engine.Config.{ScanConfig, ScanError, validate_config}
use memhunt.Engine.Padding.{split_blocks}
use memhunt.Engine.Hunt.{hunt, hunt_test}
use memhunt.Engine.Hunt.Decrypts.{Decrypts}
use memhunt.Engine.Hunt.Keys.{IsKeyAt, hunt_complete, ecb_key_found}
use memhunt.Engine.Finish.{finalize_hit}
use memhunt.Engine.Scan.{adapter, scan_choice, scan_block_cipher, check_iv, scan_loop}
use memhunt.Engine.Scan.{scan}
use memhunt.Engine.Scan.Hits.{scan_loop_collects}

-- A configuration that searches for keys of block ciphers in ECB and CBC mode without a limit.
pub record IsBlockSearch (config : ScanConfig) (oracles : List Oracle) : Type 0 where
  pub in_block : config.mode ≡ block
  pub valid : validate_config config ≡ ok tt
  pub some_oracle : is_empty oracles ≡ false
  pub unlimited : config.max_hits ≡ 0

-- The block cipher of the choice; it cuts the ciphertext into the blocks, and takes the fixed IV,
-- if one is given.
pub record IsCut (crates : Crates) (ciphertext : Bytes) (config : ScanConfig)
    (choice : CipherChoice) : Type 0 where
  pub cipher : BlockCipher
  pub adapts : adapter crates choice ≡ some cipher
  pub blocks : List Bytes
  pub cut : split_blocks ciphertext cipher.block_len ≡ ok blocks
  pub iv_fits : check_iv config.fixed_iv (label choice) cipher.block_len ≡ ok config.fixed_iv

not_stream :
    (crates : Crates) (choice : CipherChoice) (cipher : BlockCipher)
    → adapter crates choice ≡ some cipher
    → is_stream_cipher choice ≡ false
not_stream crates aes128 cipher e = refl
not_stream crates aes192 cipher e = refl
not_stream crates aes256 cipher e = refl
not_stream crates des cipher e = refl
not_stream crates tdes_ede3 cipher e = refl
not_stream crates sm4 cipher e = refl
not_stream crates chacha20 cipher e = cc
not_stream crates xchacha20 cipher e = cc

module _ (crates : Crates) (dump ciphertext : Bytes) (oracles : List Oracle)
    (config : ScanConfig) where
  abbrev hunted : (choice : CipherChoice) → IsCut crates ciphertext config choice → ℕ → ℕ × List Hit
  hunted choice c tried =
      hunt crates.hex_encode dump c.blocks c.cipher.block_len c.cipher oracles config (label choice)
        config.fixed_iv false tried

  scan_choice-hunt :
      (choice : CipherChoice) (c : IsCut crates ciphertext config choice) (tried : ℕ)
      → IsBlockSearch config oracles
      → scan_choice crates dump ciphertext oracles config choice tried ≡ (
          if ltb (length dump) c.cipher.key_len then ok none else ok (some (hunted choice c tried)))
  unfolding scan_choice scan_block_cipher
  scan_choice-hunt choice c tried s =
      let is_block : eq_mode config.mode block ≡ true = ap (λ m. eq_mode m block) s.in_block in
      rw (not_stream crates choice c.cipher c.adapts, c.adapts, is_block, c.cut, c.iv_fits)
        (elim (Bool-cases (ltb (length dump) c.cipher.key_len)) [
          | inl short ↦ rw short refl
          | inr long ↦ rw long refl
        ])

  -- The loop returns a result.
  loop_returns :
      (choices : List CipherChoice) (state : ℕ × List Hit)
      → IsBlockSearch config oracles
      → All (IsCut crates ciphertext config) choices
      → (result : ℕ × List Hit) × (scan_loop crates dump ciphertext oracles config choices state
          ≡ ok result)
  unfolding scan_loop
  loop_returns [] state s h = (state, refl)
  loop_returns (choice ∷ choices) (tried, hits) s (c, cs) =
      let here = scan_choice-hunt choice c tried s in
      let off : ltb 0 config.max_hits ≡ false = ground (arith, s.unlimited) in
      elim (Bool-cases (ltb (length dump) c.cipher.key_len)) [
        | inl short ↦
            let (result, rest) = loop_returns choices (tried, hits) s cs in
            (result, rw (here, short) rest)
        | inr long ↦
            let found = hunted choice c tried in
            let (result, rest) = loop_returns choices (found.0, hits ++ found.1) s cs in
            (result, rw (here, long, off) rest)
      ]

  pub scan_returns :
      IsBlockSearch config oracles
      → All (IsCut crates ciphertext config) config.ciphers
      → (r : ScanResult) × (scan crates dump ciphertext oracles config ≡ ok r)
        × (tried : ℕ) × (scan_loop crates dump ciphertext oracles config config.ciphers (0, [])
            ≡ ok (tried, r.hits))
  unfolding scan
  scan_returns s h =
      let (result, e) = loop_returns config.ciphers (0, []) s h in
      let not_gcm : eq_mode config.mode gcm ≡ false = ap (λ m. eq_mode m gcm) s.in_block in
      (
        record {
          hits = result.1;
          stats = record { dump_size = length dump; candidates_tried = result.0 };
        },
        rw (s.valid, not_gcm, s.some_oracle, e) refl,
        result.0,
        e,
      )

  -- A hit of the hunt for one cipher of the list is in the result.
  pub collected :
      (r : ScanResult) (tried : ℕ) (choice : CipherChoice)
      (c : IsCut crates ciphertext config choice) (hit : Hit)
      → IsBlockSearch config oracles
      → scan_loop crates dump ciphertext oracles config config.ciphers (0, []) ≡ ok (tried, r.hits)
      → Memᴰ choice config.ciphers
      → c.cipher.key_len ≤ length dump
      → ((before : ℕ) → Memᴰ hit (hunted choice c before).1)
      → Memᴰ hit r.hits
  collected r tried choice c hit s e listed fits found =
      let (before, answer, run, collect) =
        scan_loop_collects crates dump ciphertext oracles config config.ciphers (0, [])
          (tried, r.hits) choice s.unlimited e listed in
      let long : ltb (length dump) c.cipher.key_len ≡ false = ground (arith, fits) in
      let hunt_run : scan_choice crates dump ciphertext oracles config choice before
          ≡ ok (some (hunted choice c before)) =
        scan_choice-hunt choice c before s ∙ rw long refl in
      collect (hunted choice c before) hit (same (sym run ∙ hunt_run)) (found before)
    where
      same :
          {answer wanted : Option (ℕ × List Hit)}
          → ◌≡◌ {A = Result (Failure ScanError) (Option (ℕ × List Hit))} (ok answer) (ok wanted)
          → answer ≡ wanted
      same h = cc

  -- A search in ECB and CBC mode without a limit, whose ciphers all cut the ciphertext into whole
  -- blocks and take the fixed IV, returns a result. It holds the hit of every window, as long as the
  -- key of a listed cipher, that passes the test of the hunt for that cipher.
  pub scan_finds_keys :
      IsBlockSearch config oracles
      → All (IsCut crates ciphertext config) config.ciphers
      → (r : ScanResult) × (scan crates dump ciphertext oracles config ≡ ok r)
        × ((choice : CipherChoice) (c : IsCut crates ciphertext config choice) (offset : ℕ)
              (key : Bytes) (hit : Hit)
            → Memᴰ choice config.ciphers
            → IsKeyAt dump c.cipher offset key
            → hunt_test crates.hex_encode dump c.blocks c.cipher.block_len c.cipher oracles config
                (label choice)
                config.fixed_iv
                offset
                key
              ≡ some hit
            → Memᴰ hit r.hits)
  scan_finds_keys s h =
      let (r, run, tried, e) = scan_returns s h in
      (
        r,
        run,
        λ choice c offset key hit listed at passes.
            collected r tried choice c hit s e listed (omega (arith, at.inside)) (λ before.
              hunt_complete crates.hex_encode dump c.blocks c.cipher.block_len c.cipher oracles
                config (label choice) config.fixed_iv before offset key hit at passes),
      )

  -- A search in ECB and CBC mode without a limit, whose ciphers all cut the ciphertext into whole
  -- blocks and take the fixed IV, returns a result. It reports every key of a listed cipher that
  -- stands in the dump and under which the blocks decrypt in ECB mode to a plaintext whose first
  -- two blocks an oracle accepts, with the name of the cipher, the offset and the decryption of
  -- the whole ciphertext.
  pub scan_finds_ecb_keys :
      IsBlockSearch config oracles
      → All (IsCut crates ciphertext config) config.ciphers
      → (r : ScanResult) × (scan crates dump ciphertext oracles config ≡ ok r)
        × ((choice : CipherChoice) (c : IsCut crates ciphertext config choice) (offset : ℕ)
              (key : Bytes) (ps : List Bytes) (found : Text × Confidence)
            → Memᴰ choice config.ciphers
            → IsKeyAt dump c.cipher offset key
            → Decrypts c.cipher key c.blocks ps
            → best_match oracles (concat (take 2 ps)) ≡ some found
            → Memᴰ
                (finalize_hit crates.hex_encode
                  (label choice)
                  ecb
                  key
                  offset
                  none
                  none
                  []
                  (concat ps)
                  found.0
                  found.1)
                r.hits)
  scan_finds_ecb_keys s h =
      let (r, run, tried, e) = scan_returns s h in
      (
        r,
        run,
        λ choice c offset key ps found listed at d accepted.
            collected r tried choice c _ s e listed (omega (arith, at.inside)) (λ before.
              ecb_key_found crates.hex_encode dump c.blocks c.cipher.block_len c.cipher oracles
                config (label choice) config.fixed_iv before offset key ps found at d accepted),
      )
