-- ===== src/Engine/StreamHunt/Tagged.antt =====
-- `hunt_stream` and `hunt_stream_cipher` on a ciphertext with a tag: the AEADs decide.
use memhunt.Base.{ℕ, ◌+◌, ◌≤◌, ◌<◌, ◌⊎◌, ◌↔◌, inl, inr, ◌≡◌, sym, ap, subst, arith}
use memhunt.Base.{Bytes, Text, codes, true, false, List, Memᴰ, Option, some, length, take, drop}
use memhunt.Base.{some_inj, none_ne_some, Option-cases, Bool-cases, eq_list, eq_list→eq}
use memhunt.Base.{sweep_complete, sweep_sound}
use memhunt.Report
use memhunt.Report.{high, Mode, Hit, stream}
use memhunt.Cipher.{Crates, BlockCipher, StreamCipher}
use memhunt.Oracle.{Oracle}
use memhunt.Engine.Choice.{gcm, eq_mode}
use memhunt.Engine.Config.{ScanConfig}
use memhunt.Engine.Finish.{finalize_stream_hit}
use memhunt.Engine.StreamHunt.{or_empty, decrypt_gcm_tagged, decrypt_poly1305_tagged}
use memhunt.Engine.StreamHunt.{report_mode, gcm_test, stream_test, hunt_stream}
use memhunt.Engine.StreamHunt.{poly1305_test, stream_cipher_test, hunt_stream_cipher}
use memhunt.Engine.StreamHunt.Keys.{hunt_stream-sweep}

module _ (crates : Crates) (nonce aad ciphertext tag : Bytes) where
  -- AES-GCM with the key size of the key opens the ciphertext.
  abbrev pub GcmOpens : Bytes → Bytes → Type 0
  GcmOpens key plaintext =
      ((length key ≡ 16) × (crates.aes128_gcm key nonce aad ciphertext tag ≡ some plaintext))
      ⊎ ((length key ≡ 24) × (crates.aes192_gcm key nonce aad ciphertext tag ≡ some plaintext))
      ⊎ ((length key ≡ 32) × (crates.aes256_gcm key nonce aad ciphertext tag ≡ some plaintext))

  -- The AEAD of the cipher with this name opens the ciphertext.
  abbrev pub PolyOpens : Text → Bytes → Bytes → Type 0
  PolyOpens algo key plaintext =
      ((algo ≡ codes "chacha20")
        × (crates.chacha20_poly1305 key nonce aad ciphertext tag ≡ some plaintext))
      ⊎ ((algo ≡ codes "xchacha20")
          × (crates.xchacha20_poly1305 key nonce aad ciphertext tag ≡ some plaintext))

  decrypt_gcm_tagged_iff :
      (key plaintext : Bytes)
      → (decrypt_gcm_tagged crates key nonce ciphertext tag aad ≡ some plaintext)
        ↔ GcmOpens key plaintext
  unfolding decrypt_gcm_tagged
  decrypt_gcm_tagged_iff key plaintext = (ground arith, from)
    where
      from :
          GcmOpens key plaintext
          → decrypt_gcm_tagged crates key nonce ciphertext tag aad ≡ some plaintext
      from (inl (size, e)) = rw size e
      from (inr (inl (size, e))) = rw size e
      from (inr (inr (size, e))) = rw size e

  decrypt_poly1305_tagged_iff :
      (algo : Text) (key plaintext : Bytes)
      → (decrypt_poly1305_tagged crates algo key nonce ciphertext tag aad ≡ some plaintext)
        ↔ PolyOpens algo key plaintext
  unfolding decrypt_poly1305_tagged
  decrypt_poly1305_tagged_iff algo key plaintext = (to, from)
    where
      to :
          decrypt_poly1305_tagged crates algo key nonce ciphertext tag aad ≡ some plaintext
          → PolyOpens algo key plaintext
      to e = elim (Bool-cases (eq_list algo (codes "chacha20"))) [
        | inl short ↦ inl (eq_list→eq _ _ short, rw short at e)
        | inr other ↦ elim (Bool-cases (eq_list algo (codes "xchacha20"))) [
          | inl long ↦ inr (eq_list→eq _ _ long, rw (other, long) at e)
          | inr neither ↦ absurd (none_ne_some (rw (other, neither) at e))
        ]
      ]

      from :
          PolyOpens algo key plaintext
          → decrypt_poly1305_tagged crates algo key nonce ciphertext tag aad ≡ some plaintext
      from (inl (name, e)) = rw name e
      from (inr (name, e)) = rw name e

module _ (crates : Crates) (dump : Bytes) (config : ScanConfig) (algo : Text) where
  -- The hit reports the key with what it opens the ciphertext to, in this mode and with high
  -- confidence.
  abbrev pub Reports : (Bytes → Bytes → Type 0) → Mode → Text → ℕ → Bytes → Hit → Type 0
  Reports Opens mode matched_by offset key hit =
      (plaintext : Bytes) × Opens key plaintext
      × (hit
          ≡ finalize_stream_hit crates.hex_encode algo mode key offset (or_empty config.nonce)
              plaintext matched_by high)

  -- The hit reports a window of the dump that is as long as a key.
  pub record IsTagHit (key_len : ℕ) (Opens : Bytes → Bytes → Type 0) (mode : Mode)
      (matched_by : Text) (hit : Hit) : Type 0 where
    pub offset : ℕ
    pub inside : offset + key_len ≤ length dump
    pub reported : Reports Opens mode matched_by offset (take key_len (drop offset dump)) hit

module _ (crates : Crates) (dump ciphertext : Bytes) (oracles : List Oracle) (config : ScanConfig)
    (algo : Text) (tag : Bytes) (tagged : config.tag ≡ some tag) where
  abbrev nonce : Bytes
  nonce = or_empty config.nonce

  abbrev aad : Bytes
  aad = or_empty config.aad

  module _ (cipher : BlockCipher) (offset : ℕ) (key : Bytes) (hit : Hit)
      (in_gcm : config.mode ≡ gcm) where
    is_gcm : eq_mode config.mode gcm ≡ true
    is_gcm = ap (λ m. eq_mode m gcm) in_gcm

    abbrev gcm_step : Option Hit
    gcm_step = stream_test crates dump ciphertext cipher oracles config algo Report.gcm offset key

    abbrev GcmReports : Type 0
    GcmReports =
        Reports crates dump config algo (GcmOpens crates nonce aad ciphertext tag) Report.gcm
          (codes "gcm-tag") offset key hit

    stream_test-Reports : gcm_step ≡ some hit → GcmReports
    unfolding stream_test gcm_test
    stream_test-Reports e =
        elim (Option-cases (decrypt_gcm_tagged crates key nonce ciphertext tag aad)) [
          | inl refused ↦ absurd (none_ne_some (rw (tagged, is_gcm, refused) at e))
          | inr (plaintext, d) ↦ (
            plaintext,
            (decrypt_gcm_tagged_iff crates nonce aad ciphertext tag key plaintext).0 d,
            sym (some_inj (rw (tagged, is_gcm, d) at e)),
          )
        ]

    Reports-stream_test : GcmReports → gcm_step ≡ some hit
    unfolding stream_test gcm_test
    Reports-stream_test (plaintext, opens, same) =
        rw
          (
            tagged,
            is_gcm,
            (decrypt_gcm_tagged_iff crates nonce aad ciphertext tag key plaintext).1 opens,
          )
          (ap some (sym same))

  module _ (cipher : StreamCipher) (offset : ℕ) (key : Bytes) (hit : Hit) where
    abbrev poly_step : Option Hit
    poly_step = stream_cipher_test crates dump ciphertext cipher oracles config algo offset key

    abbrev PolyReports : Type 0
    PolyReports =
        Reports crates dump config algo (PolyOpens crates nonce aad ciphertext tag algo) stream
          (codes "poly1305-tag") offset key hit

    stream_cipher_test-Reports : poly_step ≡ some hit → PolyReports
    unfolding stream_cipher_test poly1305_test
    stream_cipher_test-Reports e =
        elim (Option-cases (decrypt_poly1305_tagged crates algo key nonce ciphertext tag aad)) [
          | inl refused ↦ absurd (none_ne_some (rw (tagged, refused) at e))
          | inr (plaintext, d) ↦ (
            plaintext,
            (decrypt_poly1305_tagged_iff crates nonce aad ciphertext tag algo key plaintext).0 d,
            sym (some_inj (rw (tagged, d) at e)),
          )
        ]

    Reports-stream_cipher_test : PolyReports → poly_step ≡ some hit
    unfolding stream_cipher_test poly1305_test
    Reports-stream_cipher_test (plaintext, opens, same) =
        rw
          (
            tagged,
            (decrypt_poly1305_tagged_iff crates nonce aad ciphertext tag algo key plaintext).1
                opens,
          )
          (ap some (sym same))

  -- In GCM mode with a tag the hits are exactly the windows of the dump, as long as a key, under which
  -- the AES-GCM of this key size opens the ciphertext with the nonce, the tag and the associated
  -- data. Each is reported with its plaintext and high confidence, and no oracle is asked.
  pub gcm_hit_iff :
      (cipher : BlockCipher) (tried : ℕ) (hit : Hit)
      → config.mode ≡ gcm
      → 0 < cipher.key_len
      → Memᴰ hit (hunt_stream crates dump ciphertext cipher oracles config algo false tried).1
        ↔ IsTagHit crates dump config algo cipher.key_len
            (GcmOpens crates (or_empty config.nonce) (or_empty config.aad) ciphertext tag)
            Report.gcm
            (codes "gcm-tag")
            hit
  gcm_hit_iff cipher tried hit in_gcm positive =
      let test = stream_test crates dump ciphertext cipher oracles config algo Report.gcm in
      let is_sweep =
        hunt_stream-sweep crates dump ciphertext cipher oracles config algo tried Report.gcm
          (ap report_mode in_gcm) in
      (
        λ m.
            let (offset, inside, e) =
              sweep_sound cipher.key_len test dump tried hit
                (subst (λ run. Memᴰ hit run.1) is_sweep m) in
            record {
              offset = offset;
              inside = inside;
              reported = stream_test-Reports cipher offset _ hit in_gcm e;
            },
        λ h.
            subst (λ run. Memᴰ hit run.1) (sym is_sweep)
              (sweep_complete cipher.key_len test dump tried h.offset hit positive h.inside
                (Reports-stream_test cipher h.offset _ hit in_gcm h.reported)),
      )

  -- With a tag the hits of a ChaCha cipher are exactly the windows of the dump, as long as a key,
  -- under which the AEAD of this cipher (ChaCha20-Poly1305 or XChaCha20-Poly1305) opens the
  -- ciphertext with the nonce, the tag and the associated data. Each is reported with its plaintext
  -- and high confidence, and no oracle is asked.
  pub poly1305_hit_iff :
      (cipher : StreamCipher) (tried : ℕ) (hit : Hit)
      → 0 < cipher.key_len
      → Memᴰ hit
          (hunt_stream_cipher crates dump ciphertext cipher oracles config algo false tried).1
        ↔ IsTagHit crates dump config algo cipher.key_len
            (PolyOpens crates (or_empty config.nonce) (or_empty config.aad) ciphertext tag algo)
            stream
            (codes "poly1305-tag")
            hit
  unfolding hunt_stream_cipher
  poly1305_hit_iff cipher tried hit positive =
      let test = stream_cipher_test crates dump ciphertext cipher oracles config algo in
      (
        λ m.
            let (offset, inside, e) = sweep_sound cipher.key_len test dump tried hit m in
            record {
              offset = offset;
              inside = inside;
              reported = stream_cipher_test-Reports cipher offset _ hit e;
            },
        λ h.
            sweep_complete cipher.key_len test dump tried h.offset hit positive h.inside
              (Reports-stream_cipher_test cipher h.offset _ hit h.reported),
      )
