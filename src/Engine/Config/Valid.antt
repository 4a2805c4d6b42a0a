-- ===== src/Engine/Config/Valid.antt =====
-- The configurations that `validate_config` accepts for block ciphers.
use memhunt.Base.{err_ne_ok}
use memhunt.Base.{ℕ, ◌≡◌, refl, ◌⊎◌, inl, inr, Bytes, Bool, true, false, not, ◌&&◌, List}
use memhunt.Base.{Option, none, some, any, length, ◌==◌, Bool-cases, Result-cases}
use memhunt.Base.{ok, fail_if, ==→eq}
use memhunt.Engine.Choice.{CipherMode, block, ctr, gcm, CipherChoice, eq_mode, is_aes}
use memhunt.Engine.Choice.{is_stream_cipher}
use memhunt.Engine.Config.{ScanConfig, ScanError, validate_mode, validate_config}
use memhunt.Engine.Config.{ctr_nonce_length, gcm_tag_length}
use memhunt.Engine.Config.{tag_or_no_aad}

abbrev Fits : Option Bytes → ℕ → Type 0
Fits none n = ⊥
Fits (some bytes) n = length bytes ≡ n

-- What the options must be in each mode.
abbrev pub OptionsFit :
    CipherMode → Option Bytes → Option Bytes → Option Bytes → Option Bytes → Type 0
OptionsFit block iv nonce tag aad = (nonce ≡ none) × (tag ≡ none) × (aad ≡ none)
OptionsFit ctr iv nonce tag aad = (iv ≡ none) × (tag ≡ none) × (aad ≡ none) × Fits nonce 16
OptionsFit gcm iv nonce tag aad =
    (iv ≡ none) × Fits nonce 12 × ((tag ≡ none) × (aad ≡ none) ⊎ Fits tag 16)

passes_test : (t : Bool) (e : ScanError) → fail_if (not t) e ≡ ok tt → t ≡ true
passes_test true e h = refl
passes_test false e h = cc

same_length :
    (bytes : Bytes) (n : ℕ) (e : ScanError)
    → fail_if (not (length bytes == n)) e ≡ ok tt
    → length bytes ≡ n
same_length bytes n e h = ==→eq (length bytes) n (passes_test (length bytes == n) e h)

module _ (ciphers : List CipherChoice) (max_hits : ℕ) (scan_iv : Bool) where
  abbrev config :
      CipherMode → Option Bytes → Option Bytes → Option Bytes → Option Bytes → ScanConfig
  config mode iv nonce tag aad = record {
    ciphers = ciphers;
    mode = mode;
    max_hits = max_hits;
    scan_iv = scan_iv;
    fixed_iv = iv;
    nonce = nonce;
    tag = tag;
    aad = aad;
  }

  mode_options :
      (mode : CipherMode) (iv nonce tag aad : Option Bytes)
      → validate_mode mode (config mode iv nonce tag aad) ≡ ok tt
      → OptionsFit mode iv nonce tag aad
  unfolding validate_mode
  mode_options block iv none none none e = (refl, refl, refl)
  mode_options block iv none none (some a) e = cc
  mode_options block iv none (some t) aad e = cc
  mode_options block iv (some n) tag aad e = cc
  mode_options ctr (some v) start tag aad e = cc
  mode_options ctr none start (some t) aad e = cc
  mode_options ctr none start none (some a) e = cc
  mode_options ctr none none none none e = cc
  mode_options ctr none (some n) none none e =
      (refl, refl, refl, same_length n 16 ctr_nonce_length e)
  mode_options gcm (some v) start tag aad e = cc
  mode_options gcm none none tag aad e = cc
  mode_options gcm none (some n) tag aad e = elim (Bool-cases (length n == 12)) [
    | inr wrong ↦ absurd (err_ne_ok (rw wrong at e))
    | inl right ↦ (refl, ==→eq (length n) 12 right, rest tag aad (rw right at e))
  ]
    where
      rest :
          (t a : Option Bytes) → tag_or_no_aad t a ≡ ok tt → ((t ≡ none) × (a ≡ none) ⊎ Fits t 16)
      rest none none h = inl (refl, refl)
      rest none (some a) h = cc
      rest (some t) a h = inr (same_length t 16 gcm_tag_length h)

-- A configuration with no stream cipher that `validate_config` accepts: in block mode no nonce, tag
-- or aad is given; in CTR mode a nonce of 16 bytes and no IV, tag or aad; in GCM mode no IV, a nonce
-- of 12 bytes, and either a tag of 16 bytes or neither tag nor aad; and outside block mode all
-- ciphers are AES.
pub validate_config-OptionsFit :
    (c : ScanConfig)
    → any is_stream_cipher c.ciphers ≡ false
    → validate_config c ≡ ok tt
    → OptionsFit c.mode c.fixed_iv c.nonce c.tag c.aad
      × (not (eq_mode c.mode block) && any (λ x. not (is_aes x)) c.ciphers ≡ false)
unfolding validate_config
validate_config-OptionsFit c no_stream e = elim (Result-cases (validate_mode c.mode c)) [
  | inr (why, refused) ↦ absurd (err_ne_ok (rw (no_stream, refused) at e))
  | inl (u, accepted) ↦
      elim (Bool-cases (not (eq_mode c.mode block) && any (λ x. not (is_aes x)) c.ciphers)) [
        | inl other ↦ absurd (err_ne_ok (rw (no_stream, accepted, other) at e))
        | inr aes ↦ (
          mode_options c.ciphers c.max_hits c.scan_iv c.mode c.fixed_iv c.nonce c.tag c.aad
              accepted,
          aes,
        )
      ]
]
