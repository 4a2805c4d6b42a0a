-- ===== src/Engine/Hunt/Keys.antt =====
-- `hunt` finds the key of an ECB and of a CBC ciphertext.
use memhunt.Base.{ℕ, ◌+◌, ◌≤◌, ◌<◌, ◌≡◌, refl, sym, ap, ◌∙◌, subst, arith}
use memhunt.Base.{Bytes, Text, false, List, [], ◌∷◌, Memᴰ, Option, none, some, All}
use memhunt.Base.{length, take, drop, concat, sweep_complete}
use memhunt.Report.{Confidence, Hit, ecb, cbc}
use memhunt.Cipher.{BlockCipher}
use memhunt.Oracle.{Oracle, best_match}
use memhunt.Engine.Config.{ScanConfig}
use memhunt.Engine.Counter.{xor_zip}
use memhunt.Engine.Finish.{finalize_hit}
use memhunt.Engine.Blocks.{xor_zip_cancel}
use memhunt.Engine.Hunt.{
  decrypt_all, decrypt_or_keep, xor_previous, cbc_head, cbc_head_by, cbc_tail,
}
use memhunt.Engine.Hunt.{ecb_hit, cbc_hit, hunt_test, hunt}
use memhunt.Engine.Hunt.Decrypts.{Decrypts, Decrypts-decrypt_all, Decrypts-take, Decrypts-map}
use memhunt.Engine.Hunt.Decrypts.{cbc_encrypt, masked_blocks, IsInverse, cbc_encrypt-Decrypts}
use memhunt.Engine.Hunt.Decrypts.{xor_previous-masked_blocks, take-xor_previous}

-- The key stands at `offset` in the dump.
pub record IsKeyAt (dump : Bytes) (cipher : BlockCipher) (offset : ℕ) (key : Bytes) : Type 0 where
  pub some_bytes : 0 < cipher.key_len
  pub inside : offset + cipher.key_len ≤ length dump
  pub reads : take cipher.key_len (drop offset dump) ≡ key

module _ (hex_encode : Bytes → Text) (dump : Bytes) (blocks : List Bytes) (block : ℕ)
    (cipher : BlockCipher) (oracles : List Oracle) (config : ScanConfig) (algo : Text) where
  module _ (fixed_iv : Option Bytes) where
    abbrev test : ℕ → Bytes → Option Hit
    test = hunt_test hex_encode dump blocks block cipher oracles config algo fixed_iv

    abbrev hits : ℕ → List Hit
    hits tried =
        (hunt hex_encode dump blocks block cipher oracles config algo fixed_iv false tried).1

    -- A window that passes the test is among the hits.
    pub hunt_complete :
        (tried offset : ℕ) (key : Bytes) (hit : Hit)
        → IsKeyAt dump cipher offset key
        → test offset key ≡ some hit
        → Memᴰ hit (hits tried)
    unfolding hunt
    hunt_complete tried offset key hit at e =
        sweep_complete cipher.key_len test dump tried offset hit at.some_bytes at.inside
          (subst (λ k. test offset k ≡ some hit) (sym at.reads) e)

    pub test_ecb :
        (offset : ℕ) (key : Bytes) (head : List Bytes) (found : Text × Confidence)
        → decrypt_all cipher key (take 2 blocks) ≡ some head
        → best_match oracles (concat head) ≡ some found
        → test offset key
          ≡ some (
              ecb_hit hex_encode dump blocks block cipher oracles config algo fixed_iv offset key
                found)
    unfolding hunt_test
    test_ecb offset key head found d accepted = ground arith

    pub test_cbc :
        (offset : ℕ) (key : Bytes) (head : List Bytes) (verified : Bytes)
        (found : Text × Confidence)
        → decrypt_all cipher key (take 2 blocks) ≡ some head
        → best_match oracles (concat head) ≡ none
        → cbc_head cipher key blocks fixed_iv ≡ some (some verified)
        → best_match oracles verified ≡ some found
        → test offset key
          ≡ some (
              cbc_hit hex_encode dump blocks block cipher oracles config algo fixed_iv offset key
                found)
    unfolding hunt_test
    test_cbc offset key head verified found d rejected c accepted = ground arith

    -- A key in the dump under which the blocks decrypt, with an oracle that accepts the first two
    -- decrypted blocks, is reported in ECB mode, with its offset, its bytes, and the decryption of
    -- all blocks as the plaintext.
    pub ecb_key_found :
        (tried offset : ℕ) (key : Bytes) (ps : List Bytes) (found : Text × Confidence)
        → IsKeyAt dump cipher offset key
        → Decrypts cipher key blocks ps
        → best_match oracles (concat (take 2 ps)) ≡ some found
        → Memᴰ
            (finalize_hit hex_encode algo ecb key offset none none [] (concat ps) found.0 found.1)
            (hits tried)
    unfolding ecb_hit
    ecb_key_found tried offset key ps found at d accepted = hunt_complete tried offset key _ at (
        test_ecb offset key (take 2 ps) found
          (Decrypts-decrypt_all cipher key (take 2 blocks) (take 2 ps)
            (Decrypts-take cipher key 2 blocks ps d))
          accepted
        ∙ ap
            (λ qs. some (
              finalize_hit hex_encode algo ecb key offset none none [] (concat qs) found.0 found.1))
            (Decrypts-map cipher key blocks ps d))

cbc_head_rest :
    (cipher : BlockCipher) (key c b : Bytes) (bs ds : List Bytes) (fixed_iv : Option Bytes)
    → Decrypts cipher key (b ∷ bs) ds
    → cbc_head cipher key (c ∷ b ∷ bs) fixed_iv
      ≡ some (some (concat (take 2 (xor_previous ds (c ∷ b ∷ bs)))))
unfolding cbc_head cbc_head_by
cbc_head_rest cipher key c b bs ds fixed_iv d =
    rw
      (
        Decrypts-decrypt_all cipher key (b ∷ take 1 bs) (take 2 ds)
            (Decrypts-take cipher key 2 (b ∷ bs) ds d),
        take-xor_previous 2 ds (c ∷ b ∷ bs),
      )
      refl

-- A ciphertext in CBC mode, of two blocks at least, and what its parts decrypt to.
module _ (cipher : BlockCipher) (key : Bytes) (n : ℕ) (enc : Bytes → Bytes)
    (inverse : IsInverse cipher key n enc) (iv p q : Bytes) (qs : List Bytes)
    (iv_size : length iv ≡ n) (sizes : All (λ b. length b ≡ n) (p ∷ q ∷ qs)) where
  abbrev ciphertext : List Bytes
  ciphertext = cbc_encrypt enc iv (p ∷ q ∷ qs)

  pub masks : Decrypts cipher key ciphertext (masked_blocks enc iv (p ∷ q ∷ qs))
  masks = cbc_encrypt-Decrypts cipher key n enc inverse iv (p ∷ q ∷ qs) iv_size sizes

  -- Behind the first block the plaintext needs no IV.
  plain_rest : xor_previous (masked_blocks enc (enc (xor_zip p iv)) (q ∷ qs)) ciphertext ≡ q ∷ qs
  plain_rest =
      unfold xor_previous in
      ap (drop 1)
        (xor_previous-masked_blocks cipher key n enc inverse iv (p ∷ q ∷ qs) iv_size sizes)

  pub cbc_tail-encrypt : cbc_tail cipher key ciphertext ≡ q ∷ qs
  unfolding cbc_tail
  cbc_tail-encrypt =
      ap (λ ds. xor_previous ds ciphertext)
        (Decrypts-map cipher key (cbc_encrypt enc (enc (xor_zip p iv)) (q ∷ qs)) _ masks.1)
      ∙ plain_rest

  pub cbc_head-encrypt :
      (fixed_iv : Option Bytes)
      → cbc_head cipher key ciphertext fixed_iv ≡ some (some (concat (take 2 (q ∷ qs))))
  cbc_head-encrypt fixed_iv =
      cbc_head_rest cipher key (enc (xor_zip p iv)) _ _ _ fixed_iv masks.1
      ∙ ap (λ ps. some (some (concat (take 2 ps)))) plain_rest

  pub first-encrypt : decrypt_or_keep cipher key (enc (xor_zip p iv)) ≡ xor_zip p iv
  unfolding decrypt_or_keep
  first-encrypt = rw masks.0

  -- In a hunt that is given the IV of the encryption, a key in the dump under which a plaintext of
  -- two whole blocks or more was encrypted in CBC mode is reported in that mode, with the whole
  -- plaintext, its padding stripped, if the oracles refuse the first two blocks as they decrypt in
  -- ECB mode and accept the second and third plaintext blocks.
  pub cbc_key_found :
      (hex_encode : Bytes → Text) (dump : Bytes) (oracles : List Oracle) (config : ScanConfig)
      (algo : Text) (tried offset : ℕ) (found : Text × Confidence)
      → IsKeyAt dump cipher offset key
      → best_match oracles (concat (take 2 (masked_blocks enc iv (p ∷ q ∷ qs)))) ≡ none
      → best_match oracles (concat (take 2 (q ∷ qs))) ≡ some found
      → Memᴰ
          (finalize_hit hex_encode algo cbc key offset
            (some (hex_encode iv))
            none
            []
            (concat (p ∷ q ∷ qs))
            found.0
            found.1)
          (hunt hex_encode dump ciphertext n cipher oracles config algo (some iv) false tried).1
  unfolding cbc_hit
  cbc_key_found hex_encode dump oracles config algo tried offset found at rejected accepted =
      hunt_complete hex_encode dump ciphertext n cipher oracles config algo (some iv) tried offset
        key _ at
        (test_cbc hex_encode dump ciphertext n cipher oracles config algo (some iv) offset key
            (take 2 (masked_blocks enc iv (p ∷ q ∷ qs))) (concat (take 2 (q ∷ qs))) found
            (Decrypts-decrypt_all cipher key (take 2 ciphertext) _
              (Decrypts-take cipher key 2 ciphertext (masked_blocks enc iv (p ∷ q ∷ qs)) masks))
            rejected (cbc_head-encrypt (some iv)) accepted
          ∙ rw (cbc_tail-encrypt, first-encrypt, xor_zip_cancel p iv (omega arith)) refl)
