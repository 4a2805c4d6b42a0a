-- ===== src/Engine/Hunt/Sound.antt =====
-- What a hit of `hunt` says of the dump.
use memhunt.Base.{none_ne_some, some_inj, map, is_empty, subst, refl, ap, [], ◌∷◌, ◌++◌}
use memhunt.Base.{ℕ, ◌+◌, ◌≤◌, ◌≡◌, sym, ◌∙◌, ◌⊎◌, inl, inr, arith}
use memhunt.Base.{Bytes, Text, false, List, Memᴰ, Option, none, some, Option-cases}
use memhunt.Base.{length, take, drop, concat, sweep_sound}
use memhunt.Report.{Confidence, Hit, ecb, cbc}
use memhunt.Cipher.{BlockCipher}
use memhunt.Oracle.{Oracle, best_match}
use memhunt.Engine.Config.{ScanConfig}
use memhunt.Engine.Hunt.Keys.{test_ecb}
use memhunt.Engine.Counter.{xor_zip}
use memhunt.Engine.Finish.{finalize_hit}
use memhunt.Engine.Hunt.Decrypts.{Decrypts, decrypt_all-Decrypts}
use memhunt.Engine.Hunt.{decrypt_all, decrypt_or_keep, xor_previous, first_block, cbc_head_by}
use memhunt.Engine.Hunt.{cbc_head, cbc_tail, Resolved, resolve_iv, ecb_hit, cbc_hit, cbc_test}
use memhunt.Engine.Hunt.{hunt_test, hunt}

module _ (hex_encode : Bytes → Text) (dump : Bytes) (blocks : List Bytes) (block : ℕ)
    (cipher : BlockCipher) (oracles : List Oracle) (config : ScanConfig) (algo : Text)
    (fixed_iv : Option Bytes) where
  -- The window is a key for ECB mode: it decrypts the first two blocks, and an oracle accepts them.
  -- The report has the window as the key, no IV, and the decryption of all blocks.
  pub record IsEcbHit (offset : ℕ) (key : Bytes) (hit : Hit) : Type 0 where
    pub head : List Bytes
    pub found : Text × Confidence
    pub decrypted : Decrypts cipher key (take 2 blocks) head
    pub accepted : best_match oracles (concat head) ≡ some found
    pub reported :
        hit
        ≡ finalize_hit hex_encode algo ecb key offset none none []
            (concat (map (decrypt_or_keep cipher key) blocks))
            found.0
            found.1

  -- What is verified in CBC mode: the plaintexts of the second and the third block, or of the only
  -- block under the known IV.
  pub data IsVerified (key : Bytes) (verified : Bytes) : Type 0 where
    behind_first :
        (ds : List Bytes)
        → is_empty (drop 1 blocks) ≡ false
        → Decrypts cipher key (take 2 (drop 1 blocks)) ds
        → verified ≡ concat (xor_previous ds blocks)
        → IsVerified key verified
    only_block :
        (iv b0 : Bytes)
        → drop 1 blocks ≡ []
        → fixed_iv ≡ some iv
        → cipher.decrypt_with_key key (first_block blocks) ≡ some b0
        → verified ≡ xor_zip b0 iv
        → IsVerified key verified

  -- The window is a key for CBC mode: the oracles refuse the first two blocks as they decrypt, and
  -- one accepts what is verified in CBC mode. The report has the window as the key, the IV as far as
  -- it is known, block 0 under it, and the plaintexts of the blocks behind.
  pub record IsCbcHit (offset : ℕ) (key : Bytes) (hit : Hit) : Type 0 where
    pub head : List Bytes
    pub verified : Bytes
    pub found : Text × Confidence
    pub decrypted : Decrypts cipher key (take 2 blocks) head
    pub rejected : best_match oracles (concat head) ≡ none
    pub unchained : IsVerified key verified
    pub accepted : best_match oracles verified ≡ some found
    pub iv : Resolved
    pub resolved :
        iv
        ≡ resolve_iv hex_encode dump blocks block cipher oracles config.scan_iv key
            (xor_previous (map (decrypt_or_keep cipher key) (drop 1 blocks)) blocks)
            fixed_iv
    pub reported :
        hit
        ≡ finalize_hit hex_encode algo cbc key offset iv.iv_hex iv.iv_offset iv.iv_candidates
            (iv.head_block
              ++ concat (xor_previous (map (decrypt_or_keep cipher key) (drop 1 blocks)) blocks))
            found.0
            found.1

  cbc_head-IsVerified :
      (key verified : Bytes)
      → cbc_head cipher key blocks fixed_iv ≡ some (some verified)
      → IsVerified key verified
  unfolding cbc_head cbc_head_by
  cbc_head-IsVerified key verified = by_rest (drop 1 blocks) refl
    where
      by_iv :
          (iv : Option Bytes)
          → iv ≡ fixed_iv
          → drop 1 blocks ≡ []
          → cbc_head_by cipher key blocks [] iv ≡ some (some verified)
          → IsVerified key verified
      by_iv none known alone e = absurd (none_ne_some (some_inj e))
      by_iv (some iv) known alone e =
          elim (Option-cases (cipher.decrypt_with_key key (first_block blocks))) [
            | inl refused ↦ absurd (none_ne_some (rw refused at e))
            | inr (b0, d) ↦
                only_block iv b0 alone (sym known) d (sym (some_inj (some_inj (rw d at e))))
          ]

      by_rest :
          (rest : List Bytes)
          → rest ≡ drop 1 blocks
          → cbc_head_by cipher key blocks (take 2 (drop 1 blocks)) fixed_iv ≡ some (some verified)
          → IsVerified key verified
      by_rest [] same e = by_iv fixed_iv refl (sym same) (
          subst (λ r. cbc_head_by cipher key blocks (take 2 r) fixed_iv ≡ some (some verified))
            (sym same) e)
      by_rest (b ∷ bs) same e =
          let e2 : cbc_head_by cipher key blocks (take 2 (b ∷ bs)) fixed_iv ≡ some (some verified) =
            subst (λ r. cbc_head_by cipher key blocks (take 2 r) fixed_iv ≡ some (some verified))
              (sym same) e in
          elim (Option-cases (decrypt_all cipher key (take 2 (b ∷ bs)))) [
            | inl refused ↦ absurd (none_ne_some (rw refused at e2))
            | inr (ds, d) ↦
                behind_first ds (ap is_empty (sym same))
                  (subst (λ r. Decrypts cipher key (take 2 r) ds) same
                    (decrypt_all-Decrypts cipher key (take 2 (b ∷ bs)) ds d))
                  (sym (some_inj (some_inj (rw d at e2))))
          ]

  cbc_test_sound :
      (offset : ℕ) (key : Bytes) (hit : Hit) (head : List Bytes)
      → decrypt_all cipher key (take 2 blocks) ≡ some head
      → best_match oracles (concat head) ≡ none
      → cbc_test hex_encode dump blocks block cipher oracles config algo fixed_iv offset key
        ≡ some hit
      → IsCbcHit offset key hit
  unfolding cbc_test cbc_hit cbc_tail
  cbc_test_sound offset key hit head d rejected e =
      elim (Option-cases (cbc_head cipher key blocks fixed_iv)) [
        | inl refused ↦ absurd (none_ne_some (rw refused at e))
        | inr (none, c) ↦ absurd (none_ne_some (rw c at e))
        | inr (some verified, c) ↦ elim (Option-cases (best_match oracles verified)) [
          | inl nothing ↦ absurd (none_ne_some (rw (c, nothing) at e))
          | inr (found, accepted) ↦ record {
            head = head;
            verified = verified;
            found = found;
            decrypted = decrypt_all-Decrypts cipher key (take 2 blocks) head d;
            rejected = rejected;
            unchained = cbc_head-IsVerified key verified c;
            accepted = accepted;
            iv =
                resolve_iv hex_encode dump blocks block cipher oracles config.scan_iv key
                  (xor_previous (map (decrypt_or_keep cipher key) (drop 1 blocks)) blocks) fixed_iv;
            resolved = refl;
            reported = sym (some_inj (rw (c, accepted) at e));
          }
        ]
      ]

  -- Behind the ECB test the window is tested for CBC mode.
  hunt_test-cbc_test :
      (offset : ℕ) (key : Bytes) (head : List Bytes)
      → decrypt_all cipher key (take 2 blocks) ≡ some head
      → best_match oracles (concat head) ≡ none
      → hunt_test hex_encode dump blocks block cipher oracles config algo fixed_iv offset key
        ≡ cbc_test hex_encode dump blocks block cipher oracles config algo fixed_iv offset key
  unfolding hunt_test
  hunt_test-cbc_test offset key head d rejected = ground arith

  test_sound :
      (offset : ℕ) (key : Bytes) (hit : Hit)
      → hunt_test hex_encode dump blocks block cipher oracles config algo fixed_iv offset key
        ≡ some hit
      → IsEcbHit offset key hit ⊎ IsCbcHit offset key hit
  unfolding hunt_test ecb_hit
  test_sound offset key hit e = elim (Option-cases (decrypt_all cipher key (take 2 blocks))) [
    | inl refused ↦ absurd (none_ne_some (rw refused at e))
    | inr (head, d) ↦ elim (Option-cases (best_match oracles (concat head))) [
      | inr (found, accepted) ↦ inl (record {
        head = head;
        found = found;
        decrypted = decrypt_all-Decrypts cipher key (take 2 blocks) head d;
        accepted = accepted;
        reported = some_inj (
            sym e
            ∙ test_ecb hex_encode dump blocks block cipher oracles config algo fixed_iv offset key
                head found d accepted);
      })
      | inl rejected ↦ inr (
          cbc_test_sound offset key hit head d rejected
            (sym (hunt_test-cbc_test offset key head d rejected) ∙ e))
    ]
  ]

  -- Every hit comes from a window of the dump, as long as a key, that is a key for ECB mode, or, where
  -- the oracles refuse the ECB plaintext, a key for CBC mode. The hit carries the mode, the window's
  -- offset and bytes, and the decryption of the whole ciphertext in this mode.
  pub hunt_sound :
      (tried : ℕ) (hit : Hit)
      → Memᴰ hit
          (hunt hex_encode dump blocks block cipher oracles config algo fixed_iv false tried).1
      → (offset : ℕ) × (offset + cipher.key_len ≤ length dump)
        × (IsEcbHit offset (take cipher.key_len (drop offset dump)) hit
            ⊎ IsCbcHit offset (take cipher.key_len (drop offset dump)) hit)
  unfolding hunt
  hunt_sound tried hit m =
      let (offset, inside, e) =
        sweep_sound cipher.key_len
          (hunt_test hex_encode dump blocks block cipher oracles config algo fixed_iv) dump tried
          hit m in
      (offset, inside, test_sound offset (take cipher.key_len (drop offset dump)) hit e)
