-- ===== src/Engine/Hunt/Scanned.antt =====
-- `hunt` on a CBC ciphertext whose IV is not given: the key, and the windows that serve as the IV.
use memhunt.Base.{ℕ, ◌≤◌, ◌<◌, ◌≡◌, refl, ◌∙◌}
use memhunt.Base.{Bytes, Text, true, false, ◌++◌, List, ◌∷◌, Memᴰ, none, some}
use memhunt.Base.{All, length, take, concat, leb, le→leb}
use memhunt.Report.{Confidence, Hit, cbc}
use memhunt.Cipher.{BlockCipher}
use memhunt.Oracle.{Oracle, best_match}
use memhunt.Engine.Config.{ScanConfig}
use memhunt.Engine.Counter.{xor_zip}
use memhunt.Engine.Finish.{finalize_hit}
use memhunt.Engine.IvScan.{IvHit, find_iv}
use memhunt.Engine.IvScan.Found.{IsIvScan, find_iv-IsIvScan}
use memhunt.Engine.Hunt.{best_candidate, resolve_iv, cbc_hit, hunt}
use memhunt.Engine.Hunt.Decrypts.{
  cbc_encrypt, masked_blocks, IsInverse, Decrypts-decrypt_all, Decrypts-take,
}
use memhunt.Engine.Hunt.Keys.{IsKeyAt, hunt_complete, test_cbc, masks, cbc_tail-encrypt}
use memhunt.Engine.Hunt.Keys.{cbc_head-encrypt, first-encrypt}

-- The hit of a CBC key: the first candidate for the IV is taken as the IV and gives block 0, and the
-- plaintext behind block 0 is whole.
abbrev pub scanned_hit :
    (Bytes → Text) → Text → Bytes → ℕ → List IvHit → ℕ → List Bytes → Text × Confidence → Hit
scanned_hit hex_encode algo key offset candidates block rest found =
    let r = best_candidate hex_encode candidates block in
    finalize_hit hex_encode algo cbc key offset r.iv_hex r.iv_offset r.iv_candidates
      (r.head_block ++ concat rest) found.0 found.1

module _ (cipher : BlockCipher) (key : Bytes) (n : ℕ) (enc : Bytes → Bytes)
    (inverse : IsInverse cipher key n enc) (iv p q : Bytes) (qs : List Bytes)
    (iv_size : length iv ≡ n) (sizes : All (λ b. length b ≡ n) (p ∷ q ∷ qs)) where
  -- In a hunt that is given no IV and scans for one, a key in the dump under which a plaintext of two
  -- whole blocks or more was encrypted in CBC mode is reported in that mode, if the oracles refuse
  -- the first two blocks as they decrypt in ECB mode and accept the second and third plaintext
  -- blocks. The hit holds the plaintext behind block 0, and the candidates for the IV: the best eight
  -- windows of the dump under which an oracle accepts block 0 with the two blocks behind it, the
  -- first of which gives the IV and block 0 of the hit.
  pub cbc_key_scanned :
      (hex_encode : Bytes → Text) (dump : Bytes) (oracles : List Oracle) (config : ScanConfig)
      (algo : Text) (tried offset : ℕ) (found : Text × Confidence)
      → 0 < n
      → n ≤ length dump
      → config.scan_iv ≡ true
      → IsKeyAt dump cipher offset key
      → best_match oracles (concat (take 2 (masked_blocks enc iv (p ∷ q ∷ qs)))) ≡ none
      → best_match oracles (concat (take 2 (q ∷ qs))) ≡ some found
      → (candidates : List IvHit) × IsIvScan dump
          (xor_zip p iv)
          (concat (take 2 (q ∷ qs)))
          n
          oracles
          candidates
        × Memᴰ
            (scanned_hit hex_encode algo key offset candidates n (q ∷ qs) found)
            (hunt hex_encode dump
              (cbc_encrypt enc iv (p ∷ q ∷ qs))
              n
              cipher
              oracles
              config
              algo
              none
              false
              tried).1
  unfolding cbc_hit resolve_iv
  cbc_key_scanned hex_encode dump oracles config algo tried offset found pos fits scans at rejected
        accepted =
      let ciphertext = cbc_encrypt enc iv (p ∷ q ∷ qs) in
      let tail = cbc_tail-encrypt cipher key n enc inverse iv p q qs iv_size sizes in
      let first = first-encrypt cipher key n enc inverse iv p q qs iv_size sizes in
      let window : leb n (length dump) ≡ true = le→leb n (length dump) fits in
      (
        find_iv dump (xor_zip p iv) (concat (take 2 (q ∷ qs))) n oracles,
        find_iv-IsIvScan dump (xor_zip p iv) (concat (take 2 (q ∷ qs))) n oracles pos,
        hunt_complete hex_encode dump ciphertext n cipher oracles config algo none tried offset key
            _ at
            (test_cbc hex_encode dump ciphertext n cipher oracles config algo none offset key
                (take 2 (masked_blocks enc iv (p ∷ q ∷ qs))) (concat (take 2 (q ∷ qs))) found
                (Decrypts-decrypt_all cipher key (take 2 ciphertext) _ (
                  Decrypts-take cipher key 2 ciphertext (masked_blocks enc iv (p ∷ q ∷ qs))
                    (masks cipher key n enc inverse iv p q qs iv_size sizes)))
                rejected (cbc_head-encrypt cipher key n enc inverse iv p q qs iv_size sizes none)
                accepted
              ∙ rw (tail, first, scans, window) refl),
      )
