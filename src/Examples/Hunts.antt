-- ===== src/Examples/Hunts.antt =====
-- Hunts for keys and IVs with a small cipher, and padding: engine.rs. The cipher of these examples
-- masks blocks of four bytes with a key of four bytes.
use memhunt.Base.{◌≡◌, refl, ap, arith, Bytes, codes, false}
use memhunt.Base.{◌++◌, List, [], ◌∷◌, Memᴰ, Option, none, some, length, concat}
use memhunt.Base.{take, from_utf8, windows, if◌then◌else◌, ◌==◌}
use memhunt.Base.{ℕ, ◌+◌, ◌⊎◌, ◌≤◌, drop}
use memhunt.Engine.IvScan.{IvHit}
use memhunt.Engine.Hunt.Scanned.{scanned_hit, cbc_key_scanned}
use memhunt.Engine.Hunt.Sound.{IsEcbHit, IsCbcHit, hunt_sound}
use memhunt.Report.{high, ecb, cbc}
use memhunt.Cipher.{BlockCipher}
use memhunt.Oracle.{Oracle, best_match}
use memhunt.Oracle.Plain.{json_oracle, known_oracle, verify_json, verify_known}
use memhunt.Engine.Config.{default_config}
use memhunt.Engine.Counter.{xor_zip}
use memhunt.Engine.Blocks.{xor_zip_cancel, length-xor_zip}
use memhunt.Engine.Finish.{finalize_hit}
use memhunt.Engine.IvScan.{find_iv}
use memhunt.Engine.IvScan.Found.{IsIvScan, find_iv-IsIvScan}
use memhunt.Engine.Hunt.{hunt}
use memhunt.Engine.Hunt.Decrypts.{IsInverse, cbc_encrypt, masked_blocks}
use memhunt.Engine.Hunt.Keys.{IsKeyAt, ecb_key_found, cbc_key_found}
use memhunt.Examples.KeySchedules.{hex}

abbrev mask_call : Bytes → Bytes → Option Bytes
mask_call key b = if length key == 4 then some (xor_zip b key) else none

abbrev mask_cipher : BlockCipher
mask_cipher = record {
  algo = codes "mask";
  key_len = 4;
  block_len = 4;
  decrypt_with_key = mask_call;
  encrypt_with_key = mask_call;
}

abbrev key : Bytes
key = 0x10 ∷ 0x20 ∷ 0x30 ∷ 0x40 ∷ []

abbrev enc : Bytes → Bytes
enc b = xor_zip b key

mask-IsInverse : IsInverse mask_cipher key 4 enc
mask-IsInverse = record {
  undone = λ b h. ap some (xor_zip_cancel b key (omega (arith, h)));
  same_size = λ b h. omega (arith, h, length-xor_zip b key);
}

-- The key stands at offset 2, the IV at offset 6.
abbrev dump : Bytes
dump = 0x00 ∷ 0xff ∷ key ++ (0x05 ∷ 0x06 ∷ 0x07 ∷ 0x08 ∷ 0xff ∷ [])

abbrev iv : Bytes
iv = 0x05 ∷ 0x06 ∷ 0x07 ∷ 0x08 ∷ []

key_at : IsKeyAt dump mask_cipher 2 key
key_at = record { some_bytes = omega arith; inside = omega arith; reads = refl }

abbrev message : List Bytes
message = codes "{\"id" ∷ codes "\":42" ∷ codes "2}\n\n" ∷ []

abbrev oracles : List Oracle
oracles = json_oracle ∷ known_oracle (codes ":422}") ∷ []

abbrev ecb_blocks : List Bytes
ecb_blocks = enc (codes "{\"id") ∷ enc (codes "\":42") ∷ enc (codes "2}\n\n") ∷ []

json_head : best_match oracles (codes "{\"id\":42") ≡ some (codes "json", high)
unfolding best_match verify_json verify_known from_utf8 windows
json_head = refl

cbc_rejected :
    best_match oracles
      (concat (take 2 (masked_blocks enc iv (codes "{\"id" ∷ codes "\":42" ∷ codes "2}\n\n" ∷ []))))
    ≡ none
unfolding best_match verify_json verify_known from_utf8 windows
cbc_rejected = refl

known_head : best_match oracles (codes "\":422}\n\n") ≡ some (codes "known", high)
unfolding best_match verify_json verify_known from_utf8 windows
known_head = refl

cbc_key_found_example :
    Memᴰ
      (finalize_hit hex
        (codes "mask")
        cbc
        key
        2
        (some (hex iv))
        none
        []
        (concat message)
        (codes "known")
        high)
      (hunt hex dump
        (cbc_encrypt enc iv message)
        4
        mask_cipher
        oracles
        default_config
        (codes "mask")
        (some iv)
        false
        0).1
cbc_key_found_example =
    cbc_key_found mask_cipher key 4 enc mask-IsInverse iv (codes "{\"id") (codes "\":42")
      (codes "2}\n\n" ∷ []) refl (refl, (refl, (refl, tt))) hex dump oracles default_config
      (codes "mask") 0 2 (codes "known", high) key_at cbc_rejected known_head

cbc_key_scanned_example :
    (candidates : List IvHit) × IsIvScan dump
      (xor_zip (codes "{\"id") iv)
      (codes "\":422}\n\n")
      4
      oracles
      candidates
    × Memᴰ
        (scanned_hit hex
          (codes "mask")
          key
          2
          candidates
          4
          (codes "\":42" ∷ codes "2}\n\n" ∷ [])
          (codes "known", high))
        (hunt hex dump
          (cbc_encrypt enc iv message)
          4
          mask_cipher
          oracles
          default_config
          (codes "mask")
          none
          false
          0).1
cbc_key_scanned_example =
    cbc_key_scanned mask_cipher key 4 enc mask-IsInverse iv (codes "{\"id") (codes "\":42")
      (codes "2}\n\n" ∷ []) refl (refl, (refl, (refl, tt))) hex dump oracles default_config
      (codes "mask") 0 2 (codes "known", high) (omega arith) (omega arith) refl key_at cbc_rejected
      known_head

find_iv-IsIvScan_example :
    IsIvScan dump
      (xor_zip (codes "{\"id") iv)
      (codes "\":422}\n\n")
      4
      oracles
      (find_iv dump (xor_zip (codes "{\"id") iv) (codes "\":422}\n\n") 4 oracles)
find_iv-IsIvScan_example =
    find_iv-IsIvScan dump (xor_zip (codes "{\"id") iv) (codes "\":422}\n\n") 4 oracles (omega arith)

planted_ecb :
    Memᴰ
      (finalize_hit hex (codes "mask") ecb key 2 none none [] (concat message) (codes "json") high)
      (hunt hex dump ecb_blocks 4 mask_cipher oracles default_config (codes "mask") none false 0).1
planted_ecb =
    ecb_key_found hex dump ecb_blocks 4 mask_cipher oracles default_config (codes "mask") none 0 2
      key message (codes "json", high) key_at (refl, (refl, (refl, tt))) json_head

hunt_sound_example :
    (offset : ℕ) × (offset + 4 ≤ length dump)
    × (IsEcbHit hex dump ecb_blocks 4 mask_cipher oracles default_config
          (codes "mask")
          none
          offset
          (take 4 (drop offset dump))
          (finalize_hit hex
            (codes "mask")
            ecb
            key
            2
            none
            none
            []
            (concat message)
            (codes "json")
            high)
        ⊎ IsCbcHit hex dump ecb_blocks 4 mask_cipher oracles default_config
            (codes "mask")
            none
            offset
            (take 4 (drop offset dump))
            (finalize_hit hex
              (codes "mask")
              ecb
              key
              2
              none
              none
              []
              (concat message)
              (codes "json")
              high))
hunt_sound_example =
    hunt_sound hex dump ecb_blocks 4 mask_cipher oracles default_config (codes "mask") none 0
      (finalize_hit hex (codes "mask") ecb key 2 none none [] (concat message) (codes "json") high)
      planted_ecb
