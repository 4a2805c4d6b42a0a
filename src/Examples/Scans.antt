-- ===== src/Examples/Scans.antt =====
-- `scan` with stand-ins for the crates: engine.rs. Each stand-in masks a block with its key.
use memhunt.Base.{ℕ, ◌≡◌, refl, arith, Bytes, Text, codes, ◌++◌, ◌==◌}
use memhunt.Base.{List, [], ◌∷◌, Memᴰ, none, some, length, concat, take}
use memhunt.Base.{ok, from_utf8}
use memhunt.Report.{Hit, ScanResult, Confidence, high, ecb}
use memhunt.Cipher
use memhunt.Cipher.{CrateCipher, Crates, aes_call, cipher05_call}
use memhunt.Oracle.{Oracle, best_match}
use memhunt.Oracle.Plain.{json_oracle, verify_json}
use memhunt.Engine.Choice.{CipherChoice, aes128, sm4, label}
use memhunt.Engine.Config.{ScanConfig, default_config, validate_config}
use memhunt.Engine.Counter.{xor_zip}
use memhunt.Engine.Finish.{finalize_hit}
use memhunt.Engine.Padding.{split_blocks, chunks, chunk_rounds}
use memhunt.Engine.Hunt.{hunt_test, ecb_hit, decrypt_all, decrypt_or_keep}
use memhunt.Engine.Hunt.Decrypts.{Decrypts}
use memhunt.Engine.Hunt.Keys.{IsKeyAt}
use memhunt.Engine.Scan.{check_iv, scan}
use memhunt.Engine.Scan.Keys.{IsBlockSearch, IsCut, scan_finds_keys, scan_finds_ecb_keys}
use memhunt.Examples.KeySchedules.{hex}

abbrev mask : ℕ → ℕ → CrateCipher
mask key_len block_len = record {
  accepts_key = λ key. length key == key_len;
  block_size = block_len;
  decrypt_block = λ key b. xor_zip b key;
  encrypt_block = λ key b. xor_zip b key;
}

abbrev pub crates : Crates
crates = record {
  aes128 = mask 16 16;
  aes192 = mask 24 16;
  aes256 = mask 32 16;
  des = mask 8 8;
  tdes_ede3 = mask 24 8;
  sm4 = mask 16 16;
  chacha20_stream = λ key nonce b. b;
  xchacha20_stream = λ key nonce b. b;
  aes128_gcm = λ key nonce aad b tag. none;
  aes192_gcm = λ key nonce aad b tag. none;
  aes256_gcm = λ key nonce aad b tag. none;
  chacha20_poly1305 = λ key nonce aad b tag. none;
  xchacha20_poly1305 = λ key nonce aad b tag. none;
  hex_encode = hex;
}

abbrev pub key : Bytes
key = codes "0123456789abcdef"

abbrev pub dump : Bytes
dump = codes "??" ++ key ++ codes "!"

abbrev pub plaintext : List Bytes
plaintext = codes "{\"user\": \"zning\"" ∷ codes ", \"admin\": true}" ∷ []

abbrev pub blocks : List Bytes
blocks = xor_zip (codes "{\"user\": \"zning\"") key ∷ xor_zip (codes ", \"admin\": true}") key ∷ []

abbrev pub config : ScanConfig
config = record default_config { ciphers = aes128 ∷ sm4 ∷ [] }

abbrev pub oracles : List Oracle
oracles = json_oracle ∷ []

pub search : IsBlockSearch config oracles
search =
    unfold validate_config in
    record { in_block = refl; valid = refl; some_oracle = refl; unlimited = refl }

pub cut : split_blocks (concat blocks) 16 ≡ ok blocks
unfolding split_blocks chunks chunk_rounds
cut = refl

unfoldable pub aes_cut : IsCut crates (concat blocks) config aes128
unfolding check_iv
aes_cut = record {
  cipher = Cipher.aes128 crates;
  adapts = refl;
  blocks = blocks;
  cut = cut;
  iv_fits = refl;
}

pub sm4_cut : IsCut crates (concat blocks) config sm4
sm4_cut = record {
  cipher = Cipher.sm4 crates;
  adapts = refl;
  blocks = blocks;
  cut = cut;
  iv_fits = unfold check_iv in refl;
}

pub key_at : IsKeyAt dump (Cipher.aes128 crates) 2 key
key_at = record { some_bytes = omega arith; inside = omega arith; reads = refl }

pub accepted : best_match oracles (concat (take 2 plaintext)) ≡ some (codes "json", high)
unfolding best_match verify_json from_utf8
accepted = refl

pub decrypts : Decrypts (Cipher.aes128 crates) key blocks plaintext
unfolding aes_call
decrypts = (refl, (refl, tt))

abbrev hit : Hit
hit =
    finalize_hit hex (codes "aes-128") ecb key 2 none none [] (concat plaintext) (codes "json") high

scan_finds_ecb_keys_example :
    (r : ScanResult) × (scan crates dump (concat blocks) oracles config ≡ ok r)
    × ((choice : CipherChoice) (c : IsCut crates (concat blocks) config choice) (offset : ℕ)
          (k : Bytes) (ps : List Bytes) (found : Text × Confidence)
        → Memᴰ choice config.ciphers
        → IsKeyAt dump c.cipher offset k
        → Decrypts c.cipher k c.blocks ps
        → best_match oracles (concat (take 2 ps)) ≡ some found
        → Memᴰ
            (finalize_hit hex (label choice) ecb k offset none none [] (concat ps) found.0 found.1)
            r.hits)
scan_finds_ecb_keys_example =
    scan_finds_ecb_keys crates dump (concat blocks) oracles config search (aes_cut, (sm4_cut, tt))

-- The planted key is found.
planted : Memᴰ hit scan_finds_ecb_keys_example.0.hits
unfolding aes_cut
planted =
    scan_finds_ecb_keys_example.2 aes128 aes_cut 2 key plaintext (codes "json", high)
      (Memᴰ.head refl) key_at decrypts accepted

scan_finds_keys_example :
    (r : ScanResult) × (scan crates dump (concat blocks) oracles config ≡ ok r)
    × ((choice : CipherChoice) (c : IsCut crates (concat blocks) config choice) (offset : ℕ)
          (k : Bytes) (h : Hit)
        → Memᴰ choice config.ciphers
        → IsKeyAt dump c.cipher offset k
        → hunt_test hex dump c.blocks c.cipher.block_len c.cipher oracles config
            (label choice)
            none
            offset
            k
          ≡ some h
        → Memᴰ h r.hits)
scan_finds_keys_example =
    scan_finds_keys crates dump (concat blocks) oracles config search (aes_cut, (sm4_cut, tt))

passes :
    hunt_test hex dump blocks 16 (Cipher.aes128 crates) oracles config (codes "aes-128") none 2 key
    ≡ some hit
unfolding hunt_test ecb_hit decrypt_all decrypt_or_keep aes_call best_match verify_json from_utf8
passes = refl

planted_by_test : Memᴰ hit scan_finds_keys_example.0.hits
unfolding aes_cut
planted_by_test = scan_finds_keys_example.2 aes128 aes_cut 2 key hit (Memᴰ.head refl) key_at passes
