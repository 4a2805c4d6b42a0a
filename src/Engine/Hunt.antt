-- ===== src/Engine/Hunt.antt =====
-- engine.rs: `hunt`, which tries every window of the dump as the key of a block cipher, in ECB and
-- then in CBC mode.
pub mod Decrypts
pub mod Keys
pub mod Scanned
pub mod Sound
use memhunt.Base.{ℕ, Bytes, Text, Bool, false, ◌&&◌, ◌++◌, List, [], ◌∷◌, Option, none, some}
use memhunt.Base.{length, take, drop, map, get_or, replicate, concat, leb, if◌then◌else◌}
use memhunt.Base.{sweep, positions}
use memhunt.Report.{Confidence, IvCandidate, Hit, ecb, cbc}
use memhunt.Cipher.{BlockCipher}
use memhunt.Oracle.{Oracle, best_match}
use memhunt.Engine.Config.{ScanConfig}
use memhunt.Engine.Counter.{xor_zip}
use memhunt.Engine.Finish.{to_utf8, finalize_hit}
use memhunt.Engine.IvScan.{IvHit, find_iv}

abbrev pub verify_blocks : ℕ
verify_blocks = 2

infixl 5 ◌>>=◌
abbrev ◌>>=◌ {ℓ κ} : {A : Type ℓ} {B : Type κ} → Option A → (A → Option B) → Option B
none >>= f = none
some a >>= f = f a

-- `for b in &mut head { if !cipher.decrypt_with_key(key, b) { return None; } }`
unfoldable pub decrypt_all : BlockCipher → Bytes → List Bytes → Option (List Bytes)
decrypt_all cipher key [] = some []
decrypt_all cipher key (b ∷ bs) = do
  p ← cipher.decrypt_with_key key b
  ps ← decrypt_all cipher key bs
  some (p ∷ ps)

-- A decryption whose answer is not looked at: a refused key leaves the block as it was.
abbrev pub or_kept : Option Bytes → Bytes → Bytes
or_kept none b = b
or_kept (some p) b = p

unfoldable pub decrypt_or_keep : BlockCipher → Bytes → Bytes → Bytes
decrypt_or_keep cipher key b = or_kept (cipher.decrypt_with_key key b) b

-- `head[i][j] ^= blocks[i][j]`: block `i` of the first list with block `i` of the second.
unfoldable pub xor_previous : List Bytes → List Bytes → List Bytes
xor_previous [] blocks = []
xor_previous (b ∷ bs) [] = b ∷ bs
xor_previous (b ∷ bs) (c ∷ cs) = xor_zip b c ∷ xor_previous bs cs

abbrev pub first_block : List Bytes → Bytes
first_block blocks = get_or blocks 0 []

-- What is verified in CBC mode: the blocks behind the first, or the first with a known IV. The outer
-- `none` is a refused key, the inner one says that there is nothing to verify.
unfoldable pub cbc_head_by :
    BlockCipher → Bytes → List Bytes → List Bytes → Option Bytes → Option (Option Bytes)
cbc_head_by cipher key blocks [] none = some none
cbc_head_by cipher key blocks [] (some iv) = do
  b0 ← cipher.decrypt_with_key key (first_block blocks)
  some (some (xor_zip b0 iv))
cbc_head_by cipher key blocks (b ∷ bs) fixed_iv = do
  head ← decrypt_all cipher key (b ∷ bs)
  some (some (concat (xor_previous head blocks)))

unfoldable pub cbc_head : BlockCipher → Bytes → List Bytes → Option Bytes → Option (Option Bytes)
unfolding cbc_head_by
cbc_head cipher key blocks fixed_iv =
    cbc_head_by cipher key blocks (take verify_blocks (drop 1 blocks)) fixed_iv

-- The blocks behind the first, which decrypt with no IV.
unfoldable pub cbc_tail : BlockCipher → Bytes → List Bytes → List Bytes
cbc_tail cipher key blocks = xor_previous (map (decrypt_or_keep cipher key) (drop 1 blocks)) blocks

-- The IV as far as it is known, and block 0 under it.
pub record Resolved : Type 0 where
  pub iv_hex : Option Text
  pub iv_offset : Option ℕ
  pub head_block : Bytes
  pub iv_candidates : List IvCandidate

abbrev pub unknown_iv : ℕ → Resolved
unknown_iv block = record {
  iv_hex = none;
  iv_offset = none;
  head_block = replicate block b'?';
  iv_candidates = [];
}

module _ (hex_encode : Bytes → Text) where
  unfoldable pub iv_candidate : IvHit → IvCandidate
  iv_candidate c = record {
    iv_hex = hex_encode c.iv;
    iv_offset = c.offset;
    confidence = c.confidence;
    matched_by = c.name;
    block0_utf8 = to_utf8 c.b0;
    block0_hex = hex_encode c.b0;
  }

  unfoldable pub best_candidate : List IvHit → ℕ → Resolved
  best_candidate [] block = unknown_iv block
  best_candidate (c ∷ cs) block = record {
    iv_hex = some (hex_encode c.iv);
    iv_offset = some c.offset;
    head_block = c.b0;
    iv_candidates = map iv_candidate (c ∷ cs);
  }

  module _ (dump : Bytes) (blocks : List Bytes) (block : ℕ) (cipher : BlockCipher) where
    unfoldable pub resolve_iv : List Oracle → Bool → Bytes → List Bytes → Option Bytes → Resolved
    resolve_iv oracles scan_iv key tail (some iv) = record {
      iv_hex = some (hex_encode iv);
      iv_offset = none;
      head_block = xor_zip (decrypt_or_keep cipher key (first_block blocks)) iv;
      iv_candidates = [];
    }
    resolve_iv oracles scan_iv key tail none =
        let b0 = decrypt_or_keep cipher key (first_block blocks) in
        if scan_iv && leb block (length dump)
        then best_candidate (find_iv dump b0 (concat (take verify_blocks tail)) block oracles) block
        else unknown_iv block

    module _ (oracles : List Oracle) (config : ScanConfig) (algo : Text)
        (fixed_iv : Option Bytes) where
      unfoldable pub ecb_hit : ℕ → Bytes → Text × Confidence → Hit
      ecb_hit offset key (name, conf) =
          let plaintext = map (decrypt_or_keep cipher key) blocks in
          finalize_hit hex_encode algo ecb key offset none none [] (concat plaintext) name conf

      unfoldable pub cbc_hit : ℕ → Bytes → Text × Confidence → Hit
      unfolding resolve_iv
      cbc_hit offset key (name, conf) =
          let tail = cbc_tail cipher key blocks in
          let r = resolve_iv oracles config.scan_iv key tail fixed_iv in
          finalize_hit hex_encode algo cbc key offset r.iv_hex r.iv_offset r.iv_candidates
            (r.head_block ++ concat tail) name conf

      -- The part of the closure behind the ECB test.
      unfoldable pub cbc_test : ℕ → Bytes → Option Hit
      cbc_test offset key = do
        verified ← cbc_head cipher key blocks fixed_iv
        head ← verified
        found ← best_match oracles head
        some (cbc_hit offset key found)

      -- The closure that tests one window as the key.
      unfoldable pub hunt_test : ℕ → Bytes → Option Hit
      unfolding cbc_test
      hunt_test offset key = do
        head ← decrypt_all cipher key (take verify_blocks blocks)
        elim (best_match oracles (concat head)) [
          | some found ↦ some (ecb_hit offset key found)
          | none ↦ cbc_test offset key
        ]

      -- The counter and the hits. The first argument is the flag `stop`.
      unfoldable pub hunt : Bool → ℕ → ℕ × List Hit
      unfolding hunt_test
      hunt stop tried = sweep stop hunt_test (positions cipher.key_len dump) tried
