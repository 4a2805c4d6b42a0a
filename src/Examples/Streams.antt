-- ===== src/Examples/Streams.antt =====
-- CTR and GCM, with stand-ins for the crates: engine.rs.
use memhunt.Base.{min, ◌*◌, ◌≡◌, refl, arith, Bytes, codes, false, ◌++◌}
use memhunt.Base.{List, [], ◌∷◌, Memᴰ, none, some, length, take, drop, replicate, ltb}
use memhunt.Base.{eq_list, from_utf8, if◌then◌else◌, length-append, length-take, length-drop}
use memhunt.Report
use memhunt.Report.{high}
use memhunt.Cipher
use memhunt.Cipher.{Crates, aes_call}
use memhunt.Oracle.{Oracle, best_match}
use memhunt.Oracle.Plain.{json_oracle, verify_json}
use memhunt.Engine.Choice.{ctr, gcm}
use memhunt.Engine.Config.{ScanConfig, default_config}
use memhunt.Engine.Counter.{
  xor_zip, stream_decrypt, first_counter, stream_loop, next_counter, increment_counter,
}
use memhunt.Engine.Padding.{chunks, chunk_rounds}
use memhunt.Engine.Blocks.{length-xor_zip}
use memhunt.Engine.Keystream.{IsEncryption, keystream, start}
use memhunt.Engine.Keystream.{stream_decrypt-keystream, stream_decrypt_twice}
use memhunt.Engine.Finish.{finalize_stream_hit}
use memhunt.Engine.Hunt.Keys.{IsKeyAt}
use memhunt.Engine.StreamHunt.{hunt_stream}
use memhunt.Base.{◌↔◌, inl}
use memhunt.Report.{Hit}
use memhunt.Engine.StreamHunt.Keys.{stream_key_found}
use memhunt.Engine.StreamHunt.Tagged.{GcmOpens, IsTagHit, gcm_hit_iff}
use memhunt.Examples.KeySchedules.{hex}
use memhunt.Examples.Scans.{crates}

abbrev key : Bytes
key = codes "0123456789abcdef"

abbrev dump : Bytes
dump = codes "??" ++ key ++ codes "!"

abbrev enc : Bytes → Bytes
enc c = xor_zip (take 16 c) key ++ drop 16 c

aes-IsEncryption : IsEncryption (Cipher.aes128 crates) key enc
unfolding aes_call
aes-IsEncryption = record {
  runs = λ c h. let long : ltb (length c) 16 ≡ false = ground (arith, h) in rw long refl;
  size = λ c h. omega (
    arith,
    h,
    length-append (xor_zip (take 16 c) key) (drop 16 c),
    length-xor_zip (take 16 c) key,
    length-take 16 c,
    length-drop 16 c,
  );
}

abbrev nonce : Bytes
nonce = replicate 16 9

abbrev text : Bytes
text = codes "{\"user\": \"zning\", \"admin\": true}   "

stream_decrypt-keystream_example :
    stream_decrypt (Cipher.aes128 crates) key text nonce ctr
    ≡ some (xor_zip text (keystream enc ctr (length text) (start ctr nonce)))
stream_decrypt-keystream_example =
    stream_decrypt-keystream (Cipher.aes128 crates) key enc aes-IsEncryption ctr nonce refl text

stream_decrypt_twice_example :
    (encrypted : Bytes) × (stream_decrypt (Cipher.aes128 crates) key text nonce ctr
      ≡ some encrypted)
    × (stream_decrypt (Cipher.aes128 crates) key encrypted nonce ctr ≡ some text)
stream_decrypt_twice_example =
    stream_decrypt_twice (Cipher.aes128 crates) key enc aes-IsEncryption ctr nonce refl text

-- Three counter blocks, from the nonce on.
abbrev encrypted : Bytes
encrypted =
    xor_zip text
      (enc nonce ++ enc (replicate 15 9 ++ (10 ∷ [])) ++ enc (replicate 15 9 ++ (11 ∷ [])))

unmasks : stream_decrypt (Cipher.aes128 crates) key encrypted nonce ctr ≡ some text
unfolding stream_decrypt first_counter chunks chunk_rounds stream_loop next_counter aes_call
    increment_counter
unmasks = refl

abbrev oracles : List Oracle
oracles = json_oracle ∷ []

abbrev ctr_config : ScanConfig
ctr_config = record default_config { mode = ctr; nonce = some nonce }

accepted : best_match oracles (take (min (2 * 16) (length text)) text) ≡ some (codes "json", high)
unfolding best_match verify_json from_utf8
accepted = refl

key_at : IsKeyAt dump (Cipher.aes128 crates) 2 key
key_at = record { some_bytes = omega arith; inside = omega arith; reads = refl }

stream_key_found_example :
    Memᴰ
      (finalize_stream_hit hex (codes "aes-128") Report.ctr key 2 nonce text (codes "json") high)
      (hunt_stream crates dump encrypted
        (Cipher.aes128 crates)
        oracles
        ctr_config
        (codes "aes-128")
        false
        0).1
stream_key_found_example =
    stream_key_found crates dump encrypted (Cipher.aes128 crates) oracles ctr_config
      (codes "aes-128") 0 2 key enc Report.ctr text (codes "json", high) key_at aes-IsEncryption
      refl refl refl unmasks accepted

abbrev gcm_crates : Crates
gcm_crates = record crates {
  aes128_gcm = λ k n aad b tag. if eq_list tag k then some (xor_zip b k) else none;
}

abbrev gcm_config : ScanConfig
gcm_config = record default_config { mode = gcm; nonce = some (replicate 12 1); tag = some key }

abbrev gcm_hit : Hit
gcm_hit =
    finalize_stream_hit hex (codes "aes-128") Report.gcm key 2 (replicate 12 1)
      (xor_zip (take 16 text) key) (codes "gcm-tag") high

gcm_hit_iff_example :
    Memᴰ gcm_hit
      (hunt_stream gcm_crates dump
        (take 16 text)
        (Cipher.aes128 gcm_crates)
        []
        gcm_config
        (codes "aes-128")
        false
        0).1
    ↔ IsTagHit gcm_crates dump gcm_config
        (codes "aes-128")
        16
        (GcmOpens gcm_crates (replicate 12 1) [] (take 16 text) key)
        Report.gcm
        (codes "gcm-tag")
        gcm_hit
gcm_hit_iff_example =
    gcm_hit_iff gcm_crates dump (take 16 text) [] gcm_config (codes "aes-128") key refl
      (Cipher.aes128 gcm_crates) 0 gcm_hit refl (omega arith)

-- The key in the dump opens the ciphertext, and so it is reported.
gcm_found :
    Memᴰ gcm_hit
      (hunt_stream gcm_crates dump
        (take 16 text)
        (Cipher.aes128 gcm_crates)
        []
        gcm_config
        (codes "aes-128")
        false
        0).1
gcm_found =
    gcm_hit_iff_example.1
      (record { offset = 2; inside = omega arith; reported = (_, inl (refl, refl), refl) })
