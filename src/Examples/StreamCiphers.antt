-- ===== src/Examples/StreamCiphers.antt =====
-- ChaCha20 with stand-ins for the crates: engine.rs.
use memhunt.Base.{some_inj}
use memhunt.Base.{min, ◌≡◌, refl, sym, ap, ◌∙◌, arith, Bytes, codes, ◌++◌}
use memhunt.Base.{false, List, [], ◌∷◌, Memᴰ, none, some, length, take}
use memhunt.Base.{replicate, eq_list, from_utf8, if◌then◌else◌}
use memhunt.Report
use memhunt.Report.{high}
use memhunt.Cipher
use memhunt.Cipher.{Crates, chacha_call}
use memhunt.Oracle.{Oracle, best_match}
use memhunt.Oracle.Plain.{json_oracle, verify_json}
use memhunt.Engine.Config.{ScanConfig, default_config}
use memhunt.Engine.Counter.{xor_zip}
use memhunt.Engine.Keystream.{take-xor_zip}
use memhunt.Engine.Finish.{finalize_stream_hit}
use memhunt.Engine.StreamHunt.{hunt_stream_cipher}
use memhunt.Engine.StreamHunt.StreamCiphers.{IsStreamKeyAt, Streams}
use memhunt.Base.{◌↔◌, inl}
use memhunt.Report.{Hit}
use memhunt.Engine.StreamHunt.StreamCiphers.{keystream_key_found}
use memhunt.Engine.StreamHunt.Tagged.{PolyOpens, IsTagHit, poly1305_hit_iff}
use memhunt.Examples.KeySchedules.{hex}
use memhunt.Examples.Scans.{crates}

-- The stand-ins mask 32 bytes with the key; the tag of a ciphertext is its nonce.
abbrev chacha_crates : Crates
chacha_crates = record crates {
  chacha20_stream = λ key nonce b. xor_zip b key;
  chacha20_poly1305 =
      λ key nonce aad b tag. if eq_list tag nonce then some (xor_zip b key) else none;
}

abbrev key : Bytes
key = codes "0123456789abcdef0123456789abcdef"

abbrev dump : Bytes
dump = codes "?" ++ key ++ codes "!"

abbrev nonce : Bytes
nonce = replicate 12 9

abbrev text : Bytes
text = codes "{\"user\": \"zning\"}"

abbrev oracles : List Oracle
oracles = json_oracle ∷ []

abbrev config : ScanConfig
config = record default_config { nonce = some nonce }

abbrev tagged_config : ScanConfig
tagged_config = record default_config { nonce = some nonce; tag = some nonce }

key_at : IsStreamKeyAt dump (Cipher.chacha20 chacha_crates) 1 key
key_at = record { some_bytes = omega arith; inside = omega arith; reads = refl }

chacha20-Streams : Streams (Cipher.chacha20 chacha_crates) key nonce
unfolding chacha_call
chacha20-Streams n bytes plain e =
    ap some (sym (take-xor_zip n bytes key) ∙ ap (take n) (some_inj e))

unmasks : (Cipher.chacha20 chacha_crates).xor_keystream key nonce (xor_zip text key) ≡ some text
unfolding chacha_call
unmasks = refl

accepted :
    best_match oracles (take (min 32 (length (xor_zip text key))) text) ≡ some (codes "json", high)
unfolding best_match verify_json from_utf8
accepted = refl

keystream_key_found_example :
    Memᴰ
      (finalize_stream_hit hex
        (codes "chacha20")
        Report.stream
        key
        1
        nonce
        text
        (codes "json")
        high)
      (hunt_stream_cipher chacha_crates dump
        (xor_zip text key)
        (Cipher.chacha20 chacha_crates)
        oracles
        config
        (codes "chacha20")
        false
        0).1
keystream_key_found_example =
    keystream_key_found chacha_crates dump (xor_zip text key) (Cipher.chacha20 chacha_crates)
      oracles config (codes "chacha20") 0 1 key text (codes "json", high) key_at chacha20-Streams
      refl unmasks accepted

abbrev poly_hit : Hit
poly_hit =
    finalize_stream_hit hex (codes "chacha20") Report.stream key 1 nonce text (codes "poly1305-tag")
      high

poly1305_hit_iff_example :
    Memᴰ poly_hit
      (hunt_stream_cipher chacha_crates dump
        (xor_zip text key)
        (Cipher.chacha20 chacha_crates)
        oracles
        tagged_config
        (codes "chacha20")
        false
        0).1
    ↔ IsTagHit chacha_crates dump tagged_config
        (codes "chacha20")
        32
        (PolyOpens chacha_crates nonce [] (xor_zip text key) nonce (codes "chacha20"))
        Report.stream
        (codes "poly1305-tag")
        poly_hit
poly1305_hit_iff_example =
    poly1305_hit_iff chacha_crates dump (xor_zip text key) oracles tagged_config (codes "chacha20")
      nonce refl (Cipher.chacha20 chacha_crates) 0 poly_hit (omega arith)

-- The key in the dump opens the ciphertext, and so it is reported.
poly_found :
    Memᴰ poly_hit
      (hunt_stream_cipher chacha_crates dump
        (xor_zip text key)
        (Cipher.chacha20 chacha_crates)
        oracles
        tagged_config
        (codes "chacha20")
        false
        0).1
poly_found =
    poly1305_hit_iff_example.1
      (record { offset = 1; inside = omega arith; reported = (_, inl (refl, refl), refl) })
