-- ===== src/Examples/Lists.antt =====
-- Cipher lists, and a search with a limit: engine.rs.
use memhunt.Base.{none, some, replicate, not, ◌&&◌, any, false}
use memhunt.Engine.Choice.{gcm, eq_mode, is_aes}
use memhunt.Engine.Config.{ScanConfig, default_config, validate_config}
use memhunt.Engine.Config.Valid.{OptionsFit, validate_config-OptionsFit}
use memhunt.Base.{◌≡◌, ◌≢◌, refl, codes, [], ◌∷◌, Memᴰ}
use memhunt.Base.{ok, split, trim, strip_suffix, to_ascii_lowercase}
use memhunt.Engine.Choice.{CipherSelection, block, aes128, aes256, sm4, parse_list, parse_parts}
use memhunt.Engine.Choice.{parse_part, token_of, token_ciphers, trimmed_parts}
use memhunt.Engine.Choice.Lists.{IsSelection, parse_list-IsSelection}
use memhunt.Engine.Choice.Poly.{poly1305_tokens, poly1305_refused}

abbrev selection : CipherSelection
selection = record { ciphers = aes128 ∷ aes256 ∷ sm4 ∷ []; mode = block }

selected : parse_list (codes "sm4, aes-256,AES128,sm4") ≡ ok selection
unfolding parse_list parse_parts split trim parse_part token_ciphers token_of strip_suffix
    to_ascii_lowercase
selected = refl

parse_list-IsSelection_example : IsSelection (codes "sm4, aes-256,AES128,sm4") selection
parse_list-IsSelection_example =
    parse_list-IsSelection (codes "sm4, aes-256,AES128,sm4") selection selected

listed : Memᴰ (codes "ChaCha20-Poly1305") (trimmed_parts (codes "aes-gcm, ChaCha20-Poly1305"))
unfolding split trim
listed = Memᴰ.tail (Memᴰ.head refl)

is_token : Memᴰ (to_ascii_lowercase (codes "ChaCha20-Poly1305")) poly1305_tokens
unfolding to_ascii_lowercase
is_token = Memᴰ.head refl

poly1305_refused_example : parse_list (codes "aes-gcm, ChaCha20-Poly1305") ≢ ok selection
poly1305_refused_example =
    poly1305_refused (codes "aes-gcm, ChaCha20-Poly1305") (codes "ChaCha20-Poly1305") selection
      listed is_token

abbrev gcm_config : ScanConfig
gcm_config = record default_config {
  mode = gcm;
  nonce = some (replicate 12 1);
  tag = some (replicate 16 2);
}

gcm_accepted : validate_config gcm_config ≡ ok tt
unfolding validate_config
gcm_accepted = refl

validate_config-OptionsFit_example :
    OptionsFit gcm none (some (replicate 12 1)) (some (replicate 16 2)) none
    × (not (eq_mode gcm block) && any (λ x. not (is_aes x)) gcm_config.ciphers ≡ false)
validate_config-OptionsFit_example = validate_config-OptionsFit gcm_config refl gcm_accepted
