-- ===== src/HashScan/Algos.antt =====
-- hash_scan.rs: the hash algorithms and the list of them that the user enables. The digest crates
-- are a parameter, the record `Digests`.
use memhunt.Base.{ℕ, Bytes, Text, codes, List, [], ◌∷◌, ◌++◌, map}
use memhunt.Base.{eq_list, is_empty, if◌then◌else◌, trim, split}
use memhunt.Base.{Result, ok, err, ◌>>=◌}

-- The digests of the crates, and their HMACs (key, then message).
pub record Digests : Type 0 where
  pub md5 : Bytes → Bytes
  pub sha1 : Bytes → Bytes
  pub sha256 : Bytes → Bytes
  pub sm3 : Bytes → Bytes
  pub hmac_md5 : Bytes → Bytes → Bytes
  pub hmac_sha1 : Bytes → Bytes → Bytes
  pub hmac_sha256 : Bytes → Bytes → Bytes
  pub hmac_sm3 : Bytes → Bytes → Bytes

-- The trait `Hasher`; `out` has `output_len` bytes, as every digest of the algorithm.
pub record Hasher : Type 0 where
  pub name : Text
  pub output_len : ℕ
  pub hash_into : Bytes → Bytes
  pub hmac_into : Bytes → Bytes → Bytes

pub data HashAlgoSpec : Type 0 where
  md5 sha1 sha256 sm3 : HashAlgoSpec

abbrev pub hasher : Digests → HashAlgoSpec → Hasher
hasher d md5 = record {
  name = codes "md5";
  output_len = 16;
  hash_into = d.md5;
  hmac_into = d.hmac_md5;
}
hasher d sha1 = record {
  name = codes "sha1";
  output_len = 20;
  hash_into = d.sha1;
  hmac_into = d.hmac_sha1;
}
hasher d sha256 = record {
  name = codes "sha256";
  output_len = 32;
  hash_into = d.sha256;
  hmac_into = d.hmac_sha256;
}
hasher d sm3 = record {
  name = codes "sm3";
  output_len = 32;
  hash_into = d.sm3;
  hmac_into = d.hmac_sm3;
}

abbrev pub label : HashAlgoSpec → Text
label md5 = codes "md5"
label sha1 = codes "sha1"
label sha256 = codes "sha256"
label sm3 = codes "sm3"

-- The messages of this file.
pub data HashError : Type 0 where
  unknown_algo : Text → HashError
  no_algo digest_empty : HashError
  digest_length mac_length : ℕ → Text → ℕ → HashError

unfoldable pub part_algo : Text → Result HashError HashAlgoSpec
part_algo part =
    if eq_list part (codes "md5")
    then ok md5
    else if eq_list part (codes "sha1")
    then ok sha1
    else if eq_list part (codes "sha256")
    then ok sha256
    else if eq_list part (codes "sm3")
    then ok sm3
    else err (unknown_algo part)

-- The loop over the trimmed parts; empty ones are passed over.
unfoldable pub collect_algos : List Text → List HashAlgoSpec → Result HashError (List HashAlgoSpec)
collect_algos [] algos = ok algos
collect_algos (part ∷ parts) algos =
    if is_empty part
    then collect_algos parts algos
    else (part_algo part >>= λ algo. collect_algos parts (algos ++ algo ∷ []))

unfoldable pub parse : Text → Result HashError (List HashAlgoSpec)
unfolding collect_algos
parse spec = do
  algos ← collect_algos (map trim (split b',' spec)) []
  if is_empty algos then err no_algo else ok algos
