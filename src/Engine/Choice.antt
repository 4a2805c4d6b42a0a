-- ===== src/Engine/Choice.antt =====
-- engine.rs: `CipherChoice`, `CipherMode` and `parse_list`, the `--cipher` option.
pub mod Sorting
pub mod Rounds
pub mod Lists
pub mod Poly
pub mod Named
pub mod Agreed
use memhunt.Base.{ℕ, Text, codes, Bool, true, false, not, ◌&&◌, ◌||◌, List, [], ◌∷◌, ◌++◌}
use memhunt.Base.{Option, none, some, any, map, leb, ◌==◌, eq_list, is_empty, if◌then◌else◌}
use memhunt.Base.{
  Result, ok, err, ◌>>=◌, ◌>>◌, fail_if, trim, split, strip_suffix, to_ascii_lowercase,
}

pub data CipherMode : Type 0 where
  block ctr gcm : CipherMode

pub data CipherChoice : Type 0 where
  aes128 aes192 aes256 des tdes_ede3 sm4 chacha20 xchacha20 : CipherChoice

abbrev pub mode_index : CipherMode → ℕ
mode_index block = 0
mode_index ctr = 1
mode_index gcm = 2

-- `==` on modes.
abbrev pub eq_mode : CipherMode → CipherMode → Bool
eq_mode a b = mode_index a == mode_index b

-- The derived order of the enum.
abbrev pub choice_index : CipherChoice → ℕ
choice_index aes128 = 0
choice_index aes192 = 1
choice_index aes256 = 2
choice_index des = 3
choice_index tdes_ede3 = 4
choice_index sm4 = 5
choice_index chacha20 = 6
choice_index xchacha20 = 7

abbrev pub eq_choice : CipherChoice → CipherChoice → Bool
eq_choice a b = choice_index a == choice_index b

abbrev pub label : CipherChoice → Text
label aes128 = codes "aes-128"
label aes192 = codes "aes-192"
label aes256 = codes "aes-256"
label des = codes "des"
label tdes_ede3 = codes "3des-ede3"
label sm4 = codes "sm4"
label chacha20 = codes "chacha20"
label xchacha20 = codes "xchacha20"

abbrev pub is_aes : CipherChoice → Bool
is_aes aes128 = true
is_aes aes192 = true
is_aes aes256 = true
is_aes des = false
is_aes tdes_ede3 = false
is_aes sm4 = false
is_aes chacha20 = false
is_aes xchacha20 = false

abbrev pub is_stream_cipher : CipherChoice → Bool
is_stream_cipher aes128 = false
is_stream_cipher aes192 = false
is_stream_cipher aes256 = false
is_stream_cipher des = false
is_stream_cipher tdes_ede3 = false
is_stream_cipher sm4 = false
is_stream_cipher chacha20 = true
is_stream_cipher xchacha20 = true

abbrev pub all_choices : List CipherChoice
all_choices = aes128 ∷ aes192 ∷ aes256 ∷ des ∷ tdes_ede3 ∷ sm4 ∷ chacha20 ∷ xchacha20 ∷ []

pub record CipherSelection : Type 0 where
  pub ciphers : List CipherChoice
  pub mode : CipherMode

-- The messages of `parse_list`.
pub data ListError : Type 0 where
  mixed_modes no_cipher aes_only : ListError
  unknown_cipher : Text → ListError

-- The token behind the suffix, and the mode that the suffix selects.
unfoldable pub token_of : Text → Text × CipherMode
token_of lower = elim (strip_suffix (codes "-ctr") lower) [
  | some token ↦ (token, ctr)
  | none ↦ elim (strip_suffix (codes "-gcm") lower) [
    | some token ↦ (token, gcm)
    | none ↦ (lower, block)
  ]
]

-- What a token adds to the list, and whether it forces the mode to GCM.
unfoldable pub token_ciphers : Text → CipherMode → Option (List CipherChoice × Bool)
token_ciphers token token_mode =
    let in_block = eq_mode token_mode block in
    if eq_list token (codes "aes-128") || eq_list token (codes "aes128")
    then some (aes128 ∷ [], false)
    else if eq_list token (codes "aes-192") || eq_list token (codes "aes192")
    then some (aes192 ∷ [], false)
    else if eq_list token (codes "aes-256") || eq_list token (codes "aes256")
    then some (aes256 ∷ [], false)
    else if eq_list token (codes "aes")
    then some (aes128 ∷ aes192 ∷ aes256 ∷ [], false)
    else if eq_list token (codes "chacha20") || eq_list token (codes "chacha")
    then some (chacha20 ∷ [], false)
    else if eq_list token (codes "xchacha20") || eq_list token (codes "xchacha")
    then some (xchacha20 ∷ [], false)
    else if eq_list token (codes "chacha20poly1305") || eq_list token (codes "chacha20-poly1305")
    then some (chacha20 ∷ [], true)
    else if eq_list token (codes "xchacha20poly1305") || eq_list token (codes "xchacha20-poly1305")
    then some (xchacha20 ∷ [], true)
    else if eq_list token (codes "des") && in_block
    then some (des ∷ [], false)
    else if (eq_list token (codes "3des")
          || eq_list token (codes "3des-ede3")
          || eq_list token (codes "tdes"))
        && in_block
    then some (tdes_ede3 ∷ [], false)
    else if eq_list token (codes "sm4") && in_block
    then some (sm4 ∷ [], false)
    else if eq_list token (codes "all") && in_block
    then some (all_choices, false)
    else none

-- The check against the mode of the tokens before.
abbrev pub agree_mode : Option CipherMode → CipherMode → Result ListError CipherMode
agree_mode none token_mode = ok token_mode
agree_mode (some mode) token_mode = if eq_mode mode token_mode then ok mode else err mixed_modes

abbrev pub or_unknown :
    Option (List CipherChoice × Bool) → Text → Result ListError (List CipherChoice × Bool)
or_unknown none token = err (unknown_cipher token)
or_unknown (some added) token = ok added

-- One round of the loop over the parts, on the list `out` and the `mode` so far.
unfoldable pub parse_part :
    Text
    → List CipherChoice × Option CipherMode
    → Result ListError (List CipherChoice × Option CipherMode)
parse_part part (out, mode) = do
  let (token, token_mode) = token_of (to_ascii_lowercase part)
  kept ← agree_mode mode token_mode
  (added, forces_gcm) ← or_unknown (token_ciphers token token_mode) token
  ok (out ++ added, some (if forces_gcm then gcm else kept))

unfoldable pub parse_parts :
    List Text
    → List CipherChoice × Option CipherMode
    → Result ListError (List CipherChoice × Option CipherMode)
parse_parts [] state = ok state
parse_parts (part ∷ parts) state =
    if is_empty part
    then parse_parts parts state
    else (do state' ← parse_part part state; parse_parts parts state')

-- `unwrap_or(CipherMode::Block)`.
abbrev pub or_block : Option CipherMode → CipherMode
or_block none = block
or_block (some mode) = mode

abbrev pub insert_choice : CipherChoice → List CipherChoice → List CipherChoice
insert_choice x [] = x ∷ []
insert_choice x (y ∷ ys) =
    if leb (choice_index x) (choice_index y) then x ∷ y ∷ ys else y ∷ insert_choice x ys

-- `sort()`.
abbrev pub sort : List CipherChoice → List CipherChoice
sort [] = []
sort (x ∷ xs) = insert_choice x (sort xs)

abbrev pub join_equal : CipherChoice → List CipherChoice → List CipherChoice
join_equal x [] = x ∷ []
join_equal x (y ∷ ys) = if eq_choice x y then y ∷ ys else x ∷ y ∷ ys

-- `dedup()`: of equal neighbours one is kept.
abbrev pub dedup : List CipherChoice → List CipherChoice
dedup [] = []
dedup (x ∷ xs) = join_equal x (dedup xs)

-- What `parse_list` does behind its loop.
unfoldable pub finish_list :
    List CipherChoice × Option CipherMode → Result ListError CipherSelection
finish_list (out, mode) = do
  fail_if (is_empty out) no_cipher
  fail_if (not (eq_mode (or_block mode) block) && any (λ c. not (is_aes c)) out) aes_only
  ok (record { ciphers = dedup (sort out); mode = or_block mode })

-- `split(',').map(str::trim)`.
abbrev pub trimmed_parts : Text → List Text
trimmed_parts spec = map trim (split b',' spec)

unfoldable pub parse_list : Text → Result ListError CipherSelection
unfolding finish_list
parse_list spec = do state ← parse_parts (trimmed_parts spec) ([], none); finish_list state
