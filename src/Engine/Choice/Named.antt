-- ===== src/Engine/Choice/Named.antt =====
-- The parts of a list that `parse_list` accepts: each names ciphers, and all have the same mode.
use memhunt.Base.{◌≡◌, refl, sym, ap, ◌∙◌, subst, inl, inr, arith}
use memhunt.Base.{Text, Bool, true, false, not, List, [], ◌∷◌, ◌++◌, Memᴰ}
use memhunt.Base.{Option, none, some, any, is_empty, Bool-cases, if◌then◌else◌}
use memhunt.Base.{ok, err_ne_ok, to_ascii_lowercase}
use memhunt.Engine.Choice.{CipherMode, block, ctr, gcm, CipherChoice, is_aes}
use memhunt.Engine.Choice.{token_of, token_ciphers, agree_mode, or_unknown}
use memhunt.Engine.Choice.{parse_part}
use memhunt.Engine.Choice.Rounds.{State, parse_part_round}
use memhunt.Engine.Choice.Poly.{IsDoomed}

-- The mode that the suffix of a part selects.
abbrev pub mode_of : Text → CipherMode
mode_of part = (token_of (to_ascii_lowercase part)).1

-- The token of the part names these ciphers, and does not force a mode.
abbrev pub NamesCiphers : Text → List CipherChoice → Type 0
NamesCiphers part added =
    token_ciphers (token_of (to_ascii_lowercase part)).0 (mode_of part) ≡ some (added, false)

-- Some part of the list that is not empty names the cipher.
abbrev pub NamedBy : List Text → CipherChoice → Type 0
NamedBy parts z =
    (part : Text) × Memᴰ part parts
    × (is_empty part ≡ false)
    × ((added : List CipherChoice) × NamesCiphers part added × Memᴰ z added)

any-append_right :
    (test : CipherChoice → Bool) (xs ys : List CipherChoice)
    → any test ys ≡ true
    → any test (xs ++ ys) ≡ true
any-append_right test [] ys h = h
any-append_right test (x ∷ xs) ys h = elim (Bool-cases (test x)) [
  | inl here ↦ rw here refl
  | inr skipped ↦ rw skipped (any-append_right test xs ys h)
]

-- A token that forces GCM names a cipher that is not AES.
forced_not_aes :
    (token : Text) (mode : CipherMode) (added : List CipherChoice)
    → token_ciphers token mode ≡ some (added, true)
    → any (λ c. not (is_aes c)) added ≡ true
unfolding token_ciphers
forced_not_aes token mode added h = ground arith

known_token :
    (o : Option (List CipherChoice × Bool)) (token : Text) (r : List CipherChoice × Bool)
    → or_unknown o token ≡ ok r
    → o ≡ some r
known_token none token r h = absurd (err_ne_ok h)
known_token (some a) token r h = cc

agreed_mode :
    (o : Option CipherMode) (m kept : CipherMode)
    → agree_mode o m ≡ ok kept
    → (kept ≡ m) × ((before : CipherMode) → o ≡ some before → before ≡ m)
agreed_mode none m kept h = (cc, λ before e. cc)
agreed_mode (some block) block kept h = (cc, λ before e. cc)
agreed_mode (some block) ctr kept h = absurd (err_ne_ok h)
agreed_mode (some block) gcm kept h = absurd (err_ne_ok h)
agreed_mode (some ctr) block kept h = absurd (err_ne_ok h)
agreed_mode (some ctr) ctr kept h = (cc, λ before e. cc)
agreed_mode (some ctr) gcm kept h = absurd (err_ne_ok h)
agreed_mode (some gcm) block kept h = absurd (err_ne_ok h)
agreed_mode (some gcm) ctr kept h = absurd (err_ne_ok h)
agreed_mode (some gcm) gcm kept h = (cc, λ before e. cc)

-- What a round adds, if the list is not refused in the end.
pub record IsFair (part : Text) (state next : State) : Type 0 where
  pub added : List CipherChoice
  pub names : NamesCiphers part added
  pub grows : state.0 ++ added ≡ next.0
  pub mode_after : next.1 ≡ some (mode_of part)
  pub mode_before : (m : CipherMode) → state.1 ≡ some m → m ≡ mode_of part

pub parse_part-IsFair :
    (part : Text) (state next : State)
    → parse_part part state ≡ ok next
    → (IsDoomed next → ⊥)
    → IsFair part state next
parse_part-IsFair part state next e fair =
    let (kept, added, forces, agreed, known, outs, modes) = parse_part_round part state next e in
    let token = known_token _ _ _ known in
    let (same, before) = agreed_mode state.1 (mode_of part) kept agreed in
    by_force kept added forces token outs modes same before
  where
    by_force :
        (kept : CipherMode) (added : List CipherChoice) (forces : Bool)
        → token_ciphers (token_of (to_ascii_lowercase part)).0 (mode_of part) ≡ some (added, forces)
        → state.0 ++ added ≡ next.0
        → some (if forces then gcm else kept) ≡ next.1
        → kept ≡ mode_of part
        → ((m : CipherMode) → state.1 ≡ some m → m ≡ mode_of part)
        → IsFair part state next
    by_force kept added true token outs modes same before = absurd (
        fair (record {
          in_gcm = sym modes;
          not_aes =
              subst (λ out. any (λ c. not (is_aes c)) out ≡ true) outs
                (any-append_right _ state.0 added (forced_not_aes _ _ added token));
        }))
    by_force kept added false token outs modes same before = record {
      added = added;
      names = token;
      grows = outs;
      mode_after = sym modes ∙ ap some same;
      mode_before = before;
    }
