-- ===== src/Engine/Choice/Rounds.antt =====
-- The rounds of `parse_list` that do not fail.
use memhunt.Base.{err_ne_ok}
use memhunt.Base.{◌⊎◌, ◌≡◌, inl, inr}
use memhunt.Base.{Text, Bool, true, List, ◌∷◌, ◌++◌}
use memhunt.Base.{Option, some, is_empty, if◌then◌else◌, Bool-cases}
use memhunt.Base.{Result, ok, Result-cases}
use memhunt.Base.{to_ascii_lowercase}
use memhunt.Engine.Choice.{CipherMode, gcm, CipherChoice}
use memhunt.Engine.Choice.{ListError, token_of, token_ciphers, agree_mode}
use memhunt.Engine.Choice.{or_unknown, parse_part, parse_parts}

abbrev pub State : Type 0
State = List CipherChoice × Option CipherMode

-- The parts of a round that does not fail.
pub parse_part_round :
    (part : Text) (state result : State)
    → parse_part part state ≡ ok result
    → (kept : CipherMode) × (added : List CipherChoice) × (forces : Bool) × (agree_mode state.1
          (token_of (to_ascii_lowercase part)).1
        ≡ ok kept)
      × (or_unknown
            (token_ciphers
              (token_of (to_ascii_lowercase part)).0
              (token_of (to_ascii_lowercase part)).1)
            (token_of (to_ascii_lowercase part)).0
          ≡ ok (added, forces))
      × (state.0 ++ added ≡ result.0)
      × (some (if forces then gcm else kept) ≡ result.1)
unfolding parse_part
parse_part_round part (out, mode) result e = elim (Result-cases (agree_mode mode token.1)) [
  | inr (why, mixed) ↦ absurd (err_ne_ok (rw mixed at e))
  | inl (kept, agreed) ↦ elim (Result-cases (or_unknown (token_ciphers token.0 token.1) token.0)) [
    | inr (why, unknown) ↦ absurd (err_ne_ok (rw (agreed, unknown) at e))
    | inl ((added, forces), known) ↦
        let same = rw (agreed, known) at e in
        (kept, added, forces, agreed, known, outs same, modes same)
  ]
]
  where
    token : Text × CipherMode
    token = token_of (to_ascii_lowercase part)

    outs : {s : State} → ◌≡◌ {A = Result ListError State} (ok s) (ok result) → s.0 ≡ result.0
    outs h = cc

    modes : {s : State} → ◌≡◌ {A = Result ListError State} (ok s) (ok result) → s.1 ≡ result.1
    modes h = cc

pub parse_parts_round :
    (part : Text) (parts : List Text) (state result : State)
    → parse_parts (part ∷ parts) state ≡ ok result
    → ((is_empty part ≡ true) × (parse_parts parts state ≡ ok result))
      ⊎ ((next : State) × (parse_part part state ≡ ok next) × (parse_parts parts next ≡ ok result))
unfolding parse_parts
parse_parts_round part parts state result e = elim (Bool-cases (is_empty part)) [
  | inl empty ↦ inl (empty, rw empty at e)
  | inr full ↦ elim (Result-cases (parse_part part state)) [
    | inr (why, failed) ↦ absurd (err_ne_ok (rw (full, failed) at e))
    | inl (next, parsed) ↦ inr (next, parsed, rw (full, parsed) at e)
  ]
]
