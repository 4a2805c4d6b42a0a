-- ===== src/Engine/Choice/Agreed.antt =====
-- The loop over the parts of a list that `parse_list` accepts.
use memhunt.Base.{◌≡◌, ◌⊎◌, ◌↔◌, refl, sym, ap, ◌∙◌, subst, inl, inr}
use memhunt.Base.{Text, Bool, true, false, List, [], ◌∷◌, Memᴰ}
use memhunt.Base.{Option, some, is_empty, Bool-cases}
use memhunt.Base.{Result, ok}
use mathlib.Core.List.Memᴰ
use memhunt.Engine.Choice.{CipherMode, CipherChoice}
use memhunt.Engine.Choice.{ListError}
use memhunt.Engine.Choice.{parse_parts}
use memhunt.Engine.Choice.Rounds.{State, parse_parts_round}
use memhunt.Engine.Choice.Poly.{IsDoomed, parse_parts-IsDoomed}
use memhunt.Engine.Choice.Named.{mode_of, NamesCiphers, NamedBy, IsFair, parse_part-IsFair}

-- What the parts add, and the mode that they agree on.
pub record AllFair (parts : List Text) (state result : State) : Type 0 where
  pub one_mode :
      (part : Text)
      → Memᴰ part parts
      → is_empty part ≡ false
      → (result.1 ≡ some (mode_of part)) × ((added : List CipherChoice) × NamesCiphers part added)
  pub kept_mode : (m : CipherMode) → state.1 ≡ some m → result.1 ≡ some m
  pub ciphers : (z : CipherChoice) → Memᴰ z result.0 ↔ (Memᴰ z state.0 ⊎ NamedBy parts z)

later_name :
    (first : Text) (parts : List Text) (z : CipherChoice)
    → NamedBy parts z
    → NamedBy (first ∷ parts) z
later_name first parts z (part, m, full, names) = (part, Memᴰ.tail m, full, names)

skip-AllFair :
    (first : Text) (parts : List Text) (state result : State)
    → is_empty first ≡ true
    → AllFair parts state result
    → AllFair (first ∷ parts) state result
skip-AllFair first parts state result empty all = record {
  one_mode = λ part m full. elim (Memᴰ.cases_cons m) [
    | inl same ↦ absurd (true_ne_false (sym empty ∙ sym (ap is_empty same) ∙ full))
    | inr later ↦ all.one_mode part later full
  ];
  kept_mode = all.kept_mode;
  ciphers = λ z. (
    λ m. elim ((all.ciphers z).0 m) [
      | inl old ↦ inl old
      | inr named ↦ inr (later_name first parts z named)
    ],
    λ h. elim h [
      | inl old ↦ (all.ciphers z).1 (inl old)
      | inr (part, m, full, names) ↦ elim (Memᴰ.cases_cons m) [
        | inl same ↦ absurd (true_ne_false (sym empty ∙ sym (ap is_empty same) ∙ full))
        | inr later ↦ (all.ciphers z).1 (inr (part, later, full, names))
      ]
    ],
  );
}
  where
    true_ne_false : true ≡ false → ⊥
    true_ne_false e = cc

same_added :
    (part : Text) (xs ys : List CipherChoice)
    → NamesCiphers part xs
    → NamesCiphers part ys
    → xs ≡ ys
same_added part xs ys h g = same (sym h ∙ g)
  where
    same :
        {a b : List CipherChoice}
        → ◌≡◌ {A = Option (List CipherChoice × Bool)} (some (a, false)) (some (b, false))
        → a ≡ b
    same e = cc

round-AllFair :
    (first : Text) (parts : List Text) (state next result : State)
    → is_empty first ≡ false
    → IsFair first state next
    → AllFair parts next result
    → AllFair (first ∷ parts) state result
round-AllFair first parts state next result some_text fair all = record {
  one_mode = λ part m full. elim (Memᴰ.cases_cons m) [
    | inl same ↦
        subst
          (λ p.
            (result.1 ≡ some (mode_of p)) × ((added : List CipherChoice) × NamesCiphers p added))
          (sym same) (all.kept_mode (mode_of first) fair.mode_after, (fair.added, fair.names))
    | inr later ↦ all.one_mode part later full
  ];
  kept_mode = λ m e. all.kept_mode m (fair.mode_after ∙ ap some (sym (fair.mode_before m e)));
  ciphers = λ z. (
    λ m. elim ((all.ciphers z).0 m) [
      | inl old ↦ elim (Memᴰ.append_cases state.0 (subst (Memᴰ z) (sym fair.grows) old)) [
        | inl older ↦ inl older
        | inr new ↦ inr (first, Memᴰ.head refl, some_text, (fair.added, fair.names, new))
      ]
      | inr named ↦ inr (later_name first parts z named)
    ],
    λ h. elim h [
      | inl old ↦ (all.ciphers z).1 (inl (subst (Memᴰ z) fair.grows (Memᴰ.append_left _ old)))
      | inr (part, m, full, (added, names, at)) ↦ elim (Memᴰ.cases_cons m) [
        | inl same ↦
            let here : added ≡ fair.added =
              same_added first added fair.added (subst (λ p. NamesCiphers p added) same names)
                fair.names in
            (all.ciphers z).1
              (inl (subst (Memᴰ z) fair.grows (Memᴰ.append_right state.0 (subst (Memᴰ z) here at))))
        | inr later ↦ (all.ciphers z).1 (inr (part, later, full, (added, names, at)))
      ]
    ],
  );
}

skipped :
    (first : Text) (parts : List Text) (state result : State)
    → is_empty first ≡ true
    → parse_parts (first ∷ parts) state ≡ ok result
    → parse_parts parts state ≡ ok result
unfolding parse_parts
skipped first parts state result empty e = rw empty at e

pub parse_parts-AllFair :
    (parts : List Text) (state result : State)
    → parse_parts parts state ≡ ok result
    → (IsDoomed result → ⊥)
    → AllFair parts state result
parse_parts-AllFair [] state result e fair =
    subst (AllFair [] state) (same (unfold parse_parts in e)) (record {
      one_mode = λ part m full. absurd (Memᴰ.not-nil m);
      kept_mode = λ m h. h;
      ciphers = λ z. (
        inl,
        λ h. elim h [ inl old ↦ old | inr (part, m, full, names) ↦ absurd (Memᴰ.not-nil m) ],
      );
    })
  where
    same : ◌≡◌ {A = Result ListError State} (ok state) (ok result) → state ≡ result
    same h = cc
parse_parts-AllFair (first ∷ parts) state result e fair =
    elim (parse_parts_round first parts state result e) [
      | inl (empty, rest) ↦
          skip-AllFair first parts state result empty
            (parse_parts-AllFair parts state result rest fair)
      | inr (next, parsed, rest) ↦ elim (Bool-cases (is_empty first)) [
        | inl empty ↦
            skip-AllFair first parts state result empty (
              parse_parts-AllFair parts state result (skipped first parts state result empty e)
                fair)
        | inr full ↦
            round-AllFair first parts state next result full
              (parse_part-IsFair first state next parsed
                (λ d. fair (parse_parts-IsDoomed parts next result d rest)))
              (parse_parts-AllFair parts next result rest fair)
      ]
    ]
