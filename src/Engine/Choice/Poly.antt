-- ===== src/Engine/Choice/Poly.antt =====
-- The tokens of `parse_list` that stand for an AEAD of the ChaCha family.
use memhunt.Base.{err_ne_ok}
use memhunt.Base.{ℕ, ◌≡◌, ◌≢◌, refl, sym, ap, ◌∙◌, subst, inl, inr}
use memhunt.Base.{Text, codes, Bool, true, false, not, List, [], ◌∷◌, ◌++◌, Memᴰ}
use memhunt.Base.{none, some, any, is_empty, if◌then◌else◌, Bool-cases}
use memhunt.Base.{Result, ok, Result-cases}
use memhunt.Base.{to_ascii_lowercase, strip_suffix}
use mathlib.Core.List.Memᴰ
use memhunt.Engine.Choice.{CipherMode, block, ctr, gcm, CipherChoice, is_aes, eq_mode, or_block}
use memhunt.Engine.Choice.{CipherSelection, ListError, token_of, token_ciphers, agree_mode}
use memhunt.Engine.Choice.{or_unknown, parse_part, parse_parts, finish_list, parse_list}
use memhunt.Engine.Choice.{trimmed_parts, chacha20, xchacha20}
use memhunt.Engine.Choice.Rounds.{State, parse_part_round, parse_parts_round}

abbrev pub poly1305_tokens : List Text
poly1305_tokens =
    codes "chacha20-poly1305"
    ∷ codes "chacha20poly1305"
    ∷ codes "xchacha20-poly1305"
    ∷ codes "xchacha20poly1305"
    ∷ []

-- A list that `parse_list` refuses in the end: the mode is GCM, and not all ciphers are AES.
pub record IsDoomed (state : State) : Type 0 where
  pub in_gcm : state.1 ≡ some gcm
  pub not_aes : any (λ c. not (is_aes c)) state.0 ≡ true

any-append :
    (test : CipherChoice → Bool) (xs ys : List CipherChoice)
    → any test xs ≡ true
    → any test (xs ++ ys) ≡ true
any-append test [] ys h = cc
any-append test (x ∷ xs) ys h = elim (Bool-cases (test x)) [
  | inl here ↦ rw here refl
  | inr skipped ↦ rw skipped (any-append test xs ys (rw skipped at h))
]

any_at_end :
    (test : CipherChoice → Bool) (xs : List CipherChoice) (y : CipherChoice)
    → test y ≡ true
    → any test (xs ++ y ∷ []) ≡ true
any_at_end test [] y h = rw h refl
any_at_end test (x ∷ xs) y h = elim (Bool-cases (test x)) [
  | inl here ↦ rw here refl
  | inr skipped ↦ rw skipped (any_at_end test xs y h)
]

agree_gcm : (token_mode kept : CipherMode) → agree_mode (some gcm) token_mode ≡ ok kept → kept ≡ gcm
agree_gcm block kept h = cc
agree_gcm ctr kept h = cc
agree_gcm gcm kept h = cc

parse_part-IsDoomed :
    (part : Text) (state result : State)
    → IsDoomed state
    → parse_part part state ≡ ok result
    → IsDoomed result
parse_part-IsDoomed part (out, mode) result d e =
    let (kept, added, forces, agreed, known, outs, modes) =
      parse_part_round part (out, mode) result e in
    record {
      in_gcm =
          sym modes
          ∙ ap some (
              forced forces kept (
                agree_gcm (token_of (to_ascii_lowercase part)).1 kept (
                  subst (λ m. agree_mode m (token_of (to_ascii_lowercase part)).1 ≡ ok kept)
                    d.in_gcm agreed)));
      not_aes =
          subst (λ o. any (λ c. not (is_aes c)) o ≡ true) outs
            (any-append (λ c. not (is_aes c)) out added d.not_aes);
    }
  where
    forced : (forces : Bool) (kept : CipherMode) → kept ≡ gcm → (if forces then gcm else kept) ≡ gcm
    forced true kept h = refl
    forced false kept h = h

abbrev answer : Text → Result ListError (List CipherChoice × Bool)
answer lower = or_unknown (token_ciphers (token_of lower).0 (token_of lower).1) (token_of lower).0

forces_gcm :
    (lower : Text)
    → Memᴰ lower poly1305_tokens
    → (choice : CipherChoice) × (is_aes choice ≡ false) × (answer lower ≡ ok (choice ∷ [], true))
unfolding token_of token_ciphers strip_suffix
forces_gcm lower m = elim (Memᴰ.cases_cons m) [
  | inl e ↦ (chacha20, refl, ap answer e)
  | inr m2 ↦ elim (Memᴰ.cases_cons m2) [
    | inl e ↦ (chacha20, refl, ap answer e)
    | inr m3 ↦ elim (Memᴰ.cases_cons m3) [
      | inl e ↦ (xchacha20, refl, ap answer e)
      | inr m4 ↦ (xchacha20, refl, ap answer (Memᴰ.eq_of_singleton m4))
    ]
  ]
]

poly_dooms :
    (part : Text) (state result : State)
    → Memᴰ (to_ascii_lowercase part) poly1305_tokens
    → parse_part part state ≡ ok result
    → IsDoomed result
poly_dooms part (out, mode) result m e =
    let (kept, added, forces, agreed, known, outs, modes) =
      parse_part_round part (out, mode) result e in
    let (choice, other, here) = forces_gcm (to_ascii_lowercase part) m in
    let same = sym known ∙ here in
    record {
      in_gcm = sym modes ∙ ap (λ f. some (if f then gcm else kept)) (forces_same same);
      not_aes =
          subst (λ o. any (λ c. not (is_aes c)) o ≡ true)
            (ap (λ a. out ++ a) (sym (added_same same)) ∙ outs)
            (any_at_end (λ c. not (is_aes c)) out choice (ap not other));
    }
  where
    forces_same :
        {a b : List CipherChoice} {f g : Bool}
        → ◌≡◌ {A = Result ListError (List CipherChoice × Bool)} (ok (a, f)) (ok (b, g))
        → f ≡ g
    forces_same h = cc

    added_same :
        {a b : List CipherChoice} {f g : Bool}
        → ◌≡◌ {A = Result ListError (List CipherChoice × Bool)} (ok (a, f)) (ok (b, g))
        → a ≡ b
    added_same h = cc

pub parse_parts-IsDoomed :
    (parts : List Text) (state result : State)
    → IsDoomed state
    → parse_parts parts state ≡ ok result
    → IsDoomed result
parse_parts-IsDoomed [] state result d e = subst IsDoomed (same (unfold parse_parts in e)) d
  where
    same : ◌≡◌ {A = Result ListError State} (ok state) (ok result) → state ≡ result
    same h = cc
parse_parts-IsDoomed (part ∷ parts) state result d e =
    elim (parse_parts_round part parts state result e) [
      | inl (empty, rest) ↦ parse_parts-IsDoomed parts state result d rest
      | inr (next, parsed, rest) ↦
          parse_parts-IsDoomed parts next result (parse_part-IsDoomed part state next d parsed) rest
    ]

not_empty :
    (part : Text) → Memᴰ (to_ascii_lowercase part) poly1305_tokens → is_empty part ≡ true → ⊥
unfolding to_ascii_lowercase
not_empty [] m h = elim (Memᴰ.cases_cons m) [
  | inl e ↦ nil_ne_cons e
  | inr m2 ↦ elim (Memᴰ.cases_cons m2) [
    | inl e ↦ nil_ne_cons e
    | inr m3 ↦ elim (Memᴰ.cases_cons m3) [
      | inl e ↦ nil_ne_cons e
      | inr m4 ↦ nil_ne_cons (Memᴰ.eq_of_singleton m4)
    ]
  ]
]
  where
    nil_ne_cons : {c : ℕ} {t : Text} → [] ≡ c ∷ t → ⊥
    nil_ne_cons e = cc
not_empty (c ∷ part) m h = cc

poly_parts :
    (parts : List Text) (state result : State) (part : Text)
    → Memᴰ part parts
    → Memᴰ (to_ascii_lowercase part) poly1305_tokens
    → parse_parts parts state ≡ ok result
    → IsDoomed result
poly_parts [] state result part m t e = absurd (Memᴰ.not-nil m)
poly_parts (first ∷ parts) state result part m t e =
    elim (parse_parts_round first parts state result e) [
      | inl (empty, rest) ↦ elim (Memᴰ.cases_cons m) [
        | inl same ↦ absurd (not_empty part t (subst (λ p. is_empty p ≡ true) (sym same) empty))
        | inr later ↦ poly_parts parts state result part later t rest
      ]
      | inr (next, parsed, rest) ↦ elim (Memᴰ.cases_cons m) [
        | inl same ↦
            parse_parts-IsDoomed parts next result
              (poly_dooms first state next
                (subst (λ p. Memᴰ (to_ascii_lowercase p) poly1305_tokens) same t) parsed)
              rest
        | inr later ↦ poly_parts parts next result part later t rest
      ]
    ]

-- A list with one of the tokens `chacha20-poly1305` and `xchacha20-poly1305`, in any case and with
-- or without the dash, is never accepted, whatever else it holds.
pub poly1305_refused :
    (spec part : Text) (selection : CipherSelection)
    → Memᴰ part (trimmed_parts spec)
    → Memᴰ (to_ascii_lowercase part) poly1305_tokens
    → parse_list spec ≢ ok selection
unfolding parse_list finish_list
poly1305_refused spec part selection m t e =
    elim (Result-cases (parse_parts (trimmed_parts spec) ([], none))) [
      | inr (why, failed) ↦ err_ne_ok (rw failed at e)
      | inl ((out, mode), parsed) ↦
          let d = poly_parts (trimmed_parts spec) ([], none) (out, mode) part m t parsed in
          let wrong_mode : not (eq_mode (or_block mode) block) ≡ true =
            ap (λ x. not (eq_mode (or_block x) block)) d.in_gcm in
          elim (Bool-cases (is_empty out)) [
            | inl none_listed ↦ err_ne_ok (rw (parsed, none_listed) at e)
            | inr some_listed ↦ err_ne_ok (rw (parsed, some_listed, wrong_mode, d.not_aes) at e)
          ]
    ]
