-- ===== src/Engine/Choice/Lists.antt =====
-- What `parse_list` gives.
use memhunt.Base.{err_ne_ok}
use memhunt.Base.{◌≡◌, ◌≢◌, refl, sym, ap, ap₂, ◌∙◌, inl, inr, ◌∷◌, true, Bool}
use mathlib.Core.List.Memᴰ
use memhunt.Engine.Choice.{ctr, gcm}
use memhunt.Engine.Choice.Poly.{IsDoomed}
use memhunt.Engine.Choice.Named.{mode_of, NamesCiphers, NamedBy}
use memhunt.Engine.Choice.Agreed.{AllFair, parse_parts-AllFair}
use memhunt.Base.{Memᴰ, ◌↔◌, subst}
use memhunt.Base.{Text, false, not, ◌&&◌, List, []}
use memhunt.Base.{Option, none, any, is_empty, Bool-cases}
use memhunt.Base.{Result, ok, Result-cases}
use memhunt.Engine.Choice.{CipherMode, block, CipherChoice}
use memhunt.Engine.Choice.{is_aes, eq_mode, or_block, sort, dedup}
use memhunt.Engine.Choice.{CipherSelection, ListError, finish_list, parse_parts, parse_list}
use memhunt.Engine.Choice.{trimmed_parts}
use memhunt.Engine.Choice.Sorting.{Ascending, dedup-Ascending, sort-Sorted, sort_iff, dedup_iff}

-- The mode is the one that each part selects. The ciphers are those that the parts name, each once
-- and in the order of the enum; there is one at least, and in CTR and GCM mode all are AES. No part
-- has an unknown token or one that forces the mode.
pub record IsSelection (spec : Text) (selection : CipherSelection) : Type 0 where
  pub one_mode :
      (part : Text)
      → Memᴰ part (trimmed_parts spec)
      → is_empty part ≡ false
      → (selection.mode ≡ mode_of part) × ((added : List CipherChoice) × NamesCiphers part added)
  pub named : (z : CipherChoice) → Memᴰ z selection.ciphers ↔ NamedBy (trimmed_parts spec) z
  pub ascending : Ascending selection.ciphers
  pub some_cipher : (z : CipherChoice) × Memᴰ z selection.ciphers
  pub aes_in_stream_modes :
      (z : CipherChoice) → selection.mode ≢ block → Memᴰ z selection.ciphers → is_aes z ≡ true

-- What the checks behind the loop leave open.
module _ (spec : Text) (out : List CipherChoice) (mode : Option CipherMode)
    (parsed : parse_parts (trimmed_parts spec) ([], none) ≡ ok (out, mode))
    (some_listed : is_empty out ≡ false)
    (accepted : not (eq_mode (or_block mode) block) && any (λ c. not (is_aes c)) out ≡ false) where
  not_doomed : IsDoomed (out, mode) → ⊥
  not_doomed d =
      false_ne_true
        (sym accepted ∙ ap₂ (λ m b. not (eq_mode (or_block m) block) && b) d.in_gcm d.not_aes)
    where
      false_ne_true : false ≡ true → ⊥
      false_ne_true e = cc

  all_fair : AllFair (trimmed_parts spec) ([], none) (out, mode)
  all_fair = parse_parts-AllFair (trimmed_parts spec) ([], none) (out, mode) parsed not_doomed

  sorted_iff : (z : CipherChoice) → Memᴰ z (dedup (sort out)) ↔ Memᴰ z out
  sorted_iff z = (
    (λ m. (sort_iff z out).0 ((dedup_iff z (sort out)).0 m)),
    (λ m. (dedup_iff z (sort out)).1 ((sort_iff z out).1 m)),
  )

  all_aes :
      (z : CipherChoice) (xs : List CipherChoice)
      → any (λ c. not (is_aes c)) xs ≡ false
      → Memᴰ z xs
      → is_aes z ≡ true
  all_aes z [] h m = absurd (Memᴰ.not-nil m)
  all_aes z (x ∷ xs) h m = elim (Bool-cases (is_aes x)) [
    | inl aes ↦ elim (Memᴰ.cases_cons m) [
      | inl same ↦ ap is_aes same ∙ aes
      | inr later ↦ all_aes z xs (rw aes at h) later
    ]
    | inr other ↦ cc
  ]

  stream_mode :
      (m : CipherMode) (b : Bool) → not (eq_mode m block) && b ≡ false → m ≢ block → b ≡ false
  stream_mode block b h other = absurd (other refl)
  stream_mode ctr b h other = h
  stream_mode gcm b h other = h

  listed : (xs : List CipherChoice) → is_empty xs ≡ false → (z : CipherChoice) × Memᴰ z xs
  listed [] h = cc
  listed (x ∷ xs) h = (x, Memᴰ.head refl)

  accepted-IsSelection :
      IsSelection spec (record { ciphers = dedup (sort out); mode = or_block mode })
  accepted-IsSelection =
      let (first, at) = listed out some_listed in
      record {
        one_mode = λ part m full.
            let (same, names) = all_fair.one_mode part m full in (ap or_block same, names);
        named = λ z. (
          λ m. elim ((all_fair.ciphers z).0 ((sorted_iff z).0 m)) [
            | inl none_before ↦ absurd (Memᴰ.not-nil none_before)
            | inr named ↦ named
          ],
          λ named. (sorted_iff z).1 ((all_fair.ciphers z).1 (inr named)),
        );
        ascending = dedup-Ascending (sort out) (sort-Sorted out);
        some_cipher = (first, (sorted_iff first).1 at);
        aes_in_stream_modes = λ z other m.
            all_aes z out (stream_mode (or_block mode) _ accepted other) ((sorted_iff z).0 m);
      }

-- In a list that `parse_list` accepts each part that is not empty names known ciphers and selects the
-- mode of the selection. The ciphers of the selection are exactly those that the parts name, each
-- once and in the order of the enum; there is one at least, and in CTR and GCM mode all are AES.
pub parse_list-IsSelection :
    (spec : Text) (selection : CipherSelection)
    → parse_list spec ≡ ok selection
    → IsSelection spec selection
unfolding parse_list finish_list
parse_list-IsSelection spec selection e =
    elim (Result-cases (parse_parts (trimmed_parts spec) ([], none))) [
      | inr (why, failed) ↦ absurd (err_ne_ok (rw failed at e))
      | inl ((out, mode), parsed) ↦ elim (Bool-cases (is_empty out)) [
        | inl none_listed ↦ absurd (err_ne_ok (rw (parsed, none_listed) at e))
        | inr some_listed ↦
            elim (Bool-cases
              (not (eq_mode (or_block mode) block) && any (λ c. not (is_aes c)) out)) [
                | inl refused ↦ absurd (err_ne_ok (rw (parsed, some_listed, refused) at e))
                | inr accepted ↦
                    subst (IsSelection spec) (same (rw (parsed, some_listed, accepted) at e))
                      (accepted-IsSelection spec out mode parsed some_listed accepted)
              ]
      ]
    ]
  where
    same :
        {q : CipherSelection}
        → ◌≡◌ {A = Result ListError CipherSelection} (ok q) (ok selection)
        → q ≡ selection
    same h = cc
