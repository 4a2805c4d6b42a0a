-- ===== src/Engine/Scan/Hits.antt =====
-- What `scan` reports: the hits of the hunt of every cipher of the list.
use memhunt.Base.{err_ne_ok, none_ne_some, some_inj}
use memhunt.Base.{ℕ, ◌≡◌, sym, ap, ◌∙◌, subst, ◌⊎◌, inl, inr, arith}
use memhunt.Base.{Bytes, Bool, false, not, ◌&&◌, ◌||◌, ◌++◌, List, [], ◌∷◌, Memᴰ}
use memhunt.Base.{Option, none, some, is_empty, ltb}
use memhunt.Base.{Result, ok, Failure, Result-cases, Option-cases}
use memhunt.Base.{Bool-cases}
use mathlib.Core.List.Memᴰ
use memhunt.Report.{Hit, ScanResult}
use memhunt.Cipher.{Crates}
use memhunt.Oracle.{Oracle}
use memhunt.Engine.Choice.{gcm, CipherChoice, eq_mode}
use memhunt.Engine.Config.{ScanConfig, ScanError, is_some, validate_config}
use memhunt.Engine.Scan.{scan_choice, scan_loop, scan}

module _ (crates : Crates) (dump ciphertext : Bytes) (oracles : List Oracle)
    (config : ScanConfig) where
  abbrev choice_hits : CipherChoice → ℕ → Result (Failure ScanError) (Option (ℕ × List Hit))
  choice_hits = scan_choice crates dump ciphertext oracles config

  abbrev loop : List CipherChoice → ℕ × List Hit → Result (Failure ScanError) (ℕ × List Hit)
  loop = scan_loop crates dump ciphertext oracles config

  -- One round of the loop that does not fail, with no limit on the hits.
  scan_loop_round :
      (choice : CipherChoice) (choices : List CipherChoice) (state result : ℕ × List Hit)
      → config.max_hits ≡ 0
      → loop (choice ∷ choices) state ≡ ok result
      → ((choice_hits choice state.0 ≡ ok none) × (loop choices state ≡ ok result))
        ⊎ ((found : ℕ × List Hit) × (choice_hits choice state.0 ≡ ok (some found))
            × (loop choices (found.0, state.1 ++ found.1) ≡ ok result))
  unfolding scan_loop
  scan_loop_round choice choices (tried, hits) result unlimited e =
      let off : ltb 0 config.max_hits ≡ false = ground arith in
      elim (Result-cases (choice_hits choice tried)) [
        | inr (why, failed) ↦ absurd (err_ne_ok (rw failed at e))
        | inl (answer, found) ↦ elim (Option-cases answer) [
          | inl skipped ↦
              let here : choice_hits choice tried ≡ ok none = found ∙ ap ok skipped in
              inl (here, rw here at e)
          | inr (new, some_new) ↦
              let here : choice_hits choice tried ≡ ok (some new) = found ∙ ap ok some_new in
              inr (new, here, rw (here, off) at e)
        ]
      ]

  -- What the loop had found before stays in the result.
  scan_loop_keeps :
      (choices : List CipherChoice) (state result : ℕ × List Hit) (hit : Hit)
      → config.max_hits ≡ 0
      → loop choices state ≡ ok result
      → Memᴰ hit state.1
      → Memᴰ hit result.1
  scan_loop_keeps [] state result hit unlimited e m =
      subst (Memᴰ hit) (same (unfold scan_loop in e)) m
    where
      same :
          ◌≡◌ {A = Result (Failure ScanError) (ℕ × List Hit)} (ok state) (ok result)
          → state.1 ≡ result.1
      same h = cc
  scan_loop_keeps (choice ∷ choices) state result hit unlimited e m =
      elim (scan_loop_round choice choices state result unlimited e) [
        | inl (skipped, rest) ↦ scan_loop_keeps choices state result hit unlimited rest m
        | inr (found, here, rest) ↦
            scan_loop_keeps choices (found.0, state.1 ++ found.1) result hit unlimited rest
              (Memᴰ.append_left _ m)
      ]

  -- The hits of each cipher of the list are in the result.
  pub scan_loop_collects :
      (choices : List CipherChoice) (state result : ℕ × List Hit) (choice : CipherChoice)
      → config.max_hits ≡ 0
      → loop choices state ≡ ok result
      → Memᴰ choice choices
      → (tried : ℕ) × (answer : Option (ℕ × List Hit)) × (choice_hits choice tried ≡ ok answer)
        × ((found : ℕ × List Hit) (hit : Hit)
            → answer ≡ some found
            → Memᴰ hit found.1
            → Memᴰ hit result.1)
  scan_loop_collects [] state result choice unlimited e m = absurd (Memᴰ.not-nil m)
  scan_loop_collects (first ∷ choices) state result choice unlimited e m =
      elim (scan_loop_round first choices state result unlimited e) [
        | inl (skipped, rest) ↦ elim (Memᴰ.cases_cons m) [
          | inl same ↦ (
            state.0,
            none,
            subst (λ c. choice_hits c state.0 ≡ ok none) (sym same) skipped,
            λ found hit h k. absurd (none_ne_some h),
          )
          | inr later ↦ scan_loop_collects choices state result choice unlimited rest later
        ]
        | inr (new, here, rest) ↦ elim (Memᴰ.cases_cons m) [
          | inl same ↦ (
            state.0,
            some new,
            subst (λ c. choice_hits c state.0 ≡ ok (some new)) (sym same) here,
            λ found hit h k.
                scan_loop_keeps choices (new.0, state.1 ++ new.1) result hit unlimited rest
                  (Memᴰ.append_right state.1 (subst (λ p. Memᴰ hit p.1) (sym (some_inj h)) k)),
          )
          | inr later ↦
              scan_loop_collects choices (new.0, state.1 ++ new.1) result choice unlimited rest
                later
        ]
      ]

  -- A search that returns a result went through its loop.
  pub scan_result :
      (r : ScanResult)
      → scan crates dump ciphertext oracles config ≡ ok r
      → (tried : ℕ) × (loop config.ciphers (0, []) ≡ ok (tried, r.hits))
  unfolding scan
  scan_result r e = elim (Result-cases (validate_config config)) [
    | inr (why, invalid) ↦ absurd (err_ne_ok (rw invalid at e))
    | inl (u, valid) ↦ elim (Bool-cases no_test) [
      | inl none_given ↦ absurd (err_ne_ok (rw (valid, none_given) at e))
      | inr given ↦ elim (Result-cases (loop config.ciphers (0, []))) [
        | inr (why, failed) ↦ absurd (err_ne_ok (rw (valid, given, failed) at e))
        | inl (result, found) ↦ (
          result.0,
          found ∙ ap (λ hits. ok (result.0, hits)) (same (rw (valid, given, found) at e)),
        )
      ]
    ]
  ]
    where
      no_test : Bool
      no_test = (not (eq_mode config.mode gcm) || not (is_some config.tag)) && is_empty oracles

      same :
          {q : ScanResult}
          → ◌≡◌ {A = Result (Failure ScanError) ScanResult} (ok q) (ok r)
          → q.hits ≡ r.hits
      same h = cc
