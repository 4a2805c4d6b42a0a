-- ===== src/Engine/Scan/Limits.antt =====
-- `scan` under a limit on the hits.
use memhunt.Base.{err_ne_ok}
use memhunt.Base.{ℕ, ◌≤◌, ◌<◌, ◌≡◌, inl, inr, arith}
use memhunt.Base.{Bytes, true, ◌++◌, List, [], ◌∷◌}
use memhunt.Base.{none, some, length, length-take, ltb, leb}
use memhunt.Base.{Result, ok, Failure, Result-cases, Bool-cases}
use memhunt.Report.{Hit, ScanResult}
use memhunt.Cipher.{Crates}
use memhunt.Oracle.{Oracle}
use memhunt.Engine.Choice.{CipherChoice}
use memhunt.Engine.Config.{ScanConfig, ScanError}
use memhunt.Engine.Scan.{scan_choice, scan_loop, scan}
use memhunt.Engine.Scan.Hits.{scan_result}

module _ (crates : Crates) (dump ciphertext : Bytes) (oracles : List Oracle)
    (config : ScanConfig) where
  abbrev loop : List CipherChoice → ℕ × List Hit → Result (Failure ScanError) (ℕ × List Hit)
  loop = scan_loop crates dump ciphertext oracles config

  scan_loop_limit :
      (choices : List CipherChoice) (state result : ℕ × List Hit)
      → length state.1 ≤ config.max_hits
      → 0 < config.max_hits
      → loop choices state ≡ ok result
      → length result.1 ≤ config.max_hits
  unfolding scan_loop
  scan_loop_limit [] state result room pos e = ground arith
  scan_loop_limit (choice ∷ choices) (tried, hits) result room pos e =
      let on : ltb 0 config.max_hits ≡ true = ground arith in
      elim (Result-cases (scan_choice crates dump ciphertext oracles config choice tried)) [
        | inr (why, failed) ↦ absurd (err_ne_ok (rw failed at e))
        | inl (none, found) ↦ scan_loop_limit choices (tried, hits) result room pos (rw found at e)
        | inl (some new, found) ↦ elim (Bool-cases (leb config.max_hits (length (hits ++ new.1)))) [
          | inl full ↦
              omega (
                arith,
                kept (rw (found, on, full) at e),
                length-take config.max_hits (hits ++ new.1),
              )
          | inr more ↦
              scan_loop_limit choices (new.0, hits ++ new.1) result (ground arith) pos
                (rw (found, on, more) at e)
        ]
      ]
    where
      kept :
          {n : ℕ} {others : List Hit}
          → ◌≡◌ {A = Result (Failure ScanError) (ℕ × List Hit)} (ok (n, others)) (ok result)
          → length result.1 ≡ length others
      kept h = cc

  -- Under a limit on the hits, a result of a search in any mode has at most that many.
  pub scan_limit :
      (r : ScanResult)
      → 0 < config.max_hits
      → scan crates dump ciphertext oracles config ≡ ok r
      → length r.hits ≤ config.max_hits
  scan_limit r pos e =
      let (tried, found) = scan_result crates dump ciphertext oracles config r e in
      scan_loop_limit config.ciphers (0, []) (tried, r.hits) (omega arith) pos found
