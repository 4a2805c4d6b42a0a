-- ===== src/Cli/Exit.antt =====
-- What the commands write and exit with, once their hits are known.
use memhunt.Base.{ℕ, zero, suc, ◌≤◌, ◌≡◌, ◌↔◌, refl, sym, ap, ◌∙◌, ◌⊎◌, inl, inr, arith}
use memhunt.Base.{Text, Bool, true, false, List, [], ◌∷◌, ◌++◌, map, concat, Memᴰ, length}
use memhunt.Base.{append_assoc, append-nil, if◌then◌else◌}
use memhunt.Base.{Result, ok, err, Failure, error, panic, Returns, raised-Returns}
use mathlib.Core.List.Memᴰ
use memhunt.Host.{Host}
use memhunt.Cli.Decode.{CliError}
use memhunt.Cli.Run.{exit_code, write_lines, emit_json, emit_human, emit, finish}

-- Stdout takes every line.
abbrev pub TakesLines : Host → Type 0
TakesLines host = (out : List Text) (line : Text) → host.write out line ≡ ok tt

-- The hits come out: in JSON stdout must take them, and in the human-readable form nothing is
-- checked.
abbrev pub Prints : Host → Bool → Type 0
Prints host json = (json ≡ false) ⊎ TakesLines host

module _ (host : Host) {H : Type 0} (json_line : H → Text) (human_lines : H → List Text) where
  emit_json_all :
      (hits : List H) (out : List Text)
      → TakesLines host
      → emit_json host json_line human_lines hits out ≡ (out ++ map json_line hits, ok tt)
  unfolding emit_json
  emit_json_all [] out takes = ap (λ o. (o, ok tt)) (sym (append-nil out))
  emit_json_all (hit ∷ hits) out takes = rw (takes out (json_line hit)) (
      emit_json_all hits (out ++ json_line hit ∷ []) takes
      ∙ ap (λ o. (o, ok tt)) (append_assoc out (json_line hit ∷ []) (map json_line hits)))

  write_lines_all :
      (lines out : List Text) → TakesLines host → write_lines host lines out ≡ out ++ lines
  unfolding write_lines
  write_lines_all [] out takes = sym (append-nil out)
  write_lines_all (l ∷ lines) out takes =
      rw (takes out l)
        (write_lines_all lines (out ++ l ∷ []) takes ∙ append_assoc out (l ∷ []) lines)

  emit_human_all :
      (hits : List H) (out : List Text)
      → TakesLines host
      → emit_human host json_line human_lines hits out ≡ out ++ concat (map human_lines hits)
  unfolding emit_human
  emit_human_all [] out takes = sym (append-nil out)
  emit_human_all (hit ∷ hits) out takes =
      emit_human_all hits (write_lines host (human_lines hit) out) takes
      ∙ ap (λ o. o ++ concat (map human_lines hits)) (write_lines_all (human_lines hit) out takes)
      ∙ append_assoc out (human_lines hit) (concat (map human_lines hits))

  -- With a stdout that takes every line, a command that found hits writes each of them, in order and
  -- nothing else: a line of JSON, or its human-readable lines. It exits with 0 where there is a hit,
  -- and with 1 where there is none.
  pub finish_output :
      (json : Bool) (hits : List H)
      → TakesLines host
      → (finish host json_line human_lines json (ok hits)).output
        ≡ (if json then map json_line hits else concat (map human_lines hits))
  unfolding finish
  finish_output true hits takes = rw (emit_json_all hits [] takes) refl
  finish_output false hits takes = emit_human_all hits [] takes

  pub finish_code :
      (json : Bool) (hits : List H)
      → Prints host json
      → (finish host json_line human_lines json (ok hits)).code ≡ exit_code (ok (length hits))
  unfolding finish
  finish_code false hits p = refl
  finish_code true hits (inl e) = cc
  finish_code true hits (inr takes) = rw (emit_json_all hits [] takes) refl

  -- Exit code 0 stands for a hit.
  pub exit_zero_iff :
      (hits : List H) → (exit_code (ok (length hits)) ≡ 0) ↔ ((hit : H) × Memᴰ hit hits)
  unfolding exit_code
  exit_zero_iff [] = ((λ e. absurd (omega arith)), (λ m. absurd (Memᴰ.not-nil m.1)))
  exit_zero_iff (hit ∷ hits) = ((λ e. (hit, Memᴰ.head refl)), (λ m. refl))

  pub finish_zero_iff :
      (json : Bool) (hits : List H)
      → Prints host json
      → ((finish host json_line human_lines json (ok hits)).code ≡ 0) ↔ ((hit : H) × Memᴰ hit hits)
  finish_zero_iff json hits p =
      let same = finish_code json hits p in
      let (to, from) = exit_zero_iff hits in ((λ e. to (sym same ∙ e)), (λ m. same ∙ from m))

  -- A command that fails exits with 2, and one that panics with 101.
  pub finish_failed :
      (json : Bool) (e : Failure CliError)
      → (finish host json_line human_lines json (err e)).code ≡ 0
      → ⊥
  unfolding finish exit_code
  finish_failed json (error e) h = absurd (omega arith)
  finish_failed json panic h = absurd (omega arith)

  exit_code_bound : (r : Result (Failure CliError) ℕ) → Returns r → exit_code r ≤ 2
  unfolding exit_code
  exit_code_bound (ok zero) h = omega arith
  exit_code_bound (ok (suc n)) h = omega arith
  exit_code_bound (err (error e)) h = omega arith
  exit_code_bound (err panic) h = absurd h

  pub finish_code_bound :
      (json : Bool) (r : Result (Failure CliError) (List H))
      → Returns r
      → (finish host json_line human_lines json r).code ≤ 2
  unfolding finish
  finish_code_bound json (ok hits) h = exit_code_bound _ (
      raised-Returns (emit host json_line human_lines json hits).1 (λ u. ok (length hits))
        (λ u. tt))
  finish_code_bound json (err e) h = exit_code_bound (err e) (err_Returns e h)
    where
      err_Returns : (e : Failure CliError) → Returns {A = List H} (err e) → Returns {A = ℕ} (err e)
      err_Returns (error e) h = tt
      err_Returns panic h = h
