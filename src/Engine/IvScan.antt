-- ===== src/Engine/IvScan.antt =====
-- engine.rs: `find_iv`, the pass over the dump for the IV of a CBC hit.
pub mod Ranking
pub mod Found
use memhunt.Base.{ℕ, Bytes, Text, Bool, true, false, ◌++◌, List, [], ◌∷◌, Option, none, some}
use memhunt.Base.{take, map, filter_map, positions, ltb, leb, if◌then◌else◌}
use memhunt.Report.{Confidence, rank}
use memhunt.Oracle.{Oracle, best_match}
use memhunt.Engine.Padding.{block0_plausibility}
use memhunt.Engine.Counter.{xor_zip}

pub record IvRawCandidate : Type 0 where
  pub offset : ℕ
  pub iv : Bytes
  pub b0 : Bytes
  pub name : Text
  pub confidence : Confidence
  pub plaus : ℕ

-- The tuple that is left of a candidate.
pub record IvHit : Type 0 where
  pub offset : ℕ
  pub iv : Bytes
  pub b0 : Bytes
  pub name : Text
  pub confidence : Confidence

abbrev pub iv_candidates_max : ℕ
iv_candidates_max = 8

-- The comparator: confidence down, plausibility of block 0 down, offset up. `true` where `a` may
-- stand before `b`.
unfoldable pub ranks_before : IvRawCandidate → IvRawCandidate → Bool
ranks_before a b =
    if ltb (rank b.confidence) (rank a.confidence)
    then true
    else if ltb (rank a.confidence) (rank b.confidence)
    then false
    else if ltb b.plaus a.plaus
    then true
    else if ltb a.plaus b.plaus
    then false
    else leb a.offset b.offset

-- `sort_by`. It is stable, so every way to sort gives the list that insertion gives.
unfoldable pub insert_candidate : IvRawCandidate → List IvRawCandidate → List IvRawCandidate
insert_candidate x [] = x ∷ []
insert_candidate x (y ∷ ys) = if ranks_before x y then x ∷ y ∷ ys else y ∷ insert_candidate x ys

unfoldable pub sort_candidates : List IvRawCandidate → List IvRawCandidate
sort_candidates [] = []
sort_candidates (x ∷ xs) = insert_candidate x (sort_candidates xs)

-- `best_match(…)?`, and the candidate behind it.
abbrev pub with_match : Option (Text × Confidence) → ℕ → Bytes → Bytes → Option IvRawCandidate
with_match none offset iv b0 = none
with_match (some (name, confidence)) offset iv b0 = some (record {
  offset = offset;
  iv = iv;
  b0 = b0;
  name = name;
  confidence = confidence;
  plaus = block0_plausibility b0;
})

-- The closure that tests one window as the IV.
unfoldable pub iv_test : Bytes → Bytes → ℕ → List Oracle → ℕ → Bytes → Option IvRawCandidate
iv_test dec0 tail block oracles offset iv =
    let b0 = xor_zip (take block dec0) iv in
    with_match (best_match oracles (b0 ++ tail)) offset iv b0

unfoldable pub iv_hit : IvRawCandidate → IvHit
iv_hit c = record {
  offset = c.offset;
  iv = c.iv;
  b0 = c.b0;
  name = c.name;
  confidence = c.confidence;
}

unfoldable pub iv_raw_candidates : Bytes → Bytes → Bytes → ℕ → List Oracle → List IvRawCandidate
iv_raw_candidates dump dec0 tail block oracles =
    filter_map (λ (p : ℕ × Bytes). iv_test dec0 tail block oracles p.0 p.1) (positions block dump)

unfoldable pub find_iv : Bytes → Bytes → Bytes → ℕ → List Oracle → List IvHit
find_iv dump dec0 tail block oracles =
    map iv_hit
      (take iv_candidates_max (sort_candidates (iv_raw_candidates dump dec0 tail block oracles)))
