-- ===== src/Oracle.antt =====
-- crates/memhunt-core/src/oracle.rs: the trait `Oracle` and `best_match`. The oracles themselves
-- stand in the children, and so do the proofs.
pub mod Plain
pub mod Utf16
pub mod Binary
pub mod Spec
pub mod Best
pub mod Accepts
use memhunt.Base.{ℕ, Bytes, Text, Bool, Option, none, some, List, [], ◌∷◌, map, filter, ltb}
use memhunt.Base.{if◌then◌else◌}
use memhunt.Report.{Confidence, rank}

-- The trait: an oracle is its three methods.
pub record Oracle : Type 0 where
  pub name : Text
  pub verify : Bytes → Bool
  pub confidence : Confidence

-- One step of `max_by_key`: of two equal maxima the later one is kept.
abbrev pub later_max : Text × Confidence → Text × Confidence → Text × Confidence
later_max x y = if ltb (rank y.1) (rank x.1) then x else y

abbrev fold_max : Text × Confidence → List (Text × Confidence) → Text × Confidence
fold_max x [] = x
fold_max x (y ∷ ys) = fold_max (later_max x y) ys

unfoldable pub max_by_rank : List (Text × Confidence) → Option (Text × Confidence)
max_by_rank [] = none
max_by_rank (x ∷ xs) = some (fold_max x xs)

unfoldable pub best_match : List Oracle → Bytes → Option (Text × Confidence)
unfolding max_by_rank
best_match oracles plaintext_head =
    max_by_rank (map (λ o. (o.name, o.confidence)) (filter (λ o. o.verify plaintext_head) oracles))
