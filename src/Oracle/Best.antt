-- ===== src/Oracle/Best.antt =====
-- `best_match` against a description of the oracle that it picks.
use memhunt.Base.{ℕ, ◌≤◌, ◌<◌, ◌≡◌, refl, ◌≢◌, inl, inr, ap, subst, ◌∙◌, arith}
use memhunt.Base.{Bytes, Text, true, false, Option, none, some, List, [], ◌∷◌, ◌++◌}
use memhunt.Base.{All, All-append, All-mono, ltb, ltb→lt, Bool-cases, Option-cases}
use memhunt.Report.{Confidence, rank}
use memhunt.Oracle.{Oracle, later_max, fold_max, max_by_rank, best_match}

-- The choice of `o` among the oracles: it accepts the head, no oracle before it that accepts ranks
-- higher, and every oracle after it that accepts ranks lower.
pub record IsBest (oracles : List Oracle) (head : Bytes) (found : Text × Confidence) : Type 0 where
  pub before : List Oracle
  pub chosen : Oracle
  pub after : List Oracle
  pub split : oracles ≡ before ++ chosen ∷ after
  pub answer : found ≡ (chosen.name, chosen.confidence)
  pub accepts : chosen.verify head ≡ true
  pub none_above :
      All (λ o. o.verify head ≡ true → rank o.confidence ≤ rank chosen.confidence) before
  pub all_below : All (λ o. o.verify head ≡ true → rank o.confidence < rank chosen.confidence) after

later_max_assoc :
    (x y z : Text × Confidence) → later_max (later_max x y) z ≡ later_max x (later_max y z)
later_max_assoc (a, x) (b, y) (c, z) = ground arith

fold_max_assoc :
    (x y : Text × Confidence) (zs : List (Text × Confidence))
    → fold_max (later_max x y) zs ≡ later_max x (fold_max y zs)
fold_max_assoc x y [] = refl
fold_max_assoc x y (z ∷ zs) =
    ap (λ t. fold_max t zs) (later_max_assoc x y z) ∙ fold_max_assoc x (later_max y z) zs

-- The first oracle against the best of the rest.
abbrev against : Text × Confidence → Option (Text × Confidence) → Option (Text × Confidence)
against x none = some x
against x (some y) = some (later_max x y)

max_by_rank_cons :
    (x : Text × Confidence) (ys : List (Text × Confidence))
    → max_by_rank (x ∷ ys) ≡ against x (max_by_rank ys)
unfolding max_by_rank
max_by_rank_cons x [] = refl
max_by_rank_cons x (y ∷ ys) = ap some (fold_max_assoc x y ys)

against_ne_none : (x : Text × Confidence) (o : Option (Text × Confidence)) → against x o ≢ none
against_ne_none x none h = cc
against_ne_none x (some y) h = cc

module _ (head : Bytes) where
  best_match_skips :
      (o : Oracle) (os : List Oracle)
      → o.verify head ≡ false
      → best_match (o ∷ os) head ≡ best_match os head
  unfolding best_match
  best_match_skips o os e = rw e

  best_match_takes :
      (o : Oracle) (os : List Oracle)
      → o.verify head ≡ true
      → best_match (o ∷ os) head ≡ against (o.name, o.confidence) (best_match os head)
  unfolding best_match
  best_match_takes o os e = rw e (max_by_rank_cons _ _)

  -- No oracle accepts the head.
  abbrev pub AllReject : List Oracle → Type 0
  AllReject = All (λ o. o.verify head ≡ false)

  pub best_match-none : (os : List Oracle) → best_match os head ≡ none → AllReject os
  best_match-none [] e = tt
  best_match-none (o ∷ os) e = elim (Bool-cases (o.verify head)) [
    | inr rejects ↦ (rejects, best_match-none os (rw (best_match_skips o os rejects) at e))
    | inl accepts ↦ absurd (against_ne_none _ _ (rw (best_match_takes o os accepts) at e))
  ]

  pub reject-best_match : (os : List Oracle) → AllReject os → best_match os head ≡ none
  reject-best_match [] h = unfold best_match in refl
  reject-best_match (o ∷ os) (ho, hs) = best_match_skips o os ho ∙ reject-best_match os hs

  -- The oracles of a list that accept the head rank below `n`.
  abbrev RankBelow : ℕ → List Oracle → Type 0
  RankBelow n = All (λ o. o.verify head ≡ true → rank o.confidence < n)

  reject-RankBelow : (n : ℕ) (os : List Oracle) → AllReject os → RankBelow n os
  reject-RankBelow n os h =
      All-mono _ (λ o. o.verify head ≡ true → rank o.confidence < n) os (λ o r t. cc) h

  best-RankBelow :
      (n : ℕ) (os : List Oracle) (y : Text × Confidence)
      → IsBest os head y
      → rank y.1 < n
      → RankBelow n os
  best-RankBelow n os y best lt = rw best.split (
      All-append _ best.before (best.chosen ∷ best.after)
        (All-mono _ (λ o. o.verify head ≡ true → rank o.confidence < n) best.before
          (λ o h t. omega (arith, h t, same)) best.none_above)
        (
          (λ t. omega (arith, same)),
          All-mono _ (λ o. o.verify head ≡ true → rank o.confidence < n) best.after
              (λ o h t. omega (arith, h t, same)) best.all_below,
        ))
    where
      same : rank y.1 ≡ rank best.chosen.confidence
      same = ap (λ (t : Text × Confidence). rank t.1) best.answer

  first-IsBest :
      (o : Oracle) (os : List Oracle)
      → o.verify head ≡ true
      → RankBelow (rank o.confidence) os
      → IsBest (o ∷ os) head (o.name, o.confidence)
  first-IsBest o os accepts below = record {
    before = [];
    chosen = o;
    after = os;
    split = refl;
    answer = refl;
    accepts = accepts;
    none_above = tt;
    all_below = below;
  }

  later-IsBest :
      (o : Oracle) (os : List Oracle) (y : Text × Confidence)
      → (o.verify head ≡ true → rank o.confidence ≤ rank y.1)
      → IsBest os head y
      → IsBest (o ∷ os) head y
  later-IsBest o os y le best = record {
    before = o ∷ best.before;
    chosen = best.chosen;
    after = best.after;
    split = ap (◌∷◌ o) best.split;
    answer = best.answer;
    accepts = best.accepts;
    none_above = (
      (λ t. omega (arith, le t, ap (λ (p : Text × Confidence). rank p.1) best.answer)),
      best.none_above,
    );
    all_below = best.all_below;
  }

  better-IsBest :
      (o : Oracle) (os : List Oracle) (y : Text × Confidence)
      → o.verify head ≡ true
      → IsBest os head y
      → IsBest (o ∷ os) head (later_max (o.name, o.confidence) y)
  better-IsBest o os y accepts best = elim (Bool-cases (ltb (rank y.1) (rank o.confidence))) [
    | inl above ↦
        rw above (first-IsBest o os accepts (best-RankBelow _ os y best (ltb→lt _ _ above)))
    | inr below ↦ rw below (later-IsBest o os y (λ t. ground arith) best)
  ]

  against-IsBest :
      (o : Oracle) (os : List Oracle) (found : Text × Confidence)
      → o.verify head ≡ true
      → ((y : Text × Confidence) → best_match os head ≡ some y → IsBest os head y)
      → against (o.name, o.confidence) (best_match os head) ≡ some found
      → IsBest (o ∷ os) head found
  against-IsBest o os found accepts rest e = elim (Option-cases (best_match os head)) [
    | inl nothing ↦
        let same : (o.name, o.confidence) ≡ found = cc (rw nothing at e) in
        subst (IsBest (o ∷ os) head) same (
          first-IsBest o os accepts
            (reject-RankBelow (rank o.confidence) os (best_match-none os nothing)))
    | inr (y, there) ↦
        let same : later_max (o.name, o.confidence) y ≡ found = cc (rw there at e) in
        subst (IsBest (o ∷ os) head) same (better-IsBest o os y accepts (rest y there))
  ]

  -- What `best_match` returns is the best choice, in the sense of `IsBest`: an oracle that accepts
  -- the head, such that no accepting oracle ranks higher and every later accepting one ranks lower.
  pub best_match-IsBest :
      (os : List Oracle) (found : Text × Confidence)
      → best_match os head ≡ some found
      → IsBest os head found
  best_match-IsBest [] found e = unfold best_match max_by_rank in cc
  best_match-IsBest (o ∷ os) found e = elim (Bool-cases (o.verify head)) [
    | inr rejects ↦
        later-IsBest o os found (λ t. cc)
          (best_match-IsBest os found (rw (best_match_skips o os rejects) at e))
    | inl accepts ↦
        against-IsBest o os found accepts (best_match-IsBest os)
          (rw (best_match_takes o os accepts) at e)
  ]
