-- ===== src/Engine/IvScan/Found.antt =====
-- What `find_iv` answers: the best eight of the windows that serve as an IV.
use memhunt.Base.{none_ne_some, some_inj}
use memhunt.Base.{ℕ, zero, suc, ◌+◌, ◌≤◌, ◌<◌, ◌≡◌, refl, sym, ap, ◌∙◌, subst, ◌⊎◌, inl, inr, arith}
use memhunt.Base.{Bytes, ◌++◌, List, [], ◌∷◌, Memᴰ, Option, some, All, All-take}
use memhunt.Base.{length, length-take, take, drop, map, filter_map, positions, Option-cases}
use memhunt.Base.{IsWindow, window_visited, visited-IsWindow}
use mathlib.Core.List.Memᴰ
use memhunt.Oracle.{Oracle, best_match}
use memhunt.Engine.Padding.{block0_plausibility}
use memhunt.Engine.Counter.{xor_zip}
use memhunt.Engine.IvScan.{IvRawCandidate, IvHit, sort_candidates, with_match, iv_test, iv_hit}
use memhunt.Engine.IvScan.{iv_raw_candidates, find_iv}
use memhunt.Engine.IvScan.Ranking.{RanksBefore, IsRanked, sort_candidates-IsRanked}
use memhunt.Engine.IvScan.Ranking.{mem-sort_candidates, sort_candidates-mem}

module _ {A B : Type 0} (f : A → Option B) where
  mem-filter_map :
      (xs : List A) (y : B) → Memᴰ y (filter_map f xs) → (x : A) × Memᴰ x xs × (f x ≡ some y)
  unfolding filter_map
  mem-filter_map [] y m = absurd (Memᴰ.not-nil m)
  mem-filter_map (x ∷ xs) y m = elim (Option-cases (f x)) [
    | inl skipped ↦ let (x', at, e) = mem-filter_map xs y (rw skipped at m) in (x', Memᴰ.tail at, e)
    | inr (z, kept) ↦ elim (Memᴰ.cases_cons (rw kept at m)) [
      | inl here ↦ (x, Memᴰ.head refl, kept ∙ ap some (sym here))
      | inr later ↦ let (x', at, e) = mem-filter_map xs y later in (x', Memᴰ.tail at, e)
    ]
  ]

  filter_map-mem :
      (xs : List A) (x : A) (y : B) → Memᴰ x xs → f x ≡ some y → Memᴰ y (filter_map f xs)
  unfolding filter_map
  filter_map-mem [] x y m e = absurd (Memᴰ.not-nil m)
  filter_map-mem (x' ∷ xs) x y (Memᴰ.head same) e =
      let here = subst (λ t. f t ≡ some y) same e in rw here (Memᴰ.head refl)
  filter_map-mem (x' ∷ xs) x y (Memᴰ.tail m) e =
      let rest = filter_map-mem xs x y m e in
      elim (Option-cases (f x')) [
        | inl skipped ↦ rw skipped rest
        | inr (z, kept) ↦ rw kept (Memᴰ.tail rest)
      ]

take-ranked :
    (n : ℕ) (xs : List IvRawCandidate) (c : IvRawCandidate)
    → IsRanked xs
    → Memᴰ c xs
    → Memᴰ c (take n xs) ⊎ (length (take n xs) ≡ n) × All (λ x. RanksBefore x c) (take n xs)
take-ranked zero xs c h m = inr (refl, tt)
take-ranked (suc n) [] c h m = absurd (Memᴰ.not-nil m)
take-ranked (suc n) (x ∷ xs) c (hx, h) m = elim (Memᴰ.cases_cons m) [
  | inl here ↦ inl (Memᴰ.head here)
  | inr later ↦ elim (take-ranked n xs c h later) [
    | inl kept ↦ inl (Memᴰ.tail kept)
    | inr (full, above) ↦ inr (ap suc full, (all-mem xs hx later, above))
  ]
]
  where
    all-mem : (ys : List IvRawCandidate) → All (RanksBefore x) ys → Memᴰ c ys → RanksBefore x c
    all-mem [] hs k = absurd (Memᴰ.not-nil k)
    all-mem (y ∷ ys) (hy, hs) (Memᴰ.head e) = subst (RanksBefore x) (sym e) hy
    all-mem (y ∷ ys) (hy, hs) (Memᴰ.tail k) = all-mem ys hs k

module _ (dump dec0 tail : Bytes) (block : ℕ) (oracles : List Oracle) where
  -- The window at the candidate's offset, taken as the IV, gives a block 0 that some oracle accepts
  -- in front of the tail; the name and the confidence are those of the best match.
  pub record IsIvCandidate (c : IvRawCandidate) : Type 0 where
    pub inside : c.offset + block ≤ length dump
    pub reads : c.iv ≡ take block (drop c.offset dump)
    pub unmasks : c.b0 ≡ xor_zip (take block dec0) c.iv
    pub matched : best_match oracles (c.b0 ++ tail) ≡ some (c.name, c.confidence)
    pub scored : c.plaus ≡ block0_plausibility c.b0

  test_sound :
      (offset : ℕ) (iv : Bytes) (c : IvRawCandidate)
      → IsWindow block dump offset iv
      → iv_test dec0 tail block oracles offset iv ≡ some c
      → IsIvCandidate c
  unfolding iv_test
  test_sound offset iv c at e =
      elim (Option-cases (best_match oracles (xor_zip (take block dec0) iv ++ tail))) [
        | inl nothing ↦ absurd (none_ne_some (rw nothing at e))
        | inr ((name, confidence), found) ↦ subst IsIvCandidate (some_inj (rw found at e)) (record {
          inside = at.inside;
          reads = at.reads;
          unmasks = refl;
          matched = found;
          scored = refl;
        })
      ]

  test_complete :
      (c : IvRawCandidate)
      → IsIvCandidate c
      → iv_test dec0 tail block oracles c.offset (take block (drop c.offset dump)) ≡ some c
  unfolding iv_test
  test_complete c h =
      let here : best_match oracles (xor_zip (take block dec0) c.iv ++ tail)
          ≡ some (c.name, c.confidence) =
        subst (λ b. best_match oracles (b ++ tail) ≡ some (c.name, c.confidence)) h.unmasks
          h.matched in
      subst
        (λ iv.
          with_match (best_match oracles (xor_zip (take block dec0) iv ++ tail)) c.offset iv
            (xor_zip (take block dec0) iv)
          ≡ some c)
        h.reads (rw (here, ← h.unmasks, ← h.scored) refl)

  raw_sound :
      (c : IvRawCandidate)
      → Memᴰ c (iv_raw_candidates dump dec0 tail block oracles)
      → IsIvCandidate c
  unfolding iv_raw_candidates
  raw_sound c m =
      let ((j, iv), at, e) = mem-filter_map _ (positions block dump) c m in
      let (i, same, win) = visited-IsWindow block dump 0 j iv at in
      let here : j ≡ i = omega arith in
      test_sound j iv c
        (record {
          inside = omega (arith, win.inside);
          reads = subst (λ k. iv ≡ take block (drop k dump)) (sym here) win.reads;
        })
        e

  raw_complete :
      (c : IvRawCandidate)
      → 0 < block
      → IsIvCandidate c
      → Memᴰ c (iv_raw_candidates dump dec0 tail block oracles)
  unfolding iv_raw_candidates
  raw_complete c pos h =
      filter_map-mem (λ (p : ℕ × Bytes). iv_test dec0 tail block oracles p.0 p.1)
        (positions block dump) (c.offset, take block (drop c.offset dump)) c
        (subst (λ (t : ℕ). Memᴰ (t, take block (drop c.offset dump)) (positions block dump))
          from_zero
          (window_visited block dump 0 c.offset _ pos (record { inside = h.inside; reads = refl })))
        (test_complete c h)
    where
      from_zero : 0 + c.offset ≡ c.offset
      from_zero = omega arith

  -- The answer of `find_iv`, against all windows that serve as an IV.
  pub record IsIvScan (answer : List IvHit) : Type 0 where
    pub listed : List IvRawCandidate
    pub answers : answer ≡ map iv_hit listed
    pub at_most : length listed ≤ 8
    pub ranked : IsRanked listed
    pub sound : (c : IvRawCandidate) → Memᴰ c listed → IsIvCandidate c
    pub complete :
        (c : IvRawCandidate)
        → IsIvCandidate c
        → Memᴰ c listed ⊎ (length listed ≡ 8) × All (λ x. RanksBefore x c) listed

  mem-take :
      (n : ℕ) (xs : List IvRawCandidate) (c : IvRawCandidate) → Memᴰ c (take n xs) → Memᴰ c xs
  mem-take zero xs c m = absurd (Memᴰ.not-nil m)
  mem-take (suc n) [] c m = absurd (Memᴰ.not-nil m)
  mem-take (suc n) (x ∷ xs) c m = elim (Memᴰ.cases_cons m) [
    | inl here ↦ Memᴰ.head here
    | inr later ↦ Memᴰ.tail (mem-take n xs c later)
  ]

  take-IsRanked : (n : ℕ) (xs : List IvRawCandidate) → IsRanked xs → IsRanked (take n xs)
  take-IsRanked zero xs h = tt
  take-IsRanked (suc n) [] h = tt
  take-IsRanked (suc n) (x ∷ xs) (hx, h) = (All-take (RanksBefore x) n xs hx, take-IsRanked n xs h)

  -- `find_iv` lists at most eight candidates, by confidence, then by the score of block 0, then by
  -- offset. Each is a window of the dump under which some oracle accepts block 0 and the tail, and
  -- every such window is listed, unless eight that rank before it are.
  pub find_iv-IsIvScan : 0 < block → IsIvScan (find_iv dump dec0 tail block oracles)
  unfolding find_iv
  find_iv-IsIvScan pos =
      let raw = iv_raw_candidates dump dec0 tail block oracles in
      let sorted = sort_candidates raw in
      record {
        listed = take 8 sorted;
        answers = refl;
        at_most = omega (arith, length-take 8 sorted);
        ranked = take-IsRanked 8 sorted (sort_candidates-IsRanked raw);
        sound = λ c m. raw_sound c (mem-sort_candidates c raw (mem-take 8 sorted c m));
        complete = λ c h.
            take-ranked 8 sorted c (sort_candidates-IsRanked raw)
              (sort_candidates-mem c raw (raw_complete c pos h));
      }
