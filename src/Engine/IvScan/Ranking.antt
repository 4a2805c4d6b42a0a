-- ===== src/Engine/IvScan/Ranking.antt =====
-- `find_iv` lists windows of the dump that an oracle accepts, the best first.
use memhunt.Base.{◌≤◌, ◌<◌, ◌≡◌, ◌⊎◌, inl, inr, arith}
use memhunt.Base.{true, false, List, [], ◌∷◌, Memᴰ, All}
use memhunt.Base.{Bool-cases}
use mathlib.Core.List.Memᴰ
use memhunt.Report.{rank}
use memhunt.Engine.IvScan.{IvRawCandidate, ranks_before, insert_candidate, sort_candidates}

-- Higher confidence first, then the likelier block 0, then the lower offset.
abbrev pub RanksBefore : IvRawCandidate → IvRawCandidate → Type 0
RanksBefore a b =
    (rank b.confidence < rank a.confidence)
    ⊎ (rank a.confidence ≡ rank b.confidence) × (b.plaus < a.plaus)
    ⊎ (rank a.confidence ≡ rank b.confidence) × (a.plaus ≡ b.plaus) × (a.offset ≤ b.offset)

ranks_before→ : (a b : IvRawCandidate) → ranks_before a b ≡ true → RanksBefore a b
unfolding ranks_before
ranks_before→ a b h = ground arith

ranks_before_total : (a b : IvRawCandidate) → ranks_before a b ≡ false → RanksBefore b a
unfolding ranks_before
ranks_before_total a b h = ground arith

RanksBefore-trans : (a b c : IvRawCandidate) → RanksBefore a b → RanksBefore b c → RanksBefore a c
RanksBefore-trans a b c h k = ground arith

-- Every candidate stands before all that follow it.
abbrev pub IsRanked : List IvRawCandidate → Type 0
IsRanked [] = Unit {0}
IsRanked (x ∷ xs) = All (RanksBefore x) xs × IsRanked xs

All-insert :
    (P : IvRawCandidate → Type 0) (x : IvRawCandidate) (xs : List IvRawCandidate)
    → P x
    → All P xs
    → All P (insert_candidate x xs)
unfolding insert_candidate
All-insert P x [] px h = (px, tt)
All-insert P x (y ∷ ys) px (py, h) = elim (Bool-cases (ranks_before x y)) [
  | inl first ↦ rw first (px, (py, h))
  | inr later ↦ rw later (py, All-insert P x ys px h)
]

All-before :
    (x y : IvRawCandidate) (ys : List IvRawCandidate)
    → RanksBefore x y
    → All (RanksBefore y) ys
    → All (RanksBefore x) ys
All-before x y [] h hs = tt
All-before x y (z ∷ ys) h (hz, hs) = (RanksBefore-trans x y z h hz, All-before x y ys h hs)

insert-IsRanked :
    (x : IvRawCandidate) (xs : List IvRawCandidate) → IsRanked xs → IsRanked (insert_candidate x xs)
unfolding insert_candidate
insert-IsRanked x [] h = (tt, tt)
insert-IsRanked x (y ∷ ys) (hy, hs) = elim (Bool-cases (ranks_before x y)) [
  | inl first ↦
      let before = ranks_before→ x y first in
      rw first ((before, All-before x y ys before hy), (hy, hs))
  | inr later ↦
      rw later
        (All-insert (RanksBefore y) x ys (ranks_before_total x y later) hy, insert-IsRanked x ys hs)
]

pub sort_candidates-IsRanked : (xs : List IvRawCandidate) → IsRanked (sort_candidates xs)
unfolding sort_candidates
sort_candidates-IsRanked [] = tt
sort_candidates-IsRanked (x ∷ xs) =
    insert-IsRanked x (sort_candidates xs) (sort_candidates-IsRanked xs)

mem-insert :
    (c x : IvRawCandidate) (xs : List IvRawCandidate)
    → Memᴰ c (insert_candidate x xs)
    → (c ≡ x) ⊎ Memᴰ c xs
unfolding insert_candidate
mem-insert c x [] m = inl (Memᴰ.eq_of_singleton m)
mem-insert c x (y ∷ ys) m = elim (Bool-cases (ranks_before x y)) [
  | inl first ↦ Memᴰ.cases_cons (rw first at m)
  | inr later ↦ elim (Memᴰ.cases_cons (rw later at m)) [
    | inl here ↦ inr (Memᴰ.head here)
    | inr rest ↦ elim (mem-insert c x ys rest) [ inl new ↦ inl new | inr old ↦ inr (Memᴰ.tail old) ]
  ]
]

insert-mem :
    (c x : IvRawCandidate) (xs : List IvRawCandidate)
    → (c ≡ x) ⊎ Memᴰ c xs
    → Memᴰ c (insert_candidate x xs)
unfolding insert_candidate
insert-mem c x [] (inl e) = Memᴰ.head e
insert-mem c x [] (inr m) = absurd (Memᴰ.not-nil m)
insert-mem c x (y ∷ ys) h = elim (Bool-cases (ranks_before x y)) [
  | inl first ↦ rw first (elim h [ inl e ↦ Memᴰ.head e | inr m ↦ Memᴰ.tail m ])
  | inr later ↦ rw later (elim h [
    | inl e ↦ Memᴰ.tail (insert-mem c x ys (inl e))
    | inr m ↦ elim (Memᴰ.cases_cons m) [
      | inl here ↦ Memᴰ.head here
      | inr rest ↦ Memᴰ.tail (insert-mem c x ys (inr rest))
    ]
  ])
]

pub mem-sort_candidates :
    (c : IvRawCandidate) (xs : List IvRawCandidate) → Memᴰ c (sort_candidates xs) → Memᴰ c xs
unfolding sort_candidates
mem-sort_candidates c [] m = m
mem-sort_candidates c (x ∷ xs) m = elim (mem-insert c x (sort_candidates xs) m) [
  | inl here ↦ Memᴰ.head here
  | inr rest ↦ Memᴰ.tail (mem-sort_candidates c xs rest)
]

pub sort_candidates-mem :
    (c : IvRawCandidate) (xs : List IvRawCandidate) → Memᴰ c xs → Memᴰ c (sort_candidates xs)
unfolding sort_candidates
sort_candidates-mem c [] m = m
sort_candidates-mem c (x ∷ xs) m = elim (Memᴰ.cases_cons m) [
  | inl here ↦ insert-mem c x (sort_candidates xs) (inl here)
  | inr rest ↦ insert-mem c x (sort_candidates xs) (inr (sort_candidates-mem c xs rest))
]
