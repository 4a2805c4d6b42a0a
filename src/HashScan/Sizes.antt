-- ===== src/HashScan/Sizes.antt =====
-- The lengths that `scan_hmac_keys` tries: the range, and the common sizes that it lacks.
use memhunt.Base.{◌<◌, ◌⊎◌, subst, All, All-append, ==→eq, ||→either}
use memhunt.Base.{ℕ, zero, suc, ◌+◌, ◌≡◌, sym, inl, inr, arith, true, false}
use memhunt.Base.{◌++◌, List, [], ◌∷◌, Memᴰ, any, ◌==◌, Bool-cases}
use mathlib.Core.List.Memᴰ
use memhunt.HashScan.Scan.{LengthRange, range_from, inclusive, add_missing}
use memhunt.HashScan.Lengths.{range_from-bounds}

any-mem : (fixed : ℕ) (lengths : List ℕ) → any (λ l. l == fixed) lengths ≡ true → Memᴰ fixed lengths
any-mem fixed [] h = cc
any-mem fixed (l ∷ lengths) h = elim (||→either (l == fixed) _ h) [
  | inl here ↦ Memᴰ.head (sym (==→eq l fixed here))
  | inr later ↦ Memᴰ.tail (any-mem fixed lengths later)
]

-- Adding the common sizes keeps what is listed, lists each of them, and adds nothing else.
pub add_missing_keeps :
    (lengths sizes : List ℕ) (l : ℕ) → Memᴰ l lengths → Memᴰ l (add_missing lengths sizes)
unfolding add_missing
add_missing_keeps lengths [] l m = m
add_missing_keeps lengths (s ∷ sizes) l m = elim (Bool-cases (any (λ k. k == s) lengths)) [
  | inl listed ↦ rw listed (add_missing_keeps lengths sizes l m)
  | inr missing ↦ rw missing (add_missing_keeps (lengths ++ s ∷ []) sizes l (Memᴰ.append_left _ m))
]

pub add_missing_adds :
    (lengths sizes : List ℕ) (l : ℕ) → Memᴰ l sizes → Memᴰ l (add_missing lengths sizes)
unfolding add_missing
add_missing_adds lengths [] l m = absurd (Memᴰ.not-nil m)
add_missing_adds lengths (s ∷ sizes) l m = elim (Bool-cases (any (λ k. k == s) lengths)) [
  | inl listed ↦ rw listed (elim (Memᴰ.cases_cons m) [
    | inl same ↦
        add_missing_keeps lengths sizes l
          (subst (λ k. Memᴰ k lengths) (sym same) (any-mem s lengths listed))
    | inr later ↦ add_missing_adds lengths sizes l later
  ])
  | inr missing ↦ rw missing (elim (Memᴰ.cases_cons m) [
    | inl same ↦
        add_missing_keeps (lengths ++ s ∷ []) sizes l (Memᴰ.append_right lengths (Memᴰ.head same))
    | inr later ↦ add_missing_adds (lengths ++ s ∷ []) sizes l later
  ])
]

pub add_missing_only :
    (lengths sizes : List ℕ) (l : ℕ)
    → Memᴰ l (add_missing lengths sizes)
    → Memᴰ l lengths ⊎ Memᴰ l sizes
unfolding add_missing
add_missing_only lengths [] l m = inl m
add_missing_only lengths (s ∷ sizes) l m = elim (Bool-cases (any (λ k. k == s) lengths)) [
  | inl listed ↦ elim (add_missing_only lengths sizes l (rw listed at m)) [
    | inl old ↦ inl old
    | inr new ↦ inr (Memᴰ.tail new)
  ]
  | inr missing ↦ elim (add_missing_only (lengths ++ s ∷ []) sizes l (rw missing at m)) [
    | inl old ↦ elim (Memᴰ.append_cases lengths old) [
      | inl older ↦ inl older
      | inr this ↦ inr (Memᴰ.head (Memᴰ.eq_of_singleton this))
    ]
    | inr new ↦ inr (Memᴰ.tail new)
  ]
]

pub add_missing_positive :
    (lengths sizes : List ℕ)
    → All (λ l. 0 < l) lengths
    → All (λ l. 0 < l) sizes
    → All (λ l. 0 < l) (add_missing lengths sizes)
unfolding add_missing
add_missing_positive lengths [] hl hs = hl
add_missing_positive lengths (s ∷ sizes) hl (h, hs) =
    elim (Bool-cases (any (λ k. k == s) lengths)) [
      | inl listed ↦ rw listed (add_missing_positive lengths sizes hl hs)
      | inr missing ↦ rw missing (
          add_missing_positive (lengths ++ s ∷ []) sizes
            (All-append (λ l. 0 < l) lengths (s ∷ []) hl (h, tt)) hs)
    ]

-- No length stands twice.
abbrev pub Distinct : List ℕ → Type 0
Distinct [] = Unit {0}
Distinct (x ∷ xs) = (Memᴰ x xs → ⊥) × Distinct xs

no_member : (s : ℕ) (xs : List ℕ) → any (λ l. l == s) xs ≡ false → Memᴰ s xs → ⊥
no_member s [] h m = Memᴰ.not-nil m
no_member s (x ∷ xs) h m = elim (Memᴰ.cases_cons m) [
  | inl same ↦ let here : (x == s) ≡ true = ground arith in differs (rw here at h)
  | inr later ↦ elim (Bool-cases (x == s)) [
    | inl here ↦ differs (rw here at h)
    | inr other ↦ no_member s xs (rw other at h) later
  ]
]
  where
    differs : true ≡ false → ⊥
    differs e = cc

append-Distinct : (xs : List ℕ) (s : ℕ) → Distinct xs → (Memᴰ s xs → ⊥) → Distinct (xs ++ s ∷ [])
append-Distinct [] s h new = ((λ m. Memᴰ.not-nil m), tt)
append-Distinct (x ∷ xs) s (h, hs) new = (
  λ m. elim (Memᴰ.append_cases xs m) [
    | inl old ↦ h old
    | inr one ↦ new (Memᴰ.head (sym (Memᴰ.eq_of_singleton one)))
  ],
  append-Distinct xs s hs (λ m. new (Memᴰ.tail m)),
)

pub add_missing-Distinct :
    (lengths sizes : List ℕ) → Distinct lengths → Distinct (add_missing lengths sizes)
unfolding add_missing
add_missing-Distinct lengths [] h = h
add_missing-Distinct lengths (s ∷ sizes) h = elim (Bool-cases (any (λ l. l == s) lengths)) [
  | inl listed ↦ rw listed (add_missing-Distinct lengths sizes h)
  | inr missing ↦ rw missing (
      add_missing-Distinct (lengths ++ s ∷ []) sizes
        (append-Distinct lengths s h (no_member s lengths missing)))
]

range_from-Distinct : (lo count : ℕ) → Distinct (range_from lo count)
unfolding range_from
range_from-Distinct lo zero = tt
range_from-Distinct lo (suc count) = (
  λ m. let (low, high) = range_from-bounds (lo + 1) count lo m in omega (arith, low),
  range_from-Distinct (lo + 1) count,
)

pub inclusive-Distinct : (r : LengthRange) → Distinct (inclusive r)
unfolding inclusive
inclusive-Distinct r = range_from-Distinct _ _
