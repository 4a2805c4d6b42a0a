-- ===== src/Engine/Choice/Sorting.antt =====
-- `sort` and `dedup` on cipher choices: the order, and the members.
use memhunt.Base.{ℕ, ◌≤◌, ◌<◌, ◌≡◌, refl, sym, ap, ◌∙◌, inl, inr, arith}
use memhunt.Base.{Memᴰ, ◌↔◌, ==→eq, get_or}
use memhunt.Engine.Choice.{all_choices}
use mathlib.Core.List.Memᴰ
use memhunt.Engine.Choice.{aes128, aes192, aes256, des, tdes_ede3, sm4, chacha20, xchacha20}
use memhunt.Base.{true, false, List, [], ◌∷◌, All}
use memhunt.Base.{leb, Bool-cases}
use memhunt.Engine.Choice.{CipherChoice, choice_index, eq_choice}
use memhunt.Engine.Choice.{insert_choice, sort, join_equal, dedup}

-- Each choice stands before those behind it, in the order of the enum.
abbrev pub Ascending : List CipherChoice → Type 0
Ascending [] = Unit {0}
Ascending (x ∷ xs) = All (λ y. choice_index x < choice_index y) xs × Ascending xs

abbrev pub Sorted : List CipherChoice → Type 0
Sorted [] = Unit {0}
Sorted (x ∷ xs) = All (λ y. choice_index x ≤ choice_index y) xs × Sorted xs

All-below :
    (i j : ℕ) (xs : List CipherChoice)
    → i ≤ j
    → All (λ y. j ≤ choice_index y) xs
    → All (λ y. i ≤ choice_index y) xs
All-below i j [] h hs = tt
All-below i j (x ∷ xs) h (hx, hs) = (omega arith, All-below i j xs h hs)

All-insert :
    (i : ℕ) (x : CipherChoice) (xs : List CipherChoice)
    → i ≤ choice_index x
    → All (λ y. i ≤ choice_index y) xs
    → All (λ y. i ≤ choice_index y) (insert_choice x xs)
All-insert i x [] h hs = (h, tt)
All-insert i x (y ∷ ys) h (hy, hs) =
    let rest = All-insert i x ys h hs in
    elim (Bool-cases (leb (choice_index x) (choice_index y))) [
      | inl low ↦ rw low (h, (hy, hs))
      | inr high ↦ rw high (hy, rest)
    ]

insert_choice-Sorted :
    (x : CipherChoice) (xs : List CipherChoice) → Sorted xs → Sorted (insert_choice x xs)
insert_choice-Sorted x [] h = (tt, tt)
insert_choice-Sorted x (y ∷ ys) (hy, h) =
    let rest = insert_choice-Sorted x ys h in
    elim (Bool-cases (leb (choice_index x) (choice_index y))) [
      | inl low ↦
          let le : choice_index x ≤ choice_index y = ground arith in
          rw low ((le, All-below (choice_index x) (choice_index y) ys le hy), (hy, h))
      | inr high ↦
          let ge : choice_index y ≤ choice_index x = ground arith in
          rw high (All-insert (choice_index y) x ys ge hy, rest)
    ]

pub sort-Sorted : (xs : List CipherChoice) → Sorted (sort xs)
sort-Sorted [] = tt
sort-Sorted (x ∷ xs) = insert_choice-Sorted x (sort xs) (sort-Sorted xs)

All-join :
    (i : ℕ) (x : CipherChoice) (xs : List CipherChoice)
    → i ≤ choice_index x
    → All (λ y. i ≤ choice_index y) xs
    → All (λ y. i ≤ choice_index y) (join_equal x xs)
All-join i x [] h hs = (h, tt)
All-join i x (y ∷ ys) h (hy, hs) = elim (Bool-cases (eq_choice x y)) [
  | inl same ↦ rw same (hy, hs)
  | inr differs ↦ rw differs (h, (hy, hs))
]

All-dedup :
    (i : ℕ) (xs : List CipherChoice)
    → All (λ y. i ≤ choice_index y) xs
    → All (λ y. i ≤ choice_index y) (dedup xs)
All-dedup i [] h = tt
All-dedup i (x ∷ xs) (hx, h) = All-join i x (dedup xs) hx (All-dedup i xs h)

strictly_below :
    (x y : CipherChoice) (ys : List CipherChoice)
    → eq_choice x y ≡ false
    → choice_index x ≤ choice_index y
    → All (λ z. choice_index y < choice_index z) ys
    → All (λ z. choice_index x < choice_index z) (y ∷ ys)
strictly_below x y [] e h hs = (ground arith, tt)
strictly_below x y (z ∷ zs) e h (hz, hs) =
    let (first, rest) = strictly_below x y zs e h hs in (first, (omega arith, rest))

join_equal-Ascending :
    (x : CipherChoice) (xs : List CipherChoice)
    → All (λ y. choice_index x ≤ choice_index y) xs
    → Ascending xs
    → Ascending (join_equal x xs)
join_equal-Ascending x [] hs h = (tt, tt)
join_equal-Ascending x (y ∷ ys) (hy, hs) (below, h) = elim (Bool-cases (eq_choice x y)) [
  | inl same ↦ rw same (below, h)
  | inr differs ↦ rw differs (strictly_below x y ys differs hy below, (below, h))
]

pub dedup-Ascending : (xs : List CipherChoice) → Sorted xs → Ascending (dedup xs)
dedup-Ascending [] h = tt
dedup-Ascending (x ∷ xs) (hx, h) =
    join_equal-Ascending x (dedup xs) (All-dedup (choice_index x) xs hx) (dedup-Ascending xs h)

-- The constructor at a place of the enum.
choice_at : ℕ → CipherChoice
choice_at n = get_or all_choices n xchacha20

choice_at-choice_index : (x : CipherChoice) → choice_at (choice_index x) ≡ x
unfolding choice_at
choice_at-choice_index aes128 = refl
choice_at-choice_index aes192 = refl
choice_at-choice_index aes256 = refl
choice_at-choice_index des = refl
choice_at-choice_index tdes_ede3 = refl
choice_at-choice_index sm4 = refl
choice_at-choice_index chacha20 = refl
choice_at-choice_index xchacha20 = refl

eq_choice→eq : (x y : CipherChoice) → eq_choice x y ≡ true → x ≡ y
eq_choice→eq x y h =
    sym (choice_at-choice_index x)
    ∙ ap choice_at (==→eq (choice_index x) (choice_index y) h)
    ∙ choice_at-choice_index y

insert_choice_iff :
    (z x : CipherChoice) (xs : List CipherChoice) → Memᴰ z (insert_choice x xs) ↔ Memᴰ z (x ∷ xs)
insert_choice_iff z x [] = ((λ m. m), (λ m. m))
insert_choice_iff z x (y ∷ ys) =
    let (to, from) = insert_choice_iff z x ys in
    elim (Bool-cases (leb (choice_index x) (choice_index y))) [
      | inl low ↦ rw low ((λ m. m), (λ m. m))
      | inr high ↦ rw high (
        (λ m. elim (Memᴰ.cases_cons m) [
          | inl here ↦ Memᴰ.tail (Memᴰ.head here)
          | inr later ↦ elim (Memᴰ.cases_cons (to later)) [
            | inl first ↦ Memᴰ.head first
            | inr rest ↦ Memᴰ.tail (Memᴰ.tail rest)
          ]
        ]),
        (λ m. elim (Memᴰ.cases_cons m) [
          | inl first ↦ Memᴰ.tail (from (Memᴰ.head first))
          | inr rest ↦ elim (Memᴰ.cases_cons rest) [
            | inl here ↦ Memᴰ.head here
            | inr later ↦ Memᴰ.tail (from (Memᴰ.tail later))
          ]
        ]),
      )
    ]

pub sort_iff : (z : CipherChoice) (xs : List CipherChoice) → Memᴰ z (sort xs) ↔ Memᴰ z xs
sort_iff z [] = ((λ m. m), (λ m. m))
sort_iff z (x ∷ xs) =
    let (to, from) = insert_choice_iff z x (sort xs) in
    let (to_rest, from_rest) = sort_iff z xs in
    (
      (λ m. elim (Memᴰ.cases_cons (to m)) [
        | inl here ↦ Memᴰ.head here
        | inr later ↦ Memᴰ.tail (to_rest later)
      ]),
      (λ m. elim (Memᴰ.cases_cons m) [
        | inl here ↦ from (Memᴰ.head here)
        | inr later ↦ from (Memᴰ.tail (from_rest later))
      ]),
    )

join_equal_iff :
    (z x : CipherChoice) (xs : List CipherChoice) → Memᴰ z (join_equal x xs) ↔ Memᴰ z (x ∷ xs)
join_equal_iff z x [] = ((λ m. m), (λ m. m))
join_equal_iff z x (y ∷ ys) = elim (Bool-cases (eq_choice x y)) [
  | inr differs ↦ rw differs ((λ m. m), (λ m. m))
  | inl same ↦
      let e = eq_choice→eq x y same in
      rw same (
        (λ m. Memᴰ.tail m),
        (λ m. elim (Memᴰ.cases_cons m) [ inl here ↦ Memᴰ.head (here ∙ e) | inr later ↦ later ]),
      )
]

pub dedup_iff : (z : CipherChoice) (xs : List CipherChoice) → Memᴰ z (dedup xs) ↔ Memᴰ z xs
dedup_iff z [] = ((λ m. m), (λ m. m))
dedup_iff z (x ∷ xs) =
    let (to, from) = join_equal_iff z x (dedup xs) in
    let (to_rest, from_rest) = dedup_iff z xs in
    (
      (λ m. elim (Memᴰ.cases_cons (to m)) [
        | inl here ↦ Memᴰ.head here
        | inr later ↦ Memᴰ.tail (to_rest later)
      ]),
      (λ m. elim (Memᴰ.cases_cons m) [
        | inl here ↦ from (Memᴰ.head here)
        | inr later ↦ from (Memᴰ.tail (from_rest later))
      ]),
    )
