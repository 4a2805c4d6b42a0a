-- ===== src/Base/Tests.antt =====
-- Boolean tests on the native numbers, the conditional, and text literals as code points.
use Prim.Native.Nat.{ℕ, ◌≤◌, ◌<◌, compare, Ordering}
use Prim.Native.Char.{code}
use Prim.Native.String.{String}
use mathlib.Core.Path.{◌≡◌, refl}
use mathlib.Core.Logic.{◌≢◌, ◌⊎◌, inl, inr}
use mathlib.Core.Bool.{Bool, true, false, ◌&&◌, ◌||◌}
use mathlib.Core.List.{List, [], ◌∷◌}
use mathlib.Core.Option.{Option, none, some}
use native.Mathlib.Omega.{arith}

abbrev pub ltb : ℕ → ℕ → Bool
ltb a b = elim (compare a b) [ Ordering.lt ↦ true | _ ↦ false ]

abbrev pub leb : ℕ → ℕ → Bool
leb a b = elim (compare a b) [ Ordering.gt ↦ false | _ ↦ true ]

infix 50 ◌==◌
abbrev pub ◌==◌ : ℕ → ℕ → Bool
a == b = elim (compare a b) [ Ordering.eq ↦ true | _ ↦ false ]

infix 1 if◌then◌else◌
abbrev pub if◌then◌else◌ {ℓ} : {A : Type ℓ} → Bool → A → A → A
if true then x else y = x
if false then x else y = y

pub ltb→lt : (a b : ℕ) → ltb a b ≡ true → a < b
ltb→lt a b h = ground arith

pub lt→ltb : (a b : ℕ) → a < b → ltb a b ≡ true
lt→ltb a b h = ground arith

pub leb→le : (a b : ℕ) → leb a b ≡ true → a ≤ b
leb→le a b h = ground arith

pub le→leb : (a b : ℕ) → a ≤ b → leb a b ≡ true
le→leb a b h = ground arith

pub ==→eq : (a b : ℕ) → (a == b) ≡ true → a ≡ b
==→eq a b h = ground arith

pub ==_self : (a : ℕ) → (a == a) ≡ true
==_self a = ground arith

pub &&→both : (a b : Bool) → (a && b) ≡ true → (a ≡ true) × (b ≡ true)
&&→both a b h = ground arith

pub both→&& : (a b : Bool) → a ≡ true → b ≡ true → (a && b) ≡ true
both→&& a b h k = ground arith

pub ||→either : (a b : Bool) → (a || b) ≡ true → (a ≡ true) ⊎ (b ≡ true)
||→either a b h = ground arith

pub right→|| : (a b : Bool) → b ≡ true → (a || b) ≡ true
right→|| a b h = ground arith

pub true≢false : true ≢ false
true≢false h = cc

-- A computed value, split with its equation kept.
pub Bool-cases : (b : Bool) → (b ≡ true) ⊎ (b ≡ false)
Bool-cases true = inl refl
Bool-cases false = inr refl

pub Option-cases {ℓ} : {A : Type ℓ} (o : Option A) → (o ≡ none) ⊎ ((a : A) × (o ≡ some a))
Option-cases none = inl refl
Option-cases (some a) = inr (a, refl)

-- A byte string is a list of numbers, each below 256 where a theorem needs it.
abbrev pub Bytes : Type 0
Bytes = List ℕ

-- A `&str` or `String`, as its sequence of code points.
abbrev pub Text : Type 0
Text = List ℕ

-- The code points of a literal; its bytes, where it is ASCII.
abbrev pub codes : String → List ℕ
codes String.[] = []
codes (String.◌∷◌ c s) = code c ∷ codes s

-- `==` on slices, `Vec`s and texts.
abbrev pub eq_list : List ℕ → List ℕ → Bool
eq_list [] [] = true
eq_list [] (y ∷ ys) = false
eq_list (x ∷ xs) [] = false
eq_list (x ∷ xs) (y ∷ ys) = x == y && eq_list xs ys

pub eq_list→eq : (xs ys : List ℕ) → eq_list xs ys ≡ true → xs ≡ ys
eq_list→eq [] [] h = refl
eq_list→eq [] (y ∷ ys) h = cc
eq_list→eq (x ∷ xs) [] h = cc
eq_list→eq (x ∷ xs) (y ∷ ys) h = ground (arith, eq_list→eq xs ys)

pub eq_list_self : (xs : List ℕ) → eq_list xs xs ≡ true
eq_list_self [] = refl
eq_list_self (x ∷ xs) = ground (arith, eq_list_self xs)
