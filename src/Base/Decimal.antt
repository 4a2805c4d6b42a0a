-- ===== src/Base/Decimal.antt =====
-- How `format!` prints an unsigned integer.
use Prim.Native.Nat.{ℕ, zero, suc, ◌+◌, ◌-◌, ◌*◌, ◌/◌, ◌%◌, ◌<◌}
use mathlib.Core.Path.{◌≡◌, refl, ◌∙◌}
use mathlib.Core.Logic.{inl, inr}
use mathlib.Core.List.{[], ◌∷◌, ◌++◌}
use native.Mathlib.Omega.{arith}
use memhunt.Base.Tests.{Text, ltb, if◌then◌else◌, Bool-cases}

-- The digits by rounds, the last digit in the first round.
unfoldable pub decimal_rounds : ℕ → ℕ → Text
decimal_rounds zero n = []
decimal_rounds (suc rounds) n =
    let rest = decimal_rounds rounds (n / 10) in
    if ltb n 10 then (b'0' + n) ∷ [] else rest ++ (b'0' + n % 10) ∷ []

-- `n + 1` rounds are enough.
unfoldable pub to_decimal : ℕ → Text
unfolding decimal_rounds
to_decimal n = decimal_rounds (suc n) n

-- The number that a text of digits stands for, behind the digits read before.
abbrev pub value_from : ℕ → Text → ℕ
value_from acc [] = acc
value_from acc (c ∷ s) = value_from (acc * 10 + (c - b'0')) s

value_from-append :
    (acc : ℕ) (s t : Text) → value_from acc (s ++ t) ≡ value_from (value_from acc s) t
value_from-append acc [] t = refl
value_from-append acc (c ∷ s) t = value_from-append (acc * 10 + (c - b'0')) s t

decimal_rounds_value : (rounds n : ℕ) → n < rounds → value_from 0 (decimal_rounds rounds n) ≡ n
unfolding decimal_rounds
decimal_rounds_value zero n h = elim h [ ]
decimal_rounds_value (suc rounds) n h = elim (Bool-cases (ltb n 10)) [
  | inl small ↦ rw small (omega arith)
  | inr large ↦
      let front = decimal_rounds rounds (n / 10) in
      let ih : value_from 0 front ≡ n / 10 =
        decimal_rounds_value rounds (n / 10) (ground (arith, large)) in
      rw large (value_from-append 0 front ((b'0' + n % 10) ∷ []) ∙ omega (arith, ih))
]

-- The printed digits stand for the number.
pub to_decimal_value : (n : ℕ) → value_from 0 (to_decimal n) ≡ n
unfolding to_decimal
to_decimal_value n = decimal_rounds_value (suc n) n (omega arith)
