-- ===== src/Base/Bits.antt =====
-- Laws of the native bitwise operations at variables, by recursion on binary digits.
mod Step
use Step.{bit_or_step, bit_and_step, bit_xor_step}
use Prim.Native.Nat.{ℕ, zero, suc, ◌+◌, ◌-◌, ◌*◌, ◌/◌, ◌%◌, ◌^◌, ◌≤◌, ◌<◌, bit_and, bit_or, bit_xor}
use Prim.Native.Nat.{bit_or-bitwise, bit_xor-bitwise}
use mathlib.Core.Path.{◌≡◌, refl, ap}
use native.Mathlib.Nat.{pow-suc, one-le-pow}
use mathlib.Core.Bool.{Bool, true, ◌&&◌}
use native.Mathlib.Omega.{arith}
use memhunt.Base.Tests.{◌==◌, ==→eq}

-- Exclusive or. The bound on both numbers is what the induction runs on.
xor_cancel_below : (n a b : ℕ) → a ≤ n → b ≤ n → bit_xor (bit_xor a b) b ≡ a
xor_cancel_below zero zero zero p q = refl
xor_cancel_below zero (suc a) b p q = elim p [ ]
xor_cancel_below zero zero (suc b) p q = elim q [ ]
xor_cancel_below (suc n) a b p q =
    let x = bit_xor a b in
    let high = bit_xor (a / 2) (b / 2) in
    let step : x ≡ high * 2 + (a + b) % 2 = bit_xor_step a b in
    let half : x / 2 ≡ high = omega arith in
    let rest : bit_xor (x / 2) (b / 2) ≡ a / 2 =
      rw half (xor_cancel_below n (a / 2) (b / 2) (omega arith) (omega arith)) in
    omega (arith, bit_xor_step x b)

-- Masking twice with the same key gives the value back.
pub bit_xor_cancel : (a b : ℕ) → bit_xor (bit_xor a b) b ≡ a
bit_xor_cancel a b = xor_cancel_below (a + b) a b (omega arith) (omega arith)

xor_comm_below : (n a b : ℕ) → a ≤ n → b ≤ n → bit_xor a b ≡ bit_xor b a
xor_comm_below zero zero zero p q = refl
xor_comm_below zero (suc a) b p q = elim p [ ]
xor_comm_below zero zero (suc b) p q = elim q [ ]
xor_comm_below (suc n) a b p q = omega (
  arith,
  bit_xor_step a b,
  bit_xor_step b a,
  xor_comm_below n (a / 2) (b / 2) (omega arith) (omega arith),
)

pub bit_xor_comm : (a b : ℕ) → bit_xor a b ≡ bit_xor b a
bit_xor_comm a b = xor_comm_below (a + b) a b (omega arith) (omega arith)

-- Nothing is masked by zero.
pub bit_xor-zero : (a : ℕ) → bit_xor a 0 ≡ a
bit_xor-zero a = omega (arith, bit_xor_comm a 0, bit_xor-bitwise 0 a)

-- No bit appears that neither number has.
pub bit_xor-lt : (k a b : ℕ) → a < 2 ^ k → b < 2 ^ k → bit_xor a b < 2 ^ k
bit_xor-lt zero zero zero p q = omega arith
bit_xor-lt zero (suc a) b p q = absurd (omega arith)
bit_xor-lt zero zero (suc b) p q = absurd (omega arith)
bit_xor-lt (suc k) a b p q = omega (
  arith,
  pow-suc 2 k,
  bit_xor_step a b,
  bit_xor-lt k (a / 2) (b / 2) (omega (arith, pow-suc 2 k)) (omega (arith, pow-suc 2 k)),
)

pub bit_xor-lt-byte : (a b : ℕ) → a < 256 → b < 256 → bit_xor a b < 256
bit_xor-lt-byte a b p q = bit_xor-lt 8 a b p q

and_zero_below : (n a : ℕ) → a ≤ n → bit_and a 0 ≡ 0
and_zero_below n zero p = refl
and_zero_below zero (suc a) p = elim p [ ]
and_zero_below (suc n) (suc a) p =
    omega (arith, bit_and_step (suc a) 0, and_zero_below n (suc a / 2) (omega arith))

double_high : (q k : ℕ) → q * 2 ^ suc k ≡ 2 * (q * 2 ^ k)
double_high q k = omega (arith, ap (λ (t : ℕ). q * t) (pow-suc 2 k))

bit_and_low : (k q r : ℕ) → r < 2 ^ k → bit_and (q * 2 ^ k + r) (2 ^ k - 1) ≡ r
bit_and_low zero q r h = omega (arith, and_zero_below (q * 1 + r) (q * 1 + r) (omega arith))
bit_and_low (suc k) q r h =
    let low = q * 2 ^ suc k + r in
    let halved : low / 2 ≡ q * 2 ^ k + r / 2 = omega (arith, double_high q k) in
    let mask : (2 ^ suc k - 1) / 2 ≡ 2 ^ k - 1 = omega (arith, pow-suc 2 k) in
    let rest : bit_and (low / 2) ((2 ^ suc k - 1) / 2) ≡ r / 2 =
      rw (halved, mask) (bit_and_low k q (r / 2) (omega (arith, pow-suc 2 k))) in
    omega (arith, bit_and_step low (2 ^ suc k - 1), double_high q k, pow-suc 2 k, one-le-pow k 2)

-- A mask of the `k` low bits is a remainder.
pub bit_and_mask : (k a : ℕ) → bit_and a (2 ^ k - 1) ≡ a % 2 ^ k
bit_and_mask k a = ground (arith, one-le-pow k 2, bit_and_low k (a / 2 ^ k) (a % 2 ^ k))

or_zero_below : (n a : ℕ) → a ≤ n → bit_or a 0 ≡ a
or_zero_below n zero p = refl
or_zero_below zero (suc a) p = elim p [ ]
or_zero_below (suc n) (suc a) p =
    omega (arith, bit_or_step (suc a) 0, or_zero_below n (suc a / 2) (omega arith))

-- `r | (q << k)` is a sum when `r` fits in `k` bits.
pub bit_or_shifted : (k r q : ℕ) → r < 2 ^ k → bit_or r (q * 2 ^ k) ≡ r + q * 2 ^ k
bit_or_shifted zero zero q h = omega (arith, bit_or-bitwise 0 (q * 2 ^ 0))
bit_or_shifted zero (suc r) q h = absurd (omega arith)
bit_or_shifted (suc k) r q h =
    let high = q * 2 ^ suc k in
    let halved : high / 2 ≡ q * 2 ^ k = omega (arith, double_high q k) in
    let rest : bit_or (r / 2) (high / 2) ≡ r / 2 + q * 2 ^ k =
      rw halved (bit_or_shifted k (r / 2) q (omega (arith, pow-suc 2 k))) in
    omega (arith, bit_or_step r high, double_high q k)

-- Facts about a byte are tables, checked by evaluation.
unfoldable pub holds_below : ℕ → (ℕ → Bool) → Bool
holds_below zero p = true
holds_below (suc n) p = p n && holds_below n p

pub holds_below_at : (n : ℕ) (p : ℕ → Bool) (x : ℕ) → holds_below n p ≡ true → x < n → p x ≡ true
unfolding holds_below
holds_below_at zero p x h lt = absurd (omega arith)
holds_below_at (suc n) p x h lt = ground (arith, holds_below_at n p x)

module _ (f g : ℕ → ℕ) where
  abbrev agrees : ℕ → Bool
  agrees x = f x == g x

  pub byte_table : holds_below 256 agrees ≡ true → (b : ℕ) → b < 256 → f b ≡ g b
  byte_table h b lt = ==→eq (f b) (g b) (holds_below_at 256 agrees b h lt)

-- `b & 0x80 == 0` reads the top bit.
pub bit_and_top : (b : ℕ) → b < 256 → bit_and b 0x80 ≡ b / 128 * 128
unfolding holds_below
bit_and_top = byte_table _ _ refl

-- `flg & 0xe0` reads the three top bits.
pub bit_and_top_three : (b : ℕ) → b < 256 → bit_and b 0xe0 ≡ b / 32 * 32
unfolding holds_below
bit_and_top_three = byte_table _ _ refl
