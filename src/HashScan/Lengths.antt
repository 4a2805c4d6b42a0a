-- ===== src/HashScan/Lengths.antt =====
-- The passes over the windows of each length, and the lists of lengths.
use memhunt.Base.{none_ne_some}
use memhunt.Base.{ℕ, zero, suc, ◌+◌, ◌-◌, ◌≤◌, ◌<◌, ◌≡◌, refl, subst, inl, inr, arith}
use memhunt.Base.{Bytes, Text, false, ◌++◌, List, [], ◌∷◌, Memᴰ, Option, some, All}
use memhunt.Base.{length, take, drop, ◌==◌, ==→eq, Bool-cases}
use memhunt.Base.{eq_list, eq_list→eq, eq_list_self}
use memhunt.Base.{sweep, positions, sweep_complete, sweep_sound}
use memhunt.Base.{ok}
use mathlib.Core.List.Memᴰ
use memhunt.HashScan.Scan.{HashHit, LengthRange, range_from, inclusive, scan_lengths}
use memhunt.HashScan.Scan.{digest_test, hash_hit}

module _ (dump : Bytes) (test : ℕ → ℕ → Bytes → Option HashHit) where
  -- What `scan_lengths` gives where no length is 0.
  unfoldable pub pass_lengths : List ℕ → ℕ → ℕ × List HashHit
  pass_lengths [] tried = (tried, [])
  pass_lengths (len ∷ lens) tried =
      let found = sweep false (test len) (positions len dump) tried in
      let more = pass_lengths lens found.0 in (more.0, found.1 ++ more.1)

  pub scan_lengths-pass_lengths :
      (lens : List ℕ) (tried : ℕ)
      → All (λ l. 0 < l) lens
      → scan_lengths dump test lens tried ≡ ok (pass_lengths lens tried)
  unfolding scan_lengths pass_lengths
  scan_lengths-pass_lengths [] tried pos = refl
  scan_lengths-pass_lengths (len ∷ lens) tried (pos, more) =
      let found = sweep false (test len) (positions len dump) tried in
      let no_panic : (len == 0) ≡ false = ground arith in
      rw (no_panic, scan_lengths-pass_lengths lens found.0 more)

  pub pass_lengths_complete :
      (lens : List ℕ) (tried len offset : ℕ) (hit : HashHit)
      → Memᴰ len lens
      → 0 < len
      → offset + len ≤ length dump
      → test len offset (take len (drop offset dump)) ≡ some hit
      → Memᴰ hit (pass_lengths lens tried).1
  unfolding pass_lengths
  pass_lengths_complete [] tried len offset hit m pos fits e = absurd (Memᴰ.not-nil m)
  pass_lengths_complete (l ∷ lens) tried len offset hit m pos fits e = elim (Memᴰ.cases_cons m) [
    | inl same ↦ Memᴰ.append_left _ (
        subst (λ k. Memᴰ hit (sweep false (test k) (positions k dump) tried).1) same
          (sweep_complete len (test len) dump tried offset hit pos fits e))
    | inr later ↦
        Memᴰ.append_right (sweep false (test l) (positions l dump) tried).1
          (pass_lengths_complete lens _ len offset hit later pos fits e)
  ]

  pub pass_lengths_sound :
      (lens : List ℕ) (tried : ℕ) (hit : HashHit)
      → Memᴰ hit (pass_lengths lens tried).1
      → (len : ℕ) × (offset : ℕ) × Memᴰ len lens
        × (offset + len ≤ length dump)
        × (test len offset (take len (drop offset dump)) ≡ some hit)
  unfolding pass_lengths
  pass_lengths_sound [] tried hit m = absurd (Memᴰ.not-nil m)
  pass_lengths_sound (l ∷ lens) tried hit m =
      elim (Memᴰ.append_cases (sweep false (test l) (positions l dump) tried).1 m) [
        | inl here ↦
            let (offset, fits, e) = sweep_sound l (test l) dump tried hit here in
            (l, offset, Memᴰ.head refl, fits, e)
        | inr later ↦
            let (len, offset, at, fits, e) = pass_lengths_sound lens _ hit later in
            (len, offset, Memᴰ.tail at, fits, e)
      ]

pub range_from-bounds :
    (lo count l : ℕ) → Memᴰ l (range_from lo count) → (lo ≤ l) × (l < lo + count)
unfolding range_from
range_from-bounds lo zero l m = absurd (Memᴰ.not-nil m)
range_from-bounds lo (suc count) l m = elim (Memᴰ.cases_cons m) [
  | inl same ↦ (omega arith, omega arith)
  | inr later ↦
      let (low, high) = range_from-bounds (lo + 1) count l later in (omega arith, omega arith)
]

mem-range_from : (lo count l : ℕ) → lo ≤ l → l < lo + count → Memᴰ l (range_from lo count)
unfolding range_from
mem-range_from lo zero l low high = absurd (omega arith)
mem-range_from lo (suc count) l low high = elim (Bool-cases (l == lo)) [
  | inl here ↦ Memᴰ.head (==→eq l lo here)
  | inr above ↦ Memᴰ.tail (mem-range_from (lo + 1) count l (ground arith) (omega arith))
]

-- `min..=max` holds the numbers between its ends.
pub inclusive-bounds : (r : LengthRange) (l : ℕ) → Memᴰ l (inclusive r) → (r.min ≤ l) × (l ≤ r.max)
unfolding inclusive
inclusive-bounds r l m =
    let (low, high) = range_from-bounds r.min (r.max + 1 - r.min) l m in (low, omega arith)

pub mem-inclusive : (r : LengthRange) (l : ℕ) → r.min ≤ l → l ≤ r.max → Memᴰ l (inclusive r)
unfolding inclusive
mem-inclusive r l low high = mem-range_from r.min (r.max + 1 - r.min) l low (omega arith)

pub All-range_from : (lo count : ℕ) → 0 < lo → All (λ l. 0 < l) (range_from lo count)
unfolding range_from
All-range_from lo zero h = tt
All-range_from lo (suc count) h = (h, All-range_from (lo + 1) count (omega arith))

-- The closure of a search gives a hit exactly where the digest is the target.
pub digest_test_hit :
    (hex_encode : Bytes → Text) (algo kind : Text) (digest : Bytes → Bytes) (target : Bytes)
    (len offset : ℕ) (win : Bytes) (hit : HashHit)
    → digest_test hex_encode algo kind digest target len offset win ≡ some hit
    → (digest win ≡ target) × (hit ≡ hash_hit hex_encode algo kind len offset win)
digest_test_hit hex_encode algo kind digest target len offset win hit e =
    elim (Bool-cases (eq_list (digest win) target)) [
      | inl same ↦ (eq_list→eq (digest win) target same, cc (rw same at e))
      | inr differs ↦ absurd (none_ne_some (rw differs at e))
    ]

pub digest_test-some :
    (hex_encode : Bytes → Text) (algo kind : Text) (digest : Bytes → Bytes) (target : Bytes)
    (len offset : ℕ) (win : Bytes)
    → digest win ≡ target
    → digest_test hex_encode algo kind digest target len offset win
      ≡ some (hash_hit hex_encode algo kind len offset win)
digest_test-some hex_encode algo kind digest target len offset win e = rw (e, eq_list_self target)
