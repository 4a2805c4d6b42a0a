-- ===== src/Oracle/Accepts/Known.antt =====
-- `KnownPlaintextOracle` looks for its fragment anywhere in the head.
use memhunt.Base.{ℕ, suc, ◌≤◌, max, ◌≡◌, refl, sym, ap, ◌≢◌, ◌↔◌, inl, inr, arith}
use memhunt.Base.{Bytes, true, [], ◌∷◌, ◌++◌, length, take, drop, any, eq_list, eq_list→eq}
use memhunt.Base.{eq_list_self, windows, leb, le→leb, leb→le, Bool-cases}
use memhunt.Base.{
  take-append-drop, take-length_append, length-append, length-take, ||→either, right→||, true≢false,
}
use memhunt.Oracle.Plain.{verify_known}

-- The fragment stands somewhere in the head, and is not empty.
pub record Holds (fragment head : Bytes) : Type 0 where
  pub before : Bytes
  pub after : Bytes
  pub split : head ≡ before ++ (fragment ++ after)
  pub not_empty : fragment ≢ []

module _ (fragment : Bytes) (n : ℕ) where
  abbrev Found : Bytes → Type 0
  Found head = any (λ w. eq_list w fragment) (windows n head) ≡ true

  Found-here :
      (x : ℕ) (xs : Bytes) → n ≤ length (x ∷ xs) → take n (x ∷ xs) ≡ fragment → Found (x ∷ xs)
  unfolding windows
  Found-here x xs fits e = rw (le→leb n (length (x ∷ xs)) fits, e, eq_list_self fragment)

  Found-later : (x : ℕ) (xs : Bytes) → n ≤ length (x ∷ xs) → Found xs → Found (x ∷ xs)
  unfolding windows
  Found-later x xs fits e = rw (le→leb n (length (x ∷ xs)) fits) (right→|| _ _ e)

Found-at :
    (fragment before after : Bytes)
    → fragment ≢ []
    → Found fragment (length fragment) (before ++ (fragment ++ after))
Found-at [] before after h = absurd (h refl)
Found-at (y ∷ ys) [] after h =
    Found-here (y ∷ ys) (length (y ∷ ys)) y (ys ++ after) (omega (arith, length-append ys after))
      (take-length_append (y ∷ ys) after)
Found-at (y ∷ ys) (x ∷ before) after h =
    Found-later (y ∷ ys) (length (y ∷ ys)) x (before ++ (y ∷ (ys ++ after)))
      (omega (arith, length-append before (y ∷ (ys ++ after)), length-append ys after))
      (Found-at (y ∷ ys) before after h)

Found-sound :
    (fragment : Bytes) (n : ℕ) (head : Bytes)
    → Found fragment n head
    → (before : Bytes) × (after : Bytes) × (head ≡ before ++ (fragment ++ after))
      × (n ≤ length head)
      × (length fragment ≡ n)
unfolding windows
Found-sound fragment n [] e = cc
Found-sound fragment n (x ∷ xs) e = elim (Bool-cases (leb n (suc (length xs)))) [
  | inr short ↦ absurd (true≢false (sym (rw short at e)))
  | inl fits ↦ elim (||→either _ _ (rw fits at e)) [
    | inl here ↦
        let same = eq_list→eq (take n (x ∷ xs)) fragment here in
        (
          [],
          drop n (x ∷ xs),
          sym (rw same at (take-append-drop n (x ∷ xs))),
          leb→le _ _ fits,
          omega (arith, ap length same, length-take n (x ∷ xs), leb→le n _ fits),
        )
    | inr later ↦
        let (before, after, split, fits', len) = Found-sound fragment n xs later in
        (x ∷ before, after, ap (◌∷◌ x) split, leb→le _ _ fits, len)
  ]
]

nonempty_max : (fragment : Bytes) → fragment ≢ [] → max (length fragment) 1 ≡ length fragment
nonempty_max [] h = absurd (h refl)
nonempty_max (x ∷ xs) h = omega arith

-- `KnownPlaintextOracle` accepts exactly the heads that hold its fragment somewhere; with an empty
-- fragment it accepts nothing.
pub verify_known_iff :
    (fragment head : Bytes) → (verify_known fragment head ≡ true) ↔ Holds fragment head
unfolding verify_known
verify_known_iff fragment head = (to, from)
  where
    to : verify_known fragment head ≡ true → Holds fragment head
    to e =
        let (before, after, split, fits, len) =
          Found-sound fragment (max (length fragment) 1) head e in
        record {
          before = before;
          after = after;
          split = split;
          not_empty = λ nil. absurd (omega (arith, len, ap length nil));
        }

    from : Holds fragment head → verify_known fragment head ≡ true
    from h =
        rw (nonempty_max fragment h.not_empty, h.split)
          (Found-at fragment h.before h.after h.not_empty)
