-- ===== src/Base/Utf8/RoundTrip.antt =====
-- Decoding the bytes of a text gives the text, and a text cut inside a character does not decode.
use Prim.Native.Nat.{ℕ, zero, suc, ◌≤◌, ◌<◌}
use mathlib.Core.Path.{◌≡◌, refl}
use mathlib.Core.Logic.{◌⊎◌, inl, inr}
use mathlib.Core.List.{[], ◌∷◌, ◌++◌}
use mathlib.Core.Option
use mathlib.Core.Option.{Option, none, some}
use native.Mathlib.Omega.{arith}
use memhunt.Base.Tests.{Bytes, Text}
use memhunt.Base.Lists.{All}
use memhunt.Base.Utf8.{Pending, start, due, Read, bad, wait, char, next_byte, decode_from}
use memhunt.Base.Utf8.{from_utf8, encode_char, as_bytes, IsScalar}

decode-encode_char :
    (c : ℕ) (rest : Bytes)
    → IsScalar c
    → decode_from start (encode_char c ++ rest) ≡ Option.map (λ s. c ∷ s) (decode_from start rest)
unfolding decode_from encode_char
decode-encode_char c rest h = ground arith

-- `from_utf8` reads back every text of scalar values.
pub from_utf8-as_bytes : (s : Text) → All IsScalar s → from_utf8 (as_bytes s) ≡ some s
unfolding from_utf8 as_bytes
from_utf8-as_bytes [] h = unfold decode_from in refl
from_utf8-as_bytes (c ∷ s) (hc, hs) =
    rw (decode-encode_char c (as_bytes s) hc, from_utf8-as_bytes s hs)

-- A continuation byte lies below 0xc0, so a lead byte is never one.
abbrev pub highest : Pending → ℕ
highest start = 0
highest (due more lo hi acc) = hi

abbrev pub IsLow : Pending → Type 0
IsLow p = highest p < 0xc0

next_byte-IsLow : (p q : Pending) (b : ℕ) → IsLow p → next_byte p b ≡ wait q → IsLow q
unfolding next_byte
next_byte-IsLow start q b h e = ground arith
next_byte-IsLow (due zero lo hi acc) q b h e = ground arith
next_byte-IsLow (due (suc more) lo hi acc) q b h e = ground arith

Read-cases : (r : Read) → (r ≡ bad) ⊎ ((q : Pending) × (r ≡ wait q)) ⊎ ((c : ℕ) × (r ≡ char c))
Read-cases bad = inl refl
Read-cases (wait q) = inr (inl (q, refl))
Read-cases (char c) = inr (inr (c, refl))

-- Whatever stands before it, a lead byte with nothing behind it does not decode.
pub decode_cut :
    (p : Pending) (bs : Bytes) (lead : ℕ)
    → 0xc2 ≤ lead
    → IsLow p
    → decode_from p (bs ++ lead ∷ []) ≡ none
unfolding decode_from
decode_cut start [] lead h low = ground arith
decode_cut (due zero lo hi acc) [] lead h low = ground arith
decode_cut (due (suc more) lo hi acc) [] lead h low = ground arith
decode_cut p (b ∷ bs) lead h low = elim (Read-cases (next_byte p b)) [
  | inl e ↦ rw (e, decode_from)
  | inr (inl (q, e)) ↦ rw (e, decode_from) (decode_cut q bs lead h (next_byte-IsLow p q b low e))
  | inr (inr (c, e)) ↦ rw (e, decode_from) (rw (decode_cut start bs lead h (omega arith)))
]
