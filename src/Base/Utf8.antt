-- ===== src/Base/Utf8.antt =====
-- `std::str::from_utf8`: a decoder that takes a byte at a time, and the encoding of a `char`.
pub mod RoundTrip
use Prim.Native.Nat.{ℕ, zero, suc, ◌+◌, ◌-◌, ◌*◌, ◌/◌, ◌%◌, ◌≤◌, ◌<◌}
use mathlib.Core.Logic.{◌⊎◌}
use mathlib.Core.Bool.{◌&&◌}
use mathlib.Core.List.{List, [], ◌∷◌, ◌++◌}
use mathlib.Core.Option
use mathlib.Core.Option.{Option, none, some}
use memhunt.Base.Tests.{Bytes, Text, leb, ltb, ◌==◌, if◌then◌else◌}

-- What the next byte may be: the start of a character, or one of the `suc more` continuation bytes
-- still due, between `lo` and `hi`, behind the bits `acc`.
pub data Pending : Type 0 where
  start : Pending
  due : (more lo hi acc : ℕ) → Pending

pub data Read : Type 0 where
  bad : Read
  wait : Pending → Read
  char : ℕ → Read

-- The table of well-formed UTF-8: no overlong form, no surrogate, nothing above U+10FFFF.
unfoldable pub lead_byte : ℕ → Read
lead_byte b =
    if leb b 0x7f
    then char b
    else if leb b 0xc1
    then bad
    else if leb b 0xdf
    then wait (due 0 0x80 0xbf (b - 0xc0))
    else if b == 0xe0
    then wait (due 1 0xa0 0xbf 0)
    else if b == 0xed
    then wait (due 1 0x80 0x9f 13)
    else if leb b 0xef
    then wait (due 1 0x80 0xbf (b - 0xe0))
    else if b == 0xf0
    then wait (due 2 0x90 0xbf 0)
    else if leb b 0xf3
    then wait (due 2 0x80 0xbf (b - 0xf0))
    else if b == 0xf4
    then wait (due 2 0x80 0x8f 4)
    else bad

unfoldable pub next_byte : Pending → ℕ → Read
unfolding lead_byte
next_byte start b = lead_byte b
next_byte (due zero lo hi acc) b =
    if leb lo b && leb b hi then char (acc * 64 + (b - 0x80)) else bad
next_byte (due (suc more) lo hi acc) b =
    if leb lo b && leb b hi then wait (due more 0x80 0xbf (acc * 64 + (b - 0x80))) else bad

-- The input may end between characters only.
unfoldable pub at_end : Pending → Option Text
at_end start = some []
at_end (due more lo hi acc) = none

unfoldable pub decode_from : Pending → Bytes → Option Text
unfolding next_byte at_end
decode_from p [] = at_end p
decode_from p (b ∷ bs) = elim (next_byte p b) [
  | bad ↦ none
  | wait q ↦ decode_from q bs
  | char c ↦ Option.map (λ s. c ∷ s) (decode_from start bs)
]

unfoldable pub from_utf8 : Bytes → Option Text
unfolding decode_from
from_utf8 bs = decode_from start bs

-- The bytes of a character.
unfoldable pub encode_char : ℕ → Bytes
encode_char c =
    if ltb c 0x80
    then c ∷ []
    else if ltb c 0x800
    then (0xc0 + c / 64) ∷ (0x80 + c % 64) ∷ []
    else if ltb c 0x10000
    then (0xe0 + c / 4096) ∷ (0x80 + c / 64 % 64) ∷ (0x80 + c % 64) ∷ []
    else (0xf0 + c / 262144) ∷ (0x80 + c / 4096 % 64) ∷ (0x80 + c / 64 % 64) ∷ (0x80 + c % 64) ∷ []

-- `str::as_bytes`.
unfoldable pub as_bytes : Text → Bytes
unfolding encode_char
as_bytes [] = []
as_bytes (c ∷ s) = encode_char c ++ as_bytes s

-- A Unicode scalar value: what a `char` can hold.
abbrev pub IsScalar : ℕ → Type 0
IsScalar c = (c < 0x110000) × ((c < 0xd800) ⊎ (0xe000 ≤ c))
