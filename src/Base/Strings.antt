-- ===== src/Base/Strings.antt =====
-- What the program uses of `str`: a text is its list of code points.
use Prim.Native.Nat.{ℕ, ◌+◌, ◌-◌}
use mathlib.Core.Bool.{Bool, ◌&&◌, ◌||◌}
use mathlib.Core.List.{List, [], ◌∷◌}
use mathlib.Core.Option.{Option, none, some}
use memhunt.Base.Tests.{Text, eq_list, leb, ◌==◌, if◌then◌else◌}
use memhunt.Base.Lists.{length, take, drop, is_empty}

-- `char::is_whitespace`: the White_Space property of Unicode.
unfoldable pub is_whitespace : ℕ → Bool
is_whitespace c =
    leb 0x09 c && leb c 0x0d
    || c == 0x20
    || c == 0x85
    || c == 0xa0
    || c == 0x1680
    || leb 0x2000 c && leb c 0x200a
    || c == 0x2028
    || c == 0x2029
    || c == 0x202f
    || c == 0x205f
    || c == 0x3000

-- `char::is_control`: the general category Cc.
unfoldable pub is_control : ℕ → Bool
is_control c = leb c 0x1f || leb 0x7f c && leb c 0x9f

unfoldable pub trim_start : Text → Text
unfolding is_whitespace
trim_start [] = []
trim_start (c ∷ s) = let rest = trim_start s in if is_whitespace c then rest else c ∷ s

unfoldable pub trim_end : Text → Text
unfolding is_whitespace
trim_end [] = []
trim_end (c ∷ s) =
    let rest = trim_end s in if is_empty rest && is_whitespace c then [] else c ∷ rest

unfoldable pub trim : Text → Text
unfolding trim_start trim_end
trim s = trim_end (trim_start s)

-- The character joins the first part.
abbrev pub grow_first : ℕ → List Text → List Text
grow_first c [] = (c ∷ []) ∷ []
grow_first c (p ∷ ps) = (c ∷ p) ∷ ps

-- `split(sep)`: one part at least.
unfoldable pub split : ℕ → Text → List Text
split sep [] = [] ∷ []
split sep (c ∷ s) = if c == sep then [] ∷ split sep s else grow_first c (split sep s)

-- `starts_with(prefix)`.
unfoldable pub starts_with : Text → Text → Bool
starts_with prefix s = eq_list (take (length prefix) s) prefix

-- `strip_suffix(suffix)`.
unfoldable pub strip_suffix : Text → Text → Option Text
strip_suffix suffix s =
    let front = length s - length suffix in
    if leb (length suffix) (length s) && eq_list (drop front s) suffix
    then some (take front s)
    else none

abbrev lowercase_char : ℕ → ℕ
lowercase_char c = if leb b'A' c && leb c b'Z' then c + 32 else c

-- `to_ascii_lowercase()`.
unfoldable pub to_ascii_lowercase : Text → Text
to_ascii_lowercase [] = []
to_ascii_lowercase (c ∷ s) = lowercase_char c ∷ to_ascii_lowercase s
