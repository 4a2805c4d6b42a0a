-- ===== src/Base.antt =====
-- What every part of the model shares: the libraries' names, tests on numbers, lists measured by
-- native numbers, the windows of a dump, bitwise facts, bytes as words, and results.
pub mod Tests
pub mod Lists
pub mod Bits
pub mod Windows
pub mod Strings
pub mod Utf8
pub mod Decimal
pub mod Results
pub use Prim.Native.Nat.{ℕ, zero, suc, ◌+◌, ◌-◌, ◌*◌, ◌/◌, ◌%◌, ◌^◌, ◌≤◌, ◌<◌, min, max}
pub use Prim.Native.Nat.{bit_and, bit_or, bit_xor}
pub use Prim.Native.String.{String}
pub use mathlib.Core.Path.{◌≡◌, refl, sym, ap, ap₂, ◌∙◌, subst, fun_ext}
pub use mathlib.Core.Logic.{◌≢◌, ◌↔◌, ◌⊎◌, inl, inr}
pub use mathlib.Core.Bool.{Bool, true, false, not, ◌&&◌, ◌||◌}
pub use mathlib.Core.Option.{Option, none, some}
pub use mathlib.Core.List.{List, [], ◌∷◌, append-nil, append_assoc}
unfoldable pub use mathlib.Core.List.{◌++◌, map, filter_map}
pub use mathlib.Core.List.Memᴰ
pub use mathlib.Core.List.{Memᴰ}
pub use native.Mathlib.Omega.{arith}
unfoldable pub use Tests.*
unfoldable pub use Lists.*
unfoldable pub use Bits.*
unfoldable pub use Results.*
unfoldable pub use Windows.*
unfoldable pub use Strings.*
unfoldable pub use Utf8.*
unfoldable pub use Decimal.*
