-- ===== src/Oracle/Utf16.antt =====
-- `Utf16LeOracle`.
use memhunt.Base.{ℕ, zero, suc, ◌+◌, ◌*◌, ◌%◌, Bytes, codes, Bool, false, ◌&&◌, ◌||◌, not}
use memhunt.Base.{List, [], ◌∷◌, length, take, get_or, filter, any, ltb, leb, ◌==◌, if◌then◌else◌}
use memhunt.Report.{medium}
use memhunt.Oracle.{Oracle}

-- `while end >= 4 && head[end - 2] == 0 && head[end - 1] == 0 { end -= 2; }`
unfoldable pub unpadded_end : Bytes → ℕ → ℕ
unpadded_end head zero = zero
unpadded_end head (suc zero) = suc zero
unpadded_end head (suc (suc e)) =
    let rest = unpadded_end head e in
    if leb 4 (suc (suc e)) && get_or head e 1 == 0 && get_or head (suc e) 1 == 0
    then rest
    else suc (suc e)

-- `as_chunks::<2>()` read as little-endian `u16`s.
unfoldable pub units : Bytes → List ℕ
units [] = []
units (a ∷ []) = []
units (a ∷ b ∷ rest) = (a + 256 * b) ∷ units rest

unfoldable pub plausible_units : List ℕ → Bool
plausible_units us =
    let printable = length (filter (λ u. leb 0x20 u && ltb u 0x7f) us) in
    if ltb (printable * 4) (length us * 3)
    then false
    else any (λ u. not (u == 0)) us && any (λ u. not (u == get_or us 0 0)) us

unfoldable pub verify_utf16le : Bytes → Bool
unfolding unpadded_end units plausible_units
verify_utf16le plaintext_head =
    let head = take (unpadded_end plaintext_head (length plaintext_head)) plaintext_head in
    if ltb (length head) 8 || not (length head % 2 == 0)
    then false
    else plausible_units (units head)

abbrev pub utf16le_oracle : Oracle
utf16le_oracle = record { name = codes "utf16le"; verify = verify_utf16le; confidence = medium }
