-- ===== src/Oracle/Binary.antt =====
-- The oracles on binary formats: `GzipOracle` and `ProtobufOracle`.
use memhunt.Base.{ℕ, ◌+◌, ◌-◌, ◌*◌, ◌/◌, ◌%◌, ◌^◌, bit_and, bit_or, Bytes, codes}
use memhunt.Base.{Bool, false, ◌&&◌, ◌||◌, not, [], ◌∷◌, Option, none, some}
use memhunt.Base.{length, take, ltb, leb, ◌==◌, if◌then◌else◌}
use memhunt.Report.{medium, high}
use memhunt.Oracle.{Oracle}

-- The magic bytes 1f 8b 08 and flags whose reserved bits are clear.
unfoldable pub verify_gzip : Bytes → Bool
verify_gzip [] = false
verify_gzip (a ∷ []) = false
verify_gzip (a ∷ b ∷ []) = false
verify_gzip (a ∷ b ∷ c ∷ []) = false
verify_gzip (a ∷ b ∷ c ∷ flg ∷ rest) =
    if not (a == 0x1f)
    then false
    else if not (b == 0x8b)
    then false
    else if not (c == 0x08)
    then false
    else bit_and flg 0xe0 == 0

abbrev pub gzip_oracle : Oracle
gzip_oracle = record { name = codes "gzip"; verify = verify_gzip; confidence = high }

-- `value |= u64::from(b & 0x7f) << shift`: bits shifted past the top of the u64 are lost.
abbrev pub add_group : ℕ → ℕ → ℕ → ℕ
add_group value b shift = bit_or value (bit_and b 0x7f * 2 ^ shift % 2 ^ 64)

-- The loop of `read_varint` at index `i`, over the bytes that `take(10)` leaves.
unfoldable pub varint_loop : ℕ → ℕ → ℕ → Bytes → Option (ℕ × ℕ)
varint_loop i value shift [] = none
varint_loop i value shift (b ∷ rest) =
    let value' = add_group value b shift in
    let more = varint_loop (i + 1) value' (shift + 7) rest in
    if bit_and b 0x80 == 0 then some (value', i + 1) else more

unfoldable pub read_varint : Bytes → Option (ℕ × ℕ)
unfolding varint_loop
read_varint bytes = varint_loop 0 0 0 (take 10 bytes)

-- The field's length lies inside the head.
unfoldable pub length_fits : ℕ → Option (ℕ × ℕ) → Bool
length_fits total none = false
length_fits total (some (len, consumed)) = ltb 0 len && leb len (total - (1 + consumed))

unfoldable pub verify_protobuf : Bytes → Bool
unfolding read_varint length_fits
verify_protobuf [] = false
verify_protobuf (tag ∷ rest) =
    if not (bit_and tag 0x07 == 0x02) || tag / 8 == 0 || ltb 15 (tag / 8)
    then false
    else length_fits (length (tag ∷ rest)) (read_varint rest)

abbrev pub protobuf_oracle : Oracle
protobuf_oracle = record { name = codes "protobuf"; verify = verify_protobuf; confidence = medium }
