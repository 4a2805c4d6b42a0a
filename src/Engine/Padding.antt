-- ===== src/Engine/Padding.antt =====
-- engine.rs: blocks, padding and the score of a block.
use memhunt.Base.{
  ℕ, zero, suc, ◌-◌, ◌*◌, ◌/◌, ◌%◌, Bytes, Text, Bool, true, false, ◌&&◌, ◌||◌, List, [], ◌∷◌,
}
use memhunt.Base.{
  Option, none, some, length, take, drop, filter, all, is_empty, ltb, ◌==◌, if◌then◌else◌,
}
use memhunt.Base.{Result, ok, ◌>>◌, fail_if, from_utf8}
use memhunt.Oracle.Plain.{is_printable}
use memhunt.Engine.Config.{ScanError, ciphertext_empty, unaligned}

-- `chunks(n)` by rounds; a last chunk may be shorter. `length` rounds are enough.
unfoldable pub chunk_rounds : ℕ → ℕ → Bytes → List Bytes
chunk_rounds zero n bytes = []
chunk_rounds (suc rounds) n [] = []
chunk_rounds (suc rounds) n (b ∷ bytes) =
    take n (b ∷ bytes) ∷ chunk_rounds rounds n (drop n (b ∷ bytes))

unfoldable pub chunks : ℕ → Bytes → List Bytes
chunks n bytes = chunk_rounds (length bytes) n bytes

-- Errors when empty or not block-aligned; behind them every chunk is exact.
unfoldable pub split_blocks : Bytes → ℕ → Result ScanError (List Bytes)
split_blocks ciphertext block = do
  fail_if (is_empty ciphertext) ciphertext_empty
  fail_if (ltb 0 (length ciphertext % block)) (unaligned (length ciphertext) block)
  ok (chunks block ciphertext)

abbrev pub last? : Bytes → Option ℕ
last? [] = none
last? (b ∷ []) = some b
last? (b ∷ c ∷ bytes) = last? (c ∷ bytes)

-- The answer and the plaintext after it.
unfoldable pub strip_by : Option ℕ → Bytes → Bool × Bytes
strip_by none plaintext = (false, plaintext)
strip_by (some n) plaintext =
    let front = length plaintext - n in
    if n == 0 || ltb (length plaintext) n || ltb 255 n
    then (false, plaintext)
    else if all (λ b. b == n) (drop front plaintext)
    then (true, take front plaintext)
    else (false, plaintext)

unfoldable pub strip_pkcs7 : Bytes → Bool × Bytes
unfolding strip_by
strip_pkcs7 plaintext = strip_by (last? plaintext) plaintext

-- `while plaintext.last() == Some(&0) { plaintext.pop(); }`: the zeros at the end go.
unfoldable pub pop_zeros : Bytes → Bytes
pop_zeros [] = []
pop_zeros (b ∷ bytes) =
    let rest = pop_zeros bytes in if is_empty rest && b == 0 then [] else b ∷ rest

unfoldable pub strip_zero : Bytes → Bool × Bytes
unfolding pop_zeros
strip_zero plaintext = (true, pop_zeros plaintext)

-- The score 0..=1000 of how much a block looks like text.
unfoldable pub text_score : Option Text → ℕ
text_score none = 0
text_score (some s) = if is_empty s then 0 else length (filter is_printable s) * 1000 / length s

unfoldable pub block0_plausibility : Bytes → ℕ
unfolding text_score
block0_plausibility block = text_score (from_utf8 block)
