-- ===== src/KeySched/Aes.antt =====
-- The AES part of keysched.rs: one step of the key expansion, and the test of a schedule's head.
use memhunt.Base.{
  ℕ, zero, suc, ◌+◌, ◌-◌, ◌*◌, ◌/◌, ◌%◌, min, bit_xor, Bytes, Bool, true, false, ◌&&◌,
}
use memhunt.Base.{List, [], ◌∷◌, Option, none, some, length, get_or, ltb, ◌==◌, if◌then◌else◌}
use memhunt.KeySched.Tables.{sbox, rcon}

-- `[u8; 4]`.
pub record Word : Type 0 where
  pub b0 : ℕ
  pub b1 : ℕ
  pub b2 : ℕ
  pub b3 : ℕ

abbrev pub zero_word : Word
zero_word = record { b0 = 0; b1 = 0; b2 = 0; b3 = 0 }

-- `SBOX[b as usize]`; a byte is always in range.
unfoldable pub sbox_at : ℕ → ℕ
sbox_at b = get_or sbox b 0

unfoldable pub rcon_at : ℕ → ℕ
rcon_at i = get_or rcon i 0

abbrev pub sub_word : Word → Word
sub_word w = record { b0 = sbox_at w.b0; b1 = sbox_at w.b1; b2 = sbox_at w.b2; b3 = sbox_at w.b3 }

abbrev pub xor4 : Word → Word → Word
xor4 a b = record {
  b0 = bit_xor a.b0 b.b0;
  b1 = bit_xor a.b1 b.b1;
  b2 = bit_xor a.b2 b.b2;
  b3 = bit_xor a.b3 b.b3;
}

abbrev pub eq_word : Word → Word → Bool
eq_word a b = a.b0 == b.b0 && a.b1 == b.b1 && a.b2 == b.b2 && a.b3 == b.b3

abbrev pub rotated : Word → Word
rotated w = record { b0 = w.b1; b1 = w.b2; b2 = w.b3; b3 = w.b0 }

-- What is mixed into the word `nk` places back.
unfoldable pub mixed : Word → ℕ → ℕ → Word
mixed prev i nk =
    if i % nk == 0
    then (let subbed = sub_word (rotated prev) in
        record subbed { b0 = bit_xor subbed.b0 (rcon_at (min (i / nk - 1) (length rcon - 1))) })
    else if nk == 8 && i % 8 == 4
    then sub_word prev
    else prev

unfoldable pub expand_word : List Word → ℕ → ℕ → Word
expand_word words i nk =
    xor4 (get_or words (i - nk) zero_word) (mixed (get_or words (i - 1) zero_word) i nk)

-- `[dump[o], dump[o + 1], dump[o + 2], dump[o + 3]]`
abbrev pub word_at : Bytes → ℕ → Word
word_at dump o = record {
  b0 = get_or dump o 0;
  b1 = get_or dump (o + 1) 0;
  b2 = get_or dump (o + 2) 0;
  b3 = get_or dump (o + 3) 0;
}

-- The words `i`, `i + 1`, … behind `offset`, as many as the last argument says.
unfoldable pub read_words : Bytes → ℕ → ℕ → ℕ → List Word
read_words dump offset i zero = []
read_words dump offset i (suc left) =
    word_at dump (offset + i * 4) ∷ read_words dump offset (i + 1) left

-- The loop over the words to validate, from index `i` on.
unfoldable pub words_follow : List Word → ℕ → ℕ → ℕ → Bool
words_follow words nk i zero = true
words_follow words nk i (suc left) =
    let rest = words_follow words nk (i + 1) left in
    if eq_word (expand_word words i nk) (get_or words i zero_word) then rest else false

unfoldable pub schedule_head_valid : Bytes → ℕ → ℕ → Option ℕ
schedule_head_valid dump offset nk =
    let n_words = nk + 4 in
    if ltb (length dump) (offset + n_words * 4)
    then none
    else if words_follow (read_words dump offset 0 n_words) nk nk 4
    then some 4
    else none
