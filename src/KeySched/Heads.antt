-- ===== src/KeySched/Heads.antt =====
-- The test of a schedule's head against the key expansion of FIPS-197.
use memhunt.Base.{ℕ, zero, suc, ◌+◌, ◌-◌, ◌*◌, ◌/◌, ◌%◌, ◌≤◌, ◌<◌, min, bit_xor, bit_xor-zero}
use memhunt.Base.{◌≡◌, refl, sym, ap, ap₂, ◌∙◌, subst, ◌↔◌, inl, inr, arith, Bytes, true, ◌&&◌}
use memhunt.Base.{List, some, length, get_or, ltb, ◌==◌, if◌then◌else◌, Bool-cases}
use memhunt.Base.{holds_below, holds_below_at, ==→eq, true≢false}
use memhunt.KeySched.Tables.{rcon}
use memhunt.KeySched.Aes.{
  Word, zero_word, rcon_at, sub_word, xor4, eq_word, rotated, mixed, expand_word,
}
use memhunt.KeySched.Aes.{word_at, read_words, words_follow, schedule_head_valid}

-- Multiplication by x in GF(2^8), and its powers: the round constants of FIPS-197, 5.2.
abbrev pub xtime : ℕ → ℕ
xtime b = if ltb b 128 then 2 * b else bit_xor (2 * b) 0x11b

abbrev pub round_constant : ℕ → ℕ
round_constant zero = 0
round_constant (suc zero) = 1
round_constant (suc (suc j)) = xtime (round_constant (suc j))

-- Word `i` of a schedule, from the word `nk` places back and the one before it.
abbrev pub fips_word : ℕ → ℕ → Word → Word → Word
fips_word nk i back prev = xor4 back (
    if i % nk == 0
    then xor4 (sub_word (rotated prev))
        (record { b0 = round_constant (i / nk); b1 = 0; b2 = 0; b3 = 0 })
    else if nk == 8 && i % 8 == 4
    then sub_word prev
    else prev)

-- The table holds the powers of x.
rcon_powers : (j : ℕ) → j < 11 → rcon_at (min j (length rcon - 1)) ≡ round_constant (suc j)
unfolding holds_below rcon_at
rcon_powers j h =
    ==→eq _ _ (
      holds_below_at 11 (λ k. rcon_at (min k (length rcon - 1)) == round_constant (suc k)) j refl h)

round_constant_word :
    (w : Word) (c : ℕ)
    → xor4 w (record { b0 = c; b1 = 0; b2 = 0; b3 = 0 })
      ≡ record { b0 = bit_xor w.b0 c; b1 = w.b1; b2 = w.b2; b3 = w.b3 }
round_constant_word w c = λ k. record {
  b0 = bit_xor w.b0 c;
  b1 = bit_xor-zero w.b1 k;
  b2 = bit_xor-zero w.b2 k;
  b3 = bit_xor-zero w.b3 k;
}

quotient_bounds : (i nk : ℕ) → 0 < nk → nk ≤ i → i < 12 * nk → (0 < i / nk) × (i / nk < 12)
quotient_bounds i nk pos low high = (grind arith, grind arith)

-- The four words behind a key of `nk` words at `offset` are those that FIPS-197 derives from it.
pub record IsScheduleHead (dump : Bytes) (offset nk : ℕ) : Type 0 where
  pub inside : offset + (nk + 4) * 4 ≤ length dump
  pub follows :
      (i : ℕ)
      → nk ≤ i
      → i < nk + 4
      → word_at dump (offset + i * 4)
        ≡ fips_word nk i
            (word_at dump (offset + (i - nk) * 4))
            (word_at dump (offset + (i - 1) * 4))

-- `expand_word` is the step of FIPS-197, for every word whose round constant the table holds.
pub expand_word_fips :
    (words : List Word) (i nk : ℕ)
    → 0 < nk
    → nk ≤ i
    → i < 12 * nk
    → expand_word words i nk
      ≡ fips_word nk i (get_or words (i - nk) zero_word) (get_or words (i - 1) zero_word)
unfolding expand_word mixed
expand_word_fips words i nk pos low high =
    let (least, most) = quotient_bounds i nk pos low high in
    let back : suc (i / nk - 1) ≡ i / nk = omega arith in
    let constant : rcon_at (min (i / nk - 1) (length rcon - 1)) ≡ round_constant (i / nk) =
      rcon_powers (i / nk - 1) (omega arith) ∙ ap round_constant back in
    elim (Bool-cases (i % nk == 0)) [
      | inl start ↦
          rw (start, constant)
            (ap (xor4 (get_or words (i - nk) zero_word)) (
              sym (
                round_constant_word (sub_word (rotated (get_or words (i - 1) zero_word)))
                  (round_constant (i / nk)))))
      | inr inner ↦ rw inner
    ]

eq_word→eq : (a b : Word) → eq_word a b ≡ true → a ≡ b
eq_word→eq a b h = ground arith

eq_word_self : (a : Word) → eq_word a a ≡ true
eq_word_self a = ground arith

get_or-read_words :
    (dump : Bytes) (offset i left j : ℕ)
    → j < left
    → get_or (read_words dump offset i left) j zero_word ≡ word_at dump (offset + (i + j) * 4)
unfolding read_words
get_or-read_words dump offset i zero j h = elim h [ ]
get_or-read_words dump offset i (suc left) zero h =
    ap (λ (t : ℕ). word_at dump (offset + t * 4)) (omega arith)
get_or-read_words dump offset i (suc left) (suc j) h =
    get_or-read_words dump offset (i + 1) left j (omega arith)
    ∙ ap (λ (t : ℕ). word_at dump (offset + t * 4)) (omega arith)

words_follow_sound :
    (words : List Word) (nk i left j : ℕ)
    → words_follow words nk i left ≡ true
    → i ≤ j
    → j < i + left
    → expand_word words j nk ≡ get_or words j zero_word
unfolding words_follow
words_follow_sound words nk i zero j h low high = absurd (omega arith)
words_follow_sound words nk i (suc left) j h low high =
    elim (Bool-cases (eq_word (expand_word words i nk) (get_or words i zero_word))) [
      | inr differs ↦ absurd (true≢false (sym (rw differs at h)))
      | inl agrees ↦ elim (Bool-cases (i == j)) [
        | inl here ↦
            subst (λ t. expand_word words t nk ≡ get_or words t zero_word) (==→eq i j here)
              (eq_word→eq _ _ agrees)
        | inr later ↦
            words_follow_sound words nk (i + 1) left j (rw agrees at h) (ground arith) (omega arith)
      ]
    ]

words_follow_complete :
    (words : List Word) (nk i left : ℕ)
    → ((j : ℕ) → i ≤ j → j < i + left → expand_word words j nk ≡ get_or words j zero_word)
    → words_follow words nk i left ≡ true
unfolding words_follow
words_follow_complete words nk i zero h = refl
words_follow_complete words nk i (suc left) h =
    let agrees : eq_word (expand_word words i nk) (get_or words i zero_word) ≡ true =
      rw (h i (omega arith) (omega arith)) (eq_word_self (get_or words i zero_word)) in
    rw agrees
      (words_follow_complete words nk (i + 1) left (λ j low high. h j (omega arith) (omega arith)))

at_start :
    (dump : Bytes) (offset j : ℕ)
    → word_at dump (offset + (0 + j) * 4) ≡ word_at dump (offset + j * 4)
at_start dump offset j = ap (λ (t : ℕ). word_at dump (offset + t * 4)) (omega arith)

-- In the words that the test reads, one step of the expansion is the step of FIPS-197 in the dump.
expand_in_dump :
    (dump : Bytes) (offset nk i : ℕ)
    → 4 ≤ nk
    → nk ≤ i
    → i < nk + 4
    → expand_word (read_words dump offset 0 (nk + 4)) i nk
      ≡ fips_word nk i (word_at dump (offset + (i - nk) * 4)) (word_at dump (offset + (i - 1) * 4))
expand_in_dump dump offset nk i big low high =
    expand_word_fips (read_words dump offset 0 (nk + 4)) i nk (omega arith) low (omega arith)
    ∙ ap₂ (fips_word nk i) (read (i - nk) (omega arith)) (read (i - 1) (omega arith))
  where
    read :
        (j : ℕ)
        → j < nk + 4
        → get_or (read_words dump offset 0 (nk + 4)) j zero_word ≡ word_at dump (offset + j * 4)
    read j h = get_or-read_words dump offset 0 (nk + 4) j h ∙ at_start dump offset j

head_parts :
    (dump : Bytes) (offset nk : ℕ)
    → schedule_head_valid dump offset nk ≡ some 4
    → (offset + (nk + 4) * 4 ≤ length dump)
      × (words_follow (read_words dump offset 0 (nk + 4)) nk nk 4 ≡ true)
unfolding schedule_head_valid
head_parts dump offset nk h = (ground arith, ground arith)

words_of_head :
    (dump : Bytes) (offset nk : ℕ)
    → 4 ≤ nk
    → IsScheduleHead dump offset nk
    → words_follow (read_words dump offset 0 (nk + 4)) nk nk 4 ≡ true
words_of_head dump offset nk big head =
    words_follow_complete (read_words dump offset 0 (nk + 4)) nk nk 4 λ j low high.
      expand_in_dump dump offset nk j big low high
      ∙ sym (head.follows j low high)
      ∙ sym (get_or-read_words dump offset 0 (nk + 4) j high ∙ at_start dump offset j)

-- The test passes exactly at the heads of schedules, for a key of four words or more.
pub schedule_head_valid_iff :
    (dump : Bytes) (offset nk : ℕ)
    → 4 ≤ nk
    → (schedule_head_valid dump offset nk ≡ some 4) ↔ IsScheduleHead dump offset nk
schedule_head_valid_iff dump offset nk big = (to, from)
  where
    to : schedule_head_valid dump offset nk ≡ some 4 → IsScheduleHead dump offset nk
    to h =
        let (fits, all_follow) = head_parts dump offset nk h in
        record {
          inside = fits;
          follows = λ i low high.
              sym (get_or-read_words dump offset 0 (nk + 4) i high ∙ at_start dump offset i)
              ∙ sym (words_follow_sound _ nk nk 4 i all_follow low high)
              ∙ expand_in_dump dump offset nk i big low high;
        }

    from : IsScheduleHead dump offset nk → schedule_head_valid dump offset nk ≡ some 4
    from head =
        unfold schedule_head_valid in
        ground (arith, words_of_head dump offset nk big head, head.inside)
