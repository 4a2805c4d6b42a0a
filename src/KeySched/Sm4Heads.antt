-- ===== src/KeySched/Sm4Heads.antt =====
-- The SM4 test against the first round key of GB/T 32907-2016.
use memhunt.Base.{ℕ, ◌+◌, ◌*◌, ◌/◌, ◌%◌, ◌^◌, ◌≤◌, bit_xor, ◌≡◌, refl, ap, ◌∙◌, ◌↔◌, arith}
use memhunt.Base.{Bytes, List, [], ◌∷◌, some, length, take, drop}
use memhunt.Base.{get_or, eq_list→eq, eq_list_self}
use memhunt.KeySched.Sm4.{sm4_tau, sm4_t_prime, sm4_step, be_bytes, be32_at, rotate_left}
use memhunt.KeySched.Sm4.{masked, sm4_loop, sm4_schedule_head_valid}

-- GB/T 32907-2016, 6.2.1: the table of the S-box.
abbrev pub standard_sbox : List ℕ
standard_sbox =
    0xd6 ∷ 0x90 ∷ 0xe9 ∷ 0xfe ∷ 0xcc ∷ 0xe1 ∷ 0x3d ∷ 0xb7 ∷ 0x16 ∷ 0xb6 ∷ 0x14 ∷ 0xc2 ∷ 0x28 ∷ 0xfb
    ∷ 0x2c ∷ 0x05 ∷ 0x2b ∷ 0x67 ∷ 0x9a ∷ 0x76 ∷ 0x2a ∷ 0xbe ∷ 0x04 ∷ 0xc3 ∷ 0xaa ∷ 0x44 ∷ 0x13
    ∷ 0x26 ∷ 0x49 ∷ 0x86 ∷ 0x06 ∷ 0x99 ∷ 0x9c ∷ 0x42 ∷ 0x50 ∷ 0xf4 ∷ 0x91 ∷ 0xef ∷ 0x98 ∷ 0x7a
    ∷ 0x33 ∷ 0x54 ∷ 0x0b ∷ 0x43 ∷ 0xed ∷ 0xcf ∷ 0xac ∷ 0x62 ∷ 0xe4 ∷ 0xb3 ∷ 0x1c ∷ 0xa9 ∷ 0xc9
    ∷ 0x08 ∷ 0xe8 ∷ 0x95 ∷ 0x80 ∷ 0xdf ∷ 0x94 ∷ 0xfa ∷ 0x75 ∷ 0x8f ∷ 0x3f ∷ 0xa6 ∷ 0x47 ∷ 0x07
    ∷ 0xa7 ∷ 0xfc ∷ 0xf3 ∷ 0x73 ∷ 0x17 ∷ 0xba ∷ 0x83 ∷ 0x59 ∷ 0x3c ∷ 0x19 ∷ 0xe6 ∷ 0x85 ∷ 0x4f
    ∷ 0xa8 ∷ 0x68 ∷ 0x6b ∷ 0x81 ∷ 0xb2 ∷ 0x71 ∷ 0x64 ∷ 0xda ∷ 0x8b ∷ 0xf8 ∷ 0xeb ∷ 0x0f ∷ 0x4b
    ∷ 0x70 ∷ 0x56 ∷ 0x9d ∷ 0x35 ∷ 0x1e ∷ 0x24 ∷ 0x0e ∷ 0x5e ∷ 0x63 ∷ 0x58 ∷ 0xd1 ∷ 0xa2 ∷ 0x25
    ∷ 0x22 ∷ 0x7c ∷ 0x3b ∷ 0x01 ∷ 0x21 ∷ 0x78 ∷ 0x87 ∷ 0xd4 ∷ 0x00 ∷ 0x46 ∷ 0x57 ∷ 0x9f ∷ 0xd3
    ∷ 0x27 ∷ 0x52 ∷ 0x4c ∷ 0x36 ∷ 0x02 ∷ 0xe7 ∷ 0xa0 ∷ 0xc4 ∷ 0xc8 ∷ 0x9e ∷ 0xea ∷ 0xbf ∷ 0x8a
    ∷ 0xd2 ∷ 0x40 ∷ 0xc7 ∷ 0x38 ∷ 0xb5 ∷ 0xa3 ∷ 0xf7 ∷ 0xf2 ∷ 0xce ∷ 0xf9 ∷ 0x61 ∷ 0x15 ∷ 0xa1
    ∷ 0xe0 ∷ 0xae ∷ 0x5d ∷ 0xa4 ∷ 0x9b ∷ 0x34 ∷ 0x1a ∷ 0x55 ∷ 0xad ∷ 0x93 ∷ 0x32 ∷ 0x30 ∷ 0xf5
    ∷ 0x8c ∷ 0xb1 ∷ 0xe3 ∷ 0x1d ∷ 0xf6 ∷ 0xe2 ∷ 0x2e ∷ 0x82 ∷ 0x66 ∷ 0xca ∷ 0x60 ∷ 0xc0 ∷ 0x29
    ∷ 0x23 ∷ 0xab ∷ 0x0d ∷ 0x53 ∷ 0x4e ∷ 0x6f ∷ 0xd5 ∷ 0xdb ∷ 0x37 ∷ 0x45 ∷ 0xde ∷ 0xfd ∷ 0x8e
    ∷ 0x2f ∷ 0x03 ∷ 0xff ∷ 0x6a ∷ 0x72 ∷ 0x6d ∷ 0x6c ∷ 0x5b ∷ 0x51 ∷ 0x8d ∷ 0x1b ∷ 0xaf ∷ 0x92
    ∷ 0xbb ∷ 0xdd ∷ 0xbc ∷ 0x7f ∷ 0x11 ∷ 0xd9 ∷ 0x5c ∷ 0x41 ∷ 0x1f ∷ 0x10 ∷ 0x5a ∷ 0xd8 ∷ 0x0a
    ∷ 0xc1 ∷ 0x31 ∷ 0x88 ∷ 0xa5 ∷ 0xcd ∷ 0x7b ∷ 0xbd ∷ 0x2d ∷ 0x74 ∷ 0xd0 ∷ 0x12 ∷ 0xb8 ∷ 0xe5
    ∷ 0xb4 ∷ 0xb0 ∷ 0x89 ∷ 0x69 ∷ 0x97 ∷ 0x4a ∷ 0x0c ∷ 0x96 ∷ 0x77 ∷ 0x7e ∷ 0x65 ∷ 0xb9 ∷ 0xf1
    ∷ 0x09 ∷ 0xc5 ∷ 0x6e ∷ 0xc6 ∷ 0x84 ∷ 0x18 ∷ 0xf0 ∷ 0x7d ∷ 0xec ∷ 0x3a ∷ 0xdc ∷ 0x4d ∷ 0x20
    ∷ 0x79 ∷ 0xee ∷ 0x5f ∷ 0x3e ∷ 0xd7 ∷ 0xcb ∷ 0x39 ∷ 0x48 ∷ []

-- The four bytes of a word, the high byte first.
abbrev pub word_of : ℕ → ℕ → ℕ → ℕ → ℕ
word_of a b c d = ((a * 256 + b) * 256 + c) * 256 + d

-- 6.2.1: τ, the S-box on each byte of a word.
abbrev pub tau : ℕ → ℕ
tau a =
    word_of (get_or standard_sbox (a / 2 ^ 24 % 256) 0) (get_or standard_sbox (a / 2 ^ 16 % 256) 0)
      (get_or standard_sbox (a / 2 ^ 8 % 256) 0) (get_or standard_sbox (a % 256) 0)

-- 7.3: L′(B) = B ⊕ (B <<< 13) ⊕ (B <<< 23); a rotation moves the high bits below the others.
abbrev pub l_prime : ℕ → ℕ
l_prime b = bit_xor (bit_xor b (b % 2 ^ 19 * 2 ^ 13 + b / 2 ^ 19)) (b % 2 ^ 9 * 2 ^ 23 + b / 2 ^ 9)

-- Word `i` of a master key.
abbrev pub key_word : Bytes → ℕ → ℕ
key_word key i =
    word_of (get_or key (4 * i) 0) (get_or key (4 * i + 1) 0) (get_or key (4 * i + 2) 0)
      (get_or key (4 * i + 3) 0)

-- 7.3: rk₀ = K₀ ⊕ T′(K₁ ⊕ K₂ ⊕ K₃ ⊕ CK₀) with Kᵢ = MKᵢ ⊕ FKᵢ and T′(A) = L′(τ(A)), on the words
-- of the master key.
abbrev pub round_key : ℕ → ℕ → ℕ → ℕ → ℕ
round_key a b c d = bit_xor (bit_xor a 0xa3b1bac6) (
    l_prime (
      tau (
        bit_xor
          (bit_xor (bit_xor (bit_xor b 0x56aa3350) (bit_xor c 0x677d9197)) (bit_xor d 0xb27022dc))
          0x00070e15)))

abbrev pub first_round_key : Bytes → ℕ
first_round_key key = round_key (key_word key 0) (key_word key 1) (key_word key 2) (key_word key 3)

-- A master key at `offset` with its first round key right behind it, the high byte first.
pub record IsSm4Head (dump : Bytes) (offset : ℕ) : Type 0 where
  pub inside : offset + 20 ≤ length dump
  pub follows :
      take 4 (drop (offset + 16) dump) ≡ be_bytes (first_round_key (take 16 (drop offset dump)))

rotate_by_13 : (b : ℕ) → rotate_left b 13 ≡ b % 2 ^ 19 * 2 ^ 13 + b / 2 ^ 19
rotate_by_13 b = omega arith

rotate_by_23 : (b : ℕ) → rotate_left b 23 ≡ b % 2 ^ 9 * 2 ^ 23 + b / 2 ^ 9
rotate_by_23 b = omega arith

be32-word_of : (a b c d : ℕ) → a * 2 ^ 24 + b * 2 ^ 16 + c * 2 ^ 8 + d ≡ word_of a b c d
be32-word_of a b c d = omega arith

be32-key_word : (key : Bytes) (i : ℕ) → be32_at key (4 * i) ≡ key_word key i
be32-key_word key i =
    be32-word_of (get_or key (4 * i) 0) (get_or key (4 * i + 1) 0) (get_or key (4 * i + 2) 0)
      (get_or key (4 * i + 3) 0)

sm4_tau_lem : (a : ℕ) → sm4_tau a ≡ tau a
unfolding sm4_tau
sm4_tau_lem a = be32-word_of _ _ _ _

sm4_t_prime_lem : (a : ℕ) → sm4_t_prime a ≡ l_prime (tau a)
unfolding sm4_t_prime
sm4_t_prime_lem a = rw (sm4_tau_lem a, rotate_by_13 (tau a), rotate_by_23 (tau a)) refl

sm4_step_lem :
    (a b c d : ℕ)
    → (sm4_loop 0 4 (record { k0 = a; k1 = b; k2 = c; k3 = d })).k0
      ≡ bit_xor a (l_prime (tau (bit_xor (bit_xor (bit_xor b c) d) 0x00070e15)))
unfolding sm4_loop sm4_step
sm4_step_lem a b c d = ap (bit_xor a) (sm4_t_prime_lem _)

same_words :
    {a b c d a' b' c' d' : ℕ}
    → a ≡ a'
    → b ≡ b'
    → c ≡ c'
    → d ≡ d'
    → round_key a b c d ≡ round_key a' b' c' d'
same_words e f g h = rw (e, f, g, h) refl

loop_first_key : (key : Bytes) → (sm4_loop 0 4 (masked key)).k0 ≡ first_round_key key
loop_first_key key =
    sm4_step_lem _ _ _ _
    ∙ same_words (be32-key_word key 0) (be32-key_word key 1) (be32-key_word key 2)
        (be32-key_word key 3)

-- The SM4 test passes exactly where a master key of 16 bytes has its first round key behind it.
pub sm4_schedule_head_valid_iff :
    (dump : Bytes) (offset : ℕ)
    → (sm4_schedule_head_valid dump offset ≡ some 1) ↔ IsSm4Head dump offset
sm4_schedule_head_valid_iff dump offset = (to, from)
  where
    to : sm4_schedule_head_valid dump offset ≡ some 1 → IsSm4Head dump offset
    to h =
        unfold sm4_schedule_head_valid in
        record {
          inside = ground arith;
          follows = eq_list→eq _ _ (ground (arith, loop_first_key (take 16 (drop offset dump))));
        }

    from : IsSm4Head dump offset → sm4_schedule_head_valid dump offset ≡ some 1
    from head =
        unfold sm4_schedule_head_valid in
        ground (
          arith,
          head.inside,
          head.follows,
          loop_first_key (take 16 (drop offset dump)),
          eq_list_self (be_bytes (first_round_key (take 16 (drop offset dump)))),
        )
