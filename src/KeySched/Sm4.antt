-- ===== src/KeySched/Sm4.antt =====
-- The SM4 part of keysched.rs: the first round key of a master key, and the test for it.
use memhunt.Base.{
  ℕ, zero, suc, ◌+◌, ◌-◌, ◌*◌, ◌/◌, ◌%◌, ◌^◌, bit_xor, Bytes, [], ◌∷◌, Option, none, some,
}
use memhunt.Base.{length, take, drop, get_or, map, ltb, eq_list, if◌then◌else◌}
use memhunt.KeySched.Tables.{sm4_sbox, sm4_fk, sm4_ck}

-- `u32::from_be_bytes` of the four bytes at `i`.
abbrev pub be32_at : Bytes → ℕ → ℕ
be32_at bytes i =
    get_or bytes i 0 * 2 ^ 24
    + get_or bytes (i + 1) 0 * 2 ^ 16
    + get_or bytes (i + 2) 0 * 2 ^ 8
    + get_or bytes (i + 3) 0

-- `to_be_bytes` of a u32.
abbrev pub be_bytes : ℕ → Bytes
be_bytes a = (a / 2 ^ 24 % 256) ∷ (a / 2 ^ 16 % 256) ∷ (a / 2 ^ 8 % 256) ∷ (a % 256) ∷ []

-- `u32::rotate_left`: the high bits come back below.
abbrev pub rotate_left : ℕ → ℕ → ℕ
rotate_left b n = b * 2 ^ n % 2 ^ 32 + b / 2 ^ (32 - n)

unfoldable pub sm4_tau : ℕ → ℕ
sm4_tau a = be32_at (map (λ b. get_or sm4_sbox b 0) (be_bytes a)) 0

unfoldable pub sm4_t_prime : ℕ → ℕ
sm4_t_prime a = let b = sm4_tau a in bit_xor (bit_xor b (rotate_left b 13)) (rotate_left b 23)

-- The array `k` of four words.
pub record Keys : Type 0 where
  pub k0 : ℕ
  pub k1 : ℕ
  pub k2 : ℕ
  pub k3 : ℕ

abbrev xor_all : ℕ → ℕ → ℕ → ℕ → ℕ
xor_all a b c d = bit_xor (bit_xor (bit_xor a b) c) d

-- `k[j] ^= sm4_t_prime(input)`.
unfoldable pub sm4_step : ℕ → Keys → Keys
sm4_step zero k = record k {
  k0 = bit_xor k.k0 (sm4_t_prime (xor_all k.k1 k.k2 k.k3 (get_or sm4_ck 0 0)));
}
sm4_step (suc zero) k = record k {
  k1 = bit_xor k.k1 (sm4_t_prime (xor_all k.k2 k.k3 k.k0 (get_or sm4_ck 1 0)));
}
sm4_step (suc (suc zero)) k = record k {
  k2 = bit_xor k.k2 (sm4_t_prime (xor_all k.k3 k.k0 k.k1 (get_or sm4_ck 2 0)));
}
sm4_step (suc (suc (suc j))) k = record k {
  k3 = bit_xor k.k3 (sm4_t_prime (xor_all k.k0 k.k1 k.k2 (get_or sm4_ck 3 0)));
}

-- The loop `for j in 0..4`, with the rounds left.
unfoldable pub sm4_loop : ℕ → ℕ → Keys → Keys
unfolding sm4_step
sm4_loop j zero k = k
sm4_loop j (suc left) k = sm4_loop (j + 1) left (sm4_step j k)

abbrev pub masked : Bytes → Keys
masked key = record {
  k0 = bit_xor (be32_at key 0) (get_or sm4_fk 0 0);
  k1 = bit_xor (be32_at key 4) (get_or sm4_fk 1 0);
  k2 = bit_xor (be32_at key 8) (get_or sm4_fk 2 0);
  k3 = bit_xor (be32_at key 12) (get_or sm4_fk 3 0);
}

unfoldable pub sm4_schedule_head_valid : Bytes → ℕ → Option ℕ
unfolding sm4_loop
sm4_schedule_head_valid dump offset =
    if ltb (length dump) (offset + 20)
    then none
    else (let key = take 16 (drop offset dump) in
        let k = sm4_loop 0 4 (masked key) in
        let actual = take 4 (drop (offset + 16) dump) in
        if eq_list actual (be_bytes k.k0) then some 1 else none)
