-- ===== src/Examples/KeySchedules.antt =====
-- Key schedules planted in small dumps: keysched.rs.
use memhunt.Base.{ℕ, ◌%◌, ◌/◌, ◌≡◌, ◌⊎◌, ◌↔◌, refl, arith, Bytes, Text, codes}
use memhunt.Base.{[], ◌∷◌, Memᴰ, some, get_or}
use memhunt.KeySched.Aes.{
  sbox_at, rcon_at, mixed, expand_word, read_words, words_follow, schedule_head_valid,
}
use memhunt.KeySched.Sm4.{sm4_tau, sm4_t_prime, sm4_step, sm4_loop, sm4_schedule_head_valid}
use memhunt.KeySched.Scan.{aes_sizes, scan_key_schedules}
use memhunt.KeySched.Heads.{IsScheduleHead, schedule_head_valid_iff}
use memhunt.KeySched.Sm4Heads.{IsSm4Head, sm4_schedule_head_valid_iff}
use memhunt.KeySched.Passes.{aes_hit, sm4_hit, IsAesHit}
use memhunt.KeySched.Hits.{aes_schedules_found, sm4_schedules_found, schedules_sound}

abbrev hex_digit : ℕ → ℕ
hex_digit d = get_or (codes "0123456789abcdef") d 0

abbrev pub hex : Bytes → Text
hex [] = []
hex (b ∷ bytes) = hex_digit (b / 16) ∷ hex_digit (b % 16) ∷ hex bytes

-- The key of FIPS-197, A.1, with the four words behind it, after one byte of something else.
abbrev pub aes_dump : Bytes
aes_dump =
    0x41 ∷ 0x2b ∷ 0x7e ∷ 0x15 ∷ 0x16 ∷ 0x28 ∷ 0xae ∷ 0xd2 ∷ 0xa6 ∷ 0xab ∷ 0xf7 ∷ 0x15 ∷ 0x88 ∷ 0x09
    ∷ 0xcf ∷ 0x4f ∷ 0x3c ∷ 0xa0 ∷ 0xfa ∷ 0xfe ∷ 0x17 ∷ 0x88 ∷ 0x54 ∷ 0x2c ∷ 0xb1 ∷ 0x23 ∷ 0xa3
    ∷ 0x39 ∷ 0x39 ∷ 0x2a ∷ 0x6c ∷ 0x76 ∷ 0x05 ∷ []

-- The key of GB/T 32907-2016, A.1, with its first round key.
abbrev sm4_dump : Bytes
sm4_dump =
    0x01 ∷ 0x23 ∷ 0x45 ∷ 0x67 ∷ 0x89 ∷ 0xab ∷ 0xcd ∷ 0xef ∷ 0xfe ∷ 0xdc ∷ 0xba ∷ 0x98 ∷ 0x76 ∷ 0x54
    ∷ 0x32 ∷ 0x10 ∷ 0xf1 ∷ 0x21 ∷ 0x86 ∷ 0xf9 ∷ []

aes_valid : schedule_head_valid aes_dump 1 4 ≡ some 4
unfolding schedule_head_valid words_follow read_words expand_word mixed sbox_at rcon_at
aes_valid = refl

sm4_valid : sm4_schedule_head_valid sm4_dump 0 ≡ some 1
unfolding sm4_schedule_head_valid sm4_loop sm4_step sm4_t_prime sm4_tau
sm4_valid = refl

schedule_head_valid_iff_example :
    (schedule_head_valid aes_dump 1 4 ≡ some 4) ↔ IsScheduleHead aes_dump 1 4
schedule_head_valid_iff_example = schedule_head_valid_iff aes_dump 1 4 (omega arith)

aes_head : IsScheduleHead aes_dump 1 4
aes_head = schedule_head_valid_iff_example.0 aes_valid

sm4_schedule_head_valid_iff_example :
    (sm4_schedule_head_valid sm4_dump 0 ≡ some 1) ↔ IsSm4Head sm4_dump 0
sm4_schedule_head_valid_iff_example = sm4_schedule_head_valid_iff sm4_dump 0

sm4_head : IsSm4Head sm4_dump 0
sm4_head = sm4_schedule_head_valid_iff_example.0 sm4_valid

aes_schedules_found_example :
    Memᴰ (aes_hit hex aes_dump 4 (codes "aes-128") 1) (scan_key_schedules hex aes_dump).hits
aes_schedules_found_example =
    aes_schedules_found hex aes_dump 4 (codes "aes-128") 1 (Memᴰ.head refl) aes_head

sm4_schedules_found_example : Memᴰ (sm4_hit hex sm4_dump 0) (scan_key_schedules hex sm4_dump).hits
sm4_schedules_found_example = sm4_schedules_found hex sm4_dump 0 sm4_head

schedules_sound_example :
    IsAesHit hex aes_dump aes_sizes (aes_hit hex aes_dump 4 (codes "aes-128") 1)
    ⊎ ((offset : ℕ) × IsSm4Head aes_dump offset
        × (aes_hit hex aes_dump 4 (codes "aes-128") 1 ≡ sm4_hit hex aes_dump offset))
schedules_sound_example =
    schedules_sound hex aes_dump (aes_hit hex aes_dump 4 (codes "aes-128") 1)
      aes_schedules_found_example
