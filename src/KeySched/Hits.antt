-- ===== src/KeySched/Hits.antt =====
-- `scan_key_schedules` reports exactly the schedules of the dump.
use memhunt.Base.{ℕ, ◌+◌, ◌-◌, ◌%◌, ◌^◌, ◌≤◌, ◌<◌, ◌≡◌, ap, ◌∙◌, ◌⊎◌, inl, inr, arith}
use memhunt.Base.{Bytes, Text, codes, false, List, [], Memᴰ, some, length, All}
use memhunt.Base.{ltb, Bool-cases, Option-cases}
use memhunt.Base.{sweep_complete, sweep_sound, sweep_count}
use mathlib.Core.List.Memᴰ
use memhunt.Base.{none_ne_some}
use memhunt.KeySched.Sm4.{sm4_schedule_head_valid}
use memhunt.KeySched.Scan.{
  KeyScheduleHit, sm4_test, visit_size, scan_sizes, scan_sm4_schedules, aes_sizes,
  scan_key_schedules,
}
use memhunt.KeySched.Heads.{IsScheduleHead}
use memhunt.KeySched.Sm4Heads.{IsSm4Head, sm4_schedule_head_valid_iff}
use memhunt.KeySched.Passes.{aes_hit, sm4_hit, IsAesHit, sizes_complete, sizes_sound, visit_count}

module _ (hex_encode : Bytes → Text) (dump : Bytes) where
  sm4_complete :
      (tried offset : ℕ)
      → IsSm4Head dump offset
      → Memᴰ (sm4_hit hex_encode dump offset) (scan_sm4_schedules hex_encode dump tried).1
  unfolding scan_sm4_schedules
  sm4_complete tried offset head =
      let long : ltb (length dump) 20 ≡ false = ground (arith, head.inside) in
      rw long (
        sweep_complete 20 (sm4_test hex_encode dump) dump tried offset _ (omega arith) head.inside
          (rw ((sm4_schedule_head_valid_iff dump offset).1 head)))

  one_word : (offset v : ℕ) → sm4_schedule_head_valid dump offset ≡ some v → v ≡ 1
  unfolding sm4_schedule_head_valid
  one_word offset v h = ground arith

  sm4_sound :
      (tried : ℕ) (hit : KeyScheduleHit)
      → Memᴰ hit (scan_sm4_schedules hex_encode dump tried).1
      → (offset : ℕ) × IsSm4Head dump offset × (hit ≡ sm4_hit hex_encode dump offset)
  unfolding scan_sm4_schedules
  sm4_sound tried hit m = elim (Bool-cases (ltb (length dump) 20)) [
    | inl short ↦ absurd (Memᴰ.not-nil (rw short at m))
    | inr long ↦
        let (offset, fits, e) =
          sweep_sound 20 (sm4_test hex_encode dump) dump tried hit (rw long at m) in
        elim (Option-cases (sm4_schedule_head_valid dump offset)) [
          | inl invalid ↦ absurd (none_ne_some (rw invalid at e))
          | inr (v, valid) ↦
              let one = one_word offset v valid in
              (
                offset,
                (sm4_schedule_head_valid_iff dump offset).0 (valid ∙ ap some one),
                cc (rw valid at e, one),
              )
        ]
  ]

  sm4_count :
      (tried : ℕ)
      → tried < 2 ^ 64
      → (scan_sm4_schedules hex_encode dump tried).0 ≡ (tried + (length dump + 1 - 20)) % 2 ^ 64
  unfolding scan_sm4_schedules
  sm4_count tried h =
      ground (arith, sweep_count 20 (sm4_test hex_encode dump) dump tried (omega arith) h)

module _ (hex_encode : Bytes → Text) (dump : Bytes) where
  abbrev found : List KeyScheduleHit
  found = (scan_key_schedules hex_encode dump).hits

  aes_sizes_big : All (λ (p : ℕ × Text). 4 ≤ p.0) aes_sizes
  aes_sizes_big = omega arith

  -- Every schedule head of a listed AES size is reported, with its offset, its key and the label of
  -- its size. The number of validated words that it reports counts the words of the key and the four
  -- behind it.
  pub aes_schedules_found :
      (nk : ℕ) (algo : Text) (offset : ℕ)
      → Memᴰ (nk, algo) aes_sizes
      → IsScheduleHead dump offset nk
      → Memᴰ (aes_hit hex_encode dump nk algo offset) found
  unfolding scan_key_schedules
  aes_schedules_found nk algo offset m head =
      Memᴰ.append_left _
        (sizes_complete hex_encode dump aes_sizes (0, []) aes_sizes_big nk algo offset m head)

  -- Every SM4 key with its first round key behind it is reported.
  pub sm4_schedules_found :
      (offset : ℕ) → IsSm4Head dump offset → Memᴰ (sm4_hit hex_encode dump offset) found
  unfolding scan_key_schedules
  sm4_schedules_found offset head =
      Memᴰ.append_right (scan_sizes hex_encode dump aes_sizes (0, [])).1
        (sm4_complete hex_encode dump _ offset head)

  -- Each hit of a key-schedule scan is an AES schedule of a listed size, or an SM4 key, at the
  -- offset that it names, and carries the bytes of that key. The number of validated words counts
  -- the words of the key and those behind it.
  pub schedules_sound :
      (hit : KeyScheduleHit)
      → Memᴰ hit found
      → IsAesHit hex_encode dump aes_sizes hit
        ⊎ ((offset : ℕ) × IsSm4Head dump offset × (hit ≡ sm4_hit hex_encode dump offset))
  unfolding scan_key_schedules
  schedules_sound hit m =
      elim (Memᴰ.append_cases (scan_sizes hex_encode dump aes_sizes (0, [])).1 m) [
        | inl aes ↦ elim (sizes_sound hex_encode dump aes_sizes (0, []) hit aes_sizes_big aes) [
          | inl nothing ↦ absurd (Memᴰ.not-nil nothing)
          | inr found_aes ↦ inl found_aes
        ]
        | inr sm4 ↦ inr (sm4_sound hex_encode dump _ hit sm4)
      ]

  -- `candidates_tried` counts every window of 32, 40, 48 and 20 bytes once, modulo 2^64.
  pub schedules_tried :
      (scan_key_schedules hex_encode dump).stats.candidates_tried
      ≡ ((length dump + 1 - 32)
          + (length dump + 1 - 40)
          + (length dump + 1 - 48)
          + (length dump + 1 - 20))
        % 2 ^ 64
  unfolding scan_key_schedules
  schedules_tried =
      let s4 = visit_size hex_encode dump 4 (codes "aes-128") (0, []) in
      let s6 = visit_size hex_encode dump 6 (codes "aes-192") s4 in
      let s8 = visit_size hex_encode dump 8 (codes "aes-256") s6 in
      let e4 = visit_count hex_encode dump 4 (codes "aes-128") (0, []) (omega arith) in
      let e6 = visit_count hex_encode dump 6 (codes "aes-192") s4 (omega arith) in
      let e8 = visit_count hex_encode dump 8 (codes "aes-256") s6 (omega arith) in
      omega (arith, sm4_count hex_encode dump s8.0 (omega arith))
