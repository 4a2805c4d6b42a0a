-- ===== src/KeySched/Passes.antt =====
-- The passes of `scan_key_schedules` over the dump, one for each AES key size.
use memhunt.Base.{
  ◌^◌, ◌%◌, ◌-◌, sweep_count, ◌<◌, ℕ, ◌+◌, ◌*◌, ◌≤◌, ◌≡◌, refl, sym, ap, ◌∙◌, subst, ◌⊎◌, inl, inr,
  arith,
}
use memhunt.Base.{Bytes, Text, codes, false, List, [], ◌∷◌, Memᴰ, some, length, take, drop, All}
use memhunt.Base.{take-take, ltb, Bool-cases, Option-cases}
use memhunt.Base.{sweep, positions, sweep_complete, sweep_sound, sweep_count}
use mathlib.Core.List.Memᴰ
use memhunt.Base.{none_ne_some}
use memhunt.KeySched.Aes.{schedule_head_valid}
use memhunt.KeySched.Scan.{KeyScheduleHit, aes_test, visit_size, scan_sizes}
use memhunt.KeySched.Heads.{IsScheduleHead, schedule_head_valid_iff}

module _ (hex_encode : Bytes → Text) (dump : Bytes) where
  abbrev pub aes_hit : ℕ → Text → ℕ → KeyScheduleHit
  aes_hit nk algo offset = record {
    algo = algo;
    offset = offset;
    key_hex = hex_encode (take (nk * 4) (drop offset dump));
    words_validated = 4 + nk;
  }

  abbrev pub sm4_hit : ℕ → KeyScheduleHit
  sm4_hit offset = record {
    algo = codes "sm4";
    offset = offset;
    key_hex = hex_encode (take 16 (drop offset dump));
    words_validated = 1;
  }

  head_found : (offset nk v : ℕ) → schedule_head_valid dump offset nk ≡ some v → v ≡ 4
  unfolding schedule_head_valid
  head_found offset nk v h = ground arith

  module _ (nk : ℕ) (algo : Text) (big : 4 ≤ nk) where
    -- One pass over the dump for keys of `nk` words.
    abbrev pass : ℕ → List KeyScheduleHit
    pass tried =
        (sweep false (aes_test hex_encode dump nk algo) (positions ((nk + 4) * 4) dump) tried).1

    pass_complete :
        (tried offset : ℕ)
        → IsScheduleHead dump offset nk
        → Memᴰ (aes_hit nk algo offset) (pass tried)
    pass_complete tried offset head =
        sweep_complete ((nk + 4) * 4) (aes_test hex_encode dump nk algo) dump tried offset _
          (omega arith) head.inside
          (rw (
            (schedule_head_valid_iff dump offset nk big).1 head,
            take-take (nk * 4) ((nk + 4) * 4) (drop offset dump) (omega arith),
          ))

    test_hit :
        (offset v : ℕ) (hit : KeyScheduleHit)
        → schedule_head_valid dump offset nk ≡ some v
        → aes_test hex_encode dump nk algo offset (take ((nk + 4) * 4) (drop offset dump))
          ≡ some hit
        → hit ≡ aes_hit nk algo offset
    test_hit offset v hit valid e =
        let same = take-take (nk * 4) ((nk + 4) * 4) (drop offset dump) (omega arith) in
        cc (rw (valid, head_found offset nk v valid, same) at e)

    pass_sound :
        (tried : ℕ) (hit : KeyScheduleHit)
        → Memᴰ hit (pass tried)
        → (offset : ℕ) × IsScheduleHead dump offset nk × (hit ≡ aes_hit nk algo offset)
    pass_sound tried hit m =
        let (i, fits, e) =
          sweep_sound ((nk + 4) * 4) (aes_test hex_encode dump nk algo) dump tried hit m in
        elim (Option-cases (schedule_head_valid dump i nk)) [
          | inl invalid ↦ absurd (none_ne_some (rw invalid at e))
          | inr (v, valid) ↦
              let four = head_found i nk v valid in
              (
                i,
                (schedule_head_valid_iff dump i nk big).0 (valid ∙ ap some four),
                test_hit i v hit valid e,
              )
        ]

  -- What holds of a hit when it is known to be a schedule of a listed size.
  abbrev pub IsAesHit : List (ℕ × Text) → KeyScheduleHit → Type 0
  IsAesHit sizes hit =
      (nk : ℕ) × (algo : Text) × (offset : ℕ) × Memᴰ (nk, algo) sizes
      × IsScheduleHead dump offset nk
      × (hit ≡ aes_hit nk algo offset)

  visit_keeps :
      (nk : ℕ) (algo : Text) (state : ℕ × List KeyScheduleHit) (hit : KeyScheduleHit)
      → Memᴰ hit state.1
      → Memᴰ hit (visit_size hex_encode dump nk algo state).1
  unfolding visit_size
  visit_keeps nk algo (tried, hits) hit m = elim (Bool-cases (ltb (length dump) ((nk + 4) * 4))) [
    | inl short ↦ rw short m
    | inr long ↦ rw long (Memᴰ.append_left _ m)
  ]

  visit_complete :
      (nk : ℕ) (algo : Text) (state : ℕ × List KeyScheduleHit) (offset : ℕ)
      → 4 ≤ nk
      → IsScheduleHead dump offset nk
      → Memᴰ (aes_hit nk algo offset) (visit_size hex_encode dump nk algo state).1
  unfolding visit_size
  visit_complete nk algo (tried, hits) offset big head =
      let long : ltb (length dump) ((nk + 4) * 4) ≡ false = ground (arith, head.inside) in
      rw long (Memᴰ.append_right hits (pass_complete nk algo big tried offset head))

  visit_sound :
      (nk : ℕ) (algo : Text) (state : ℕ × List KeyScheduleHit) (hit : KeyScheduleHit)
      → 4 ≤ nk
      → Memᴰ hit (visit_size hex_encode dump nk algo state).1
      → Memᴰ hit state.1 ⊎ IsAesHit ((nk, algo) ∷ []) hit
  unfolding visit_size
  visit_sound nk algo (tried, hits) hit big m =
      elim (Bool-cases (ltb (length dump) ((nk + 4) * 4))) [
        | inl short ↦ inl (rw short at m)
        | inr long ↦ elim (Memᴰ.append_cases hits (rw long at m)) [
          | inl old ↦ inl old
          | inr new ↦
              let (offset, head, same) = pass_sound nk algo big tried hit new in
              inr (nk, algo, offset, Memᴰ.head refl, head, same)
        ]
      ]

  sizes_keep :
      (sizes : List (ℕ × Text)) (state : ℕ × List KeyScheduleHit) (hit : KeyScheduleHit)
      → Memᴰ hit state.1
      → Memᴰ hit (scan_sizes hex_encode dump sizes state).1
  unfolding scan_sizes
  sizes_keep [] state hit m = m
  sizes_keep ((nk, algo) ∷ sizes) state hit m =
      sizes_keep sizes _ hit (visit_keeps nk algo state hit m)

  pub sizes_complete :
      (sizes : List (ℕ × Text)) (state : ℕ × List KeyScheduleHit)
      → All (λ p. 4 ≤ p.0) sizes
      → (nk : ℕ) (algo : Text) (offset : ℕ) → Memᴰ (nk, algo) sizes
      → IsScheduleHead dump offset nk
      → Memᴰ (aes_hit nk algo offset) (scan_sizes hex_encode dump sizes state).1
  unfolding scan_sizes
  sizes_complete [] state big nk algo offset m head = absurd (Memᴰ.not-nil m)
  sizes_complete ((nk', algo') ∷ sizes) state big nk algo offset m head = elim (Memᴰ.cases_cons m) [
    | inl same ↦
        let here = subst (λ p. IsScheduleHead dump offset p.0) same head in
        subst
          (λ p.
            Memᴰ (aes_hit p.0 p.1 offset)
              (scan_sizes hex_encode dump sizes (visit_size hex_encode dump nk' algo' state)).1)
          (sym same) (sizes_keep sizes _ _ (visit_complete nk' algo' state offset big.0 here))
    | inr later ↦ sizes_complete sizes _ big.1 nk algo offset later head
  ]

  pub sizes_sound :
      (sizes : List (ℕ × Text)) (state : ℕ × List KeyScheduleHit) (hit : KeyScheduleHit)
      → All (λ p. 4 ≤ p.0) sizes
      → Memᴰ hit (scan_sizes hex_encode dump sizes state).1
      → Memᴰ hit state.1 ⊎ IsAesHit sizes hit
  unfolding scan_sizes
  sizes_sound [] state hit big m = inl m
  sizes_sound ((nk, algo) ∷ sizes) state hit big m =
      elim (sizes_sound sizes (visit_size hex_encode dump nk algo state) hit big.1 m) [
        | inl earlier ↦ elim (visit_sound nk algo state hit big.0 earlier) [
          | inl old ↦ inl old
          | inr (n, a, offset, m', head, same) ↦
              let here = Memᴰ.eq_of_singleton m' in inr (n, a, offset, Memᴰ.head here, head, same)
        ]
        | inr (n, a, offset, m', head, same) ↦ inr (n, a, offset, Memᴰ.tail m', head, same)
      ]

  pub visit_count :
      (nk : ℕ) (algo : Text) (state : ℕ × List KeyScheduleHit)
      → state.0 < 2 ^ 64
      → (visit_size hex_encode dump nk algo state).0
        ≡ (state.0 + (length dump + 1 - (nk + 4) * 4)) % 2 ^ 64
  unfolding visit_size
  visit_count nk algo (tried, hits) h = ground (
    arith,
    sweep_count ((nk + 4) * 4) (aes_test hex_encode dump nk algo) dump tried (omega arith) h,
  )
