-- ===== src/Cli/Searches.antt =====
-- The exit codes of `run_key_schedules` and `run_hash`, against what the dump holds.
use memhunt.Base.{ℕ, ◌≡◌, ◌↔◌, refl, sym, ap, subst, ◌∙◌, ◌⊎◌, inl, inr}
use memhunt.Base.{Bytes, Text, codes, Bool, true, List, ◌∷◌, Memᴰ, length, eq_list}
use memhunt.Base.{some}
use memhunt.Base.{ok, err, error, panic, Result-cases}
use memhunt.Base.{err_ne_ok, ok_inj}
use memhunt.KeySched.Scan.{KeyScheduleHit, aes_sizes, scan_key_schedules}
use memhunt.KeySched.Heads.{IsScheduleHead}
use memhunt.KeySched.Sm4Heads.{IsSm4Head}
use memhunt.KeySched.Passes.{aes_hit, sm4_hit}
use memhunt.KeySched.Hits.{aes_schedules_found, sm4_schedules_found, schedules_sound}
use memhunt.HashScan.Algos.{Digests, HashAlgoSpec, hasher, parse}
use memhunt.HashScan.Scan.{HashHit}
use memhunt.HashScan.Preimages.{IsPreimage, IsSearchable, scan_preimages_exact}
use memhunt.HashScan.Limits.{zero_length_panics}
use memhunt.Host.{Host}
use memhunt.Cli.Decode.{unreadable}
use memhunt.Cli.Print.{print_key_hit, print_hash_hit}
use memhunt.Cli.Run.{HashOptions, hash_config, exit_code, read_dump, finish, key_hits}
use memhunt.Cli.Run.{run_key_schedules, preimage_hits, hash_hits, hash_preview, run_hash}
use memhunt.Cli.Exit.{Prints, finish_zero_iff, finish_failed}

-- Some window of the dump is the head of an AES schedule of a listed size, or an SM4 key with its
-- first round key behind it.
abbrev pub HoldsSchedule : Bytes → Type 0
HoldsSchedule dump =
    ((nk : ℕ) × (algo : Text) × (offset : ℕ) × Memᴰ (nk, algo) aes_sizes
      × IsScheduleHead dump offset nk)
    ⊎ ((offset : ℕ) × IsSm4Head dump offset)

hits_iff :
    (hex_encode : Bytes → Text) (dump : Bytes)
    → ((hit : KeyScheduleHit) × Memᴰ hit (scan_key_schedules hex_encode dump).hits)
      ↔ HoldsSchedule dump
hits_iff hex_encode dump = (
  (λ m. elim (schedules_sound hex_encode dump m.0 m.1) [
    | inl (nk, algo, offset, listed, head, same) ↦ inl (nk, algo, offset, listed, head)
    | inr (offset, head, same) ↦ inr (offset, head)
  ]),
  (λ h. elim h [
    | inl (nk, algo, offset, listed, head) ↦ (
      aes_hit hex_encode dump nk algo offset,
      aes_schedules_found hex_encode dump nk algo offset listed head,
    )
    | inr (offset, head) ↦
        (sm4_hit hex_encode dump offset, sm4_schedules_found hex_encode dump offset head)
  ]),
)

module _ (host : Host) (hex_encode : Bytes → Text) where
  key_hits_read :
      (path : Text) (dump : Bytes)
      → host.read_file path ≡ ok dump
      → key_hits host hex_encode path ≡ ok (scan_key_schedules hex_encode dump).hits
  unfolding key_hits read_dump
  key_hits_read path dump e = rw e refl

  key_hits_unread :
      (path e : Text)
      → host.read_file path ≡ err e
      → key_hits host hex_encode path ≡ err (error (unreadable path e))
  unfolding key_hits read_dump
  key_hits_unread path e h = rw h refl

  -- `memhunt key-schedules` exits with 0 exactly where the dump can be read and holds the head of an
  -- AES key schedule or an SM4 key with its first round key, if the output is human-readable or
  -- stdout takes every line.
  pub key_schedules_exit_iff :
      (path : Text) (json : Bool)
      → Prints host json
      → ((run_key_schedules host hex_encode path json).code ≡ 0)
        ↔ ((dump : Bytes) × (host.read_file path ≡ ok dump) × HoldsSchedule dump)
  unfolding run_key_schedules
  key_schedules_exit_iff path json p = elim (Result-cases (host.read_file path)) [
    | inl (dump, e) ↦
        let (to, from) =
          finish_zero_iff host host.key_hit_json print_key_hit json
            (scan_key_schedules hex_encode dump).hits p in
        let (sound, complete) = hits_iff hex_encode dump in
        rw (key_hits_read path dump e) (
          (λ zero_code. (dump, e, sound (to zero_code))),
          (λ h. from (complete (subst HoldsSchedule (ok_inj (sym h.1 ∙ e)) h.2))),
        )
    | inr (why, e) ↦ rw (key_hits_unread path why e) (
      (λ zero_code. absurd (
          finish_failed host host.key_hit_json print_key_hit json (error (unreadable path why))
            zero_code)),
      (λ h. absurd (err_ne_ok (sym e ∙ h.1))),
    )
  ]

  module _ (digests : Digests) (o : HashOptions) (digest dump : Bytes)
      (mode : o.mode ≡ codes "preimage") (decoded : host.hex_decode o.digest ≡ some digest)
      (readable : host.read_file o.dump_path ≡ ok dump) where
    hash_hits_preimage :
        hash_hits host hex_encode digests o
        ≡ preimage_hits host hex_encode digests o digest dump (hash_config o)
    unfolding hash_hits read_dump
    hash_hits_preimage =
        let is_preimage : eq_list o.mode (codes "preimage") ≡ true =
          ap (λ m. eq_list m (codes "preimage")) mode in
        rw (decoded, readable, is_preimage) refl

    -- `memhunt hash --mode preimage`, on a readable dump, with a hex digest and a list of algorithms
    -- whose digests all have its length, and a shortest length of 1 or more, exits with 0 exactly
    -- where some window of a length in the range has the digest by a listed algorithm, if the output
    -- is human-readable or stdout takes every line. A preimage of another length does not count.
    pub preimage_exit_iff :
        (algos : List HashAlgoSpec)
        → parse o.algos ≡ ok algos
        → IsSearchable digests digest (hash_config o) algos
        → Prints host o.json
        → ((run_hash host hex_encode digests o).code ≡ 0)
          ↔ ((hit : HashHit) × IsPreimage hex_encode digests dump digest (hash_config o) algos hit)
    unfolding run_hash
    preimage_exit_iff algos parsed s p =
        let (r, scanned, exact) =
          scan_preimages_exact hex_encode digests dump digest (hash_config o) algos s in
        let hits : preimage_hits host hex_encode digests o digest dump (hash_config o) ≡ ok r.hits =
          unfold preimage_hits in rw (parsed, scanned) refl in
        let (to, from) =
          finish_zero_iff host host.hash_hit_json
            (λ hit. print_hash_hit (hash_preview host hex_encode digests hit) hit) o.json r.hits
            p in
        rw (hash_hits_preimage, hits)
          (
            (λ zero_code. let (hit, m) = to zero_code in (hit, (exact hit).0 m)),
            (λ h. from (h.0, (exact h.0).1 h.1)),
          )

    -- With `--min-len 0`, which the command line does not refuse, the search panics where the digest
    -- has the length of the first algorithm's, and the process exits with 101.
    pub zero_length_exit :
        (algo : HashAlgoSpec) (algos : List HashAlgoSpec)
        → parse o.algos ≡ ok (algo ∷ algos)
        → o.min_len ≡ 0
        → length digest ≡ (hasher digests algo).output_len
        → (run_hash host hex_encode digests o).code ≡ 101
    unfolding run_hash
    zero_length_exit algo algos parsed none_short fits =
        let panics =
          zero_length_panics hex_encode digests dump digest (hash_config o) algo algos none_short
            fits in
        let failed : preimage_hits host hex_encode digests o digest dump (hash_config o)
            ≡ err panic =
          unfold preimage_hits in rw (parsed, panics) refl in
        rw (hash_hits_preimage, failed) (unfold finish exit_code in refl)
