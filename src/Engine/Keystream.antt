-- ===== src/Engine/Keystream.antt =====
-- `stream_decrypt` as masking with a keystream.
use memhunt.Base.{some_inj}
use memhunt.Base.{ℕ, zero, suc, ◌+◌, ◌%◌, ◌^◌, ◌≤◌, ◌≡◌, refl, sym, ap, ◌∙◌, arith}
use memhunt.Base.{Bytes, ◌++◌, [], ◌∷◌, some, true, append_assoc, append-nil}
use memhunt.Base.{length, take, drop, length-append, length-take, length-drop, ◌==◌, bit_xor}
use memhunt.Cipher.{BlockCipher}
use memhunt.Engine.Choice.{CipherMode, block, ctr, gcm}
use memhunt.Engine.Padding.{chunks, chunk_rounds}
use memhunt.Engine.Counter.{to_be, from_be, increment_counter, increment_counter32, gcm_j0, xor_zip}
use memhunt.Engine.Counter.{first_counter, next_counter, stream_loop, stream_decrypt}
use memhunt.Engine.Blocks.{xor_zip_cancel, length-xor_zip}

-- The nonce has the size that the mode wants.
abbrev pub NonceFits : CipherMode → Bytes → Type 0
NonceFits block nonce = ⊥
NonceFits ctr nonce = length nonce ≡ 16
NonceFits gcm nonce = length nonce ≡ 12

-- Under the key the cipher encrypts counter blocks by `enc`.
pub record IsEncryption (cipher : BlockCipher) (key : Bytes) (enc : Bytes → Bytes) : Type 0 where
  pub runs : (c : Bytes) → length c ≡ 16 → cipher.encrypt_with_key key c ≡ some (enc c)
  pub size : (c : Bytes) → length c ≡ 16 → length (enc c) ≡ 16

-- The counter block that follows.
abbrev pub step : CipherMode → Bytes → Bytes
step block c = c
step ctr c = increment_counter c
step gcm c = increment_counter32 c

-- The first counter block.
abbrev pub start : CipherMode → Bytes → Bytes
start block nonce = nonce
start ctr nonce = nonce
start gcm nonce = increment_counter32 (gcm_j0 nonce)

-- `rounds` encrypted counter blocks, one behind the other.
pub keystream : (Bytes → Bytes) → CipherMode → ℕ → Bytes → Bytes
keystream enc mode zero c = []
keystream enc mode (suc rounds) c = enc c ++ keystream enc mode rounds (step mode c)

length-to_be : (n value : ℕ) → length (to_be n value) ≡ n
length-to_be zero value = refl
length-to_be (suc n) value = ap suc (length-to_be n value)

increment_counter32_size : (c : Bytes) → length c ≡ 16 → length (increment_counter32 c) ≡ 16
unfolding increment_counter32
increment_counter32_size c h =
    omega (arith, h, length-append (take 12 c) (to_be 4 _), length-take 12 c, length-to_be 4 _)

increment_counter_size : (c : Bytes) → length (increment_counter c) ≡ 16
unfolding increment_counter
increment_counter_size c = length-to_be 16 ((from_be c + 1) % 2 ^ 128)

step_size : (mode : CipherMode) (c : Bytes) → length c ≡ 16 → length (step mode c) ≡ 16
step_size block c h = h
step_size ctr c h = increment_counter_size c
step_size gcm c h = increment_counter32_size c h

start_size :
    (mode : CipherMode) (nonce : Bytes) → NonceFits mode nonce → length (start mode nonce) ≡ 16
start_size block nonce h = elim h [ ]
start_size ctr nonce h = h
start_size gcm nonce h =
    increment_counter32_size (gcm_j0 nonce)
      (unfold gcm_j0 in omega (arith, length-append nonce (0 ∷ 0 ∷ 0 ∷ 1 ∷ []), h))

first_counter-start :
    (mode : CipherMode) (nonce : Bytes)
    → NonceFits mode nonce
    → first_counter nonce mode ≡ some (start mode nonce)
unfolding first_counter
first_counter-start block nonce h = elim h [ ]
first_counter-start ctr nonce h =
    let fits : (length nonce == 16) ≡ true = ground arith in rw fits refl
first_counter-start gcm nonce h = refl

next_counter-step :
    (mode : CipherMode) (nonce c : Bytes)
    → NonceFits mode nonce
    → next_counter mode c ≡ some (step mode c)
unfolding next_counter
next_counter-step block nonce c h = elim h [ ]
next_counter-step ctr nonce c h = refl
next_counter-step gcm nonce c h = refl

pub xor_zip-append :
    (n : ℕ) (bs ks more : Bytes)
    → length ks ≡ n
    → xor_zip (take n bs) ks ++ xor_zip (drop n bs) more ≡ xor_zip bs (ks ++ more)
xor_zip-append zero bs [] more h = refl
xor_zip-append zero bs (k ∷ ks) more h = absurd (omega arith)
xor_zip-append (suc n) bs [] more h = absurd (omega arith)
xor_zip-append (suc n) [] (k ∷ ks) more h = refl
xor_zip-append (suc n) (b ∷ bs) (k ∷ ks) more h =
    ap (◌∷◌ (bit_xor b k)) (xor_zip-append n bs ks more (omega arith))

pub take-xor_zip : (n : ℕ) (bs ks : Bytes) → take n (xor_zip bs ks) ≡ xor_zip (take n bs) ks
take-xor_zip zero bs ks = refl
take-xor_zip (suc n) [] ks = refl
take-xor_zip (suc n) (b ∷ bs) [] = refl
take-xor_zip (suc n) (b ∷ bs) (k ∷ ks) = ap (◌∷◌ (bit_xor b k)) (take-xor_zip n bs ks)

module _ (cipher : BlockCipher) (key : Bytes) (enc : Bytes → Bytes)
    (encrypts : IsEncryption cipher key enc) (mode : CipherMode) (nonce : Bytes)
    (fits : NonceFits mode nonce) where
  stream_loop-keystream :
      (rounds : ℕ) (bytes c plaintext : Bytes)
      → length bytes ≤ rounds
      → length c ≡ 16
      → stream_loop cipher key mode (chunk_rounds rounds 16 bytes) c plaintext
        ≡ some (plaintext ++ xor_zip bytes (keystream enc mode rounds c))
  unfolding stream_loop chunk_rounds keystream
  stream_loop-keystream zero [] c plaintext h size = ap some (sym (append-nil plaintext))
  stream_loop-keystream zero (b ∷ bytes) c plaintext h size = elim h [ ]
  stream_loop-keystream (suc rounds) [] c plaintext h size = ap some (sym (append-nil plaintext))
  stream_loop-keystream (suc rounds) (b ∷ bytes) c plaintext h size =
      rw (encrypts.runs c size, next_counter-step mode nonce c fits)
        (stream_loop-keystream rounds (drop 15 bytes) (step mode c)
            (plaintext ++ xor_zip (take 16 (b ∷ bytes)) (enc c))
            (omega (arith, length-drop 15 bytes)) (step_size mode c size)
          ∙ ap some (
              append_assoc plaintext _ _
              ∙ ap (λ t. plaintext ++ t)
                  (xor_zip-append 16 (b ∷ bytes) (enc c) (keystream enc mode rounds (step mode c))
                    (encrypts.size c size))))

  -- With a nonce of the mode's size and a cipher that encrypts blocks of 16 bytes to 16 bytes
  -- under the key, `stream_decrypt` masks the ciphertext with the encrypted counter blocks, from
  -- the first one of the mode on.
  pub stream_decrypt-keystream :
      (ciphertext : Bytes)
      → stream_decrypt cipher key ciphertext nonce mode
        ≡ some (xor_zip ciphertext (keystream enc mode (length ciphertext) (start mode nonce)))
  unfolding stream_decrypt chunks
  stream_decrypt-keystream ciphertext = rw (first_counter-start mode nonce fits) (
      stream_loop-keystream (length ciphertext) ciphertext (start mode nonce) [] (omega arith)
        (start_size mode nonce fits))

  keystream_size :
      (rounds : ℕ) (c : Bytes) → length c ≡ 16 → rounds ≤ length (keystream enc mode rounds c)
  unfolding keystream
  keystream_size zero c size = omega arith
  keystream_size (suc rounds) c size = omega (
    arith,
    length-append (enc c) (keystream enc mode rounds (step mode c)),
    encrypts.size c size,
    keystream_size rounds (step mode c) (step_size mode c size),
  )

  -- With a nonce of the mode's size and a cipher that encrypts 16 bytes to 16 bytes, decrypting
  -- twice succeeds and gives the bytes back: encryption in CTR and GCM mode is `stream_decrypt` too.
  pub stream_decrypt_twice :
      (bytes : Bytes)
      → (masked : Bytes) × (stream_decrypt cipher key bytes nonce mode ≡ some masked)
        × (stream_decrypt cipher key masked nonce mode ≡ some bytes)
  stream_decrypt_twice bytes =
      let ks = keystream enc mode (length bytes) (start mode nonce) in
      let long = keystream_size (length bytes) (start mode nonce) (start_size mode nonce fits) in
      let same : length (xor_zip bytes ks) ≡ length bytes =
        omega (arith, length-xor_zip bytes ks, long) in
      (
        xor_zip bytes ks,
        stream_decrypt-keystream bytes,
        stream_decrypt-keystream (xor_zip bytes ks)
            ∙ ap (λ n. some (xor_zip (xor_zip bytes ks) (keystream enc mode n (start mode nonce))))
                same
            ∙ ap some (xor_zip_cancel bytes ks long),
      )

  xor_zip-prefix :
      (n m : ℕ) (bs c : Bytes)
      → length bs ≤ n
      → n ≤ m
      → length c ≡ 16
      → xor_zip bs (keystream enc mode n c) ≡ xor_zip bs (keystream enc mode m c)
  unfolding keystream
  xor_zip-prefix zero m [] c h k size = refl
  xor_zip-prefix zero m (b ∷ bs) c h k size = elim h [ ]
  xor_zip-prefix (suc n) zero bs c h k size = elim k [ ]
  xor_zip-prefix (suc n) (suc m) [] c h k size = refl
  xor_zip-prefix (suc n) (suc m) (b ∷ bs) c h k size =
      sym (
        xor_zip-append 16 (b ∷ bs) (enc c) (keystream enc mode n (step mode c))
          (encrypts.size c size))
      ∙ ap (λ t. xor_zip (take 16 (b ∷ bs)) (enc c) ++ t)
          (xor_zip-prefix n m (drop 15 bs) (step mode c) (omega (arith, length-drop 15 bs))
            (omega arith) (step_size mode c size))
      ∙ xor_zip-append 16 (b ∷ bs) (enc c) (keystream enc mode m (step mode c))
          (encrypts.size c size)

  -- With a nonce of the mode's size and a cipher that encrypts 16 bytes to 16 bytes, a prefix of the
  -- ciphertext decrypts to the prefix of the plaintext.
  pub stream_decrypt_prefix :
      (n : ℕ) (ciphertext plaintext : Bytes)
      → stream_decrypt cipher key ciphertext nonce mode ≡ some plaintext
      → stream_decrypt cipher key (take n ciphertext) nonce mode ≡ some (take n plaintext)
  stream_decrypt_prefix n ciphertext plaintext e =
      let ks = keystream enc mode (length ciphertext) (start mode nonce) in
      stream_decrypt-keystream (take n ciphertext)
      ∙ ap some (
          xor_zip-prefix (length (take n ciphertext)) (length ciphertext) (take n ciphertext)
            (start mode nonce) (omega arith) (omega (arith, length-take n ciphertext))
            (start_size mode nonce fits)
          ∙ sym (take-xor_zip n ciphertext ks)
          ∙ ap (take n) (some_inj (sym (stream_decrypt-keystream ciphertext) ∙ e)))
