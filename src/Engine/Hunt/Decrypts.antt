-- ===== src/Engine/Hunt/Decrypts.antt =====
-- Decrypting lists of blocks, and the CBC chain.
use memhunt.Base.{none_ne_some, some_inj}
use memhunt.Base.{ℕ, zero, suc, ◌≡◌, refl, ap, ap₂, inl, inr, arith}
use memhunt.Base.{Bytes, List, [], ◌∷◌, some, All, Option-cases}
use memhunt.Base.{length, take, map}
use memhunt.Cipher.{BlockCipher}
use memhunt.Engine.Counter.{xor_zip}
use memhunt.Engine.Blocks.{xor_zip_cancel, length-xor_zip}
use memhunt.Engine.Hunt.{decrypt_all, decrypt_or_keep, xor_previous}

-- Each block decrypts to the block beside it.
abbrev pub Decrypts : BlockCipher → Bytes → List Bytes → List Bytes → Type 0
Decrypts cipher key [] [] = Unit {0}
Decrypts cipher key [] (p ∷ ps) = ⊥
Decrypts cipher key (b ∷ bs) [] = ⊥
Decrypts cipher key (b ∷ bs) (p ∷ ps) =
    (cipher.decrypt_with_key key b ≡ some p) × Decrypts cipher key bs ps

module _ (cipher : BlockCipher) (key : Bytes) where
  pub Decrypts-decrypt_all :
      (bs ps : List Bytes) → Decrypts cipher key bs ps → decrypt_all cipher key bs ≡ some ps
  unfolding decrypt_all
  Decrypts-decrypt_all [] [] h = refl
  Decrypts-decrypt_all [] (p ∷ ps) h = elim h [ ]
  Decrypts-decrypt_all (b ∷ bs) [] h = elim h [ ]
  Decrypts-decrypt_all (b ∷ bs) (p ∷ ps) (h, hs) = rw (h, Decrypts-decrypt_all bs ps hs)

  pub decrypt_all-Decrypts :
      (bs ps : List Bytes) → decrypt_all cipher key bs ≡ some ps → Decrypts cipher key bs ps
  unfolding decrypt_all
  decrypt_all-Decrypts [] [] h = tt
  decrypt_all-Decrypts [] (p ∷ ps) h = cc
  decrypt_all-Decrypts (b ∷ bs) ps h = elim (Option-cases (cipher.decrypt_with_key key b)) [
    | inl refused ↦ absurd (none_ne_some (rw refused at h))
    | inr (q, first) ↦ elim (Option-cases (decrypt_all cipher key bs)) [
      | inl refused ↦ absurd (none_ne_some (rw (first, refused) at h))
      | inr (qs, others) ↦
          let same : q ∷ qs ≡ ps = some_inj (rw (first, others) at h) in
          rw (← same) (first, decrypt_all-Decrypts bs qs others)
    ]
  ]

  pub Decrypts-take :
      (n : ℕ) (bs ps : List Bytes)
      → Decrypts cipher key bs ps
      → Decrypts cipher key (take n bs) (take n ps)
  Decrypts-take zero bs ps h = tt
  Decrypts-take (suc n) [] [] h = tt
  Decrypts-take (suc n) [] (p ∷ ps) h = elim h [ ]
  Decrypts-take (suc n) (b ∷ bs) [] h = elim h [ ]
  Decrypts-take (suc n) (b ∷ bs) (p ∷ ps) (h, hs) = (h, Decrypts-take n bs ps hs)

  pub Decrypts-map :
      (bs ps : List Bytes) → Decrypts cipher key bs ps → map (decrypt_or_keep cipher key) bs ≡ ps
  unfolding decrypt_or_keep
  Decrypts-map [] [] h = refl
  Decrypts-map [] (p ∷ ps) h = elim h [ ]
  Decrypts-map (b ∷ bs) [] h = elim h [ ]
  Decrypts-map (b ∷ bs) (p ∷ ps) (h, hs) = rw (h, Decrypts-map bs ps hs)

-- The CBC mode of a block cipher: each block is masked with the ciphertext block before it.
abbrev pub cbc_encrypt : (Bytes → Bytes) → Bytes → List Bytes → List Bytes
cbc_encrypt enc prev [] = []
cbc_encrypt enc prev (p ∷ ps) = enc (xor_zip p prev) ∷ cbc_encrypt enc (enc (xor_zip p prev)) ps

-- What the cipher makes of the blocks: the masked plaintext.
abbrev pub masked_blocks : (Bytes → Bytes) → Bytes → List Bytes → List Bytes
masked_blocks enc prev [] = []
masked_blocks enc prev (p ∷ ps) = xor_zip p prev ∷ masked_blocks enc (enc (xor_zip p prev)) ps

-- `enc` is undone by the cipher under the key, on blocks of `n` bytes.
pub record IsInverse (cipher : BlockCipher) (key : Bytes) (n : ℕ) (enc : Bytes → Bytes)
    : Type 0 where
  pub undone : (b : Bytes) → length b ≡ n → cipher.decrypt_with_key key (enc b) ≡ some b
  pub same_size : (b : Bytes) → length b ≡ n → length (enc b) ≡ n

module _ (cipher : BlockCipher) (key : Bytes) (n : ℕ) (enc : Bytes → Bytes)
    (inverse : IsInverse cipher key n enc) where
  masked_size : (p prev : Bytes) → length p ≡ n → length prev ≡ n → length (xor_zip p prev) ≡ n
  masked_size p prev hp hv = omega (arith, length-xor_zip p prev)

  pub cbc_encrypt-Decrypts :
      (prev : Bytes) (ps : List Bytes)
      → length prev ≡ n
      → All (λ p. length p ≡ n) ps
      → Decrypts cipher key (cbc_encrypt enc prev ps) (masked_blocks enc prev ps)
  cbc_encrypt-Decrypts prev [] hv h = tt
  cbc_encrypt-Decrypts prev (p ∷ ps) hv (hp, hs) =
      let size = masked_size p prev hp hv in
      (
        inverse.undone (xor_zip p prev) size,
        cbc_encrypt-Decrypts (enc (xor_zip p prev)) ps (inverse.same_size _ size) hs,
      )

  pub cbc_encrypt_size :
      (prev : Bytes) (ps : List Bytes)
      → length prev ≡ n
      → All (λ p. length p ≡ n) ps
      → All (λ b. length b ≡ n) (cbc_encrypt enc prev ps)
  cbc_encrypt_size prev [] hv h = tt
  cbc_encrypt_size prev (p ∷ ps) hv (hp, hs) =
      let size = inverse.same_size _ (masked_size p prev hp hv) in
      (size, cbc_encrypt_size (enc (xor_zip p prev)) ps size hs)

  -- Masking with the previous blocks gives the plaintext.
  pub xor_previous-masked_blocks :
      (prev : Bytes) (ps : List Bytes)
      → length prev ≡ n
      → All (λ p. length p ≡ n) ps
      → xor_previous (masked_blocks enc prev ps) (prev ∷ cbc_encrypt enc prev ps) ≡ ps
  unfolding xor_previous
  xor_previous-masked_blocks prev [] hv h = refl
  xor_previous-masked_blocks prev (p ∷ ps) hv (hp, hs) =
      ap₂ (◌∷◌) (xor_zip_cancel p prev (omega arith)) (
        xor_previous-masked_blocks (enc (xor_zip p prev)) ps
          (inverse.same_size _ (masked_size p prev hp hv)) hs)

-- Of the masked blocks only those that are read matter.
pub take-xor_previous :
    (n : ℕ) (ds bs : List Bytes) → take n (xor_previous ds bs) ≡ xor_previous (take n ds) bs
unfolding xor_previous
take-xor_previous zero ds bs = refl
take-xor_previous (suc n) [] bs = refl
take-xor_previous (suc n) (d ∷ ds) [] = refl
take-xor_previous (suc n) (d ∷ ds) (b ∷ bs) = ap (◌∷◌ (xor_zip d b)) (take-xor_previous n ds bs)
