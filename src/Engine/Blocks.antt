-- ===== src/Engine/Blocks.antt =====
-- Blocks and padding: what is cut is put together again, and PKCS #7 padding comes off.
use memhunt.Base.{ℕ, zero, suc, ◌+◌, ◌-◌, ◌≤◌, ◌<◌, min, ◌≡◌, refl, ap, ap₂, ◌∙◌, arith}
use memhunt.Base.{Bytes, true, false, ◌++◌, List, [], ◌∷◌, some, All}
use memhunt.Base.{length, replicate, concat, all, ltb, ◌==◌, ==_self}
use memhunt.Base.{length-append, length-replicate, take-length_append, drop-length_append}
use memhunt.Base.{bit_xor_cancel}
use memhunt.Engine.Padding.{chunk_rounds, chunks, last?, strip_by, strip_pkcs7}
use memhunt.Engine.Counter.{xor_zip}

-- Masking twice with the same bytes gives the block back.
pub xor_zip_cancel : (bs ks : Bytes) → length bs ≤ length ks → xor_zip (xor_zip bs ks) ks ≡ bs
xor_zip_cancel [] ks h = refl
xor_zip_cancel (b ∷ bs) [] h = elim h [ ]
xor_zip_cancel (b ∷ bs) (k ∷ ks) h =
    ap₂ (◌∷◌) (bit_xor_cancel b k) (xor_zip_cancel bs ks (omega arith))

pub length-xor_zip : (bs ks : Bytes) → length (xor_zip bs ks) ≡ min (length bs) (length ks)
length-xor_zip [] ks = omega arith
length-xor_zip (b ∷ bs) [] = omega arith
length-xor_zip (b ∷ bs) (k ∷ ks) = omega (arith, length-xor_zip bs ks)

chunk_rounds-concat :
    (n rounds : ℕ) (blocks : List Bytes)
    → 0 < n
    → All (λ b. length b ≡ n) blocks
    → length (concat blocks) ≤ rounds
    → chunk_rounds rounds n (concat blocks) ≡ blocks
unfolding chunk_rounds
chunk_rounds-concat n zero [] pos h fits = refl
chunk_rounds-concat n (suc rounds) [] pos h fits = refl
chunk_rounds-concat n rounds ([] ∷ blocks) pos (h, hs) fits = absurd (omega arith)
chunk_rounds-concat n zero ((x ∷ b) ∷ blocks) pos (h, hs) fits = elim fits [ ]
chunk_rounds-concat n (suc rounds) ((x ∷ b) ∷ blocks) pos (h, hs) fits =
    let rest : chunk_rounds rounds (length (x ∷ b)) (concat blocks) ≡ blocks = rw h (
      chunk_rounds-concat n rounds blocks pos hs
        (omega (arith, length-append b (concat blocks)))) in
    rw (← h) (
      ap₂ (◌∷◌) (take-length_append (x ∷ b) (concat blocks)) (
        ap (chunk_rounds rounds (length (x ∷ b))) (drop-length_append (x ∷ b) (concat blocks))
        ∙ rest))

-- Blocks of the same size, which is not 0, one behind the other, are cut where they meet.
pub chunks-concat :
    (n : ℕ) (blocks : List Bytes)
    → 0 < n
    → All (λ b. length b ≡ n) blocks
    → chunks n (concat blocks) ≡ blocks
unfolding chunks
chunks-concat n blocks pos h =
    chunk_rounds-concat n (length (concat blocks)) blocks pos h (omega arith)

last?-replicate : (plaintext : Bytes) (k n : ℕ) → last? (plaintext ++ replicate (suc k) n) ≡ some n
last?-replicate [] zero n = refl
last?-replicate [] (suc k) n = last?-replicate [] k n
last?-replicate (a ∷ []) k n = last?-replicate [] k n
last?-replicate (a ∷ b ∷ plaintext) k n = last?-replicate (b ∷ plaintext) k n

all-replicate : (k n : ℕ) → all (λ b. b == n) (replicate k n) ≡ true
all-replicate zero n = refl
all-replicate (suc k) n = rw (==_self n, all-replicate k n)

-- Padding of `n` bytes `n`, for `n` from 1 to 255, comes off and leaves the plaintext.
pub strip_pkcs7-pad :
    (plaintext : Bytes) (n : ℕ)
    → 0 < n
    → n < 256
    → strip_pkcs7 (plaintext ++ replicate n n) ≡ (true, plaintext)
unfolding strip_pkcs7 strip_by
strip_pkcs7-pad plaintext zero pos small = elim pos [ ]
strip_pkcs7-pad plaintext (suc k) pos small =
    let padded : Bytes = plaintext ++ replicate (suc k) (suc k) in
    let total : length padded ≡ length plaintext + suc k = omega (
      arith,
      length-append plaintext (replicate (suc k) (suc k)),
      length-replicate (suc k) (suc k),
    ) in
    let front : length padded - suc k ≡ length plaintext = omega arith in
    let short : ltb (length padded) (suc k) ≡ false = ground arith in
    let some_pad : (suc k == 0) ≡ false = ground arith in
    let byte : ltb 255 (suc k) ≡ false = ground arith in
    rw
      (
        last?-replicate plaintext k (suc k),
        some_pad,
        front,
        short,
        byte,
        drop-length_append plaintext (replicate (suc k) (suc k)),
        all-replicate (suc k) (suc k),
        take-length_append plaintext (replicate (suc k) (suc k)),
      )
      refl
