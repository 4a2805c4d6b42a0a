-- ===== src/Engine/Counter.antt =====
-- engine.rs: the counter blocks of CTR and GCM, and decryption with their keystream.
use memhunt.Base.{ℕ, zero, suc, ◌+◌, ◌*◌, ◌/◌, ◌%◌, ◌^◌, bit_xor, Bytes, List, [], ◌∷◌, ◌++◌}
use memhunt.Base.{Option, none, some, length, take, drop, ◌==◌, if◌then◌else◌}
use memhunt.Cipher.{BlockCipher}
use memhunt.Engine.Choice.{CipherMode, block, ctr, gcm}
use memhunt.Engine.Padding.{chunks}

abbrev be_from : ℕ → Bytes → ℕ
be_from acc [] = acc
be_from acc (b ∷ bytes) = be_from (acc * 256 + b) bytes

-- `from_be_bytes`.
abbrev pub from_be : Bytes → ℕ
from_be = be_from 0

-- `to_be_bytes` into `n` bytes.
abbrev pub to_be : ℕ → ℕ → Bytes
to_be zero value = []
to_be (suc n) value = (value / 256 ^ n % 256) ∷ to_be n value

-- `u128::wrapping_add(1)` on the whole block.
unfoldable pub increment_counter : Bytes → Bytes
increment_counter counter = to_be 16 ((from_be counter + 1) % 2 ^ 128)

-- `u32::wrapping_add(1)` on the last four bytes.
unfoldable pub increment_counter32 : Bytes → Bytes
increment_counter32 counter = take 12 counter ++ to_be 4 ((from_be (drop 12 counter) + 1) % 2 ^ 32)

-- The nonce of 12 bytes, and the counter 1 behind it.
unfoldable pub gcm_j0 : Bytes → Bytes
gcm_j0 nonce = nonce ++ (0 ∷ 0 ∷ 0 ∷ 1 ∷ [])

-- `zip` and `^`: as long as the shorter of the two.
abbrev pub xor_zip : Bytes → Bytes → Bytes
xor_zip [] ks = []
xor_zip (b ∷ bs) [] = []
xor_zip (b ∷ bs) (k ∷ ks) = bit_xor b k ∷ xor_zip bs ks

-- `nonce.try_into().ok()?` for CTR, J0 and one step for GCM, `None` for block mode.
unfoldable pub first_counter : Bytes → CipherMode → Option Bytes
first_counter nonce block = none
first_counter nonce ctr = if length nonce == 16 then some nonce else none
first_counter nonce gcm = some (increment_counter32 (gcm_j0 nonce))

unfoldable pub next_counter : CipherMode → Bytes → Option Bytes
next_counter block counter = none
next_counter ctr counter = some (increment_counter counter)
next_counter gcm counter = some (increment_counter32 counter)

infixl 5 ◌>>=◌
abbrev ◌>>=◌ {ℓ κ} : {A : Type ℓ} {B : Type κ} → Option A → (A → Option B) → Option B
none >>= f = none
some a >>= f = f a

-- The loop over the chunks, with the counter and the plaintext so far.
unfoldable pub stream_loop :
    BlockCipher → Bytes → CipherMode → List Bytes → Bytes → Bytes → Option Bytes
stream_loop cipher key mode [] counter plaintext = some plaintext
stream_loop cipher key mode (chunk ∷ rest) counter plaintext = do
  keystream ← cipher.encrypt_with_key key counter
  counter' ← next_counter mode counter
  stream_loop cipher key mode rest counter' (plaintext ++ xor_zip chunk keystream)

unfoldable pub stream_decrypt : BlockCipher → Bytes → Bytes → Bytes → CipherMode → Option Bytes
unfolding stream_loop
stream_decrypt cipher key ciphertext nonce mode = do
  counter ← first_counter nonce mode
  stream_loop cipher key mode (chunks 16 ciphertext) counter []
