-- ===== src/Base/Results.antt =====
-- `Result<T, E>`, and an outcome with a panic beside it for the code that can panic.
use mathlib.Core.Bool.{Bool, true, false}
use mathlib.Core.Path.{◌≡◌, refl}
use mathlib.Core.Logic.{◌⊎◌, inl, inr, ◌≢◌}
use mathlib.Core.Option.{Option, none, some}
use memhunt.Base.Tests.{if◌then◌else◌}

pub data Result {ℓ κ} (E : Type κ) (A : Type ℓ) : Type (ℓ ⊔ κ) where
  ok : A → Result E A
  err : E → Result E A

-- The `?` operator, as the bind of a `do` block.
infixl 5 ◌>>=◌ ◌>>◌
abbrev pub ◌>>=◌ {ℓ κ μ} :
    {E : Type κ} {A : Type ℓ} {B : Type μ} → Result E A → (A → Result E B) → Result E B
ok a >>= f = f a
err e >>= f = err e

abbrev pub ◌>>◌ {ℓ κ} : {E : Type κ} {B : Type ℓ} → Result E (Unit {0}) → Result E B → Result E B
m >> k = m >>= λ _. k

-- `if test { return Err(e); }`
abbrev pub fail_if {κ} : {E : Type κ} → Bool → E → Result E (Unit {0})
fail_if true e = err e
fail_if false e = ok tt

-- How a call can fail to give a value: by the error that it returns, or by a panic.
pub data Failure {κ} (E : Type κ) : Type κ where
  error : E → Failure E
  panic : Failure E

-- `?` on a call that does not panic.
abbrev pub raise {ℓ κ} : {E : Type κ} {A : Type ℓ} → Result E A → Result (Failure E) A
raise (ok a) = ok a
raise (err e) = err (error e)

pub Result-cases {ℓ κ} :
    {E : Type κ} {A : Type ℓ} (r : Result E A) → ((a : A) × (r ≡ ok a)) ⊎ ((e : E) × (r ≡ err e))
Result-cases (ok a) = inl (a, refl)
Result-cases (err e) = inr (e, refl)

-- `map_err`, on a result and on an outcome.
abbrev pub map_err {ℓ κ μ} :
    {E : Type κ} {F : Type μ} {A : Type ℓ} → (E → F) → Result E A → Result F A
map_err f (ok a) = ok a
map_err f (err e) = err (f e)

abbrev pub map_error {ℓ κ μ} :
    {E : Type κ} {F : Type μ} {A : Type ℓ} → (E → F) → Result (Failure E) A → Result (Failure F) A
map_error f (ok a) = ok a
map_error f (err (error e)) = err (error (f e))
map_error f (err panic) = err panic

-- `ok_or`.
abbrev pub some_or {ℓ κ} : {E : Type κ} {A : Type ℓ} → Option A → E → Result E A
some_or none e = err e
some_or (some a) e = ok a

-- No panic: a result, or an error that is returned.
abbrev pub Returns {ℓ κ} : {E : Type κ} {A : Type ℓ} → Result (Failure E) A → Type 0
Returns (ok a) = Unit {0}
Returns (err (error e)) = Unit {0}
Returns (err panic) = ⊥

pub raise-Returns {ℓ κ} : {E : Type κ} {A : Type ℓ} (r : Result E A) → Returns (raise r)
raise-Returns (ok a) = tt
raise-Returns (err e) = tt

pub bind-Returns {ℓ κ μ} :
    {E : Type κ} {A : Type ℓ} {B : Type μ} (r : Result (Failure E) A) (f : A → Result (Failure E) B)
    → Returns r
    → ((a : A) → Returns (f a))
    → Returns (r >>= f)
bind-Returns (ok a) f h k = k a
bind-Returns (err (error e)) f h k = tt
bind-Returns (err panic) f h k = h

pub if-Returns {ℓ κ} :
    {E : Type κ} {A : Type ℓ} (test : Bool) (r s : Result (Failure E) A)
    → Returns r
    → Returns s
    → Returns (if test then r else s)
if-Returns true r s hr hs = hr
if-Returns false r s hr hs = hs

pub map_error-Returns {ℓ κ μ} :
    {E : Type κ} {F : Type μ} {A : Type ℓ} (f : E → F) (r : Result (Failure E) A)
    → Returns r
    → Returns (map_error f r)
map_error-Returns f (ok a) h = tt
map_error-Returns f (err (error e)) h = tt
map_error-Returns f (err panic) h = h

-- The same, as a negation.
pub ne_panic-Returns {ℓ κ} :
    {E : Type κ} {A : Type ℓ} (r : Result (Failure E) A) → r ≢ err panic → Returns r
ne_panic-Returns (ok a) h = tt
ne_panic-Returns (err (error e)) h = tt
ne_panic-Returns (err panic) h = h refl

-- A step that does not panic, and what follows it.
pub raised-Returns {ℓ κ μ} :
    {E : Type κ} {A : Type ℓ} {B : Type μ} (r : Result E A) (f : A → Result (Failure E) B)
    → ((a : A) → Returns (f a))
    → Returns (raise r >>= f)
raised-Returns r f k = bind-Returns (raise r) f (raise-Returns r) k

-- The constructors of `Option` and `Result` are injective, and differ.
pub none_ne_some {ℓ} : {A : Type ℓ} {a : A} → none ≡ some a → ⊥
none_ne_some h = cc

pub some_inj {ℓ} : {A : Type ℓ} {a b : A} → some a ≡ some b → a ≡ b
some_inj h = cc

pub ok_inj {ℓ κ} : {E : Type κ} {A : Type ℓ} {a b : A} → ◌≡◌ {A = Result E A} (ok a) (ok b) → a ≡ b
ok_inj h = cc

pub err_ne_ok {ℓ κ} : {E : Type κ} {A : Type ℓ} {e : E} {a : A} → err e ≡ ok a → ⊥
err_ne_ok h = cc
