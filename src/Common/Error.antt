-- ===== src/Common/Error.antt =====
-- A computation that returns or throws; `Failure` is what the program throws.
use mathlib.Core.Path.{◌≡◌, refl}
use mathlib.Core.Bool.{Bool, true, false}

pub data Result {ℓ} (Failure : Type 0) (A : Type ℓ) : Type ℓ where
  ok : A → Result Failure A
  err : Failure → Result Failure A

-- The rest runs on the value, and a throw skips it.
infixl 5 ◌>>=◌ ◌>>◌
abbrev pub ◌>>=◌ {ℓ κ} :
    {Failure : Type 0} {A : Type ℓ} {B : Type κ} (m : Result Failure A)
    → (A → Result Failure B)
    → Result Failure B
ok value >>= rest = rest value
err thrown >>= rest = err thrown

abbrev pub ◌>>◌ {ℓ} :
    {Failure : Type 0} {B : Type ℓ} (m : Result Failure (Unit {0}))
    → Result Failure B
    → Result Failure B
m >> rest = m >>= λ _. rest

-- `if (bad) throw e;`
abbrev pub throw_if : {Failure : Type 0} → Bool → Failure → Result Failure (Unit {0})
throw_if true e = err e
throw_if false e = ok tt

-- Inversion of a successful bind, for proofs where the parts stay shut.
pub >>=-eq-ok {ℓ κ} :
    {Failure : Type 0} {A : Type ℓ} {B : Type κ} (m : Result Failure A) (f : A → Result Failure B)
    {b : B}
    → (m >>= f) ≡ ok b
    → (a : A) × (m ≡ ok a) × (f a ≡ ok b)
>>=-eq-ok (ok value) rest returned = (value, refl, returned)
>>=-eq-ok (err thrown) rest returned = cc

-- To prove what holds of a bind, by what its first part gives.
pub bind_elim {ℓ κ μ} :
    {Failure : Type 0} {A : Type ℓ} {B : Type κ} (P : Result Failure B → Type μ)
    (m : Result Failure A) (f : A → Result Failure B)
    → ((e : Failure) → m ≡ err e → P (err e))
    → ((a : A) → m ≡ ok a → P (f a))
    → P (m >>= f)
bind_elim P (ok value) f thrown went = went value refl
bind_elim P (err e) f thrown went = thrown e refl
