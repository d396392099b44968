-- ===== src/Base/Result.antt =====
-- Go's `(value, error)` results. An error carries its text.
use mathlib.Core.Path.{◌≡◌, refl}
use mathlib.Core.Bool.{Bool, true, false}
use gosshd_bastion.Base.Bytes.{Bytes}

pub data Result {κ} (Value : Type κ) : Type κ where
  err : (message : Bytes) → Result Value
  ok : (value : Value) → Result Value

-- `if err != nil { return …, err }` between two calls.
infixl 5 ◌>>=◌ ◌>>◌
abbrev pub ◌>>=◌ {κ μ} :
    {First : Type κ} {Second : Type μ} → Result First → (First → Result Second) → Result Second
err message >>= _ = err message
ok value >>= continue = continue value

abbrev pub ◌>>◌ {κ} : {Second : Type κ} → Result (Unit {0}) → Result Second → Result Second
checked >> continue = checked >>= λ _. continue

-- `if refused { return …, errors.New(message) }`.
abbrev pub reject : Bool → Bytes → Result (Unit {0})
reject true message = err message
reject false message = ok tt

-- Both calls succeed where the whole does.
pub >>=-eq-ok {κ μ} :
    {First : Type κ} {Second : Type μ} (first : Result First) (continue : First → Result Second)
    {last : Second}
    → (first >>= continue) ≡ ok last
    → (middle : First) × (first ≡ ok middle) × (continue middle ≡ ok last)
>>=-eq-ok (ok value) continue h = (value, refl, h)
>>=-eq-ok (err message) continue h = cc

pub reject-eq-ok {κ} :
    {Second : Type κ} (refused : Bool) (message : Bytes) (continue : Result Second) {last : Second}
    → (reject refused message >> continue) ≡ ok last
    → (refused ≡ false) × (continue ≡ ok last)
reject-eq-ok true message continue h = cc
reject-eq-ok false message continue h = (refl, h)
