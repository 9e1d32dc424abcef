-- ===== src/Fallible.antt =====
-- `Result<T, CoreError>` and its `?`.
use reference_library.Common.{
  ◌≡◌, refl, subst, Bool, true, false, Option, none, some, ◌⊎◌, inl, inr,
}
use reference_library.Errors.{CoreError}

pub data Result {ℓ} (T : Type ℓ) : Type ℓ where
  err : (cause : CoreError) → Result T
  ok : (value : T) → Result T

infixl 5 ◌>>=◌
-- `let value = step?; …`
abbrev pub ◌>>=◌ {ℓ κ} :
    {T : Type ℓ} {U : Type κ} (step : Result T) (next : T → Result U) → Result U
(err cause) >>= next = err cause
(ok value) >>= next = next value

-- Both steps of a computation that succeeds have succeeded.
pub >>=-eq-ok {ℓ κ} :
    {T : Type ℓ} {U : Type κ} (step : Result T) (next : T → Result U) {made : U}
    → (step >>= next) ≡ ok made
    → (value : T) × (step ≡ ok value) × (next value ≡ ok made)
>>=-eq-ok (err cause) next h = cc
>>=-eq-ok (ok value) next h = (value, refl, h)

infixl 5 ◌>>◌
-- `step?; …`
abbrev pub ◌>>◌ {κ} : {U : Type κ} (step : Result (Unit {0})) (rest : Result U) → Result U
step >> rest = step >>= (λ done. rest)

-- `if test { return Err(e) }`
abbrev pub reject_if : (test : Bool) (cause : CoreError) → Result (Unit {0})
reject_if false cause = ok tt
reject_if true cause = err cause

-- A computation that succeeds has passed its test.
pub reject_if-eq-ok {κ} :
    {U : Type κ} (test : Bool) (cause : CoreError) (rest : Result U) {made : U}
    → (reject_if test cause >> rest) ≡ ok made
    → (test ≡ false) × (rest ≡ ok made)
reject_if-eq-ok false cause rest h = (refl, h)
reject_if-eq-ok true cause rest h = cc

-- `ok_or(e)?`
abbrev pub ok_or {ℓ} : {T : Type ℓ} → Option T → (cause : CoreError) → Result T
ok_or (some value) cause = ok value
ok_or none cause = err cause

pub ok-injective {ℓ} : {T : Type ℓ} (a b : T) → ok a ≡ ok b → a ≡ b
ok-injective a b h = cc

pub Result-cases {ℓ} :
    {T : Type ℓ} (step : Result T)
    → ((value : T) × (step ≡ ok value)) ⊎ ((cause : CoreError) × (step ≡ err cause))
Result-cases (err cause) = inr (cause, refl)
Result-cases (ok value) = inl (value, refl)

-- What holds of the value, where there is one.
unfoldable pub Holds {ℓ κ} : {T : Type ℓ} → (T → Type κ) → Result T → Type κ
Holds P (err cause) = Unit
Holds P (ok value) = P value

pub Holds-ok {ℓ κ} : {T : Type ℓ} (P : T → Type κ) (value : T) → P value → Holds P (ok value)
unfolding Holds
Holds-ok P value h = h

pub Holds-eq-ok {ℓ κ} :
    {T : Type ℓ} (P : T → Type κ) (step : Result T) {value : T}
    → Holds P step
    → step ≡ ok value
    → P value
unfolding Holds
Holds-eq-ok P step h e = subst (Holds P) e h

-- What holds after each value of the first step holds after both.
pub Holds->>= {ℓ κ μ} :
    {T : Type ℓ} {U : Type κ} (P : U → Type μ) (step : Result T) (next : T → Result U)
    → ((value : T) → step ≡ ok value → Holds P (next value))
    → Holds P (step >>= next)
unfolding Holds
Holds->>= P (err cause) next f = tt
Holds->>= P (ok value) next f = f value refl

pub Holds-reject_if {κ μ} :
    {U : Type κ} (P : U → Type μ) (test : Bool) (cause : CoreError) (rest : Result U)
    → (test ≡ false → Holds P rest)
    → Holds P (reject_if test cause >> rest)
unfolding Holds
Holds-reject_if P false cause rest f = f refl
Holds-reject_if P true cause rest f = tt
