-- ===== src/Prelude/Results.antt =====
-- What a C++ call can end in: a value, an exception, or undefined behaviour.
use mathlib.Core.Path.{◌≡◌, refl}
use mathlib.Core.Bool.{Bool, true, false}
use mathlib.Core.Logic.{◌⊎◌, inl, inr}

-- The exceptions that the sources throw, by their message, and `undefined` for undefined behaviour.
pub data Error : Type 0 where
  out_of_range invalid_length too_large undefined : Error
  bad_syntax open_failed io_failed no_more_records unknown_record buffer_abort : Error
  block_not_found not_pinned no_block no_value no_field no_plan no_current_scan : Error
  not_int not_string no_group_field no_aggregate no_table unknown_type not_update_scan : Error
  -- No exception: a loop of the model that is not given enough rounds.
  out_of_fuel : Error

pub data Result {ℓ} (A : Type ℓ) : Type ℓ where
  ok : A → Result A
  err : Error → Result A

-- The next step of a computation runs where the one before returned.
abbrev pub ◌>>=◌ {ℓ κ} : {X : Type ℓ} {Y : Type κ} → Result X → (X → Result Y) → Result Y
err exception >>= next = err exception
ok x >>= next = next x

abbrev pub ◌>>◌ {ℓ} : {Y : Type ℓ} → Result (Unit {0}) → Result Y → Result Y
first >> second = first >>= λ _. second

infixl 5 ◌>>=◌ ◌>>◌
-- What a computation of two steps that returned says of each.
pub >>=-eq-ok {ℓ κ} :
    {X : Type ℓ} {Y : Type κ} (first : Result X) (next : X → Result Y) {y : Y}
    → (first >>= next) ≡ ok y
    → (x : X) × (first ≡ ok x) × (next x ≡ ok y)
>>=-eq-ok (err exception) next e = cc
>>=-eq-ok (ok x) next e = (x, refl, e)

pub Result-cases {ℓ} :
    {A : Type ℓ} (r : Result A) → ((a : A) × (r ≡ ok a)) ⊎ ((e : Error) × (r ≡ err e))
Result-cases (ok a) = inl (a, refl)
Result-cases (err e) = inr (e, refl)

pub ok-injective {ℓ} : {A : Type ℓ} {a b : A} → ok a ≡ ok b → a ≡ b
ok-injective e = cc

-- `if (!test) throw …;`
abbrev pub guard : Bool → Error → Result (Unit {0})
guard false exception = err exception
guard true exception = ok tt
