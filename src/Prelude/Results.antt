-- ===== src/Prelude/Results.antt =====
-- Results of code that raises, with the exceptions that the modelled code meets.
use mathlib.Core.Path.{◌≡◌, refl}
use mathlib.Core.List.{List, [], ◌∷◌}

pub data Exception : Type 0 where
  value_error key_error type_error attribute_error index_error zero_division critical : Exception

-- What a call raises, or what it returns.
pub data Result {κ} (S : Type κ) : Type κ where
  err : Exception → Result S
  ok : S → Result S

-- For `do` blocks: the first exception ends them.
infixl 5 ◌>>=◌
abbrev pub ◌>>=◌ {κ μ} : {S : Type κ} {T : Type μ} → Result S → (S → Result T) → Result T
err raised >>= next = err raised
ok returned >>= next = next returned

-- A chain that returns has a first step that returns.
pub >>=-eq-ok {κ μ} :
    {S : Type κ} {T : Type μ} (first : Result S) (next : S → Result T) {b : T}
    → (first >>= next) ≡ ok b
    → (a : S) × (first ≡ ok a) × (next a ≡ ok b)
>>=-eq-ok (err raised) next e = cc
>>=-eq-ok (ok returned) next e = (returned, refl, e)

pub ok_same {κ} : {S : Type κ} {x y : S} → ◌≡◌ {A = Result S} (ok x) (ok y) → x ≡ y
ok_same e = cc

pub ok_first_same {κ μ} :
    {S : Type κ} {T : Type μ} {x y : S} {a b : T}
    → ◌≡◌ {A = Result (S × T)} (ok (x, a)) (ok (y, b))
    → x ≡ y
ok_first_same e = cc

-- `for x in xs: body(x)`, for a body that does not raise.
abbrev pub run_each {ℓ κ} : {A : Type ℓ} {S : Type κ} → (A → S → S) → List A → S → S
run_each body [] s = s
run_each body (x ∷ xs) s = run_each body xs (body x s)

-- `for x in xs: body(x)`, the state passed on; an exception ends the loop.
abbrev pub for_each {ℓ κ} : {A : Type ℓ} {S : Type κ} → (A → S → Result S) → List A → S → Result S
for_each body [] s = ok s
for_each body (x ∷ xs) s = body x s >>= for_each body xs
