-- ===== src/Python/Errors.antt =====
-- Python's exceptions as values. The text of a message is kept where the source gives one.
use agent_debug_x.Base.{◌⊎◌, inl, inr, String, ◌≡◌, refl, Bool, true, false}
use agent_debug_x.Python.Values.{str, to_repr}

pub data Error : Type 0 where
  value_error key_error type_error integrity_error os_error attribute_error decode_error
        recursion_error :
      (message : String) → Error
  index_error : Error

-- `str(exc)`. That of a KeyError is the `repr` of its key.
unfoldable pub message_of : Error → String
message_of (value_error message) = message
message_of (key_error message) = to_repr (str message)
message_of (type_error message) = message
message_of (integrity_error message) = message
message_of (os_error message) = message
message_of (attribute_error message) = message
message_of (decode_error message) = message
message_of (recursion_error message) = message
message_of index_error = "list index out of range"

-- `json.JSONDecodeError` and `UnicodeDecodeError`, which are ValueErrors too
abbrev pub is_decode_error : Error → Bool
is_decode_error (decode_error message) = true
is_decode_error _ = false

abbrev pub is_value_error : Error → Bool
is_value_error (value_error message) = true
is_value_error (decode_error message) = true
is_value_error _ = false

-- What a call returns, or the exception that it raises.
pub data Result {ℓ} (T : Type ℓ) : Type ℓ where
  err : (raised : Error) → Result T
  ok : (returned : T) → Result T

infixl 5 ◌>>=◌ ◌>>◌
-- The rest of a function, which an exception skips.
abbrev pub ◌>>=◌ {ℓ κ} :
    {T : Type ℓ} {U : Type κ} (call : Result T) (rest : T → Result U) → Result U
err raised >>= rest = err raised
ok value >>= rest = rest value

abbrev pub ◌>>◌ {κ} : {U : Type κ} (call : Result (Unit {0})) (rest : Result U) → Result U
call >> rest = call >>= (λ nothing. rest)

-- `if not test: raise error`
abbrev pub require : (test : Bool) (error : Error) → Result (Unit {0})
require false error = err error
require true error = ok tt

-- A function that returns has come through its first call.
pub >>=-eq-ok {ℓ κ} :
    {T : Type ℓ} {U : Type κ} (call : Result T) (rest : T → Result U) {result : U}
    → (call >>= rest) ≡ ok result
    → (value : T) × (call ≡ ok value) × (rest value ≡ ok result)
>>=-eq-ok (err raised) rest h = cc
>>=-eq-ok (ok value) rest h = (value, refl, h)

pub require-eq-ok : (test : Bool) (e : Error) {u : Unit {0}} → require test e ≡ ok u → test ≡ true
require-eq-ok true e h = refl
require-eq-ok false e h = cc

pub Result-cases {ℓ} :
    {A : Type ℓ} (r : Result A) → ((a : A) × (r ≡ ok a)) ⊎ ((e : Error) × (r ≡ err e))
Result-cases (ok a) = inl (a, refl)
Result-cases (err e) = inr (e, refl)

pub ok-injective {ℓ} : {A : Type ℓ} {a b : A} → ok a ≡ ok b → a ≡ b
ok-injective h = cc

-- A chain that returns has passed its test.
pub require->>-eq-ok {ℓ} :
    {B : Type ℓ} (test : Bool) (e : Error) (k : Result B) {b : B}
    → (require test e >> k) ≡ ok b
    → (test ≡ true) × (k ≡ ok b)
require->>-eq-ok true e k h = (refl, h)
require->>-eq-ok false e k h = cc
