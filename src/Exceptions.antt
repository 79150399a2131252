-- ===== src/Exceptions.antt =====
-- py/exception.go: the exceptions that the modelled code raises. An exception is kept as its type
-- and its format string; the formatted arguments are left out. A `Result` is Go's pair of a value
-- and an error.
use taipan.Prelude.{◌≡◌, refl, String, Bool, true, false, if◌then◌else◌}

pub data ExceptionType : Type 0 where
  runtime_error value_error system_error syntax_error index_error type_error : ExceptionType
  interrupted_error timeout_error import_error zero_division_error overflow_error : ExceptionType
  indentation_error stop_iteration name_error : ExceptionType

pub record Exception : Type 0 where
  pub type : ExceptionType
  pub message : String

abbrev pub exception : ExceptionType → String → Exception
exception t m = record { type = t; message = m }

pub data Result {ℓ} (V : Type ℓ) : Type ℓ where
  err : Exception → Result V
  ok : V → Result V

-- `if err != nil { return err }` behind a call.
infixl 5 ◌>>=◌
abbrev pub ◌>>=◌ {ℓ κ} : {V : Type ℓ} {W : Type κ} → Result V → (V → Result W) → Result W
err raised >>= next = err raised
ok v >>= next = next v

-- A call chain that succeeded: its first call did, and so did the rest.
pub >>=-eq-ok {ℓ κ} :
    {V : Type ℓ} {W : Type κ} (first : Result V) (next : V → Result W) {w : W}
    → (first >>= next) ≡ ok w
    → (v : V) × (first ≡ ok v) × (next v ≡ ok w)
>>=-eq-ok (err raised) next e = cc
>>=-eq-ok (ok v) next e = (v, refl, e)

pub ok_injective {ℓ} : {A : Type ℓ} {a b : A} → ok a ≡ ok b → a ≡ b
ok_injective h = cc

-- A guarded result that succeeded has passed its guard.
pub if-ok-err {ℓ} :
    {V : Type ℓ} (b : Bool) (x y : V) (e : Exception)
    → (if b then ok x else err e) ≡ ok y
    → (b ≡ true) × (x ≡ y)
if-ok-err true x y e h = (refl, ok_injective h)
if-ok-err false x y e h = cc

pub if-err-ok {ℓ} :
    {V : Type ℓ} (b : Bool) (x y : V) (e : Exception)
    → (if b then err e else ok x) ≡ ok y
    → (b ≡ false) × (x ≡ y)
if-err-ok true x y e h = cc
if-err-ok false x y e h = (refl, ok_injective h)

-- An error, or a value with the property.
abbrev pub Holds {ℓ κ} : {V : Type ℓ} → (V → Type κ) → Result V → Type κ
Holds P (err e) = Unit
Holds P (ok v) = P v

pub if-Holds {ℓ κ} :
    {V : Type ℓ} (P : V → Type κ) (b : Bool) (r s : Result V)
    → (b ≡ true → Holds P r)
    → (b ≡ false → Holds P s)
    → Holds P (if b then r else s)
if-Holds P true r s f g = f refl
if-Holds P false r s f g = g refl
