-- ===== src/Prelude/Results.antt =====
-- A Rust call: it returns `Ok`, it returns `Err`, or it panics (in a contract, traps).
use mathlib.Core.Bool.{Bool, true, false}
use mathlib.Core.Option.{Option, none, some}

pub data Run {ε ℓ} (E : Type ε) (A : Type ℓ) : Type (ε ⊔ ℓ) where
  ok : A → Run E A
  err : E → Run E A
  panic : Run E A

-- `Result::map_err`; with the conversion of a `From` instance it is what `?` does to an error.
abbrev pub map_err {ε φ ℓ} : {E : Type ε} {F : Type φ} {A : Type ℓ} → (E → F) → Run E A → Run F A
map_err f (ok a) = ok a
map_err f (err e) = err (f e)
map_err f panic = panic

-- `Option::ok_or`
abbrev pub ok_or {ε ℓ} : {E : Type ε} {A : Type ℓ} → E → Option A → Run E A
ok_or e none = err e
ok_or e (some a) = ok a

-- The result of a library call of which `none` stands for a panic.
abbrev pub or_panic {ε ℓ} : {E : Type ε} {A : Type ℓ} → Option A → Run E A
or_panic none = panic
or_panic (some a) = ok a

-- `Result::unwrap` and `Result::expect`
abbrev pub unwrap {ε φ ℓ} : {E : Type ε} {F : Type φ} {A : Type ℓ} → Run E A → Run F A
unwrap (ok a) = ok a
unwrap (err e) = panic
unwrap panic = panic

-- `Result::is_ok`, where a panic goes on upwards.
abbrev pub is_ok {ε φ ℓ} : {E : Type ε} {F : Type φ} {A : Type ℓ} → Run E A → Run F Bool
is_ok (ok a) = ok true
is_ok (err e) = ok false
is_ok panic = panic

-- `if !holds { return Err(e); }`
abbrev pub ensure {ε} : {E : Type ε} → Bool → E → Run E (Unit {0})
ensure false e = err e
ensure true e = ok tt

-- The `?` operator: an error or a panic ends the call.
infixl 5 ◌>>=◌ ◌>>◌
abbrev pub ◌>>=◌ {ε ℓ κ} :
    {E : Type ε} {A : Type ℓ} {B : Type κ} → Run E A → (A → Run E B) → Run E B
panic >>= k = panic
err e >>= k = err e
ok a >>= k = k a

abbrev pub ◌>>◌ {ε ℓ} : {E : Type ε} {B : Type ℓ} → Run E (Unit {0}) → Run E B → Run E B
first >> second = first >>= λ u. second

-- The error type of a function that returns no `Result`.
pub data Never : Type 0 where

-- `assert!`
abbrev pub assert : Bool → Run Never (Unit {0})
assert true = ok tt
assert false = panic
