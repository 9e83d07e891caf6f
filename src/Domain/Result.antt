-- ===== src/Domain/Result.antt =====
-- src/trader/domain/result.py, and the exceptions that the source does not catch.
use kyo_trading_tool.Prelude.{Bool, true, false}

-- What can leave a function as an exception rather than as an `Err`.
pub data Exception : Type 0 where
  division_by_zero : Exception
  database_error : Exception
  value_error : Exception
  key_error : Exception

-- `Ok(value) | Err(error)`; `raised` is a call that ended in an exception instead.
pub data Result {ℓ} (E A : Type ℓ) : Type ℓ where
  ok : A → Result E A
  err : E → Result E A
  raised : Exception → Result E A

infixl 5 ◌>>=◌
abbrev pub ◌>>=◌ {ℓ} : {E A B : Type ℓ} → Result E A → (A → Result E B) → Result E B
ok a >>= f = f a
err e >>= f = err e
raised x >>= f = raised x

-- `is_ok(result)`
abbrev pub is_ok {ℓ} : {E A : Type ℓ} → Result E A → Bool
is_ok (ok a) = true
is_ok (err e) = false
is_ok (raised x) = false

-- `is_err(result)`
abbrev pub is_err {ℓ} : {E A : Type ℓ} → Result E A → Bool
is_err (ok a) = false
is_err (err e) = true
is_err (raised x) = false
