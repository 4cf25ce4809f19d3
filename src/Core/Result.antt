-- ===== src/Core/Result.antt =====
-- dawn_kestrel/core/result.py: the classes `Ok`, `Err` and `Pass` as the constructors of one type,
-- their methods, and the functions over them. `to_json` and `from_json` are not modelled.
pub mod Laws
use dawn_kestrel.Prelude.{
  String, Bool, true, false, Option, none, some, ◌&&◌, Eq, ◌==◌, Message, text, Outcome, returns,
  raises, if◌then◌else◌,
}

-- the attributes of an `Err`
pub record Error : Type 0 where
  pub error : Message
  pub code : Option String
  pub retryable : Bool

pub data Result {ℓ} (A : Type ℓ) : Type ℓ where
  ok : A → Result A
  err : Error → Result A
  pass : Option String → Result A

-- `Err(error, code=code)`
abbrev pub err_code {ℓ} : {A : Type ℓ} → Message → String → Result A
err_code m c = err (record { error = m; code = some c; retryable = false })

module _ {ℓ} {A : Type ℓ} where
  abbrev pub is_ok : Result A → Bool
  is_ok (ok a) = true
  is_ok _ = false

  abbrev pub is_err : Result A → Bool
  is_err (err e) = true
  is_err _ = false

  abbrev pub is_pass : Result A → Bool
  is_pass (pass m) = true
  is_pass _ = false

  -- raises `ValueError`
  unfoldable pub unwrap : Result A → Outcome A
  unwrap (ok a) = returns a
  unwrap (err e) = raises e.error
  unwrap (pass m) = raises (text "Cannot unwrap Pass result")

  unfoldable pub unwrap_or : Result A → A → A
  unwrap_or (ok a) default = a
  unwrap_or (err e) default = default
  unwrap_or (pass m) default = default

module _ {ℓ κ} {A : Type ℓ} {B : Type κ} where
  -- the method `bind`, which the function `bind` calls
  unfoldable pub bind : Result A → (A → Result B) → Result B
  bind (ok a) func = func a
  bind (err e) func = err e
  bind (pass m) func = pass m

  unfoldable pub map_result : Result A → (A → B) → Result B
  map_result (ok a) func = ok (func a)
  map_result (err e) func = err e
  map_result (pass m) func = pass m

  -- `on_ok` may be called on Python's `None`, so it takes an `Option`
  unfoldable pub fold : Result A → (Option A → B) → (Message → B) → Option (Option String → B) → B
  fold (ok a) on_ok on_err on_pass = on_ok (some a)
  fold (err e) on_ok on_err on_pass = on_err e.error
  fold (pass m) on_ok on_err none = on_ok none
  fold (pass m) on_ok on_err (some f) = f m
