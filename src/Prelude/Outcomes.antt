-- ===== src/Prelude/Outcomes.antt =====
-- What a Python call gives back, and the texts of messages.
use Prim.Native.Nat.{ℕ}
use Prim.Native.String.{String}
use mathlib.Core.List.{List}

-- An f-string as the pieces that it joins: fixed text and interpolated strings, numbers and lists
-- of names. What it reads on a screen is the pieces, printed one after the other.
infixr 60 ◌&◌
pub data Message : Type 0 where
  text : String → Message
  num : ℕ → Message
  names : List String → Message
  ◌&◌ : Message → Message → Message

-- A call that returns, or raises an exception whose `str` is the message.
pub data Outcome {ℓ} (A : Type ℓ) : Type ℓ where
  returns : A → Outcome A
  raises : Message → Outcome A
