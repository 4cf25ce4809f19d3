-- ===== src/Delegation/Signature.antt =====
-- `compute_signature` of dawn_kestrel/delegation/convergence.py. Of a result the code looks at what is in
-- `Evidence`; `digest` is the SHA-256 digest, in hexadecimal, of texts that are sorted and joined by bars.
use dawn_kestrel.Prelude.{
  String, Option, none, some, List, [], ◌∷◌, ◌++◌, Dict, lookup, Outcome, returns, raises,
  string_eq,
}

-- a list, of which Python gives the text when it is sorted, or raises as it cannot be; another value
pub data Value : Type 0 where
  sequence : Outcome String → Value
  other : String → Value

-- an object with metadata, its response if it has one and its text; a dictionary; another result
pub data Evidence : Type 0 where
  with_metadata : Dict String Value → Option String → String → Evidence
  dictionary : Dict String Value → Evidence
  plain : String → Evidence

unfoldable pub value_to_str : Value → Outcome String
value_to_str (sequence o) = o
value_to_str (other s) = returns s

-- one part before others, unless one of them raises
abbrev pub then_parts : Outcome String → Outcome (List String) → Outcome (List String)
then_parts (raises m) rest = raises m
then_parts (returns s) (raises m) = raises m
then_parts (returns s) (returns parts) = returns (s ∷ parts)

abbrev pub join_parts : Outcome (List String) → Outcome (List String) → Outcome (List String)
join_parts (raises m) rest = raises m
join_parts (returns parts) (raises m) = raises m
join_parts (returns parts) (returns others) = returns (parts ++ others)

-- the loop over the keys
unfoldable pub parts_of : List String → Dict String Value → Outcome (List String)
unfolding value_to_str
parts_of [] d = returns []
parts_of (key ∷ keys) d =
    let rest = parts_of keys d in
    elim (lookup key d) [ none ↦ rest | some value ↦ then_parts (value_to_str value) rest ]

-- when no key is in the metadata, the response or the text
abbrev pub or_text : Option String → String → Outcome (List String) → Outcome (List String)
or_text (some response) shown (returns []) = returns (response ∷ [])
or_text none shown (returns []) = returns (shown ∷ [])
or_text response shown parts = parts

unfoldable pub evidence_parts : List String → Evidence → Outcome (List String)
unfolding parts_of
evidence_parts keys (with_metadata d response shown) = or_text response shown (parts_of keys d)
evidence_parts keys (dictionary d) = parts_of keys d
evidence_parts keys (plain shown) = returns (shown ∷ [])

module _ {R : Type 0} (evidence_keys : List String) (view : R → Evidence)
    (digest : List String → String) where
  -- the loop over the results
  unfoldable pub all_parts : List R → Outcome (List String)
  unfolding evidence_parts
  all_parts [] = returns []
  all_parts (r ∷ rs) = join_parts (evidence_parts evidence_keys (view r)) (all_parts rs)

  unfoldable pub compute_signature : List R → Outcome String
  unfolding all_parts
  compute_signature rs = elim (all_parts rs) [
    | raises m ↦ raises m
    | returns parts ↦ returns (digest parts)
  ]
