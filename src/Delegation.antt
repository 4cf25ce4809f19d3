-- ===== src/Delegation.antt =====
-- dawn_kestrel/delegation: the data of types.py and the tracker of convergence.py. `R` is the type of
-- an agent's result. Times are in milliseconds.
pub mod Signature
pub mod Engine
pub mod Delegate
pub mod Summary
pub mod Policy
pub mod Convergence
use dawn_kestrel.Prelude.{
  ℕ, zero, suc, ◌+◌, String, Bool, true, false, Option, none, some, List, [], ◌∷◌, ◌++◌, get_last?,
  leb, ltb, Message, text, num, ◌&◌, Outcome, returns, raises, if◌then◌else◌, string_eq, option_eq,
  ◌==◌,
}

pub data TraversalMode : Type 0 where
  breadth_first depth_first adaptive : TraversalMode

pub data StopReason : Type 0 where
  completed converged budget_exhausted stagnation depth_limit breadth_limit timeout error :
      StopReason

pub record Budget : Type 0 where
  pub max_depth : ℕ
  pub max_breadth : ℕ
  pub max_total_agents : ℕ
  pub max_wall_time : ℕ
  pub max_iterations : ℕ
  pub stagnation_threshold : ℕ
  pub max_concurrent : ℕ

-- the first field that is not positive, in the order of `__post_init__`
refused_field : List (String × ℕ) → Option (String × ℕ)
refused_field [] = none
refused_field ((name, zero) ∷ fields) = some (name, 0)
refused_field ((name, suc n) ∷ fields) = refused_field fields

fields : Budget → List (String × ℕ)
fields b =
    ("max_depth", b.max_depth)
    ∷ ("max_breadth", b.max_breadth)
    ∷ ("max_total_agents", b.max_total_agents)
    ∷ ("max_wall_time_seconds", b.max_wall_time)
    ∷ ("max_iterations", b.max_iterations)
    ∷ ("stagnation_threshold", b.stagnation_threshold)
    ∷ ("max_concurrent", b.max_concurrent)
    ∷ []

-- `__post_init__`
unfoldable pub validated : Budget → Outcome Budget
unfolding refused_field fields
validated b = elim (refused_field (fields b)) [
  | none ↦ returns b
  | some (name, n) ↦ raises (text name & text " must be > 0, got " & num n)
]

pub record ConvergenceTracker : Type 0 where
  pub signatures : List String
  pub stagnation_count : ℕ

abbrev pub new_tracker : ConvergenceTracker
new_tracker = record { signatures = []; stagnation_count = 0 }

-- the lines of `check_novelty` after the signature
unfoldable pub note : ConvergenceTracker → String → Bool × ConvergenceTracker
note t signature =
    if get_last? t.signatures == some signature
    then (false, record t { stagnation_count = t.stagnation_count + 1 })
    else (true, record { signatures = t.signatures ++ signature ∷ []; stagnation_count = 0 })

unfoldable pub noted : ConvergenceTracker → Outcome String → Outcome Bool × ConvergenceTracker
unfolding note
noted t (raises m) = (raises m, t)
noted t (returns signature) = let (novel, t') = note t signature in (returns novel, t')

-- It raises what the signature of the results, if there are any, raises.
unfoldable pub check_novelty :
    {R : Type 0}
    → (List R → Outcome String)
    → ConvergenceTracker
    → List R
    → Outcome Bool × ConvergenceTracker
unfolding noted
check_novelty compute_signature t [] = (returns false, t)
check_novelty compute_signature t (r ∷ rs) = noted t (compute_signature (r ∷ rs))

unfoldable pub is_converged : ConvergenceTracker → ℕ → Bool
is_converged t threshold = leb threshold t.stagnation_count

-- `DelegationContext`; the start is in the clock that the engine reads
pub record Context (R : Type 0) : Type 0 where
  pub current_depth : ℕ
  pub total_agents_spawned : ℕ
  pub active_agents : ℕ
  pub completed_agents : ℕ
  pub results : List R
  pub errors : List Message
  pub iteration_count : ℕ

unfoldable pub new_context : {R : Type 0} → Context R
new_context = record {
  current_depth = 0;
  total_agents_spawned = 0;
  active_agents = 0;
  completed_agents = 0;
  results = [];
  errors = [];
  iteration_count = 0;
}

-- the specifications of children: each with its own children, and those after it
pub data Children : Type 0 where
  no_more : Children
  child : (agent prompt : Option String) → (children : Children) → (after : Children) → Children
