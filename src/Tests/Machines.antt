-- ===== src/Tests/Machines.antt =====
-- `FSMImpl` and `FSMBuilder` of dawn_kestrel/core/fsm.py, over a world that is a log of texts.
use dawn_kestrel.Prelude.{
  ℕ, String, ◌≡◌, refl, ◌⊎◌, false, Option, none, some, List, [], ◌∷◌, ◌++◌, length, lookup, insert,
  contains, add, text, returns, raises, string_eq, Bool, true, subst, ◌==◌, if◌then◌else◌,
}
use dawn_kestrel.Core.Result.{is_err, ok, err_code}
use dawn_kestrel.Core.Fsm.{Context, Hook, acts, ends, transitions, unregisters, Fsm}
use dawn_kestrel.Core.Fsm.Machine.{
  is_transition_valid, execute_with_reliability, persist, transition_to, transition_with, run_hook,
  run_program, guarded, conclude, publish, announced, notify, notify_each, tell, recorded,
  unregister_observer, observed, drop_observer,
}
use dawn_kestrel.Core.Fsm.Machine.Callbacks.{command_of}
use dawn_kestrel.Core.Fsm.Machine.Quiet.{IsQuiet, IsUndisturbed}
use dawn_kestrel.Core.Fsm.Machine.Transition.{answered_code, transition_to_moves}
use dawn_kestrel.Core.Fsm.Machine.Trail.{
  drive, IsClosed, IsAudited, drive-IsClosed, drive-IsAudited,
}
use dawn_kestrel.Core.Fsm.Builder.{new, build}
use dawn_kestrel.Core.Fsm.Builder.Closed.{
  Call, transition, entry_hook, exit_hook, chain, start, build-IsClosed,
}

abbrev Log : Type 0
Log = List String

abbrev now : Log → ℕ
now log = length log

abbrev say : String → Hook Log
say s context = acts (λ log. log ++ s ∷ []) (λ log. ends (raises (text s)))

abbrev calls : List (Call Log)
calls =
    transition "idle" "running"
    ∷ transition "running" "completed"
    ∷ exit_hook "idle" (say "leave")
    ∷ entry_hook "running" (say "enter")
    ∷ []

abbrev machine : Fsm Log
machine = record {
  state = "idle";
  valid_states = "idle" ∷ "running" ∷ "completed" ∷ [];
  valid_transitions = ("idle", "running" ∷ []) ∷ ("running", "completed" ∷ []) ∷ [];
  fsm_id = "fsm_1";
  command_history = [];
  repository = none;
  mediator = none;
  observers = [];
  entry_hooks = ("running", say "enter") ∷ [];
  exit_hooks = ("idle", say "leave") ∷ [];
  reliability_config = none;
}

-- hooks that raise are run in their order and do not stop the transition
hooks_run : (transition_to now 1 machine "running" none []).2 ≡ "leave" ∷ "enter" ∷ []
unfolding transition_to transition_with run_hook is_transition_valid execute_with_reliability
    run_program guarded persist conclude publish announced notify notify_each recorded lookup
    contains
hooks_run = refl

IsQuiet-hooks :
    (s t said : String) (hook : Hook Log)
    → lookup s ((t, say said) ∷ []) ≡ some hook
    → (c : Context) → IsQuiet (hook c)
unfolding lookup
IsQuiet-hooks s t said hook h c = go (t == s) h
  where
    go : (b : Bool) → (if b then some (say said) else none) ≡ some hook → IsQuiet (hook c)
    go true h =
        let same : say said ≡ hook = cc in subst (λ (f : Hook Log). IsQuiet (f c)) same (λ log. tt)
    go false h = absurd (cc)

machine-IsUndisturbed : IsUndisturbed machine
unfolding lookup
machine-IsUndisturbed = record {
  exits = λ s. IsQuiet-hooks s "idle" "leave";
  entries = λ s. IsQuiet-hooks s "running" "enter";
  watchers = tt;
  mediation = λ send h. absurd (cc);
}

abbrev broken : Fsm Log
broken = record machine {
  repository = some (λ fsm_id s log. (err_code (text "disk full") "STORAGE_ERROR", log));
}

broken-IsUndisturbed : IsUndisturbed broken
broken-IsUndisturbed = record {
  exits = machine-IsUndisturbed.exits;
  entries = machine-IsUndisturbed.entries;
  watchers = tt;
  mediation = machine-IsUndisturbed.mediation;
}

transition_to_moves_example :
    ((transition_to now 1 broken "running" none []).0 ≡ returns (ok (command_of broken "running")))
      × ((transition_to now 1 broken "running" none []).1
          ≡ record broken { state = "running"; command_history = command_of broken "running" ∷ [] })
    ⊎ (answered_code (transition_to now 1 broken "running" none []).0 ≡ some "PERSISTENCE_ERROR")
      × ((transition_to now 1 broken "running" none []).1 ≡ record broken { state = "running" })
unfolding is_transition_valid lookup contains
transition_to_moves_example =
    transition_to_moves now 0 broken "running" none [] broken-IsUndisturbed refl

-- An entry hook that calls the machine back: the inner command is recorded before the outer one.
abbrev eager : Fsm Log
eager = record machine {
  entry_hooks =
      ("running", λ context. transitions "completed" none (λ answer. ends (returns (ok tt)))) ∷ [];
}

reordered :
    ((transition_to now 2 eager "running" none []).1.state ≡ "completed")
    × ((transition_to now 2 eager "running" none []).1.command_history
        ≡ record { fsm_id = "fsm_1"; from_state = "running"; to_state = "completed" }
          ∷ record { fsm_id = "fsm_1"; from_state = "idle"; to_state = "running" }
          ∷ [])
unfolding transition_to transition_with run_hook is_transition_valid execute_with_reliability
    run_program guarded persist conclude publish announced notify notify_each recorded lookup
    contains
reordered = (refl, refl)

-- An observer that unregisters itself when it is told.
abbrev shy : Fsm Log
shy = record machine {
  observers =
      record { identity = 7; on_notify = λ change. unregisters 7 (ends (returns (ok tt))) } ∷ [];
}

set_changed :
    ((transition_to now 1 shy "running" none []).0
      ≡ raises (text "Set changed size during iteration"))
    × ((transition_to now 1 shy "running" none []).1.state ≡ "running")
    × ((transition_to now 1 shy "running" none []).1.command_history ≡ [])
unfolding transition_to transition_with run_hook is_transition_valid execute_with_reliability
    run_program guarded persist conclude publish announced notify notify_each tell recorded
    unregister_observer observed drop_observer lookup contains
set_changed = (refl, refl, refl)

abbrev reqs : List (String × Option Context)
reqs = ("running", none) ∷ ("idle", none) ∷ ("completed", none) ∷ []

build-calls : build (chain calls new) none "fsm_1" ≡ returns (ok machine)
unfolding build new chain lookup insert contains add
build-calls = refl

machine_known : IsClosed machine
machine_known = (build-IsClosed calls none "fsm_1" machine build-calls).0

drive-IsClosed_example : IsClosed (drive now 3 broken reqs []).0
unfolding is_transition_valid
drive-IsClosed_example = drive-IsClosed now 3 broken reqs [] (record {
  state_known = machine_known.state_known;
  targets_known = machine_known.targets_known;
})

machine-IsAudited : IsAudited (is_transition_valid machine) "idle" machine
machine-IsAudited = record { same_map = λ a b. refl; trail = refl }

machine_persists : (s : String) (log : Log) → is_err (persist now machine s log).0 ≡ false
unfolding persist
machine_persists s log = refl

drive-IsAudited_example :
    IsAudited (is_transition_valid machine) "idle" (drive now 3 machine reqs []).0
drive-IsAudited_example =
    drive-IsAudited now (is_transition_valid machine) "idle" 3 machine reqs [] machine_persists
      machine-IsUndisturbed machine-IsAudited

build-IsClosed_example :
    IsClosed machine
    × (machine.state ≡ start none (chain calls new))
    × (machine.command_history ≡ [])
unfolding new chain lookup insert contains add
build-IsClosed_example = build-IsClosed calls none "fsm_1" machine build-calls
