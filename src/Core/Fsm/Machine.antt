-- ===== src/Core/Fsm/Machine.antt =====
-- dawn_kestrel/core/fsm.py, class `FSMImpl`. `now` reads the clock of the world. A method that the
-- source makes `async` is a function of the machine and the world that returns both after it. A callback
-- can call the machine that calls it, so `transition_to` is by the depth to which its calls may be nested:
-- beyond it Python's limit of recursion raises.
pub mod Callbacks
pub mod Quiet
pub mod Unheard
pub mod Transition
pub mod Trail
pub mod Lawful
use dawn_kestrel.Prelude.{
  ℕ, zero, suc, String, Bool, true, false, Option, none, some, List, [], ◌∷◌, ◌++◌, Dict, lookup,
  insert, contains, not, Message, text, names, ◌&◌, Outcome, returns, raises, if◌then◌else◌,
  string_eq, ◌==◌, nat_eq, length,
}
use dawn_kestrel.Core.Result.{Result, ok, err, pass, err_code}
use dawn_kestrel.Core.Fsm.{
  Context, TransitionCommand, domain, StateChange, Event, Program, ends, acts, reads, transitions,
  registers, unregisters, Hook, Mediator, Observer, Attempts, finished, waits, tries,
  ReliabilityConfig, Fsm,
}

-- `object_id` is `id(self)`, printed; an empty `fsm_id` counts as none given.
fsm_name : Option String → String → String
fsm_name none object_id = object_id
fsm_name (some given) object_id = if given == "" then object_id else given

module _ {W : Type 0} where
  unfoldable pub is_transition_valid : Fsm W → String → String → Bool
  is_transition_valid fsm from_state to_state = elim (lookup from_state fsm.valid_transitions) [
    | none ↦ false
    | some to_states ↦ contains to_state to_states
  ]

  unfoldable pub observed : ℕ → List (Observer W) → Bool
  observed i [] = false
  observed i (o ∷ os) = let rest = observed i os in if o.identity == i then true else rest

  -- `self._observers.add(observer)`
  unfoldable pub add_observer : Observer W → List (Observer W) → List (Observer W)
  add_observer o os = if observed o.identity os then os else os ++ o ∷ []

  unfoldable pub drop_observer : ℕ → List (Observer W) → List (Observer W)
  drop_observer i [] = []
  drop_observer i (o ∷ os) =
      let rest = drop_observer i os in if o.identity == i then rest else o ∷ rest

  -- `set(observers)`
  pub observer_set : List (Observer W) → List (Observer W) → List (Observer W)
  observer_set [] seen = seen
  observer_set (o ∷ os) seen = observer_set os (add_observer o seen)

  unfoldable pub register_observer : Fsm W → Observer W → Fsm W
  unfolding add_observer observed
  register_observer fsm o = record fsm { observers = add_observer o fsm.observers }

  unfoldable pub unregister_observer : Fsm W → (identity : ℕ) → Fsm W
  unfolding observed drop_observer
  unregister_observer fsm i =
      if observed i fsm.observers
      then record fsm { observers = drop_observer i fsm.observers }
      else fsm

  -- The constructor raises `ValueError` on an unknown initial state.
  unfoldable pub init :
      (initial_state : String) (valid_states : List String)
      (valid_transitions : Dict String (List String)) (fsm_id : Option String) (object_id : String)
      (repository : Option (String → String → W → Result (Unit {0}) × W))
      (mediator : Option (Mediator W)) (observers : List (Observer W))
      (entry_hooks exit_hooks : Dict String (Hook W))
      (reliability_config : Option (ReliabilityConfig W))
      → Outcome (Fsm W)
  unfolding fsm_name observer_set add_observer observed
  init s0 states trans fid oid repo med obs entry_hooks exit_hooks rel =
      if not (contains s0 states)
      then raises
          (text "Invalid initial state: " & text s0 & text ". Valid states are: " & names states)
      else returns (record {
        state = s0;
        valid_states = states;
        valid_transitions = trans;
        fsm_id = fsm_name fid oid;
        command_history = [];
        repository = repo;
        mediator = med;
        observers = observer_set obs [];
        entry_hooks = entry_hooks;
        exit_hooks = exit_hooks;
        reliability_config = rel;
      })

-- a call of `transition_to`
abbrev pub Call : Type 0 → Type 0
Call W = Fsm W → String → Option Context → W → Outcome (Result TransitionCommand) × Fsm W × W

-- `again` is the `transition_to` that callbacks call.
module _ {W : Type 0} (again : Call W) where
  unfoldable pub run_program : Program W → Fsm W → W → Outcome (Result (Unit {0})) × Fsm W × W
  unfolding register_observer unregister_observer
  run_program (ends o) fsm w = (o, fsm, w)
  run_program (acts f k) fsm w = run_program (k w) fsm (f w)
  run_program (reads k) fsm w = run_program (k fsm.state fsm.command_history) fsm w
  run_program (transitions s c k) fsm w =
      let (o, fsm', w') = again fsm s c w in run_program (k o) fsm' w'
  run_program (registers i on_notify k) fsm w =
      run_program k (register_observer fsm (record { identity = i; on_notify = on_notify })) w
  run_program (unregisters i k) fsm w = run_program k (unregister_observer fsm i) w

  -- `try: return await hook(context)`, `except Exception as e: return Err(…)`
  unfoldable pub guarded : Outcome (Result (Unit {0})) × Fsm W × W → Result (Unit {0}) × Fsm W × W
  guarded (returns r, fsm, w) = (r, fsm, w)
  guarded (raises e, fsm, w) = (err_code (text "Hook execution error: " & e) "HOOK_ERROR", fsm, w)

  -- `execute` of the retry executor
  unfoldable pub run_attempts : Attempts W → Program W → Fsm W → W → Result (Unit {0}) × Fsm W × W
  unfolding run_program
  run_attempts (finished r) operation fsm w = (r, fsm, w)
  run_attempts (waits f k) operation fsm w = run_attempts (k w) operation fsm (f w)
  run_attempts (tries k) operation fsm w =
      let (o, fsm', w') = run_program operation fsm w in run_attempts (k o) operation fsm' w'

  unfoldable pub run_retry :
      ReliabilityConfig W → Program W → Fsm W → W → Result (Unit {0}) × Fsm W × W
  unfolding guarded run_attempts
  run_retry rel operation fsm w = elim rel.retry_executor [
    | none ↦ guarded (run_program operation fsm w)
    | some execute ↦ run_attempts execute operation fsm w
  ]

  unfoldable pub run_limited :
      ReliabilityConfig W → Program W → Fsm W → Result Bool × W → Result (Unit {0}) × Fsm W × W
  unfolding run_retry
  run_limited rel operation fsm (ok b, w) = run_retry rel operation fsm w
  run_limited rel operation fsm (pass m, w) = run_retry rel operation fsm w
  run_limited rel operation fsm (err e, w) =
      (err_code (text "Rate limit exceeded: " & e.error) "RATE_LIMIT_EXCEEDED", fsm, w)

  unfoldable pub run_wrapped :
      ReliabilityConfig W → Program W → String → Fsm W → W → Result (Unit {0}) × Fsm W × W
  unfolding run_limited
  run_wrapped rel operation resource fsm w = elim rel.rate_limiter [
    | none ↦ run_retry rel operation fsm w
    | some try_acquire ↦ run_limited rel operation fsm (try_acquire resource w)
  ]

  unfoldable pub execute_with_reliability :
      Fsm W → Hook W → Context → String → W → Result (Unit {0}) × Fsm W × W
  unfolding guarded run_wrapped
  execute_with_reliability fsm hook ctx resource w = elim fsm.reliability_config [
    | none ↦ guarded (run_program (hook ctx) fsm w)
    | some rel ↦
        if not rel.enabled
        then guarded (run_program (hook ctx) fsm w)
        else run_wrapped rel (hook ctx) resource fsm w
  ]

-- `d.update(other)`
update : Dict String String → Dict String String → Dict String String
update d [] = d
update d ((k, v) ∷ other) = update (insert k v d) other

module _ {W : Type 0} (now : W → ℕ) where
  -- the context that a hook for `state` is given
  unfoldable pub hook_context : Fsm W → String → Option Context → W → Context
  unfolding update
  hook_context fsm state context w =
      let own : Dict String String = ("state", state) ∷ ("fsm_id", fsm.fsm_id) ∷ [] in
      record {
        timestamp = now w;
        source = text "fsm." & text fsm.fsm_id;
        metadata = elim context [ none ↦ own | some c ↦ update own c.metadata ];
        user_data = elim context [ none ↦ [] | some c ↦ c.user_data ];
      }

  unfoldable pub persist : Fsm W → String → W → Result (Unit {0}) × W
  persist fsm new_state w = elim fsm.repository [
    | none ↦ (ok tt, w)
    | some set_state ↦ set_state fsm.fsm_id new_state w
  ]

  state_change : Fsm W → TransitionCommand → W → StateChange
  state_change fsm command w = record {
    fsm_id = fsm.fsm_id;
    from_state = command.from_state;
    to_state = command.to_state;
    timestamp = now w;
  }

  module _ (again : Call W) where
    -- the blocks of `transition_to` around `exit_hook` and `entry_hook`: an error is only logged
    unfoldable pub run_hook : Fsm W → Dict String (Hook W) → String → Option Context → W → Fsm W × W
    unfolding hook_context
    run_hook fsm hooks state context w = elim (lookup state hooks) [
      | none ↦ (fsm, w)
      | some hook ↦
          let (_, fsm', w') =
            execute_with_reliability again fsm hook (hook_context fsm state context w) state w in
          (fsm', w')
    ]

    -- A failure to publish is only logged; an exception is not caught.
    unfoldable pub publish : Fsm W → TransitionCommand → W → Outcome (Result (Unit {0})) × Fsm W × W
    unfolding state_change
    publish fsm command w = elim fsm.mediator [
      | none ↦ (returns (ok tt), fsm, w)
      | some send ↦
          run_program again
            (send (record {
              event_type = domain;
              source = fsm.fsm_id;
              payload = state_change fsm command w;
            }))
            fsm w
    ]

    -- The turn of an observer, unless it has been removed since: what it raises is only logged.
    unfoldable pub tell : Observer W → StateChange → Fsm W → W → Fsm W × W
    unfolding observed
    tell o change fsm w =
        let (_, fsm', w') = run_program again (o.on_notify change) fsm w in
        if observed o.identity fsm.observers then (fsm', w') else (fsm, w)

    -- The loop over the set of observers, which raises when the set has got another size than at its start.
    unfoldable pub notify_each :
        (size : ℕ) → List (Observer W) → StateChange → Fsm W → W → Outcome (Unit {0}) × Fsm W × W
    unfolding tell
    notify_each size [] change fsm w = (returns tt, fsm, w)
    notify_each size (o ∷ os) change fsm w =
        let (fsm', w') = tell o change fsm w in
        let rest = notify_each size os change fsm' w' in
        if length fsm'.observers == size
        then rest
        else (raises (text "Set changed size during iteration"), fsm', w')

    unfoldable pub notify : Fsm W → TransitionCommand → W → Outcome (Unit {0}) × Fsm W × W
    unfolding notify_each state_change
    notify fsm command w =
        notify_each (length fsm.observers) fsm.observers (state_change fsm command w) fsm w

    -- after the notifications: the command enters the history
    unfoldable pub recorded :
        TransitionCommand
        → Outcome (Unit {0}) × Fsm W × W
        → Outcome (Result TransitionCommand) × Fsm W × W
    recorded command (raises e, fsm, w) = (raises e, fsm, w)
    recorded command (returns _, fsm, w) = (
      returns (ok command),
      record fsm { command_history = fsm.command_history ++ command ∷ [] },
      w,
    )

    unfoldable pub announced :
        TransitionCommand
        → Outcome (Result (Unit {0})) × Fsm W × W
        → Outcome (Result TransitionCommand) × Fsm W × W
    unfolding notify recorded
    announced command (raises e, fsm, w) = (raises e, fsm, w)
    announced command (returns _, fsm, w) = recorded command (notify fsm command w)

    -- from the answer of the repository to the end of `transition_to`
    unfoldable pub conclude :
        TransitionCommand
        → Fsm W
        → Result (Unit {0}) × W
        → Outcome (Result TransitionCommand) × Fsm W × W
    unfolding publish announced
    conclude command fsm (err e, w) = (
      returns (err_code (text "Failed to persist state: " & e.error) "PERSISTENCE_ERROR"),
      fsm,
      w,
    )
    conclude command fsm (_, w) = announced command (publish fsm command w)

    -- The exit hook sees the old state, the entry hook and all after it the new one. The target is
    -- checked before the exit hook runs.
    unfoldable pub transition_with : Call W
    unfolding run_hook persist conclude
    transition_with fsm new_state context w =
        let from_state = fsm.state in
        let command : TransitionCommand = record {
          fsm_id = fsm.fsm_id;
          from_state = from_state;
          to_state = new_state;
        } in
        if not (is_transition_valid fsm from_state new_state)
        then (
          returns (
              err_code
                (text "Invalid state transition: "
                  & text from_state
                  & text " -> "
                  & text new_state
                  & text ". Valid transitions from "
                  & text from_state
                  & text ": "
                  & names
                      (elim (lookup from_state fsm.valid_transitions) [ none ↦ [] | some l ↦ l ]))
                "INVALID_TRANSITION"),
          fsm,
          w,
        )
        else let (left, w1) = run_hook fsm fsm.exit_hooks from_state context w in
          let moved = record left { state = new_state } in
          let (entered, w2) = run_hook moved moved.entry_hooks new_state context w1 in
          conclude command entered (persist entered new_state w2)

  unfoldable pub transition_to : (depth : ℕ) → Call W
  unfolding transition_with
  transition_to zero fsm new_state context w =
      (raises (text "maximum recursion depth exceeded"), fsm, w)
  transition_to (suc depth) fsm new_state context w =
      transition_with (transition_to depth) fsm new_state context w
