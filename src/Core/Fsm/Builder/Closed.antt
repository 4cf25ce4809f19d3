-- ===== src/Core/Fsm/Builder/Closed.antt =====
-- What the machines that `FSMBuilder` of dawn_kestrel/core/fsm.py builds are like.
use dawn_kestrel.Prelude.{
  is_empty, String, ◌≡◌, refl, inl, inr, true, Option, none, some, List, [], ◌∷◌, arith, lookup,
  contains, add, Bool-cases, Option-cases, string_eq, subst, text, names, ◌&◌, returns, raises,
  if◌then◌else◌,
}
use dawn_kestrel.Core.Result.{Result, ok, err_code}
use dawn_kestrel.Core.Fsm.{Hook, Guard, Mediator, Observer, ReliabilityConfig, Fsm}
use dawn_kestrel.Core.Fsm.Machine.{is_transition_valid, observer_set}
use dawn_kestrel.Core.Fsm.Machine.Trail.{IsClosed}
use dawn_kestrel.Core.Fsm.Builder.{
  FsmBuilder, new, with_initial_state, with_state, with_transition, with_entry_hook, with_exit_hook,
  with_guard, with_persistence, with_mediator, with_observer, with_reliability, build,
}
use dawn_kestrel.Core.Fsm.Builder.Known.{
  AllIn, Known, Within, Within-add, contains-add_self, AllIn-Within, Known-Within, AllIn-add,
  Known-insert, AllIn-lookup, AllIn-contains, undefined_states-Known, new-Known,
}

-- a call of a method of the builder
pub data Call (W : Type 0) : Type 0 where
  initial_state : String → Call W
  state : String → Call W
  transition : String → String → Call W
  entry_hook : String → Hook W → Call W
  exit_hook : String → Hook W → Call W
  guard : String → String → Guard W → Call W
  persistence : (String → String → W → Result (Unit {0}) × W) → Call W
  mediator : Mediator W → Call W
  observer : Observer W → Call W
  reliability : ReliabilityConfig W → Call W

module _ {W : Type 0} where
  unfoldable pub call : Call W → FsmBuilder W → FsmBuilder W
  unfolding with_initial_state with_state with_transition with_entry_hook with_exit_hook with_guard
      with_persistence with_mediator with_observer with_reliability
  call (initial_state s) b = with_initial_state s b
  call (state s) b = with_state s b
  call (transition s t) b = with_transition s t b
  call (entry_hook s h) b = with_entry_hook s h b
  call (exit_hook s h) b = with_exit_hook s h b
  call (guard s t g) b = with_guard s t g b
  call (persistence r) b = with_persistence r b
  call (mediator m) b = with_mediator m b
  call (observer o) b = with_observer o b
  call (reliability c) b = with_reliability c b

  -- a chain of calls, first to last
  unfoldable pub chain : List (Call W) → FsmBuilder W → FsmBuilder W
  unfolding call
  chain [] b = b
  chain (c ∷ cs) b = chain cs (call c b)

module _ {W : Type 0} where
  abbrev IsKnown : FsmBuilder W → Type 0
  IsKnown b = Known b.states b.transitions

  seen-AllIn :
      (b : FsmBuilder W) (s : String)
      → IsKnown b
      → AllIn b.states (elim (lookup s b.transitions) [ none ↦ [] | some ts ↦ ts ])
  seen-AllIn b s h = elim (Option-cases (lookup s b.transitions)) [
    | inl fresh ↦ rw fresh tt
    | inr (ts, old) ↦ rw old (AllIn-lookup b.states s b.transitions ts h old)
  ]

  with_transition-IsKnown :
      (s t : String) (b : FsmBuilder W) → IsKnown b → IsKnown (with_transition s t b)
  unfolding with_transition
  with_transition-IsKnown s t b h =
      let xs = add t (add s b.states) in
      let wider : Within b.states xs =
        λ u k. Within-add t (add s b.states) u (Within-add s b.states u k) in
      let s_in : contains s xs ≡ true =
        Within-add t (add s b.states) s (contains-add_self s b.states) in
      let t_in : contains t xs ≡ true = contains-add_self t (add s b.states) in
      Known-insert xs s _ b.transitions s_in
        (AllIn-add xs t _ t_in (AllIn-Within b.states xs wider _ (seen-AllIn b s h)))
        (Known-Within b.states xs wider b.transitions h)

  call-IsKnown : (c : Call W) (b : FsmBuilder W) → IsKnown b → IsKnown (call c b)
  unfolding call with_initial_state with_state with_entry_hook with_exit_hook with_guard
      with_persistence with_mediator with_observer with_reliability
  call-IsKnown (state s) b h = Known-Within b.states _ (Within-add s b.states) b.transitions h
  call-IsKnown (transition s t) b h = with_transition-IsKnown s t b h
  call-IsKnown _ b h = h

  pub chain-IsKnown : (cs : List (Call W)) (b : FsmBuilder W) → IsKnown b → IsKnown (chain cs b)
  unfolding chain
  chain-IsKnown [] b h = h
  chain-IsKnown (c ∷ cs) b h = chain-IsKnown cs (call c b) (call-IsKnown c b h)

  -- the state that `build` starts from
  abbrev pub start : Option String → FsmBuilder W → String
  start initial b = elim initial [ none ↦ b.initial_state | some s ↦ s ]

  -- the machine that a builder describes
  abbrev pub built : FsmBuilder W → String → String → Fsm W
  built b s object_id = record {
    state = s;
    valid_states = b.states;
    valid_transitions = b.transitions;
    fsm_id = object_id;
    command_history = [];
    repository = b.repository;
    mediator = b.mediator;
    observers = observer_set b.observers [];
    entry_hooks = b.entry_hooks;
    exit_hooks = b.exit_hooks;
    reliability_config = b.reliability_config;
  }

  built-IsClosed :
      (b : FsmBuilder W) (s oid : String)
      → IsKnown b
      → contains s b.states ≡ true
      → IsClosed (built b s oid)
  unfolding is_transition_valid lookup
  built-IsClosed b s oid h k = record {
    state_known = k;
    targets_known = λ a t v. elim (Option-cases (lookup a b.transitions)) [
      | inl none_there ↦ absurd (ground arith)
      | inr (ts, there) ↦
          AllIn-contains b.states t ts (AllIn-lookup b.states a b.transitions ts h there)
            (rw there at v)
    ];
  }

  build_cases :
      (b : FsmBuilder W) (initial : Option String) (oid : String)
      → IsKnown b
      → build b initial oid ≡ (
          if contains (start initial b) b.states
          then returns (ok (built b (start initial b) oid))
          else if is_empty b.states
          then raises (
              text "Invalid initial state: "
              & text (start initial b)
              & text ". Valid states are: "
              & names b.states)
          else returns (
              err_code
                (text "Invalid initial state: "
                  & text (start initial b)
                  & text ". Valid states are: "
                  & names b.states)
                "INVALID_INITIAL_STATE"))
  unfolding build
  build_cases b initial oid h =
      rw (undefined_states-Known b.states b.transitions [] h)
        (elim (Bool-cases (contains (start initial b) b.states)) [
          | inl k ↦ elim (Bool-cases (is_empty b.states)) [ inl e ↦ rw (k, e) | inr e ↦ rw (k, e) ]
          | inr k ↦ elim (Bool-cases (is_empty b.states)) [ inl e ↦ rw (k, e) | inr e ↦ rw (k, e) ]
        ])

  -- A builder that was filled by its methods alone never answers `UNDEFINED_STATE_IN_TRANSITION`:
  -- a known initial state gives `Ok` of the machine that was described, an unknown one gives
  -- `INVALID_INITIAL_STATE`, or the constructor's exception where no state was ever added.
  pub build-chain :
      (cs : List (Call W)) (initial : Option String) (oid : String)
      → let b = chain cs new in
        let s = start initial b in
        build b initial oid ≡ (
          if contains s b.states
          then returns (ok (built b s oid))
          else if is_empty b.states
          then raises (
              text "Invalid initial state: "
              & text s
              & text ". Valid states are: "
              & names b.states)
          else returns (
              err_code
                (text "Invalid initial state: "
                  & text s
                  & text ". Valid states are: "
                  & names b.states)
                "INVALID_INITIAL_STATE"))
  build-chain cs initial oid =
      build_cases (chain cs new) initial oid (chain-IsKnown cs (new {W = W}) (new-Known W))

  -- A machine that `build` returns, of a builder that was filled by its methods alone, starts in
  -- the initial state with an empty history, and is closed: its state and all its targets are
  -- valid states.
  pub build-IsClosed :
      (cs : List (Call W)) (initial : Option String) (oid : String) (fsm : Fsm W)
      → build (chain cs new) initial oid ≡ returns (ok fsm)
      → IsClosed fsm × (fsm.state ≡ start initial (chain cs new)) × (fsm.command_history ≡ [])
  build-IsClosed cs initial oid fsm h =
      let b = chain cs new in
      let s = start initial b in
      elim (Bool-cases (contains s b.states)) [
        | inl k ↦
            let e : returns (ok (built b s oid)) ≡ returns (ok fsm) =
              rw (build-chain cs initial oid, k) at h in
            let q : built b s oid ≡ fsm = cc in
            subst (λ f. IsClosed f × (f.state ≡ s) × (f.command_history ≡ [])) q
              (built-IsClosed b s oid (chain-IsKnown cs (new {W = W}) (new-Known W)) k, refl, refl)
        | inr k ↦ elim (Bool-cases (is_empty b.states)) [
          | inl e ↦ cc (rw (build-chain cs initial oid, k, e) at h)
          | inr e ↦ cc (rw (build-chain cs initial oid, k, e) at h)
        ]
      ]

  -- Guards are collected and never reach the machine: with and without one, `build` answers alike.
  pub build-with_guard :
      (s t : String) (g : Guard W) (b : FsmBuilder W) (initial : Option String) (oid : String)
      → build (with_guard s t g b) initial oid ≡ build b initial oid
  unfolding build with_guard
  build-with_guard s t g b initial oid = refl
