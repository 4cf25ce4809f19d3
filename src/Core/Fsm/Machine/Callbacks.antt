-- ===== src/Core/Fsm/Machine/Callbacks.antt =====
-- What `transition_to` of dawn_kestrel/core/fsm.py keeps whatever its callbacks do, calls of the machine
-- that calls them included: by one induction on the depth of the nested calls.
use dawn_kestrel.Prelude.{
  ℕ, zero, suc, String, ◌≡◌, refl, Bool, true, false, not, Option, none, some, List, [], ◌∷◌, ◌++◌,
  Dict, lookup, length, Outcome, returns, raises, if◌then◌else◌, nat_eq, string_eq, ◌==◌,
}
use dawn_kestrel.Core.Result.{Result, ok, err, pass}
use dawn_kestrel.Core.Fsm.{
  Context, TransitionCommand, StateChange, Event, Program, ends, acts, reads, transitions,
  registers, unregisters, Hook, Mediator, Observer, Attempts, finished, waits, tries,
  ReliabilityConfig, Fsm,
}
use dawn_kestrel.Core.Fsm.Machine.{
  Call, is_transition_valid, register_observer, unregister_observer, observed, drop_observer,
  run_program, guarded, run_attempts, run_retry, run_limited, run_wrapped, execute_with_reliability,
  hook_context, run_hook, persist, publish, tell, notify_each, notify, recorded, announced,
  conclude, transition_with, transition_to,
}

-- the command of a call
abbrev pub command_of : {W : Type 0} → Fsm W → String → TransitionCommand
command_of f s = record { fsm_id = f.fsm_id; from_state = f.state; to_state = s }

module _ {W : Type 0} (P : Fsm W → Type 0)
    (watched : (f : Fsm W) (os : List (Observer W)) → P f → P (record f { observers = os })) where
  abbrev pub Keeps : Call W → Type 0
  Keeps again = (f : Fsm W) (s : String) (c : Option Context) (w : W) → P f → P (again f s c w).1

  if_keeps :
      {A : Type 0} (b : Bool) (x y : A × Fsm W × W) → P x.1 → P y.1 → P (if b then x else y).1
  if_keeps true x y h k = h
  if_keeps false x y h k = k

  unregister_keeps : (f : Fsm W) (i : ℕ) → P f → P (unregister_observer f i)
  unfolding unregister_observer
  unregister_keeps f i h = go (observed i f.observers)
    where
      go : (b : Bool) → P (if b then record f { observers = drop_observer i f.observers } else f)
      go true = watched f (drop_observer i f.observers) h
      go false = h

  module _ (again : Call W) (keeps : Keeps again) where
    program_keeps : (p : Program W) (f : Fsm W) (w : W) → P f → P (run_program again p f w).1
    unfolding run_program register_observer
    program_keeps (ends o) f w h = h
    program_keeps (acts a k) f w h = program_keeps (k w) f (a w) h
    program_keeps (reads k) f w h = program_keeps (k f.state f.command_history) f w h
    program_keeps (transitions s c k) f w h =
        let x = again f s c w in program_keeps (k x.0) x.1 x.2 (keeps f s c w h)
    program_keeps (registers i on_notify k) f w h =
        program_keeps k (register_observer f (record { identity = i; on_notify = on_notify })) w
          (watched f _ h)
    program_keeps (unregisters i k) f w h =
        program_keeps k (unregister_observer f i) w (unregister_keeps f i h)

    guarded_keeps : (x : Outcome (Result (Unit {0})) × Fsm W × W) → P x.1 → P (guarded again x).1
    unfolding guarded
    guarded_keeps (returns r, f, w) h = h
    guarded_keeps (raises e, f, w) h = h

    attempts_keeps :
        (a : Attempts W) (p : Program W) (f : Fsm W) (w : W)
        → P f
        → P (run_attempts again a p f w).1
    unfolding run_attempts
    attempts_keeps (finished r) p f w h = h
    attempts_keeps (waits g k) p f w h = attempts_keeps (k w) p f (g w) h
    attempts_keeps (tries k) p f w h =
        let x = run_program again p f w in attempts_keeps (k x.0) p x.1 x.2 (program_keeps p f w h)

    retry_keeps :
        (rel : ReliabilityConfig W) (p : Program W) (f : Fsm W) (w : W)
        → P f
        → P (run_retry again rel p f w).1
    unfolding run_retry
    retry_keeps rel p f w h = go rel.retry_executor
      where
        go :
            (r : Option (Attempts W))
            → P
                (elim r as (λ _. Result (Unit {0}) × Fsm W × W) [
                  | none ↦ guarded again (run_program again p f w)
                  | some execute ↦ run_attempts again execute p f w
                ]).1
        go none = guarded_keeps (run_program again p f w) (program_keeps p f w h)
        go (some execute) = attempts_keeps execute p f w h

    limited_keeps :
        (rel : ReliabilityConfig W) (p : Program W) (f : Fsm W) (x : Result Bool × W)
        → P f
        → P (run_limited again rel p f x).1
    unfolding run_limited
    limited_keeps rel p f (ok b, w) h = retry_keeps rel p f w h
    limited_keeps rel p f (pass m, w) h = retry_keeps rel p f w h
    limited_keeps rel p f (err e, w) h = h

    wrapped_keeps :
        (rel : ReliabilityConfig W) (p : Program W) (resource : String) (f : Fsm W) (w : W)
        → P f
        → P (run_wrapped again rel p resource f w).1
    unfolding run_wrapped
    wrapped_keeps rel p resource f w h = go rel.rate_limiter
      where
        go :
            (l : Option (String → W → Result Bool × W))
            → P
                (elim l as (λ _. Result (Unit {0}) × Fsm W × W) [
                  | none ↦ run_retry again rel p f w
                  | some try_acquire ↦ run_limited again rel p f (try_acquire resource w)
                ]).1
        go none = retry_keeps rel p f w h
        go (some try_acquire) = limited_keeps rel p f (try_acquire resource w) h

    execute_keeps :
        (hook : Hook W) (ctx : Context) (resource : String) (f : Fsm W) (w : W)
        → P f
        → P (execute_with_reliability again f hook ctx resource w).1
    unfolding execute_with_reliability
    execute_keeps hook ctx resource f w h = go f.reliability_config
      where
        plain : P (guarded again (run_program again (hook ctx) f w)).1
        plain = guarded_keeps (run_program again (hook ctx) f w) (program_keeps (hook ctx) f w h)

        go :
            (r : Option (ReliabilityConfig W))
            → P
                (elim r as (λ _. Result (Unit {0}) × Fsm W × W) [
                  | none ↦ guarded again (run_program again (hook ctx) f w)
                  | some rel ↦
                      if not rel.enabled
                      then guarded again (run_program again (hook ctx) f w)
                      else run_wrapped again rel (hook ctx) resource f w
                ]).1
        go none = plain
        go (some rel) =
            if_keeps (not rel.enabled) _ _ plain (wrapped_keeps rel (hook ctx) resource f w h)

  module _ (now : W → ℕ) (again : Call W) (keeps : Keeps again) where
    hook_keeps :
        (hooks : Dict String (Hook W)) (s : String) (c : Option Context) (f : Fsm W) (w : W)
        → P f
        → P (run_hook now again f hooks s c w).0
    unfolding run_hook
    hook_keeps hooks s c f w h = go (lookup s hooks)
      where
        go :
            (r : Option (Hook W))
            → P
                (elim r as (λ _. Fsm W × W) [
                  | none ↦ (f, w)
                  | some hook ↦
                      let (_, f', w') =
                        execute_with_reliability again f hook (hook_context now f s c w) s w in
                      (f', w')
                ]).0
        go none = h
        go (some hook) = execute_keeps again keeps hook (hook_context now f s c w) s f w h

    tell_keeps :
        (o : Observer W) (change : StateChange) (f : Fsm W) (w : W)
        → P f
        → P (tell now again o change f w).0
    unfolding tell
    tell_keeps o change f w h = go (observed o.identity f.observers)
      where
        x : Outcome (Result (Unit {0})) × Fsm W × W
        x = run_program again (o.on_notify change) f w

        go : (b : Bool) → P (if◌then◌else◌ {A = Fsm W × W} b (x.1, x.2) (f, w)).0
        go true = program_keeps again keeps (o.on_notify change) f w h
        go false = h

    notify_each_keeps :
        (size : ℕ) (os : List (Observer W)) (change : StateChange) (f : Fsm W) (w : W)
        → P f
        → P (notify_each now again size os change f w).1
    unfolding notify_each
    notify_each_keeps size [] change f w h = h
    notify_each_keeps size (o ∷ os) change f w h =
        let x = tell now again o change f w in
        let told : P x.0 = tell_keeps o change f w h in
        if_keeps (length x.0.observers == size) _ _ (notify_each_keeps size os change x.0 x.1 told)
          told

    module _ (command : TransitionCommand)
        (records : (g : Fsm W)
          → P g
          → P (record g { command_history = g.command_history ++ command ∷ [] })) where
      recorded_keeps :
          (x : Outcome (Unit {0}) × Fsm W × W) → P x.1 → P (recorded now again command x).1
      unfolding recorded
      recorded_keeps (raises e, g, w) h = h
      recorded_keeps (returns _, g, w) h = records g h

      announced_keeps :
          (x : Outcome (Result (Unit {0})) × Fsm W × W)
          → P x.1
          → P (announced now again command x).1
      unfolding announced notify
      announced_keeps (raises e, g, w) h = h
      announced_keeps (returns _, g, w) h =
          recorded_keeps (notify now again g command w)
            (notify_each_keeps (length g.observers) g.observers _ g w h)

      publish_keeps : (g : Fsm W) (w : W) → P g → P (publish now again g command w).1
      unfolding publish
      publish_keeps g w h = go _ g.mediator
        where
          go :
              (event : Event) (m : Option (Mediator W))
              → P
                  (elim m as (λ _. Outcome (Result (Unit {0})) × Fsm W × W) [
                    | none ↦ (returns (ok tt), g, w)
                    | some send ↦ run_program again (send event) g w
                  ]).1
          go event none = h
          go event (some send) = program_keeps again keeps (send event) g w h

      conclude_keeps :
          (g : Fsm W) (x : Result (Unit {0}) × W) → P g → P (conclude now again command g x).1
      unfolding conclude
      conclude_keeps g (err e, w) h = h
      conclude_keeps g (ok a, w) h =
          announced_keeps (publish now again g command w) (publish_keeps g w h)
      conclude_keeps g (pass m, w) h =
          announced_keeps (publish now again g command w) (publish_keeps g w h)

  module _ (now : W → ℕ)
      (moves : (f g : Fsm W) (s : String)
        → P f
        → is_transition_valid f f.state s ≡ true
        → P g
        → P (record g { state = s }))
      (records : (f g : Fsm W) (s : String)
        → P f
        → is_transition_valid f f.state s ≡ true
        → P g
        → P (record g { command_history = g.command_history ++ command_of f s ∷ [] })) where
    unless_valid :
        {A : Type 0} (v : Bool) (x y : A × Fsm W × W)
        → P x.1
        → (v ≡ true → P y.1)
        → P (if not v then x else y).1
    unless_valid true x y h k = k refl
    unless_valid false x y h k = h

    transition_with-Keeps : (again : Call W) → Keeps again → Keeps (transition_with now again)
    unfolding transition_with
    transition_with-Keeps again keeps f s c w h =
        unless_valid (is_transition_valid f f.state s) _ _ h λ valid.
          let x = run_hook now again f f.exit_hooks f.state c w in
          let left : P x.0 = hook_keeps now again keeps f.exit_hooks f.state c f w h in
          let moved : Fsm W = record x.0 { state = s } in
          let y = run_hook now again moved moved.entry_hooks s c x.1 in
          let entered : P y.0 =
            hook_keeps now again keeps moved.entry_hooks s c moved x.1
              (moves f x.0 s h valid left) in
          conclude_keeps now again keeps (command_of f s) (λ g. records f g s h valid) y.0
            (persist now y.0 s y.1) entered

    -- What is kept by every change of the observers, by every allowed move and by the recording of an
    -- allowed move is kept by a call of `transition_to`, whatever the callbacks do.
    pub transition_to-Keeps : (depth : ℕ) → Keeps (transition_to now depth)
    unfolding transition_to
    transition_to-Keeps zero f s c w h = h
    transition_to-Keeps (suc depth) f s c w h =
        transition_with-Keeps (transition_to now depth) (transition_to-Keeps depth) f s c w h
