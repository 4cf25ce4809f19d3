-- ===== src/Core/Fsm/Machine/Quiet.antt =====
-- Callbacks of a machine of dawn_kestrel/core/fsm.py that call none of its methods that change it.
use dawn_kestrel.Prelude.{
  String, ◌≡◌, refl, sym, subst, ◌∙◌, Bool, true, false, not, Option, none, some, List, [], ◌∷◌,
  lookup, Outcome, returns, raises, if◌then◌else◌, nat_eq, string_eq,
}
use dawn_kestrel.Core.Result.{Result, ok, err, pass}
use dawn_kestrel.Core.Fsm.{
  Context, TransitionCommand, StateChange, Event, Program, ends, acts, reads, transitions,
  registers, unregisters, Hook, Mediator, Observer, Attempts, finished, waits, tries,
  ReliabilityConfig, Fsm,
}
use dawn_kestrel.Core.Fsm.Machine.{
  Call, run_program, guarded, run_attempts, run_retry, run_limited, run_wrapped,
  execute_with_reliability,
}

-- It calls none of the machine's methods that change it.
abbrev pub IsQuiet : {W : Type 0} → Program W → Type 0
IsQuiet (ends o) = Unit {0}
IsQuiet (acts f k) = (w : _) → IsQuiet (k w)
IsQuiet (reads k) = (s : String) (h : List TransitionCommand) → IsQuiet (k s h)
IsQuiet (transitions s c k) = ⊥
IsQuiet (registers i on_notify k) = ⊥
IsQuiet (unregisters i k) = ⊥

-- It is quiet, and does not raise.
abbrev pub IsCalm : {W : Type 0} → Program W → Type 0
IsCalm (ends (returns r)) = Unit {0}
IsCalm (ends (raises e)) = ⊥
IsCalm (acts f k) = (w : _) → IsCalm (k w)
IsCalm (reads k) = (s : String) (h : List TransitionCommand) → IsCalm (k s h)
IsCalm (transitions s c k) = ⊥
IsCalm (registers i on_notify k) = ⊥
IsCalm (unregisters i k) = ⊥

abbrev pub AllQuiet : {W : Type 0} → List (Observer W) → Type 0
AllQuiet [] = Unit {0}
AllQuiet (o ∷ os) = ((change : StateChange) → IsQuiet (o.on_notify change)) × AllQuiet os

-- The hooks and the observers of the machine are quiet, and publishing is quiet and does not raise.
pub record IsUndisturbed {W : Type 0} (f : Fsm W) : Type 0 where
  pub exits :
      (s : String) (hook : Hook W)
      → lookup s f.exit_hooks ≡ some hook
      → (c : Context) → IsQuiet (hook c)
  pub entries :
      (s : String) (hook : Hook W)
      → lookup s f.entry_hooks ≡ some hook
      → (c : Context) → IsQuiet (hook c)
  pub watchers : AllQuiet f.observers
  pub mediation :
      (send : Mediator W) → f.mediator ≡ some send → (event : Event) → IsCalm (send event)

module _ {W : Type 0} (again : Call W) where
  pub program_quiet :
      (p : Program W) (f : Fsm W) (w : W) → IsQuiet p → (run_program again p f w).1 ≡ f
  unfolding run_program
  program_quiet (ends o) f w q = refl
  program_quiet (acts a k) f w q = program_quiet (k w) f (a w) (q w)
  program_quiet (reads k) f w q =
      program_quiet (k f.state f.command_history) f w (q f.state f.command_history)
  program_quiet (transitions s c k) f w q = absurd q
  program_quiet (registers i on_notify k) f w q = absurd q
  program_quiet (unregisters i k) f w q = absurd q

  pub program_calm :
      (p : Program W) (f : Fsm W) (w : W)
      → IsCalm p
      → ((r : Result (Unit {0})) × ((run_program again p f w).0 ≡ returns r))
        × ((run_program again p f w).1 ≡ f)
  unfolding run_program
  program_calm (ends (returns r)) f w q = ((r, refl), refl)
  program_calm (ends (raises e)) f w q = absurd q
  program_calm (acts a k) f w q = program_calm (k w) f (a w) (q w)
  program_calm (reads k) f w q =
      program_calm (k f.state f.command_history) f w (q f.state f.command_history)
  program_calm (transitions s c k) f w q = absurd q
  program_calm (registers i on_notify k) f w q = absurd q
  program_calm (unregisters i k) f w q = absurd q

  guarded_machine : (x : Outcome (Result (Unit {0})) × Fsm W × W) → (guarded again x).1 ≡ x.1
  unfolding guarded
  guarded_machine (returns r, f, w) = refl
  guarded_machine (raises e, f, w) = refl

  attempts_quiet :
      (a : Attempts W) (p : Program W) (f : Fsm W) (w : W)
      → IsQuiet p
      → (run_attempts again a p f w).1 ≡ f
  unfolding run_attempts
  attempts_quiet (finished r) p f w q = refl
  attempts_quiet (waits g k) p f w q = attempts_quiet (k w) p f (g w) q
  attempts_quiet (tries k) p f w q =
      let x = run_program again p f w in
      subst (λ g. (run_attempts again (k x.0) p g x.2).1 ≡ f) (sym (program_quiet p f w q))
        (attempts_quiet (k x.0) p f x.2 q)

  guarded_quiet :
      (p : Program W) (f : Fsm W) (w : W)
      → IsQuiet p
      → (guarded again (run_program again p f w)).1 ≡ f
  guarded_quiet p f w q = guarded_machine (run_program again p f w) ∙ program_quiet p f w q

  retry_quiet :
      (rel : ReliabilityConfig W) (p : Program W) (f : Fsm W) (w : W)
      → IsQuiet p
      → (run_retry again rel p f w).1 ≡ f
  unfolding run_retry
  retry_quiet rel p f w q = go rel.retry_executor
    where
      go :
          (r : Option (Attempts W))
          → (elim r as (λ _. Result (Unit {0}) × Fsm W × W) [
            | none ↦ guarded again (run_program again p f w)
            | some execute ↦ run_attempts again execute p f w
          ]).1
            ≡ f
      go none = guarded_quiet p f w q
      go (some execute) = attempts_quiet execute p f w q

  limited_quiet :
      (rel : ReliabilityConfig W) (p : Program W) (f : Fsm W) (x : Result Bool × W)
      → IsQuiet p
      → (run_limited again rel p f x).1 ≡ f
  unfolding run_limited
  limited_quiet rel p f (ok b, w) q = retry_quiet rel p f w q
  limited_quiet rel p f (pass m, w) q = retry_quiet rel p f w q
  limited_quiet rel p f (err e, w) q = refl

  wrapped_quiet :
      (rel : ReliabilityConfig W) (p : Program W) (resource : String) (f : Fsm W) (w : W)
      → IsQuiet p
      → (run_wrapped again rel p resource f w).1 ≡ f
  unfolding run_wrapped
  wrapped_quiet rel p resource f w q = go rel.rate_limiter
    where
      go :
          (l : Option (String → W → Result Bool × W))
          → (elim l as (λ _. Result (Unit {0}) × Fsm W × W) [
            | none ↦ run_retry again rel p f w
            | some try_acquire ↦ run_limited again rel p f (try_acquire resource w)
          ]).1
            ≡ f
      go none = retry_quiet rel p f w q
      go (some try_acquire) = limited_quiet rel p f (try_acquire resource w) q

  if_machine :
      (b : Bool) (x y : Result (Unit {0}) × Fsm W × W) (f : Fsm W)
      → x.1 ≡ f
      → y.1 ≡ f
      → (if b then x else y).1 ≡ f
  if_machine true x y f h k = h
  if_machine false x y f h k = k

  pub execute_quiet :
      (hook : Hook W) (ctx : Context) (resource : String) (f : Fsm W) (w : W)
      → IsQuiet (hook ctx)
      → (execute_with_reliability again f hook ctx resource w).1 ≡ f
  unfolding execute_with_reliability
  execute_quiet hook ctx resource f w q = go f.reliability_config
    where
      go :
          (r : Option (ReliabilityConfig W))
          → (elim r as (λ _. Result (Unit {0}) × Fsm W × W) [
            | none ↦ guarded again (run_program again (hook ctx) f w)
            | some rel ↦
                if not rel.enabled
                then guarded again (run_program again (hook ctx) f w)
                else run_wrapped again rel (hook ctx) resource f w
          ]).1
            ≡ f
      go none = guarded_quiet (hook ctx) f w q
      go (some rel) =
          if_machine (not rel.enabled) _ _ f (guarded_quiet (hook ctx) f w q)
            (wrapped_quiet rel (hook ctx) resource f w q)
