-- ===== src/Core/Fsm/Machine/Unheard.antt =====
-- What the parts of `transition_to` of dawn_kestrel/core/fsm.py come to when the callbacks are quiet.
use dawn_kestrel.Prelude.{
  ℕ, String, ◌≡◌, refl, sym, subst, ap, text, Bool, true, false, Option, none, some, List, [], ◌∷◌,
  ◌++◌, Dict, lookup, length, Outcome, returns, raises, if◌then◌else◌, nat_eq, ◌==◌, string_eq,
}
use dawn_kestrel.Core.Result.{Result, ok}
use dawn_kestrel.Core.Fsm.{
  Context, TransitionCommand, StateChange, Event, Hook, Mediator, Observer, Fsm,
}
use dawn_kestrel.Core.Fsm.Machine.{
  Call, observed, run_program, execute_with_reliability, hook_context, run_hook, publish, tell,
  notify_each, notify, recorded, announced,
}
use dawn_kestrel.Core.Fsm.Machine.Quiet.{
  IsQuiet, IsCalm, AllQuiet, IsUndisturbed, program_quiet, program_calm, execute_quiet,
}

module _ {W : Type 0} (now : W → ℕ) (again : Call W) where
  -- A quiet hook leaves the machine as it was.
  pub run_hook_quiet :
      (hooks : Dict String (Hook W)) (s : String) (c : Option Context) (f : Fsm W) (w : W)
      → ((hook : Hook W) → lookup s hooks ≡ some hook → (ctx : Context) → IsQuiet (hook ctx))
      → (run_hook now again f hooks s c w).0 ≡ f
  unfolding run_hook
  run_hook_quiet hooks s c f w q = go (lookup s hooks) q
    where
      go :
          (r : Option (Hook W))
          → ((hook : Hook W) → r ≡ some hook → (ctx : Context) → IsQuiet (hook ctx))
          → (elim r as (λ _. Fsm W × W) [
            | none ↦ (f, w)
            | some hook ↦
                let (_, f', w') =
                  execute_with_reliability again f hook (hook_context now f s c w) s w in
                (f', w')
          ]).0
            ≡ f
      go none q = refl
      go (some hook) q =
          let ctx = hook_context now f s c w in execute_quiet again hook ctx s f w (q hook refl ctx)

  tell_quiet :
      (o : Observer W) (change : StateChange) (f : Fsm W) (w : W)
      → IsQuiet (o.on_notify change)
      → (tell now again o change f w).0 ≡ f
  unfolding tell
  tell_quiet o change f w q = go (observed o.identity f.observers)
    where
      x : Outcome (Result (Unit {0})) × Fsm W × W
      x = run_program again (o.on_notify change) f w

      go : (b : Bool) → (if◌then◌else◌ {A = Fsm W × W} b (x.1, x.2) (f, w)).0 ≡ f
      go true = program_quiet again (o.on_notify change) f w q
      go false = refl

  notify_each_quiet :
      (os : List (Observer W)) (change : StateChange) (f : Fsm W) (w : W)
      → AllQuiet os
      → ((notify_each now again (length f.observers) os change f w).0 ≡ returns tt)
        × ((notify_each now again (length f.observers) os change f w).1 ≡ f)
  unfolding notify_each
  notify_each_quiet [] change f w q = (refl, refl)
  notify_each_quiet (o ∷ os) change f w q =
      let x = tell now again o change f w in
      let size : ℕ = length f.observers in
      let same : (size == size) ≡ true = (nat_eq.same_iff size size).1 refl in
      let (ended, kept) = notify_each_quiet os change f x.1 q.1 in
      subst
        (λ (g : Fsm W).
          let y : Outcome (Unit {0}) × Fsm W × W =
            if length g.observers == size
            then notify_each now again size os change g x.1
            else (raises (text "Set changed size during iteration"), g, x.1) in
          (y.0 ≡ returns tt) × (y.1 ≡ f))
        (sym (tell_quiet o change f w (q.0 change))) (rw same (ended, kept))

  recorded_quiet :
      (command : TransitionCommand) (f : Fsm W) (x : Outcome (Unit {0}) × Fsm W × W)
      → x.0 ≡ returns tt
      → x.1 ≡ f
      → ((recorded now again command x).0 ≡ returns (ok command))
        × ((recorded now again command x).1
            ≡ record f { command_history = f.command_history ++ command ∷ [] })
  unfolding recorded
  recorded_quiet command f (raises e, g, w) h k = absurd (cc)
  recorded_quiet command f (returns _, g, w) h k =
      (refl, ap (λ (g : Fsm W). record g { command_history = g.command_history ++ command ∷ [] }) k)

  announced_quiet :
      (command : TransitionCommand) (f : Fsm W) (r : Result (Unit {0}))
      (x : Outcome (Result (Unit {0})) × Fsm W × W)
      → AllQuiet f.observers
      → x.0 ≡ returns r
      → x.1 ≡ f
      → ((announced now again command x).0 ≡ returns (ok command))
        × ((announced now again command x).1
            ≡ record f { command_history = f.command_history ++ command ∷ [] })
  unfolding announced notify
  announced_quiet command f r (raises e, g, w) q h k = absurd (cc)
  announced_quiet command f r (returns _, g, w) q h k =
      subst
        (λ (g : Fsm W).
          ((announced now again command (returns r, g, w)).0 ≡ returns (ok command))
          × ((announced now again command (returns r, g, w)).1
              ≡ record f { command_history = f.command_history ++ command ∷ [] }))
        (sym k)
        (let told = notify_each_quiet f.observers _ f w q in
          recorded_quiet command f (notify now again f command w) told.0 told.1)

  publish_calm :
      (command : TransitionCommand) (f : Fsm W) (w : W)
      → ((send : Mediator W) → f.mediator ≡ some send → (event : Event) → IsCalm (send event))
      → ((r : Result (Unit {0})) × ((publish now again f command w).0 ≡ returns r))
        × ((publish now again f command w).1 ≡ f)
  unfolding publish
  publish_calm command f w q = go _ f.mediator q
    where
      go :
          (event : Event) (m : Option (Mediator W))
          → ((send : Mediator W) → m ≡ some send → (event : Event) → IsCalm (send event))
          → let x = elim m as (λ _. Outcome (Result (Unit {0})) × Fsm W × W) [
            | none ↦ (returns (ok tt), f, w)
            | some send ↦ run_program again (send event) f w
          ] in
            ((r : Result (Unit {0})) × (x.0 ≡ returns r)) × (x.1 ≡ f)
      go event none q = ((ok tt, refl), refl)
      go event (some send) q = program_calm again (send event) f w (q send refl event)

  -- Nothing of publishing and notifying is heard of: the command enters the history.
  pub announced-publish :
      (command : TransitionCommand) (f : Fsm W) (w : W)
      → IsUndisturbed f
      → let x = announced now again command (publish now again f command w) in
        (x.0 ≡ returns (ok command))
        × (x.1 ≡ record f { command_history = f.command_history ++ command ∷ [] })
  announced-publish command f w q =
      let ((r, ended), kept) = publish_calm command f w q.mediation in
      announced_quiet command f r (publish now again f command w) q.watchers ended kept
