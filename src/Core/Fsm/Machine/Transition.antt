-- ===== src/Core/Fsm/Machine/Transition.antt =====
-- One call of `transition_to` (dawn_kestrel/core/fsm.py), and the hooks that it runs.
use dawn_kestrel.Prelude.{
  ℕ, suc, String, ◌≡◌, refl, sym, subst, ◌⊎◌, inl, inr, Bool, true, false, Option, none, some, [],
  ◌∷◌, ◌++◌, Outcome, returns, raises, string_eq,
}
use dawn_kestrel.Core.Result.{Error, Result, ok, err, pass, is_err}
use dawn_kestrel.Core.Fsm.{Context, TransitionCommand, Hook, ReliabilityConfig, Fsm}
use dawn_kestrel.Core.Fsm.Machine.{
  Call, is_transition_valid, run_limited, execute_with_reliability, run_hook, persist, conclude,
  transition_with, transition_to,
}
use dawn_kestrel.Core.Fsm.Machine.Callbacks.{command_of}
use dawn_kestrel.Core.Fsm.Machine.Quiet.{IsUndisturbed}
use dawn_kestrel.Core.Fsm.Machine.Unheard.{run_hook_quiet, announced-publish}

abbrev pub code {ℓ} : {A : Type ℓ} → Result A → Option String
code (err e) = e.code
code _ = none

-- the code of an answer that is not an exception
abbrev pub answered_code {ℓ} : {A : Type ℓ} → Outcome (Result A) → Option String
answered_code (returns r) = code r
answered_code (raises e) = none

module _ {W : Type 0} (now : W → ℕ) (depth : ℕ) (fsm : Fsm W) (new_state : String)
    (context : Option Context) (w : W) where
  -- A target that the transition map does not allow is refused with `INVALID_TRANSITION`: no hook
  -- runs, and the machine and the world stay as they were.
  pub transition_to_refused :
      is_transition_valid fsm fsm.state new_state ≡ false
      → (answered_code (transition_to now (suc depth) fsm new_state context w).0
          ≡ some "INVALID_TRANSITION")
        × ((transition_to now (suc depth) fsm new_state context w).1 ≡ fsm)
        × ((transition_to now (suc depth) fsm new_state context w).2 ≡ w)
  unfolding transition_to transition_with
  transition_to_refused h = rw h (refl, refl, refl)

-- The ends of an allowed move to `s` of `f`: `saved` is what the repository answered.
abbrev Moved :
    {W : Type 0}
    → Fsm W
    → String
    → Result (Unit {0})
    → Outcome (Result TransitionCommand) × Fsm W × W
    → Type 0
Moved f s saved r =
    ((is_err saved ≡ false)
      × (r.0 ≡ returns (ok (command_of f s)))
      × (r.1 ≡ record f { state = s; command_history = f.command_history ++ command_of f s ∷ [] }))
    ⊎ ((is_err saved ≡ true)
        × (answered_code r.0 ≡ some "PERSISTENCE_ERROR")
        × (r.1 ≡ record f { state = s }))

module _ {W : Type 0} (now : W → ℕ) (again : Call W) (f : Fsm W) (s : String)
    (quiet : IsUndisturbed f) where
  abbrev entered : Fsm W
  entered = record f { state = s }

  entered-IsUndisturbed : IsUndisturbed entered
  entered-IsUndisturbed = record {
    exits = quiet.exits;
    entries = quiet.entries;
    watchers = quiet.watchers;
    mediation = quiet.mediation;
  }

  conclude-Moved :
      (x : Result (Unit {0}) × W) → Moved f s x.0 (conclude now again (command_of f s) entered x)
  unfolding conclude
  conclude-Moved (ok a, w) =
      let h = announced-publish now again (command_of f s) entered w entered-IsUndisturbed in
      inl (refl, h.0, h.1)
  conclude-Moved (pass m, w) =
      let h = announced-publish now again (command_of f s) entered w entered-IsUndisturbed in
      inl (refl, h.0, h.1)
  conclude-Moved (err e, w) = inr (refl, refl, refl)

  -- from the machine that the exit hook leaves
  abbrev onwards : Fsm W → Option Context → W → Outcome (Result TransitionCommand) × Fsm W × W
  onwards left c w1 =
      let moved = record left { state = s } in
      let (g, w2) = run_hook now again moved moved.entry_hooks s c w1 in
      conclude now again (command_of f s) g (persist now g s w2)

  onwards-Moved :
      (c : Option Context) (w1 : W)
      → (v : W) × Moved f s (persist now entered s v).0 (onwards f c w1)
  onwards-Moved c w1 =
      let y = run_hook now again entered f.entry_hooks s c w1 in
      subst
        (λ (g : Fsm W).
          (v : W) × Moved f s (persist now entered s v).0
            (conclude now again (command_of f s) g (persist now g s y.1)))
        (sym (run_hook_quiet now again f.entry_hooks s c entered w1 (quiet.entries s)))
        (y.1, conclude-Moved (persist now entered s y.1))

  pub transition_with-Moved :
      (c : Option Context) (w : W)
      → is_transition_valid f f.state s ≡ true
      → (v : W) × Moved f s (persist now entered s v).0 (transition_with now again f s c w)
  unfolding transition_with
  transition_with-Moved c w valid =
      let x = run_hook now again f f.exit_hooks f.state c w in
      rw valid (
        subst (λ (g : Fsm W). (v : W) × Moved f s (persist now entered s v).0 (onwards g c x.1))
          (sym (run_hook_quiet now again f.exit_hooks f.state c f w (quiet.exits f.state)))
          (onwards-Moved c x.1))

module _ {W : Type 0} (now : W → ℕ) (depth : ℕ) (fsm : Fsm W) (new_state : String)
    (context : Option Context) (w : W) where
  -- An allowed target is entered if the hooks and the observers call none of the machine's methods that
  -- change it, and publishing neither does so nor raises. Either the answer is `Ok` of the command, which
  -- is appended to the history, or the answer is `PERSISTENCE_ERROR`, and the history lacks the move that
  -- was made.
  pub transition_to_moves :
      IsUndisturbed fsm
      → is_transition_valid fsm fsm.state new_state ≡ true
      → (let (r, fsm', _) = transition_to now (suc depth) fsm new_state context w in
          ((r ≡ returns (ok (command_of fsm new_state)))
            × (fsm' ≡ record fsm {
              state = new_state;
              command_history = fsm.command_history ++ command_of fsm new_state ∷ [];
            }))
          ⊎ ((answered_code r ≡ some "PERSISTENCE_ERROR")
              × (fsm' ≡ record fsm { state = new_state })))
  unfolding transition_to
  transition_to_moves quiet valid =
      let (v, moved) =
        transition_with-Moved now (transition_to now depth) fsm new_state quiet context w valid in
      elim moved [ inl x ↦ inl (x.1, x.2) | inr x ↦ inr (x.1, x.2) ]

  -- If moreover the repository never fails, or there is none, the answer to an allowed target is `Ok` of
  -- the command, the machine is in that state, and the command is the last one of the history.
  pub transition_to_persists :
      ((s : String) (v : W) → is_err (persist now fsm s v).0 ≡ false)
      → IsUndisturbed fsm
      → is_transition_valid fsm fsm.state new_state ≡ true
      → ((transition_to now (suc depth) fsm new_state context w).0
          ≡ returns (ok (command_of fsm new_state)))
        × ((transition_to now (suc depth) fsm new_state context w).1 ≡ record fsm {
          state = new_state;
          command_history = fsm.command_history ++ command_of fsm new_state ∷ [];
        })
  unfolding transition_to persist
  transition_to_persists reliable quiet valid =
      let (v, moved) =
        transition_with-Moved now (transition_to now depth) fsm new_state quiet context w valid in
      elim moved [ inl x ↦ (x.1, x.2) | inr x ↦ absurd (cc (reliable new_state v, x.0)) ]

module _ {W : Type 0} (again : Call W) (fsm : Fsm W) (rel : ReliabilityConfig W) (hook : Hook W)
    (context : Context) (resource : String) (w : W) where
  -- A hook that the rate limiter refuses is not run: the answer is `RATE_LIMIT_EXCEEDED`, the machine is
  -- as it was, and the world is the one that the limiter left.
  pub rate_limited_hook :
      (try_acquire : String → W → Result Bool × W) (e : Error)
      → fsm.reliability_config ≡ some rel
      → rel.enabled ≡ true
      → rel.rate_limiter ≡ some try_acquire
      → (try_acquire resource w).0 ≡ err e
      → let x = execute_with_reliability again fsm hook context resource w in
        (code x.0 ≡ some "RATE_LIMIT_EXCEEDED") × (x.1 ≡ fsm) × (x.2 ≡ (try_acquire resource w).1)
  unfolding execute_with_reliability
  rate_limited_hook try_acquire e p q r refused =
      rw (p, q, r) (rw (refused, run_limited) (refl, refl, refl))
