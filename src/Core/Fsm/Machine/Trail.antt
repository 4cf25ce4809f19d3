-- ===== src/Core/Fsm/Machine/Trail.antt =====
-- Sequences of calls of `transition_to` (dawn_kestrel/core/fsm.py) and the audit history.
use dawn_kestrel.Prelude.{
  ℕ, zero, suc, String, ◌≡◌, refl, sym, ◌∙◌, inl, inr, Bool, true, false, Option, List, [], ◌∷◌,
  ◌++◌, contains, subst, Bool-cases, string_eq,
}
use dawn_kestrel.Core.Result.{is_err}
use dawn_kestrel.Core.Fsm.{Context, TransitionCommand, Observer, Fsm}
use dawn_kestrel.Core.Fsm.Machine.{is_transition_valid, persist, transition_to}
use dawn_kestrel.Core.Fsm.Machine.Callbacks.{command_of, transition_to-Keeps}
use dawn_kestrel.Core.Fsm.Machine.Quiet.{IsUndisturbed}
use dawn_kestrel.Core.Fsm.Machine.Transition.{transition_to_refused, transition_to_persists}

module _ {W : Type 0} (now : W → ℕ) (depth : ℕ) where
  -- a caller's requests, one after the other, errors ignored
  unfoldable pub drive : Fsm W → List (String × Option Context) → W → Fsm W × W
  drive fsm [] w = (fsm, w)
  drive fsm ((s, c) ∷ reqs) w =
      let (r, fsm', w') = transition_to now depth fsm s c w in drive fsm' reqs w'

  module _ {ℓ} {P : Fsm W → Type ℓ}
      (step : (f : Fsm W) (s : String) (c : Option Context) (w : W)
        → P f
        → P (transition_to now depth f s c w).1) where
    pub drive_induction :
        (f : Fsm W) (reqs : List (String × Option Context)) (w : W) → P f → P (drive f reqs w).0
    unfolding drive
    drive_induction f [] w h = h
    drive_induction f ((s, c) ∷ reqs) w h =
        drive_induction (transition_to now depth f s c w).1 reqs (transition_to now depth f s c w).2
          (step f s c w h)

-- The state is one of the valid states, and so is every target of the map.
pub record IsClosed {W : Type 0} (f : Fsm W) : Type 0 where
  pub state_known : contains f.state f.valid_states ≡ true
  pub targets_known :
      (a b : String) → is_transition_valid f a b ≡ true → contains b f.valid_states ≡ true

-- It has the states and the transitions of `start`, and is in one of these states.
record IsWithin {W : Type 0} (start f : Fsm W) : Type 0 where
  states_kept : f.valid_states ≡ start.valid_states
  moves_kept : (a b : String) → is_transition_valid f a b ≡ is_transition_valid start a b
  state_known : contains f.state start.valid_states ≡ true

module _ {W : Type 0} (now : W → ℕ) (depth : ℕ) (start : Fsm W) (closed : IsClosed start) where
  watched :
      (f : Fsm W) (os : List (Observer W))
      → IsWithin start f
      → IsWithin start (record f { observers = os })
  unfolding is_transition_valid
  watched f os h = record {
    states_kept = h.states_kept;
    moves_kept = h.moves_kept;
    state_known = h.state_known;
  }

  entered :
      (f g : Fsm W) (s : String)
      → IsWithin start f
      → is_transition_valid f f.state s ≡ true
      → IsWithin start g
      → IsWithin start (record g { state = s })
  unfolding is_transition_valid
  entered f g s h valid k = record {
    states_kept = k.states_kept;
    moves_kept = k.moves_kept;
    state_known = closed.targets_known f.state s (sym (h.moves_kept f.state s) ∙ valid);
  }

  written :
      (f g : Fsm W) (s : String)
      → IsWithin start f
      → is_transition_valid f f.state s ≡ true
      → IsWithin start g
      → IsWithin start (record g { command_history = g.command_history ++ command_of f s ∷ [] })
  unfolding is_transition_valid
  written f g s h valid k = record {
    states_kept = k.states_kept;
    moves_kept = k.moves_kept;
    state_known = k.state_known;
  }

  drive-IsWithin :
      (reqs : List (String × Option Context)) (w : W)
      → IsWithin start (drive now depth start reqs w).0
  drive-IsWithin reqs w =
      drive_induction now depth
        (transition_to-Keeps (IsWithin start) watched now entered written depth) start reqs w
        (record { states_kept = refl; moves_kept = λ a b. refl; state_known = closed.state_known })

module _ {W : Type 0} (now : W → ℕ) (depth : ℕ) where
  -- A machine whose state and targets are valid states keeps this, whatever is requested and whatever
  -- the callbacks answer, failed persistence included, also when they call the machine back.
  pub drive-IsClosed :
      (f : Fsm W) (reqs : List (String × Option Context)) (w : W)
      → IsClosed f
      → IsClosed (drive now depth f reqs w).0
  drive-IsClosed f reqs w h =
      let g = (drive now depth f reqs w).0 in
      let k = drive-IsWithin now depth f h reqs w in
      record {
        state_known = subst (λ xs. contains g.state xs ≡ true) (sym k.states_kept) k.state_known;
        targets_known = λ a b v.
            subst (λ xs. contains b xs ≡ true) (sym k.states_kept)
              (h.targets_known a b (sym (k.moves_kept a b) ∙ v));
      }

-- `cs` leads from `a` to `b` by allowed moves, each starting where the one before it ended.
abbrev pub IsTrail : (String → String → Bool) → String → List TransitionCommand → String → Type 0
IsTrail allowed a [] b = a ≡ b
IsTrail allowed a (c ∷ cs) b =
    (c.from_state ≡ a) × (allowed c.from_state c.to_state ≡ true) × IsTrail allowed c.to_state cs b

IsTrail-append :
    (allowed : String → String → Bool) (a b : String) (cs : List TransitionCommand)
    (c : TransitionCommand)
    → IsTrail allowed a cs b
    → c.from_state ≡ b
    → allowed c.from_state c.to_state ≡ true
    → IsTrail allowed a (cs ++ c ∷ []) c.to_state
IsTrail-append allowed a b [] c h e v = (e ∙ sym h, v, refl)
IsTrail-append allowed a b (d ∷ cs) c h e v =
    (h.0, h.1, IsTrail-append allowed d.to_state b cs c h.2 e v)

-- The history accounts for the whole way from `start`.
pub record IsAudited {W : Type 0} (allowed : String → String → Bool) (start : String) (f : Fsm W)
    : Type 0 where
  pub same_map : (a b : String) → is_transition_valid f a b ≡ allowed a b
  pub trail : IsTrail allowed start f.command_history f.state

module _ {W : Type 0} (now : W → ℕ) (allowed : String → String → Bool) (start : String) where
  -- what a machine keeps while its callbacks are quiet and persistence does not fail
  record Audited (f : Fsm W) : Type 0 where
    persists : (s : String) (v : W) → is_err (persist now f s v).0 ≡ false
    quiet : IsUndisturbed f
    audited : IsAudited allowed start f

  recorded :
      (f : Fsm W) (s : String)
      → Audited f
      → is_transition_valid f f.state s ≡ true
      → Audited (record f { state = s; command_history = f.command_history ++ command_of f s ∷ [] })
  unfolding is_transition_valid persist
  recorded f s h valid = record {
    persists = h.persists;
    quiet = record {
      exits = h.quiet.exits;
      entries = h.quiet.entries;
      watchers = h.quiet.watchers;
      mediation = h.quiet.mediation;
    };
    audited = record {
      same_map = h.audited.same_map;
      trail =
          IsTrail-append allowed start f.state f.command_history (command_of f s) h.audited.trail
            refl (sym (h.audited.same_map f.state s) ∙ valid);
    };
  }

  transition_to-Audited :
      (depth : ℕ) (f : Fsm W) (s : String) (c : Option Context) (w : W)
      → Audited f
      → Audited (transition_to now depth f s c w).1
  unfolding transition_to
  transition_to-Audited zero f s c w h = h
  transition_to-Audited (suc depth) f s c w h =
      elim (Bool-cases (is_transition_valid f f.state s)) [
        | inl valid ↦
            subst (Audited)
              (sym (transition_to_persists now depth f s c w h.persists h.quiet valid).1)
              (recorded f s h valid)
        | inr refused ↦ subst (Audited) (sym (transition_to_refused now depth f s c w refused).1) h
      ]

  -- While persistence does not fail, the hooks and the observers call none of the machine's methods that
  -- change it, and publishing neither does so nor raises, an audit history that is an unbroken trail of
  -- allowed moves from the first state to the current one stays so, whatever is requested and whatever
  -- the hooks and the observers answer or raise.
  pub drive-IsAudited :
      (depth : ℕ) (f : Fsm W) (reqs : List (String × Option Context)) (w : W)
      → ((s : String) (v : W) → is_err (persist now f s v).0 ≡ false)
      → IsUndisturbed f
      → IsAudited allowed start f
      → IsAudited allowed start (drive now depth f reqs w).0
  drive-IsAudited depth f reqs w persists quiet audited =
      (drive_induction now depth (transition_to-Audited depth) f reqs w
        (record { persists = persists; quiet = quiet; audited = audited })).audited
