-- ===== src/Core/Fsm/Machine/Lawful.antt =====
-- What the audit history of `FSMImpl` (dawn_kestrel/core/fsm.py) keeps whatever the callbacks do.
use dawn_kestrel.Prelude.{
  ℕ, String, ◌≡◌, sym, ◌∙◌, Bool, true, Option, List, [], ◌∷◌, ◌++◌, string_eq,
}
use dawn_kestrel.Core.Fsm.{Context, TransitionCommand, Fsm}
use dawn_kestrel.Core.Fsm.Machine.{is_transition_valid}
use dawn_kestrel.Core.Fsm.Machine.Callbacks.{command_of, transition_to-Keeps}
use dawn_kestrel.Core.Fsm.Machine.Trail.{drive, drive_induction}

-- Every command names an allowed move.
abbrev pub AllAllowed : (String → String → Bool) → List TransitionCommand → Type 0
AllAllowed allowed [] = Unit {0}
AllAllowed allowed (c ∷ cs) = (allowed c.from_state c.to_state ≡ true) × AllAllowed allowed cs

AllAllowed-append :
    (allowed : String → String → Bool) (cs : List TransitionCommand) (c : TransitionCommand)
    → AllAllowed allowed cs
    → allowed c.from_state c.to_state ≡ true
    → AllAllowed allowed (cs ++ c ∷ [])
AllAllowed-append allowed [] c h v = (v, tt)
AllAllowed-append allowed (d ∷ cs) c h v = (h.0, AllAllowed-append allowed cs c h.1 v)

module _ {W : Type 0} (now : W → ℕ) (allowed : String → String → Bool) where
  record IsLawful (f : Fsm W) : Type 0 where
    same_map : (a b : String) → is_transition_valid f a b ≡ allowed a b
    commands : AllAllowed allowed f.command_history

  -- Whatever the callbacks do, calls of the machine included, every command that enters the history is a
  -- move that the map allows.
  pub drive-AllAllowed :
      (depth : ℕ) (f : Fsm W) (reqs : List (String × Option Context)) (w : W)
      → ((a b : String) → is_transition_valid f a b ≡ allowed a b)
      → AllAllowed allowed f.command_history
      → AllAllowed allowed (drive now depth f reqs w).0.command_history
  unfolding is_transition_valid
  drive-AllAllowed depth f reqs w same h =
      (drive_induction now depth
        (transition_to-Keeps (IsLawful)
          (λ f os h. record { same_map = h.same_map; commands = h.commands }) now
          (λ f g s h valid k. record { same_map = k.same_map; commands = k.commands })
          (λ f g s h valid k. record {
            same_map = k.same_map;
            commands =
                AllAllowed-append allowed g.command_history (command_of f s) k.commands
                  (sym (h.same_map f.state s) ∙ valid);
          })
          depth)
        f reqs w (record { same_map = same; commands = h })).commands
