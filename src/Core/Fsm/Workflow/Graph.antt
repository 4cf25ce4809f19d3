-- ===== src/Core/Fsm/Workflow/Graph.antt =====
-- The workflow graph of dawn_kestrel/core/fsm.py, as `WorkflowFSMBuilder` hands it to the machine.
use dawn_kestrel.Prelude.{
  ℕ, suc, ap, String, ◌≡◌, refl, sym, subst, ◌⊎◌, inl, inr, Bool, true, false, Option, none, some,
  List, [], ◌∷◌, Dict, lookup, insert, contains, add, arith, map, string_eq,
}
use dawn_kestrel.Core.Fsm.{Context, TransitionCommand, Fsm}
use dawn_kestrel.Core.Fsm.Machine.{is_transition_valid, transition_to}
use dawn_kestrel.Core.Fsm.Machine.Transition.{transition_to_refused, transition_to_moves}
use dawn_kestrel.Core.Fsm.Machine.Quiet.{IsUndisturbed}
use dawn_kestrel.Core.Fsm.Machine.Trail.{drive}
use dawn_kestrel.Core.Fsm.Builder.{with_transition, with_state, new}
use dawn_kestrel.Core.Fsm.Workflow.{new_workflow, workflow_states}

-- the map that the workflow builder ends with
abbrev final_map : Dict String (List String)
final_map =
    ("intake", "plan" ∷ "reason" ∷ [])
    ∷ ("plan", "act" ∷ "reason" ∷ [])
    ∷ ("reason", "act" ∷ "synthesize" ∷ "check" ∷ "done" ∷ [])
    ∷ ("act", "synthesize" ∷ [])
    ∷ ("synthesize", "check" ∷ [])
    ∷ ("check", "plan" ∷ "reason" ∷ "act" ∷ "done" ∷ [])
    ∷ []

workflow-map : (W : Type 0) → (new_workflow {W = W}).builder.transitions ≡ final_map
unfolding new_workflow insert add contains lookup with_transition with_state new
workflow-map W = refl

-- a machine with the map of the workflow builder
abbrev pub IsWorkflow : {W : Type 0} → Fsm W → Type 0
IsWorkflow {W} fsm = fsm.valid_transitions ≡ (new_workflow {W = W}).builder.transitions

abbrev allows : String → String → Bool
allows a b = elim (lookup a final_map) [ none ↦ false | some ts ↦ contains b ts ]

valid-allows :
    {W : Type 0} (fsm : Fsm W)
    → IsWorkflow fsm
    → (a b : String) → is_transition_valid fsm a b ≡ allows a b
unfolding is_transition_valid
valid-allows {W} fsm h a b = rw (h, workflow-map W) refl

done-stuck : (b : String) → allows "done" b ≡ false
unfolding lookup
done-stuck b = refl

abbrev pub without_context : List String → List (String × Option Context)
without_context = map (λ s. (s, none))

allows-done : (a : String) → allows a "done" ≡ true → (a ≡ "reason") ⊎ (a ≡ "check")
unfolding lookup contains
allows-done a v = ground (arith, string_eq.same_iff "reason" a, string_eq.same_iff "check" a)

-- A workflow is finished only from `reason` or from `check`.
pub done_from :
    {W : Type 0} (fsm : Fsm W) (a : String)
    → IsWorkflow fsm
    → is_transition_valid fsm a "done" ≡ true
    → (a ≡ "reason") ⊎ (a ≡ "check")
done_from fsm a h v = allows-done a (rw (← valid-allows fsm h a "done") v)

workflow-cases :
    (a : String)
    → contains a workflow_states ≡ true
    → (a ≡ "intake")
      ⊎ (a ≡ "plan")
      ⊎ (a ≡ "reason")
      ⊎ (a ≡ "act")
      ⊎ (a ≡ "synthesize")
      ⊎ (a ≡ "check")
      ⊎ (a ≡ "done")
unfolding contains
workflow-cases a known = ground (
  arith,
  string_eq.same_iff "intake" a,
  string_eq.same_iff "plan" a,
  string_eq.same_iff "reason" a,
  string_eq.same_iff "act" a,
  string_eq.same_iff "synthesize" a,
  string_eq.same_iff "check" a,
  string_eq.same_iff "done" a,
)

-- `path` is allowed from `a`, and ends in `b`
abbrev IsPath : String → List String → String → Type 0
IsPath a [] b = a ≡ b
IsPath a (c ∷ cs) b = (allows a c ≡ true) × IsPath c cs b

some-IsPath :
    (a : String) → contains a workflow_states ≡ true → (path : List String) × IsPath a path "done"
unfolding contains lookup
some-IsPath a known = elim (workflow-cases a known) [
  | inl e ↦ ("reason" ∷ "done" ∷ [], rw e (refl, (refl, refl)))
  | inr (inl e) ↦ ("reason" ∷ "done" ∷ [], rw e (refl, (refl, refl)))
  | inr (inr (inl e)) ↦ ("done" ∷ [], rw e (refl, refl))
  | inr (inr (inr (inl e))) ↦
      ("synthesize" ∷ "check" ∷ "done" ∷ [], rw e (refl, (refl, (refl, refl))))
  | inr (inr (inr (inr (inl e)))) ↦ ("check" ∷ "done" ∷ [], rw e (refl, (refl, refl)))
  | inr (inr (inr (inr (inr (inl e))))) ↦ ("done" ∷ [], rw e (refl, refl))
  | inr (inr (inr (inr (inr (inr e))))) ↦ ([], e)
]

module _ {W : Type 0} (now : W → ℕ) (depth : ℕ) where
  -- A finished workflow is finished: in `done` every request is refused, no hook runs, and neither
  -- the machine nor the world changes.
  pub drive-done :
      (fsm : Fsm W) (reqs : List (String × Option Context)) (w : W)
      → IsWorkflow fsm
      → fsm.state ≡ "done"
      → drive now (suc depth) fsm reqs w ≡ (fsm, w)
  unfolding drive
  drive-done fsm [] w h e = refl
  drive-done fsm ((s, c) ∷ reqs) w h e =
      let refused : is_transition_valid fsm fsm.state s ≡ false =
        rw (valid-allows fsm h fsm.state s, e) (done-stuck s) in
      let (_, same, still) = transition_to_refused now depth fsm s c w refused in
      rw (same, still) (drive-done fsm reqs w h e)

  -- a workflow machine whose callbacks do not disturb it
  abbrev Calm : Fsm W → Type 0
  Calm fsm = IsWorkflow fsm × IsUndisturbed fsm

  still-Calm :
      (fsm g : Fsm W) (s : String) (history : List TransitionCommand)
      → Calm fsm
      → g ≡ record fsm { state = s; command_history = history }
      → Calm g
  still-Calm fsm g s history h e =
      subst (λ g. Calm g) (sym e)
        (
          h.0,
          record {
            exits = h.1.exits;
            entries = h.1.entries;
            watchers = h.1.watchers;
            mediation = h.1.mediation;
          },
        )

  arrives :
      (fsm : Fsm W) (c : String) (w : W)
      → Calm fsm
      → is_transition_valid fsm fsm.state c ≡ true
      → let g = (transition_to now (suc depth) fsm c none w).1 in (g.state ≡ c) × Calm g
  arrives fsm c w h v = elim (transition_to_moves now depth fsm c none w h.1 v) [
    | inl x ↦ (ap (λ (g : Fsm W). g.state) x.1, still-Calm fsm _ c _ h x.1)
    | inr x ↦ (ap (λ (g : Fsm W). g.state) x.1, still-Calm fsm _ c fsm.command_history h x.1)
  ]

  drive_path :
      (path : List String) (fsm : Fsm W) (b : String) (w : W)
      → Calm fsm
      → IsPath fsm.state path b
      → (drive now (suc depth) fsm (without_context path) w).0.state ≡ b
  unfolding drive
  drive_path [] fsm b w h p = p
  drive_path (c ∷ cs) fsm b w h p =
      let (state_is, still) = arrives fsm c w h (rw (valid-allows fsm h.0 fsm.state c) p.0) in
      let x = transition_to now (suc depth) fsm c none w in
      drive_path cs x.1 b x.2 still (subst (λ a. IsPath a cs b) (sym state_is) p.1)

  -- From every state of a workflow there is a sequence of requests that ends in `done`, whatever the
  -- repository answers, if the callbacks call none of the machine's methods that change it and
  -- publishing does not raise.
  pub done_reachable :
      (fsm : Fsm W) (w : W)
      → IsWorkflow fsm
      → IsUndisturbed fsm
      → contains fsm.state workflow_states ≡ true
      → (path : List String) × ((drive now (suc depth) fsm (without_context path) w).0.state
          ≡ "done")
  done_reachable fsm w h quiet known =
      let (path, p) = some-IsPath fsm.state known in
      (path, drive_path path fsm "done" w (h, quiet) p)
