-- ===== src/Tests/Workflows.antt =====
-- `WorkflowFSMBuilder` of dawn_kestrel/core/fsm.py
use dawn_kestrel.Prelude.{◌≡◌, refl, String, true, false, List, contains, add}
use dawn_kestrel.Core.Fsm.Builder.{new}
use dawn_kestrel.Core.Fsm.Workflow.{
  WorkflowFsmBuilder, new_workflow, is_stagnation_detected, check_novelty, track_budget_consumed,
  is_budget_exceeded,
}

abbrev fresh : WorkflowFsmBuilder (List String)
fresh = new_workflow

-- the novelty of a text is the text itself
abbrev noted : String → WorkflowFsmBuilder (List String) → WorkflowFsmBuilder (List String)
noted s b = (check_novelty (λ (d : String). d) s b).1

-- three different findings are reported as stagnation
stagnates_on_progress : is_stagnation_detected (noted "c" (noted "b" (noted "a" fresh))) ≡ true
unfolding is_stagnation_detected check_novelty new_workflow new contains add
stagnates_on_progress = refl

-- the same finding three times is not
progresses_on_repetition : is_stagnation_detected (noted "a" (noted "a" (noted "a" fresh))) ≡ false
unfolding is_stagnation_detected check_novelty new_workflow new contains add
progresses_on_repetition = refl

exceeds_at_the_limit : is_budget_exceeded (track_budget_consumed 100 0 0 0 fresh) ≡ true
unfolding is_budget_exceeded track_budget_consumed new_workflow
exceeds_at_the_limit = refl
