-- ===== src/MultiAction/Examples.antt =====
-- The theorem about lists of actions at a web client that logs them, and rejects number 9.
use playground_azure_user_sy.Prelude.{
  ℕ, Bool, true, false, not, List, [], ◌∷◌, ◌++◌, ◌==◌, ℕ_eq, ◌≡◌, refl,
}
use playground_azure_user_sy.MultiAction.{
  Action, act_multi, act_view_reload, other_action, no_actions, more_actions, handle_action,
  execute_multi_action,
}
use playground_azure_user_sy.MultiAction.Sequence.{run_steps, steps, handle_action-run_steps}

abbrev log : ℕ → List ℕ → List ℕ × Bool
log id done = (done ++ id ∷ [], not (id == 9))

abbrev shown : List ℕ → Bool
shown done = true

abbrev reload : List ℕ → List ℕ
reload done = done ++ 0 ∷ []

abbrev nested : Action
nested = act_multi (
    more_actions
      (act_multi (more_actions (other_action 1) (more_actions act_view_reload no_actions)))
      (more_actions (other_action 9) (more_actions (other_action 2) no_actions)))

handle_action-run_steps_example :
    handle_action (List ℕ) log shown reload [] nested
    ≡ run_steps (List ℕ) log shown reload [] (steps nested)
handle_action-run_steps_example = handle_action-run_steps (List ℕ) log shown reload nested []

stops_at_9 : handle_action (List ℕ) log shown reload [] nested ≡ (1 ∷ 0 ∷ 9 ∷ [], false)
unfolding handle_action execute_multi_action
stops_at_9 = refl
