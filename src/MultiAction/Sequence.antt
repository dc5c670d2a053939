-- ===== src/MultiAction/Sequence.antt =====
-- Lists of actions within lists of actions are one sequence.
use playground_azure_user_sy.Prelude.{
  ℕ, Bool, true, false, List, [], ◌∷◌, ◌++◌, if◌then◌else◌, ◌≡◌, refl, sym, ap, ◌∙◌,
}
use playground_azure_user_sy.MultiAction.{
  Action, act_multi, act_view_reload, other_action, Actions, no_actions, more_actions, and_then,
  handle_action, execute_multi_action,
}

-- A single step: a reload, or another action.
pub data Step : Type 0 where
  reload_step : Step
  other_step : ℕ → Step

abbrev mutual
  pub steps : Action → List Step
  steps (act_multi actions) = all_steps actions
  steps act_view_reload = reload_step ∷ []
  steps (other_action id) = other_step id ∷ []

  all_steps : Actions → List Step
  all_steps no_actions = []
  all_steps (more_actions a rest) = steps a ++ all_steps rest

module _ (World : Type 0) (perform : ℕ → World → World × Bool) (has_widget : World → Bool)
    (reload : World → World) where
  abbrev run_step : World → Step → World × Bool
  run_step w reload_step = (if has_widget w then reload w else w, true)
  run_step w (other_step id) = perform id w

  -- The steps one after the other, up to the first that fails.
  abbrev pub run_steps : World → List Step → World × Bool
  run_steps w [] = (w, true)
  run_steps w (s ∷ ss) =
      let rest = run_steps (run_step w s).0 ss in
      if (run_step w s).1 then rest else ((run_step w s).0, false)

  abbrev handle : World → Action → World × Bool
  handle w a = handle_action World perform has_widget reload w a

  abbrev execute : World → Actions → World × Bool
  execute w actions = execute_multi_action World perform has_widget reload w actions

  abbrev continue : World × Bool → List Step → World × Bool
  continue r ss = if r.1 then run_steps r.0 ss else (r.0, false)

  run_steps-append :
      (w : World) (xs ys : List Step) → run_steps w (xs ++ ys) ≡ continue (run_steps w xs) ys
  run_steps-append w [] ys = refl
  run_steps-append w (s ∷ xs) ys =
      ap (λ r. if (run_step w s).1 then r else ((run_step w s).0, false))
        (run_steps-append (run_step w s).0 xs ys)
      ∙ under (run_step w s).1
    where
      under :
          (b : Bool)
          → (if b then continue (run_steps (run_step w s).0 xs) ys else ((run_step w s).0, false))
            ≡ continue (if b then run_steps (run_step w s).0 xs else ((run_step w s).0, false)) ys
      under true = refl
      under false = refl

  and_then-continue :
      (r : World × Bool) (rest : World → World × Bool) (ss : List Step)
      → ((v : World) → rest v ≡ run_steps v ss)
      → and_then World perform has_widget reload r rest ≡ continue r ss
  and_then-continue (w, true) rest ss h = h w
  and_then-continue (w, false) rest ss h = refl

  resolved : (r : World × Bool) → r ≡ continue r []
  resolved (w, true) = refl
  resolved (w, false) = refl

  mutual
    unfolding handle_action execute_multi_action

    handle-steps : (a : Action) (w : World) → handle w a ≡ run_steps w (steps a)
    handle-steps (act_multi actions) w = execute-steps actions w
    handle-steps act_view_reload w = refl
    handle-steps (other_action id) w = resolved (perform id w)

    execute-steps :
        (actions : Actions) (w : World) → execute w actions ≡ run_steps w (all_steps actions)
    execute-steps no_actions w = refl
    execute-steps (more_actions a rest) w =
        and_then-continue (handle w a) (λ v. execute v rest) (all_steps rest)
          (λ v. execute-steps rest v)
        ∙ ap (λ r. continue r (all_steps rest)) (handle-steps a w)
        ∙ sym (run_steps-append w (steps a) (all_steps rest))

  -- For every action, of lists of actions within lists, in every state of the web client: what is
  -- done is the single steps, from left to right, up to the first whose promise is rejected; the
  -- promise of the whole is resolved exactly if there is none.
  pub handle_action-run_steps :
      (a : Action) (w : World)
      → handle_action World perform has_widget reload w a ≡ run_steps w (steps a)
  handle_action-run_steps a w = handle-steps a w
