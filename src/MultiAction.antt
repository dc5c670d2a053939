-- ===== src/MultiAction.antt =====
-- addons_OCA/web: web_ir_actions_act_multi/static/src/js/web_ir_actions_act_multi.js, an action that
-- is a list of actions, and web_ir_actions_act_view_reload, an action that reloads the view.
pub mod Sequence
mod Examples
use playground_azure_user_sy.Prelude.{ℕ, Bool, true, false, List, [], ◌∷◌, ◌++◌, if◌then◌else◌}

-- An action of the type `ir.actions.act_multi`, `ir.actions.act_view_reload`, or another type.
mutual
  pub data Action : Type 0 where
    act_multi : Actions → Action
    act_view_reload : Action
    other_action : ℕ → Action

  pub data Actions : Type 0 where
    no_actions : Actions
    more_actions : Action → Actions → Actions

-- `World` is the state of the web client; `perform` is what it does for another action, with whether
-- its promise is resolved; `has_widget` says whether there is a current controller with a widget,
-- and `reload` reloads that.
module _ (World : Type 0) (perform : ℕ → World → World × Bool) (has_widget : World → Bool)
    (reload : World → World) where
  -- `_executeReloadAction` does not wait for the reload.
  abbrev execute_reload_action : World → World × Bool
  execute_reload_action w = (if has_widget w then reload w else w, true)

  -- `prev.then(cur)`: the rest is called if the promise before it is resolved.
  abbrev pub and_then : World × Bool → (World → World × Bool) → World × Bool
  and_then (w, true) rest = rest w
  and_then (w, false) rest = (w, false)

  -- `_handleAction`, and `_executeMultiAction`.
  unfoldable mutual
    pub handle_action : World → Action → World × Bool
    handle_action w (act_multi actions) = execute_multi_action w actions
    handle_action w act_view_reload = execute_reload_action w
    handle_action w (other_action id) = perform id w

    pub execute_multi_action : World → Actions → World × Bool
    execute_multi_action w no_actions = (w, true)
    execute_multi_action w (more_actions a rest) =
        and_then (handle_action w a) (λ v. execute_multi_action v rest)
