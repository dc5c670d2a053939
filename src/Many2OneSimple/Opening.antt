-- ===== src/Many2OneSimple/Opening.antt =====
-- Opening the related record: the link of a readonly field, and the click on it.
use playground_azure_user_sy.Prelude.{
  ℕ, true, false, ◌≡◌, refl, Option, none, some, List, [], ◌∷◌, arith, Bool-cases, inl, inr,
}
use playground_azure_user_sy.Many2OneSimple.{
  SimpleField, Effect, formview_action, FieldValue, WebClient, on_click, readonly_link,
}

-- The actions that open what a link names.
abbrev link_actions : Option ℕ → List Effect
link_actions none = []
link_actions (some res_id) = formview_action (some res_id) ∷ []

-- For every field: with a value, a click in readonly mode opens exactly what the link of the field
-- names; with no value the field has no link, and yet a click asks for an action, of no record,
-- unless opening is turned off. In edit mode a click opens nothing.
on_click-link :
    (w : WebClient) (f : SimpleField) (v : FieldValue)
    → (on_click w (record f { value = some v }) true
        ≡ link_actions (readonly_link (record f { value = some v })))
      × (readonly_link (record f { value = none }) ≡ none)
      × (f.config.no_open ≡ false
          → on_click w (record f { value = none }) true ≡ formview_action none ∷ [])
      × (on_click w f false ≡ [])
unfolding on_click readonly_link
on_click-link w f v = elim (Bool-cases f.config.no_open) [
  | inl h ↦ (ground arith, refl, λ e. ground arith, refl)
  | inr h ↦ (ground arith, refl, λ e. ground arith, refl)
]
