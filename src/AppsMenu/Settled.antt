-- ===== src/AppsMenu/Settled.antt =====
-- The search once all its delays have ended.
use playground_azure_user_sy.Prelude.{
  ℕ, zero, suc, String, ◌≡◌, refl, ap, ap₂, ◌∙◌, List, [], ◌∷◌, replicate, if◌then◌else◌, ◌==◌,
  String_eq, arith,
}
use playground_azure_user_sy.AppsMenu.{
  MenuSearch, search_menus, search_menus_schedule, text_changed, timeout, menu_search_event,
  menu_search_run,
}
use playground_azure_user_sy.AppsMenu.Results.{IsShown, at_timeout, menu_search_run-IsShown}

module _ (fuzzy_filter : String → List String → List String) where
  -- What a search leaves alone.
  search_menus-keeps :
      (s : MenuSearch)
      → ((search_menus fuzzy_filter s).scheduled ≡ s.scheduled)
        × ((search_menus fuzzy_filter s).input ≡ s.input)
        × ((search_menus fuzzy_filter s).keys ≡ s.keys)
  unfolding search_menus
  search_menus-keeps s = ground arith

  event-timeout :
      (s : MenuSearch) (n : ℕ)
      → s.scheduled ≡ suc n
      → menu_search_event fuzzy_filter s timeout
        ≡ search_menus fuzzy_filter (record s { scheduled = n })
  unfolding menu_search_event
  event-timeout s n h = ap (at_timeout fuzzy_filter s) h

  -- All `n` scheduled searches run.
  run_timeouts :
      (n : ℕ) (s : MenuSearch)
      → s.scheduled ≡ n
      → let t = menu_search_run fuzzy_filter s (replicate n timeout) in
        (t.scheduled ≡ 0) × (t.input ≡ s.input) × (t.keys ≡ s.keys)
  unfolding menu_search_run
  run_timeouts zero s h = (h, refl, refl)
  run_timeouts (suc n) s h =
      let now = search_menus fuzzy_filter (record s { scheduled = n }) in
      let (a, b, c) = search_menus-keeps (record s { scheduled = n }) in
      let (d, e, f) = run_timeouts n now a in
      let step =
        ap (λ t. menu_search_run fuzzy_filter t (replicate n timeout)) (event-timeout s n h) in
      (
        ap (λ t. t.scheduled) step ∙ d,
        ap (λ t. t.input) step ∙ (e ∙ b),
        ap (λ t. t.keys) step ∙ (f ∙ c),
      )

  -- For every search, whatever is scheduled: once the user has typed a text and all the delays have
  -- ended, no search is scheduled, and the results are those for the text, none if it is empty.
  pub text_changed-settles :
      (s : MenuSearch) (text : String)
      → IsShown fuzzy_filter s
      → let t =
          menu_search_run fuzzy_filter s
            (text_changed text ∷ replicate (suc s.scheduled) timeout) in
        (t.scheduled ≡ 0) × (t.results ≡ (if text == "" then [] else fuzzy_filter text s.keys))
  unfolding menu_search_run menu_search_event search_menus_schedule
  text_changed-settles s text v =
      let events = text_changed text ∷ replicate (suc s.scheduled) timeout in
      let (d, e, f) = run_timeouts (suc s.scheduled) (search_menus_schedule s text) refl in
      (
        d,
        (menu_search_run-IsShown fuzzy_filter s events v).current d
            ∙ ap₂ (λ i k. if i == "" then [] else fuzzy_filter i k) e f,
      )
