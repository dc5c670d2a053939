-- ===== src/TimelineModel/Examples.antt =====
-- The theorems about loading at two domains, numbers here, and events that name their domain.
use playground_azure_user_sy.Prelude.{ℕ, true, Option, none, some, List, [], ◌∷◌, ◌≡◌, refl}
use playground_azure_user_sy.TimelineModel.{
  Rights, Model, load, preloaded, answered, ModelEvent, loaded, rights_known, answer, model_event,
  model_run,
}
use playground_azure_user_sy.TimelineModel.Loading.{model_run-reads, model_run-stale}

abbrev all_rights : Rights
all_rights = record { write = true; unlink = true; create = true }

abbrev events_of : ℕ → ℕ
events_of domain = domain

-- The second load comes before the rights are known, the third after.
abbrev session : List (ModelEvent ℕ ℕ)
session =
    loaded 1 ∷ loaded 2 ∷ rights_known all_rights ∷ answer 0 ∷ loaded 3 ∷ answer 0 ∷ answer 0 ∷ []

model_run-reads_example :
    (◌≡◌ {A = Option ℕ} (some 3) (some (events_of 3)))
    × (◌≡◌ {A = Option Rights} (some all_rights) (some all_rights))
unfolding model_run model_event load preloaded answered
model_run-reads_example =
    model_run-reads ℕ ℕ events_of session all_rights
      (record { domain = 3; events = some 3; rights = some all_rights }) refl refl refl refl

abbrev idle : Model ℕ ℕ
idle = record {
  access_requests = 1;
  rights = some all_rights;
  current = none;
  waiting = 0;
  requests = [];
}

model_run-stale_example :
    let n = model_run ℕ ℕ events_of idle (loaded 1 ∷ loaded 2 ∷ answer 1 ∷ answer 0 ∷ []) in
    (n.current ≡ some (record { domain = 2; events = some 1; rights = some all_rights }))
    × (n.requests ≡ [])
model_run-stale_example = model_run-stale ℕ ℕ events_of idle all_rights 1 2 refl refl
