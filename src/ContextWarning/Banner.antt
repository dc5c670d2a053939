-- ===== src/ContextWarning/Banner.antt =====
-- When the banner of a tab is shown.
use playground_azure_user_sy.Prelude.{Bool, true, false, Option, none, some, [], ◌∷◌, ℕ_eq, ◌≡◌}
use playground_azure_user_sy.ContextWarning.{Text, Worker}
use playground_azure_user_sy.ContextWarning.Tabs.{AllRight}

abbrev not_blank : Option Text → Bool
not_blank none = true
not_blank (some []) = false
not_blank (some (c ∷ s)) = true

record IsSound (w : Worker) : Type 0 where
  tabs : AllRight w.last_ctx w.con
  ctx : not_blank w.last_ctx ≡ true
