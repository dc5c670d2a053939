-- ===== src/ContextWarning/Examples.antt =====
-- The theorems about the banner at two tabs, of which one switches the user.
use playground_azure_user_sy.Prelude.{true, false, List, [], ◌∷◌}
use playground_azure_user_sy.ContextWarning.{Session, Tab, WarningEvent, connect, message, delivery}

-- The users 2 and 7 of the database "z".
abbrev user_2 : Session
user_2 = record { uid = 50 ∷ []; db = 122 ∷ [] }

abbrev user_7 : Session
user_7 = record { uid = 55 ∷ []; db = 122 ∷ [] }

abbrev switch : List WarningEvent
switch = connect user_2 ∷ message 0 ∷ connect user_7 ∷ message 1 ∷ delivery 0 ∷ delivery 1 ∷ []

abbrev warned : Tab
warned = record { session = user_2; pending = false; messages = []; shown = true }
