-- ===== src/Reasons/Tests.antt =====
-- A run of the sorting of reasons.
use stocks.Base.{List, [], ◌∷◌, String}

abbrev sample : List String
sample = "session_closed" ∷ "permission_missing" ∷ "session_closed" ∷ []
