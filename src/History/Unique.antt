-- ===== src/History/Unique.antt =====
-- The hashes of the messages: bridge-history-api/internal/orm/cross_message.go and
-- bridge-history-api/internal/logic/event_update.go.
use scroll.Common.{List, [], ◌∷◌, All, ◌≢◌}
use scroll.History.{CrossMessage}

-- No two rows of a table have one hash.
abbrev pub IsUnique : List CrossMessage → Type 0
IsUnique [] = Unit
IsUnique (r ∷ rows) = All (λ c. c.message_hash ≢ r.message_hash) rows × IsUnique rows
