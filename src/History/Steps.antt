-- ===== src/History/Steps.antt =====
-- Histories of the tables: any sequence of the calls that save events, in any order, of which each
-- can fail at any statement: bridge-history-api/internal/logic/event_update.go.
use scroll.Common.{ℕ, Bool, List}
use scroll.History.{CrossMessage, Db, Statement}
use scroll.History.Saves.{
  L1FilterResult, L2FilterResult, l1_insert_or_update, l2_insert_or_update,
  update_l1_batch_index_and_status,
}
use scroll.History.Keeps.{IsStable}
use scroll.History.Stable.{
  l1_insert_or_update-Keeps, l2_insert_or_update-Keeps, update_l1_batch_index_and_status-Keeps,
}

module _ (fails : Statement → Db → Bool) (keccak2 : ℕ → ℕ → ℕ) where
  -- One call of the fetchers of the two layers.
  pub data Step (db : Db) : Db → Type 0 where
    l1_saved : (result : L1FilterResult) → Step db (l1_insert_or_update fails result db).0
    l2_saved : (result : L2FilterResult) → Step db (l2_insert_or_update fails result db).0
    batches_updated :
        (height : ℕ) → Step db (update_l1_batch_index_and_status fails keccak2 height db).0

  pub data Steps : Db → Db → Type 0 where
    stay : {db : Db} → Steps db db
    go : {a b c : Db} → Steps a b → Step b c → Steps a c

  Step-keeps :
      (P : List CrossMessage → Type 0)
      → IsStable P
      → (a b : Db) → Step a b
      → P a.messages
      → P b.messages
  Step-keeps P s a _ (l1_saved result) h = l1_insert_or_update-Keeps P fails s result a h
  Step-keeps P s a _ (l2_saved result) h = l2_insert_or_update-Keeps P fails s result a h
  Step-keeps P s a _ (batches_updated height) h =
      update_l1_batch_index_and_status-Keeps P fails s keccak2 height a h

  pub Steps-keep :
      (P : List CrossMessage → Type 0)
      → IsStable P
      → (a b : Db) → Steps a b
      → P a.messages
      → P b.messages
  Steps-keep P s a _ stay h = h
  Steps-keep P s _ _ (go {a} {b} {c} steps step) h =
      Step-keeps P s b c step (Steps-keep P s a b steps h)
