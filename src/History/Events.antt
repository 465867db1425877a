-- ===== src/History/Events.antt =====
-- The table of batch events: bridge-history-api/internal/orm/batch_event.go. A deleted row is gone,
-- since its DeletedAt is a plain time, which gorm does not take for a mark of deletion.
use scroll.Common.{
  ℕ, Bool, true, false, not, ◌&&◌, none, some, List, [], ◌∷◌, leb, ◌==◌, if◌then◌else◌, select,
  update_where,
}
use scroll.Relayer.Tables.{order_by}
use scroll.History.{
  BatchEvent, BatchStatusType, batch_unknown, batch_committed, batch_reverted, batch_finalized,
  unupdated, updated, Db, Statement, write_batch_events, Run, each, and_then, database,
}
use scroll.History.Updates.{greatest, height_or_zero}

-- GetBatchEventSyncedHeightInDB
unfoldable pub get_batch_event_synced_height_in_db : List BatchEvent → ℕ
unfolding greatest
get_batch_event_synced_height_in_db rows =
    height_or_zero (λ b. b.l1_block_number) (greatest (λ b. b.l1_block_number) rows)

-- GetFinalizedBatchesLEBlockHeight
abbrev pub is_finalized_event : BatchEvent → Bool
is_finalized_event b = elim b.batch_status [ batch_finalized ↦ true | _ ↦ false ]

abbrev pub is_unupdated : BatchEvent → Bool
is_unupdated b = elim b.update_status [ unupdated ↦ true | updated ↦ false ]

unfoldable pub get_finalized_batches_le_block_height : ℕ → List BatchEvent → List BatchEvent
unfolding order_by
get_finalized_batches_le_block_height height rows =
    order_by (λ b. b.batch_index)
      (select (λ b. leb b.end_block_number height && is_finalized_event b && is_unupdated b) rows)

-- INSERT ON CONFLICT (batch_hash) DO NOTHING
unfoldable pub insert_or_ignore : BatchEvent → List BatchEvent → List BatchEvent
insert_or_ignore event [] = event ∷ []
insert_or_ignore event (b ∷ rows) =
    let rest = insert_or_ignore event rows in
    if b.batch_hash == event.batch_hash then b ∷ rows else b ∷ rest

abbrev pub is_event_of : BatchEvent → BatchEvent → Bool
is_event_of event b = (b.batch_index == event.batch_index) && (b.batch_hash == event.batch_hash)

abbrev pub set_batch_status : BatchStatusType → BatchEvent → BatchEvent
set_batch_status s b = record b { batch_status = s }

abbrev pub set_updated : BatchEvent → BatchEvent
set_updated b = record b { update_status = updated }

module _ (fails : Statement → Db → Bool) where
  -- A statement that changes the batch events.
  abbrev pub on_events : (List BatchEvent → List BatchEvent) → Db → Run
  on_events change db =
      if fails write_batch_events db
      then (db, some database)
      else (record db { batch_events = change db.batch_events }, none)

  -- A body of the loop of InsertOrUpdateBatchEvents.
  unfoldable pub insert_or_update_batch_event_of : BatchStatusType → BatchEvent → Db → Run
  unfolding update_where insert_or_ignore
  insert_or_update_batch_event_of batch_committed event db = on_events (insert_or_ignore event) db
  insert_or_update_batch_event_of batch_finalized event db =
      on_events (update_where (is_event_of event) (set_batch_status batch_finalized)) db
  insert_or_update_batch_event_of batch_reverted event db =
      and_then (on_events (update_where (is_event_of event) (set_batch_status batch_reverted)) db)
        (on_events (select (λ b. not (is_event_of event b))))
  insert_or_update_batch_event_of batch_unknown event db = (db, none)

  abbrev pub insert_or_update_batch_event : BatchEvent → Db → Run
  insert_or_update_batch_event event = insert_or_update_batch_event_of event.batch_status event

  -- InsertOrUpdateBatchEvents
  unfoldable pub insert_or_update_batch_events : List BatchEvent → Db → Run
  unfolding each insert_or_update_batch_event_of
  insert_or_update_batch_events = each insert_or_update_batch_event

  -- UpdateBatchEventStatus
  unfoldable pub update_batch_event_status : ℕ → Db → Run
  unfolding update_where
  update_batch_event_status index =
      on_events (update_where (λ b. b.batch_index == index) set_updated)
