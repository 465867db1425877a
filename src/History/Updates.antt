-- ===== src/History/Updates.antt =====
-- The queries and the updates of cross messages: bridge-history-api/internal/orm/cross_message.go.
use scroll.Common.{
  ℕ, Bool, true, false, not, ◌&&◌, ◌||◌, Option, none, some, List, [], ◌∷◌, ltb, leb, ◌==◌,
  if◌then◌else◌, select, update_where, Outcome, ok, err,
}
use scroll.Relayer.Tables.{order_by}
use scroll.History.{
  MessageType, message_unknown, l1_sent_message, l2_sent_message, CrossMessage, MessageQueueEvent,
  MessageQueueEventType, queue_unknown, queue_transaction, dequeue_transaction, drop_transaction,
  tx_skipped, tx_dropped, RollupStatusType, rollup_is_finalized, TxStatusType, HistoryError,
  database, missing_where_clause, invalid_message_type, is_l1_sent, is_l2_sent, is_sent_tx_reverted,
  Db, Statement, write_messages, Run, each, and_then,
}
use scroll.History.Messages.{with_hash, is_open}

-- ORDER BY key DESC LIMIT 1, with the best row so far
unfoldable pub greatest_from {ℓ} : {A : Type ℓ} → (A → ℕ) → A → List A → A
greatest_from key best [] = best
greatest_from key best (r ∷ rows) =
    greatest_from key (if ltb (key best) (key r) then r else best) rows

unfoldable pub greatest {ℓ} : {A : Type ℓ} → (A → ℕ) → List A → Option A
unfolding greatest_from
greatest key [] = none
greatest key (r ∷ rows) = some (greatest_from key r rows)

abbrev pub height_or_zero {ℓ} : {A : Type ℓ} → (A → ℕ) → Option A → ℕ
height_or_zero key none = 0
height_or_zero key (some r) = key r

-- GetMessageSyncedHeightInDB
unfoldable pub get_message_synced_height_in_db :
    MessageType → List CrossMessage → Outcome HistoryError ℕ
unfolding greatest
get_message_synced_height_in_db l1_sent_message rows = ok (
    height_or_zero (λ m. m.l1_block_number)
      (greatest (λ m. m.l1_block_number) (select (λ m. is_l1_sent m.message_type) rows)))
get_message_synced_height_in_db l2_sent_message rows = ok (
    height_or_zero (λ m. m.l2_block_number)
      (greatest (λ m. m.l2_block_number) (select (λ m. is_l2_sent m.message_type) rows)))
get_message_synced_height_in_db message_unknown rows =
    elim (select (λ m. not (is_l1_sent m.message_type || is_l2_sent m.message_type)) rows) [
      | [] ↦ ok 0
      | m ∷ ms ↦ err invalid_message_type
    ]

-- GetL2LatestFinalizedWithdrawal
abbrev pub is_finalized_status : RollupStatusType → Bool
is_finalized_status s = elim s [ rollup_is_finalized ↦ true | _ ↦ false ]

unfoldable pub get_l2_latest_finalized_withdrawal : List CrossMessage → Option CrossMessage
unfolding greatest
get_l2_latest_finalized_withdrawal rows =
    greatest (λ m. m.message_nonce)
      (select (λ m. is_l2_sent m.message_type && is_finalized_status m.rollup_status) rows)

-- GetL2WithdrawalsByBlockRange
abbrev pub is_withdrawal_in : ℕ → ℕ → CrossMessage → Bool
is_withdrawal_in start_block end_block m =
    leb start_block m.l2_block_number
    && leb m.l2_block_number end_block
    && not (is_sent_tx_reverted m.tx_status)
    && is_l2_sent m.message_type

unfoldable pub get_l2_withdrawals_by_block_range : ℕ → ℕ → List CrossMessage → List CrossMessage
unfolding order_by
get_l2_withdrawals_by_block_range start_block end_block rows =
    order_by (λ m. m.message_nonce) (select (is_withdrawal_in start_block end_block) rows)

-- The tests and the changes of UpdateL1MessageQueueEventsInfo.
abbrev pub is_open_deposit : ℕ → CrossMessage → Bool
is_open_deposit nonce m = is_open m && (m.message_nonce == nonce) && is_l1_sent m.message_type

abbrev pub is_deposit : ℕ → CrossMessage → Bool
is_deposit nonce m = (m.message_nonce == nonce) && is_l1_sent m.message_type

abbrev pub set_status : TxStatusType → CrossMessage → CrossMessage
set_status s m = record m { tx_status = s }

abbrev pub set_replay : ℕ → CrossMessage → CrossMessage
set_replay h m = record m { l1_replay_tx_hash = h }

abbrev pub set_refund : ℕ → CrossMessage → CrossMessage
set_refund h m = record m { l1_refund_tx_hash = h }

-- The columns of UpdateBatchIndexRollupStatusMerkleProofOfL2Messages.
abbrev pub set_merkle_proof : CrossMessage → CrossMessage → CrossMessage
set_merkle_proof m r = record r {
  batch_index = m.batch_index;
  rollup_status = m.rollup_status;
  merkle_proof = m.merkle_proof;
}

module _ (fails : Statement → Db → Bool) where
  -- A statement that changes the messages.
  abbrev pub on_messages : (List CrossMessage → List CrossMessage) → Db → Run
  on_messages change db =
      if fails write_messages db
      then (db, some database)
      else (record db { messages = change db.messages }, none)

  -- A body of the first loop of UpdateL1MessageQueueEventsInfo. An update with no condition and no
  -- column is an error of gorm.
  unfoldable pub update_tx_status_of : MessageQueueEventType → MessageQueueEvent → Db → Run
  unfolding update_where
  update_tx_status_of queue_transaction event db = (db, none)
  update_tx_status_of dequeue_transaction event db =
      on_messages (update_where (is_open_deposit event.queue_index) (set_status tx_skipped)) db
  update_tx_status_of drop_transaction event db =
      on_messages (update_where (is_open_deposit event.queue_index) (set_status tx_dropped)) db
  update_tx_status_of queue_unknown event db = (db, some missing_where_clause)

  abbrev pub update_tx_status : MessageQueueEvent → Db → Run
  update_tx_status event = update_tx_status_of event.event_type event

  -- A body of its second loop.
  unfoldable pub update_tx_hashes_of : MessageQueueEventType → MessageQueueEvent → Db → Run
  unfolding update_where
  update_tx_hashes_of dequeue_transaction event db = (db, none)
  update_tx_hashes_of queue_transaction event db =
      on_messages (update_where (with_hash event.message_hash) (set_replay event.tx_hash)) db
  update_tx_hashes_of drop_transaction event db =
      on_messages (update_where (is_deposit event.queue_index) (set_refund event.tx_hash)) db
  update_tx_hashes_of queue_unknown event db = (db, some missing_where_clause)

  abbrev pub update_tx_hashes : MessageQueueEvent → Db → Run
  update_tx_hashes event = update_tx_hashes_of event.event_type event

  -- UpdateL1MessageQueueEventsInfo
  unfoldable pub update_l1_message_queue_events_info : List MessageQueueEvent → Db → Run
  unfolding each update_tx_status_of update_tx_hashes_of
  update_l1_message_queue_events_info events db =
      and_then (each update_tx_status events db) (each update_tx_hashes events)

  -- UpdateBatchIndexRollupStatusMerkleProofOfL2Messages
  unfoldable pub update_proof_of_l2_message : CrossMessage → Db → Run
  unfolding update_where
  update_proof_of_l2_message m =
      on_messages (update_where (with_hash m.message_hash) (set_merkle_proof m))

  unfoldable pub update_batch_index_rollup_status_merkle_proof_of_l2_messages :
      List CrossMessage → Db → Run
  unfolding each update_proof_of_l2_message
  update_batch_index_rollup_status_merkle_proof_of_l2_messages = each update_proof_of_l2_message
