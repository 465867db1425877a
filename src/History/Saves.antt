-- ===== src/History/Saves.antt =====
-- How fetched events are saved: bridge-history-api/internal/logic/event_update.go. The calls stop at
-- the first error, and what was written before stays.
use scroll.Common.{
  ℕ, Bool, Option, none, some, List, [], ◌∷◌, map, ◌==◌, if◌then◌else◌, Outcome, ok, err,
}
use scroll.WithdrawTrie.{Trie, new_withdraw_trie, initialize, append_messages}
use scroll.History.{
  CrossMessage, MessageQueueEvent, BatchEvent, Db, Statement, select_messages, write_messages,
  select_batch_events, HistoryError, database, nonce_mismatch, panic, Run, and_then, each,
  l1_sent_message, l2_sent_message, rollup_is_finalized,
}
use scroll.History.Messages.{
  insert_or_update_l1_messages, insert_or_update_l2_messages, insert_failed_l1_gateway_txs,
  insert_failed_l2_gateway_txs, insert_or_update_l2_relayed_messages_of_l1_deposits,
  insert_or_update_l1_relayed_messages_of_l2_withdrawals,
}
use scroll.History.Updates.{
  get_l2_withdrawals_by_block_range, get_l2_latest_finalized_withdrawal,
  get_message_synced_height_in_db, update_l1_message_queue_events_info,
  update_batch_index_rollup_status_merkle_proof_of_l2_messages, on_messages,
}
use scroll.History.Events.{
  insert_or_update_batch_events, get_finalized_batches_le_block_height, update_batch_event_status,
  get_batch_event_synced_height_in_db,
}

-- L1FilterResult
pub record L1FilterResult : Type 0 where
  pub deposit_messages : List CrossMessage
  pub relayed_messages : List CrossMessage
  pub batch_events : List BatchEvent
  pub message_queue_events : List MessageQueueEvent
  pub reverted_txs : List CrossMessage

-- L2FilterResult
pub record L2FilterResult : Type 0 where
  pub withdraw_messages : List CrossMessage
  pub relayed_messages : List CrossMessage
  pub other_reverted_txs : List CrossMessage

-- The messages with the proofs of their places and the batch.
unfoldable pub with_proofs : ℕ → List CrossMessage → List (List ℕ) → Option (List CrossMessage)
with_proofs index [] proofs = some []
with_proofs index (m ∷ ms) [] = none
with_proofs index (m ∷ ms) (p ∷ proofs) = elim (with_proofs index ms proofs) [
  | none ↦ none
  | some rest ↦ some (
      record m { merkle_proof = p; rollup_status = rollup_is_finalized; batch_index = index }
      ∷ rest)
]

abbrev pub hash_of_message : CrossMessage → ℕ
hash_of_message m = m.message_hash

-- What InsertOrUpdateL1Messages and its likes leave of the table.
abbrev pub created : Db → Outcome HistoryError (List CrossMessage) → Run
created db (err e) = (db, some e)
created db (ok rows) = (record db { messages = rows }, none)

-- The calls that do nothing for an empty list.
abbrev pub unless_empty : List CrossMessage → (Db → Run) → Db → Run
unless_empty [] run db = (db, none)
unless_empty (m ∷ ms) run db = run db

module _ (fails : Statement → Db → Bool) where
  abbrev pub creating :
      (List CrossMessage → List CrossMessage → Outcome HistoryError (List CrossMessage))
      → List CrossMessage
      → Db
      → Run
  creating change ms = unless_empty ms (λ db.
      if fails write_messages db then (db, some database) else created db (change ms db.messages))

  abbrev pub inserting :
      (List CrossMessage → List CrossMessage → List CrossMessage) → List CrossMessage → Db → Run
  inserting change ms = unless_empty ms (on_messages fails (change ms))

  -- GetL1SyncHeight
  unfoldable pub get_l1_sync_height : Db → Outcome HistoryError (ℕ × ℕ)
  unfolding get_message_synced_height_in_db get_batch_event_synced_height_in_db
  get_l1_sync_height db =
      if fails select_messages db
      then err database
      else elim (get_message_synced_height_in_db l1_sent_message db.messages) [
        | err e ↦ err e
        | ok height ↦
            if fails select_batch_events db
            then err database
            else ok (height, get_batch_event_synced_height_in_db db.batch_events)
      ]

  -- GetL2MessageSyncedHeightInDB
  unfoldable pub get_l2_message_synced_height_in_db : Db → Outcome HistoryError ℕ
  unfolding get_message_synced_height_in_db
  get_l2_message_synced_height_in_db db =
      if fails select_messages db
      then err database
      else get_message_synced_height_in_db l2_sent_message db.messages

  -- L1InsertOrUpdate
  unfoldable pub l1_insert_or_update : L1FilterResult → Db → Run
  unfolding insert_or_update_l1_messages insert_or_update_l1_relayed_messages_of_l2_withdrawals
      insert_or_update_batch_events update_l1_message_queue_events_info insert_failed_l1_gateway_txs
  l1_insert_or_update result db =
      and_then (creating insert_or_update_l1_messages result.deposit_messages db) (λ db1.
        and_then
          (creating insert_or_update_l1_relayed_messages_of_l2_withdrawals result.relayed_messages
            db1)
          (λ db2. and_then (insert_or_update_batch_events fails result.batch_events db2) (λ db3.
            and_then (update_l1_message_queue_events_info fails result.message_queue_events db3)
              (inserting insert_failed_l1_gateway_txs result.reverted_txs))))

  -- L2InsertOrUpdate
  unfoldable pub l2_insert_or_update : L2FilterResult → Db → Run
  unfolding insert_or_update_l2_messages insert_or_update_l2_relayed_messages_of_l1_deposits
      insert_failed_l2_gateway_txs
  l2_insert_or_update result db =
      and_then (creating insert_or_update_l2_messages result.withdraw_messages db) (λ db1.
        and_then
          (creating insert_or_update_l2_relayed_messages_of_l1_deposits result.relayed_messages db1)
          (inserting insert_failed_l2_gateway_txs result.other_reverted_txs))

  module _ (keccak2 : ℕ → ℕ → ℕ) where
    -- NewWithdrawTrie, and Initialize when there is a last message.
    unfoldable pub restored : Option CrossMessage → Option Trie
    unfolding initialize
    restored none = some new_withdraw_trie
    restored (some m) = initialize keccak2 m.message_nonce m.message_hash m.merkle_proof

    abbrev pub store_proofs : Option (List CrossMessage) → Db → Run
    store_proofs none db = (db, some panic)
    store_proofs (some ms) db =
        update_batch_index_rollup_status_merkle_proof_of_l2_messages fails ms db

    abbrev pub prove_batch : ℕ → List CrossMessage → Option (List (List ℕ) × Trie) → Db → Run
    prove_batch index ms none db = (db, some panic)
    prove_batch index ms (some (proofs, t)) db = store_proofs (with_proofs index ms proofs) db

    abbrev pub append_batch : ℕ → CrossMessage → List CrossMessage → Option Trie → Db → Run
    append_batch index m ms none db = (db, some panic)
    append_batch index m ms (some t) db =
        if t.next_message_nonce == m.message_nonce
        then prove_batch index (m ∷ ms) (append_messages keccak2 t (map hash_of_message (m ∷ ms)))
            db
        else (db, some nonce_mismatch)

    abbrev pub extend : ℕ → List CrossMessage → Db → Run
    extend index [] db = (db, none)
    extend index (m ∷ ms) db =
        append_batch index m ms (restored (get_l2_latest_finalized_withdrawal db.messages)) db

    -- updateL2WithdrawMessageInfos
    unfoldable pub update_l2_withdraw_message_infos : ℕ → ℕ → ℕ → Db → Run
    unfolding restored with_proofs append_messages get_l2_withdrawals_by_block_range
        get_l2_latest_finalized_withdrawal
        update_batch_index_rollup_status_merkle_proof_of_l2_messages
    update_l2_withdraw_message_infos index start_block end_block db =
        if fails select_messages db
        then (db, some database)
        else extend index (get_l2_withdrawals_by_block_range start_block end_block db.messages) db

    -- A body of the loop of UpdateL1BatchIndexAndStatus.
    unfoldable pub update_batch : BatchEvent → Db → Run
    unfolding update_l2_withdraw_message_infos update_batch_event_status
    update_batch b db =
        and_then
          (update_l2_withdraw_message_infos b.batch_index b.start_block_number b.end_block_number
            db)
          (update_batch_event_status fails b.batch_index)

    -- UpdateL1BatchIndexAndStatus
    unfoldable pub update_l1_batch_index_and_status : ℕ → Db → Run
    unfolding each update_batch get_finalized_batches_le_block_height
    update_l1_batch_index_and_status height db =
        if fails select_batch_events db
        then (db, some database)
        else each update_batch (get_finalized_batches_le_block_height height db.batch_events) db
