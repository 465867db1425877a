-- ===== src/History/Stable.antt =====
-- What every operation on the cross messages keeps: bridge-history-api/internal/orm/cross_message.go
-- and bridge-history-api/internal/logic/event_update.go.
use scroll.Common.{
  ℕ, ◌≡◌, refl, Bool, true, not, Option, none, some, List, [], ◌∷◌, if_both, update_where, map,
  arith, ◌==◌, select,
}
use scroll.WithdrawTrie.{Trie, append_messages}
use scroll.History.{
  CrossMessage, BatchEvent, MessageQueueEvent, MessageQueueEventType, BatchStatusType,
  batch_unknown, batch_committed, batch_reverted, batch_finalized, queue_unknown, queue_transaction,
  dequeue_transaction, drop_transaction, Db, Statement, select_messages, select_batch_events, Run,
  each, tx_skipped, tx_dropped,
}
use scroll.History.Messages.{
  set_l1_message, set_l2_message, set_l1_relayed, set_l2_relayed, is_open, merge_from,
  insert_or_update_l1_messages, insert_or_update_l2_messages, insert_failed_l1_gateway_txs,
  insert_failed_l2_gateway_txs, by_l1_tx_hash, by_l2_tx_hash, with_hash,
  insert_or_update_l2_relayed_messages_of_l1_deposits,
  insert_or_update_l1_relayed_messages_of_l2_withdrawals,
}
use scroll.History.Updates.{
  update_tx_status_of, update_tx_hashes_of, update_tx_status, update_tx_hashes,
  update_l1_message_queue_events_info, update_proof_of_l2_message,
  update_batch_index_rollup_status_merkle_proof_of_l2_messages, is_open_deposit, is_deposit,
  set_status, set_replay, set_refund, set_merkle_proof, get_l2_latest_finalized_withdrawal,
  get_l2_withdrawals_by_block_range,
}
use scroll.History.Events.{
  on_events, insert_or_update_batch_event_of, insert_or_update_batch_event,
  insert_or_update_batch_events, update_batch_event_status, insert_or_ignore, is_event_of,
  set_batch_status, set_updated, get_finalized_batches_le_block_height,
}
use scroll.History.Saves.{
  L1FilterResult, L2FilterResult, creating, l1_insert_or_update, l2_insert_or_update, store_proofs,
  prove_batch, append_batch, extend, with_proofs, hash_of_message, restored,
  update_l2_withdraw_message_infos, update_batch, update_l1_batch_index_and_status,
}
use scroll.History.Keeps.{
  Respects, IsStable, Keeps, Keeps-and_then, Keeps-each, Keeps-on_events, Keeps-creating,
  Keeps-inserting, Keeps-update,
}

module _ (P : List CrossMessage → Type 0) (fails : Statement → Db → Bool) (s : IsStable P) where
  Respects-open :
      (q : CrossMessage → Bool) (f : CrossMessage → CrossMessage)
      → ((r : CrossMessage) → q r ≡ true → is_open r ≡ true)
      → ((r : CrossMessage) → (f r).message_hash ≡ r.message_hash)
      → Respects q f
  Respects-open q f o same r e = (same r, λ t. absurd (let w = o r e in ground arith))

  update_tx_status-Keeps :
      (t : MessageQueueEventType) (event : MessageQueueEvent)
      → Keeps P (update_tx_status_of fails t event)
  unfolding update_tx_status_of
  update_tx_status-Keeps queue_transaction event db h = h
  update_tx_status-Keeps dequeue_transaction event db h =
      Keeps-update P fails s (is_open_deposit event.queue_index) (set_status tx_skipped)
        (Respects-open (is_open_deposit event.queue_index) (set_status tx_skipped)
          (λ r e. ground arith) (λ r. refl))
        db h
  update_tx_status-Keeps drop_transaction event db h =
      Keeps-update P fails s (is_open_deposit event.queue_index) (set_status tx_dropped)
        (Respects-open (is_open_deposit event.queue_index) (set_status tx_dropped)
          (λ r e. ground arith) (λ r. refl))
        db h
  update_tx_status-Keeps queue_unknown event db h = h

  update_tx_hashes-Keeps :
      (t : MessageQueueEventType) (event : MessageQueueEvent)
      → Keeps P (update_tx_hashes_of fails t event)
  unfolding update_tx_hashes_of
  update_tx_hashes-Keeps dequeue_transaction event db h = h
  update_tx_hashes-Keeps queue_transaction event db h =
      Keeps-update P fails s (with_hash event.message_hash) (set_replay event.tx_hash)
        (λ r e. (refl, λ t. refl)) db h
  update_tx_hashes-Keeps drop_transaction event db h =
      Keeps-update P fails s (is_deposit event.queue_index) (set_refund event.tx_hash)
        (λ r e. (refl, λ t. refl)) db h
  update_tx_hashes-Keeps queue_unknown event db h = h

  batch_event-Keeps :
      (t : BatchStatusType) (event : BatchEvent)
      → Keeps P (insert_or_update_batch_event_of fails t event)
  unfolding insert_or_update_batch_event_of
  batch_event-Keeps batch_unknown event db h = h
  batch_event-Keeps batch_committed event db h =
      Keeps-on_events P fails (insert_or_ignore event) db h
  batch_event-Keeps batch_finalized event db h =
      Keeps-on_events P fails (update_where (is_event_of event) (set_batch_status batch_finalized))
        db h
  batch_event-Keeps batch_reverted event db h =
      let change = update_where (is_event_of event) (set_batch_status batch_reverted) in
      let remove = select (λ b. not (is_event_of event b)) in
      Keeps-and_then P (on_events fails change db) (on_events fails remove)
        (Keeps-on_events P fails change db h) (Keeps-on_events P fails remove)

  -- A whole call of L1InsertOrUpdate.
  pub l1_insert_or_update-Keeps :
      (result : L1FilterResult) → Keeps P (l1_insert_or_update fails result)
  unfolding l1_insert_or_update insert_or_update_l1_messages
      insert_or_update_l1_relayed_messages_of_l2_withdrawals insert_or_update_batch_events
      update_l1_message_queue_events_info insert_failed_l1_gateway_txs
  l1_insert_or_update-Keeps result db h =
      Keeps-and_then P (creating fails insert_or_update_l1_messages result.deposit_messages db) _
        (Keeps-creating P fails s (λ r. true) set_l1_message (λ m r e. (refl, λ t. refl)) (λ ms. ms)
          result.deposit_messages db h)
        (λ db1 h1.
          Keeps-and_then P
            (creating fails insert_or_update_l1_relayed_messages_of_l2_withdrawals
              result.relayed_messages db1)
            _
            (Keeps-creating P fails s is_open set_l1_relayed
              (λ m. Respects-open is_open (set_l1_relayed m) (λ r e. e) (λ r. refl))
              (merge_from (λ m. m.l1_block_number) []) result.relayed_messages db1 h1)
            (λ db2 h2.
              Keeps-and_then P (insert_or_update_batch_events fails result.batch_events db2) _
                (Keeps-each P (insert_or_update_batch_event fails)
                  (λ event. batch_event-Keeps event.batch_status event) result.batch_events db2 h2)
                (λ db3 h3.
                  Keeps-and_then P
                    (update_l1_message_queue_events_info fails result.message_queue_events db3) _
                    (Keeps-and_then P
                      (each (update_tx_status fails) result.message_queue_events db3) _
                      (Keeps-each P (update_tx_status fails)
                        (λ event. update_tx_status-Keeps event.event_type event)
                        result.message_queue_events db3 h3)
                      (Keeps-each P (update_tx_hashes fails)
                        (λ event. update_tx_hashes-Keeps event.event_type event)
                        result.message_queue_events))
                    (Keeps-inserting P fails s by_l1_tx_hash result.reverted_txs))))

  -- A whole call of L2InsertOrUpdate.
  pub l2_insert_or_update-Keeps :
      (result : L2FilterResult) → Keeps P (l2_insert_or_update fails result)
  unfolding l2_insert_or_update insert_or_update_l2_messages
      insert_or_update_l2_relayed_messages_of_l1_deposits insert_failed_l2_gateway_txs
  l2_insert_or_update-Keeps result db h =
      Keeps-and_then P (creating fails insert_or_update_l2_messages result.withdraw_messages db) _
        (Keeps-creating P fails s (λ r. true) set_l2_message (λ m r e. (refl, λ t. refl)) (λ ms. ms)
          result.withdraw_messages db h)
        (λ db1 h1.
          Keeps-and_then P
            (creating fails insert_or_update_l2_relayed_messages_of_l1_deposits
              result.relayed_messages db1)
            _
            (Keeps-creating P fails s is_open set_l2_relayed
              (λ m. Respects-open is_open (set_l2_relayed m) (λ r e. e) (λ r. refl))
              (merge_from (λ m. m.l2_block_number) []) result.relayed_messages db1 h1)
            (Keeps-inserting P fails s by_l2_tx_hash result.other_reverted_txs))

  module _ (keccak2 : ℕ → ℕ → ℕ) where
    store-Keeps : (ms : Option (List CrossMessage)) → Keeps P (store_proofs fails keccak2 ms)
    unfolding update_batch_index_rollup_status_merkle_proof_of_l2_messages
        update_proof_of_l2_message
    store-Keeps none db h = h
    store-Keeps (some ms) db h =
        Keeps-each P (update_proof_of_l2_message fails)
          (λ m.
            Keeps-update P fails s (with_hash m.message_hash) (set_merkle_proof m)
              (λ r e. (refl, λ t. refl)))
          ms db h

    append-Keeps :
        (index : ℕ) (m : CrossMessage) (ms : List CrossMessage) (t : Option Trie)
        → Keeps P (append_batch fails keccak2 index m ms t)
    append-Keeps index m ms none db h = h
    append-Keeps index m ms (some t) db h =
        if_both (λ (r : Run). P r.0.messages) (t.next_message_nonce == m.message_nonce)
          (λ e. proved (append_messages keccak2 t (map hash_of_message (m ∷ ms)))) (λ e. h)
      where
        proved :
            (out : Option (List (List ℕ) × Trie))
            → P (prove_batch fails keccak2 index (m ∷ ms) out db).0.messages
        proved none = h
        proved (some (proofs, after)) = store-Keeps (with_proofs index (m ∷ ms) proofs) db h

    extend-Keeps : (index : ℕ) (ms : List CrossMessage) → Keeps P (extend fails keccak2 index ms)
    extend-Keeps index [] db h = h
    extend-Keeps index (m ∷ ms) db h =
        append-Keeps index m ms
          (restored fails keccak2 (get_l2_latest_finalized_withdrawal db.messages)) db h

    pub update_batch-Keeps : (b : BatchEvent) → Keeps P (update_batch fails keccak2 b)
    unfolding update_batch update_l2_withdraw_message_infos update_batch_event_status
    update_batch-Keeps b db h =
        Keeps-and_then P
          (update_l2_withdraw_message_infos fails keccak2 b.batch_index b.start_block_number
            b.end_block_number db)
          _
          (if_both (λ (r : Run). P r.0.messages) (fails select_messages db) (λ e. h)
            (λ e.
              extend-Keeps b.batch_index
                (get_l2_withdrawals_by_block_range b.start_block_number b.end_block_number
                  db.messages)
                db h))
          (Keeps-on_events P fails (update_where (λ c. c.batch_index == b.batch_index) set_updated))

    -- A whole call of UpdateL1BatchIndexAndStatus.
    pub update_l1_batch_index_and_status-Keeps :
        (height : ℕ) → Keeps P (update_l1_batch_index_and_status fails keccak2 height)
    unfolding update_l1_batch_index_and_status
    update_l1_batch_index_and_status-Keeps height db h =
        if_both (λ (r : Run). P r.0.messages) (fails select_batch_events db) (λ e. h)
          (λ e.
            Keeps-each P (update_batch fails keccak2) update_batch-Keeps
              (get_finalized_batches_le_block_height height db.batch_events) db h)
