-- ===== src/History/Parsers.antt =====
-- The loops over the event logs: bridge-history-api/internal/logic/{l1,l2}_event_parser.go.
use scroll.Common.{
  ℕ, not, none, some, List, [], ◌∷◌, ◌++◌, map, leb, ◌==◌, if◌then◌else◌, length, take, drop,
  get_uint, Outcome, ok, err, ◌>>=◌,
}
use scroll.History.{
  CrossMessage, MessageQueueEvent, BatchEvent, tx_relayed, tx_failed_relayed, TxStatusType,
  batch_committed, batch_reverted, batch_finalized, BatchStatusType, unupdated, queue_transaction,
  dequeue_transaction, drop_transaction,
}
use scroll.History.Parsing.{
  Topic, Log, SentEvent, ParseError, TxLookup, Decoder, unpacked, set_transfer, on_last, Parsed,
  get_skipped_queue_indices, has, get_batch_range_from_calldata, l1_sent, l2_sent, relayed_on_l1,
  relayed_on_l2, eth_moved, erc20_moved, erc721_moved, batch_erc721_moved, erc1155_moved,
  batch_erc1155_moved, message_sent, message_relayed, message_failed_relayed, commit_batch,
  revert_batch, finalize_batch, queue_message, dequeue_messages, drop_message, rpc_failed,
  lookup_failed, lookup_pending, lookup_found,
}

module _ (d : Decoder) where
  -- The end of getRealFromAddress, for a message that is too short to hold an address.
  unfoldable pub legacy_from : TxLookup → Outcome ParseError ℕ
  legacy_from lookup_failed = err rpc_failed
  legacy_from lookup_pending = ok 0
  legacy_from (lookup_found tx) = elim tx.tx_to [
    | none ↦ elim tx.signer [ none ↦ err rpc_failed | some a ↦ ok a ]
    | some to ↦
        if not (d.is_gateway_router_text to)
        then ok to
        else elim tx.signer [ none ↦ err rpc_failed | some a ↦ ok a ]
  ]

  -- getRealFromAddress
  unfoldable pub get_real_from_address : Log → SentEvent → Outcome ParseError ℕ
  unfolding legacy_from
  get_real_from_address log event =
      if not (event.event_sender == d.gateway_router_addr)
      then ok event.event_sender
      else if leb 32 (length event.message)
      then ok (get_uint (take 20 (drop 12 event.message)))
      else legacy_from (d.transaction_by_hash log.log_tx_hash)

  module _ (timestamp : ℕ → ℕ) (sent_of : Log → SentEvent → ℕ → ℕ → ℕ → CrossMessage)
      (relayed_of : TxStatusType → Log → ℕ → CrossMessage) where
    abbrev pub put_sent : Log → Parsed → SentEvent → Outcome ParseError Parsed
    put_sent log (sent, relayed) event = get_real_from_address log event >>= λ from. ok (
      sent
          ++ sent_of log event from (timestamp log.block_number) (d.compute_message_hash event)
            ∷ [],
      relayed,
    )

    abbrev pub put_relayed : TxStatusType → Log → Parsed → Outcome ParseError Parsed
    put_relayed status log (sent, relayed) = unpacked (d.unpack_hash log) >>= λ hash.
        ok (sent, relayed ++ relayed_of status log hash ∷ [])

    abbrev pub put_moved : Topic → Log → Parsed → Outcome ParseError Parsed
    put_moved topic log (sent, relayed) = unpacked (d.unpack_token log) >>= λ e.
        on_last (λ m. record m { transfer = set_transfer topic e m.transfer }) sent >>= λ changed.
        ok (changed, relayed)

    -- A body of the loop over the cross-chain events.
    unfoldable pub parse_message_log : Topic → Log → Parsed → Outcome ParseError Parsed
    unfolding get_real_from_address on_last set_transfer
    parse_message_log eth_moved log parsed = put_moved eth_moved log parsed
    parse_message_log erc20_moved log parsed = put_moved erc20_moved log parsed
    parse_message_log erc721_moved log parsed = put_moved erc721_moved log parsed
    parse_message_log batch_erc721_moved log parsed = put_moved batch_erc721_moved log parsed
    parse_message_log erc1155_moved log parsed = put_moved erc1155_moved log parsed
    parse_message_log batch_erc1155_moved log parsed = put_moved batch_erc1155_moved log parsed
    parse_message_log message_sent log parsed = unpacked (d.unpack_sent log) >>= put_sent log parsed
    parse_message_log message_relayed log parsed = put_relayed tx_relayed log parsed
    parse_message_log message_failed_relayed log parsed = put_relayed tx_failed_relayed log parsed
    parse_message_log _ log parsed = ok parsed

    unfoldable pub parse_message_logs : List Log → Parsed → Outcome ParseError Parsed
    unfolding parse_message_log
    parse_message_logs [] parsed = ok parsed
    parse_message_logs (log ∷ logs) parsed =
        parse_message_log log.topic log parsed >>= parse_message_logs logs

  -- ParseL1CrossChainEventLogs
  unfoldable pub parse_l1_cross_chain_event_logs : (ℕ → ℕ) → List Log → Outcome ParseError Parsed
  unfolding parse_message_logs
  parse_l1_cross_chain_event_logs timestamp logs =
      parse_message_logs timestamp l1_sent relayed_on_l1 logs ([], [])

  -- ParseL2EventLogs
  unfoldable pub parse_l2_event_logs : (ℕ → ℕ) → List Log → Outcome ParseError Parsed
  unfolding parse_message_logs
  parse_l2_event_logs timestamp logs =
      parse_message_logs timestamp l2_sent relayed_on_l2 logs ([], [])

  abbrev pub batch_event : BatchStatusType → ℕ → ℕ → Log → ℕ × ℕ → BatchEvent
  batch_event status start end log (index, hash) = record {
    l1_block_number = log.block_number;
    batch_status = status;
    batch_index = index;
    batch_hash = hash;
    start_block_number = start;
    end_block_number = end;
    update_status = unupdated;
  }

  -- ParseL1BatchEventLogs, with the events so far. A commit whose transaction is pending ends the
  -- parsing with no events and no error.
  unfoldable pub parse_batch_logs :
      List BatchEvent → List Log → Outcome ParseError (List BatchEvent)
  unfolding get_batch_range_from_calldata
  parse_batch_logs events [] = ok events
  parse_batch_logs events (log ∷ logs) = elim log.topic [
    | commit_batch ↦ unpacked (d.unpack_batch log) >>= λ batch.
        elim (d.transaction_by_hash log.log_tx_hash) [
          | lookup_failed ↦ err rpc_failed
          | lookup_pending ↦ ok []
          | lookup_found tx ↦ get_batch_range_from_calldata d tx.calldata >>= λ range.
              parse_batch_logs
                (events ++ batch_event batch_committed range.0 range.1 log batch ∷ []) logs
        ]
    | revert_batch ↦ unpacked (d.unpack_batch log) >>= λ batch.
        parse_batch_logs (events ++ batch_event batch_reverted 0 0 log batch ∷ []) logs
    | finalize_batch ↦ unpacked (d.unpack_batch log) >>= λ batch.
        parse_batch_logs (events ++ batch_event batch_finalized 0 0 log batch ∷ []) logs
    | _ ↦ parse_batch_logs events logs
  ]

  unfoldable pub parse_l1_batch_event_logs : List Log → Outcome ParseError (List BatchEvent)
  unfolding parse_batch_logs
  parse_l1_batch_event_logs = parse_batch_logs []

  abbrev pub queued : Log → ℕ × ℕ → MessageQueueEvent
  queued log (index, hash) = record {
    event_type = queue_transaction;
    queue_index = index;
    tx_hash = log.log_tx_hash;
    message_hash = hash;
  }

  abbrev pub dequeued : ℕ → MessageQueueEvent
  dequeued index = record {
    event_type = dequeue_transaction;
    queue_index = index;
    tx_hash = 0;
    message_hash = 0;
  }

  abbrev pub dropped : Log → ℕ → MessageQueueEvent
  dropped log index = record {
    event_type = drop_transaction;
    queue_index = index;
    tx_hash = log.log_tx_hash;
    message_hash = 0;
  }

  -- What one log of the queue adds: a deposit of these logs is no replay.
  unfoldable pub queue_events : List ℕ → Log → Outcome ParseError (List MessageQueueEvent)
  unfolding get_skipped_queue_indices
  queue_events hashes log = elim log.topic [
    | queue_message ↦ unpacked (d.unpack_queued log) >>= λ e.
        ok (if has e.1 hashes then [] else queued log e ∷ [])
    | dequeue_messages ↦ unpacked (d.unpack_dequeued log) >>= λ e.
        ok (map dequeued (get_skipped_queue_indices e.start_index e.skipped_bitmap))
    | drop_message ↦ unpacked (d.unpack_dropped log) >>= λ index. ok (dropped log index ∷ [])
    | _ ↦ ok []
  ]

  unfoldable pub parse_queue_logs : List ℕ → List Log → Outcome ParseError (List MessageQueueEvent)
  unfolding queue_events
  parse_queue_logs hashes [] = ok []
  parse_queue_logs hashes (log ∷ logs) = queue_events hashes log >>= λ events.
      parse_queue_logs hashes logs >>= λ rest. ok (events ++ rest)

  -- ParseL1MessageQueueEventLogs
  unfoldable pub parse_l1_message_queue_event_logs :
      List Log → List CrossMessage → Outcome ParseError (List MessageQueueEvent)
  unfolding parse_queue_logs
  parse_l1_message_queue_event_logs logs deposits =
      parse_queue_logs (map (λ m. m.message_hash) deposits) logs
