-- ===== src/History/Ticks.antt =====
-- A tick of the fetcher of L1 comes to its end:
-- bridge-history-api/internal/controller/fetcher/l1_fetcher.go with L1InsertOrUpdate of
-- bridge-history-api/internal/logic/event_update.go.
use scroll.Common.{
  ℕ, ◌+◌, ◌-◌, ◌≤◌, ◌<◌, ◌≡◌, ◌≢◌, refl, update_where, select, not, Bool, true, false, none, some,
  List, [], ◌∷◌, All, ok, Outcome,
}
use scroll.History.{
  Db, Statement, Run, and_then, each, CrossMessage, MessageQueueEvent, BatchEvent, write_messages,
  write_batch_events, BatchStatusType, batch_committed, batch_finalized, batch_reverted,
  batch_unknown, MessageQueueEventType, queue_unknown, queue_transaction, dequeue_transaction,
  drop_transaction, HistoryError,
}
use scroll.History.Messages.{
  has_duplicates, create, insert_or_update_l1_messages, merge_from, is_open, set_l1_relayed,
  set_l1_message, upsert_all, insert_or_update_l1_relayed_messages_of_l2_withdrawals,
  insert_failed_l1_gateway_txs,
}
use scroll.History.Merging.{has_duplicates-IsUnique, IsUnique-merge_from}
use scroll.History.Updates.{
  on_messages, update_tx_status_of, update_tx_hashes_of, update_l1_message_queue_events_info,
}
use scroll.History.Events.{
  is_event_of, set_batch_status, on_events, insert_or_update_batch_event_of,
  insert_or_update_batch_events,
}
use scroll.History.Saves.{L1FilterResult, creating, inserting, l1_insert_or_update}
use scroll.History.Parsing.{Decoder}
use scroll.History.Fetching.{Node, fetched}
use scroll.History.Fetchers.{Config, FetcherState, l1_fetcher, l1_tick, get_block_number}
use scroll.History.Reorgs.{fetch_and_save_events-Reaches}

-- What a fetched result must be for L1InsertOrUpdate to save it: no two deposits have one hash, and
-- every queue event has a type.
pub record IsStorable (result : L1FilterResult) : Type 0 where
  pub apart : has_duplicates result.deposit_messages ≡ false
  pub typed : All (λ e. e.event_type ≢ queue_unknown) result.message_queue_events

and_then-none :
    (r : Run) (next : Db → Run)
    → r.1 ≡ none
    → ((db : Db) → (next db).1 ≡ none)
    → (and_then r next).1 ≡ none
and_then-none (db, none) next e n = n db
and_then-none (db, some why) next e n = absurd (cc)

each-none :
    {A : Type 0} (run : A → Db → Run) (P : A → Type 0)
    → ((a : A) (db : Db) → P a → (run a db).1 ≡ none)
    → (xs : List A) (db : Db) → All P xs
    → (each run xs db).1 ≡ none
unfolding each
each-none run P works [] db p = refl
each-none run P works (x ∷ xs) db p =
    and_then-none (run x db) (each run xs) (works x db p.0)
      (λ db'. each-none run P works xs db' p.1)

module _ (fails : Statement → Db → Bool)
    (working : (s : Statement) (db : Db) → fails s db ≡ false) where
  on_messages-none :
      (change : List CrossMessage → List CrossMessage) (db : Db)
      → (on_messages fails change db).1 ≡ none
  on_messages-none change db = rw (working write_messages db) refl

  on_events-none :
      (change : List BatchEvent → List BatchEvent) (db : Db) → (on_events fails change db).1 ≡ none
  on_events-none change db = rw (working write_batch_events db) refl

  creating-none :
      (change : List CrossMessage → List CrossMessage → Outcome HistoryError (List CrossMessage))
      (ms : List CrossMessage) (db : Db)
      → ((rows : List CrossMessage) → (rows' : List CrossMessage) × (change ms rows ≡ ok rows'))
      → (creating fails change ms db).1 ≡ none
  creating-none change [] db good = refl
  creating-none change (m ∷ ms) db good =
      let (rows, e) = good db.messages in rw (working write_messages db, e) refl

  inserting-none :
      (change : List CrossMessage → List CrossMessage → List CrossMessage) (ms : List CrossMessage)
      (db : Db)
      → (inserting fails change ms db).1 ≡ none
  inserting-none change [] db = refl
  inserting-none change (m ∷ ms) db = on_messages-none (change (m ∷ ms)) db

  batch_event-none :
      (s : BatchStatusType) (event : BatchEvent) (db : Db)
      → (insert_or_update_batch_event_of fails s event db).1 ≡ none
  unfolding insert_or_update_batch_event_of
  batch_event-none batch_committed event db = rw (working write_batch_events db) refl
  batch_event-none batch_finalized event db = rw (working write_batch_events db) refl
  batch_event-none batch_reverted event db =
      let reverting = update_where (is_event_of event) (set_batch_status batch_reverted) in
      let dropping = select (λ b. not (is_event_of event b)) in
      and_then-none (on_events fails reverting db) (on_events fails dropping)
        (on_events-none reverting db) (λ db'. on_events-none dropping db')
  batch_event-none batch_unknown event db = refl

  status-none :
      (t : MessageQueueEventType) (event : MessageQueueEvent) (db : Db)
      → t ≢ queue_unknown
      → (update_tx_status_of fails t event db).1 ≡ none
  unfolding update_tx_status_of
  status-none queue_transaction event db n = refl
  status-none dequeue_transaction event db n = rw (working write_messages db) refl
  status-none drop_transaction event db n = rw (working write_messages db) refl
  status-none queue_unknown event db n = absurd (n refl)

  hashes-none :
      (t : MessageQueueEventType) (event : MessageQueueEvent) (db : Db)
      → t ≢ queue_unknown
      → (update_tx_hashes_of fails t event db).1 ≡ none
  unfolding update_tx_hashes_of
  hashes-none queue_transaction event db n = rw (working write_messages db) refl
  hashes-none dequeue_transaction event db n = refl
  hashes-none drop_transaction event db n = rw (working write_messages db) refl
  hashes-none queue_unknown event db n = absurd (n refl)

  l1_messages-ok :
      (ms rows : List CrossMessage)
      → has_duplicates ms ≡ false
      → (rows' : List CrossMessage) × (insert_or_update_l1_messages ms rows ≡ ok rows')
  unfolding insert_or_update_l1_messages create
  l1_messages-ok ms rows e = (upsert_all (λ r. true) set_l1_message ms rows, rw e refl)

  l1_relayed-ok :
      (ms rows : List CrossMessage)
      → (rows' : List CrossMessage) × (insert_or_update_l1_relayed_messages_of_l2_withdrawals ms
            rows
          ≡ ok rows')
  unfolding insert_or_update_l1_relayed_messages_of_l2_withdrawals create
  l1_relayed-ok ms rows =
      let merged = merge_from (λ m. m.l1_block_number) [] ms in
      let apart =
        has_duplicates-IsUnique merged (IsUnique-merge_from (λ m. m.l1_block_number) [] ms tt) in
      (upsert_all is_open set_l1_relayed merged rows, rw apart refl)

  all-true : {A : Type 0} (xs : List A) → All {0, 0} (λ x. Unit) xs
  all-true [] = tt
  all-true (x ∷ xs) = (tt, all-true xs)

  batch_events-none :
      (events : List BatchEvent) (db : Db)
      → (insert_or_update_batch_events fails events db).1 ≡ none
  unfolding insert_or_update_batch_events
  batch_events-none events db =
      each-none (λ (b : BatchEvent). insert_or_update_batch_event_of fails b.batch_status b)
        (λ b. Unit) (λ b db' u. batch_event-none b.batch_status b db') events db (all-true events)

  queue_events-none :
      (events : List MessageQueueEvent) (db : Db)
      → All (λ e. e.event_type ≢ queue_unknown) events
      → (update_l1_message_queue_events_info fails events db).1 ≡ none
  unfolding update_l1_message_queue_events_info
  queue_events-none events db typed =
      and_then-none
        (each (λ (e : MessageQueueEvent). update_tx_status_of fails e.event_type e) events db)
        (each (λ (e : MessageQueueEvent). update_tx_hashes_of fails e.event_type e) events)
        (each-none (λ e. update_tx_status_of fails e.event_type e)
          (λ e. e.event_type ≢ queue_unknown) (λ e db' n. status-none e.event_type e db' n) events
          db typed)
        (λ db1.
          each-none (λ e. update_tx_hashes_of fails e.event_type e)
            (λ e. e.event_type ≢ queue_unknown) (λ e db' n. hashes-none e.event_type e db' n) events
            db1 typed)

  -- L1InsertOrUpdate saves a storable result into every table.
  l1_insert_or_update-none :
      (result : L1FilterResult) (db : Db)
      → IsStorable result
      → (l1_insert_or_update fails result db).1 ≡ none
  unfolding l1_insert_or_update
  l1_insert_or_update-none result db good =
      and_then-none (creating fails insert_or_update_l1_messages result.deposit_messages db) _
        (creating-none insert_or_update_l1_messages result.deposit_messages db
          (λ rows. l1_messages-ok result.deposit_messages rows good.apart))
        (λ db1.
          and_then-none
            (creating fails insert_or_update_l1_relayed_messages_of_l2_withdrawals
              result.relayed_messages db1)
            _
            (creating-none insert_or_update_l1_relayed_messages_of_l2_withdrawals
              result.relayed_messages db1 (l1_relayed-ok result.relayed_messages))
            (λ db2.
              and_then-none (insert_or_update_batch_events fails result.batch_events db2) _
                (batch_events-none result.batch_events db2)
                (λ db3.
                  and_then-none
                    (update_l1_message_queue_events_info fails result.message_queue_events db3) _
                    (queue_events-none result.message_queue_events db3 good.typed)
                    (λ db4. inserting-none insert_failed_l1_gateway_txs result.reverted_txs db4))))

-- Let no statement on the tables fail, the client's height less the confirmations be `end`, the
-- fetch limit be positive, `end` and the limit fit 64 bits, and L1Fetcher fetch every range of
-- heights above 0 and up to `end` behind the chain's hash before it, with the chain's hash at its
-- end and a result without two deposits of one hash or a queue event of no type. Then a tick
-- of the fetcher of L1 that has synced some height up to `end`, with the chain's hash there, ends
-- with `end` synced and the chain's hash there, whatever the tables hold and however many ranges
-- that takes.
pub l1_tick-Reaches :
    (fails : Statement → Db → Bool) (node : Node) (d : Decoder) (gateways : List ℕ) (cfg : Config)
    (hash_at : ℕ → ℕ) (end : ℕ) (st : FetcherState)
    → ((s : Statement) (db : Db) → fails s db ≡ false)
    → get_block_number node.block_number cfg.confirmation ≡ some end
    → 0 < cfg.fetch_limit
    → end + cfg.fetch_limit < 18446744073709551616
    → ((from to last : ℕ)
        → 0 < from
        → from ≤ to
        → to ≤ end
        → last ≡ hash_at (from - 1)
        → (a : L1FilterResult) × IsStorable a
          × (l1_fetcher node d gateways from to last ≡ fetched (hash_at to) a))
    → st.sync_height ≤ end
    → st.last_sync_block_hash ≡ hash_at st.sync_height
    → ((l1_tick fails node d gateways cfg st).sync_height ≡ end)
      × ((l1_tick fails node d gateways cfg st).last_sync_block_hash ≡ hash_at end)
unfolding l1_tick
l1_tick-Reaches fails node d gateways cfg hash_at end st working head pos fits answers low here =
    rw head (
      fetch_and_save_events-Reaches cfg.fetch_limit (l1_fetcher node d gateways)
        (λ height. l1_insert_or_update fails) hash_at end IsStorable st pos fits answers
        (λ h a db good. l1_insert_or_update-none fails working a db good) low here)
