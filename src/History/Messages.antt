-- ===== src/History/Messages.antt =====
-- The table of cross messages: bridge-history-api/internal/orm/cross_message.go. The unique index
-- on message_hash is what the ON CONFLICT clauses refer to.
use scroll.Common.{
  ℕ, Bool, true, false, not, ◌||◌, Option, none, some, List, [], ◌∷◌, map, ltb, ◌==◌, if◌then◌else◌,
  find_first, Outcome, ok, err,
}
use scroll.History.{CrossMessage, HistoryError, database, is_relayed, is_terminal}

abbrev Table : Type 0
Table = List CrossMessage

-- INSERT of a message, ON CONFLICT (message_hash) DO UPDATE where `may` allows it.
unfoldable pub upsert :
    (CrossMessage → Bool)
    → (CrossMessage → CrossMessage → CrossMessage)
    → CrossMessage
    → Table
    → Table
upsert may set m [] = m ∷ []
upsert may set m (r ∷ rows) =
    let rest = upsert may set m rows in
    if r.message_hash == m.message_hash then (if may r then set m r else r) ∷ rows else r ∷ rest

unfoldable pub upsert_all :
    (CrossMessage → Bool)
    → (CrossMessage → CrossMessage → CrossMessage)
    → List CrossMessage
    → Table
    → Table
unfolding upsert
upsert_all may set [] rows = rows
upsert_all may set (m ∷ ms) rows = upsert_all may set ms (upsert may set m rows)

-- Whether two messages have one hash, which makes an INSERT with DO UPDATE fail.
abbrev pub with_hash : ℕ → CrossMessage → Bool
with_hash h r = r.message_hash == h

unfoldable pub is_found : Option CrossMessage → Bool
is_found none = false
is_found (some m) = true

unfoldable pub has_duplicates : List CrossMessage → Bool
unfolding find_first is_found
has_duplicates [] = false
has_duplicates (m ∷ ms) = is_found (find_first (with_hash m.message_hash) ms) || has_duplicates ms

-- The columns of InsertOrUpdateL1Messages.
abbrev pub set_l1_message : CrossMessage → CrossMessage → CrossMessage
set_l1_message m r = record r {
  transfer = m.transfer;
  l1_block_number = m.l1_block_number;
  l1_tx_hash = m.l1_tx_hash;
  message_type = m.message_type;
  message_nonce = m.message_nonce;
}

-- The columns of InsertOrUpdateL2Messages.
abbrev pub set_l2_message : CrossMessage → CrossMessage → CrossMessage
set_l2_message m r = record r {
  transfer = m.transfer;
  l2_block_number = m.l2_block_number;
  l2_tx_hash = m.l2_tx_hash;
  message_type = m.message_type;
  call = m.call;
  message_nonce = m.message_nonce;
}

-- The columns of the relayed messages, and the condition on the row that is there.
abbrev pub is_open : CrossMessage → Bool
is_open r = not (is_terminal r.tx_status)

abbrev pub set_l2_relayed : CrossMessage → CrossMessage → CrossMessage
set_l2_relayed m r = record r {
  message_type = m.message_type;
  l2_block_number = m.l2_block_number;
  l2_tx_hash = m.l2_tx_hash;
  tx_status = m.tx_status;
}

abbrev pub set_l1_relayed : CrossMessage → CrossMessage → CrossMessage
set_l1_relayed m r = record r {
  message_type = m.message_type;
  l1_block_number = m.l1_block_number;
  l1_tx_hash = m.l1_tx_hash;
  tx_status = m.tx_status;
}

-- One statement with DO UPDATE, which fails when it would change a row twice.
unfoldable pub create :
    (CrossMessage → Bool)
    → (CrossMessage → CrossMessage → CrossMessage)
    → List CrossMessage
    → Table
    → Outcome HistoryError Table
unfolding upsert_all has_duplicates
create may set ms rows = if has_duplicates ms then err database else ok (upsert_all may set ms rows)

-- InsertOrUpdateL1Messages
unfoldable pub insert_or_update_l1_messages : List CrossMessage → Table → Outcome HistoryError Table
unfolding create
insert_or_update_l1_messages = create (λ r. true) set_l1_message

-- InsertOrUpdateL2Messages
unfoldable pub insert_or_update_l2_messages : List CrossMessage → Table → Outcome HistoryError Table
unfolding create
insert_or_update_l2_messages = create (λ r. true) set_l2_message

-- A failed transaction has its own hash for a message hash.
abbrev pub by_l1_tx_hash : CrossMessage → CrossMessage
by_l1_tx_hash m = record m { message_hash = m.l1_tx_hash }

abbrev pub by_l2_tx_hash : CrossMessage → CrossMessage
by_l2_tx_hash m = record m { message_hash = m.l2_tx_hash }

-- InsertFailedL1GatewayTxs: ON CONFLICT DO NOTHING.
unfoldable pub insert_failed_l1_gateway_txs : List CrossMessage → Table → Table
unfolding upsert_all
insert_failed_l1_gateway_txs ms = upsert_all (λ r. false) (λ m r. r) (map by_l1_tx_hash ms)

-- InsertFailedL2GatewayTxs
unfoldable pub insert_failed_l2_gateway_txs : List CrossMessage → Table → Table
unfolding upsert_all
insert_failed_l2_gateway_txs ms = upsert_all (λ r. false) (λ m r. r) (map by_l2_tx_hash ms)

-- The loop that fills mergedRelayedMessages, whose entries are in the order of their keys' first
-- appearance. `height` is the block number that is compared.
module _ (height : CrossMessage → ℕ) where
  unfoldable pub put_merged : CrossMessage → List CrossMessage → List CrossMessage
  put_merged m [] = m ∷ []
  put_merged m (e ∷ merged) =
      let rest = put_merged m merged in
      if e.message_hash == m.message_hash
      then (if is_relayed m.tx_status || ltb (height e) (height m) then m else e) ∷ merged
      else e ∷ rest

  unfoldable pub merge_from : List CrossMessage → List CrossMessage → List CrossMessage
  unfolding put_merged
  merge_from merged [] = merged
  merge_from merged (m ∷ ms) = merge_from (put_merged m merged) ms

-- InsertOrUpdateL2RelayedMessagesOfL1Deposits
unfoldable pub insert_or_update_l2_relayed_messages_of_l1_deposits :
    List CrossMessage → Table → Outcome HistoryError Table
unfolding create merge_from
insert_or_update_l2_relayed_messages_of_l1_deposits ms =
    create is_open set_l2_relayed (merge_from (λ m. m.l2_block_number) [] ms)

-- InsertOrUpdateL1RelayedMessagesOfL2Withdrawals
unfoldable pub insert_or_update_l1_relayed_messages_of_l2_withdrawals :
    List CrossMessage → Table → Outcome HistoryError Table
unfolding create merge_from
insert_or_update_l1_relayed_messages_of_l2_withdrawals ms =
    create is_open set_l1_relayed (merge_from (λ m. m.l1_block_number) [] ms)
