-- ===== src/History/Fetching.antt =====
-- The fetchers of the two layers: bridge-history-api/internal/logic/{l1,l2}_fetcher.go and
-- bridge-history-api/internal/controller/fetcher/{l1,l2}_fetcher.go. The node is a parameter; a call
-- that fails is `none`. The blocks of a range, which the source asks for side by side, are a list.
use scroll.Common.{
  ℕ, zero, suc, ◌+◌, ◌-◌, Bool, false, not, ◌||◌, Option, none, some, List, [], ◌∷◌, ◌++◌, ltb,
  ◌==◌, if◌then◌else◌, Outcome, ok, err,
}
use scroll.History.{
  CrossMessage, no_message, no_transfer, l1_sent_message, l2_sent_message, tx_sent_tx_reverted,
  tx_relay_tx_reverted,
}
use scroll.History.Parsing.{Log, ParseError, Parsed}

pub record ChainTx : Type 0 where
  pub hash : ℕ
  pub to : Option ℕ
  pub sender : Option ℕ
  pub l1_message : Option ℕ  -- the hash of the data of a message from L1

pub record ChainBlock : Type 0 where
  pub number : ℕ
  pub parent_hash : ℕ
  pub block_hash : ℕ
  pub time : ℕ
  pub transactions : List ChainTx

pub record Receipt : Type 0 where
  pub failed : Bool
  pub receipt_block : ℕ

pub record Node : Type 0 where
  pub block_number : Option ℕ
  pub block_by_number : ℕ → Option ChainBlock
  pub header_hash : ℕ → Option ℕ
  pub transaction_receipt : ℕ → Option Receipt
  pub filter_logs : ℕ → ℕ → Option (List Log)

-- What a fetch ends with.
pub data Fetch {ℓ} (A : Type ℓ) : Type ℓ where
  fetch_failed : Fetch A
  reorged : ℕ → ℕ → Fetch A
  fetched : ℕ → A → Fetch A

abbrev pub bind_fetch {ℓ κ} : {A : Type ℓ} {B : Type κ} → Fetch A → (A → Option B) → Fetch B
bind_fetch fetch_failed next = fetch_failed
bind_fetch (reorged height hash) next = reorged height hash
bind_fetch (fetched hash a) next = elim (next a) [ none ↦ fetch_failed | some b ↦ fetched hash b ]

abbrev pub bind_option {ℓ κ} : {A : Type ℓ} {B : Type κ} → Option A → (A → Option B) → Option B
bind_option none next = none
bind_option (some a) next = next a

abbrev pub parsed_ok {ℓ} : {A : Type ℓ} → Outcome ParseError A → Option A
parsed_ok (ok a) = some a
parsed_ok (err e) = none

-- isTransactionToGateway
unfoldable pub is_one_of : ℕ → List ℕ → Bool
is_one_of a [] = false
is_one_of a (b ∷ bs) = (a == b) || is_one_of a bs

unfoldable pub is_transaction_to_gateway : ChainTx → List ℕ → Bool
unfolding is_one_of
is_transaction_to_gateway tx gateways = elim tx.to [ none ↦ false | some a ↦ is_one_of a gateways ]

abbrev pub address_of : Option ℕ → ℕ
address_of none = 0
address_of (some a) = a

-- The records of failed transactions.
abbrev pub l1_reverted_tx : ChainTx → ℕ → Receipt → ℕ → CrossMessage
l1_reverted_tx tx time receipt sender = record no_message {
  l1_tx_hash = tx.hash;
  message_type = l1_sent_message;
  transfer = record no_transfer {
    sender = sender;
    receiver = address_of tx.to;
    block_timestamp = time;
  };
  l1_block_number = receipt.receipt_block;
  tx_status = tx_sent_tx_reverted;
}

abbrev pub l2_reverted_tx : ChainTx → ℕ → Receipt → ℕ → CrossMessage
l2_reverted_tx tx time receipt sender = record no_message {
  l2_tx_hash = tx.hash;
  message_type = l2_sent_message;
  transfer = record no_transfer {
    sender = sender;
    receiver = address_of tx.to;
    block_timestamp = time;
  };
  l2_block_number = receipt.receipt_block;
  tx_status = tx_sent_tx_reverted;
}

abbrev pub reverted_relay : ChainTx → ℕ → Receipt → CrossMessage
reverted_relay tx message_hash receipt = record no_message {
  message_hash = message_hash;
  l2_tx_hash = tx.hash;
  tx_status = tx_relay_tx_reverted;
  l2_block_number = receipt.receipt_block;
  message_type = l1_sent_message;
}

-- The map from the numbers of blocks to their times, where a missing key reads 0.
unfoldable pub timestamp_in : List ChainBlock → ℕ → ℕ
timestamp_in [] n = 0
timestamp_in (b ∷ bs) n = let rest = timestamp_in bs n in if b.number == n then b.time else rest

module _ (node : Node) where
  -- GetBlocksInRange, with the number of blocks that are left
  unfoldable pub get_blocks : ℕ → ℕ → Option (List ChainBlock)
  get_blocks from zero = some []
  get_blocks from (suc n) =
      bind_option (node.block_by_number from)
        (λ b. bind_option (get_blocks (suc from) n) (λ rest. some (b ∷ rest)))

  -- The height to sync from again.
  abbrev pub resync_height : ℕ → ℕ → ℕ
  resync_height depth number = if ltb (depth + 1) number then number - depth - 1 else 0

  abbrev pub resync : ℕ → Option ℕ → Fetch (List ChainBlock)
  resync height none = fetch_failed
  resync height (some hash) = reorged height hash

  -- The loop of getBlocksAndDetectReorg, with the blocks that the caller gets at its end
  unfoldable pub detect_reorg : ℕ → List ChainBlock → List ChainBlock → ℕ → Fetch (List ChainBlock)
  detect_reorg depth blocks [] last = fetched last blocks
  detect_reorg depth blocks (b ∷ bs) last =
      let rest = detect_reorg depth blocks bs b.block_hash in
      if b.parent_hash == last
      then rest
      else let height = resync_height depth b.number in resync height (node.header_hash height)

  -- getBlocksAndDetectReorg
  unfoldable pub get_blocks_and_detect_reorg : ℕ → ℕ → ℕ → ℕ → Fetch (List ChainBlock)
  unfolding get_blocks detect_reorg
  get_blocks_and_detect_reorg depth from to last = elim (get_blocks from (to + 1 - from)) [
    | none ↦ fetch_failed
    | some blocks ↦ detect_reorg depth blocks blocks last
  ]

  -- getRevertedTxs of the fetcher of L1
  unfoldable pub l1_reverted_in : List ℕ → ℕ → List ChainTx → Option (List CrossMessage)
  unfolding is_transaction_to_gateway
  l1_reverted_in gateways time [] = some []
  l1_reverted_in gateways time (tx ∷ txs) =
      let rest = l1_reverted_in gateways time txs in
      if not (is_transaction_to_gateway tx gateways)
      then rest
      else bind_option (node.transaction_receipt tx.hash) (λ receipt.
        if not receipt.failed
        then rest
        else bind_option tx.sender (λ sender.
          bind_option rest (λ more. some (l1_reverted_tx tx time receipt sender ∷ more))))

  unfoldable pub l1_reverted_txs : List ℕ → List ChainBlock → Option (List CrossMessage)
  unfolding l1_reverted_in
  l1_reverted_txs gateways [] = some []
  l1_reverted_txs gateways (b ∷ bs) =
      bind_option (l1_reverted_in gateways b.time b.transactions)
        (λ here. bind_option (l1_reverted_txs gateways bs) (λ rest. some (here ++ rest)))

  abbrev pub put_relay : ChainTx → ℕ → Option Receipt → Option Parsed → Option Parsed
  put_relay tx message_hash none rest = none
  put_relay tx message_hash (some receipt) rest =
      if receipt.failed
      then bind_option rest (λ r. some (r.0, reverted_relay tx message_hash receipt ∷ r.1))
      else rest

  abbrev pub put_user_tx : ChainTx → ℕ → Option Receipt → Option Parsed → Option Parsed
  put_user_tx tx time none rest = none
  put_user_tx tx time (some receipt) rest =
      if receipt.failed
      then bind_option tx.sender (λ sender.
        bind_option rest (λ r. some (l2_reverted_tx tx time receipt sender ∷ r.0, r.1)))
      else rest

  -- getRevertedTxs of the fetcher of L2: the users' transactions and the relays
  abbrev pub l2_reverted_one : List ℕ → ℕ → ChainTx → Option ℕ → Option Parsed → Option Parsed
  l2_reverted_one gateways time tx (some message_hash) rest =
      put_relay tx message_hash (node.transaction_receipt tx.hash) rest
  l2_reverted_one gateways time tx none rest =
      if not (is_transaction_to_gateway tx gateways)
      then rest
      else put_user_tx tx time (node.transaction_receipt tx.hash) rest

  unfoldable pub l2_reverted_in : List ℕ → ℕ → List ChainTx → Option Parsed
  unfolding is_transaction_to_gateway
  l2_reverted_in gateways time [] = some ([], [])
  l2_reverted_in gateways time (tx ∷ txs) =
      let rest = l2_reverted_in gateways time txs in
      l2_reverted_one gateways time tx tx.l1_message rest

  unfoldable pub l2_reverted_txs : List ℕ → List ChainBlock → Option Parsed
  unfolding l2_reverted_in
  l2_reverted_txs gateways [] = some ([], [])
  l2_reverted_txs gateways (b ∷ bs) =
      bind_option (l2_reverted_in gateways b.time b.transactions) (λ here.
        bind_option (l2_reverted_txs gateways bs)
          (λ rest. some (here.0 ++ rest.0, here.1 ++ rest.1)))
