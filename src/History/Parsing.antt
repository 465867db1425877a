-- ===== src/History/Parsing.antt =====
-- The parsers of event logs: bridge-history-api/internal/logic/{l1,l2}_event_parser.go and
-- bridge-history-api/internal/utils/utils.go. What unpacks a log or calldata (the ABI and the
-- generated bindings), the hash of a relayMessage call and the node's transactions are parameters.
-- The topics of the two layers that are treated alike have one name.
use scroll.Common.{
  ℕ, zero, suc, ◌+◌, ◌-◌, ◌*◌, leb, length, take, drop, get_uint, ◌/◌, ◌%◌, ◌^◌, Bool, false, ◌||◌,
  Option, none, some, List, [], ◌∷◌, ◌==◌, if◌then◌else◌, add64, Outcome, ok, err, ◌>>=◌,
}
use scroll.History.{
  CrossMessage, token_eth, token_erc20, token_erc721, token_erc1155, Transfer, no_message,
  no_transfer, l1_sent_message, l2_sent_message, tx_sent, TxStatusType,
}

-- The signatures that the parsers tell apart.
pub data Topic : Type 0 where
  eth_moved : Topic
  erc20_moved : Topic
  erc721_moved : Topic
  batch_erc721_moved : Topic
  erc1155_moved : Topic
  batch_erc1155_moved : Topic
  message_sent : Topic
  message_relayed : Topic
  message_failed_relayed : Topic
  commit_batch : Topic
  revert_batch : Topic
  finalize_batch : Topic
  queue_message : Topic
  dequeue_messages : Topic
  drop_message : Topic
  other_topic : Topic

pub record Log : Type 0 where
  pub topic : Topic
  pub block_number : ℕ
  pub log_tx_hash : ℕ
  pub payload : ℕ

-- The events of the gateways; a batch of tokens has several ids and amounts.
pub record TokenEvent : Type 0 where
  pub from : ℕ
  pub to : ℕ
  pub l1_token : ℕ
  pub l2_token : ℕ
  pub ids : List ℕ
  pub amounts : List ℕ

pub record SentEvent : Type 0 where
  pub event_sender : ℕ
  pub target : ℕ
  pub value : ℕ
  pub nonce : ℕ
  pub message : List ℕ

pub record DequeueEvent : Type 0 where
  pub start_index : ℕ
  pub skipped_bitmap : ℕ

-- Why a parser ends with an error.
pub data ParseError : Type 0 where
  unpack_failed : ParseError
  rpc_failed : ParseError
  bad_calldata : ParseError
  out_of_range : ParseError

-- A transaction as the node has it.
pub record NodeTx : Type 0 where
  pub tx_to : Option ℕ
  pub signer : Option ℕ
  pub calldata : ℕ

pub data TxLookup : Type 0 where
  lookup_failed : TxLookup
  lookup_pending : TxLookup
  lookup_found : NodeTx → TxLookup

-- What the parsers call.
pub record Decoder : Type 0 where
  pub unpack_token : Log → Option TokenEvent
  pub unpack_sent : Log → Option SentEvent
  pub unpack_hash : Log → Option ℕ
  pub unpack_batch : Log → Option (ℕ × ℕ)
  pub unpack_queued : Log → Option (ℕ × ℕ)  -- the index, and the hash of the data
  pub unpack_dequeued : Log → Option DequeueEvent
  pub unpack_dropped : Log → Option ℕ
  pub compute_message_hash : SentEvent → ℕ
  pub transaction_by_hash : ℕ → TxLookup
  pub unpack_commit_chunks : ℕ → Option (List (List ℕ))
  pub unpacks_import_genesis : ℕ → Bool
  pub gateway_router_addr : ℕ  -- the address that the configured text decodes to
  pub is_gateway_router_text : ℕ → Bool  -- whether an address's text is the configured text

-- The number of a block, at the start of its 60 bytes behind the first byte of a chunk. A slice
-- behind the end of the chunk panics.
unfoldable pub block_number_at : ℕ → List ℕ → Outcome ParseError ℕ
block_number_at i chunk =
    let from = 1 + i * 60 in
    if leb (from + 60) (length chunk)
    then ok (get_uint (take 8 (drop from chunk)))
    else err out_of_range

-- The number of the last block, of which the first byte of the chunk is the count.
unfoldable pub last_block_number : List ℕ → Outcome ParseError ℕ
unfolding block_number_at
last_block_number [] = err out_of_range
last_block_number (count ∷ bytes) =
    if count == 0 then err out_of_range else block_number_at (count - 1) (count ∷ bytes)

unfoldable pub last_chunk : List ℕ → List (List ℕ) → List ℕ
last_chunk chunk [] = chunk
last_chunk chunk (next ∷ chunks) = last_chunk next chunks

abbrev range_of_chunks : List (List ℕ) → Outcome ParseError (ℕ × ℕ)
range_of_chunks [] = err bad_calldata
range_of_chunks (chunk ∷ chunks) = block_number_at 0 chunk >>= λ start.
    last_block_number (last_chunk chunk chunks) >>= λ finish. ok (start, finish)

-- GetBatchRangeFromCalldata
unfoldable pub get_batch_range_from_calldata : Decoder → ℕ → Outcome ParseError (ℕ × ℕ)
unfolding block_number_at last_block_number last_chunk
get_batch_range_from_calldata d calldata = elim (d.unpack_commit_chunks calldata) [
  | none ↦ if d.unpacks_import_genesis calldata then ok (0, 0) else err bad_calldata
  | some chunks ↦ range_of_chunks chunks
]

abbrev pub unpacked : {A : Type 0} → Option A → Outcome ParseError A
unpacked none = err unpack_failed
unpacked (some a) = ok a

-- The columns that the event of a gateway fills in.
unfoldable pub set_transfer : Topic → TokenEvent → Transfer → Transfer
set_transfer topic e t =
    let moved = record t { sender = e.from; receiver = e.to } in
    let of_token = record moved { l1_token_address = e.l1_token; l2_token_address = e.l2_token } in
    elim topic [
      | eth_moved ↦ record moved { token_type = token_eth; token_amounts = e.amounts }
      | erc20_moved ↦ record of_token { token_type = token_erc20; token_amounts = e.amounts }
      | erc721_moved ↦ record of_token { token_type = token_erc721; token_ids = e.ids }
      | batch_erc721_moved ↦ record of_token { token_type = token_erc721; token_ids = e.ids }
      | erc1155_moved ↦ record of_token {
        token_type = token_erc1155;
        token_ids = e.ids;
        token_amounts = e.amounts;
      }
      | batch_erc1155_moved ↦ record of_token {
        token_type = token_erc1155;
        token_ids = e.ids;
        token_amounts = e.amounts;
      }
      | _ ↦ t
    ]

abbrev set_moved : Topic → TokenEvent → CrossMessage → CrossMessage
set_moved topic e m = record m { transfer = set_transfer topic e m.transfer }

-- A change of the last message; there is none in an empty list.
unfoldable pub on_last :
    (CrossMessage → CrossMessage) → List CrossMessage → Outcome ParseError (List CrossMessage)
on_last f [] = err out_of_range
on_last f (m ∷ []) = ok (f m ∷ [])
on_last f (m ∷ n ∷ ms) = on_last f (n ∷ ms) >>= λ rest. ok (m ∷ rest)

-- The sent and the relayed messages that were parsed so far.
abbrev pub Parsed : Type 0
Parsed = List CrossMessage × List CrossMessage

-- GetSkippedQueueIndices, with the index of the bit and the number of bits that are left
unfoldable pub skipped_from : ℕ → ℕ → ℕ → ℕ → List ℕ
skipped_from start_index bitmap i zero = []
skipped_from start_index bitmap i (suc n) =
    let rest = skipped_from start_index bitmap (suc i) n in
    if bitmap / 2 ^ i % 2 == 0 then rest else add64 start_index i ∷ rest

unfoldable pub get_skipped_queue_indices : ℕ → ℕ → List ℕ
unfolding skipped_from
get_skipped_queue_indices start_index bitmap = skipped_from start_index bitmap 0 256

abbrev pub has : ℕ → List ℕ → Bool
has h [] = false
has h (k ∷ ks) = (k == h) || has h ks

-- A message of the L1 messenger.
abbrev pub l1_sent : Log → SentEvent → ℕ → ℕ → ℕ → CrossMessage
l1_sent log event from timestamp hash = record no_message {
  l1_block_number = log.block_number;
  transfer = record no_transfer {
    sender = from;
    receiver = event.target;
    token_type = token_eth;
    token_amounts = event.value ∷ [];
    block_timestamp = timestamp;
  };
  l1_tx_hash = log.log_tx_hash;
  message_nonce = event.nonce;
  message_type = l1_sent_message;
  tx_status = tx_sent;
  message_hash = hash;
}

-- A message of the L2 messenger.
abbrev pub l2_sent : Log → SentEvent → ℕ → ℕ → ℕ → CrossMessage
l2_sent log event from timestamp hash = record no_message {
  message_hash = hash;
  transfer = record no_transfer {
    sender = from;
    receiver = event.target;
    token_type = token_eth;
    token_amounts = event.value ∷ [];
    block_timestamp = timestamp;
  };
  l2_tx_hash = log.log_tx_hash;
  call = record {
    message_from = event.event_sender;
    message_to = event.target;
    message_value = event.value;
    message_data = event.message;
  };
  message_nonce = event.nonce;
  message_type = l2_sent_message;
  tx_status = tx_sent;
  l2_block_number = log.block_number;
}

-- A message of L2 that was relayed on L1, and one of L1 that was relayed on L2.
abbrev pub relayed_on_l1 : TxStatusType → Log → ℕ → CrossMessage
relayed_on_l1 status log hash = record no_message {
  message_hash = hash;
  l1_block_number = log.block_number;
  l1_tx_hash = log.log_tx_hash;
  tx_status = status;
  message_type = l2_sent_message;
}

abbrev pub relayed_on_l2 : TxStatusType → Log → ℕ → CrossMessage
relayed_on_l2 status log hash = record no_message {
  message_hash = hash;
  l2_block_number = log.block_number;
  l2_tx_hash = log.log_tx_hash;
  tx_status = status;
  message_type = l1_sent_message;
}
