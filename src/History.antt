-- ===== src/History.antt =====
-- Bridge history: the cross messages and batch events that
-- bridge-history-api/internal/{orm,logic} keep. A text (a hash, an address, the data of a call) is
-- a number, of which 0 is the empty text; a text that lists numbers is the list. The columns id,
-- created_at, updated_at and deleted_at are left out: the order of the rows stands for the first.
pub mod Messages
pub mod Updates
pub mod Events
pub mod Saves
pub mod Keeps
pub mod Stable
pub mod Steps
pub mod Terminal
pub mod Unique
pub mod Recorded
pub mod Withdrawals
pub mod Merging
pub mod Orders
pub mod Forms
pub mod Reports
pub mod Reorgs
pub mod Ticks
pub mod Tests
pub mod Parsing
pub mod Parsers
pub mod Fetching
pub mod Fetchers
use scroll.Common.{ℕ, Bool, true, false, Option, none, some, List, [], ◌∷◌}

-- TokenType
pub data TokenType : Type 0 where
  token_unknown : TokenType
  token_eth : TokenType
  token_erc20 : TokenType
  token_erc721 : TokenType
  token_erc1155 : TokenType

-- MessageType
pub data MessageType : Type 0 where
  message_unknown : MessageType
  l1_sent_message : MessageType
  l2_sent_message : MessageType

-- TxStatusType
pub data TxStatusType : Type 0 where
  tx_sent : TxStatusType
  tx_sent_tx_reverted : TxStatusType
  tx_relayed : TxStatusType
  tx_failed_relayed : TxStatusType
  tx_relay_tx_reverted : TxStatusType
  tx_skipped : TxStatusType
  tx_dropped : TxStatusType

-- RollupStatusType
pub data RollupStatusType : Type 0 where
  rollup_unknown : RollupStatusType
  rollup_is_finalized : RollupStatusType

-- MessageQueueEventType
pub data MessageQueueEventType : Type 0 where
  queue_unknown : MessageQueueEventType
  queue_transaction : MessageQueueEventType
  dequeue_transaction : MessageQueueEventType
  drop_transaction : MessageQueueEventType

-- MessageQueueEvent
pub record MessageQueueEvent : Type 0 where
  pub event_type : MessageQueueEventType
  pub queue_index : ℕ
  pub tx_hash : ℕ
  pub message_hash : ℕ

-- The columns of CrossMessage that say who moves what.
pub record Transfer : Type 0 where
  pub sender : ℕ
  pub receiver : ℕ
  pub token_type : TokenType
  pub l1_token_address : ℕ
  pub l2_token_address : ℕ
  pub token_ids : List ℕ
  pub token_amounts : List ℕ
  pub block_timestamp : ℕ

-- The columns of CrossMessage that a claim needs.
pub record MessageCall : Type 0 where
  pub message_from : ℕ
  pub message_to : ℕ
  pub message_value : ℕ
  pub message_data : List ℕ  -- the bytes

-- CrossMessage
pub record CrossMessage : Type 0 where
  pub message_type : MessageType
  pub rollup_status : RollupStatusType
  pub tx_status : TxStatusType
  pub transfer : Transfer
  pub call : MessageCall
  pub message_hash : ℕ
  pub l1_tx_hash : ℕ
  pub l1_replay_tx_hash : ℕ
  pub l1_refund_tx_hash : ℕ
  pub l2_tx_hash : ℕ
  pub l1_block_number : ℕ
  pub l2_block_number : ℕ
  pub message_nonce : ℕ
  pub merkle_proof : List ℕ
  pub batch_index : ℕ

-- BatchStatusType
pub data BatchStatusType : Type 0 where
  batch_unknown : BatchStatusType
  batch_committed : BatchStatusType
  batch_reverted : BatchStatusType
  batch_finalized : BatchStatusType

-- UpdateStatusType
pub data UpdateStatusType : Type 0 where
  unupdated : UpdateStatusType
  updated : UpdateStatusType

-- BatchEvent
pub record BatchEvent : Type 0 where
  pub l1_block_number : ℕ
  pub batch_status : BatchStatusType
  pub batch_index : ℕ
  pub batch_hash : ℕ
  pub start_block_number : ℕ
  pub end_block_number : ℕ
  pub update_status : UpdateStatusType

-- The zero values of Go.
abbrev pub no_transfer : Transfer
no_transfer = record {
  sender = 0;
  receiver = 0;
  token_type = token_unknown;
  l1_token_address = 0;
  l2_token_address = 0;
  token_ids = [];
  token_amounts = [];
  block_timestamp = 0;
}

abbrev pub no_call : MessageCall
no_call = record { message_from = 0; message_to = 0; message_value = 0; message_data = [] }

abbrev pub no_message : CrossMessage
no_message = record {
  message_type = message_unknown;
  rollup_status = rollup_unknown;
  tx_status = tx_sent;
  transfer = no_transfer;
  call = no_call;
  message_hash = 0;
  l1_tx_hash = 0;
  l1_replay_tx_hash = 0;
  l1_refund_tx_hash = 0;
  l2_tx_hash = 0;
  l1_block_number = 0;
  l2_block_number = 0;
  message_nonce = 0;
  merkle_proof = [];
  batch_index = 0;
}

-- The tables.
pub record Db : Type 0 where
  pub messages : List CrossMessage
  pub batch_events : List BatchEvent

-- Why an operation of the component ends with an error or a panic.
pub data HistoryError : Type 0 where
  database : HistoryError
  missing_where_clause : HistoryError
  invalid_message_type : HistoryError
  nonce_mismatch : HistoryError
  panic : HistoryError

-- The statements that the database can refuse for reasons of its own.
pub data Statement : Type 0 where
  select_messages : Statement
  write_messages : Statement
  select_batch_events : Statement
  write_batch_events : Statement

-- What a call leaves of the tables, and its error.
abbrev pub Run : Type 0
Run = Db × Option HistoryError

-- Go's `if err := ...; err != nil { return err }`.
abbrev pub and_then : Run → (Db → Run) → Run
and_then (db, none) next = next db
and_then (db, some e) next = (db, some e)

-- A loop that ends with the first error.
unfoldable pub each {ℓ} : {A : Type ℓ} → (A → Db → Run) → List A → Db → Run
each step [] db = (db, none)
each step (x ∷ xs) db = and_then (step x db) (each step xs)

-- Tests on the enumerations.
abbrev pub is_l1_sent : MessageType → Bool
is_l1_sent t = elim t [ l1_sent_message ↦ true | _ ↦ false ]

abbrev pub is_l2_sent : MessageType → Bool
is_l2_sent t = elim t [ l2_sent_message ↦ true | _ ↦ false ]

abbrev pub is_relayed : TxStatusType → Bool
is_relayed s = elim s [ tx_relayed ↦ true | _ ↦ false ]

abbrev pub is_sent_tx_reverted : TxStatusType → Bool
is_sent_tx_reverted s = elim s [ tx_sent_tx_reverted ↦ true | _ ↦ false ]

-- The statuses that the source calls terminal.
abbrev pub is_terminal : TxStatusType → Bool
is_terminal s = elim s [ tx_relayed ↦ true | tx_dropped ↦ true | _ ↦ false ]
