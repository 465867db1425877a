-- ===== src/Sender.antt =====
-- The transaction sender: rollup/internal/controller/sender/{sender,estimategas}.go on the table of
-- rollup/internal/orm/pending_transaction.go.
-- A big.Int of the code is never negative here and is a number. The layer 1 client, the signer with
-- the hash of a transaction, and the KZG sidecar of a blob are operations of the record `Client`;
-- the database fails when a flag says so. Estimated gas limits with their access lists are taken
-- from the client.
pub mod Fees
pub mod Transactions
pub mod Bumps
pub mod Nonces
pub mod Submissions
pub mod Tests
use scroll.Common.{ℕ, Bool, true, false, Option, none, some, List, [], ◌∷◌}
use scroll.Relayer.{SenderType}
use scroll.Relayer.Confirm.{Confirmation}

-- types.TxStatus
pub data TxStatus : Type 0 where
  tx_unknown tx_pending tx_replaced tx_confirmed tx_confirmed_failed : TxStatus

-- The transaction types of the configuration.
pub data TxType : Type 0 where
  legacy_tx dynamic_fee_tx : TxType

pub record Config : Type 0 where
  pub tx_type : TxType
  pub escalate_multiple_num : ℕ
  pub escalate_multiple_den : ℕ
  pub max_gas_price : ℕ
  pub max_blob_gas_price : ℕ
  pub escalate_blocks : ℕ

pub record FeeData : Type 0 where
  pub gas_limit : ℕ
  pub gas_price : ℕ
  pub gas_tip_cap : ℕ
  pub gas_fee_cap : ℕ
  pub blob_gas_fee_cap : ℕ

-- A transaction, with the fees of its type.
pub record Transaction : Type 0 where
  pub nonce : ℕ
  pub payload : List ℕ
  pub blob : Option (List ℕ)
  pub fees : FeeData

-- A row of the table, with the transaction that its column holds.
pub record PendingTransaction : Type 0 where
  pub context_id : ℕ
  pub hash : ℕ
  pub gas_fee_cap : ℕ
  pub tx : Transaction
  pub status : TxStatus
  pub submit_block_number : ℕ

-- The sender with the rows of its address and type, and its channel of confirmations, in which the
-- newest comes first.
pub record Sender : Type 0 where
  pub nonce : ℕ
  pub rows : List PendingTransaction
  pub confirmed : List Confirmation

-- The answer of the client to a signed transaction.
pub data SendResult : Type 0 where
  accepted nonce_refused refused : SendResult

pub record Client : Type 0 where
  pub head : Option (ℕ × ℕ × ℕ)  -- the number, the base fee and the blob base fee
  pub confirmed_block : Option ℕ
  pub suggested_price : Option ℕ
  pub suggested_tip : Option ℕ
  pub estimated_gas : Option ℕ
  pub sidecar_made : Bool
  pub hash_of : Transaction → ℕ
  pub submit : Transaction → SendResult
  pub pending_nonce : Option ℕ
  pub receipt : ℕ → Option (ℕ × Bool)  -- by hash: the block and the success
  pub decodes : ℕ → Bool
  pub sender_type : SenderType
  pub load_fails : Bool
  pub insert_fails : Bool
  pub status_fails : ℕ → Bool
  pub transaction_fails : ℕ → Bool
