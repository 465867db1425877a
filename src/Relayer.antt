-- ===== src/Relayer.antt =====
-- The layer 2 relayer: rollup/internal/controller/relayer/l2_relayer.go, on the tables of
-- rollup/internal/orm/{batch,chunk,l2_block}.go with the statuses of common/types/db.go.
-- A table is the list of its rows, and a block row is the block that its columns decode to. What
-- the senders hand to the layer 1 and layer 2 nodes is the list `sent`. The ABI packing, the chain
-- monitor, the clock, the decoding of a stored proof, codec version 1, SendTransaction and the
-- scaling of a gas limit by a configured float are operations of the record `Env`, in which
-- `fails` says which database calls fail. Times are in nanoseconds.
pub mod Tables
pub mod Payloads
pub mod Commit
pub mod Finalize
pub mod Confirm
pub mod GasOracle
pub mod Fetched
pub mod Rounds
pub mod Sound
pub mod Kept
pub mod KeptPrices
pub mod Runs
pub mod Finalized
pub mod Finalizing
pub mod Committing
pub mod Prices
pub mod Tests
use scroll.Common.{ℕ, Bool, true, false, Option, none, some, List, [], ◌∷◌, Outcome, ok, err}
use scroll.Coordinator.{ProvingStatus}
use scroll.Encoding.{Marshaller, EncodingError}

-- types.RollupStatus
pub data RollupStatus : Type 0 where
  rollup_undefined rollup_pending rollup_committing rollup_committed : RollupStatus
  rollup_finalizing rollup_finalized rollup_commit_failed rollup_finalize_failed : RollupStatus

-- types.GasOracleStatus
pub data GasOracleStatus : Type 0 where
  gas_oracle_undefined gas_oracle_pending gas_oracle_importing : GasOracleStatus
  gas_oracle_imported gas_oracle_imported_failed : GasOracleStatus

-- types.SenderType
pub data SenderType : Type 0 where
  sender_unknown sender_commit_batch sender_finalize_batch : SenderType
  sender_l1_gas_oracle sender_l2_gas_oracle : SenderType

-- The columns of a batch that the relayer reads or writes.
pub record Batch : Type 0 where
  pub index : ℕ
  pub hash : ℕ
  pub start_chunk_index : ℕ
  pub end_chunk_index : ℕ
  pub state_root : ℕ
  pub withdraw_root : ℕ
  pub batch_header : List ℕ
  pub total_l1_commit_gas : ℕ
  pub proving_status : ProvingStatus
  pub proof : Option (List ℕ)
  pub rollup_status : RollupStatus
  pub commit_tx_hash : Option ℕ
  pub committed_at : Option ℕ
  pub finalize_tx_hash : Option ℕ
  pub finalized_at : Option ℕ
  pub oracle_status : GasOracleStatus
  pub oracle_tx_hash : Option ℕ

pub record Chunk : Type 0 where
  pub index : ℕ
  pub start_block_number : ℕ
  pub end_block_number : ℕ
  pub total_l1_messages_popped_before : ℕ

pub record Db : Type 0 where
  pub batches : List Batch
  pub chunks : List Chunk
  pub blocks : List scroll.Encoding.Block

-- A contract call with its arguments, for which the ABI has the calldata.
pub data Call : Type 0 where
  commit_batch : ℕ → List ℕ → List (List ℕ) → List ℕ → Call
  finalize_batch_with_proof : List ℕ → ℕ → ℕ → ℕ → List ℕ → Call
  finalize_batch : List ℕ → ℕ → ℕ → ℕ → Call
  finalize_batch_with_proof_4844 : List ℕ → ℕ → ℕ → ℕ → List ℕ → List ℕ → Call
  finalize_batch_4844 : List ℕ → ℕ → ℕ → ℕ → List ℕ → Call
  set_l2_base_fee : ℕ → Call

-- A call of SendTransaction; its target is a constant of the configuration.
pub record Tx : Type 0 where
  pub sender_type : SenderType
  pub context_id : ℕ
  pub data_bytes : List ℕ
  pub blob : Option (List ℕ)
  pub fallback_gas_limit : ℕ

pub record State : Type 0 where
  pub db : Db
  pub last_gas_price : ℕ
  pub sent : List Tx

-- A batch of codec version 1, as far as the relayer reads it.
pub record BlobBatch : Type 0 where
  pub version : ℕ
  pub skipped_l1_message_bitmap : List ℕ
  pub blob : List ℕ
  pub blob_data_proof : Option (List ℕ)

-- The calls of the database, each with the index or the hash that it is about.
pub data Query : Type 0 where
  get_batches get_latest_batch get_batch_by_index get_chunks_in_range : Query
  get_l2_blocks_in_range get_verified_proof update_status : Query

pub record Env : Type 0 where
  pub now : ℕ
  pub fails : Query → ℕ → Bool
  pub is_bernoulli : ℕ → Bool
  pub marshaller : Marshaller
  pub new_blob_batch : scroll.Encoding.Batch → Option BlobBatch
  pub encode_blob_chunk : scroll.Encoding.Chunk → ℕ → Option (List ℕ)
  pub pack : Call → Option (List ℕ)
  pub decode_proof : List ℕ → Option (List ℕ)
  pub scale_gas : ℕ → ℕ
  pub send_transaction : Tx → Option ℕ
  pub suggest_gas_price : Option ℕ
  pub batch_status : ℕ → ℕ → ℕ → Option Bool
  pub chain_monitor_enabled : Bool
  pub enable_test_env_bypass_features : Bool
  pub finalize_batch_without_proof_timeout : ℕ
  pub min_gas_price : ℕ
  pub gas_price_diff : ℕ

pub data RelayerError : Type 0 where
  query_failed invalid_range incorrect_number batch_index_is_zero batch_not_found : RelayerError
  no_chunk payload_failed no_verified_proof proof_not_ready wrong_proof_length : RelayerError
  batch_status_unknown send_failed update_failed : RelayerError

-- The log has the newest transaction first.
abbrev pub log_tx : Tx → State → State
log_tx tx st = record st { sent = tx ∷ st.sent }

abbrev pub map_batches : (List Batch → List Batch) → State → State
map_batches f st = record st { db = record st.db { batches = f st.db.batches } }

-- The error with which a function returns, if any, and the state.
abbrev pub Round : Type 0
Round = Option RelayerError × State

-- `if err != nil` behind a call.
abbrev pub attempt : {A : Type 0} → Outcome RelayerError A → State → (A → Round) → Round
attempt (err e) st next = (some e, st)
attempt (ok a) st next = next a

-- A loop goes on behind a round without an error.
abbrev pub proceed : Round → (State → Round) → Round
proceed (none, st) next = next st
proceed (some e, st) next = (some e, st)

abbrev pub fetch : Bool → State → Round → Round
fetch true st next = (some query_failed, st)
fetch false st next = next

-- The result of SendTransaction, and behind it the update of the status, which may fail.
abbrev pub send : Option ℕ → Bool → Tx → (ℕ → List Batch → List Batch) → State → Round
send none fails tx write st = (some send_failed, st)
send (some tx_hash) true tx write st = (some update_failed, log_tx tx st)
send (some tx_hash) false tx write st = (none, map_batches (write tx_hash) (log_tx tx st))
