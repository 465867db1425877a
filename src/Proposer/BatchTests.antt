-- ===== src/Proposer/BatchTests.antt =====
-- A concrete run of the proposer of batches.
use scroll.Common.{
  ℕ, ◌≡◌, ◌≤◌, ◌==◌, ◌∷◌, refl, some, none, false, List, [], ok, arith, replicate, add64, length,
  get_uint,
}
use scroll.Coordinator.{unassigned}
use scroll.Encoding.{Batch, chunk_num_l1_messages, block_num_l1_messages}
use scroll.Encoding.CodecV0.{new_da_batch_from_bytes}
use scroll.Encoding.CodecV0.Gas.{estimate_batch_size, estimate_batch_gas}
use scroll.Relayer.{rollup_finalized, gas_oracle_pending}
use scroll.Relayer.Tables.{get_latest_batch_row}
use scroll.Proposer.Batches.{BatchConfig, propose_batch, get_chunks_ge_index}
use scroll.Proposer.BatchLimits.{IsProposedBatch, propose_batch-IsProposedBatch}
use scroll.Proposer.Tests.{marshaller, block, table}

abbrev batch_config : BatchConfig
batch_config = record {
  max_chunk_num_per_batch = 2;
  max_l1_commit_gas_per_batch = 10000000;
  max_l1_commit_calldata_size_per_batch = 10000;
  batch_timeout_sec = 300;
  over_estimate = λ n. n;
  is_fork = λ n. n == 5;
  is_bernoulli = λ n. false;
}

abbrev genesis : scroll.Relayer.Batch
genesis = record {
  index = 0;
  hash = 70;
  start_chunk_index = 0;
  end_chunk_index = 0;
  state_root = 40;
  withdraw_root = 50;
  batch_header = replicate 89 0;
  total_l1_commit_gas = 21;
  proving_status = unassigned;
  proof = none;
  rollup_status = rollup_finalized;
  commit_tx_hash = none;
  committed_at = none;
  finalize_tx_hash = none;
  finalized_at = none;
  oracle_status = gas_oracle_pending;
  oracle_tx_hash = none;
}

abbrev chunk_row : ℕ → ℕ → ℕ → scroll.Relayer.Chunk
chunk_row index from to = record {
  index = index;
  start_block_number = from;
  end_block_number = to;
  total_l1_messages_popped_before = 0;
}

abbrev db : scroll.Relayer.Db
db = record {
  batches = genesis ∷ [];
  chunks = chunk_row 1 3 4 ∷ chunk_row 2 5 5 ∷ [];
  blocks = table;
}

abbrev batch : Batch
batch = record {
  index = 1;
  total_l1_message_popped_before = 0;
  parent_batch_hash = 70;
  chunks = (block 3 ∷ block 4 ∷ []) ∷ [];
}

-- The batch stops in front of the chunk that starts at the fork.
proposed : propose_batch marshaller batch_config 2000 db ≡ ok (some batch)
unfolding propose_batch estimate_batch_size estimate_batch_gas new_da_batch_from_bytes
    chunk_num_l1_messages block_num_l1_messages get_uint
proposed = refl

propose_batch-IsProposedBatch_example :
    (parent : scroll.Relayer.Batch) × (first : scroll.Relayer.Chunk) × (rows : List
      scroll.Relayer.Chunk)
    × (get_latest_batch_row none db.batches ≡ some parent)
    × (length (first ∷ rows) ≤ 2)
    × IsProposedBatch marshaller batch_config table parent
        (get_chunks_ge_index (add64 parent.end_chunk_index 1) 2 db.chunks)
        batch
        first
        rows
propose_batch-IsProposedBatch_example =
    propose_batch-IsProposedBatch marshaller batch_config 2000 db batch (omega arith) (omega arith)
      proposed
