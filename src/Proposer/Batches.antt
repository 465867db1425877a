-- ===== src/Proposer/Batches.antt =====
-- The proposer of batches: rollup/internal/controller/watcher/batch_proposer.go, with
-- CalculateBatchMetrics and GetTotalL1MessagePoppedBeforeBatch of rollup/internal/utils/utils.go and
-- the reads of rollup/internal/orm/{batch,chunk}.go. IsBernoulli is go-ethereum's, and the product
-- with the floating-point multiplier is Go's; both are functions of the configuration. The handler
-- returns the batch that it hands to updateDBBatchInfo, whose transaction is not modelled.
use scroll.Common.{
  ℕ, Bool, ◌&&◌, ◌||◌, Option, none, some, List, [], ◌∷◌, ◌++◌, length, take, select, ltb, leb,
  ◌==◌, if◌then◌else◌, Outcome, ok, err, ◌>>=◌, add64, sub64, max_int64,
}
use scroll.Encoding.{
  CodecVersion, codec_v0, codec_v1, Block, Chunk, Batch, Marshaller, EncodingError,
}
use scroll.Encoding.CodecV0.{new_da_batch_from_bytes}
use scroll.Encoding.CodecV0.Gas.{estimate_batch_size, estimate_batch_gas}
use scroll.Encoding.CodecV1.{estimate_batch_l1_commit_blob_size, new_da_batch_from_bytes_v1}
use scroll.Proposer.{max_blob_size}
use scroll.Relayer.Tables.{order_by, get_latest_batch_row, get_l2_blocks_in_range_rows}

pub data BatchError : Type 0 where
  batch_read_failed : BatchError
  codec_failed : EncodingError → BatchError
  no_first_block : BatchError  -- the first block of an empty chunk, which panics
  first_chunk_exceeds_limits : BatchError

abbrev pub codec {ℓ} : {A : Type ℓ} → Outcome EncodingError A → Outcome BatchError A
codec (ok a) = ok a
codec (err e) = err (codec_failed e)

abbrev pub read_ok {ℓ ρ} : {E : Type ρ} {A : Type ℓ} → Outcome E A → Outcome BatchError A
read_ok (ok a) = ok a
read_ok (err e) = err batch_read_failed

-- BatchMetrics
pub record BatchMetrics : Type 0 where
  pub num_chunks : ℕ
  pub first_block_timestamp : ℕ
  pub l1_commit_calldata_size : ℕ
  pub l1_commit_gas : ℕ
  pub l1_commit_blob_size : ℕ

-- The time of the first block, and the codec's part of CalculateBatchMetrics.
unfoldable pub first_block_of : List Chunk → Outcome BatchError Block
first_block_of [] = err no_first_block
first_block_of ([] ∷ cs) = err no_first_block
first_block_of ((b ∷ bs) ∷ cs) = ok b

unfoldable pub measure_batch :
    Marshaller → Batch → ℕ → CodecVersion → Outcome BatchError BatchMetrics
measure_batch m batch time codec_v0 = do
  gas ← codec (estimate_batch_gas m batch)
  size ← codec (estimate_batch_size m batch)
  ok (record {
    num_chunks = length batch.chunks;
    first_block_timestamp = time;
    l1_commit_calldata_size = size;
    l1_commit_gas = gas;
    l1_commit_blob_size = 0;
  })
measure_batch m batch time codec_v1 = do
  size ← codec (estimate_batch_l1_commit_blob_size m batch.chunks)
  ok (record {
    num_chunks = length batch.chunks;
    first_block_timestamp = time;
    l1_commit_calldata_size = 0;
    l1_commit_gas = 0;
    l1_commit_blob_size = size;
  })

-- CalculateBatchMetrics
unfoldable pub calculate_batch_metrics :
    Marshaller → Batch → CodecVersion → Outcome BatchError BatchMetrics
unfolding first_block_of measure_batch
calculate_batch_metrics m batch version =
    first_block_of batch.chunks >>= λ b. measure_batch m batch b.header.time version

pub record BatchConfig : Type 0 where
  pub max_chunk_num_per_batch : ℕ
  pub max_l1_commit_gas_per_batch : ℕ
  pub max_l1_commit_calldata_size_per_batch : ℕ
  pub batch_timeout_sec : ℕ
  pub over_estimate : ℕ → ℕ
  pub is_fork : ℕ → Bool
  pub is_bernoulli : ℕ → Bool

-- The condition on the limits.
abbrev pub batch_exceeds : BatchConfig → BatchMetrics → Bool
batch_exceeds cfg m =
    ltb cfg.max_l1_commit_calldata_size_per_batch m.l1_commit_calldata_size
    || (ltb cfg.max_l1_commit_gas_per_batch (cfg.over_estimate m.l1_commit_gas)
        || ltb max_blob_size m.l1_commit_blob_size)

-- GetTotalL1MessagePoppedBeforeBatch
unfoldable pub get_total_l1_message_popped_before_batch :
    List ℕ → CodecVersion → Outcome BatchError ℕ
get_total_l1_message_popped_before_batch bytes codec_v0 =
    codec (new_da_batch_from_bytes bytes) >>= λ b. ok b.total_l1_message_popped
get_total_l1_message_popped_before_batch bytes codec_v1 =
    codec (new_da_batch_from_bytes_v1 bytes) >>= λ b. ok b.total_l1_message_popped

-- GetChunksGEIndex: without a limit if the limit is not positive as an `int`.
unfoldable pub get_chunks_ge_index : ℕ → ℕ → List scroll.Relayer.Chunk → List scroll.Relayer.Chunk
unfolding order_by
get_chunks_ge_index index limit chunks =
    let found = order_by (λ c. c.index) (select (λ c. leb index c.index) chunks) in
    if ltb 0 limit && leb limit max_int64 then take limit found else found

-- The chunks behind the first, up to one that starts at a fork.
unfoldable pub before_fork : (ℕ → Bool) → List scroll.Relayer.Chunk → List scroll.Relayer.Chunk
before_fork is_fork [] = []
before_fork is_fork (c ∷ cs) =
    let rest = before_fork is_fork cs in if is_fork c.start_block_number then [] else c ∷ rest

-- The chunks that are considered, with maxChunksThisBatch.
abbrev pub max_chunks_this_batch : ℕ → List scroll.Relayer.Chunk → List scroll.Relayer.Chunk → ℕ
max_chunks_this_batch limit all kept =
    if ltb (length kept) (length all) && ltb (length kept) limit then length kept else limit

-- getDAChunks
unfoldable pub get_da_chunks :
    List Block → List scroll.Relayer.Chunk → Outcome BatchError (List Chunk)
unfolding get_l2_blocks_in_range_rows
get_da_chunks blocks [] = ok []
get_da_chunks blocks (c ∷ cs) = do
  found ← read_ok (get_l2_blocks_in_range_rows c.start_block_number c.end_block_number blocks)
  rest ← get_da_chunks blocks cs
  ok (found ∷ rest)

abbrev pub with_chunks : Batch → List Chunk → Batch
with_chunks batch cs = record batch { chunks = cs }

-- How the loop over the chunks ends: a chunk broke a limit, or all are in the batch.
pub data GrownBatch : Type 0 where
  cut_batch whole_batch : Batch → GrownBatch

unfoldable pub cut_at :
    Marshaller → CodecVersion → Batch → List Chunk → Outcome BatchError GrownBatch
unfolding calculate_batch_metrics
cut_at m version batch [] = err first_chunk_exceeds_limits
cut_at m version batch (c ∷ cs) =
    calculate_batch_metrics m batch version >>= λ metrics. ok (cut_batch batch)

-- The loop over the chunks, with the batch so far.
unfoldable pub grow_batch :
    Marshaller → BatchConfig → CodecVersion → Batch → List Chunk → Outcome BatchError GrownBatch
unfolding calculate_batch_metrics cut_at
grow_batch m cfg version batch [] = ok (whole_batch batch)
grow_batch m cfg version batch (c ∷ cs) =
    let grown = with_chunks batch (batch.chunks ++ c ∷ []) in
    let rest = grow_batch m cfg version grown cs in
    calculate_batch_metrics m grown version >>= λ metrics.
    if batch_exceeds cfg metrics then cut_at m version batch batch.chunks else rest

-- The part of proposeBatch behind the loop: the batch to store, if it is due.
unfoldable pub finish_batch :
    Marshaller → BatchConfig → CodecVersion → ℕ → ℕ → GrownBatch → Outcome BatchError (Option Batch)
unfolding calculate_batch_metrics
finish_batch m cfg version max_chunks now (cut_batch batch) = ok (some batch)
finish_batch m cfg version max_chunks now (whole_batch batch) =
    calculate_batch_metrics m batch version >>= λ metrics. ok (
      if ltb (add64 metrics.first_block_timestamp cfg.batch_timeout_sec) now
        || metrics.num_chunks == max_chunks
      then some batch
      else none)

abbrev pub bernoulli_codec : Bool → CodecVersion
bernoulli_codec on = if on then codec_v1 else codec_v0

-- proposeBatch behind the read of the chunks, of which `first` is the first one.
unfoldable pub propose_chunks :
    Marshaller
    → BatchConfig
    → ℕ
    → List Block
    → scroll.Relayer.Batch
    → scroll.Relayer.Chunk
    → List scroll.Relayer.Chunk
    → Outcome BatchError (Option Batch)
unfolding before_fork get_da_chunks get_total_l1_message_popped_before_batch grow_batch finish_batch
    first_block_of
propose_chunks m cfg now blocks parent first more = do
  let kept = first ∷ before_fork cfg.is_fork more
  let max_chunks = max_chunks_this_batch cfg.max_chunk_num_per_batch (first ∷ more) kept
  let version = bernoulli_codec (cfg.is_bernoulli first.start_block_number)
  chunks ← get_da_chunks blocks kept
  b ← first_block_of chunks
  let parent_version =
      bernoulli_codec (ltb 0 parent.index && cfg.is_bernoulli (sub64 b.header.number 1))
  popped ← get_total_l1_message_popped_before_batch parent.batch_header parent_version
  grown ←
      grow_batch m cfg version
        (record {
          index = add64 parent.index 1;
          total_l1_message_popped_before = popped;
          parent_batch_hash = parent.hash;
          chunks = [];
        })
        chunks
  finish_batch m cfg version max_chunks now grown

abbrev pub propose_found :
    Marshaller
    → BatchConfig
    → ℕ
    → List Block
    → scroll.Relayer.Batch
    → List scroll.Relayer.Chunk
    → Outcome BatchError (Option Batch)
propose_found m cfg now blocks parent [] = ok none
propose_found m cfg now blocks parent (first ∷ more) =
    propose_chunks m cfg now blocks parent first more

-- proposeBatch: GetFirstUnbatchedChunkIndex and GetLatestBatch read the same batch.
abbrev pub propose_after :
    Marshaller
    → BatchConfig
    → ℕ
    → scroll.Relayer.Db
    → Option scroll.Relayer.Batch
    → Outcome BatchError (Option Batch)
propose_after m cfg now db none = err batch_read_failed
propose_after m cfg now db (some parent) =
    propose_found m cfg now db.blocks parent
      (get_chunks_ge_index (add64 parent.end_chunk_index 1) cfg.max_chunk_num_per_batch db.chunks)

unfoldable pub propose_batch :
    Marshaller → BatchConfig → ℕ → scroll.Relayer.Db → Outcome BatchError (Option Batch)
unfolding get_latest_batch_row get_chunks_ge_index propose_chunks
propose_batch m cfg now db = propose_after m cfg now db (get_latest_batch_row none db.batches)
