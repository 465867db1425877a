-- ===== src/Proposer.antt =====
-- The proposer of chunks: rollup/internal/controller/watcher/chunk_proposer.go, with
-- CalculateChunkMetrics of rollup/internal/utils/utils.go and the reads of
-- rollup/internal/orm/{chunk,l2_block}.go.
-- `IsBernoulli` is go-ethereum's, and the product with the
-- floating-point multiplier is Go's; both are functions of the configuration. The handler
-- returns the chunk that it hands to `updateDBChunkInfo`, whose transaction is not modelled.
pub mod Growth
pub mod Bounds
pub mod Limits
pub mod Batches
pub mod BatchGrowth
pub mod BatchBounds
pub mod BatchLimits
pub mod Tests
pub mod BatchTests
use scroll.Common.{
  ℕ, ◌+◌, Bool, true, false, ◌&&◌, ◌||◌, Option, none, some, List, [], ◌∷◌, ◌++◌, length, take,
  select, ltb, leb, ◌==◌, if◌then◌else◌, Outcome, ok, err, ◌>>=◌, add64, max_int64,
}
use scroll.Forks.{blocks_until_fork}
use scroll.Encoding.{
  CodecVersion, codec_v0, codec_v1, Block, Chunk, Marshaller, EncodingError, num_transactions,
  crc_max,
}
use scroll.Encoding.CodecV1.{estimate_chunk_l1_commit_blob_size}
use scroll.Encoding.CodecV0.Gas.{estimate_chunk_size, estimate_chunk_gas}

pub data ProposeError : Type 0 where
  read_failed : ProposeError
  metrics_failed : EncodingError → ProposeError
  no_blocks : ProposeError  -- the first block of an empty chunk, which panics
  first_block_exceeds_limits : ProposeError

pub record ChunkMetrics : Type 0 where
  pub num_blocks : ℕ
  pub tx_num : ℕ
  pub crc_max : ℕ
  pub first_block_timestamp : ℕ
  pub l1_commit_calldata_size : ℕ
  pub l1_commit_gas : ℕ
  pub l1_commit_blob_size : ℕ

-- An error of a codec, wrapped.
abbrev pub wrap : Outcome EncodingError ℕ → Outcome ProposeError ℕ
wrap (ok n) = ok n
wrap (err e) = err (metrics_failed e)

-- CalculateChunkMetrics
unfoldable pub calculate_chunk_metrics :
    Marshaller → Chunk → CodecVersion → Outcome ProposeError ChunkMetrics
calculate_chunk_metrics est [] version = err no_blocks
calculate_chunk_metrics est (b ∷ bs) codec_v0 = do
  crc ← wrap (crc_max (b ∷ bs))
  size ← wrap (estimate_chunk_size est (b ∷ bs))
  gas ← wrap (estimate_chunk_gas est (b ∷ bs))
  ok (record {
    num_blocks = length (b ∷ bs);
    tx_num = num_transactions (b ∷ bs);
    crc_max = crc;
    first_block_timestamp = b.header.time;
    l1_commit_calldata_size = size;
    l1_commit_gas = gas;
    l1_commit_blob_size = 0;
  })
calculate_chunk_metrics est (b ∷ bs) codec_v1 = do
  crc ← wrap (crc_max (b ∷ bs))
  size ← wrap (estimate_chunk_l1_commit_blob_size est (b ∷ bs))
  ok (record {
    num_blocks = length (b ∷ bs);
    tx_num = num_transactions (b ∷ bs);
    crc_max = crc;
    first_block_timestamp = b.header.time;
    l1_commit_calldata_size = 0;
    l1_commit_gas = 0;
    l1_commit_blob_size = size;
  })

pub record Config : Type 0 where
  pub max_block_num_per_chunk : ℕ
  pub max_tx_num_per_chunk : ℕ
  pub max_l1_commit_calldata_size_per_chunk : ℕ
  pub max_l1_commit_gas_per_chunk : ℕ
  pub max_row_consumption_per_chunk : ℕ
  pub chunk_timeout_sec : ℕ
  pub over_estimate : ℕ → ℕ
  pub fork_heights : List ℕ
  pub is_bernoulli : ℕ → Bool

abbrev pub max_blob_size : ℕ
max_blob_size = 131072

-- The condition on the limits.
abbrev pub exceeds : Config → ChunkMetrics → Bool
exceeds cfg m =
    ltb cfg.max_tx_num_per_chunk m.tx_num
    || (ltb cfg.max_l1_commit_calldata_size_per_chunk m.l1_commit_calldata_size
        || (ltb cfg.max_l1_commit_gas_per_chunk (cfg.over_estimate m.l1_commit_gas)
            || (ltb cfg.max_row_consumption_per_chunk m.crc_max
                || ltb max_blob_size m.l1_commit_blob_size)))

-- How the loop ends: a block broke a limit, or all blocks are in the chunk.
pub data Grown : Type 0 where
  limited whole : Chunk → Grown

-- A block that breaks a limit: the chunk without it, if it is not the first.
unfoldable pub cut : Marshaller → CodecVersion → Chunk → Outcome ProposeError Grown
unfolding calculate_chunk_metrics
cut est version [] = err first_block_exceeds_limits
cut est version (b ∷ bs) =
    calculate_chunk_metrics est (b ∷ bs) version >>= λ m. ok (limited (b ∷ bs))

-- The loop over the blocks, with the chunk so far.
unfoldable pub grow_chunk :
    Marshaller → Config → CodecVersion → Chunk → List Block → Outcome ProposeError Grown
unfolding calculate_chunk_metrics cut
grow_chunk est cfg version chunk [] = ok (whole chunk)
grow_chunk est cfg version chunk (b ∷ bs) =
    calculate_chunk_metrics est (chunk ++ b ∷ []) version >>= λ m. elim (exceeds cfg m) [
      | true ↦ cut est version chunk
      | false ↦ grow_chunk est cfg version (chunk ++ b ∷ []) bs
    ]

-- The part of `proposeChunk` behind the loop: the chunk to store, if it is due.
unfoldable pub finish :
    Marshaller → Config → CodecVersion → ℕ → ℕ → Grown → Outcome ProposeError (Option Chunk)
unfolding calculate_chunk_metrics
finish est cfg version max_blocks now (limited chunk) = ok (some chunk)
finish est cfg version max_blocks now (whole chunk) =
    calculate_chunk_metrics est chunk version >>= λ m. ok (
      if ltb (add64 m.first_block_timestamp cfg.chunk_timeout_sec) now || m.num_blocks == max_blocks
      then some chunk
      else none)

-- maxBlocksThisChunk
unfoldable pub max_blocks_this_chunk : Config → ℕ → ℕ
unfolding blocks_until_fork
max_blocks_this_chunk cfg height =
    let until = blocks_until_fork height cfg.fork_heights in
    if ltb 0 until && ltb until cfg.max_block_num_per_chunk
    then until
    else cfg.max_block_num_per_chunk

-- GetL2BlocksGEHeight, on the table in ascending order of the block numbers: without a limit if
-- the limit is not positive as an `int`.
unfoldable pub get_l2_blocks_ge_height : ℕ → ℕ → List Block → List Block
get_l2_blocks_ge_height height limit blocks =
    let found = select (λ b. leb height b.header.number) blocks in
    if ltb 0 limit && leb limit max_int64 then take limit found else found

unfoldable pub propose_from :
    Marshaller → Config → ℕ → ℕ → List Block → Outcome ProposeError (Option Chunk)
unfolding grow_chunk finish
propose_from est cfg max_blocks now [] = ok none
propose_from est cfg max_blocks now (b ∷ bs) =
    let version = if cfg.is_bernoulli b.header.number then codec_v1 else codec_v0 in
    grow_chunk est cfg version [] (b ∷ bs) >>= λ g. finish est cfg version max_blocks now g

-- proposeChunk: the height of the first block that is in no chunk, and the blocks, as the
-- database returns them, if it does.
unfoldable pub propose_chunk :
    Marshaller → Config → ℕ → Option ℕ → Option (List Block) → Outcome ProposeError (Option Chunk)
unfolding max_blocks_this_chunk get_l2_blocks_ge_height propose_from
propose_chunk est cfg now none blocks = err read_failed
propose_chunk est cfg now (some height) none = err read_failed
propose_chunk est cfg now (some height) (some blocks) =
    let max_blocks = max_blocks_this_chunk cfg height in
    propose_from est cfg max_blocks now (get_l2_blocks_ge_height height max_blocks blocks)
