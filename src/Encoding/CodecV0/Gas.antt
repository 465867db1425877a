-- ===== src/Encoding/CodecV0/Gas.antt =====
-- The estimates of calldata size and commit gas: common/types/encoding/codecv0/codecv0.go.
-- All sums are of Go's uint64 and wrap.
use scroll.Common.{
  ℕ, ◌/◌, ◌+◌, ◌-◌, ◌*◌, List, [], ◌∷◌, length, if◌then◌else◌, Outcome, ok, ◌>>=◌, u64, add64,
  mul64,
}
use scroll.Encoding.{
  TransactionData, Block, Chunk, Batch, is_l1_message, chunk_num_l1_messages, Marshaller,
  EncodingError, convert_tx_data_to_rlp_encoding,
}

abbrev pub calldata_non_zero_byte_gas : ℕ
calldata_non_zero_byte_gas = 16

unfoldable pub get_memory_expansion_cost : ℕ → ℕ
get_memory_expansion_cost size =
    let words = add64 size 31 / 32 in add64 (mul64 words words / 512) (mul64 3 words)

unfoldable pub get_keccak256_gas : ℕ → ℕ
unfolding get_memory_expansion_cost
get_keccak256_gas size =
    add64 (add64 (get_memory_expansion_cost size) 30) (mul64 6 (add64 size 31 / 32))

module _ (m : Marshaller) where
  unfoldable pub get_tx_payload_length : TransactionData → Outcome EncodingError ℕ
  get_tx_payload_length tx = convert_tx_data_to_rlp_encoding m tx >>= λ rlp. ok (length rlp)

  -- The loop of `EstimateBlockL1CommitCalldataSize`.
  unfoldable pub block_size_from : ℕ → List TransactionData → Outcome EncodingError ℕ
  unfolding get_tx_payload_length
  block_size_from size [] = ok size
  block_size_from size (tx ∷ txs) =
      let skip = block_size_from size txs in
      if is_l1_message tx
      then skip
      else (get_tx_payload_length tx >>= λ n. block_size_from (add64 (add64 size 4) n) txs)

  -- EstimateBlockL1CommitCalldataSize
  unfoldable pub estimate_block_size : Block → Outcome EncodingError ℕ
  unfolding block_size_from
  estimate_block_size b = block_size_from 0 b.transactions >>= λ size. ok (add64 size 60)

  unfoldable pub chunk_size_from : ℕ → Chunk → Outcome EncodingError ℕ
  unfolding estimate_block_size
  chunk_size_from total [] = ok total
  chunk_size_from total (b ∷ bs) =
      estimate_block_size b >>= λ size. chunk_size_from (add64 total size) bs

  -- EstimateChunkL1CommitCalldataSize
  unfoldable pub estimate_chunk_size : Chunk → Outcome EncodingError ℕ
  unfolding chunk_size_from
  estimate_chunk_size c = chunk_size_from 0 c

  unfoldable pub batch_size_from : ℕ → List Chunk → Outcome EncodingError ℕ
  unfolding estimate_chunk_size
  batch_size_from total [] = ok total
  batch_size_from total (c ∷ cs) =
      estimate_chunk_size c >>= λ size. batch_size_from (add64 total size) cs

  -- EstimateBatchL1CommitCalldataSize
  unfoldable pub estimate_batch_size : Batch → Outcome EncodingError ℕ
  unfolding batch_size_from
  estimate_batch_size b = batch_size_from 0 b.chunks

  -- The loop of `EstimateBlockL1CommitGas`, with the gas and the number of L1 messages so far.
  unfoldable pub block_gas_from : ℕ → ℕ → List TransactionData → Outcome EncodingError (ℕ × ℕ)
  unfolding get_tx_payload_length get_keccak256_gas
  block_gas_from total num_l1 [] = ok (total, num_l1)
  block_gas_from total num_l1 (tx ∷ txs) =
      let skip = block_gas_from total (add64 num_l1 1) txs in
      if is_l1_message tx
      then skip
      else (get_tx_payload_length tx >>= λ n.
          block_gas_from
            (add64 (add64 (add64 total (mul64 calldata_non_zero_byte_gas n)) 64)
              (get_keccak256_gas n))
            num_l1 txs)

  -- The gas of `n` L1 messages: a cold sload, a call and a warm access to the queue, the two
  -- memory expansions, and the reads of the proxy.
  abbrev pub l1_message_gas : ℕ → ℕ
  unfolding get_memory_expansion_cost
  l1_message_gas n =
      let expansion = mul64 (get_memory_expansion_cost 36) n in
      u64 (2100 * n + 100 * n + 100 * n + expansion + 100 * n + 100 * n + 100 * n + expansion)

  -- EstimateBlockL1CommitGas
  unfoldable pub estimate_block_gas : Block → Outcome EncodingError ℕ
  unfolding block_gas_from get_memory_expansion_cost
  estimate_block_gas b = block_gas_from 0 0 b.transactions >>= λ r.
      ok (add64 (add64 r.0 (calldata_non_zero_byte_gas * 60)) (l1_message_gas r.1))

  unfoldable pub chunk_gas_from : ℕ → ℕ → Chunk → Outcome EncodingError (ℕ × ℕ)
  unfolding estimate_block_gas
  chunk_gas_from total tx_num [] = ok (total, tx_num)
  chunk_gas_from total tx_num (b ∷ bs) = estimate_block_gas b >>= λ gas.
      chunk_gas_from (add64 total gas) (add64 tx_num (length b.transactions)) bs

  -- EstimateChunkL1CommitGas
  unfoldable pub estimate_chunk_gas : Chunk → Outcome EncodingError ℕ
  unfolding chunk_gas_from get_keccak256_gas
  estimate_chunk_gas c = chunk_gas_from 0 0 c >>= λ r.
      let n = length c in
      ok (
        add64
          (u64 (r.0 + 100 * n + calldata_non_zero_byte_gas + calldata_non_zero_byte_gas * n * 60))
          (get_keccak256_gas (u64 (58 * n + 32 * r.1))))

  -- The loop of `EstimateBatchL1CommitGas`.
  unfoldable pub batch_gas_from : ℕ → ℕ → List Chunk → Outcome EncodingError ℕ
  unfolding estimate_chunk_gas estimate_chunk_size get_keccak256_gas get_memory_expansion_cost
  batch_gas_from total popped [] = ok total
  batch_gas_from total popped (c ∷ cs) =
      let in_chunk = chunk_num_l1_messages c popped in
      let bitmap = mul64 32 (add64 in_chunk 255) / 256 in
      estimate_chunk_gas c >>= λ gas. estimate_chunk_size c >>= λ size.
      batch_gas_from
        (u64 (
          total
          + gas
          + calldata_non_zero_byte_gas * bitmap
          + get_keccak256_gas (add64 89 bitmap)
          + get_memory_expansion_cost size))
        (add64 popped in_chunk) cs

  -- EstimateBatchL1CommitGas
  unfoldable pub estimate_batch_gas : Batch → Outcome EncodingError ℕ
  unfolding batch_gas_from get_keccak256_gas
  estimate_batch_gas b =
      batch_gas_from
        (u64 (
          100000
          + 4 * 2100
          + 20000
          + 21000
          + calldata_non_zero_byte_gas
          + (2100 + 2600 - 100 - 100)
          + get_keccak256_gas (89 + 32)
          + calldata_non_zero_byte_gas * (89 + 32)
          + get_keccak256_gas (32 * length b.chunks)))
        b.total_l1_message_popped_before b.chunks
