-- ===== src/Encoding/CodecV1.antt =====
-- The version 1 codec: common/types/encoding/codecv1/codecv1.go. Its blocks are those of version 0,
-- whose file has the same code; KZG commitments and the hash of a blob are a parameter.
pub mod Payload
pub mod Blob
pub mod Tests
use scroll.Common.{
  ℕ, zero, suc, ◌+◌, ◌-◌, ◌*◌, ◌/◌, ◌%◌, Bool, true, false, not, ◌==◌, Option, none, some, List, [],
  ◌∷◌, ◌++◌, map, length, take, drop, replicate, ltb, if◌then◌else◌, Outcome, ok, err, ◌>>=◌, add64,
  sub64, mul64, put_uint, get_uint,
}
use scroll.Encoding.{
  TransactionData, Block, Chunk, Batch, is_l1_message, chunk_num_l1_messages, Marshaller,
  EncodingError, insufficient_data, hash_not_hex, unexpected_hash, too_many_chunks, too_few_chunks,
  oversized_payload, no_commitment, convert_tx_data_to_rlp_encoding,
}
use scroll.Encoding.Bitmap.{construct_skipped_bitmap}
use scroll.Encoding.CodecV0.{
  DaBlock, DaChunk, encode_block, encode_blocks, new_da_blocks, Hasher, field_at,
}

abbrev pub max_num_chunks : ℕ
max_num_chunks = 15

abbrev pub codec_v1_version : ℕ
codec_v1_version = 1

abbrev pub bls_modulus : ℕ
bls_modulus = 52435875175126190479447740508185965837690552500527637822603658699938581184513

-- DABatch
pub record DaBatchV1 : Type 0 where
  pub version : ℕ
  pub batch_index : ℕ
  pub l1_message_popped : ℕ
  pub total_l1_message_popped : ℕ
  pub data_hash : ℕ
  pub blob_versioned_hash : ℕ
  pub parent_batch_hash : ℕ
  pub skipped_l1_message_bitmap : List ℕ
  pub blob : Option (List ℕ)
  pub z : Option ℕ

-- NewDAChunk
unfoldable pub new_da_chunk_v1 : Chunk → ℕ → Outcome EncodingError DaChunk
unfolding new_da_blocks
new_da_chunk_v1 c popped =
    new_da_blocks c popped >>= λ r. ok (record { blocks = r.0; transactions = r.1 })

-- (c *DAChunk) Encode
unfoldable pub encode_chunk_v1 : DaChunk → List ℕ
unfolding encode_blocks
encode_chunk_v1 c = (length c.blocks % 256) ∷ encode_blocks c.blocks

-- The first 58 bytes of each block.
unfoldable pub hashed_blocks : List DaBlock → List ℕ
unfolding encode_block
hashed_blocks [] = []
hashed_blocks (b ∷ bs) = take 58 (encode_block b) ++ hashed_blocks bs

module _ (k : Hasher) where
  abbrev l1_hash : Option (List ℕ) → Outcome EncodingError (List ℕ)
  l1_hash none = err hash_not_hex
  l1_hash (some bs) = if not (length bs == 32) then err unexpected_hash else ok bs

  unfoldable pub l1_tx_hashes : List TransactionData → Outcome EncodingError (List ℕ)
  l1_tx_hashes [] = ok []
  l1_tx_hashes (tx ∷ txs) =
      let rest = l1_tx_hashes txs in
      if is_l1_message tx
      then (do bs ← l1_hash (k.decode_hash tx.tx_hash); r ← rest; ok (bs ++ r))
      else rest

  unfoldable pub all_l1_tx_hashes : List (List TransactionData) → Outcome EncodingError (List ℕ)
  unfolding l1_tx_hashes
  all_l1_tx_hashes [] = ok []
  all_l1_tx_hashes (txs ∷ r) = do bs ← l1_tx_hashes txs; rest ← all_l1_tx_hashes r; ok (bs ++ rest)

  -- (c *DAChunk) Hash
  unfoldable pub hash_chunk_v1 : DaChunk → Outcome EncodingError ℕ
  unfolding hashed_blocks all_l1_tx_hashes
  hash_chunk_v1 c = all_l1_tx_hashes c.transactions >>= λ hashes.
      ok (k.keccak256 (hashed_blocks c.blocks ++ hashes))

  -- The loop of computeBatchDataHash
  unfoldable pub chunk_hashes : List Chunk → ℕ → Outcome EncodingError (List ℕ)
  unfolding new_da_chunk_v1 hash_chunk_v1
  chunk_hashes [] popped = ok []
  chunk_hashes (c ∷ cs) popped = do
    da ← new_da_chunk_v1 c popped
    h ← hash_chunk_v1 da
    rest ← chunk_hashes cs (add64 popped (chunk_num_l1_messages c popped))
    ok (put_uint 32 h ++ rest)

  -- computeBatchDataHash
  unfoldable pub compute_batch_data_hash : List Chunk → ℕ → Outcome EncodingError ℕ
  unfolding chunk_hashes
  compute_batch_data_hash cs popped = chunk_hashes cs popped >>= λ bytes. ok (k.keccak256 bytes)

module _ (m : Marshaller) where
  -- The L2 transactions of a chunk, one behind the other.
  unfoldable pub l2_tx_bytes : List TransactionData → Outcome EncodingError (List ℕ)
  l2_tx_bytes [] = ok []
  l2_tx_bytes (tx ∷ txs) =
      let rest = l2_tx_bytes txs in
      if not (is_l1_message tx)
      then (do bs ← convert_tx_data_to_rlp_encoding m tx; r ← rest; ok (bs ++ r))
      else rest

  unfoldable pub chunk_payload : Chunk → Outcome EncodingError (List ℕ)
  unfolding l2_tx_bytes
  chunk_payload [] = ok []
  chunk_payload (b ∷ bs) = do
    here ← l2_tx_bytes b.transactions
    rest ← chunk_payload bs
    ok (here ++ rest)

  unfoldable pub chunk_payloads : List Chunk → Outcome EncodingError (List (List ℕ))
  unfolding chunk_payload
  chunk_payloads [] = ok []
  chunk_payloads (c ∷ cs) = do p ← chunk_payload c; rest ← chunk_payloads cs; ok (p ∷ rest)

-- The sizes of the chunks in four bytes each, with zeros for those that are not there. There are at
-- most as many as the metadata has room for, since NewDABatch has checked that.
unfoldable pub put_sizes : ℕ → List (List ℕ) → List ℕ
put_sizes zero ps = []
put_sizes (suc n) [] = replicate 4 0 ++ put_sizes n []
put_sizes (suc n) (p ∷ ps) = put_uint 4 (length p % 4294967296) ++ put_sizes n ps

unfoldable pub join_all : List (List ℕ) → List ℕ
join_all [] = []
join_all (p ∷ ps) = p ++ join_all ps

unfoldable pub metadata : List (List ℕ) → List ℕ
unfolding put_sizes
metadata ps = put_uint 2 (length ps % 65536) ++ put_sizes max_num_chunks ps

-- The raw payload of the blob.
unfoldable pub blob_bytes : List (List ℕ) → List ℕ
unfolding metadata join_all
blob_bytes ps = metadata ps ++ join_all ps

-- The first `n` bytes, with zeros where there are none.
unfoldable pub padded : ℕ → List ℕ → List ℕ
padded zero bytes = []
padded (suc n) [] = 0 ∷ padded n []
padded (suc n) (b ∷ bytes) = b ∷ padded n bytes

-- The words of 32 bytes of a blob: a zero byte, and the next 31 bytes.
unfoldable pub field_elements : ℕ → List ℕ → List ℕ
unfolding padded
field_elements zero bytes = []
field_elements (suc n) bytes = 0 ∷ (padded 31 bytes ++ field_elements n (drop 31 bytes))

-- makeBlobCanonical
unfoldable pub make_blob_canonical : List ℕ → Outcome EncodingError (List ℕ)
unfolding field_elements
make_blob_canonical bytes =
    if ltb 126976 (length bytes) then err oversized_payload else ok (field_elements 4096 bytes)

-- The preimage of the challenge behind the hash of the metadata: the hashes of the chunks' data,
-- of which the last one fills up the rest.
unfoldable pub data_hashes : (List ℕ → ℕ) → ℕ → ℕ → List (List ℕ) → List ℕ
data_hashes keccak256 zero last ps = []
data_hashes keccak256 (suc n) last [] = put_uint 32 last ++ data_hashes keccak256 n last []
data_hashes keccak256 (suc n) last (p ∷ ps) =
    put_uint 32 (keccak256 p) ++ data_hashes keccak256 n (keccak256 p) ps

unfoldable pub challenge_point : (List ℕ → ℕ) → List (List ℕ) → ℕ
unfolding metadata data_hashes
challenge_point keccak256 ps =
    keccak256 (put_uint 32 (keccak256 (metadata ps)) ++ data_hashes keccak256 max_num_chunks 0 ps)
    % bls_modulus

-- constructBlobPayload
unfoldable pub construct_blob_payload :
    Marshaller → Hasher → List Chunk → Outcome EncodingError (List ℕ × ℕ)
unfolding chunk_payloads blob_bytes make_blob_canonical challenge_point
construct_blob_payload m k cs = chunk_payloads m cs >>= λ ps.
    make_blob_canonical (blob_bytes ps) >>= λ blob. ok (blob, challenge_point k.keccak256 ps)

abbrev committed : Option ℕ → Outcome EncodingError ℕ
committed none = err no_commitment
committed (some h) = ok h

-- NewDABatch, where `blob_hash` is the versioned hash of the commitment to a blob
unfoldable pub new_da_batch_v1 :
    Marshaller → Hasher → (List ℕ → Option ℕ) → Batch → Outcome EncodingError DaBatchV1
unfolding compute_batch_data_hash construct_blob_payload
new_da_batch_v1 m k blob_hash b =
    if ltb max_num_chunks (length b.chunks)
    then err too_many_chunks
    else if length b.chunks == 0
    then err too_few_chunks
    else do
      data_hash ← compute_batch_data_hash k b.chunks b.total_l1_message_popped_before
      bitmap ← construct_skipped_bitmap b.chunks b.total_l1_message_popped_before
      payload ← construct_blob_payload m k b.chunks
      versioned ← committed (blob_hash payload.0)
      ok (record {
        version = codec_v1_version;
        batch_index = b.index;
        l1_message_popped = sub64 bitmap.1 b.total_l1_message_popped_before;
        total_l1_message_popped = bitmap.1;
        data_hash = data_hash;
        blob_versioned_hash = versioned;
        parent_batch_hash = b.parent_batch_hash;
        skipped_l1_message_bitmap = bitmap.0;
        blob = some payload.0;
        z = some payload.1;
      })

-- (b *DABatch) Encode
unfoldable pub encode_batch_v1 : DaBatchV1 → List ℕ
encode_batch_v1 b =
    put_uint 1 b.version
    ++ (put_uint 8 b.batch_index
        ++ (put_uint 8 b.l1_message_popped
            ++ (put_uint 8 b.total_l1_message_popped
                ++ (put_uint 32 b.data_hash
                    ++ (put_uint 32 b.blob_versioned_hash
                        ++ (put_uint 32 b.parent_batch_hash ++ b.skipped_l1_message_bitmap))))))

-- NewDABatchFromBytes
unfoldable pub new_da_batch_from_bytes_v1 : List ℕ → Outcome EncodingError DaBatchV1
new_da_batch_from_bytes_v1 bytes =
    if ltb (length bytes) 121
    then err insufficient_data
    else ok (record {
      version = field_at 0 1 bytes;
      batch_index = field_at 1 8 bytes;
      l1_message_popped = field_at 9 8 bytes;
      total_l1_message_popped = field_at 17 8 bytes;
      data_hash = field_at 25 32 bytes;
      blob_versioned_hash = field_at 57 32 bytes;
      parent_batch_hash = field_at 89 32 bytes;
      skipped_l1_message_bitmap = drop 121 bytes;
      blob = none;
      z = none;
    })

module _ (m : Marshaller) where
  -- chunkL1CommitBlobDataSize, over the transactions of a block and over the blocks
  unfoldable pub l2_tx_size : List TransactionData → Outcome EncodingError ℕ
  l2_tx_size [] = ok 0
  l2_tx_size (tx ∷ txs) =
      let rest = l2_tx_size txs in
      if not (is_l1_message tx)
      then (do bs ← convert_tx_data_to_rlp_encoding m tx; r ← rest; ok (add64 (length bs) r))
      else rest

  unfoldable pub chunk_l1_commit_blob_data_size : Chunk → Outcome EncodingError ℕ
  unfolding l2_tx_size
  chunk_l1_commit_blob_data_size [] = ok 0
  chunk_l1_commit_blob_data_size (b ∷ bs) = do
    here ← l2_tx_size b.transactions
    rest ← chunk_l1_commit_blob_data_size bs
    ok (add64 here rest)

  abbrev pub padded_size : ℕ → ℕ
  padded_size data_size = mul64 (add64 (add64 (2 + 4 * max_num_chunks) data_size) 30 / 31) 32

  -- EstimateChunkL1CommitBlobSize
  unfoldable pub estimate_chunk_l1_commit_blob_size : Chunk → Outcome EncodingError ℕ
  unfolding chunk_l1_commit_blob_data_size
  estimate_chunk_l1_commit_blob_size c =
      chunk_l1_commit_blob_data_size c >>= λ n. ok (padded_size n)

  unfoldable pub batch_data_size : List Chunk → Outcome EncodingError ℕ
  unfolding chunk_l1_commit_blob_data_size
  batch_data_size [] = ok 0
  batch_data_size (c ∷ cs) = do
    here ← chunk_l1_commit_blob_data_size c
    rest ← batch_data_size cs
    ok (add64 here rest)

  -- EstimateBatchL1CommitBlobSize
  unfoldable pub estimate_batch_l1_commit_blob_size : List Chunk → Outcome EncodingError ℕ
  unfolding batch_data_size
  estimate_batch_l1_commit_blob_size cs = batch_data_size cs >>= λ n. ok (padded_size n)
