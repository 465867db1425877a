-- ===== src/Relayer/Payloads.antt =====
-- The calldata of the relayer's transactions:
-- rollup/internal/controller/relayer/l2_relayer.go, the functions construct*Payload*.
use scroll.Common.{ℕ, Option, none, some, List, [], ◌∷◌, if◌then◌else◌, Outcome, ok, err, ◌>>=◌}
use scroll.Encoding.{EncodingError}
use scroll.Encoding.CodecV0.{new_da_batch_from_bytes, new_da_chunk, encode_chunk}
use scroll.Relayer.{
  Batch, Chunk, Db, Call, commit_batch, finalize_batch, finalize_batch_with_proof,
  finalize_batch_4844, finalize_batch_with_proof_4844, Env, BlobBatch, get_chunks_in_range,
  get_l2_blocks_in_range, RelayerError, query_failed, payload_failed, no_chunk,
}
use scroll.Relayer.Tables.{get_chunks_in_range_rows, get_l2_blocks_in_range_rows}

-- The failures of a codec or of the ABI.
abbrev pub encoded : {A : Type 0} → Outcome EncodingError A → Outcome RelayerError A
encoded (ok a) = ok a
encoded (err e) = err payload_failed

abbrev pub found : {A : Type 0} → Option A → Outcome RelayerError A
found none = err payload_failed
found (some a) = ok a

module _ (env : Env) where
  -- GetChunksInRange with the failures of the database.
  unfoldable pub read_chunks : Db → Batch → Outcome RelayerError (List Chunk)
  unfolding get_chunks_in_range_rows
  read_chunks db b =
      if env.fails get_chunks_in_range b.index
      then err query_failed
      else get_chunks_in_range_rows b.start_chunk_index b.end_chunk_index db.chunks

  -- The loop over the chunks that fetches their blocks.
  unfoldable pub read_blocks : Db → List Chunk → Outcome RelayerError (List scroll.Encoding.Chunk)
  unfolding get_l2_blocks_in_range_rows
  read_blocks db [] = ok []
  read_blocks db (c ∷ cs) =
      (if env.fails get_l2_blocks_in_range c.index
        then err query_failed
        else get_l2_blocks_in_range_rows c.start_block_number c.end_block_number db.blocks)
      >>= λ blocks. read_blocks db cs >>= λ chunks. ok (blocks ∷ chunks)

  -- The loop that encodes the chunks with codec version 0; both lists are as long.
  unfoldable pub encode_chunks_v0 :
      List Chunk → List scroll.Encoding.Chunk → Outcome RelayerError (List (List ℕ))
  unfolding new_da_chunk encode_chunk
  encode_chunks_v0 [] chunks = ok []
  encode_chunks_v0 (c ∷ cs) [] = err payload_failed
  encode_chunks_v0 (c ∷ cs) (blocks ∷ chunks) =
      encoded (new_da_chunk blocks c.total_l1_messages_popped_before) >>= λ da.
      encoded (encode_chunk env.marshaller da) >>= λ bytes.
      encode_chunks_v0 cs chunks >>= λ rest. ok (bytes ∷ rest)

  unfoldable pub encode_chunks_v1 :
      List Chunk → List scroll.Encoding.Chunk → Outcome RelayerError (List (List ℕ))
  encode_chunks_v1 [] chunks = ok []
  encode_chunks_v1 (c ∷ cs) [] = err payload_failed
  encode_chunks_v1 (c ∷ cs) (blocks ∷ chunks) =
      found (env.encode_blob_chunk blocks c.total_l1_messages_popped_before) >>= λ bytes.
      encode_chunks_v1 cs chunks >>= λ rest. ok (bytes ∷ rest)

  -- constructCommitBatchPayloadCodecV0: the call before it is packed
  unfoldable pub construct_commit_batch_payload_codec_v0 :
      Batch → Batch → List Chunk → List scroll.Encoding.Chunk → Outcome RelayerError Call
  unfolding new_da_batch_from_bytes encode_chunks_v0
  construct_commit_batch_payload_codec_v0 b parent cs chunks =
      encoded (new_da_batch_from_bytes b.batch_header) >>= λ da.
      encode_chunks_v0 cs chunks >>= λ bytes.
      ok (commit_batch da.version parent.batch_header bytes da.skipped_l1_message_bitmap)

  -- The batch that both payloads of codec version 1 build.
  unfoldable pub blob_batch :
      Batch → Batch → List Chunk → List scroll.Encoding.Chunk → Outcome RelayerError BlobBatch
  blob_batch b parent [] chunks = err no_chunk
  blob_batch b parent (c ∷ cs) chunks = found (
      env.new_blob_batch (record {
        index = b.index;
        total_l1_message_popped_before = c.total_l1_messages_popped_before;
        parent_batch_hash = parent.hash;
        chunks = chunks;
      }))

  -- constructCommitBatchPayloadCodecV1
  unfoldable pub construct_commit_batch_payload_codec_v1 :
      Batch → Batch → List Chunk → List scroll.Encoding.Chunk → Outcome RelayerError (Call × List ℕ)
  unfolding blob_batch encode_chunks_v1
  construct_commit_batch_payload_codec_v1 b parent cs chunks =
      blob_batch b parent cs chunks >>= λ da. encode_chunks_v1 cs chunks >>= λ bytes.
      ok (commit_batch da.version parent.batch_header bytes da.skipped_l1_message_bitmap, da.blob)

  -- constructFinalizeBatchPayloadCodecV0
  unfoldable pub construct_finalize_batch_payload_codec_v0 : Batch → Batch → Option (List ℕ) → Call
  construct_finalize_batch_payload_codec_v0 b parent none =
      finalize_batch b.batch_header parent.state_root b.state_root b.withdraw_root
  construct_finalize_batch_payload_codec_v0 b parent (some proof) =
      finalize_batch_with_proof b.batch_header parent.state_root b.state_root b.withdraw_root proof

  -- constructFinalizeBatchPayloadCodecV1
  unfoldable pub construct_finalize_batch_payload_codec_v1 :
      Batch
      → Batch
      → List Chunk
      → List scroll.Encoding.Chunk
      → Option (List ℕ)
      → Outcome RelayerError Call
  unfolding blob_batch
  construct_finalize_batch_payload_codec_v1 b parent cs chunks none =
      blob_batch b parent cs chunks >>= λ da. found da.blob_data_proof >>= λ data_proof.
      ok (
        finalize_batch_4844 b.batch_header parent.state_root b.state_root b.withdraw_root
          data_proof)
  construct_finalize_batch_payload_codec_v1 b parent cs chunks (some proof) =
      blob_batch b parent cs chunks >>= λ da. found da.blob_data_proof >>= λ data_proof. ok (
        finalize_batch_with_proof_4844 b.batch_header parent.state_root b.state_root b.withdraw_root
          data_proof proof)
