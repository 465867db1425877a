-- ===== src/Relayer/Commit.antt =====
-- ProcessPendingBatches: rollup/internal/controller/relayer/l2_relayer.go.
use scroll.Common.{
  ℕ, ◌-◌, Option, none, some, List, [], ◌∷◌, ◌==◌, if◌then◌else◌, Outcome, ok, err, ◌>>=◌,
}
use scroll.Relayer.{
  Batch, Chunk, Db, State, Tx, Env, Call, rollup_committing, sender_commit_batch, Round, attempt,
  proceed, fetch, send, get_batches, get_batch_by_index, update_status, RelayerError, query_failed,
  no_chunk, batch_index_is_zero, batch_not_found,
}
use scroll.Relayer.Tables.{
  is_commit_failed, get_failed_and_pending_batches, get_batch_by_index_row,
  update_commit_tx_hash_and_rollup_status,
}
use scroll.Relayer.Payloads.{
  found, read_chunks, read_blocks, construct_commit_batch_payload_codec_v0,
  construct_commit_batch_payload_codec_v1,
}

module _ (env : Env) where
  -- The batch before a batch.
  unfoldable pub read_parent : Db → Batch → Outcome RelayerError Batch
  unfolding get_batch_by_index_row
  read_parent db b =
      if b.index == 0
      then err batch_index_is_zero
      else if env.fails get_batch_by_index b.index
      then err query_failed
      else elim (get_batch_by_index_row (b.index - 1) db.batches) [
        | none ↦ err batch_not_found
        | some parent ↦ ok parent
      ]

  -- The call of the contract, with the blob of codec version 1.
  unfoldable pub commit_call :
      Batch
      → Batch
      → List Chunk
      → List scroll.Encoding.Chunk
      → Outcome RelayerError (Call × Option (List ℕ))
  unfolding construct_commit_batch_payload_codec_v0 construct_commit_batch_payload_codec_v1
  commit_call b parent [] chunks = err no_chunk
  commit_call b parent (c ∷ cs) chunks =
      if env.is_bernoulli c.start_block_number
      then (construct_commit_batch_payload_codec_v1 env b parent (c ∷ cs) chunks >>= λ p.
          ok (p.0, some p.1))
      else (construct_commit_batch_payload_codec_v0 env b parent (c ∷ cs) chunks >>= λ call.
          ok (call, none))

  abbrev pub commit_tx : Batch → List ℕ → Option (List ℕ) → Tx
  commit_tx b bytes blob = record {
    sender_type = sender_commit_batch;
    context_id = b.hash;
    data_bytes = bytes;
    blob = blob;
    fallback_gas_limit =
        if is_commit_failed b.rollup_status then 0 else env.scale_gas b.total_l1_commit_gas;
  }

  -- A round up to the call of SendTransaction.
  unfoldable pub prepare_commit : Db → Batch → Outcome RelayerError Tx
  unfolding read_chunks read_blocks read_parent commit_call
  prepare_commit db b = read_chunks env db b >>= λ cs. read_blocks env db cs >>= λ chunks.
      read_parent db b >>= λ parent. commit_call b parent cs chunks >>= λ p.
      found (env.pack p.0) >>= λ bytes. ok (commit_tx b bytes p.1)

  abbrev pub commit_write : Batch → ℕ → List Batch → List Batch
  commit_write b tx_hash =
      update_commit_tx_hash_and_rollup_status env.now b.hash tx_hash rollup_committing

  -- A round of the loop.
  unfoldable pub commit_one : Batch → State → Round
  unfolding prepare_commit
  commit_one b st =
      attempt (prepare_commit st.db b) st (λ tx.
        send (env.send_transaction tx) (env.fails update_status b.hash) tx (commit_write b) st)

  -- The loop over the batches, which an error ends.
  unfoldable pub commit_all : List Batch → State → Round
  unfolding commit_one
  commit_all [] st = (none, st)
  commit_all (b ∷ bs) st = proceed (commit_one b st) (commit_all bs)

  -- ProcessPendingBatches
  unfoldable pub process_pending_batches : State → Round
  unfolding get_failed_and_pending_batches commit_all
  process_pending_batches st =
      fetch (env.fails get_batches 0) st
        (commit_all (get_failed_and_pending_batches 5 st.db.batches) st)
