-- ===== src/Relayer/Finalize.antt =====
-- ProcessCommittedBatches and finalizeBatch: rollup/internal/controller/relayer/l2_relayer.go.
use scroll.Common.{
  ℕ, ◌+◌, ◌%◌, Bool, true, false, ◌&&◌, Option, none, some, List, [], ◌∷◌, length, ltb, ◌==◌,
  if◌then◌else◌, Outcome, ok, err, ◌>>=◌,
}
use scroll.Coordinator.{
  ProvingStatus, undefined, unassigned, assigned, proved_deprecated, verified, failed,
}
use scroll.Relayer.{
  Batch, Chunk, Db, State, Tx, Env, Call, rollup_finalizing, sender_finalize_batch, Round, attempt,
  fetch, send, get_batches, get_verified_proof, update_status, RelayerError, query_failed, no_chunk,
  proof_not_ready, wrong_proof_length, batch_status_unknown,
}
use scroll.Relayer.Tables.{
  order_by, get_committed_batches, get_verified_proof_by_hash,
  update_finalize_tx_hash_and_rollup_status,
}
use scroll.Relayer.Payloads.{
  found, read_chunks, read_blocks, construct_finalize_batch_payload_codec_v0,
  construct_finalize_batch_payload_codec_v1,
}
use scroll.Relayer.Commit.{read_parent}

-- The end block of the last chunk.
unfoldable pub last_end_block : ℕ → List Chunk → ℕ
last_end_block n [] = n
last_end_block n (c ∷ cs) = last_end_block c.end_block_number cs

-- BatchProof.SanityCheck
unfoldable pub sanity_check : List ℕ → Outcome RelayerError (List ℕ)
sanity_check proof =
    if length proof == 0
    then err proof_not_ready
    else if length proof % 32 == 0
    then ok proof
    else err wrong_proof_length

module _ (env : Env) where
  -- getBatchStatusByIndex; chunks start at different blocks, so their order is unique.
  unfoldable pub get_batch_status_by_index : Db → Batch → Outcome RelayerError Bool
  unfolding read_chunks order_by last_end_block
  get_batch_status_by_index db b = read_chunks env db b >>= λ cs.
      elim (order_by (λ c. c.start_block_number) cs) [
        | [] ↦ err no_chunk
        | c ∷ rest ↦
            elim (env.batch_status b.index c.start_block_number
              (last_end_block c.end_block_number rest)) [
                | none ↦ err batch_status_unknown
                | some status ↦ ok status
              ]
      ]

  -- The aggregated proof, if the batch is finalized with one.
  unfoldable pub read_proof : Db → Batch → Bool → Outcome RelayerError (Option (List ℕ))
  unfolding get_verified_proof_by_hash sanity_check
  read_proof db b false = ok none
  read_proof db b true =
      (if env.fails get_verified_proof b.hash
        then err query_failed
        else get_verified_proof_by_hash env.decode_proof b.hash db.batches)
      >>= λ proof. sanity_check proof >>= λ proof. ok (some proof)

  unfoldable pub finalize_call :
      Db → Batch → Batch → List Chunk → Option (List ℕ) → Outcome RelayerError Call
  unfolding read_blocks construct_finalize_batch_payload_codec_v0
      construct_finalize_batch_payload_codec_v1
  finalize_call db b parent [] proof = err no_chunk
  finalize_call db b parent (c ∷ cs) proof =
      if env.is_bernoulli c.start_block_number
      then (read_blocks env db (c ∷ cs) >>= λ chunks.
          construct_finalize_batch_payload_codec_v1 env b parent (c ∷ cs) chunks proof)
      else ok (construct_finalize_batch_payload_codec_v0 env b parent proof)

  abbrev pub finalize_tx : Batch → List ℕ → Tx
  finalize_tx b bytes = record {
    sender_type = sender_finalize_batch;
    context_id = b.hash;
    data_bytes = bytes;
    blob = none;
    fallback_gas_limit = 0;
  }

  -- finalizeBatch behind the question to the chain monitor, up to SendTransaction.
  unfoldable pub prepare_finalize : Db → Batch → Bool → Outcome RelayerError Tx
  unfolding read_parent read_chunks read_proof finalize_call
  prepare_finalize db b with_proof = read_parent env db b >>= λ parent.
      read_chunks env db b >>= λ cs. read_proof db b with_proof >>= λ proof.
      finalize_call db b parent cs proof >>= λ call.
      found (env.pack call) >>= λ bytes. ok (finalize_tx b bytes)

  abbrev pub finalize_write : Batch → ℕ → List Batch → List Batch
  finalize_write b tx_hash =
      update_finalize_tx_hash_and_rollup_status env.now b.hash tx_hash rollup_finalizing

  unfoldable pub finalize_checked : Batch → Bool → State → Round
  unfolding prepare_finalize
  finalize_checked b with_proof st = attempt (prepare_finalize st.db b with_proof) st (λ tx.
      send (env.send_transaction tx) (env.fails update_status b.hash) tx (finalize_write b) st)

  -- The question to the chain monitor, if it is enabled. A bad status ends the function without an
  -- error, since what it returns is the nil error of the call before.
  abbrev pub by_monitor : Bool → Outcome RelayerError Bool → State → Round → Round
  by_monitor false status st next = next
  by_monitor true (err e) st next = (some e, st)
  by_monitor true (ok false) st next = (none, st)
  by_monitor true (ok true) st next = next

  -- finalizeBatch
  unfoldable pub finalize : Batch → Bool → State → Round
  unfolding get_batch_status_by_index finalize_checked
  finalize b with_proof st =
      by_monitor env.chain_monitor_enabled (get_batch_status_by_index st.db b) st
        (finalize_checked b with_proof st)

  -- A committed batch may be finalized without a proof only in a test environment, late enough.
  abbrev pub is_bypassed : Batch → Bool
  is_bypassed b = elim b.committed_at [
    | none ↦ false
    | some at ↦
        env.enable_test_env_bypass_features
        && ltb (at + env.finalize_batch_without_proof_timeout) env.now
  ]

  abbrev pub by_bypass : Bool → State → Round → Round
  by_bypass true st next = next
  by_bypass false st next = (none, st)

  -- The switch on the proving status: what to do with the proof, and without it.
  abbrev pub by_status : ProvingStatus → Bool → State → Round → Round → Round
  by_status verified bypassed st proved unproved = proved
  by_status unassigned bypassed st proved unproved = by_bypass bypassed st unproved
  by_status assigned bypassed st proved unproved = by_bypass bypassed st unproved
  by_status undefined bypassed st proved unproved = (none, st)
  by_status proved_deprecated bypassed st proved unproved = (none, st)
  by_status failed bypassed st proved unproved = (none, st)

  -- The first committed batch, if there is one.
  unfoldable pub finalize_first : List Batch → State → Round
  unfolding finalize
  finalize_first [] st = (none, st)
  finalize_first (b ∷ bs) st =
      by_status b.proving_status (is_bypassed b) st (finalize b true st) (finalize b false st)

  -- ProcessCommittedBatches
  unfoldable pub process_committed_batches : State → Round
  unfolding get_committed_batches finalize_first
  process_committed_batches st =
      fetch (env.fails get_batches 0) st (finalize_first (get_committed_batches 1 st.db.batches) st)
