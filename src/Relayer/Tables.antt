-- ===== src/Relayer/Tables.antt =====
-- The queries of rollup/internal/orm/{batch,chunk,l2_block}.go that the relayer uses.
use scroll.Common.{
  ℕ, Bool, true, false, ◌&&◌, Option, none, some, List, [], ◌∷◌, ltb, leb, ◌==◌, if◌then◌else◌,
  select, take, length, update_where, find_first, Outcome, ok, err, ◌>>=◌, add64, sub64,
}
use scroll.Coordinator.{is_verified}
use scroll.Relayer.{
  RollupStatus, rollup_pending, rollup_committed, rollup_finalized, rollup_commit_failed,
  GasOracleStatus, Batch, Chunk, RelayerError, invalid_range, incorrect_number, no_verified_proof,
}

module _ {A : Type 0} (key : A → ℕ) where
  -- ORDER BY key ASC
  unfoldable pub insert_by : A → List A → List A
  insert_by a [] = a ∷ []
  insert_by a (b ∷ bs) =
      let rest = insert_by a bs in if ltb (key b) (key a) then b ∷ rest else a ∷ b ∷ bs

  unfoldable pub order_by : List A → List A
  unfolding insert_by
  order_by [] = []
  order_by (a ∷ rest) = insert_by a (order_by rest)

  -- The rows whose key lies in a closed range, which have to be as many as the range has numbers.
  unfoldable pub get_in_range : ℕ → ℕ → List A → Outcome RelayerError (List A)
  unfolding order_by
  get_in_range start end rows =
      let found = order_by (select (λ a. leb start (key a) && leb (key a) end) rows) in
      if ltb end start
      then err invalid_range
      else if length found == add64 (sub64 end start) 1
      then ok found
      else err incorrect_number

-- GetChunksInRange
unfoldable pub get_chunks_in_range_rows : ℕ → ℕ → List Chunk → Outcome RelayerError (List Chunk)
unfolding get_in_range
get_chunks_in_range_rows = get_in_range (λ c. c.index)

-- GetL2BlocksInRange
unfoldable pub get_l2_blocks_in_range_rows :
    ℕ → ℕ → List scroll.Encoding.Block → Outcome RelayerError (List scroll.Encoding.Block)
unfolding get_in_range
get_l2_blocks_in_range_rows = get_in_range (λ b. b.header.number)

abbrev pub is_failed_or_pending : RollupStatus → Bool
is_failed_or_pending s = elim s [ rollup_pending ↦ true | rollup_commit_failed ↦ true | _ ↦ false ]

abbrev pub is_committed : RollupStatus → Bool
is_committed s = elim s [ rollup_committed ↦ true | _ ↦ false ]

abbrev pub is_finalized : RollupStatus → Bool
is_finalized s = elim s [ rollup_finalized ↦ true | _ ↦ false ]

abbrev pub is_commit_failed : RollupStatus → Bool
is_commit_failed s = elim s [ rollup_commit_failed ↦ true | _ ↦ false ]

-- GetFailedAndPendingBatches, for a positive limit
unfoldable pub get_failed_and_pending_batches : ℕ → List Batch → List Batch
unfolding order_by
get_failed_and_pending_batches limit batches =
    take limit
      (order_by (λ b. b.index) (select (λ b. is_failed_or_pending b.rollup_status) batches))

-- GetBatches for one batch of status committed, the first by index
unfoldable pub get_committed_batches : ℕ → List Batch → List Batch
unfolding order_by
get_committed_batches limit batches =
    take limit (order_by (λ b. b.index) (select (λ b. is_committed b.rollup_status) batches))

-- GetBatchByIndex
unfoldable pub get_batch_by_index_row : ℕ → List Batch → Option Batch
unfolding find_first
get_batch_by_index_row index = find_first (λ b. b.index == index)

-- GetLatestBatch, with the best row so far
unfoldable pub get_latest_batch_row : Option Batch → List Batch → Option Batch
get_latest_batch_row best [] = best
get_latest_batch_row best (b ∷ bs) =
    get_latest_batch_row
      (elim best [ none ↦ some b | some a ↦ if ltb a.index b.index then some b else some a ]) bs

-- GetVerifiedProofByHash: `Find` into a zero record, whose empty proof does not decode.
abbrev pub proof_found : {A : Type 0} → Option A → Outcome RelayerError A
proof_found none = err no_verified_proof
proof_found (some a) = ok a

unfoldable pub get_verified_proof_by_hash :
    (List ℕ → Option (List ℕ)) → ℕ → List Batch → Outcome RelayerError (List ℕ)
unfolding find_first
get_verified_proof_by_hash decode hash batches =
    proof_found (find_first (λ b. (b.hash == hash) && is_verified b.proving_status) batches)
    >>= λ b. proof_found b.proof >>= λ bytes. proof_found (decode bytes)

-- UpdateCommitTxHashAndRollupStatus
abbrev pub set_commit : ℕ → ℕ → RollupStatus → Batch → Batch
set_commit now tx_hash status b = record b {
  commit_tx_hash = some tx_hash;
  rollup_status = status;
  committed_at = if is_committed status then some now else b.committed_at;
}

unfoldable pub update_commit_tx_hash_and_rollup_status :
    ℕ → ℕ → ℕ → RollupStatus → List Batch → List Batch
unfolding update_where
update_commit_tx_hash_and_rollup_status now hash tx_hash status =
    update_where (λ b. b.hash == hash) (set_commit now tx_hash status)

-- UpdateFinalizeTxHashAndRollupStatus
abbrev pub set_finalize : ℕ → ℕ → RollupStatus → Batch → Batch
set_finalize now tx_hash status b = record b {
  finalize_tx_hash = some tx_hash;
  rollup_status = status;
  finalized_at = if is_finalized status then some now else b.finalized_at;
}

unfoldable pub update_finalize_tx_hash_and_rollup_status :
    ℕ → ℕ → ℕ → RollupStatus → List Batch → List Batch
unfolding update_where
update_finalize_tx_hash_and_rollup_status now hash tx_hash status =
    update_where (λ b. b.hash == hash) (set_finalize now tx_hash status)

-- UpdateL2GasOracleStatusAndOracleTxHash
abbrev pub set_oracle : ℕ → GasOracleStatus → Batch → Batch
set_oracle tx_hash status b = record b { oracle_status = status; oracle_tx_hash = some tx_hash }

unfoldable pub update_l2_gas_oracle_status_and_oracle_tx_hash :
    ℕ → GasOracleStatus → ℕ → List Batch → List Batch
unfolding update_where
update_l2_gas_oracle_status_and_oracle_tx_hash hash status tx_hash =
    update_where (λ b. b.hash == hash) (set_oracle tx_hash status)
