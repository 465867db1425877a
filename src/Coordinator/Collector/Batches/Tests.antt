-- ===== src/Coordinator/Collector/Batches/Tests.antt =====
-- Concrete runs of the check whether all chunks of a batch are proved.
use scroll.Common.{◌≡◌, refl, true, false, some, none, [], ◌∷◌, ℕ}
use scroll.Coordinator.{
  ProvingStatus, unassigned, assigned, verified, ChunkProofsStatus, chunk_proofs_pending,
  chunk_proofs_ready, Chunk, Batch, Db,
}
use scroll.Coordinator.Collector.Batches.{ReadyFaults, check_batch_all_chunk_ready}
use scroll.Coordinator.Collector.Batches.Pages.{check_batch-ends}
use scroll.Coordinator.Collector.Batches.Ready.{DbIsReadied, check_batch-DbIsReadied}

abbrev chunk : ℕ → ProvingStatus → ℕ → Chunk
chunk h status batch = record {
  index = h;
  hash = h;
  proving_status = status;
  proof = none;
  proved_at = none;
  proof_time_sec = 0;
  total_attempts = 1;
  active_attempts = 0;
  info = record { start_block_number = 5; end_block_number = 9; batch_hash = some batch };
}

abbrev batch : ℕ → ChunkProofsStatus → Batch
batch h status = record {
  index = h;
  hash = h;
  proving_status = unassigned;
  proof = none;
  proved_at = none;
  proof_time_sec = 0;
  total_attempts = 0;
  active_attempts = 0;
  info = record { start_chunk_index = 0; end_chunk_index = 1; chunk_proofs_status = status };
}

-- The chunk of batch 21 is proved, that of batch 22 is not.
abbrev tables : Db
tables = record {
  chunks = chunk 1 verified 21 ∷ chunk 2 assigned 22 ∷ [];
  batches = batch 22 chunk_proofs_pending ∷ batch 21 chunk_proofs_pending ∷ [];
  prover_tasks = [];
}

abbrev no_faults : ReadyFaults
no_faults = record { page_fails = λ p. false; check_fails = λ b. false; update_fails = λ b. false }

ticked :
    (check_batch_all_chunk_ready no_faults tables).1.batches
    ≡ batch 22 chunk_proofs_pending ∷ batch 21 chunk_proofs_ready ∷ []
unfolding check_batch_all_chunk_ready
ticked = refl

check_batch-ends_example : (check_batch_all_chunk_ready no_faults tables).0 ≡ true
check_batch-ends_example = check_batch-ends no_faults tables

check_batch-DbIsReadied_example :
    DbIsReadied tables (check_batch_all_chunk_ready no_faults tables).1
check_batch-DbIsReadied_example = check_batch-DbIsReadied no_faults tables
