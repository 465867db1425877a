-- ===== src/Coordinator/Orm.antt =====
-- The queries of coordinator/internal/orm/{chunk,batch,prover_task}.go, each as its effect on the
-- rows when the database carries it out. Whether it does is decided by the callers' fault flags.
pub mod Rows
use Prim.Native.String.{String}
use text.Mathlib.Text.{◌==◌ as str_eq}
use scroll.Common.{
  ℕ, zero, suc, ◌+◌, ◌-◌, Bool, true, false, not, ◌&&◌, Option, none, some, List, [], ◌∷◌, ◌++◌,
  ltb, leb, ◌==◌, if◌then◌else◌, update_where, find_first, count_where,
}
use scroll.Coordinator.{
  ProvingStatus, undefined, assigned, verified, failed, proving_code, ProverProveStatus,
  prover_assigned, prover_proof_valid, prover_proof_invalid, prover_code, FailureType,
  ChunkProofsStatus, ProofType, is_verified, is_prover, type_code, Row, ChunkInfo, Chunk, Batch,
  ProverTask,
}

module _ {I : Type 0} where
  -- GetProvingStatusByHash: `Find` into a zero record, so a missing row reads as undefined.
  unfoldable pub get_proving_status : ℕ → List (Row I) → ProvingStatus
  get_proving_status h rows = elim (find_first (λ r. r.hash == h) rows) [
    | none ↦ undefined
    | some r ↦ r.proving_status
  ]

  -- UpdateProvingStatusFailed. The last condition compares a proving status with the code of
  -- `ProverProofValid`, a status of another type.
  abbrev pub fails_at : ℕ → ℕ → Row I → Bool
  fails_at h max_attempts r =
      (r.hash == h)
      && (leb max_attempts r.total_attempts
          && not (proving_code r.proving_status == prover_code prover_proof_valid))

  abbrev pub set_failed : Row I → Row I
  set_failed r = record r { proving_status = failed }

  unfoldable pub update_proving_status_failed : ℕ → ℕ → List (Row I) → List (Row I)
  unfolding update_where
  update_proving_status_failed h max_attempts = update_where (fails_at h max_attempts) set_failed

  -- UpdateProofAndProvingStatusByHash
  abbrev pub set_proof : List ℕ → ProvingStatus → ℕ → ℕ → Row I → Row I
  set_proof proof status proof_time_sec now r = record r {
    proof = some proof;
    proving_status = status;
    proof_time_sec = proof_time_sec;
    proved_at = some now;
  }

  unfoldable pub update_proof_and_proving_status :
      ℕ → List ℕ → ProvingStatus → ℕ → ℕ → List (Row I) → List (Row I)
  unfolding update_where
  update_proof_and_proving_status h proof status proof_time_sec now =
      update_where (λ r. r.hash == h) (set_proof proof status proof_time_sec now)

  -- UpdateChunkAttempts and UpdateBatchAttempts: a compare-and-swap on the attempts, which
  -- returns the number of rows that it changed.
  abbrev pub has_attempts : ℕ → ℕ → ℕ → Row I → Bool
  has_attempts index active total r =
      (r.index == index) && ((r.active_attempts == active) && (r.total_attempts == total))

  abbrev pub set_assigned : Row I → Row I
  set_assigned r = record r {
    proving_status = assigned;
    total_attempts = r.total_attempts + 1;
    active_attempts = r.active_attempts + 1;
  }

  unfoldable pub update_attempts : ℕ → ℕ → ℕ → List (Row I) → ℕ × List (Row I)
  unfolding update_where count_where
  update_attempts index active total rows = (
    count_where (has_attempts index active total) rows,
    update_where (has_attempts index active total) set_assigned rows,
  )

  -- DecreaseActiveAttemptsByHash
  abbrev pub is_active_at : ℕ → Row I → Bool
  is_active_at h r =
      (r.hash == h) && (not (is_verified r.proving_status) && ltb 0 r.active_attempts)

  abbrev pub set_less_active : Row I → Row I
  set_less_active r = record r { active_attempts = r.active_attempts - 1 }

  unfoldable pub decrease_active_attempts : ℕ → List (Row I) → List (Row I)
  unfolding update_where
  decrease_active_attempts h = update_where (is_active_at h) set_less_active

  -- ORDER BY index LIMIT 1, among the rows that pass a test.
  unfoldable pub first_by_index : (Row I → Bool) → Option (Row I) → List (Row I) → Option (Row I)
  first_by_index p best [] = best
  first_by_index p best (r ∷ rows) =
      first_by_index p
        (if p r
          then elim best [ none ↦ some r | some b ↦ if ltb r.index b.index then some r else some b ]
          else best)
        rows

-- The WHERE clause of GetAssignedChunk and GetUnassignedChunk, which differ in the status.
abbrev pub is_assignable : ProvingStatus → ℕ → ℕ → ℕ → ℕ → Chunk → Bool
is_assignable status from to max_active max_total c =
    (proving_code c.proving_status == proving_code status)
    && (ltb c.total_attempts max_total
        && (ltb c.active_attempts max_active
            && (leb from c.info.start_block_number && ltb c.info.end_block_number to)))

unfoldable pub get_chunk : ProvingStatus → ℕ → ℕ → ℕ → ℕ → List Chunk → Option Chunk
unfolding first_by_index
get_chunk status from to max_active max_total =
    first_by_index (is_assignable status from to max_active max_total) none

-- `column = value`, where a missing value is the empty text: it equals no stored hash, and a null
-- column equals nothing.
abbrev pub same_hash : Option ℕ → Option ℕ → Bool
same_hash none none = false
same_hash none (some b) = false
same_hash (some a) none = false
same_hash (some a) (some b) = a == b

-- CheckIfBatchChunkProofsAreReady
unfoldable pub check_ready : Option ℕ → List Chunk → Bool
unfolding count_where
check_ready batch_hash chunks =
    count_where (λ c. same_hash c.info.batch_hash batch_hash && not (is_verified c.proving_status))
      chunks
    == 0

-- UpdateChunkProofsStatusByBatchHash
abbrev pub set_chunk_proofs : ChunkProofsStatus → Batch → Batch
set_chunk_proofs status b = record b { info = record (b.info) { chunk_proofs_status = status } }

unfoldable pub update_chunk_proofs_status : Option ℕ → ChunkProofsStatus → List Batch → List Batch
unfolding update_where
update_chunk_proofs_status batch_hash status =
    update_where (λ b. same_hash (some b.hash) batch_hash) (set_chunk_proofs status)

-- GetProverTaskByUUIDAndPublicKey
unfoldable pub get_task_by_uuid : ℕ → String → List ProverTask → Option ProverTask
unfolding find_first
get_task_by_uuid uuid pk = find_first (λ t. (t.uuid == uuid) && str_eq t.prover_public_key pk)

-- GetAssignedProverTaskByTaskIDAndProver
unfoldable pub get_assigned_task :
    ProofType → ℕ → String → String → List ProverTask → Option ProverTask
unfolding find_first
get_assigned_task type id pk version = find_first (λ t.
    (type_code t.task_type == type_code type)
    && ((t.task_id == id)
        && (str_eq t.prover_public_key pk
            && (str_eq t.prover_version version && is_prover t.proving_status prover_assigned))))

-- UpdateProverTaskProof
unfoldable pub update_task_proof : ℕ → List ℕ → List ProverTask → List ProverTask
unfolding update_where
update_task_proof uuid proof =
    update_where (λ t. t.uuid == uuid) (λ t. record t { proof = some proof })

-- UpdateProverTaskProvingStatusAndFailureType: the failure type is written with an invalid proof.
unfoldable pub update_task_status :
    ℕ → ProverProveStatus → FailureType → List ProverTask → List ProverTask
unfolding update_where
update_task_status uuid status failure =
    update_where (λ t. t.uuid == uuid)
      (λ t.
        if is_prover status prover_proof_invalid
        then record t { proving_status = status; failure_type = failure }
        else record t { proving_status = status })

-- IsProverAssigned
unfoldable pub is_prover_assigned : String → List ProverTask → Bool
unfolding count_where
is_prover_assigned pk tasks = ltb 0 (
    count_where (λ t. str_eq t.prover_public_key pk && is_prover t.proving_status prover_assigned)
      tasks)

-- GetTimeoutAssignedProverTasks with its limit
unfoldable pub get_timeout_tasks : ℕ → ProofType → ℕ → List ProverTask → List ProverTask
get_timeout_tasks zero type deadline tasks = []
get_timeout_tasks (suc limit) type deadline [] = []
get_timeout_tasks (suc limit) type deadline (t ∷ tasks) =
    let found = get_timeout_tasks limit type deadline tasks in
    let skipped = get_timeout_tasks (suc limit) type deadline tasks in
    if is_prover t.proving_status prover_assigned
      && ((type_code t.task_type == type_code type) && ltb t.assigned_at deadline)
    then t ∷ found
    else skipped

-- InsertProverTask
unfoldable pub insert_prover_task : ProverTask → List ProverTask → List ProverTask
insert_prover_task t tasks = tasks ++ t ∷ []
