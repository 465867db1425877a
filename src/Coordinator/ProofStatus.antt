-- ===== src/Coordinator/ProofStatus.antt =====
-- The update of the statuses that a submitted proof leads to: updateProofStatus with the
-- functions that it calls, in coordinator/internal/logic/submitproof/proof_receiver.go.
-- A fault flag says which database call fails; a failed call inside the transaction rolls the
-- transaction back.

use scroll.Common.{
  ℕ, Bool, true, false, not, ◌&&◌, ◌||◌, Option, none, some, List, find_first, ◌==◌, if◌then◌else◌,
}
use scroll.Coordinator.{
  ProvingStatus, undefined, verified, ProverProveStatus, prover_proof_valid, FailureType,
  chunk_proofs_ready, ProofType, proof_type_chunk, proof_type_batch, proof_type_undefined,
  RespStatus, is_verified, is_prover, ProverTask, Db,
}
use scroll.Coordinator.Orm.{
  get_proving_status, update_proof_and_proving_status, decrease_active_attempts, check_ready,
  update_chunk_proofs_status, update_task_status,
}

-- message.ProofMsg; `proof` is the marshalled proof of the message's type, if it marshals.
pub record ProofMsg : Type 0 where
  pub id : ℕ
  pub type : ProofType
  pub status : RespStatus
  pub proof : Option (List ℕ)

-- Which of the database calls of `updateProofStatus` fail.
pub record UpdateFaults : Type 0 where
  pub task_status_fails : Bool
  pub attempts_fail : Bool
  pub status_read_fails : Bool
  pub store_fails : Bool
  pub chunk_read_fails : Bool
  pub ready_read_fails : Bool
  pub ready_write_fails : Bool

-- checkIsTaskSuccess: a failed read counts as no success.
unfoldable pub stored_status : Db → ProofType → ℕ → ProvingStatus
unfolding get_proving_status
stored_status db proof_type_chunk h = get_proving_status h db.chunks
stored_status db proof_type_batch h = get_proving_status h db.batches
stored_status db proof_type_undefined h = undefined

unfoldable pub check_is_task_success : Bool → Db → ℕ → ProofType → Bool
unfolding stored_status
check_is_task_success fails db h type = not fails && is_verified (stored_status db type h)

unfoldable pub decrease_attempts : ProofType → ℕ → Db → Db
unfolding decrease_active_attempts
decrease_attempts proof_type_chunk h db = record db {
  chunks = decrease_active_attempts h db.chunks;
}
decrease_attempts proof_type_batch h db = record db {
  batches = decrease_active_attempts h db.batches;
}
decrease_attempts proof_type_undefined h db = db

unfoldable pub store_proof : ProofType → ℕ → List ℕ → ℕ → ℕ → Db → Db
unfolding update_proof_and_proving_status
store_proof proof_type_chunk h proof time now db = record db {
  chunks = update_proof_and_proving_status h proof verified time now db.chunks;
}
store_proof proof_type_batch h proof time now db = record db {
  batches = update_proof_and_proving_status h proof verified time now db.batches;
}
store_proof proof_type_undefined h proof time now db = db

abbrev pub has_table : ProofType → Bool
has_table proof_type_undefined = false
has_table _ = true

-- What the transaction of `updateProofStatus` does behind the update of the attempts: `none`
-- rolls back. `before` is the committed state, which `checkIsTaskSuccess` reads.
unfoldable pub store_if_valid :
    UpdateFaults → Db → ProverTask → ProofMsg → ProverProveStatus → ℕ → ℕ → Db → Option Db
unfolding check_is_task_success store_proof
store_if_valid f before task msg status time now db =
    if check_is_task_success f.status_read_fails before task.task_id msg.type
    then some db
    else if not (is_prover status prover_proof_valid && has_table msg.type)
    then some db
    else elim msg.proof [
      | none ↦ none
      | some proof ↦
          if f.store_fails then none else some (store_proof msg.type msg.id proof time now db)
    ]

unfoldable pub update_transaction :
    UpdateFaults → Db → ProverTask → ProofMsg → ProverProveStatus → FailureType → ℕ → ℕ → Option Db
unfolding update_task_status decrease_attempts store_if_valid
update_transaction f db task msg status failure time now =
    if f.task_status_fails || (has_table msg.type && f.attempts_fail)
    then none
    else store_if_valid f db task msg status time now (
        decrease_attempts msg.type task.task_id (record db {
          prover_tasks = update_task_status task.uuid status failure db.prover_tasks;
        }))

-- checkAreAllChunkProofsReady, with whether it returns no error.
unfoldable pub check_are_all_chunk_proofs_ready : UpdateFaults → ℕ → Db → Bool × Db
unfolding find_first check_ready update_chunk_proofs_status
check_are_all_chunk_proofs_ready f h db =
    elim (if f.chunk_read_fails then none else find_first (λ c. c.hash == h) db.chunks) [
      | none ↦ (false, db)
      | some c ↦
          if f.ready_read_fails
          then (false, db)
          else if not (check_ready c.info.batch_hash db.chunks)
          then (true, db)
          else if f.ready_write_fails
          then (false, db)
          else (
            true,
            record db {
              batches = update_chunk_proofs_status c.info.batch_hash chunk_proofs_ready db.batches;
            },
          )
    ]

abbrev pub is_chunk : ProofType → Bool
is_chunk type = elim type [ proof_type_chunk ↦ true | _ ↦ false ]

-- The part of `updateProofStatus` behind its transaction, which has rolled back or committed.
unfoldable pub after_transaction :
    UpdateFaults → Db → ProverTask → ProofMsg → ProverProveStatus → Option Db → Bool × Db
unfolding check_are_all_chunk_proofs_ready
after_transaction f db task msg status none = (false, db)
after_transaction f db task msg status (some db') =
    if is_prover status prover_proof_valid && is_chunk msg.type
    then check_are_all_chunk_proofs_ready f task.task_id db'
    else (true, db')

-- updateProofStatus, with whether it returns no error.
unfoldable pub update_proof_status :
    UpdateFaults → Db → ProverTask → ProofMsg → ProverProveStatus → FailureType → ℕ → ℕ → Bool × Db
unfolding update_transaction after_transaction
update_proof_status f db task msg status failure time now =
    after_transaction f db task msg status
      (update_transaction f db task msg status failure time now)
