-- ===== src/Coordinator/SubmitProof.antt =====
-- The receiver of proofs: coordinator/internal/logic/submitproof/proof_receiver.go.
-- The verifier is a foreign library, so its answer enters as a function, with `none` for an error.
-- The environment says which database calls fail; a failed call inside a transaction rolls the
-- transaction back. Statements of other handlers between the calls are not modelled. Log lines
-- and counters are left out.
pub mod Updates
pub mod Closing
pub mod Handling
pub mod Acceptance
use Prim.Native.String.{String}
use text.Mathlib.Text.{◌==◌ as str_eq}
use scroll.Common.{
  ℕ, ◌-◌, Bool, true, false, not, ◌&&◌, ◌||◌, Option, none, some, List, [], ◌∷◌, find_first, ◌==◌,
  if◌then◌else◌,
}
use scroll.Coordinator.{
  ProvingStatus, undefined, verified, ProverProveStatus, prover_proof_valid, prover_proof_invalid,
  FailureType, failure_undefined, failure_submit_status_not_ok, failure_verified_failed,
  failure_server_error, chunk_proofs_ready, ProofType, proof_type_chunk, proof_type_batch,
  proof_type_undefined, RespStatus, status_ok, status_proof_error, is_verified, is_prover,
  is_timeout, ProverTask, Db,
}
use scroll.Coordinator.Orm.{
  get_proving_status, update_proof_and_proving_status, decrease_active_attempts, check_ready,
  update_chunk_proofs_status, get_task_by_uuid, get_assigned_task, update_task_proof,
  update_task_status,
}
use scroll.Coordinator.ProofStatus.{
  ProofMsg, UpdateFaults, stored_status, check_is_task_success, decrease_attempts, store_proof,
  has_table, store_if_valid, update_transaction, check_are_all_chunk_proofs_ready, is_chunk,
  after_transaction, update_proof_status,
}

pub record Verifier : Type 0 where
  pub verify_chunk_proof : ProofMsg → Option Bool
  pub verify_batch_proof : ProofMsg → Option Bool

pub record Env : Type 0 where
  pub verifier : Verifier
  pub now : ℕ
  pub task_read_fails : Bool
  pub task_proof_write_fails : Bool
  pub status_read_fails : Bool
  pub close_faults : UpdateFaults
  pub recover_faults : UpdateFaults

pub data SubmitError : Type 0 where
  no_public_key no_prover_version : SubmitError
  prover_task_empty cannot_submit_twice proof_msg_status_not_ok proof_timeout : SubmitError
  task_have_verified_success verified_failed invalid_proof internal_failure : SubmitError

-- proofRecover: an error is only logged.
unfoldable pub proof_recover : Env → Db → ProverTask → FailureType → ProofMsg → Db
unfolding update_proof_status
proof_recover env db task failure msg =
    (update_proof_status env.recover_faults db task msg prover_proof_invalid failure 0 env.now).1

-- closeProofTask
unfoldable pub close_proof_task : Env → Db → ProverTask → ProofMsg → ℕ → Bool × Db
unfolding update_proof_status
close_proof_task env db task msg time =
    update_proof_status env.close_faults db task msg prover_proof_valid failure_undefined time
      env.now

-- updateProverTaskProof; an error is only logged.
pub update_prover_task_proof : Env → Db → ProverTask → ProofMsg → Db
unfolding update_task_proof
update_prover_task_proof env db task msg = elim (if has_table msg.type then msg.proof else none) [
  | none ↦ db
  | some [] ↦ db
  | some (b ∷ bs) ↦
      if env.task_proof_write_fails
      then db
      else record db { prover_tasks = update_task_proof task.uuid (b ∷ bs) db.prover_tasks }
]

abbrev pub is_status_ok : RespStatus → Bool
is_status_ok s = elim s [ status_ok ↦ true | status_proof_error ↦ false ]

-- validator
unfoldable pub validator : Env → Db → ProverTask → ProofMsg → Option SubmitError × Db
unfolding proof_recover update_prover_task_proof check_is_task_success
validator env db task msg =
    if is_prover task.proving_status prover_proof_valid
      || is_prover task.proving_status prover_proof_invalid
    then (some cannot_submit_twice, db)
    else if not (is_status_ok msg.status)
    then (some proof_msg_status_not_ok, proof_recover env db task failure_submit_status_not_ok msg)
    else if is_timeout task.failure_type
    then (some proof_timeout, db)
    else let db' = update_prover_task_proof env db task msg in
      if check_is_task_success env.status_read_fails db' msg.id msg.type
      then (some task_have_verified_success, db')
      else (none, db')

-- The verifier's answer for the type of the proof; no call is made for another type.
unfoldable pub verify : Verifier → ProofMsg → ProofType → Option Bool
verify v msg proof_type_chunk = v.verify_chunk_proof msg
verify v msg proof_type_batch = v.verify_batch_proof msg
verify v msg proof_type_undefined = some false

-- The end of `HandleZkProof`, from the verifier's answer.
unfoldable pub close_if_valid :
    Env → Db → ProverTask → ProofMsg → Option Bool → Option SubmitError × Db
unfolding proof_recover close_proof_task
close_if_valid env db task msg none =
    (some verified_failed, proof_recover env db task failure_verified_failed msg)
close_if_valid env db task msg (some false) =
    (some invalid_proof, proof_recover env db task failure_verified_failed msg)
close_if_valid env db task msg (some true) =
    let (closed, db') = close_proof_task env db task msg (env.now - task.created_at) in
    if closed
    then (none, db')
    else (some internal_failure, proof_recover env db' task failure_server_error msg)

-- The part of `HandleZkProof` behind the validator, whose error ends the handler.
unfoldable pub verify_and_close :
    Env → ProverTask → ProofMsg → Option SubmitError × Db → Option SubmitError × Db
unfolding verify close_if_valid
verify_and_close env task msg (some e, db) = (some e, db)
verify_and_close env task msg (none, db) =
    close_if_valid env db task msg (verify env.verifier msg msg.type)

-- The part of `HandleZkProof` behind the search for the prover task.
unfoldable pub handle_task : Env → Db → ProofMsg → Option ProverTask → Option SubmitError × Db
unfolding validator verify_and_close
handle_task env db msg none = (some prover_task_empty, db)
handle_task env db msg (some task) = verify_and_close env task msg (validator env db task msg)

-- The prover task that a submission names, by its UUID if it has one.
unfoldable pub find_task : Db → String → String → Option ℕ → ProofMsg → Option ProverTask
unfolding get_task_by_uuid get_assigned_task
find_task db pk pv (some uuid) msg = get_task_by_uuid uuid pk db.prover_tasks
find_task db pk pv none msg = get_assigned_task msg.type msg.id pk pv db.prover_tasks

-- HandleZkProof: the public key and the prover version stand in the request's context.
unfoldable pub handle_zk_proof :
    Env → Db → String → String → Option ℕ → ProofMsg → Option SubmitError × Db
unfolding find_task handle_task
handle_zk_proof env db pk pv uuid msg =
    if str_eq pk ""
    then (some no_public_key, db)
    else if str_eq pv ""
    then (some no_prover_version, db)
    else handle_task env db msg (if env.task_read_fails then none else find_task db pk pv uuid msg)
