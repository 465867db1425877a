-- ===== src/Coordinator/Collector.antt =====
-- The collector of timed-out prover tasks: coordinator/internal/controller/cron/collect_proof.go.
-- One pass over the tasks that the query found; each task is one transaction, and the fault flags
-- say which of its calls fails. The ticker, the counters and the log lines are left out, and so
-- is TaskTimeoutMoreThanOnce, whose answer is only logged.
pub mod Timeouts
pub mod Proved
pub mod Batches
use scroll.Common.{ℕ, ◌-◌, Bool, ◌&&◌, ◌||◌, List, [], ◌∷◌, if◌then◌else◌}
use scroll.Coordinator.{
  prover_proof_invalid, failure_timeout, ProofType, proof_type_chunk, proof_type_batch,
  proof_type_undefined, ProverTask, Db,
}
use scroll.Coordinator.Orm.{
  update_proving_status_failed, decrease_active_attempts, update_task_status, get_timeout_tasks,
}
use scroll.Coordinator.ProofStatus.{has_table}

-- Which calls of a task's transaction fail.
pub record TimeoutFaults : Type 0 where
  pub task_status_fails : Bool
  pub attempts_fail : Bool
  pub proving_status_fails : Bool

-- The switch on the task's type: the row loses an active attempt and may fail.
unfoldable pub release : ℕ → ProofType → ℕ → Db → Db
unfolding update_proving_status_failed decrease_active_attempts
release max_attempts proof_type_chunk h db = record db {
  chunks = update_proving_status_failed h max_attempts (decrease_active_attempts h db.chunks);
}
release max_attempts proof_type_batch h db = record db {
  batches = update_proving_status_failed h max_attempts (decrease_active_attempts h db.batches);
}
release max_attempts proof_type_undefined h db = db

-- The transaction of one task.
unfoldable pub check_one : TimeoutFaults → ℕ → ProverTask → Db → Db
unfolding update_task_status release
check_one f max_attempts task db =
    if f.task_status_fails
      || (has_table task.task_type && (f.attempts_fail || f.proving_status_fails))
    then db
    else release max_attempts task.task_type task.task_id (record db {
      prover_tasks =
          update_task_status task.uuid prover_proof_invalid failure_timeout db.prover_tasks;
    })

-- check: a task whose transaction fails does not keep the others from their turn.
unfoldable pub check : (ProverTask → TimeoutFaults) → ℕ → List ProverTask → Db → Db
unfolding check_one
check faults max_attempts [] db = db
check faults max_attempts (task ∷ tasks) db =
    check faults max_attempts tasks (check_one (faults task) max_attempts task db)

-- timeoutBatchProofTask and timeoutChunkProofTask, at one tick of the clock.
unfoldable pub timeout_proof_task :
    (ProverTask → TimeoutFaults) → ℕ → Bool → ProofType → ℕ → ℕ → Db → Db
unfolding check get_timeout_tasks
timeout_proof_task faults max_attempts read_fails type timeout now db =
    if read_fails
    then db
    else check faults max_attempts (get_timeout_tasks 10 type (now - timeout) db.prover_tasks) db
