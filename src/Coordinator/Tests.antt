-- ===== src/Coordinator/Tests.antt =====
-- Concrete runs of the coordinator's handlers.

use scroll.Common.{
  ℕ, ◌≡◌, ◌≢◌, refl, Bool, true, false, Option, none, some, [], ◌∷◌, arith, ◌==◌, find_first,
  if◌then◌else◌, if_both,
}
use scroll.Coordinator.{
  ProvingStatus, unassigned, assigned, verified, failed, prover_assigned, failure_undefined,
  proof_type_chunk, status_ok, Chunk, ProverTask, Db,
}
use scroll.Coordinator.Orm.{get_proving_status}
use scroll.Coordinator.ProofStatus.{ProofMsg, UpdateFaults}
use scroll.Coordinator.SubmitProof.{Env, SubmitError, verify, handle_zk_proof}
use scroll.Coordinator.SubmitProof.Updates.{DbIsQuiet}
use scroll.Coordinator.SubmitProof.Closing.{DbIsClosed}
use scroll.Coordinator.SubmitProof.Handling.{handle_zk_proof-DbIsClosed, handle_zk_proof-unverified}
use scroll.Coordinator.SubmitProof.Acceptance.{IsAccepted, handle_zk_proof-IsAccepted}
use scroll.Coordinator.Collector.{check}
use scroll.Coordinator.Collector.Timeouts.{DbIsReleased, check-DbIsReleased}
use scroll.Coordinator.Collector.Proved.{no_timeout_faults, check-fails-verified}
use scroll.Coordinator.Assign.{Setting, World, Prover, assign}
use scroll.Coordinator.Assign.Limits.{AllWithin, assign-AllWithin}

abbrev chunk : ProvingStatus → ℕ → ℕ → Chunk
chunk status total active = record {
  index = 1;
  hash = 11;
  proving_status = status;
  proof = none;
  proved_at = none;
  proof_time_sec = 0;
  total_attempts = total;
  active_attempts = active;
  info = record { start_block_number = 5; end_block_number = 9; batch_hash = none };
}

abbrev task : ProverTask
task = record {
  uuid = 100;
  prover_public_key = "key";
  prover_name = "prover";
  prover_version = "v4";
  task_id = 11;
  task_type = proof_type_chunk;
  proving_status = prover_assigned;
  failure_type = failure_undefined;
  proof = none;
  assigned_at = 50;
  created_at = 50;
}

abbrev tables : ProvingStatus → ℕ → ℕ → Db
tables status total active = record {
  chunks = chunk status total active ∷ [];
  batches = [];
  prover_tasks = task ∷ [];
}

abbrev no_faults : UpdateFaults
no_faults = record {
  task_status_fails = false;
  attempts_fail = false;
  status_read_fails = false;
  store_fails = false;
  chunk_read_fails = false;
  ready_read_fails = false;
  ready_write_fails = false;
}

-- A verifier of chunk proofs that gives one answer.
abbrev environment : Bool → Env
environment answer = record {
  verifier = record { verify_chunk_proof = λ m. some answer; verify_batch_proof = λ m. none };
  now = 80;
  task_read_fails = false;
  task_proof_write_fails = false;
  status_read_fails = false;
  close_faults = no_faults;
  recover_faults = no_faults;
}

abbrev message : ProofMsg
message = record { id = 11; type = proof_type_chunk; status = status_ok; proof = some (1 ∷ 2 ∷ []) }

abbrev submitted : Bool → Option SubmitError × Db
submitted answer =
    handle_zk_proof (environment answer) (tables assigned 1 1) "key" "v4" none message

handle_zk_proof-DbIsClosed_example : DbIsClosed message (tables assigned 1 1) (submitted true).1
handle_zk_proof-DbIsClosed_example =
    handle_zk_proof-DbIsClosed (environment true) (tables assigned 1 1) "key" "v4" none message

refused : verify (environment false).verifier message message.type ≢ some true
unfolding verify
refused e = cc

handle_zk_proof-unverified_example : DbIsQuiet (tables assigned 1 1) (submitted false).1
handle_zk_proof-unverified_example =
    handle_zk_proof-unverified (environment false) (tables assigned 1 1) "key" "v4" none message
      refused

accepted : (submitted true).0 ≡ none
unfolding handle_zk_proof
accepted = refl

handle_zk_proof-IsAccepted_example :
    (t : ProverTask) × IsAccepted (environment true) (tables assigned 1 1) "key" "v4" none message t
handle_zk_proof-IsAccepted_example =
    handle_zk_proof-IsAccepted (environment true) (tables assigned 1 1) "key" "v4" none message
      accepted

check-DbIsReleased_example :
    DbIsReleased 3
      (tables unassigned 3 1)
      (check (λ t. no_timeout_faults) 3 (task ∷ []) (tables unassigned 3 1))
check-DbIsReleased_example =
    check-DbIsReleased 3 (λ t. no_timeout_faults) (task ∷ []) (tables unassigned 3 1)

found_chunk :
    find_first (λ (r : Chunk). r.hash == task.task_id) (tables verified 3 1).chunks
    ≡ some (chunk verified 3 1)
unfolding find_first
found_chunk = refl

check-fails-verified_example :
    get_proving_status task.task_id
      (check (λ t. no_timeout_faults) 3 (task ∷ []) (tables verified 3 1)).chunks
    ≡ failed
check-fails-verified_example =
    check-fails-verified 3 task (tables verified 3 1) (chunk verified 3 1) refl found_chunk refl
      (omega arith)

abbrev setting : Setting
setting = record {
  provers_per_session = 2;
  session_attempts = 3;
  name_fork_map = ("curie", 4) ∷ [];
  fork_heights = 4 ∷ 20 ∷ [];
}

-- At the first try another request assigns the chunk between the read and the update.
abbrev race : ℕ → Db → Db
race n db = if n == 4 then tables assigned 1 1 else db

abbrev world : World
world = record {
  read_assigned_fails = λ n. false;
  read_unassigned_fails = λ n. false;
  between = race;
  update_fails = λ n. false;
  insert_fails = false;
  format_fails = false;
  recover_fails = false;
  now = 60;
  new_uuid = 101;
}

abbrev prover : Prover
prover = record {
  public_key = "other";
  prover_name = "other prover";
  prover_version = "v4";
  prover_height = 12;
  fork_name = "curie";
}

race-AllWithin : (n : ℕ) (db : Db) → AllWithin setting db → AllWithin setting (race n db)
race-AllWithin n db k =
    if_both (AllWithin setting) (n == 4) (λ _. ((omega arith, omega arith), tt)) (λ _. k)

assigned_after_race :
    (assign setting world prover (tables unassigned 0 0)).1.chunks ≡ chunk assigned 2 2 ∷ []
unfolding assign
assigned_after_race = refl

assign-AllWithin_example : AllWithin setting (assign setting world prover (tables unassigned 0 0)).1
assign-AllWithin_example =
    assign-AllWithin setting world race-AllWithin prover (tables unassigned 0 0)
      ((omega arith, omega arith), tt)
