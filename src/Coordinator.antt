-- ===== src/Coordinator.antt =====
-- The coordinator's tables: common/types/db.go, common/types/message/message.go and
-- coordinator/internal/orm/{chunk,batch,prover_task}.go.
-- A table is the list of its rows. The chunk and batch tables share the columns on proving, so
-- both are lists of `Row`, with the other columns in `info`. A hash or a UUID is the number that
-- its digits spell. A null column is `none`.
pub mod Orm
pub mod ProofStatus
pub mod SubmitProof
pub mod Collector
pub mod Assign
pub mod Tests
use Prim.Native.String.{String}
use scroll.Common.{ℕ, Bool, true, false, Option, List, ◌==◌}

-- types.ProvingStatus
pub data ProvingStatus : Type 0 where
  undefined unassigned assigned proved_deprecated verified failed : ProvingStatus

-- The values of the iota constants.
abbrev pub proving_code : ProvingStatus → ℕ
proving_code undefined = 0
proving_code unassigned = 1
proving_code assigned = 2
proving_code proved_deprecated = 3
proving_code verified = 4
proving_code failed = 5

-- types.ProverProveStatus
pub data ProverProveStatus : Type 0 where
  prover_undefined prover_assigned prover_proof_valid prover_proof_invalid : ProverProveStatus

abbrev pub prover_code : ProverProveStatus → ℕ
prover_code prover_undefined = 0
prover_code prover_assigned = 1
prover_code prover_proof_valid = 2
prover_code prover_proof_invalid = 3

-- types.ProverTaskFailureType
pub data FailureType : Type 0 where
  failure_undefined failure_timeout failure_submit_status_not_ok : FailureType
  failure_verified_failed failure_server_error : FailureType

-- types.ChunkProofsStatus
pub data ChunkProofsStatus : Type 0 where
  chunk_proofs_undefined chunk_proofs_pending chunk_proofs_ready : ChunkProofsStatus

-- message.ProofType and message.RespStatus
pub data ProofType : Type 0 where
  proof_type_undefined proof_type_chunk proof_type_batch : ProofType

pub data RespStatus : Type 0 where
  status_ok status_proof_error : RespStatus

abbrev pub is_verified : ProvingStatus → Bool
is_verified s = proving_code s == proving_code verified

abbrev pub is_prover : ProverProveStatus → ProverProveStatus → Bool
is_prover a b = prover_code a == prover_code b

abbrev pub is_timeout : FailureType → Bool
is_timeout f = elim f [ failure_timeout ↦ true | _ ↦ false ]

abbrev pub type_code : ProofType → ℕ
type_code proof_type_undefined = 0
type_code proof_type_chunk = 1
type_code proof_type_batch = 2

-- The columns that the chunk and the batch table share.
pub record Row (I : Type 0) : Type 0 where
  pub index : ℕ
  pub hash : ℕ
  pub proving_status : ProvingStatus
  pub proof : Option (List ℕ)
  pub proved_at : Option ℕ
  pub proof_time_sec : ℕ
  pub total_attempts : ℕ
  pub active_attempts : ℕ
  pub info : I

pub record ChunkInfo : Type 0 where
  pub start_block_number : ℕ
  pub end_block_number : ℕ
  pub batch_hash : Option ℕ

pub record BatchInfo : Type 0 where
  pub start_chunk_index : ℕ
  pub end_chunk_index : ℕ
  pub chunk_proofs_status : ChunkProofsStatus

abbrev pub Chunk : Type 0
Chunk = Row ChunkInfo

abbrev pub Batch : Type 0
Batch = Row BatchInfo

pub record ProverTask : Type 0 where
  pub uuid : ℕ
  pub prover_public_key : String
  pub prover_name : String
  pub prover_version : String
  pub task_id : ℕ
  pub task_type : ProofType
  pub proving_status : ProverProveStatus
  pub failure_type : FailureType
  pub proof : Option (List ℕ)
  pub assigned_at : ℕ
  pub created_at : ℕ

pub record Db : Type 0 where
  pub chunks : List Chunk
  pub batches : List Batch
  pub prover_tasks : List ProverTask
