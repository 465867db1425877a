-- ===== src/Coordinator/SubmitProof/Updates.antt =====
-- What the transactions of coordinator/internal/logic/submitproof/proof_receiver.go do to the
-- rows of the chunk and batch tables.

use scroll.Common.{
  ℕ, ◌≡◌, ◌⊎◌, refl, sym, subst, inl, inr, true, Option, none, some, List, arith, ◌==◌, Rows,
  Rows-refl, Rows-map, Rows-trans, find_first,
}
use scroll.Coordinator.{
  verified, prover_proof_valid, prover_proof_invalid, ProverProveStatus, FailureType, ProofType,
  proof_type_chunk, proof_type_batch, proof_type_undefined, Row, Chunk, ProverTask, Db,
  chunk_proofs_ready, is_prover,
}
use scroll.Coordinator.Orm.{
  update_task_status, update_chunk_proofs_status, update_proof_and_proving_status,
}
use scroll.Coordinator.Orm.Rows.{
  IsQuiet, IsQuiet-refl, IsQuiet-trans, decrease_active_attempts-IsQuiet, IsStored,
  update_proof-IsStored, update_chunk_proofs-IsQuiet,
}
use scroll.Coordinator.ProofStatus.{
  UpdateFaults, ProofMsg, decrease_attempts, store_proof, store_if_valid, update_transaction,
  check_are_all_chunk_proofs_ready, after_transaction, update_proof_status,
}
use scroll.Coordinator.SubmitProof.{Env, proof_recover}

-- Both tables change only in columns that say nothing of a proof.
pub record DbIsQuiet (db db' : Db) : Type 0 where
  pub chunks : Rows IsQuiet db.chunks db'.chunks
  pub batches : Rows IsQuiet db.batches db'.batches

pub DbIsQuiet-refl : (db : Db) → DbIsQuiet db db
DbIsQuiet-refl db = record {
  chunks = Rows-refl IsQuiet IsQuiet-refl db.chunks;
  batches = Rows-refl IsQuiet IsQuiet-refl db.batches;
}

pub DbIsQuiet-trans : (a b c : Db) → DbIsQuiet a b → DbIsQuiet b c → DbIsQuiet a c
DbIsQuiet-trans a b c p q = record {
  chunks =
      Rows-trans IsQuiet IsQuiet IsQuiet IsQuiet-trans a.chunks b.chunks c.chunks p.chunks q.chunks;
  batches =
      Rows-trans IsQuiet IsQuiet IsQuiet IsQuiet-trans a.batches b.batches c.batches p.batches
        q.batches;
}

-- An update of the prover tasks leaves both tables alone.
pub prover_tasks-DbIsQuiet :
    (db : Db) (tasks : List ProverTask) → DbIsQuiet db (record db { prover_tasks = tasks })
prover_tasks-DbIsQuiet db tasks = record {
  chunks = (DbIsQuiet-refl db).chunks;
  batches = (DbIsQuiet-refl db).batches;
}

decrease_attempts-DbIsQuiet :
    (type : ProofType) (h : ℕ) (db : Db) → DbIsQuiet db (decrease_attempts type h db)
unfolding decrease_attempts
decrease_attempts-DbIsQuiet proof_type_chunk h db = record {
  chunks = decrease_active_attempts-IsQuiet h db.chunks;
  batches = (DbIsQuiet-refl db).batches;
}
decrease_attempts-DbIsQuiet proof_type_batch h db = record {
  chunks = (DbIsQuiet-refl db).chunks;
  batches = decrease_active_attempts-IsQuiet h db.batches;
}
decrease_attempts-DbIsQuiet proof_type_undefined h db = DbIsQuiet-refl db

-- The state that the transaction has before it may store a proof.
abbrev pub prepared : Db → ProverTask → ProofMsg → ProverProveStatus → FailureType → Db
prepared db task msg status failure =
    decrease_attempts msg.type task.task_id
      (record db { prover_tasks = update_task_status task.uuid status failure db.prover_tasks })

pub prepared-DbIsQuiet :
    (db : Db) (task : ProverTask) (msg : ProofMsg) (status : ProverProveStatus)
    (failure : FailureType)
    → DbIsQuiet db (prepared db task msg status failure)
prepared-DbIsQuiet db task msg status failure =
    let db1 : Db = record db {
      prover_tasks = update_task_status task.uuid status failure db.prover_tasks;
    } in
    DbIsQuiet-trans db db1 (prepared db task msg status failure)
      (prover_tasks-DbIsQuiet db (update_task_status task.uuid status failure db.prover_tasks))
      (decrease_attempts-DbIsQuiet msg.type task.task_id db1)

-- The transaction rolls back, commits the prepared state, or stores the proof of the message in
-- it, the last only with the status of a valid proof.
pub transaction-cases :
    (f : UpdateFaults) (db : Db) (task : ProverTask) (msg : ProofMsg) (status : ProverProveStatus)
    (failure : FailureType) (time now : ℕ)
    → (update_transaction f db task msg status failure time now ≡ none)
      ⊎ ((update_transaction f db task msg status failure time now
            ≡ some (prepared db task msg status failure))
          ⊎ ((proof : List ℕ) × (msg.proof ≡ some proof)
              × (is_prover status prover_proof_valid ≡ true)
              × (update_transaction f db task msg status failure time now
                  ≡ some (
                      store_proof msg.type msg.id proof time now
                        (prepared db task msg status failure)))))
unfolding update_transaction store_if_valid
transaction-cases f db task msg status failure time now = ground arith

abbrev batch_of : Option Chunk → Option ℕ
batch_of none = none
batch_of (some c) = c.info.batch_hash

check_all_ready-cases :
    (f : UpdateFaults) (h : ℕ) (db : Db)
    → ((check_are_all_chunk_proofs_ready f h db).1 ≡ db)
      ⊎ ((check_are_all_chunk_proofs_ready f h db).1 ≡ record db {
        batches =
            update_chunk_proofs_status
              (batch_of (find_first (λ c. c.hash == h) db.chunks))
              chunk_proofs_ready
              db.batches;
      })
unfolding check_are_all_chunk_proofs_ready
check_all_ready-cases f h db = ground arith

pub check_all_ready-DbIsQuiet :
    (f : UpdateFaults) (h : ℕ) (db : Db) → DbIsQuiet db (check_are_all_chunk_proofs_ready f h db).1
check_all_ready-DbIsQuiet f h db = elim (check_all_ready-cases f h db) [
  | inl e ↦ subst (DbIsQuiet db) (sym e) (DbIsQuiet-refl db)
  | inr e ↦ subst (DbIsQuiet db) (sym e) (record {
    chunks = (DbIsQuiet-refl db).chunks;
    batches =
        update_chunk_proofs-IsQuiet (batch_of (find_first (λ c. c.hash == h) db.chunks))
          chunk_proofs_ready db.batches;
  })
]

-- Storing a proof, seen from both tables: the table of the proof's type has it stored under the
-- hash, and the other is left alone.
abbrev pub IsStoredAs : {I : Type 0} → ProofType → ProofType → ℕ → List ℕ → Row I → Row I → Type 0
IsStoredAs table type h proof r r' = ((type ≡ table) × IsStored h proof r r') ⊎ IsQuiet r r'

pub record DbIsStored (type : ProofType) (h : ℕ) (proof : List ℕ) (db db' : Db) : Type 0 where
  pub chunks : Rows (IsStoredAs proof_type_chunk type h proof) db.chunks db'.chunks
  pub batches : Rows (IsStoredAs proof_type_batch type h proof) db.batches db'.batches

pub store_proof-DbIsStored :
    (type : ProofType) (h : ℕ) (proof : List ℕ) (time now : ℕ) (db : Db)
    → DbIsStored type h proof db (store_proof type h proof time now db)
unfolding store_proof
store_proof-DbIsStored proof_type_chunk h proof time now db = record {
  chunks =
      Rows-map (IsStored h proof) (IsStoredAs proof_type_chunk proof_type_chunk h proof)
        (λ x y k. inl (refl, k)) db.chunks
        (update_proof_and_proving_status h proof verified time now db.chunks)
        (update_proof-IsStored h proof time now db.chunks);
  batches = Rows-refl _ (λ r. inr (IsQuiet-refl r)) db.batches;
}
store_proof-DbIsStored proof_type_batch h proof time now db = record {
  chunks = Rows-refl _ (λ r. inr (IsQuiet-refl r)) db.chunks;
  batches =
      Rows-map (IsStored h proof) (IsStoredAs proof_type_batch proof_type_batch h proof)
        (λ x y k. inl (refl, k)) db.batches
        (update_proof_and_proving_status h proof verified time now db.batches)
        (update_proof-IsStored h proof time now db.batches);
}
store_proof-DbIsStored proof_type_undefined h proof time now db = record {
  chunks = Rows-refl _ (λ r. inr (IsQuiet-refl r)) db.chunks;
  batches = Rows-refl _ (λ r. inr (IsQuiet-refl r)) db.batches;
}

-- `proofRecover` never stores a proof and never changes a proving status.
pub proof_recover-DbIsQuiet :
    (env : Env) (db : Db) (task : ProverTask) (failure : FailureType) (msg : ProofMsg)
    → DbIsQuiet db (proof_recover env db task failure msg)
unfolding proof_recover update_proof_status
proof_recover-DbIsQuiet env db task failure msg =
    elim (transaction-cases env.recover_faults db task msg prover_proof_invalid failure 0 env.now) [
      | inl e ↦ subst (λ o. DbIsQuiet db (after o)) (sym e) (DbIsQuiet-refl db)
      | inr (inl e) ↦
          subst (λ o. DbIsQuiet db (after o)) (sym e)
            (prepared-DbIsQuiet db task msg prover_proof_invalid failure)
      | inr (inr (proof, marshalled, valid, e)) ↦ absurd (cc)
    ]
  where
    after : Option Db → Db
    after o = (after_transaction env.recover_faults db task msg prover_proof_invalid o).1
