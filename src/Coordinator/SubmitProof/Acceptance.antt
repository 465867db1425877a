-- ===== src/Coordinator/SubmitProof/Acceptance.antt =====
-- What a submission without an error went through:
-- coordinator/internal/logic/submitproof/proof_receiver.go.
use Prim.Native.String.{String}
use scroll.Common.{ℕ, ◌≡◌, refl, subst, true, false, Option, none, some, inl, inr}
use scroll.Coordinator.{
  ProverTask, Db, prover_proof_valid, prover_proof_invalid, is_prover, is_timeout,
}
use scroll.Coordinator.ProofStatus.{ProofMsg}
use scroll.Coordinator.SubmitProof.{
  Env, SubmitError, is_status_ok, validator, verify, verify_and_close, handle_task, handle_zk_proof,
}
use scroll.Coordinator.SubmitProof.Handling.{
  validator_accepts, found, handle_zk_proof-cases, close_if_valid-cases,
}

-- What stands behind a submission without an error: the prover task that it names, whose prover
-- has not submitted before and has not timed out, a good status, and a proof that verifies.
pub record IsAccepted (env : Env) (db : Db) (pk pv : String) (uuid : Option ℕ) (msg : ProofMsg)
    (task : ProverTask) : Type 0 where
  pub named : found env db pk pv uuid msg ≡ some task
  pub not_valid : is_prover task.proving_status prover_proof_valid ≡ false
  pub not_invalid : is_prover task.proving_status prover_proof_invalid ≡ false
  pub not_late : is_timeout task.failure_type ≡ false
  pub status_good : is_status_ok msg.status ≡ true
  pub proof_good : verify env.verifier msg msg.type ≡ some true

verify_and_close-none :
    (env : Env) (task : ProverTask) (msg : ProofMsg) (r : Option SubmitError × Db)
    → (verify_and_close env task msg r).0 ≡ none
    → (r.0 ≡ none) × (verify env.verifier msg msg.type ≡ some true)
unfolding verify_and_close
verify_and_close-none env task msg (some e, db) h = absurd (cc)
verify_and_close-none env task msg (none, db) h =
    elim (close_if_valid-cases env db task msg (verify env.verifier msg msg.type)) [
      | inl (e, failed) ↦ absurd (failed h)
      | inr (good, e) ↦ (refl, good)
    ]

handle_task-IsAccepted :
    (env : Env) (db : Db) (pk pv : String) (uuid : Option ℕ) (msg : ProofMsg)
    (task : Option ProverTask)
    → found env db pk pv uuid msg ≡ task
    → (handle_task env db msg task).0 ≡ none
    → (t : ProverTask) × IsAccepted env db pk pv uuid msg t
unfolding handle_task
handle_task-IsAccepted env db pk pv uuid msg none e h = absurd (cc)
handle_task-IsAccepted env db pk pv uuid msg (some task) e h =
    let (checked, good) = verify_and_close-none env task msg (validator env db task msg) h in
    let (valid, invalid, ok, late, _) = validator_accepts env db task msg checked in
    (
      task,
      record {
        named = e;
        not_valid = valid;
        not_invalid = invalid;
        not_late = late;
        status_good = ok;
        proof_good = good;
      },
    )

-- A submission that ends without an error names a prover task by its UUID or by the assigned
-- task of its hash and prover; that prover had not submitted before and had not timed out, the
-- message's status is good, and the verifier accepts its proof.
pub handle_zk_proof-IsAccepted :
    (env : Env) (db : Db) (pk pv : String) (uuid : Option ℕ) (msg : ProofMsg)
    → (handle_zk_proof env db pk pv uuid msg).0 ≡ none
    → (task : ProverTask) × IsAccepted env db pk pv uuid msg task
handle_zk_proof-IsAccepted env db pk pv uuid msg h =
    elim (handle_zk_proof-cases env db pk pv uuid msg) [
      | inl (e, failed) ↦ absurd (failed h)
      | inr e ↦
          handle_task-IsAccepted env db pk pv uuid msg (found env db pk pv uuid msg) refl
            (subst (λ (r : Option SubmitError × Db). r.0 ≡ none) e h)
    ]
