-- ===== src/Coordinator/SubmitProof/Handling.antt =====
-- What a submitted proof can do to the tables, and when it is accepted:
-- coordinator/internal/logic/submitproof/proof_receiver.go.
use Prim.Native.String.{String}
use scroll.Common.{
  ℕ, ◌-◌, ◌≡◌, ◌≢◌, refl, sym, subst, Bool, true, false, Option, none, some, [], ◌⊎◌, List, arith,
  inl, inr, if◌then◌else◌,
}
use scroll.Coordinator.{
  ProverTask, Db, failure_submit_status_not_ok, failure_verified_failed, failure_server_error,
  prover_proof_valid, prover_proof_invalid, is_prover, is_timeout,
}
use scroll.Coordinator.Orm.{update_task_proof}
use scroll.Coordinator.ProofStatus.{ProofMsg}
use scroll.Coordinator.SubmitProof.{
  Env, SubmitError, is_status_ok, update_prover_task_proof, validator, verify, close_proof_task,
  proof_recover, close_if_valid, verify_and_close, handle_task, find_task, handle_zk_proof,
}
use scroll.Coordinator.SubmitProof.Updates.{
  DbIsQuiet, DbIsQuiet-refl, DbIsQuiet-trans, prover_tasks-DbIsQuiet, proof_recover-DbIsQuiet,
}
use scroll.Coordinator.SubmitProof.Closing.{
  DbIsClosed, DbIsQuiet-DbIsClosed, DbIsClosed-quiet, close_proof_task-DbIsClosed, quiet-DbIsClosed,
}

abbrev bytes_of : Option (List ℕ) → List ℕ
bytes_of none = []
bytes_of (some bs) = bs

task_proof-cases :
    (env : Env) (db : Db) (task : ProverTask) (msg : ProofMsg)
    → (update_prover_task_proof env db task msg ≡ db)
      ⊎ (update_prover_task_proof env db task msg ≡ record db {
        prover_tasks = update_task_proof task.uuid (bytes_of msg.proof) db.prover_tasks;
      })
unfolding update_prover_task_proof
task_proof-cases env db task msg = ground arith

task_proof-DbIsQuiet :
    (env : Env) (db : Db) (task : ProverTask) (msg : ProofMsg)
    → DbIsQuiet db (update_prover_task_proof env db task msg)
task_proof-DbIsQuiet env db task msg = elim (task_proof-cases env db task msg) [
  | inl e ↦ subst (DbIsQuiet db) (sym e) (DbIsQuiet-refl db)
  | inr e ↦
      subst (DbIsQuiet db) (sym e) (
        prover_tasks-DbIsQuiet db
          (update_task_proof task.uuid (bytes_of msg.proof) db.prover_tasks))
]

-- The state behind the validator is the state before it, that of the recovery from a failed
-- proof, or that with the proof in the prover task.
validator-cases :
    (env : Env) (db : Db) (task : ProverTask) (msg : ProofMsg)
    → ((validator env db task msg).1 ≡ db)
      ⊎ (((validator env db task msg).1
            ≡ proof_recover env db task failure_submit_status_not_ok msg)
          ⊎ ((validator env db task msg).1 ≡ update_prover_task_proof env db task msg))
unfolding validator
validator-cases env db task msg = ground arith

validator-DbIsQuiet :
    (env : Env) (db : Db) (task : ProverTask) (msg : ProofMsg)
    → DbIsQuiet db (validator env db task msg).1
validator-DbIsQuiet env db task msg = elim (validator-cases env db task msg) [
  | inl e ↦ subst (DbIsQuiet db) (sym e) (DbIsQuiet-refl db)
  | inr (inl e) ↦
      subst (DbIsQuiet db) (sym e)
        (proof_recover-DbIsQuiet env db task failure_submit_status_not_ok msg)
  | inr (inr e) ↦ subst (DbIsQuiet db) (sym e) (task_proof-DbIsQuiet env db task msg)
]

-- The validator lets a submission through only for a task whose prover has not submitted before
-- and has not timed out, and for a proof that the prover reports as good, and then leaves the
-- state with the proof in the prover task, where the chunk or batch reads as not verified.
pub validator_accepts :
    (env : Env) (db : Db) (task : ProverTask) (msg : ProofMsg)
    → (validator env db task msg).0 ≡ none
    → (is_prover task.proving_status prover_proof_valid ≡ false)
      × (is_prover task.proving_status prover_proof_invalid ≡ false)
      × (is_status_ok msg.status ≡ true)
      × (is_timeout task.failure_type ≡ false)
      × ((validator env db task msg).1 ≡ update_prover_task_proof env db task msg)
unfolding validator
validator_accepts env db task msg h = ground arith

pub close_if_valid-cases :
    (env : Env) (db : Db) (task : ProverTask) (msg : ProofMsg) (answer : Option Bool)
    → (((close_if_valid env db task msg answer).1
          ≡ proof_recover env db task failure_verified_failed msg)
        × ((close_if_valid env db task msg answer).0 ≢ none))
      ⊎ ((answer ≡ some true)
          × (((close_if_valid env db task msg answer).1
                ≡ (close_proof_task env db task msg (env.now - task.created_at)).1)
              ⊎ ((close_if_valid env db task msg answer).1
                  ≡ proof_recover env
                      (close_proof_task env db task msg (env.now - task.created_at)).1
                      task
                      failure_server_error
                      msg)))
unfolding close_if_valid
close_if_valid-cases env db task msg none = inl (refl, λ e. cc)
close_if_valid-cases env db task msg (some false) = inl (refl, λ e. cc)
close_if_valid-cases env db task msg (some true) = ground arith

-- What a submission may do to the tables, given the verifier's answer.
pub record DbIsHandled (env : Env) (msg : ProofMsg) (db db' : Db) : Type 0 where
  pub closed : DbIsClosed msg db db'
  pub unverified : verify env.verifier msg msg.type ≢ some true → DbIsQuiet db db'

quiet-DbIsHandled :
    (env : Env) (msg : ProofMsg) (db db' : Db) → DbIsQuiet db db' → DbIsHandled env msg db db'
quiet-DbIsHandled env msg db db' q = record {
  closed = DbIsQuiet-DbIsClosed msg db db' q;
  unverified = λ _. q;
}

close_if_valid-DbIsHandled :
    (env : Env) (db : Db) (task : ProverTask) (msg : ProofMsg)
    → DbIsHandled env msg db (close_if_valid env db task msg (verify env.verifier msg msg.type)).1
close_if_valid-DbIsHandled env db task msg =
    let closed = (close_proof_task env db task msg (env.now - task.created_at)).1 in
    let k = close_proof_task-DbIsClosed env db task msg (env.now - task.created_at) in
    elim (close_if_valid-cases env db task msg (verify env.verifier msg msg.type)) [
      | inl (e, failed) ↦ subst (DbIsHandled env msg db) (sym e) (
          quiet-DbIsHandled env msg db (proof_recover env db task failure_verified_failed msg)
            (proof_recover-DbIsQuiet env db task failure_verified_failed msg))
      | inr (good, inl e) ↦
          subst (DbIsHandled env msg db) (sym e)
            (record { closed = k; unverified = λ n. absurd (n good) })
      | inr (good, inr e) ↦ subst (DbIsHandled env msg db) (sym e) (record {
        closed =
            DbIsClosed-quiet msg db closed (proof_recover env closed task failure_server_error msg)
              k (proof_recover-DbIsQuiet env closed task failure_server_error msg);
        unverified = λ n. absurd (n good);
      })
    ]

DbIsQuiet-DbIsHandled :
    (env : Env) (msg : ProofMsg) (a b c : Db)
    → DbIsQuiet a b
    → DbIsHandled env msg b c
    → DbIsHandled env msg a c
DbIsQuiet-DbIsHandled env msg a b c q k = record {
  closed = quiet-DbIsClosed msg a b c q k.closed;
  unverified = λ n. DbIsQuiet-trans a b c q (k.unverified n);
}

verify_and_close-DbIsHandled :
    (env : Env) (task : ProverTask) (msg : ProofMsg) (db : Db) (r : Option SubmitError × Db)
    → DbIsQuiet db r.1
    → DbIsHandled env msg db (verify_and_close env task msg r).1
unfolding verify_and_close
verify_and_close-DbIsHandled env task msg db (some e, db') q = quiet-DbIsHandled env msg db db' q
verify_and_close-DbIsHandled env task msg db (none, db') q =
    DbIsQuiet-DbIsHandled env msg db db'
      (close_if_valid env db' task msg (verify env.verifier msg msg.type)).1 q
      (close_if_valid-DbIsHandled env db' task msg)

handle_task-DbIsHandled :
    (env : Env) (db : Db) (msg : ProofMsg) (task : Option ProverTask)
    → DbIsHandled env msg db (handle_task env db msg task).1
unfolding handle_task
handle_task-DbIsHandled env db msg none = quiet-DbIsHandled env msg db db (DbIsQuiet-refl db)
handle_task-DbIsHandled env db msg (some task) =
    verify_and_close-DbIsHandled env task msg db (validator env db task msg)
      (validator-DbIsQuiet env db task msg)

abbrev pub found : Env → Db → String → String → Option ℕ → ProofMsg → Option ProverTask
found env db pk pv uuid msg = if env.task_read_fails then none else find_task db pk pv uuid msg

pub handle_zk_proof-cases :
    (env : Env) (db : Db) (pk pv : String) (uuid : Option ℕ) (msg : ProofMsg)
    → (((handle_zk_proof env db pk pv uuid msg).1 ≡ db)
        × ((handle_zk_proof env db pk pv uuid msg).0 ≢ none))
      ⊎ (handle_zk_proof env db pk pv uuid msg
          ≡ handle_task env db msg (found env db pk pv uuid msg))
unfolding handle_zk_proof
handle_zk_proof-cases env db pk pv uuid msg = ground arith

handle_zk_proof-DbIsHandled :
    (env : Env) (db : Db) (pk pv : String) (uuid : Option ℕ) (msg : ProofMsg)
    → DbIsHandled env msg db (handle_zk_proof env db pk pv uuid msg).1
handle_zk_proof-DbIsHandled env db pk pv uuid msg =
    elim (handle_zk_proof-cases env db pk pv uuid msg) [
      | inl (e, failed) ↦
          subst (DbIsHandled env msg db) (sym e)
            (quiet-DbIsHandled env msg db db (DbIsQuiet-refl db))
      | inr e ↦
          subst (λ (r : Option SubmitError × Db). DbIsHandled env msg db r.1) (sym e)
            (handle_task-DbIsHandled env db msg (found env db pk pv uuid msg))
    ]

-- Whatever the faults and the verifier's answer, a submission keeps the number of rows of the
-- chunk and batch tables, and each row's hash and count of all attempts; it does not raise a
-- row's active attempts and keeps a verified row verified. A row that was not verified before
-- and is afterwards stands in the table of the message's proof type, has the message's hash, and
-- holds the message's proof.
pub handle_zk_proof-DbIsClosed :
    (env : Env) (db : Db) (pk pv : String) (uuid : Option ℕ) (msg : ProofMsg)
    → DbIsClosed msg db (handle_zk_proof env db pk pv uuid msg).1
handle_zk_proof-DbIsClosed env db pk pv uuid msg =
    (handle_zk_proof-DbIsHandled env db pk pv uuid msg).closed

-- If the verifier does not answer that the message's proof is valid, a submission changes no
-- hash, proving status, stored proof or count of all attempts in the chunk and batch tables, and
-- raises no row's active attempts.
pub handle_zk_proof-unverified :
    (env : Env) (db : Db) (pk pv : String) (uuid : Option ℕ) (msg : ProofMsg)
    → verify env.verifier msg msg.type ≢ some true
    → DbIsQuiet db (handle_zk_proof env db pk pv uuid msg).1
handle_zk_proof-unverified env db pk pv uuid msg refused =
    (handle_zk_proof-DbIsHandled env db pk pv uuid msg).unverified refused
