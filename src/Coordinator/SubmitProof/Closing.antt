-- ===== src/Coordinator/SubmitProof/Closing.antt =====
-- What closing a prover task does to the rows of the chunk and batch tables:
-- coordinator/internal/logic/submitproof/proof_receiver.go.
use native.Mathlib.Decide.{ℕ_discrete}
use scroll.Common.{
  ℕ, ◌≤◌, ◌≡◌, ◌⊎◌, sym, subst, ◌∙◌, inl, inr, Bool, ◌&&◌, Option, some, List, arith, if_both, Rows,
  Rows-map, Rows-trans,
}
use scroll.Coordinator.{
  verified, prover_proof_valid, ProverProveStatus, failure_undefined, ProofType, proof_type_chunk,
  proof_type_batch, Row, ProverTask, Db, is_prover,
}
use scroll.Coordinator.Orm.Rows.{IsQuiet, IsQuiet-trans, IsStored, IsStored-quiet}
use scroll.Coordinator.ProofStatus.{
  UpdateFaults, ProofMsg, store_proof, check_are_all_chunk_proofs_ready, is_chunk,
  after_transaction, update_proof_status,
}
use scroll.Coordinator.SubmitProof.{Env, close_proof_task}
use scroll.Coordinator.SubmitProof.Updates.{
  DbIsQuiet, DbIsQuiet-refl, prepared, prepared-DbIsQuiet, transaction-cases,
  check_all_ready-DbIsQuiet, IsStoredAs, DbIsStored, store_proof-DbIsStored,
}

-- What `closeProofTask` may do to a table of proofs of one type: nothing that shows, or storing
-- the message's proof under the message's hash.
pub record IsClosed {I : Type 0} (table : ProofType) (msg : ProofMsg) (r r' : Row I) : Type 0 where
  pub hash : r'.hash ≡ r.hash
  pub total : r'.total_attempts ≡ r.total_attempts
  pub active : r'.active_attempts ≤ r.active_attempts
  pub kept : r.proving_status ≡ verified → r'.proving_status ≡ verified
  pub gained :
      r'.proving_status ≡ verified
      → (r.proving_status ≡ verified)
        ⊎ ((msg.type ≡ table) × (r.hash ≡ msg.id) × (r'.proof ≡ msg.proof))

module _ {I : Type 0} (table : ProofType) (msg : ProofMsg) (r : Row I) where
  pub IsQuiet-IsClosed : (s : Row I) → IsQuiet r s → IsClosed table msg r s
  IsQuiet-IsClosed s q = record {
    hash = q.hash;
    total = q.total;
    active = q.active;
    kept = λ v. q.status ∙ v;
    gained = λ v. inl (sym q.status ∙ v);
  }

  IsStored-IsClosed :
      (proof : List ℕ) (s : Row I)
      → msg.type ≡ table
      → msg.proof ≡ some proof
      → IsStored msg.id proof r s
      → IsClosed table msg r s
  IsStored-IsClosed proof s type marshalled k = elim (ℕ_discrete r.hash msg.id) [
    | yes e ↦ record {
      hash = k.hash;
      total = k.total;
      active = k.active;
      kept = λ v. (k.target e).0;
      gained = λ v. inr (type, e, (k.target e).1 ∙ sym marshalled);
    }
    | no n ↦ record {
      hash = k.hash;
      total = k.total;
      active = k.active;
      kept = λ v. (k.others n).0 ∙ v;
      gained = λ v. inl (sym (k.others n).0 ∙ v);
    }
  ]

  pub IsQuiet-IsStoredAs :
      (proof : List ℕ) (s t : Row I)
      → msg.proof ≡ some proof
      → IsQuiet r s
      → IsStoredAs table msg.type msg.id proof s t
      → IsClosed table msg r t
  IsQuiet-IsStoredAs proof s t marshalled q (inl (type, k)) =
      IsStored-IsClosed proof t type marshalled (IsStored-quiet msg.id proof r s t q k)
  IsQuiet-IsStoredAs proof s t marshalled q (inr k) = IsQuiet-IsClosed t (IsQuiet-trans r s t q k)

  pub IsClosed-IsQuiet :
      (s t : Row I) → IsClosed table msg r s → IsQuiet s t → IsClosed table msg r t
  IsClosed-IsQuiet s t k q = record {
    hash = q.hash ∙ k.hash;
    total = q.total ∙ k.total;
    active = omega (arith, q.active, k.active);
    kept = λ v. q.status ∙ k.kept v;
    gained = λ v. elim (k.gained (sym q.status ∙ v)) [
      | inl w ↦ inl w
      | inr (type, h, p) ↦ inr (type, h, q.proof ∙ p)
    ];
  }

  pub IsQuiet-trans-IsClosed :
      (s t : Row I) → IsQuiet r s → IsClosed table msg s t → IsClosed table msg r t
  IsQuiet-trans-IsClosed s t q k = record {
    hash = k.hash ∙ q.hash;
    total = k.total ∙ q.total;
    active = omega (arith, q.active, k.active);
    kept = λ v. k.kept (q.status ∙ v);
    gained = λ v. elim (k.gained v) [
      | inl w ↦ inl (sym q.status ∙ w)
      | inr (type, h, p) ↦ inr (type, sym q.hash ∙ h, p)
    ];
  }

pub record DbIsClosed (msg : ProofMsg) (db db' : Db) : Type 0 where
  pub chunks : Rows (IsClosed proof_type_chunk msg) db.chunks db'.chunks
  pub batches : Rows (IsClosed proof_type_batch msg) db.batches db'.batches

pub DbIsQuiet-DbIsClosed : (msg : ProofMsg) (db db' : Db) → DbIsQuiet db db' → DbIsClosed msg db db'
DbIsQuiet-DbIsClosed msg db db' q = record {
  chunks =
      Rows-map IsQuiet (IsClosed proof_type_chunk msg)
        (λ x y k. IsQuiet-IsClosed proof_type_chunk msg x y k) db.chunks db'.chunks q.chunks;
  batches =
      Rows-map IsQuiet (IsClosed proof_type_batch msg)
        (λ x y k. IsQuiet-IsClosed proof_type_batch msg x y k) db.batches db'.batches q.batches;
}

pub DbIsClosed-quiet :
    (msg : ProofMsg) (a b c : Db) → DbIsClosed msg a b → DbIsQuiet b c → DbIsClosed msg a c
DbIsClosed-quiet msg a b c k q = record {
  chunks =
      Rows-trans (IsClosed proof_type_chunk msg) IsQuiet (IsClosed proof_type_chunk msg)
        (λ x y z. IsClosed-IsQuiet proof_type_chunk msg x y z) a.chunks b.chunks c.chunks k.chunks
        q.chunks;
  batches =
      Rows-trans (IsClosed proof_type_batch msg) IsQuiet (IsClosed proof_type_batch msg)
        (λ x y z. IsClosed-IsQuiet proof_type_batch msg x y z) a.batches b.batches c.batches
        k.batches q.batches;
}

-- What a quiet step does before a closing one is part of the closing one.
pub quiet-DbIsClosed :
    (msg : ProofMsg) (a b c : Db) → DbIsQuiet a b → DbIsClosed msg b c → DbIsClosed msg a c
quiet-DbIsClosed msg a b c q k = record {
  chunks =
      Rows-trans IsQuiet (IsClosed proof_type_chunk msg) (IsClosed proof_type_chunk msg)
        (λ x y z. IsQuiet-trans-IsClosed proof_type_chunk msg x y z) a.chunks b.chunks c.chunks
        q.chunks k.chunks;
  batches =
      Rows-trans IsQuiet (IsClosed proof_type_batch msg) (IsClosed proof_type_batch msg)
        (λ x y z. IsQuiet-trans-IsClosed proof_type_batch msg x y z) a.batches b.batches c.batches
        q.batches k.batches;
}

stored-DbIsClosed :
    (msg : ProofMsg) (proof : List ℕ) (a b c : Db)
    → msg.proof ≡ some proof
    → DbIsQuiet a b
    → DbIsStored msg.type msg.id proof b c
    → DbIsClosed msg a c
stored-DbIsClosed msg proof a b c marshalled q k = record {
  chunks =
      Rows-trans IsQuiet (IsStoredAs proof_type_chunk msg.type msg.id proof)
        (IsClosed proof_type_chunk msg)
        (λ x y z. IsQuiet-IsStoredAs proof_type_chunk msg x proof y z marshalled) a.chunks b.chunks
        c.chunks q.chunks k.chunks;
  batches =
      Rows-trans IsQuiet (IsStoredAs proof_type_batch msg.type msg.id proof)
        (IsClosed proof_type_batch msg)
        (λ x y z. IsQuiet-IsStoredAs proof_type_batch msg x proof y z marshalled) a.batches
        b.batches c.batches q.batches k.batches;
}

close-after :
    (f : UpdateFaults) (db : Db) (task : ProverTask) (msg : ProofMsg) (status : ProverProveStatus)
    (db' : Db)
    → DbIsClosed msg db db'
    → DbIsClosed msg db (after_transaction f db task msg status (some db')).1
unfolding after_transaction
close-after f db task msg status db' k =
    if_both (λ (r : Bool × Db). DbIsClosed msg db r.1)
      (is_prover status prover_proof_valid && is_chunk msg.type)
      (λ _.
        DbIsClosed-quiet msg db db' (check_are_all_chunk_proofs_ready f task.task_id db').1 k
          (check_all_ready-DbIsQuiet f task.task_id db'))
      (λ _. k)

pub close_proof_task-DbIsClosed :
    (env : Env) (db : Db) (task : ProverTask) (msg : ProofMsg) (time : ℕ)
    → DbIsClosed msg db (close_proof_task env db task msg time).1
unfolding close_proof_task update_proof_status
close_proof_task-DbIsClosed env db task msg time =
    let ready = prepared db task msg prover_proof_valid failure_undefined in
    let quiet = prepared-DbIsQuiet db task msg prover_proof_valid failure_undefined in
    let close = close-after env.close_faults db task msg prover_proof_valid in
    elim (transaction-cases env.close_faults db task msg prover_proof_valid failure_undefined time
      env.now) [
        | inl e ↦
            subst (λ o. DbIsClosed msg db (after o)) (sym e)
              (DbIsQuiet-DbIsClosed msg db db (DbIsQuiet-refl db))
        | inr (inl e) ↦
            subst (λ o. DbIsClosed msg db (after o)) (sym e)
              (close ready (DbIsQuiet-DbIsClosed msg db ready quiet))
        | inr (inr (proof, marshalled, valid, e)) ↦
            let stored = store_proof msg.type msg.id proof time env.now ready in
            subst (λ o. DbIsClosed msg db (after o)) (sym e)
              (close stored (
                stored-DbIsClosed msg proof db ready stored marshalled quiet
                  (store_proof-DbIsStored msg.type msg.id proof time env.now ready)))
      ]
  where
    after : Option Db → Db
    after o = (after_transaction env.close_faults db task msg prover_proof_valid o).1
