-- ===== src/Coordinator/Collector/Timeouts.antt =====
-- What a pass of the collector does to the chunk and batch tables:
-- coordinator/internal/controller/cron/collect_proof.go.
use scroll.Common.{
  ℕ, ◌≤◌, ◌≡◌, ◌≢◌, ◌⊎◌, sym, subst, inl, inr, true, List, [], ◌∷◌, arith, Rows, Rows-refl,
  Rows-trans, Rows-map, Rows-update_where,
}
use scroll.Coordinator.{
  assigned, failed, ProofType, proof_type_chunk, proof_type_batch, proof_type_undefined,
  prover_proof_invalid, failure_timeout, Row, ProverTask, Db,
}
use scroll.Coordinator.Orm.{
  update_proving_status_failed, decrease_active_attempts, update_task_status, fails_at, set_failed,
}
use scroll.Coordinator.Orm.Rows.{IsQuiet, decrease_active_attempts-IsQuiet}
use scroll.Coordinator.Collector.{TimeoutFaults, release, check_one, check}

-- What a pass may do to a row: it gives back active attempts, and it fails a row whose attempts
-- are used up, unless that row is assigned.
pub record IsReleased {I : Type 0} (max_attempts : ℕ) (r r' : Row I) : Type 0 where
  pub hash : r'.hash ≡ r.hash
  pub proof : r'.proof ≡ r.proof
  pub total : r'.total_attempts ≡ r.total_attempts
  pub active : r'.active_attempts ≤ r.active_attempts
  pub status :
      (r'.proving_status ≡ r.proving_status)
      ⊎ ((r'.proving_status ≡ failed)
          × (max_attempts ≤ r.total_attempts)
          × (r.proving_status ≢ assigned))

module _ {I : Type 0} (max_attempts : ℕ) where
  pub IsReleased-refl : (r : Row I) → IsReleased max_attempts r r
  IsReleased-refl r = ground arith

  IsQuiet-IsReleased : (r s : Row I) → IsQuiet r s → IsReleased max_attempts r s
  IsQuiet-IsReleased r s q = ground arith

  pub IsReleased-trans :
      (r s t : Row I)
      → IsReleased max_attempts r s
      → IsReleased max_attempts s t
      → IsReleased max_attempts r t
  IsReleased-trans r s t p q = ground arith

  set_failed-IsReleased :
      (h : ℕ) (r : Row I)
      → fails_at h max_attempts r ≡ true
      → IsReleased max_attempts r (set_failed r)
  set_failed-IsReleased h r e = ground arith

  release-Rows :
      (h : ℕ) (rows : List (Row I))
      → Rows
          (IsReleased max_attempts)
          rows
          (update_proving_status_failed h max_attempts (decrease_active_attempts h rows))
  unfolding update_proving_status_failed
  release-Rows h rows =
      Rows-trans (IsReleased max_attempts) (IsReleased max_attempts) (IsReleased max_attempts)
        IsReleased-trans rows (decrease_active_attempts h rows)
        (update_proving_status_failed h max_attempts (decrease_active_attempts h rows))
        (Rows-map IsQuiet (IsReleased max_attempts) IsQuiet-IsReleased rows
          (decrease_active_attempts h rows) (decrease_active_attempts-IsQuiet h rows))
        (Rows-update_where (IsReleased max_attempts) (fails_at h max_attempts) set_failed
          IsReleased-refl (set_failed-IsReleased h) (decrease_active_attempts h rows))

pub record DbIsReleased (max_attempts : ℕ) (db db' : Db) : Type 0 where
  pub chunks : Rows (IsReleased max_attempts) db.chunks db'.chunks
  pub batches : Rows (IsReleased max_attempts) db.batches db'.batches

module _ (max_attempts : ℕ) where
  DbIsReleased-refl : (db : Db) → DbIsReleased max_attempts db db
  DbIsReleased-refl db = record {
    chunks = Rows-refl (IsReleased max_attempts) (IsReleased-refl max_attempts) db.chunks;
    batches = Rows-refl (IsReleased max_attempts) (IsReleased-refl max_attempts) db.batches;
  }

  DbIsReleased-trans :
      (a b c : Db)
      → DbIsReleased max_attempts a b
      → DbIsReleased max_attempts b c
      → DbIsReleased max_attempts a c
  DbIsReleased-trans a b c p q = record {
    chunks =
        Rows-trans (IsReleased max_attempts) (IsReleased max_attempts) (IsReleased max_attempts)
          (IsReleased-trans max_attempts) a.chunks b.chunks c.chunks p.chunks q.chunks;
    batches =
        Rows-trans (IsReleased max_attempts) (IsReleased max_attempts) (IsReleased max_attempts)
          (IsReleased-trans max_attempts) a.batches b.batches c.batches p.batches q.batches;
  }

  release-DbIsReleased :
      (type : ProofType) (h : ℕ) (tasks : List ProverTask) (db : Db)
      → DbIsReleased max_attempts db
          (release max_attempts type h (record db { prover_tasks = tasks }))
  unfolding release
  release-DbIsReleased proof_type_chunk h tasks db = record {
    chunks = release-Rows max_attempts h db.chunks;
    batches = (DbIsReleased-refl db).batches;
  }
  release-DbIsReleased proof_type_batch h tasks db = record {
    chunks = (DbIsReleased-refl db).chunks;
    batches = release-Rows max_attempts h db.batches;
  }
  release-DbIsReleased proof_type_undefined h tasks db = record {
    chunks = (DbIsReleased-refl db).chunks;
    batches = (DbIsReleased-refl db).batches;
  }

  check_one-cases :
      (f : TimeoutFaults) (task : ProverTask) (db : Db)
      → (check_one f max_attempts task db ≡ db)
        ⊎ (check_one f max_attempts task db
            ≡ release max_attempts task.task_type task.task_id (record db {
              prover_tasks =
                  update_task_status task.uuid prover_proof_invalid failure_timeout db.prover_tasks;
            }))
  unfolding check_one
  check_one-cases f task db = ground arith

  check_one-DbIsReleased :
      (f : TimeoutFaults) (task : ProverTask) (db : Db)
      → DbIsReleased max_attempts db (check_one f max_attempts task db)
  check_one-DbIsReleased f task db = elim (check_one-cases f task db) [
    | inl e ↦ subst (DbIsReleased max_attempts db) (sym e) (DbIsReleased-refl db)
    | inr e ↦ subst (DbIsReleased max_attempts db) (sym e) (
        release-DbIsReleased task.task_type task.task_id
          (update_task_status task.uuid prover_proof_invalid failure_timeout db.prover_tasks) db)
  ]

  -- Whichever transactions fail, a pass over any tasks keeps each row's hash, stored proof and
  -- count of all attempts, and does not raise its active attempts; it changes a proving status
  -- only to `failed`, only once the count of all attempts has reached the limit, and never that
  -- of a row that is assigned at that moment.
  pub check-DbIsReleased :
      (faults : ProverTask → TimeoutFaults) (tasks : List ProverTask) (db : Db)
      → DbIsReleased max_attempts db (check faults max_attempts tasks db)
  unfolding check
  check-DbIsReleased faults [] db = DbIsReleased-refl db
  check-DbIsReleased faults (task ∷ tasks) db =
      DbIsReleased-trans db (check_one (faults task) max_attempts task db)
        (check faults max_attempts (task ∷ tasks) db) (check_one-DbIsReleased (faults task) task db)
        (check-DbIsReleased faults tasks (check_one (faults task) max_attempts task db))
