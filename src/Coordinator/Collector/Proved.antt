-- ===== src/Coordinator/Collector/Proved.antt =====
-- A timed-out prover task of a chunk that another prover has proved:
-- coordinator/internal/controller/cron/collect_proof.go and coordinator/internal/orm/chunk.go.
use scroll.Common.{
  ℕ, ◌≤◌, ◌≡◌, sym, subst, ap, ◌∙◌, inl, inr, true, false, List, [], ◌∷◌, arith, ◌==◌, some,
  find_first, if◌then◌else◌, Bool-cases,
}
use scroll.Coordinator.{verified, failed, proof_type_chunk, Chunk, ProverTask, Db}
use scroll.Coordinator.Orm.{
  update_proving_status_failed, decrease_active_attempts, fails_at, is_active_at, set_less_active,
  set_failed, get_proving_status,
}
use scroll.Coordinator.Collector.{TimeoutFaults, release, check_one, check}

-- The row after an attempt is given back and the row may be failed.
abbrev released_row : ℕ → ℕ → Chunk → Chunk
released_row max_attempts h r =
    let less = if is_active_at h r then set_less_active r else r in
    if fails_at h max_attempts less then set_failed less else less

released_row-other :
    (max_attempts h : ℕ) (r : Chunk) → (r.hash == h) ≡ false → released_row max_attempts h r ≡ r
released_row-other max_attempts h r n = simp (n)

released_row-verified :
    (max_attempts h : ℕ) (r : Chunk)
    → (r.hash == h) ≡ true
    → r.proving_status ≡ verified
    → max_attempts ≤ r.total_attempts
    → released_row max_attempts h r ≡ set_failed r
released_row-verified max_attempts h r e v m = ground arith

status-head :
    (h : ℕ) (r : Chunk) (rows : List Chunk)
    → (r.hash == h) ≡ true
    → get_proving_status h (r ∷ rows) ≡ r.proving_status
unfolding get_proving_status find_first
status-head h r rows e = ground arith

status-tail :
    (h : ℕ) (r : Chunk) (rows : List Chunk)
    → (r.hash == h) ≡ false
    → get_proving_status h (r ∷ rows) ≡ get_proving_status h rows
unfolding get_proving_status find_first
status-tail h r rows e = ground arith

first-head :
    (h : ℕ) (c r : Chunk) (rows : List Chunk)
    → (r.hash == h) ≡ true
    → find_first (λ x. x.hash == h) (r ∷ rows) ≡ some c
    → r ≡ c
unfolding find_first
first-head h c r rows t e = ground arith

first-tail :
    (h : ℕ) (c r : Chunk) (rows : List Chunk)
    → (r.hash == h) ≡ false
    → find_first (λ x. x.hash == h) (r ∷ rows) ≡ some c
    → find_first (λ x. x.hash == h) rows ≡ some c
unfolding find_first
first-tail h c r rows t e = ground arith

first_failed :
    (max_attempts h : ℕ) (c : Chunk) (rows : List Chunk)
    → find_first (λ r. r.hash == h) rows ≡ some c
    → c.proving_status ≡ verified
    → max_attempts ≤ c.total_attempts
    → get_proving_status h
        (update_proving_status_failed h max_attempts (decrease_active_attempts h rows))
      ≡ failed
unfolding find_first update_proving_status_failed decrease_active_attempts
first_failed max_attempts h c [] e v m = absurd (cc)
first_failed max_attempts h c (r ∷ rows) e v m =
    let rest = update_proving_status_failed h max_attempts (decrease_active_attempts h rows) in
    elim (Bool-cases (r.hash == h)) [
      | inl t ↦
          let same = first-head h c r rows t e in
          let failing =
            released_row-verified max_attempts h r t (ap (λ (x : Chunk). x.proving_status) same ∙ v)
              (subst (λ (x : Chunk). max_attempts ≤ x.total_attempts) (sym same) m) in
          ap (λ x. get_proving_status h (x ∷ rest)) failing ∙ status-head h (set_failed r) rest t
      | inr n ↦
          ap (λ x. get_proving_status h (x ∷ rest)) (released_row-other max_attempts h r n)
          ∙ status-tail h r rest n
          ∙ first_failed max_attempts h c rows (first-tail h c r rows n e) v m
    ]

-- The faults of a transaction in which every call succeeds.
abbrev pub no_timeout_faults : TimeoutFaults
no_timeout_faults = record {
  task_status_fails = false;
  attempts_fail = false;
  proving_status_fails = false;
}

check-one-task :
    (max_attempts : ℕ) (task : ProverTask) (db : Db)
    → task.task_type ≡ proof_type_chunk
    → (check (λ _. no_timeout_faults) max_attempts (task ∷ []) db).chunks
      ≡ update_proving_status_failed task.task_id max_attempts
          (decrease_active_attempts task.task_id db.chunks)
unfolding check check_one release
check-one-task max_attempts task db e = ground arith

-- A chunk that is verified and whose attempts are used up reads as failed after a pass over one
-- timed-out prover task of it, if every call of the pass succeeds: its proof no longer counts.
pub check-fails-verified :
    (max_attempts : ℕ) (task : ProverTask) (db : Db) (c : Chunk)
    → task.task_type ≡ proof_type_chunk
    → find_first (λ r. r.hash == task.task_id) db.chunks ≡ some c
    → c.proving_status ≡ verified
    → max_attempts ≤ c.total_attempts
    → get_proving_status task.task_id
        (check (λ _. no_timeout_faults) max_attempts (task ∷ []) db).chunks
      ≡ failed
check-fails-verified max_attempts task db c type e v m =
    ap (get_proving_status task.task_id) (check-one-task max_attempts task db type)
    ∙ first_failed max_attempts task.task_id c db.chunks e v m
