-- ===== src/Coordinator/Assign.antt =====
-- The assignment of chunk tasks: coordinator/internal/logic/provertask/chunk_prover_task.go, from
-- the look-up of the fork on; `checkParameter`, which only reads, is not modelled.
-- Other requests run between the reading of a chunk and the update of its attempts: `between n`
-- is what they do to the tables when `n` tries are left after this one.
pub mod Limits
use Prim.Native.String.{String}
use text.Mathlib.Text.{◌==◌ as str_eq}
use scroll.Common.{
  ℕ, zero, suc, ◌+◌, Bool, true, false, Option, none, some, List, [], ◌∷◌, ltb, ◌==◌, if◌then◌else◌,
  Outcome, ok, err, add64,
}
use scroll.Forks.{block_range}
use scroll.Coordinator.{
  unassigned, assigned, prover_assigned, failure_undefined, proof_type_chunk, Chunk, ProverTask, Db,
}
use scroll.Coordinator.Orm.{
  get_chunk, update_attempts, decrease_active_attempts, insert_prover_task,
}

pub data AssignError : Type 0 where
  hard_fork_name coordinator_internal_failure : AssignError

-- The limits in the configuration and the map from fork names to heights.
pub record Setting : Type 0 where
  pub provers_per_session : ℕ
  pub session_attempts : ℕ
  pub name_fork_map : List (String × ℕ)
  pub fork_heights : List ℕ

-- What the surroundings decide: which calls fail, what other requests do meanwhile, the clock and
-- the identifier that the database gives to a new prover task.
pub record World : Type 0 where
  pub read_assigned_fails : ℕ → Bool
  pub read_unassigned_fails : ℕ → Bool
  pub between : ℕ → Db → Db
  pub update_fails : ℕ → Bool
  pub insert_fails : Bool
  pub format_fails : Bool
  pub recover_fails : Bool
  pub now : ℕ
  pub new_uuid : ℕ

-- The prover that asks, from the request's context and parameters.
pub record Prover : Type 0 where
  pub public_key : String
  pub prover_name : String
  pub prover_version : String
  pub prover_height : ℕ
  pub fork_name : String

abbrev pub lookup : String → List (String × ℕ) → Outcome AssignError ℕ
lookup name [] = err hard_fork_name
lookup name ((key, height) ∷ r) = if str_eq key name then ok height else lookup name r

-- getHardForkNumberByName
unfoldable pub get_hard_fork_number_by_name : String → List (String × ℕ) → Outcome AssignError ℕ
get_hard_fork_number_by_name name forks = if str_eq name "" then ok 0 else lookup name forks

-- The blocks that the prover may be given: the fork's, cut at the prover's height.
unfoldable pub assign_range : ℕ → ℕ → List ℕ → ℕ × ℕ
unfolding block_range
assign_range number height forks =
    let (from, to) = block_range number forks in
    (from, if ltb height to then add64 height 1 else to)

-- The two reads of a try: an assigned chunk, or else an unassigned one.
unfoldable pub read_chunk :
    Setting → World → ℕ → ℕ → ℕ → List Chunk → Outcome AssignError (Option Chunk)
unfolding get_chunk
read_chunk s w n from to chunks =
    if w.read_assigned_fails n
    then err coordinator_internal_failure
    else elim (get_chunk assigned from to s.provers_per_session s.session_attempts chunks) [
      | some c ↦ ok (some c)
      | none ↦
          if w.read_unassigned_fails n
          then err coordinator_internal_failure
          else ok (get_chunk unassigned from to s.provers_per_session s.session_attempts chunks)
    ]

-- How one try ends: with an answer, or so that the next try follows.
pub data Try : Type 0 where
  answer : Outcome AssignError (Option Chunk) → Try
  again : Try

-- The update of the attempts of the chunk that was read.
unfoldable pub swap : World → ℕ → Chunk → Db → Try × Db
unfolding update_attempts
swap w n c db =
    if w.update_fails n
    then (answer (err coordinator_internal_failure), db)
    else let (rows_affected, chunks) =
        update_attempts c.index c.active_attempts c.total_attempts db.chunks in
      if rows_affected == 0
      then (again, record db { chunks = chunks })
      else (answer (ok (some c)), record db { chunks = chunks })

unfoldable pub swap_read : World → ℕ → Db → Outcome AssignError (Option Chunk) → Try × Db
unfolding swap
swap_read w n db (err e) = (answer (err e), db)
swap_read w n db (ok none) = (answer (ok none), db)
swap_read w n db (ok (some c)) = swap w n c (w.between n db)

unfoldable pub next_try :
    Try × Db
    → (Db → Outcome AssignError (Option Chunk) × Db)
    → Outcome AssignError (Option Chunk) × Db
next_try (answer a, db) following = (a, db)
next_try (again, db) following = following db

-- The loop, with the number of tries left.
unfoldable pub take_chunk :
    Setting → World → ℕ → ℕ → ℕ → Db → Outcome AssignError (Option Chunk) × Db
unfolding read_chunk swap_read next_try
take_chunk s w zero from to db = (ok none, db)
take_chunk s w (suc n) from to db =
    next_try (swap_read w n db (read_chunk s w n from to db.chunks))
      (λ d. take_chunk s w n from to d)

-- recoverActiveAttempts: an error is only logged.
unfoldable pub recover_active_attempts : World → Chunk → Db → Db
unfolding decrease_active_attempts
recover_active_attempts w c db =
    if w.recover_fails then db else record db { chunks = decrease_active_attempts c.hash db.chunks }

abbrev pub new_task : World → Prover → Chunk → ProverTask
new_task w p c = record {
  uuid = w.new_uuid;
  prover_public_key = p.public_key;
  prover_name = p.prover_name;
  prover_version = p.prover_version;
  task_id = c.hash;
  task_type = proof_type_chunk;
  proving_status = prover_assigned;
  failure_type = failure_undefined;
  proof = none;
  assigned_at = w.now;
  created_at = w.now;
}

-- `Assign` behind the loop: the prover task is stored and formatted.
unfoldable pub create_task :
    World
    → Prover
    → Outcome AssignError (Option Chunk) × Db
    → Outcome AssignError (Option ProverTask) × Db
unfolding insert_prover_task recover_active_attempts
create_task w p (err e, db) = (err e, db)
create_task w p (ok none, db) = (ok none, db)
create_task w p (ok (some c), db) =
    let t = new_task w p c in
    let stored = record db { prover_tasks = insert_prover_task t db.prover_tasks } in
    if w.insert_fails
    then (err coordinator_internal_failure, recover_active_attempts w c db)
    else if w.format_fails
    then (err coordinator_internal_failure, recover_active_attempts w c stored)
    else (ok (some t), stored)

-- Assign, for a prover that `checkParameter` lets through.
unfoldable pub assign_in_fork :
    Setting
    → World
    → Prover
    → Outcome AssignError ℕ
    → Db
    → Outcome AssignError (Option ProverTask) × Db
unfolding assign_range take_chunk create_task
assign_in_fork s w p (err e) db = (err e, db)
assign_in_fork s w p (ok number) db =
    let (from, to) = assign_range number p.prover_height s.fork_heights in
    create_task w p (take_chunk s w 5 from to db)

unfoldable pub assign : Setting → World → Prover → Db → Outcome AssignError (Option ProverTask) × Db
unfolding get_hard_fork_number_by_name assign_in_fork
assign s w p db = assign_in_fork s w p (get_hard_fork_number_by_name p.fork_name s.name_fork_map) db
