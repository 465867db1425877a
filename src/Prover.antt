-- ===== src/Prover.antt =====
-- The prover's stack of tasks and its loop: prover/store/stack.go and prover/prover.go.
-- The bucket of the key-value store is the list of its entries in ascending order of the keys. The
-- store, the coordinator and the prover core are operations of the record `Env`. A panic of the
-- core ends the process, and the next one starts with the bucket that it left.
pub mod Stack
pub mod Tries
pub mod Panics
pub mod Tests
use scroll.Common.{
  ℕ, zero, suc, ◌+◌, Bool, true, false, not, Option, none, some, List, [], ◌∷◌, ltb, leb, ◌==◌,
  if◌then◌else◌, select,
}
use scroll.Coordinator.{ProofType}

pub record ProvingTask : Type 0 where
  pub id : ℕ
  pub uuid : ℕ
  pub task_type : ProofType
  pub times : ℕ

pub record Entry : Type 0 where
  pub key : ℕ
  pub value : ProvingTask

abbrev pub Bucket : Type 0
Bucket = List Entry

-- Bucket.Put
unfoldable pub put : ℕ → ProvingTask → Bucket → Bucket
put k t [] = record { key = k; value = t } ∷ []
put k t (e ∷ es) =
    let rest = put k t es in
    if k == e.key
    then record { key = k; value = t } ∷ es
    else if ltb k e.key
    then record { key = k; value = t } ∷ e ∷ es
    else e ∷ rest

-- Cursor.Last
unfoldable pub last_entry : Bucket → Option Entry
last_entry [] = none
last_entry (e ∷ []) = some e
last_entry (e ∷ f ∷ es) = last_entry (f ∷ es)

-- Push
unfoldable pub push : ProvingTask → Bucket → Bucket
unfolding put
push t b = put t.id t b

-- Delete
unfoldable pub delete : ℕ → Bucket → Bucket
delete k b = select (λ e. not (e.key == k)) b

-- UpdateTimes: it writes to the last key of the bucket, whatever the task is. On an empty bucket
-- the key is nil, and the store refuses it.
abbrev pub put_last : Option Entry → ProvingTask → Bucket → Option Bucket
put_last none t b = none
put_last (some e) t b = some (put e.key t b)

unfoldable pub update_times : ProvingTask → ℕ → Bucket → Option Bucket
unfolding put last_entry
update_times t n b = put_last (last_entry b) (record t { times = n }) b

pub data Proving : Type 0 where
  proved failed_to_prove panicked : Proving

pub data Submission : Type 0 where
  submitted not_connected not_accepted : Submission

pub record Env : Type 0 where
  pub peek_fails : Bool
  pub push_fails : Bool
  pub update_fails : Bool
  pub delete_fails : Bool
  pub get_task : Option (ℕ × ℕ × ProofType)
  pub prove : ProvingTask → Proving
  pub submit : ProvingTask → Submission

-- fetchTaskFromCoordinator, from the identifiers of the answer
abbrev pub new_task : Option (ℕ × ℕ × ProofType) → Option ProvingTask
new_task none = none
new_task (some (id, uuid, type)) =
    some (record { id = id; uuid = uuid; task_type = type; times = 0 })

module _ (env : Env) where
  abbrev pub drop_task : ProvingTask → Bucket → Bucket
  drop_task t b = if env.delete_fails then b else delete t.id b

  -- submitProof: the task stays only if the coordinator is not reached.
  abbrev pub submit_proof : Submission → ProvingTask → Bucket → Bucket
  submit_proof not_connected t b = b
  submit_proof submitted t b = drop_task t b
  submit_proof not_accepted t b = drop_task t b

  -- submitErr: the test of its failure reads the error of the proving, so the task always goes.
  abbrev pub submit_err : ProvingTask → Bucket → Bucket
  submit_err t b = drop_task t b

  abbrev pub after_prove : Proving → ProvingTask → Bucket → Bucket
  after_prove proved t b = submit_proof (env.submit t) t b
  after_prove failed_to_prove t b = submit_err t b
  after_prove panicked t b = b

  abbrev pub after_update : Option Bucket → ProvingTask → Bucket → Bucket
  after_update none t b = b
  after_update (some b') t b = after_prove (env.prove t) t b'

  -- The part behind the choice of the task.
  unfoldable pub try_task : ProvingTask → Bucket → Bucket
  unfolding update_times delete
  try_task t b =
      if leb t.times 2
      then (if env.update_fails
          then b
          else after_update (update_times t (t.times + 1) b) (record t { times = t.times + 1 }) b)
      else submit_err t b

  abbrev pub take_new : Option ProvingTask → Bucket → Bucket
  take_new none b = b
  take_new (some t) b = if env.push_fails then b else try_task t (push t b)

  abbrev pub take_last : Option Entry → Bucket → Bucket
  take_last (some e) b = try_task e.value b
  take_last none b = take_new (new_task env.get_task) b

  -- proveAndSubmit: the bucket behind it
  unfoldable pub prove_and_submit : Bucket → Bucket
  unfolding last_entry push try_task
  prove_and_submit b = if env.peek_fails then b else take_last (last_entry b) b
