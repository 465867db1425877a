-- ===== src/Prover/Tries.antt =====
-- A task is tried three times at most: prover/prover.go.
use scroll.Common.{
  ℕ, ◌+◌, ◌≤◌, ◌≡◌, ◌≢◌, refl, sym, subst, Option, none, some, [], ◌∷◌, All, arith, leb, if_both,
}
use scroll.Coordinator.{ProofType}
use scroll.Prover.{
  ProvingTask, Entry, Bucket, put, last_entry, push, put_last, update_times, Proving, proved,
  failed_to_prove, panicked, Submission, submitted, not_connected, not_accepted, Env, new_task,
  drop_task, submit_proof, after_prove, after_update, try_task, take_new, take_last,
  prove_and_submit,
}
use scroll.Prover.Stack.{
  IsSorted, All-put, put-IsSorted, All-delete, delete-IsSorted, last_entry-All,
}

-- An entry stands under the identifier of its task, which was tried three times at most.
abbrev pub IsTried : Entry → Type 0
IsTried e = (e.key ≡ e.value.id) × (e.value.times ≤ 3)

pub record IsStacked (b : Bucket) : Type 0 where
  pub sorted : IsSorted b
  pub tried : All IsTried b

put-IsStacked :
    (t : ProvingTask) (b : Bucket) → t.times ≤ 3 → IsStacked b → IsStacked (put t.id t b)
put-IsStacked t b few s = record {
  sorted = put-IsSorted t.id t b s.sorted;
  tried = All-put IsTried t.id t b (refl, few) s.tried;
}

-- A bucket with an entry has a last one.
never : (e : Entry) (es : Bucket) → last_entry (e ∷ es) ≢ none
unfolding last_entry
never e [] x = cc
never e (f ∷ fs) x = never f fs x

module _ (env : Env) where
  drop_task-IsStacked : (t : ProvingTask) (b : Bucket) → IsStacked b → IsStacked (drop_task env t b)
  drop_task-IsStacked t b s =
      if_both IsStacked env.delete_fails (λ x. s)
        (λ x. record {
          sorted = delete-IsSorted t.id b s.sorted;
          tried = All-delete IsTried t.id b s.tried;
        })

  submit_proof-IsStacked :
      (r : Submission) (t : ProvingTask) (b : Bucket)
      → IsStacked b
      → IsStacked (submit_proof env r t b)
  submit_proof-IsStacked not_connected t b s = s
  submit_proof-IsStacked submitted t b s = drop_task-IsStacked t b s
  submit_proof-IsStacked not_accepted t b s = drop_task-IsStacked t b s

  after_prove-IsStacked :
      (r : Proving) (t : ProvingTask) (b : Bucket) → IsStacked b → IsStacked (after_prove env r t b)
  after_prove-IsStacked proved t b s = submit_proof-IsStacked (env.submit t) t b s
  after_prove-IsStacked failed_to_prove t b s = drop_task-IsStacked t b s
  after_prove-IsStacked panicked t b s = s

  -- The last entry is the task's own.
  try_task-IsStacked :
      (e : Entry) (b : Bucket)
      → last_entry b ≡ some e
      → IsStacked b
      → IsStacked (try_task env e.value b)
  unfolding try_task update_times
  try_task-IsStacked e b last s =
      let own = last_entry-All IsTried b e s.tried last in
      let t : ProvingTask = record e.value { times = e.value.times + 1 } in
      if_both IsStacked (leb e.value.times 2)
        (λ x.
          if_both IsStacked env.update_fails (λ y. s)
            (λ y.
              let few : e.value.times + 1 ≤ 3 = ground arith in
              subst (λ o. IsStacked (after_update env (put_last o t b) t b)) (sym last)
                (subst (λ k. IsStacked (after_update env (some (put k t b)) t b)) (sym own.0)
                  (after_prove-IsStacked (env.prove t) t (put e.value.id t b)
                    (put-IsStacked t b few s)))))
        (λ x. drop_task-IsStacked e.value b s)

  -- Let the entries ascend by their keys, stand under the identifiers of their tasks, and be tried
  -- three times at most. Behind a run of proveAndSubmit, whatever fails, it is so again.
  pub prove_and_submit-IsStacked : (b : Bucket) → IsStacked b → IsStacked (prove_and_submit env b)
  unfolding prove_and_submit push put last_entry
  prove_and_submit-IsStacked b s =
      if_both IsStacked env.peek_fails (λ x. s) (λ x. at_last b (last_entry b) refl s)
    where
      at_new :
          (o : Option ProvingTask)
          → ((t : ProvingTask) → o ≡ some t → t.times ≡ 0)
          → IsStacked (take_new env o [])
      at_new none z = record { sorted = tt; tried = tt }
      at_new (some t) z =
          let few : t.times ≤ 3 = let e = z t refl in omega arith in
          if_both IsStacked env.push_fails (λ x. record { sorted = tt; tried = tt })
            (λ x.
              try_task-IsStacked (record { key = t.id; value = t }) (put t.id t []) refl
                (put-IsStacked t [] few (record { sorted = tt; tried = tt })))

      new-times :
          (o : Option (ℕ × ℕ × ProofType)) (t : ProvingTask) → new_task o ≡ some t → t.times ≡ 0
      new-times none t e = absurd (cc)
      new-times (some (id, uuid, type)) t e = ground arith

      at_last :
          (c : Bucket) (o : Option Entry)
          → last_entry c ≡ o
          → IsStacked c
          → IsStacked (take_last env o c)
      at_last c (some e) last k = try_task-IsStacked e c last k
      at_last [] none last k = at_new (new_task env.get_task) (new-times env.get_task)
      at_last (x ∷ xs) none last k = absurd (never x xs last)
