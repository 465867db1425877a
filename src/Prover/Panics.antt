-- ===== src/Prover/Panics.antt =====
-- A task whose proving panics does not stay for ever: prover/prover.go.
use scroll.Common.{
  ℕ, zero, suc, ◌+◌, ◌<◌, ◌≤◌, ◌≡◌, refl, sym, ap, ◌∙◌, subst, true, false, not, some, [], ◌∷◌,
  arith, ltb, leb, ◌==◌, if◌then◌else◌,
}
use scroll.Prover.{
  ProvingTask, Entry, Bucket, put, last_entry, delete, update_times, panicked, Env, try_task,
  prove_and_submit,
}
use scroll.Prover.Stack.{IsSorted, last_entry-All}
use scroll.Prover.Tries.{IsTried, IsStacked, prove_and_submit-IsStacked}

last_entry-cons :
    (x e : Entry) (es : Bucket) → last_entry es ≡ some e → last_entry (x ∷ es) ≡ some e
unfolding last_entry
last_entry-cons x e [] l = absurd (cc)
last_entry-cons x e (f ∷ fs) l = l

-- A put at the last key changes the last entry.
put-last :
    (b : Bucket) (e : Entry) (t : ProvingTask)
    → IsSorted b
    → last_entry b ≡ some e
    → last_entry (put e.key t b) ≡ some (record { key = e.key; value = t })
unfolding put last_entry
put-last [] e t s l = absurd (cc)
put-last (x ∷ []) e t s l =
    let same : x ≡ e = cc in let here : (e.key == x.key) ≡ true = ground arith in rw here refl
put-last (x ∷ y ∷ ys) e t s l =
    let above = last_entry-All (λ f. x.key < f.key) (y ∷ ys) e s.0 l in
    let other : (e.key == x.key) ≡ false = ground arith in
    let later : ltb e.key x.key ≡ false = ground arith in
    let rest = put-last (y ∷ ys) e t s.1 l in
    rw (other, later)
      (last_entry-cons x (record { key = e.key; value = t }) (put e.key t (y ∷ ys)) rest)

-- What is deleted may have been put.
delete-put :
    (b : Bucket) (e : Entry) (t : ProvingTask)
    → IsSorted b
    → last_entry b ≡ some e
    → delete e.key (put e.key t b) ≡ delete e.key b
unfolding put last_entry delete
delete-put [] e t s l = absurd (cc)
delete-put (x ∷ []) e t s l =
    let same : x ≡ e = cc in
    let here : (e.key == x.key) ≡ true = ground arith in
    let there : (x.key == e.key) ≡ true = ground arith in
    let own : (e.key == e.key) ≡ true = ground arith in rw here (rw own (rw there refl))
delete-put (x ∷ y ∷ ys) e t s l =
    let above = last_entry-All (λ f. x.key < f.key) (y ∷ ys) e s.0 l in
    let other : (e.key == x.key) ≡ false = ground arith in
    let later : ltb e.key x.key ≡ false = ground arith in
    let rest = delete-put (y ∷ ys) e t s.1 l in
    rw (other, later) (ap (λ r. if not (x.key == e.key) then x ∷ r else r) rest)

module _ (env : Env) where
  -- Runs of the loop, each by a new process where the one before has panicked.
  abbrev pub runs : ℕ → Bucket → Bucket
  runs zero b = b
  runs (suc n) b = runs n (prove_and_submit env b)

  -- The store works, and the proving of every task panics.
  pub record IsPanicking : Type 0 where
    pub peeks : env.peek_fails ≡ false
    pub updates : env.update_fails ≡ false
    pub deletes : env.delete_fails ≡ false
    pub panics : (t : ProvingTask) → env.prove t ≡ panicked

  prove_and_submit-panicked :
      (b : Bucket) (e : Entry)
      → IsPanicking
      → last_entry b ≡ some e
      → e.value.times ≤ 2
      → prove_and_submit env b ≡ put e.key (record e.value { times = e.value.times + 1 }) b
  unfolding prove_and_submit try_task update_times
  prove_and_submit-panicked b e p l few =
      let t : leb e.value.times 2 ≡ true = ground arith in
      let panic = p.panics (record e.value { times = e.value.times + 1 }) in
      rw p.peeks (rw l (rw (t, p.updates) (rw l (rw panic refl))))

  prove_and_submit-dropped :
      (b : Bucket) (e : Entry)
      → IsPanicking
      → last_entry b ≡ some e
      → e.value.times ≡ 3
      → prove_and_submit env b ≡ delete e.value.id b
  unfolding prove_and_submit try_task
  prove_and_submit-dropped b e p l spent =
      let f : leb e.value.times 2 ≡ false = ground arith in
      rw p.peeks (rw l (rw (f, p.deletes) refl))

  -- Let the store work and the proving of every task panic, let the entries ascend by their keys,
  -- stand under the identifiers of their tasks and be tried three times at most, and let the last
  -- task have a number of tries left to three. Behind one run more than this number the task is
  -- gone, and the other entries are as they were.
  pub runs-delete :
      (left : ℕ) (b : Bucket) (e : Entry)
      → IsPanicking
      → IsStacked b
      → last_entry b ≡ some e
      → e.value.times + left ≡ 3
      → runs (suc left) b ≡ delete e.key b
  runs-delete zero b e p s l spent =
      let own = last_entry-All IsTried b e s.tried l in
      prove_and_submit-dropped b e p l (omega arith) ∙ ap (λ k. delete k b) (sym own.0)
  runs-delete (suc left) b e p s l spent =
      let t : ProvingTask = record e.value { times = e.value.times + 1 } in
      let step = prove_and_submit-panicked b e p l (omega arith) in
      let stacked = subst IsStacked step (prove_and_submit-IsStacked env b s) in
      let rest =
        runs-delete left (put e.key t b) (record { key = e.key; value = t }) p stacked
          (put-last b e t s.sorted l) (omega arith) in
      ap (runs (suc left)) step ∙ rest ∙ delete-put b e t s.sorted l
