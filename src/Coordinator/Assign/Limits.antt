-- ===== src/Coordinator/Assign/Limits.antt =====
-- The limits on a chunk's attempts hold through every assignment:
-- coordinator/internal/logic/provertask/chunk_prover_task.go.
use scroll.Common.{
  ℕ, zero, suc, ◌≤◌, ◌≡◌, ◌⊎◌, refl, sym, subst, ap, ◌∙◌, inl, inr, Bool, true, List, [], ◌∷◌,
  arith, ltb, Option, some, none, if◌then◌else◌, Bool-cases, if_both, All, Outcome, ok, err,
  update_where,
}
use scroll.Coordinator.{ProvingStatus, assigned, unassigned, Chunk, ProverTask, Db}
use scroll.Coordinator.Orm.{
  get_chunk, first_by_index, is_assignable, update_attempts, has_attempts, set_assigned,
  insert_prover_task, decrease_active_attempts, is_active_at, set_less_active,
}
use scroll.Coordinator.Assign.{
  AssignError, Setting, World, Prover, read_chunk, Try, answer, again, swap, swap_read, next_try,
  take_chunk, recover_active_attempts, create_task, assign_in_fork, assign_range, assign,
  get_hard_fork_number_by_name, new_task,
}

-- A chunk within the limits.
abbrev pub IsWithin : Setting → Chunk → Type 0
IsWithin s c = (c.active_attempts ≤ s.provers_per_session) × (c.total_attempts ≤ s.session_attempts)

abbrev pub AllWithin : Setting → Db → Type 0
AllWithin s db = All (IsWithin s) db.chunks

-- A chunk that may get one more attempt.
abbrev HasRoom : Setting → Chunk → Type 0
HasRoom s c =
    (suc c.active_attempts ≤ s.provers_per_session) × (suc c.total_attempts ≤ s.session_attempts)

is_assignable-HasRoom :
    (s : Setting) (status : ProvingStatus) (from to : ℕ) (c : Chunk)
    → is_assignable status from to s.provers_per_session s.session_attempts c ≡ true
    → HasRoom s c
is_assignable-HasRoom s status from to c e = ground arith

abbrev better : (Chunk → Bool) → Option Chunk → Chunk → Option Chunk
better p best r =
    if p r
    then elim best [ none ↦ some r | some b ↦ if ltb r.index b.index then some r else some b ]
    else best

better-cases :
    (p : Chunk → Bool) (best : Option Chunk) (r : Chunk)
    → (better p best r ≡ best) ⊎ ((better p best r ≡ some r) × (p r ≡ true))
better-cases p none r = ground arith
better-cases p (some b) r = ground arith

-- A chunk that is found passes the test.
first_by_index-passes :
    (p : Chunk → Bool) (best : Option Chunk) (rows : List Chunk) (c : Chunk)
    → first_by_index p best rows ≡ some c
    → (best ≡ some c) ⊎ (p c ≡ true)
unfolding first_by_index
first_by_index-passes p best [] c e = inl e
first_by_index-passes p best (r ∷ rows) c e =
    elim (first_by_index-passes p (better p best r) rows c e) [
      | inr t ↦ inr t
      | inl found ↦ elim (better-cases p best r) [
        | inl kept ↦ inl (sym kept ∙ found)
        | inr (taken, t) ↦ inr (ap p (some-injective (sym found ∙ taken)) ∙ t)
      ]
    ]
  where
    some-injective : {a b : Chunk} → ◌≡◌ {A = Option Chunk} (some a) (some b) → a ≡ b
    some-injective h = cc

AllWithin-update :
    (s : Setting) (p : Chunk → Bool) (f : Chunk → Chunk)
    → ((c : Chunk) → p c ≡ true → IsWithin s c → IsWithin s (f c))
    → (rows : List Chunk) → All (IsWithin s) rows
    → All (IsWithin s) (update_where p f rows)
unfolding update_where
AllWithin-update s p f step [] w = tt
AllWithin-update s p f step (c ∷ rows) w = (
  elim (Bool-cases (p c)) [ inl e ↦ rw e (step c e w.0) | inr e ↦ rw e w.0 ],
  AllWithin-update s p f step rows w.1,
)

update_attempts-AllWithin :
    (s : Setting) (c : Chunk)
    → HasRoom s c
    → (rows : List Chunk) → All (IsWithin s) rows
    → All (IsWithin s) (update_attempts c.index c.active_attempts c.total_attempts rows).1
unfolding update_attempts
update_attempts-AllWithin s c room rows w =
    AllWithin-update s (has_attempts c.index c.active_attempts c.total_attempts) set_assigned
      (λ r e k. ground arith) rows w

decrease-AllWithin :
    (s : Setting) (h : ℕ) (rows : List Chunk)
    → All (IsWithin s) rows
    → All (IsWithin s) (decrease_active_attempts h rows)
unfolding decrease_active_attempts
decrease-AllWithin s h rows w =
    AllWithin-update s (is_active_at h) set_less_active (λ r e k. ground arith) rows w

get_chunk-HasRoom :
    (s : Setting) (status : ProvingStatus) (from to : ℕ) (rows : List Chunk) (c : Chunk)
    → get_chunk status from to s.provers_per_session s.session_attempts rows ≡ some c
    → HasRoom s c
unfolding get_chunk
get_chunk-HasRoom s status from to rows c e =
    elim (first_by_index-passes
      (is_assignable status from to s.provers_per_session s.session_attempts) none rows c e) [
        | inl n ↦ absurd (cc)
        | inr t ↦ is_assignable-HasRoom s status from to c t
      ]

-- A read that finds a chunk is one of the two queries.
read_chunk-cases :
    (s : Setting) (w : World) (n from to : ℕ) (rows : List Chunk) (c : Chunk)
    → read_chunk s w n from to rows ≡ ok (some c)
    → (get_chunk assigned from to s.provers_per_session s.session_attempts rows ≡ some c)
      ⊎ (get_chunk unassigned from to s.provers_per_session s.session_attempts rows ≡ some c)
unfolding read_chunk
read_chunk-cases s w n from to rows c e = ground arith

read_chunk-HasRoom :
    (s : Setting) (w : World) (n from to : ℕ) (rows : List Chunk) (c : Chunk)
    → read_chunk s w n from to rows ≡ ok (some c)
    → HasRoom s c
read_chunk-HasRoom s w n from to rows c e = elim (read_chunk-cases s w n from to rows c e) [
  | inl found ↦ get_chunk-HasRoom s assigned from to rows c found
  | inr found ↦ get_chunk-HasRoom s unassigned from to rows c found
]

swap-cases :
    (w : World) (n : ℕ) (c : Chunk) (db : Db)
    → ((swap w n c db).1 ≡ db)
      ⊎ ((swap w n c db).1 ≡ record db {
        chunks = (update_attempts c.index c.active_attempts c.total_attempts db.chunks).1;
      })
unfolding swap
swap-cases w n c db = ground arith

swap-AllWithin :
    (s : Setting) (w : World) (n : ℕ) (c : Chunk) (db : Db)
    → HasRoom s c
    → AllWithin s db
    → AllWithin s (swap w n c db).1
swap-AllWithin s w n c db room k = elim (swap-cases w n c db) [
  | inl e ↦ subst (AllWithin s) (sym e) k
  | inr e ↦ subst (AllWithin s) (sym e) (update_attempts-AllWithin s c room db.chunks k)
]

module _ (s : Setting) (w : World)
    (others : (n : ℕ) (db : Db) → AllWithin s db → AllWithin s (w.between n db)) where
  swap_read-AllWithin :
      (n from to : ℕ) (db : Db) (r : Outcome AssignError (Option Chunk))
      → read_chunk s w n from to db.chunks ≡ r
      → AllWithin s db
      → AllWithin s (swap_read w n db r).1
  unfolding swap_read
  swap_read-AllWithin n from to db (err e) read k = k
  swap_read-AllWithin n from to db (ok none) read k = k
  swap_read-AllWithin n from to db (ok (some c)) read k =
      swap-AllWithin s w n c (w.between n db) (read_chunk-HasRoom s w n from to db.chunks c read)
        (others n db k)

  next_try-AllWithin :
      (t : Try × Db) (following : Db → Outcome AssignError (Option Chunk) × Db)
      → AllWithin s t.1
      → ((db : Db) → AllWithin s db → AllWithin s (following db).1)
      → AllWithin s (next_try t following).1
  unfolding next_try
  next_try-AllWithin (answer a, db) following k step = k
  next_try-AllWithin (again, db) following k step = step db k

  take_chunk-AllWithin :
      (n from to : ℕ) (db : Db) → AllWithin s db → AllWithin s (take_chunk s w n from to db).1
  unfolding take_chunk
  take_chunk-AllWithin zero from to db k = k
  take_chunk-AllWithin (suc n) from to db k =
      next_try-AllWithin (swap_read w n db (read_chunk s w n from to db.chunks))
        (λ d. take_chunk s w n from to d)
        (swap_read-AllWithin n from to db (read_chunk s w n from to db.chunks) refl k)
        (λ d kd. take_chunk-AllWithin n from to d kd)

  recover-AllWithin :
      (c : Chunk) (db : Db) → AllWithin s db → AllWithin s (recover_active_attempts w c db)
  unfolding recover_active_attempts
  recover-AllWithin c db k = elim (Bool-cases w.recover_fails) [
    | inl e ↦ rw e k
    | inr e ↦ rw e (decrease-AllWithin s c.hash db.chunks k)
  ]

  create_task-AllWithin :
      (p : Prover) (t : Outcome AssignError (Option Chunk) × Db)
      → AllWithin s t.1
      → AllWithin s (create_task w p t).1
  unfolding create_task
  create_task-AllWithin p (err e, db) k = k
  create_task-AllWithin p (ok none, db) k = k
  create_task-AllWithin p (ok (some c), db) k =
      let stored : Db = record db {
        prover_tasks = insert_prover_task (new_task w p c) db.prover_tasks;
      } in
      if_both (λ (r : Outcome AssignError (Option ProverTask) × Db). AllWithin s r.1) w.insert_fails
        (λ _. recover-AllWithin c db k)
        (λ _.
          if_both (λ (r : Outcome AssignError (Option ProverTask) × Db). AllWithin s r.1)
            w.format_fails (λ _. recover-AllWithin c stored k) (λ _. k))

  assign_in_fork-AllWithin :
      (p : Prover) (fork : Outcome AssignError ℕ) (db : Db)
      → AllWithin s db
      → AllWithin s (assign_in_fork s w p fork db).1
  unfolding assign_in_fork
  assign_in_fork-AllWithin p (err e) db k = k
  assign_in_fork-AllWithin p (ok number) db k =
      let (from, to) = assign_range number p.prover_height s.fork_heights in
      create_task-AllWithin p (take_chunk s w 5 from to db) (take_chunk-AllWithin 5 from to db k)

  -- If every chunk is within the limits on active and on all attempts, and what other requests do
  -- between a read and the update that follows it keeps that, then every chunk is within them
  -- after an assignment too, whichever calls fail.
  pub assign-AllWithin : (p : Prover) (db : Db) → AllWithin s db → AllWithin s (assign s w p db).1
  unfolding assign
  assign-AllWithin p db k =
      assign_in_fork-AllWithin p (get_hard_fork_number_by_name p.fork_name s.name_fork_map) db k
