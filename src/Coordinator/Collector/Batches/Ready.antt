-- ===== src/Coordinator/Collector/Batches/Ready.antt =====
-- Only batches whose chunks are all proved become ready:
-- coordinator/internal/controller/cron/collect_proof.go.
use scroll.Common.{
  ℕ, zero, suc, ◌+◌, ◌*◌, ◌≡◌, ◌≢◌, ◌⊎◌, refl, sym, ap, ◌∙◌, subst, inl, inr, Bool, true, false,
  not, ◌&&◌, Option, some, none, List, [], ◌∷◌, All, arith, ==_iff, if◌then◌else◌, if_both,
  Bool-cases, length, ltb, Rows, Rows-refl, Rows-trans, Rows-update_where, count_where,
}
use scroll.Coordinator.{ProvingStatus, verified, is_verified, chunk_proofs_ready, Chunk, Batch, Db}
use scroll.Coordinator.Orm.{same_hash, set_chunk_proofs, check_ready, update_chunk_proofs_status}
use scroll.Coordinator.Collector.Batches.{
  ReadyFaults, get_unready_batches, ready_one, ready_all, page_size, ready_pages,
  check_batch_all_chunk_ready,
}
use scroll.Coordinator.Collector.Batches.Pages.{ready_one-cases}

-- Every chunk of a batch is verified.
abbrev pub AllProved : ℕ → List Chunk → Type 0
AllProved h = All (λ (c : Chunk). (c.info.batch_hash ≢ some h) ⊎ (c.proving_status ≡ verified))

same_hash-some : (o : Option ℕ) (h : ℕ) → o ≡ some h → same_hash o (some h) ≡ true
same_hash-some none h e = absurd (cc)
same_hash-some (some a) h e = (==_iff a h).1 (cc)

is_verified-eq : (s : ProvingStatus) → is_verified s ≡ true → s ≡ verified
is_verified-eq s e = ground arith

not_mine :
    (h : ℕ) (c : Chunk)
    → (same_hash c.info.batch_hash (some h) && not (is_verified c.proving_status)) ≡ false
    → (c.info.batch_hash ≢ some h) ⊎ (c.proving_status ≡ verified)
not_mine h c e = elim (Bool-cases (is_verified c.proving_status)) [
  | inl v ↦ inr (is_verified-eq c.proving_status v)
  | inr n ↦ inl (λ p. let here = same_hash-some c.info.batch_hash h p in ground arith)
]

none_left :
    (h : ℕ) (chunks : List Chunk)
    → count_where
        (λ c. same_hash c.info.batch_hash (some h) && not (is_verified c.proving_status))
        chunks
      ≡ 0
    → AllProved h chunks
unfolding count_where
none_left h [] e = tt
none_left h (c ∷ cs) e =
    let (mine, rest) =
      zero-cases (same_hash c.info.batch_hash (some h) && not (is_verified c.proving_status))
        (count_where
          (λ x. same_hash x.info.batch_hash (some h) && not (is_verified x.proving_status)) cs)
        e in
    (not_mine h c mine, none_left h cs rest)
  where
    zero-cases : (t : Bool) (n : ℕ) → (if t then suc n else n) ≡ 0 → (t ≡ false) × (n ≡ 0)
    zero-cases t n z = ground arith

check_ready-AllProved :
    (h : ℕ) (chunks : List Chunk) → check_ready (some h) chunks ≡ true → AllProved h chunks
unfolding check_ready
check_ready-AllProved h chunks e = none_left h chunks (ground arith)

-- A batch row stays as it is, or is set ready with all of its chunks verified.
abbrev pub IsReadied : List Chunk → Batch → Batch → Type 0
IsReadied chunks b b' =
    (b' ≡ b) ⊎ ((b' ≡ set_chunk_proofs chunk_proofs_ready b) × AllProved b.hash chunks)

pub record DbIsReadied (db db' : Db) : Type 0 where
  pub chunks : db'.chunks ≡ db.chunks
  pub prover_tasks : db'.prover_tasks ≡ db.prover_tasks
  pub batches : Rows (IsReadied db.chunks) db.batches db'.batches

IsReadied-trans :
    (chunks : List Chunk) (a b c : Batch)
    → IsReadied chunks a b
    → IsReadied chunks b c
    → IsReadied chunks a c
IsReadied-trans chunks a b c (inl p) q = subst (λ t. IsReadied chunks t c) p q
IsReadied-trans chunks a b c (inr (p, ready)) (inl q) = inr (q ∙ p, ready)
IsReadied-trans chunks a b c (inr (p, ready)) (inr (q, again)) =
    inr (q ∙ ap (set_chunk_proofs chunk_proofs_ready) p, ready)

DbIsReadied-refl : (db : Db) → DbIsReadied db db
DbIsReadied-refl db = record {
  chunks = refl;
  prover_tasks = refl;
  batches = Rows-refl (IsReadied db.chunks) (λ b. inl refl) db.batches;
}

DbIsReadied-trans : (a b c : Db) → DbIsReadied a b → DbIsReadied b c → DbIsReadied a c
DbIsReadied-trans a b c p q = record {
  chunks = q.chunks ∙ p.chunks;
  prover_tasks = q.prover_tasks ∙ p.prover_tasks;
  batches =
      Rows-trans (IsReadied a.chunks) (IsReadied a.chunks) (IsReadied a.chunks)
        (IsReadied-trans a.chunks) a.batches b.batches c.batches p.batches
        (subst (λ cs. Rows (IsReadied cs) b.batches c.batches) p.chunks q.batches);
}

update-DbIsReadied :
    (h : ℕ) (db : Db)
    → check_ready (some h) db.chunks ≡ true
    → DbIsReadied db
        (record db { batches = update_chunk_proofs_status (some h) chunk_proofs_ready db.batches })
unfolding update_chunk_proofs_status
update-DbIsReadied h db ready = record {
  chunks = refl;
  prover_tasks = refl;
  batches =
      Rows-update_where (IsReadied db.chunks) (λ b. same_hash (some b.hash) (some h))
        (set_chunk_proofs chunk_proofs_ready) (λ b. inl refl)
        (λ b e. inr (
          refl,
          subst (λ t. AllProved t db.chunks) (sym ((==_iff b.hash h).0 e))
              (check_ready-AllProved h db.chunks ready),
        ))
        db.batches;
}

ready_one-DbIsReadied : (f : ReadyFaults) (b : Batch) (db : Db) → DbIsReadied db (ready_one f b db)
ready_one-DbIsReadied f b db = elim (ready_one-cases f b db) [
  | inl e ↦ subst (DbIsReadied db) (sym e) (DbIsReadied-refl db)
  | inr (ready, e) ↦ subst (DbIsReadied db) (sym e) (update-DbIsReadied b.hash db ready)
]

ready_all-DbIsReadied :
    (f : ReadyFaults) (bs : List Batch) (db : Db) → DbIsReadied db (ready_all f bs db)
unfolding ready_all
ready_all-DbIsReadied f [] db = DbIsReadied-refl db
ready_all-DbIsReadied f (b ∷ bs) db =
    DbIsReadied-trans db (ready_one f b db) (ready_all f bs (ready_one f b db))
      (ready_one-DbIsReadied f b db) (ready_all-DbIsReadied f bs (ready_one f b db))

ready_pages-DbIsReadied :
    (f : ReadyFaults) (fuel page : ℕ) (db : Db) → DbIsReadied db (ready_pages f fuel page db).1
unfolding ready_pages
ready_pages-DbIsReadied f zero page db = DbIsReadied-refl db
ready_pages-DbIsReadied f (suc fuel) page db =
    let batches = get_unready_batches (page * page_size) page_size db.batches in
    let next = ready_all f batches db in
    if_both (λ (r : Bool × Db). DbIsReadied db r.1) (f.page_fails page) (λ _. DbIsReadied-refl db)
      (λ _.
        if_both (λ (r : Bool × Db). DbIsReadied db r.1) (ltb (length batches) page_size)
          (λ _. ready_all-DbIsReadied f batches db)
          (λ _.
            DbIsReadied-trans db next (ready_pages f fuel (page + 1) next).1
              (ready_all-DbIsReadied f batches db)
              (ready_pages-DbIsReadied f fuel (page + 1) next)))

-- Whichever calls fail, a tick leaves the chunks and the prover tasks alone, and leaves each
-- batch row as it is or sets only its chunk-proofs status, to ready; the latter only if every
-- chunk with that batch's hash is verified.
pub check_batch-DbIsReadied :
    (f : ReadyFaults) (db : Db) → DbIsReadied db (check_batch_all_chunk_ready f db).1
unfolding check_batch_all_chunk_ready
check_batch-DbIsReadied f db = ready_pages-DbIsReadied f (suc (length db.batches)) 0 db
