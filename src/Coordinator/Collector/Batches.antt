-- ===== src/Coordinator/Collector/Batches.antt =====
-- The check whether all chunks of a batch are proved, at one tick of the clock:
-- checkBatchAllChunkReady of coordinator/internal/controller/cron/collect_proof.go, with the query
-- GetUnassignedAndChunksUnreadyBatches of coordinator/internal/orm/batch.go.
-- The loop over the pages has fuel, and its result says whether it ended by itself.
pub mod Pages
pub mod Tests
pub mod Ready
use scroll.Common.{
  ℕ, zero, suc, ◌+◌, ◌*◌, Bool, true, false, not, ◌&&◌, some, List, [], ◌∷◌, length, take, drop,
  select, ltb, ◌==◌, if◌then◌else◌,
}
use scroll.Coordinator.{
  unassigned, proving_code, ChunkProofsStatus, chunk_proofs_undefined, chunk_proofs_pending,
  chunk_proofs_ready, Batch, Db,
}
use scroll.Coordinator.Orm.{check_ready, update_chunk_proofs_status}

-- Which database calls fail: the read of a page, and the two calls on a batch.
pub record ReadyFaults : Type 0 where
  pub page_fails : ℕ → Bool
  pub check_fails : Batch → Bool
  pub update_fails : Batch → Bool

abbrev pub is_pending : ChunkProofsStatus → Bool
is_pending s = elim s [ chunk_proofs_pending ↦ true | _ ↦ false ]

-- The WHERE clause of the query.
abbrev pub is_unready : Batch → Bool
is_unready b =
    (proving_code b.proving_status == proving_code unassigned)
    && is_pending b.info.chunk_proofs_status

-- ORDER BY index ASC
unfoldable pub insert_by_index : Batch → List Batch → List Batch
insert_by_index b [] = b ∷ []
insert_by_index b (c ∷ cs) = if ltb c.index b.index then c ∷ insert_by_index b cs else b ∷ c ∷ cs

unfoldable pub order_by_index : List Batch → List Batch
unfolding insert_by_index
order_by_index [] = []
order_by_index (b ∷ bs) = insert_by_index b (order_by_index bs)

-- GetUnassignedAndChunksUnreadyBatches
unfoldable pub get_unready_batches : ℕ → ℕ → List Batch → List Batch
unfolding order_by_index
get_unready_batches offset limit batches =
    take limit (drop offset (order_by_index (select is_unready batches)))

-- The body of the loop over the batches of a page.
unfoldable pub ready_one : ReadyFaults → Batch → Db → Db
unfolding check_ready update_chunk_proofs_status
ready_one f b db =
    if f.check_fails b
    then db
    else if not (check_ready (some b.hash) db.chunks)
    then db
    else if f.update_fails b
    then db
    else record db {
      batches = update_chunk_proofs_status (some b.hash) chunk_proofs_ready db.batches;
    }

unfoldable pub ready_all : ReadyFaults → List Batch → Db → Db
unfolding ready_one
ready_all f [] db = db
ready_all f (b ∷ bs) db = ready_all f bs (ready_one f b db)

abbrev pub page_size : ℕ
page_size = 50

-- The loop over the pages, from a page counted from 0.
unfoldable pub ready_pages : ReadyFaults → ℕ → ℕ → Db → Bool × Db
unfolding get_unready_batches ready_all
ready_pages f zero page db = (false, db)
ready_pages f (suc fuel) page db =
    let batches = get_unready_batches (page * page_size) page_size db.batches in
    let next = ready_all f batches db in
    let rest = ready_pages f fuel (page + 1) next in
    if f.page_fails page
    then (true, db)
    else if ltb (length batches) page_size
    then (true, next)
    else rest

-- One tick.
unfoldable pub check_batch_all_chunk_ready : ReadyFaults → Db → Bool × Db
unfolding ready_pages
check_batch_all_chunk_ready f db = ready_pages f (suc (length db.batches)) 0 db
