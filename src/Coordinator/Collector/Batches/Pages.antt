-- ===== src/Coordinator/Collector/Batches/Pages.antt =====
-- The loop over the pages of unready batches ends:
-- coordinator/internal/controller/cron/collect_proof.go.
use scroll.Common.{
  ℕ, zero, suc, ◌+◌, ◌-◌, ◌*◌, ◌≤◌, ◌<◌, ◌≡◌, ◌⊎◌, refl, ap, ◌∙◌, inl, inr, Bool, true, some, List,
  [], ◌∷◌, length, drop, select, length-take, arith, ltb, update_where, if_both,
}
use scroll.Coordinator.{chunk_proofs_ready, Batch, Db}
use scroll.Coordinator.Orm.{same_hash, set_chunk_proofs, check_ready, update_chunk_proofs_status}
use scroll.Coordinator.Collector.Batches.{
  ReadyFaults, is_unready, insert_by_index, order_by_index, get_unready_batches, ready_one,
  ready_all, page_size, ready_pages, check_batch_all_chunk_ready,
}

length-insert : (b : Batch) (bs : List Batch) → length (insert_by_index b bs) ≡ suc (length bs)
unfolding insert_by_index
length-insert b [] = refl
length-insert b (c ∷ cs) = ground (arith, length-insert b cs)

length-order : (bs : List Batch) → length (order_by_index bs) ≡ length bs
unfolding order_by_index
length-order [] = refl
length-order (b ∷ bs) = length-insert b (order_by_index bs) ∙ ap suc (length-order bs)

length-select : (p : Batch → Bool) (bs : List Batch) → length (select p bs) ≤ length bs
length-select p [] = omega arith
length-select p (b ∷ bs) = ground (arith, length-select p bs)

length-drop : (n : ℕ) (bs : List Batch) → length (drop n bs) ≡ length bs - n
length-drop zero bs = omega arith
length-drop (suc n) [] = omega arith
length-drop (suc n) (b ∷ bs) = omega (arith, length-drop n bs)

length-update :
    (p : Batch → Bool) (f : Batch → Batch) (bs : List Batch)
    → length (update_where p f bs) ≡ length bs
unfolding update_where
length-update p f [] = refl
length-update p f (b ∷ bs) = ap suc (length-update p f bs)

-- A page holds no more than what is behind its offset.
length-get_unready :
    (offset : ℕ) (bs : List Batch)
    → length (get_unready_batches offset page_size bs) ≤ length bs - offset
unfolding get_unready_batches
length-get_unready offset bs = omega (
  arith,
  length-take page_size (drop offset (order_by_index (select is_unready bs))),
  length-drop offset (order_by_index (select is_unready bs)),
  length-order (select is_unready bs),
  length-select is_unready bs,
)

pub ready_one-cases :
    (f : ReadyFaults) (b : Batch) (db : Db)
    → (ready_one f b db ≡ db)
      ⊎ ((check_ready (some b.hash) db.chunks ≡ true)
          × (ready_one f b db ≡ record db {
            batches = update_chunk_proofs_status (some b.hash) chunk_proofs_ready db.batches;
          }))
unfolding ready_one
ready_one-cases f b db = ground arith

length-ready_one :
    (f : ReadyFaults) (b : Batch) (db : Db) → length (ready_one f b db).batches ≡ length db.batches
unfolding update_chunk_proofs_status
length-ready_one f b db = elim (ready_one-cases f b db) [
  | inl e ↦ ap (λ (d : Db). length d.batches) e
  | inr (ready, e) ↦
      ap (λ (d : Db). length d.batches) e
      ∙ length-update (λ x. same_hash (some x.hash) (some b.hash))
          (set_chunk_proofs chunk_proofs_ready) db.batches
]

length-ready_all :
    (f : ReadyFaults) (bs : List Batch) (db : Db)
    → length (ready_all f bs db).batches ≡ length db.batches
unfolding ready_all
length-ready_all f [] db = refl
length-ready_all f (b ∷ bs) db = length-ready_all f bs (ready_one f b db) ∙ length-ready_one f b db

ready_pages-ends :
    (f : ReadyFaults) (fuel page : ℕ) (db : Db)
    → page * page_size ≤ length db.batches
    → length db.batches < (page + fuel) * page_size
    → (ready_pages f fuel page db).0 ≡ true
unfolding ready_pages
ready_pages-ends f zero page db low high = absurd (omega arith)
ready_pages-ends f (suc fuel) page db low high =
    let batches = get_unready_batches (page * page_size) page_size db.batches in
    let next = ready_all f batches db in
    if_both (λ (r : Bool × Db). r.0 ≡ true) (f.page_fails page) (λ _. refl)
      (λ _.
        if_both (λ (r : Bool × Db). r.0 ≡ true) (ltb (length batches) page_size) (λ _. refl)
          (λ full.
            let more : page_size ≤ length batches = ground arith in
            let few = length-get_unready (page * page_size) db.batches in
            let kept = length-ready_all f batches db in
            ready_pages-ends f fuel (page + 1) next (omega (arith, more, few, kept))
              (omega (arith, more, few, kept))))

-- Whichever calls fail, the loop over the pages ends within the fuel that it is given, which is
-- one more than the number of batches.
pub check_batch-ends : (f : ReadyFaults) (db : Db) → (check_batch_all_chunk_ready f db).0 ≡ true
unfolding check_batch_all_chunk_ready
check_batch-ends f db =
    ready_pages-ends f (suc (length db.batches)) 0 db (omega arith) (omega arith)
