-- ===== src/Proposer/BatchLimits.antt =====
-- What batch the proposer builds: rollup/internal/controller/watcher/batch_proposer.go.
use scroll.Common.{
  ℕ, zero, suc, ◌≡◌, ◌≤◌, refl, sym, ap, ◌∙◌, subst, inl, Bool, false, some, List, [], ◌∷◌, take,
  length, ok, >>=-eq-ok, ok-injective, arith, if◌then◌else◌, add64, sub64, All, Option, none, ltb,
  ◌&&◌, max_int64, ◌<◌, length-take, select, leb, if_both,
}
use scroll.Encoding.{Block, Chunk, Batch, Marshaller}
use scroll.Proposer.Limits.{prefix-take, All-take}
use scroll.Relayer.Tables.{order_by, get_l2_blocks_in_range_rows, get_latest_batch_row}
use scroll.Proposer.Batches.{
  BatchConfig, grow_batch, with_chunks, propose_chunks, propose_found, propose_after,
  get_chunks_ge_index, read_ok, propose_batch, first_block_of, get_da_chunks, before_fork,
  bernoulli_codec, max_chunks_this_batch, get_total_l1_message_popped_before_batch,
}
use scroll.Proposer.BatchBounds.{IsBatchWithinLimits, IsBatchFitting-IsBatchWithinLimits}
use scroll.Proposer.BatchGrowth.{
  IsBatchFitting, calculate-nonempty, grow_batch-IsExtended, finish_batch-IsWithin,
}

take-chunks :
    (blocks : List Block) (n : ℕ) (rows : List scroll.Relayer.Chunk) (all : List Chunk)
    → get_da_chunks blocks rows ≡ ok all
    → get_da_chunks blocks (take n rows) ≡ ok (take n all)
unfolding get_da_chunks
take-chunks blocks zero rows all e = refl
take-chunks blocks (suc n) [] all e = ap (λ x. ok (take (suc n) x)) (ok-injective e)
take-chunks blocks (suc n) (c ∷ cs) all e =
    let (found, read, rest) =
      >>=-eq-ok
        (read_ok (get_l2_blocks_in_range_rows c.start_block_number c.end_block_number blocks)) _
        e in
    let (others, more, out) = >>=-eq-ok (get_da_chunks blocks cs) _ rest in
    rw (read, take-chunks blocks n cs others more, sym (ok-injective out)) refl

before_fork-prefix :
    (is_fork : ℕ → Bool) (cs : List scroll.Relayer.Chunk)
    → ((n : ℕ) × (before_fork is_fork cs ≡ take n cs))
      × All (λ c. is_fork c.start_block_number ≡ false) (before_fork is_fork cs)
unfolding before_fork
before_fork-prefix is_fork [] = ((0, refl), tt)
before_fork-prefix is_fork (c ∷ cs) =
    let ((n, shape), clear) = before_fork-prefix is_fork cs in
    if_both
      (λ xs.
        ((n : ℕ) × (xs ≡ take n (c ∷ cs))) × All (λ c. is_fork c.start_block_number ≡ false) xs)
      (is_fork c.start_block_number) (λ t. ((0, refl), tt))
      (λ f. ((suc n, ap (λ xs. c ∷ xs) shape), (f, clear)))

-- What a proposed batch is, behind the latest batch, where `first` and `rows` are its chunks.
pub record IsProposedBatch (m : Marshaller) (cfg : BatchConfig) (blocks : List Block)
    (parent : scroll.Relayer.Batch) (found : List scroll.Relayer.Chunk) (batch : Batch)
    (first : scroll.Relayer.Chunk) (rows : List scroll.Relayer.Chunk) : Type 0 where
  pub from_table : (n : ℕ) × (first ∷ rows ≡ take n found)
  pub contents : get_da_chunks blocks (first ∷ rows) ≡ ok batch.chunks
  pub no_fork : All (λ c. cfg.is_fork c.start_block_number ≡ false) rows
  pub index : batch.index ≡ add64 parent.index 1
  pub parent_hash : batch.parent_batch_hash ≡ parent.hash
  pub within :
      IsBatchWithinLimits m cfg (bernoulli_codec (cfg.is_bernoulli first.start_block_number)) batch

-- The batch in front of the loop.
abbrev batch_start : scroll.Relayer.Batch → ℕ → Batch
batch_start parent popped = record {
  index = add64 parent.index 1;
  total_l1_message_popped_before = popped;
  parent_batch_hash = parent.hash;
  chunks = [];
}

-- Some first chunks of those in front of the fork make a proposed batch, if they keep the limits.
taken :
    (m : Marshaller) (cfg : BatchConfig) (blocks : List Block) (parent : scroll.Relayer.Batch)
    (first : scroll.Relayer.Chunk) (more : List scroll.Relayer.Chunk) (batch : Batch)
    (all : List Chunk) (popped k : ℕ)
    → get_da_chunks blocks (first ∷ before_fork cfg.is_fork more) ≡ ok all
    → batch ≡ with_chunks (batch_start parent popped) (take k all)
    → IsBatchFitting m cfg (bernoulli_codec (cfg.is_bernoulli first.start_block_number)) batch
    → (rows : List scroll.Relayer.Chunk) × IsProposedBatch m cfg blocks parent
        (first ∷ more)
        batch
        first
        rows
taken m cfg blocks parent first more batch all popped zero read shape (metrics, measured, fits) =
    absurd (
      calculate-nonempty m cfg (bernoulli_codec (cfg.is_bernoulli first.start_block_number)) batch
        metrics (ap (λ (b : Batch). b.chunks) shape) measured)
taken m cfg blocks parent first more batch all popped (suc k) read shape within =
    let front = before_fork cfg.is_fork more in
    let ((n, cut), clear) = before_fork-prefix cfg.is_fork more in
    let (j, prefix) = prefix-take k n more in
    (
      take k front,
      record {
        from_table = (suc j, ap (λ xs. first ∷ xs) (ap (take k) cut ∙ prefix));
        contents =
            take-chunks blocks (suc k) (first ∷ front) all read
            ∙ ap ok (sym (ap (λ (b : Batch). b.chunks) shape));
        no_fork = All-take (λ c. cfg.is_fork c.start_block_number ≡ false) k front clear;
        index = ap (λ (b : Batch). b.index) shape;
        parent_hash = ap (λ (b : Batch). b.parent_batch_hash) shape;
        within =
            IsBatchFitting-IsBatchWithinLimits m cfg
              (bernoulli_codec (cfg.is_bernoulli first.start_block_number)) batch within;
      },
    )

propose_chunks-IsProposed :
    (m : Marshaller) (cfg : BatchConfig) (now : ℕ) (blocks : List Block)
    (parent : scroll.Relayer.Batch) (first : scroll.Relayer.Chunk)
    (more : List scroll.Relayer.Chunk) (batch : Batch)
    → propose_chunks m cfg now blocks parent first more ≡ ok (some batch)
    → (rows : List scroll.Relayer.Chunk) × IsProposedBatch m cfg blocks parent
        (first ∷ more)
        batch
        first
        rows
unfolding propose_chunks
propose_chunks-IsProposed m cfg now blocks parent first more batch e =
    let kept = first ∷ before_fork cfg.is_fork more in
    let version = bernoulli_codec (cfg.is_bernoulli first.start_block_number) in
    let (all, read, e1) = >>=-eq-ok (get_da_chunks blocks kept) _ e in
    let (b, has_first, e2) = >>=-eq-ok (first_block_of all) _ e1 in
    let (popped, decoded, e3) =
      >>=-eq-ok
        (get_total_l1_message_popped_before_batch parent.batch_header
          (bernoulli_codec (ltb 0 parent.index && cfg.is_bernoulli (sub64 b.header.number 1))))
        _ e2 in
    let start = batch_start parent popped in
    let (g, grown, e4) = >>=-eq-ok (grow_batch m cfg version start all) _ e3 in
    let ((k, shape), good) = grow_batch-IsExtended m cfg version start all g grown (inl refl) in
    let (same, within) =
      finish_batch-IsWithin m cfg version
        (max_chunks_this_batch cfg.max_chunk_num_per_batch (first ∷ more) kept) now g batch e4
        good in
    taken m cfg blocks parent first more batch all popped k read (sym same ∙ shape) within

found-length :
    (index limit : ℕ) (chunks : List scroll.Relayer.Chunk)
    → 0 < limit
    → limit ≤ max_int64
    → length (get_chunks_ge_index index limit chunks) ≤ limit
unfolding get_chunks_ge_index
found-length index limit chunks pos small =
    let sorted =
      order_by (λ (c : scroll.Relayer.Chunk). c.index) (select (λ c. leb index c.index) chunks) in
    subst (λ found. length found ≤ limit) (sym (limited sorted))
      (omega (arith, length-take limit sorted))
  where
    limited :
        (sorted : List scroll.Relayer.Chunk)
        → (if ltb 0 limit && leb limit max_int64 then take limit sorted else sorted)
          ≡ take limit sorted
    limited sorted = ground arith

-- The chunks behind the latest batch.
abbrev unbatched :
    BatchConfig → scroll.Relayer.Batch → List scroll.Relayer.Chunk → List scroll.Relayer.Chunk
unbatched cfg parent chunks =
    get_chunks_ge_index (add64 parent.end_chunk_index 1) cfg.max_chunk_num_per_batch chunks

propose_found-IsProposed :
    (m : Marshaller) (cfg : BatchConfig) (now : ℕ) (blocks : List Block)
    (parent : scroll.Relayer.Batch) (found : List scroll.Relayer.Chunk) (batch : Batch)
    → propose_found m cfg now blocks parent found ≡ ok (some batch)
    → (first : scroll.Relayer.Chunk) × (rows : List scroll.Relayer.Chunk) × IsProposedBatch m cfg
        blocks parent found batch first rows
propose_found-IsProposed m cfg now blocks parent [] batch e = absurd (cc)
propose_found-IsProposed m cfg now blocks parent (first ∷ more) batch e =
    let (rows, proposed) = propose_chunks-IsProposed m cfg now blocks parent first more batch e in
    (first, rows, proposed)

-- If the configured number of chunks is positive and fits an int64, then a proposed batch follows
-- the latest batch of the table, by its index and its parent hash; it consists of the blocks of
-- some first chunks of those behind that batch, at most the configured number; none of these but
-- the first starts at a fork; and, with the codec version of its first chunk, its calldata and its
-- overestimated gas under version 0, and its blob under version 1, are within their limits.
pub propose_batch-IsProposedBatch :
    (m : Marshaller) (cfg : BatchConfig) (now : ℕ) (db : scroll.Relayer.Db) (batch : Batch)
    → 0 < cfg.max_chunk_num_per_batch
    → cfg.max_chunk_num_per_batch ≤ max_int64
    → propose_batch m cfg now db ≡ ok (some batch)
    → (parent : scroll.Relayer.Batch) × (first : scroll.Relayer.Chunk) × (rows : List
        scroll.Relayer.Chunk)
      × (get_latest_batch_row none db.batches ≡ some parent)
      × (length (first ∷ rows) ≤ cfg.max_chunk_num_per_batch)
      × IsProposedBatch m cfg db.blocks parent
          (get_chunks_ge_index
            (add64 parent.end_chunk_index 1)
            cfg.max_chunk_num_per_batch
            db.chunks)
          batch
          first
          rows
unfolding propose_batch
propose_batch-IsProposedBatch m cfg now db batch pos small e =
    behind (get_latest_batch_row none db.batches) refl e
  where
    behind :
        (latest : Option scroll.Relayer.Batch)
        → get_latest_batch_row none db.batches ≡ latest
        → propose_after m cfg now db latest ≡ ok (some batch)
        → (parent : scroll.Relayer.Batch) × (first : scroll.Relayer.Chunk) × (rows : List
            scroll.Relayer.Chunk)
          × (get_latest_batch_row none db.batches ≡ some parent)
          × (length (first ∷ rows) ≤ cfg.max_chunk_num_per_batch)
          × IsProposedBatch m cfg db.blocks parent (unbatched cfg parent db.chunks) batch first rows
    behind none same e = absurd (cc)
    behind (some parent) same e =
        let found = unbatched cfg parent db.chunks in
        let (first, rows, proposed) =
          propose_found-IsProposed m cfg now db.blocks parent found batch e in
        let (n, table) = proposed.from_table in
        let few =
          found-length (add64 parent.end_chunk_index 1) cfg.max_chunk_num_per_batch db.chunks pos
            small in
        (
          parent,
          first,
          rows,
          same,
          omega (arith, ap length table, length-take n found, few),
          proposed,
        )
