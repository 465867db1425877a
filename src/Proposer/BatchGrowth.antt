-- ===== src/Proposer/BatchGrowth.antt =====
-- The loop of the proposer of batches: rollup/internal/controller/watcher/batch_proposer.go.
use scroll.Common.{
  ℕ, suc, ◌≡◌, ◌⊎◌, refl, sym, ap, ◌∙◌, subst, inl, inr, Bool, false, some, List, [], ◌∷◌, ◌++◌,
  append_assoc, append-nil, take, ok, >>=-eq-ok, ok-injective, Bool-cases, arith, if◌then◌else◌,
}
use scroll.Encoding.{CodecVersion, Chunk, Batch, Marshaller}
use scroll.Proposer.Batches.{
  BatchMetrics, BatchConfig, calculate_batch_metrics, batch_exceeds, GrownBatch, cut_batch,
  whole_batch, cut_at, grow_batch, finish_batch, with_chunks, first_block_of,
}

-- The metrics of a batch exist and keep every limit.
abbrev pub IsBatchFitting : Marshaller → BatchConfig → CodecVersion → Batch → Type 0
IsBatchFitting m cfg version batch =
    (metrics : BatchMetrics) × (calculate_batch_metrics m batch version ≡ ok metrics)
    × (batch_exceeds cfg metrics ≡ false)

abbrev pub batch_of : GrownBatch → Batch
batch_of (cut_batch batch) = batch
batch_of (whole_batch batch) = batch

module _ (m : Marshaller) (cfg : BatchConfig) (version : CodecVersion) where
  -- A batch in the loop has no chunks or is within the limits.
  abbrev pub IsGrowingBatch : Batch → Type 0
  IsGrowingBatch batch = (batch.chunks ≡ []) ⊎ IsBatchFitting m cfg version batch

  abbrev pub IsGrownBatch : GrownBatch → Type 0
  IsGrownBatch (cut_batch batch) = IsBatchFitting m cfg version batch
  IsGrownBatch (whole_batch batch) = IsGrowingBatch batch

  -- The batch is the one at the start with some first ones of the chunks behind its own.
  abbrev pub IsExtended : Batch → List Chunk → GrownBatch → Type 0
  IsExtended batch cs g = (n : ℕ) × (batch_of g ≡ with_chunks batch (batch.chunks ++ take n cs))

  with_chunks-nil : (batch : Batch) → batch ≡ with_chunks batch (batch.chunks ++ [])
  with_chunks-nil batch = ap (with_chunks batch) (sym (append-nil batch.chunks))

  pub calculate-nonempty :
      (batch : Batch) (metrics : BatchMetrics)
      → batch.chunks ≡ []
      → calculate_batch_metrics m batch version ≡ ok metrics
      → ⊥
  unfolding calculate_batch_metrics first_block_of
  calculate-nonempty batch metrics empty measured =
      let (b, first, out) = >>=-eq-ok (first_block_of batch.chunks) _ measured in
      let none_first : first_block_of [] ≡ ok b = sym (ap first_block_of empty) ∙ first in
      absurd (cc)

  cut_at-IsWithin :
      (batch : Batch) (cs : List Chunk) (g : GrownBatch)
      → batch.chunks ≡ cs
      → cut_at m version batch cs ≡ ok g
      → IsGrowingBatch batch
      → (cut_batch batch ≡ g) × IsBatchFitting m cfg version batch
  unfolding cut_at
  cut_at-IsWithin batch [] g same e k = absurd (cc)
  cut_at-IsWithin batch (c ∷ cs) g same e (inl empty) = absurd (cc)
  cut_at-IsWithin batch (c ∷ cs) g same e (inr within) =
      let (metrics, measured, out) = >>=-eq-ok (calculate_batch_metrics m batch version) _ e in
      (ok-injective out, within)

  pub grow_batch-IsExtended :
      (batch : Batch) (cs : List Chunk) (g : GrownBatch)
      → grow_batch m cfg version batch cs ≡ ok g
      → IsGrowingBatch batch
      → IsExtended batch cs g × IsGrownBatch g
  unfolding grow_batch
  grow_batch-IsExtended batch [] g e k =
      let same : whole_batch batch ≡ g = ok-injective e in
      ((0, sym (ap batch_of same) ∙ with_chunks-nil batch), subst IsGrownBatch same k)
  grow_batch-IsExtended batch (c ∷ cs) g e k =
      let grown = with_chunks batch (batch.chunks ++ c ∷ []) in
      let (metrics, measured, out) = >>=-eq-ok (calculate_batch_metrics m grown version) _ e in
      elim (Bool-cases (batch_exceeds cfg metrics)) [
        | inl over ↦
            let (same, within) =
              cut_at-IsWithin batch batch.chunks g refl (sym (next over) ∙ out) k in
            ((0, sym (ap batch_of same) ∙ with_chunks-nil batch), subst IsGrownBatch same within)
        | inr fits ↦
            let ((n, shape), good) =
              grow_batch-IsExtended grown cs g (sym (next fits) ∙ out)
                (inr (metrics, measured, fits)) in
            (
              (
                suc n,
                shape ∙ ap (with_chunks batch) (append_assoc batch.chunks (c ∷ []) (take n cs)),
              ),
              good,
            )
      ]
    where
      next :
          {t u : Bool}
          → t ≡ u
          → (if t
              then cut_at m version batch batch.chunks
              else grow_batch m cfg version (with_chunks batch (batch.chunks ++ c ∷ [])) cs)
            ≡ (if u
                then cut_at m version batch batch.chunks
                else grow_batch m cfg version (with_chunks batch (batch.chunks ++ c ∷ [])) cs)
      next s = rw s refl

  pub finish_batch-IsWithin :
      (max_chunks now : ℕ) (g : GrownBatch) (batch : Batch)
      → finish_batch m cfg version max_chunks now g ≡ ok (some batch)
      → IsGrownBatch g
      → (batch_of g ≡ batch) × IsBatchFitting m cfg version batch
  unfolding finish_batch
  finish_batch-IsWithin max_chunks now (cut_batch b) batch e k =
      let same : b ≡ batch = cc in (same, subst (IsBatchFitting m cfg version) same k)
  finish_batch-IsWithin max_chunks now (whole_batch b) batch e (inl empty) =
      let (metrics, measured, out) = >>=-eq-ok (calculate_batch_metrics m b version) _ e in
      absurd (calculate-nonempty b metrics empty measured)
  finish_batch-IsWithin max_chunks now (whole_batch b) batch e (inr within) =
      let (metrics, measured, out) = >>=-eq-ok (calculate_batch_metrics m b version) _ e in
      let same : b ≡ batch = ground arith in
      (same, subst (IsBatchFitting m cfg version) same within)
