-- ===== src/Proposer/BatchBounds.antt =====
-- The limits on a batch, one by one: rollup/internal/controller/watcher/batch_proposer.go.
use scroll.Common.{
  ℕ, ◌≤◌, ◌≡◌, ap, false, Outcome, ok, err, >>=-eq-ok, ok-injective, arith, sym, subst,
}
use scroll.Encoding.{CodecVersion, codec_v0, codec_v1, Batch, Marshaller, EncodingError}
use scroll.Encoding.CodecV0.Gas.{estimate_batch_size, estimate_batch_gas}
use scroll.Encoding.CodecV1.{estimate_batch_l1_commit_blob_size}
use scroll.Proposer.Batches.{
  BatchMetrics, BatchConfig, calculate_batch_metrics, measure_batch, first_block_of, batch_exceeds,
  codec,
}
use scroll.Proposer.BatchGrowth.{IsBatchFitting}

-- What a batch costs on layer 1 is within the limits: under codec version 0 its calldata and its
-- overestimated gas, and under codec version 1 its blob, of 131072 bytes.
abbrev pub IsBatchWithinLimits : Marshaller → BatchConfig → CodecVersion → Batch → Type 0
IsBatchWithinLimits m cfg codec_v0 batch =
    (size : ℕ) × (gas : ℕ) × (estimate_batch_size m batch ≡ ok size)
    × (estimate_batch_gas m batch ≡ ok gas)
    × (size ≤ cfg.max_l1_commit_calldata_size_per_batch)
    × (cfg.over_estimate gas ≤ cfg.max_l1_commit_gas_per_batch)
IsBatchWithinLimits m cfg codec_v1 batch =
    (size : ℕ) × (estimate_batch_l1_commit_blob_size m batch.chunks ≡ ok size) × (size ≤ 131072)

-- Metrics that are not over the limits.
record AreBatchBounded (cfg : BatchConfig) (m : BatchMetrics) : Type 0 where
  size : m.l1_commit_calldata_size ≤ cfg.max_l1_commit_calldata_size_per_batch
  gas : cfg.over_estimate m.l1_commit_gas ≤ cfg.max_l1_commit_gas_per_batch
  blob : m.l1_commit_blob_size ≤ 131072

batch_exceeds-AreBatchBounded :
    (cfg : BatchConfig) (m : BatchMetrics) → batch_exceeds cfg m ≡ false → AreBatchBounded cfg m
batch_exceeds-AreBatchBounded cfg m e = record {
  size = ground arith;
  gas = ground arith;
  blob = ground arith;
}

codec-ok : (r : Outcome EncodingError ℕ) (n : ℕ) → codec r ≡ ok n → r ≡ ok n
codec-ok (ok k) n e = ap ok (ok-injective e)
codec-ok (err why) n e = absurd (cc)

measure_batch-IsBatchWithinLimits :
    (m : Marshaller) (cfg : BatchConfig) (version : CodecVersion) (batch : Batch) (time : ℕ)
    (metrics : BatchMetrics)
    → measure_batch m batch time version ≡ ok metrics
    → batch_exceeds cfg metrics ≡ false
    → IsBatchWithinLimits m cfg version batch
unfolding measure_batch
measure_batch-IsBatchWithinLimits m cfg codec_v0 batch time metrics e fits =
    let (gas, e1, r1) = >>=-eq-ok (codec (estimate_batch_gas m batch)) _ e in
    let (size, e2, r2) = >>=-eq-ok (codec (estimate_batch_size m batch)) _ r1 in
    let bounds =
      subst (AreBatchBounded cfg) (sym (ok-injective r2))
        (batch_exceeds-AreBatchBounded cfg metrics fits) in
    (
      size,
      gas,
      codec-ok (estimate_batch_size m batch) size e2,
      codec-ok (estimate_batch_gas m batch) gas e1,
      bounds.size,
      bounds.gas,
    )
measure_batch-IsBatchWithinLimits m cfg codec_v1 batch time metrics e fits =
    let (size, e1, r1) =
      >>=-eq-ok (codec (estimate_batch_l1_commit_blob_size m batch.chunks)) _ e in
    let bounds =
      subst (AreBatchBounded cfg) (sym (ok-injective r1))
        (batch_exceeds-AreBatchBounded cfg metrics fits) in
    (size, codec-ok (estimate_batch_l1_commit_blob_size m batch.chunks) size e1, bounds.blob)

pub IsBatchFitting-IsBatchWithinLimits :
    (m : Marshaller) (cfg : BatchConfig) (version : CodecVersion) (batch : Batch)
    → IsBatchFitting m cfg version batch
    → IsBatchWithinLimits m cfg version batch
unfolding calculate_batch_metrics
IsBatchFitting-IsBatchWithinLimits m cfg version batch (metrics, measured, fits) =
    let (b, first, out) = >>=-eq-ok (first_block_of batch.chunks) _ measured in
    measure_batch-IsBatchWithinLimits m cfg version batch b.header.time metrics out fits
