-- ===== src/Proposer/Bounds.antt =====
-- The limits on a chunk, one by one: rollup/internal/controller/watcher/chunk_proposer.go.
use scroll.Common.{
  ℕ, ◌≤◌, ◌≡◌, ap, false, [], ◌∷◌, Outcome, ok, err, >>=-eq-ok, ok-injective, arith, sym, subst,
}
use scroll.Encoding.{
  CodecVersion, codec_v0, codec_v1, Chunk, Marshaller, EncodingError, num_transactions, crc_max,
}
use scroll.Encoding.CodecV0.Gas.{estimate_chunk_size, estimate_chunk_gas}
use scroll.Encoding.CodecV1.{estimate_chunk_l1_commit_blob_size}
use scroll.Proposer.{ChunkMetrics, Config, calculate_chunk_metrics, exceeds, wrap}
use scroll.Proposer.Growth.{IsFitting}

-- What a chunk costs on layer 1 is within the limits: under codec version 0 its calldata and its
-- overestimated gas, and under codec version 1 its blob, of 131072 bytes.
abbrev pub IsCommitWithin : Marshaller → Config → CodecVersion → Chunk → Type 0
IsCommitWithin est cfg codec_v0 chunk =
    (size : ℕ) × (gas : ℕ) × (estimate_chunk_size est chunk ≡ ok size)
    × (estimate_chunk_gas est chunk ≡ ok gas)
    × (size ≤ cfg.max_l1_commit_calldata_size_per_chunk)
    × (cfg.over_estimate gas ≤ cfg.max_l1_commit_gas_per_chunk)
IsCommitWithin est cfg codec_v1 chunk =
    (size : ℕ) × (estimate_chunk_l1_commit_blob_size est chunk ≡ ok size) × (size ≤ 131072)

pub record IsWithinLimits (est : Marshaller) (cfg : Config) (version : CodecVersion) (chunk : Chunk)
    : Type 0 where
  pub transactions : num_transactions chunk ≤ cfg.max_tx_num_per_chunk
  pub rows : (rows : ℕ) × (crc_max chunk ≡ ok rows) × (rows ≤ cfg.max_row_consumption_per_chunk)
  pub commit : IsCommitWithin est cfg version chunk

-- Metrics that are not over the limits.
record AreBounded (cfg : Config) (m : ChunkMetrics) : Type 0 where
  tx_num : m.tx_num ≤ cfg.max_tx_num_per_chunk
  size : m.l1_commit_calldata_size ≤ cfg.max_l1_commit_calldata_size_per_chunk
  gas : cfg.over_estimate m.l1_commit_gas ≤ cfg.max_l1_commit_gas_per_chunk
  crc_max : m.crc_max ≤ cfg.max_row_consumption_per_chunk
  blob : m.l1_commit_blob_size ≤ 131072

exceeds-AreBounded : (cfg : Config) (m : ChunkMetrics) → exceeds cfg m ≡ false → AreBounded cfg m
exceeds-AreBounded cfg m e = record {
  tx_num = ground arith;
  size = ground arith;
  gas = ground arith;
  crc_max = ground arith;
  blob = ground arith;
}

wrap-ok : (r : Outcome EncodingError ℕ) (n : ℕ) → wrap r ≡ ok n → r ≡ ok n
wrap-ok (ok k) n e = ap ok (ok-injective e)
wrap-ok (err why) n e = absurd (cc)

pub IsFitting-IsWithinLimits :
    (est : Marshaller) (cfg : Config) (version : CodecVersion) (chunk : Chunk)
    → IsFitting est cfg version chunk
    → IsWithinLimits est cfg version chunk
unfolding calculate_chunk_metrics
IsFitting-IsWithinLimits est cfg version [] (m, measured, fits) = absurd (cc)
IsFitting-IsWithinLimits est cfg codec_v0 (b ∷ bs) (m, measured, fits) =
    let (crc, e1, r1) = >>=-eq-ok (wrap (crc_max (b ∷ bs))) _ measured in
    let (size, e2, r2) = >>=-eq-ok (wrap (estimate_chunk_size est (b ∷ bs))) _ r1 in
    let (gas, e3, r3) = >>=-eq-ok (wrap (estimate_chunk_gas est (b ∷ bs))) _ r2 in
    let bounds = subst (AreBounded cfg) (sym (ok-injective r3)) (exceeds-AreBounded cfg m fits) in
    record {
      transactions = bounds.tx_num;
      rows = (crc, wrap-ok (crc_max (b ∷ bs)) crc e1, bounds.crc_max);
      commit = (
        size,
        gas,
        wrap-ok (estimate_chunk_size est (b ∷ bs)) size e2,
        wrap-ok (estimate_chunk_gas est (b ∷ bs)) gas e3,
        bounds.size,
        bounds.gas,
      );
    }
IsFitting-IsWithinLimits est cfg codec_v1 (b ∷ bs) (m, measured, fits) =
    let (crc, e1, r1) = >>=-eq-ok (wrap (crc_max (b ∷ bs))) _ measured in
    let (size, e2, r2) = >>=-eq-ok (wrap (estimate_chunk_l1_commit_blob_size est (b ∷ bs))) _ r1 in
    let bounds = subst (AreBounded cfg) (sym (ok-injective r2)) (exceeds-AreBounded cfg m fits) in
    record {
      transactions = bounds.tx_num;
      rows = (crc, wrap-ok (crc_max (b ∷ bs)) crc e1, bounds.crc_max);
      commit =
          (size, wrap-ok (estimate_chunk_l1_commit_blob_size est (b ∷ bs)) size e2, bounds.blob);
    }
