-- ===== src/Encoding/CodecV1/Blob.antt =====
-- The estimate of a batch's blob and the blob itself: EstimateBatchL1CommitBlobSize and
-- constructBlobPayload of common/types/encoding/codecv1/codecv1.go.
use scroll.Common.{
  ℕ, suc, ◌+◌, ◌≤◌, ◌<◌, ◌≡◌, refl, sym, ◌∙◌, ap, Bool, true, false, not, List, [], ◌∷◌, ◌++◌,
  length, length-append, arith, ltb, if◌then◌else◌, Outcome, ok, err, ◌>>=◌, >>=-eq-ok,
  ok-injective, add64,
}
use scroll.Encoding.{
  TransactionData, Chunk, is_l1_message, Marshaller, EncodingError, oversized_payload,
  convert_tx_data_to_rlp_encoding,
}
use scroll.Encoding.CodecV0.{Hasher}
use scroll.Encoding.CodecV1.{
  l2_tx_bytes, chunk_payload, chunk_payloads, join_all, blob_bytes, make_blob_canonical,
  field_elements, challenge_point, construct_blob_payload, l2_tx_size,
  chunk_l1_commit_blob_data_size, batch_data_size, estimate_batch_l1_commit_blob_size, padded_size,
}
use scroll.Encoding.CodecV1.Payload.{read_blob, read_blob-field_elements, length-blob_bytes}

both_if {ℓ κ} :
    {A : Type ℓ} {B : Type κ} (Q : A → B → Type 0) (b : Bool) (x y : A) (s t : B)
    → Q x s
    → Q y t
    → Q (if b then x else y) (if b then s else t)
both_if Q true x y s t p q = p
both_if Q false x y s t p q = q

-- A size that is the length of the bytes.
abbrev Measures : Outcome EncodingError (List ℕ) → Outcome EncodingError ℕ → Type 0
Measures bytes size =
    (bs : List ℕ) → bytes ≡ ok bs → length bs < 18446744073709551616 → size ≡ ok (length bs)

module _ (m : Marshaller) where
  Measures-join :
      (first rest : Outcome EncodingError (List ℕ)) (n k : Outcome EncodingError ℕ)
      → Measures first n
      → Measures rest k
      → Measures (first >>= λ a. rest >>= λ b. ok (a ++ b)) (n >>= λ a. k >>= λ b. ok (add64 a b))
  Measures-join first rest n k p q bs e small =
      let (a, e1, run) = >>=-eq-ok first _ e in
      let (b, e2, run2) = >>=-eq-ok rest _ run in
      let whole : a ++ b ≡ bs = ok-injective run2 in
      let total : length a + length b ≡ length bs = sym (length-append a b) ∙ ap length whole in
      let sum : add64 (length a) (length b) ≡ length bs = omega (arith, total, small) in
      rw (p a e1 (omega (arith, total, small)), q b e2 (omega (arith, total, small))) (ap ok sum)

  Measures-tx :
      (first rest : Outcome EncodingError (List ℕ)) (k : Outcome EncodingError ℕ)
      → Measures rest k
      → Measures
          (first >>= λ a. rest >>= λ b. ok (a ++ b))
          (first >>= λ a. k >>= λ b. ok (add64 (length a) b))
  Measures-tx first rest k q bs e small =
      let (a, e1, run) = >>=-eq-ok first _ e in
      let (b, e2, run2) = >>=-eq-ok rest _ run in
      let whole : a ++ b ≡ bs = ok-injective run2 in
      let total : length a + length b ≡ length bs = sym (length-append a b) ∙ ap length whole in
      let sum : add64 (length a) (length b) ≡ length bs = omega (arith, total, small) in
      rw (e1, q b e2 (omega (arith, total, small))) (ap ok sum)

  l2_tx_size-Measures :
      (txs : List TransactionData) → Measures (l2_tx_bytes m txs) (l2_tx_size m txs)
  unfolding l2_tx_bytes l2_tx_size
  l2_tx_size-Measures [] bs e small = ap (λ b. ok (length b)) (ok-injective e)
  l2_tx_size-Measures (tx ∷ txs) bs e small =
      let one = convert_tx_data_to_rlp_encoding m tx in
      let rest = l2_tx_size-Measures txs in
      both_if Measures (not (is_l1_message tx))
        (one >>= λ a. l2_tx_bytes m txs >>= λ b. ok (a ++ b)) (l2_tx_bytes m txs)
        (one >>= λ a. l2_tx_size m txs >>= λ b. ok (add64 (length a) b)) (l2_tx_size m txs)
        (Measures-tx one (l2_tx_bytes m txs) (l2_tx_size m txs) rest) rest bs e small

  chunk_size-Measures :
      (c : Chunk) → Measures (chunk_payload m c) (chunk_l1_commit_blob_data_size m c)
  unfolding chunk_payload chunk_l1_commit_blob_data_size
  chunk_size-Measures [] bs e small = ap (λ b. ok (length b)) (ok-injective e)
  chunk_size-Measures (b ∷ c) bs e small =
      Measures-join (l2_tx_bytes m b.transactions) (chunk_payload m c) (l2_tx_size m b.transactions)
        (chunk_l1_commit_blob_data_size m c) (l2_tx_size-Measures b.transactions)
        (chunk_size-Measures c) bs e small

  batch_size-measures :
      (cs : List Chunk) (ps : List (List ℕ))
      → chunk_payloads m cs ≡ ok ps
      → length (join_all ps) < 18446744073709551616
      → batch_data_size m cs ≡ ok (length (join_all ps))
  unfolding chunk_payloads batch_data_size join_all
  batch_size-measures [] ps e small = ap (λ b. ok (length (join_all b))) (ok-injective e)
  batch_size-measures (c ∷ cs) ps e small =
      let (p, e1, run) = >>=-eq-ok (chunk_payload m c) _ e in
      let (qs, e2, run2) = >>=-eq-ok (chunk_payloads m cs) _ run in
      let whole : p ∷ qs ≡ ps = ok-injective run2 in
      let total : length p + length (join_all qs) ≡ length (join_all ps) =
        sym (length-append p (join_all qs)) ∙ ap (λ t. length (join_all t)) whole in
      let sum : add64 (length p) (length (join_all qs)) ≡ length (join_all ps) =
        omega (arith, total, small) in
      let mine = chunk_size-Measures c p e1 (omega (arith, total, small)) in
      let rest = batch_size-measures cs qs e2 (omega (arith, total, small)) in
      rw (mine, rest) (ap ok sum)

  length-chunk_payloads :
      (cs : List Chunk) (ps : List (List ℕ)) → chunk_payloads m cs ≡ ok ps → length ps ≡ length cs
  unfolding chunk_payloads
  length-chunk_payloads [] ps e = ap length (sym (ok-injective e))
  length-chunk_payloads (c ∷ cs) ps e =
      let (p, e1, run) = >>=-eq-ok (chunk_payload m c) _ e in
      let (qs, e2, run2) = >>=-eq-ok (chunk_payloads m cs) _ run in
      ap length (sym (ok-injective run2)) ∙ ap suc (length-chunk_payloads cs qs e2)

  canonical-fits :
      (bytes : List ℕ)
      → length bytes ≤ 126976
      → make_blob_canonical bytes ≡ ok (field_elements 4096 bytes)
  unfolding make_blob_canonical
  canonical-fits bytes le =
      let inside : ltb 126976 (length bytes) ≡ false = ground arith in
      ap (λ b. if b then err oversized_payload else ok (field_elements 4096 bytes)) inside

  canonical-oversized :
      (bytes : List ℕ) → 126976 < length bytes → make_blob_canonical bytes ≡ err oversized_payload
  unfolding make_blob_canonical
  canonical-oversized bytes gt =
      let outside : ltb 126976 (length bytes) ≡ true = ground arith in
      ap (λ b. if b then err oversized_payload else ok (field_elements 4096 bytes)) outside

  construct-runs :
      (k : Hasher) (cs : List Chunk) (ps : List (List ℕ))
      → chunk_payloads m cs ≡ ok ps
      → construct_blob_payload m k cs ≡ (
          make_blob_canonical (blob_bytes ps) >>= λ blob. ok (blob, challenge_point k.keccak256 ps))
  unfolding construct_blob_payload
  construct-runs k cs ps e =
      ap
        (λ o. o >>= λ qs.
          make_blob_canonical (blob_bytes qs) >>= λ blob. ok (blob, challenge_point k.keccak256 qs))
        e

  -- What a batch of chunks with these payloads is worth: the blob is built exactly if the estimate
  -- is at most its 131072 bytes, and it holds the payloads.
  abbrev pub IsBlobOf : Hasher → List Chunk → List (List ℕ) → ℕ → Type 0
  IsBlobOf k cs ps size =
      (size ≤ 131072
        → (blob : List ℕ) × (z : ℕ) × (construct_blob_payload m k cs ≡ ok (blob, z))
          × (read_blob blob ≡ ps))
      × (131072 < size → construct_blob_payload m k cs ≡ err oversized_payload)

  -- Let a batch have at most 15 chunks whose L2 transactions can all be encoded, to less than 2^62
  -- bytes in all. Then EstimateBatchL1CommitBlobSize succeeds, and if the estimate is at most
  -- 131072, constructBlobPayload returns a blob from which a reader of its format gets back what
  -- each chunk's transactions are encoded to; if the estimate is greater, it refuses the batch as
  -- oversized.
  pub construct_blob_payload-IsBlobOf :
      (k : Hasher) (cs : List Chunk) (ps : List (List ℕ))
      → chunk_payloads m cs ≡ ok ps
      → length cs ≤ 15
      → length (join_all ps) < 4611686018427387904
      → (size : ℕ) × (estimate_batch_l1_commit_blob_size m cs ≡ ok size) × IsBlobOf k cs ps size
  unfolding estimate_batch_l1_commit_blob_size
  construct_blob_payload-IsBlobOf k cs ps e few small =
      let n = length (join_all ps) in
      let long = length-blob_bytes ps in
      let count = length-chunk_payloads cs ps e in
      let measured = batch_size-measures cs ps e (omega (arith, small)) in
      (
        padded_size m n,
        rw measured refl,
        (
          λ le.
              let fits : length (blob_bytes ps) ≤ 126976 = omega (arith, long, le, small) in
              (
                field_elements 4096 (blob_bytes ps),
                challenge_point k.keccak256 ps,
                construct-runs k cs ps e
                    ∙ ap (λ o. o >>= λ blob. ok (blob, challenge_point k.keccak256 ps))
                        (canonical-fits (blob_bytes ps) fits),
                read_blob-field_elements ps (omega (arith, count, few)) fits,
              ),
          λ gt.
              let over : 126976 < length (blob_bytes ps) = omega (arith, long, gt, small) in
              construct-runs k cs ps e
              ∙ ap (λ o. o >>= λ blob. ok (blob, challenge_point k.keccak256 ps))
                  (canonical-oversized (blob_bytes ps) over),
        ),
      )
