-- ===== src/Relayer/Finalized.antt =====
-- What justifies a finalize transaction: ProcessCommittedBatches and finalizeBatch of
-- rollup/internal/controller/relayer/l2_relayer.go.
use scroll.Common.{
  ℕ, ◌+◌, ◌%◌, ◌<◌, ◌≡◌, ◌≢◌, ◌⊎◌, refl, sym, ap, ◌∙◌, inl, inr, Bool, true, false, ◌&&◌, Option,
  some, none, List, [], ◌∷◌, arith, length, ltb, ◌==◌, ==_iff, ok, err, >>=-eq-ok, ok-injective,
  if◌then◌else◌, if_both, Bool-cases, find_first,
}
use scroll.Coordinator.{ProvingStatus, verified, is_verified}
use scroll.Relayer.{
  Batch, Chunk, Db, Tx, Env, Call, query_failed, finalize_batch_with_proof,
  finalize_batch_with_proof_4844, get_verified_proof,
}
use scroll.Relayer.Tables.{proof_found, get_verified_proof_by_hash}
use scroll.Relayer.Payloads.{
  found, read_blocks, blob_batch, construct_finalize_batch_payload_codec_v0,
  construct_finalize_batch_payload_codec_v1,
}
use scroll.Relayer.Commit.{read_parent}
use scroll.Relayer.Finalize.{sanity_check, read_proof, finalize_call, is_bypassed}
use scroll.Relayer.Fetched.{In}
use scroll.Relayer.Rounds.{IsFinalizable, prepare_finalize-IsPrepared}

find_first-In :
    {A : Type 0} (p : A → Bool) (xs : List A) (a : A)
    → find_first p xs ≡ some a
    → In a xs × (p a ≡ true)
unfolding find_first
find_first-In p [] a e = absurd (cc)
find_first-In p (x ∷ xs) a e = elim (Bool-cases (p x)) [
  | inl t ↦ let same : x ≡ a = ground arith in (inl same, ap p (sym same) ∙ t)
  | inr f ↦
      let rest : find_first p xs ≡ some a = ground arith in
      let (i, t) = find_first-In p xs a rest in (inr i, t)
]

-- The proof is stored in a verified row with the batch's hash, and it has the length of a proof.
pub record IsStored (decode : List ℕ → Option (List ℕ)) (rows : List Batch) (hash : ℕ)
    (proof : List ℕ) : Type 0 where
  pub row : Batch
  pub is_row : In row rows
  pub hash_is : row.hash ≡ hash
  pub is_proved : row.proving_status ≡ verified
  pub bytes : List ℕ
  pub stored : row.proof ≡ some bytes
  pub decoded : decode bytes ≡ some proof
  pub not_empty : length proof ≢ 0
  pub whole : length proof % 32 ≡ 0

is_verified-eq : (s : ProvingStatus) → is_verified s ≡ true → s ≡ verified
is_verified-eq s e = ground arith

sanity_check-eq :
    (proof out : List ℕ)
    → sanity_check proof ≡ ok out
    → (out ≡ proof) × (length proof ≢ 0) × (length proof % 32 ≡ 0)
unfolding sanity_check
sanity_check-eq proof out e = ground arith

proof_found-some : {A : Type 0} (o : Option A) (a : A) → proof_found o ≡ ok a → o ≡ some a
proof_found-some none a e = cc
proof_found-some (some x) a e = ap some (ok-injective e)

-- A proof that is read is stored.
read_proof-IsStored :
    (env : Env) (db : Db) (b : Batch) (o : Option (List ℕ))
    → read_proof env db b true ≡ ok o
    → (proof : List ℕ) × ((o ≡ some proof) × IsStored env.decode_proof db.batches b.hash proof)
unfolding read_proof get_verified_proof_by_hash
read_proof-IsStored env db b o e =
    let (proof, a, e1) =
      >>=-eq-ok
        (if env.fails get_verified_proof b.hash
          then err query_failed
          else get_verified_proof_by_hash env.decode_proof b.hash db.batches)
        _ e in
    let (out, c, e2) = >>=-eq-ok (sanity_check proof) _ e1 in
    let (same, filled, whole) = sanity_check-eq proof out c in
    let got : get_verified_proof_by_hash env.decode_proof b.hash db.batches ≡ ok proof =
      if_both
        (λ r.
          r ≡ ok proof → get_verified_proof_by_hash env.decode_proof b.hash db.batches ≡ ok proof)
        (env.fails get_verified_proof b.hash) (λ t x. absurd (cc)) (λ f x. x) a in
    let test : Batch → Bool = λ r. (r.hash == b.hash) && is_verified r.proving_status in
    let (row, f, g1) = >>=-eq-ok (proof_found (find_first test db.batches)) _ got in
    let (bytes, h, k) = >>=-eq-ok (proof_found row.proof) _ g1 in
    let (is_row, passes) =
      find_first-In test db.batches row (proof_found-some (find_first test db.batches) row f) in
    let first : (row.hash == b.hash) ≡ true = ground arith in
    let second : is_verified row.proving_status ≡ true = ground arith in
    (
      proof,
      (
        sym (ok-injective e2) ∙ ap some same,
        record {
          row = row;
          is_row = is_row;
          hash_is = (==_iff row.hash b.hash).0 first;
          is_proved = is_verified-eq row.proving_status second;
          bytes = bytes;
          stored = proof_found-some row.proof bytes h;
          decoded = proof_found-some (env.decode_proof bytes) proof k;
          not_empty = filled;
          whole = whole;
        },
      ),
    )

-- The call of the contract that hands over a proof, in either codec version.
abbrev pub IsProofCall : Batch → Batch → List ℕ → Call → Type 0
IsProofCall b parent proof call =
    (call
      ≡ finalize_batch_with_proof b.batch_header parent.state_root b.state_root b.withdraw_root
          proof)
    ⊎ ((data_proof : List ℕ) × (call
          ≡ finalize_batch_with_proof_4844 b.batch_header parent.state_root b.state_root
              b.withdraw_root data_proof proof))

finalize_call-IsProofCall :
    (env : Env) (db : Db) (b parent : Batch) (cs : List Chunk) (proof : List ℕ) (call : Call)
    → finalize_call env db b parent cs (some proof) ≡ ok call
    → IsProofCall b parent proof call
unfolding finalize_call construct_finalize_batch_payload_codec_v0
    construct_finalize_batch_payload_codec_v1
finalize_call-IsProofCall env db b parent [] proof call e = absurd (cc)
finalize_call-IsProofCall env db b parent (c ∷ cs) proof call e =
    if_both (λ r. r ≡ ok call → IsProofCall b parent proof call)
      (env.is_bernoulli c.start_block_number)
      (λ t x.
        let (chunks, a, e1) = >>=-eq-ok (read_blocks env db (c ∷ cs)) _ x in
        let (da, f, e2) = >>=-eq-ok (blob_batch env b parent (c ∷ cs) chunks) _ e1 in
        let (data_proof, g, e3) = >>=-eq-ok (found da.blob_data_proof) _ e2 in
        inr (data_proof, sym (ok-injective e3)))
      (λ t x. inl (sym (ok-injective x))) e

-- A transaction with the stored proof of a verified batch.
pub record IsProven (env : Env) (db : Db) (b : Batch) (tx : Tx) : Type 0 where
  pub is_proved : b.proving_status ≡ verified
  pub proof : List ℕ
  pub stored : IsStored env.decode_proof db.batches b.hash proof
  pub parent : Batch
  pub parent_read : read_parent env db b ≡ ok parent
  pub call : Call
  pub hands_over : IsProofCall b parent proof call
  pub packed : env.pack call ≡ some tx.data_bytes

-- The exception for test environments.
pub record IsBypass (env : Env) (b : Batch) : Type 0 where
  pub enabled : env.enable_test_env_bypass_features ≡ true
  pub at : ℕ
  pub committed : b.committed_at ≡ some at
  pub late : at + env.finalize_batch_without_proof_timeout < env.now

is_bypassed-IsBypass : (env : Env) (b : Batch) → is_bypassed env b ≡ true → IsBypass env b
is_bypassed-IsBypass env b e = at_time b.committed_at refl e
  where
    at_time :
        (o : Option ℕ)
        → b.committed_at ≡ o
        → (elim o [
          | none ↦ false
          | some at ↦
              env.enable_test_env_bypass_features
              && ltb (at + env.finalize_batch_without_proof_timeout) env.now
        ])
          ≡ true
        → IsBypass env b
    at_time none c e = absurd (cc)
    at_time (some at) c e = record {
      enabled = ground arith;
      at = at;
      committed = c;
      late = ground arith;
    }

pub IsFinalizable-IsJustified :
    (env : Env) (db : Db) (b : Batch) (tx : Tx)
    → IsFinalizable env db b tx
    → IsProven env db b tx ⊎ IsBypass env b
IsFinalizable-IsJustified env db b tx (inr (t, e)) = inr (is_bypassed-IsBypass env b t)
IsFinalizable-IsJustified env db b tx (inl (v, e)) =
    let p = prepare_finalize-IsPrepared env db b true tx e in
    let (proof, (same, stored)) = read_proof-IsStored env db b p.proof p.proof_read in
    inl (record {
      is_proved = v;
      proof = proof;
      stored = stored;
      parent = p.parent;
      parent_read = p.parent_read;
      call = p.call;
      hands_over =
          finalize_call-IsProofCall env db b p.parent p.chunks proof p.call
            (ap (finalize_call env db b p.parent p.chunks) (sym same) ∙ p.call_made);
      packed = p.packed;
    })
