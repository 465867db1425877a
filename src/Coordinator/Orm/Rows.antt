-- ===== src/Coordinator/Orm/Rows.antt =====
-- What the updates of coordinator/internal/orm/{chunk,batch}.go do to a row.
use native.Mathlib.Nat.{le_refl}
use scroll.Common.{
  ℕ, ◌≤◌, ◌≡◌, ◌≢◌, refl, sym, ◌∙◌, Option, some, List, [], ◌∷◌, arith, ◌==◌, ==_iff, Bool-cases,
  inl, inr, if◌then◌else◌, Rows, Rows-update_where,
}
use scroll.Coordinator.{verified, Row, ChunkProofsStatus, Batch}
use scroll.Coordinator.Orm.{
  decrease_active_attempts, update_proof_and_proving_status, update_chunk_proofs_status,
  is_active_at, set_less_active, set_proof, set_chunk_proofs, same_hash,
}

module _ {I : Type 0} where
  -- A change to the columns that say nothing of the proof: the attempts in progress may fall.
  pub record IsQuiet (r r' : Row I) : Type 0 where
    pub index : r'.index ≡ r.index
    pub hash : r'.hash ≡ r.hash
    pub status : r'.proving_status ≡ r.proving_status
    pub proof : r'.proof ≡ r.proof
    pub total : r'.total_attempts ≡ r.total_attempts
    pub active : r'.active_attempts ≤ r.active_attempts

  pub IsQuiet-refl : (r : Row I) → IsQuiet r r
  IsQuiet-refl r = ground arith

  pub IsQuiet-trans : (r s t : Row I) → IsQuiet r s → IsQuiet s t → IsQuiet r t
  IsQuiet-trans r s t p q = ground arith

  pub decrease_active_attempts-IsQuiet :
      (h : ℕ) (rows : List (Row I)) → Rows IsQuiet rows (decrease_active_attempts h rows)
  unfolding decrease_active_attempts
  decrease_active_attempts-IsQuiet h rows =
      Rows-update_where IsQuiet (is_active_at h) set_less_active IsQuiet-refl (λ r e. ground arith)
        rows

  -- The effect of storing a proof under a hash: the row of that hash is verified with the proof.
  pub record IsStored (h : ℕ) (proof : List ℕ) (r r' : Row I) : Type 0 where
    pub index : r'.index ≡ r.index
    pub hash : r'.hash ≡ r.hash
    pub total : r'.total_attempts ≡ r.total_attempts
    pub active : r'.active_attempts ≤ r.active_attempts
    pub target : r.hash ≡ h → (r'.proving_status ≡ verified) × (r'.proof ≡ some proof)
    pub others : r.hash ≢ h → (r'.proving_status ≡ r.proving_status) × (r'.proof ≡ r.proof)

  set_proof-IsStored :
      (h : ℕ) (proof : List ℕ) (time now : ℕ) (r : Row I)
      → IsStored h proof r (if r.hash == h then set_proof proof verified time now r else r)
  set_proof-IsStored h proof time now r = elim (Bool-cases (r.hash == h)) [
    | inl e ↦ rw e (record {
      index = refl;
      hash = refl;
      total = refl;
      active = le_refl r.active_attempts;
      target = λ _. (refl, refl);
      others = λ n. absurd (n ((==_iff r.hash h).0 e));
    })
    | inr e ↦ rw e (record {
      index = refl;
      hash = refl;
      total = refl;
      active = le_refl r.active_attempts;
      target = λ p. absurd (cc (e, (==_iff r.hash h).1 p));
      others = λ _. (refl, refl);
    })
  ]

  pub update_proof-IsStored :
      (h : ℕ) (proof : List ℕ) (time now : ℕ) (rows : List (Row I))
      → Rows
          (IsStored h proof)
          rows
          (update_proof_and_proving_status h proof verified time now rows)
  unfolding update_proof_and_proving_status
  update_proof-IsStored h proof time now [] = tt
  update_proof-IsStored h proof time now (r ∷ rows) =
      (set_proof-IsStored h proof time now r, update_proof-IsStored h proof time now rows)

  pub IsStored-quiet :
      (h : ℕ) (proof : List ℕ) (r s t : Row I)
      → IsQuiet r s
      → IsStored h proof s t
      → IsStored h proof r t
  IsStored-quiet h proof r s t q k = record {
    index = k.index ∙ q.index;
    hash = k.hash ∙ q.hash;
    total = k.total ∙ q.total;
    active = omega (arith, k.active, q.active);
    target = λ p. k.target (q.hash ∙ p);
    others = λ n. let o = k.others (λ p. n (sym q.hash ∙ p)) in (o.0 ∙ q.status, o.1 ∙ q.proof);
  }

pub update_chunk_proofs-IsQuiet :
    (h : Option ℕ) (status : ChunkProofsStatus) (rows : List Batch)
    → Rows IsQuiet rows (update_chunk_proofs_status h status rows)
unfolding update_chunk_proofs_status
update_chunk_proofs-IsQuiet h status rows =
    Rows-update_where IsQuiet (λ b. same_hash (some b.hash) h) (set_chunk_proofs status)
      IsQuiet-refl (λ r e. ground arith) rows
