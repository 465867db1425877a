-- ===== src/Relayer/Rounds.antt =====
-- What a round of the relayer does to the state, whatever fails:
-- rollup/internal/controller/relayer/l2_relayer.go.
use scroll.Common.{
  ℕ, ◌≡◌, ◌⊎◌, refl, sym, ap, ◌∙◌, inl, inr, Bool, true, false, Option, some, none, List, ◌∷◌,
  Outcome, ok, err, >>=-eq-ok, ok-injective,
}
use scroll.Coordinator.{
  ProvingStatus, undefined, unassigned, assigned, proved_deprecated, verified, failed,
}
use scroll.Relayer.{
  Batch, Db, Tx, State, Env, Round, attempt, send, RelayerError, log_tx, map_batches,
  rollup_committing, rollup_finalizing, update_status, gas_oracle_importing,
}
use scroll.Relayer.Payloads.{found, read_chunks, read_blocks}
use scroll.Relayer.Commit.{
  read_parent, commit_call, commit_tx, prepare_commit, commit_write, commit_one,
}
use scroll.Relayer.Finalize.{
  read_proof, finalize_call, finalize_tx, prepare_finalize, finalize_write, by_monitor,
  get_batch_status_by_index, finalize_checked, finalize, is_bypassed, by_status, finalize_first,
}

-- A round sends nothing, or sends a transaction that is ready and then writes the table unless
-- the database fails.
abbrev pub IsRound : (Tx → Type 0) → (ℕ → List Batch → List Batch) → State → State → Type 0
IsRound Ready write st st' =
    (st' ≡ st)
    ⊎ ((tx : Tx) × Ready tx
        × ((st' ≡ log_tx tx st)
            ⊎ ((tx_hash : ℕ) × (st' ≡ map_batches (write tx_hash) (log_tx tx st)))))

pub IsRound-map :
    (Ready Known : Tx → Type 0) (write : ℕ → List Batch → List Batch) (st st' : State)
    → ((tx : Tx) → Ready tx → Known tx)
    → IsRound Ready write st st'
    → IsRound Known write st st'
IsRound-map Ready Known write st st' f (inl e) = inl e
IsRound-map Ready Known write st st' f (inr (tx, ready, e)) = inr (tx, f tx ready, e)

pub send-IsRound :
    (o : Option ℕ) (fails : Bool) (tx : Tx) (write : ℕ → List Batch → List Batch) (st : State)
    → IsRound (λ t. t ≡ tx) write st (send o fails tx write st).1
send-IsRound none fails tx write st = inl refl
send-IsRound (some tx_hash) true tx write st = inr (tx, refl, inl refl)
send-IsRound (some tx_hash) false tx write st = inr (tx, refl, inr (tx_hash, refl))

-- A round that sends what it has prepared.
attempt-IsRound :
    (r : Outcome RelayerError Tx) (st : State) (o : Tx → Option ℕ) (fails : Bool)
    (write : ℕ → List Batch → List Batch)
    → IsRound (λ tx. r ≡ ok tx) write st (attempt r st (λ tx. send (o tx) fails tx write st)).1
attempt-IsRound (err e) st o fails write = inl refl
attempt-IsRound (ok tx) st o fails write =
    IsRound-map (λ t. t ≡ tx) (λ t. ok tx ≡ ok t) write st (send (o tx) fails tx write st).1
      (λ t same. ap ok (sym same)) (send-IsRound (o tx) fails tx write st)

module _ (env : Env) where
  pub commit_one-IsRound :
      (b : Batch) (st : State)
      → IsRound
          (λ tx. prepare_commit env st.db b ≡ ok tx)
          (commit_write env b)
          st
          (commit_one env b st).1
  unfolding commit_one
  commit_one-IsRound b st =
      attempt-IsRound (prepare_commit env st.db b) st env.send_transaction
        (env.fails update_status b.hash) (commit_write env b)

  by_monitor-IsRound :
      (Ready : Tx → Type 0) (write : ℕ → List Batch → List Batch) (enabled : Bool)
      (status : Outcome RelayerError Bool) (st : State) (next : Round)
      → IsRound Ready write st next.1
      → IsRound Ready write st (by_monitor env enabled status st next).1
  by_monitor-IsRound Ready write false status st next r = r
  by_monitor-IsRound Ready write true (err e) st next r = inl refl
  by_monitor-IsRound Ready write true (ok false) st next r = inl refl
  by_monitor-IsRound Ready write true (ok true) st next r = r

  finalize-IsRound :
      (b : Batch) (with_proof : Bool) (st : State)
      → IsRound
          (λ tx. prepare_finalize env st.db b with_proof ≡ ok tx)
          (finalize_write env b)
          st
          (finalize env b with_proof st).1
  unfolding finalize finalize_checked
  finalize-IsRound b with_proof st =
      by_monitor-IsRound (λ tx. prepare_finalize env st.db b with_proof ≡ ok tx)
        (finalize_write env b) env.chain_monitor_enabled (get_batch_status_by_index env st.db b) st
        (finalize_checked env b with_proof st)
        (attempt-IsRound (prepare_finalize env st.db b with_proof) st env.send_transaction
          (env.fails update_status b.hash) (finalize_write env b))

  -- Why a batch is finalized: it is verified and its proof is there, or the bypass is on.
  abbrev pub IsFinalizable : Db → Batch → Tx → Type 0
  IsFinalizable db b tx =
      ((b.proving_status ≡ verified) × (prepare_finalize env db b true ≡ ok tx))
      ⊎ ((is_bypassed env b ≡ true) × (prepare_finalize env db b false ≡ ok tx))

  by_status-IsRound :
      (Ready : Tx → Type 0) (write : ℕ → List Batch → List Batch) (s : ProvingStatus)
      (bypassed : Bool) (st : State) (proved unproved : Round)
      → (s ≡ verified → IsRound Ready write st proved.1)
      → (bypassed ≡ true → IsRound Ready write st unproved.1)
      → IsRound Ready write st (by_status env s bypassed st proved unproved).1
  by_status-IsRound Ready write undefined bypassed st proved unproved p u = inl refl
  by_status-IsRound Ready write unassigned true st proved unproved p u = u refl
  by_status-IsRound Ready write unassigned false st proved unproved p u = inl refl
  by_status-IsRound Ready write assigned true st proved unproved p u = u refl
  by_status-IsRound Ready write assigned false st proved unproved p u = inl refl
  by_status-IsRound Ready write proved_deprecated bypassed st proved unproved p u = inl refl
  by_status-IsRound Ready write verified bypassed st proved unproved p u = p refl
  by_status-IsRound Ready write failed bypassed st proved unproved p u = inl refl

  pub finalize_first-IsRound :
      (b : Batch) (bs : List Batch) (st : State)
      → IsRound (IsFinalizable st.db b) (finalize_write env b) st (finalize_first env (b ∷ bs) st).1
  unfolding finalize_first
  finalize_first-IsRound b bs st =
      by_status-IsRound (IsFinalizable st.db b) (finalize_write env b) b.proving_status
        (is_bypassed env b) st (finalize env b true st) (finalize env b false st)
        (λ p.
          IsRound-map (λ tx. prepare_finalize env st.db b true ≡ ok tx) (IsFinalizable st.db b)
            (finalize_write env b) st (finalize env b true st).1 (λ tx e. inl (p, e))
            (finalize-IsRound b true st))
        (λ p.
          IsRound-map (λ tx. prepare_finalize env st.db b false ≡ ok tx) (IsFinalizable st.db b)
            (finalize_write env b) st (finalize env b false st).1 (λ tx e. inr (p, e))
            (finalize-IsRound b false st))

  -- A commit transaction names its batch.
  pub prepare_commit-commit_tx :
      (db : Db) (b : Batch) (tx : Tx)
      → prepare_commit env db b ≡ ok tx
      → (bytes : List ℕ) × (blob : Option (List ℕ)) × (tx ≡ commit_tx env b bytes blob)
  unfolding prepare_commit
  prepare_commit-commit_tx db b tx e =
      let (cs, a, e1) = >>=-eq-ok (read_chunks env db b) _ e in
      let (chunks, c, e2) = >>=-eq-ok (read_blocks env db cs) _ e1 in
      let (parent, d, e3) = >>=-eq-ok (read_parent env db b) _ e2 in
      let (p, f, e4) = >>=-eq-ok (commit_call env b parent cs chunks) _ e3 in
      let (bytes, g, e5) = >>=-eq-ok (found (env.pack p.0)) _ e4 in
      (bytes, p.1, sym (ok-injective e5))

  -- A finalize transaction names its batch, which is not the genesis batch, and packs a call made
  -- of the rows of the batch, its parent and its chunks, with the proof that was read.
  pub record IsPrepared (db : Db) (b : Batch) (with_proof : Bool) (tx : Tx) : Type 0 where
    pub proof : Option (List ℕ)
    pub proof_read : read_proof env db b with_proof ≡ ok proof
    pub parent : Batch
    pub parent_read : read_parent env db b ≡ ok parent
    pub chunks : List scroll.Relayer.Chunk
    pub chunks_read : read_chunks env db b ≡ ok chunks
    pub call : scroll.Relayer.Call
    pub call_made : finalize_call env db b parent chunks proof ≡ ok call
    pub packed : env.pack call ≡ some tx.data_bytes
    pub named : tx ≡ finalize_tx env b tx.data_bytes

  found-some : {A : Type 0} (o : Option A) (a : A) → found o ≡ ok a → o ≡ some a
  found-some none a e = cc
  found-some (some x) a e = ap some (ok-injective e)

  pub prepare_finalize-IsPrepared :
      (db : Db) (b : Batch) (with_proof : Bool) (tx : Tx)
      → prepare_finalize env db b with_proof ≡ ok tx
      → IsPrepared db b with_proof tx
  unfolding prepare_finalize
  prepare_finalize-IsPrepared db b with_proof tx e =
      let (parent, a, e1) = >>=-eq-ok (read_parent env db b) _ e in
      let (cs, c, e2) = >>=-eq-ok (read_chunks env db b) _ e1 in
      let (proof, d, e3) = >>=-eq-ok (read_proof env db b with_proof) _ e2 in
      let (call, f, e4) = >>=-eq-ok (finalize_call env db b parent cs proof) _ e3 in
      let (bytes, g, e5) = >>=-eq-ok (found (env.pack call)) _ e4 in
      let same = ok-injective e5 in
      record {
        proof = proof;
        proof_read = d;
        parent = parent;
        parent_read = a;
        chunks = cs;
        chunks_read = c;
        call = call;
        call_made = f;
        packed = found-some (env.pack call) bytes g ∙ ap (λ t. some t.data_bytes) same;
        named = sym same ∙ ap (λ t. finalize_tx env b t.data_bytes) same;
      }
