-- ===== src/Relayer/Finalizing.antt =====
-- ProcessCommittedBatches as a whole: rollup/internal/controller/relayer/l2_relayer.go.
use scroll.Common.{◌≤◌, ◌≡◌, ◌⊎◌, refl, ap, inl, inr, Bool, true, false, List, [], ◌∷◌, All}
use scroll.Relayer.{Batch, Tx, State, Env, sender_finalize_batch, get_batches, Round, fetch}
use scroll.Relayer.Tables.{is_committed, get_committed_batches}
use scroll.Relayer.Finalize.{finalize_first, finalize_write, process_committed_batches}
use scroll.Relayer.Fetched.{In, All-In, All-get_committed, fetched-first}
use scroll.Relayer.Rounds.{
  IsRound, IsFinalizable, finalize_first-IsRound, prepare_finalize-IsPrepared,
}
use scroll.Relayer.Finalized.{IsProven, IsBypass, IsFinalizable-IsJustified}

-- One finalize transaction was sent, for the committed batch with the least index.
pub record IsFinalizing (env : Env) (st st' : State) : Type 0 where
  pub batch : Batch
  pub is_batch : In batch st.db.batches
  pub committed : is_committed batch.rollup_status ≡ true
  pub first :
      All (λ (b : Batch). is_committed b.rollup_status ≡ true → batch.index ≤ b.index) st.db.batches
  pub tx : Tx
  pub sent : st'.sent ≡ tx ∷ st.sent
  pub kind : tx.sender_type ≡ sender_finalize_batch
  pub name : tx.context_id ≡ batch.hash
  pub justified : IsProven env st.db batch tx ⊎ IsBypass env batch

IsFinalizable-kind :
    (env : Env) (st : State) (b : Batch) (tx : Tx)
    → IsFinalizable env st.db b tx
    → (tx.sender_type ≡ sender_finalize_batch) × (tx.context_id ≡ b.hash)
IsFinalizable-kind env st b tx (inl (v, e)) =
    let p = prepare_finalize-IsPrepared env st.db b true tx e in
    (ap (λ t. t.sender_type) p.named, ap (λ t. t.context_id) p.named)
IsFinalizable-kind env st b tx (inr (v, e)) =
    let p = prepare_finalize-IsPrepared env st.db b false tx e in
    (ap (λ t. t.sender_type) p.named, ap (λ t. t.context_id) p.named)

least-committed :
    (b : Batch) (bs rows : List Batch)
    → get_committed_batches 1 rows ≡ b ∷ bs
    → All (λ (c : Batch). is_committed c.rollup_status ≡ true → b.index ≤ c.index) rows
unfolding get_committed_batches
least-committed b bs rows e =
    fetched-first (λ (c : Batch). c.index) (λ c. is_committed c.rollup_status) 1 rows bs b e

finalize_first-IsFinalizing :
    (env : Env) (st : State) (bs : List Batch)
    → get_committed_batches 1 st.db.batches ≡ bs
    → All (λ b. In b st.db.batches × (is_committed b.rollup_status ≡ true)) bs
    → ((finalize_first env bs st).1 ≡ st) ⊎ IsFinalizing env st (finalize_first env bs st).1
unfolding finalize_first
finalize_first-IsFinalizing env st [] e a = inl refl
finalize_first-IsFinalizing env st (b ∷ bs) e a = sent_by (finalize_first-IsRound env b bs st)
  where
    sent_by :
        IsRound
          (IsFinalizable env st.db b)
          (finalize_write env b)
          st
          (finalize_first env (b ∷ bs) st).1
        → ((finalize_first env (b ∷ bs) st).1 ≡ st)
          ⊎ IsFinalizing env st (finalize_first env (b ∷ bs) st).1
    sent_by (inl same) = inl same
    sent_by (inr (tx, ready, r)) =
        let (kind, name) = IsFinalizable-kind env st b tx ready in
        inr (record {
          batch = b;
          is_batch = a.0.0;
          committed = a.0.1;
          first = least-committed b bs st.db.batches e;
          tx = tx;
          sent = elim r [ inl s ↦ ap (λ x. x.sent) s | inr (h, s) ↦ ap (λ x. x.sent) s ];
          kind = kind;
          name = name;
          justified = IsFinalizable-IsJustified env st.db b tx ready;
        })

-- ProcessCommittedBatches leaves the state as it is, or sends one finalize transaction, for the
-- committed batch with the least index. The transaction hands over a proof of the right length
-- that is stored in a verified row with the batch's hash, or the bypass for test environments is
-- on and its time has passed since the batch was committed.
pub process_committed-IsFinalizing :
    (env : Env) (st : State)
    → ((process_committed_batches env st).1 ≡ st)
      ⊎ IsFinalizing env st (process_committed_batches env st).1
unfolding process_committed_batches
process_committed-IsFinalizing env st =
    behind (env.fails get_batches 0) (finalize_first env (get_committed_batches 1 st.db.batches) st)
      (finalize_first-IsFinalizing env st (get_committed_batches 1 st.db.batches) refl
        (All-get_committed (λ b. In b st.db.batches) 1 st.db.batches (All-In st.db.batches)))
  where
    behind :
        (fails : Bool) (next : Round)
        → (next.1 ≡ st) ⊎ IsFinalizing env st next.1
        → ((fetch fails st next).1 ≡ st) ⊎ IsFinalizing env st (fetch fails st next).1
    behind true next k = inl refl
    behind false next k = k
