-- ===== src/Relayer/Kept.antt =====
-- Committing, finalizing and confirming keep the relayer's state sound, whatever fails:
-- rollup/internal/controller/relayer/l2_relayer.go.
use scroll.Common.{
  ◌≡◌, ◌≢◌, sym, ap, subst, inl, inr, Bool, true, false, some, none, List, [], ◌∷◌, All, arith, ok,
  if_both,
}
use scroll.Relayer.{
  proceed, fetch, RollupStatus, rollup_undefined, rollup_pending, rollup_committing,
  rollup_committed, rollup_finalizing, rollup_finalized, rollup_commit_failed,
  rollup_finalize_failed, SenderType, sender_commit_batch, sender_unknown, sender_l1_gas_oracle,
  sender_finalize_batch, sender_l2_gas_oracle, Batch, Db, Tx, State, Env, Round, get_batches,
  update_status,
}
use scroll.Relayer.Tables.{is_committed, get_committed_batches, get_failed_and_pending_batches}
use scroll.Relayer.Commit.{
  read_parent, prepare_commit, commit_write, commit_one, commit_all, process_pending_batches,
}
use scroll.Relayer.Finalize.{finalize_write, finalize_first, process_committed_batches}
use scroll.Relayer.Confirm.{
  Confirmation, commit_status, finalize_status, oracle_status, confirm_as, handle_confirmation,
}
use scroll.Relayer.Fetched.{All-get_committed}
use scroll.Relayer.Rounds.{
  commit_one-IsRound, IsFinalizable, finalize_first-IsRound, prepare_commit-commit_tx, IsPrepared,
  prepare_finalize-IsPrepared,
}
use scroll.Relayer.Sound.{
  HasTx, IsBackedAs, IsBacked, IsSound, update_commit-IsBacked, update_finalize-IsBacked,
  update_oracle-IsBacked, IsRound-IsSound,
}

-- Committing

commit_one-IsSound :
    (env : Env) (b : Batch) (st : State) → IsSound st → IsSound (commit_one env b st).1
commit_one-IsSound env b st k =
    IsRound-IsSound (λ tx. prepare_commit env st.db b ≡ ok tx) (commit_write env b) st
      (commit_one env b st).1 k
      (λ tx ready.
        let (bytes, blob, e) = prepare_commit-commit_tx env st.db b tx ready in
        let kind : tx.sender_type ≡ sender_commit_batch = ap (λ t. t.sender_type) e in
        let name : tx.context_id ≡ b.hash = ap (λ t. t.context_id) e in
        (
          λ f. absurd (cc),
          λ tx_hash rows.
              update_commit-IsBacked (tx ∷ st.sent) env.now b.hash tx_hash rollup_committing
                st.db.batches (inl (kind, name)) rows,
        ))
      (commit_one-IsRound env b st)

proceed-IsSound :
    (r : Round) (next : State → Round)
    → IsSound r.1
    → ((st : State) → IsSound st → IsSound (next st).1)
    → IsSound (proceed r next).1
proceed-IsSound (none, st) next k f = f st k
proceed-IsSound (some e, st) next k f = k

pub fetch-IsSound :
    (fails : Bool) (st : State) (next : Round)
    → IsSound st
    → IsSound next.1
    → IsSound (fetch fails st next).1
fetch-IsSound true st next k n = k
fetch-IsSound false st next k n = n

commit_all-IsSound :
    (env : Env) (bs : List Batch) (st : State) → IsSound st → IsSound (commit_all env bs st).1
unfolding commit_all
commit_all-IsSound env [] st k = k
commit_all-IsSound env (b ∷ bs) st k =
    proceed-IsSound (commit_one env b st) (commit_all env bs) (commit_one-IsSound env b st k)
      (λ next k'. commit_all-IsSound env bs next k')

pub process_pending-IsSound :
    (env : Env) (st : State) → IsSound st → IsSound (process_pending_batches env st).1
unfolding process_pending_batches
process_pending-IsSound env st k =
    let bs = get_failed_and_pending_batches 5 st.db.batches in
    fetch-IsSound (env.fails get_batches 0) st (commit_all env bs st) k
      (commit_all-IsSound env bs st k)

-- Finalizing

-- The genesis batch has no parent.
read_parent-index :
    (env : Env) (db : Db) (b parent : Batch) → read_parent env db b ≡ ok parent → b.index ≢ 0
unfolding read_parent
read_parent-index env db b parent e = λ z. ground arith

IsFinalizable-IsPrepared :
    (env : Env) (db : Db) (b : Batch) (tx : Tx)
    → IsFinalizable env db b tx
    → (with_proof : Bool) × IsPrepared env db b with_proof tx
IsFinalizable-IsPrepared env db b tx (inl (v, e)) =
    (true, prepare_finalize-IsPrepared env db b true tx e)
IsFinalizable-IsPrepared env db b tx (inr (v, e)) =
    (false, prepare_finalize-IsPrepared env db b false tx e)

committed-HasTx :
    (log : List Tx) (b : Batch)
    → b.index ≢ 0
    → is_committed b.rollup_status ≡ true
    → IsBacked log b
    → HasTx sender_commit_batch b.hash log
committed-HasTx log b n c (inl z) = absurd (n z)
committed-HasTx log b n c (inr k) = at_status b.rollup_status c k
  where
    at_status :
        (s : RollupStatus)
        → is_committed s ≡ true
        → IsBackedAs s b.hash log
        → HasTx sender_commit_batch b.hash log
    at_status rollup_undefined c k = absurd (cc)
    at_status rollup_pending c k = absurd (cc)
    at_status rollup_committing c k = absurd (cc)
    at_status rollup_committed c k = k
    at_status rollup_commit_failed c k = absurd (cc)
    at_status rollup_finalizing c k = absurd (cc)
    at_status rollup_finalized c k = absurd (cc)
    at_status rollup_finalize_failed c k = absurd (cc)

finalize_first-IsSound :
    (env : Env) (bs : List Batch) (st : State)
    → IsSound st
    → All (λ b. IsBacked st.sent b × (is_committed b.rollup_status ≡ true)) bs
    → IsSound (finalize_first env bs st).1
unfolding finalize_first
finalize_first-IsSound env [] st k a = k
finalize_first-IsSound env (b ∷ bs) st k a =
    IsRound-IsSound (IsFinalizable env st.db b) (finalize_write env b) st
      (finalize_first env (b ∷ bs) st).1 k
      (λ tx ready.
        let (with_proof, p) = IsFinalizable-IsPrepared env st.db b tx ready in
        let kind : tx.sender_type ≡ sender_finalize_batch = ap (λ t. t.sender_type) p.named in
        let name : tx.context_id ≡ b.hash = ap (λ t. t.context_id) p.named in
        let real = read_parent-index env st.db b p.parent p.parent_read in
        (
          λ f.
              subst (λ h. HasTx sender_commit_batch h st.sent) (sym name)
                (committed-HasTx st.sent b real a.0.1 a.0.0),
          λ tx_hash rows.
              update_finalize-IsBacked (tx ∷ st.sent) env.now b.hash tx_hash rollup_finalizing
                st.db.batches (inl (kind, name)) rows,
        ))
      (finalize_first-IsRound env b bs st)

pub process_committed-IsSound :
    (env : Env) (st : State) → IsSound st → IsSound (process_committed_batches env st).1
unfolding process_committed_batches
process_committed-IsSound env st k =
    let bs = get_committed_batches 1 st.db.batches in
    fetch-IsSound (env.fails get_batches 0) st (finalize_first env bs st) k (
      finalize_first-IsSound env bs st k
        (All-get_committed (IsBacked st.sent) 1 st.db.batches k.rows))

-- Confirming

confirm_as-IsSound :
    (kind : SenderType) (env : Env) (cfm : Confirmation) (st : State)
    → HasTx kind cfm.context_id st.sent
    → IsSound st
    → IsSound (confirm_as kind env cfm st)
unfolding confirm_as
confirm_as-IsSound sender_unknown env cfm st h k = k
confirm_as-IsSound sender_l1_gas_oracle env cfm st h k = k
confirm_as-IsSound sender_commit_batch env cfm st h k = record {
  rows =
      update_commit-IsBacked st.sent env.now cfm.context_id cfm.tx_hash
        (commit_status cfm.is_successful) st.db.batches
        (if_both (λ s. IsBackedAs s cfm.context_id st.sent) cfm.is_successful (λ e. h) (λ e. h))
        k.rows;
  ordered = k.ordered;
}
confirm_as-IsSound sender_finalize_batch env cfm st h k = record {
  rows =
      update_finalize-IsBacked st.sent env.now cfm.context_id cfm.tx_hash
        (finalize_status cfm.is_successful) st.db.batches
        (if_both (λ s. IsBackedAs s cfm.context_id st.sent) cfm.is_successful (λ e. h) (λ e. h))
        k.rows;
  ordered = k.ordered;
}
confirm_as-IsSound sender_l2_gas_oracle env cfm st h k = record {
  rows =
      update_oracle-IsBacked st.sent cfm.context_id (oracle_status cfm.is_successful) cfm.tx_hash
        st.db.batches k.rows;
  ordered = k.ordered;
}

pub handle_confirmation-IsSound :
    (env : Env) (cfm : Confirmation) (st : State)
    → HasTx cfm.sender_type cfm.context_id st.sent
    → IsSound st
    → IsSound (handle_confirmation env cfm st)
unfolding handle_confirmation
handle_confirmation-IsSound env cfm st h k =
    if_both IsSound (env.fails update_status cfm.context_id) (λ e. k)
      (λ e. confirm_as-IsSound cfm.sender_type env cfm st h k)
