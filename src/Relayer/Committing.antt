-- ===== src/Relayer/Committing.antt =====
-- ProcessPendingBatches as a whole: rollup/internal/controller/relayer/l2_relayer.go.
use scroll.Common.{
  ℕ, ◌≡◌, refl, sym, ap, ◌∙◌, subst, Bool, true, false, Option, some, none, List, [], ◌∷◌, All,
  ◌==◌, ==_iff, Outcome, ok, err, if_both, update_where,
}
use scroll.Relayer.{
  Batch, Tx, State, Env, RelayerError, Round, attempt, proceed, fetch, send, log_tx, map_batches,
  sender_commit_batch, rollup_committing, get_batches, update_status,
}
use scroll.Relayer.Tables.{
  set_commit, get_failed_and_pending_batches, update_commit_tx_hash_and_rollup_status,
}
use scroll.Relayer.Commit.{
  prepare_commit, commit_write, commit_one, commit_all, process_pending_batches,
}
use scroll.Relayer.Fetched.{All-update_where, IsFetched, get_failed_and_pending-IsFetched}
use scroll.Relayer.Rounds.{prepare_commit-commit_tx}

-- One commit transaction for each batch has come to the log, in the order of the batches.
abbrev pub IsLogged : List Batch → List Tx → List Tx → Type 0
IsLogged [] old new = new ≡ old
IsLogged (b ∷ bs) old new =
    (tx : Tx) × ((tx.sender_type ≡ sender_commit_batch)
      × ((tx.context_id ≡ b.hash) × IsLogged bs (tx ∷ old) new))

-- Every row with the hash reads committing.
abbrev pub AllCommitting : ℕ → List Batch → Type 0
AllCommitting hash = All (λ (row : Batch). row.hash ≡ hash → row.rollup_status ≡ rollup_committing)

commit_write-keeps :
    (env : Env) (b : Batch) (tx_hash hash : ℕ) (rows : List Batch)
    → AllCommitting hash rows
    → AllCommitting hash (commit_write env b tx_hash rows)
unfolding update_commit_tx_hash_and_rollup_status
commit_write-keeps env b tx_hash hash rows a =
    All-update_where (λ r. r.hash ≡ hash → r.rollup_status ≡ rollup_committing)
      (λ r. r.hash ≡ hash → r.rollup_status ≡ rollup_committing) (λ r. r.hash == b.hash)
      (set_commit env.now tx_hash rollup_committing) (λ r p. p) (λ r p e same. refl) rows a

commit_write-AllCommitting :
    (env : Env) (b : Batch) (tx_hash : ℕ) (rows : List Batch)
    → AllCommitting b.hash (commit_write env b tx_hash rows)
unfolding update_commit_tx_hash_and_rollup_status update_where
commit_write-AllCommitting env b tx_hash [] = tt
commit_write-AllCommitting env b tx_hash (r ∷ rs) = (
  if_both (λ (x : Batch). x.hash ≡ b.hash → x.rollup_status ≡ rollup_committing) (r.hash == b.hash)
      (λ t same. refl) (λ f same. let t = (==_iff r.hash b.hash).1 same in absurd (cc)),
  commit_write-AllCommitting env b tx_hash rs,
)

-- What a call without an error has done.
send-none :
    (o : Option ℕ) (fails : Bool) (tx : Tx) (write : ℕ → List Batch → List Batch) (st : State)
    → (send o fails tx write st).0 ≡ none
    → (tx_hash : ℕ) × ((send o fails tx write st).1 ≡ map_batches (write tx_hash) (log_tx tx st))
send-none none fails tx write st e = absurd (cc)
send-none (some tx_hash) true tx write st e = absurd (cc)
send-none (some tx_hash) false tx write st e = (tx_hash, refl)

attempt-none :
    (r : Outcome RelayerError Tx) (st : State) (next : Tx → Round)
    → (attempt r st next).0 ≡ none
    → (tx : Tx) × ((r ≡ ok tx) × (((next tx).0 ≡ none) × ((attempt r st next).1 ≡ (next tx).1)))
attempt-none (err e) st next n = absurd (cc)
attempt-none (ok tx) st next n = (tx, (refl, (n, refl)))

commit_one-none :
    (env : Env) (b : Batch) (st : State)
    → (commit_one env b st).0 ≡ none
    → (tx : Tx) × ((tx.sender_type ≡ sender_commit_batch)
        × ((tx.context_id ≡ b.hash)
            × ((tx_hash : ℕ) × ((commit_one env b st).1
                  ≡ map_batches (commit_write env b tx_hash) (log_tx tx st)))))
unfolding commit_one
commit_one-none env b st e =
    let next : Tx → Round = λ t.
      send (env.send_transaction t) (env.fails update_status b.hash) t (commit_write env b) st in
    let (tx, (ready, (n, same))) = attempt-none (prepare_commit env st.db b) st next e in
    let (bytes, blob, made) = prepare_commit-commit_tx env st.db b tx ready in
    let (tx_hash, done) =
      send-none (env.send_transaction tx) (env.fails update_status b.hash) tx (commit_write env b)
        st n in
    (tx, (ap (λ t. t.sender_type) made, (ap (λ t. t.context_id) made, (tx_hash, same ∙ done))))

proceed-none :
    (r : Round) (next : State → Round)
    → (proceed r next).0 ≡ none
    → (r.0 ≡ none) × (((next r.1).0 ≡ none) × ((proceed r next).1 ≡ (next r.1).1))
proceed-none (none, st) next e = (refl, (e, refl))
proceed-none (some x, st) next e = absurd (cc)

-- The loop without an error.
record IsDone (bs : List Batch) (st st' : State) : Type 0 where
  logged : IsLogged bs st.sent st'.sent
  committing : All (λ (b : Batch). AllCommitting b.hash st'.db.batches) bs
  keeps : (hash : ℕ) → AllCommitting hash st.db.batches → AllCommitting hash st'.db.batches

commit_all-IsDone :
    (env : Env) (bs : List Batch) (st : State)
    → (commit_all env bs st).0 ≡ none
    → IsDone bs st (commit_all env bs st).1
unfolding commit_all
commit_all-IsDone env [] st e = record { logged = refl; committing = tt; keeps = λ hash a. a }
commit_all-IsDone env (b ∷ bs) st e =
    let (first, (rest, same)) = proceed-none (commit_one env b st) (commit_all env bs) e in
    let (tx, (kind, (name, (tx_hash, done)))) = commit_one-none env b st first in
    let later = commit_all-IsDone env bs (commit_one env b st).1 rest in
    let rows = ap (λ (s : State). s.db.batches) done in
    let here : AllCommitting b.hash (commit_one env b st).1.db.batches =
      subst (AllCommitting b.hash) (sym rows)
        (commit_write-AllCommitting env b tx_hash st.db.batches) in
    subst (IsDone (b ∷ bs) st) (sym same) (record {
      logged = (
        tx,
        (
          kind,
          (
            name,
            subst (λ log. IsLogged bs log (commit_all env bs (commit_one env b st).1).1.sent)
                (ap (λ (s : State). s.sent) done) later.logged,
          ),
        ),
      );
      committing = (later.keeps b.hash here, later.committing);
      keeps = λ hash a. later.keeps hash (
          subst (AllCommitting hash) (sym rows)
            (commit_write-keeps env b tx_hash hash st.db.batches a));
    })

-- What ProcessPendingBatches does to the batches that it fetches.
pub record IsCommitting (batches : List Batch) (st st' : State) : Type 0 where
  pub fetched : IsFetched 5 st.db.batches batches
  pub logged : IsLogged batches st.sent st'.sent
  pub committing : All (λ (b : Batch). AllCommitting b.hash st'.db.batches) batches

fetch-none :
    (fails : Bool) (st : State) (next : Round)
    → (fetch fails st next).0 ≡ none
    → (next.0 ≡ none) × ((fetch fails st next).1 ≡ next.1)
fetch-none true st next e = absurd (cc)
fetch-none false st next e = (e, refl)

-- If ProcessPendingBatches ends without an error, then the batches that it fetched, which are at
-- most five, pending or failed and in ascending order, each have a new commit transaction in the
-- log, in this order and with nothing between, and all of their rows read committing.
pub process_pending-IsCommitting :
    (env : Env) (st : State)
    → (process_pending_batches env st).0 ≡ none
    → IsCommitting
        (get_failed_and_pending_batches 5 st.db.batches)
        st
        (process_pending_batches env st).1
unfolding process_pending_batches
process_pending-IsCommitting env st e =
    let bs = get_failed_and_pending_batches 5 st.db.batches in
    let (n, same) = fetch-none (env.fails get_batches 0) st (commit_all env bs st) e in
    let d = commit_all-IsDone env bs st n in
    subst (IsCommitting bs st) (sym same) (record {
      fetched = get_failed_and_pending-IsFetched 5 st.db.batches;
      logged = d.logged;
      committing = d.committing;
    })
