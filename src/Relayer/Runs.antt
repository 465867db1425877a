-- ===== src/Relayer/Runs.antt =====
-- The relayer with the services around it as a step relation:
-- rollup/internal/controller/relayer/l2_relayer.go.
use scroll.Common.{ℕ, ◌≡◌, ◌≢◌, sym, subst, inl, inr, List, [], ◌∷◌, ◌++◌, All, Rows}
use scroll.Relayer.{
  rollup_pending, rollup_finalized, sender_commit_batch, sender_finalize_batch, Batch, Tx, State,
  Env, map_batches,
}
use scroll.Relayer.Commit.{process_pending_batches}
use scroll.Relayer.Finalize.{process_committed_batches}
use scroll.Relayer.Confirm.{Confirmation, handle_confirmation}
use scroll.Relayer.GasOracle.{process_gas_price_oracle}
use scroll.Relayer.Fetched.{In}
use scroll.Relayer.Sound.{HasTx, IsOrdered, IsBackedAs, IsBacked, IsSound}
use scroll.Relayer.KeptPrices.{process_gas_price-IsSound}
use scroll.Relayer.Kept.{
  process_pending-IsSound, process_committed-IsSound, handle_confirmation-IsSound,
}

-- What the coordinator may do to a batch.
abbrev pub IsProved : Batch → Batch → Type 0
IsProved b b' = b' ≡ record b { proving_status = b'.proving_status; proof = b'.proof }

-- The relayer's functions at any time and with any failures, a confirmation of a transaction in
-- the log, a new batch of the proposer, and the coordinator's work on the proofs.
pub data Step (st : State) : State → Type 0 where
  commit : (env : Env) → Step st (process_pending_batches env st).1
  finalize : (env : Env) → Step st (process_committed_batches env st).1
  import_gas_price : (env : Env) → Step st (process_gas_price_oracle env st).1
  confirm :
      (env : Env) (cfm : Confirmation)
      → HasTx cfm.sender_type cfm.context_id st.sent
      → Step st (handle_confirmation env cfm st)
  propose :
      (b : Batch)
      → b.rollup_status ≡ rollup_pending
      → Step st (map_batches (λ rows. rows ++ b ∷ []) st)
  prove :
      (rows : List Batch)
      → Rows IsProved st.db.batches rows
      → Step st (map_batches (λ old. rows) st)

pub data Reach (st : State) : State → Type 0 where
  here : Reach st st
  step : {mid end : State} → Reach st mid → Step mid end → Reach st end

All-snoc :
    (P : Batch → Type 0) (xs : List Batch) (x : Batch) → All P xs → P x → All P (xs ++ x ∷ [])
All-snoc P [] x a p = (p, tt)
All-snoc P (y ∷ ys) x a p = (a.0, All-snoc P ys x a.1 p)

pending-IsBacked : (log : List Tx) (b : Batch) → b.rollup_status ≡ rollup_pending → IsBacked log b
pending-IsBacked log b e = inr (subst (λ s. IsBackedAs s b.hash log) (sym e) tt)

IsProved-IsBacked :
    (log : List Tx) (b b' : Batch) → IsProved b b' → IsBacked log b → IsBacked log b'
IsProved-IsBacked log b b' e k = subst (IsBacked log) (sym e) k

All-Rows :
    (log : List Tx) (old new : List Batch)
    → Rows IsProved old new
    → All (IsBacked log) old
    → All (IsBacked log) new
All-Rows log [] [] r a = tt
All-Rows log [] (y ∷ ys) r a = absurd r
All-Rows log (x ∷ xs) [] r a = absurd r
All-Rows log (x ∷ xs) (y ∷ ys) r a = (IsProved-IsBacked log x y r.0 a.0, All-Rows log xs ys r.1 a.1)

Step-IsSound : (st st' : State) → Step st st' → IsSound st → IsSound st'
Step-IsSound st _ (commit env) k = process_pending-IsSound env st k
Step-IsSound st _ (finalize env) k = process_committed-IsSound env st k
Step-IsSound st _ (import_gas_price env) k = process_gas_price-IsSound env st k
Step-IsSound st _ (confirm env cfm h) k = handle_confirmation-IsSound env cfm st h k
Step-IsSound st _ (propose b new) k = record {
  rows = All-snoc (IsBacked st.sent) st.db.batches b k.rows (pending-IsBacked st.sent b new);
  ordered = k.ordered;
}
Step-IsSound st _ (prove rows r) k = record {
  rows = All-Rows st.sent st.db.batches rows r k.rows;
  ordered = k.ordered;
}

-- Take a state in which the rollup status of every batch but the genesis batch is backed by a
-- transaction in the log, and every finalize transaction was sent after a commit transaction for
-- its batch. Every state that the relayer and the services around it reach from there, with any
-- failures and in any order, is such a state.
pub Reach-IsSound : (st st' : State) → IsSound st → Reach st st' → IsSound st'
Reach-IsSound st _ k here = k
Reach-IsSound st st' k (step {mid = mid} r s) = Step-IsSound mid st' s (Reach-IsSound st mid k r)

HasTx-ordered :
    (hash : ℕ) (log : List Tx)
    → IsOrdered log
    → HasTx sender_finalize_batch hash log
    → HasTx sender_commit_batch hash log
HasTx-ordered hash [] o f = absurd f
HasTx-ordered hash (tx ∷ log) o (inl e) =
    inr (subst (λ h. HasTx sender_commit_batch h log) e.1 (o.0 e.0))
HasTx-ordered hash (tx ∷ log) o (inr f) = inr (HasTx-ordered hash log o.1 f)

All-at : (P : Batch → Type 0) (rows : List Batch) (b : Batch) → All P rows → In b rows → P b
All-at P [] b a i = absurd i
All-at P (x ∷ xs) b a (inl e) = subst P e a.0
All-at P (x ∷ xs) b a (inr i) = All-at P xs b a.1 i

-- In a state that is reached from a sound one, a batch whose status is finalized and that is not
-- the genesis batch has both a commit and a finalize transaction in the log.
pub Reach-finalized :
    (st st' : State) (b : Batch)
    → IsSound st
    → Reach st st'
    → In b st'.db.batches
    → b.index ≢ 0
    → b.rollup_status ≡ rollup_finalized
    → HasTx sender_commit_batch b.hash st'.sent × HasTx sender_finalize_batch b.hash st'.sent
Reach-finalized st st' b k r i real e =
    let sound = Reach-IsSound st st' k r in
    let sent : HasTx sender_finalize_batch b.hash st'.sent =
      elim (All-at (IsBacked st'.sent) st'.db.batches b sound.rows i) [
        | inl z ↦ absurd (real z)
        | inr p ↦ subst (λ s. IsBackedAs s b.hash st'.sent) e p
      ] in
    (HasTx-ordered b.hash st'.sent sound.ordered sent, sent)
