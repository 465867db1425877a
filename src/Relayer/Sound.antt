-- ===== src/Relayer/Sound.antt =====
-- What holds of the relayer's tables and log between two steps:
-- rollup/internal/controller/relayer/l2_relayer.go.
use scroll.Common.{
  ℕ, ◌≡◌, ◌⊎◌, refl, sym, ◌∙◌, subst, inl, inr, true, List, [], ◌∷◌, All, ◌==◌, ==_iff,
}
use scroll.Relayer.{
  RollupStatus, rollup_undefined, rollup_pending, rollup_committing, rollup_committed,
  rollup_finalizing, rollup_finalized, rollup_commit_failed, rollup_finalize_failed, SenderType,
  sender_commit_batch, sender_finalize_batch, Batch, Tx, State, GasOracleStatus,
}
use scroll.Relayer.Tables.{
  set_commit, set_finalize, set_oracle, update_commit_tx_hash_and_rollup_status,
  update_finalize_tx_hash_and_rollup_status, update_l2_gas_oracle_status_and_oracle_tx_hash,
}
use scroll.Relayer.Fetched.{All-update_where, All-weaken}
use scroll.Relayer.Rounds.{IsRound}

-- A transaction of a sender for a batch is in the log.
abbrev pub HasTx : SenderType → ℕ → List Tx → Type 0
HasTx kind hash [] = ⊥
HasTx kind hash (tx ∷ log) =
    ((tx.sender_type ≡ kind) × (tx.context_id ≡ hash)) ⊎ HasTx kind hash log

-- Every finalize transaction of the log was sent after a commit transaction for its batch.
abbrev pub IsOrdered : List Tx → Type 0
IsOrdered [] = Unit
IsOrdered (tx ∷ log) =
    (tx.sender_type ≡ sender_finalize_batch → HasTx sender_commit_batch tx.context_id log)
    × IsOrdered log

-- The transaction that a rollup status tells of is in the log.
abbrev pub IsBackedAs : RollupStatus → ℕ → List Tx → Type 0
IsBackedAs rollup_undefined hash log = Unit
IsBackedAs rollup_pending hash log = Unit
IsBackedAs rollup_committing hash log = HasTx sender_commit_batch hash log
IsBackedAs rollup_committed hash log = HasTx sender_commit_batch hash log
IsBackedAs rollup_commit_failed hash log = HasTx sender_commit_batch hash log
IsBackedAs rollup_finalizing hash log = HasTx sender_finalize_batch hash log
IsBackedAs rollup_finalized hash log = HasTx sender_finalize_batch hash log
IsBackedAs rollup_finalize_failed hash log = HasTx sender_finalize_batch hash log

-- The genesis batch is imported in another way.
abbrev pub IsBacked : List Tx → Batch → Type 0
IsBacked log b = (b.index ≡ 0) ⊎ IsBackedAs b.rollup_status b.hash log

pub record IsSound (st : State) : Type 0 where
  pub rows : All (IsBacked st.sent) st.db.batches
  pub ordered : IsOrdered st.sent

pub IsBackedAs-log :
    (s : RollupStatus) (hash : ℕ) (tx : Tx) (log : List Tx)
    → IsBackedAs s hash log
    → IsBackedAs s hash (tx ∷ log)
IsBackedAs-log rollup_undefined hash tx log k = tt
IsBackedAs-log rollup_pending hash tx log k = tt
IsBackedAs-log rollup_committing hash tx log k = inr k
IsBackedAs-log rollup_committed hash tx log k = inr k
IsBackedAs-log rollup_commit_failed hash tx log k = inr k
IsBackedAs-log rollup_finalizing hash tx log k = inr k
IsBackedAs-log rollup_finalized hash tx log k = inr k
IsBackedAs-log rollup_finalize_failed hash tx log k = inr k

pub IsBacked-log : (log : List Tx) (tx : Tx) (b : Batch) → IsBacked log b → IsBacked (tx ∷ log) b
IsBacked-log log tx b (inl g) = inl g
IsBacked-log log tx b (inr k) = inr (IsBackedAs-log b.rollup_status b.hash tx log k)

-- An update of the rows with a hash to a status that the log backs.
pub set_status-IsBacked :
    (log : List Tx) (f : Batch → Batch) (s : RollupStatus) (hash : ℕ)
    → ((b : Batch) → (f b).rollup_status ≡ s)
    → ((b : Batch) → (f b).hash ≡ b.hash)
    → IsBackedAs s hash log
    → (b : Batch) → (b.hash == hash) ≡ true
    → IsBacked log (f b)
set_status-IsBacked log f s hash status same k b e =
    let here : (f b).hash ≡ hash = same b ∙ (==_iff b.hash hash).0 e in
    inr (
      subst (λ t. IsBackedAs t (f b).hash log) (sym (status b))
        (subst (λ h. IsBackedAs s h log) (sym here) k))

pub update_commit-IsBacked :
    (log : List Tx) (now hash tx_hash : ℕ) (s : RollupStatus) (rows : List Batch)
    → IsBackedAs s hash log
    → All (IsBacked log) rows
    → All (IsBacked log) (update_commit_tx_hash_and_rollup_status now hash tx_hash s rows)
unfolding update_commit_tx_hash_and_rollup_status
update_commit-IsBacked log now hash tx_hash s rows k a =
    All-update_where (IsBacked log) (IsBacked log) (λ b. b.hash == hash) (set_commit now tx_hash s)
      (λ b p. p)
      (λ b p e.
        set_status-IsBacked log (set_commit now tx_hash s) s hash (λ c. refl) (λ c. refl) k b e)
      rows a

pub update_finalize-IsBacked :
    (log : List Tx) (now hash tx_hash : ℕ) (s : RollupStatus) (rows : List Batch)
    → IsBackedAs s hash log
    → All (IsBacked log) rows
    → All (IsBacked log) (update_finalize_tx_hash_and_rollup_status now hash tx_hash s rows)
unfolding update_finalize_tx_hash_and_rollup_status
update_finalize-IsBacked log now hash tx_hash s rows k a =
    All-update_where (IsBacked log) (IsBacked log) (λ b. b.hash == hash)
      (set_finalize now tx_hash s) (λ b p. p)
      (λ b p e.
        set_status-IsBacked log (set_finalize now tx_hash s) s hash (λ c. refl) (λ c. refl) k b e)
      rows a

pub update_oracle-IsBacked :
    (log : List Tx) (hash : ℕ) (s : GasOracleStatus) (tx_hash : ℕ) (rows : List Batch)
    → All (IsBacked log) rows
    → All (IsBacked log) (update_l2_gas_oracle_status_and_oracle_tx_hash hash s tx_hash rows)
unfolding update_l2_gas_oracle_status_and_oracle_tx_hash
update_oracle-IsBacked log hash s tx_hash rows a =
    All-update_where (IsBacked log) (IsBacked log) (λ b. b.hash == hash) (set_oracle tx_hash s)
      (λ b p. p) (λ b p e. p) rows a

-- A round keeps the state sound if what it sends and writes is backed.
pub IsRound-IsSound :
    (Ready : Tx → Type 0) (write : ℕ → List Batch → List Batch) (st st' : State)
    → IsSound st
    → ((tx : Tx)
        → Ready tx
        → (tx.sender_type ≡ sender_finalize_batch → HasTx sender_commit_batch tx.context_id st.sent)
          × ((tx_hash : ℕ)
              → All (IsBacked (tx ∷ st.sent)) st.db.batches
              → All (IsBacked (tx ∷ st.sent)) (write tx_hash st.db.batches)))
    → IsRound Ready write st st'
    → IsSound st'
IsRound-IsSound Ready write st st' k backs (inl e) = subst IsSound (sym e) k
IsRound-IsSound Ready write st st' k backs (inr (tx, ready, r)) =
    let (after, written) = backs tx ready in
    let rows =
      All-weaken (IsBacked st.sent) (IsBacked (tx ∷ st.sent)) (IsBacked-log st.sent tx)
        st.db.batches k.rows in
    elim r [
      | inl e ↦ subst IsSound (sym e) (record { rows = rows; ordered = (after, k.ordered) })
      | inr (tx_hash, e) ↦
          subst IsSound (sym e)
            (record { rows = written tx_hash rows; ordered = (after, k.ordered) })
    ]
