-- ===== src/Sender/Nonces.antt =====
-- A nonce belongs to one context: rollup/internal/controller/sender/sender.go.
use scroll.Common.{
  ℕ, ◌<◌, ◌≡◌, ◌⊎◌, ◌↔◌, refl, sym, ◌∙◌, subst, inl, inr, Bool, true, false, Option, none, some,
  List, [], ◌∷◌, ◌++◌, All, if_both, update_where, add64, leb, select, ◌==◌, ◌&&◌, not,
}
use scroll.Sender.{
  TxStatus, Config, Transaction, PendingTransaction, Sender, Client, tx_confirmed,
  tx_confirmed_failed, tx_replaced,
}
use scroll.Relayer.Fetched.{All-take, All-order_by, All-select, All-weaken}
use scroll.Relayer.Tables.{order_by}
use scroll.Sender.Transactions.{
  is_confirmed_failed, get_tx_status, is_accepted, is_tx_pending, set_tx_status, is_unsettled,
  update_status_by_tx_hash, update_others_as_failed, get_unsettled, new_row, replacement,
  confirm_row, replace_row, resubmit, by_receipt, check_one, go_on, check_all, check_from,
  check_pending_transaction,
}

-- The table has a row of a nonce and a context.
abbrev pub HasPair : ℕ → ℕ → List PendingTransaction → Type 0
HasPair nonce context [] = ⊥
HasPair nonce context (r ∷ rs) =
    ((r.tx.nonce ≡ nonce) × (r.context_id ≡ context)) ⊎ HasPair nonce context rs

abbrev pub SamePairs : List PendingTransaction → List PendingTransaction → Type 0
SamePairs rows rows' = (n c : ℕ) → HasPair n c rows ↔ HasPair n c rows'

-- Every nonce of the table is used for one context, and the sender's nonce is not in use.
pub record IsNonced (s : Sender) : Type 0 where
  pub unused : (n c : ℕ) → HasPair n c s.rows → n < s.nonce
  pub unique : (n c d : ℕ) → HasPair n c s.rows → HasPair n d s.rows → c ≡ d

update_where-SamePairs :
    (p : PendingTransaction → Bool) (st : TxStatus) (rows : List PendingTransaction)
    → SamePairs rows (update_where p (set_tx_status st) rows)
unfolding update_where
update_where-SamePairs p st [] n c = (λ h. h, λ h. h)
update_where-SamePairs p st (r ∷ rs) n c =
    let rest = update_where-SamePairs p st rs n c in
    if_both
      (λ (x : PendingTransaction).
        HasPair n c (r ∷ rs) ↔ HasPair n c (x ∷ update_where p (set_tx_status st) rs))
      (p r) (λ t. at_head rest) (λ f. at_head rest)
  where
    at_head : {P Q R : Type 0} → (Q ↔ R) → (P ⊎ Q) ↔ (P ⊎ R)
    at_head k = (
      λ h. elim h [ inl a ↦ inl a | inr b ↦ inr (k.0 b) ],
      λ h. elim h [ inl a ↦ inl a | inr b ↦ inr (k.1 b) ],
    )

pub HasPair-snoc :
    (n c : ℕ) (rows : List PendingTransaction) (r : PendingTransaction)
    → HasPair n c (rows ++ r ∷ [])
    → HasPair n c rows ⊎ ((r.tx.nonce ≡ n) × (r.context_id ≡ c))
HasPair-snoc n c [] r (inl e) = inr e
HasPair-snoc n c [] r (inr e) = absurd e
HasPair-snoc n c (x ∷ xs) r (inl e) = inl (inl e)
HasPair-snoc n c (x ∷ xs) r (inr h) = elim (HasPair-snoc n c xs r h) [
  | inl a ↦ inl (inr a)
  | inr b ↦ inr b
]

HasPair-left :
    (n c : ℕ) (rows more : List PendingTransaction) → HasPair n c rows → HasPair n c (rows ++ more)
HasPair-left n c [] more h = absurd h
HasPair-left n c (x ∷ xs) more (inl e) = inl e
HasPair-left n c (x ∷ xs) more (inr h) = inr (HasPair-left n c xs more h)

SamePairs-trans : (a b c : List PendingTransaction) → SamePairs a b → SamePairs b c → SamePairs a c
SamePairs-trans a b c x y n k = (λ h. (y n k).0 ((x n k).0 h), λ h. (x n k).1 ((y n k).1 h))

-- A row for a pair that is there adds none.
snoc-SamePairs :
    (rows : List PendingTransaction) (r : PendingTransaction)
    → HasPair r.tx.nonce r.context_id rows
    → SamePairs rows (rows ++ r ∷ [])
snoc-SamePairs rows r here n c = (
  HasPair-left n c rows (r ∷ []),
  λ h. elim (HasPair-snoc n c rows r h) [
    | inl a ↦ a
    | inr e ↦ subst (λ m. HasPair m c rows) e.0 (subst (λ d. HasPair r.tx.nonce d rows) e.1 here)
  ],
)

-- What a pass keeps.
abbrev pub IsKept : Sender → Sender → Type 0
IsKept s s' = (s'.nonce ≡ s.nonce) × SamePairs s.rows s'.rows

IsKept-refl : (s : Sender) → IsKept s s
IsKept-refl s = (refl, λ n c. (λ h. h, λ h. h))

module _ (cfg : Config) (client : Client) where
  confirm_row-IsKept :
      (r : PendingTransaction) (success : Bool) (s : Sender)
      → IsKept s (confirm_row cfg client r success s).1
  unfolding confirm_row update_status_by_tx_hash update_others_as_failed
  confirm_row-IsKept r success s =
      let hash = client.hash_of r.tx in
      if_both (λ (x : Bool × Sender). IsKept s x.1) (client.transaction_fails hash)
        (λ t. IsKept-refl s)
        (λ f. (
          refl,
          SamePairs-trans s.rows (update_status_by_tx_hash hash tx_confirmed s.rows)
              (update_others_as_failed r.tx.nonce hash
                (update_status_by_tx_hash hash tx_confirmed s.rows))
              (update_where-SamePairs (λ x. x.hash == hash) tx_confirmed s.rows)
              (update_where-SamePairs (λ x. (x.tx.nonce == r.tx.nonce) && not (x.hash == hash))
                tx_confirmed_failed (update_status_by_tx_hash hash tx_confirmed s.rows)),
        ))

  replace_row-IsKept :
      (r : PendingTransaction) (tx : Transaction) (number : ℕ) (s : Sender)
      → tx.nonce ≡ r.tx.nonce
      → HasPair r.tx.nonce r.context_id s.rows
      → IsKept s (replace_row cfg client r tx number s).1
  unfolding replace_row update_status_by_tx_hash
  replace_row-IsKept r tx number s same here =
      let hash = client.hash_of r.tx in
      let rows = update_status_by_tx_hash hash tx_replaced s.rows in
      let kept = update_where-SamePairs (λ x. x.hash == hash) tx_replaced s.rows in
      if_both (λ (x : Bool × Sender). IsKept s x.1) (client.transaction_fails hash)
        (λ t. IsKept-refl s)
        (λ f. (
          refl,
          SamePairs-trans s.rows rows (rows ++ new_row cfg client r.context_id tx number ∷ []) kept
              (snoc-SamePairs rows (new_row cfg client r.context_id tx number) (
                subst (λ n. HasPair n r.context_id rows) (sym same)
                  ((kept r.tx.nonce r.context_id).0 here))),
        ))

  resubmit-IsKept :
      (r : PendingTransaction) (number base_fee blob_base_fee : ℕ) (s : Sender)
      → HasPair r.tx.nonce r.context_id s.rows
      → IsKept s (resubmit cfg client r number base_fee blob_base_fee s).1
  unfolding resubmit
  resubmit-IsKept r number base_fee blob_base_fee s here =
      let hash = client.hash_of r.tx in
      let tx = replacement cfg client base_fee blob_base_fee r.tx in
      let Kept : Bool × Sender → Type 0 = λ x. IsKept s x.1 in
      if_both Kept (client.status_fails hash) (λ t. IsKept-refl s)
        (λ f.
          if_both Kept (is_confirmed_failed (get_tx_status hash s.rows)) (λ t. IsKept-refl s)
            (λ g.
              if_both Kept (is_accepted (client.submit tx))
                (λ t. replace_row-IsKept r tx number s refl here) (λ t. IsKept-refl s)))

  check_one-IsKept :
      (r : PendingTransaction) (confirmed number base_fee blob_base_fee : ℕ) (s : Sender)
      → HasPair r.tx.nonce r.context_id s.rows
      → IsKept s (check_one cfg client r confirmed number base_fee blob_base_fee s).1
  unfolding check_one
  check_one-IsKept r confirmed number base_fee blob_base_fee s here =
      if_both (λ (x : Bool × Sender). IsKept s x.1) (client.decodes r.hash)
        (λ t. at_receipt (client.receipt (client.hash_of r.tx))) (λ f. IsKept-refl s)
    where
      at_receipt :
          (o : Option (ℕ × Bool))
          → IsKept s (by_receipt cfg client o r confirmed number base_fee blob_base_fee s).1
      at_receipt (some (block, success)) =
          if_both (λ (x : Bool × Sender). IsKept s x.1) (leb block confirmed)
            (λ t. confirm_row-IsKept r success s) (λ f. IsKept-refl s)
      at_receipt none =
          if_both (λ (x : Bool × Sender). IsKept s x.1)
            (is_tx_pending r.status && leb (add64 cfg.escalate_blocks r.submit_block_number) number)
            (λ t. resubmit-IsKept r number base_fee blob_base_fee s here) (λ f. IsKept-refl s)

  IsKept-trans : (a b c : Sender) → IsKept a b → IsKept b c → IsKept a c
  IsKept-trans a b c x y = (y.0 ∙ x.0, SamePairs-trans a.rows b.rows c.rows x.1 y.1)

  go_on-IsKept :
      (s : Sender) (x : Bool × Sender) (next : Sender → Sender)
      → IsKept s x.1
      → ((m : Sender) → IsKept s m → IsKept m (next m))
      → IsKept s (go_on cfg client x next)
  go_on-IsKept s (false, m) next k f = k
  go_on-IsKept s (true, m) next k f = IsKept-trans s m (next m) k (f m k)

  check_all-IsKept :
      (rs : List PendingTransaction) (confirmed number base_fee blob_base_fee : ℕ) (s : Sender)
      → All (λ (r : PendingTransaction). HasPair r.tx.nonce r.context_id s.rows) rs
      → IsKept s (check_all cfg client rs confirmed number base_fee blob_base_fee s)
  unfolding check_all
  check_all-IsKept [] confirmed number base_fee blob_base_fee s a = IsKept-refl s
  check_all-IsKept (r ∷ rs) confirmed number base_fee blob_base_fee s a =
      go_on-IsKept s (check_one cfg client r confirmed number base_fee blob_base_fee s)
        (check_all cfg client rs confirmed number base_fee blob_base_fee)
        (check_one-IsKept r confirmed number base_fee blob_base_fee s a.0)
        (λ next k. check_all-IsKept rs confirmed number base_fee blob_base_fee next (
          All-weaken (λ x. HasPair x.tx.nonce x.context_id s.rows)
            (λ x. HasPair x.tx.nonce x.context_id next.rows)
            (λ x h. (k.1 x.tx.nonce x.context_id).0 h) rs a.1))

  All-own :
      (rows : List PendingTransaction)
      → All (λ (r : PendingTransaction). HasPair r.tx.nonce r.context_id rows) rows
  All-own [] = tt
  All-own (r ∷ rs) = (
    inl (refl, refl),
    All-weaken (λ x. HasPair x.tx.nonce x.context_id rs)
        (λ x. HasPair x.tx.nonce x.context_id (r ∷ rs)) (λ x h. inr h) rs (All-own rs),
  )

  get_unsettled-pairs :
      (limit : ℕ) (rows : List PendingTransaction)
      → All
          (λ (r : PendingTransaction). HasPair r.tx.nonce r.context_id rows)
          (get_unsettled limit rows)
  unfolding get_unsettled
  get_unsettled-pairs limit rows =
      let Own : PendingTransaction → Type 0 = λ r. HasPair r.tx.nonce r.context_id rows in
      let test : PendingTransaction → Bool = λ r. is_unsettled r.status in
      let picked = select test rows in
      let sorted = order_by (λ (r : PendingTransaction). r.gas_fee_cap) picked in
      let kept =
        All-weaken (λ r. Own r × (test r ≡ true)) Own (λ r h. h.0) picked
          (All-select Own test rows (All-own rows)) in
      All-take Own limit (order_by (λ (r : PendingTransaction). r.tx.nonce) sorted) (
        All-order_by (λ r. r.tx.nonce) Own sorted
          (All-order_by (λ r. r.gas_fee_cap) Own picked kept))

  IsKept-IsNonced : (s s' : Sender) → IsKept s s' → IsNonced s → IsNonced s'
  IsKept-IsNonced s s' k i = record {
    unused = λ n c h. subst (λ m. n < m) (sym k.0) (i.unused n c ((k.1 n c).1 h));
    unique = λ n c d h g. i.unique n c d ((k.1 n c).1 h) ((k.1 n d).1 g);
  }

  -- Let every nonce of the table be used for one context, and the sender's nonce not be in use.
  -- Then it is so behind checkPendingTransaction, which replaces transactions under their nonce
  -- and context only, whatever the client and the database do.
  pub check_pending-IsNonced :
      (s : Sender) → IsNonced s → IsNonced (check_pending_transaction cfg client s)
  unfolding check_pending_transaction
  check_pending-IsNonced s i =
      if_both IsNonced client.load_fails (λ t. i) (λ f. at_head client.head client.confirmed_block)
    where
      at_head :
          (head : Option (ℕ × ℕ × ℕ)) (confirmed : Option ℕ)
          → IsNonced (check_from cfg client head confirmed s)
      at_head none confirmed = i
      at_head (some head) none = i
      at_head (some (number, base_fee, blob_base_fee)) (some confirmed) =
          let rs = get_unsettled 100 s.rows in
          IsKept-IsNonced s (check_all cfg client rs confirmed number base_fee blob_base_fee s)
            (check_all-IsKept rs confirmed number base_fee blob_base_fee s
              (get_unsettled-pairs 100 s.rows))
            i
