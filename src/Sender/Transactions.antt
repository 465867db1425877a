-- ===== src/Sender/Transactions.antt =====
-- SendTransaction, createAndSendTx and checkPendingTransaction:
-- rollup/internal/controller/sender/sender.go.
use scroll.Common.{
  ℕ, Bool, true, false, not, ◌&&◌, Option, none, some, List, [], ◌∷◌, ◌++◌, leb, ◌==◌,
  if◌then◌else◌, select, take, update_where, find_first, add64,
}
use scroll.Relayer.Tables.{order_by}
use scroll.Sender.{
  TxStatus, tx_unknown, tx_pending, tx_replaced, tx_confirmed, tx_confirmed_failed, legacy_tx,
  dynamic_fee_tx, Config, FeeData, Transaction, PendingTransaction, Sender, SendResult, accepted,
  nonce_refused, refused, Client,
}
use scroll.Sender.Fees.{bump, get_fee_data}

abbrev pub is_tx_pending : TxStatus → Bool
is_tx_pending s = elim s [ tx_pending ↦ true | _ ↦ false ]

abbrev pub is_unsettled : TxStatus → Bool
is_unsettled s = elim s [ tx_pending ↦ true | tx_replaced ↦ true | _ ↦ false ]

abbrev pub is_confirmed_failed : TxStatus → Bool
is_confirmed_failed s = elim s [ tx_confirmed_failed ↦ true | _ ↦ false ]

abbrev pub set_tx_status : TxStatus → PendingTransaction → PendingTransaction
set_tx_status s r = record r { status = s }

-- UpdatePendingTransactionStatusByTxHash
unfoldable pub update_status_by_tx_hash :
    ℕ → TxStatus → List PendingTransaction → List PendingTransaction
unfolding update_where
update_status_by_tx_hash hash s = update_where (λ r. r.hash == hash) (set_tx_status s)

-- UpdateOtherTransactionsAsFailedByNonce
unfoldable pub update_others_as_failed : ℕ → ℕ → List PendingTransaction → List PendingTransaction
unfolding update_where
update_others_as_failed nonce hash =
    update_where (λ r. (r.tx.nonce == nonce) && not (r.hash == hash))
      (set_tx_status tx_confirmed_failed)

-- GetTxStatusByTxHash
unfoldable pub get_tx_status : ℕ → List PendingTransaction → TxStatus
unfolding find_first
get_tx_status hash rows = elim (find_first (λ r. r.hash == hash) rows) [
  | none ↦ tx_unknown
  | some r ↦ r.status
]

-- GetPendingOrReplacedTransactionsBySenderType: by nonce, then by the fee cap. The query selects a
-- sender type and no address, so it returns just these rows while the type has one address.
unfoldable pub get_unsettled : ℕ → List PendingTransaction → List PendingTransaction
unfolding order_by
get_unsettled limit rows = take limit (
    order_by (λ r. r.tx.nonce)
      (order_by (λ r. r.gas_fee_cap) (select (λ r. is_unsettled r.status) rows)))

-- The row that InsertPendingTransaction makes.
abbrev pub new_row : Config → Client → ℕ → Transaction → ℕ → PendingTransaction
new_row cfg client context_id tx number = record {
  context_id = context_id;
  hash = client.hash_of tx;
  gas_fee_cap = elim cfg.tx_type [
    | legacy_tx ↦ tx.fees.gas_price
    | dynamic_fee_tx ↦ tx.fees.gas_fee_cap
  ];
  tx = tx;
  status = tx_pending;
  submit_block_number = number;
}

abbrev pub insert_row : PendingTransaction → Sender → Sender
insert_row r s = record s { rows = s.rows ++ r ∷ [] }

-- The transaction that createAndSendTx builds: a legacy one has no blob.
abbrev pub new_tx : Config → ℕ → List ℕ → Option (List ℕ) → FeeData → Transaction
new_tx cfg nonce payload blob fees = record {
  nonce = nonce;
  payload = payload;
  blob = elim cfg.tx_type [ legacy_tx ↦ none | dynamic_fee_tx ↦ blob ];
  fees = fees;
}

-- createAndSendTx with the sender's nonce: whether the transaction was sent.
abbrev pub after_submit : SendResult → Option ℕ → Sender → Bool × Sender
after_submit accepted pending s = (true, record s { nonce = add64 s.nonce 1 })
after_submit refused pending s = (false, s)
after_submit nonce_refused none s = (false, s)
after_submit nonce_refused (some n) s = (false, record s { nonce = n })

-- createAndSendTx with the nonce of a transaction that is submitted again.
abbrev pub is_accepted : SendResult → Bool
is_accepted r = elim r [ accepted ↦ true | _ ↦ false ]

-- The record of the new transaction behind a first submission.
abbrev pub after_send : Config → Client → ℕ → ℕ → Transaction → Bool × Sender → Option ℕ × Sender
after_send cfg client context_id number tx (false, s) = (none, s)
after_send cfg client context_id number tx (true, s) =
    if client.insert_fails
    then (none, s)
    else (some (client.hash_of tx), insert_row (new_row cfg client context_id tx number) s)

abbrev pub send_with_fees :
    Config → Client → ℕ → List ℕ → Option (List ℕ) → ℕ → Option FeeData → Sender → Option ℕ × Sender
send_with_fees cfg client context_id payload blob number none s = (none, s)
send_with_fees cfg client context_id payload blob number (some fees) s =
    let tx = new_tx cfg s.nonce payload blob fees in
    after_send cfg client context_id number tx
      (after_submit (client.submit tx) client.pending_nonce s)

abbrev pub is_some : Option (List ℕ) → Bool
is_some none = false
is_some (some b) = true

abbrev pub send_at :
    Config
    → Client
    → ℕ
    → List ℕ
    → Option (List ℕ)
    → ℕ
    → Option (ℕ × ℕ × ℕ)
    → Sender
    → Option ℕ × Sender
send_at cfg client context_id payload blob fallback none s = (none, s)
send_at cfg client context_id payload blob fallback (some (number, base_fee, blob_base_fee)) s =
    send_with_fees cfg client context_id payload blob number
      (get_fee_data cfg client blob base_fee blob_base_fee fallback) s

-- SendTransaction: the hash, if the transaction was sent and recorded.
unfoldable pub send_transaction :
    Config → Client → ℕ → List ℕ → Option (List ℕ) → ℕ → Sender → Option ℕ × Sender
unfolding get_fee_data
send_transaction cfg client context_id payload blob fallback s =
    if is_some blob && not client.sidecar_made
    then (none, s)
    else send_at cfg client context_id payload blob fallback client.head s

module _ (cfg : Config) (client : Client) where
  -- The transaction that replaces another: the same nonce and payload with higher fees.
  abbrev pub replacement : ℕ → ℕ → Transaction → Transaction
  replacement base_fee blob_base_fee tx =
      new_tx cfg tx.nonce tx.payload tx.blob (bump cfg base_fee blob_base_fee tx)

  -- The update of the rows behind a confirmation, and its message. The first component says
  -- whether the loop goes on.
  unfoldable pub confirm_row : PendingTransaction → Bool → Sender → Bool × Sender
  unfolding update_status_by_tx_hash update_others_as_failed
  confirm_row r success s =
      let hash = client.hash_of r.tx in
      if client.transaction_fails hash then (false, s) else (
        true,
        record s {
          rows =
              update_others_as_failed r.tx.nonce hash
                (update_status_by_tx_hash hash tx_confirmed s.rows);
          confirmed =
              record {
                sender_type = client.sender_type;
                context_id = r.context_id;
                is_successful = success;
                tx_hash = hash;
              }
              ∷ s.confirmed;
        },
      )

  -- The update of the rows behind a new submission.
  unfoldable pub replace_row : PendingTransaction → Transaction → ℕ → Sender → Bool × Sender
  unfolding update_status_by_tx_hash
  replace_row r tx number s =
      let hash = client.hash_of r.tx in
      if client.transaction_fails hash then (false, s) else (
        true,
        insert_row (new_row cfg client r.context_id tx number)
            (record s { rows = update_status_by_tx_hash hash tx_replaced s.rows }),
      )

  -- A new submission, unless the row has failed meanwhile.
  unfoldable pub resubmit : PendingTransaction → ℕ → ℕ → ℕ → Sender → Bool × Sender
  unfolding get_tx_status bump replace_row
  resubmit r number base_fee blob_base_fee s =
      let hash = client.hash_of r.tx in
      let tx = replacement base_fee blob_base_fee r.tx in
      if client.status_fails hash
      then (false, s)
      else if is_confirmed_failed (get_tx_status hash s.rows)
      then (true, s)
      else if is_accepted (client.submit tx)
      then replace_row r tx number s
      else (true, s)

  -- The choice by the receipt.
  abbrev pub by_receipt :
      Option (ℕ × Bool) → PendingTransaction → ℕ → ℕ → ℕ → ℕ → Sender → Bool × Sender
  by_receipt (some (block, success)) r confirmed number base_fee blob_base_fee s =
      if leb block confirmed then confirm_row r success s else (true, s)
  by_receipt none r confirmed number base_fee blob_base_fee s =
      if is_tx_pending r.status && leb (add64 cfg.escalate_blocks r.submit_block_number) number
      then resubmit r number base_fee blob_base_fee s
      else (true, s)

  -- A round of the loop.
  unfoldable pub check_one : PendingTransaction → ℕ → ℕ → ℕ → ℕ → Sender → Bool × Sender
  unfolding confirm_row resubmit
  check_one r confirmed number base_fee blob_base_fee s =
      if client.decodes r.hash
      then by_receipt (client.receipt (client.hash_of r.tx)) r confirmed number base_fee
          blob_base_fee s
      else (true, s)

  abbrev pub go_on : Bool × Sender → (Sender → Sender) → Sender
  go_on (true, s) next = next s
  go_on (false, s) next = s

  unfoldable pub check_all : List PendingTransaction → ℕ → ℕ → ℕ → ℕ → Sender → Sender
  unfolding check_one
  check_all [] confirmed number base_fee blob_base_fee s = s
  check_all (r ∷ rs) confirmed number base_fee blob_base_fee s =
      go_on (check_one r confirmed number base_fee blob_base_fee s)
        (check_all rs confirmed number base_fee blob_base_fee)

  abbrev pub check_from : Option (ℕ × ℕ × ℕ) → Option ℕ → Sender → Sender
  check_from none confirmed s = s
  check_from (some head) none s = s
  check_from (some (number, base_fee, blob_base_fee)) (some confirmed) s =
      check_all (get_unsettled 100 s.rows) confirmed number base_fee blob_base_fee s

  -- checkPendingTransaction
  unfoldable pub check_pending_transaction : Sender → Sender
  unfolding get_unsettled check_all
  check_pending_transaction s =
      if client.load_fails then s else check_from client.head client.confirmed_block s
