-- ===== src/History/Reports.antt =====
-- What the fetchers of the two layers report of one message:
-- bridge-history-api/internal/logic/{l1,l2}_fetcher.go.
use scroll.Common.{
  ℕ, ◌≡◌, refl, ap, subst, false, not, Option, none, some, List, [], ◌∷◌, All, if_both, Outcome, ok,
  err, ◌>>=◌,
}
use scroll.History.{CrossMessage}
use scroll.History.Messages.{
  has_duplicates, insert_or_update_l1_messages, insert_or_update_l2_messages,
  insert_or_update_l2_relayed_messages_of_l1_deposits,
  insert_or_update_l1_relayed_messages_of_l2_withdrawals,
}
use scroll.History.Parsing.{Decoder, ParseError, Parsed}
use scroll.History.Parsers.{
  parse_l1_cross_chain_event_logs, parse_l2_event_logs, parse_l1_batch_event_logs,
  parse_l1_message_queue_event_logs,
}
use scroll.History.Saves.{L1FilterResult, L2FilterResult}
use scroll.History.Fetching.{
  Node, ChainBlock, ChainTx, Receipt, Fetch, fetch_failed, reorged, fetched, bind_fetch,
  bind_option, parsed_ok, get_blocks_and_detect_reorg, l1_reverted_txs, l2_reverted_txs,
  l2_reverted_in, l2_reverted_one, put_relay, put_user_tx, timestamp_in, is_transaction_to_gateway,
}
use scroll.History.Fetchers.{l1_fetcher, l2_fetcher, l1_reorg_safe_depth, l2_reorg_safe_depth}
use scroll.History.Orders.{
  deposit_form, withdrawal_form, relayed_on_l1_form, relayed_on_l2_form, Agree, deposits-Agree,
  withdrawals-Agree,
}
use scroll.History.Forms.{All-append, parse_l1-Formed, parse_l2-Formed}

-- What a chain of calls that succeeded went through.
pub bind_option-eq-some :
    {A : Type 0} {B : Type 0} (o : Option A) (next : A → Option B) {b : B}
    → bind_option o next ≡ some b
    → (a : A) × (o ≡ some a) × (next a ≡ some b)
bind_option-eq-some none next e = absurd (cc)
bind_option-eq-some (some a) next e = (a, refl, e)

fetched-option :
    {A : Type 0} {B : Type 0} (o : Option B) (a : A) (h : ℕ) {hash : ℕ} {b : B}
    → (elim o [ none ↦ fetch_failed | some c ↦ fetched h c ]) ≡ fetched hash b
    → (h ≡ hash) × (o ≡ some b)
fetched-option none a h e = absurd (cc)
fetched-option (some c) a h e = (cc, cc)

bind_fetch-eq-fetched :
    {A : Type 0} {B : Type 0} (f : Fetch A) (next : A → Option B) {hash : ℕ} {b : B}
    → bind_fetch f next ≡ fetched hash b
    → (a : A) × (f ≡ fetched hash a) × (next a ≡ some b)
bind_fetch-eq-fetched fetch_failed next e = absurd (cc)
bind_fetch-eq-fetched (reorged height h) next e = absurd (cc)
bind_fetch-eq-fetched (fetched h a) next e =
    let (same, found) = fetched-option (next a) a h e in (a, ap (λ k. fetched k a) same, found)

parsed_ok-eq-some :
    {A : Type 0} (o : Outcome ParseError A) {a : A} → parsed_ok o ≡ some a → o ≡ ok a
parsed_ok-eq-some (ok b) e = cc
parsed_ok-eq-some (err why) e = absurd (cc)

pub some-injective : {A : Type 0} {a b : A} → ◌≡◌ {A = Option A} (some a) (some b) → a ≡ b
some-injective e = cc

module _ (node : Node) (gateways : List ℕ) where
  abbrev IsRelays : Parsed → Type 0
  IsRelays r = All (λ u. u ≡ relayed_on_l2_form u) r.1

  put_relay-IsRelays :
      (tx : ChainTx) (message_hash : ℕ) (receipt : Option Receipt) (rest : Option Parsed)
      (out : Parsed)
      → ((r : Parsed) → rest ≡ some r → IsRelays r)
      → put_relay node tx message_hash receipt rest ≡ some out
      → IsRelays out
  put_relay-IsRelays tx message_hash none rest out k e = absurd (cc)
  put_relay-IsRelays tx message_hash (some receipt) rest out k e0 =
      if_both (λ (o : Option Parsed). o ≡ some out → IsRelays out) receipt.failed
        (λ _ e.
          let (r, e1, run) = bind_option-eq-some rest _ e in
          subst IsRelays (some-injective run) (refl, k r e1))
        (λ _ e. k out e) e0

  put_user_tx-IsRelays :
      (tx : ChainTx) (time : ℕ) (receipt : Option Receipt) (rest : Option Parsed) (out : Parsed)
      → ((r : Parsed) → rest ≡ some r → IsRelays r)
      → put_user_tx node tx time receipt rest ≡ some out
      → IsRelays out
  put_user_tx-IsRelays tx time none rest out k e = absurd (cc)
  put_user_tx-IsRelays tx time (some receipt) rest out k e0 =
      if_both (λ (o : Option Parsed). o ≡ some out → IsRelays out) receipt.failed
        (λ _ e.
          let (sender, e2, run0) = bind_option-eq-some tx.sender _ e in
          let (r, e1, run) = bind_option-eq-some rest _ run0 in
          subst IsRelays (some-injective run) (k r e1))
        (λ _ e. k out e) e0

  l2_reverted_one-IsRelays :
      (time : ℕ) (tx : ChainTx) (l1_message : Option ℕ) (rest : Option Parsed) (out : Parsed)
      → ((r : Parsed) → rest ≡ some r → IsRelays r)
      → l2_reverted_one node gateways time tx l1_message rest ≡ some out
      → IsRelays out
  l2_reverted_one-IsRelays time tx (some message_hash) rest out k =
      put_relay-IsRelays tx message_hash (node.transaction_receipt tx.hash) rest out k
  l2_reverted_one-IsRelays time tx none rest out k =
      if_both (λ (o : Option Parsed). o ≡ some out → IsRelays out)
        (not (is_transaction_to_gateway tx gateways)) (λ _ e. k out e)
        (λ _ e. put_user_tx-IsRelays tx time (node.transaction_receipt tx.hash) rest out k e)

  l2_reverted_in-IsRelays :
      (time : ℕ) (txs : List ChainTx) (out : Parsed)
      → l2_reverted_in node gateways time txs ≡ some out
      → IsRelays out
  unfolding l2_reverted_in
  l2_reverted_in-IsRelays time [] out e = subst IsRelays (some-injective e) tt
  l2_reverted_in-IsRelays time (tx ∷ txs) out e =
      l2_reverted_one-IsRelays time tx tx.l1_message (l2_reverted_in node gateways time txs) out
        (l2_reverted_in-IsRelays time txs) e

  l2_reverted_txs-IsRelays :
      (blocks : List ChainBlock) (out : Parsed)
      → l2_reverted_txs node gateways blocks ≡ some out
      → IsRelays out
  unfolding l2_reverted_txs
  l2_reverted_txs-IsRelays [] out e = subst IsRelays (some-injective e) tt
  l2_reverted_txs-IsRelays (b ∷ bs) out e =
      let (here, e1, run1) =
        bind_option-eq-some (l2_reverted_in node gateways b.time b.transactions) _ e in
      let (rest, e2, run2) = bind_option-eq-some (l2_reverted_txs node gateways bs) _ run1 in
      subst IsRelays (some-injective run2) (
        All-append (λ u. u ≡ relayed_on_l2_form u) here.1 rest.1
          (l2_reverted_in-IsRelays b.time b.transactions here e1)
          (l2_reverted_txs-IsRelays bs rest e2))

module _ (node : Node) (d : Decoder) (gateways : List ℕ) (from to last hash : ℕ) where
  l1_fetcher-Formed :
      (result : L1FilterResult)
      → l1_fetcher node d gateways from to last ≡ fetched hash result
      → All (λ m. m ≡ deposit_form m) result.deposit_messages
        × All (λ u. u ≡ relayed_on_l1_form u) result.relayed_messages
  unfolding l1_fetcher
  l1_fetcher-Formed result run =
      let (blocks, e1, run1) =
        bind_fetch-eq-fetched (get_blocks_and_detect_reorg node l1_reorg_safe_depth from to last) _
          run in
      let (reverted, e2, run2) =
        bind_option-eq-some (l1_reverted_txs node gateways blocks) _ run1 in
      let (logs, e3, run3) = bind_option-eq-some (node.filter_logs from to) _ run2 in
      let parse = parse_l1_cross_chain_event_logs d (timestamp_in blocks) logs in
      let (messages, e4, run4) = bind_option-eq-some (parsed_ok parse) _ run3 in
      let (batches, e5, run5) =
        bind_option-eq-some (parsed_ok (parse_l1_batch_event_logs d logs)) _ run4 in
      let (queue, e6, run6) =
        bind_option-eq-some (parsed_ok (parse_l1_message_queue_event_logs d logs messages.0)) _
          run5 in
      subst
        (λ (r : L1FilterResult).
          All (λ m. m ≡ deposit_form m) r.deposit_messages
          × All (λ u. u ≡ relayed_on_l1_form u) r.relayed_messages)
        (some-injective run6)
        (parse_l1-Formed d (timestamp_in blocks) logs messages (parsed_ok-eq-some parse e4))

  l2_fetcher-Formed :
      (result : L2FilterResult)
      → l2_fetcher node d gateways from to last ≡ fetched hash result
      → All (λ m. m ≡ withdrawal_form m) result.withdraw_messages
        × All (λ u. u ≡ relayed_on_l2_form u) result.relayed_messages
  unfolding l2_fetcher
  l2_fetcher-Formed result run =
      let (blocks, e1, run1) =
        bind_fetch-eq-fetched (get_blocks_and_detect_reorg node l2_reorg_safe_depth from to last) _
          run in
      let (reverted, e2, run2) =
        bind_option-eq-some (l2_reverted_txs node gateways blocks) _ run1 in
      let (logs, e3, run3) = bind_option-eq-some (node.filter_logs from to) _ run2 in
      let parse = parse_l2_event_logs d (timestamp_in blocks) logs in
      let (messages, e4, run4) = bind_option-eq-some (parsed_ok parse) _ run3 in
      let formed =
        parse_l2-Formed d (timestamp_in blocks) logs messages (parsed_ok-eq-some parse e4) in
      subst
        (λ (r : L2FilterResult).
          All (λ m. m ≡ withdrawal_form m) r.withdraw_messages
          × All (λ u. u ≡ relayed_on_l2_form u) r.relayed_messages)
        (some-injective run4)
        (
          formed.0,
          All-append (λ u. u ≡ relayed_on_l2_form u) messages.1 reverted.1 formed.1
              (l2_reverted_txs-IsRelays node gateways blocks reverted e2),
        )

-- Let the fetchers of L1 and of L2 succeed on any ranges, neither with two sent messages of one
-- hash. Then it does not matter which layer is saved first: the deposits of L1 and the messages
-- that L2 relayed or reverted can be written in both orders, both succeed on any table, and leave
-- the same row for each hash; and the same holds for the withdrawals of L2 and the messages that
-- L1 relayed.
pub reports-Agree :
    (node1 node2 : Node) (d1 d2 : Decoder) (gateways1 gateways2 : List ℕ)
    (from1 to1 last1 hash1 from2 to2 last2 hash2 : ℕ) (one : L1FilterResult) (two : L2FilterResult)
    (rows : List CrossMessage)
    → l1_fetcher node1 d1 gateways1 from1 to1 last1 ≡ fetched hash1 one
    → l2_fetcher node2 d2 gateways2 from2 to2 last2 ≡ fetched hash2 two
    → has_duplicates one.deposit_messages ≡ false
    → has_duplicates two.withdraw_messages ≡ false
    → Agree
        (insert_or_update_l1_messages one.deposit_messages rows
          >>= insert_or_update_l2_relayed_messages_of_l1_deposits two.relayed_messages)
        (insert_or_update_l2_relayed_messages_of_l1_deposits two.relayed_messages rows
          >>= insert_or_update_l1_messages one.deposit_messages)
      × Agree
          (insert_or_update_l2_messages two.withdraw_messages rows
            >>= insert_or_update_l1_relayed_messages_of_l2_withdrawals one.relayed_messages)
          (insert_or_update_l1_relayed_messages_of_l2_withdrawals one.relayed_messages rows
            >>= insert_or_update_l2_messages two.withdraw_messages)
reports-Agree node1 node2 d1 d2 gateways1 gateways2 from1 to1 last1 hash1 from2 to2 last2 hash2 one
      two rows run1 run2 u1 u2 =
    let f1 = l1_fetcher-Formed node1 d1 gateways1 from1 to1 last1 hash1 one run1 in
    let f2 = l2_fetcher-Formed node2 d2 gateways2 from2 to2 last2 hash2 two run2 in
    (
      deposits-Agree one.deposit_messages two.relayed_messages rows u1 f1.0 f2.1,
      withdrawals-Agree two.withdraw_messages one.relayed_messages rows u2 f2.0 f1.1,
    )
