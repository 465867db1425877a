-- ===== src/History/Forms.antt =====
-- The form of the messages that the fetchers hand on:
-- bridge-history-api/internal/logic/{l1,l2}_{event_parser,fetcher}.go.
use scroll.Common.{ℕ, ◌≡◌, refl, ap, subst, List, [], ◌∷◌, ◌++◌, All, ok, >>=-eq-ok, ok-injective}
use scroll.History.{tx_relayed, tx_failed_relayed, CrossMessage, TxStatusType, Transfer}
use scroll.History.Parsing.{
  Topic, eth_moved, erc20_moved, erc721_moved, batch_erc721_moved, erc1155_moved,
  batch_erc1155_moved, message_sent, message_relayed, message_failed_relayed, Log, TokenEvent,
  SentEvent, Decoder, Parsed, on_last, set_transfer, unpacked, l1_sent, l2_sent, relayed_on_l1,
  relayed_on_l2,
}
use scroll.History.Parsers.{
  parse_message_log, parse_message_logs, parse_l1_cross_chain_event_logs, parse_l2_event_logs,
  put_moved, put_relayed, put_sent, get_real_from_address,
}
use scroll.History.Orders.{deposit_form, withdrawal_form, relayed_on_l1_form, relayed_on_l2_form}

module _ {A : Type 0} (P : A → Type 0) where
  pub All-append : (xs ys : List A) → All P xs → All P ys → All P (xs ++ ys)
  All-append [] ys p q = q
  All-append (x ∷ xs) ys p q = (p.0, All-append xs ys p.1 q)

module _ (d : Decoder) (timestamp : ℕ → ℕ) (sent_of : Log → SentEvent → ℕ → ℕ → ℕ → CrossMessage)
    (relayed_of : TxStatusType → Log → ℕ → CrossMessage) (P R : CrossMessage → Type 0)
    (sent_P : (log : Log) (e : SentEvent) (f t h : ℕ) → P (sent_of log e f t h))
    (relayed_R : (s : TxStatusType) (log : Log) (h : ℕ) → R (relayed_of s log h))
    (moved_P : (m : CrossMessage) (t : Transfer) → P m → P (record m { transfer = t })) where
  on_last-All :
      (topic : Topic) (e : TokenEvent) (ms out : List CrossMessage)
      → on_last (λ m. record m { transfer = set_transfer topic e m.transfer }) ms ≡ ok out
      → All P ms
      → All P out
  unfolding on_last
  on_last-All topic e [] out run a = absurd (cc)
  on_last-All topic e (m ∷ []) out run a =
      subst (All P) (ok-injective run) (moved_P m (set_transfer topic e m.transfer) a.0, tt)
  on_last-All topic e (m ∷ n ∷ ms) out run a =
      let (rest, e1, e2) =
        >>=-eq-ok (on_last (λ c. record c { transfer = set_transfer topic e c.transfer }) (n ∷ ms))
          (λ rest. ok (m ∷ rest)) run in
      subst (All P) (ok-injective e2) (a.0, on_last-All topic e (n ∷ ms) rest e1 a.1)

  put_moved-Formed :
      (topic : Topic) (log : Log) (r out : Parsed)
      → put_moved d timestamp sent_of relayed_of topic log r ≡ ok out
      → All P r.0 × All R r.1
      → All P out.0 × All R out.1
  put_moved-Formed topic log (sent, relayed) out run f =
      let (e, e1, run1) = >>=-eq-ok (unpacked (d.unpack_token log)) _ run in
      let (changed, e2, run2) =
        >>=-eq-ok (on_last (λ m. record m { transfer = set_transfer topic e m.transfer }) sent) _
          run1 in
      subst (λ (o : Parsed). All P o.0 × All R o.1) (ok-injective run2)
        (on_last-All topic e sent changed e2 f.0, f.1)

  put_relayed-Formed :
      (status : TxStatusType) (log : Log) (r out : Parsed)
      → put_relayed d timestamp sent_of relayed_of status log r ≡ ok out
      → All P r.0 × All R r.1
      → All P out.0 × All R out.1
  put_relayed-Formed status log (sent, relayed) out run f =
      let (h, e1, run1) = >>=-eq-ok (unpacked (d.unpack_hash log)) _ run in
      subst (λ (o : Parsed). All P o.0 × All R o.1) (ok-injective run1)
        (f.0, All-append R relayed (relayed_of status log h ∷ []) f.1 (relayed_R status log h, tt))

  put_sent-Formed :
      (log : Log) (event : SentEvent) (r out : Parsed)
      → put_sent d timestamp sent_of relayed_of log r event ≡ ok out
      → All P r.0 × All R r.1
      → All P out.0 × All R out.1
  put_sent-Formed log event (sent, relayed) out run f =
      let (from, e1, run1) = >>=-eq-ok (get_real_from_address d log event) _ run in
      subst (λ (o : Parsed). All P o.0 × All R o.1) (ok-injective run1)
        (
          All-append P sent _ f.0 (
            sent_P log event from (timestamp log.block_number) (d.compute_message_hash event),
            tt,
          ),
          f.1,
        )

  parse_message_log-Formed :
      (topic : Topic) (log : Log) (r out : Parsed)
      → parse_message_log d timestamp sent_of relayed_of topic log r ≡ ok out
      → All P r.0 × All R r.1
      → All P out.0 × All R out.1
  unfolding parse_message_log
  parse_message_log-Formed eth_moved log r out run f = put_moved-Formed eth_moved log r out run f
  parse_message_log-Formed erc20_moved log r out run f =
      put_moved-Formed erc20_moved log r out run f
  parse_message_log-Formed erc721_moved log r out run f =
      put_moved-Formed erc721_moved log r out run f
  parse_message_log-Formed batch_erc721_moved log r out run f =
      put_moved-Formed batch_erc721_moved log r out run f
  parse_message_log-Formed erc1155_moved log r out run f =
      put_moved-Formed erc1155_moved log r out run f
  parse_message_log-Formed batch_erc1155_moved log r out run f =
      put_moved-Formed batch_erc1155_moved log r out run f
  parse_message_log-Formed message_sent log r out run f =
      let (event, e1, run1) = >>=-eq-ok (unpacked (d.unpack_sent log)) _ run in
      put_sent-Formed log event r out run1 f
  parse_message_log-Formed message_relayed log r out run f =
      put_relayed-Formed tx_relayed log r out run f
  parse_message_log-Formed message_failed_relayed log r out run f =
      put_relayed-Formed tx_failed_relayed log r out run f
  parse_message_log-Formed _ log r out run f =
      subst (λ (o : Parsed). All P o.0 × All R o.1) (ok-injective run) f

  -- What every sent and every relayed message of a parse has.
  pub parse_message_logs-Formed :
      (logs : List Log) (r out : Parsed)
      → parse_message_logs d timestamp sent_of relayed_of logs r ≡ ok out
      → All P r.0 × All R r.1
      → All P out.0 × All R out.1
  unfolding parse_message_logs
  parse_message_logs-Formed [] r out run f =
      subst (λ (o : Parsed). All P o.0 × All R o.1) (ok-injective run) f
  parse_message_logs-Formed (log ∷ logs) r out run f =
      let (next, e1, run1) =
        >>=-eq-ok (parse_message_log d timestamp sent_of relayed_of log.topic log r) _ run in
      parse_message_logs-Formed logs next out run1
        (parse_message_log-Formed log.topic log r next e1 f)

pub parse_l1-Formed :
    (d : Decoder) (timestamp : ℕ → ℕ) (logs : List Log) (out : Parsed)
    → parse_l1_cross_chain_event_logs d timestamp logs ≡ ok out
    → All (λ m. m ≡ deposit_form m) out.0 × All (λ u. u ≡ relayed_on_l1_form u) out.1
unfolding parse_l1_cross_chain_event_logs
parse_l1-Formed d timestamp logs out run =
    parse_message_logs-Formed d timestamp l1_sent relayed_on_l1 (λ m. m ≡ deposit_form m)
      (λ u. u ≡ relayed_on_l1_form u) (λ log e f t h. refl) (λ s log h. refl)
      (λ m t p. ap (λ (c : CrossMessage). record c { transfer = t }) p) logs ([], []) out run
      (tt, tt)

pub parse_l2-Formed :
    (d : Decoder) (timestamp : ℕ → ℕ) (logs : List Log) (out : Parsed)
    → parse_l2_event_logs d timestamp logs ≡ ok out
    → All (λ m. m ≡ withdrawal_form m) out.0 × All (λ u. u ≡ relayed_on_l2_form u) out.1
unfolding parse_l2_event_logs
parse_l2-Formed d timestamp logs out run =
    parse_message_logs-Formed d timestamp l2_sent relayed_on_l2 (λ m. m ≡ withdrawal_form m)
      (λ u. u ≡ relayed_on_l2_form u) (λ log e f t h. refl) (λ s log h. refl)
      (λ m t p. ap (λ (c : CrossMessage). record c { transfer = t }) p) logs ([], []) out run
      (tt, tt)
