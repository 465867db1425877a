-- ===== src/History/Orders.antt =====
-- The order in which the two layers report a message:
-- bridge-history-api/internal/orm/cross_message.go.
use scroll.Common.{
  ℕ, ◌≡◌, refl, sym, ◌∙◌, ap, true, false, not, Option, none, some, List, [], ◌∷◌, All, if_both,
  Bool-cases, inl, inr, ==_iff, Outcome, ok, ◌>>=◌,
}
use scroll.History.{
  CrossMessage, HistoryError, no_message, l1_sent_message, l2_sent_message, is_terminal,
}
use scroll.History.Messages.{
  upsert_all, with_hash, has_duplicates, merge_from, create, is_open, set_l1_message,
  set_l2_message, set_l1_relayed, set_l2_relayed, insert_or_update_l1_messages,
  insert_or_update_l2_messages, insert_or_update_l2_relayed_messages_of_l1_deposits,
  insert_or_update_l1_relayed_messages_of_l2_withdrawals,
}
use scroll.History.Recorded.{row_of}
use scroll.History.Merging.{
  applied, row_of-upsert_all, has_duplicates-IsUnique, All-merge_from, IsUnique-merge_from,
}

-- What the parsers of L1 and L2 put into a sent message, and into a relayed one.
abbrev pub deposit_form : CrossMessage → CrossMessage
deposit_form m = record no_message {
  l1_block_number = m.l1_block_number;
  transfer = m.transfer;
  l1_tx_hash = m.l1_tx_hash;
  message_nonce = m.message_nonce;
  message_type = l1_sent_message;
  message_hash = m.message_hash;
}

abbrev pub withdrawal_form : CrossMessage → CrossMessage
withdrawal_form m = record no_message {
  l2_block_number = m.l2_block_number;
  transfer = m.transfer;
  call = m.call;
  l2_tx_hash = m.l2_tx_hash;
  message_nonce = m.message_nonce;
  message_type = l2_sent_message;
  message_hash = m.message_hash;
}

abbrev pub relayed_on_l2_form : CrossMessage → CrossMessage
relayed_on_l2_form u = record no_message {
  message_hash = u.message_hash;
  l2_block_number = u.l2_block_number;
  l2_tx_hash = u.l2_tx_hash;
  tx_status = u.tx_status;
  message_type = l1_sent_message;
}

abbrev pub relayed_on_l1_form : CrossMessage → CrossMessage
relayed_on_l1_form u = record no_message {
  message_hash = u.message_hash;
  l1_block_number = u.l1_block_number;
  l1_tx_hash = u.l1_tx_hash;
  tx_status = u.tx_status;
  message_type = l2_sent_message;
}

-- What is found at a hash.
FoundAt : (CrossMessage → Type 0) → ℕ → Option CrossMessage → Type 0
FoundAt P h none = Unit
FoundAt P h (some m) = (m.message_hash ≡ h) × P m

found-All :
    (P : CrossMessage → Type 0) (h : ℕ) (ms : List CrossMessage)
    → All P ms
    → FoundAt P h (row_of h ms)
unfolding row_of FoundAt
found-All P h [] a = tt
found-All P h (m ∷ ms) a =
    if_both (FoundAt P h) (with_hash h m) (λ t. ((==_iff m.message_hash h).0 t, a.0))
      (λ _. found-All P h ms a.1)

module _ (set_sent set_relayed : CrossMessage → CrossMessage → CrossMessage)
    (sent_hash : (m r : CrossMessage) → (set_sent m r).message_hash ≡ r.message_hash)
    (relayed_hash : (m r : CrossMessage) → (set_relayed m r).message_hash ≡ r.message_hash)
    (IsSent IsRelay : CrossMessage → Type 0)
    (sent_open : (m : CrossMessage) → IsSent m → is_open m ≡ true)
    (sent_status : (m r : CrossMessage) → (set_sent m r).tx_status ≡ r.tx_status)
    (at_first : (m u : CrossMessage)
      → IsSent m
      → IsRelay u
      → u.message_hash ≡ m.message_hash
      → set_relayed u m ≡ set_sent m u)
    (at_row : (m u r : CrossMessage)
      → IsSent m
      → IsRelay u
      → set_relayed u (set_sent m r) ≡ set_sent m (set_relayed u r)) where
  applied-commute :
      (h : ℕ) (m u o : Option CrossMessage)
      → FoundAt IsSent h m
      → FoundAt IsRelay h u
      → applied is_open set_relayed u (applied (λ r. true) set_sent m o)
        ≡ applied (λ r. true) set_sent m (applied is_open set_relayed u o)
  unfolding FoundAt
  applied-commute h none u o p q = refl
  applied-commute h (some m) none o p q = refl
  applied-commute h (some m) (some u) none p q =
      rw (sent_open m p.1) (ap some (at_first m u p.1 q.1 (q.0 ∙ sym p.0)))
  applied-commute h (some m) (some u) (some r) p q =
      let open_alike : is_open (set_sent m r) ≡ is_open r =
        ap (λ s. not (is_terminal s)) (sent_status m r) in
      elim (Bool-cases (is_open r)) [
        | inl t ↦ rw (open_alike, t) (ap some (at_row m u r p.1 q.1))
        | inr f ↦ rw (open_alike, f) refl
      ]

  pub tables-commute :
      (h : ℕ) (ms us rows : List CrossMessage)
      → has_duplicates ms ≡ false
      → has_duplicates us ≡ false
      → All IsSent ms
      → All IsRelay us
      → row_of h (upsert_all is_open set_relayed us (upsert_all (λ r. true) set_sent ms rows))
        ≡ row_of h (upsert_all (λ r. true) set_sent ms (upsert_all is_open set_relayed us rows))
  tables-commute h ms us rows d e a b =
      row_of-upsert_all is_open set_relayed relayed_hash h us
        (upsert_all (λ r. true) set_sent ms rows) e
      ∙ ap (applied is_open set_relayed (row_of h us))
          (row_of-upsert_all (λ r. true) set_sent sent_hash h ms rows d)
      ∙ applied-commute h (row_of h ms) (row_of h us) (row_of h rows) (found-All IsSent h ms a)
          (found-All IsRelay h us b)
      ∙ ap (applied (λ r. true) set_sent (row_of h ms))
          (sym (row_of-upsert_all is_open set_relayed relayed_hash h us rows e))
      ∙ sym (
          row_of-upsert_all (λ r. true) set_sent sent_hash h ms
            (upsert_all is_open set_relayed us rows) d)

-- Two ways to write the same messages succeed and leave the same row for each hash.
abbrev pub Agree :
    Outcome HistoryError (List CrossMessage) → Outcome HistoryError (List CrossMessage) → Type 0
Agree one other =
    (a : List CrossMessage) × (b : List CrossMessage) × (one ≡ ok a)
    × (other ≡ ok b)
    × ((h : ℕ) → row_of h a ≡ row_of h b)

-- Deposits, and what L2 reports of them.
pub deposits-Agree :
    (ms us rows : List CrossMessage)
    → has_duplicates ms ≡ false
    → All (λ m. m ≡ deposit_form m) ms
    → All (λ u. u ≡ relayed_on_l2_form u) us
    → Agree
        (insert_or_update_l1_messages ms rows
          >>= insert_or_update_l2_relayed_messages_of_l1_deposits us)
        (insert_or_update_l2_relayed_messages_of_l1_deposits us rows
          >>= insert_or_update_l1_messages ms)
unfolding insert_or_update_l1_messages insert_or_update_l2_relayed_messages_of_l1_deposits create
deposits-Agree ms us rows d a b =
    let merged = merge_from (λ u. u.l2_block_number) [] us in
    let e =
      has_duplicates-IsUnique merged (IsUnique-merge_from (λ u. u.l2_block_number) [] us tt) in
    let first = upsert_all (λ r. true) set_l1_message ms rows in
    let other = upsert_all is_open set_l2_relayed merged rows in
    (
      upsert_all is_open set_l2_relayed merged first,
      upsert_all (λ r. true) set_l1_message ms other,
      rw (d, e) refl,
      rw (e, d) refl,
      λ h.
          tables-commute set_l1_message set_l2_relayed (λ m r. refl) (λ m r. refl)
            (λ m. m ≡ deposit_form m) (λ u. u ≡ relayed_on_l2_form u) (λ m p. ap is_open p)
            (λ m r. refl)
            (λ m u p q g.
              ap (λ c. set_l2_relayed u c) p
              ∙ ap (λ c. set_l2_relayed c (deposit_form m)) q
              ∙ ap
                  (λ k. record (set_l2_relayed (relayed_on_l2_form u) (deposit_form m)) {
                    message_hash = k;
                  })
                  (sym g)
              ∙ sym (ap (λ c. set_l1_message c (relayed_on_l2_form u)) p)
              ∙ sym (ap (λ c. set_l1_message m c) q))
            (λ m u r p q.
              ap (λ t. record (set_l2_relayed u (set_l1_message m r)) { message_type = t })
                (ap (λ c. c.message_type) q ∙ sym (ap (λ c. c.message_type) p)))
            h ms merged rows d e a
            (All-merge_from (λ u. u.l2_block_number) (λ u. u ≡ relayed_on_l2_form u) [] us tt b),
    )

-- Withdrawals, and what L1 reports of them.
pub withdrawals-Agree :
    (ms us rows : List CrossMessage)
    → has_duplicates ms ≡ false
    → All (λ m. m ≡ withdrawal_form m) ms
    → All (λ u. u ≡ relayed_on_l1_form u) us
    → Agree
        (insert_or_update_l2_messages ms rows
          >>= insert_or_update_l1_relayed_messages_of_l2_withdrawals us)
        (insert_or_update_l1_relayed_messages_of_l2_withdrawals us rows
          >>= insert_or_update_l2_messages ms)
unfolding insert_or_update_l2_messages insert_or_update_l1_relayed_messages_of_l2_withdrawals create
withdrawals-Agree ms us rows d a b =
    let merged = merge_from (λ u. u.l1_block_number) [] us in
    let e =
      has_duplicates-IsUnique merged (IsUnique-merge_from (λ u. u.l1_block_number) [] us tt) in
    let first = upsert_all (λ r. true) set_l2_message ms rows in
    let other = upsert_all is_open set_l1_relayed merged rows in
    (
      upsert_all is_open set_l1_relayed merged first,
      upsert_all (λ r. true) set_l2_message ms other,
      rw (d, e) refl,
      rw (e, d) refl,
      λ h.
          tables-commute set_l2_message set_l1_relayed (λ m r. refl) (λ m r. refl)
            (λ m. m ≡ withdrawal_form m) (λ u. u ≡ relayed_on_l1_form u) (λ m p. ap is_open p)
            (λ m r. refl)
            (λ m u p q g.
              ap (λ c. set_l1_relayed u c) p
              ∙ ap (λ c. set_l1_relayed c (withdrawal_form m)) q
              ∙ ap
                  (λ k. record (set_l1_relayed (relayed_on_l1_form u) (withdrawal_form m)) {
                    message_hash = k;
                  })
                  (sym g)
              ∙ sym (ap (λ c. set_l2_message c (relayed_on_l1_form u)) p)
              ∙ sym (ap (λ c. set_l2_message m c) q))
            (λ m u r p q.
              ap (λ t. record (set_l1_relayed u (set_l2_message m r)) { message_type = t })
                (ap (λ c. c.message_type) q ∙ sym (ap (λ c. c.message_type) p)))
            h ms merged rows d e a
            (All-merge_from (λ u. u.l1_block_number) (λ u. u ≡ relayed_on_l1_form u) [] us tt b),
    )
