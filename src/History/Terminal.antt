-- ===== src/History/Terminal.antt =====
-- What becomes of a relayed or dropped message: bridge-history-api/internal/orm/cross_message.go
-- and bridge-history-api/internal/logic/event_update.go.
use scroll.Common.{
  ℕ, ◌≡◌, refl, ◌∙◌, ap, Bool, true, Option, none, some, List, [], ◌∷◌, if_both, update_where,
  find_first, ◌==◌,
}
use scroll.History.{CrossMessage, TxStatusType, Db, Statement, is_terminal}
use scroll.History.Messages.{upsert, with_hash}
use scroll.History.Keeps.{Respects, IsStable}
use scroll.History.Steps.{Steps, Steps-keep}

-- The status in the row of a hash.
abbrev pub status_from : Option CrossMessage → Option TxStatusType
status_from none = none
status_from (some m) = some m.tx_status

unfoldable pub status_of : ℕ → List CrossMessage → Option TxStatusType
unfolding find_first
status_of h rows = status_from (find_first (with_hash h) rows)

module _ (h : ℕ) (s : TxStatusType) (final : is_terminal s ≡ true) where
  -- A row that keeps its hash, and its status when that is terminal.
  settled-row :
      (r after : CrossMessage) (rows rest : List CrossMessage)
      → after.message_hash ≡ r.message_hash
      → (is_terminal r.tx_status ≡ true → after.tx_status ≡ r.tx_status)
      → (status_of h rows ≡ some s → status_of h rest ≡ some s)
      → status_of h (r ∷ rows) ≡ some s
      → status_of h (after ∷ rest) ≡ some s
  unfolding status_of
  settled-row r after rows rest same keep below e =
      if_both
        (λ (o : Option CrossMessage). status_from o ≡ some s → status_of h (after ∷ rest) ≡ some s)
        (with_hash h r)
        (λ t g.
          let at : r.tx_status ≡ s = cc in
          let kept : after.tx_status ≡ s = keep (ap is_terminal at ∙ final) ∙ at in
          rw (same, t) (ap some kept))
        (λ f g. rw (same, f) (below g)) e

  settled-upsert :
      (may : CrossMessage → Bool) (set : CrossMessage → CrossMessage → CrossMessage)
      → ((m : CrossMessage) → Respects may (set m))
      → (m : CrossMessage) (rows : List CrossMessage) → status_of h rows ≡ some s
      → status_of h (upsert may set m rows) ≡ some s
  unfolding status_of upsert
  settled-upsert may set k m [] e = absurd (cc)
  settled-upsert may set k m (r ∷ rows) e =
      if_both (λ (t : List CrossMessage). status_of h t ≡ some s) (r.message_hash == m.message_hash)
        (λ _.
          if_both (λ (c : CrossMessage). status_of h (c ∷ rows) ≡ some s) (may r)
            (λ t. settled-row r (set m r) rows rows (k m r t).0 (k m r t).1 (λ g. g) e) (λ _. e))
        (λ _.
          settled-row r r rows (upsert may set m rows) refl (λ _. refl)
            (settled-upsert may set k m rows) e)

  settled-update_where :
      (p : CrossMessage → Bool) (f : CrossMessage → CrossMessage)
      → Respects p f
      → (rows : List CrossMessage) → status_of h rows ≡ some s
      → status_of h (update_where p f rows) ≡ some s
  unfolding status_of update_where
  settled-update_where p f k [] e = e
  settled-update_where p f k (r ∷ rows) e =
      let rest = settled-update_where p f k rows in
      if_both (λ (c : CrossMessage). status_of h (c ∷ update_where p f rows) ≡ some s) (p r)
        (λ t. settled-row r (f r) rows (update_where p f rows) (k r t).0 (k r t).1 rest e)
        (λ _. settled-row r r rows (update_where p f rows) refl (λ _. refl) rest e)

  settled-IsStable : IsStable (λ rows. status_of h rows ≡ some s)
  settled-IsStable = record { upserted = settled-upsert; changed = settled-update_where }

module _ (fails : Statement → Db → Bool) (keccak2 : ℕ → ℕ → ℕ) where
  -- Once the row of a message has the status relayed or dropped, it has this status after any
  -- sequence of calls of L1InsertOrUpdate, L2InsertOrUpdate and UpdateL1BatchIndexAndStatus, also
  -- when calls fail at any of their statements.
  pub terminal-Steps :
      (h : ℕ) (s : TxStatusType) (before after : Db)
      → is_terminal s ≡ true
      → status_of h before.messages ≡ some s
      → Steps fails keccak2 before after
      → status_of h after.messages ≡ some s
  terminal-Steps h s before after final e steps =
      Steps-keep fails keccak2 (λ rows. status_of h rows ≡ some s) (settled-IsStable h s final)
        before after steps e
