-- ===== src/History/Keeps.antt =====
-- What a change of the cross messages keeps, call by call:
-- bridge-history-api/internal/orm/cross_message.go.
use scroll.Common.{
  ◌≡◌, refl, Bool, true, false, none, some, List, [], ◌∷◌, if_both, update_where, Outcome, ok, err,
  map,
}
use scroll.History.{
  CrossMessage, BatchEvent, Db, Statement, write_messages, write_batch_events, HistoryError, Run,
  and_then, each, is_terminal,
}
use scroll.History.Messages.{upsert, upsert_all, create, has_duplicates}
use scroll.History.Updates.{on_messages}
use scroll.History.Events.{on_events}
use scroll.History.Saves.{creating, inserting, created}

-- A change of rows that leaves their hashes, and their statuses once these are terminal.
abbrev pub Respects : (CrossMessage → Bool) → (CrossMessage → CrossMessage) → Type 0
Respects p f =
    (r : CrossMessage)
    → p r ≡ true
    → ((f r).message_hash ≡ r.message_hash)
      × (is_terminal r.tx_status ≡ true → (f r).tx_status ≡ r.tx_status)

-- A property of the table that such changes keep, and inserts that respect it.
pub record IsStable (P : List CrossMessage → Type 0) : Type 0 where
  pub upserted :
      (may : CrossMessage → Bool) (set : CrossMessage → CrossMessage → CrossMessage)
      → ((m : CrossMessage) → Respects may (set m))
      → (m : CrossMessage) (rows : List CrossMessage) → P rows
      → P (upsert may set m rows)
  pub changed :
      (p : CrossMessage → Bool) (f : CrossMessage → CrossMessage)
      → Respects p f
      → (rows : List CrossMessage) → P rows
      → P (update_where p f rows)

module _ (P : List CrossMessage → Type 0) where
  -- A call keeps it, whether it fails or not.
  abbrev pub Keeps : (Db → Run) → Type 0
  Keeps f = (db : Db) → P db.messages → P (f db).0.messages

  pub Keeps-and_then :
      (run : Run) (next : Db → Run)
      → P run.0.messages
      → Keeps next
      → P (and_then run next).0.messages
  Keeps-and_then (db, none) next h k = k db h
  Keeps-and_then (db, some e) next h k = h

  pub Keeps-each :
      {A : Type 0} (step : A → Db → Run)
      → ((a : A) → Keeps (step a))
      → (xs : List A) → Keeps (each step xs)
  unfolding each
  Keeps-each step k [] db h = h
  Keeps-each step k (x ∷ xs) db h =
      Keeps-and_then (step x db) (each step xs) (k x db h) (Keeps-each step k xs)

  module _ (fails : Statement → Db → Bool) where
    pub Keeps-on_messages :
        (change : List CrossMessage → List CrossMessage)
        → ((rows : List CrossMessage) → P rows → P (change rows))
        → Keeps (on_messages fails change)
    Keeps-on_messages change k db h =
        if_both (λ (r : Run). P r.0.messages) (fails write_messages db) (λ t. h)
          (λ f. k db.messages h)

    pub Keeps-on_events :
        (change : List BatchEvent → List BatchEvent) → Keeps (on_events fails change)
    Keeps-on_events change db h =
        if_both (λ (r : Run). P r.0.messages) (fails write_batch_events db) (λ t. h) (λ f. h)

    pub Keeps-created :
        (db : Db) (out : Outcome HistoryError (List CrossMessage))
        → P db.messages
        → ((rows : List CrossMessage) → out ≡ ok rows → P rows)
        → P (created db out).0.messages
    Keeps-created db (ok rows) h k = k rows refl
    Keeps-created db (err e) h k = h

    module _ (s : IsStable P) where
      upsert_all-Keeps :
          (may : CrossMessage → Bool) (set : CrossMessage → CrossMessage → CrossMessage)
          → ((m : CrossMessage) → Respects may (set m))
          → (ms rows : List CrossMessage) → P rows
          → P (upsert_all may set ms rows)
      unfolding upsert_all
      upsert_all-Keeps may set k [] rows h = h
      upsert_all-Keeps may set k (m ∷ ms) rows h =
          upsert_all-Keeps may set k ms (upsert may set m rows) (s.upserted may set k m rows h)

      pub Keeps-creating :
          (may : CrossMessage → Bool) (set : CrossMessage → CrossMessage → CrossMessage)
          → ((m : CrossMessage) → Respects may (set m))
          → (choose : List CrossMessage → List CrossMessage) (ms : List CrossMessage)
          → Keeps (creating fails (λ ns. create may set (choose ns)) ms)
      unfolding create
      Keeps-creating may set k choose [] db h = h
      Keeps-creating may set k choose (m ∷ ms) db h =
          let chosen = choose (m ∷ ms) in
          if_both (λ (r : Run). P r.0.messages) (fails write_messages db) (λ t. h)
            (λ f. Keeps-created db (create may set chosen db.messages) h (λ rows e.
              if_both (λ (o : Outcome HistoryError (List CrossMessage)). o ≡ ok rows → P rows)
                (has_duplicates chosen) (λ t g. absurd (cc))
                (λ f2 g.
                  let same : upsert_all may set chosen db.messages ≡ rows = cc in
                  rw (← same) (upsert_all-Keeps may set k chosen db.messages h))
                e))

      pub Keeps-inserting :
          (rename : CrossMessage → CrossMessage) (ms : List CrossMessage)
          → Keeps (inserting fails (λ ns. upsert_all (λ r. false) (λ m r. r) (map rename ns)) ms)
      Keeps-inserting rename [] db h = h
      Keeps-inserting rename (m ∷ ms) db h =
          Keeps-on_messages (upsert_all (λ r. false) (λ m r. r) (map rename (m ∷ ms)))
            (upsert_all-Keeps (λ r. false) (λ m r. r) (λ m r e. absurd (cc)) (map rename (m ∷ ms)))
            db h

      pub Keeps-update :
          (p : CrossMessage → Bool) (f : CrossMessage → CrossMessage)
          → Respects p f
          → Keeps (on_messages fails (update_where p f))
      Keeps-update p f k = Keeps-on_messages (update_where p f) (s.changed p f k)
