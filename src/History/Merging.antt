-- ===== src/History/Merging.antt =====
-- Inserts on conflict seen through the rows of the hashes, and the merging of relayed messages:
-- bridge-history-api/internal/orm/cross_message.go.
use scroll.Common.{
  ℕ, ◌≡◌, ◌≢◌, refl, ◌∙◌, ap, subst, Bool, true, false, ◌||◌, Option, none, some, List, [], ◌∷◌,
  All, if◌then◌else◌, if_both, Bool-cases, inl, inr, find_first, arith, ◌==◌, ==_iff, ltb,
}
use scroll.History.{CrossMessage, is_relayed}
use scroll.History.Messages.{
  upsert, upsert_all, with_hash, is_found, has_duplicates, put_merged, merge_from,
}
use scroll.History.Unique.{IsUnique}
use scroll.History.Recorded.{row_of}

module _ (may : CrossMessage → Bool) (set : CrossMessage → CrossMessage → CrossMessage) where
  -- The row that an insert leaves for its hash.
  abbrev pub merged_row : CrossMessage → Option CrossMessage → CrossMessage
  merged_row m none = m
  merged_row m (some r) = if may r then set m r else r

  abbrev pub applied : Option CrossMessage → Option CrossMessage → Option CrossMessage
  applied none o = o
  applied (some m) o = some (merged_row m o)

  module _ (same : (m r : CrossMessage) → (set m r).message_hash ≡ r.message_hash) where
    row_of-upsert-other :
        (h : ℕ) (m : CrossMessage) (rows : List CrossMessage)
        → m.message_hash ≢ h
        → row_of h (upsert may set m rows) ≡ row_of h rows
    unfolding row_of upsert
    row_of-upsert-other h m [] n = let off : with_hash h m ≡ false = ground arith in rw off refl
    row_of-upsert-other h m (r ∷ rows) n =
        if_both (λ (t : List CrossMessage). row_of h t ≡ row_of h (r ∷ rows))
          (r.message_hash == m.message_hash)
          (λ t.
            let at = (==_iff r.message_hash m.message_hash).0 t in
            let off : with_hash h r ≡ false = ground arith in
            if_both (λ (c : CrossMessage). row_of h (c ∷ rows) ≡ row_of h (r ∷ rows)) (may r)
              (λ _.
                let gone : with_hash h (set m r) ≡ false = ap (λ k. k == h) (same m r) ∙ off in
                rw (off, gone) refl)
              (λ _. refl))
          (λ _. ap (λ o. if with_hash h r then some r else o) (row_of-upsert-other h m rows n))

    row_of-upsert-same :
        (m : CrossMessage) (rows : List CrossMessage)
        → row_of m.message_hash (upsert may set m rows)
          ≡ some (merged_row m (row_of m.message_hash rows))
    unfolding row_of upsert
    row_of-upsert-same m [] =
        let on : with_hash m.message_hash m ≡ true = ground arith in rw on refl
    row_of-upsert-same m (r ∷ rows) = elim (Bool-cases (r.message_hash == m.message_hash)) [
      | inl t ↦ elim (Bool-cases (may r)) [
        | inl y ↦
            let on : with_hash m.message_hash (set m r) ≡ true =
              ap (λ k. k == m.message_hash) (same m r) ∙ t in
            rw (t, y, on) refl
        | inr y ↦ rw (t, y, t) refl
      ]
      | inr f ↦ rw (f, f) (row_of-upsert-same m rows)
    ]

    not-found :
        (h : ℕ) (ms : List CrossMessage) (m : CrossMessage)
        → m.message_hash ≡ h
        → is_found (find_first (with_hash m.message_hash) ms) ≡ false
        → find_first (with_hash h) ms ≡ none
    unfolding is_found
    not-found h ms m at e =
        subst (λ k. find_first (with_hash k) ms ≡ none) at
          (none-from (find_first (with_hash m.message_hash) ms) e)
      where
        none-from : (o : Option CrossMessage) → is_found o ≡ false → o ≡ none
        none-from none f = refl
        none-from (some x) f = absurd (cc)

    -- What a statement on messages with different hashes leaves for a hash.
    pub row_of-upsert_all :
        (h : ℕ) (ms rows : List CrossMessage)
        → has_duplicates ms ≡ false
        → row_of h (upsert_all may set ms rows) ≡ applied (row_of h ms) (row_of h rows)
    unfolding upsert_all has_duplicates row_of
    row_of-upsert_all h [] rows d = refl
    row_of-upsert_all h (m ∷ ms) rows d =
        let alone : is_found (find_first (with_hash m.message_hash) ms) ≡ false = ground arith in
        let others : has_duplicates ms ≡ false = ground arith in
        let rest = row_of-upsert_all h ms (upsert may set m rows) others in
        elim (Bool-cases (with_hash h m)) [
          | inl t ↦
              let at = (==_iff m.message_hash h).0 t in
              let gone = not-found h ms m at alone in
              let written : row_of h (upsert may set m rows) ≡ some (merged_row m (row_of h rows)) =
                subst (λ k. row_of k (upsert may set m rows) ≡ some (merged_row m (row_of k rows)))
                  at (row_of-upsert-same m rows) in
              rest
              ∙ ap (λ o. applied o (row_of h (upsert may set m rows))) gone
              ∙ written
              ∙ rw t refl
          | inr f ↦
              rest
              ∙ ap (applied (row_of h ms))
                  (row_of-upsert-other h m rows (λ e. absurd (ground arith)))
              ∙ rw f refl
        ]

-- Messages with different hashes are no duplicates.
find-fresh :
    (h : ℕ) (ms : List CrossMessage)
    → All (λ c. c.message_hash ≢ h) ms
    → is_found (find_first (with_hash h) ms) ≡ false
unfolding is_found find_first
find-fresh h [] a = refl
find-fresh h (m ∷ ms) a =
    let off : with_hash h m ≡ false = let apart = a.0 in ground arith in
    rw off (find-fresh h ms a.1)

pub has_duplicates-IsUnique : (ms : List CrossMessage) → IsUnique ms → has_duplicates ms ≡ false
unfolding has_duplicates
has_duplicates-IsUnique [] u = refl
has_duplicates-IsUnique (m ∷ ms) u =
    rw (find-fresh m.message_hash ms u.0) (has_duplicates-IsUnique ms u.1)

module _ (height : CrossMessage → ℕ) where
  All-put_merged :
      (P : CrossMessage → Type 0) (m : CrossMessage) (es : List CrossMessage)
      → P m
      → All P es
      → All P (put_merged height m es)
  unfolding put_merged
  All-put_merged P m [] p a = (p, tt)
  All-put_merged P m (e ∷ es) p a =
      if_both (All P) (e.message_hash == m.message_hash)
        (λ _. (
          if_both P (is_relayed m.tx_status || ltb (height e) (height m)) (λ _. p) (λ _. a.0),
          a.1,
        ))
        (λ _. (a.0, All-put_merged P m es p a.1))

  IsUnique-put_merged :
      (m : CrossMessage) (es : List CrossMessage) → IsUnique es → IsUnique (put_merged height m es)
  unfolding put_merged
  IsUnique-put_merged m [] u = (tt, tt)
  IsUnique-put_merged m (e ∷ es) u =
      if_both IsUnique (e.message_hash == m.message_hash)
        (λ t.
          let at = (==_iff e.message_hash m.message_hash).0 t in
          if_both (λ (c : CrossMessage). IsUnique (c ∷ es))
            (is_relayed m.tx_status || ltb (height e) (height m)) (λ _. rw (← at) u) (λ _. u))
        (λ f. (
          All-put_merged (λ c. c.message_hash ≢ e.message_hash) m es (λ g. absurd (ground arith))
              u.0,
          IsUnique-put_merged m es u.1,
        ))

  -- What the merging keeps of its messages, and that it leaves one for each hash.
  pub All-merge_from :
      (P : CrossMessage → Type 0) (es ms : List CrossMessage)
      → All P es
      → All P ms
      → All P (merge_from height es ms)
  unfolding merge_from
  All-merge_from P es [] a b = a
  All-merge_from P es (m ∷ ms) a b =
      All-merge_from P (put_merged height m es) ms (All-put_merged P m es b.0 a) b.1

  pub IsUnique-merge_from :
      (es ms : List CrossMessage) → IsUnique es → IsUnique (merge_from height es ms)
  unfolding merge_from
  IsUnique-merge_from es [] u = u
  IsUnique-merge_from es (m ∷ ms) u =
      IsUnique-merge_from (put_merged height m es) ms (IsUnique-put_merged m es u)
