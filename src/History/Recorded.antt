-- ===== src/History/Recorded.antt =====
-- The rows that an update writes: bridge-history-api/internal/orm/cross_message.go.
use scroll.Common.{
  ℕ, ◌+◌, ◌≡◌, ◌≢◌, refl, sym, ◌∙◌, ap, subst, suc, Bool, true, false, Option, none, some, List, [],
  ◌∷◌, All, if◌then◌else◌, if_both, update_where, find_first, arith, ◌==◌, ==_iff, map, inl, inr,
  select, ltb,
}
use scroll.Relayer.Fetched.{In, All-weaken, All-select, All-order_by, All-insert_by, All-In}
use scroll.Relayer.Tables.{order_by, insert_by}
use scroll.History.{CrossMessage, Db, Statement, write_messages, each, rollup_is_finalized}
use scroll.History.Messages.{with_hash}
use scroll.History.Updates.{
  set_merkle_proof, update_proof_of_l2_message, get_l2_withdrawals_by_block_range, is_withdrawal_in,
}
use scroll.History.Unique.{IsUnique}
use scroll.History.Saves.{with_proofs, hash_of_message}
use scroll.WithdrawTrie.{decode_bytes_to_merkle_proof}
use scroll.WithdrawTrie.Proofs.{climb}
use scroll.WithdrawTrie.Messages.{AllProved}

-- The row of a hash.
unfoldable pub row_of : ℕ → List CrossMessage → Option CrossMessage
unfolding find_first
row_of h = find_first (with_hash h)

row_of-update_where-same :
    (h : ℕ) (f : CrossMessage → CrossMessage) (rows : List CrossMessage) (r : CrossMessage)
    → ((c : CrossMessage) → (f c).message_hash ≡ c.message_hash)
    → row_of h rows ≡ some r
    → row_of h (update_where (with_hash h) f rows) ≡ some (f r)
unfolding row_of update_where
row_of-update_where-same h f [] r same e = absurd (cc)
row_of-update_where-same h f (c ∷ rows) r same e =
    if_both
      (λ (o : Option CrossMessage).
        o ≡ some r → row_of h (update_where (with_hash h) f (c ∷ rows)) ≡ some (f r))
      (with_hash h c)
      (λ t g.
        let on : with_hash h (f c) ≡ true = ap (λ k. k == h) (same c) ∙ t in
        let at : c ≡ r = cc in rw t (rw on (ap (λ x. some (f x)) at)))
      (λ n g. rw n (rw n (row_of-update_where-same h f rows r same g))) e

row_of-update_where-other :
    (h k : ℕ) (f : CrossMessage → CrossMessage) (rows : List CrossMessage)
    → ((c : CrossMessage) → (f c).message_hash ≡ c.message_hash)
    → k ≢ h
    → row_of h (update_where (with_hash k) f rows) ≡ row_of h rows
unfolding row_of update_where
row_of-update_where-other h k f [] same n = refl
row_of-update_where-other h k f (c ∷ rows) same n =
    let rest = row_of-update_where-other h k f rows same n in
    if_both
      (λ (d : CrossMessage). row_of h (d ∷ update_where (with_hash k) f rows) ≡ row_of h (c ∷ rows))
      (with_hash k c)
      (λ t.
        let at = (==_iff c.message_hash k).0 t in
        let off : with_hash h c ≡ false = ground arith in rw (same c, off) rest)
      (λ _. ap (λ o. if with_hash h c then some c else o) rest)

All-at :
    (P : CrossMessage → Type 0) (a : CrossMessage) (rows : List CrossMessage)
    → All P rows
    → In a rows
    → P a
All-at P a [] p i = absurd i
All-at P a (r ∷ rows) p (inl e) = subst P e p.0
All-at P a (r ∷ rows) p (inr i) = All-at P a rows p.1 i

-- In a table with different hashes the row of a row's hash is this row.
row_of-In :
    (a : CrossMessage) (rows : List CrossMessage)
    → IsUnique rows
    → In a rows
    → row_of a.message_hash rows ≡ some a
unfolding row_of
row_of-In a [] u i = absurd i
row_of-In a (r ∷ rows) u (inl e) =
    let on : with_hash a.message_hash r ≡ true =
      (==_iff r.message_hash a.message_hash).1 (ap (λ c. c.message_hash) e) in
    rw on (ap some e)
row_of-In a (r ∷ rows) u (inr i) =
    let apart = All-at (λ c. c.message_hash ≢ r.message_hash) a rows u.0 i in
    if_both (λ (o : Option CrossMessage). o ≡ some a) (with_hash a.message_hash r)
      (λ t. absurd (apart (sym ((==_iff r.message_hash a.message_hash).0 t))))
      (λ _. row_of-In a rows u.1 i)

-- A query of rows with different hashes finds rows with different hashes.
IsUnique-select :
    (q : CrossMessage → Bool) (rows : List CrossMessage) → IsUnique rows → IsUnique (select q rows)
IsUnique-select q [] u = tt
IsUnique-select q (r ∷ rows) u =
    if_both IsUnique (q r)
      (λ _. (
        All-weaken (λ c. (c.message_hash ≢ r.message_hash) × (q c ≡ true))
            (λ c. c.message_hash ≢ r.message_hash) (λ c p. p.0) (select q rows)
            (All-select (λ c. c.message_hash ≢ r.message_hash) q rows u.0),
        IsUnique-select q rows u.1,
      ))
      (λ _. IsUnique-select q rows u.1)

IsUnique-insert_by :
    (key : CrossMessage → ℕ) (a : CrossMessage) (rows : List CrossMessage)
    → All (λ c. c.message_hash ≢ a.message_hash) rows
    → IsUnique rows
    → IsUnique (insert_by key a rows)
unfolding insert_by
IsUnique-insert_by key a [] n u = (tt, tt)
IsUnique-insert_by key a (r ∷ rows) n u =
    if_both IsUnique (ltb (key r) (key a))
      (λ _. (
        All-insert_by key (λ c. c.message_hash ≢ r.message_hash) a rows (λ e. n.0 (sym e)) u.0,
        IsUnique-insert_by key a rows n.1 u.1,
      ))
      (λ _. (n, u))

IsUnique-order_by :
    (key : CrossMessage → ℕ) (rows : List CrossMessage)
    → IsUnique rows
    → IsUnique (order_by key rows)
unfolding order_by
IsUnique-order_by key [] u = tt
IsUnique-order_by key (r ∷ rows) u =
    IsUnique-insert_by key r (order_by key rows)
      (All-order_by key (λ c. c.message_hash ≢ r.message_hash) rows u.0)
      (IsUnique-order_by key rows u.1)

-- The withdrawals of a range have different hashes and are rows of the table.
pub withdrawals-IsUnique :
    (start end : ℕ) (rows : List CrossMessage)
    → IsUnique rows
    → IsUnique (get_l2_withdrawals_by_block_range start end rows)
unfolding get_l2_withdrawals_by_block_range
withdrawals-IsUnique start end rows u =
    IsUnique-order_by (λ m. m.message_nonce) (select (is_withdrawal_in start end) rows)
      (IsUnique-select (is_withdrawal_in start end) rows u)

pub withdrawals-have-rows :
    (start end : ℕ) (rows : List CrossMessage)
    → IsUnique rows
    → All
        (λ w. (r : CrossMessage) × (row_of w.message_hash rows ≡ some r))
        (get_l2_withdrawals_by_block_range start end rows)
unfolding get_l2_withdrawals_by_block_range
withdrawals-have-rows start end rows u =
    let found = select (is_withdrawal_in start end) rows in
    All-weaken (λ w. In w rows) (λ w. (r : CrossMessage) × (row_of w.message_hash rows ≡ some r))
      (λ w i. (w, row_of-In w rows u i)) (order_by (λ m. m.message_nonce) found)
      (All-order_by (λ m. m.message_nonce) (λ w. In w rows) found
        (All-weaken (λ w. In w rows × (is_withdrawal_in start end w ≡ true)) (λ w. In w rows)
          (λ w p. p.0) found
          (All-select (λ w. In w rows) (is_withdrawal_in start end) rows (All-In rows))))

module _ (keccak2 : ℕ → ℕ → ℕ) (index root : ℕ) where
  -- A row that says that its message is final, in which batch, and by which proof.
  abbrev pub IsProven : ℕ → ℕ → CrossMessage → Type 0
  IsProven n hash r =
      (r.rollup_status ≡ rollup_is_finalized)
      × (r.batch_index ≡ index)
      × (climb keccak2 n hash (decode_bytes_to_merkle_proof r.merkle_proof) ≡ root)

  -- The rows of messages with successive nonces.
  abbrev pub AllRecorded : ℕ → List CrossMessage → List CrossMessage → Type 0
  AllRecorded n [] rows = Unit
  AllRecorded n (w ∷ ws) rows =
      ((r : CrossMessage) × (row_of w.message_hash rows ≡ some r) × IsProven n w.message_hash r)
      × AllRecorded (suc n) ws rows

  -- What `with_proofs` puts into the messages.
  abbrev pub AllPaired : ℕ → List CrossMessage → List CrossMessage → Type 0
  AllPaired n [] [] = Unit
  AllPaired n [] (u ∷ us) = ⊥
  AllPaired n (w ∷ ws) [] = ⊥
  AllPaired n (w ∷ ws) (u ∷ us) =
      ((u.message_hash ≡ w.message_hash) × IsProven n w.message_hash u) × AllPaired (suc n) ws us

  pub with_proofs-AllPaired :
      (n : ℕ) (ws : List CrossMessage) (proofs : List (List ℕ))
      → AllProved keccak2 n (map hash_of_message ws) proofs root
      → (us : List CrossMessage) × (with_proofs index ws proofs ≡ some us) × AllPaired n ws us
  unfolding with_proofs
  with_proofs-AllPaired n [] proofs a = ([], refl, tt)
  with_proofs-AllPaired n (w ∷ ws) [] a = absurd a
  with_proofs-AllPaired n (w ∷ ws) (p ∷ proofs) a =
      let next : n + 1 ≡ suc n = omega arith in
      let (us, e, b) =
        with_proofs-AllPaired (suc n) ws proofs
          (subst (λ k. AllProved keccak2 k (map hash_of_message ws) proofs root) next a.1) in
      let u : CrossMessage = record w {
        merkle_proof = p;
        rollup_status = rollup_is_finalized;
        batch_index = index;
      } in
      (u ∷ us, rw e refl, ((refl, (refl, refl, a.0)), b))

  module _ (fails : Statement → Db → Bool)
      (works : (s : Statement) (db : Db) → fails s db ≡ false) where
    abbrev step : CrossMessage → Db → Db
    step u db = record db {
      messages = update_where (with_hash u.message_hash) (set_merkle_proof u) db.messages;
    }

    update_proof-step :
        (u : CrossMessage) (db : Db) → update_proof_of_l2_message fails u db ≡ (step u db, none)
    unfolding update_proof_of_l2_message
    update_proof-step u db = rw (works write_messages db) refl

    -- The updates of the other messages leave a row.
    each-other :
        (h n : ℕ) (ws us : List CrossMessage) (db : Db)
        → AllPaired n ws us
        → All (λ w. w.message_hash ≢ h) ws
        → row_of h (each (update_proof_of_l2_message fails) us db).0.messages ≡ row_of h db.messages
    unfolding each
    each-other h n [] [] db p a = refl
    each-other h n [] (u ∷ us) db p a = absurd p
    each-other h n (w ∷ ws) [] db p a = absurd p
    each-other h n (w ∷ ws) (u ∷ us) db p a = rw (update_proof-step u db) (
        each-other h (suc n) ws us (step u db) p.1 a.1
        ∙ row_of-update_where-other h u.message_hash (set_merkle_proof u) db.messages (λ c. refl)
            (λ e. a.0 (sym p.0.0 ∙ e)))

    -- The updates of all messages succeed and leave their rows as they should be.
    pub each-AllRecorded :
        (n : ℕ) (ws us : List CrossMessage) (db : Db)
        → AllPaired n ws us
        → IsUnique ws
        → All (λ w. (r : CrossMessage) × (row_of w.message_hash db.messages ≡ some r)) ws
        → ((each (update_proof_of_l2_message fails) us db).1 ≡ none)
          × AllRecorded n ws (each (update_proof_of_l2_message fails) us db).0.messages
    unfolding each
    each-AllRecorded n [] [] db p q a = (refl, tt)
    each-AllRecorded n [] (u ∷ us) db p q a = absurd p
    each-AllRecorded n (w ∷ ws) [] db p q a = absurd p
    each-AllRecorded n (w ∷ ws) (u ∷ us) db p q a =
        let (r, found) = a.0 in
        let at = p.0.0 in
        let (silent, rest) =
          each-AllRecorded (suc n) ws us (step u db) p.1 q.1 (kept-rows w u db at ws q.0 a.1) in
        let mine =
          each-other w.message_hash (suc n) ws us (step u db) p.1 q.0
          ∙ ap
              (λ h.
                row_of w.message_hash (update_where (with_hash h) (set_merkle_proof u) db.messages))
              at
          ∙ row_of-update_where-same w.message_hash (set_merkle_proof u) db.messages r (λ c. refl)
              found in
        rw (update_proof-step u db) (silent, ((set_merkle_proof u r, mine, p.0.1), rest))
      where
        kept-rows :
            (w u : CrossMessage) (db : Db)
            → u.message_hash ≡ w.message_hash
            → (vs : List CrossMessage) → All (λ v. v.message_hash ≢ w.message_hash) vs
            → All (λ v. (r : CrossMessage) × (row_of v.message_hash db.messages ≡ some r)) vs
            → All
                (λ v. (r : CrossMessage) × (row_of v.message_hash (step u db).messages ≡ some r))
                vs
        kept-rows w u db at [] q a = tt
        kept-rows w u db at (v ∷ vs) q a = (
          (
            a.0.0,
            row_of-update_where-other v.message_hash u.message_hash (set_merkle_proof u) db.messages
                  (λ c. refl) (λ e. q.0 (sym e ∙ at))
                ∙ a.0.1,
          ),
          kept-rows w u db at vs q.1 a.1,
        )
