-- ===== src/History/Withdrawals.antt =====
-- The proofs of withdrawals: bridge-history-api/internal/logic/event_update.go with the withdraw trie
-- of bridge-history-api/internal/utils/withdraw_trie.go.
use scroll.Common.{
  ℕ, ◌+◌, ◌^◌, ◌≤◌, ◌≡◌, refl, sym, ◌∙◌, ap, subst, Bool, true, false, none, some, List, [], ◌∷◌,
  ◌++◌, suc, All, ◌==◌, ==_iff, map, length, arith,
}
use scroll.WithdrawTrie.{Trie, message_root}
use scroll.WithdrawTrie.Roots.{IsTrieOf}
use scroll.WithdrawTrie.Bytes.{IsHash}
use scroll.WithdrawTrie.Messages.{append_messages-IsAppended}
use scroll.History.{CrossMessage, Db, Statement, select_messages}
use scroll.History.Updates.{
  get_l2_withdrawals_by_block_range, get_l2_latest_finalized_withdrawal,
  update_batch_index_rollup_status_merkle_proof_of_l2_messages,
}
use scroll.History.Saves.{hash_of_message, restored, update_l2_withdraw_message_infos}
use scroll.History.Unique.{IsUnique}
use scroll.History.Recorded.{
  AllRecorded, with_proofs-AllPaired, each-AllRecorded, withdrawals-IsUnique, withdrawals-have-rows,
}

length-map : (ms : List CrossMessage) → length (map hash_of_message ms) ≡ length ms
length-map [] = refl
length-map (m ∷ ms) = ap suc (length-map ms)

module _ (fails : Statement → Db → Bool) (keccak2 : ℕ → ℕ → ℕ) where
  -- Let the hash of two hashes and every message's hash fit 32 bytes, let the database refuse no
  -- statement and hold different messages under different hashes, and let the withdrawals of the
  -- block range be there, the first with the nonce that follows those of the old messages, which
  -- the trie restored from the last finalized withdrawal holds, all of them at most 2^39. Then
  -- updateL2WithdrawMessageInfos succeeds, and in the tables it leaves, the row of each withdrawal
  -- is finalized with the batch's index and has a proof that leads from the message and its place
  -- to the root of the trie that holds the old messages and behind them these.
  pub update_l2_withdraw_message_infos-AllRecorded :
      (index start_block end_block : ℕ) (db : Db) (old : List ℕ) (m : CrossMessage)
      (ms : List CrossMessage) (t : Trie)
      → ((a b : ℕ) → IsHash (keccak2 a b))
      → ((s : Statement) (d : Db) → fails s d ≡ false)
      → IsUnique db.messages
      → get_l2_withdrawals_by_block_range start_block end_block db.messages ≡ m ∷ ms
      → restored fails keccak2 (get_l2_latest_finalized_withdrawal db.messages) ≡ some t
      → IsTrieOf keccak2 old t
      → m.message_nonce ≡ length old
      → All IsHash (old ++ map hash_of_message (m ∷ ms))
      → length old + length (m ∷ ms) ≤ 2 ^ 39
      → (after : Trie) × IsTrieOf keccak2 (old ++ map hash_of_message (m ∷ ms)) after
        × ((update_l2_withdraw_message_infos fails keccak2 index start_block end_block db).1 ≡ none)
        × AllRecorded keccak2 index
            (message_root after)
            (length old)
            (m ∷ ms)
            (update_l2_withdraw_message_infos fails keccak2 index start_block end_block
              db).0.messages
  unfolding update_l2_withdraw_message_infos
      update_batch_index_rollup_status_merkle_proof_of_l2_messages
  update_l2_withdraw_message_infos-AllRecorded index start_block end_block db old m ms t sized works
        u found made k first fits small =
      let ws = m ∷ ms in
      let (r, run, k', proved) =
        append_messages-IsAppended keccak2 old (map hash_of_message ws) t sized fits k
          (omega (arith, length-map ws, small)) in
      let root = message_root r.1 in
      let (us, e, paired) = with_proofs-AllPaired keccak2 index root (length old) ws r.0 proved in
      let apart = subst IsUnique found (withdrawals-IsUnique start_block end_block db.messages u) in
      let present =
        subst (All _) found (withdrawals-have-rows start_block end_block db.messages u) in
      let (silent, recorded) =
        each-AllRecorded keccak2 index root fails works (length old) ws us db paired apart
          present in
      let next : (t.next_message_nonce == m.message_nonce) ≡ true =
        (==_iff t.next_message_nonce m.message_nonce).1 (k.nonce ∙ sym first) in
      rw (works select_messages db, found, made, next, run, e) (r.1, k', silent, recorded)
