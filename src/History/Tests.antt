-- ===== src/History/Tests.antt =====
-- Concrete runs of the bridge history.
use scroll.Common.{
  ℕ, ◌+◌, ◌-◌, ◌*◌, ◌%◌, ◌<◌, ◌≤◌, ◌⊎◌, inl, inr, ◌≡◌, refl, Bool, false, none, some, [], ◌∷◌, All,
  length, arith, if◌then◌else◌, ◌==◌, ◌>>=◌,
}
use scroll.WithdrawTrie.{Trie, new_withdraw_trie, message_root}
use scroll.WithdrawTrie.Bytes.{IsHash}
use scroll.WithdrawTrie.Roots.{IsTrieOf, new-IsTrieOf}
use scroll.History.{
  CrossMessage, Db, Statement, no_message, tx_relayed, tx_relay_tx_reverted, l1_sent_message,
  l2_sent_message,
}
use scroll.History.Messages.{
  merge_from, has_duplicates, insert_or_update_l1_messages, insert_or_update_l2_messages,
  insert_or_update_l2_relayed_messages_of_l1_deposits,
  insert_or_update_l1_relayed_messages_of_l2_withdrawals,
}
use scroll.History.Saves.{
  L1FilterResult, L2FilterResult, l2_insert_or_update, update_l2_withdraw_message_infos, restored,
}
use scroll.History.Updates.{get_l2_withdrawals_by_block_range, get_l2_latest_finalized_withdrawal}
use scroll.History.Steps.{Steps, l2_saved, stay, go}
use scroll.History.Terminal.{status_of, terminal-Steps}
use scroll.History.Unique.{IsUnique}
use scroll.History.Recorded.{AllRecorded}
use scroll.History.Withdrawals.{update_l2_withdraw_message_infos-AllRecorded}
use scroll.History.Parsing.{
  Topic, message_sent, message_relayed, Log, Decoder, SentEvent, lookup_pending, l1_sent, l2_sent,
  relayed_on_l1, relayed_on_l2,
}
use scroll.History.Fetching.{
  Node, ChainBlock, Fetch, fetched, fetch_failed, reorged, get_blocks, get_blocks_and_detect_reorg,
}
use scroll.History.Fetchers.{
  Config, FetcherState, l1_fetcher, l2_fetcher, l1_tick, get_block_number,
}
use scroll.History.Ticks.{IsStorable, l1_tick-Reaches}
use scroll.History.Orders.{Agree}
use scroll.History.Reports.{reports-Agree}
use scroll.History.Reorgs.{Judged, AreBlocks, get_blocks_and_detect_reorg-Judged}

abbrev works : Statement → Db → Bool
works s db = false

-- A stand-in for the hash of two hashes.
abbrev mix : ℕ → ℕ → ℕ
mix a b = (3 * a + 5 * b + 1) % 256

mix-IsHash : (a b : ℕ) → IsHash (mix a b)
mix-IsHash a b = omega arith

-- A deposit that L2 relayed, and what a later block of L2 says of it.
abbrev relayed : CrossMessage
relayed = record no_message {
  message_hash = 7;
  l2_block_number = 10;
  l2_tx_hash = 21;
  tx_status = tx_relayed;
  message_type = l1_sent_message;
}

abbrev reverted_again : CrossMessage
reverted_again = record no_message {
  message_hash = 7;
  l2_block_number = 12;
  l2_tx_hash = 22;
  tx_status = tx_relay_tx_reverted;
  message_type = l1_sent_message;
}

abbrev settled : Db
settled = record { messages = relayed ∷ []; batch_events = [] }

abbrev later : L2FilterResult
later = record {
  withdraw_messages = [];
  relayed_messages = reverted_again ∷ [];
  other_reverted_txs = [];
}

abbrev after_later : Db
after_later = (l2_insert_or_update works later settled).0

later-Steps : Steps works mix settled after_later
later-Steps = go stay (l2_saved later)

terminal-Steps_example : status_of 7 after_later.messages ≡ some tx_relayed
unfolding status_of
terminal-Steps_example =
    terminal-Steps works mix 7 tx_relayed settled after_later refl refl later-Steps

-- In one fetch, a revert at a higher block replaces the relay before it.
revert_wins :
    merge_from (λ m. m.l2_block_number) [] (relayed ∷ reverted_again ∷ []) ≡ reverted_again ∷ []
unfolding merge_from
revert_wins = refl

-- Two withdrawals of a batch.
abbrev withdrawal : ℕ → ℕ → CrossMessage
withdrawal hash nonce = record no_message {
  message_hash = hash;
  message_nonce = nonce;
  l2_block_number = 5;
  message_type = l2_sent_message;
}

abbrev two_withdrawals : Db
two_withdrawals = record {
  messages = withdrawal 9 1 ∷ withdrawal 8 0 ∷ relayed ∷ [];
  batch_events = [];
}

apart : IsUnique two_withdrawals.messages
apart = (
  (λ e. absurd (omega arith), (λ e. absurd (omega arith), tt)),
  ((λ e. absurd (omega arith), tt), (tt, tt)),
)

two-IsHash : All IsHash (8 ∷ 9 ∷ [])
two-IsHash = (omega arith, (omega arith, tt))

update_l2_withdraw_message_infos-AllRecorded_example :
    (after : Trie) × IsTrieOf mix (8 ∷ 9 ∷ []) after
    × ((update_l2_withdraw_message_infos works mix 3 4 6 two_withdrawals).1 ≡ none)
    × AllRecorded mix 3
        (message_root after)
        0
        (withdrawal 8 0 ∷ withdrawal 9 1 ∷ [])
        (update_l2_withdraw_message_infos works mix 3 4 6 two_withdrawals).0.messages
unfolding get_l2_withdrawals_by_block_range restored get_l2_latest_finalized_withdrawal
update_l2_withdraw_message_infos-AllRecorded_example =
    update_l2_withdraw_message_infos-AllRecorded works mix 3 4 6 two_withdrawals [] (withdrawal 8 0)
      (withdrawal 9 1 ∷ []) new_withdraw_trie mix-IsHash (λ s db. refl) apart refl refl
      (new-IsTrieOf mix) refl two-IsHash (omega arith)

-- A node of which block n has the hash n + 100, and the block 3 another parent.
abbrev block : ℕ → ChainBlock
block n = record {
  number = n;
  parent_hash = if n == 3 then 0 else 99 + n;
  block_hash = 100 + n;
  time = n;
  transactions = [];
}

abbrev a_log : Topic → Log
a_log topic = record { topic = topic; block_number = 1; log_tx_hash = 31; payload = 0 }

abbrev a_node : Node
a_node = record {
  block_number = some 9;
  block_by_number = λ n. some (block n);
  header_hash = λ n. some (100 + n);
  transaction_receipt = λ h. none;
  filter_logs = λ from to. some (a_log message_sent ∷ a_log message_relayed ∷ []);
}

abbrev a_decoder : Decoder
a_decoder = record {
  unpack_token = λ log. none;
  unpack_sent =
      λ log. some (record { event_sender = 40; target = 41; value = 42; nonce = 0; message = [] });
  unpack_hash = λ log. some 50;
  unpack_batch = λ log. none;
  unpack_queued = λ log. none;
  unpack_dequeued = λ log. none;
  unpack_dropped = λ log. none;
  compute_message_hash = λ event. 50;
  transaction_by_hash = λ h. lookup_pending;
  unpack_commit_chunks = λ c. none;
  unpacks_import_genesis = λ c. false;
  gateway_router_addr = 1;
  is_gateway_router_text = λ a. a == 1;
}

get_blocks_and_detect_reorg-Judged_example :
    AreBlocks a_node 1 (block 1 ∷ block 2 ∷ block 3 ∷ [])
    × (length (block 1 ∷ block 2 ∷ block 3 ∷ []) ≡ 3)
    × Judged a_node 1 100
        (block 1 ∷ block 2 ∷ block 3 ∷ [])
        (block 1 ∷ block 2 ∷ block 3 ∷ [])
        (get_blocks_and_detect_reorg a_node 1 1 3 100)
unfolding get_blocks
get_blocks_and_detect_reorg-Judged_example =
    get_blocks_and_detect_reorg-Judged a_node 1 1 3 100 (block 1 ∷ block 2 ∷ block 3 ∷ []) refl

-- The message 50 as L1 sent it, and as L2 relayed it, and the same the other way round.
abbrev sent_event : SentEvent
sent_event = record { event_sender = 40; target = 41; value = 42; nonce = 0; message = [] }

abbrev one : L1FilterResult
one = record {
  deposit_messages = l1_sent (a_log message_sent) sent_event 40 1 50 ∷ [];
  relayed_messages = relayed_on_l1 tx_relayed (a_log message_relayed) 50 ∷ [];
  batch_events = [];
  message_queue_events = [];
  reverted_txs = [];
}

abbrev two : L2FilterResult
two = record {
  withdraw_messages = l2_sent (a_log message_sent) sent_event 40 1 50 ∷ [];
  relayed_messages = relayed_on_l2 tx_relayed (a_log message_relayed) 50 ∷ [];
  other_reverted_txs = [];
}

reports-Agree_example :
    Agree
      (insert_or_update_l1_messages one.deposit_messages []
        >>= insert_or_update_l2_relayed_messages_of_l1_deposits two.relayed_messages)
      (insert_or_update_l2_relayed_messages_of_l1_deposits two.relayed_messages []
        >>= insert_or_update_l1_messages one.deposit_messages)
    × Agree
        (insert_or_update_l2_messages two.withdraw_messages []
          >>= insert_or_update_l1_relayed_messages_of_l2_withdrawals one.relayed_messages)
        (insert_or_update_l1_relayed_messages_of_l2_withdrawals one.relayed_messages []
          >>= insert_or_update_l2_messages two.withdraw_messages)
unfolding l1_fetcher l2_fetcher has_duplicates
reports-Agree_example =
    reports-Agree a_node a_node a_decoder a_decoder [] [] 1 1 100 101 1 1 100 101 one two [] refl
      refl refl refl

-- A tick over the heights 1 and 2, one at a time, each with a deposit and a relayed withdrawal.
abbrev one_by_one : Config
one_by_one = record { start_height = 0; confirmation = 7; fetch_limit = 1 }

abbrev at_zero : FetcherState
at_zero = record { sync_height = 0; last_sync_block_hash = 100; db = settled }

abbrev fetch : ℕ → ℕ → ℕ → Fetch L1FilterResult
fetch = l1_fetcher a_node a_decoder []

abbrev result_of : Fetch L1FilterResult → L1FilterResult
result_of fetch_failed = one
result_of (reorged height hash) = one
result_of (fetched hash result) = result

answers :
    (from to last : ℕ)
    → 0 < from
    → from ≤ to
    → to ≤ 2
    → last ≡ 100 + (from - 1)
    → (a : L1FilterResult) × IsStorable a × (fetch from to last ≡ fetched (100 + to) a)
unfolding l1_fetcher has_duplicates
answers from to last pos low top here = elim (ranges from to pos low top) [
  | inl e ↦ rw (here, e.0, e.1) (at 1 1 100, record { apart = refl; typed = tt }, refl)
  | inr (inl e) ↦ rw (here, e.0, e.1) (at 1 2 100, record { apart = refl; typed = tt }, refl)
  | inr (inr e) ↦ rw (here, e.0, e.1) (at 2 2 101, record { apart = refl; typed = tt }, refl)
]
  where
    at : ℕ → ℕ → ℕ → L1FilterResult
    at f t l = result_of (fetch f t l)

    ranges :
        (f t : ℕ)
        → 0 < f
        → f ≤ t
        → t ≤ 2
        → ((f ≡ 1) × (t ≡ 1)) ⊎ (((f ≡ 1) × (t ≡ 2)) ⊎ ((f ≡ 2) × (t ≡ 2)))
    ranges f t p l u = omega arith

l1_tick-Reaches_example :
    ((l1_tick works a_node a_decoder [] one_by_one at_zero).sync_height ≡ 2)
    × ((l1_tick works a_node a_decoder [] one_by_one at_zero).last_sync_block_hash ≡ 102)
unfolding get_block_number
l1_tick-Reaches_example =
    l1_tick-Reaches works a_node a_decoder [] one_by_one (λ n. 100 + n) 2 at_zero (λ s db. refl)
      refl (omega arith) (omega arith) answers (omega arith) refl
