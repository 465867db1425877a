-- ===== src/History/Fetchers.antt =====
-- The runs of the fetchers: bridge-history-api/internal/logic/{l1,l2}_fetcher.go and
-- bridge-history-api/internal/controller/fetcher/{l1,l2}_fetcher.go.
use scroll.Common.{
  ℕ, zero, suc, ◌+◌, ◌-◌, Bool, true, false, Option, none, some, List, ◌++◌, ltb, leb,
  if◌then◌else◌, add64, sub64, ok, err,
}
use scroll.History.{Db, Statement, Run, and_then}
use scroll.History.Parsing.{Decoder}
use scroll.History.Parsers.{
  parse_l1_cross_chain_event_logs, parse_l1_batch_event_logs, parse_l1_message_queue_event_logs,
  parse_l2_event_logs,
}
use scroll.History.Saves.{
  L1FilterResult, L2FilterResult, l1_insert_or_update, l2_insert_or_update,
  update_l1_batch_index_and_status, get_l1_sync_height, get_l2_message_synced_height_in_db,
}
use scroll.History.Fetching.{
  Node, Fetch, fetch_failed, reorged, fetched, bind_fetch, bind_option, parsed_ok,
  get_blocks_and_detect_reorg, l1_reverted_txs, l2_reverted_txs, timestamp_in,
}

abbrev pub l1_reorg_safe_depth : ℕ
l1_reorg_safe_depth = 64

abbrev pub l2_reorg_safe_depth : ℕ
l2_reorg_safe_depth = 256

-- The fields of the fetchers' configuration that are read.
pub record Config : Type 0 where
  pub start_height : ℕ
  pub confirmation : ℕ
  pub fetch_limit : ℕ

-- The state of a fetcher, with the tables.
pub record FetcherState : Type 0 where
  pub sync_height : ℕ
  pub last_sync_block_hash : ℕ
  pub db : Db

module _ (node : Node) (d : Decoder) (gateways : List ℕ) where
  -- L1Fetcher
  unfoldable pub l1_fetcher : ℕ → ℕ → ℕ → Fetch L1FilterResult
  unfolding get_blocks_and_detect_reorg l1_reverted_txs timestamp_in parse_l1_cross_chain_event_logs
      parse_l1_batch_event_logs parse_l1_message_queue_event_logs
  l1_fetcher from to last =
      bind_fetch (get_blocks_and_detect_reorg node l1_reorg_safe_depth from to last) (λ blocks.
        bind_option (l1_reverted_txs node gateways blocks) (λ reverted.
          bind_option (node.filter_logs from to) (λ logs.
            bind_option (parsed_ok (parse_l1_cross_chain_event_logs d (timestamp_in blocks) logs))
              (λ messages. bind_option (parsed_ok (parse_l1_batch_event_logs d logs)) (λ batches.
                bind_option (parsed_ok (parse_l1_message_queue_event_logs d logs messages.0))
                  (λ queue. some (record {
                    deposit_messages = messages.0;
                    relayed_messages = messages.1;
                    batch_events = batches;
                    message_queue_events = queue;
                    reverted_txs = reverted;
                  })))))))

  -- L2Fetcher
  unfoldable pub l2_fetcher : ℕ → ℕ → ℕ → Fetch L2FilterResult
  unfolding get_blocks_and_detect_reorg l2_reverted_txs timestamp_in parse_l2_event_logs
  l2_fetcher from to last =
      bind_fetch (get_blocks_and_detect_reorg node l2_reorg_safe_depth from to last) (λ blocks.
        bind_option (l2_reverted_txs node gateways blocks) (λ reverted.
          bind_option (node.filter_logs from to) (λ logs.
            bind_option (parsed_ok (parse_l2_event_logs d (timestamp_in blocks) logs)) (λ messages.
              some (record {
                withdraw_messages = messages.0;
                relayed_messages = messages.1 ++ reverted.1;
                other_reverted_txs = reverted.0;
              })))))

-- GetBlockNumber
unfoldable pub get_block_number : Option ℕ → ℕ → Option ℕ
get_block_number none confirmations = none
get_block_number (some number) confirmations =
    some (if leb number confirmations then 0 else number - confirmations)

-- The end of a round: of the fetched range up to a block, or of a reorg
module _ {A : Type 0} (limit : ℕ) (fetch : ℕ → ℕ → ℕ → Fetch A) (save : ℕ → A → Db → Run) where
  -- The end of a range of at most `limit` blocks.
  abbrev pub range_end : ℕ → ℕ → ℕ
  range_end from end = let to = sub64 (add64 from limit) 1 in if ltb end to then end else to

  -- What a round leaves, and whether the loop goes on.
  abbrev pub saved : ℕ → ℕ → Run → FetcherState → FetcherState × Bool
  saved to hash (db, some e) st = (record st { db = db }, false)
  saved to hash (db, none) st =
      (record { sync_height = to; last_sync_block_hash = hash; db = db }, true)

  unfoldable pub round : ℕ → Fetch A → FetcherState → FetcherState × Bool
  round to fetch_failed st = (st, false)
  round to (reorged height hash) st =
      (record st { sync_height = height; last_sync_block_hash = hash }, false)
  round to (fetched hash result) st = saved to hash (save st.sync_height result st.db) st

  abbrev pub continue_with : (FetcherState → FetcherState) → FetcherState × Bool → FetcherState
  continue_with more (st, true) = more st
  continue_with more (st, false) = st

  -- The loop of fetchAndSaveEvents.
  unfoldable pub fetch_from : ℕ → ℕ → ℕ → FetcherState → FetcherState
  unfolding round
  fetch_from zero from end st = st
  fetch_from (suc fuel) from end st =
      let to = range_end from end in
      if leb from end
      then continue_with (fetch_from fuel (add64 from limit) end)
          (round to (fetch from to st.last_sync_block_hash) st)
      else st

  -- fetchAndSaveEvents, with a round for every block of the range at most
  unfoldable pub fetch_and_save_events : Option ℕ → FetcherState → FetcherState
  unfolding fetch_from
  fetch_and_save_events none st = st
  fetch_and_save_events (some end) st =
      let from = add64 st.sync_height 1 in fetch_from (end + 1 - from) from end st

module _ (fails : Statement → Db → Bool) where
  -- The height that Start begins from: the greatest that is known, less the depth of reorgs.
  abbrev pub back_off : ℕ → ℕ → ℕ
  back_off depth height = if ltb height depth then 0 else height - depth

  -- Start of the fetcher of L1
  unfoldable pub l1_start_height : Config → ℕ × ℕ → ℕ
  l1_start_height cfg (messages, batches) =
      let height = (if ltb messages batches then batches else messages) in
      back_off l1_reorg_safe_depth
        (if ltb height cfg.start_height then cfg.start_height - 1 else height)

  abbrev pub started : ℕ → Option ℕ → Db → Option FetcherState
  started height none db = none
  started height (some hash) db =
      some (record { sync_height = height; last_sync_block_hash = hash; db = db })

  unfoldable pub l1_start : Node → Config → Db → Option FetcherState
  unfolding l1_start_height get_l1_sync_height
  l1_start node cfg db = elim (get_l1_sync_height fails db) [
    | err e ↦ none
    | ok heights ↦
        let height = l1_start_height cfg heights in started height (node.header_hash height) db
  ]

  -- Start of the fetcher of L2
  unfoldable pub l2_start : Node → Db → Option FetcherState
  unfolding get_l2_message_synced_height_in_db
  l2_start node db = elim (get_l2_message_synced_height_in_db fails db) [
    | err e ↦ none
    | ok synced ↦
        let height = back_off l2_reorg_safe_depth synced in
        started height (node.header_hash height) db
  ]

  module _ (node : Node) (d : Decoder) (gateways : List ℕ) (cfg : Config) where
    -- A tick of the fetcher of L1
    unfoldable pub l1_tick : FetcherState → FetcherState
    unfolding fetch_and_save_events l1_fetcher l1_insert_or_update get_block_number
    l1_tick =
        fetch_and_save_events cfg.fetch_limit (l1_fetcher node d gateways)
          (λ height. l1_insert_or_update fails)
          (get_block_number node.block_number cfg.confirmation)

    -- A tick of the fetcher of L2, which also updates the batches up to the last height
    unfoldable pub l2_tick : (ℕ → ℕ → ℕ) → FetcherState → FetcherState
    unfolding fetch_and_save_events l2_fetcher l2_insert_or_update update_l1_batch_index_and_status
        get_block_number
    l2_tick keccak2 =
        fetch_and_save_events cfg.fetch_limit (l2_fetcher node d gateways)
          (λ height result db.
            and_then (l2_insert_or_update fails result db)
              (update_l1_batch_index_and_status fails keccak2 height))
          (get_block_number node.block_number cfg.confirmation)
