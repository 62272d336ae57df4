-- ===== src/Examples/Pyramid.antt =====
-- Examples for the capital pyramid: two symbols, of which one is in profit and the other is exited,
-- in fixed-point numbers of four decimals.
use mintzy_plugin_kelly_opt.Base.{
  ℕ, zero, suc, subst, ◌+◌, ◌-◌, ◌*◌, ◌/◌, ◌==◌, true, false, Option, none, some, List, [], ◌∷◌,
  is_empty, Call, returned, raised, if◌then◌else◌, ◌≡◌, refl, arith, ltb, leb, All,
}
use mintzy_plugin_kelly_opt.Base.Int.{pos, pos_part}
use mintzy_plugin_kelly_opt.Base.Text.{
  Text, codes, text_eq, text_eq_iff, upper, upper_code, lower, lower_code, is_space, strip_left,
  strip, drop_eq_suffix,
}
use mintzy_plugin_kelly_opt.Base.Dict.{lookup, insert, keys, HasUniqueKeys}
use mintzy_plugin_kelly_opt.Base.SymbolSet.{of_list, add, member, text_lt}
use mintzy_plugin_kelly_opt.Symbols.{normalize_symbol}
use mintzy_plugin_kelly_opt.Number.{Number}
use mintzy_plugin_kelly_opt.Decimals.{
  Decimals, null, whole, real, int_of, float_of, is_truthy, float_or,
}
use mintzy_plugin_kelly_opt.Pyramid.Document.{
  Entry, Item, dict, not_dict, no_alphas, alpha_list, Root, ConfigDoc, object, empty_root, key_of,
  updated_with, update_entry, normalize_configuration_root, alpha_paths,
  configuration_symbol_set_paths, first_alpha, get_configuration_symbols_ref, alpha_lists,
  iter_configuration_symbol_lists, add_templates, add_all_templates,
  build_configuration_entry_templates, entry_rank, master_ranks, alpha_ranks,
  build_configuration_rank_map,
}
use mintzy_plugin_kelly_opt.Pyramid.Merge.{
  Query, by_id, by_configuration_id, Update, Mongo, merge_item, merge_pyramid_symbol_list,
  path_parts, get_part, walk_parts, walk, merged_at, update_lists, was_saved,
  persist_pyramid_merged_updates,
}
use mintzy_plugin_kelly_opt.Pyramid.Merge.Preserves.{
  AreKeyed, entries_of, AllUpdated, merge_by_symbol,
}
use mintzy_plugin_kelly_opt.Pyramid.Simulator.{Simulator, PyramidHandoff, Broker, sized, answered}
use mintzy_plugin_kelly_opt.Pyramid.Rows.{IsLive}
use mintzy_plugin_kelly_opt.Pyramid.Stop.Backed.{is_dead}
use mintzy_plugin_kelly_opt.Pyramid.Stop.Seen.{IsOrdered}
use mintzy_plugin_kelly_opt.Pyramid.Stop.Released.{
  Winner, stop_releases_winners, every_winner_has_a_rank,
}
use mintzy_plugin_kelly_opt.Pyramid.Ranks.{
  multiplier_at, pyramid_multiplier_for_rank, threshold_pct, pyramid_profit_threshold_for_rank,
}
use mintzy_plugin_kelly_opt.Pyramid.Lookup.{
  collection_candidates, query_eq, unique, pyramid_lookup_filters, find_in, find_any,
  fetch_saved_trading_configuration, coerce_leverage_multiplier, leverage_of,
  leverage_from_config_doc, leverage_or, resolve_leverage_multiplier,
}
use mintzy_plugin_kelly_opt.Pyramid.Cash.{
  starts_with, occurs_in, cash_keys, cash_of, first_cash, parse_broker_free_cash, restored_session,
  resolve_live_broker_session, read_balance, fetch_broker_free_cash, get_pyramid_free_cash,
}
use mintzy_plugin_kelly_opt.Pyramid.Unrealized.{
  closed_statuses, get_session_id_for_db, get_exited_symbol_doc, broker_price, magnitude,
  validated_pnl, calculate_pnl, paper_ltp, cycle_ltp, entry_ltp, last_price,
  get_symbol_unrealized_pnl,
}
use mintzy_plugin_kelly_opt.Pyramid.Entries.{
  get_pyramid_active_symbol_keys, entries_by_symbol, allocated, initially_allocated,
  resolve_symbol_capital, config_entry, build_pyramid_config_entries,
}
use mintzy_plugin_kelly_opt.Pyramid.Apply.{
  rank_of, realized_of, evaluate, evaluate_all, static_of, sum_static, updated_entries,
  stop_loss_of, live_row, live_rows, symbols_for_live_from_entries,
}
use mintzy_plugin_kelly_opt.Pyramid.Handoff.{
  before_parenthesis, persist_pyramid_pnls, finish_pyramid_handoff, hand_off,
}
use mintzy_plugin_kelly_opt.Pyramid.Stop.{
  distribute, allocate, evaluate_and_allocate, with_document, cached_handoff,
  apply_capital_pyramid_on_stop, shutdown,
}

abbrev pub fixed : Number
fixed = record {
  Float = ℕ;
  zero = 0;
  one = 10000;
  of_int = λ n. pos_part n * 10000;
  plus = λ a b. a + b;
  minus = λ a b. a - b;
  times = λ a b. a * b / 10000;
  divide = λ a b. a * 10000 / b;
  is_pos = λ a. ltb 0 a;
  le = λ a b. leb a b;
}

abbrev pub pow10 : ℕ → ℕ
pow10 zero = 1
pow10 (suc k) = 10 * pow10 k

abbrev pub digits : Decimals fixed
digits = record {
  decimal = λ n k. n * 10000 / pow10 k;
  round2 = λ a. (a + 50) / 100 * 100;
  less = λ a b. ltb a b;
  eq_zero = λ a. a == 0;
  truncate = λ a. returned (pos (a / 10000));
  parse_int = λ s. raised;
  parse_float = λ s. raised;
}

abbrev pub entry_of : Text → ℕ → Entry ℕ
entry_of s r = record { symbol = some s; fields = (codes "rank", whole (pos r)) ∷ [] }

abbrev pub symbols : List (Item ℕ)
symbols = dict (entry_of (codes "TCS-EQ") 1) ∷ not_dict ∷ dict (entry_of (codes "INFY") 2) ∷ []

abbrev pub doc : ConfigDoc ℕ
doc = record {
  id = codes "id7";
  configuration = some (
      object (record {
        symbols = some symbols;
        alphas = no_alphas;
        leverage_multiplier = whole (pos 4);
        leverage = null;
        pyramid_leverage_multiplier = null;
      }));
  own = empty_root;
}

abbrev pub no_json : Text → Call (Option (Root ℕ))
no_json raw = raised

-- A database with the one document, that keeps the last update.
unfoldable pub found_in : Text → Query → Call (Option (ConfigDoc ℕ))
found_in name (by_id i) = returned none
found_in name (by_configuration_id i) = returned (if text_eq i (codes "c1") then some doc else none)

abbrev pub mongo : Mongo ℕ
mongo = record {
  Store = Option (Update ℕ);
  object_id = λ s. returned none;
  find_one = λ name q st. found_in name q;
  update_one = λ name q u st. (returned (1, 1), some u);
  find_exited = λ sid s st. returned (
      if text_eq s (codes "INFY")
      then some (record { status = codes "EXITED"; exit_reason = none; realized_pnl = 0 })
      else none);
  replace_report = λ r st. st;
}

abbrev broker : Broker ℕ
broker = record {
  Session = ℕ;
  Payload = ℕ;
  restore_session = λ p. raised;
  get_account_balance = λ s. answered (record {
    status = codes "success";
    free_cash = some (whole (pos 5000));
    payload = none;
    error = [];
  });
}

abbrev simulator : Simulator ℕ ℕ ℕ
simulator = record {
  pyramid_applied = false;
  handoff_result = none;
  handoff_result_cache = none;
  configuration_id = some (codes "c1");
  has_collection = true;
  config_filter = none;
  config_collection = none;
  symbol_allocations =
      (codes "TCS", sized (whole (pos 1000)) none)
      ∷ (codes "INFY", sized (whole (pos 1000)) none)
      ∷ [];
  initial_allocations = [];
  paper_positions = [];
  positions = [];
  exited_symbols = [];
  live_pnl = (codes "TCS", 70000) ∷ [];
  cycle_ltp_cache = [];
  broker_positions_cache = [];
  realized_pnl_by_symbol = [];
  leverage_multiplier = null;
  ui_session_id = some (codes "s1");
  session_id = none;
  session_free_cash = null;
  cash_fetch_timed_out = false;
  broker_live_session = some 1;
  session = none;
  broker_session_payload = none;
  has_broker = true;
}

abbrev handoff : PyramidHandoff ℕ
handoff = record {
  applied = true;
  live_allowed = true;
  reason = codes "ok";
  profitable_count = 1;
  symbols_for_live = record { symbol = codes "TCS"; capital = 199999800; stop_loss = 500 } ∷ [];
  removed_symbols = codes "INFY" ∷ [];
}

stop_hands_off :
    (shutdown fixed digits mongo broker no_json 9 simulator none).0.handoff_result ≡ some handoff
unfolding multiplier_at pyramid_multiplier_for_rank threshold_pct pyramid_profit_threshold_for_rank
    key_of updated_with update_entry normalize_configuration_root alpha_paths
    configuration_symbol_set_paths first_alpha get_configuration_symbols_ref alpha_lists
    iter_configuration_symbol_lists add_templates add_all_templates
    build_configuration_entry_templates entry_rank master_ranks alpha_ranks
    build_configuration_rank_map merge_item merge_pyramid_symbol_list path_parts get_part walk_parts
    walk merged_at update_lists was_saved persist_pyramid_merged_updates collection_candidates
    query_eq unique pyramid_lookup_filters find_in find_any fetch_saved_trading_configuration
    coerce_leverage_multiplier leverage_of leverage_from_config_doc leverage_or
    resolve_leverage_multiplier starts_with occurs_in cash_keys cash_of first_cash
    parse_broker_free_cash restored_session resolve_live_broker_session read_balance
    fetch_broker_free_cash get_pyramid_free_cash closed_statuses get_session_id_for_db
    get_exited_symbol_doc broker_price magnitude validated_pnl calculate_pnl paper_ltp cycle_ltp
    entry_ltp last_price get_symbol_unrealized_pnl get_pyramid_active_symbol_keys entries_by_symbol
    allocated initially_allocated resolve_symbol_capital config_entry build_pyramid_config_entries
    rank_of realized_of evaluate evaluate_all static_of sum_static updated_entries stop_loss_of
    live_row live_rows symbols_for_live_from_entries before_parenthesis persist_pyramid_pnls
    finish_pyramid_handoff hand_off distribute allocate evaluate_and_allocate with_document
    cached_handoff apply_capital_pyramid_on_stop shutdown int_of float_of is_truthy float_or is_dead
    text_eq upper upper_code lower lower_code is_space strip_left strip drop_eq_suffix lookup insert
    keys of_list add member text_lt normalize_symbol found_in
stop_hands_off = refl

stop_applies :
    (shutdown fixed digits mongo broker no_json 9 simulator none).0.pyramid_applied ≡ true
unfolding multiplier_at pyramid_multiplier_for_rank threshold_pct pyramid_profit_threshold_for_rank
    key_of updated_with update_entry normalize_configuration_root alpha_paths
    configuration_symbol_set_paths first_alpha get_configuration_symbols_ref alpha_lists
    iter_configuration_symbol_lists add_templates add_all_templates
    build_configuration_entry_templates entry_rank master_ranks alpha_ranks
    build_configuration_rank_map merge_item merge_pyramid_symbol_list path_parts get_part walk_parts
    walk merged_at update_lists was_saved persist_pyramid_merged_updates collection_candidates
    query_eq unique pyramid_lookup_filters find_in find_any fetch_saved_trading_configuration
    coerce_leverage_multiplier leverage_of leverage_from_config_doc leverage_or
    resolve_leverage_multiplier starts_with occurs_in cash_keys cash_of first_cash
    parse_broker_free_cash restored_session resolve_live_broker_session read_balance
    fetch_broker_free_cash get_pyramid_free_cash closed_statuses get_session_id_for_db
    get_exited_symbol_doc broker_price magnitude validated_pnl calculate_pnl paper_ltp cycle_ltp
    entry_ltp last_price get_symbol_unrealized_pnl get_pyramid_active_symbol_keys entries_by_symbol
    allocated initially_allocated resolve_symbol_capital config_entry build_pyramid_config_entries
    rank_of realized_of evaluate evaluate_all static_of sum_static updated_entries stop_loss_of
    live_row live_rows symbols_for_live_from_entries before_parenthesis persist_pyramid_pnls
    finish_pyramid_handoff hand_off distribute allocate evaluate_and_allocate with_document
    cached_handoff apply_capital_pyramid_on_stop shutdown int_of float_of is_truthy float_or is_dead
    text_eq upper upper_code lower lower_code is_space strip_left strip drop_eq_suffix lookup insert
    keys of_list add member text_lt normalize_symbol found_in
stop_applies = refl

fixed-IsOrdered : IsOrdered fixed digits
fixed-IsOrdered x h = ground arith

stop_releases_winners_example :
    (handoff.applied ≡ true)
    × (is_empty handoff.symbols_for_live ≡ false)
    × All
        (IsLive fixed digits (Winner fixed digits mongo broker no_json 9 simulator none))
        handoff.symbols_for_live
stop_releases_winners_example =
    stop_releases_winners fixed digits mongo broker no_json 9 fixed-IsOrdered simulator none handoff
      refl stop_hands_off refl

every_winner_has_a_rank_example : is_dead (codes "ok") ≡ false
every_winner_has_a_rank_example =
    every_winner_has_a_rank fixed digits mongo broker no_json 9 simulator none handoff refl
      stop_hands_off

abbrev winner : Entry ℕ
winner = record {
  symbol = some (codes "TCS");
  fields = (codes "capital", real 200) ∷ (codes "rank", whole (pos 1)) ∷ [];
}

winner_key : key_of winner ≡ codes "TCS"
unfolding key_of normalize_symbol upper upper_code drop_eq_suffix strip strip_left is_space
winner_key = refl

winner-AreKeyed : AreKeyed ((codes "TCS", winner) ∷ [])
unfolding lookup
winner-AreKeyed k u h = ground (arith, text_eq_iff (codes "TCS") k, winner_key)

winner-HasUniqueKeys :
    (u : Entry ℕ)
    → lookup (codes "TCS") ((codes "TCS", winner) ∷ []) ≡ some u
    → HasUniqueKeys u.fields
unfolding lookup text_eq
winner-HasUniqueKeys u h =
    let same : winner ≡ u = ground arith in
    subst (λ e. HasUniqueKeys e.fields) same (refl, (refl, tt))

-- TCS gets the capital and the rank of its update.
merge_by_symbol_example : AllUpdated (some winner) (entry_of (codes "TCS-EQ") 1 ∷ []) (
    entries_of
      (codes "TCS")
      (merge_pyramid_symbol_list symbols ((codes "TCS", winner) ∷ []) (codes "INFY" ∷ [])))
unfolding lookup text_eq member key_of normalize_symbol upper upper_code drop_eq_suffix strip
    strip_left is_space
merge_by_symbol_example =
    merge_by_symbol (codes "TCS") ((codes "TCS", winner) ∷ []) (codes "INFY" ∷ []) symbols refl
      winner-AreKeyed winner-HasUniqueKeys

-- A configuration with a list of alphas.
abbrev alpha_root : Root ℕ
alpha_root = record {
  symbols = none;
  alphas = alpha_list (some symbols ∷ []);
  leverage_multiplier = null;
  leverage = null;
  pyramid_leverage_multiplier = null;
}

abbrev alpha_doc : ConfigDoc ℕ
alpha_doc = record { id = codes "id8"; configuration = some (object alpha_root); own = empty_root }
