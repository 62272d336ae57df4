-- ===== src/Pyramid/Stop.antt =====
-- `_apply_capital_pyramid_on_stop` of auto_trader_exposure_expansion/pyramid.py, cut at its early
-- returns into the guards, the evaluation, the allocation and the save; and the part of `shutdown`
-- of trader.py that calls it. Reports of profits are written as the code does; what is only printed
-- is left out, and so is the alert of a save.
pub mod Backed
pub mod Seen
pub mod Won
pub mod Released
use mintzy_plugin_kelly_opt.Base.{
  ℕ, Bool, true, false, ◌&&◌, ◌||◌, not, Option, none, some, List, [], ◌∷◌, ◌==◌, map, keep,
  collect, length, is_empty, is_some, get_or, Call, returned, raised, if◌then◌else◌,
}
use mintzy_plugin_kelly_opt.Base.Int.{ℤ, pos}
use mintzy_plugin_kelly_opt.Base.Text.{Text, codes}
use mintzy_plugin_kelly_opt.Base.Dict.{Dict}
use mintzy_plugin_kelly_opt.Base.SymbolSet.{of_list}
use mintzy_plugin_kelly_opt.Symbols.{present}
use mintzy_plugin_kelly_opt.Number.{Number}
use mintzy_plugin_kelly_opt.Decimals.{Decimals}
use mintzy_plugin_kelly_opt.Pyramid.Document.{
  Entry, Item, Root, ConfigDoc, SetPath, normalize_configuration_root,
  get_configuration_symbols_ref, build_configuration_rank_map,
}
use mintzy_plugin_kelly_opt.Pyramid.Merge.{Mongo, PnlRow, Report, persist_pyramid_merged_updates}
use mintzy_plugin_kelly_opt.Pyramid.Simulator.{Simulator, PyramidHandoff, LiveRow, Broker}
use mintzy_plugin_kelly_opt.Pyramid.Lookup.{
  fetch_saved_trading_configuration, resolve_leverage_multiplier,
}
use mintzy_plugin_kelly_opt.Pyramid.Cash.{get_pyramid_free_cash}
use mintzy_plugin_kelly_opt.Pyramid.Entries.{build_pyramid_config_entries}
use mintzy_plugin_kelly_opt.Pyramid.Apply.{
  Verdict, Static, evaluate_all, static_of, sum_static, updated_entries,
  symbols_for_live_from_entries,
}
use mintzy_plugin_kelly_opt.Pyramid.Handoff.{
  Result, blocked, before_parenthesis, is_winner, removed_of, rows_of, finish_pyramid_handoff,
  hand_off,
}

module _ (N : Number) (D : Decimals N) (M : Mongo N.Float) (B : Broker N.Float) where
  open N use {Float, zero, one, times, divide, le}
  open M use {Store}
  open B use {Session, Payload}

  module _ (json_loads : Text → Call (Option (Root N.Float))) (now : ℕ) where
    -- From the dynamic multiplier on.
    unfoldable pub distribute :
        ConfigDoc Float
        → Float
        → List (Static Float)
        → List (Verdict Float)
        → Simulator Float Session Payload
        → Store
        → Result N D M B
    distribute doc dynamic_multiplier statics verdicts t st =
        let updated = updated_entries N D dynamic_multiplier statics [] in
        let removed = removed_of verdicts in
        let (saved, st1) =
          persist_pyramid_merged_updates M json_loads t.has_collection t.config_filter
            t.config_collection now doc updated removed st in
        if le dynamic_multiplier zero
        then finish_pyramid_handoff N D M B (blocked (codes "dynamic_multiplier_non_positive") [])
            (rows_of verdicts) t st
        else if is_empty updated
        then finish_pyramid_handoff N D M B (blocked (codes "no_symbols_updated") [])
            (rows_of verdicts) t st
        else hand_off N D M B saved (symbols_for_live_from_entries N D t.symbol_allocations updated)
            removed (rows_of verdicts) t st1

    -- From the verdicts on, with the cash to distribute.
    unfoldable pub allocate :
        ConfigDoc Float
        → Float
        → List (Verdict Float)
        → Simulator Float Session Payload
        → Store
        → Result N D M B
    allocate doc remaining_cash verdicts t st =
        let profitable = keep is_winner verdicts in
        let statics = collect (static_of N D) profitable in
        let total = sum_static N D zero statics in
        let losers = map before_parenthesis (removed_of verdicts) in
        if is_empty profitable
        then finish_pyramid_handoff N D M B (blocked (codes "no_profitable_symbols") losers)
            (rows_of verdicts) t st
        else if is_empty statics
        then finish_pyramid_handoff N D M B (blocked (codes "no_profitable_with_valid_rank") losers)
            (rows_of verdicts) t st
        else if le total zero
        then finish_pyramid_handoff N D M B (blocked (codes "capital_after_static_non_positive") [])
            (rows_of verdicts) t st
        else distribute doc (divide remaining_cash total) statics verdicts t st

    -- From the entries on: the cash, the leverage and the evaluation.
    unfoldable pub evaluate_and_allocate :
        ConfigDoc Float
        → Dict ℤ
        → List (Text × (Entry Float × Float))
        → Simulator Float Session Payload
        → Store
        → Result N D M B
    evaluate_and_allocate doc rank_map entries t st =
        let (free_cash, t1) = get_pyramid_free_cash N D B t in
        elim free_cash [
          | none ↦ (
            returned (
                blocked
                  (if t1.cash_fetch_timed_out
                    then codes "broker_cash_timeout"
                    else codes "broker_cash_unavailable")
                  []),
            (t1, st),
          )
          | some cash ↦
              let (mult, t2) = resolve_leverage_multiplier N D json_loads M (some doc) one t1 st in
              let (verdicts, t3) = evaluate_all N D M rank_map st entries t2 in
              allocate doc (times cash mult) verdicts t3 st
        ]

    -- From the document on.
    unfoldable pub with_document :
        ConfigDoc Float → Simulator Float Session Payload → Store → Result N D M B
    with_document doc t st =
        let root = normalize_configuration_root json_loads doc in
        elim (get_configuration_symbols_ref root) [
          | none ↦ (returned (blocked (codes "configuration_symbols_missing") []), (t, st))
          | some (symbols_list, set_path) ↦
              let rank_map = build_configuration_rank_map N D root in
              let entries = build_pyramid_config_entries N D root symbols_list rank_map t in
              if is_empty entries
              then (returned (blocked (codes "no_symbols_to_evaluate") []), (t, st))
              else evaluate_and_allocate doc rank_map entries t st
        ]

    -- The handoff of a stop that came before.
    unfoldable pub cached_handoff : Simulator Float Session Payload → PyramidHandoff Float
    cached_handoff t = elim t.handoff_result [
      | some h ↦ h
      | none ↦ elim t.handoff_result_cache [
        | some h ↦ h
        | none ↦ record {
          applied = true;
          live_allowed = false;
          reason = codes "already_applied_no_handoff";
          profitable_count = 0;
          symbols_for_live = [];
          removed_symbols = [];
        }
      ]
    ]

    unfoldable pub apply_capital_pyramid_on_stop :
        Simulator Float Session Payload → Store → Result N D M B
    unfolding cached_handoff with_document
    apply_capital_pyramid_on_stop t st =
        let (found, t1) = fetch_saved_trading_configuration M t.configuration_id t st in
        if t.pyramid_applied
        then (returned (cached_handoff t), (t, st))
        else elim (present t.configuration_id) [
          | none ↦ (returned (blocked (codes "configuration_id_missing") []), (t, st))
          | some cid ↦ elim found [
            | none ↦ (returned (blocked (codes "configuration_not_found") []), (t1, st))
            | some doc ↦ with_document doc t1 st
          ]
        ]

    -- The part of `shutdown` that stores the handoff.
    unfoldable pub shutdown :
        Simulator Float Session Payload → Store → Simulator Float Session Payload × Store
    shutdown t st =
        let (result, (t1, st1)) = apply_capital_pyramid_on_stop t st in
        elim result [
          | returned h ↦ (record t1 { handoff_result = some h }, st1)
          | raised ↦
              (record t1 { handoff_result = some (blocked (codes "pyramid_exception") []) }, st1)
        ]
