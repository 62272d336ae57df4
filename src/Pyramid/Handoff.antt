-- ===== src/Pyramid/Handoff.antt =====
-- The handoff of the pyramid of auto_trader_exposure_expansion: `_build_pyramid_handoff_result` and
-- `_finish_pyramid_handoff` of broker_cash.py, and the end of `_apply_capital_pyramid_on_stop` of
-- pyramid.py, which follows the save of the configuration.
use mintzy_plugin_kelly_opt.Base.{
  Bool, true, false, not, Option, none, some, List, [], ◌∷◌, ◌==◌, map, keep, length, is_empty,
  Call, returned, raised, if◌then◌else◌,
}
use mintzy_plugin_kelly_opt.Base.Text.{Text, codes}
use mintzy_plugin_kelly_opt.Base.SymbolSet.{of_list}
use mintzy_plugin_kelly_opt.Symbols.{present}
use mintzy_plugin_kelly_opt.Number.{Number}
use mintzy_plugin_kelly_opt.Decimals.{Decimals}
use mintzy_plugin_kelly_opt.Pyramid.Merge.{Mongo, PnlRow}
use mintzy_plugin_kelly_opt.Pyramid.Simulator.{Simulator, PyramidHandoff, LiveRow, Broker}
use mintzy_plugin_kelly_opt.Pyramid.Apply.{Verdict}

-- A handoff without live trading.
abbrev pub blocked : {F : Type 0} → Text → List Text → PyramidHandoff F
blocked why removed = record {
  applied = false;
  live_allowed = false;
  reason = why;
  profitable_count = 0;
  symbols_for_live = [];
  removed_symbols = removed;
}

-- `item.split("(")[0]` of a text that starts with the key and a parenthesis.
unfoldable pub before_parenthesis : Text → Text
before_parenthesis [] = []
before_parenthesis (c ∷ s) = let rest = before_parenthesis s in if c == 40 then [] else c ∷ rest

-- `is_profitable` of a verdict's row, and the symbols that are removed.
abbrev pub is_winner : {F : Type 0} → Verdict F → Bool
is_winner v = v.row.is_profitable

abbrev pub removed_of : {F : Type 0} → List (Verdict F) → List Text
removed_of verdicts = map (λ v. v.symbol) (keep (λ v. not (is_winner v)) verdicts)

abbrev pub rows_of : {F : Type 0} → List (Verdict F) → List (PnlRow F)
rows_of = map (λ v. v.row)

module _ (N : Number) (D : Decimals N) (M : Mongo N.Float) (B : Broker N.Float) where
  open N use {Float, zero, one, times, divide, le}
  open M use {Store}
  open B use {Session, Payload}

  -- What a call of the pyramid gives: its handoff, or an error; the trader and the database.
  abbrev pub Result : Type 0
  Result = Call (PyramidHandoff Float) × (Simulator Float Session Payload × Store)

  -- `_persist_pyramid_pnls`
  unfoldable pub persist_pyramid_pnls :
      List (PnlRow Float) → Bool → Text → Simulator Float Session Payload → Store → Store
  persist_pyramid_pnls symbols applied reason t st =
      let sid : Option Text = elim (present t.ui_session_id) [
        | none ↦ present t.session_id
        | some s ↦ some s
      ] in
      elim sid [
        | none ↦ st
        | some s ↦
            if not t.has_collection
            then st
            else M.replace_report
                (record {
                  session_id = s;
                  pyramid_applied = applied;
                  reason = reason;
                  symbols = symbols;
                })
                st
      ]

  unfoldable pub finish_pyramid_handoff :
      PyramidHandoff Float → List (PnlRow Float) → Simulator Float Session Payload → Store → Result
  unfolding persist_pyramid_pnls
  finish_pyramid_handoff result pnl_rows t st =
      (returned result, (t, persist_pyramid_pnls pnl_rows result.applied result.reason t st))

  -- What follows the write of the configuration.
  unfoldable pub hand_off :
      Call Bool
      → Call (List (LiveRow Float))
      → List Text
      → List (PnlRow Float)
      → Simulator Float Session Payload
      → Store
      → Result
  hand_off raised live removed pnl_rows t st = (raised, (t, st))
  hand_off (returned saved) raised removed pnl_rows t st = (raised, (t, st))
  hand_off (returned false) (returned live) removed pnl_rows t st =
      finish_pyramid_handoff
        (record {
          applied = false;
          live_allowed = false;
          reason = codes "mongo_save_failed";
          profitable_count = length live;
          symbols_for_live = live;
          removed_symbols = [];
        })
        pnl_rows t st
  hand_off (returned true) (returned live) removed pnl_rows t st =
      let result : PyramidHandoff Float = record {
        applied = true;
        live_allowed = not (is_empty live);
        reason = if is_empty live then codes "no_symbols_for_live" else codes "ok";
        profitable_count = length live;
        symbols_for_live = live;
        removed_symbols = of_list removed;
      } in
      let (r, (t1, st1)) =
        finish_pyramid_handoff result pnl_rows (record t { pyramid_applied = true }) st in
      (r, (record t1 { handoff_result_cache = some result }, st1))
