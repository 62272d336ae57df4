-- ===== src/ExitPlan/Build.antt =====
-- The whole plan builder of utils/session_ledger.py, with its switches.
use mintzy_plugin_kelly_opt.Base.{◌≡◌, true, Option, List, All, if◌then◌else◌, Call}
use mintzy_plugin_kelly_opt.Base.Text.{Text}
use mintzy_plugin_kelly_opt.Base.Dict.{lookup}
use mintzy_plugin_kelly_opt.Base.SymbolSet.{member}
use mintzy_plugin_kelly_opt.Redis.{Redis, SessionMeta}
use mintzy_plugin_kelly_opt.Symbols.{Environ, BrokerPosition, exit_only_session_symbols_enabled}
use mintzy_plugin_kelly_opt.Ledger.{
  Trader, eod_use_session_ledger_enabled, get_session_ledger, entry,
}
use mintzy_plugin_kelly_opt.ExitPlan.{
  broker_positions_to_map, effective_allow_list, build_eod_exit_plan,
}
use mintzy_plugin_kelly_opt.ExitPlan.Quantities.{
  planned, exitable, planned_exact, IsSafe, plan-IsSafe,
}

module _ (R : Redis) (json_loads : Text → Call SessionMeta) where
  open R use {Store}

  module _ {F : Type 0} (environ : Environ) (t : Trader) (client : Option Store)
      (positions : List (BrokerPosition F)) (fallback : List Text)
      (scoped : exit_only_session_symbols_enabled environ ≡ true)
      (by_ledger : eod_use_session_ledger_enabled environ ≡ true) where
    -- With both switches on, the plan's total quantity of a symbol is what the session owns of it
    -- as far as the broker holds it on the same side, if the symbol is allowed, and 0 otherwise.
    pub build_exact :
        (sym : Text)
        → planned sym (build_eod_exit_plan R json_loads environ t client positions fallback).0 ≡ (
            if member sym (effective_allow_list R json_loads t client fallback)
            then exitable
                (entry sym (get_session_ledger t))
                (lookup sym (broker_positions_to_map positions))
            else 0)
    unfolding build_eod_exit_plan
    build_exact sym =
        rw (scoped, by_ledger)
          (planned_exact (effective_allow_list R json_loads t client fallback)
            (get_session_ledger t) (broker_positions_to_map positions) sym)

    -- With both switches on, every row of the exit plan has a positive quantity that exceeds
    -- neither the session's own position nor the broker's, and a side that closes both.
    pub build-IsSafe :
        All
          (IsSafe (get_session_ledger t) (broker_positions_to_map positions))
          (build_eod_exit_plan R json_loads environ t client positions fallback).0
    unfolding build_eod_exit_plan
    build-IsSafe =
        rw (scoped, by_ledger, All)
          (plan-IsSafe (effective_allow_list R json_loads t client fallback) (get_session_ledger t)
            (broker_positions_to_map positions))
