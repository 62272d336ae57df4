-- ===== src/EodExit.antt =====
-- utils/eod_exit.py: the guard that lets one caller at a time run the end-of-day exit, the decision
-- whether an empty plan ends the day, and the clearing of the books.
pub mod Exclusion
use mintzy_plugin_kelly_opt.Base.{
  ℕ, Bool, true, false, Option, none, some, List, [], ◌∷◌, map, length, get_or, Call, if◌then◌else◌,
}
use mintzy_plugin_kelly_opt.Base.Int.{ℤ}
use mintzy_plugin_kelly_opt.Base.Text.{Text}
use mintzy_plugin_kelly_opt.Base.Dict.{Dict}
use mintzy_plugin_kelly_opt.Redis.{Redis, SessionMeta}
use mintzy_plugin_kelly_opt.Symbols.{Environ, BrokerPosition}
use mintzy_plugin_kelly_opt.Ledger.{Trader, ledger_has_open_positions}
use mintzy_plugin_kelly_opt.ExitPlan.{ExitRow, SkipSummary, build_eod_exit_plan}

-- `_eod_exit_done` and `_eod_exit_in_progress`, which a trader may not have yet.
pub record EodState : Type 0 where
  pub exit_done : Option Bool
  pub in_progress : Option Bool

-- The answers 'proceed', 'done' and 'busy'.
pub data Slot : Type 0 where
  proceed finished busy : Slot

unfoldable pub ensure_eod_state : EodState → EodState
ensure_eod_state s = record {
  exit_done = some (get_or s.exit_done false);
  in_progress = some (get_or s.in_progress false);
}

-- Each of the three below runs under the trader's lock, so as one step.
unfoldable pub try_begin_eod_exit : EodState → Slot × EodState
unfolding ensure_eod_state
try_begin_eod_exit s0 =
    let s = ensure_eod_state s0 in
    if get_or s.exit_done false
    then (finished, s)
    else if get_or s.in_progress false
    then (busy, s)
    else (proceed, record s { in_progress = some true })

unfoldable pub mark_eod_exit_done : EodState → EodState
mark_eod_exit_done s = record { exit_done = some true; in_progress = some false }

unfoldable pub release_eod_exit_in_progress : EodState → EodState
unfolding ensure_eod_state
release_eod_exit_in_progress s = record (ensure_eod_state s) { in_progress = some false }

-- What the shutdown touches: the position book, where there is one, the ledger, and the rest of the
-- trader, which only the broker's cash synchronisation changes.
pub record Books {ℓ κ} (P : Type ℓ) (C : Type κ) : Type (ℓ ⊔ κ) where
  pub positions : Option (Dict P)
  pub trader : Trader
  pub cash : C

unfoldable pub clear_ledger : Trader → Trader
clear_ledger t =
    if t.has_lock
    then record t { open_qty = elim t.open_qty [ none ↦ none | some _ ↦ some [] ] }
    else t

module _ {ℓ κ} {P : Type ℓ} {C : Type κ} where
  unfoldable pub clear_books : Books P C → Books P C
  unfolding clear_ledger
  clear_books b = record b {
    positions = elim b.positions [ none ↦ none | some _ ↦ some [] ];
    trader = clear_ledger b.trader;
  }

  -- `sync_cash` is the trader's `_sync_cash_with_broker`, where it has one; what it raises is logged
  -- and dropped.
  unfoldable pub finalize_eod_shutdown : Option (C → C) → Bool → Bool → Books P C → Books P C
  unfolding clear_books
  finalize_eod_shutdown sync_cash clear_positions sync_broker b0 =
      let b = if clear_positions then clear_books b0 else b0 in
      if sync_broker
      then record b { cash = elim sync_cash [ none ↦ b.cash | some f ↦ f b.cash ] }
      else b

-- The three status messages.
pub data PlanStatus : Type 0 where
  positions_to_exit : ℕ → PlanStatus
  ledger_open_plan_empty : PlanStatus
  nothing_to_exit : PlanStatus

-- The decision on a plan: the plan, whether the day may be marked done without orders, the status.
unfoldable pub judge_plan :
    {F : Type 0} → List (ExitRow F) → Trader → List (ExitRow F) × Bool × PlanStatus
judge_plan (r ∷ plan) t = (r ∷ plan, false, positions_to_exit (length (r ∷ plan)))
judge_plan [] t =
    if ledger_has_open_positions t
    then ([], false, ledger_open_plan_empty)
    else ([], true, nothing_to_exit)

module _ (R : Redis) (json_loads : Text → Call SessionMeta) where
  open R use {Store}

  unfoldable pub prepare_eod_exit_plan :
      {F : Type 0}
      → Environ
      → Trader
      → Option Store
      → List (BrokerPosition F)
      → List Text
      → List (ExitRow F) × Bool × PlanStatus
  unfolding judge_plan
  prepare_eod_exit_plan environ t client broker_positions fallback_symbols =
      judge_plan
        (build_eod_exit_plan R json_loads environ t client broker_positions fallback_symbols).0 t

-- A row of the plan as the order loop reads it.
pub record ExitPosition (F : Type 0) : Type 0 where
  pub symbol : Text
  pub side : Text
  pub qty : ℕ
  pub ltp : Option F
  pub ledger_qty : ℤ
  pub broker_qty : ℕ

unfoldable pub exit_plan_to_broker_positions :
    {F : Type 0} → List (ExitRow F) → List (ExitPosition F)
exit_plan_to_broker_positions = map λ r. record {
  symbol = r.symbol;
  side = r.side;
  qty = r.qty;
  ltp = r.ltp;
  ledger_qty = r.ledger_qty;
  broker_qty = r.broker_qty;
}
