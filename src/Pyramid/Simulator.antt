-- ===== src/Pyramid/Simulator.antt =====
-- The state of the simulation trader that the capital pyramid reads and writes: attributes of the
-- AutoTrader of auto_trader_exposure_expansion, under their names without a leading underscore.
use mintzy_plugin_kelly_opt.Base.{ℕ, Bool, Option, List, Call}
use mintzy_plugin_kelly_opt.Base.Text.{Text}
use mintzy_plugin_kelly_opt.Base.Dict.{Dict}
use mintzy_plugin_kelly_opt.Decimals.{Field}
use mintzy_plugin_kelly_opt.PaperEngine.{PaperPosition, OpenPosition}
use mintzy_plugin_kelly_opt.Pyramid.Merge.{Query}

-- A row of `symbols_for_live`.
pub record LiveRow (F : Type 0) : Type 0 where
  pub symbol : Text
  pub capital : F
  pub stop_loss : F

-- `_build_pyramid_handoff_result`: the arguments that are left out there are 0 and [].
pub record PyramidHandoff (F : Type 0) : Type 0 where
  pub applied : Bool
  pub live_allowed : Bool
  pub reason : Text
  pub profitable_count : ℕ
  pub symbols_for_live : List (LiveRow F)
  pub removed_symbols : List Text

-- An allocation of a symbol: a dictionary, or another value.
pub data Alloc (F : Type 0) : Type 0 where
  sized : Field F → Option (Field F) → Alloc F
  plain : Field F → Alloc F

-- The broker's answer to the request for the balance.
pub record Balance (F : Type 0) : Type 0 where
  pub status : Text
  pub free_cash : Option (Field F)
  pub payload : Option (Dict (Field F))
  pub error : Text

-- The broker's connector, with its sessions that have a connection: `restore_session` gives one, or
-- something else, or raises; a raised request for the balance tells whether it timed out.
pub data BalanceCall (F : Type 0) : Type 0 where
  answered : Balance F → BalanceCall F
  unreadable : Text → BalanceCall F
  timed_out : BalanceCall F
  failed : BalanceCall F

pub record Broker (F : Type 0) : Type 1 where
  pub Session : Type 0
  pub Payload : Type 0
  pub restore_session : Payload → Call (Option Session)
  pub get_account_balance : Session → BalanceCall F

pub record Simulator (F S P : Type 0) : Type 0 where
  pub pyramid_applied : Bool
  pub handoff_result : Option (PyramidHandoff F)
  pub handoff_result_cache : Option (PyramidHandoff F)
  pub configuration_id : Option Text
  -- `trading_logs_collection is not None`
  pub has_collection : Bool
  pub config_filter : Option Query
  pub config_collection : Option Text
  pub symbol_allocations : Dict (Alloc F)
  pub initial_allocations : Dict (Alloc F)
  pub paper_positions : Dict (PaperPosition F)
  pub positions : Dict (OpenPosition F)
  pub exited_symbols : List Text
  -- The pnl of a symbol's last tick, and the price of the cycle.
  pub live_pnl : Dict F
  pub cycle_ltp_cache : Dict F
  -- Symbol and average price of the broker's positions.
  pub broker_positions_cache : List (Text × F)
  pub realized_pnl_by_symbol : Dict F
  pub leverage_multiplier : Field F
  pub ui_session_id : Option Text
  pub session_id : Option Text
  pub session_free_cash : Field F
  pub cash_fetch_timed_out : Bool
  -- The sessions that have a connection; that of `session` with its flag `paper`.
  pub broker_live_session : Option S
  pub session : Option (S × Bool)
  pub broker_session_payload : Option P
  pub has_broker : Bool
