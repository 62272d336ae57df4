-- ===== src/Exposure.antt =====
-- auto_trader_exposure_expansion_org/exposure_risk.py: the leverage, the exposure of a symbol with what
-- is reserved for orders on their way, and the cap on it. The coercion of a multiplier and the keys of
-- a configuration are those of Pyramid/Lookup, whose source the live package repeats. Locks, log lines
-- and timings are left out; a reservation is made under the symbol's lock, so it is one step.
pub mod FreeCash
pub mod Funds
pub mod Leverage
use mintzy_plugin_kelly_opt.Base.{
  Bool, true, false, ◌&&◌, not, Option, none, some, List, [], ◌∷◌, get_or, Call, returned, raised,
  if◌then◌else◌,
}
use mintzy_plugin_kelly_opt.Base.Int.{pos, abs, is_zero}
use mintzy_plugin_kelly_opt.Base.Text.{Text, text_eq}
use mintzy_plugin_kelly_opt.Base.Dict.{Dict, lookup, insert}
use mintzy_plugin_kelly_opt.Symbols.{present}
use mintzy_plugin_kelly_opt.Number.{Number}
use mintzy_plugin_kelly_opt.Decimals.{Decimals, Field, real}
use mintzy_plugin_kelly_opt.Pyramid.Document.{Root, ConfigDoc}
use mintzy_plugin_kelly_opt.Pyramid.Merge.{Query, by_id, by_configuration_id, Mongo}
use mintzy_plugin_kelly_opt.Pyramid.Lookup.{
  collection_candidates, find_in, coerce_leverage_multiplier, leverage_from_config_doc,
}
use mintzy_plugin_kelly_opt.OrderFill.{BrokerRow, LiveTrader}

-- A cached row of the broker's positions with its last price. A missing number is 0.
pub record CachedRow (F : Type 0) : Type 0 where
  pub row : BrokerRow F
  pub ltp : F

-- The entry and last prices of a symbol in `live_pnl`; a missing number is 0.
pub record Mark (F : Type 0) : Type 0 where
  pub entry : F
  pub ltp : F

-- What the exposure of a symbol is computed from: the trader, and the attributes of the session.
pub record Desk (F S : Type 0) : Type 0 where
  pub trader : LiveTrader F S
  pub leverage_multiplier : Field F
  pub configuration_id : Option Text
  pub has_collection : Bool
  pub initial_capital : F
  pub max_exposure_pct : F
  pub broker_positions_cache : List (CachedRow F)
  pub live_pnl : Dict (Mark F)

module _ {F : Type 0} where
  -- The first cached row of the symbol with a quantity.
  unfoldable pub open_row : Text → List (CachedRow F) → Option (CachedRow F)
  open_row symbol [] = none
  open_row symbol (p ∷ rows) =
      let rest = open_row symbol rows in
      if text_eq p.row.symbol symbol && not (is_zero p.row.qty) then some p else rest

  module _ (M : Mongo F) where
    open M use {Store, object_id}

    unfoldable pub leverage_queries : Text → List Query
    leverage_queries configuration_id = elim (object_id configuration_id) [
      | raised ↦ by_configuration_id configuration_id ∷ []
      | returned none ↦ by_configuration_id configuration_id ∷ []
      | returned (some oid) ↦
          by_id oid ∷ by_configuration_id configuration_id ∷ by_configuration_id oid ∷ []
    ]

    module _ (has_name : Text → Store → Call Bool) where
      -- The loop over the collections, of which only those that the database lists are searched.
      unfoldable pub search_collections :
          Store → List Query → List Text → Call (Option (ConfigDoc F))
      search_collections st queries [] = returned none
      search_collections st queries (coll_name ∷ names) =
          let rest = search_collections st queries names in
          elim (has_name coll_name st) [
            | raised ↦ raised
            | returned false ↦ rest
            | returned true ↦ elim (find_in M st coll_name queries) [
              | none ↦ rest
              | some (query, doc) ↦ returned (some doc)
            ]
          ]

module _ (N : Number) (D : Decimals N) (json_loads : Text → Call (Option (Root N.Float))) where
  open N use {Float, zero, of_int, plus, times, is_pos, le}
  open D use {decimal}

  module _ (M : Mongo Float) (has_name : Text → M.Store → Call Bool) {S : Type 0} where
    open M use {Store}

    unfoldable pub fetch_saved_trading_configuration_for_leverage :
        Desk Float S → Store → Call (Option (ConfigDoc Float))
    unfolding leverage_queries search_collections
    fetch_saved_trading_configuration_for_leverage d st = elim (present d.configuration_id) [
      | none ↦ returned none
      | some cid ↦
          if not d.has_collection
          then returned none
          else search_collections M has_name st (leverage_queries M cid) collection_candidates
    ]

    abbrev keep_leverage : Desk Float S → Float → Call (Float × Desk Float S)
    keep_leverage d mult = returned (mult, record d { leverage_multiplier = real mult })

    -- `_resolve_leverage_multiplier(default=…)`, which keeps what it found.
    unfoldable pub resolve_leverage_multiplier :
        Float → Desk Float S → Store → Call (Float × Desk Float S)
    resolve_leverage_multiplier default d st =
        elim (coerce_leverage_multiplier N D json_loads d.leverage_multiplier) [
          | some mult ↦ keep_leverage d mult
          | none ↦ elim (fetch_saved_trading_configuration_for_leverage d st) [
            | raised ↦ raised
            | returned none ↦ keep_leverage d default
            | returned (some doc) ↦
                keep_leverage d (get_or (leverage_from_config_doc N D json_loads doc) default)
          ]
        ]

  module _ {S : Type 0} where
    -- The first of the ledger's entry, the tick's entry and price, and the broker's price that is
    -- positive.
    unfoldable pub fallback_mark_price : Desk Float S → Text → CachedRow Float → Float
    fallback_mark_price d symbol broker_pos =
        let from_broker = if is_pos broker_pos.ltp then broker_pos.ltp else zero in
        let from_ticks : Float = elim (lookup symbol d.live_pnl) [
          | none ↦ from_broker
          | some tick ↦
              if is_pos tick.entry
              then tick.entry
              else if is_pos tick.ltp
              then tick.ltp
              else from_broker
        ] in
        elim (lookup symbol d.trader.account.positions) [
          | none ↦ from_ticks
          | some p ↦ if is_pos p.entry_price then p.entry_price else from_ticks
        ]

    unfoldable pub stock_exposure : Desk Float S → Text → Float
    unfolding fallback_mark_price open_row
    stock_exposure d symbol = elim (open_row symbol d.broker_positions_cache) [
      | none ↦ zero
      | some p ↦
          let qty = of_int (pos (abs p.row.qty)) in
          let mark = fallback_mark_price d symbol p in
          if is_pos p.row.avg_price
          then times qty p.row.avg_price
          else if le mark zero
          then zero
          else times qty mark
    ]

    unfoldable pub total_symbol_exposure : Desk Float S → Text → Float
    total_symbol_exposure d symbol =
        plus (stock_exposure d symbol) (get_or (lookup symbol d.trader.reserved_exposure) zero)

    -- The cap on a symbol's exposure at a leverage.
    unfoldable pub max_allowed : Desk Float S → Float → Float
    max_allowed d mult = times d.max_exposure_pct (times mult d.initial_capital)

    unfoldable pub reserve_exposure : Text → Float → Desk Float S → Desk Float S
    reserve_exposure symbol order_value d =
        let reserved = d.trader.reserved_exposure in
        record d {
          trader = record d.trader {
            reserved_exposure =
                insert symbol (plus (get_or (lookup symbol reserved) zero) order_value) reserved;
          };
        }

  module _ (M : Mongo Float) (has_name : Text → M.Store → Call Bool) {S : Type 0} where
    open M use {Store}

    -- Whether the order fits below the cap; the desk keeps the leverage.
    unfoldable pub can_reserve_exposure :
        Text → Float → Desk Float S → Store → Call (Bool × Desk Float S)
    can_reserve_exposure symbol order_value d st =
        elim (resolve_leverage_multiplier M has_name (decimal 40 1) d st) [
          | raised ↦ raised
          | returned (mult, d') ↦
              returned
                (le (plus (total_symbol_exposure d' symbol) order_value) (max_allowed d' mult), d')
        ]
