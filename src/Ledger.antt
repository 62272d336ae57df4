-- ===== src/Ledger.antt =====
-- utils/session_ledger.py: the signed position ledger that the engine keeps for its own fills.
-- A positive quantity is long, a negative one short, and a flat symbol has no entry.
pub mod Tracking
use mintzy_plugin_kelly_opt.Base.{
  ℕ, Bool, true, false, ◌&&◌, ◌||◌, not, Option, none, some, List, [], ◌∷◌, is_empty, any, get_or,
  Call, returned, raised, if◌then◌else◌, leb,
}
use mintzy_plugin_kelly_opt.Base.Int.{ℤ, pos, pos_part, ◌+ℤ◌, neg, is_zero, is_pos}
use mintzy_plugin_kelly_opt.Base.Text.{Text, codes, text_eq, upper}
use mintzy_plugin_kelly_opt.Base.Dict.{Dict, lookup, insert, pop, values}
use mintzy_plugin_kelly_opt.Base.SymbolSet.{member}
use mintzy_plugin_kelly_opt.RedisKeys.{
  session_redis_ttl, session_order_ids_key, session_symbols_traded_key,
}
use mintzy_plugin_kelly_opt.Redis.{Redis, SessionMeta}
use mintzy_plugin_kelly_opt.Symbols.{Environ, is_enabled, normalize_symbol, present}

-- The two order sides.
abbrev pub buy : Text
buy = codes "BUY"

abbrev pub sell : Text
sell = codes "SELL"

-- What the functions here read and write of a trader. `open_qty` is `_session_open_qty`, and
-- `has_lock` says whether `_session_open_qty_lock` is there.
pub record Trader : Type 0 where
  pub ui_session_id : Option Text
  pub session_id : Option Text
  pub has_lock : Bool
  pub open_qty : Option (Dict ℤ)

abbrev pub buy_fill_actions : List Text
buy_fill_actions =
    codes "OPEN_LONG" ∷ codes "EXPAND_LONG" ∷ codes "FLIP_TO_LONG" ∷ codes "COVER_SHORT" ∷ []

abbrev pub sell_fill_actions : List Text
sell_fill_actions =
    codes "OPEN_SHORT"
    ∷ codes "EXPAND_SHORT"
    ∷ codes "FLIP_TO_SHORT"
    ∷ codes "EXIT_LONG"
    ∷ codes "SINGLE_EXIT"
    ∷ []

unfoldable pub eod_use_session_ledger_enabled : Environ → Bool
eod_use_session_ledger_enabled environ = is_enabled (environ (codes "EOD_USE_SESSION_LEDGER"))

unfoldable pub get_trader_session_id : Trader → Option Text
get_trader_session_id t = elim (present t.ui_session_id) [ some s ↦ some s | none ↦ t.session_id ]

unfoldable pub get_session_ledger : Trader → Dict ℤ
get_session_ledger t = get_or t.open_qty []

unfoldable pub ledger_has_open_positions : Trader → Bool
ledger_has_open_positions t = any (λ q. not (is_zero q)) (values (get_session_ledger t))

-- BUY adds and SELL subtracts; the action decides only where the side is missing.
unfoldable pub signed_fill_delta : ℕ → Text → Text → Option ℤ
signed_fill_delta fill side action_type =
    let order_side = upper side in
    let action = upper action_type in
    if member order_side (codes "BUY" ∷ codes "B" ∷ [])
    then some (pos fill)
    else if member order_side (codes "SELL" ∷ codes "S" ∷ [])
    then some (neg (pos fill))
    else if member action buy_fill_actions
    then some (pos fill)
    else if member action sell_fill_actions
    then some (neg (pos fill))
    else none

unfoldable pub compute_ledger_qty_after_fill : ℤ → ℤ → Text → Text → Option ℤ
compute_ledger_qty_after_fill current fill_qty action_type side =
    let fill = pos_part fill_qty in
    if leb fill 0 then some current else elim (signed_fill_delta fill side action_type) [
      | none ↦ none
      | some delta ↦ some (current +ℤ delta)
    ]

-- The ledger's entry of a symbol, 0 where there is none.
abbrev pub entry : Text → Dict ℤ → ℤ
entry sym ledger = get_or (lookup sym ledger) (pos 0)

-- The entry of a symbol becomes `qty`: a flat symbol's entry goes.
unfoldable pub store_qty : Text → ℤ → Dict ℤ → Dict ℤ
store_qty sym qty ledger = if is_zero qty then pop sym ledger else insert sym qty ledger

-- The section under the lock: `none` where the fill's side is unknown.
unfoldable pub post_fill : Dict ℤ → Text → ℤ → Text → Text → Option (Dict ℤ)
post_fill ledger sym fill_qty action_type side =
    elim (compute_ledger_qty_after_fill (entry sym ledger) fill_qty action_type side) [
      | none ↦ none
      | some new_qty ↦ some (store_qty sym new_qty ledger)
    ]

module _ (R : Redis) where
  open R use {Store, sadd, expire}

  -- A set of the session gets a member and the time to live; an error is logged and dropped.
  unfoldable pub add_member : Text → Text → Store → Store
  add_member key m client =
      let (added, client') = sadd key m client in
      elim added [ raised ↦ client' | returned _ ↦ (expire key session_redis_ttl client').1 ]

  unfoldable pub record_engine_order : Option Store → Option Text → Option Text → Option Store
  record_engine_order none session_id order_id = none
  record_engine_order (some client) session_id order_id = elim (present session_id) [
    | none ↦ some client
    | some sid ↦ elim (present order_id) [
      | none ↦ some client
      | some oid ↦ some (add_member (session_order_ids_key sid) oid client)
    ]
  ]

  unfoldable pub record_symbol_traded : Option Store → Option Text → Text → Option Store
  record_symbol_traded none session_id symbol = none
  record_symbol_traded (some client) session_id symbol = elim (present session_id) [
    | none ↦ some client
    | some sid ↦
        let sym = normalize_symbol symbol in
        if is_empty sym
        then some client
        else some (add_member (session_symbols_traded_key sid) sym client)
  ]

  unfoldable pub record_engine_order_for_trader : Trader → Option Store → Option Text → Option Store
  record_engine_order_for_trader t client order_id =
      record_engine_order client (get_trader_session_id t) order_id

  -- The ledger with one confirmed fill, and the client after the symbol has been noted as traded.
  unfoldable pub apply_fill_to_session_ledger :
      Environ → Trader × Option Store → Text → ℤ → Text → Text → Trader × Option Store
  apply_fill_to_session_ledger environ (t, client) symbol qty action_type side =
      let sym = normalize_symbol symbol in
      if not (eod_use_session_ledger_enabled environ)
      then (t, client)
      else if is_empty sym || not (is_pos qty)
      then (t, client)
      else if not t.has_lock
      then (t, client)
      else elim t.open_qty [
        | none ↦ (t, client)
        | some ledger ↦ elim (post_fill ledger sym qty action_type side) [
          | none ↦ (t, client)
          | some ledger' ↦ (
            record t { open_qty = some ledger' },
            record_symbol_traded client (get_trader_session_id t) sym,
          )
        ]
      ]
