-- ===== src/Pyramid/Cash.antt =====
-- The free cash of the pyramid, of auto_trader_exposure_expansion/broker_cash.py.
use mintzy_plugin_kelly_opt.Base.{
  ◌==◌, Bool, true, false, ◌&&◌, ◌||◌, not, Option, none, some, List, [], ◌∷◌, returned, raised,
  if◌then◌else◌,
}
use mintzy_plugin_kelly_opt.Base.Text.{Text, codes, text_eq, lower}
use mintzy_plugin_kelly_opt.Base.Dict.{Dict, lookup}
use mintzy_plugin_kelly_opt.Number.{Number}
use mintzy_plugin_kelly_opt.Decimals.{Decimals, Field, float_of}
use mintzy_plugin_kelly_opt.Pyramid.Simulator.{
  Simulator, Broker, Balance, BalanceCall, answered, unreadable, timed_out, failed,
}

-- `p in s`
unfoldable pub starts_with : Text → Text → Bool
starts_with [] s = true
starts_with (a ∷ p) [] = false
starts_with (a ∷ p) (b ∷ s) = (a == b) && starts_with p s

unfoldable pub occurs_in : Text → Text → Bool
unfolding starts_with
occurs_in p [] = starts_with p []
occurs_in p (b ∷ s) = starts_with p (b ∷ s) || occurs_in p s

-- The keys of the balance's data that may hold the cash, in order.
unfoldable pub cash_keys : List Text
cash_keys =
    codes "availablecash"
    ∷ codes "available_cash"
    ∷ codes "availableCash"
    ∷ codes "net"
    ∷ codes "cash"
    ∷ []

module _ (N : Number) (D : Decimals N) where
  open N use {Float, zero, le}

  -- `float(value)` where it does not raise and is at least 0.
  unfoldable pub cash_of : Option (Field Float) → Option Float
  cash_of none = none
  cash_of (some value) = elim (float_of N D value) [
    | raised ↦ none
    | returned free_cash ↦ if le zero free_cash then some free_cash else none
  ]

  unfoldable pub first_cash : List Text → Dict (Field Float) → Option Float
  unfolding cash_of
  first_cash [] d = none
  first_cash (key ∷ ks) d =
      let rest = first_cash ks d in
      elim (cash_of (lookup key d)) [ none ↦ rest | some free_cash ↦ some free_cash ]

  unfoldable pub parse_broker_free_cash : Balance Float → Option Float
  unfolding cash_of first_cash
  parse_broker_free_cash b =
      if not (text_eq b.status (codes "success")) then none else elim (cash_of b.free_cash) [
        | some free_cash ↦ some free_cash
        | none ↦ elim b.payload [ none ↦ none | some d ↦ first_cash cash_keys d ]
      ]

  module _ (B : Broker Float) where
    open B use {Session, Payload, restore_session, get_account_balance}

    unfoldable pub restored_session :
        Simulator Float Session Payload → Option Session × Simulator Float Session Payload
    restored_session t = elim t.broker_session_payload [
      | none ↦ (none, t)
      | some payload ↦ if not t.has_broker then (none, t) else elim (restore_session payload) [
        | raised ↦ (none, t)
        | returned none ↦ (none, t)
        | returned (some s) ↦ (some s, record t { broker_live_session = some s })
      ]
    ]

    unfoldable pub resolve_live_broker_session :
        Simulator Float Session Payload → Option Session × Simulator Float Session Payload
    unfolding restored_session
    resolve_live_broker_session t = elim t.broker_live_session [
      | some live ↦ (some live, t)
      | none ↦ elim t.session [
        | none ↦ restored_session t
        | some (s, paper) ↦
            if paper
            then restored_session t
            else (some s, record t { broker_live_session = some s })
      ]
    ]

    -- The cash of an answer, and whether the request timed out.
    unfoldable pub read_balance : BalanceCall Float → Option Float × Bool
    read_balance (answered b) = elim (parse_broker_free_cash b) [
      | some free_cash ↦ (some free_cash, false)
      | none ↦ (none, occurs_in (codes "timed out") (lower b.error))
    ]
    read_balance (unreadable answer) = (none, occurs_in (codes "timed out") (lower answer))
    read_balance timed_out = (none, true)
    read_balance failed = (none, false)

    unfoldable pub fetch_broker_free_cash :
        Simulator Float Session Payload → Option Float × Simulator Float Session Payload
    unfolding read_balance
    fetch_broker_free_cash t =
        let (live, t1) = resolve_live_broker_session (record t { cash_fetch_timed_out = false }) in
        elim live [
          | none ↦ (none, t1)
          | some s ↦
              if not t1.has_broker
              then (none, t1)
              else let (cash, late) = read_balance (get_account_balance s) in
                (cash, record t1 { cash_fetch_timed_out = late })
        ]

    unfoldable pub get_pyramid_free_cash :
        Simulator Float Session Payload → Option Float × Simulator Float Session Payload
    get_pyramid_free_cash t =
        let (broker_cash, t1) = fetch_broker_free_cash t in
        elim broker_cash [
          | some cash ↦ (some cash, t1)
          | none ↦ (cash_of (some t1.session_free_cash), t1)
        ]
