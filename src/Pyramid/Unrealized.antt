-- ===== src/Pyramid/Unrealized.antt =====
-- The unrealised profit of a symbol, and whether it is exited: `_get_symbol_unrealized_pnl` of
-- auto_trader_exposure_expansion/fills.py, `_calculate_pnl` of analysis.py, and
-- `_get_exited_symbol_doc` of exit_tracking.py.
use mintzy_plugin_kelly_opt.Base.{
  ◌||◌, not, Option, none, some, List, [], ◌∷◌, is_empty, is_some, get_or, returned, raised,
  if◌then◌else◌,
}
use mintzy_plugin_kelly_opt.Base.Int.{ℤ, is_pos}
use mintzy_plugin_kelly_opt.Base.Text.{Text, codes, text_eq, upper, strip, drop_eq_suffix}
use mintzy_plugin_kelly_opt.Base.Dict.{Dict, lookup, insert}
use mintzy_plugin_kelly_opt.Base.SymbolSet.{member}
use mintzy_plugin_kelly_opt.Symbols.{normalize_symbol, present}
use mintzy_plugin_kelly_opt.Ledger.{buy, sell}
use mintzy_plugin_kelly_opt.Number.{Number}
use mintzy_plugin_kelly_opt.Decimals.{Decimals}
use mintzy_plugin_kelly_opt.PaperEngine.{PaperPosition, OpenPosition}
use mintzy_plugin_kelly_opt.Pyramid.Merge.{Mongo, ExitDoc}
use mintzy_plugin_kelly_opt.Pyramid.Simulator.{Simulator}

-- The statuses of a closed symbol.
unfoldable pub closed_statuses : List Text
closed_statuses = codes "EXITED" ∷ codes "RMS_EXITED" ∷ codes "CLOSED" ∷ []

module _ {F : Type 0} (M : Mongo F) {S P : Type 0} where
  open M use {Store, find_exited}

  unfoldable pub get_session_id_for_db : Simulator F S P → Text
  get_session_id_for_db t = elim (present t.ui_session_id) [
    | some sid ↦ strip sid
    | none ↦ strip (get_or t.session_id [])
  ]

  unfoldable pub get_exited_symbol_doc : Text → Simulator F S P → Store → Option (ExitDoc F)
  unfolding get_session_id_for_db
  get_exited_symbol_doc symbol t st =
      let sid = get_session_id_for_db t in
      let sym = normalize_symbol symbol in
      if is_empty sid || (not t.has_collection || is_empty sym)
      then none
      else elim (find_exited sid sym st) [
        | raised ↦ none
        | returned none ↦ none
        | returned (some doc) ↦ if member (upper doc.status) closed_statuses then some doc else none
      ]

module _ (N : Number) (D : Decimals N) where
  open N use {Float, zero, of_int, minus, times, le}
  open D use {round2, less, eq_zero}

  -- The broker's average price of a symbol where it is above 0; the first row of the symbol counts.
  unfoldable pub broker_price : Text → List (Text × Float) → Option Float
  broker_price symbol [] = none
  broker_price symbol ((s, avg_price) ∷ rows) =
      let rest = broker_price symbol rows in
      if text_eq s symbol then (if N.is_pos avg_price then some avg_price else none) else rest

  -- `abs(x)`
  unfoldable pub magnitude : Float → Float
  magnitude x = if less x zero then minus zero x else x

  -- The profit of a position with its entry price, from the validation on.
  unfoldable pub validated_pnl : Float → ℤ → Text → Float → Float
  unfolding magnitude
  validated_pnl entry_price qty side ltp =
      let pnl : Float =
        if text_eq side buy
        then times (minus ltp entry_price) (of_int qty)
        else times (minus entry_price ltp) (of_int qty) in
      if le entry_price zero
        || (not (is_pos qty)
            || (not (text_eq side buy || text_eq side sell)
                || less (times entry_price (of_int qty)) (magnitude pnl)))
      then zero
      else round2 pnl

  -- The result, and the positions with a missing entry price filled in.
  unfoldable pub calculate_pnl :
      Text
      → Float
      → List (Text × Float)
      → Dict (OpenPosition Float)
      → Float × Dict (OpenPosition Float)
  unfolding broker_price validated_pnl
  calculate_pnl symbol ltp broker_positions positions =
      if le ltp zero then (zero, positions) else elim (lookup symbol positions) [
        | none ↦ (zero, positions)
        | some p ↦
            let fresh : Option Float =
              if le p.entry_price zero then broker_price symbol broker_positions else none in
            (
              validated_pnl (get_or fresh p.entry_price) p.qty p.side ltp,
              elim fresh [
                | none ↦ positions
                | some price ↦ insert symbol (record p { entry_price = price }) positions
              ],
            )
      ]

  -- The price of the paper position, or else of the open position; an entry of `positions` has no
  -- key `ltp`.
  unfoldable pub paper_ltp : Option (PaperPosition Float) → Option Float
  paper_ltp none = none
  paper_ltp (some p) =
      let ltp = if eq_zero p.ltp then p.avg_price else p.ltp in
      if N.is_pos ltp then some ltp else none

  unfoldable pub cycle_ltp : Option Float → Option Float
  cycle_ltp none = none
  cycle_ltp (some ltp) = if N.is_pos ltp then some ltp else none

  unfoldable pub entry_ltp : Option (OpenPosition Float) → Option Float
  entry_ltp none = none
  entry_ltp (some p) = if N.is_pos p.entry_price then some p.entry_price else none

  module _ (M : Mongo Float) {S P : Type 0} where
    open M use {Store}

    -- The last price of a symbol: of the cycle, the paper position, or the open position.
    unfoldable pub last_price : Text → Simulator Float S P → Option Float
    unfolding paper_ltp cycle_ltp entry_ltp
    last_price symbol t = elim (cycle_ltp (lookup symbol t.cycle_ltp_cache)) [
      | some ltp ↦ some ltp
      | none ↦ elim (paper_ltp (lookup symbol t.paper_positions)) [
        | some ltp ↦ some ltp
        | none ↦ entry_ltp (lookup symbol t.positions)
      ]
    ]

    unfoldable pub get_symbol_unrealized_pnl :
        Text → Simulator Float S P → Store → Float × Dict (OpenPosition Float)
    get_symbol_unrealized_pnl symbol t st =
        let sym = drop_eq_suffix (upper symbol) in
        if member sym t.exited_symbols || is_some (get_exited_symbol_doc M sym t st)
        then (zero, t.positions)
        else elim (lookup sym t.live_pnl) [
          | some pnl ↦ (pnl, t.positions)
          | none ↦ elim (last_price sym t) [
            | none ↦ (zero, t.positions)
            | some ltp ↦ calculate_pnl sym ltp t.broker_positions_cache t.positions
          ]
        ]
