-- ===== src/Cycle/Frame.antt =====
-- What the loop over the signals leaves alone, and the symbols for which it does nothing.
use mintzy_plugin_kelly_opt.Base.{
  ◌≡◌, refl, ◌∙◌, inl, inr, Bool, true, ◌||◌, Option, none, some, List, Call, returned, Call-cases,
  Option-cases, arith,
}
use mintzy_plugin_kelly_opt.Base.Int.{ℤ, is_zero}
use mintzy_plugin_kelly_opt.Base.Text.{Text, codes}
use mintzy_plugin_kelly_opt.Base.Dict.{Dict, contains, lookup}
use mintzy_plugin_kelly_opt.Base.SymbolSet.{member}
use mintzy_plugin_kelly_opt.Symbols.{normalize_symbol}
use mintzy_plugin_kelly_opt.Number.{Number}
use mintzy_plugin_kelly_opt.Decimals.{Decimals}
use mintzy_plugin_kelly_opt.Pyramid.Document.{Root}
use mintzy_plugin_kelly_opt.Pyramid.Merge.{Mongo}
use mintzy_plugin_kelly_opt.OrderFill.{Pending}
use mintzy_plugin_kelly_opt.Exposure.{CachedRow}
use mintzy_plugin_kelly_opt.Analysis.{Info, cached_row}
use mintzy_plugin_kelly_opt.Cycle.{
  Cycle, not_hit, held_row, check_stop, queue_order, queue_stop, queue_flip, entry_qty,
}
use mintzy_plugin_kelly_opt.Cycle.Trade.{
  queue_entry, open_position, expand_position, expand_same_side, follow_signal, stop_or_follow,
  follow_broker, trade_symbol,
}
use mintzy_plugin_kelly_opt.Cycle.Effects.{slate}
use mintzy_plugin_kelly_opt.Cycle.Symbols.{follow_broker_lem}

-- The pending orders and the exited symbols.
abbrev pub round : {F S : Type 0} → Cycle F S → Dict (List (Pending F)) × List Text
round c = (c.pending, c.exited_symbols)

module _ (N : Number) (D : Decimals N) (json_loads : Text → Call (Option (Root N.Float)))
    (M : Mongo N.Float) (has_name : Text → M.Store → Call Bool) (st : M.Store) {S : Type 0}
    (sym : Text) where
  open N use {Float}

  queue_entry-round :
      (action_type side : Text) (curr_price : Float) (qty : ℤ) (c : Cycle Float S)
      → round (queue_entry N D json_loads M has_name st sym action_type side curr_price qty c)
        ≡ round c
  unfolding queue_entry queue_order
  queue_entry-round action_type side curr_price qty c = ground arith

  entry_qty-round :
      (curr_price : Float) (c : Cycle Float S) {qty : ℤ} {c' : Cycle Float S}
      → entry_qty N D sym curr_price c ≡ returned (qty, c')
      → round c' ≡ round c
  unfolding entry_qty
  entry_qty-round curr_price c h = ground arith

  open_position-round :
      (action_type side : Text) (curr_price : Float) (c : Cycle Float S)
      → round (open_position N D json_loads M has_name st sym action_type side curr_price c)
        ≡ round c
  unfolding open_position
  open_position-round action_type side curr_price c =
      elim (Call-cases (entry_qty N D sym curr_price c)) [
        | inl fails ↦ rw (fails, open_position) refl
        | inr ((qty, c1), sized) ↦
            rw (sized, open_position)
              (queue_entry-round action_type side curr_price qty c1
                ∙ entry_qty-round curr_price c sized)
      ]

  expand_position-round :
      (action_type side : Text) (curr_price : Float) (c : Cycle Float S)
      → round (expand_position N D json_loads M has_name st sym action_type side curr_price c)
        ≡ round c
  unfolding expand_position
  expand_position-round action_type side curr_price c =
      elim (Option-cases (lookup sym c.symbol_qty)) [
        | inl missing ↦ rw (missing, expand_position) refl
        | inr (qty, fixed) ↦
            rw (fixed, expand_position) (queue_entry-round action_type side curr_price qty c)
      ]

  module _ (info : Info Float) where
    follow_signal-round :
        (held : Option (CachedRow Float)) (c : Cycle Float S)
        → round (follow_signal N D json_loads M has_name st sym info held c) ≡ round c
    unfolding follow_signal expand_same_side queue_flip queue_order
    follow_signal-round none c = ground (
      arith,
      open_position-round (codes "OPEN_LONG") (codes "BUY") info.curr_price c,
      open_position-round (codes "OPEN_SHORT") (codes "SELL") info.curr_price c,
    )
    follow_signal-round (some p) c = ground (
      arith,
      expand_position-round (codes "EXPAND_LONG") (codes "BUY") info.curr_price c,
      expand_position-round (codes "EXPAND_SHORT") (codes "SELL") info.curr_price c,
    )

    stop_or_follow-round :
        (held : Option (CachedRow Float)) (c : Cycle Float S)
        → round (stop_or_follow N D json_loads M has_name st sym info held c) ≡ round c
    unfolding stop_or_follow queue_stop queue_order
    stop_or_follow-round none c = ground (arith, follow_signal-round none c)
    stop_or_follow-round (some p) c = ground (arith, follow_signal-round (some p) c)

    follow_broker-round :
        (held : Option (CachedRow Float)) (c : Cycle Float S)
        → round (follow_broker N D json_loads M has_name st sym held c) ≡ round c
    unfolding follow_broker
    follow_broker-round held c = ground arith

    -- No symbol's turn changes the pending orders or the exited symbols.
    pub trade_symbol-round :
        (c : Cycle Float S) → round (trade_symbol N D json_loads M has_name st sym info c) ≡ round c
    unfolding trade_symbol
    trade_symbol-round c =
        let held = held_row (cached_row N D sym c.desk.broker_positions_cache) in
        let c1 = follow_broker N D json_loads M has_name st sym held c in
        ground (arith, follow_broker-round held c, stop_or_follow-round held c1)

    -- A symbol with a pending order, an exited one, and one in the quiet regime.
    abbrev pub is_barred : Cycle Float S → Bool
    is_barred c =
        contains sym c.pending
        || (member (normalize_symbol sym) c.exited_symbols || is_zero info.risk_regime)

    check_stop_waits :
        (curr_price : Float) (p : CachedRow Float) (c : Cycle Float S)
        → contains sym c.pending ≡ true
        → check_stop N D sym curr_price p c ≡ not_hit
    unfolding check_stop
    check_stop_waits curr_price p c h = ground arith

    stop_or_follow_waits :
        (held : Option (CachedRow Float)) (c : Cycle Float S)
        → contains sym c.pending ≡ true
        → stop_or_follow N D json_loads M has_name st sym info held c ≡ c
    unfolding stop_or_follow
    stop_or_follow_waits none c h = rw (h, stop_or_follow) refl
    stop_or_follow_waits (some p) c h =
        rw (check_stop_waits info.curr_price p c h, h, stop_or_follow) refl

    pub barred_lem :
        (c : Cycle Float S)
        → is_barred c ≡ true
        → slate (trade_symbol N D json_loads M has_name st sym info c) ≡ slate c
    unfolding trade_symbol
    barred_lem c h =
        let held = held_row (cached_row N D sym c.desk.broker_positions_cache) in
        let c1 = follow_broker N D json_loads M has_name st sym held c in
        let (same, same_pending) = follow_broker_lem N D json_loads M has_name st sym info held c in
        ground (arith, same, same_pending, stop_or_follow_waits held c1)
