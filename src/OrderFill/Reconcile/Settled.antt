-- ===== src/OrderFill/Reconcile/Settled.antt =====
-- What a round of the reconciliation in order_fill.py does to an order and to the reservations.
use mintzy_plugin_kelly_opt.Base.{
  ℕ, true, false, ◌&&◌, Option, none, some, List, ◌++◌, is_empty, Call, if◌then◌else◌, ◌≡◌, ◌⊎◌,
  inl, inr, arith, Bool-cases, Option-cases,
}
use mintzy_plugin_kelly_opt.Base.Int.{is_pos}
use mintzy_plugin_kelly_opt.Base.Text.{Text, codes, text_eq, text_eq_iff}
use mintzy_plugin_kelly_opt.Base.Dict.{Dict, lookup, lookup-pop, lookup-insert}
use mintzy_plugin_kelly_opt.Base.SymbolSet.{member}
use mintzy_plugin_kelly_opt.Symbols.{Environ}
use mintzy_plugin_kelly_opt.Redis.{Redis}
use mintzy_plugin_kelly_opt.Ledger.{buy, sell}
use mintzy_plugin_kelly_opt.Number.{Number}
use mintzy_plugin_kelly_opt.OrderFill.{
  Pending, LiveFill, BrokerRow, BookOrder, LiveTrader, exit_actions, flipping_actions,
  get_fill_details_from_orderbook, release_exposure,
}
use mintzy_plugin_kelly_opt.OrderFill.Fills.{
  track_engine_fill, finalize_symbol_exit_fill, exit_filled, entry_filled, handle_filled,
}
use mintzy_plugin_kelly_opt.OrderFill.Reconcile.{
  match_row, matched_qty, settle, fill_at_price, fill_matched, time_out, reconcile_order, Outcome,
}

-- An action that neither exits nor flips does not flip.
not_flipping :
    (action : Text)
    → member action (exit_actions ++ flipping_actions) ≡ false
    → member action flipping_actions ≡ false
unfolding member
not_flipping action h = ground arith

module _ (N : Number) (R : Redis) (environ : Environ) where
  open N use {Float, zero, minus, le}
  open R use {Store}

  -- A reservation with a value taken from it; one that is used up is gone.
  abbrev pub reduced : Float → Option Float → Option Float
  reduced value none = none
  reduced value (some held) = if le (minus held value) zero then none else some (minus held value)

  release_exposure_lem :
      (sym k : Text) (value : Float) (reserved : Dict Float)
      → lookup k (release_exposure N sym value reserved)
        ≡ (if text_eq sym k then reduced value (lookup k reserved) else lookup k reserved)
  unfolding release_exposure
  release_exposure_lem sym k value reserved = elim (Option-cases (lookup sym reserved)) [
    | inl q ↦ ground (arith, text_eq_iff sym k)
    | inr (held, q) ↦ ground (
      arith,
      text_eq_iff sym k,
      lookup-pop sym k reserved,
      lookup-insert sym k (minus held value) reserved,
    )
  ]

  -- A fill reserves and releases nothing.
  handle_filled-reserved :
      (symbol : Text) (fill : LiveFill Float) (ctx : Pending Float) (rows : List (BrokerRow Float))
      (book : Call (Option (List (BookOrder Float)))) (t : LiveTrader Float Store)
      → (handle_filled N R environ symbol fill ctx rows book t).reserved_exposure
        ≡ t.reserved_exposure
  unfolding handle_filled exit_filled entry_filled finalize_symbol_exit_fill track_engine_fill
  handle_filled-reserved symbol fill ctx rows book t = ground arith

  module _ (rows : List (BrokerRow Float)) (book : Call (Option (List (BookOrder Float)))) where
    abbrev IsReleased : Text → Pending Float → LiveTrader Float Store → Outcome N R environ → Type 0
    IsReleased sym ctx t r =
        (r ≡ (true, t))
        ⊎ ((r.0 ≡ false)
            × (r.1.reserved_exposure ≡ release_exposure N sym ctx.order_value t.reserved_exposure))

    at_price-IsReleased :
        (sym side : Text) (ctx : Pending Float) (t : LiveTrader Float Store)
        → IsReleased sym ctx t (fill_at_price N R environ rows book sym side ctx t)
    unfolding fill_at_price settle
    at_price-IsReleased sym side ctx t =
        let (actual_qty, exit_price) = get_fill_details_from_orderbook N book ctx.order_id in
        elim (Bool-cases (le exit_price zero)) [
          | inl q ↦ inl (ground arith)
          | inr q ↦
              let fill : LiveFill Float = record {
                side = side;
                qty = if is_pos actual_qty then actual_qty else ctx.qty;
                avg_price = exit_price;
              } in
              inr (ground arith, ground (arith, handle_filled-reserved sym fill ctx rows book t))
        ]

    reconcile_order-IsReleased :
        (now : ℕ) (sym : Text) (ctx : Pending Float) (t : LiveTrader Float Store)
        → IsReleased sym ctx t (reconcile_order N R environ rows book now sym ctx t)
    unfolding reconcile_order fill_matched settle time_out
    reconcile_order-IsReleased now sym ctx t =
        let flip_side = if text_eq ctx.action_type (codes "FLIP_TO_LONG") then buy else sell in
        elim (Option-cases (match_row sym ctx.side rows)) [
          | inl q ↦ ground (
            arith,
            at_price-IsReleased sym flip_side ctx t,
            at_price-IsReleased sym ctx.side ctx t,
          )
          | inr (p, q) ↦
              let (actual_qty, ob_avg) = get_fill_details_from_orderbook N book ctx.order_id in
              let fill : LiveFill Float = record {
                side = p.side;
                qty = matched_qty actual_qty p.qty ctx.qty;
                avg_price = if le p.avg_price zero && N.is_pos ob_avg then ob_avg else p.avg_price;
              } in
              ground (
                arith,
                at_price-IsReleased sym flip_side ctx t,
                handle_filled-reserved sym fill ctx rows book t,
              )
        ]

    -- The order stays and nothing changes; or it goes, its value is taken from what is reserved for
    -- its symbol, and every other symbol's reservation is as it was.
    abbrev pub IsSettled :
        Text → Pending Float → LiveTrader Float Store → Outcome N R environ → Type 0
    IsSettled sym ctx t r =
        (r ≡ (true, t))
        ⊎ ((r.0 ≡ false)
            × ((k : Text)
                → lookup k r.1.reserved_exposure ≡ (
                    if text_eq sym k
                    then reduced ctx.order_value (lookup k t.reserved_exposure)
                    else lookup k t.reserved_exposure)))

    -- An order that stays pending leaves the trader as it was; one that goes takes its order value
    -- from the reservation of its own symbol, which is gone where nothing is left, and leaves
    -- every other reservation as it was, whatever its fill does.
    pub reconcile_order-IsSettled :
        (now : ℕ) (sym : Text) (ctx : Pending Float) (t : LiveTrader Float Store)
        → IsSettled sym ctx t (reconcile_order N R environ rows book now sym ctx t)
    reconcile_order-IsSettled now sym ctx t =
        let reserved = t.reserved_exposure in
        elim (reconcile_order-IsReleased now sym ctx t) [
          | inl stays ↦ inl stays
          | inr (gone, released) ↦ inr (
            gone,
            λ k. ground (arith, released, release_exposure_lem sym k ctx.order_value reserved),
          )
        ]

    -- An entry that the broker's positions show with no price, while the order book has none
    -- either, goes from the pending orders, and the book and the ledger stay as they were.
    pub unpriced_entry_is_dropped :
        (now : ℕ) (sym : Text) (ctx : Pending Float) (t : LiveTrader Float Store)
        (p : BrokerRow Float)
        → is_empty ctx.order_id ≡ false
        → member ctx.action_type (exit_actions ++ flipping_actions) ≡ false
        → match_row sym ctx.side rows ≡ some p
        → le p.avg_price zero ≡ true
        → le (get_fill_details_from_orderbook N book ctx.order_id).1 zero ≡ true
        → reconcile_order N R environ rows book now sym ctx t ≡ (
          false,
          record t {
            reserved_exposure = release_exposure N sym ctx.order_value t.reserved_exposure;
          },
        )
    unfolding reconcile_order fill_matched settle handle_filled entry_filled
    unpriced_entry_is_dropped now sym ctx t p a b d e g =
        ground (arith, not_flipping ctx.action_type b)
